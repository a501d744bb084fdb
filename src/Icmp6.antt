-- ===== src/Icmp6.antt =====
-- `class icmp6` of icmp6.cpp, and ndp.cpp, whose requests it sends. Router solicitations and counters
-- are left out; a device is taken to be attached.
pub mod Verify
use myip.Base.{
  ℕ, zero, suc, ◌+◌, ◌-◌, ◌%◌, ◌/◌, ◌*◌, ◌==◌, Bool, Option, none, some, List, [], ◌∷◌, ◌++◌, ltb,
  leb, if◌then◌else◌, length, get_or, take, drop, replicate, shr, u8, not,
}
use myip.Addr.Defs.{AnyAddr, mac, ipv6, make, get_exactly}
use myip.Checksum.{ip_checksum}
use myip.Ipv4.{Packet}

-- The arguments of a call of `transmit_packet` of the device.
pub record Transmitted : Type 0 where
  pub dst_mac : AnyAddr
  pub dst_ip : AnyAddr
  pub src_ip : AnyAddr
  pub payload : List ℕ

-- `out_size`: the next multiple of 8.
abbrev pub out_size : ℕ → ℕ
out_size payload_size =
    let used = 8 + payload_size in if used % 8 == 0 then used else used + (8 - used % 8)

-- The bytes of `out` that are sent, with a checksum.
unfoldable pub message : ℕ → ℕ → ℕ → List ℕ → ℕ → List ℕ
message type code reserved payload checksum =
    type
    ∷ code
    ∷ shr checksum 8
    ∷ u8 checksum
    ∷ u8 (shr reserved 24)
    ∷ u8 (shr reserved 16)
    ∷ u8 (shr reserved 8)
    ∷ u8 reserved
    ∷ (payload ++ replicate (out_size (length payload) - (8 + length payload)) 0)

-- The pseudo header before them.
unfoldable pub pseudo_header : List ℕ → List ℕ → ℕ → List ℕ
pseudo_header src dst size =
    src
    ++ (dst
        ++ u8 (shr size 24) ∷ u8 (shr size 16) ∷ u8 (shr size 8) ∷ u8 size ∷ 0 ∷ 0 ∷ 0 ∷ 58 ∷ [])

-- `out` with its checksum, between the bytes of two addresses.
unfoldable pub checked : List ℕ → List ℕ → ℕ → ℕ → ℕ → List ℕ → List ℕ
unfolding message pseudo_header
checked src dst type code reserved payload =
    let size = out_size (length payload) in
    let temp = pseudo_header src dst size ++ message type code reserved payload 0 in
    message type code reserved payload (ip_checksum temp ((40 + size) / 2))

-- `send_packet` on a device of a packet size: what is sent, and `none` where an assertion fails or a
-- byte behind `out` is accessed.
unfoldable pub send_packet :
    ℕ → AnyAddr → AnyAddr → AnyAddr → ℕ → ℕ → ℕ → List ℕ → Option (List Transmitted)
unfolding checked
send_packet max_packet_size dst_mac dst_ip src_ip type code reserved payload =
    let out = elim (get_exactly src_ip 16) as (λ _. Option (List Transmitted)) [
      | none ↦ none
      | some src ↦ elim (get_exactly dst_ip 16) [
        | none ↦ none
        | some dst ↦ some (
            record {
              dst_mac = dst_mac;
              dst_ip = dst_ip;
              src_ip = src_ip;
              payload = checked src dst type code reserved payload;
            }
            ∷ [])
      ]
    ] in
    if ltb max_packet_size (8 + length payload)
    then some []
    else (if ltb max_packet_size (8 + out_size (length payload)) then none else out)

-- `send_packet_neighbor_advertisement`
unfoldable pub send_packet_neighbor_advertisement :
    ℕ → AnyAddr → AnyAddr → AnyAddr → AnyAddr → Option (List Transmitted)
unfolding send_packet
send_packet_neighbor_advertisement max_packet_size my_mac my_ip peer_mac peer_ip =
    elim (get_exactly my_mac 6) [
      | none ↦ none
      | some m ↦ elim (get_exactly my_ip 16) [
        | none ↦ none
        | some ip ↦
            send_packet max_packet_size peer_mac peer_ip my_ip 136 0 0x60000000
              (ip ++ 0x02 ∷ 0x01 ∷ m)
      ]
    ]

-- The multicast address that `send_packet_neighbor_solicitation` prints and reads again: the last four
-- bytes are those of the address.
abbrev pub solicited : AnyAddr → AnyAddr
solicited check_ip =
    make ipv6 (0xff ∷ 0x02 ∷ (replicate 8 0 ++ 0 ∷ 1 ∷ take 4 (drop 12 check_ip.addr)))

-- `send_packet_neighbor_solicitation`, which is `send_request` of ndp.cpp.
unfoldable pub send_packet_neighbor_solicitation : ℕ → AnyAddr → AnyAddr → Option (List Transmitted)
unfolding send_packet
send_packet_neighbor_solicitation max_packet_size my_ip check_ip = elim (get_exactly check_ip 16) [
  | none ↦ none
  | some ip ↦
      send_packet max_packet_size (make mac (0x33 ∷ 0x33 ∷ 0 ∷ 0 ∷ 0 ∷ 2 ∷ [])) (solicited check_ip)
        my_ip 135 0 0 ip
]

-- `send_ping_reply`. `none` also for a request of less than 8 bytes, where a negative number of bytes
-- is copied.
unfoldable pub send_ping_reply : ℕ → AnyAddr → AnyAddr → Packet → Option (List Transmitted)
unfolding send_packet
send_ping_reply max_packet_size my_ip src_mac pkt =
    let p = pkt.data_ in
    let id_seq_nr =
      16777216 * get_or p 4 0 + 65536 * get_or p 5 0 + 256 * get_or p 6 0 + get_or p 7 0 in
    if ltb (length p) 8
    then none
    else send_packet max_packet_size src_mac pkt.src_addr my_ip 129 0 id_seq_nr (drop 8 p)

-- The loop of `process_router_advertisement` over the options.
pub data Walk : Type 0 where
  out_of_fuel no_prefix behind_packet : Walk
  prefix_found : (prefix_length : ℕ) → (prefix : AnyAddr) → Walk

unfoldable pub walk : ℕ → List ℕ → Walk
walk zero work = out_of_fuel
walk (suc fuel) [] = no_prefix
walk (suc fuel) (type ∷ work) =
    let next = walk fuel (drop (get_or work 0 0) (type ∷ work)) in
    if type == 3
    then (if ltb (length work) 31
        then behind_packet
        else prefix_found (get_or work 1 0) (make ipv6 (take 16 (drop 15 work))))
    else (if length work == 0 then behind_packet else next)

-- `process_router_advertisement`: the prefix that goes to the router.
unfoldable pub process_router_advertisement : ℕ → List ℕ → Walk
unfolding walk
process_router_advertisement fuel payload =
    if leb (length payload) 18 then no_prefix else walk fuel (drop 16 payload)
