-- ===== src/Ipv6.antt =====
-- `class ipv6` of ipv6.cpp: the header of a packet that is sent, and what becomes of one that is
-- received. Packets, their ways and the protocols of a layer are those of Ipv4.
pub mod Delivery
use myip.Base.{
  ℕ, zero, suc, ◌+◌, ◌-◌, ◌*◌, Bool, true, false, not, ◌&&◌, Option, none, some, List, [], ◌∷◌,
  ◌++◌, ltb, leb, ◌==◌, if◌then◌else◌, length, get_or, take, drop, shr, shl, u8, bit_and, bit_or,
  min,
}
use myip.Addr.Defs.{AnyAddr, ipv6, make, get_exactly, same_addr}
use myip.Cache.{Cache, update_cache}
use myip.Ipv4.{Packet, Routed, Event, queued, registered}

-- The object; `indp` is the address cache of NDP.
pub record Ipv6 : Type 0 where
  pub myip : AnyAddr
  pub prot_map : List ℕ
  pub indp : Cache
  pub ip_n_pkt : ℕ
  pub ip_n_disc : ℕ
  pub ip_n_del : ℕ
  pub ipv6_n_pkt : ℕ
  pub ipv6_not_me : ℕ
  pub ipv6_unk_prot : ℕ

-- The buffer `out`; `flow_label` is the random number.
unfoldable pub packet_bytes : ℕ → ℕ → List ℕ → List ℕ → List ℕ → List ℕ
packet_bytes flow_label protocol src dst payload =
    let pl_size = length payload in
    0x60
    ∷ bit_and (shr flow_label 16) 0x0f
    ∷ u8 (shr flow_label 8)
    ∷ u8 flow_label
    ∷ u8 (shr pl_size 8)
    ∷ u8 pl_size
    ∷ protocol
    ∷ 255
    ∷ (src ++ (dst ++ payload))

-- `transmit_packet`: what it hands to the router; `none` is a failed assertion.
unfoldable pub transmit_packet : ℕ → Option AnyAddr → AnyAddr → AnyAddr → ℕ → List ℕ → Option Routed
unfolding packet_bytes
transmit_packet flow_label dst_mac dst_ip src_ip protocol payload = elim (get_exactly src_ip 16) [
  | none ↦ none
  | some src ↦ elim (get_exactly dst_ip 16) [
    | none ↦ none
    | some dst ↦ some (record {
      dst_mac = dst_mac;
      ether_type = 0x86dd;
      dst_ip = dst_ip;
      src_mac = none;
      src_ip = src_ip;
      payload = packet_bytes flow_label protocol src dst payload;
    })
  ]
]

abbrev pub pkt_dst : List ℕ → AnyAddr
pkt_dst p = make ipv6 (drop 24 p)

abbrev pub pkt_src : List ℕ → AnyAddr
pkt_src p = make ipv6 (drop 8 p)

-- The walk from `nh` on as long as 8 bytes are left before `eh`: each round goes on by 8 bytes or
-- more, so a fuel of the size of the packet is enough.
unfoldable pub walk : ℕ → List ℕ → ℕ → ℕ → ℕ → ℕ × ℕ
walk zero p eh protocol nh = (protocol, nh)
walk (suc fuel) p eh protocol nh =
    let rest = walk fuel p eh (get_or p nh 0) (nh + (get_or p (nh + 1) 0 + 1) * 8) in
    if leb (nh + 8) eh then rest else (protocol, nh)

-- A packet of a protocol with a header of a size, and `size` bytes behind it; `none`: the copies read
-- behind the received packet.
unfoldable pub accept : Ipv6 → Packet → ℕ → ℕ → ℕ → Option (Ipv6 × List Event)
unfolding registered
accept s pkt protocol header_size size =
    if not (registered s.prot_map protocol)
    then some (record s { ipv6_unk_prot = s.ipv6_unk_prot + 1; ip_n_disc = s.ip_n_disc + 1 }, [])
    else (if ltb (length pkt.data_) (header_size + size)
        then none
        else some (
          record s { ip_n_del = s.ip_n_del + 1 },
          queued protocol (record {
            src_mac_addr = pkt.src_mac_addr;
            src_addr = pkt_src pkt.data_;
            dst_addr = pkt_dst pkt.data_;
            data_ = take size (drop header_size pkt.data_);
            header = take header_size pkt.data_;
            is_forwarded = false;
          })
              ∷ [],
        ))

-- From the length on, which is cut to the size of the packet.
unfoldable pub check_size : Ipv6 → Packet → ℕ → Option (Ipv6 × List Event)
unfolding walk accept
check_size s pkt ip_length =
    let p = pkt.data_ in
    let ip_size = if ltb (length p) ip_length then length p else ip_length in
    let (protocol, nh) = walk (length p) p (length p - ip_size) (get_or p 6 0) 40 in
    accept s pkt protocol nh ip_size

unfoldable pub is_for_me : Ipv6 → List ℕ → Bool
is_for_me s p =
    if same_addr (pkt_dst p) s.myip then true else get_or p 24 0 == 0xff && get_or p 25 0 == 0x02

unfoldable pub learn : Ipv6 → ℕ → Packet → ℕ → Option Ipv6
learn s interface pkt now =
    if pkt.is_forwarded
    then some s
    else elim (update_cache s.indp pkt.src_addr (pkt_src pkt.data_) interface false now) [
      | none ↦ none
      | some c ↦ some (record s { indp = c })
    ]

-- `operator()` on one packet; `none`: an assertion fails or a read goes behind the packet.
unfoldable pub receive : Ipv6 → ℕ → Packet → ℕ → Option (Ipv6 × List Event)
unfolding check_size is_for_me learn
receive s interface pkt now =
    let p = pkt.data_ in
    let s1 = record s { ip_n_pkt = s.ip_n_pkt + 1 } in
    if ltb (length p) 40
    then some (record s1 { ip_n_disc = s.ip_n_disc + 1 }, [])
    else (if not (shr (get_or p 0 0) 4 == 6)
        then some (record s1 { ip_n_disc = s.ip_n_disc + 1 }, [])
        else (let s2 = record s1 { ipv6_n_pkt = s.ipv6_n_pkt + 1 } in
            if not (is_for_me s2 p)
            then some
                (record s2 { ipv6_not_me = s.ipv6_not_me + 1; ip_n_disc = s.ip_n_disc + 1 }, [])
            else elim (learn s2 interface pkt now) [
              | none ↦ none
              | some s3 ↦ check_size s3 pkt (bit_or (shl (get_or p 4 0) 8) (get_or p 5 0))
            ]))
