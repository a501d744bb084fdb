-- ===== src/Arp/Resolve.antt =====
-- `send_request` and `check_special_ip_addresses` of arp.cpp, the addresses of ax25.cpp that they make,
-- and `get_mac` of mac_resolver.cpp.
use myip.Base.{
  ℕ, ◌-◌, Bool, true, false, not, ◌&&◌, Option, none, some, List, [], ◌∷◌, ◌++◌, map, leb, ◌==◌,
  if◌then◌else◌, length, get_or, take, replicate, shl, u8, bit_and, bit_or, min, sub64,
}
use myip.Addr.Defs.{AnyAddr, Family, ipv4, mac, ax25, make, get_exactly, same_family, index}
use myip.Cache.{find, equivalent, update_cache, query_cache}
use myip.Arp.{Work, Arp, Sent}

-- `ax25_address::generate_address`
unfoldable pub generate_address : List ℕ → ℕ → Bool → Bool → List ℕ
generate_address address ssid end_mark repeated =
    let put_n = min 6 (length address) in
    map (λ (c : ℕ). u8 (shl c 1)) (take put_n address)
    ++ (replicate (6 - put_n) 0x40
        ++ u8
            (bit_or (bit_or (shl ssid 1) (if end_mark then 1 else 0)) (if repeated then 128 else 0))
          ∷ [])

-- "QST", which all stations hear.
abbrev pub qst : Bool → AnyAddr
qst end_mark = make ax25 (generate_address (81 ∷ 83 ∷ 84 ∷ []) 0 end_mark false)

abbrev pub broadcast : AnyAddr
broadcast = make mac (replicate 6 0xff)

-- The bytes of a request; `none` is a failed assertion.
unfoldable pub request_bytes : Arp → AnyAddr → ℕ → ℕ → ℕ → ℕ → Option (List ℕ)
request_bytes a ip htype ptype_high ptype_low hw_size = elim (get_exactly a.my_mac hw_size) [
  | none ↦ none
  | some sha ↦ elim (get_exactly a.my_ip 4) [
    | none ↦ none
    | some spa ↦ elim (get_exactly ip 4) [
      | none ↦ none
      | some tpa ↦ some (
          0
          ∷ htype
          ∷ ptype_high
          ∷ ptype_low
          ∷ hw_size
          ∷ 4
          ∷ 0
          ∷ 1
          ∷ (sha ++ (spa ++ (replicate hw_size 0 ++ tpa))))
    ]
  ]
]

abbrev sent : Arp → AnyAddr → Option (List ℕ) → Option (List Sent)
sent a dest_mac none = none
sent a dest_mac (some bytes) =
    some (record { dst_mac = dest_mac; src_mac = a.my_mac; bytes = bytes } ∷ [])

-- `send_request`: what is transmitted, nothing where it returns false, `none` where an assertion
-- fails. A transmission is taken to succeed.
unfoldable pub send_request : Arp → AnyAddr → Family → Option (List Sent)
unfolding request_bytes generate_address
send_request a ip af =
    if not (same_family ip.af ipv4)
    then some []
    else (if same_family af mac
        then sent a broadcast (request_bytes a ip 1 0x08 0x00 6)
        else (if same_family af ax25
            then sent a (qst true) (request_bytes a ip 3 0x00 0xcc 7)
            else some []))

-- `check_special_ip_addresses` for the bytes of an address.
unfoldable pub check_special_ip_addresses : ℕ → ℕ → ℕ → ℕ → Family → Option AnyAddr
unfolding generate_address
check_special_ip_addresses i0 i1 i2 i3 family =
    let multicast = bit_and i0 0xf0 == 224 in
    if multicast && same_family family mac
    then some (make mac (0x01 ∷ 0x00 ∷ 0x5e ∷ i1 ∷ i2 ∷ i3 ∷ []))
    else (if multicast && same_family family ax25
        then some (qst false)
        else (if i0 == 255 && i1 == 255 && i2 == 255 && i3 == 255 then some broadcast else none))

-- `work.insert`, which keeps an entry that is there, and `work.erase`.
unfoldable pub insert : AnyAddr → Work → Work
insert ip work = elim (find ip work) [ none ↦ work ++ (ip, none) ∷ [] | some e ↦ work ]

unfoldable pub erase : AnyAddr → Work → Work
erase ip [] = []
erase ip ((k, e) ∷ work) =
    let rest = erase ip work in if equivalent k ip then rest else (k, e) ∷ rest

-- How a resolution goes on: it has a result, it ends the thread, or it waits, with `repeated` and
-- what it has transmitted.
pub data Pass : Type 0 where
  resolved : (a : Arp) → (result : Option (ℕ × AnyAddr)) → Pass
  thrown : Pass
  waiting : (a : Arp) → (repeated : Bool) → (log : List Sent) → Pass

-- `get_mac` up to its loop, on an interface of a family.
unfoldable pub get_mac : Arp → AnyAddr → Family → Pass
unfolding check_special_ip_addresses send_request insert query_cache
get_mac a ip family = elim (index ip 0) [
  | none ↦ thrown
  | some i0 ↦
      elim (check_special_ip_addresses i0 (get_or ip.addr 1 0) (get_or ip.addr 2 0)
        (get_or ip.addr 3 0) family) [
          | some special ↦ resolved a (some (a.interface, special))
          | none ↦ elim (query_cache a.cache ip false) [
            | some known ↦ resolved a (some known)
            | none ↦ elim (send_request a ip family) [
              | none ↦ thrown
              | some [] ↦ resolved a none
              | some (s ∷ log) ↦ waiting (record a { work = insert ip a.work }) false (s ∷ log)
            ]
          ]
        ]
]

-- After 1000 ms the entry is erased.
unfoldable pub timed_out : Arp → AnyAddr → Pass
unfolding erase
timed_out a ip = resolved (record a { work = erase ip a.work }) none

-- A pass of the loop at a time, that began at `start_ts`, up to the wait.
unfoldable pub wait_pass : Arp → AnyAddr → Family → ℕ → Bool → ℕ → ℕ → Pass
unfolding timed_out erase send_request
wait_pass a ip family start_ts repeated now_ms now_us =
    if leb 1000 (sub64 now_ms start_ts) then timed_out a ip else elim (find ip a.work) [
      | none ↦ resolved a none
      | some (some none) ↦ thrown
      | some (some (some mac_addr)) ↦
          elim (update_cache a.cache mac_addr ip a.interface false now_us) [
            | none ↦ thrown
            | some c ↦
                resolved (record a { work = erase ip a.work; cache = c })
                  (some (a.interface, mac_addr))
          ]
      | some none ↦
          if not repeated && leb 500 (sub64 now_ms start_ts)
          then elim (send_request a ip family) [ none ↦ thrown | some log ↦ waiting a true log ]
          else waiting a repeated []
    ]
