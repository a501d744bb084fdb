-- ===== src/Arp.antt =====
-- `class arp` of arp.cpp with what it takes from mac_resolver.cpp: requests, replies, and the wait of
-- a resolution.
pub mod Resolve
pub mod Exchange
use myip.Base.{
  ℕ, zero, suc, ◌+◌, Bool, true, false, not, ◌&&◌, ◌||◌, Option, none, some, List, [], ◌∷◌, ◌++◌,
  ltb, leb, ◌==◌, if◌then◌else◌, length, get_or, set, take, drop, replicate, shl, bit_and, max,
  sub64,
}
use myip.Addr.Defs.{
  AnyAddr, Family, ipv4, ipv6, mac, ax25, make, get_exactly, same_addr, memcmp, is_eq,
}
use myip.Cache.{Cache, find, replace, equivalent, update_cache, query_cache}

-- What `work` holds for an address that is being resolved: nothing yet, or a `mac_resolver_result`.
abbrev pub Work : Type 0
Work = List (AnyAddr × Option (Option AnyAddr))

-- The object; `interface` is a number, `cache` is the part that it inherits from address_cache.
pub record Arp : Type 0 where
  pub my_mac : AnyAddr
  pub my_ip : AnyAddr
  pub interface : ℕ
  pub cache : Cache
  pub work : Work

-- What is transmitted: destination, source, and the bytes of the packet, of the type 0x0806.
pub record Sent : Type 0 where
  pub dst_mac : AnyAddr
  pub src_mac : AnyAddr
  pub bytes : List ℕ

-- The bytes of `src` stored from an offset on.
abbrev pub store : List ℕ → ℕ → List ℕ → List ℕ
store buffer offset src = take offset buffer ++ (src ++ drop (offset + length src) buffer)

abbrev pub slice : List ℕ → ℕ → ℕ → List ℕ
slice buffer offset n = take n (drop offset buffer)

-- `swap_mac` and `swap_ipv4`: as many bytes at two offsets are exchanged.
unfoldable pub swap_bytes : ℕ → List ℕ → ℕ → ℕ → List ℕ
swap_bytes n buffer a b = store (store buffer a (slice buffer b n)) b (slice buffer a n)

-- The offsets of the addresses for the sizes of a packet.
abbrev pub sha_offset : ℕ
sha_offset = 8

abbrev pub spa_offset : ℕ → ℕ
spa_offset hw_size = 8 + hw_size

abbrev pub tha_offset : ℕ → ℕ → ℕ
tha_offset hw_size p_size = 8 + hw_size + p_size

abbrev pub tpa_offset : ℕ → ℕ → ℕ
tpa_offset hw_size p_size = 8 + hw_size + p_size + hw_size

abbrev pub end_offset : ℕ → ℕ → ℕ
end_offset hw_size p_size = 8 + hw_size + p_size + hw_size + p_size

abbrev pub is_ax25_type : ℕ → Bool
is_ax25_type ether_type = ether_type == 0x08ff || ether_type == 0x00cc

unfoldable pub mismatch : ℕ → ℕ → ℕ → Bool
mismatch ether_type hw_size p_size =
    (ether_type == 0x0800 && not (p_size == 4))
    || (ether_type == 0x08ff && not (hw_size == 7))
    || (ether_type == 0x00cc && not (hw_size == 7))

unfoldable pub is_gratuitous : List ℕ → ℕ → ℕ → ℕ → Bool
is_gratuitous p request hw_size p_size =
    (request == 1 || request == 2)
    && is_eq (memcmp 6 (drop (tha_offset hw_size p_size) p) (replicate 6 0xff))
    && same_addr (make ipv4 (drop (tpa_offset hw_size p_size) p))
        (make ipv4 (drop (spa_offset hw_size) p))

-- This side's hardware address at the sender's place; another type of addresses leaves what is there.
unfoldable pub own_address : Arp → ℕ → List ℕ → Option (List ℕ)
own_address a ether_type reply =
    if ether_type == 0x0800
    then elim (get_exactly a.my_mac 6) [ none ↦ none | some m ↦ some (store reply sha_offset m) ]
    else (if is_ax25_type ether_type
        then elim (get_exactly a.my_mac 7) [
          | none ↦ none
          | some m ↦ some (store reply sha_offset m)
        ]
        else some reply)

-- The bytes of a reply to a request for this side.
unfoldable pub reply_to : Arp → List ℕ → ℕ → ℕ → ℕ → Option (List ℕ)
unfolding swap_bytes own_address
reply_to a p ether_type hw_size p_size =
    elim (own_address a ether_type (swap_bytes 6 p sha_offset (tha_offset hw_size p_size))) [
      | none ↦ none
      | some reply ↦
          some (swap_bytes 4 (set reply 7 2) (spa_offset hw_size) (tpa_offset hw_size p_size))
    ]

-- The family of the address that a reply tells.
abbrev pub told : ℕ → Option Family
told ether_type =
    if ether_type == 0x0800 then some mac else (if is_ax25_type ether_type then some ax25 else none)

-- A reply: its address is stored for the one that waits. An unknown type of addresses fails the
-- assertion that a copied address is set.
unfoldable pub on_reply : Arp → List ℕ → ℕ → ℕ → Option Arp
on_reply a p ether_type hw_size =
    let work_ip = make ipv4 (drop (spa_offset hw_size) p) in
    elim (find work_ip a.work) [
      | none ↦ some a
      | some old ↦ elim (told ether_type) [
        | none ↦ none
        | some f ↦
            some (record a {
              work = replace work_ip (some (some (make f (drop sha_offset p)))) a.work;
            })
      ]
    ]

-- Where the last byte that is read of an address stands: six bytes are taken as a hardware address
-- and four as an IP address, whatever the sizes in the packet are.
abbrev pub read_end : ℕ → ℕ → ℕ
read_end hw_size p_size =
    max (max 14 (spa_offset hw_size + 4))
      (max (tha_offset hw_size p_size + 6) (tpa_offset hw_size p_size + 4))

abbrev learn : Arp → List ℕ → ℕ → Bool → ℕ → Option Arp
learn a p hw_size gratuitous now =
    if gratuitous
    then (elim (update_cache a.cache (make mac (drop sha_offset p))
        (make ipv4 (drop (spa_offset hw_size) p)) a.interface false now) [
          | none ↦ none
          | some c ↦ some (record a { cache = c })
        ])
    else some a

-- From the kind of the message on.
unfoldable pub dispatch : Arp → AnyAddr → List ℕ → ℕ → ℕ → ℕ → ℕ → Option (Arp × List Sent)
unfolding reply_to on_reply
dispatch a src_addr p ether_type hw_size p_size request =
    if request == 1
    then (if same_addr (make ipv4 (drop (tpa_offset hw_size p_size) p)) a.my_ip
        then elim (reply_to a p ether_type hw_size p_size) [
          | none ↦ none
          | some reply ↦
              some (a, record { dst_mac = src_addr; src_mac = a.my_mac; bytes = reply } ∷ [])
        ]
        else some (a, []))
    else (if request == 2
        then elim (on_reply a p ether_type hw_size) [ none ↦ none | some a' ↦ some (a', []) ]
        else some (a, []))

-- `operator()` on one packet from a source; `none`: an assertion fails or a read goes behind the
-- packet.
unfoldable pub receive : Arp → AnyAddr → List ℕ → ℕ → Option (Arp × List Sent)
unfolding mismatch is_gratuitous dispatch
receive a src_addr p now =
    let hw_size = get_or p 4 0 in
    let p_size = get_or p 5 0 in
    let ether_type = shl (get_or p 2 0) 8 + get_or p 3 0 in
    let request = shl (get_or p 6 0) 8 + get_or p 7 0 in
    if ltb (length p) 6 || ltb (length p) (end_offset hw_size p_size)
    then some (a, [])
    else (if mismatch ether_type hw_size p_size
        then some (a, [])
        else (if ltb (length p) (read_end hw_size p_size)
            then none
            else elim (learn a p hw_size (is_gratuitous p request hw_size p_size) now) [
              | none ↦ none
              | some a' ↦ dispatch a' src_addr p ether_type hw_size p_size request
            ]))
