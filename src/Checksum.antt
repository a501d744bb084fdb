-- ===== src/Checksum.antt =====
-- `ip_checksum` of network_layer.cpp and `tcp_udp_checksum` of transport_layer.cpp.
pub mod Verify
use myip.Base.{
  ℕ, zero, suc, ◌+◌, ◌-◌, ◌*◌, ◌/◌, ◌%◌, List, [], ◌∷◌, ◌++◌, Option, none, some, Bool, length,
  replicate, shr, shl, u8, u16, u32, bit_or, if◌then◌else◌,
}
use myip.Addr.Defs.{AnyAddr, Family, ipv4, mac, ax25, ipv6, get_exactly}

-- The loop over `n` words. `htons` of a word in memory is its first byte times 256 and its second;
-- the callers pass buffers of two bytes for each word.
unfoldable pub sum_loop : ℕ → ℕ → List ℕ → ℕ
sum_loop (suc n) cksum (x ∷ y ∷ p) = sum_loop n (u32 (cksum + (256 * x + y))) p
sum_loop n cksum p = cksum

-- Both foldings of the carries, on `uint32_t`, and the complement as `uint16_t`.
unfoldable pub fold : ℕ → ℕ
fold cksum =
    let once = cksum / 65536 + cksum % 65536 in
    let twice = u32 (once + once / 65536) in 65535 - twice % 65536

unfoldable pub ip_checksum : List ℕ → ℕ → ℕ
unfolding sum_loop fold
ip_checksum p n = fold (sum_loop n 0 p)

abbrev pub protocol : Bool → ℕ
protocol tcp = if tcp then 0x06 else 0x11

-- The pseudo header, the payload and a byte of padding.
unfoldable pub pseudo_ipv4 : List ℕ → List ℕ → Bool → List ℕ → List ℕ
pseudo_ipv4 src dst tcp payload =
    let len = length payload in
    src
    ++ dst
    ++ (0 ∷ protocol tcp ∷ u8 (shr len 8) ∷ u8 len ∷ [])
    ++ payload
    ++ replicate (len % 2) 0

unfoldable pub pseudo_ipv6 : List ℕ → List ℕ → Bool → List ℕ → List ℕ
pseudo_ipv6 src dst tcp payload =
    let len = length payload in
    src
    ++ dst
    ++ (u8 (shr len 24) ∷ u8 (shr len 16) ∷ u8 (shr len 8) ∷ u8 len ∷ 0 ∷ 0 ∷ 0 ∷ protocol tcp ∷ [])
    ++ payload
    ++ replicate (len % 2) 0

-- What `get(tgt, size)` copies, or `none` where its assertion fails.
abbrev both : AnyAddr → AnyAddr → ℕ → (List ℕ → List ℕ → ℕ) → Option ℕ
both a b n f = elim (get_exactly a n) [
  | none ↦ none
  | some x ↦ elim (get_exactly b n) [ none ↦ none | some y ↦ some (f x y) ]
]

abbrev by_family : Family → AnyAddr → AnyAddr → Bool → List ℕ → Option ℕ
by_family ipv6 src dst tcp payload =
    both src dst 16
      (λ x y. let temp = pseudo_ipv6 x y tcp payload in ip_checksum temp (length temp / 2))
by_family ipv4 src dst tcp payload =
    both src dst 4
      (λ x y. let temp = pseudo_ipv4 x y tcp payload in ip_checksum temp (length temp / 2))
by_family mac src dst tcp payload = some 0
by_family ax25 src dst tcp payload = some 0

-- `none`: an assertion fails, an address of another size than the destination's family has.
unfoldable pub tcp_udp_checksum : AnyAddr → AnyAddr → Bool → List ℕ → Option ℕ
unfolding pseudo_ipv4 pseudo_ipv6 ip_checksum get_exactly
tcp_udp_checksum src dst tcp payload = by_family dst.af src dst tcp payload
