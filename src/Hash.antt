-- ===== src/Hash.antt =====
-- `MurmurHash64A` of hash.cpp over a buffer of bytes, and `hash_address` of tcp.cpp, the key of a
-- TCP session.
use myip.Base.{
  ℕ, zero, suc, ◌+◌, ◌*◌, ◌/◌, ◌%◌, List, [], ◌∷◌, length, get_or, shl, shr, u64, bit_xor,
  if◌then◌else◌, ◌==◌, take,
}
use myip.Addr.Defs.{AnyAddr}

abbrev murmur_m : ℕ
murmur_m = 0xc6a4a7935bd1e995

-- Eight bytes as the `uint64_t` that a little-endian machine reads.
abbrev pub word_at : List ℕ → ℕ
word_at d =
    get_or d 0 0
    + shl (get_or d 1 0) 8
    + shl (get_or d 2 0) 16
    + shl (get_or d 3 0) 24
    + shl (get_or d 4 0) 32
    + shl (get_or d 5 0) 40
    + shl (get_or d 6 0) 48
    + shl (get_or d 7 0) 56

-- The loop over whole words: how many are left, the bytes left, and `h`. It returns the rest too.
unfoldable pub murmur_words : ℕ → List ℕ → ℕ → ℕ × List ℕ
murmur_words (suc n) (a ∷ b ∷ c ∷ d ∷ e ∷ f ∷ g ∷ h ∷ rest) acc =
    let k1 = u64 (word_at (a ∷ b ∷ c ∷ d ∷ e ∷ f ∷ g ∷ h ∷ []) * murmur_m) in
    let k2 = bit_xor k1 (shr k1 47) in
    let k3 = u64 (k2 * murmur_m) in murmur_words n rest (u64 (bit_xor acc k3 * murmur_m))
murmur_words n d acc = (acc, d)

-- The cases of the switch, which fall through from `k` down to 1.
unfoldable pub murmur_tail : ℕ → List ℕ → ℕ → ℕ
murmur_tail zero d h = h
murmur_tail (suc k) d h = murmur_tail k d (bit_xor h (shl (get_or d k 0) (8 * k)))

unfoldable pub murmur_hash : List ℕ → ℕ → ℕ
unfolding murmur_words murmur_tail
murmur_hash key seed =
    let len = length key in
    let (h1, d) = murmur_words (len / 8) key (bit_xor seed (u64 (len * murmur_m))) in
    let left = len % 8 in
    let h2 = (if left == 0 then h1 else u64 (murmur_tail left d h1 * murmur_m)) in
    let h3 = u64 (bit_xor h2 (shr h2 47) * murmur_m) in bit_xor h3 (shr h3 47)

-- `any_addr::get_hash`
unfoldable pub get_hash : AnyAddr → ℕ
unfolding murmur_hash
get_hash a = murmur_hash (take a.addr_size a.addr) 123

unfoldable pub hash_address : AnyAddr → ℕ → ℕ → ℕ
unfolding get_hash
hash_address a local_port peer_port =
    bit_xor (bit_xor (get_hash a) (u64 (shl local_port 32))) (u64 (shl peer_port 48))
