-- ===== src/Buffer/RoundTrip.antt =====
-- What is written by buffer_out.cpp is read back by buffer_in.cpp.
use myip.Base.{
  ℕ, zero, suc, ◌+◌, ◌-◌, ◌*◌, ◌/◌, ◌%◌, ◌^◌, ◌<◌, ◌≡◌, ap, ◌∙◌, some, List, [], ◌∷◌, ◌++◌, ◌==◌,
  length, get_or, replicate, shl, shr, u8, bit_or, arith, length-append, append_assoc, Bool-cases,
  inl, inr, append-nil,
}
use myip.Buffer.{
  BufferIn, BufferOut, get_net_short, get_net_long, add_net_short, add_net_long, add_padding,
}
use native.Mathlib.Nat.{mod-lt, div-add-mod, mul-mod_right}
use myip.Tcp.Wire.{be32_value-be32, be16_value-be16}

pub get_or-append : (xs ys : List ℕ) (i : ℕ) → get_or (xs ++ ys) (length xs + i) 0 ≡ get_or ys i 0
get_or-append [] ys i = ap (λ k. get_or ys k 0) (omega arith)
get_or-append (x ∷ xs) ys i =
    let e : suc (length xs) + i ≡ suc (length xs + i) = omega arith in rw e (get_or-append xs ys i)

-- A reader that stands behind the bytes `out`, in a buffer of the bytes `p`.
abbrev pub reader : List ℕ → List ℕ → BufferIn
reader out p = record { p = p; size = length p; o = length out }

read_long :
    (out rest : List ℕ) (a b c d : ℕ)
    → get_net_long (reader out (out ++ a ∷ b ∷ c ∷ d ∷ rest))
      ≡ some (
        bit_or (bit_or (bit_or (shl a 24) (shl b 16)) (shl c 8)) d,
        record {
          p = out ++ a ∷ b ∷ c ∷ d ∷ rest;
          size = length (out ++ a ∷ b ∷ c ∷ d ∷ rest);
          o = length out + 4;
        },
      )
unfolding get_net_long
read_long out rest a b c d = ground (
  arith,
  get_or-append out (a ∷ b ∷ c ∷ d ∷ rest) 0,
  get_or-append out (a ∷ b ∷ c ∷ d ∷ rest) 1,
  get_or-append out (a ∷ b ∷ c ∷ d ∷ rest) 2,
  get_or-append out (a ∷ b ∷ c ∷ d ∷ rest) 3,
  length-append out (a ∷ b ∷ c ∷ d ∷ rest),
)

read_short :
    (out rest : List ℕ) (a b : ℕ)
    → get_net_short (reader out (out ++ a ∷ b ∷ rest))
      ≡ some (
        bit_or (shl a 8) b,
        record { p = out ++ a ∷ b ∷ rest; size = length (out ++ a ∷ b ∷ rest); o = length out + 2 },
      )
unfolding get_net_short
read_short out rest a b = ground (
  arith,
  get_or-append out (a ∷ b ∷ rest) 0,
  get_or-append out (a ∷ b ∷ rest) 1,
  length-append out (a ∷ b ∷ rest),
)

-- A 16-bit number that `add_net_short` appends is what `get_net_short` reads at its place, whatever
-- follows, and the reader then stands behind it.
pub get_net_short-add_net_short :
    (out rest : List ℕ) (s : ℕ)
    → s < 65536
    → get_net_short (reader out (add_net_short out s ++ rest))
      ≡ some (s, reader (add_net_short out s) (add_net_short out s ++ rest))
unfolding add_net_short
get_net_short-add_net_short out rest s h =
    let e : (out ++ u8 (shr s 8) ∷ u8 s ∷ []) ++ rest ≡ out ++ u8 (shr s 8) ∷ u8 s ∷ rest =
      append_assoc out (u8 (shr s 8) ∷ u8 s ∷ []) rest in
    ground (
      arith,
      e,
      read_short out rest (u8 (shr s 8)) (u8 s),
      length-append out (u8 (shr s 8) ∷ u8 s ∷ []),
      be16_value-be16 s,
    )

-- A 32-bit number that `add_net_long` appends is what `get_net_long` reads at its place, whatever
-- follows, and the reader then stands behind it.
pub get_net_long-add_net_long :
    (out rest : List ℕ) (l : ℕ)
    → l < 2 ^ 32
    → get_net_long (reader out (add_net_long out l ++ rest))
      ≡ some (l, reader (add_net_long out l) (add_net_long out l ++ rest))
unfolding add_net_long
get_net_long-add_net_long out rest l h =
    let x : List ℕ = u8 (shr l 24) ∷ u8 (shr l 16) ∷ u8 (shr l 8) ∷ u8 l ∷ [] in
    let e : (out ++ x) ++ rest ≡ out ++ u8 (shr l 24) ∷ u8 (shr l 16) ∷ u8 (shr l 8) ∷ u8 l ∷ rest =
      append_assoc out x rest in
    ground (
      arith,
      e,
      read_long out rest (u8 (shr l 24)) (u8 (shr l 16)) (u8 (shr l 8)) (u8 l),
      length-append out x,
      be32_value-be32 l,
    )

up_to_multiple : (n m : ℕ) → n % m < m → m * (n / m) + n % m ≡ n → n + (m - n % m) ≡ m * (n / m + 1)
up_to_multiple n m h e = omega arith

-- `add_padding` appends zeros, fewer than `m`, up to a multiple of `m`.
pub add_padding-multiple :
    (out : BufferOut) (m : ℕ)
    → zero < m
    → (k : ℕ) × (k < m) × (add_padding out m ≡ out ++ replicate k 0) × ((length out + k) % m ≡ 0)
unfolding add_padding
add_padding-multiple out m h =
    let lt : length out % m < m = mod-lt (length out) h in
    let e : m * (length out / m) + length out % m ≡ length out = div-add-mod (length out) m in
    elim (Bool-cases (m - length out % m == m)) [
      | inl b ↦
          let z : length out % m ≡ 0 = ground arith in
          (0, h, ground (arith, append-nil out), ap (λ t. t % m) (omega arith) ∙ z)
      | inr b ↦ (
        m - length out % m,
        ground arith,
        ground arith,
        ap (λ t. t % m) (up_to_multiple (length out) m lt e) ∙ mul-mod_right m (length out / m + 1),
      )
    ]
