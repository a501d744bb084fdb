-- ===== src/Icmp6/Verify.antt =====
-- The messages of icmp6.cpp verify, and an option of length 0 holds the reading of an advertisement.
use myip.Base.{
  ℕ, zero, suc, ◌+◌, ◌-◌, ◌%◌, ◌/◌, ◌*◌, ◌≡◌, ◌≤◌, ◌<◌, ◌==◌, refl, sym, ap, ◌∙◌, Bool-cases, inl,
  inr, false, List, [], ◌∷◌, ◌++◌, arith, All, All-append, length, replicate, shr, u8,
  length-append, length-replicate, append_assoc,
}
use myip.Checksum.{ip_checksum}
use myip.Checksum.Verify.{IsByte, checksum_verifies}
use myip.Icmp6.{out_size, message, pseudo_header, checked, walk, out_of_fuel}

out_size_lem : (n : ℕ) → (out_size n % 2 ≡ 0) × (8 + n ≤ out_size n) × (out_size n ≤ n + 16)
out_size_lem n = elim (Bool-cases ((8 + n) % 8 == 0)) [
  | inl h ↦ rw h (ground arith, omega arith, omega arith)
  | inr h ↦ rw h (ground arith, omega arith, omega arith)
]

bytes-replicate : (n : ℕ) → All IsByte (replicate n 0)
bytes-replicate zero = tt
bytes-replicate (suc n) = (omega arith, bytes-replicate n)

pseudo_header-length :
    (src dst : List ℕ) (size : ℕ)
    → length src ≡ 16
    → length dst ≡ 16
    → length (pseudo_header src dst size) ≡ 40
unfolding pseudo_header
pseudo_header-length src dst size h k =
    let rest : List ℕ =
      u8 (shr size 24) ∷ u8 (shr size 16) ∷ u8 (shr size 8) ∷ u8 size ∷ 0 ∷ 0 ∷ 0 ∷ 58 ∷ [] in
    omega (arith, length-append src (dst ++ rest), length-append dst rest)

pseudo_header-bytes :
    (src dst : List ℕ) (size : ℕ)
    → All IsByte src
    → All IsByte dst
    → All IsByte (pseudo_header src dst size)
unfolding pseudo_header
pseudo_header-bytes src dst size h k = All-append IsByte src _ h (
    All-append IsByte dst _ k (
      omega arith,
      (
        omega arith,
        (
          omega arith,
          (omega arith, (omega arith, (omega arith, (omega arith, (omega arith, tt))))),
        ),
      ),
    ))

-- A message with its checksum, behind the pseudo header of its addresses, has the sum 0: the receiver
-- accepts it.
checked-verifies :
    (src dst : List ℕ) (type code reserved : ℕ) (payload : List ℕ)
    → length src ≡ 16
    → length dst ≡ 16
    → All IsByte src
    → All IsByte dst
    → type < 256
    → code < 256
    → All IsByte payload
    → length payload ≤ 65535
    → let size = out_size (length payload) in
      ip_checksum
        (pseudo_header src dst size ++ checked src dst type code reserved payload)
        ((40 + size) / 2)
      ≡ 0
unfolding checked message
checked-verifies src dst type code reserved payload hs hd bs bd ht hc b small =
    let size = out_size (length payload) in
    let (even, least, most) = out_size_lem (length payload) in
    let pad : List ℕ = replicate (size - (8 + length payload)) 0 in
    let pad_length : length pad ≡ size - (8 + length payload) = length-replicate _ 0 in
    let head : List ℕ = pseudo_header src dst size in
    let head_length : length head ≡ 40 = pseudo_header-length src dst size hs hd in
    let pre : List ℕ = head ++ type ∷ code ∷ [] in
    let post : List ℕ =
      u8 (shr reserved 24)
      ∷ u8 (shr reserved 16)
      ∷ u8 (shr reserved 8)
      ∷ u8 reserved
      ∷ (payload ++ pad) in
    let n : ℕ = (40 + size) / 2 in
    let pre_length : length pre ≡ 2 * 21 = omega (arith, length-append head (type ∷ code ∷ [])) in
    let joined : (c d : ℕ) → head ++ type ∷ code ∷ c ∷ d ∷ post ≡ pre ++ c ∷ d ∷ post =
      λ c d. sym (append_assoc head (type ∷ code ∷ []) (c ∷ d ∷ post)) in
    ap (λ t. let c = ip_checksum t n in ip_checksum (head ++ type ∷ code ∷ shr c 8 ∷ u8 c ∷ post) n)
      (joined 0 0)
    ∙ ap (λ t. ip_checksum t n)
        (let c = ip_checksum (pre ++ 0 ∷ 0 ∷ post) n in joined (shr c 8) (u8 c))
    ∙ checksum_verifies 21 n pre post pre_length
        (omega (arith, length-append pre (0 ∷ 0 ∷ post), length-append payload pad)) (omega arith)
        (All-append IsByte head (type ∷ code ∷ []) (pseudo_header-bytes src dst size bs bd)
          (ht, (hc, tt)))
        (
          omega arith,
          (
            omega arith,
            (omega arith, (omega arith, All-append IsByte payload pad b (bytes-replicate _))),
          ),
        )

-- An option of length 0 is never passed.
pub walk-endless :
    (type : ℕ) (work : List ℕ) (fuel : ℕ)
    → (type == 3) ≡ false
    → walk fuel (type ∷ 0 ∷ work) ≡ out_of_fuel
unfolding walk
walk-endless type work zero h = refl
walk-endless type work (suc fuel) h =
    let ih = walk-endless type work fuel h in
    let filled : (length {A = ℕ} (0 ∷ work) == 0) ≡ false = ground arith in rw (h, filled, ih) refl
