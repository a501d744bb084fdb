-- ===== src/Checksum/Verify.antt =====
-- What a receiver of a checksum relies on.
use myip.Base.{
  ℕ, zero, suc, ◌+◌, ◌*◌, ◌≤◌, ◌<◌, ◌≡◌, ap, ◌∙◌, List, [], ◌∷◌, ◌++◌, arith, length, length-append,
  u32, u8, shr, All, All-append, ◌^◌,
}
use myip.Checksum.{sum_loop, fold, ip_checksum}

abbrev pub IsByte : ℕ → Type 0
IsByte x = x < 256

-- The sum of the big-endian words of a buffer, without any carry.
abbrev pub word_sum : List ℕ → ℕ
word_sum [] = 0
word_sum (x ∷ []) = 0
word_sum (x ∷ y ∷ p) = 256 * x + y + word_sum p

word_sum-lt : (n : ℕ) (p : List ℕ) → length p ≤ 2 * n → All IsByte p → word_sum p ≤ 65535 * n
word_sum-lt n [] h k = omega arith
word_sum-lt n (x ∷ []) h k = omega arith
word_sum-lt zero (x ∷ y ∷ p) h k = absurd (omega arith)
word_sum-lt (suc n) (x ∷ y ∷ p) h k = omega (arith, word_sum-lt n p (omega arith) k.1.1)

sum_loop_lem :
    (n acc : ℕ) (p : List ℕ)
    → length p ≡ 2 * n
    → acc + word_sum p < 2 ^ 32
    → sum_loop n acc p ≡ acc + word_sum p
unfolding sum_loop
sum_loop_lem zero acc [] h k = omega arith
sum_loop_lem zero acc (x ∷ []) h k = absurd (omega arith)
sum_loop_lem zero acc (x ∷ y ∷ p) h k = absurd (omega arith)
sum_loop_lem (suc n) acc [] h k = absurd (omega arith)
sum_loop_lem (suc n) acc (x ∷ []) h k = absurd (omega arith)
sum_loop_lem (suc n) acc (x ∷ y ∷ p) h k =
    omega (arith, sum_loop_lem n (u32 (acc + (256 * x + y))) p (omega arith) (omega arith))

-- The checksum of a buffer of at most 65536 words is the folded sum of its words: nothing is lost
-- to the width of the counter.
pub ip_checksum_lem :
    (n : ℕ) (p : List ℕ)
    → length p ≡ 2 * n
    → n ≤ 65536
    → All IsByte p
    → ip_checksum p n ≡ fold (word_sum p)
unfolding ip_checksum
ip_checksum_lem n p h k b =
    let whole : sum_loop n 0 p ≡ word_sum p =
      omega (arith, sum_loop_lem n 0 p, word_sum-lt n p (omega arith) b) in
    ap fold whole

word_sum-append :
    (n : ℕ) (p q : List ℕ) → length p ≡ 2 * n → word_sum (p ++ q) ≡ word_sum p + word_sum q
word_sum-append zero [] q h = omega arith
word_sum-append zero (x ∷ p) q h = absurd (omega arith)
word_sum-append (suc n) [] q h = absurd (omega arith)
word_sum-append (suc n) (x ∷ []) q h = absurd (omega arith)
word_sum-append (suc n) (x ∷ y ∷ p) q h = omega (arith, word_sum-append n p q (omega arith))

fold-complement : (s : ℕ) → s ≤ 65535 * 65535 → fold (s + fold s) ≡ 0
unfolding fold
fold-complement s h = omega arith

pub fold-lt : (s : ℕ) → fold s < 65536
unfolding fold
fold-lt s = omega arith

patched :
    (i : ℕ) (pre post : List ℕ) (c : ℕ)
    → length pre ≡ 2 * i
    → c < 65536
    → word_sum (pre ++ shr c 8 ∷ u8 c ∷ post) ≡ word_sum (pre ++ 0 ∷ 0 ∷ post) + c
patched i pre post c h k =
    omega (
      arith,
      word_sum-append i pre (shr c 8 ∷ u8 c ∷ post) h,
      word_sum-append i pre (0 ∷ 0 ∷ post) h,
    )

-- A sender computes the checksum of a buffer of at most 65535 words in which the word at an even
-- place is 0, and stores it there with its high byte first, as `ipv4::transmit_packet`,
-- `tcp::send_segment` and `udp::transmit_packet` do. Then the checksum of the buffer is 0.
pub checksum_verifies :
    (i n : ℕ) (pre post : List ℕ)
    → length pre ≡ 2 * i
    → length (pre ++ 0 ∷ 0 ∷ post) ≡ 2 * n
    → n ≤ 65535
    → All IsByte pre
    → All IsByte post
    → let c = ip_checksum (pre ++ 0 ∷ 0 ∷ post) n in
      ip_checksum (pre ++ shr c 8 ∷ u8 c ∷ post) n ≡ 0
checksum_verifies i n pre post h k small b d =
    let c = ip_checksum (pre ++ 0 ∷ 0 ∷ post) n in
    let zeros : All IsByte (pre ++ 0 ∷ 0 ∷ post) =
      All-append IsByte pre (0 ∷ 0 ∷ post) b (omega arith, (omega arith, d)) in
    let c_sum : c ≡ fold (word_sum (pre ++ 0 ∷ 0 ∷ post)) =
      ip_checksum_lem n (pre ++ 0 ∷ 0 ∷ post) k (omega arith) zeros in
    let c_small : c < 65536 = rw c_sum (fold-lt (word_sum (pre ++ 0 ∷ 0 ∷ post))) in
    let bytes : All IsByte (pre ++ shr c 8 ∷ u8 c ∷ post) =
      All-append IsByte pre (shr c 8 ∷ u8 c ∷ post) b (omega arith, (omega arith, d)) in
    let same_length : length (pre ++ shr c 8 ∷ u8 c ∷ post) ≡ 2 * n =
      omega (arith, length-append pre (shr c 8 ∷ u8 c ∷ post), length-append pre (0 ∷ 0 ∷ post)) in
    let sum_small : word_sum (pre ++ 0 ∷ 0 ∷ post) ≤ 65535 * 65535 =
      omega (arith, word_sum-lt n (pre ++ 0 ∷ 0 ∷ post) (omega arith) zeros) in
    ip_checksum_lem n (pre ++ shr c 8 ∷ u8 c ∷ post) same_length (omega arith) bytes
    ∙ ap fold (patched i pre post c h c_small)
    ∙ rw c_sum (fold-complement (word_sum (pre ++ 0 ∷ 0 ∷ post)) sum_small)
