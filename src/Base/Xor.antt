-- ===== src/Base/Xor.antt =====
-- `^` on numbers: its laws, by the binary digits.
use Prim.Native.Nat.{ℕ, zero, suc, ◌+◌, ◌/◌, ◌%◌, ◌^◌, ◌≤◌, ◌<◌, bit_xor, differ}
use mathlib.Core.Path.{◌≡◌, refl, sym, ap, ◌∙◌}
use native.Mathlib.Nat.{pow-suc}
use native.Mathlib.Omega.{arith}
use myip.Base.Bits.{bit_xor_digit}

differ-lt : (x y : ℕ) → x < 2 → y < 2 → differ x y < 2
differ-lt zero y h k = k
differ-lt (suc zero) zero h k = h
differ-lt (suc zero) (suc zero) h k = omega arith
differ-lt (suc zero) (suc (suc y)) h k = absurd (omega arith)
differ-lt (suc (suc x)) y h k = absurd (omega arith)

differ_comm : (x y : ℕ) → differ x y ≡ differ y x
differ_comm zero zero = refl
differ_comm zero (suc y) = refl
differ_comm (suc x) zero = refl
differ_comm (suc x) (suc y) = differ_comm x y

differ_assoc : (x y z : ℕ) → x < 2 → y < 2 → z < 2 → differ (differ x y) z ≡ differ x (differ y z)
differ_assoc zero y z h k l = refl
differ_assoc (suc zero) zero z h k l = refl
differ_assoc (suc zero) (suc zero) zero h k l = refl
differ_assoc (suc zero) (suc zero) (suc zero) h k l = refl
differ_assoc (suc zero) (suc zero) (suc (suc z)) h k l = absurd (omega arith)
differ_assoc (suc zero) (suc (suc y)) z h k l = absurd (omega arith)
differ_assoc (suc (suc x)) y z h k l = absurd (omega arith)

differ_self : (x : ℕ) → differ x x ≡ 0
differ_self zero = refl
differ_self (suc x) = differ_self x

pub differ_zero : (x : ℕ) → differ x 0 ≡ x
differ_zero x = differ_comm x 0

-- The halves and the last digit.
pub bit_xor-half : (a b : ℕ) → bit_xor a b / 2 ≡ bit_xor (a / 2) (b / 2)
bit_xor-half a b =
    omega (arith, bit_xor_digit a b, differ-lt (a % 2) (b % 2) (omega arith) (omega arith))

pub bit_xor-odd : (a b : ℕ) → bit_xor a b % 2 ≡ differ (a % 2) (b % 2)
bit_xor-odd a b =
    omega (arith, bit_xor_digit a b, differ-lt (a % 2) (b % 2) (omega arith) (omega arith))

zero_up_to : (n a : ℕ) → a ≤ n → bit_xor a 0 ≡ a
zero_up_to n zero h = refl
zero_up_to zero (suc a) h = absurd (omega arith)
zero_up_to (suc n) (suc a) h = omega (
  arith,
  bit_xor_digit (suc a) 0,
  differ_comm (suc a % 2) 0,
  zero_up_to n (suc a / 2) (omega arith),
)

pub bit_xor_zero : (a : ℕ) → bit_xor a 0 ≡ a
bit_xor_zero a = zero_up_to a a (omega arith)

comm_up_to : (n a b : ℕ) → a ≤ n → b ≤ n → bit_xor a b ≡ bit_xor b a
comm_up_to zero a b h k =
    let x : a ≡ 0 = omega arith in let y : b ≡ 0 = omega arith in rw (x, y) refl
comm_up_to (suc n) a b h k = omega (
  arith,
  bit_xor_digit a b,
  bit_xor_digit b a,
  differ_comm (a % 2) (b % 2),
  comm_up_to n (a / 2) (b / 2) (omega arith) (omega arith),
)

pub bit_xor_comm : (a b : ℕ) → bit_xor a b ≡ bit_xor b a
bit_xor_comm a b = comm_up_to (a + b) a b (omega arith) (omega arith)

-- A number is its half and its last digit.
by_digits : (a b : ℕ) → a / 2 ≡ b / 2 → a % 2 ≡ b % 2 → a ≡ b
by_digits a b h k = omega arith

self_up_to : (n a : ℕ) → a ≤ n → bit_xor a a ≡ 0
self_up_to zero a h = let x : a ≡ 0 = omega arith in rw x refl
self_up_to (suc n) a h =
    omega (arith, bit_xor_digit a a, differ_self (a % 2), self_up_to n (a / 2) (omega arith))

pub bit_xor_self : (a : ℕ) → bit_xor a a ≡ 0
bit_xor_self a = self_up_to a a (omega arith)

assoc_up_to :
    (n a b c : ℕ) → a ≤ n → b ≤ n → c ≤ n → bit_xor (bit_xor a b) c ≡ bit_xor a (bit_xor b c)
assoc_up_to zero a b c h k l =
    let x : a ≡ 0 = omega arith in
    let y : b ≡ 0 = omega arith in let z : c ≡ 0 = omega arith in rw (x, y, z) refl
assoc_up_to (suc n) a b c h k l =
    let halves : bit_xor (bit_xor a b) c / 2 ≡ bit_xor a (bit_xor b c) / 2 =
      bit_xor-half (bit_xor a b) c
      ∙ ap (λ t. bit_xor t (c / 2)) (bit_xor-half a b)
      ∙ assoc_up_to n (a / 2) (b / 2) (c / 2) (omega arith) (omega arith) (omega arith)
      ∙ ap (bit_xor (a / 2)) (sym (bit_xor-half b c))
      ∙ sym (bit_xor-half a (bit_xor b c)) in
    let digits : bit_xor (bit_xor a b) c % 2 ≡ bit_xor a (bit_xor b c) % 2 =
      bit_xor-odd (bit_xor a b) c
      ∙ ap (λ t. differ t (c % 2)) (bit_xor-odd a b)
      ∙ differ_assoc (a % 2) (b % 2) (c % 2) (omega arith) (omega arith) (omega arith)
      ∙ ap (differ (a % 2)) (sym (bit_xor-odd b c))
      ∙ sym (bit_xor-odd a (bit_xor b c)) in
    by_digits (bit_xor (bit_xor a b) c) (bit_xor a (bit_xor b c)) halves digits

pub bit_xor_assoc : (a b c : ℕ) → bit_xor (bit_xor a b) c ≡ bit_xor a (bit_xor b c)
bit_xor_assoc a b c = assoc_up_to (a + b + c) a b c (omega arith) (omega arith) (omega arith)

-- What is done twice is undone.
pub bit_xor-twice : (a b : ℕ) → bit_xor (bit_xor a b) b ≡ a
bit_xor-twice a b = bit_xor_assoc a b b ∙ ap (bit_xor a) (bit_xor_self b) ∙ bit_xor_zero a

-- Both fit the same width.
pub bit_xor-lt : (w a b : ℕ) → a < 2 ^ w → b < 2 ^ w → bit_xor a b < 2 ^ w
bit_xor-lt zero a b h k =
    let x : a ≡ 0 = omega arith in let y : b ≡ 0 = omega arith in rw (x, y) (omega arith)
bit_xor-lt (suc w) a b h k = ground (
  arith,
  bit_xor_digit a b,
  pow-suc 2 w,
  bit_xor-lt w (a / 2) (b / 2),
  differ-lt (a % 2) (b % 2) (omega arith) (omega arith),
)
