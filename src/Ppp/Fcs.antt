-- ===== src/Ppp/Fcs.antt =====
-- The table of the check sequence in phys_gen_ppp.cpp, and the sequence without a table.
use Prim.Native.Nat.{differ}
use native.Mathlib.Nat.{pow-suc}
use myip.Base.{
  ap₂, bit_xor_digit, differ_zero, ℕ, zero, suc, ◌+◌, ◌*◌, ◌/◌, ◌%◌, ◌^◌, ◌<◌, ◌≡◌, refl, sym, ap,
  ◌∙◌, List, [], ◌∷◌, ◌==◌, if◌then◌else◌, arith, All, shr, u8, u16, bit_xor, bit_and, bit_and_low,
  bit_xor-half, bit_xor-odd, bit_xor-lt, bit_xor_assoc, bit_xor_comm, bit_xor_zero, Bool-cases, inl,
  inr,
}
use myip.Checksum.Verify.{IsByte}
use myip.Ppp.{fcs_loop, fcstab, run_fcs}

-- One bit of the polynomial division, and `n` of them.
abbrev pub divide : ℕ → ℕ
divide x = if x % 2 == 0 then x / 2 else bit_xor (x / 2) 0x8408

abbrev pub divide_times : ℕ → ℕ → ℕ
divide_times zero x = x
divide_times (suc n) x = divide_times n (divide x)

-- The check sequence of RFC 1662, bit by bit.
unfoldable pub plain_fcs : ℕ → List ℕ → ℕ
plain_fcs fcs [] = fcs
plain_fcs fcs (b ∷ bytes) = plain_fcs (divide_times 8 (bit_xor fcs b)) bytes

-- A step of the constructor's loop is a division of the exclusive or of its variables.
abbrev loop_step : ℕ → ℕ → ℕ
loop_step value temp =
    if bit_and (bit_xor value temp) 1 == 0 then shr value 1 else u16 (bit_xor (shr value 1) 0x8408)

loop_step-lt : (v t : ℕ) → v < 65536 → loop_step v t < 65536
loop_step-lt v t h = ground arith

divide-step : (v t : ℕ) → v < 65536 → divide (bit_xor v t) ≡ bit_xor (loop_step v t) (t / 2)
divide-step v t h =
    let low : bit_and (bit_xor v t) 1 ≡ bit_xor v t % 2 = bit_and_low 1 (bit_xor v t) in
    let small : bit_xor (v / 2) 0x8408 < 65536 =
      bit_xor-lt 16 (v / 2) 0x8408 (omega arith) (omega arith) in
    let half = bit_xor-half v t in
    let swap : bit_xor (bit_xor (v / 2) (t / 2)) 0x8408 ≡ bit_xor (bit_xor (v / 2) 0x8408) (t / 2) =
      bit_xor_assoc (v / 2) (t / 2) 0x8408
      ∙ ap (bit_xor (v / 2)) (bit_xor_comm (t / 2) 0x8408)
      ∙ sym (bit_xor_assoc (v / 2) 0x8408 (t / 2)) in
    let whole : u16 (bit_xor (v / 2) 0x8408) ≡ bit_xor (v / 2) 0x8408 = omega (arith, small) in
    elim (Bool-cases (bit_xor v t % 2 == 0)) [
      | inl e ↦ rw (low, e) half
      | inr e ↦
          rw (low, e)
            (ap (λ x. bit_xor x 0x8408) half ∙ swap ∙ ap (λ x. bit_xor x (t / 2)) (sym whole))
    ]

abbrev halved : ℕ → ℕ → ℕ
halved zero t = t
halved (suc j) t = halved j (t / 2)

divide_times-loop :
    (j v t : ℕ) → v < 65536 → divide_times j (bit_xor v t) ≡ bit_xor (fcs_loop j v t) (halved j t)
unfolding fcs_loop
divide_times-loop zero v t h = refl
divide_times-loop (suc j) v t h =
    ap (divide_times j) (divide-step v t h)
    ∙ divide_times-loop j (loop_step v t) (t / 2) (loop_step-lt v t h)

abbrev doubled : ℕ → ℕ → ℕ
doubled zero x = x
doubled (suc j) x = 2 * doubled j x

divide-double : (x d : ℕ) → divide (bit_xor x (2 * d)) ≡ bit_xor (divide x) d
divide-double x d =
    let odd : bit_xor x (2 * d) % 2 ≡ x % 2 =
      bit_xor-odd x (2 * d) ∙ ap (differ (x % 2)) (omega arith) ∙ differ_zero (x % 2) in
    let half : bit_xor x (2 * d) / 2 ≡ bit_xor (x / 2) d =
      bit_xor-half x (2 * d) ∙ ap (bit_xor (x / 2)) (omega arith) in
    let swap : bit_xor (bit_xor (x / 2) d) 0x8408 ≡ bit_xor (bit_xor (x / 2) 0x8408) d =
      bit_xor_assoc (x / 2) d 0x8408
      ∙ ap (bit_xor (x / 2)) (bit_xor_comm d 0x8408)
      ∙ sym (bit_xor_assoc (x / 2) 0x8408 d) in
    elim (Bool-cases (x % 2 == 0)) [
      | inl e ↦ rw (odd, half, e) refl
      | inr e ↦ rw (odd, half, e) swap
    ]

divide_times-doubled :
    (j x h : ℕ) → divide_times j (bit_xor x (doubled j h)) ≡ bit_xor (divide_times j x) h
divide_times-doubled zero x h = refl
divide_times-doubled (suc j) x h =
    ap (divide_times j) (divide-double x (doubled j h)) ∙ divide_times-doubled j (divide x) h

bit_xor-doubled : (j l h : ℕ) → l < 2 ^ j → bit_xor l (doubled j h) ≡ l + doubled j h
bit_xor-doubled zero l h k = ground (arith, bit_xor_comm l h, bit_xor_zero h)
bit_xor-doubled (suc j) l h k = ground (
  arith,
  bit_xor_digit l (2 * doubled j h),
  pow-suc 2 j,
  differ_zero (l % 2),
  bit_xor-doubled j (l / 2) h,
)

halved-bit_xor : (j a b : ℕ) → halved j (bit_xor a b) ≡ bit_xor (halved j a) (halved j b)
halved-bit_xor zero a b = refl
halved-bit_xor (suc j) a b = ap (halved j) (bit_xor-half a b) ∙ halved-bit_xor j (a / 2) (b / 2)

halved_lem : (t : ℕ) → halved 8 t ≡ t / 256
halved_lem t = omega arith

table_step :
    (fcs b : ℕ)
    → b < 256
    → bit_xor (shr fcs 8) (fcstab (bit_and (bit_xor fcs b) 0xff)) ≡ divide_times 8 (bit_xor fcs b)
unfolding fcstab
table_step fcs b small =
    let x : ℕ = bit_xor fcs b in
    let low : bit_and x 0xff ≡ x % 256 = bit_and_low 8 x in
    let empty : halved 8 b ≡ 0 = omega arith in
    let high : x / 256 ≡ fcs / 256 =
      sym (halved_lem (bit_xor fcs b))
      ∙ halved-bit_xor 8 fcs b
      ∙ ap₂ bit_xor (halved_lem fcs) empty
      ∙ bit_xor_zero (fcs / 256) in
    let parts : bit_xor (x % 256) (doubled 8 (x / 256)) ≡ x =
      bit_xor-doubled 8 (x % 256) (x / 256) (omega arith) ∙ omega arith in
    let none_left : halved 8 (x % 256) ≡ 0 = omega arith in
    let table : divide_times 8 (x % 256) ≡ fcs_loop 8 0 (x % 256) =
      ap (divide_times 8) (sym (bit_xor_comm 0 (x % 256) ∙ bit_xor_zero (x % 256)))
      ∙ divide_times-loop 8 0 (x % 256) (omega arith)
      ∙ ap (bit_xor (fcs_loop 8 0 (x % 256))) none_left
      ∙ bit_xor_zero _ in
    let byte : u8 (bit_and x 0xff) ≡ x % 256 = omega (arith, low) in
    bit_xor_comm (shr fcs 8) (fcs_loop 8 0 (u8 (bit_and x 0xff)))
    ∙ ap (λ t. bit_xor (fcs_loop 8 0 t) (shr fcs 8)) byte
    ∙ ap₂ bit_xor (sym table) (sym high)
    ∙ sym (divide_times-doubled 8 (x % 256) (x / 256))
    ∙ ap (divide_times 8) parts

-- Over any bytes and from any value, the check sequence that is computed with the table is the one
-- that divides by the polynomial bit by bit.
pub run_fcs-plain :
    (temp : List ℕ) (fcs : ℕ) → All IsByte temp → run_fcs fcs temp ≡ plain_fcs fcs temp
unfolding run_fcs plain_fcs
run_fcs-plain [] fcs h = refl
run_fcs-plain (b ∷ temp) fcs h =
    ap (λ t. run_fcs t temp) (table_step fcs b h.0)
    ∙ run_fcs-plain temp (divide_times 8 (bit_xor fcs b)) h.1
