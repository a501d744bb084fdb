-- ===== src/Ax25/CallSign.antt =====
-- The seven bytes of an address that ax25.cpp generates are read as the address they are for.
use myip.Base.{
  ℕ, zero, suc, ◌-◌, ◌<◌, ◌≤◌, ◌≡◌, refl, sym, ap, ◌∙◌, Bool, true, false, some, List, [], ◌∷◌,
  ◌++◌, ◌==◌, ltb, arith, length, take, map, replicate, min, All, shl, shr, u8, bit_and, bit_or,
  bit_and_low, length-append, length-replicate, take_all, take-append, append_assoc, append-nil,
  get_or, if◌then◌else◌,
}
use myip.Ax25.{named, with_flags, name_loop, from_bytes, generate_address}

-- The seventh byte.
abbrev flag_byte : ℕ → Bool → Bool → ℕ
flag_byte ssid end_mark repeated =
    u8 (bit_or (bit_or (shl ssid 1) (if end_mark then 1 else 0)) (if repeated then 128 else 0))

abbrev IsRead : List ℕ → ℕ → Bool → Bool → Type 0
IsRead address ssid e r = with_flags address (flag_byte ssid e r) ≡ named address ssid e r

each :
    (P : Bool → Bool → Type 0)
    → P true true
    → P true false
    → P false true
    → P false false
    → (e r : Bool) → P e r
each P a b c d true true = a
each P a b c d true false = b
each P a b c d false true = c
each P a b c d false false = d

with_flags-flag_byte :
    (ssid : ℕ) (address : List ℕ) → ssid < 16 → (e r : Bool) → IsRead address ssid e r
with_flags-flag_byte zero x h = each (IsRead x 0) refl refl refl refl
with_flags-flag_byte (suc zero) x h = each (IsRead x 1) refl refl refl refl
with_flags-flag_byte (suc (suc zero)) x h = each (IsRead x 2) refl refl refl refl
with_flags-flag_byte (suc (suc (suc zero))) x h = each (IsRead x 3) refl refl refl refl
with_flags-flag_byte (suc (suc (suc (suc zero)))) x h = each (IsRead x 4) refl refl refl refl
with_flags-flag_byte (suc (suc (suc (suc (suc zero))))) x h = each (IsRead x 5) refl refl refl refl
with_flags-flag_byte (suc (suc (suc (suc (suc (suc zero)))))) x h =
    each (IsRead x 6) refl refl refl refl
with_flags-flag_byte (suc (suc (suc (suc (suc (suc (suc zero))))))) x h =
    each (IsRead x 7) refl refl refl refl
with_flags-flag_byte (suc (suc (suc (suc (suc (suc (suc (suc zero)))))))) x h =
    each (IsRead x 8) refl refl refl refl
with_flags-flag_byte (suc (suc (suc (suc (suc (suc (suc (suc (suc zero))))))))) x h =
    each (IsRead x 9) refl refl refl refl
with_flags-flag_byte (suc (suc (suc (suc (suc (suc (suc (suc (suc (suc zero)))))))))) x h =
    each (IsRead x 10) refl refl refl refl
with_flags-flag_byte (suc (suc (suc (suc (suc (suc (suc (suc (suc (suc (suc zero))))))))))) x h =
    each (IsRead x 11) refl refl refl refl
with_flags-flag_byte (suc (suc (suc (suc (suc (suc (suc (suc (suc (suc (suc (suc zero)))))))))))) x
      h =
    each (IsRead x 12) refl refl refl refl
with_flags-flag_byte
      (suc (suc (suc (suc (suc (suc (suc (suc (suc (suc (suc (suc (suc zero))))))))))))) x h =
    each (IsRead x 13) refl refl refl refl
with_flags-flag_byte
      (suc (suc (suc (suc (suc (suc (suc (suc (suc (suc (suc (suc (suc (suc zero)))))))))))))) x h =
    each (IsRead x 14) refl refl refl refl
with_flags-flag_byte
      (suc (suc (suc (suc (suc (suc (suc (suc (suc (suc (suc (suc (suc (suc (suc zero)))))))))))))))
      x h =
    each (IsRead x 15) refl refl refl refl
with_flags-flag_byte
      (suc
        (suc (suc (suc (suc (suc (suc (suc (suc (suc (suc (suc (suc (suc (suc (suc n))))))))))))))))
      x h =
    absurd (omega arith)

-- The characters of a call sign: neither 0 nor a space, of 7 bits.
abbrev pub IsCharacter : ℕ → Type 0
IsCharacter c = (1 ≤ c) × (c < 128) × ((c == 32) ≡ false)

-- A call sign is read from its characters.
abbrev pub encoded : List ℕ → List ℕ
encoded address = map (λ (c : ℕ). u8 (shl c 1)) address

character_lem :
    (c : ℕ)
    → IsCharacter c
    → (shr (u8 (shl c 1)) 1 ≡ c) × (bit_and (u8 (shl c 1)) 1 ≡ 0) × ((c == 0) ≡ false)
character_lem c (h, k, l) = (omega arith, bit_and_low 1 (u8 (shl c 1)) ∙ omega arith, ground arith)

-- The spaces behind a call sign are not read.
name_loop-spaces :
    (n : ℕ) (ended : Bool) (acc : List ℕ) → name_loop (replicate n 0x40) ended acc ≡ some acc
unfolding name_loop
name_loop-spaces zero e acc = refl
name_loop-spaces (suc zero) e acc = refl
name_loop-spaces (suc (suc n)) e acc = name_loop-spaces (suc n) true acc

name_loop-step :
    (c : ℕ) (bytes acc : List ℕ)
    → IsCharacter c
    → name_loop (u8 (shl c 1) ∷ bytes) false acc ≡ name_loop bytes false (acc ++ c ∷ [])
unfolding name_loop
name_loop-step c [] acc h =
    let (back, even, some_char) = character_lem c h in rw (back, some_char, h.2) refl
name_loop-step c (b ∷ bytes) acc h =
    let (back, even, some_char) = character_lem c h in rw (back, even, some_char, h.2) refl

name_loop-encoded :
    (address : List ℕ) (n : ℕ) (acc : List ℕ)
    → All IsCharacter address
    → name_loop (encoded address ++ replicate n 0x40) false acc ≡ some (acc ++ address)
name_loop-encoded [] n acc h = name_loop-spaces n false acc ∙ ap some (sym (append-nil acc))
name_loop-encoded (c ∷ address) n acc h =
    name_loop-step c (encoded address ++ replicate n 0x40) acc h.0
    ∙ name_loop-encoded address n (acc ++ c ∷ []) h.1
    ∙ ap some (append_assoc acc (c ∷ []) address)

get_or-behind : (xs : List ℕ) (x : ℕ) (ys : List ℕ) → get_or (xs ++ x ∷ ys) (length xs) 0 ≡ x
get_or-behind [] x ys = refl
get_or-behind (y ∷ xs) x ys = get_or-behind xs x ys

length-encoded : (address : List ℕ) → length (encoded address) ≡ length address
length-encoded [] = refl
length-encoded (c ∷ address) = ap suc (length-encoded address)

generate_address_lem :
    (address : List ℕ) (ssid : ℕ) (e r : Bool)
    → length address ≤ 6
    → generate_address (named address ssid e r)
      ≡ (encoded address ++ replicate (6 - length address) 0x40) ++ flag_byte ssid e r ∷ []
unfolding generate_address
generate_address_lem address ssid e r short =
    let whole : min 6 (length address) ≡ length address = omega arith in
    let flags : List ℕ = flag_byte ssid e r ∷ [] in
    ap (λ (n : ℕ). encoded (take n address) ++ (replicate (6 - n) 0x40 ++ flags)) whole
    ∙ ap (λ t. encoded t ++ (replicate (6 - length address) 0x40 ++ flags))
        (take_all (length address) address (omega arith))
    ∙ sym (append_assoc (encoded address) (replicate (6 - length address) 0x40) flags)

from_bytes_lem :
    (body : List ℕ) (b : ℕ) (rest address : List ℕ)
    → length body ≡ 6
    → name_loop body false [] ≡ some address
    → from_bytes (body ++ b ∷ rest) ≡ with_flags address b
unfolding from_bytes
from_bytes_lem body b rest address h e =
    let big : ltb (length (body ++ b ∷ rest)) 7 ≡ false =
      ground (arith, length-append body (b ∷ rest)) in
    let front : take 6 (body ++ b ∷ rest) ≡ body =
      ap (λ (n : ℕ). take n (body ++ b ∷ rest)) (sym h) ∙ take-append body (b ∷ rest) in
    let last : get_or (body ++ b ∷ rest) 6 0 ≡ b =
      ap (λ (n : ℕ). get_or (body ++ b ∷ rest) n 0) (sym h) ∙ get_or-behind body b rest in
    rw (from_bytes, big, front, e, last) refl

-- A call sign of at most six characters with a number below 16 is read from its seven bytes as it was,
-- with both of its marks, whatever stands behind them.
pub from_bytes-generate_address :
    (address : List ℕ) (ssid : ℕ) (end_mark repeated : Bool) (rest : List ℕ)
    → length address ≤ 6
    → All IsCharacter address
    → ssid < 16
    → from_bytes (generate_address (named address ssid end_mark repeated) ++ rest)
      ≡ named address ssid end_mark repeated
from_bytes-generate_address address ssid e r rest short chars h =
    let body : List ℕ = encoded address ++ replicate (6 - length address) 0x40 in
    let size : length body ≡ 6 = omega (
      arith,
      length-append (encoded address) (replicate (6 - length address) 0x40),
      length-encoded address,
      length-replicate {A = ℕ} (6 - length address) 0x40,
    ) in
    ap from_bytes (
      ap (λ t. t ++ rest) (generate_address_lem address ssid e r short)
      ∙ append_assoc body (flag_byte ssid e r ∷ []) rest)
    ∙ from_bytes_lem body (flag_byte ssid e r) rest address size
        (name_loop-encoded address (6 - length address) [] chars)
    ∙ with_flags-flag_byte ssid address h e r

pub generate_address-length :
    (address : List ℕ) (ssid : ℕ) (e r : Bool)
    → length address ≤ 6
    → length (generate_address (named address ssid e r)) ≡ 7
generate_address-length address ssid e r short =
    let body : List ℕ = encoded address ++ replicate (6 - length address) 0x40 in
    ap length (generate_address_lem address ssid e r short)
    ∙ omega (
      arith,
      length-append body (flag_byte ssid e r ∷ []),
      length-append (encoded address) (replicate (6 - length address) 0x40),
      length-encoded address,
      length-replicate {A = ℕ} (6 - length address) 0x40,
    )
