-- ===== src/Snmp/Numbers.antt =====
-- What snmp_elem.cpp writes snmp.cpp reads.
use myip.Base.{
  Bool, ℕ, zero, suc, ◌+◌, ◌*◌, ◌/◌, ◌%◌, ◌^◌, ◌<◌, ◌≤◌, ◌≡◌, refl, sym, ap, ap₂, ◌∙◌, set,
  if◌then◌else◌, true, false, some, List, [], ◌∷◌, ◌++◌, ◌==◌, ltb, leb, arith, All, length,
  length-append, length-drop, take, drop, shr, shl, u8, u32, u64, bit_or, bit_and, bit_or-shl,
  bit_and_low, take-append, append_assoc, append-nil, replicate, Bool-cases, inl, inr,
}
use myip.Snmp.{
  integer_length, get_type_length, snmp_type, IntegerType, Oid, number_bytes, integer_payload,
  integer_loop, get_integer, groups, arc_bytes, arcs_bytes, oid_bytes, oid_loop, get_oid,
  sequence_loop, sequence_payload,
}

-- One byte: what has been read is the number without its lower bytes.
integer_loop-next :
    (n v x : ℕ)
    → shr v (n * 8) < 2 ^ 64
    → x ≡ shr v (n * 8) / 256
    → integer_loop (number_bytes (suc n) v) x ≡ integer_loop (number_bytes n v) (shr v (n * 8))
unfolding integer_loop number_bytes
integer_loop-next n v x h e =
    let w : ℕ = shr v (n * 8) in
    let fits : u64 (shl x 8) ≡ shl x 8 = omega (arith, e) in
    let joined : bit_or (u64 (shl x 8)) (u8 w) ≡ w =
      ap (λ t. bit_or t (u8 w)) fits ∙ bit_or-shl 8 x (u8 w) (omega arith) ∙ omega (arith, e) in
    ap (integer_loop (number_bytes n v)) joined

low_half : (v x : ℕ) → v < 2 ^ 64 → x ≡ v / 2 ^ 32 → integer_loop (number_bytes 4 v) x ≡ v
unfolding integer_loop number_bytes
low_half v x h e =
    integer_loop-next 3 v x (omega arith) (omega (arith, e))
    ∙ integer_loop-next 2 v (shr v 24) (omega arith) (omega arith)
    ∙ integer_loop-next 1 v (shr v 16) (omega arith) (omega arith)
    ∙ integer_loop-next 0 v (shr v 8) (omega arith) (omega arith)
    ∙ omega arith

eight : (v : ℕ) → v < 2 ^ 64 → integer_loop (number_bytes 8 v) 0 ≡ v
eight v h =
    integer_loop-next 7 v 0 (omega arith) (omega arith)
    ∙ integer_loop-next 6 v (shr v 56) (omega arith) (omega arith)
    ∙ integer_loop-next 5 v (shr v 48) (omega arith) (omega arith)
    ∙ integer_loop-next 4 v (shr v 40) (omega arith) (omega arith)
    ∙ low_half v (shr v 32) h (omega arith)

-- The payload of an integer of 64 bits, of the length that the constructor takes for it, is read as
-- its type and that length, and the bytes behind those as the number.
pub get_integer-integer_payload :
    (type : IntegerType) (v : ℕ)
    → v < 2 ^ 64
    → let pl = integer_payload type v (integer_length v) in
      (get_type_length pl ≡ some (snmp_type type, integer_length v)) × (get_integer (drop 2 pl) ≡ v)
unfolding get_integer integer_payload get_type_length integer_length
get_integer-integer_payload type v h = (
  refl,
  elim (Bool-cases (leb v 0xffffffff)) [
    | inl e ↦ rw e (low_half v 0 h (ground arith))
    | inr e ↦ rw e (eight v h)
  ],
)

-- What a fuel of `groups` is enough for.
abbrev limit : ℕ → ℕ
limit zero = 1
limit (suc n) = 128 * limit n

join : (w : ℕ) → w < 2 ^ 32 → bit_or (u32 (shl (w / 128) 7)) (w % 128) ≡ w
join w h =
    let fits : u32 (shl (w / 128) 7) ≡ shl (w / 128) 7 = omega arith in
    rw fits (bit_or-shl 7 (w / 128) (w % 128) (omega arith) ∙ omega arith)

oid_loop-prefix :
    (rest : List ℕ)
    → oid_loop (43 ∷ rest) true 0 (record { starts = false; arcs = [] })
      ≡ oid_loop rest false 0 (record { starts = true; arcs = [] })
unfolding oid_loop
oid_loop-prefix rest = refl

oid_loop-high :
    (w : ℕ) (rest : List ℕ) (out : Oid)
    → w < 2 ^ 32
    → oid_loop ((w % 128 + 128) ∷ rest) false (w / 128) out ≡ oid_loop rest false w out
unfolding oid_loop
oid_loop-high w rest out h =
    let low : bit_and (w % 128 + 128) 127 ≡ w % 128 = bit_and_low 7 (w % 128 + 128) ∙ omega arith in
    let high : ltb (w % 128 + 128) 128 ≡ false = ground arith in rw (high, low, join w h) refl

oid_loop-low :
    (w : ℕ) (rest : List ℕ) (out : Oid)
    → w < 2 ^ 32
    → oid_loop ((w % 128) ∷ rest) false (w / 128) out
      ≡ oid_loop rest false 0 (record out { arcs = out.arcs ++ w ∷ [] })
unfolding oid_loop
oid_loop-low w rest out h =
    let low : bit_and (w % 128) 127 ≡ w % 128 = bit_and_low 7 (w % 128) ∙ omega arith in
    let high : ltb (w % 128) 128 ≡ true = ground arith in rw (high, low, join w h) refl

oid_loop-groups :
    (n w : ℕ) (rest : List ℕ) (out : Oid)
    → w < limit n
    → w < 2 ^ 32
    → oid_loop (groups n w rest) false 0 out ≡ oid_loop rest false w out
unfolding groups
oid_loop-groups zero w rest out h k =
    let none_left : w ≡ 0 = omega arith in ap (λ x. oid_loop rest false x out) (sym none_left)
oid_loop-groups (suc n) w rest out h k = elim (Bool-cases (w == 0)) [
  | inl e ↦
      let none_left : w ≡ 0 = ground arith in
      rw e (ap (λ x. oid_loop rest false x out) (sym none_left))
  | inr e ↦ rw e (
      oid_loop-groups n (w / 128) ((w % 128 + 128) ∷ rest) out (omega arith) (omega arith)
      ∙ oid_loop-high w rest out k)
]

oid_loop-arcs :
    (arcs : List ℕ) (out : Oid)
    → All (λ v. v < 2 ^ 31) arcs
    → oid_loop (arcs_bytes arcs) false 0 out ≡ some (record out { arcs = out.arcs ++ arcs })
unfolding arcs_bytes arc_bytes oid_loop
oid_loop-arcs [] out h = ap (λ t. some (record out { arcs = t })) (sym (append-nil out.arcs))
oid_loop-arcs (v ∷ arcs) out h =
    let positive : ltb v 0x80000000 ≡ true = ground (arith, h.0) in
    ap (λ (w : ℕ). oid_loop (arc_bytes w (arcs_bytes arcs)) false 0 out)
      (ap (λ (b : Bool). if b then v else v + 0xffffffff00000000) positive)
    ∙ oid_loop-groups 9 (v / 128) ((v % 128) ∷ arcs_bytes arcs) out (omega arith) (omega arith)
    ∙ oid_loop-low v (arcs_bytes arcs) out (omega arith)
    ∙ oid_loop-arcs arcs (record out { arcs = out.arcs ++ v ∷ [] }) h.1
    ∙ ap (λ t. some (record out { arcs = t })) (append_assoc out.arcs (v ∷ []) arcs)

-- An object identifier that begins with "1.3", followed by one number or more, all below 2^31, is
-- read from its bytes as it was.
pub get_oid-oid_bytes :
    (v : ℕ) (arcs : List ℕ)
    → All (λ x. x < 2 ^ 31) (v ∷ arcs)
    → let oid : Oid = record { starts = true; arcs = v ∷ arcs } in
      get_oid (oid_bytes oid) ≡ some oid
unfolding get_oid oid_bytes
get_oid-oid_bytes v arcs h =
    let prefix : Oid = record { starts = true; arcs = [] } in
    oid_loop-prefix (arcs_bytes (v ∷ arcs)) ∙ oid_loop-arcs (v ∷ arcs) prefix h

-- The elements one behind the other.
abbrev pub flat : List (List ℕ) → List ℕ
flat [] = []
flat (pl ∷ elements) = pl ++ flat elements

drop_beyond : (xs ys : List ℕ) (n : ℕ) → drop (length xs + n) (xs ++ ys) ≡ drop n ys
drop_beyond [] ys n = let e : 0 + n ≡ n = omega arith in ap (λ (m : ℕ). drop m ys) e
drop_beyond (x ∷ xs) ys n =
    let e : length (x ∷ xs) + n ≡ suc (length xs + n) = omega arith in
    ap (λ (m : ℕ). drop m (x ∷ (xs ++ ys))) e ∙ drop_beyond xs ys n

sequence_loop-flat :
    (elements : List (List ℕ)) (pre tail : List ℕ)
    → length (pre ++ flat elements) ≤ 255
    → length (flat elements) ≤ length tail
    → (rest : List ℕ) × (sequence_loop (pre ++ tail) (length pre) elements
        ≡ ((pre ++ flat elements) ++ rest, length (pre ++ flat elements)))
unfolding sequence_loop
sequence_loop-flat [] pre tail h k =
    (tail, ap (λ (t : List ℕ). (t ++ tail, length t)) (sym (append-nil pre)))
sequence_loop-flat (pl ∷ elements) pre tail h k =
    let o : ℕ = length pre + length pl in
    let joined : (pre ++ pl) ++ flat elements ≡ pre ++ (pl ++ flat elements) =
      append_assoc pre pl (flat elements) in
    let size = length-append pl (flat elements) in
    let whole = length-append pre (pl ++ flat elements) in
    let fits : ltb 256 o ≡ false = ground (arith, size, whole) in
    let same : u8 o ≡ length (pre ++ pl) = omega (arith, size, whole, length-append pre pl) in
    let left : length (flat elements) ≤ length (drop (length pl) tail) =
      omega (arith, size, length-drop (length pl) tail) in
    let bound : length ((pre ++ pl) ++ flat elements) ≤ 255 = rw joined h in
    let (rest, ih) = sequence_loop-flat elements (pre ++ pl) (drop (length pl) tail) bound left in
    let before : take (length pre) (pre ++ tail) ≡ pre = take-append pre tail in
    let behind : drop o (pre ++ tail) ≡ drop (length pl) tail = drop_beyond pre tail (length pl) in
    let stored : List ℕ = (pre ++ pl) ++ drop (length pl) tail in
    let buffer : take (length pre) (pre ++ tail) ++ (pl ++ drop o (pre ++ tail)) ≡ stored =
      ap₂ (λ a b. a ++ (pl ++ b)) before behind
      ∙ sym (append_assoc pre pl (drop (length pl) tail)) in
    (
      rest,
      ap
            (λ b.
              if b
              then (pre ++ tail, length pre)
              else sequence_loop (take (length pre) (pre ++ tail) ++ (pl ++ drop o (pre ++ tail)))
                  (u8 o) elements)
            fits
          ∙ ap (λ t. sequence_loop t (u8 o) elements) buffer
          ∙ ap (λ t. sequence_loop stored t elements) same
          ∙ ih
          ∙ ap (λ (t : List ℕ). (t ++ rest, length t)) joined,
    )

-- The payloads of elements of together at most 253 bytes stand in a sequence, or in a PDU, one behind
-- the other and whole, behind its type and their size.
pub sequence_payload-flat :
    (type : ℕ) (elements : List (List ℕ))
    → length (flat elements) ≤ 253
    → sequence_payload type elements ≡ type ∷ length (flat elements) ∷ flat elements
unfolding sequence_payload
sequence_payload-flat type elements h =
    let all : List ℕ = flat elements in
    let (rest, e) =
      sequence_loop-flat elements (0x30 ∷ 0 ∷ []) (replicate 254 0) (omega arith) (omega arith) in
    let size : u8 (length (0x30 ∷ 0 ∷ all) + 254) ≡ length all = omega arith in
    ap (λ (r : List ℕ × ℕ). take r.1 (set (set r.0 1 (u8 (r.1 + 254))) 0 type)) e
    ∙ ap (λ n. type ∷ n ∷ take (length all) (all ++ rest)) size
    ∙ ap (λ t. type ∷ length all ∷ t) (take-append all rest)
