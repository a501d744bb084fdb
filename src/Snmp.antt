-- ===== src/Snmp.antt =====
-- The BER encoding of snmp_elem.cpp, and the readers of numbers and object identifiers of snmp.cpp.
pub mod Numbers
pub mod Data
pub mod Register
pub mod Next
pub mod Messages
pub mod Reply
pub mod Bounds
use myip.Base.{
  ℕ, zero, suc, ◌+◌, ◌-◌, ◌*◌, ◌/◌, ◌%◌, Bool, true, false, ◌&&◌, Option, none, some, List, [], ◌∷◌,
  ◌++◌, ltb, leb, ◌==◌, if◌then◌else◌, length, take, drop, replicate, set, shr, shl, u8, u32, u64,
  bit_or, bit_and,
}

-- `snmp_integer_type`
pub data IntegerType : Type 0 where
  si_counter32 si_integer si_counter64 si_ticks : IntegerType

abbrev pub snmp_type : IntegerType → ℕ
snmp_type si_integer = 0x02
snmp_type si_counter32 = 0x41
snmp_type si_counter64 = 0x46
snmp_type si_ticks = 0x43

-- `i` bytes of a number from the high end of its `pl_len` bytes on: byte `i` of the loop is
-- `v >> (pl_len * 8 - (i + 1) * 8)`.
unfoldable pub number_bytes : ℕ → ℕ → List ℕ
number_bytes zero v = []
number_bytes (suc n) v = u8 (shr v (n * 8)) ∷ number_bytes n v

-- The payload of an integer with a number of bytes below 254.
unfoldable pub integer_payload : IntegerType → ℕ → ℕ → List ℕ
unfolding number_bytes
integer_payload type v pl_len = snmp_type type ∷ pl_len ∷ number_bytes pl_len v

-- The number of bytes that the constructor without a length takes.
unfoldable pub integer_length : ℕ → ℕ
integer_length v = if leb v 0xffffffff then 4 else 8

-- An octet string; `none`: the length has wrapped around, and the copy goes behind the buffer.
unfoldable pub octet_payload : List ℕ → Option (List ℕ)
octet_payload v =
    let out_len = u8 (length v + 2) in
    let pl_len = u8 (length v) in
    if ltb out_len (pl_len + 2) then none else some (0x04 ∷ pl_len ∷ take pl_len v)

abbrev pub null_payload : List ℕ
null_payload = 0x05 ∷ 0x00 ∷ []

-- The text of an object identifier: whether it begins with "1.3", and the numbers that follow, each
-- behind a dot.
pub record Oid : Type 0 where
  pub starts : Bool
  pub arcs : List ℕ

-- The inner loop of `snmp_oid::snmp_oid`: the groups of 7 bits of a number but the last one, in front
-- of what follows; a `uint64_t` has at most ten groups.
unfoldable pub groups : ℕ → ℕ → List ℕ → List ℕ
groups zero v rest = rest
groups (suc n) v rest = if v == 0 then rest else groups n (v / 128) ((v % 128 + 128) ∷ rest)

unfoldable pub arc_bytes : ℕ → List ℕ → List ℕ
unfolding groups
arc_bytes v rest = groups 9 (v / 128) ((v % 128) ∷ rest)

-- An `int` as a `uint64_t`.
abbrev pub widened : ℕ → ℕ
widened n = if ltb n 0x80000000 then n else n + 0xffffffff00000000

unfoldable pub arcs_bytes : List ℕ → List ℕ
unfolding arc_bytes
arcs_bytes [] = []
arcs_bytes (v ∷ arcs) = arc_bytes (widened v) (arcs_bytes arcs)

abbrev text_bytes : Bool → List ℕ → List ℕ
text_bytes true [] = 1 ∷ 3 ∷ []
text_bytes true (v ∷ arcs) = 43 ∷ arcs_bytes (v ∷ arcs)
text_bytes false [] = []
text_bytes false (v ∷ arcs) = 0 ∷ arcs_bytes (v ∷ arcs)

-- The bytes that the constructor makes of a text. "1.3" alone is not followed by a dot: it is read as
-- the numbers 1 and 3. A text that begins with a dot has an empty number, 0, in front.
unfoldable pub oid_bytes : Oid → List ℕ
unfolding arcs_bytes
oid_bytes oid = text_bytes oid.starts oid.arcs

-- The loop of `snmp_sequence::get_payload` over the payloads of the elements: the buffer of 256 bytes
-- and `o`, a `uint8_t`.
unfoldable pub sequence_loop : List ℕ → ℕ → List (List ℕ) → List ℕ × ℕ
sequence_loop out o [] = (out, o)
sequence_loop out o (pl ∷ elements) =
    let rest =
      sequence_loop (take o out ++ (pl ++ drop (o + length pl) out)) (u8 (o + length pl))
        elements in
    if ltb 256 (o + length pl) then (out, o) else rest

-- The payload of a sequence, or of a PDU with its own first byte.
unfoldable pub sequence_payload : ℕ → List (List ℕ) → List ℕ
unfolding sequence_loop
sequence_payload type elements =
    let (out, o) = sequence_loop (0x30 ∷ replicate 255 0) 2 elements in
    take o (set (set out 1 (u8 (o + 254))) 0 type)

-- `get_INTEGER` on `length` bytes.
unfoldable pub integer_loop : List ℕ → ℕ → ℕ
integer_loop [] v = v
integer_loop (b ∷ p) v = integer_loop p (bit_or (u64 (shl v 8)) b)

unfoldable pub get_integer : List ℕ → ℕ
unfolding integer_loop
get_integer p = integer_loop p 0

-- `get_type_length`
unfoldable pub get_type_length : List ℕ → Option (ℕ × ℕ)
get_type_length (type ∷ length ∷ p) = some (type, length)
get_type_length (type ∷ []) = none
get_type_length [] = none

-- The loop of `get_OID`; `first` is the test `i == 0`. A number of 2^31 or more is printed as a
-- negative one by "%d": an arc of `Oid` is the 32 bits of the `int` that the text has, so one of 2^31
-- or more stands for that negative number.
unfoldable pub oid_loop : List ℕ → Bool → ℕ → Oid → Option Oid
oid_loop [] first v out = if v == 0 then some out else none
oid_loop (b ∷ p) first v out =
    let v' = bit_or (u32 (shl v 7)) (bit_and b 127) in
    oid_loop p false (if ltb b 128 then 0 else v') (
      if ltb b 128
      then (if first && v' == 43
          then record out { starts = true }
          else record out { arcs = out.arcs ++ v' ∷ [] })
      else out)

unfoldable pub get_oid : List ℕ → Option Oid
unfolding oid_loop
get_oid p = oid_loop p true 0 (record { starts = false; arcs = [] })
