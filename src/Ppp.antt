-- ===== src/Ppp.antt =====
-- The framing of phys_gen_ppp.cpp: the check sequence, `wrap_in_ppp_frame` and `unwrap_ppp_frame`.
pub mod RoundTrip
pub mod Fcs
pub mod Control
pub mod Negotiate
pub mod Device
pub mod Link
pub mod Options
use myip.Base.{
  ℕ, zero, suc, ◌+◌, Bool, true, false, not, ◌&&◌, ◌||◌, Option, none, some, List, [], ◌∷◌, ◌++◌,
  map, ltb, ◌==◌, if◌then◌else◌, get_or, replicate, shr, shl, u8, u16, bit_and, bit_xor,
}

-- The loop over `j` of the constructor.
unfoldable pub fcs_loop : ℕ → ℕ → ℕ → ℕ
fcs_loop zero value temp = value
fcs_loop (suc j) value temp =
    let next =
      if bit_and (bit_xor value temp) 1 == 0
      then shr value 1
      else u16 (bit_xor (shr value 1) 0x8408) in
    fcs_loop j next (shr temp 1)

-- `fcstab[i]`
unfoldable pub fcstab : ℕ → ℕ
unfolding fcs_loop
fcstab i = fcs_loop 8 0 (u8 i)

-- The loop over `temp` in `wrap_in_ppp_frame`.
unfoldable pub run_fcs : ℕ → List ℕ → ℕ
unfolding fcstab
run_fcs fcs [] = fcs
run_fcs fcs (x ∷ temp) = run_fcs (bit_xor (shr fcs 8) (fcstab (bit_and (bit_xor fcs x) 0xff))) temp

-- The bytes of a frame before its check sequence; `ac` and `pc` are `ac_field_compression` and
-- `protocol_compression`.
unfoldable pub frame_header : Bool → Bool → ℕ → Bool → List ℕ
frame_header ac pc protocol not_ppp_meta =
    (if not ac || not not_ppp_meta then 0xff ∷ 0x03 ∷ [] else [])
    ++ (if pc && ltb protocol 0x100 && not_ppp_meta
        then u8 protocol ∷ []
        else u8 (shr protocol 8) ∷ u8 protocol ∷ [])

unfoldable pub with_fcs : List ℕ → List ℕ
unfolding run_fcs
with_fcs temp =
    let fcs = bit_xor (run_fcs 0xffff temp) 0xffff in temp ++ (u8 fcs ∷ u8 (shr fcs 8) ∷ [])

-- The test before a byte is put in the frame; `ACCM` has 32 elements, so no read is out of range.
unfoldable pub must_escape : List ℕ → Bool → ℕ → Bool
must_escape accm not_ppp_meta b =
    b == 0x7d
    || b == 0x7e
    || not (bit_and (get_or accm (shr b 3) 0) (shl 1 (bit_and b 7)) == 0)
    || (ltb b 0x20 && not not_ppp_meta)

unfoldable pub escape : List ℕ → Bool → List ℕ → List ℕ
unfolding must_escape
escape accm not_ppp_meta [] = []
escape accm not_ppp_meta (b ∷ temp) =
    let rest = escape accm not_ppp_meta temp in
    if must_escape accm not_ppp_meta b then 0x7d ∷ bit_xor b 0x20 ∷ rest else b ∷ rest

unfoldable pub wrap_in_ppp_frame : Bool → Bool → List ℕ → ℕ → List ℕ → Bool → List ℕ
unfolding frame_header with_fcs escape
wrap_in_ppp_frame ac pc payload protocol accm not_ppp_meta =
    0x7e ∷ escape accm not_ppp_meta (with_fcs (frame_header ac pc protocol not_ppp_meta ++ payload))
    ++ 0x7e ∷ []

-- `none`: `at` throws, behind a 0x7d at the end.
unfoldable pub unwrap_ppp_frame : List ℕ → Option (List ℕ)
unwrap_ppp_frame [] = some []
unwrap_ppp_frame (c ∷ []) = if c == 0x7d then none else some (c ∷ [])
unwrap_ppp_frame (c ∷ d ∷ payload) = elim (c == 0x7d) [
  | true ↦ elim (unwrap_ppp_frame payload) [ none ↦ none | some out ↦ some (bit_xor d 0x20 ∷ out) ]
  | false ↦ elim (unwrap_ppp_frame (d ∷ payload)) [ none ↦ none | some out ↦ some (c ∷ out) ]
]
