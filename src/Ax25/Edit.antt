-- ===== src/Ax25/Edit.antt =====
-- How an address of ax25.cpp is made from text or from an `any_addr`, and how the parts of a packet are
-- set.
use mathlib.Core.Option
use myip.Base.{
  ℕ, zero, suc, Bool, true, false, not, ◌&&◌, Option, none, some, List, [], ◌∷◌, ◌++◌, ltb, ◌==◌,
  ◌||◌, if◌then◌else◌, get_or, shr, bit_and, bit_or,
}
use myip.Addr.Defs.{AnyAddr}
use myip.Ax25.{
  Address, no_address, named, with_flags, Frame, FrameType, type_i, type_s, type_u, type_ui,
}

-- From byte `i` of an `any_addr` on, `n` bytes before the last one. `none`: `operator[]` asserts.
unfoldable pub any_loop : ℕ → AnyAddr → ℕ → Bool → List ℕ → Option Address
any_loop zero from i ended address =
    if ltb i from.addr_size then some (with_flags address (get_or from.addr i 0)) else none
any_loop (suc n) from i ended address =
    let b = get_or from.addr i 0 in
    let c = shr b 1 in
    let stops = c == 0 || c == 32 || ended in
    let rest = any_loop n from (suc i) stops (if stops then address else address ++ c ∷ []) in
    if ltb i from.addr_size then (if bit_and b 1 == 1 then some no_address else rest) else none

-- The constructor from an `any_addr`.
unfoldable pub from_any_addr : AnyAddr → Option Address
unfolding any_loop
from_any_addr from = if from.is_set then any_loop 6 from 0 false [] else none

-- The text before the first dash, and what stands behind it if there is one.
unfoldable pub at_dash : List ℕ → List ℕ → List ℕ × Option (List ℕ)
at_dash before [] = (before, none)
at_dash before (c ∷ text) =
    let rest = at_dash (before ++ c ∷ []) text in if c == 45 then (before, some text) else rest

-- The constructor from a text: the number is the code of the character behind the dash.
unfoldable pub from_text : List ℕ → Bool → Bool → Address
unfolding at_dash
from_text a end_mark repeated =
    let (address, behind) = at_dash [] a in
    let ssid : ℕ = elim behind [ none ↦ 0 | some text ↦ get_or text 0 0 ] in
    named address ssid end_mark repeated

unfoldable pub same_text : List ℕ → List ℕ → Bool
same_text [] [] = true
same_text [] (b ∷ bs) = false
same_text (a ∷ as_) [] = false
same_text (a ∷ as_) (b ∷ bs) = a == b && same_text as_ bs

abbrev same_bool : Bool → Bool → Bool
same_bool true b = b
same_bool false b = not b

-- `operator ==`: the marks do not count.
unfoldable pub same_address : Address → Address → Bool
unfolding same_text
same_address a other =
    same_bool other.valid a.valid && (same_text other.address a.address && other.ssid == a.ssid)

abbrev pub among : List Address → Address → Bool
among [] a = false
among (b ∷ repeaters) a = same_address b a || among repeaters a

unfoldable pub add_repeater : Frame → AnyAddr → Option Frame
unfolding from_any_addr same_address
add_repeater f addr =
    Option.map
      (λ (a : Address).
        if among f.repeaters a then f else record f { repeaters = f.repeaters ++ a ∷ [] })
      (from_any_addr addr)

-- The member `type` stays.
unfoldable pub set_type : Frame → FrameType → Frame
set_type f type_i = record f { control = bit_and f.control 254 }
set_type f type_s = record f { control = bit_and (bit_or f.control 1) 253 }
set_type f type_u = record f { control = bit_or (bit_or f.control 1) 2 }
set_type f type_ui = record f { control = bit_or (bit_or f.control 1) 2 }
