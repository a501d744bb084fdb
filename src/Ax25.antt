-- ===== src/Ax25.antt =====
-- The addresses and packets of ax25.cpp. A character is its code; the reasons that are told for an
-- invalid address or packet are left out.
pub mod CallSign
pub mod Edit
pub mod RoundTrip
use myip.Base.{
  ℕ, zero, suc, ◌+◌, ◌-◌, Bool, true, false, not, ◌&&◌, ◌||◌, Option, none, some, List, [], ◌∷◌,
  ◌++◌, map, ltb, ◌==◌, if◌then◌else◌, length, get_or, take, drop, replicate, shl, shr, u8, min,
  bit_and, bit_or,
}
use myip.Addr.Defs.{AnyAddr, ax25, make}

-- `ax25_address`
pub record Address : Type 0 where
  pub valid : Bool
  pub address : List ℕ
  pub ssid : ℕ
  pub end_mark : Bool
  pub repeated : Bool

abbrev pub no_address : Address
no_address = record { valid = false; address = []; ssid = 0; end_mark = false; repeated = false }

-- The constructor from a text and its parts.
abbrev pub named : List ℕ → ℕ → Bool → Bool → Address
named address ssid end_mark repeated = record {
  valid = true;
  address = address;
  ssid = ssid;
  end_mark = end_mark;
  repeated = repeated;
}

-- The loop over the characters; the lowest bit of the last one does not count. `none`: the lowest bit
-- of another one is set.
unfoldable pub name_loop : List ℕ → Bool → List ℕ → Option (List ℕ)
name_loop [] ended address = some address
name_loop (b ∷ []) ended address =
    let c = shr b 1 in some (if c == 0 || c == 32 || ended then address else address ++ c ∷ [])
name_loop (b ∷ b' ∷ bytes) ended address =
    let c = shr b 1 in
    let stops = c == 0 || c == 32 || ended in
    let rest = name_loop (b' ∷ bytes) stops (if stops then address else address ++ c ∷ []) in
    if bit_and b 1 == 1 then none else rest

-- What is read from the seventh byte.
abbrev pub with_flags : List ℕ → ℕ → Address
with_flags address b =
    named address (bit_and (shr b 1) 0x0f) (bit_and b 1 == 1) (bit_and b 128 == 128)

-- The constructor from a vector. An invalid address keeps what was read of it, but only that it is
-- invalid counts; so does an invalid packet below.
unfoldable pub from_bytes : List ℕ → Address
unfolding name_loop
from_bytes from =
    if ltb (length from) 7 then no_address else elim (name_loop (take 6 from) false []) [
      | none ↦ no_address
      | some address ↦ with_flags address (get_or from 6 0)
    ]

unfoldable pub generate_address : Address → List ℕ
generate_address a =
    let put_n = min 6 (length a.address) in
    map (λ (c : ℕ). u8 (shl c 1)) (take put_n a.address)
    ++ (replicate (6 - put_n) 0x40
        ++ u8 (
            bit_or (bit_or (shl a.ssid 1) (if a.end_mark then 1 else 0))
              (if a.repeated then 128 else 0))
          ∷ [])

unfoldable pub get_any_addr : Address → AnyAddr
unfolding generate_address
get_any_addr a = make ax25 (generate_address a)

-- `frame_type`
pub data FrameType : Type 0 where
  type_i type_s type_u type_ui : FrameType

-- `ax25_packet`
pub record Frame : Type 0 where
  pub valid : Bool
  pub from : Address
  pub to : Address
  pub repeaters : List Address
  pub control : ℕ
  pub type : FrameType
  pub pid : Option ℕ
  pub data_ : List ℕ

-- I and UI frames have a protocol identifier.
abbrev pub has_pid : ℕ → Bool
has_pid control = bit_and control 1 == 0 || bit_and control 0xef == 0x03

unfoldable pub type_of : ℕ → FrameType
type_of control =
    if has_pid control
    then (if bit_and control 0xef == 0x03 then type_ui else type_i)
    else (if bit_and control 2 == 0 then type_s else type_u)

abbrev pub invalid_frame : Frame
invalid_frame = record {
  valid = false;
  from = no_address;
  to = no_address;
  repeaters = [];
  control = 0;
  type = type_i;
  pid = none;
  data_ = [];
}

abbrev with_pid : Frame → List ℕ → Option Frame
with_pid frame [] = none
with_pid frame (pid ∷ data_) = some (record frame { pid = some pid; data_ = data_ })

-- From the control byte on; `none`: a byte behind the packet is read.
unfoldable pub read_control : Address → Address → List Address → List ℕ → Option Frame
unfolding type_of
read_control to from repeaters [] = none
read_control to from repeaters (control ∷ rest) =
    let frame : Frame = record {
      valid = true;
      from = from;
      to = to;
      repeaters = repeaters;
      control = control;
      type = type_of control;
      pid = none;
      data_ = rest;
    } in
    if has_pid control then with_pid frame rest else some frame

-- The loop over at most `n` repeaters.
unfoldable pub read_repeaters : ℕ → Bool → Address → Address → List Address → List ℕ → Option Frame
read_repeaters zero end_mark to from repeaters rest = read_control to from repeaters rest
read_repeaters (suc n) true to from repeaters rest = read_control to from repeaters rest
read_repeaters (suc n) false to from repeaters rest =
    let a = from_bytes (take 7 rest) in
    let more = read_repeaters n a.end_mark to from (repeaters ++ a ∷ []) (drop 7 rest) in
    if ltb (length rest) 7 then none else (if not a.valid then some invalid_frame else more)

-- The constructor from the bytes of a packet.
unfoldable pub parse : List ℕ → Option Frame
parse bytes =
    if ltb (length bytes) 14
    then some invalid_frame
    else (let to = from_bytes (take 7 bytes) in
        let from = from_bytes (take 7 (drop 7 bytes)) in
        if not to.valid
        then some invalid_frame
        else (if not from.valid
            then some invalid_frame
            else read_repeaters 2 from.end_mark to from [] (drop 14 bytes)))

-- The bytes of the repeaters: only the last one has the end mark.
unfoldable pub repeater_bytes : List Address → List ℕ
unfolding generate_address
repeater_bytes [] = []
repeater_bytes (a ∷ []) = generate_address (record a { end_mark = true })
repeater_bytes (a ∷ b ∷ repeaters) =
    generate_address (record a { end_mark = false }) ++ repeater_bytes (b ∷ repeaters)

abbrev pub is_none : List Address → Bool
is_none [] = true
is_none (a ∷ repeaters) = false

abbrev pub pid_bytes : ℕ → Option ℕ → List ℕ
pid_bytes control none = if has_pid control then 0 ∷ [] else []
pid_bytes control (some pid) = if has_pid control then pid ∷ [] else []

unfoldable pub generate_packet : Frame → List ℕ
unfolding generate_address repeater_bytes
generate_packet f =
    generate_address f.to
    ++ (generate_address
          (if is_none f.repeaters then f.from else record f.from { end_mark = false })
        ++ (repeater_bytes f.repeaters ++ (f.control ∷ (pid_bytes f.control f.pid ++ f.data_))))
