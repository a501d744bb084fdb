-- ===== src/Ax25/RoundTrip.antt =====
-- A packet that ax25.cpp generates is read as it was.
use myip.Base.{
  Bool-cases, inl, inr, zero, suc, ℕ, ◌+◌, ◌<◌, ◌≤◌, ◌≡◌, refl, sym, ap, ap₂, ◌∙◌, Bool, true,
  false, none, some, List, [], ◌∷◌, ◌++◌, ltb, arith, length, take, drop, All, length-append,
  take-append, drop-append, append_assoc, append-nil, if◌then◌else◌,
}
use myip.Ax25.{
  Address, Frame, named, from_bytes, generate_address, has_pid, type_of, pid_bytes, read_control,
  parse, generate_packet, read_repeaters, repeater_bytes, is_none,
}
use myip.Ax25.CallSign.{IsCharacter, from_bytes-generate_address, generate_address-length}

-- An address that stands in a packet as it is.
abbrev pub IsCallSign : Address → Type 0
IsCallSign a = (length a.address ≤ 6) × (a.ssid < 16) × (a.valid ≡ true) × All IsCharacter a.address

-- Of a sender and the repeaters behind it only the last one has the end mark.
abbrev pub IsMarked : List Address → Type 0
IsMarked [] = Unit
IsMarked (a ∷ []) = a.end_mark ≡ true
IsMarked (a ∷ b ∷ more) = (a.end_mark ≡ false) × IsMarked (b ∷ more)

-- A packet with the type that its control byte tells.
abbrev pub frame : Address → Address → List Address → ℕ → ℕ → List ℕ → Frame
frame to from repeaters control pid data_ = record {
  valid = true;
  from = from;
  to = to;
  repeaters = repeaters;
  control = control;
  type = type_of control;
  pid = if has_pid control then some pid else none;
  data_ = data_;
}

named_lem : (a : Address) → IsCallSign a → named a.address a.ssid a.end_mark a.repeated ≡ a
named_lem a (short, h, v, chars) = ap (λ (x : Bool). record a { valid = x }) (sym v)

call_sign-length : (a : Address) → IsCallSign a → length (generate_address a) ≡ 7
call_sign-length a (short, h, v, chars) =
    ap (λ t. length (generate_address t)) (sym (named_lem a (short, h, v, chars)))
    ∙ generate_address-length a.address a.ssid a.end_mark a.repeated short

address-front :
    (a : Address)
    → IsCallSign a
    → (rest : List ℕ)
    → (from_bytes (take 7 (generate_address a ++ rest)) ≡ a)
      × (drop 7 (generate_address a ++ rest) ≡ rest)
address-front a (short, h, v, chars) rest =
    let same = named_lem a (short, h, v, chars) in
    let size = call_sign-length a (short, h, v, chars) in
    let read : from_bytes (generate_address a ++ []) ≡ a =
      ap (λ t. from_bytes (generate_address t ++ [])) (sym same)
      ∙ from_bytes-generate_address a.address a.ssid a.end_mark a.repeated [] short chars h
      ∙ same in
    (
      ap (λ (n : ℕ). from_bytes (take n (generate_address a ++ rest))) (sym size)
          ∙ ap from_bytes
              (take-append (generate_address a) rest ∙ sym (append-nil (generate_address a)))
          ∙ read,
      ap (λ (n : ℕ). drop n (generate_address a ++ rest)) (sym size)
          ∙ drop-append (generate_address a) rest,
    )

read_control-frame :
    (to from : Address) (repeaters : List Address) (control pid : ℕ) (data_ : List ℕ)
    → read_control to from repeaters
        (control ∷ (pid_bytes control (if has_pid control then some pid else none) ++ data_))
      ≡ some (frame to from repeaters control pid data_)
unfolding read_control
read_control-frame to from repeaters control pid data_ = elim (Bool-cases (has_pid control)) [
  | inl h ↦ rw (h, h) refl
  | inr h ↦ rw (h, h) refl
]

abbrev addresses : List Address → List ℕ
addresses [] = []
addresses (a ∷ more) = generate_address a ++ addresses more

repeater_bytes_lem :
    (repeaters : List Address) → IsMarked repeaters → repeater_bytes repeaters ≡ addresses repeaters
unfolding repeater_bytes
repeater_bytes_lem [] h = refl
repeater_bytes_lem (a ∷ []) h =
    ap (λ (x : Bool). generate_address (record a { end_mark = x })) (sym h)
    ∙ sym (append-nil (generate_address a))
repeater_bytes_lem (a ∷ b ∷ more) (h, k) =
    ap₂ (λ (x : Bool) (t : List ℕ). generate_address (record a { end_mark = x }) ++ t) (sym h)
      (repeater_bytes_lem (b ∷ more) k)

sender_lem :
    (a : Address) (repeaters : List Address)
    → IsMarked (a ∷ repeaters)
    → (if is_none repeaters then a else record a { end_mark = false }) ≡ a
sender_lem a [] h = refl
sender_lem a (b ∷ more) (h, k) = ap (λ (x : Bool). record a { end_mark = x }) (sym h)

behind-IsMarked : (a : Address) (more : List Address) → IsMarked (a ∷ more) → IsMarked more
behind-IsMarked a [] h = tt
behind-IsMarked a (b ∷ more) (h, k) = k

read_repeaters-end :
    (n : ℕ) (to from : Address) (seen : List Address) (rest : List ℕ)
    → read_repeaters n true to from seen rest ≡ read_control to from seen rest
unfolding read_repeaters
read_repeaters-end zero to from seen rest = refl
read_repeaters-end (suc n) to from seen rest = refl

read_repeaters-addresses :
    (n : ℕ) (to from last : Address) (seen repeaters : List Address) (rest : List ℕ)
    → length repeaters ≤ n
    → IsMarked (last ∷ repeaters)
    → All IsCallSign repeaters
    → read_repeaters n last.end_mark to from seen (addresses repeaters ++ rest)
      ≡ read_control to from (seen ++ repeaters) rest
unfolding read_repeaters
read_repeaters-addresses n to from last seen [] rest h m c =
    ap (λ (x : Bool). read_repeaters n x to from seen rest) m
    ∙ read_repeaters-end n to from seen rest
    ∙ ap (λ t. read_control to from t rest) (sym (append-nil seen))
read_repeaters-addresses zero to from last seen (a ∷ more) rest h m c = absurd (omega arith)
read_repeaters-addresses (suc n) to from last seen (a ∷ more) rest h (m, k) (c, cs) =
    let behind : List ℕ = addresses more ++ rest in
    let (a_read, a_rest) = address-front a c behind in
    let size = call_sign-length a c in
    let long : ltb (length (generate_address a ++ behind)) 7 ≡ false =
      ground (arith, length-append (generate_address a) behind) in
    let (short, ssid, valid, chars) = c in
    let one : read_repeaters (suc n) last.end_mark to from seen (generate_address a ++ behind)
        ≡ read_repeaters n a.end_mark to from (seen ++ a ∷ []) behind =
      rw (m, long, a_read, a_rest, valid) refl in
    ap (read_repeaters (suc n) last.end_mark to from seen)
      (append_assoc (generate_address a) (addresses more) rest)
    ∙ one
    ∙ read_repeaters-addresses n to from a (seen ++ a ∷ []) more rest (omega arith) k cs
    ∙ ap (λ t. read_control to from t rest) (append_assoc seen (a ∷ []) more)

parse_lem :
    (to from : Address)
    → IsCallSign to
    → IsCallSign from
    → (rest : List ℕ)
    → parse (generate_address to ++ (generate_address from ++ rest))
      ≡ read_repeaters 2 from.end_mark to from [] rest
unfolding parse
parse_lem to from ht hf rest =
    let whole : List ℕ = generate_address to ++ (generate_address from ++ rest) in
    let (to_read, to_rest) = address-front to ht (generate_address from ++ rest) in
    let (from_read, from_rest) = address-front from hf rest in
    let from_taken : from_bytes (take 7 (drop 7 whole)) ≡ from =
      ap (λ t. from_bytes (take 7 t)) to_rest ∙ from_read in
    let both : List ℕ = generate_address to ++ generate_address from in
    let size : length both ≡ 14 =
      length-append (generate_address to) (generate_address from)
      ∙ ap₂ (λ (m n : ℕ). m + n) (call_sign-length to ht) (call_sign-length from hf) in
    let joined : both ++ rest ≡ whole =
      append_assoc (generate_address to) (generate_address from) rest in
    let long : ltb (length whole) 14 ≡ false =
      ap (λ t. ltb (length t) 14) (sym joined) ∙ ground (arith, length-append both rest) in
    let body : drop 14 whole ≡ rest =
      ap (λ t. drop 14 t) (sym joined)
      ∙ ap (λ (n : ℕ). drop n (both ++ rest)) (sym size)
      ∙ drop-append both rest in
    let (short_to, ssid_to, valid_to, chars_to) = ht in
    let (short_from, ssid_from, valid_from, chars_from) = hf in
    rw (long, to_read, from_taken, body, valid_to, valid_from) refl

-- A packet between two call signs with at most two repeaters, of all of which only the last one of
-- sender and repeaters has the end mark, is read from its bytes as it was: its control byte, the
-- protocol identifier of an I or UI frame, no identifier for another frame, and its data.
pub parse-generate_packet :
    (to from : Address) (repeaters : List Address) (control pid : ℕ) (data_ : List ℕ)
    → IsCallSign to
    → IsCallSign from
    → All IsCallSign repeaters
    → length repeaters ≤ 2
    → IsMarked (from ∷ repeaters)
    → parse (generate_packet (frame to from repeaters control pid data_))
      ≡ some (frame to from repeaters control pid data_)
unfolding generate_packet
parse-generate_packet to from repeaters control pid data_ ht hf hr h m =
    let rest : List ℕ =
      control ∷ (pid_bytes control (if has_pid control then some pid else none) ++ data_) in
    ap₂
      (λ (a : Address) (t : List ℕ).
        parse (generate_address to ++ (generate_address a ++ (t ++ rest))))
      (sender_lem from repeaters m)
      (repeater_bytes_lem repeaters (behind-IsMarked from repeaters m))
    ∙ parse_lem to from ht hf (addresses repeaters ++ rest)
    ∙ read_repeaters-addresses 2 to from from [] repeaters rest h m hr
    ∙ read_control-frame to from repeaters control pid data_
