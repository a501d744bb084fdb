-- ===== src/Ppp/Link.antt =====
-- A payload that one end of a PPP line transmits, at the other end.
use myip.Base.{
  ℕ, ◌+◌, ◌-◌, ◌≤◌, ◌≡◌, refl, sym, ap, ◌∙◌, Bool, true, false, Option, none, some, List, [], ◌∷◌,
  ◌++◌, ◌==◌, arith, append_assoc, append-nil, length, length-append, take, drop, take-append, ltb,
  if◌then◌else◌,
}
use mathlib.Core.Option
use myip.Addr.Defs.{AnyAddr}
use myip.Ppp.{escape, must_escape, unwrap_ppp_frame, wrap_in_ppp_frame, frame_header, with_fcs}
use myip.Ppp.RoundTrip.{unwrap_ppp_frame-escape, escape-IsFlagless, IsFlagless}
use myip.Ppp.Control.{Ppp, Event, queued, Outcome, returned, thrown, stuck, after}
use myip.Ppp.Device.{
  process_incoming_packet, transmit_packet, on_flag, receive, with_address, with_protocol,
  by_protocol, ip_packet,
}

receive_plain :
    (fuel : ℕ) (s : Ppp) (buf : List ℕ) (b : ℕ) (line : List ℕ)
    → (b == 0x7e) ≡ false
    → receive fuel s buf (b ∷ line) ≡ receive fuel s (buf ++ b ∷ []) line
unfolding receive
receive_plain fuel s buf b line h = rw (receive, h) refl

receive_flag :
    (fuel : ℕ) (s : Ppp) (buf line : List ℕ)
    → receive fuel s buf (0x7e ∷ line)
      ≡ after
          (on_flag fuel s buf)
          (λ r. after (receive fuel r.0 [] line) (λ t. returned (t.0, r.1 ++ t.1, t.2)))
unfolding receive
receive_flag fuel s buf line = refl

-- Bytes without a flag are collected.
receive-collect :
    (bytes : List ℕ) (fuel : ℕ) (s : Ppp) (buf line : List ℕ)
    → IsFlagless bytes
    → receive fuel s buf (bytes ++ line) ≡ receive fuel s (buf ++ bytes) line
receive-collect [] fuel s buf line h = ap (λ t. receive fuel s t line) (sym (append-nil buf))
receive-collect (b ∷ bytes) fuel s buf line h =
    receive_plain fuel s buf b (bytes ++ line) h.0
    ∙ receive-collect bytes fuel s (buf ++ b ∷ []) line h.1
    ∙ ap (λ t. receive fuel s t line) (append_assoc buf (b ∷ []) bytes)

after_returned :
    (o : Outcome (Ppp × List Event × List ℕ)) → after o (λ t. returned (t.0, t.1, t.2)) ≡ o
after_returned (returned t) = refl
after_returned thrown = refl
after_returned stuck = refl

on_flag_lem :
    (fuel : ℕ) (s : Ppp) (buf temp : List ℕ)
    → unwrap_ppp_frame buf ≡ some temp
    → on_flag fuel s buf ≡ process_incoming_packet fuel s temp
unfolding on_flag process_incoming_packet unwrap_ppp_frame
on_flag_lem fuel s [] temp h =
    ap (λ (o : Option (List ℕ)). process_incoming_packet fuel s (Option.get_or o [])) h
on_flag_lem fuel s (b ∷ buf) temp h = rw (on_flag, h) refl

-- The flags of a sender that a receiver has as well.
pub record IsUnderstood (a b : Ppp) : Type 0 where
  pub ac : a.ac_field_compression ≡ true → b.ac_field_compression ≡ true
  pub pc : a.protocol_compression ≡ true → b.protocol_compression ≡ true

-- What the sender leaves out of the header is completed by the receiver.
completed :
    (ac pc : Bool) (s : Ppp) (rest : List ℕ)
    → (ac ≡ true → s.ac_field_compression ≡ true)
    → (pc ≡ true → s.protocol_compression ≡ true)
    → with_protocol s (with_address s (frame_header ac pc 0x0021 true ++ rest))
      ≡ 0xff ∷ 0x03 ∷ 0 ∷ 0x21 ∷ rest
unfolding with_protocol with_address frame_header
completed true true s rest h k = rw (h refl, k refl) refl
completed true false s rest h k = rw (h refl) refl
completed false true s rest h k = rw (k refl) refl
completed false false s rest h k = refl

header_length : (ac pc : Bool) → 1 ≤ length (frame_header ac pc 0x0021 true)
unfolding frame_header
header_length true true = omega arith
header_length true false = omega arith
header_length false true = omega arith
header_length false false = omega arith

ip_packet_lem :
    (s : Ppp) (addr : AnyAddr) (payload : List ℕ) (x y : ℕ)
    → s.stack ≡ some addr
    → ip_packet s (0xff ∷ 0x03 ∷ 0 ∷ 0x21 ∷ (payload ++ x ∷ y ∷ []))
      ≡ returned (s, queued payload ∷ [])
unfolding ip_packet
ip_packet_lem s addr payload x y h =
    let p : List ℕ = 0xff ∷ 0x03 ∷ 0 ∷ 0x21 ∷ (payload ++ x ∷ y ∷ []) in
    let size : length p ≡ 6 + length payload = omega (arith, length-append payload (x ∷ y ∷ [])) in
    let big : ltb (length p) 6 ≡ false = ground arith in
    let left : length p - 6 ≡ length payload = omega (arith, size) in
    ap
      (λ (o : Option AnyAddr). elim o [
        | none ↦ returned (s, [])
        | some a ↦
            if ltb (length p) 6
            then thrown
            else returned (s, queued (take (length p - 6) (drop 4 p)) ∷ [])
      ])
      h
    ∙ rw (big, left) (ap (λ t. returned (s, queued t ∷ [])) (take-append payload (x ∷ y ∷ [])))

process_lem :
    (fuel : ℕ) (ac pc : Bool) (s : Ppp) (addr : AnyAddr) (payload : List ℕ) (x y : ℕ)
    → (ac ≡ true → s.ac_field_compression ≡ true)
    → (pc ≡ true → s.protocol_compression ≡ true)
    → s.stack ≡ some addr
    → 1 ≤ length payload
    → process_incoming_packet fuel s (frame_header ac pc 0x0021 true ++ (payload ++ x ∷ y ∷ []))
      ≡ returned (s, queued payload ∷ [])
unfolding process_incoming_packet by_protocol
process_lem fuel ac pc s addr payload x y h k stack enough =
    let hdr = frame_header ac pc 0x0021 true in
    let rest : List ℕ = payload ++ x ∷ y ∷ [] in
    let big : ltb (length (hdr ++ rest)) 4 ≡ false =
      ground
        (arith, length-append hdr rest, length-append payload (x ∷ y ∷ []), header_length ac pc) in
    rw (big, completed ac pc s rest h k) (ip_packet_lem s addr payload x y stack)

-- A payload of one byte or more that one end transmits is queued for the IPv4 stack of the other end
-- as it was, and the bytes behind it are read with an empty buffer: if the character map of the
-- sender does not mark 0x5e, the receiver has the compressions that the sender uses, and a stack.
pub transmit_packet-arrives :
    (fuel : ℕ) (a b : Ppp) (addr : AnyAddr) (payload line : List ℕ)
    → IsUnderstood a b
    → must_escape a.accm_tx true 0x5e ≡ false
    → b.stack ≡ some addr
    → 1 ≤ length payload
    → receive fuel b [] (transmit_packet a payload ++ line)
      ≡ after (receive fuel b [] line) (λ t. returned (t.0, queued payload ∷ t.1, t.2))
unfolding transmit_packet wrap_in_ppp_frame with_fcs on_flag receive
transmit_packet-arrives fuel a b addr payload line v map stack enough =
    let hdr = frame_header a.ac_field_compression a.protocol_compression 0x0021 true in
    let frame : List ℕ = with_fcs (hdr ++ payload) in
    let body : List ℕ = escape a.accm_tx true frame in
    let flat : (body ++ 0x7e ∷ []) ++ line ≡ body ++ 0x7e ∷ line =
      append_assoc body (0x7e ∷ []) line in
    let bytes : unwrap_ppp_frame body ≡ some (hdr ++ (payload ++ _ ∷ _ ∷ [])) =
      unwrap_ppp_frame-escape a.accm_tx true frame ∙ ap some (append_assoc hdr payload _) in
    let processed =
      on_flag_lem fuel b body _ bytes
      ∙ process_lem fuel a.ac_field_compression a.protocol_compression b addr payload _ _ v.ac v.pc
          stack enough in
    receive_flag fuel b [] ((body ++ 0x7e ∷ []) ++ line)
    ∙ after_returned (receive fuel b [] ((body ++ 0x7e ∷ []) ++ line))
    ∙ ap (receive fuel b []) flat
    ∙ receive-collect body fuel b [] (0x7e ∷ line) (escape-IsFlagless a.accm_tx true frame map)
    ∙ receive_flag fuel b body line
    ∙ ap
        (λ o.
          after o (λ r. after (receive fuel r.0 [] line) (λ t. returned (t.0, r.1 ++ t.1, t.2))))
        processed
