-- ===== src/Slip/RoundTrip.antt =====
-- What phys_slip.cpp writes to a line it reads back from it.
use myip.Base.{
  ℕ, Bool, true, false, List, [], ◌∷◌, ◌++◌, ◌==◌, ◌≡◌, refl, sym, ap, ◌∙◌, arith, append_assoc,
  append-nil, Bool-cases, inl, inr,
}
use myip.Slip.{escape, transmit_packet, end_of_packet, unescape, receive}

receive-end :
    (a : Bool) (buf line : List ℕ)
    → receive a buf (0xc0 ∷ line)
      ≡ (end_of_packet a buf ++ (receive a [] line).0, (receive a [] line).1)
unfolding receive
receive-end a buf [] = ap (λ (t : List (List ℕ)). (t, [])) (sym (append-nil _))
receive-end a buf (x ∷ line) = refl

receive-plain :
    (a : Bool) (buf : List ℕ) (x y : ℕ) (line : List ℕ)
    → (x == 0xdb) ≡ false
    → (x == 0xc0) ≡ false
    → receive a buf (x ∷ y ∷ line) ≡ receive a (buf ++ x ∷ []) (y ∷ line)
unfolding receive
receive-plain a buf x y line h k = ground arith

escape_nil : escape [] ≡ []
unfolding escape
escape_nil = refl

append_next : (q line : List ℕ) → (y : ℕ) × (rest : List ℕ) × (q ++ 0xc0 ∷ line ≡ y ∷ rest)
append_next [] line = (0xc0, line, refl)
append_next (y ∷ q) line = (y, q ++ 0xc0 ∷ line, refl)

receive-plain_more :
    (a : Bool) (buf : List ℕ) (x : ℕ) (p line : List ℕ)
    → (x == 0xdb) ≡ false
    → (x == 0xc0) ≡ false
    → receive a buf (x ∷ (escape p ++ 0xc0 ∷ line))
      ≡ receive a (buf ++ x ∷ []) (escape p ++ 0xc0 ∷ line)
receive-plain_more a buf x p line h k =
    let (y, rest, e) = append_next (escape p) line in rw e (receive-plain a buf x y rest h k)

escape_end : (x : ℕ) (p : List ℕ) → (x == 0xc0) ≡ true → escape (x ∷ p) ≡ 0xdb ∷ 0xdc ∷ escape p
unfolding escape
escape_end x p h = ground arith

escape-escape : (x : ℕ) (p : List ℕ) → (x == 0xdb) ≡ true → escape (x ∷ p) ≡ 0xdb ∷ 0xdd ∷ escape p
unfolding escape
escape-escape x p h = ground arith

escape_plain :
    (x : ℕ) (p : List ℕ) → (x == 0xdb) ≡ false → (x == 0xc0) ≡ false → escape (x ∷ p) ≡ x ∷ escape p
unfolding escape
escape_plain x p h k = ground arith

-- The bytes of a payload arrive in the buffer as they were.
receive-escape :
    (a : Bool) (buf p line : List ℕ)
    → receive a buf (escape p ++ 0xc0 ∷ line) ≡ receive a (buf ++ p) (0xc0 ∷ line)
unfolding receive unescape
receive-escape a buf [] line = rw (escape_nil, append-nil buf) refl
receive-escape a buf (x ∷ p) line =
    let ih = receive-escape a (buf ++ x ∷ []) p line in
    let e : (buf ++ x ∷ []) ++ p ≡ buf ++ x ∷ p = append_assoc buf (x ∷ []) p in
    let more : receive a (buf ++ x ∷ []) (escape p ++ 0xc0 ∷ line)
        ≡ receive a (buf ++ x ∷ p) (0xc0 ∷ line) =
      ih ∙ ap (λ t. receive a t (0xc0 ∷ line)) e in
    elim (Bool-cases (x == 0xc0)) [
      | inl h ↦
          let q : x ≡ 0xc0 = ground arith in
          ap (λ t. receive a buf (t ++ 0xc0 ∷ line)) (escape_end x p h)
          ∙ ap (λ t. receive a (buf ++ t ∷ []) (escape p ++ 0xc0 ∷ line)) (sym q)
          ∙ more
      | inr k ↦ elim (Bool-cases (x == 0xdb)) [
        | inl h ↦
            let q : x ≡ 0xdb = ground arith in
            ap (λ t. receive a buf (t ++ 0xc0 ∷ line)) (escape-escape x p h)
            ∙ ap (λ t. receive a (buf ++ t ∷ []) (escape p ++ 0xc0 ∷ line)) (sym q)
            ∙ more
        | inr h ↦
            ap (λ t. receive a buf (t ++ 0xc0 ∷ line)) (escape_plain x p h k)
            ∙ receive-plain_more a buf x p line h k
            ∙ more
      ]
    ]

-- Whatever the buffer held before, a packet that was written to the line ends that, and is queued
-- itself as it was, if it has 20 bytes or more and an IPv4 stack is attached; the bytes behind it are
-- read with an empty buffer.
receive-transmit_packet :
    (attached : Bool) (packet_buffer payload line : List ℕ)
    → receive attached packet_buffer (transmit_packet payload ++ line) ≡ (
      end_of_packet attached packet_buffer
          ++ (end_of_packet attached payload ++ (receive attached [] line).0),
      (receive attached [] line).1,
    )
unfolding transmit_packet
receive-transmit_packet a buf p line =
    let e : (escape p ++ 0xc0 ∷ []) ++ line ≡ escape p ++ 0xc0 ∷ line =
      append_assoc (escape p) (0xc0 ∷ []) line in
    ap (receive a buf) (ap (λ t. 0xc0 ∷ t) e)
    ∙ receive-end a buf (escape p ++ 0xc0 ∷ line)
    ∙ rw (receive-escape a [] p line, receive-end a p line) refl
