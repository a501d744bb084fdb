-- ===== src/Kiss/Link.antt =====
-- What phys_kiss.cpp writes to a line it reads back from it.
use myip.Base.{
  ℕ, ◌+◌, All, ◌*◌, ◌≤◌, ◌<◌, ◌≡◌, refl, sym, ap, ◌∙◌, false, some, List, [], ◌∷◌, ◌++◌, ◌==◌,
  arith, length, map, append_assoc, append-nil, length-append, Bool-cases, inl, inr,
}
use myip.Ax25.{Address, parse, generate_packet}
use myip.Ax25.RoundTrip.{IsCallSign, IsMarked, frame, parse-generate_packet}
use myip.Kiss.{max_len, escape_put, escape_all, transmit, transmit_ax25, reading, step, handle_kiss}

handle_kiss-escape_put :
    (x : ℕ) (p line : List ℕ)
    → length p < 256
    → handle_kiss (reading p) (escape_put x ++ line) ≡ handle_kiss (reading (p ++ x ∷ [])) line
unfolding handle_kiss escape_put step
handle_kiss-escape_put x p line h =
    let room : (length p == 256) ≡ false = ground arith in
    elim (Bool-cases (x == 0xc0)) [
      | inl k ↦ let q : x ≡ 0xc0 = ground arith in rw (q, room) refl
      | inr k ↦ elim (Bool-cases (x == 0xdb)) [
        | inl l ↦ let q : x ≡ 0xdb = ground arith in rw (q, room) refl
        | inr l ↦ rw (k, l, k, l, room) refl
      ]
    ]

handle_kiss-escape_all :
    (packet p line : List ℕ)
    → length p + length packet ≤ 256
    → handle_kiss (reading p) (escape_all packet ++ line) ≡ handle_kiss (reading (p ++ packet)) line
unfolding escape_all
handle_kiss-escape_all [] p line h = ap (λ t. handle_kiss (reading t) line) (sym (append-nil p))
handle_kiss-escape_all (x ∷ packet) p line h =
    ap (handle_kiss (reading p)) (append_assoc (escape_put x) (escape_all packet) line)
    ∙ handle_kiss-escape_put x p (escape_all packet ++ line) (omega arith)
    ∙ handle_kiss-escape_all packet (p ++ x ∷ []) line (omega (arith, length-append p (x ∷ [])))
    ∙ ap (λ t. handle_kiss (reading t) line) (append_assoc p (x ∷ []) packet)

-- The end of a packet.
handle_kiss-end :
    (packet line : List ℕ)
    → handle_kiss (reading (0 ∷ packet)) (0xc0 ∷ line)
      ≡ (packet ∷ (handle_kiss (reading []) line).0, (handle_kiss (reading []) line).1)
unfolding handle_kiss step
handle_kiss-end packet line =
    let filled : (length (0 ∷ packet) == 0) ≡ false = ground arith in rw filled refl

pub handle_kiss-transmit :
    (packet line : List ℕ)
    → length packet ≤ 255
    → handle_kiss (reading []) (transmit packet ++ line)
      ≡ (packet ∷ (handle_kiss (reading []) line).0, (handle_kiss (reading []) line).1)
unfolding transmit handle_kiss step
handle_kiss-transmit packet line h =
    let tail : List ℕ = escape_all packet ++ 0xc0 ∷ [] in
    ap (handle_kiss (reading [])) (
      append_assoc (escape_put 0) tail line
      ∙ ap (λ t. escape_put 0 ++ t) (append_assoc (escape_all packet) (0xc0 ∷ []) line))
    ∙ handle_kiss-escape_put 0 [] (escape_all packet ++ 0xc0 ∷ line) (omega arith)
    ∙ handle_kiss-escape_all packet (0 ∷ []) (0xc0 ∷ line) (omega arith)
    ∙ handle_kiss-end packet line

escape_put-length : (x : ℕ) → length (escape_put x) ≤ 2
unfolding escape_put
escape_put-length x = ground arith

escape_all-length : (packet : List ℕ) → length (escape_all packet) ≤ 2 * length packet
unfolding escape_all
escape_all-length [] = omega arith
escape_all-length (x ∷ packet) =
    let one = escape_put-length x in
    let more = escape_all-length packet in
    omega (arith, length-append (escape_put x) (escape_all packet))

-- The bytes that are written for a packet never exceed the buffer that is allocated for them.
pub transmit-fits : (packet : List ℕ) → length (transmit packet) ≤ max_len packet
unfolding transmit escape_put
transmit-fits packet =
    let all = escape_all-length packet in
    omega (arith, length-append (escape_all packet) (0xc0 ∷ []))

-- A packet between two call signs with at most two repeaters, of all of which only the last one of
-- sender and repeaters has the end mark, and of at most 255 bytes, that is written to a line at rest is
-- the next one that the other end of the line hands on, and it is read there as it was sent:
-- addresses, control byte, protocol identifier and data. The bytes behind it are read with the line at
-- rest.
pub handle_kiss-transmit_ax25 :
    (to from : Address) (repeaters : List Address) (control pid : ℕ) (data_ line : List ℕ)
    → IsCallSign to
    → IsCallSign from
    → All IsCallSign repeaters
    → length repeaters ≤ 2
    → IsMarked (from ∷ repeaters)
    → length (generate_packet (frame to from repeaters control pid data_)) ≤ 255
    → (map parse
          (handle_kiss
            (reading [])
            (transmit_ax25 (frame to from repeaters control pid data_) ++ line)).0
        ≡ some (frame to from repeaters control pid data_)
          ∷ map parse (handle_kiss (reading []) line).0)
      × ((handle_kiss
            (reading [])
            (transmit_ax25 (frame to from repeaters control pid data_) ++ line)).1
          ≡ (handle_kiss (reading []) line).1)
unfolding transmit_ax25
handle_kiss-transmit_ax25 to from repeaters control pid data_ line ht hf hr few m h =
    let sent = generate_packet (frame to from repeaters control pid data_) in
    let read = handle_kiss-transmit sent line h in
    (
      ap (λ r. map parse r.0) read
          ∙ ap (λ t. t ∷ map parse (handle_kiss (reading []) line).0)
              (parse-generate_packet to from repeaters control pid data_ ht hf hr few m),
      ap (λ r. r.1) read,
    )
