-- ===== src/Sctp/Bounds.antt =====
-- The loop over the chunks of a packet of sctp.cpp ends.
use myip.Base.{
  ◌≢◌, ◌⊎◌, ℕ, zero, suc, ◌+◌, ◌-◌, ◌≡◌, ◌≤◌, refl, true, some, List, [], ◌==◌, ltb, arith,
  Bool-cases, Option-cases, inl, inr, length,
}
use myip.Addr.Defs.{AnyAddr}
use myip.Buffer.{
  get_n_bytes_left, BufferIn, buffer_in, get_net_byte, get_net_short, get_net_long, get_segment,
  seek, end_reached,
}
use myip.Sctp.{Sctp, Event, Context, Work}
use myip.Sctp.Chunks.{
  Outcome, returned, thrown, endless, get_parameter, parameters, init_head, chunk_init, on_init,
  on_chunk, skip_padding,
}
use myip.Sctp.Handler.{
  Ended, finished, truncated, out_of_fuel, chunk_head, chunks, read_header, receive, conclude,
  finish, context, begin,
}

-- A reader that stands `n` bytes or more behind another one of the same buffer, and not behind its end.
abbrev IsAhead : ℕ → BufferIn → BufferIn → Type 0
IsAhead n b b' = (b'.size ≡ b.size) × (b.o + n ≤ b'.o) × (b'.o ≤ b.size)

chunk_head-IsAhead :
    (b : BufferIn) (h : ℕ × ℕ) (b' : BufferIn) → chunk_head b ≡ some (h, b') → IsAhead 4 b b'
unfolding chunk_head get_net_byte get_net_short
chunk_head-IsAhead b h b' e = ground arith

get_segment-IsAhead :
    (b : BufferIn) (n : ℕ) (seg b' : BufferIn) → get_segment b n ≡ some (seg, b') → IsAhead 0 b b'
unfolding get_segment
get_segment-IsAhead b n seg b' e = ground arith

skip_padding-IsAhead :
    (n : ℕ) (b b' : BufferIn) → b.o ≤ b.size → skip_padding n b ≡ some b' → IsAhead 0 b b'
unfolding skip_padding seek
skip_padding-IsAhead n b b' h e = ground arith

outcome-cases :
    {A : Type 0} (r : Outcome A) → r ≢ endless → (r ≡ thrown) ⊎ ((a : A) × (r ≡ returned a))
outcome-cases (returned a) h = inr (a, refl)
outcome-cases thrown h = inl refl
outcome-cases endless h = absurd (h refl)

abbrev IsEnded : Ended → Type 0
IsEnded (finished w) = Unit
IsEnded (truncated w) = Unit
IsEnded out_of_fuel = ⊥

get_parameter-IsAhead :
    (b : BufferIn) (r : ℕ × BufferIn) (b' : BufferIn)
    → get_parameter b ≡ some (r, b')
    → IsAhead 4 b b'
unfolding get_parameter skip_padding seek get_net_short get_segment
get_parameter-IsAhead b r b' e = ground arith

-- Each parameter takes four bytes or more.
parameters-ends :
    (fuel : ℕ) (b : BufferIn) → b.o ≤ b.size → b.size - b.o ≤ fuel → parameters fuel b ≢ endless
unfolding parameters end_reached
parameters-ends zero b h k e = let all_read : (b.o == b.size) ≡ true = ground arith in ground arith
parameters-ends (suc fuel) b h k e = elim (Bool-cases (b.o == b.size)) [
  | inl i ↦ ground arith
  | inr i ↦ elim (Option-cases (get_parameter b)) [
    | inl n ↦ ground arith
    | inr ((r, b'), n) ↦
        let one = get_parameter-IsAhead b r b' n in
        parameters-ends fuel b' (omega arith) (omega arith) (ground arith)
  ]
]

init_head-IsAhead :
    (b : BufferIn) (h : ℕ × ℕ) (b' : BufferIn) → init_head b ≡ some (h, b') → IsAhead 16 b b'
unfolding init_head get_net_short get_net_long
init_head-IsAhead b h b' e = ground arith

module _ (hmac : List ℕ → List ℕ) (c : Context) where
  chunk_init-ends :
      (t : Sctp) (drawn : ℕ × ℕ) (b : BufferIn) → chunk_init hmac t c drawn b ≢ endless
  unfolding chunk_init get_n_bytes_left
  chunk_init-ends t drawn b e = elim (Option-cases (init_head b)) [
    | inl n ↦ ground arith
    | inr (((tag, tsn), b'), n) ↦
        let one = init_head-IsAhead b (tag, tsn) b' n in
        parameters-ends (b'.size - b'.o) b' (omega arith) (omega arith) (ground arith)
  ]

  on_chunk-ends : (w : Work) (type : ℕ) (b : BufferIn) → on_chunk hmac c w type b ≢ endless
  unfolding on_chunk on_init
  on_chunk-ends w type b e = let init = chunk_init-ends w.sctp (c.draw w.n_init) b in ground arith

  chunks-IsEnded :
      (fuel : ℕ) (w : Work) (b : BufferIn)
      → b.o ≤ b.size
      → b.size - b.o ≤ fuel
      → IsEnded (chunks hmac fuel c w b)
  unfolding chunks end_reached
  chunks-IsEnded zero w b h k = let e : (b.o == b.size) ≡ true = ground arith in rw e tt
  chunks-IsEnded (suc fuel) w b h k = elim (Bool-cases (b.o == b.size)) [
    | inl e ↦ rw e tt
    | inr ne ↦ rw ne (elim (Option-cases (chunk_head b)) [
      | inl e ↦ rw e tt
      | inr (((type, len), body), e) ↦ rw e (elim (Bool-cases (ltb len 4)) [
        | inl short ↦ rw short tt
        | inr long ↦ rw long (elim (Option-cases (get_segment body (len - 4))) [
          | inl e' ↦ rw e' tt
          | inr ((chunk, behind), e') ↦ rw e' (elim (Bool-cases (type == 6)) [
            | inl abort ↦ rw abort tt
            | inr other ↦
                rw other
                  (elim (outcome-cases (on_chunk hmac c w type chunk)
                    (on_chunk-ends w type chunk)) [
                      | inl e'' ↦ rw e'' tt
                      | inr (w', e'') ↦ rw e'' (elim (Option-cases (skip_padding len behind)) [
                        | inl e3 ↦ rw e3 tt
                        | inr (next, e3) ↦
                            let one = chunk_head-IsAhead b (type, len) body e in
                            let two = get_segment-IsAhead body (len - 4) chunk behind e' in
                            let three = skip_padding-IsAhead len behind next (omega arith) e3 in
                            rw e3 (chunks-IsEnded fuel w' next (omega arith) (omega arith))
                      ])
                    ])
          ])
        ])
      ])
    ])
  ]

concluded :
    (crc32c : List ℕ → ℕ) (c : Context) (e : Ended)
    → IsEnded e
    → (r : Sctp × List Event) × (conclude crc32c c e ≡ some r)
concluded crc32c c (finished w) h = (finish crc32c c w, refl)
concluded crc32c c (truncated w) h = ((w.sctp, w.events), refl)
concluded crc32c c out_of_fuel h = absurd h

read_header-IsAhead :
    (p : List ℕ) (h : ℕ × ℕ) (b : BufferIn)
    → read_header p ≡ some (h, b)
    → IsAhead 12 (buffer_in p) b
unfolding read_header get_net_short get_net_long
read_header-IsAhead p h b e = ground arith

module _ (hmac : List ℕ → List ℕ) (crc32c : List ℕ → ℕ) where
  -- The handler is done with every packet: the loop over its chunks takes no more rounds than the packet
  -- has bytes, and the loop over the parameters of an INIT chunk no more than the chunk has, whatever
  -- lengths and types they claim.
  pub receive-total :
      (t : Sctp) (their_addr dst_addr : AnyAddr) (draw : ℕ → ℕ × ℕ) (p : List ℕ)
      → (r : Sctp × List Event) × (receive hmac crc32c t their_addr dst_addr draw p ≡ some r)
  unfolding receive
  receive-total t their_addr dst_addr draw p = elim (Bool-cases (ltb (length p) 12)) [
    | inl short ↦ ((t, []), rw short refl)
    | inr long ↦ elim (Option-cases (read_header p)) [
      | inl e ↦ ((t, []), rw (long, e) refl)
      | inr (((source_port, destination_port), b), e) ↦
          let c = context their_addr dst_addr source_port destination_port draw in
          let ahead = read_header-IsAhead p (source_port, destination_port) b e in
          let ended = chunks-IsEnded hmac c (length p) (begin t) b (omega arith) (omega arith) in
          let (r, e') = concluded crc32c c (chunks hmac (length p) c (begin t) b) ended in
          (r, rw (long, e) e')
    ]
  ]
