-- ===== src/Sctp/Cookie.antt =====
-- The state cookies of sctp.cpp.
use myip.Base.{
  be16, ◌∷◌, u8, ℕ, ◌-◌, ◌^◌, ◌≡◌, ◌<◌, refl, sym, ap, ◌∙◌, Bool, true, bind-some, some, List, [],
  ◌++◌, arith, length, take, be32, take-append, same_bytes, same_bytes_self, same_bytes→eq,
}
use mathlib.Core.Option.{some-injective}
use myip.Buffer.{BufferIn, get_net_long, get_segment, get_n_bytes_left, peek}
use myip.Sctp.{Sctp, Context}
use myip.Sctp.Chunks.{cookie_body, state_cookie, chunk_cookie_echo}
use myip.Sctp.Reading.{reader_at, get_net_long-here}

get_segment-all :
    (p : List ℕ) (n : ℕ)
    → get_segment (reader_at p n 0) (n - 0) ≡ some (reader_at p n 0, reader_at p n n)
unfolding get_segment
get_segment-all p n = ground arith

peek-front : (k pad : List ℕ) → peek (reader_at (k ++ pad) (length k) 0) ≡ k
unfolding peek
peek-front k pad =
    let whole : length k - 0 ≡ length k = omega arith in
    ap (λ (n : ℕ). take n (k ++ pad)) whole ∙ take-append k pad

peek-segment :
    (b : BufferIn) (s : BufferIn × BufferIn)
    → get_segment b (b.size - b.o) ≡ some s
    → peek s.0 ≡ peek b
unfolding peek get_segment
peek-segment b s h = ground arith

-- The three numbers in front of a cookie.
cookie_shape :
    (hmac : List ℕ → List ℕ) (t : Sctp) (c : Context) (v x m : ℕ)
    → (tail : List ℕ) × (state_cookie hmac t c v x m ≡ be32 v ++ (be32 x ++ (be32 m ++ tail)))
unfolding state_cookie cookie_body
cookie_shape hmac t c v x m = (_, refl)

module _ (hmac : List ℕ → List ℕ) (t : Sctp) (c : Context) where
  cookie_read :
      (v x m : ℕ) (tail pad : List ℕ)
      → v < 2 ^ 32
      → x < 2 ^ 32
      → m < 2 ^ 32
      → let k : List ℕ = be32 v ++ (be32 x ++ (be32 m ++ tail)) in
        chunk_cookie_echo hmac t c (reader_at (k ++ pad) (length k) 0)
        ≡ some (same_bytes k (state_cookie hmac t c v x m), v, x, m)
  unfolding chunk_cookie_echo get_n_bytes_left
  cookie_read v x m tail pad hv hx hm =
      let k : List ℕ = be32 v ++ (be32 x ++ (be32 m ++ tail)) in
      let rest : List ℕ = tail ++ pad in
      let n : ℕ = length k in
      rw
        (
          get_segment-all (k ++ pad) n,
          get_net_long-here [] (be32 x ++ (be32 m ++ rest)) v n hv (omega arith),
          get_net_long-here (be32 v) (be32 m ++ rest) x n hx (omega arith),
          get_net_long-here (be32 v ++ be32 x) rest m n hm (omega arith),
          peek-front k pad,
        )
        refl

  -- A cookie of this host is accepted, with the numbers that it was made for.
  pub chunk_cookie_echo-state_cookie :
      (v x m : ℕ) (pad : List ℕ)
      → v < 2 ^ 32
      → x < 2 ^ 32
      → m < 2 ^ 32
      → let k : List ℕ = state_cookie hmac t c v x m in
        chunk_cookie_echo hmac t c (reader_at (k ++ pad) (length k) 0) ≡ some (true, v, x, m)
  unfolding state_cookie cookie_body
  chunk_cookie_echo-state_cookie v x m pad hv hx hm =
      let k : List ℕ = state_cookie hmac t c v x m in
      cookie_read v x m _ pad hv hx hm ∙ ap (λ (b : Bool). some (b, v, x, m)) (same_bytes_self k)

  -- What is accepted consists of the three numbers that are taken from it, the address of the other side
  -- and both ports of the packet, the time of the key, and behind them their HMAC, and nothing else.
  pub chunk_cookie_echo-genuine :
      (chunk : BufferIn) (v x m : ℕ)
      → chunk_cookie_echo hmac t c chunk ≡ some (true, v, x, m)
      → let body : List ℕ =
          be32 v
          ++ (be32 x
              ++ (be32 m
                  ++ u8 c.their_addr.addr_size
                    ∷ (take c.their_addr.addr_size c.their_addr.addr
                        ++ (be16 c.source_port
                            ++ (be16 c.destination_port ++ be32 t.state_cookie_key_timestamp))))) in
        peek chunk ≡ body ++ hmac body
  unfolding chunk_cookie_echo get_n_bytes_left state_cookie cookie_body
  chunk_cookie_echo-genuine chunk v x m e =
      let (s, hs, e1) = bind-some (get_segment chunk (chunk.size - chunk.o)) _ (true, v, x, m) e in
      let (r1, h1, e2) = bind-some (get_net_long s.0) _ (true, v, x, m) e1 in
      let (r2, h2, e3) = bind-some (get_net_long r1.1) _ (true, v, x, m) e2 in
      let (r3, h3, e4) = bind-some (get_net_long r2.1) _ (true, v, x, m) e3 in
      let read : (same_bytes (peek s.0) (state_cookie hmac t c r1.0 r2.0 r3.0), r1.0, r2.0, r3.0)
          ≡ (true, v, x, m) =
        some-injective _ _ e4 in
      sym (peek-segment chunk s hs)
      ∙ same_bytes→eq (peek s.0) (state_cookie hmac t c r1.0 r2.0 r3.0) (ap (λ r. r.0) read)
      ∙ ap (λ (r : Bool × ℕ × ℕ × ℕ). state_cookie hmac t c r.1 r.2 r.3) read
