-- ===== src/Sctp/Handshake.antt =====
-- How an association of sctp.cpp is set up: INIT, INIT ACK and COOKIE ECHO.
use myip.Base.{
  drop, take, ℕ, ◌+◌, ◌^◌, ◌≡◌, ◌≤◌, ◌<◌, refl, ap, ◌∙◌, false, none, some, List, [], ◌∷◌, ◌++◌,
  ◌==◌, ltb, arith, length, replicate, be16, be32, u8, shr,
}
use myip.Base.Assoc.{find, insert}
use myip.Addr.Defs.{AnyAddr}
use myip.Buffer.{get_net_long, get_net_short, get_n_bytes_left, end_reached}
use myip.Sctp.{
  Session, Sctp, Listener, new_session, transmitted, Context, Work, addr_bytes, get_hash,
  chunk_gen_cookie_ack,
}
use myip.Sctp.Chunks.{
  returned, outcome, init_head, on_chunk, on_init, on_cookie_echo, open_session, session_of,
  chunk_init, init_ack, parameters, padding_of, state_cookie,
}
use myip.Sctp.Send.{sctp_packet}
use myip.Sctp.Handler.{finish, begin, context, receive}
use myip.Sctp.Reading.{reader_at, with_chunk, chunks-one, read_header-here}
use myip.Tcp.Segment.{be32_value}
use myip.Tcp.Wire.{be32_value-be32}
use myip.Sctp.Cookie.{chunk_cookie_echo-state_cookie}
use myip.Sctp.Echo.{echoed, cookie-length, echoed-init_ack, init_ack-numbers, same_cookie}

-- A packet of the other side with one chunk; its tag and checksum are not looked at.
abbrev pub their_packet : ℕ → ℕ → ℕ → ℕ → ℕ → ℕ → List ℕ → List ℕ
their_packet sp dp x y type flags content =
    with_chunk (be16 sp ++ (be16 dp ++ (be32 x ++ be32 y))) type flags content

-- The content of an INIT chunk without parameters.
abbrev pub init_content : ℕ → ℕ → ℕ → ℕ → ℕ → List ℕ
init_content tag window outbound inbound tsn =
    be32 tag ++ (be32 window ++ (be16 outbound ++ (be16 inbound ++ be32 tsn)))

module _ (hmac : List ℕ → List ℕ) (crc32c : List ℕ → ℕ) where
  -- A packet with one chunk that its handler takes.
  receive-one :
      (t : Sctp) (their dst : AnyAddr) (draw : ℕ → ℕ × ℕ) (sp dp x y type flags : ℕ)
      (content : List ℕ)
      → sp < 65536
      → dp < 65536
      → x < 2 ^ 32
      → y < 2 ^ 32
      → length content < 65532
      → (type == 6) ≡ false
      → (w' : Work)
      → let c = context their dst sp dp draw in
        on_chunk hmac c (begin t) type (
            reader_at (content ++ replicate (padding_of (4 + length content)) 0) (length content) 0)
          ≡ returned w'
        → receive hmac crc32c t their dst draw (their_packet sp dp x y type flags content)
          ≡ some (finish crc32c c w')
  unfolding receive
  receive-one t their dst draw sp dp x y type flags content hs hd hx hy h six w' one =
      let c = context their dst sp dp draw in
      let p : List ℕ = their_packet sp dp x y type flags content in
      let long : ltb (length p) 12 ≡ false = ground arith in
      rw
        (
          long,
          read_header-here sp dp x y _ hs hd hx hy,
          chunks-one hmac c (begin t) w' (be16 sp ++ (be16 dp ++ (be32 x ++ be32 y))) content type
              flags _ h six one,
        )
        refl

  -- An INIT chunk on a port that is listened to.
  on_init-init_content :
      (c : Context) (w : Work) (l : Listener) (tag window outbound inbound tsn : ℕ) (pad : List ℕ)
      → find c.destination_port w.sctp.listeners ≡ some l
      → tag < 2 ^ 32
      → window < 2 ^ 32
      → outbound < 65536
      → inbound < 65536
      → tsn < 2 ^ 32
      → on_init hmac c w (reader_at (init_content tag window outbound inbound tsn ++ pad) 16 0)
        ≡ returned (record w {
          tag = tag;
          n_init = w.n_init + 1;
          reply = w.reply ++ init_ack hmac w.sctp c (c.draw w.n_init) tag tsn;
        })
  unfolding on_init chunk_init init_head parameters get_n_bytes_left end_reached get_net_long
      get_net_short
  on_init-init_content c w l tag window outbound inbound tsn pad hl ht hw ho hi hn =
      let t : be32_value (u8 (shr tag 24)) (u8 (shr tag 16)) (u8 (shr tag 8)) (u8 tag) ≡ tag =
        be32_value-be32 tag ∙ omega arith in
      let n : be32_value (u8 (shr tsn 24)) (u8 (shr tsn 16)) (u8 (shr tsn 8)) (u8 tsn) ≡ tsn =
        be32_value-be32 tsn ∙ omega arith in
      rw (on_init, hl, t, n) refl

  -- A cookie of this host, echoed.
  on_cookie_echo-state_cookie :
      (c : Context) (w : Work) (l : Listener) (v x m : ℕ) (pad : List ℕ)
      → find c.destination_port w.sctp.listeners ≡ some l
      → find c.hash w.sctp.sessions ≡ none
      → v < 2 ^ 32
      → x < 2 ^ 32
      → m < 2 ^ 32
      → let k = state_cookie hmac w.sctp c v x m in
        on_cookie_echo hmac c w (reader_at (k ++ pad) (length k) 0)
        ≡ some (record w {
          tag = v;
          reply = w.reply ++ chunk_gen_cookie_ack;
          sctp = record w.sctp { sessions = insert c.hash (session_of c v x m) w.sctp.sessions };
          events = w.events ++ new_session (session_of c v x m) ∷ [];
        })
  unfolding on_cookie_echo open_session
  on_cookie_echo-state_cookie c w l v x m pad hl hs hv hx hm =
      rw
        (
          on_cookie_echo,
          chunk_cookie_echo-state_cookie hmac w.sctp c v x m pad hv hx hm,
          hl,
          open_session,
          hs,
        )
        refl

-- A client asks for an association by an INIT chunk and echoes the cookie that it is answered, within
-- the same life of the key; the HMAC has 28 bytes. The first packet changes nothing and is answered by
-- an INIT ACK under the client's tag with this host's number; the second one, at any later state where
-- the port is still listened to and has no session with this client, establishes exactly one session,
-- with the client's tag and number from its INIT and this host's number from the INIT ACK, tells the
-- application, and is acknowledged.
pub receive-handshake :
    (hmac : List ℕ → List ℕ) (crc32c : List ℕ → ℕ) (t t' : Sctp) (their dst : AnyAddr)
    (draw draw' : ℕ → ℕ × ℕ) (sp dp x y x' y' flags flags' tag window outbound inbound tsn : ℕ)
    (l l' : Listener)
    → ((content : List ℕ) → length (hmac content) ≡ 28)
    → length (addr_bytes their) ≤ 16
    → (sp < 65536) × (dp < 65536)
    → (x < 2 ^ 32) × (y < 2 ^ 32) × (x' < 2 ^ 32) × (y' < 2 ^ 32)
    → (tag < 2 ^ 32) × (window < 2 ^ 32) × (tsn < 2 ^ 32) × ((draw 0).1 < 2 ^ 32)
    → (outbound < 65536) × (inbound < 65536)
    → t'.state_cookie_key_timestamp ≡ t.state_cookie_key_timestamp
    → find dp t.listeners ≡ some l
    → find dp t'.listeners ≡ some l'
    → find (get_hash their sp dp) t'.sessions ≡ none
    → let c = context their dst sp dp draw in
      let s : Session = record {
        my_addr = dst;
        my_port = dp;
        their_addr = their;
        their_port = sp;
        my_tsn = (draw 0).1;
        their_tsn = tsn;
        my_stream_sequence_nr = 0;
        their_verification_tag = tag;
      } in
      let reply = sctp_packet crc32c dp sp tag (init_ack hmac t c (draw 0) tag tsn) in
      (receive hmac crc32c t their dst draw
          (their_packet sp dp x y 1 flags (init_content tag window outbound inbound tsn))
        ≡ some (t, transmitted their dst reply ∷ []))
      × (take 4 (drop 4 reply) ≡ be32 tag)
      × (take 4 (drop 28 reply) ≡ be32 (draw 0).1)
      × (receive hmac crc32c t' their dst draw' (their_packet sp dp x' y' 10 flags' (echoed reply))
          ≡ some (
            record t' { sessions = insert (get_hash their sp dp) s t'.sessions },
            new_session s
                ∷ transmitted their dst (sctp_packet crc32c dp sp tag chunk_gen_cookie_ack)
                ∷ [],
          ))
unfolding on_chunk finish
receive-handshake hmac crc32c t t' their dst draw draw' sp dp x y x' y' flags flags' tag window
      outbound inbound tsn l l' hh ha (hs, hd) (hx, hy, hx', hy') (ht, hw, hn, hm) (ho, hi) same hl
      hl' fresh =
    let c : Context = context their dst sp dp draw in
    let c' : Context = context their dst sp dp draw' in
    let m : ℕ = (draw 0).1 in
    let k : List ℕ = state_cookie hmac t' c' tag tsn m in
    let short : length k ≤ 65 = cookie-length hmac t' c' tag tsn m ha hh in
    let cookie : echoed (sctp_packet crc32c dp sp tag (init_ack hmac t c (draw 0) tag tsn)) ≡ k =
      echoed-init_ack hmac crc32c t c (draw 0) sp dp tag tsn
        (cookie-length hmac t c tag tsn m ha hh)
      ∙ same_cookie hmac t t' their dst sp dp draw draw' tag tsn m same in
    (
      receive-one hmac crc32c t their dst draw sp dp x y 1 flags
          (init_content tag window outbound inbound tsn) hs hd hx hy (omega arith) refl _
          (on_init-init_content hmac crc32c c (begin t) l tag window outbound inbound tsn [] hl ht
            hw ho hi hn),
      (init_ack-numbers hmac crc32c t c (draw 0) sp dp tag tsn).0,
      (init_ack-numbers hmac crc32c t c (draw 0) sp dp tag tsn).2,
      ap
            (λ (content : List ℕ).
              receive hmac crc32c t' their dst draw' (their_packet sp dp x' y' 10 flags' content))
            cookie
          ∙ receive-one hmac crc32c t' their dst draw' sp dp x' y' 10 flags' k hs hd hx' hy'
              (omega arith) refl _
              (ap outcome (
                on_cookie_echo-state_cookie hmac crc32c c' (begin t') l' tag tsn m
                  (replicate (padding_of (4 + length k)) 0) hl' fresh ht hn hm)),
    )
