-- ===== src/Tests/Association.antt =====
-- The theorems on SCTP at a small association.
use myip.Base.{
  take, drop, be16, be32, ℕ, ◌+◌, ◌≡◌, refl, true, some, List, [], ◌∷◌, ◌++◌, replicate, arith,
  length, All,
}
use myip.Base.Assoc
use myip.Buffer.{BufferIn, peek}
use myip.Sctp.{
  Sctp, Session, Listener, Event, Context, new_session, transmitted, get_hash, chunk_gen_cookie_ack,
}
use myip.Sctp.Chunks.{state_cookie, session_of, init_ack}
use myip.Sctp.Send.{sctp_packet, send_data}
use myip.Sctp.Handler.{receive, context}
use myip.Sctp.Reading.{reader_at}
use myip.Sctp.Bounds.{receive-total}
use myip.Sctp.Cookie.{chunk_cookie_echo-state_cookie, chunk_cookie_echo-genuine}
use myip.Sctp.Echo.{echoed}
use myip.Sctp.Handshake.{their_packet, init_content, receive-handshake}
use myip.Sctp.Stream.{numbered, counted, flat, IsPiece, send_data-numbered}
use myip.Tests.Data.{address}

abbrev hmac : List ℕ → List ℕ
hmac content = replicate 28 (length content)

abbrev crc32c : List ℕ → ℕ
crc32c p = length p

abbrev draw : ℕ → ℕ × ℕ
draw n = (11 + n, 22)

abbrev listener : Listener
listener = record { new_data = λ s payload. true }

abbrev sctp : Sctp
sctp = record { sessions = []; listeners = (80, listener) ∷ []; state_cookie_key_timestamp = 7 }

abbrev peer : Context
peer = context (address 1) (address 2) 5000 80 draw

abbrev answer : List ℕ
answer = sctp_packet crc32c 80 5000 100 (init_ack hmac sctp peer (11, 22) 100 200)

receive-handshake_example :
    (receive hmac crc32c sctp
        (address 1)
        (address 2)
        draw
        (their_packet 5000 80 0 0 1 0 (init_content 100 4096 1 1 200))
      ≡ some (sctp, transmitted (address 1) (address 2) answer ∷ []))
    × (take 4 (drop 4 answer) ≡ be32 100)
    × (take 4 (drop 28 answer) ≡ be32 22)
    × (receive hmac crc32c sctp
          (address 1)
          (address 2)
          draw
          (their_packet 5000 80 22 0 10 0 (echoed answer))
        ≡ some (
          record sctp {
            sessions = Assoc.insert (get_hash (address 1) 5000 80) (session_of peer 100 200 22) [];
          },
          new_session (session_of peer 100 200 22)
              ∷ transmitted
                  (address 1)
                  (address 2)
                  (sctp_packet crc32c 80 5000 100 chunk_gen_cookie_ack)
              ∷ [],
        ))
receive-handshake_example =
    receive-handshake hmac crc32c sctp sctp (address 1) (address 2) draw draw 5000 80 0 0 22 0 0 0
      100 4096 1 1 200 listener listener (λ content. refl) (omega arith) (omega arith, omega arith)
      (omega arith, omega arith, omega arith, omega arith)
      (omega arith, omega arith, omega arith, omega arith) (omega arith, omega arith) refl refl refl
      refl

receive-total_example :
    (r : Sctp × List Event) × (receive hmac crc32c sctp
        (address 1)
        (address 2)
        draw
        (their_packet 5000 80 0 0 0 3 (1 ∷ 2 ∷ []) ++ 14 ∷ 0 ∷ 255 ∷ [])
      ≡ some r)
receive-total_example =
    receive-total hmac crc32c sctp (address 1) (address 2) draw
      (their_packet 5000 80 0 0 0 3 (1 ∷ 2 ∷ []) ++ 14 ∷ 0 ∷ 255 ∷ [])

abbrev cookie : List ℕ
cookie = state_cookie hmac sctp peer 100 200 22

abbrev echo : BufferIn
echo = reader_at (cookie ++ []) (length cookie) 0

abbrev body : List ℕ
body =
    be32 100 ++ (be32 200 ++ (be32 22 ++ 4 ∷ 10 ∷ 0 ∷ 0 ∷ 1 ∷ (be16 5000 ++ (be16 80 ++ be32 7))))

chunk_cookie_echo-genuine_example : peek echo ≡ body ++ hmac body
chunk_cookie_echo-genuine_example = chunk_cookie_echo-genuine hmac sctp peer echo 100 200 22 (
    chunk_cookie_echo-state_cookie hmac sctp peer 100 200 22 [] (omega arith) (omega arith)
      (omega arith))

abbrev session : Session
session = session_of peer 100 200 22

send_data-numbered_example :
    (pieces : List (List ℕ)) × (send_data crc32c 25 60 (λ _. true) session (replicate 25 7)
      ≡ some (
        true,
        record session {
          my_tsn = counted 32 22 pieces;
          my_stream_sequence_nr = counted 16 0 pieces;
        },
        numbered crc32c 80 5000 100 22 0 pieces,
      ))
    × (flat pieces ≡ replicate 25 7)
    × All (IsPiece 60) pieces
send_data-numbered_example =
    send_data-numbered crc32c 60 (omega arith) 25 session (replicate 25 7) (omega arith)
