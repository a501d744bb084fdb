-- ===== src/Sctp/Stream.antt =====
-- The data that sctp.cpp sends.
use myip.Base.{
  be16, be32, ◌%◌, ◌^◌, ℕ, zero, suc, ◌+◌, ◌-◌, ◌≡◌, ◌≤◌, ◌<◌, refl, ap, ◌∙◌, true, some, List, [],
  ◌∷◌, ◌++◌, arith, length, take, drop, min, All, length-take, length-drop, take-append-drop,
}
use myip.Buffer.{add_padding}
use myip.Sctp.{Session}
use myip.Sctp.Send.{data_packet, sctp_packet, send_data, after_packet}

abbrev pub flat : List (List ℕ) → List ℕ
flat [] = []
flat (piece ∷ pieces) = piece ++ flat pieces

-- A packet of a piece between two ports under a tag, with its two numbers.
abbrev numbered_packet : (List ℕ → ℕ) → ℕ → ℕ → ℕ → ℕ → ℕ → List ℕ → List ℕ
numbered_packet crc32c my_port their_port tag tsn nr piece =
    let chunk =
      add_padding
        (0
          ∷ 3
          ∷ (be16 (length piece + 16) ++ (be32 tsn ++ (be16 0 ++ (be16 nr ++ (be32 0 ++ piece))))))
        4 in
    let head = be16 my_port ++ (be16 their_port ++ be32 tag) in
    head ++ (be32 (crc32c (head ++ (be32 0 ++ chunk))) ++ chunk)

-- The packets for consecutive pieces: each number is the one before and 1, of 32 and of 16 bits.
abbrev pub numbered : (List ℕ → ℕ) → ℕ → ℕ → ℕ → ℕ → ℕ → List (List ℕ) → List (List ℕ)
numbered crc32c my_port their_port tag tsn nr [] = []
numbered crc32c my_port their_port tag tsn nr (piece ∷ pieces) =
    numbered_packet crc32c my_port their_port tag tsn nr piece
    ∷ numbered crc32c my_port their_port tag ((tsn + 1) % 2 ^ 32) ((nr + 1) % 2 ^ 16) pieces

-- The number of a width behind as many pieces.
abbrev pub counted : ℕ → ℕ → List (List ℕ) → ℕ
counted w n [] = n
counted w n (piece ∷ pieces) = counted w ((n + 1) % 2 ^ w) pieces

-- A piece that fits a packet.
abbrev pub IsPiece : ℕ → List ℕ → Type 0
IsPiece max_packet_size piece = (0 < length piece) × (length piece + 50 ≤ max_packet_size)

module _ (crc32c : List ℕ → ℕ) (max_packet_size : ℕ) (room : 50 < max_packet_size) where
  -- On a device that takes every packet, with packets of more than 50 bytes, all data is sent: cut into
  -- pieces that are not empty and that leave 50 bytes of a packet for its headers, which joined are the
  -- data, each in a packet with the next transmission and stream sequence number. As many rounds as there
  -- are bytes are enough.
  pub send_data-numbered :
      (fuel : ℕ) (s : Session) (payload : List ℕ)
      → length payload ≤ fuel
      → (pieces : List (List ℕ)) × (send_data crc32c fuel max_packet_size (λ _. true) s payload
          ≡ some (
            true,
            record s {
              my_tsn = counted 32 s.my_tsn pieces;
              my_stream_sequence_nr = counted 16 s.my_stream_sequence_nr pieces;
            },
            numbered crc32c s.my_port s.their_port s.their_verification_tag s.my_tsn
                s.my_stream_sequence_nr pieces,
          ))
        × (flat pieces ≡ payload)
        × All (IsPiece max_packet_size) pieces
  unfolding send_data data_packet sctp_packet
  send_data-numbered fuel s [] h = ([], refl, refl, tt)
  send_data-numbered zero s (x ∷ payload) h = absurd (omega arith)
  send_data-numbered (suc fuel) s (x ∷ payload) h =
      let all : List ℕ = x ∷ payload in
      let n : ℕ = min (length all) (max_packet_size - 50) in
      let size : length (take n all) ≡ n = length-take n all ∙ omega arith in
      let (pieces, sent, joined, fit) =
        send_data-numbered fuel (after_packet s) (drop n all) (omega (arith, length-drop n all)) in
      (
        take n all ∷ pieces,
        rw (send_data, sent) refl,
        ap (λ t. take n all ++ t) joined ∙ take-append-drop n all,
        ((omega arith, omega arith), fit),
      )
