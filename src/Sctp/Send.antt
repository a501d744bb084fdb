-- ===== src/Sctp/Send.antt =====
-- The packets that sctp.cpp sends, the CRC-32C given.
use myip.Base.{
  ℕ, zero, suc, ◌+◌, ◌-◌, Bool, true, false, Option, none, some, List, [], ◌∷◌, ◌++◌, length, take,
  drop, u16, u32, min, be16, be32,
}
use myip.Buffer.{add_padding}
use myip.Sctp.{Session, chunk_gen_shutdown}

-- `inc_my_tsn` and `inc_my_stream_sequence_nr`
abbrev pub after_packet : Session → Session
after_packet s = record s {
  my_tsn = u32 (s.my_tsn + 1);
  my_stream_sequence_nr = u16 (s.my_stream_sequence_nr + 1);
}

module _ (crc32c : List ℕ → ℕ) where
  -- A packet between two ports with a tag and its checksum.
  unfoldable pub sctp_packet : ℕ → ℕ → ℕ → List ℕ → List ℕ
  sctp_packet source_port destination_port tag content =
      let head = be16 source_port ++ (be16 destination_port ++ be32 tag) in
      head ++ (be32 (crc32c (head ++ (be32 0 ++ content))) ++ content)

  -- The packet that a pass of the loop of `send_data` sends for its bytes.
  unfoldable pub data_packet : Session → List ℕ → List ℕ
  unfolding sctp_packet
  data_packet s payload = sctp_packet s.my_port s.their_port s.their_verification_tag (
      add_padding
        (0
          ∷ 3
          ∷ (be16 (length payload + 16)
              ++ (be32 s.my_tsn
                  ++ (be16 0 ++ (be16 s.my_stream_sequence_nr ++ (be32 0 ++ payload))))))
        4)

  -- `send_data` on a device of a packet size above 50 that answers `sent` to a packet: whether all was
  -- sent, the session after it, and the packets. `none`: the fuel is used up.
  unfoldable pub send_data :
      ℕ → ℕ → (List ℕ → Bool) → Session → List ℕ → Option (Bool × Session × List (List ℕ))
  unfolding data_packet
  send_data fuel max_packet_size sent s [] = some (true, s, [])
  send_data zero max_packet_size sent s (x ∷ payload) = none
  send_data (suc fuel) max_packet_size sent s (x ∷ payload) =
      let n_bytes_to_add = min (length (x ∷ payload)) (max_packet_size - 50) in
      let out = data_packet s (take n_bytes_to_add (x ∷ payload)) in
      let next : Session = after_packet s in
      let rest = send_data fuel max_packet_size sent next (drop n_bytes_to_add (x ∷ payload)) in
      elim (sent out) [
        | false ↦ some (false, next, out ∷ [])
        | true ↦ elim rest [ none ↦ none | some (ok, s', packets) ↦ some (ok, s', out ∷ packets) ]
      ]

  -- `end_session`: the packet that it sends.
  unfoldable pub end_session : Session → List ℕ
  unfolding sctp_packet
  end_session s = sctp_packet s.my_port s.their_port s.their_verification_tag chunk_gen_shutdown
