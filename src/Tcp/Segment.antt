-- ===== src/Tcp/Segment.antt =====
-- `send_segment` and `send_rst_for_port` of tcp.cpp: the bytes that go out, and what a sent segment
-- changes in its session.
use myip.Base.{
  ℕ, ◌+◌, Bool, true, ◌||◌, Option, none, some, List, [], ◌∷◌, ◌++◌, if◌then◌else◌, length, shr,
  shl, u8, u32, bit_or, get_or, take, drop,
}
use mathlib.Core.Option
use myip.Checksum.{tcp_udp_checksum}
use myip.Tcp.State.{
  TcpSession, Segment, Event, sent, reset, Machine, Packet, has_flag, flag_fin_bit, flag_syn_bit,
  flag_rst_bit,
}

-- A number stored in four bytes, and in two, the high one first.
abbrev pub be32 : ℕ → List ℕ
be32 x = u8 (shr x 24) ∷ u8 (shr x 16) ∷ u8 (shr x 8) ∷ u8 x ∷ []

abbrev pub be16 : ℕ → List ℕ
be16 x = u8 (shr x 8) ∷ u8 x ∷ []

-- `(a << 24) | (b << 16) | (c << 8) | d` and `(a << 8) | b`.
abbrev pub be32_value : ℕ → ℕ → ℕ → ℕ → ℕ
be32_value a b c d = bit_or (bit_or (bit_or (shl a 24) (shl b 16)) (shl c 8)) d

abbrev pub be16_value : ℕ → ℕ → ℕ
be16_value a b = bit_or (shl a 8) b

abbrev seq_bytes : Option ℕ → List ℕ
seq_bytes none = 0 ∷ 0 ∷ 0 ∷ 0 ∷ []
seq_bytes (some x) = be32 x

-- The buffer `temp` up to the checksum, with the 16 bytes from the checksum on.
unfoldable pub segment_front : Segment → List ℕ
segment_front s =
    be16 s.my_port
    ++ be16 s.peer_port
    ++ seq_bytes s.seq
    ++ be32 s.ack_to
    ++ (128 ∷ u8 s.flags ∷ 255 ∷ 255 ∷ [])

unfoldable pub segment_back : Segment → List ℕ
segment_back s = 0 ∷ 0 ∷ 8 ∷ 10 ∷ (be32 s.us ++ be32 s.ts_ecr ++ (1 ∷ 0 ∷ []) ++ s.content)

-- The whole buffer with a checksum.
unfoldable pub segment_with : Segment → ℕ → List ℕ
unfolding segment_front segment_back
segment_with s checksum = segment_front s ++ shr checksum 8 ∷ u8 checksum ∷ segment_back s

-- What is handed to `transmit_packet`; `none` is a failed assertion of `tcp_udp_checksum`.
unfoldable pub segment_bytes : Segment → Option (List ℕ)
unfolding segment_with
segment_bytes s = elim (tcp_udp_checksum s.peer_addr s.my_addr true (segment_with s 0)) [
  | none ↦ none
  | some checksum ↦ some (segment_with s checksum)
]

-- `*my_seq_nr` after the call.
unfoldable pub seq_after : ℕ → ℕ → ℕ → ℕ
seq_after seq flags data_len =
    if has_flag flags flag_fin_bit || has_flag flags flag_syn_bit
    then u32 (u32 (seq + data_len) + 1)
    else u32 (seq + data_len)

-- `send_segment` of a segment with these arguments: the number behind the pointer after it, the
-- session, and what is sent. Without a device nothing happens.
unfoldable pub send_segment :
    Bool → Machine → TcpSession → Segment → Option ℕ × TcpSession × List Event
unfolding seq_after
send_segment has_idev m s g =
    if has_idev
    then (
      Option.map (λ q. seq_after q g.flags (length g.content)) g.seq,
      record s { e_last_pkt_ts = m.now_us },
      sent g ∷ [],
    )
    else (g.seq, s, [])

-- The arguments, with the session's own addresses the right way round.
abbrev pub to_peer : Machine → TcpSession → ℕ → ℕ → Option ℕ → List ℕ → ℕ → Segment
to_peer m s flags ack_to seq content ts_ecr = record {
  my_addr = s.my_addr;
  my_port = s.my_port;
  peer_addr = s.their_addr;
  peer_port = s.their_port;
  flags = flags;
  ack_to = ack_to;
  seq = seq;
  content = content;
  ts_ecr = ts_ecr;
  us = m.now_us;
}

-- The arguments with the addresses exchanged, as two calls for client sessions have them.
abbrev pub to_itself : Machine → TcpSession → ℕ → ℕ → Option ℕ → List ℕ → ℕ → Segment
to_itself m s flags ack_to seq content ts_ecr =
    record (to_peer m s flags ack_to seq content ts_ecr) {
      my_addr = s.their_addr;
      my_port = s.their_port;
      peer_addr = s.my_addr;
      peer_port = s.my_port;
    }

-- The call with `&ts->my_seq_nr`.
unfoldable pub send_counted : Bool → Machine → TcpSession → Segment → TcpSession × List Event
unfolding send_segment
send_counted has_idev m s g =
    let (q, s', log) = send_segment has_idev m s (record g { seq = some s.my_seq_nr }) in
    (record s' { my_seq_nr = Option.get_or q s.my_seq_nr }, log)

-- The reset for a packet that belongs to no session: its ports exchanged, its acknowledgement as
-- sequence number, and its sequence number plus 1 acknowledged.
unfoldable pub rst_with : List ℕ → ℕ → ℕ → ℕ → List ℕ
rst_with p dst_port src_port checksum =
    let nr = be32_value (get_or p 4 0) (get_or p 5 0) (get_or p 6 0) (get_or p 7 0) in
    be16 dst_port
    ++ be16 src_port
    ++ take 4 (drop 8 p)
    ++ be32 (u32 (nr + 1))
    ++ (80 ∷ flag_rst_bit ∷ 0 ∷ 0 ∷ shr checksum 8 ∷ u8 checksum ∷ 0 ∷ 0 ∷ [])

unfoldable pub send_rst_for_port : Bool → Packet → ℕ → ℕ → List Event
unfolding rst_with
send_rst_for_port has_idev pkt dst_port src_port =
    if has_idev
    then reset pkt.src_addr pkt.dst_addr (
        Option.map (rst_with pkt.bytes dst_port src_port) (
          tcp_udp_checksum pkt.src_addr pkt.dst_addr true (rst_with pkt.bytes dst_port src_port 0)))
      ∷ []
    else []
