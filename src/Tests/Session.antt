-- ===== src/Tests/Session.antt =====
-- The theorems on one session at sessions of the test data.
use myip.Base.{
  Bool, ℕ, ◌+◌, ◌<◌, ◌≡◌, ◌⊎◌, refl, true, false, some, List, [], ◌∷◌, drop, u32, arith,
}
use myip.Tcp.State.{TcpSession, established, syn_rcvd, Segment, waiting, has_flag}
use myip.Tcp.Segment.{segment_with}
use myip.Tcp.Header.{read_header, scan_options, done}
use myip.Tcp.Receive.{Context, process, ack_established}
use myip.Tcp.Send.{send_data, returned}
use myip.Tcp.Quiet.{delivered}
use myip.Tcp.Deliver.{process-in_order}
use myip.Tcp.Stream.{IsQueued, ack_established-waiting, send_data-waiting}
use myip.Tcp.States.{Moves, process-Moves}
use myip.Tcp.Wire.{IsSegment, read_header-segment_with}
use myip.Tcp.Options.{single, long, ends, scan_options-done}
use myip.Tests.Data.{session, context, header, work, stats, address}

abbrev data_packet : Context
data_packet = context (header false false false true 100 1000) (7 ∷ 8 ∷ []) 22

process-in_order_example :
    let w = process data_packet (session established) stats in
    ((delivered w.events ≡ []) × (w.session.their_seq_nr ≡ 100))
    ⊎ ((delivered w.events ≡ (7 ∷ 8 ∷ []) ∷ [])
        × (data_packet.header.their_seq_nr ≡ 100)
        × (20 < 22)
        × ((w.session.their_seq_nr ≡ u32 (100 + 2))
            ⊎ ((w.fail ≡ true) × (w.session.their_seq_nr ≡ 100))))
process-in_order_example = process-in_order data_packet (session established) stats refl

four_wait : IsQueued (session established)
four_wait = record {
  held = omega arith;
  bounded = omega arith;
  aligned = λ h. refl;
  narrow = omega arith;
}

ack_established-waiting_example :
    let w' =
      ack_established
        (context (header false false false true 100 1003) [] 20)
        (work (session established)) in
    (waiting w'.session ≡ 4 ∷ []) × (w'.fail ≡ false) × (w'.delete_entry ≡ false)
ack_established-waiting_example =
    ack_established-waiting (context (header false false false true 100 1003) [] 20)
      (work (session established)) 3 four_wait (omega arith) (omega arith) refl

process-Moves_example :
    Moves data_packet
      (session syn_rcvd)
      ((process data_packet (session syn_rcvd) stats).session.state)
process-Moves_example = process-Moves data_packet (session syn_rcvd) stats

abbrev syn_packet : Context
syn_packet = context (header false true false false 100 0) [] 20

abbrev segment : Segment
segment = record {
  my_addr = address 1;
  my_port = 80;
  peer_addr = address 2;
  peer_port = 1000;
  flags = 24;
  ack_to = 100;
  seq = some 4294967295;
  content = 104 ∷ 105 ∷ [];
  ts_ecr = 0;
  us = 5000000;
}

segment-IsSegment : IsSegment segment 4294967295
segment-IsSegment = record {
  numbered = refl;
  seq_fits = omega arith;
  my_port_fits = omega arith;
  peer_port_fits = omega arith;
  ack_fits = omega arith;
  flags_fit = omega arith;
}

read_header-segment_with_example :
    let p = segment_with segment 4660 in
    let h = read_header p in
    (h.src_port ≡ 80)
    × (h.dst_port ≡ 1000)
    × (h.their_seq_nr ≡ 4294967295)
    × (h.ack_to ≡ 100)
    × (h.flag_fin ≡ has_flag 24 1)
    × (h.flag_syn ≡ has_flag 24 2)
    × (h.flag_rst ≡ has_flag 24 4)
    × (h.flag_ack ≡ has_flag 24 16)
    × (h.header_size ≡ 32)
    × (h.win_size ≡ 65535)
    × (drop h.header_size p ≡ 104 ∷ 105 ∷ [])
    × (scan_options 64 p 20 h.header_size h.flag_ack 0 ≡ done (u32 5000000))
read_header-segment_with_example =
    read_header-segment_with segment 4294967295 4660 segment-IsSegment

-- Two single bytes and a time stamp of ten.
abbrev options : List ℕ
options = 1 ∷ 1 ∷ 8 ∷ 10 ∷ 0 ∷ 0 ∷ 0 ∷ 9 ∷ 0 ∷ 0 ∷ 0 ∷ 0 ∷ []

scan_options-done_example : (r : ℕ) × (scan_options 64 options 0 12 true 0 ≡ done r)
scan_options-done_example =
    scan_options-done 64 options 0 12 true 0
      (single (omega arith) (omega arith) (
        single (omega arith) (omega arith)
          (long (omega arith) (omega arith) (omega arith) (ends (omega arith)))))
      (omega arith) (omega arith)

abbrev syn_ack_packet : Context
syn_ack_packet = context (header false true false true 100 12345) [] 20

send_data-waiting_example :
    (s' : TcpSession) × (queued : Bool) × (send_data (session established) (5 ∷ 6 ∷ [])
      ≡ returned s' queued)
    × (waiting s' ≡ 1 ∷ 2 ∷ 3 ∷ 4 ∷ 5 ∷ 6 ∷ [])
send_data-waiting_example =
    send_data-waiting (session established) (5 ∷ 6 ∷ []) four_wait (omega arith) refl refl
