-- ===== src/Tcp/Send.antt =====
-- The sending half of tcp.cpp: `send_data`, `end_session` and the round of `unacked_sender` over one
-- session.
use mathlib.Core.Option
use myip.Base.{
  ◌^◌, u32, ℕ, zero, suc, ◌+◌, ◌-◌, ◌*◌, Bool, true, false, not, Option, none, some, List, [], ◌∷◌,
  ◌++◌, ◌==◌, leb, ltb, if◌then◌else◌, length, take, drop, sub64, min,
}
use myip.Tcp.State.{
  TcpSession, established, fin_wait_1, Event, sent, Machine, set_state, flag_fin_bit, flag_ack_bit,
}
use myip.Tcp.Segment.{send_counted, seq_after, to_peer}
use myip.Tcp.Receive.{in_state}

abbrev pub max_queued : ℕ
max_queued = 1024 * 1024

-- One round of the loop: the call returns true with a session and tells whether `unacked_sender`
-- is woken, or it waits up to 100 ms for `unacked_sent_cv` and tries again.
pub data Sending : Type 0 where
  returned : TcpSession → Bool → Sending
  waits : Sending

-- `realloc` keeps the old bytes and `memcpy` writes the new ones behind those that count.
unfoldable pub enqueue : TcpSession → List ℕ → TcpSession
enqueue s content = record s {
  unacked_start_seq_nr = (if s.unacked_size == 0 then s.my_seq_nr else s.unacked_start_seq_nr);
  unacked = take s.unacked_size s.unacked ++ content;
  unacked_size = s.unacked_size + length content;
  r_last_pkt_ts = 0;
}

unfoldable pub send_data : TcpSession → List ℕ → Sending
unfolding enqueue
send_data s content =
    if ltb s.unacked_size max_queued
    then (if in_state s established then returned (enqueue s content) true else returned s false)
    else if not (in_state s established)
    then returned s false
    else if not s.is_terminating
    then returned s false
    else waits

-- `end_session`
unfoldable pub end_session : Bool → Machine → TcpSession → TcpSession × List Event
unfolding send_counted set_state
end_session has_idev m s =
    if s.unacked_size == 0
    then (let (s', log) =
          send_counted has_idev m s (to_peer m s flag_fin_bit s.their_seq_nr none [] 0) in
        (set_state m s' fin_wait_1, log))
    else (record s { fin_after_unacked_empty = true }, [])

-- The loop over the packets to send again, from offset `i` on: `none` if the fuel runs out.
-- `accepts` is what the device answers to the packet at an offset. The offset is an `int`: `to_send`
-- and a packet are together below 2^31 bytes.
unfoldable pub resend :
    ℕ → (ℕ → Bool) → Machine → ℕ → ℕ → ℕ → ℕ → TcpSession → Option (TcpSession × List Event)
unfolding seq_after
resend zero accepts m packet_size to_send i resend_nr s = none
resend (suc fuel) accepts m packet_size to_send i resend_nr s =
    let send_n = min packet_size (to_send - i) in
    let g =
      to_peer m s flag_ack_bit s.their_seq_nr (some resend_nr) (take send_n (drop i s.unacked)) 0 in
    let s' = record s { e_last_pkt_ts = m.now_us } in
    let rest =
      resend fuel accepts m packet_size to_send (i + packet_size)
        (seq_after resend_nr flag_ack_bit send_n)
        (record s' { data_since_last_ack = s'.data_since_last_ack + send_n }) in
    if ltb i to_send
    then (if accepts i then Option.map (λ r. (r.0, sent g ∷ r.1)) rest else some (s', sent g ∷ []))
    else some (s, [])

-- `s->window_size - s->data_since_last_ack` is a difference of `size_t`, and goes into the minimum
-- before the conversion to `int`. A negative `int` is 0 here: nothing is sent for either.
unfoldable pub to_send : TcpSession → ℕ
to_send s =
    let n = u32 (min (sub64 s.window_size s.data_since_last_ack) s.unacked_size) in
    if ltb n (2 ^ 31) then n else 0

-- The round for one session: nothing if its last one is less than a second ago. `max_packet_size`
-- is the device's.
unfoldable pub unacked_round :
    ℕ → (ℕ → Bool) → Machine → ℕ → TcpSession → Option (TcpSession × List Event)
unfolding resend to_send
unacked_round fuel accepts m max_packet_size s =
    if leb 1000000 (sub64 m.now_us s.r_last_pkt_ts)
    then Option.map
        (λ r. (if ltb 0 (to_send s) then record (r.0) { r_last_pkt_ts = m.now_us } else r.0, r.1))
        (resend fuel accepts m (max_packet_size - 32) (to_send s) 0 s.my_seq_nr s)
    else some (s, [])
