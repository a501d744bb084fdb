-- ===== src/Tcp/Receive.antt =====
-- The steps of `tcp::packet_handler` on the session of a packet, in the order of the code. Each
-- step changes what the handler has in hand: the session, its local flags and what it has done.
use myip.Base.{
  ℕ, ◌+◌, ◌^◌, Bool, true, false, not, ◌&&◌, ◌||◌, Option, none, some, List, [], ◌∷◌, ◌++◌, ◌==◌,
  leb, ltb, if◌then◌else◌, length, take, drop, u32, sub32, sub64, max,
}
use myip.Base.Assoc.{find}
use myip.Tcp.State.{
  TcpSession, TcpState, closing, listen, syn_rcvd, syn_sent, established, last_ack, fin_wait_1,
  fin_wait_2, rank, Event, new_session, new_data, session_closed_1, bad_function_call, Stats,
  Machine, PortHandler, set_state, flag_fin_bit, flag_syn_bit, flag_rst_bit, flag_ack_bit,
}
use myip.Tcp.Segment.{send_counted, send_segment, to_peer, to_itself}
use myip.Tcp.Header.{Header}

-- What a step reads: the machine, the device, the listeners, the packet's fields and bytes behind
-- the header, its length and the time stamp to return.
pub record Context : Type 0 where
  pub machine : Machine
  pub has_idev : Bool
  pub listeners : List (ℕ × PortHandler)
  pub header : Header
  pub payload : List ℕ
  pub size : ℕ
  pub ts_ecr : ℕ

pub record Work : Type 0 where
  pub session : TcpSession
  pub fail : Bool
  pub delete_entry : Bool
  pub notify_unacked_cv : Bool
  pub events : List Event
  pub stats : Stats

abbrev pub in_state : TcpSession → TcpState → Bool
in_state s t = rank s.state == rank t

-- A call of `send_segment` with `&my_seq_nr`.
abbrev pub emit : Context → Work → ℕ → ℕ → Work
emit c w flags ack_to =
    let (s, log) =
      send_counted c.has_idev c.machine w.session
        (to_peer c.machine w.session flags ack_to none [] c.ts_ecr) in
    record w { session = s; events = w.events ++ log }

abbrev pub enter : Context → Work → TcpState → Work
enter c w t = record w { session = set_state c.machine w.session t }

-- The header does not fit the packet.
unfoldable pub check_size : Context → Work → Work
check_size c w = if ltb c.size c.header.header_size then record w { fail = true } else w

unfoldable pub on_rst : Context → Work → Work
unfolding set_state
on_rst c w =
    if c.header.flag_rst && leb (rank syn_rcvd) (rank w.session.state)
    then record (enter c w closing) { delete_entry = true }
    else w

unfoldable pub on_syn : Context → Work → Work
unfolding set_state send_counted
on_syn c w =
    if c.header.flag_syn && not w.delete_entry
    then (let w1 = record w { stats = record (w.stats) { tcp_syn = w.stats.tcp_syn + 1 } } in
        if in_state w.session listen || in_state w.session syn_rcvd
        then enter c (emit c w1 (flag_syn_bit + flag_ack_bit) w1.session.their_seq_nr) syn_rcvd
        else w1)
    else w

-- The acknowledgement of a client's SYN: both numbers are taken over, and the session is there.
unfoldable pub ack_syn_sent : Context → Work → Work
unfolding set_state send_counted
ack_syn_sent c w =
    let s = record (w.session) {
      initial_their_seq_nr = c.header.their_seq_nr;
      their_seq_nr = u32 (c.header.their_seq_nr + 1);
    } in
    let (s', log) =
      send_counted c.has_idev c.machine s
        (to_itself c.machine s flag_ack_bit s.their_seq_nr none [] c.ts_ecr) in
    enter c (record w { session = s'; events = w.events ++ log }) established

-- The answer of the application to a new session, and whether it was asked.
abbrev pub greet : Option PortHandler → TcpSession → Bool × List Event
greet none s = (false, [])
greet (some h) s = elim h.on_new_session [
  | none ↦ (true, [])
  | some f ↦ (f s, new_session s.id ∷ [])
]

unfoldable pub ack_syn_rcvd : Context → Work → Work
unfolding set_state
ack_syn_rcvd c w =
    let w1 = enter c w established in
    let (accepted, log) = greet (find c.header.dst_port c.listeners) w1.session in
    record w1 {
      fail = w1.fail || not accepted;
      events = w1.events ++ log;
      stats = record (w1.stats) { tcp_succ_estab = w1.stats.tcp_succ_estab + 1 };
    }

unfoldable pub ack_last_ack : Context → Work → Work
unfolding set_state
ack_last_ack c w = record (enter c w listen) { delete_entry = true }

-- `int` of a 32-bit difference is positive.
abbrev pub is_positive : ℕ → Bool
is_positive d = ltb 0 d && ltb d (2 ^ 31)

-- `memmove(&unacked[0], &unacked[ack_n], left_n)`
abbrev pub move_down : List ℕ → ℕ → ℕ → List ℕ
move_down unacked ack_n left_n = take left_n (drop ack_n unacked) ++ drop left_n unacked

-- `ack_n` bytes are acknowledged; `left_n` is the difference of `unacked_size` and `ack_n` as an
-- `int`: its sign is the highest of its 32 bits.
unfoldable pub drop_acked : TcpSession → ℕ → TcpSession × Bool
drop_acked s ack_n =
    let left_n = u32 (sub64 s.unacked_size ack_n) in
    (
      record s {
        unacked = (if is_positive left_n then move_down s.unacked ack_n left_n else s.unacked);
        unacked_size = sub64 s.unacked_size ack_n;
        unacked_start_seq_nr = u32 (s.unacked_start_seq_nr + ack_n);
        my_seq_nr = u32 (s.my_seq_nr + ack_n);
      },
      leb (2 ^ 31) left_n,
    )

-- The buffer has run empty and the application had ended the session.
unfoldable pub fin_if_empty : Context → Work → Work
unfolding set_state send_counted
fin_if_empty c w =
    if w.session.unacked_size == 0 && w.session.fin_after_unacked_empty
    then enter c (emit c w (flag_ack_bit + flag_fin_bit) w.session.their_seq_nr) fin_wait_1
    else w

unfoldable pub ack_established : Context → Work → Work
ack_established c w =
    let ack_n = sub32 c.header.ack_to w.session.unacked_start_seq_nr in
    let w1 =
      if is_positive ack_n && ltb 0 w.session.unacked_size
      then (let (s, underrun) = drop_acked w.session ack_n in
          let w2 = fin_if_empty c (record w {
            session = s;
            fail = w.fail || underrun;
            delete_entry = w.delete_entry || underrun;
          }) in
          if ltb 0 w2.session.unacked_size
          then record w2 { session = record (w2.session) { r_last_pkt_ts = 0 } }
          else w2)
      else w in
    record w1 { notify_unacked_cv = true }

unfoldable pub on_ack : Context → Work → Work
on_ack c w =
    if c.header.flag_ack && not w.delete_entry
    then (let w1 =
          if in_state w.session syn_sent
          then ack_syn_sent c w
          else if in_state w.session syn_rcvd
          then ack_syn_rcvd c w
          else if in_state w.session last_ack
          then ack_last_ack c w
          else if in_state w.session established
          then ack_established c w
          else w in
        record w1 { session = record (w1.session) { data_since_last_ack = 0 } })
    else w

unfoldable pub on_fin : Context → Work → Work
unfolding set_state
on_fin c w =
    if c.header.flag_fin && in_state w.session established
    then enter c
        (record w {
          session = record (w.session) {
            seq_for_fin_when_all_received = c.header.their_seq_nr;
            flag_fin_when_all_received = true;
            is_terminating = true;
          };
        })
        fin_wait_1
    else w

-- A FIN is acknowledged when all before it has been received.
unfoldable pub finish : Context → Work → Work
unfolding set_state send_counted
finish c w =
    if w.session.flag_fin_when_all_received
      && w.session.seq_for_fin_when_all_received == w.session.their_seq_nr
    then record (enter c (emit c w (flag_ack_bit + flag_fin_bit) (u32 (w.session.their_seq_nr + 1)))
        fin_wait_2) { delete_entry = true }
    else w

-- The steps inside `if (!fail)`.
unfoldable pub on_flags : Context → Work → Work
on_flags c w = if w.fail then w else finish c (on_fin c (on_ack c (on_syn c (on_rst c w))))

-- The application's answer to data, and whether it was asked.
abbrev pub offer : Option PortHandler → TcpSession → List ℕ → Bool × List Event
offer none s content = (false, [])
offer (some h) s content = (h.on_new_data s content, new_data s.id content ∷ [])

-- The payload is what was expected: it is handed up, counted, and acknowledged at once if nothing
-- waits to be sent.
unfoldable pub accept_payload : Context → Work → Work
unfolding send_counted
accept_payload c w =
    let (taken, log) = offer (find c.header.dst_port c.listeners) w.session c.payload in
    let w1 = record w { fail = w.fail || not taken; events = w.events ++ log } in
    if taken
    then (let w2 = record w1 {
      session = record (w1.session) {
        their_seq_nr = u32 (w1.session.their_seq_nr + length c.payload);
      };
    } in
        if w2.session.unacked_size == 0 then emit c w2 flag_ack_bit w2.session.their_seq_nr else w2)
    else w1

-- It is not: the smaller one of the two numbers is acknowledged.
unfoldable pub refuse_payload : Context → Work → Work
unfolding send_counted
refuse_payload c w = emit c w flag_ack_bit (
    if ltb w.session.their_seq_nr c.header.their_seq_nr
    then w.session.their_seq_nr
    else if ltb c.header.their_seq_nr w.session.their_seq_nr
    then c.header.their_seq_nr
    else 0)

unfoldable pub on_payload : Context → Work → Work
on_payload c w =
    if ltb c.header.header_size c.size && not w.fail
    then if c.header.their_seq_nr == w.session.their_seq_nr
      then accept_payload c w
      else refuse_payload c w
    else w

-- `session_closed_1` is called without a test; it is not set where `on_new_session` is not, in the
-- handlers of clients, and the call throws then. What the code would do behind it still follows.
abbrev farewell : Option PortHandler → ℕ → List Event
farewell none id = []
farewell (some h) id = elim h.on_new_session [
  | none ↦ bad_function_call id ∷ []
  | some greet ↦ session_closed_1 id ∷ []
]

-- A failed session is closed with a reset, which does not count in its numbers.
unfoldable pub on_fail : Context → Work → Work
unfolding send_segment
on_fail c w =
    if w.fail
    then (let (q, s, log) = send_segment c.has_idev c.machine w.session (
          to_peer c.machine w.session (flag_rst_bit + flag_ack_bit)
            (u32 (c.header.their_seq_nr + 1)) none [] c.ts_ecr) in
        record w {
          session = s;
          delete_entry = true;
          events = w.events ++ farewell (find c.header.dst_port c.listeners) w.session.id ++ log;
          stats = record (w.stats) { tcp_errors = w.stats.tcp_errors + 1 };
        })
    else w

unfoldable pub on_delete : Work → Work
on_delete w =
    if w.delete_entry
    then record w { session = record (w.session) { is_terminating = true } }
    else w

-- The handler from the options on: `e_last_pkt_ts` and the window, then the steps.
unfoldable pub process : Context → TcpSession → Stats → Work
process c s stats = on_delete (
    on_fail c (
      on_payload c (
        on_flags c (
          check_size c (record {
            session = record s {
              e_last_pkt_ts = c.machine.now_us;
              window_size = max 1 c.header.win_size;
            };
            fail = false;
            delete_entry = false;
            notify_unacked_cv = false;
            events = [];
            stats = stats;
          })))))
