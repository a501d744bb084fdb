-- ===== src/Tcp/Handler.antt =====
-- `tcp::packet_handler`: a packet against the tables of sessions and listeners. The locks make the
-- handler of one packet atomic, but for the release between its last step and the removal, where
-- the code looks the session up again.
use myip.Base.{
  ℕ, ◌+◌, Bool, true, false, none, some, [], ◌∷◌, ◌++◌, leb, ltb, if◌then◌else◌, length, drop, u32,
}
use myip.Base.Assoc.{find, insert, erase, update}
use myip.Hash.{hash_address}
use myip.Tcp.State.{Tcp, TcpSession, listen, wake_sender, Machine, Packet}
use myip.Tcp.Segment.{send_rst_for_port}
use myip.Tcp.Header.{Header, read_header, Scan, scan_options}
use myip.Tcp.Receive.{Context, Work, process}

abbrev pub max_sessions : ℕ
max_sessions = 128

-- The session of a SYN. `random` are four random bytes.
unfoldable pub fresh_session : Machine → Packet → Header → ℕ → TcpSession
fresh_session m pkt h id = record {
  my_addr = pkt.dst_addr;
  my_port = h.dst_port;
  their_addr = pkt.src_addr;
  their_port = h.src_port;
  is_terminating = false;
  session_timeout = 300;
  is_client = false;
  in_init = false;
  id = id;
  window_size = h.win_size;
  state = listen;
  state_since = 0;
  e_last_pkt_ts = 0;
  r_last_pkt_ts = 0;
  my_seq_nr = u32 m.random;
  their_seq_nr = u32 (h.their_seq_nr + 1);
  initial_my_seq_nr = u32 m.random;
  initial_their_seq_nr = h.their_seq_nr;
  unacked = [];
  unacked_start_seq_nr = 0;
  data_since_last_ack = 0;
  unacked_size = 0;
  fin_after_unacked_empty = false;
  seq_for_fin_when_all_received = 0;
  flag_fin_when_all_received = false;
}

abbrev note_count : Tcp → Tcp
note_count t = record t { stats = record (t.stats) { tcp_cur_n_sessions = length t.sessions } }

-- A packet with SYN: a reset if nobody listens, nothing if there are too many sessions, else a new
-- session unless it is there. The Boolean says that the handler goes on.
unfoldable pub admit : Machine → Tcp → Packet → Header → ℕ → Tcp × Bool
unfolding fresh_session send_rst_for_port
admit m t pkt h id = elim (find h.dst_port t.listeners) [
  | none ↦ (
    record t { events = t.events ++ send_rst_for_port t.has_idev pkt h.dst_port h.src_port },
    false,
  )
  | some handler ↦
      if leb max_sessions (length t.sessions) then (t, false) else elim (find id t.sessions) [
        | some s ↦ (t, true)
        | none ↦ (
          note_count (record t {
            sessions = insert id (fresh_session m pkt h id) t.sessions;
            stats = record (t.stats) { tcp_new_sessions = t.stats.tcp_new_sessions + 1 };
          }),
          true,
        )
      ]
]

-- The removal of a session that has ended: it goes to the queue of `session_ender`.
unfoldable pub remove_session : Tcp → ℕ → Tcp
remove_session t id =
    let t1 = record t {
      stats = record (t.stats) { tcp_sessions_rem = t.stats.tcp_sessions_rem + 1 };
    } in
    elim (find id t.sessions) [
      | none ↦ t1
      | some s ↦
          if s.in_init
          then t1
          else note_count (record t1 {
            ending_sessions = t.ending_sessions ++ s ∷ [];
            sessions = erase id t.sessions;
          })
    ]

abbrev wake : Bool → Tcp → Tcp
wake b t = if b then record t { events = t.events ++ wake_sender ∷ [] } else t

-- The end of the handler: the session as the steps left it, its removal, and the notification.
unfoldable pub conclude : Tcp → ℕ → Work → Tcp
conclude t id w =
    let t1 = record t {
      sessions = update id w.session t.sessions;
      events = t.events ++ w.events;
      stats = w.stats;
    } in
    wake w.notify_unacked_cv (if w.delete_entry then remove_session t1 id else t1)

pub data Handled : Type 0 where
  handled : Tcp → Handled
  overread endless : Handled

abbrev pub context : Machine → Tcp → Packet → Header → ℕ → Context
context m t pkt h ts = record {
  machine = m;
  has_idev = t.has_idev;
  listeners = t.listeners;
  header = h;
  payload = drop h.header_size pkt.bytes;
  size = length pkt.bytes;
  ts_ecr = ts;
}

-- A packet for the session with key `id`, or for none. The fuel is more than a header can hold.
unfoldable pub to_session : Machine → Tcp → Packet → Header → ℕ → Handled
to_session m t pkt h id = elim (find id t.sessions) [
  | none ↦ handled (record t {
    events = t.events ++ send_rst_for_port t.has_idev pkt h.dst_port h.src_port;
    stats = record (t.stats) { tcp_errors = t.stats.tcp_errors + 1 };
  })
  | some s ↦ elim (scan_options 64 pkt.bytes 20 h.header_size h.flag_ack 0) [
    | Scan.done ts ↦ handled (conclude t id (process (context m t pkt h ts) s t.stats))
    | Scan.overread ↦ Handled.overread
    | Scan.endless ↦ Handled.endless
  ]
]

unfoldable pub session_id : Packet → Header → ℕ
session_id pkt h = hash_address pkt.src_addr h.dst_port h.src_port

unfoldable pub packet_handler : Machine → Tcp → Packet → Handled
packet_handler m t pkt =
    if ltb (length pkt.bytes) 20
    then handled (record t { stats = record (t.stats) { tcp_errors = t.stats.tcp_errors + 1 } })
    else let h = read_header pkt.bytes in
      let id = session_id pkt h in
      if h.flag_syn
      then (let (t', goes_on) = admit m t pkt h id in
          if goes_on then to_session m t' pkt h id else handled t')
      else to_session m t pkt h id
