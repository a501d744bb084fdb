-- ===== src/Tcp/Client.antt =====
-- The client sessions of tcp.cpp: their ports, their opening, sending and closing.
use myip.Base.{
  ℕ, ◌+◌, ◌%◌, ◌^◌, Bool, true, false, ◌&&◌, Option, none, some, List, [], ◌∷◌, ◌++◌, ◌==◌, leb,
  ltb, if◌then◌else◌, length, u16,
}
use myip.Base.Assoc.{find, insert, update}
use myip.Addr.Defs.{AnyAddr}
use myip.Hash.{hash_address}
use myip.Tcp.State.{
  Tcp, TcpSession, syn_sent, established, rank, Event, wake_sender, Machine, PortHandler,
  flag_syn_bit,
}
use myip.Tcp.Segment.{send_counted, send_segment, to_peer, to_itself}
use myip.Tcp.Send.{send_data, returned, waits, end_session}

-- The draws of a port, until one is no reserved port and free; `none` if the list of draws ends.
unfoldable pub free_port : List (ℕ × ℕ) → List ℕ → Option ℕ
free_port clients [] = none
free_port clients (r ∷ draws) =
    let rest = free_port clients draws in
    if ltb 1023 (u16 r) && ltb (u16 r) 65535
    then elim (find (u16 r) clients) [ none ↦ some (u16 r) | some id ↦ rest ]
    else rest

unfoldable pub client_session : Machine → AnyAddr → ℕ → AnyAddr → ℕ → ℕ → ℕ → TcpSession
client_session m src local_port dst_addr dst_port id mtu = record {
  my_addr = src;
  my_port = local_port;
  their_addr = dst_addr;
  their_port = dst_port;
  is_terminating = false;
  session_timeout = 300;
  is_client = true;
  in_init = true;
  id = id;
  window_size = u16 mtu;
  state = syn_sent;
  state_since = m.now_s;
  e_last_pkt_ts = 0;
  r_last_pkt_ts = 0;
  my_seq_nr = m.random % 2 ^ 31;
  their_seq_nr = 0;
  initial_my_seq_nr = m.random % 2 ^ 31;
  initial_their_seq_nr = 0;
  unacked = [];
  unacked_start_seq_nr = 0;
  data_since_last_ack = 0;
  unacked_size = 0;
  fin_after_unacked_empty = false;
  seq_for_fin_when_all_received = 0;
  flag_fin_when_all_received = false;
}

-- `add_handler`; the call of `init` is the application's.
unfoldable pub add_handler : Tcp → ℕ → PortHandler → Tcp
add_handler t port h = record t { listeners = insert port h t.listeners }

-- `allocate_client_session` with the draws that it makes, the device's address and packet size.
unfoldable pub allocate_client_session :
    Machine → Tcp → List ℕ → AnyAddr → ℕ → PortHandler → AnyAddr → ℕ → Option (Tcp × ℕ)
unfolding free_port client_session add_handler send_counted
allocate_client_session m t draws src mtu handler dst_addr dst_port =
    elim (free_port t.tcp_clients draws) [
      | none ↦ none
      | some local_port ↦
          let id = hash_address dst_addr local_port dst_port in
          let s = client_session m src local_port dst_addr dst_port id mtu in
          let (s', log) =
            send_counted t.has_idev m s (to_peer m s flag_syn_bit s.their_seq_nr none [] 0) in
          let sessions' = insert id s' t.sessions in
          let t' = record t {
            tcp_clients = insert local_port id t.tcp_clients;
            sessions = sessions';
            events = t.events ++ log;
            stats = record (t.stats) {
              tcp_new_sessions = t.stats.tcp_new_sessions + 1;
              tcp_cur_n_sessions = length sessions';
            };
          } in
          some (add_handler t' local_port handler, local_port)
    ]

-- The session of a client's port: by the port to the key, by the key to the session.
unfoldable pub client_of : Tcp → ℕ → Option (ℕ × TcpSession)
client_of t port = elim (find port t.tcp_clients) [
  | none ↦ none
  | some id ↦ elim (find id t.sessions) [ none ↦ none | some s ↦ some (id, s) ]
]

unfoldable pub close_client_session : Machine → Tcp → ℕ → Tcp
unfolding client_of end_session
close_client_session m t port = elim (client_of t port) [
  | none ↦ t
  | some (id, s) ↦
      let (s', log) = end_session t.has_idev m s in
      record t { sessions = update id s' t.sessions; events = t.events ++ log }
]

-- `client_session_send_data`: false without a session; `none` while `send_data` waits.
unfoldable pub client_session_send_data : Tcp → ℕ → List ℕ → Option (Tcp × Bool)
unfolding client_of send_data
client_session_send_data t port content = elim (client_of t port) [
  | none ↦ some (t, false)
  | some (id, s) ↦ elim (send_data s content) [
    | waits ↦ none
    | returned s' woken ↦
        let t' = record t { sessions = update id s' t.sessions } in
        some (if woken then record t' { events = t'.events ++ wake_sender ∷ [] } else t', true)
  ]
]

-- A round of `wait_for_client_connected_state` over a session: it ends with an answer, or goes on
-- with the counter and what it sent.
pub data Waiting : Type 0 where
  answer : Bool → Waiting
  again : TcpSession → ℕ → List Event → Waiting

unfoldable pub await_round : Bool → Machine → TcpSession → ℕ → Waiting
unfolding send_segment
await_round has_idev m s counter =
    if leb (rank established) (rank s.state)
    then answer true
    else if leb (s.state_since + 30) m.now_s
    then answer false
    else if counter + 1 == 3
    then (let (q, s', log) =
          send_segment has_idev m s
            (to_itself m s flag_syn_bit s.their_seq_nr (some s.my_seq_nr) [] 0) in
        again s' 0 log)
    else again s (counter + 1) []
