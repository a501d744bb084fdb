-- ===== src/Tcp/State.antt =====
-- The data of tcp.h: the states of a session, the session, and the tables of `class tcp`.
use myip.Base.{ℕ, Bool, not, Option, List, ◌==◌, bit_and, take}
use myip.Addr.Defs.{AnyAddr}

-- `tcp_state_t`, in the order of the enumeration: the code compares states by it.
pub data TcpState : Type 0 where
  closed listen syn_rcvd syn_sent established fin_wait_1 fin_wait_2 close_wait last_ack : TcpState
  closing time_wait rst_act : TcpState

abbrev pub rank : TcpState → ℕ
rank closed = 0
rank listen = 1
rank syn_rcvd = 2
rank syn_sent = 3
rank established = 4
rank fin_wait_1 = 5
rank fin_wait_2 = 6
rank close_wait = 7
rank last_ack = 8
rank closing = 9
rank time_wait = 10
rank rst_act = 11

-- `class tcp_session` with the fields of `class session` that the protocol uses. `unacked` is the
-- allocated buffer, of which the first `unacked_size` bytes count.
pub record TcpSession : Type 0 where
  pub my_addr : AnyAddr
  pub my_port : ℕ
  pub their_addr : AnyAddr
  pub their_port : ℕ
  pub is_terminating : Bool
  pub session_timeout : ℕ
  pub is_client : Bool
  pub in_init : Bool
  pub id : ℕ
  pub window_size : ℕ
  pub state : TcpState
  pub state_since : ℕ
  pub e_last_pkt_ts : ℕ
  pub r_last_pkt_ts : ℕ
  pub my_seq_nr : ℕ
  pub their_seq_nr : ℕ
  pub initial_my_seq_nr : ℕ
  pub initial_their_seq_nr : ℕ
  pub unacked : List ℕ
  pub unacked_start_seq_nr : ℕ
  pub data_since_last_ack : ℕ
  pub unacked_size : ℕ
  pub fin_after_unacked_empty : Bool
  pub seq_for_fin_when_all_received : ℕ
  pub flag_fin_when_all_received : Bool

-- The bytes that wait for an acknowledgement.
abbrev pub waiting : TcpSession → List ℕ
waiting s = take s.unacked_size s.unacked

-- A call of `send_segment` that reaches the device; `seq` is `none` for a null `my_seq_nr`.
pub record Segment : Type 0 where
  pub my_addr : AnyAddr
  pub my_port : ℕ
  pub peer_addr : AnyAddr
  pub peer_port : ℕ
  pub flags : ℕ
  pub ack_to : ℕ
  pub seq : Option ℕ
  pub content : List ℕ
  pub ts_ecr : ℕ
  pub us : ℕ

-- What the handler does to the outside, in the order of its calls: a segment is sent, a reset is
-- sent for a packet without a session (`send_rst_for_port`; no bytes if an assertion fails), an
-- application is called, the thread of `unacked_sender` is woken.
pub data Event : Type 0 where
  sent : Segment → Event
  reset : AnyAddr → AnyAddr → Option (List ℕ) → Event
  new_session : ℕ → Event
  new_data : ℕ → List ℕ → Event
  session_closed_1 : ℕ → Event
  bad_function_call : ℕ → Event
  wake_sender : Event

-- `port_handler_t`: the answers of the application. The callbacks hand their work to threads of
-- their own, so a call changes nothing of the session.
pub record PortHandler : Type 0 where
  pub on_new_session : Option (TcpSession → Bool)
  pub on_new_data : TcpSession → List ℕ → Bool

-- The counters that `packet_handler` and `session_cleaner` step.
pub record Stats : Type 0 where
  pub tcp_errors : ℕ
  pub tcp_succ_estab : ℕ
  pub tcp_syn : ℕ
  pub tcp_new_sessions : ℕ
  pub tcp_sessions_rem : ℕ
  pub tcp_sessions_to : ℕ
  pub tcp_cur_n_sessions : ℕ

-- `class tcp`. `has_idev` says that a device is assigned; `ending_sessions` is the queue to
-- `session_ender`, `events` what has been done so far, the latest last.
pub record Tcp : Type 0 where
  pub has_idev : Bool
  pub listeners : List (ℕ × PortHandler)
  pub sessions : List (ℕ × TcpSession)
  pub tcp_clients : List (ℕ × ℕ)
  pub ending_sessions : List TcpSession
  pub events : List Event
  pub stats : Stats

-- A packet as the transport layer gets it.
pub record Packet : Type 0 where
  pub src_addr : AnyAddr
  pub dst_addr : AnyAddr
  pub bytes : List ℕ

-- What a call takes from the machine: the clock in microseconds and in seconds, and four random
-- bytes.
pub record Machine : Type 0 where
  pub now_us : ℕ
  pub now_s : ℕ
  pub random : ℕ

abbrev pub flag_fin_bit : ℕ
flag_fin_bit = 1

abbrev pub flag_syn_bit : ℕ
flag_syn_bit = 2

abbrev pub flag_rst_bit : ℕ
flag_rst_bit = 4

abbrev pub flag_ack_bit : ℕ
flag_ack_bit = 16

-- `flags & bit`, as a condition.
abbrev pub has_flag : ℕ → ℕ → Bool
has_flag flags bit = not (bit_and flags bit == 0)

-- `set_state`
unfoldable pub set_state : Machine → TcpSession → TcpState → TcpSession
set_state m s new_state = record s { state = new_state; state_since = m.now_s }
