-- ===== src/Tests/Data.antt =====
-- A host 10.0.0.1 that serves port 80, a peer 10.0.0.2, and a session between them.
use myip.Base.{refl, ℕ, Bool, true, false, none, List, [], ◌∷◌, replicate}
use myip.Addr.Defs.{IsAddr, AnyAddr, ipv4, mac}
use myip.Tcp.State.{TcpSession, TcpState, PortHandler, Stats, Tcp, Packet, Machine}
use myip.Tcp.Header.{Header}
use myip.Tcp.Receive.{Context, Work}

abbrev pub address : ℕ → AnyAddr
address last = record {
  af = ipv4;
  addr = 10 ∷ 0 ∷ 0 ∷ last ∷ replicate 12 0;
  addr_size = 4;
  is_set = true;
}

pub address-IsAddr : (last : ℕ) → IsAddr (address last)
address-IsAddr last = record { whole = refl; sized = refl; present = refl }

abbrev pub hardware : ℕ → AnyAddr
hardware last = record {
  af = mac;
  addr = 2 ∷ 0 ∷ 0 ∷ 0 ∷ 0 ∷ last ∷ replicate 10 0;
  addr_size = 6;
  is_set = true;
}

abbrev pub machine : Machine
machine = record { now_us = 5000000; now_s = 5; random = 77 }

abbrev pub server : PortHandler
server = record { on_new_session = none; on_new_data = λ s d. true }

abbrev pub listeners : List (ℕ × PortHandler)
listeners = (80, server) ∷ []

-- A session in a state, with four bytes that wait from the number 1000 on.
abbrev pub session : TcpState → TcpSession
session state = record {
  my_addr = address 1;
  my_port = 80;
  their_addr = address 2;
  their_port = 1000;
  is_terminating = false;
  session_timeout = 3600;
  is_client = false;
  in_init = false;
  id = 5;
  window_size = 512;
  state = state;
  state_since = 0;
  e_last_pkt_ts = 0;
  r_last_pkt_ts = 0;
  my_seq_nr = 1000;
  their_seq_nr = 100;
  initial_my_seq_nr = 999;
  initial_their_seq_nr = 99;
  unacked = 1 ∷ 2 ∷ 3 ∷ 4 ∷ [];
  unacked_start_seq_nr = 1000;
  data_since_last_ack = 0;
  unacked_size = 4;
  fin_after_unacked_empty = false;
  seq_for_fin_when_all_received = 0;
  flag_fin_when_all_received = false;
}

abbrev pub stats : Stats
stats = record {
  tcp_errors = 0;
  tcp_succ_estab = 0;
  tcp_syn = 0;
  tcp_new_sessions = 0;
  tcp_sessions_rem = 0;
  tcp_sessions_to = 0;
  tcp_cur_n_sessions = 0;
}

abbrev pub tcp : List (ℕ × TcpSession) → Tcp
tcp sessions = record {
  has_idev = true;
  listeners = listeners;
  sessions = sessions;
  tcp_clients = [];
  ending_sessions = [];
  events = [];
  stats = stats;
}

-- A header from port 1000 with the flags FIN, SYN, RST and ACK, a number and an acknowledgement.
abbrev pub header : Bool → Bool → Bool → Bool → ℕ → ℕ → Header
header fin syn rst ack seq ack_to = record {
  flag_fin = fin;
  flag_syn = syn;
  flag_rst = rst;
  flag_ack = ack;
  src_port = 1000;
  dst_port = 80;
  their_seq_nr = seq;
  ack_to = ack_to;
  header_size = 20;
  win_size = 512;
}

abbrev pub context : Header → List ℕ → ℕ → Context
context h payload size = record {
  machine = machine;
  has_idev = true;
  listeners = listeners;
  header = h;
  payload = payload;
  size = size;
  ts_ecr = 0;
}

abbrev pub work : TcpSession → Work
work s = record {
  session = s;
  fail = false;
  delete_entry = false;
  notify_unacked_cv = false;
  events = [];
  stats = stats;
}

-- A packet of 20 bytes from port 1000 to a port below 256, with the number 100 and the given flags.
abbrev pub packet : ℕ → ℕ → Packet
packet port flags = record {
  src_addr = address 2;
  dst_addr = address 1;
  bytes = 3 ∷ 232 ∷ 0 ∷ port ∷ 0 ∷ 0 ∷ 0 ∷ 100 ∷ 0 ∷ 0 ∷ 0 ∷ 0 ∷ 80 ∷ flags ∷ 2 ∷ 0 ∷ replicate 4 0;
}
