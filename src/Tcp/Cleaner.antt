-- ===== src/Tcp/Cleaner.antt =====
-- `session_cleaner` of tcp.cpp: one round over the sessions.
use myip.Base.{
  ℕ, zero, suc, ◌+◌, ◌/◌, Bool, true, false, ◌&&◌, ◌||◌, Option, none, some, List, [], ◌∷◌, ◌++◌,
  leb, ltb, if◌then◌else◌, length, sub64,
}
use myip.Base.Assoc.{erase}
use myip.Tcp.State.{Tcp, TcpSession, established, syn_rcvd, rank}
use myip.Tcp.Receive.{in_state}

unfoldable pub age : ℕ → TcpSession → ℕ
age now s = sub64 now s.e_last_pkt_ts / 1000000

unfoldable pub expired : ℕ → TcpSession → Bool
unfolding age
expired now s =
    leb s.session_timeout (age now s)
    || ltb (rank established) (rank s.state)
    || (in_state s syn_rcvd && leb 5 (age now s))

-- What is done to a session that goes, apart from the erasure.
unfoldable pub retire : Tcp → TcpSession → Tcp
retire t s = record t {
  stats = record (t.stats) { tcp_sessions_to = t.stats.tcp_sessions_to + 1 };
  tcp_clients = (if s.is_client then erase s.my_port t.tcp_clients else t.tcp_clients);
  ending_sessions = t.ending_sessions ++ s ∷ [];
}

-- The loop from an iterator on: the entries kept so far and those still ahead. A session that is
-- being set up is skipped by `continue`, which does not move the iterator. `none`: out of fuel.
unfoldable pub clean_from : ℕ → ℕ → List (ℕ × TcpSession) → List (ℕ × TcpSession) → Tcp → Option Tcp
unfolding expired retire
clean_from zero now kept ahead t = none
clean_from (suc fuel) now kept [] t =
    some
      (record t { sessions = kept; stats = record (t.stats) { tcp_cur_n_sessions = length kept } })
clean_from (suc fuel) now kept ((k, s) ∷ ahead) t = elim s.in_init [
  | true ↦ clean_from fuel now kept ((k, s) ∷ ahead) t
  | false ↦ elim (expired now s) [
    | true ↦ clean_from fuel now kept ahead (retire t s)
    | false ↦ clean_from fuel now (kept ++ (k, s) ∷ []) ahead t
  ]
]

unfoldable pub clean : ℕ → ℕ → Tcp → Option Tcp
unfolding clean_from
clean fuel now t = clean_from fuel now [] t.sessions t
