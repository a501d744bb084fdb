-- ===== src/Tcp/Handshake.antt =====
-- The sessions that this host opens, by tcp.cpp's `allocate_client_session`: where they are found.
use myip.Base.{
  ℕ, ◌<◌, ◌≡◌, refl, Bool, true, none, some, List, [], ◌∷◌, arith, Option-cases, inl, inr, ap, ◌∙◌,
}
use myip.Base.Assoc.{find, insert, find-insert}
use myip.Hash.{hash_address}
use myip.Addr.Defs.{AnyAddr}
use myip.Tcp.State.{Tcp, TcpSession, Machine, PortHandler, rank, syn_sent, flag_syn_bit, Segment}
use myip.Tcp.Segment.{send_counted, send_segment, to_peer}
use myip.Tcp.Client.{free_port, client_session, add_handler, allocate_client_session, client_of}

free_port-free :
    (clients : List (ℕ × ℕ)) (draws : List ℕ) (port : ℕ)
    → free_port clients draws ≡ some port
    → (find port clients ≡ none) × (1023 < port) × (port < 65535)
unfolding free_port
free_port-free clients [] port e = absurd (ground arith)
free_port-free clients (r ∷ draws) port e = ground (arith, free_port-free clients draws port)

-- What a counted call changes in a session: its number and a time.
send_counted-kept :
    (has_idev : Bool) (m : Machine) (s : TcpSession) (g : Segment)
    → let s' = (send_counted has_idev m s g).0 in
      (rank s'.state ≡ rank s.state) × (s'.in_init ≡ s.in_init) × (s'.my_port ≡ s.my_port)
unfolding send_counted send_segment
send_counted-kept has_idev m s g = ground arith

-- With a key that no session has, `allocate_client_session` gives a port that no other client has,
-- from 1024 to 65534, and by this port a new session is found: in the state `syn_sent`, marked as
-- being set up, and with the port as its own.
pub allocate_client_session-client_of :
    (m : Machine) (t : Tcp) (draws : List ℕ) (src : AnyAddr) (mtu : ℕ) (handler : PortHandler)
    (dst_addr : AnyAddr) (dst_port : ℕ) {t' : Tcp} {port : ℕ}
    → find (hash_address dst_addr port dst_port) t.sessions ≡ none
    → allocate_client_session m t draws src mtu handler dst_addr dst_port ≡ some (t', port)
    → (s : TcpSession) × (client_of t' port ≡ some (hash_address dst_addr port dst_port, s))
      × (rank s.state ≡ rank syn_sent)
      × (s.in_init ≡ true)
      × (s.my_port ≡ port)
      × (find port t.tcp_clients ≡ none)
      × (1023 < port)
      × (port < 65535)
unfolding allocate_client_session client_of add_handler
allocate_client_session-client_of m t draws src mtu handler dst_addr dst_port {t'} {port} new e =
    elim (Option-cases (free_port t.tcp_clients draws)) [
      | inl n ↦ absurd (ground arith)
      | inr (p, n) ↦
          let same : p ≡ port = ground arith in
          let drawn : free_port t.tcp_clients draws ≡ some port = n ∙ ap some same in
          let id = hash_address dst_addr port dst_port in
          let s = client_session m src port dst_addr dst_port id mtu in
          let g = to_peer m s flag_syn_bit s.their_seq_nr none [] 0 in
          let s' = (send_counted t.has_idev m s g).0 in
          let k = send_counted-kept t.has_idev m s g in
          let f = free_port-free t.tcp_clients draws port drawn in
          let clients : t'.tcp_clients ≡ insert port id t.tcp_clients = ground arith in
          let sessions : t'.sessions ≡ insert id s' t.sessions = ground arith in
          (
            s',
            ground (
              arith,
              find-insert port port id t.tcp_clients f.0,
              find-insert id id s' t.sessions new,
            ),
            k.0 ∙ (unfold client_session in refl),
            k.1 ∙ (unfold client_session in refl),
            k.2 ∙ (unfold client_session in refl),
            f.0,
            f.1,
            f.2,
          )
    ]
