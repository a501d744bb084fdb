-- ===== src/Tcp/Table.antt =====
-- What a packet does to the table of sessions in `tcp::packet_handler`.
use myip.Base.{
  ℕ, ◌≤◌, ◌≡◌, ◌≢◌, refl, true, none, some, ◌++◌, length, arith, Option-cases, inl, inr,
}
use myip.Base.Assoc.{
  find, update, find-insert, find-erase, find-update, length-insert, length-erase, length-update,
}
use myip.Tcp.State.{Tcp, TcpSession, Machine, Packet}
use myip.Tcp.Segment.{send_rst_for_port}
use myip.Tcp.Header.{Header, read_header, Scan, scan_options}
use myip.Tcp.Receive.{Work, process}
use myip.Tcp.Handler.{
  handled, admit, fresh_session, remove_session, conclude, to_session, session_id, packet_handler,
  context, max_sessions,
}

admit-length :
    (m : Machine) (t : Tcp) (pkt : Packet) (h : Header) (id : ℕ)
    → length t.sessions ≤ max_sessions
    → length (admit m t pkt h id).0.sessions ≤ max_sessions
unfolding admit
admit-length m t pkt h id b = ground (arith, length-insert id (fresh_session m pkt h id) t.sessions)

remove-length : (t : Tcp) (id : ℕ) → length (remove_session t id).sessions ≤ length t.sessions
unfolding remove_session
remove-length t id = ground (arith, length-erase id t.sessions)

conclude-length :
    (t : Tcp) (id : ℕ) (w : Work) → length (conclude t id w).sessions ≤ length t.sessions
unfolding conclude
conclude-length t id w =
    let t1 = record t {
      sessions = update id w.session t.sessions;
      events = t.events ++ w.events;
      stats = w.stats;
    } in
    ground (arith, length-update id w.session t.sessions, remove-length t1 id)

to_session-length :
    (m : Machine) (t : Tcp) (pkt : Packet) (h : Header) (id : ℕ) {t' : Tcp}
    → to_session m t pkt h id ≡ handled t'
    → length t'.sessions ≤ length t.sessions
unfolding to_session
to_session-length m t pkt h id {t'} e = elim (Option-cases (find id t.sessions)) [
  | inl none_there ↦ ground (arith, none_there)
  | inr (s, there) ↦ scanned s there (scan_options 64 pkt.bytes 20 h.header_size h.flag_ack 0) refl
]
  where
    scanned :
        (s : TcpSession)
        → find id t.sessions ≡ some s
        → (r : Scan) → scan_options 64 pkt.bytes 20 h.header_size h.flag_ack 0 ≡ r
        → length t'.sessions ≤ length t.sessions
    scanned s there (Scan.done ts) q =
        ground (arith, conclude-length t id (process (context m t pkt h ts) s t.stats))
    scanned s there Scan.overread q = ground arith
    scanned s there Scan.endless q = ground arith

-- With at most 128 sessions before it, a packet whose handling ends leaves at most 128.
pub packet_handler-max_sessions :
    (m : Machine) (t : Tcp) (pkt : Packet) {t' : Tcp}
    → length t.sessions ≤ max_sessions
    → packet_handler m t pkt ≡ handled t'
    → length t'.sessions ≤ max_sessions
unfolding packet_handler
packet_handler-max_sessions m t pkt {t'} b e =
    let h = read_header pkt.bytes in
    let id = session_id pkt h in
    let a = admit m t pkt h id in
    ground (
      arith,
      admit-length m t pkt h id b,
      λ (q : to_session m a.0 pkt h id ≡ handled t'). to_session-length m a.0 pkt h id q,
      λ (q : to_session m t pkt h id ≡ handled t'). to_session-length m t pkt h id q,
    )

-- A SYN for a port on which nobody listens opens no session: the handler does nothing but send a
-- reset, if there is a device.
pub syn_without_listener :
    (m : Machine) (t : Tcp) (pkt : Packet)
    → 20 ≤ length pkt.bytes
    → (read_header pkt.bytes).flag_syn ≡ true
    → find ((read_header pkt.bytes).dst_port) t.listeners ≡ none
    → packet_handler m t pkt
      ≡ handled (record t {
        events =
            t.events
            ++ send_rst_for_port t.has_idev pkt
                ((read_header pkt.bytes).dst_port)
                ((read_header pkt.bytes).src_port);
      })
unfolding packet_handler admit
syn_without_listener m t pkt h syn nobody = ground (arith, nobody, syn)

module _ {id j : ℕ} (other : id ≢ j) where
  admit-find :
      (m : Machine) (t : Tcp) (pkt : Packet) (h : Header)
      → find j (admit m t pkt h id).0.sessions ≡ find j t.sessions
  unfolding admit
  admit-find m t pkt h =
      ground (arith, find-insert j id (fresh_session m pkt h id) t.sessions, other)

  remove-find : (t : Tcp) → find j (remove_session t id).sessions ≡ find j t.sessions
  unfolding remove_session
  remove-find t = ground (arith, find-erase j id t.sessions, other)

  conclude-find :
      (t : Tcp) (w : Work) {s : TcpSession}
      → find id t.sessions ≡ some s
      → find j (conclude t id w).sessions ≡ find j t.sessions
  unfolding conclude
  conclude-find t w {s} there =
      let t1 = record t {
        sessions = update id w.session t.sessions;
        events = t.events ++ w.events;
        stats = w.stats;
      } in
      ground (arith, find-update j id w.session s t.sessions there, remove-find t1, other)

  to_session-find :
      (m : Machine) (t : Tcp) (pkt : Packet) (h : Header) {t' : Tcp}
      → to_session m t pkt h id ≡ handled t'
      → find j t'.sessions ≡ find j t.sessions
  unfolding to_session
  to_session-find m t pkt h {t'} e = elim (Option-cases (find id t.sessions)) [
    | inl none_there ↦ ground (arith, none_there)
    | inr (s, there) ↦
        scanned s there (scan_options 64 pkt.bytes 20 h.header_size h.flag_ack 0) refl
  ]
    where
      scanned :
          (s : TcpSession)
          → find id t.sessions ≡ some s
          → (r : Scan) → scan_options 64 pkt.bytes 20 h.header_size h.flag_ack 0 ≡ r
          → find j t'.sessions ≡ find j t.sessions
      scanned s there (Scan.done ts) q =
          ground (arith, conclude-find t (process (context m t pkt h ts) s t.stats) there)
      scanned s there Scan.overread q = ground arith
      scanned s there Scan.endless q = ground arith

-- A packet whose handling ends changes no session but the one of its own key: the sessions of all
-- other keys are there after it exactly if they were before, and as they were.
pub packet_handler-others :
    (m : Machine) (t : Tcp) (pkt : Packet) (j : ℕ) {t' : Tcp}
    → session_id pkt (read_header pkt.bytes) ≢ j
    → packet_handler m t pkt ≡ handled t'
    → find j t'.sessions ≡ find j t.sessions
unfolding packet_handler
packet_handler-others m t pkt j {t'} other e =
    let h = read_header pkt.bytes in
    let id = session_id pkt h in
    let a = admit m t pkt h id in
    ground (
      arith,
      admit-find other m t pkt h,
      λ (q : to_session m a.0 pkt h id ≡ handled t'). to_session-find other m a.0 pkt h q,
      λ (q : to_session m t pkt h id ≡ handled t'). to_session-find other m t pkt h q,
    )
