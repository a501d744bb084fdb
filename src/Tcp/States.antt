-- ===== src/Tcp/States.antt =====
-- The state machine of a TCP session, as `tcp::packet_handler` runs it.
use myip.Base.{
  u32, ◌+◌, ◌⊎◌, ℕ, if_elim, Bool-cases, inl, inr, ◌≡◌, subst, ◌&&◌, ◌||◌, sym, ◌∙◌, Bool, true,
  false, [], ◌==◌, leb, arith, max,
}
use myip.Tcp.State.{
  TcpSession, TcpState, closed, listen, syn_rcvd, syn_sent, established, fin_wait_1, fin_wait_2,
  close_wait, last_ack, closing, time_wait, rst_act, rank, Stats,
}
use myip.Tcp.Receive.{
  Context, Work, check_size, on_rst, on_syn, on_ack, ack_syn_sent, ack_syn_rcvd, ack_last_ack,
  ack_established, fin_if_empty, drop_acked, on_fin, finish, on_flags, accept_payload,
  refuse_payload, on_payload, on_fail, on_delete, process,
}

abbrev is : TcpState → TcpState → Bool
is s t = rank s == rank t

-- The transitions of the steps of the handler, in their order: a step stays in its state, or needs
-- the flag of the packet and leads from one state to another.
abbrev pub by_rst : Context → TcpState → TcpState → Bool
by_rst c s t = is s t || (c.header.flag_rst && leb 2 (rank s) && is t closing)

abbrev pub by_syn : Context → TcpState → TcpState → Bool
by_syn c s t = is s t || (c.header.flag_syn && (is s listen || is s syn_rcvd) && is t syn_rcvd)

abbrev pub by_ack : Context → TcpState → TcpState → Bool
by_ack c s t =
    is s t
    || (c.header.flag_ack
        && ((is s syn_sent && is t established)
            || (is s syn_rcvd && is t established)
            || (is s last_ack && is t listen)
            || (is s established && is t fin_wait_1)))

abbrev pub by_fin : Context → TcpState → TcpState → Bool
by_fin c s t = is s t || (c.header.flag_fin && is s established && is t fin_wait_1)

abbrev pub by_end : Bool → TcpState → TcpState → Bool
by_end due s t = is s t || (due && is t fin_wait_2)

-- A number that may be the next one of the other side: what the session expects, or what follows the
-- number of a packet with the flag ACK.
abbrev pub is_next : Context → TcpSession → ℕ → Bool
is_next c s n = n == s.their_seq_nr || (c.header.flag_ack && n == u32 (c.header.their_seq_nr + 1))

-- A FIN has come, before or with this packet, and its number is the next one.
abbrev pub is_due : Context → TcpSession → Bool
is_due c s =
    (s.flag_fin_when_all_received && is_next c s s.seq_for_fin_when_all_received)
    || (c.header.flag_fin && is_next c s c.header.their_seq_nr)

-- The five steps, one after another.
abbrev pub Moves : Context → TcpSession → TcpState → Type 0
Moves c s t =
    (s1 : TcpState) × (s2 : TcpState) × (s3 : TcpState) × (s4 : TcpState) × (by_rst c s.state s1
      ≡ true)
    × (by_syn c s1 s2 ≡ true)
    × (by_ack c s2 s3 ≡ true)
    × (by_fin c s3 s4 ≡ true)
    × (by_end (is_due c s) s4 t ≡ true)

is_refl : (s : TcpState) → is s s ≡ true
is_refl s = ground arith

on_rst-by_rst :
    (c : Context) (w : Work) → by_rst c (w.session.state) ((on_rst c w).session.state) ≡ true
unfolding on_rst
on_rst-by_rst c w = ground arith

on_syn-by_syn :
    (c : Context) (w : Work) → by_syn c (w.session.state) ((on_syn c w).session.state) ≡ true
unfolding on_syn
on_syn-by_syn c w = ground arith

on_ack-by_ack :
    (c : Context) (w : Work) → by_ack c (w.session.state) ((on_ack c w).session.state) ≡ true
unfolding on_ack ack_syn_sent ack_syn_rcvd ack_last_ack ack_established fin_if_empty drop_acked
on_ack-by_ack c w = ground arith

on_fin-by_fin :
    (c : Context) (w : Work) → by_fin c (w.session.state) ((on_fin c w).session.state) ≡ true
unfolding on_fin
on_fin-by_fin c w = ground arith

-- The test of `finish`.
abbrev is_ready : TcpSession → Bool
is_ready s = s.flag_fin_when_all_received && s.seq_for_fin_when_all_received == s.their_seq_nr

finish-by_end :
    (c : Context) (w : Work)
    → by_end (is_ready w.session) (w.session.state) ((finish c w).session.state) ≡ true
unfolding finish
finish-by_end c w = ground arith

-- What the test of `finish` reads is as it was.
abbrev IsKept : TcpSession → TcpSession → Type 0
IsKept s t =
    (t.flag_fin_when_all_received ≡ s.flag_fin_when_all_received)
    × (t.seq_for_fin_when_all_received ≡ s.seq_for_fin_when_all_received)
    × (t.their_seq_nr ≡ s.their_seq_nr)

on_rst-IsKept : (c : Context) (w : Work) → IsKept w.session (on_rst c w).session
unfolding on_rst
on_rst-IsKept c w = ground arith

on_syn-IsKept : (c : Context) (w : Work) → IsKept w.session (on_syn c w).session
unfolding on_syn
on_syn-IsKept c w = ground arith

on_ack-number :
    (c : Context) (w : Work)
    → let t = (on_ack c w).session in
      (t.flag_fin_when_all_received ≡ w.session.flag_fin_when_all_received)
      × (t.seq_for_fin_when_all_received ≡ w.session.seq_for_fin_when_all_received)
      × ((t.their_seq_nr ≡ w.session.their_seq_nr)
          ⊎ ((c.header.flag_ack ≡ true) × (t.their_seq_nr ≡ u32 (c.header.their_seq_nr + 1))))
unfolding on_ack ack_syn_sent ack_syn_rcvd ack_last_ack ack_established fin_if_empty drop_acked
on_ack-number c w = ground arith

on_fin-number :
    (c : Context) (w : Work)
    → let t = (on_fin c w).session in
      IsKept w.session t
      ⊎ ((c.header.flag_fin ≡ true)
          × (t.seq_for_fin_when_all_received ≡ c.header.their_seq_nr)
          × (t.their_seq_nr ≡ w.session.their_seq_nr))
unfolding on_fin
on_fin-number c w = ground arith

-- What is ready behind the steps was due before them.
is_ready-is_due :
    (c : Context) (w : Work)
    → is_ready (on_fin c (on_ack c (on_syn c (on_rst c w)))).session ≡ true
    → is_due c w.session ≡ true
is_ready-is_due c w h =
    let w1 = on_rst c w in
    let w2 = on_syn c w1 in
    let w3 = on_ack c w2 in
    let rst = on_rst-IsKept c w in
    let syn = on_syn-IsKept c w1 in
    let ack = on_ack-number c w2 in
    let fin = on_fin-number c w3 in ground (arith, rst, syn, ack, fin, h)

by_end-due :
    (ready due : Bool) (s t : TcpState)
    → by_end ready s t ≡ true
    → (ready ≡ true → due ≡ true)
    → by_end due s t ≡ true
by_end-due ready due s t h k = elim (Bool-cases ready) [
  | inl e ↦ let d = k e in ground arith
  | inr e ↦ ground arith
]

check_size-session : (c : Context) (w : Work) → (check_size c w).session ≡ w.session
unfolding check_size
check_size-session c w = ground arith

on_payload-state : (c : Context) (w : Work) → (on_payload c w).session.state ≡ w.session.state
unfolding on_payload accept_payload refuse_payload
on_payload-state c w = ground arith

on_fail-state : (c : Context) (w : Work) → (on_fail c w).session.state ≡ w.session.state
unfolding on_fail
on_fail-state c w = ground arith

on_delete-state : (w : Work) → (on_delete w).session.state ≡ w.session.state
unfolding on_delete
on_delete-state w = ground arith

Moves-here : (c : Context) (s : TcpSession) → Moves c s s.state
Moves-here c s =
    let r = is_refl s.state in
    (
      s.state,
      s.state,
      s.state,
      s.state,
      ground (arith, r),
      ground (arith, r),
      ground (arith, r),
      ground (arith, r),
      ground (arith, r),
    )

on_flags-Moves : (c : Context) (w : Work) → Moves c w.session ((on_flags c w).session.state)
unfolding on_flags
on_flags-Moves c w =
    let w1 = on_rst c w in
    let w2 = on_syn c w1 in
    let w3 = on_ack c w2 in
    let w4 = on_fin c w3 in
    if_elim (λ (v : Work). Moves c w.session (v.session.state)) w.fail (λ _. Moves-here c w.session)
      (λ _. (
        w1.session.state,
        w2.session.state,
        w3.session.state,
        w4.session.state,
        on_rst-by_rst c w,
        on_syn-by_syn c w1,
        on_ack-by_ack c w2,
        on_fin-by_fin c w3,
        by_end-due (is_ready w4.session) (is_due c w.session) w4.session.state
            ((finish c w4).session.state) (finish-by_end c w4) (is_ready-is_due c w),
      ))

-- Whatever the packet, the handler takes a session from its state to the next one by at most five
-- transitions, in this order: for RST from any state but the first two to `closing`, for SYN from
-- `listen` to `syn_rcvd`, for ACK from `syn_sent` or `syn_rcvd` to `established`, from `last_ack` to
-- `listen` or from `established` to `fin_wait_1`, for FIN from `established` to `fin_wait_1`, and to
-- `fin_wait_2` only if a FIN has come whose number is the next one of the other side.
pub process-Moves :
    (c : Context) (s : TcpSession) (stats : Stats) → Moves c s ((process c s stats).session.state)
unfolding process
process-Moves c s stats =
    let w0 : Work = record {
      session = record s {
        e_last_pkt_ts = c.machine.now_us;
        window_size = max 1 c.header.win_size;
      };
      fail = false;
      delete_entry = false;
      notify_unacked_cv = false;
      events = [];
      stats = stats;
    } in
    let w1 = check_size c w0 in
    let w2 = on_flags c w1 in
    let w3 = on_payload c w2 in
    let w4 = on_fail c w3 in
    let back : (on_delete w4).session.state ≡ w2.session.state =
      on_delete-state w4 ∙ on_fail-state c w3 ∙ on_payload-state c w2 in
    let front : w1.session ≡ w0.session = check_size-session c w0 in
    subst (λ t. Moves c s t) (sym back)
      (subst (λ t. Moves c t (w2.session.state)) front (on_flags-Moves c w1))

-- The states that the program enters: `closed`, `close_wait`, `last_ack`, `time_wait` and `rst_act`
-- are not among them.
abbrev pub entered : TcpState → Bool
entered listen = true
entered syn_rcvd = true
entered syn_sent = true
entered established = true
entered fin_wait_1 = true
entered fin_wait_2 = true
entered closing = true
entered closed = false
entered close_wait = false
entered last_ack = false
entered time_wait = false
entered rst_act = false

by_rst-entered :
    (c : Context) (s t : TcpState) → entered s ≡ true → by_rst c s t ≡ true → entered t ≡ true
by_rst-entered c s t h e = ground arith

by_syn-entered :
    (c : Context) (s t : TcpState) → entered s ≡ true → by_syn c s t ≡ true → entered t ≡ true
by_syn-entered c s t h e = ground arith

by_ack-entered :
    (c : Context) (s t : TcpState) → entered s ≡ true → by_ack c s t ≡ true → entered t ≡ true
by_ack-entered c s t h e = ground arith

by_fin-entered :
    (c : Context) (s t : TcpState) → entered s ≡ true → by_fin c s t ≡ true → entered t ≡ true
by_fin-entered c s t h e = ground arith

by_end-entered :
    (due : Bool) (s t : TcpState) → entered s ≡ true → by_end due s t ≡ true → entered t ≡ true
by_end-entered due s t h e = ground arith

Moves-entered :
    (c : Context) (s : TcpSession) (t : TcpState)
    → entered s.state ≡ true
    → Moves c s t
    → entered t ≡ true
Moves-entered c s t h (s1, s2, s3, s4, a, b, d, e, f) =
    by_end-entered (is_due c s) s4 t
      (by_fin-entered c s3 s4
        (by_ack-entered c s2 s3 (by_syn-entered c s1 s2 (by_rst-entered c s.state s1 h a) b) d) e)
      f

-- From a state that the program enters, no packet leads to `closed`, `close_wait`, `last_ack`,
-- `time_wait` or `rst_act`: these states stay unused.
pub process-entered :
    (c : Context) (s : TcpSession) (stats : Stats)
    → entered s.state ≡ true
    → entered ((process c s stats).session.state) ≡ true
process-entered c s stats h = Moves-entered c s _ h (process-Moves c s stats)
