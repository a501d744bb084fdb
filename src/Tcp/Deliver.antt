-- ===== src/Tcp/Deliver.antt =====
-- What `tcp::packet_handler` hands to the application, and in which order.
use myip.Base.{
  ◌+◌, ◌<◌, ◌≡◌, refl, ap, ◌∙◌, Bool, true, false, not, ◌&&◌, [], ◌∷◌, ◌++◌, ◌==◌, ltb, arith,
  length, u32, append-nil, ◌⊎◌, inl, inr, if◌then◌else◌, max, Option-cases,
}
use myip.Base.Assoc.{find}
use myip.Tcp.State.{TcpSession, syn_sent, Stats}
use myip.Tcp.Receive.{
  Context, Work, in_state, check_size, on_flags, accept_payload, refuse_payload, on_payload,
  on_fail, on_delete, process,
}
use myip.Tcp.Quiet.{
  delivered, delivered-append, IsQuiet, check_size-IsQuiet, IsQuiet-trans, on_flags-IsQuiet,
}

-- What a step with the payload may do: nothing is offered and no number moves; or the payload is
-- offered, which begins at the expected number, and that number moves over it unless the session
-- fails.
data Offered (c : Context) (w v : Work) : Type 0 where
  held :
      delivered v.events ≡ delivered w.events
      → v.session.their_seq_nr ≡ w.session.their_seq_nr
      → Offered c w v
  given :
      delivered v.events ≡ delivered w.events ++ c.payload ∷ []
      → c.header.their_seq_nr ≡ w.session.their_seq_nr
      → c.header.header_size < c.size
      → (v.session.their_seq_nr ≡ u32 (w.session.their_seq_nr + length c.payload))
        ⊎ ((v.fail ≡ true) × (v.session.their_seq_nr ≡ w.session.their_seq_nr))
      → Offered c w v

refuse_payload-IsQuiet : (c : Context) (w : Work) → IsQuiet w (refuse_payload c w)
unfolding refuse_payload delivered
refuse_payload-IsQuiet c w = grind (arith, delivered-append, append-nil)

accept_payload-Offered :
    (c : Context) (w : Work)
    → c.header.their_seq_nr ≡ w.session.their_seq_nr
    → c.header.header_size < c.size
    → Offered c w (accept_payload c w)
accept_payload-Offered c w e h = elim (Option-cases (find c.header.dst_port c.listeners)) [
  | inl nobody ↦
      held (unfold accept_payload delivered in grind (arith, nobody, delivered-append, append-nil))
        (unfold accept_payload in ground (arith, nobody))
  | inr (handler, some_one) ↦
      given
        (unfold accept_payload delivered in grind (arith, some_one, delivered-append, append-nil)) e
        h (unfold accept_payload in ground (arith, some_one))
]

Offered_quiet : (c : Context) {w v : Work} → IsQuiet w v → Offered c w v
Offered_quiet c q = held q.silent q.unmoved

Offered_if :
    (c : Context) (b : Bool) {u v w : Work}
    → (b ≡ true → Offered c u v)
    → (b ≡ false → Offered c u w)
    → Offered c u (if b then v else w)
Offered_if c true p q = p refl
Offered_if c false p q = q refl

on_payload-Offered : (c : Context) (w : Work) → Offered c w (on_payload c w)
unfolding on_payload
on_payload-Offered c w =
    Offered_if c (ltb c.header.header_size c.size && not w.fail)
      (λ room.
        Offered_if c (c.header.their_seq_nr == w.session.their_seq_nr)
          (λ same. accept_payload-Offered c w (ground arith) (ground arith))
          (λ other. Offered_quiet c (refuse_payload-IsQuiet c w)))
      (λ nothing. held refl refl)

-- The steps after the payload offer nothing and keep the verdict.
record IsLast (w v : Work) : Type 0 where
  silent : delivered v.events ≡ delivered w.events
  unmoved : v.session.their_seq_nr ≡ w.session.their_seq_nr
  failing : v.fail ≡ w.fail

on_fail-IsLast : (c : Context) (w : Work) → IsLast w (on_fail c w)
unfolding on_fail delivered
on_fail-IsLast c w = grind (arith, delivered-append, append-nil)

on_delete-IsLast : (w : Work) → IsLast w (on_delete w)
unfolding on_delete
on_delete-IsLast w = ground arith

Offered_between :
    (c : Context) {t u v w : Work} → IsQuiet t u → Offered c u v → IsLast v w → Offered c t w
Offered_between c q (held a b) l = held (l.silent ∙ a ∙ q.silent) (l.unmoved ∙ b ∙ q.unmoved)
Offered_between c q (given a b h m) l =
    given (l.silent ∙ a ∙ ap (λ t. t ++ c.payload ∷ []) q.silent) (b ∙ q.unmoved) h
      (ground (arith, l.unmoved, l.failing, q.unmoved))

start_work : Context → TcpSession → Stats → Work
start_work c s stats = record {
  session = record s { e_last_pkt_ts = c.machine.now_us; window_size = max 1 c.header.win_size };
  fail = false;
  delete_entry = false;
  notify_unacked_cv = false;
  events = [];
  stats = stats;
}

process-Offered :
    (c : Context) (s : TcpSession) (stats : Stats)
    → in_state s syn_sent ≡ false
    → Offered c (start_work c s stats) (process c s stats)
unfolding process start_work
process-Offered c s stats h =
    let w0 = start_work c s stats in
    let w1 = check_size c w0 in
    let a = check_size-IsQuiet c w0 in
    let w2 = on_flags c w1 in
    let b = IsQuiet-trans a (on_flags-IsQuiet c w1 (a.served h)) in
    let w3 = on_payload c w2 in
    let l = on_fail-IsLast c w3 in
    let k = on_delete-IsLast (on_fail c w3) in
    Offered_between c b (on_payload-Offered c w2) (record {
      silent = k.silent ∙ l.silent;
      unmoved = k.unmoved ∙ l.unmoved;
      failing = k.failing ∙ l.failing;
    })

-- Of a session that is no client waiting for its answer, the handler offers the application at most
-- the payload of the packet, once, and only if it begins at the number that is expected next; that
-- number then moves over the payload, or the session fails and the number stays. If nothing is
-- offered, the number stays too.
pub process-in_order :
    (c : Context) (s : TcpSession) (stats : Stats)
    → in_state s syn_sent ≡ false
    → let w = process c s stats in
      ((delivered w.events ≡ []) × (w.session.their_seq_nr ≡ s.their_seq_nr))
      ⊎ ((delivered w.events ≡ c.payload ∷ [])
          × (c.header.their_seq_nr ≡ s.their_seq_nr)
          × (c.header.header_size < c.size)
          × ((w.session.their_seq_nr ≡ u32 (s.their_seq_nr + length c.payload))
              ⊎ ((w.fail ≡ true) × (w.session.their_seq_nr ≡ s.their_seq_nr))))
process-in_order c s stats h = sides (process-Offered c s stats h)
  where
    sides :
        {v : Work}
        → Offered c (start_work c s stats) v
        → ((delivered v.events ≡ []) × (v.session.their_seq_nr ≡ s.their_seq_nr))
          ⊎ ((delivered v.events ≡ c.payload ∷ [])
              × (c.header.their_seq_nr ≡ s.their_seq_nr)
              × (c.header.header_size < c.size)
              × ((v.session.their_seq_nr ≡ u32 (s.their_seq_nr + length c.payload))
                  ⊎ ((v.fail ≡ true) × (v.session.their_seq_nr ≡ s.their_seq_nr))))
    sides (held a b) = inl (unfold start_work delivered in a, unfold start_work in b)
    sides (given a b k m) =
        inr (unfold start_work delivered in a, (unfold start_work in b), k, unfold start_work in m)
