-- ===== src/Tcp/Quiet.antt =====
-- The steps of `tcp::packet_handler` that hand nothing to the application.
use myip.Base.{
  ℕ, ◌≡◌, refl, ap, ◌∙◌, Bool, true, false, List, [], ◌∷◌, ◌++◌, arith, append-nil, if◌then◌else◌,
}
use myip.Tcp.State.{
  bad_function_call, syn_sent, Event, sent, reset, new_session, new_data, session_closed_1,
  wake_sender,
}
use myip.Tcp.Receive.{
  Context, Work, in_state, check_size, on_rst, on_syn, on_ack, ack_syn_rcvd, ack_last_ack,
  ack_established, fin_if_empty, drop_acked, on_fin, finish, on_flags,
}

-- The data that the application is offered, in the order of the calls.
unfoldable pub delivered : List Event → List (List ℕ)
delivered [] = []
delivered (new_data id content ∷ log) = content ∷ delivered log
delivered (_ ∷ log) = delivered log

pub delivered-append : (a b : List Event) → delivered (a ++ b) ≡ delivered a ++ delivered b
unfolding delivered
delivered-append [] b = refl
delivered-append (new_data id content ∷ log) b = ap (λ t. content ∷ t) (delivered-append log b)
delivered-append (sent g ∷ log) b = delivered-append log b
delivered-append (reset x y z ∷ log) b = delivered-append log b
delivered-append (new_session id ∷ log) b = delivered-append log b
delivered-append (session_closed_1 id ∷ log) b = delivered-append log b
delivered-append (bad_function_call id ∷ log) b = delivered-append log b
delivered-append (wake_sender ∷ log) b = delivered-append log b

-- A step that offers nothing and moves no number of the other side, on a session that is no client
-- waiting for its answer.
pub record IsQuiet (w v : Work) : Type 0 where
  pub silent : delivered v.events ≡ delivered w.events
  pub unmoved : v.session.their_seq_nr ≡ w.session.their_seq_nr
  pub served : in_state w.session syn_sent ≡ false → in_state v.session syn_sent ≡ false

silent_append : (a b : List Event) → delivered b ≡ [] → delivered (a ++ b) ≡ delivered a
silent_append a b h = delivered-append a b ∙ rw h (append-nil (delivered a))

pub check_size-IsQuiet : (c : Context) (w : Work) → IsQuiet w (check_size c w)
unfolding check_size
check_size-IsQuiet c w = ground arith

on_rst-IsQuiet : (c : Context) (w : Work) → IsQuiet w (on_rst c w)
unfolding on_rst
on_rst-IsQuiet c w = ground arith

on_syn-IsQuiet : (c : Context) (w : Work) → IsQuiet w (on_syn c w)
unfolding on_syn delivered
on_syn-IsQuiet c w = grind (arith, delivered-append, append-nil)

ack_established-IsQuiet : (c : Context) (w : Work) → IsQuiet w (ack_established c w)
unfolding ack_established fin_if_empty drop_acked delivered
ack_established-IsQuiet c w = grind (arith, delivered-append, append-nil)

ack_syn_rcvd-IsQuiet : (c : Context) (w : Work) → IsQuiet w (ack_syn_rcvd c w)
unfolding ack_syn_rcvd delivered
ack_syn_rcvd-IsQuiet c w = grind (arith, delivered-append, append-nil)

on_fin-IsQuiet : (c : Context) (w : Work) → IsQuiet w (on_fin c w)
unfolding on_fin
on_fin-IsQuiet c w = ground arith

finish-IsQuiet : (c : Context) (w : Work) → IsQuiet w (finish c w)
unfolding finish delivered
finish-IsQuiet c w = grind (arith, delivered-append, append-nil)

on_ack-IsQuiet :
    (c : Context) (w : Work) → in_state w.session syn_sent ≡ false → IsQuiet w (on_ack c w)
unfolding on_ack ack_last_ack
on_ack-IsQuiet c w h =
    let a = ack_established-IsQuiet c w in
    let b = ack_syn_rcvd-IsQuiet c w in
    ground (arith, a.silent, a.unmoved, a.served, b.silent, b.unmoved, b.served)

pub IsQuiet-trans : {u v w : Work} → IsQuiet u v → IsQuiet v w → IsQuiet u w
IsQuiet-trans p q = record {
  silent = q.silent ∙ p.silent;
  unmoved = q.unmoved ∙ p.unmoved;
  served = λ h. q.served (p.served h);
}

IsQuiet-if : (b : Bool) {u v w : Work} → IsQuiet u v → IsQuiet u w → IsQuiet u (if b then v else w)
IsQuiet-if true p q = p
IsQuiet-if false p q = q

pub on_flags-IsQuiet :
    (c : Context) (w : Work) → in_state w.session syn_sent ≡ false → IsQuiet w (on_flags c w)
unfolding on_flags
on_flags-IsQuiet c w h =
    let w1 = on_rst c w in
    let w2 = on_syn c w1 in
    let w3 = on_ack c w2 in
    let w4 = on_fin c w3 in
    let a = IsQuiet-trans (on_rst-IsQuiet c w) (on_syn-IsQuiet c w1) in
    let b = IsQuiet-trans a (on_ack-IsQuiet c w2 (a.served h)) in
    let d = IsQuiet-trans (IsQuiet-trans b (on_fin-IsQuiet c w3)) (finish-IsQuiet c w4) in
    IsQuiet-if w.fail (record { silent = refl; unmoved = refl; served = λ k. k }) d
