-- ===== src/Tcp/Stream.antt =====
-- The stream that a session sends: what `send_data` and an acknowledgement do to the bytes that
-- wait, in tcp.cpp.
use myip.Base.{
  Bool, ℕ, zero, suc, ◌+◌, ◌-◌, ◌^◌, ◌≤◌, ◌<◌, ◌≡◌, ap, sym, ◌∙◌, true, false, ◌||◌, List, [], ◌∷◌,
  ◌++◌, ltb, if◌then◌else◌, length, take, drop, u32, sub32, sub64, arith, length-append,
  length-take, length-drop, take-append, take_all, drop_all, Bool-cases, inl, inr,
}
use myip.Tcp.State.{established, rank, TcpSession, waiting}
use myip.Tcp.Receive.{
  Context, Work, drop_acked, ack_established, fin_if_empty, is_positive, move_down,
}
use myip.Tcp.Send.{enqueue, send_data, returned, max_queued}

-- The bytes that count are in the buffer, and they begin at the session's number.
pub record IsQueued (s : TcpSession) : Type 0 where
  pub held : s.unacked_size ≤ length s.unacked
  pub bounded : s.unacked_size < 2 ^ 31
  pub aligned : 0 < s.unacked_size → s.unacked_start_seq_nr ≡ s.my_seq_nr
  pub narrow : s.my_seq_nr < 2 ^ 32

length-waiting :
    (s : TcpSession) → s.unacked_size ≤ length s.unacked → length (waiting s) ≡ s.unacked_size
length-waiting s h = omega (arith, length-take s.unacked_size s.unacked)

-- Queued bytes come behind the ones that wait already, and the session stays well-formed.
pub enqueue-waiting :
    {s : TcpSession} (content : List ℕ)
    → IsQueued s
    → s.unacked_size + length content < 2 ^ 31
    → (waiting (enqueue s content) ≡ waiting s ++ content) × IsQueued (enqueue s content)
unfolding enqueue
enqueue-waiting {s} content v fits = (
  take_all (s.unacked_size + length content) (waiting s ++ content)
      (omega (arith, length-append (waiting s) content, length-waiting s v.held)),
  record {
    held = omega (arith, length-append (waiting s) content, length-waiting s v.held);
    bounded = fits;
    aligned = λ h. ground (arith, v.aligned);
    narrow = v.narrow;
  },
)

drop-take {ℓ} :
    {A : Type ℓ} (n k : ℕ) (xs : List A)
    → n ≤ k
    → k ≤ length xs
    → take (k - n) (drop n xs) ≡ drop n (take k xs)
drop-take zero k xs h b = ap (λ j. take j xs) (omega arith)
drop-take (suc n) zero xs h b = absurd (omega arith)
drop-take (suc n) (suc k) [] h b = absurd (omega arith)
drop-take (suc n) (suc k) (x ∷ xs) h b =
    ap (λ j. take j (drop n xs)) (omega arith) ∙ drop-take n k xs (omega arith) (omega arith)

moved_down :
    (n k : ℕ) (xs : List ℕ)
    → n ≤ k
    → k ≤ length xs
    → take (k - n) (move_down xs n (k - n)) ≡ drop n (take k xs)
moved_down n k xs h b =
    let front : List ℕ = take (k - n) (drop n xs) in
    let short : length front ≡ k - n =
      omega (arith, length-take (k - n) (drop n xs), length-drop n xs) in
    ap (λ j. take j (front ++ drop (k - n) xs)) (sym short)
    ∙ take-append front (drop (k - n) xs)
    ∙ drop-take n k xs h b

left_n_lem : (k n : ℕ) → n ≤ k → k < 2 ^ 31 → u32 (sub64 k n) ≡ k - n
left_n_lem k n h b = omega arith

-- What `drop_acked` leaves, with the 64-bit and 32-bit arithmetic worked out.
acked : TcpSession → ℕ → TcpSession
acked s n = record s {
  unacked =
      (if is_positive (s.unacked_size - n)
        then move_down s.unacked n (s.unacked_size - n)
        else s.unacked);
  unacked_size = s.unacked_size - n;
  unacked_start_seq_nr = u32 (s.unacked_start_seq_nr + n);
  my_seq_nr = u32 (s.my_seq_nr + n);
}

drop_acked-acked :
    (s : TcpSession) (n : ℕ)
    → s.unacked_size < 2 ^ 31
    → n ≤ s.unacked_size
    → drop_acked s n ≡ (acked s n, false)
unfolding drop_acked acked
drop_acked-acked s n b h =
    let size : sub64 s.unacked_size n ≡ s.unacked_size - n = omega arith in
    let left : u32 (s.unacked_size - n) ≡ s.unacked_size - n = omega arith in
    rw (size, left) (ground arith)

waiting-acked :
    (s : TcpSession) (n : ℕ)
    → IsQueued s
    → n ≤ s.unacked_size
    → waiting (acked s n) ≡ drop n (waiting s)
unfolding acked
waiting-acked s n v h = elim (Bool-cases (is_positive (s.unacked_size - n))) [
  | inl e ↦ rw e (moved_down n s.unacked_size s.unacked h v.held)
  | inr e ↦ rw e (
      let gone : s.unacked_size - n ≡ 0 = ground (arith, v.bounded) in
      ap (λ j. take j s.unacked) gone
      ∙ sym (drop_all n (waiting s) (omega (arith, length-waiting s v.held))))
]

length-move_down :
    (n k : ℕ) (xs : List ℕ) → n ≤ k → k ≤ length xs → k - n ≤ length (move_down xs n (k - n))
length-move_down n k xs h b = omega (
  arith,
  length-append (take (k - n) (drop n xs)) (drop (k - n) xs),
  length-take (k - n) (drop n xs),
  length-drop n xs,
)

acked-IsQueued : (s : TcpSession) (n : ℕ) → IsQueued s → n ≤ s.unacked_size → IsQueued (acked s n)
unfolding acked
acked-IsQueued s n v h = record {
  held = ground (arith, v.held, length-move_down n s.unacked_size s.unacked h v.held);
  bounded = omega (arith, v.bounded);
  aligned = λ p. ap (λ k. u32 (k + n)) (v.aligned (omega arith));
  narrow = omega arith;
}

-- The FIN that may follow an acknowledgement leaves the queue and the flags alone.
record SameQueue (w v : Work) : Type 0 where
  buffer : v.session.unacked ≡ w.session.unacked
  size : v.session.unacked_size ≡ w.session.unacked_size
  failed : v.fail ≡ w.fail
  deleted : v.delete_entry ≡ w.delete_entry

fin_if_empty-SameQueue : (c : Context) (w : Work) → SameQueue w (fin_if_empty c w)
unfolding fin_if_empty
fin_if_empty-SameQueue c w = ground arith

ack_n_lem : (start n : ℕ) → start < 2 ^ 32 → n < 2 ^ 31 → sub32 (u32 (start + n)) start ≡ n
ack_n_lem start n h k = omega arith

start-lt : (s : TcpSession) → IsQueued s → 0 < s.unacked_size → s.unacked_start_seq_nr < 2 ^ 32
start-lt s v h = omega (arith, v.aligned h, v.narrow)

-- An acknowledgement of `n` bytes that wait, on an established session: exactly the first `n` of
-- them leave the queue, the others stay in their order, and the session does not fail.
pub ack_established-waiting :
    (c : Context) (w : Work) (n : ℕ)
    → IsQueued w.session
    → 0 < n
    → n ≤ w.session.unacked_size
    → c.header.ack_to ≡ u32 (w.session.unacked_start_seq_nr + n)
    → let w' = ack_established c w in
      (waiting w'.session ≡ drop n (waiting w.session))
      × (w'.fail ≡ w.fail)
      × (w'.delete_entry ≡ w.delete_entry)
unfolding ack_established
ack_established-waiting c w n v pos h e =
    let s = w.session in
    let d : sub32 c.header.ack_to s.unacked_start_seq_nr ≡ n = rw e (
      ack_n_lem s.unacked_start_seq_nr n (start-lt s v (omega arith)) (omega (arith, v.bounded))) in
    let w2 : Work = record w {
      session = acked s n;
      fail = w.fail || false;
      delete_entry = w.delete_entry || false;
    } in
    ground (
      arith,
      d,
      v.bounded,
      drop_acked-acked s n v.bounded h,
      fin_if_empty-SameQueue c w2,
      waiting-acked s n v h,
    )

-- An acknowledgement of more bytes than wait marks the session as failed and for its removal.
ack_underrun :
    (c : Context) (w : Work) (n : ℕ)
    → IsQueued w.session
    → 0 < w.session.unacked_size
    → w.session.unacked_size < n
    → n < 2 ^ 31
    → c.header.ack_to ≡ u32 (w.session.unacked_start_seq_nr + n)
    → let w' = ack_established c w in (w'.fail ≡ true) × (w'.delete_entry ≡ true)
unfolding ack_established drop_acked
ack_underrun c w n v pos more small e =
    let s = w.session in
    let d : sub32 c.header.ack_to s.unacked_start_seq_nr ≡ n =
      rw e (ack_n_lem s.unacked_start_seq_nr n (start-lt s v pos) small) in
    let high : 2 ^ 31 ≤ u32 (sub64 s.unacked_size n) = omega (arith, v.bounded) in
    let w2 : Work = record w {
      session = (drop_acked s n).0;
      fail = w.fail || true;
      delete_entry = w.delete_entry || true;
    } in
    ground (arith, d, high, fin_if_empty-SameQueue c w2)

-- `send_data` on an established session that is not ending, whose buffer holds what waits, with less
-- than 2^31 bytes waiting after it, returns at once: with less than 1048576 bytes waiting the bytes come
-- behind those that wait, and otherwise they are dropped.
pub send_data-waiting :
    (s : TcpSession) (content : List ℕ)
    → IsQueued s
    → s.unacked_size + length content < 2 ^ 31
    → rank s.state ≡ rank established
    → s.is_terminating ≡ false
    → (s' : TcpSession) × (queued : Bool) × (send_data s content ≡ returned s' queued)
      × (waiting s' ≡ (if ltb s.unacked_size 1048576 then waiting s ++ content else waiting s))
unfolding send_data
send_data-waiting s content v fits up on = elim (Bool-cases (ltb s.unacked_size max_queued)) [
  | inl h ↦
      (enqueue s content, true, ground arith, ground (arith, (enqueue-waiting content v fits).0))
  | inr h ↦ (s, false, ground arith, ground arith)
]
