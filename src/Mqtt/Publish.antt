-- ===== src/Mqtt/Publish.antt =====
-- Whom the broker of mqtt.cpp passes a message on to.
use myip.Base.{
  ℕ, zero, suc, ◌+◌, ◌≡◌, refl, sym, ap, ◌∙◌, Bool, true, false, ◌&&◌, subst, List, [], ◌∷◌, ◌++◌,
  ◌==◌, arith, replicate, append-nil, append_assoc, if◌then◌else◌, Bool-cases, inl, inr, All,
}
use myip.Mqtt.{
  Broker, Sessions, has, queue_for, queue_matching, is_same, is_below, publish, publish_message,
}

-- No session is in a set twice.
abbrev pub IsDistinct : Sessions → Type 0
IsDistinct [] = Unit
IsDistinct (x ∷ xs) = (has x xs ≡ false) × IsDistinct xs

abbrev pub IsTable : List (List ℕ × Sessions) → Type 0
IsTable table = All (λ (e : List ℕ × Sessions). IsDistinct e.1) table

-- The number of entries of a table that a session is in and whose topic passes a test.
abbrev pub subscriptions : (List ℕ → Bool) → ℕ → List (List ℕ × Sessions) → ℕ
subscriptions test s [] = 0
subscriptions test s ((t, xs) ∷ table) =
    if test t && has s xs then suc (subscriptions test s table) else subscriptions test s table

replicate_sum :
    (m n : ℕ) (msg : List ℕ) → replicate m msg ++ replicate n msg ≡ replicate (m + n) msg
replicate_sum zero n msg = ap (λ (k : ℕ). replicate k msg) (omega arith)
replicate_sum (suc m) n msg =
    let next : suc m + n ≡ suc (m + n) = omega arith in
    rw next (ap (λ q. msg ∷ q) (replicate_sum m n msg))

queue_for-other :
    (xs : Sessions) (msg : List ℕ) (out : ℕ → List (List ℕ)) (s : ℕ)
    → has s xs ≡ false
    → queue_for xs msg out s ≡ out s
unfolding queue_for
queue_for-other [] msg out s h = refl
queue_for-other (x ∷ xs) msg out s h = queue_for-other xs msg _ s (ground arith) ∙ ground arith

queue_for-has :
    (xs : Sessions) (msg : List ℕ) (out : ℕ → List (List ℕ)) (s : ℕ)
    → IsDistinct xs
    → has s xs ≡ true
    → queue_for xs msg out s ≡ out s ++ msg ∷ []
unfolding queue_for
queue_for-has [] msg out s d h = ground arith
queue_for-has (x ∷ xs) msg out s (n, d) h = elim (Bool-cases (x == s)) [
  | inl e ↦
      let same : (s == x) ≡ true = ground arith in
      let x_is_s : x ≡ s = ground arith in
      let once : has s xs ≡ false = subst (λ (y : ℕ). has y xs ≡ false) x_is_s n in
      queue_for-other xs msg _ s once ∙ rw same refl
  | inr e ↦
      let other : (s == x) ≡ false = ground arith in
      queue_for-has xs msg _ s d (ground arith) ∙ rw other refl
]

queue_matching-subscriptions :
    (test : List ℕ → Bool) (table : List (List ℕ × Sessions)) (msg : List ℕ)
    (out : ℕ → List (List ℕ)) (s : ℕ)
    → IsTable table
    → queue_matching test table msg out s ≡ out s ++ replicate (subscriptions test s table) msg
unfolding queue_matching
queue_matching-subscriptions test [] msg out s d = sym (append-nil (out s))
queue_matching-subscriptions test ((t, xs) ∷ table) msg out s (d, ds) = elim (Bool-cases (test t)) [
  | inr left ↦ rw left (queue_matching-subscriptions test table msg out s ds)
  | inl taken ↦ elim (Bool-cases (has s xs)) [
    | inr out_of ↦
        rw (taken, out_of)
          (queue_matching-subscriptions test table msg (queue_for xs msg out) s ds
            ∙ ap (λ q. q ++ replicate (subscriptions test s table) msg)
                (queue_for-other xs msg out s out_of))
    | inl member ↦
        rw (taken, member)
          (queue_matching-subscriptions test table msg (queue_for xs msg out) s ds
            ∙ ap (λ q. q ++ replicate (subscriptions test s table) msg)
                (queue_for-has xs msg out s d member)
            ∙ append_assoc (out s) (msg ∷ []) (replicate (subscriptions test s table) msg))
  ]
]

-- A message that is published goes to every session as often as it is subscribed to it, once for the
-- topic itself and once for each wildcard whose text before the `#` the topic begins with, and behind
-- what waits for it already; to no other session. No set has a session twice.
pub publish-subscriptions :
    (topic payload : List ℕ) (b : Broker) (s : ℕ)
    → IsTable b.topic_subscriptions
    → IsTable b.topic_wc_subscriptions
    → let exact = subscriptions (is_same topic) s b.topic_subscriptions in
      let wild = subscriptions (is_below topic) s b.topic_wc_subscriptions in
      (publish topic payload b).msgs_out s
      ≡ b.msgs_out s ++ replicate (exact + wild) (publish_message topic payload)
unfolding publish
publish-subscriptions topic payload b s h k =
    let msg : List ℕ = publish_message topic payload in
    let exact : ℕ = subscriptions (is_same topic) s b.topic_subscriptions in
    let wild : ℕ = subscriptions (is_below topic) s b.topic_wc_subscriptions in
    queue_matching-subscriptions (is_below topic) b.topic_wc_subscriptions msg _ s k
    ∙ ap (λ q. q ++ replicate wild msg)
        (queue_matching-subscriptions (is_same topic) b.topic_subscriptions msg b.msgs_out s h)
    ∙ append_assoc (b.msgs_out s) (replicate exact msg) (replicate wild msg)
    ∙ ap (λ q. b.msgs_out s ++ q) (replicate_sum exact wild msg)
