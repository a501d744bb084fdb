-- ===== src/Mqtt/Topics.antt =====
-- What holds of the subscriptions of mqtt.cpp whatever messages arrive.
use myip.Base.{ℕ, ◌≡◌, refl, Bool, true, false, List, [], ◌∷◌, ◌==◌, arith, All, if_elim, OnSome}
use myip.Mqtt.{Broker, Sessions, has, erase, remove_all, has_wildcard, unregister_all_topics}
use myip.Mqtt.Messages.{Handled}
use myip.Mqtt.Publish.{IsDistinct}

-- A set without repetitions, under a topic that has a wildcard or has none.
abbrev pub IsEntry : Bool → List ℕ × Sessions → Type 0
IsEntry wild (t, xs) = (has_wildcard t ≡ wild) × IsDistinct xs

-- The sets have no session twice, and the topics with a `#` are exactly those of the second table.
abbrev pub IsBroker : Broker → Type 0
IsBroker b = All (IsEntry false) b.topic_subscriptions × All (IsEntry true) b.topic_wc_subscriptions

has-erase : (x s : ℕ) (xs : Sessions) → has x xs ≡ false → has x (erase s xs) ≡ false
unfolding erase
has-erase x s [] h = refl
has-erase x s (y ∷ xs) h = let ih = has-erase x s xs (ground arith) in ground arith

erase-IsDistinct : (s : ℕ) (xs : Sessions) → IsDistinct xs → IsDistinct (erase s xs)
unfolding erase
erase-IsDistinct s [] d = tt
erase-IsDistinct s (x ∷ xs) (n, d) =
    if_elim IsDistinct (x == s) (λ _. erase-IsDistinct s xs d)
      (λ _. (has-erase x s xs n, erase-IsDistinct s xs d))

remove_all-All :
    (wild : Bool) (s : ℕ) (table : List (List ℕ × Sessions))
    → All (IsEntry wild) table
    → All (IsEntry wild) (remove_all s table)
unfolding remove_all
remove_all-All wild s [] a = tt
remove_all-All wild s ((t, xs) ∷ table) ((w, d), a) =
    ((w, erase-IsDistinct s xs d), remove_all-All wild s table a)

pub unregister_all_topics-IsBroker :
    (s : ℕ) (b : Broker) → IsBroker b → IsBroker (unregister_all_topics s b)
unfolding unregister_all_topics
unregister_all_topics-IsBroker s b (p, q) = (
  remove_all-All false s b.topic_subscriptions p,
  remove_all-All true s b.topic_wc_subscriptions q,
)

abbrev Keeps : Handled → Type 0
Keeps = OnSome (λ (r : Broker × List ℕ). IsBroker r.0)
