-- ===== src/Base/Assoc.antt =====
-- `std::map` from numbers, as the list of its entries; an insertion puts a new key before the first
-- greater one, so the entries stand in the order of the map's iteration.
use Prim.Native.Nat.{ℕ, ◌+◌, ◌≤◌}
use mathlib.Core.Path.{◌≡◌, refl}
use mathlib.Core.List.{List, [], ◌∷◌}
use mathlib.Core.Option.{Option, none, some}
use native.Mathlib.Omega.{arith}
use myip.Base.Tests.{ltb, ◌==◌, if◌then◌else◌}
use myip.Base.Lists.{length}

module _ {ℓ} {V : Type ℓ} where
  abbrev pub find : ℕ → List (ℕ × V) → Option V
  find k [] = none
  find k ((j, v) ∷ m) = if j == k then some v else find k m

  unfoldable pub place : ℕ → V → List (ℕ × V) → List (ℕ × V)
  place k v [] = (k, v) ∷ []
  place k v ((j, w) ∷ m) = if ltb k j then (k, v) ∷ (j, w) ∷ m else (j, w) ∷ place k v m

  -- `insert({ k, v })`: an entry that is there already stays.
  unfoldable pub insert : ℕ → V → List (ℕ × V) → List (ℕ × V)
  insert k v m = elim (find k m) [ none ↦ place k v m | some w ↦ m ]

  -- `erase(k)`
  unfoldable pub erase : ℕ → List (ℕ × V) → List (ℕ × V)
  erase k [] = []
  erase k ((j, w) ∷ m) = let rest = erase k m in if j == k then rest else (j, w) ∷ rest

  -- A change of the value that an entry holds, `it->second = v`.
  unfoldable pub update : ℕ → V → List (ℕ × V) → List (ℕ × V)
  update k v [] = []
  update k v ((j, w) ∷ m) = if j == k then (j, v) ∷ m else (j, w) ∷ update k v m

  find-place :
      (j k : ℕ) (v : V) (m : List (ℕ × V))
      → find k m ≡ none
      → find j (place k v m) ≡ (if k == j then some v else find j m)
  unfolding place
  find-place j k v [] h = refl
  find-place j k v ((i, w) ∷ m) h = ground (arith, find-place j k v m)

  length-place : (k : ℕ) (v : V) (m : List (ℕ × V)) → length (place k v m) ≡ length m + 1
  unfolding place
  length-place k v [] = refl
  length-place k v ((i, w) ∷ m) = ground (arith, length-place k v m)

  pub find-insert :
      (j k : ℕ) (v : V) (m : List (ℕ × V))
      → find k m ≡ none
      → find j (insert k v m) ≡ (if k == j then some v else find j m)
  unfolding insert
  find-insert j k v m h = ground (arith, find-place j k v m)

  pub insert-present : (k : ℕ) (v w : V) (m : List (ℕ × V)) → find k m ≡ some w → insert k v m ≡ m
  unfolding insert
  insert-present k v w m h = ground arith

  pub length-insert : (k : ℕ) (v : V) (m : List (ℕ × V)) → length (insert k v m) ≤ length m + 1
  unfolding insert
  length-insert k v m = ground (arith, length-place k v m)

  pub find-erase :
      (j k : ℕ) (m : List (ℕ × V)) → find j (erase k m) ≡ (if k == j then none else find j m)
  unfolding erase
  find-erase j k [] = ground arith
  find-erase j k ((i, w) ∷ m) = ground (arith, find-erase j k m)

  pub length-erase : (k : ℕ) (m : List (ℕ × V)) → length (erase k m) ≤ length m
  unfolding erase
  length-erase k [] = omega arith
  length-erase k ((i, w) ∷ m) = ground (arith, length-erase k m)

  pub find-update :
      (j k : ℕ) (v w : V) (m : List (ℕ × V))
      → find k m ≡ some w
      → find j (update k v m) ≡ (if k == j then some v else find j m)
  unfolding update
  find-update j k v w [] h = ground arith
  find-update j k v w ((i, u) ∷ m) h = ground (arith, find-update j k v w m)

  pub length-update : (k : ℕ) (v : V) (m : List (ℕ × V)) → length (update k v m) ≡ length m
  unfolding update
  length-update k v [] = refl
  length-update k v ((i, w) ∷ m) = ground (arith, length-update k v m)
