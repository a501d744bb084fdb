-- ===== src/Fifo/Refine.antt =====
-- The queue of fifo.h against a list of at most `n_elements` elements, oldest first.
use myip.Fifo.Stats.{FifoStats, count-taken, count-none, count-some}
use native.Mathlib.Nat.{mod-eq_of_lt, mod-eq-sub-mod}
use myip.Base.{
  sym, Bool, true, ◌/◌, ◌*◌, ℕ, zero, suc, ◌+◌, ◌-◌, ◌%◌, ◌≤◌, ◌<◌, ◌≡◌, refl, ap, ◌∙◌, false, not,
  ◌&&◌, ◌⊎◌, Option, none, some, List, [], ◌∷◌, ◌++◌, ◌==◌, if◌then◌else◌, set, length, arith,
  length-set, get_elem?-some, Bool-cases, inl, inr, u64, sub64, ltb,
}
use myip.Fifo.{Fifo, interrupt, store, try_put, put_loop, fetch, get_loop, is_empty}
use myip.Fifo.View.{away, step_pointer, round, held, contents, IsValid, held-set, length-contents}

-- When the pointers meet, the queue is full or empty.
meet : (n r k : ℕ) → r < n → k ≤ n → (r + k) % n ≡ r → (k ≡ 0) ⊎ (k ≡ n)
meet n r zero hr hk e = inl refl
meet n r (suc k) hr hk e = elim (Bool-cases (suc k == n)) [
  | inl full ↦ inr (ground arith)
  | inr less ↦ absurd (away n r k hr (ground arith) e)
]

turn : (n r : ℕ) → r < n → (r + n) % n ≡ r
turn n r hr =
    let over : n ≤ r + n = omega arith in
    let back : r + n - n ≡ r = omega arith in
    mod-eq-sub-mod {n = r + n} {m = n} over ∙ rw (back, mod-eq_of_lt hr)

module _ {A : Type 0} where
  meets_iff :
      (q : Fifo A) (k : ℕ)
      → IsValid q
      → k ≤ q.n_elements
      → 0 < k
      → ((q.read_pointer + k) % q.n_elements == q.read_pointer) ≡ (k == q.n_elements)
  meets_iff q k v hk pos =
      let m = meet q.n_elements q.read_pointer k v.read_in hk in
      let t = turn q.n_elements q.read_pointer v.read_in in ground (arith, m, t)

  room : {q : Fifo A} → IsValid q → q.full ≡ false → q.n_in < q.n_elements
  room {q} v e = ground (arith, v.counted, v.full_iff)

  -- What a queue is after an element has been stored.
  abbrev stored : Fifo A → A → FifoStats → Fifo A
  stored q x fs = record q {
    data_ = set q.data_ q.write_pointer x;
    write_pointer = (q.write_pointer + 1) % q.n_elements;
    n_in = u64 (q.n_in + 1);
    fs = fs;
    n_in_stat = u64 (q.n_in + 1);
    full = (q.write_pointer + 1) % q.n_elements == q.read_pointer;
  }

  store-contents :
      {q : Fifo A} (x : A) (fs : FifoStats)
      → IsValid q
      → q.full ≡ false
      → contents (stored q x fs) ≡ contents q ++ x ∷ []
  store-contents {q} x fs v e =
      let below : q.n_in < q.n_elements = room v e in
      let count : u64 (q.n_in + 1) ≡ suc q.n_in = omega (arith, v.is_int) in
      ap (λ k. held (set q.data_ q.write_pointer x) q.n_elements q.read_pointer k) count
      ∙ held-set q.data_ q.n_elements x q.n_in q.read_pointer q.write_pointer v.storage v.read_in
          below v.write_at

  store-IsValid :
      {q : Fifo A} (x : A) (fs : FifoStats)
      → IsValid q
      → q.full ≡ false
      → fs.divider ≡ q.fs.divider
      → IsValid (stored q x fs)
  store-IsValid {q} x fs v e same =
      let below : q.n_in < q.n_elements = room v e in
      let count : u64 (q.n_in + 1) ≡ q.n_in + 1 = omega (arith, v.is_int) in
      let w : (q.write_pointer + 1) % q.n_elements
          ≡ (q.read_pointer + (q.n_in + 1)) % q.n_elements =
        rw v.write_at (step_pointer q.n_elements q.read_pointer q.n_in) in
      record {
        storage = length-set q.data_ q.write_pointer x ∙ v.storage;
        some_room = v.some_room;
        is_int = v.is_int;
        read_in = v.read_in;
        write_at = rw count w;
        counted = omega arith;
        full_iff = rw (count, w) (meets_iff q (q.n_in + 1) v (omega arith) (omega arith));
        made_for = same ∙ v.made_for;
      }

  -- There is room, but the number of elements does not fit the counters of `fs`.
  abbrev pub miscounts : Fifo A → Bool
  miscounts q =
      ltb (length (contents q)) q.n_elements
      && not (ltb (length (contents q) + 1) (100 * ((q.n_elements + 1) / 100)))

  -- What a call of `try_put` comes to.
  abbrev pub IsTried : Fifo A → A → Option (Bool × Fifo A) → Type 0
  IsTried q x none = miscounts q ≡ true
  IsTried q x (some (taken, q')) =
      (miscounts q ≡ false)
      × (taken ≡ ltb (length (contents q)) q.n_elements)
      × (contents q' ≡ (if taken then contents q ++ x ∷ [] else contents q))
      × IsValid q'

  try_put-stored : (q : Fifo A) (x : A) → q.full ≡ false → IsValid q → IsTried q x (try_put q x)
  unfolding try_put store
  try_put-stored q x e v =
      let size = length-contents v in
      let n : u64 (q.n_in + 1) ≡ q.n_in + 1 = omega (arith, v.is_int, v.counted) in
      let below = room v e in
      elim (count-taken q.fs (u64 (q.n_in + 1))) [
        | inl no' ↦
            let over = count-none q.fs (u64 (q.n_in + 1)) no' in
            rw (e, no') (ground (arith, size, n, below, over, v.made_for))
        | inr (counters, yes') ↦
            let fs : FifoStats = record q.fs { counters = counters } in
            let under = count-some q.fs fs (u64 (q.n_in + 1)) yes' in
            rw (e, yes')
              (
                ground (arith, size, n, below, under, v.made_for),
                ground (arith, size, below),
                store-contents x fs v e,
                store-IsValid x fs v e refl,
              )
      ]

  -- `try_put` on a valid queue takes the element exactly if there is room: it is then the youngest
  -- one, behind those that were there; else the contents stay. The queue stays valid. It fails, in
  -- `fs->count`, exactly if there is room and the number of elements with the new one reaches the
  -- largest multiple of 100 that is at most one more than the size of the queue.
  pub try_put_refines : {q : Fifo A} (x : A) → IsValid q → IsTried q x (try_put q x)
  unfolding try_put
  try_put_refines {q} x v = elim (Bool-cases q.full) [
    | inl e ↦
        let size = length-contents v in
        let all_held : q.n_in ≡ q.n_elements = ground (arith, v.full_iff) in
        rw e (
          ground (arith, size, all_held),
          ground (arith, size, all_held),
          refl,
          record {
            storage = v.storage;
            some_room = v.some_room;
            is_int = v.is_int;
            read_in = v.read_in;
            write_at = v.write_at;
            counted = v.counted;
            full_iff = sym e ∙ v.full_iff;
            made_for = v.made_for;
          },
        )
    | inr e ↦ try_put-stored q x e v
  ]

  -- `put` on a valid queue waits exactly while there is no room.
  pub put_refines :
      {q : Fifo A} (x : A)
      → IsValid q
      → put_loop q x ≡ (if ltb (length (contents q)) q.n_elements then some (store q x) else none)
  unfolding put_loop
  put_refines {q} x v = elim (Bool-cases q.full) [
    | inl e ↦ ground (arith, e, v, length-contents v)
    | inr e ↦ ground (arith, e, v, length-contents v)
  ]

  is_empty_iff : {q : Fifo A} → IsValid q → is_empty q ≡ (q.n_in == 0)
  is_empty_iff {q} v =
      let m = meet q.n_elements q.read_pointer q.n_in v.read_in v.counted in
      let t = turn q.n_elements q.read_pointer v.read_in in
      let z : (q.read_pointer + 0) % q.n_elements ≡ q.read_pointer = plus_none in
      ground (arith, v, m, t, z)
    where
      plus_none : (q.read_pointer + 0) % q.n_elements ≡ q.read_pointer
      plus_none =
          let e : q.read_pointer + 0 ≡ q.read_pointer = omega arith in
          rw (e, mod-eq_of_lt v.read_in)

  -- The oldest element of a list and the others; nothing of an empty one.
  abbrev pub oldest : List A → Option (Option A × List A)
  oldest [] = none
  oldest (x ∷ xs) = some (some x, xs)

  -- What a caller sees of a call of `get`: nothing while it waits, else the element and the contents.
  abbrev pub observe : Option (Option A × Fifo A) → Option (Option A × List A)
  observe none = none
  observe (some (x, q)) = some (x, contents q)

  -- The queue that a call of `get` leaves, if it returns, is valid.
  abbrev pub LeavesValid : Option (Option A × Fifo A) → Type 0
  LeavesValid none = Unit
  LeavesValid (some (x, q)) = IsValid q

  fetch-contents :
      {q : Fifo A} (k : ℕ)
      → IsValid q
      → q.n_in ≡ suc k
      → oldest (contents q) ≡ some ((fetch q).0, contents (fetch q).1)
  unfolding fetch
  fetch-contents {q} k v e =
      let there = get_elem?-some q.data_ q.read_pointer (rw v.storage v.read_in) in
      let less : sub64 q.n_in 1 ≡ k = omega (arith, e, v.counted, v.is_int) in
      let whole : contents q ≡ held q.data_ q.n_elements q.read_pointer (suc k) =
        ap (held q.data_ q.n_elements q.read_pointer) e in
      let shorter : contents (fetch q).1
          ≡ held q.data_ q.n_elements ((q.read_pointer + 1) % q.n_elements) k =
        ap (held q.data_ q.n_elements ((q.read_pointer + 1) % q.n_elements)) less in
      ap oldest whole ∙ ground (arith, there, shorter)

  fetch-IsValid : {q : Fifo A} (k : ℕ) → IsValid q → q.n_in ≡ suc k → IsValid (fetch q).1
  unfolding fetch
  fetch-IsValid {q} k v e =
      let less : sub64 q.n_in 1 ≡ k = omega (arith, e, v.counted, v.is_int) in
      record {
        storage = v.storage;
        some_room = v.some_room;
        is_int = v.is_int;
        read_in = let pos : 0 < q.n_elements = v.some_room in grind arith;
        write_at = rw less (
            v.write_at
            ∙ ap (λ n. (q.read_pointer + n) % q.n_elements) e
            ∙ round q.n_elements q.read_pointer k);
        counted = omega (arith, e, v.counted);
        full_iff = rw less (ground (arith, e, v));
        made_for = v.made_for;
      }

  -- `get` on a valid queue that is not interrupted waits exactly while the queue is empty, and else
  -- returns the oldest element and leaves the others in their order. The queue stays valid.
  pub get_refines :
      {q : Fifo A}
      → IsValid q
      → q.interrupted ≡ false
      → (observe (get_loop q) ≡ oldest (contents q)) × LeavesValid (get_loop q)
  unfolding get_loop
  get_refines {q} v going = by_count q.n_in refl
    where
      by_count :
          (n : ℕ)
          → q.n_in ≡ n
          → (observe (
                if is_empty q && not q.interrupted
                then none
                else if q.interrupted
                then some (none, q)
                else some (fetch q))
              ≡ oldest (contents q))
            × LeavesValid (
                if is_empty q && not q.interrupted
                then none
                else if q.interrupted
                then some (none, q)
                else some (fetch q))
      by_count zero e = ground (arith, e, going, is_empty_iff v)
      by_count (suc k) e =
          ground (arith, e, going, is_empty_iff v, fetch-contents k v e, fetch-IsValid k v e)

  -- An interrupted queue, empty or not, gives nothing and loses nothing.
  pub get_interrupted : (q : Fifo A) → get_loop (interrupt q) ≡ some (none, interrupt q)
  unfolding get_loop interrupt
  get_interrupted q = ground arith
