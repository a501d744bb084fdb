-- ===== src/Fifo/View.antt =====
-- The elements that a queue of fifo.h holds, as a list, oldest first, and when its fields agree.
use native.Mathlib.Nat.{mod-add-mod, mod-eq_of_lt, mod-eq-sub-mod}
use myip.Base.{
  ◌/◌, ℕ, zero, suc, ◌+◌, ◌-◌, ◌%◌, ◌^◌, ◌≤◌, ◌<◌, ◌≡◌, ◌≢◌, refl, sym, ◌∙◌, none, some, List, [],
  ◌∷◌, ◌++◌, ◌==◌, get_elem?, set, length, arith, get_elem?-set_self, get_elem?-set_ne,
  get_elem?-some, Bool-cases, inl, inr, leb,
}
use myip.Fifo.{Fifo, make}

-- Going fewer than `n` places round does not come back.
pub away : (n r k : ℕ) → r < n → suc k < n → (r + suc k) % n ≢ r
away n r k hr hk = elim (Bool-cases (leb n (r + suc k))) [
  | inl wraps ↦
      let over : n ≤ r + suc k = ground arith in
      omega (
        arith,
        mod-eq-sub-mod {n = r + suc k} {m = n} over,
        mod-eq_of_lt {n = r + suc k - n} {m = n} (omega arith),
      )
  | inr fits ↦ let inside : r + suc k < n = ground arith in omega (arith, mod-eq_of_lt inside)
]

pub step_pointer : (n r k : ℕ) → ((r + k) % n + 1) % n ≡ (r + (k + 1)) % n
step_pointer n r k = let e : r + k + 1 ≡ r + (k + 1) = omega arith in rw (mod-add-mod, e)

pub round : (n r k : ℕ) → (r + suc k) % n ≡ ((r + 1) % n + k) % n
round n r k = let e : r + suc k ≡ r + 1 + k = omega arith in rw (mod-add-mod, e)

module _ {A : Type 0} where
  -- `k` elements from index `r` on, round the end of the storage.
  abbrev pub held : List A → ℕ → ℕ → ℕ → List A
  held buf n r zero = []
  held buf n r (suc k) =
      let rest = held buf n ((r + 1) % n) k in
      elim (get_elem? buf r) [ none ↦ rest | some x ↦ x ∷ rest ]

  abbrev pub contents : Fifo A → List A
  contents q = held q.data_ q.n_elements q.read_pointer q.n_in

  -- The pointers and the count agree; the capacity is an `int`.
  pub record IsValid (q : Fifo A) : Type 0 where
    pub storage : length q.data_ ≡ q.n_elements
    pub some_room : 0 < q.n_elements
    pub is_int : q.n_elements < 2 ^ 31
    pub read_in : q.read_pointer < q.n_elements
    pub write_at : q.write_pointer ≡ (q.read_pointer + q.n_in) % q.n_elements
    pub counted : q.n_in ≤ q.n_elements
    pub full_iff : q.full ≡ (q.n_in == q.n_elements)
    pub made_for : q.fs.divider ≡ (q.n_elements + 1) / 100

  -- A write just behind the elements that are held adds it to them at the end.
  pub held-set :
      (buf : List A) (n : ℕ) (x : A) (k r i : ℕ)
      → length buf ≡ n
      → r < n
      → k < n
      → i ≡ (r + k) % n
      → held (set buf i x) n r (suc k) ≡ held buf n r k ++ x ∷ []
  held-set buf n x zero r i len hr hk e =
      let e' : r + 0 ≡ r = omega arith in
      let at : i ≡ r = e ∙ rw (e', mod-eq_of_lt hr) in
      ground (arith, at, get_elem?-set_self buf r x)
  held-set buf n x (suc k) r i len hr hk e =
      let far : i ≢ r = rw e (away n r k hr hk) in
      let next : (r + 1) % n < n = grind arith in
      let ih = held-set buf n x k ((r + 1) % n) i len next (omega arith) (e ∙ round n r k) in
      ground (arith, ih, get_elem?-set_ne buf i r x far, get_elem?-some buf r)

  length-held : (buf : List A) (n k r : ℕ) → length buf ≡ n → r < n → length (held buf n r k) ≡ k
  length-held buf n zero r len hr = refl
  length-held buf n (suc k) r len hr =
      let next : (r + 1) % n < n = grind arith in
      ground (arith, get_elem?-some buf r, length-held buf n k ((r + 1) % n) len next)

  -- A new queue is valid and empty, if its storage has as many elements as it says.
  pub make-IsValid :
      (storage : List A) (n : ℕ)
      → length storage ≡ n
      → 0 < n
      → n < 2 ^ 31
      → IsValid (make storage n) × (contents (make storage n) ≡ [])
  unfolding make
  make-IsValid storage n len pos small = (
    record {
      storage = len;
      some_room = pos;
      is_int = small;
      read_in = pos;
      write_at = sym (mod-eq_of_lt pos);
      counted = omega arith;
      full_iff = ground arith;
      made_for = refl;
    },
    refl,
  )

  pub length-contents : {q : Fifo A} → IsValid q → length (contents q) ≡ q.n_in
  length-contents {q} v = length-held q.data_ q.n_elements q.n_in q.read_pointer v.storage v.read_in
