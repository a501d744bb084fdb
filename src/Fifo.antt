-- ===== src/Fifo.antt =====
-- `class fifo` of fifo.h, the queue between the threads of every layer. A method runs under the lock
-- of the queue; where it waits for a condition, it lets the lock go and later runs its loop again.
pub mod View
pub mod Refine
pub mod Stats
use myip.Fifo.Stats.{FifoStats, count, fifo_stats}
use myip.Base.{
  ℕ, zero, suc, ◌+◌, ◌-◌, ◌%◌, ◌^◌, Bool, true, false, not, ◌&&◌, Option, none, some, List, [], ◌∷◌,
  ◌==◌, if◌then◌else◌, get_elem?, set, u64, sub64,
}

-- The fields; `n_in_stat` and `full_count` are the two statistics.
pub record Fifo (A : Type 0) : Type 0 where
  pub data_ : List A
  pub n_elements : ℕ
  pub read_pointer : ℕ
  pub write_pointer : ℕ
  pub full : Bool
  pub interrupted : Bool
  pub n_in : ℕ
  pub n_in_stat : ℕ
  pub full_count : ℕ
  pub fs : FifoStats

-- The constructor: `n_elements` default-constructed elements.
unfoldable pub make : {A : Type 0} → List A → ℕ → Fifo A
unfolding fifo_stats
make storage n_elements = record {
  data_ = storage;
  n_elements = n_elements;
  read_pointer = 0;
  write_pointer = 0;
  full = false;
  interrupted = false;
  n_in = 0;
  n_in_stat = 0;
  full_count = 0;
  fs = fifo_stats n_elements;
}

module _ {A : Type 0} where
  unfoldable pub interrupt : Fifo A → Fifo A
  interrupt q = record q { interrupted = true }

  -- What `put` and `try_put` do once there is room. `none`: `fs->count` divides by zero or goes behind
  -- its counters.
  unfoldable pub store : Fifo A → A → Option (Fifo A)
  unfolding count
  store q element =
      let w = (q.write_pointer + 1) % q.n_elements in
      let n = u64 (q.n_in + 1) in
      elim (count q.fs n) [
        | none ↦ none
        | some fs ↦ some (record q {
          data_ = set q.data_ q.write_pointer element;
          write_pointer = w;
          n_in = n;
          fs = fs;
          n_in_stat = n;
          full = w == q.read_pointer;
        })
      ]

  abbrev pub count_full : Fifo A → Fifo A
  count_full q = if q.full then record q { full_count = q.full_count + 1 } else q

  unfoldable pub try_put : Fifo A → A → Option (Bool × Fifo A)
  try_put q element =
      if q.full
      then some (false, count_full q)
      else elim (store q element) [ none ↦ none | some q' ↦ some (true, q') ]

  -- The loop of `put`: `none` while it waits.
  unfoldable pub put_loop : Fifo A → A → Option (Option (Fifo A))
  put_loop q element = if q.full then none else some (store q element)

  abbrev pub is_empty : Fifo A → Bool
  is_empty q = q.read_pointer == q.write_pointer && not q.full

  -- What `get` does with an element that is there; a read out of range has no element.
  unfoldable pub fetch : Fifo A → Option A × Fifo A
  fetch q = (
    get_elem? q.data_ q.read_pointer,
    record q {
      read_pointer = (q.read_pointer + 1) % q.n_elements;
      n_in = sub64 q.n_in 1;
      full = false;
    },
  )

  -- `get()`: `none` while it waits; an interrupted queue gives nothing.
  unfoldable pub get_loop : Fifo A → Option (Option A × Fifo A)
  get_loop q =
      if is_empty q && not q.interrupted
      then none
      else if q.interrupted
      then some (none, q)
      else some (fetch q)

  -- `get(ms)`: the same, but a wait that times out ends it with nothing.
  unfoldable pub get_timed : Fifo A → Bool → Option (Option A × Fifo A)
  get_timed q timed_out =
      if is_empty q && not q.interrupted
      then (if timed_out then some (none, q) else none)
      else if q.interrupted
      then some (none, q)
      else some (fetch q)
