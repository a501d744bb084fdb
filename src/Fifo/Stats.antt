-- ===== src/Fifo/Stats.antt =====
-- `class fifo_stats` of fifo_stats.h and fifo_stats.cpp: how often a queue held how many elements.
-- The queues of the program are made for 128 or 256 elements.
use myip.Base.{
  ◌⊎◌, Bool-cases, inl, inr, refl, ℕ, zero, ◌+◌, ◌*◌, ◌/◌, ◌%◌, ◌≤◌, ◌<◌, ◌≡◌, ◌↔◌, ◌≢◌, ◌||◌, not,
  Option, none, some, List, ◌==◌, ltb, if◌then◌else◌, set, get_or, replicate, arith,
}
use native.Mathlib.Nat.{div-lt_iff_lt-mul}

abbrev pub up_size : ℕ
up_size = 100

pub record FifoStats : Type 0 where
  pub counters : List ℕ
  pub divider : ℕ

unfoldable pub fifo_stats : ℕ → FifoStats
fifo_stats range_max = record {
  counters = replicate up_size 0;
  divider = (range_max + 1) / up_size;
}

-- `count`: `none` is a division by zero or a counter behind the array.
unfoldable pub count : FifoStats → ℕ → Option FifoStats
count s value =
    let i = value / s.divider in
    if s.divider == 0 || not (ltb i up_size)
    then none
    else some (record s { counters = set s.counters i (get_or s.counters i 0 + 1) })

below : (n v d : ℕ) → zero < d → (v / d < n) ↔ (v < n * d)
below n v d h = div-lt_iff_lt-mul h

-- The counters take a value exactly if it is below a hundred times the divider.
pub count-taken :
    (s : FifoStats) (value : ℕ)
    → (count s value ≡ none)
      ⊎ ((counters : List ℕ) × (count s value ≡ some (record s { counters = counters })))
unfolding count
count-taken s value = elim (Bool-cases (s.divider == 0 || not (ltb (value / s.divider) up_size))) [
  | inl e ↦ inl (ground arith)
  | inr e ↦
      let i = value / s.divider in inr (set s.counters i (get_or s.counters i 0 + 1), rw e refl)
]

pub count-none : (s : FifoStats) (value : ℕ) → count s value ≡ none → up_size * s.divider ≤ value
unfolding count
count-none s value h = elim (Bool-cases (s.divider == 0)) [
  | inl z ↦ ground arith
  | inr nz ↦ let k = below up_size value s.divider (ground arith) in ground (arith, k)
]

pub count-some :
    (s s' : FifoStats) (value : ℕ) → count s value ≡ some s' → value < up_size * s.divider
unfolding count
count-some s s' value h = elim (Bool-cases (s.divider == 0)) [
  | inl z ↦ ground arith
  | inr nz ↦ let k = below up_size value s.divider (ground arith) in ground (arith, k)
]

IsCounted : ℕ → Type 0
IsCounted range_max = (value : ℕ) → value ≤ range_max → count (fifo_stats range_max) value ≢ none

counted :
    (s : FifoStats) (value : ℕ)
    → (count s value ≢ none) ↔ ((zero < s.divider) × (value / s.divider < up_size))
unfolding count
counted s value = ground arith

-- All counts up to the range are inside the array exactly if the range and 1 make a multiple of 100
-- that is not 0.
count-in_range_iff :
    (range_max : ℕ)
    → ((value : ℕ) → value ≤ range_max → count (fifo_stats range_max) value ≢ none)
      ↔ ((range_max + 1) % up_size ≡ 0)
unfolding fifo_stats
count-in_range_iff range_max = (
  λ all.
      let h = (counted (fifo_stats range_max) range_max).0 (all range_max (omega arith)) in
      let k = (below up_size range_max ((range_max + 1) / up_size) h.0).0 h.1 in ground arith,
  λ e value h.
      let pos : zero < (range_max + 1) / up_size = omega arith in
      (counted (fifo_stats range_max) value).1
        (pos, (below up_size value ((range_max + 1) / up_size) pos).1 (omega arith)),
)
