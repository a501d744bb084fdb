-- ===== src/Tests/Queue.antt =====
-- The theorems on the queue at a queue of three elements, two of them in use.
use myip.Fifo.Stats.{fifo_stats}
use myip.Base.{replicate, ℕ, ◌≡◌, refl, false, [], ◌∷◌, arith}
use myip.Fifo.{Fifo, get_loop, try_put}
use myip.Fifo.View.{IsValid}
use myip.Fifo.Refine.{IsTried, observe, oldest, LeavesValid, get_refines, try_put_refines}

abbrev two_held : Fifo ℕ
two_held = record {
  data_ = 20 ∷ 0 ∷ 10 ∷ [];
  n_elements = 3;
  read_pointer = 2;
  write_pointer = 1;
  full = false;
  interrupted = false;
  n_in = 2;
  n_in_stat = 2;
  full_count = 0;
  fs = fifo_stats 3;
}

two_held-IsValid : IsValid two_held
unfolding fifo_stats
two_held-IsValid = record {
  storage = refl;
  some_room = omega arith;
  is_int = omega arith;
  read_in = omega arith;
  write_at = refl;
  counted = omega arith;
  full_iff = refl;
  made_for = refl;
}

get_refines_example :
    (observe (get_loop two_held) ≡ oldest (10 ∷ 20 ∷ [])) × LeavesValid (get_loop two_held)
get_refines_example = get_refines {q = two_held} two_held-IsValid refl

-- A queue of 299 elements: its counters take every number of them.
abbrev roomy : Fifo ℕ
roomy = record (two_held) {
  data_ = replicate 299 10;
  n_elements = 299;
  fs = fifo_stats 299;
  read_pointer = 298;
  write_pointer = 1;
}

roomy-IsValid : IsValid roomy
unfolding fifo_stats
roomy-IsValid = record {
  storage = refl;
  some_room = omega arith;
  is_int = omega arith;
  read_in = omega arith;
  write_at = refl;
  counted = omega arith;
  full_iff = refl;
  made_for = refl;
}

try_put_refines_example : IsTried roomy 30 (try_put roomy 30)
try_put_refines_example = try_put_refines {q = roomy} 30 roomy-IsValid
