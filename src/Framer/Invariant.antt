-- ===== src/Framer/Invariant.antt =====
-- The representation invariant of the line framer: no access out of bounds.
use cuddly_train.Base.{
  ℕ, ◌+◌, ◌≤◌, ◌<◌, ◌≡◌, true, false, List, ◌++◌, arith, length, length-set, length-append,
  length-take, length-drop, set, take, drop,
}
use cuddly_train.Counters.{Counters}
use cuddly_train.Framer.{
  Framer, init, complete_accumulated_line, acquire_line, release_line, close_session,
  discard_partial_line, append_byte,
}

pub record IsValid (f : Framer) : Type 0 where
  pub active_size : length f.active_line ≡ 1024
  pub pending_size : length f.pending_line ≡ 1024
  pub active_fits : f.active_length < 1024
  pub pending_fits : f.pending_length < 1024
  pub accumulator_fits : f.accumulator_length < 1024
  pub acquired_ready : f.active_acquired ≡ true → f.active_ready ≡ true
  pub waiting_ready : f.pending_ready ≡ true → f.active_ready ≡ true
  pub waiting_whole : f.pending_ready ≡ true → f.accumulator_length ≡ 0
  pub waiting_kept : f.pending_ready ≡ true → f.discard_until_newline ≡ false

length-memcpy :
    (dst src : List ℕ) (n : ℕ)
    → n ≤ length src
    → n ≤ length dst
    → length (take n src ++ drop n dst) ≡ length dst
length-memcpy dst src n h k =
    omega (arith, length-append (take n src) (drop n dst), length-take n src, length-drop n dst)

pub init-IsValid : IsValid init
unfolding init
init-IsValid = ground arith

complete-IsValid :
    (f : Framer)
    → IsValid f
    → f.discard_until_newline ≡ false
    → IsValid (complete_accumulated_line f)
unfolding complete_accumulated_line
complete-IsValid f v k = ground (
  arith,
  v.active_size,
  v.pending_size,
  v.accumulator_fits,
  length-memcpy f.active_line (set f.pending_line f.accumulator_length 0)
      (f.accumulator_length + 1),
  length-set f.pending_line f.accumulator_length 0,
  length-set (set f.pending_line f.accumulator_length 0) 0 0,
)

-- Every operation keeps the buffers at their size and all lengths within them.
pub append_byte-IsValid :
    (b : ℕ) (f : Framer) (c : Counters)
    → IsValid f
    → f.pending_ready ≡ false
    → IsValid (append_byte b (f, c)).0
unfolding append_byte
append_byte-IsValid b f c v free = ground (
  arith,
  v.active_size,
  v.pending_size,
  v.accumulator_fits,
  complete-IsValid f v,
  length-set f.pending_line 0 0,
  length-set f.pending_line f.accumulator_length b,
  length-set (set f.pending_line f.accumulator_length b) (f.accumulator_length + 1) 0,
)

pub acquire-IsValid : (f : Framer) → IsValid f → IsValid (acquire_line f).1
unfolding acquire_line
acquire-IsValid f v = ground arith

pub release-IsValid : (f : Framer) → IsValid f → IsValid (release_line f)
unfolding release_line
release-IsValid f v = ground (
  arith,
  v.active_size,
  v.pending_size,
  length-set f.active_line 0 0,
  length-set f.pending_line 0 0,
  length-memcpy (set f.active_line 0 0) f.pending_line (f.pending_length + 1),
)

pub close-IsValid : (f : Framer) → IsValid f → IsValid (close_session f)
unfolding close_session
close-IsValid f v = ground (
  arith,
  v.active_size,
  v.pending_size,
  length-set f.active_line 0 0,
  length-set f.pending_line 0 0,
)

pub discard-IsValid : (f : Framer) → IsValid f → IsValid (discard_partial_line f)
unfolding discard_partial_line
discard-IsValid f v = ground (arith, length-set f.pending_line 0 0)
