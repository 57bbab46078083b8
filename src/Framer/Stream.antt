-- ===== src/Framer/Stream.antt =====
-- The line framer as a splitter of the byte stream. `Stream` is what the client may see: the lines
-- completed and not yet released, the line that grows, and whether an oversized line is skipped.
use cuddly_train.Base.{
  ℕ, suc, ◌+◌, ◌≤◌, ◌<◌, ◌≡◌, ◌∙◌, ap, Bool, true, false, List, [], ◌∷◌, ◌++◌, some, arith, length,
  length-take, length-set, set, take, drop, take-set_ge, take-set_next, take-append_le, ◌==◌, inl,
  inr, ◌-◌, Bool-cases, if◌then◌else◌,
}
use native.Mathlib.Nat.{sub-zero}
use cuddly_train.Counters.{Counters, bump}
use cuddly_train.Framer.{
  Framer, max_payload_bytes, promote_pending_if_possible, complete_accumulated_line, append_byte,
  append_from, append,
}
use cuddly_train.Framer.Invariant.{IsValid, append_byte-IsValid}

pub record Stream : Type 0 where
  pub lines : List (List ℕ)
  pub partial : List ℕ
  pub skipping : Bool
  pub oversized : ℕ

-- What one byte of the stream means.
unfoldable pub feed : ℕ → Stream → Stream
feed b s =
    if s.skipping
    then (if b == b'\n' then record s { skipping = false } else s)
    else if b == b'\n'
    then record s { lines = s.lines ++ (s.partial ∷ []); partial = [] }
    else if length s.partial == max_payload_bytes
    then record s { partial = []; skipping = true; oversized = bump s.oversized }
    else record s { partial = s.partial ++ (b ∷ []) }

unfoldable pub feed_all : List ℕ → Stream → Stream
feed_all [] s = s
feed_all (b ∷ bs) s = feed_all bs (feed b s)

abbrev pub active_lines : Framer → List (List ℕ)
active_lines f = if f.active_ready then take f.active_length f.active_line ∷ [] else []

abbrev pub pending_lines : Framer → List (List ℕ)
pending_lines f = if f.pending_ready then take f.pending_length f.pending_line ∷ [] else []

abbrev pub view : Framer → Counters → Stream
view f c = record {
  lines = active_lines f ++ pending_lines f;
  partial = take f.accumulator_length f.pending_line;
  skipping = f.discard_until_newline;
  oversized = c.oversized_lines;
}

take-store :
    (p : List ℕ) (n b : ℕ)
    → n < length p
    → take (n + 1) (set (set p n b) (n + 1) 0) ≡ take n p ++ (b ∷ [])
take-store p n b h = take-set_ge (n + 1) (n + 1) (set p n b) 0 (omega arith) ∙ take-set_next n p b h

take-promote :
    (a p : List ℕ) (n : ℕ)
    → n < length p
    → take n (take (n + 1) (set p n 0) ++ drop (n + 1) a) ≡ take n p
take-promote a p n h =
    take-append_le n (n + 1) (set p n 0) (drop (n + 1) a) (omega arith)
      (omega (arith, length-set p n 0))
    ∙ take-set_ge n n p 0 (omega arith)

lines_complete :
    (f : Framer)
    → IsValid f
    → f.pending_ready ≡ false
    → active_lines (complete_accumulated_line f) ++ pending_lines (complete_accumulated_line f)
      ≡ (active_lines f ++ pending_lines f) ++ (take f.accumulator_length f.pending_line ∷ [])
unfolding complete_accumulated_line promote_pending_if_possible
lines_complete f v free = ground (
  arith,
  v.acquired_ready,
  take-set_ge f.accumulator_length f.accumulator_length f.pending_line 0,
  take-promote f.active_line f.pending_line f.accumulator_length,
)

partial_complete : (f : Framer) → (complete_accumulated_line f).accumulator_length ≡ 0
unfolding complete_accumulated_line promote_pending_if_possible
partial_complete f = ground arith

skipping_complete :
    (f : Framer) → (complete_accumulated_line f).discard_until_newline ≡ f.discard_until_newline
unfolding complete_accumulated_line promote_pending_if_possible
skipping_complete f = ground arith

view_complete :
    (f : Framer) (c : Counters)
    → IsValid f
    → f.pending_ready ≡ false
    → view (complete_accumulated_line f) c ≡ record (view f c) {
      lines =
          (active_lines f ++ pending_lines f) ++ (take f.accumulator_length f.pending_line ∷ []);
      partial = [];
    }
view_complete f c v free =
    ground (arith, lines_complete f v free, partial_complete f, skipping_complete f)

-- A byte that the framer consumes does to its view what `feed` says.
pub view-append_byte :
    (b : ℕ) (f : Framer) (c : Counters)
    → IsValid f
    → f.pending_ready ≡ false
    → let (f', c') = append_byte b (f, c) in view f' c' ≡ feed b (view f c)
unfolding append_byte feed
view-append_byte b f c v free = ground (
  arith,
  v.pending_size,
  view_complete f c v free,
  length-take f.accumulator_length f.pending_line,
  take-store f.pending_line f.accumulator_length b,
)

-- What a run of the loop of `append` has done: the bytes that it took are those that it counts.
pub record Appended (bytes : List ℕ) (consumed : ℕ) (f : Framer) (c : Counters)
    (out : ℕ × Framer × Counters) : Type 0 where
  pub valid : IsValid out.1
  pub from : consumed ≤ out.0
  pub within : out.0 ≤ consumed + length bytes
  pub seen : view out.1 out.2 ≡ feed_all (take (out.0 - consumed) bytes) (view f c)
  pub stopped : out.0 < consumed + length bytes → out.1.pending_ready ≡ true

feed_all-step :
    (n m b : ℕ) (bs : List ℕ) (s : Stream)
    → n + 1 ≤ m
    → feed_all (take (m - (n + 1)) bs) (feed b s) ≡ feed_all (take (m - n) (b ∷ bs)) s
unfolding feed_all
feed_all-step n m b bs s h = let e : m - n ≡ suc (m - (n + 1)) = omega arith in rw e

append_from-full :
    (b : ℕ) (bs : List ℕ) (n : ℕ) (f : Framer) (c : Counters)
    → f.pending_ready ≡ true
    → append_from (b ∷ bs) n (f, c) ≡ (n, f, c)
unfolding append_from
append_from-full b bs n f c h =
    ap (λ t. if t then (n, f, c) else append_from bs (n + 1) (append_byte b (f, c))) h

append_from-free :
    (b : ℕ) (bs : List ℕ) (n : ℕ) (f : Framer) (c : Counters)
    → f.pending_ready ≡ false
    → append_from (b ∷ bs) n (f, c) ≡ append_from bs (n + 1) (append_byte b (f, c))
unfolding append_from
append_from-free b bs n f c h =
    ap (λ t. if t then (n, f, c) else append_from bs (n + 1) (append_byte b (f, c))) h

sub_self : (n : ℕ) → n - n ≡ 0
sub_self n = omega arith

Appended-stop :
    (bytes : List ℕ) (n : ℕ) (f : Framer) (c : Counters)
    → IsValid f
    → (0 < length bytes → f.pending_ready ≡ true)
    → Appended bytes n f c (n, f, c)
unfolding feed_all
Appended-stop bytes n f c v h = record {
  valid = v;
  from = omega arith;
  within = omega arith;
  seen = rw (sub_self n);
  stopped = λ k. h (omega arith);
}

append_from-Appended :
    (bytes : List ℕ) (n : ℕ) (f : Framer) (c : Counters)
    → IsValid f
    → Appended bytes n f c (append_from bytes n (f, c))
append_from-Appended [] n f c v =
    unfold append_from in Appended-stop [] n f c v (λ h. absurd (omega arith))
append_from-Appended (b ∷ bs) n f c v = elim (Bool-cases f.pending_ready) [
  | inl full ↦ rw (append_from-full b bs n f c full) (Appended-stop (b ∷ bs) n f c v (λ _. full))
  | inr free ↦
      let (f', c') = append_byte b (f, c) in
      let rest = append_from-Appended bs (n + 1) f' c' (append_byte-IsValid b f c v free) in
      rw (append_from-free b bs n f c free) (record {
        valid = rest.valid;
        from = omega (arith, rest.from);
        within = omega (arith, rest.within);
        seen =
            rest.seen
            ∙ ap (feed_all _) (view-append_byte b f c v free)
            ∙ feed_all-step n _ b bs (view f c) rest.from;
        stopped = λ h. rest.stopped (omega arith);
      })
]

-- From a valid framer, `append` takes a prefix of the data, does to the view exactly what the stream semantics does with
-- that prefix, and stops early only when two lines are complete and not yet released; the buffers
-- stay within their bounds.
pub append_refines :
    (bytes : List ℕ) (f : Framer) (c : Counters)
    → IsValid f
    → let (n, f', c') = append (some bytes) (f, c) in
      IsValid f'
      × (n ≤ length bytes)
      × (view f' c' ≡ feed_all (take n bytes) (view f c))
      × (n < length bytes → f'.pending_ready ≡ true)
unfolding append
append_refines bytes f c v =
    let done = append_from-Appended bytes 0 f c v in
    (
      done.valid,
      omega (arith, done.within),
      done.seen ∙ ap (λ k. feed_all (take k bytes) (view f c)) (sub-zero _),
      λ h. done.stopped (omega arith),
    )
