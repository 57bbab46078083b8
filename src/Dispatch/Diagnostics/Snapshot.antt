-- ===== src/Dispatch/Diagnostics/Snapshot.antt =====
-- The size of the snapshot of src/core/DiagnosticsCommand.h.
use cuddly_train.Base.{
  ℕ, ◌+◌, ◌-◌, ◌≤◌, ◌≡◌, ◌∙◌, refl, ap, Bool, true, false, not, ◌&&◌, List, [], ◌∷◌, ◌++◌, some,
  codes, arith, if◌then◌else◌, length, length-append, str_eq, get_or,
}
use cuddly_train.Counters.{Counters}
use cuddly_train.Json.Decimal.{decimal, length-decimal}
use cuddly_train.Json.Escape.{quote, escape, escape_byte}
use cuddly_train.Json.{
  JsonWriter, in_object, new, begin_object, reserve_tail_bytes, append_bytes, remaining,
}
use cuddly_train.Json as Json
use cuddly_train.Json.Emit.{add_text}
use cuddly_train.Json.Fields.{add_uint64-Puts, prefix_bytes, marked, separator}
use cuddly_train.Result.{
  ObjectWriter, new_object, add, add_uint64, allowed, ok_result, CommandResult,
}
use cuddly_train.Dispatch.Diagnostics.{
  snapshot_members, write_all, write_snapshot, handle_diagnostics,
}

-- Names that the object writer takes.
abbrev are_allowed : List (List ℕ × ℕ) → Bool
are_allowed [] = true
are_allowed ((name, value) ∷ ms) = not (str_eq name (codes "board_proc_us")) && are_allowed ms

-- A bound of the text of the members.
abbrev needed : List (List ℕ × ℕ) → ℕ
needed [] = 0
needed ((name, value) ∷ ms) = length (quote name) + 22 + needed ms

length-member :
    (w : JsonWriter) (name : List ℕ) (value : ℕ)
    → length (prefix_bytes w name ++ decimal value) ≤ length (quote name) + 22
length-member w name value = omega (
  arith,
  length-decimal value,
  length-separator (get_or w.first (w.depth - 1) true),
  length-append (prefix_bytes w name) (decimal value),
  length-append (separator w ++ quote name) (b':' ∷ []),
  length-append (separator w) (quote name),
)
  where
    length-separator : (b : Bool) → length {A = ℕ} (if b then [] else b',' ∷ []) ≤ 1
    length-separator true = omega arith
    length-separator false = omega arith

-- An object writer that takes members.
record IsReady (o : ObjectWriter) : Type 0 where
  not_closed : o.closed ≡ false
  inside : in_object o.writer ≡ true

write_all-succeeds :
    (ms : List (List ℕ × ℕ)) (o : ObjectWriter)
    → IsReady o
    → are_allowed ms ≡ true
    → length o.writer.text + needed ms + o.writer.tail_reserve ≤ o.writer.capacity
    → (write_all ms o).0 ≡ true
unfolding write_all add_uint64 add
write_all-succeeds [] o r a h = refl
write_all-succeeds ((name, value) ∷ ms) o r a h =
    let w = o.writer in
    let bytes = prefix_bytes w name ++ decimal value in
    let out = Json.add_uint64 (some name) value w in
    let p = add_uint64-Puts name value w (record { room = omega (arith, h) }) r.inside in
    let yes : out.0 ≡ true = ground (arith, p.exactly, h, length-member w name value) in
    let next : out.1 ≡ add_text (marked w) bytes = p.put yes in
    let taken : allowed (some name) o ≡ true = ground (arith, r.not_closed, a) in
    let rest =
      write_all-succeeds ms (record o { writer = out.1 })
        (record { not_closed = r.not_closed; inside = ap in_object next ∙ r.inside })
        (ground (arith, a))
        (rw next (omega (arith, h, length-append w.text bytes, length-member w name value))) in
    rw (taken, yes) rest

are_allowed-snapshot_members : (c : Counters) → are_allowed (snapshot_members c) ≡ true
unfolding str_eq
are_allowed-snapshot_members c = refl

needed-snapshot_members : (c : Counters) → needed (snapshot_members c) ≤ 1600
unfolding escape escape_byte
needed-snapshot_members c = omega arith

new_object-IsReady : IsReady new_object
unfolding new_object new begin_object reserve_tail_bytes append_bytes remaining
new_object-IsReady = record { not_closed = refl; inside = refl }

new_object-room :
    length new_object.writer.text + 1600 + new_object.writer.tail_reserve
    ≤ new_object.writer.capacity
unfolding new_object new begin_object reserve_tail_bytes append_bytes remaining
new_object-room = omega arith

write_snapshot-succeeds : (c : Counters) → (write_snapshot c new_object).0 ≡ true
unfolding write_snapshot
write_snapshot-succeeds c =
    write_all-succeeds (snapshot_members c) new_object new_object-IsReady
      (are_allowed-snapshot_members c) (omega (arith, needed-snapshot_members c, new_object-room))

unless_written :
    (b : Bool) (x y : CommandResult × ObjectWriter)
    → b ≡ true
    → (let out : CommandResult × ObjectWriter = if not b then x else y in out.0 ≡ y.0)
unless_written true x y h = refl
unless_written false x y h = cc

-- A snapshot of any values of the counters fits the result of a command, so that the diagnostics
-- command, once it has its counters, always succeeds.
pub handle_diagnostics_lem : (c : Counters) → (handle_diagnostics (some c) new_object).0 ≡ ok_result
unfolding handle_diagnostics
handle_diagnostics_lem c =
    let (written, result) = write_snapshot c new_object in
    unless_written written _ (ok_result, result) (write_snapshot-succeeds c)
