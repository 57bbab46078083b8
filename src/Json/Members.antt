-- ===== src/Json/Members.antt =====
-- The members of an object, written by calls on the writer of src/support/BoundedJsonWriter.h.
pub mod Text
use mathlib.Core.List.{append_assoc, append-nil}
use cuddly_train.Base.{
  ℕ, ◌+◌, ◌-◌, ◌<◌, ◌≤◌, ◌≡◌, ◌∙◌, sym, refl, ap, Bool, true, false, not, ◌&&◌, List, [], ◌∷◌, ◌++◌,
  Option, some, none, codes, arith, leb, ltb, ◌==◌, if◌then◌else◌, length, length-append,
  length-set, set, get_or, get_or-set, get_or-set_lt,
}
use cuddly_train.Json.Decimal.{decimal}
use cuddly_train.Json.Escape.{quote}
use cuddly_train.Json.{
  JsonWriter, Step, ◌&&>◌, in_object, add_string, add_uint64, add_bool, begin_object_field,
  end_object,
}
use cuddly_train.Json.Emit.{Fits, add_text}
use cuddly_train.Json.Fields.{prefix_bytes, marked, separator, add_bool-Puts}
use cuddly_train.Json.Chain.{
  after_field, after_open, after_close, string_bytes, number_bytes, open_bytes, string-Emits,
  number-Emits, open-Emits, close-Emits,
}
use cuddly_train.Limits.{board_tx_max_line_bytes}
use cuddly_train.Json.Line.{build_line, build_line_lem, opened, opened-Fits}
use cuddly_train.Json.Value.{
  Value, Members, text, number, boolean, object, nil, member, render, render_first, render_rest,
}

-- The calls that write a value under a name.
unfoldable mutual
  pub write_member : List ℕ → Value → Step
  write_member name (text s) w = add_string (some name) (some s) w
  write_member name (number n) w = add_uint64 (some name) n w
  write_member name (boolean b) w = add_bool (some name) b w
  write_member name (object ms) w =
      begin_object_field (some name) w &&> write_members ms &&> end_object

  pub write_members : Members → Step
  write_members nil w = (true, w)
  write_members (member name v ms) w = write_member name v w &&> write_members ms

-- The states that they lead to.
unfoldable mutual
  pub after_member : List ℕ → Value → JsonWriter → JsonWriter
  after_member name (object ms) w =
      after_close (after_members ms (after_open w (open_bytes w name)))
  after_member name v w = after_field w (prefix_bytes w name ++ render v)

  pub after_members : Members → JsonWriter → JsonWriter
  after_members nil w = w
  after_members (member name v ms) w = after_members ms (after_member name v w)

-- No object of a value is opened when eight are open, where the first of them is opened inside of
-- `depth` objects.
unfoldable mutual
  pub IsWithin : ℕ → Value → Type 0
  IsWithin depth (object ms) = (depth < 8) × AreWithin (depth + 1) ms
  IsWithin depth v = Unit {0}

  pub AreWithin : ℕ → Members → Type 0
  AreWithin depth nil = Unit {0}
  AreWithin depth (member name v ms) = IsWithin depth v × AreWithin depth ms

-- The writer is inside of `depth` objects.
pub record Placed (depth : ℕ) (w : JsonWriter) : Type 0 where
  pub deep : w.depth ≡ depth
  pub inside : 0 < depth
  pub unclosed : w.closed ≡ false
  pub flags : length w.first ≡ 8
  pub bounded : depth ≤ 8

abbrev pub is_first : ℕ → JsonWriter → Bool
is_first depth w = get_or w.first (depth - 1) true

-- `w'` is inside of as many objects, and the outer ones have the flags that they had.
pub record Goes (depth : ℕ) (w w' : JsonWriter) : Type 0 where
  pub placed : Placed depth w'
  pub outer : (i : ℕ) → i + 1 < depth → get_or w'.first i true ≡ get_or w.first i true

pub Placed-in_object : (depth : ℕ) (w : JsonWriter) → Placed depth w → in_object w ≡ true
Placed-in_object depth w p = ground (arith, p.deep, p.inside, p.unclosed)

field-Goes :
    (depth : ℕ) (w : JsonWriter) (bytes : List ℕ)
    → Placed depth w
    → Goes depth w (after_field w bytes)
field-Goes depth w bytes p = record {
  placed = record {
    deep = p.deep;
    inside = p.inside;
    unclosed = p.unclosed;
    flags = length-set w.first (w.depth - 1) false ∙ p.flags;
    bounded = p.bounded;
  };
  outer = λ i h. get_or-set_lt w.first i (w.depth - 1) false true (omega (arith, p.deep, h));
}

field-first :
    (depth : ℕ) (w : JsonWriter) (bytes : List ℕ)
    → Placed depth w
    → is_first depth (after_field w bytes) ≡ false
field-first depth w bytes p = rw⁻¹ (p.deep) (
    get_or-set w.first (w.depth - 1) false true
      (omega (arith, p.deep, p.inside, p.bounded, p.flags)))

pub open-Placed :
    (depth : ℕ) (w : JsonWriter) (bytes : List ℕ)
    → Placed depth w
    → depth < 8
    → Placed (depth + 1) (after_open w bytes)
open-Placed depth w bytes p h = record {
  deep = ap (λ n. n + 1) p.deep;
  inside = omega arith;
  unclosed = p.unclosed;
  flags =
      length-set (marked w).first w.depth true ∙ length-set w.first (w.depth - 1) false ∙ p.flags;
  bounded = omega (arith, h);
}

pub open-first :
    (depth : ℕ) (w : JsonWriter) (bytes : List ℕ)
    → Placed depth w
    → depth < 8
    → is_first (depth + 1) (after_open w bytes) ≡ true
open-first depth w bytes p h = ground (
  arith,
  p.deep,
  p.flags,
  h,
  length-set w.first (w.depth - 1) false,
  get_or-set (set w.first (w.depth - 1) false) w.depth true true,
)

open-outer :
    (depth : ℕ) (w : JsonWriter) (bytes : List ℕ)
    → Placed depth w
    → (i : ℕ) → i + 1 < depth
    → get_or (after_open w bytes).first i true ≡ get_or w.first i true
open-outer depth w bytes p i h =
    get_or-set_lt (set w.first (w.depth - 1) false) i w.depth true true (omega (arith, h, p.deep))
    ∙ get_or-set_lt w.first i (w.depth - 1) false true (omega (arith, h, p.deep))

open-flag :
    (depth : ℕ) (w : JsonWriter) (bytes : List ℕ)
    → Placed depth w
    → get_or (after_open w bytes).first (depth - 1) true ≡ false
open-flag depth w bytes p =
    get_or-set_lt (set w.first (w.depth - 1) false) (depth - 1) w.depth true true
      (omega (arith, p.inside, p.deep))
    ∙ field-first depth w bytes p

close-Placed :
    (depth : ℕ) (w : JsonWriter) → 0 < depth → Placed (depth + 1) w → Placed depth (after_close w)
close-Placed depth w h p = record {
  deep = omega (arith, p.deep);
  inside = h;
  unclosed = ground (arith, p.deep);
  flags = p.flags;
  bounded = omega (arith, p.bounded);
}

mutual
  unfolding after_member after_members IsWithin AreWithin

  pub member-Goes :
      (name : List ℕ) (v : Value) (depth : ℕ) (w : JsonWriter)
      → Placed depth w
      → IsWithin depth v
      → Goes depth w (after_member name v w)
  member-Goes name (text s) depth w p h = field-Goes depth w _ p
  member-Goes name (number n) depth w p h = field-Goes depth w _ p
  member-Goes name (boolean b) depth w p h = field-Goes depth w _ p
  member-Goes name (object ms) depth w p h =
      let opened = after_open w (open_bytes w name) in
      let g =
        members-Goes ms (depth + 1) opened (open-Placed depth w (open_bytes w name) p h.0) h.1 in
      record {
        placed = close-Placed depth (after_members ms opened) p.inside g.placed;
        outer = λ i k. g.outer i (omega (arith, k)) ∙ open-outer depth w (open_bytes w name) p i k;
      }

  pub members-Goes :
      (ms : Members) (depth : ℕ) (w : JsonWriter)
      → Placed depth w
      → AreWithin depth ms
      → Goes depth w (after_members ms w)
  members-Goes nil depth w p h = record { placed = p; outer = λ i k. refl }
  members-Goes (member name v ms) depth w p h =
      let a = member-Goes name v depth w p h.0 in
      let b = members-Goes ms depth (after_member name v w) a.placed h.1 in
      record { placed = b.placed; outer = λ i k. b.outer i k ∙ a.outer i k }

pub member-first :
    (name : List ℕ) (v : Value) (depth : ℕ) (w : JsonWriter)
    → Placed depth w
    → IsWithin depth v
    → is_first depth (after_member name v w) ≡ false
unfolding after_member after_members IsWithin AreWithin
member-first name (text s) depth w p h = field-first depth w (prefix_bytes w name ++ quote s) p
member-first name (number n) depth w p h = field-first depth w (prefix_bytes w name ++ decimal n) p
member-first name (boolean b) depth w p h =
    field-first depth w (prefix_bytes w name ++ (if b then codes "true" else codes "false")) p
member-first name (object ms) depth w p h =
    let opened = after_open w (open_bytes w name) in
    let g =
      members-Goes ms (depth + 1) opened (open-Placed depth w (open_bytes w name) p h.0) h.1 in
    g.outer (depth - 1) (omega (arith, p.inside)) ∙ open-flag depth w (open_bytes w name) p
