-- ===== src/Json/Members/Text.antt =====
-- The text that the calls on the writer of src/support/BoundedJsonWriter.h emit for an object.
use mathlib.Core.List.{append_assoc, append-nil}
use cuddly_train.Base.{
  ℕ, ◌+◌, ◌≡◌, ◌∙◌, sym, refl, Bool, true, false, List, [], ◌∷◌, ◌++◌, some, none, codes, arith,
  leb, if◌then◌else◌, length, length-append,
}
use cuddly_train.Json.Decimal.{decimal}
use cuddly_train.Json.Escape.{quote}
use cuddly_train.Json.{JsonWriter, Step, ◌&&>◌, in_object, add_bool, begin_object_field, end_object}
use cuddly_train.Json.Emit.{Fits}
use cuddly_train.Json.Fields.{prefix_bytes, add_bool-Puts}
use cuddly_train.Json.Chain.{
  Emits, Emits-then, IsBehind, IsBehind-then, after_field, after_open, after_close, open_bytes,
  string-Emits, number-Emits, open-Emits, close-Emits,
}
use cuddly_train.Limits.{board_tx_max_line_bytes}
use cuddly_train.Json.Line.{build_line, build_line_lem, opened, opened-Fits}
use cuddly_train.Json.Value.{
  Value, Members, text, number, boolean, object, nil, member, render, render_first, render_rest,
}
use cuddly_train.Json.Members.{
  write_member, write_members, after_member, after_members, IsWithin, AreWithin, Placed, is_first,
  Placed-in_object, open-Placed, open-first, member-Goes, members-Goes, member-first,
}

-- The text of a member, of the first one with no comma.
abbrev prefix_of : Bool → List ℕ → List ℕ
prefix_of first name = ((if first then [] else b',' ∷ []) ++ quote name) ++ (b':' ∷ [])

abbrev member_bytes : Bool → List ℕ → Value → List ℕ
member_bytes first name v = prefix_of first name ++ render v

abbrev members_bytes : Bool → Members → List ℕ
members_bytes true ms = render_first ms
members_bytes false ms = render_rest ms

members_bytes-member :
    (first : Bool) (name : List ℕ) (v : Value) (ms : Members)
    → member_bytes first name v ++ members_bytes false ms ≡ members_bytes first (member name v ms)
unfolding render
members_bytes-member true name v ms = simp append_assoc refl
members_bytes-member false name v ms = simp append_assoc refl

object_bytes :
    (first : Bool) (name : List ℕ) (ms : Members)
    → ((prefix_of first name ++ (b'{' ∷ [])) ++ render_first ms) ++ (b'}' ∷ [])
      ≡ member_bytes first name (object ms)
unfolding render
object_bytes first name ms = simp append_assoc refl

members_bytes-nil : (first : Bool) → members_bytes first nil ≡ []
unfolding render
members_bytes-nil true = refl
members_bytes-nil false = refl

prefix_bytes-of :
    (depth : ℕ) (first : Bool) (w : JsonWriter) (name : List ℕ)
    → Placed depth w
    → is_first depth w ≡ first
    → prefix_bytes w name ≡ prefix_of first name
prefix_bytes-of depth first w name p e = rw (p.deep, e) refl

field-IsBehind :
    (depth : ℕ) (first : Bool) (w : JsonWriter) (name bytes : List ℕ)
    → Placed depth w
    → is_first depth w ≡ first
    → IsBehind (prefix_of first name ++ bytes) w (after_field w (prefix_bytes w name ++ bytes))
field-IsBehind depth first w name bytes p e =
    rw⁻¹ (prefix_bytes-of depth first w name p e)
      (record { text_next = refl; capacity_next = refl; reserve_next = refl })

open-IsBehind :
    (depth : ℕ) (first : Bool) (w : JsonWriter) (name : List ℕ)
    → Placed depth w
    → is_first depth w ≡ first
    → IsBehind (prefix_of first name ++ (b'{' ∷ [])) w (after_open w (open_bytes w name))
open-IsBehind depth first w name p e =
    rw⁻¹ (prefix_bytes-of depth first w name p e)
      (record { text_next = refl; capacity_next = refl; reserve_next = refl })

mutual
  unfolding after_member after_members IsWithin AreWithin render

  member-IsBehind :
      (name : List ℕ) (v : Value) (depth : ℕ) (first : Bool) (w : JsonWriter)
      → Placed depth w
      → is_first depth w ≡ first
      → IsWithin depth v
      → IsBehind (member_bytes first name v) w (after_member name v w)
  member-IsBehind name (text s) depth first w p e h =
      field-IsBehind depth first w name (quote s) p e
  member-IsBehind name (number n) depth first w p e h =
      field-IsBehind depth first w name (decimal n) p e
  member-IsBehind name (boolean b) depth first w p e h =
      field-IsBehind depth first w name (if b then codes "true" else codes "false") p e
  member-IsBehind name (object ms) depth first w p e h =
      let bytes = open_bytes w name in
      let opened = after_open w bytes in
      let open_prefix = prefix_of first name ++ (b'{' ∷ []) in
      let placed = open-Placed depth w bytes p h.0 in
      rw⁻¹ (object_bytes first name ms) (
        IsBehind-then (open_prefix ++ render_first ms) (b'}' ∷ []) w (after_members ms opened) _
          (IsBehind-then open_prefix (render_first ms) w opened (after_members ms opened)
            (open-IsBehind depth first w name p e)
            (members-IsBehind ms (depth + 1) true opened placed (open-first depth w bytes p h.0)
              h.1))
          (record { text_next = refl; capacity_next = refl; reserve_next = refl }))

  members-IsBehind :
      (ms : Members) (depth : ℕ) (first : Bool) (w : JsonWriter)
      → Placed depth w
      → is_first depth w ≡ first
      → AreWithin depth ms
      → IsBehind (members_bytes first ms) w (after_members ms w)
  members-IsBehind nil depth first w p e h =
      rw (members_bytes-nil first)
        (record { text_next = sym (append-nil w.text); capacity_next = refl; reserve_next = refl })
  members-IsBehind (member name v ms) depth first w p e h =
      let next = after_member name v w in
      let g = member-Goes name v depth w p h.0 in
      rw⁻¹ (members_bytes-member first name v ms) (
        IsBehind-then (member_bytes first name v) (members_bytes false ms) w next
          (after_members ms next) (member-IsBehind name v depth first w p e h.0)
          (members-IsBehind ms depth false next g.placed (member-first name v depth w p h.0) h.1))

nil-Emits : (w : JsonWriter) → Fits w → Emits [] w w (true, w)
nil-Emits w f = record {
  exactly = ground (arith, f.room);
  done = λ _. refl;
  behind = record {
    text_next = sym (append-nil w.text);
    capacity_next = refl;
    reserve_next = refl;
  };
}

bool-Emits :
    (name : List ℕ) (value : Bool) (w : JsonWriter)
    → in_object w ≡ true
    → Fits w
    → let bytes = prefix_bytes w name ++ (if value then codes "true" else codes "false") in
      Emits bytes w (after_field w bytes) (add_bool (some name) value w)
bool-Emits name value w h f =
    let p = add_bool-Puts name value w f h in
    record {
      exactly = p.exactly;
      done = p.put;
      behind = record { text_next = refl; capacity_next = refl; reserve_next = refl };
    }

mutual
  unfolding after_member after_members write_member write_members IsWithin AreWithin render

  member-Emits :
      (name : List ℕ) (v : Value) (depth : ℕ) (first : Bool) (w : JsonWriter)
      → Placed depth w
      → is_first depth w ≡ first
      → IsWithin depth v
      → Fits w
      → Emits (member_bytes first name v) w (after_member name v w) (write_member name v w)
  member-Emits name (text s) depth first w p e h f =
      rw⁻¹ (prefix_bytes-of depth first w name p e)
        (string-Emits name s w (Placed-in_object depth w p) f)
  member-Emits name (number n) depth first w p e h f =
      rw⁻¹ (prefix_bytes-of depth first w name p e)
        (number-Emits name n w (Placed-in_object depth w p) f)
  member-Emits name (boolean b) depth first w p e h f =
      rw⁻¹ (prefix_bytes-of depth first w name p e)
        (bool-Emits name b w (Placed-in_object depth w p) f)
  member-Emits name (object ms) depth first w p e h f =
      let bytes = open_bytes w name in
      let opened = after_open w bytes in
      let open_prefix = prefix_of first name ++ (b'{' ∷ []) in
      let placed = open-Placed depth w bytes p h.0 in
      let one = open-first depth w bytes p h.0 in
      let inner = after_members ms opened in
      let g = members-Goes ms (depth + 1) opened placed h.1 in
      let start : Emits open_prefix w opened (begin_object_field (some name) w) =
        rw⁻¹ (prefix_bytes-of depth first w name p e)
          (open-Emits name w (Placed-in_object depth w p) (omega (arith, p.deep, h.0)) f) in
      rw⁻¹ (object_bytes first name ms) (
        Emits-then (open_prefix ++ render_first ms) (b'}' ∷ []) w inner (after_close inner)
          (begin_object_field (some name) w &&> write_members ms) end_object
          (Emits-then open_prefix (render_first ms) w opened inner
            (begin_object_field (some name) w) (write_members ms) start
            (members-IsBehind ms (depth + 1) true opened placed one h.1)
            (λ f'. members-Emits ms (depth + 1) true opened placed one h.1 f'))
          (record { text_next = refl; capacity_next = refl; reserve_next = refl })
          (λ f'. close-Emits inner (omega (arith, g.placed.deep)) f'))

  members-Emits :
      (ms : Members) (depth : ℕ) (first : Bool) (w : JsonWriter)
      → Placed depth w
      → is_first depth w ≡ first
      → AreWithin depth ms
      → Fits w
      → Emits (members_bytes first ms) w (after_members ms w) (write_members ms w)
  members-Emits nil depth first w p e h f = rw (members_bytes-nil first) (nil-Emits w f)
  members-Emits (member name v ms) depth first w p e h f =
      let next = after_member name v w in
      let g = member-Goes name v depth w p h.0 in
      let one = member-first name v depth w p h.0 in
      rw⁻¹ (members_bytes-member first name v ms) (
        Emits-then (member_bytes first name v) (members_bytes false ms) w next
          (after_members ms next) (write_member name v w) (write_members ms)
          (member-Emits name v depth first w p e h.0 f)
          (members-IsBehind ms depth false next g.placed one h.1)
          (λ f'. members-Emits ms depth false next g.placed one h.1 f'))

-- The members behind the opening brace, and the closing one.
abbrev pub write_object : Members → Step
write_object ms w = write_members ms w &&> end_object

-- A line whose members are written by these calls is the object as text and one newline, exactly
-- when it is at most 8192 bytes long. At most eight objects are nested.
pub build_line-write_object :
    (ms : Members)
    → AreWithin 1 ms
    → let line = render (object ms) ++ (b'\n' ∷ []) in
      build_line board_tx_max_line_bytes (write_object ms)
      ≡ (if leb (length line) board_tx_max_line_bytes then some line else none)
unfolding render
build_line-write_object ms h =
    let placed : Placed 1 opened = record {
      deep = refl;
      inside = omega arith;
      unclosed = refl;
      flags = refl;
      bounded = omega arith;
    } in
    let next = after_members ms opened in
    let g = members-Goes ms 1 opened placed h in
    let bytes = render_first ms ++ (b'}' ∷ []) in
    let emits =
      Emits-then (render_first ms) (b'}' ∷ []) opened next (after_close next)
        (write_members ms opened) end_object
        (members-Emits ms 1 true opened placed refl h opened-Fits)
        (record { text_next = refl; capacity_next = refl; reserve_next = refl })
        (λ f. close-Emits next (omega (arith, g.placed.deep)) f) in
    build_line_lem bytes (after_close next) (write_object ms) emits
    ∙ ground (arith, length-append bytes (b'\n' ∷ []))
