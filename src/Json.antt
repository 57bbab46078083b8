-- ===== src/Json.antt =====
-- src/support/BoundedJsonWriter.h: a JSON object written field by field into a buffer of constant
-- capacity. The bytes `[0, length)` of the buffer are the list `text`; a method that returns `bool`
-- returns it beside the writer's new state.
pub mod Decimal
pub mod Escape
pub mod Emit
pub mod Fields
pub mod Chain
pub mod Value
pub mod Line
pub mod Members
mod Tests
use Decimal.{decimal, decimal_int, ℤ}
use Escape.{escape, escape_byte}
use cuddly_train.Base.{
  ℕ, zero, suc, ◌+◌, ◌-◌, Bool, true, false, not, ◌&&◌, ◌||◌, List, [], ◌∷◌, ◌++◌, Option, none,
  some, ◌==◌, if◌then◌else◌, ltb, leb, set, get_or, length, take, replicate, CString, codes,
}
use cuddly_train.Limits.{max_json_nesting_depth}

pub record JsonWriter : Type 0 where
  pub text : List ℕ
  pub capacity : ℕ
  pub depth : ℕ
  pub tail_reserve : ℕ
  pub failed : Bool
  pub closed : Bool
  pub first : List Bool

-- The state after the constructor, which calls `reset`.
unfoldable pub new : ℕ → JsonWriter
new capacity = record {
  text = [];
  capacity = capacity;
  depth = 0;
  tail_reserve = 0;
  failed = false;
  closed = false;
  first = replicate max_json_nesting_depth true;
}

abbrev pub Step : Type 0
Step = JsonWriter → Bool × JsonWriter

-- `a && b` of two calls on the writer.
infixl 5 ◌&&>◌
abbrev pub ◌&&>◌ : Bool × JsonWriter → Step → Bool × JsonWriter
(true, w) &&> k = k w
(false, w) &&> k = (false, w)

unfoldable pub remaining : JsonWriter → ℕ
remaining w =
    if leb w.capacity w.tail_reserve || leb (w.capacity - w.tail_reserve) (length w.text)
    then 0
    else w.capacity - w.tail_reserve - length w.text

abbrev pub fail : Step
fail w = (false, record w { failed = true })

unfoldable pub append_bytes : List ℕ → Step
append_bytes value w =
    if ltb (remaining w) (length value) then fail w else (true, record w { text = w.text ++ value })

abbrev pub append_byte : ℕ → Step
append_byte b = append_bytes (b ∷ [])

unfoldable pub append_newline : Step
append_newline w = append_byte b'\n' w

unfoldable pub reserve_tail_bytes : ℕ → Step
reserve_tail_bytes n w =
    if ltb w.capacity n || ltb (w.capacity - n) (length w.text)
    then fail w
    else (true, record w { tail_reserve = n })

unfoldable pub release_tail_reserve : JsonWriter → JsonWriter
release_tail_reserve w = record w { tail_reserve = 0 }

pub record Snapshot : Type 0 where
  pub length_then : ℕ
  pub depth_then : ℕ
  pub tail_reserve_then : ℕ
  pub closed_then : Bool
  pub first_then : List Bool

abbrev pub capture : JsonWriter → Snapshot
capture w = record {
  length_then = length w.text;
  depth_then = w.depth;
  tail_reserve_then = w.tail_reserve;
  closed_then = w.closed;
  first_then = w.first;
}

abbrev pub restore : Snapshot → JsonWriter → JsonWriter
restore s w = record w {
  text = take s.length_then w.text;
  depth = s.depth_then;
  tail_reserve = s.tail_reserve_then;
  closed = s.closed_then;
  first = s.first_then;
  failed = true;
}

-- A step, undone if it fails.
abbrev pub or_restore : Snapshot → Bool × JsonWriter → Bool × JsonWriter
or_restore s (true, w) = (true, w)
or_restore s (false, w) = (false, restore s w)

abbrev pub in_object : JsonWriter → Bool
in_object w = ltb 0 w.depth && not w.closed

-- The loop of `writeEscapedString`.
unfoldable pub write_escaped_from : List ℕ → Step
write_escaped_from [] w = (true, w)
write_escaped_from (c ∷ cs) w = append_bytes (escape_byte c) w &&> write_escaped_from cs

unfoldable pub write_escaped_string : List ℕ → Step
write_escaped_string value w = append_byte b'"' w &&> write_escaped_from value &&> append_byte b'"'

-- `first_[depth_ - 1] = false`.
abbrev pub mark_not_first : Step
mark_not_first w = (true, record w { first = set w.first (w.depth - 1) false })

unfoldable pub write_field_prefix : List ℕ → Step
write_field_prefix name w =
    (if get_or w.first (w.depth - 1) true then (true, w) else append_byte b',' w)
    &&> write_escaped_string name
    &&> append_byte b':'
    &&> mark_not_first

-- `first_[depth_] = true; ++depth_`.
abbrev pub enter : Step
enter w = (true, record w { first = set w.first w.depth true; depth = w.depth + 1 })

unfoldable pub begin_object : Step
begin_object w =
    if w.closed || leb max_json_nesting_depth w.depth
    then fail w
    else or_restore (capture w) (append_byte b'{' w) &&> enter

unfoldable pub begin_object_field : CString → Step
begin_object_field none w = fail w
begin_object_field (some name) w =
    if not (in_object w) || leb max_json_nesting_depth w.depth
    then fail w
    else or_restore (capture w) (write_field_prefix name w &&> append_byte b'{') &&> enter

-- `--depth_; closed_ = (depth_ == 0)`.
abbrev pub leave : Step
leave w = (true, record w { depth = w.depth - 1; closed = w.depth - 1 == 0 })

unfoldable pub end_object : Step
end_object w =
    if w.depth == 0 then fail w else or_restore (capture w) (append_byte b'}' w) &&> leave

unfoldable pub add_number_literal : CString → List ℕ → Step
add_number_literal none literal w = fail w
add_number_literal (some name) literal w =
    if not (in_object w)
    then fail w
    else or_restore (capture w) (write_field_prefix name w &&> append_bytes literal)

unfoldable pub add_uint64 : CString → ℕ → Step
add_uint64 name value = add_number_literal name (decimal value)

unfoldable pub add_int : CString → ℤ → Step
add_int name value = add_number_literal name (decimal_int value)

unfoldable pub add_bool : CString → Bool → Step
add_bool name value = add_number_literal name (if value then codes "true" else codes "false")

unfoldable pub add_null : CString → Step
add_null name = add_number_literal name (codes "null")

-- `addString` of a name, and of a pointer with its length.
unfoldable pub add_string_bytes : CString → Option (List ℕ) → Step
add_string_bytes none value w = fail w
add_string_bytes (some name) none w = fail w
add_string_bytes (some name) (some value) w =
    if not (in_object w)
    then fail w
    else or_restore (capture w) (write_field_prefix name w &&> write_escaped_string value)

-- `addString` of a terminated text. A null text is refused without marking the writer as failed.
unfoldable pub add_string : CString → CString → Step
add_string name none w = (false, w)
add_string name (some value) w = add_string_bytes name (some value) w

-- Doubles: the type, its test for finite values, and what `snprintf` prints under `%.*g` are the
-- platform's.
module _ {Double : Type 0} (is_finite : Double → Bool) (print_double : Double → List ℕ) where
  unfoldable pub add_double : CString → Double → Step
  add_double name value w =
      if not (is_finite value)
      then fail w
      else if length (print_double value) == 0 || leb 32 (length (print_double value))
      then fail w
      else add_number_literal name (print_double value) w
