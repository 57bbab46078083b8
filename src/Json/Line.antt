-- ===== src/Json/Line.antt =====
-- The frame of every line that is built with the JSON writer: a buffer of 8192 bytes with one byte
-- reserved for the newline, an object, and the newline.
use cuddly_train.Base.{
  ℕ, ◌+◌, ◌≡◌, ◌∙◌, refl, Bool, true, false, not, ◌||◌, List, [], ◌∷◌, ◌++◌, Option, some, none,
  arith, ltb, leb, if◌then◌else◌, length, length-append, replicate,
}
use cuddly_train.Limits.{board_tx_max_line_bytes}
use cuddly_train.Json.{
  JsonWriter, Step, ◌&&>◌, new, reserve_tail_bytes, release_tail_reserve, append_newline,
  begin_object, append_bytes, remaining,
}
use cuddly_train.Json.Emit.{Fits}
use cuddly_train.Json.Chain.{Emits}

abbrev finish : Bool × JsonWriter → Option (List ℕ)
finish (false, w) = none
finish (true, w) =
    let (ok, w') = append_newline (release_tail_reserve w) in
    if not ok || ltb board_tx_max_line_bytes (length w'.text) then none else some w'.text

-- The line, or `none` where the builder returns `false`. `members` are the calls behind
-- `beginObject()`.
unfoldable pub build_line : ℕ → Step → Option (List ℕ)
unfolding new reserve_tail_bytes release_tail_reserve append_newline begin_object
build_line capacity members =
    finish (begin_object (reserve_tail_bytes 1 (new capacity)).1 &&> members)

-- The writer when the object is open.
abbrev pub opened : JsonWriter
opened = record {
  text = b'{' ∷ [];
  capacity = board_tx_max_line_bytes;
  depth = 1;
  tail_reserve = 1;
  failed = false;
  closed = false;
  first = replicate 8 true;
}

pub opened-Fits : Fits opened
opened-Fits = omega arith

finish_lem :
    (bytes : List ℕ) (next : JsonWriter) (out : Bool × JsonWriter)
    → Emits bytes opened next out
    → finish out ≡ (
        if leb (length bytes + 2) board_tx_max_line_bytes
        then some ((b'{' ∷ bytes) ++ (b'\n' ∷ []))
        else none)
unfolding release_tail_reserve append_newline append_bytes remaining
finish_lem bytes next (true, t) e = rw (e.done refl) (
    ground (
      arith,
      e.exactly,
      e.behind.text_next,
      e.behind.capacity_next,
      length-append next.text (b'\n' ∷ []),
    ))
finish_lem bytes next (false, t) e = ground (arith, e.exactly)

build_line-opened :
    (members : Step) → build_line board_tx_max_line_bytes members ≡ finish (members opened)
unfolding build_line append_bytes remaining
build_line-opened members = refl

-- A builder whose calls write `bytes` yields the line of the opening brace, these bytes and one
-- newline, exactly when it is at most 8192 bytes long.
pub build_line_lem :
    (bytes : List ℕ) (next : JsonWriter) (members : Step)
    → Emits bytes opened next (members opened)
    → build_line board_tx_max_line_bytes members ≡ (
        if leb (length bytes + 2) board_tx_max_line_bytes
        then some ((b'{' ∷ bytes) ++ (b'\n' ∷ []))
        else none)
build_line_lem bytes next members e =
    build_line-opened members ∙ finish_lem bytes next (members opened) e

-- Without its identity the board builds no line: a null text makes the row of calls fail.
pub build_line-fails :
    (members : Step)
    → (members opened).0 ≡ false
    → build_line board_tx_max_line_bytes members ≡ none
build_line-fails members h = build_line-opened members ∙ finish-false (members opened) h
  where
    finish-false : (out : Bool × JsonWriter) → out.0 ≡ false → finish out ≡ none
    finish-false (true, w) e = cc
    finish-false (false, w) e = refl
