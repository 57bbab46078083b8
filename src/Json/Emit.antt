-- ===== src/Json/Emit.antt =====
-- Steps that write bytes: when they succeed, and what they leave behind when they do not.
use mathlib.Core.List.{append_assoc, append-nil}
use cuddly_train.Base.{
  ℕ, ◌+◌, ◌≤◌, ◌≡◌, ◌∙◌, sym, refl, ap, Bool, true, false, List, [], ◌∷◌, ◌++◌, arith, leb, length,
  length-append,
}
use cuddly_train.Json.Escape.{escape, escape_byte, quote}
use cuddly_train.Json.{
  JsonWriter, Step, ◌&&>◌, remaining, append_bytes, write_escaped_from, write_escaped_string,
}

-- The text and the reserve lie within the buffer.
pub record Fits (w : JsonWriter) : Type 0 where
  pub room : length w.text + w.tail_reserve ≤ w.capacity

-- `out` is what a step that writes `bytes` makes of `w`: it succeeds exactly when they fit behind the
-- text and before the reserve, and then appends them; else a part of them may stand behind the text.
pub record Writes (bytes : List ℕ) (w : JsonWriter) (out : Bool × JsonWriter) : Type 0 where
  pub exactly : out.0 ≡ leb (length w.text + length bytes + w.tail_reserve) w.capacity
  pub written : out.0 ≡ true → out.1 ≡ record w { text = w.text ++ bytes }
  pub unwritten :
      out.0 ≡ false → (part : List ℕ) × (out.1 ≡ record w { text = w.text ++ part; failed = true })

pub append_bytes-Writes :
    (bytes : List ℕ) (w : JsonWriter) → Fits w → Writes bytes w (append_bytes bytes w)
unfolding append_bytes remaining
append_bytes-Writes bytes w f = record {
  exactly = ground arith;
  written = ground arith;
  unwritten = λ h. ([], ground (arith, append-nil w.text));
}

abbrev pub add_text : JsonWriter → List ℕ → JsonWriter
add_text w xs = record w { text = w.text ++ xs }

Writes-behind :
    (xs ys : List ℕ) (w : JsonWriter) (out : Bool × JsonWriter)
    → Writes ys (add_text w xs) out
    → Writes (xs ++ ys) w out
Writes-behind xs ys w out a = record {
  exactly = ground (arith, a.exactly, length-append w.text xs, length-append xs ys);
  written = λ h. a.written h ∙ ap (λ t. record w { text = t }) (append_assoc w.text xs ys);
  unwritten = λ h. (
    xs ++ (a.unwritten h).0,
    (a.unwritten h).1
        ∙ ap (λ t. record w { text = t; failed = true }) (append_assoc w.text xs (a.unwritten h).0),
  );
}

Writes-stop :
    (xs ys : List ℕ) (w w' : JsonWriter) → Writes xs w (false, w') → Writes (xs ++ ys) w (false, w')
Writes-stop xs ys w w' a = record {
  exactly = ground (arith, a.exactly, length-append xs ys);
  written = λ h. cc;
  unwritten = a.unwritten;
}

pub add_text-Fits :
    (xs : List ℕ) (w : JsonWriter)
    → leb (length w.text + length xs + w.tail_reserve) w.capacity ≡ true
    → Fits (add_text w xs)
add_text-Fits xs w h = ground (arith, length-append w.text xs)

-- Two steps in a row write what the first and then the second writes.
pub Writes-then :
    (xs ys : List ℕ) (w : JsonWriter) (out : Bool × JsonWriter) (k : Step)
    → Writes xs w out
    → ((w' : JsonWriter) → Fits w' → Writes ys w' (k w'))
    → Writes (xs ++ ys) w (out &&> k)
Writes-then xs ys w (true, w') k a b =
    rw (a.written refl)
      (Writes-behind xs ys w _ (b (add_text w xs) (add_text-Fits xs w (sym a.exactly))))
Writes-then xs ys w (false, w') k a b = Writes-stop xs ys w w' a

pub write_escaped_from-Writes :
    (cs : List ℕ) (w : JsonWriter) → Fits w → Writes (escape cs) w (write_escaped_from cs w)
unfolding escape write_escaped_from
write_escaped_from-Writes [] w f = record {
  exactly = ground arith;
  written = λ _. ap (λ t. record w { text = t }) (sym (append-nil w.text));
  unwritten = λ h. cc;
}
write_escaped_from-Writes (c ∷ cs) w f =
    Writes-then (escape_byte c) (escape cs) w _ (write_escaped_from cs)
      (append_bytes-Writes (escape_byte c) w f) (write_escaped_from-Writes cs)

pub write_escaped_string-Writes :
    (cs : List ℕ) (w : JsonWriter) → Fits w → Writes (quote cs) w (write_escaped_string cs w)
unfolding write_escaped_string
write_escaped_string-Writes cs w f =
    Writes-then ((b'"' ∷ []) ++ escape cs) (b'"' ∷ []) w _ (append_bytes (b'"' ∷ []))
      (Writes-then (b'"' ∷ []) (escape cs) w _ (write_escaped_from cs)
        (append_bytes-Writes (b'"' ∷ []) w f) (write_escaped_from-Writes cs))
      (append_bytes-Writes (b'"' ∷ []))
