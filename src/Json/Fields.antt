-- ===== src/Json/Fields.antt =====
-- The methods that add a field, open an object or close it: each either writes its whole text or
-- leaves the writer as it was, but for the mark that it failed.
use mathlib.Core.List.{append_assoc, append-nil}
use cuddly_train.Base.{
  ℕ, ◌+◌, ◌-◌, ◌<◌, ◌≡◌, ◌∙◌, sym, refl, ap, Bool, true, false, List, [], ◌∷◌, ◌++◌, some, arith,
  leb, ◌==◌, if◌then◌else◌, length, length-append, set, get_or, codes, take-length,
  take-length-append,
}
use cuddly_train.Json.Decimal.{decimal}
use cuddly_train.Json.Escape.{quote}
use cuddly_train.Json.{
  JsonWriter, Step, ◌&&>◌, append_bytes, append_byte, write_escaped_string, write_field_prefix,
  capture, restore, or_restore, mark_not_first, remaining, in_object, add_string, add_string_bytes,
  add_number_literal, add_uint64, add_bool, begin_object_field, end_object, enter,
}
use cuddly_train.Json.Emit.{
  Fits, Writes, append_bytes-Writes, Writes-then, add_text, add_text-Fits,
  write_escaped_string-Writes,
}

lt→not_leb : (a b : ℕ) → a < b → leb b a ≡ false
lt→not_leb a b h = ground arith

-- The comma before a field that is not the first of its object.
abbrev pub separator : JsonWriter → List ℕ
separator w = if get_or w.first (w.depth - 1) true then [] else b',' ∷ []

abbrev pub prefix_bytes : JsonWriter → List ℕ → List ℕ
prefix_bytes w name = (separator w ++ quote name) ++ (b':' ∷ [])

-- The current object has a field.
abbrev pub marked : JsonWriter → JsonWriter
marked w = record w { first = set w.first (w.depth - 1) false }

-- `out` is what a method that adds a field with the text `bytes` makes of `w`.
pub record Puts (bytes : List ℕ) (w : JsonWriter) (out : Bool × JsonWriter) : Type 0 where
  pub exactly : out.0 ≡ leb (length w.text + length bytes + w.tail_reserve) w.capacity
  pub put : out.0 ≡ true → out.1 ≡ add_text (marked w) bytes
  pub undone : out.0 ≡ false → out.1 ≡ record w { failed = true }

comma-Writes :
    (b : Bool) (w : JsonWriter)
    → Fits w
    → Writes (if b then [] else b',' ∷ []) w (if b then (true, w) else append_byte b',' w)
comma-Writes true w f = record {
  exactly = ground arith;
  written = λ _. ap (λ t. record w { text = t }) (sym (append-nil w.text));
  unwritten = λ h. cc;
}
comma-Writes false w f = append_bytes-Writes (b',' ∷ []) w f

separator-Writes :
    (w : JsonWriter)
    → Fits w
    → Writes
        (separator w)
        w
        (if get_or w.first (w.depth - 1) true then (true, w) else append_byte b',' w)
separator-Writes w f = comma-Writes (get_or w.first (w.depth - 1) true) w f

write_field_prefix-Writes :
    (name : List ℕ) (w : JsonWriter)
    → Fits w
    → (out : Bool × JsonWriter) × (write_field_prefix name w ≡ (out &&> mark_not_first))
      × Writes (prefix_bytes w name) w out
unfolding write_field_prefix
write_field_prefix-Writes name w f = (
  _,
  refl,
  Writes-then (separator w ++ quote name) (b':' ∷ []) w _ (append_byte b':')
      (Writes-then (separator w) (quote name) w _ (write_escaped_string name) (separator-Writes w f)
        (write_escaped_string-Writes name))
      (append_bytes-Writes (b':' ∷ [])),
)

restore_part :
    (w : JsonWriter) (part : List ℕ) (t : JsonWriter)
    → t ≡ record w { text = w.text ++ part; failed = true; first = t.first }
    → restore (capture w) t ≡ record w { failed = true }
restore_part w part t e = ground (arith, take-length-append w.text part)

payload-Puts :
    (xs bs : List ℕ) (w : JsonWriter) (out : Bool × JsonWriter)
    → Writes bs (add_text (marked w) xs) out
    → Puts (xs ++ bs) w (or_restore (capture w) out)
payload-Puts xs bs w (true, u) a = record {
  exactly = ground (arith, a.exactly, length-append w.text xs, length-append xs bs);
  put = λ _. a.written refl ∙ ap (λ t. record (marked w) { text = t }) (append_assoc w.text xs bs);
  undone = λ h. cc;
}
payload-Puts xs bs w (false, u) a = record {
  exactly = ground (arith, a.exactly, length-append w.text xs, length-append xs bs);
  put = λ h. cc;
  undone = λ _.
      restore_part w (xs ++ (a.unwritten refl).0) u
        (ground (arith, (a.unwritten refl).1, append_assoc w.text xs (a.unwritten refl).0));
}

prefix-Puts :
    (xs bs : List ℕ) (k : Step) (w : JsonWriter) (out : Bool × JsonWriter)
    → Writes xs w out
    → ((w' : JsonWriter) → Fits w' → Writes bs w' (k w'))
    → Puts (xs ++ bs) w (or_restore (capture w) (out &&> mark_not_first &&> k))
prefix-Puts xs bs k w (true, t) a b =
    let fits = add_text-Fits xs w (sym a.exactly) in
    rw (a.written refl) (
      payload-Puts xs bs w (k (add_text (marked w) xs))
        (b (add_text (marked w) xs) (record { room = fits.room })))
prefix-Puts xs bs k w (false, t) a b = record {
  exactly = ground (arith, a.exactly, length-append xs bs);
  put = λ h. cc;
  undone = λ _. restore_part w (a.unwritten refl).0 t (ground (arith, (a.unwritten refl).1));
}

field-Puts :
    (name bs : List ℕ) (k : Step) (w : JsonWriter)
    → Fits w
    → ((w' : JsonWriter) → Fits w' → Writes bs w' (k w'))
    → Puts (prefix_bytes w name ++ bs) w (or_restore (capture w) (write_field_prefix name w &&> k))
field-Puts name bs k w f b =
    let (out, e, a) = write_field_prefix-Writes name w f in
    rw e (prefix-Puts (prefix_bytes w name) bs k w out a b)

-- In an open object of a writer whose text fits, a string field is added exactly when its whole text, comma and escapes included, fits before the
-- reserve. It then stands behind the text, in quotes and escaped; otherwise the text, the nesting and
-- the commas are those from before, and only the mark of failure is set.
pub add_string-Puts :
    (name value : List ℕ) (w : JsonWriter)
    → Fits w
    → in_object w ≡ true
    → Puts (prefix_bytes w name ++ quote value) w (add_string (some name) (some value) w)
unfolding add_string add_string_bytes
add_string-Puts name value w f h = rw h (
    field-Puts name (quote value) (write_escaped_string value) w f
      (write_escaped_string-Writes value))

-- The same of a number field, whose text is the decimal of the number.
pub add_uint64-Puts :
    (name : List ℕ) (value : ℕ) (w : JsonWriter)
    → Fits w
    → in_object w ≡ true
    → Puts (prefix_bytes w name ++ decimal value) w (add_uint64 (some name) value w)
unfolding add_uint64 add_number_literal
add_uint64-Puts name value w f h = rw h (
    field-Puts name (decimal value) (append_bytes (decimal value)) w f
      (append_bytes-Writes (decimal value)))

-- `out` is what `beginObjectField` makes of `w`.
pub record Opens (bytes : List ℕ) (w : JsonWriter) (out : Bool × JsonWriter) : Type 0 where
  pub exactly : out.0 ≡ leb (length w.text + length bytes + w.tail_reserve) w.capacity
  pub opened :
      out.0 ≡ true
      → out.1 ≡ record (add_text (marked w) bytes) {
        first = set (marked w).first w.depth true;
        depth = w.depth + 1;
      }
  pub undone : out.0 ≡ false → out.1 ≡ record w { failed = true }

enter-Opens :
    (bytes : List ℕ) (w : JsonWriter) (out : Bool × JsonWriter)
    → Puts bytes w out
    → Opens bytes w (out &&> enter)
enter-Opens bytes w (true, t) a = record {
  exactly = a.exactly;
  opened = λ _. rw (a.put refl);
  undone = λ h. cc;
}
enter-Opens bytes w (false, t) a = record {
  exactly = a.exactly;
  opened = λ h. cc;
  undone = a.undone;
}

pub begin_object_field-Opens :
    (name : List ℕ) (w : JsonWriter)
    → Fits w
    → in_object w ≡ true
    → w.depth < 8
    → Opens (prefix_bytes w name ++ (b'{' ∷ [])) w (begin_object_field (some name) w)
unfolding begin_object_field
begin_object_field-Opens name w f h d =
    rw (h, lt→not_leb w.depth 8 d)
      (enter-Opens _ w _
        (field-Puts name (b'{' ∷ []) (append_byte b'{') w f (append_bytes-Writes (b'{' ∷ []))))

pub end_object_lem :
    (w : JsonWriter)
    → Fits w
    → 0 < w.depth
    → let out = end_object w in
      (out.0 ≡ leb (length w.text + 1 + w.tail_reserve) w.capacity)
      × (out.0 ≡ true
          → out.1
            ≡ record (add_text w (b'}' ∷ [])) { depth = w.depth - 1; closed = w.depth - 1 == 0 })
      × (out.0 ≡ false → out.1 ≡ record w { failed = true })
unfolding end_object append_bytes remaining
end_object_lem w f d = ground (arith, take-length w.text)

-- The same of a truth value.
pub add_bool-Puts :
    (name : List ℕ) (value : Bool) (w : JsonWriter)
    → Fits w
    → in_object w ≡ true
    → Puts
        (prefix_bytes w name ++ (if value then codes "true" else codes "false"))
        w
        (add_bool (some name) value w)
unfolding add_bool add_number_literal
add_bool-Puts name value w f h =
    let literal = if value then codes "true" else codes "false" in
    rw h (field-Puts name literal (append_bytes literal) w f (append_bytes-Writes literal))
