-- ===== src/Json/Chain.antt =====
-- Rows of calls on a writer, `a && b && …`: the text that they write together.
use mathlib.Core.List.{append_assoc}
use cuddly_train.Base.{
  ℕ, ◌+◌, ◌-◌, ◌<◌, ◌≡◌, ◌∙◌, refl, ap, Bool, true, false, List, [], ◌∷◌, ◌++◌, some, arith, leb,
  ◌==◌, length, length-append, set,
}
use cuddly_train.Json.Decimal.{decimal}
use cuddly_train.Json.Escape.{quote}
use cuddly_train.Json.{
  JsonWriter, Step, ◌&&>◌, in_object, add_string, add_uint64, begin_object_field, end_object,
}
use cuddly_train.Json.Emit.{Fits, add_text}
use cuddly_train.Json.Fields.{
  add_string-Puts, add_uint64-Puts, begin_object_field-Opens, end_object_lem, prefix_bytes, marked,
}

-- `next` is `w` with `bytes` behind its text.
pub record IsBehind (bytes : List ℕ) (w next : JsonWriter) : Type 0 where
  pub text_next : next.text ≡ w.text ++ bytes
  pub capacity_next : next.capacity ≡ w.capacity
  pub reserve_next : next.tail_reserve ≡ w.tail_reserve

-- From `w` the row writes `bytes` and leads to `next`, exactly when they fit before the reserve.
pub record Emits (bytes : List ℕ) (w next : JsonWriter) (out : Bool × JsonWriter) : Type 0 where
  pub exactly : out.0 ≡ leb (length w.text + length bytes + w.tail_reserve) w.capacity
  pub done : out.0 ≡ true → out.1 ≡ next
  pub behind : IsBehind bytes w next

next-Fits : (bytes : List ℕ) (w next t : JsonWriter) → Emits bytes w next (true, t) → Fits next
next-Fits bytes w next t e = ground (
  arith,
  e.exactly,
  e.behind.text_next,
  e.behind.capacity_next,
  e.behind.reserve_next,
  length-append w.text bytes,
)

pub IsBehind-then :
    (xs ys : List ℕ) (w w' next : JsonWriter)
    → IsBehind xs w w'
    → IsBehind ys w' next
    → IsBehind (xs ++ ys) w next
IsBehind-then xs ys w w' next a b = record {
  text_next = b.text_next ∙ ap (λ t. t ++ ys) a.text_next ∙ append_assoc w.text xs ys;
  capacity_next = b.capacity_next ∙ a.capacity_next;
  reserve_next = b.reserve_next ∙ a.reserve_next;
}

-- Two calls in a row. The second one is looked at only in the state that the first one leads to.
pub Emits-then :
    (xs ys : List ℕ) (w w' next : JsonWriter) (out : Bool × JsonWriter) (k : Step)
    → Emits xs w w' out
    → IsBehind ys w' next
    → (Fits w' → Emits ys w' next (k w'))
    → Emits (xs ++ ys) w next (out &&> k)
Emits-then xs ys w w' next (true, t) k a s b =
    let c = b (next-Fits xs w w' t a) in
    rw (a.done refl) (record {
      exactly = ground (
        arith,
        c.exactly,
        a.behind.text_next,
        a.behind.capacity_next,
        a.behind.reserve_next,
        length-append w.text xs,
        length-append xs ys,
      );
      done = c.done;
      behind = IsBehind-then xs ys w w' next a.behind s;
    })
Emits-then xs ys w w' next (false, t) k a s b = record {
  exactly = ground (arith, a.exactly, length-append xs ys);
  done = λ h. cc;
  behind = IsBehind-then xs ys w w' next a.behind s;
}

add_text-IsBehind : (bytes : List ℕ) (w : JsonWriter) → IsBehind bytes w (add_text w bytes)
add_text-IsBehind bytes w = record { text_next = refl; capacity_next = refl; reserve_next = refl }

-- The states behind each call.
abbrev pub after_field : JsonWriter → List ℕ → JsonWriter
after_field w bytes = add_text (marked w) bytes

abbrev pub after_open : JsonWriter → List ℕ → JsonWriter
after_open w bytes = record (add_text (marked w) bytes) {
  first = set (marked w).first w.depth true;
  depth = w.depth + 1;
}

abbrev pub after_close : JsonWriter → JsonWriter
after_close w = record (add_text w (b'}' ∷ [])) { depth = w.depth - 1; closed = w.depth - 1 == 0 }

abbrev pub string_bytes : JsonWriter → List ℕ → List ℕ → List ℕ
string_bytes w name value = prefix_bytes w name ++ quote value

abbrev pub number_bytes : JsonWriter → List ℕ → ℕ → List ℕ
number_bytes w name value = prefix_bytes w name ++ decimal value

abbrev pub open_bytes : JsonWriter → List ℕ → List ℕ
open_bytes w name = prefix_bytes w name ++ (b'{' ∷ [])

pub string-Emits :
    (name value : List ℕ) (w : JsonWriter)
    → in_object w ≡ true
    → Fits w
    → Emits
        (string_bytes w name value)
        w
        (after_field w (string_bytes w name value))
        (add_string (some name) (some value) w)
string-Emits name value w h f =
    let p = add_string-Puts name value w f h in
    record {
      exactly = p.exactly;
      done = p.put;
      behind = record { text_next = refl; capacity_next = refl; reserve_next = refl };
    }

pub number-Emits :
    (name : List ℕ) (value : ℕ) (w : JsonWriter)
    → in_object w ≡ true
    → Fits w
    → Emits
        (number_bytes w name value)
        w
        (after_field w (number_bytes w name value))
        (add_uint64 (some name) value w)
number-Emits name value w h f =
    let p = add_uint64-Puts name value w f h in
    record {
      exactly = p.exactly;
      done = p.put;
      behind = record { text_next = refl; capacity_next = refl; reserve_next = refl };
    }

pub open-Emits :
    (name : List ℕ) (w : JsonWriter)
    → in_object w ≡ true
    → w.depth < 8
    → Fits w
    → Emits
        (open_bytes w name)
        w
        (after_open w (open_bytes w name))
        (begin_object_field (some name) w)
open-Emits name w h d f =
    let p = begin_object_field-Opens name w f h d in
    record {
      exactly = p.exactly;
      done = p.opened;
      behind = record { text_next = refl; capacity_next = refl; reserve_next = refl };
    }

pub close-Emits :
    (w : JsonWriter) → 0 < w.depth → Fits w → Emits (b'}' ∷ []) w (after_close w) (end_object w)
close-Emits w d f =
    let (a, b, c) = end_object_lem w f d in
    record {
      exactly = a;
      done = b;
      behind = record { text_next = refl; capacity_next = refl; reserve_next = refl };
    }

-- The same with one more call of each kind behind a row.
module _ (xs : List ℕ) (w w' : JsonWriter) (out : Bool × JsonWriter) (a : Emits xs w w' out) where
  pub then-string :
      (name value : List ℕ)
      → in_object w' ≡ true
      → Emits
          (xs ++ string_bytes w' name value)
          w
          (after_field w' (string_bytes w' name value))
          (out &&> add_string (some name) (some value))
  then-string name value h =
      Emits-then xs (string_bytes w' name value) w w' (after_field w' (string_bytes w' name value))
        out (add_string (some name) (some value)) a
        (record { text_next = refl; capacity_next = refl; reserve_next = refl })
        (string-Emits name value w' h)

  pub then-number :
      (name : List ℕ) (value : ℕ)
      → in_object w' ≡ true
      → Emits
          (xs ++ number_bytes w' name value)
          w
          (after_field w' (number_bytes w' name value))
          (out &&> add_uint64 (some name) value)
  then-number name value h =
      Emits-then xs (number_bytes w' name value) w w' (after_field w' (number_bytes w' name value))
        out (add_uint64 (some name) value) a
        (record { text_next = refl; capacity_next = refl; reserve_next = refl })
        (number-Emits name value w' h)

  pub then-open :
      (name : List ℕ)
      → in_object w' ≡ true
      → w'.depth < 8
      → Emits
          (xs ++ open_bytes w' name)
          w
          (after_open w' (open_bytes w' name))
          (out &&> begin_object_field (some name))
  then-open name h d =
      Emits-then xs (open_bytes w' name) w w' (after_open w' (open_bytes w' name)) out
        (begin_object_field (some name)) a
        (record { text_next = refl; capacity_next = refl; reserve_next = refl })
        (open-Emits name w' h d)

  pub then-close : 0 < w'.depth → Emits (xs ++ (b'}' ∷ [])) w (after_close w') (out &&> end_object)
  then-close d =
      Emits-then xs (b'}' ∷ []) w w' (after_close w') out end_object a
        (record { text_next = refl; capacity_next = refl; reserve_next = refl }) (close-Emits w' d)
