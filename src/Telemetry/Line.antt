-- ===== src/Telemetry/Line.antt =====
-- The text of a telemetry frame.
use mathlib.Core.List.{append_assoc, append-nil}
use cuddly_train.Base.{
  ℕ, ◌≤◌, ◌≡◌, ◌∙◌, sym, refl, ap, true, not, List, [], ◌∷◌, ◌++◌, Option, some, none, codes, leb,
  arith, if◌then◌else◌, length, length-append,
}
use cuddly_train.Platform.{Clock}
use cuddly_train.Protocol.{BoardIdentity}
use cuddly_train.Json.Decimal.{decimal, length-decimal}
use cuddly_train.Json.Escape.{escape, escape_byte, quote}
use cuddly_train.Telemetry.{
  append_bytes, ◌&&>◌, append_uint64, append_escaped_from, append_escaped_string, append_head,
  append_tail, finish_line, build_line, is_object_text,
}

-- A text that fits the line buffer with the byte that terminates it.
abbrev pub fitting : List ℕ → Option (List ℕ)
fitting text = if leb (length text) 8191 then some text else none

-- Appending to a line that fits, and to one that does not.
fitting-append :
    (line value : List ℕ) → (fitting line &&> append_bytes value) ≡ fitting (line ++ value)
unfolding append_bytes
fitting-append line value = ground (arith, length-append line value)

step_fitting :
    (line value : List ℕ) (o : Option (List ℕ))
    → o ≡ fitting line
    → (o &&> append_bytes value) ≡ fitting (line ++ value)
step_fitting line value o e = ap (λ p. p &&> append_bytes value) e ∙ fitting-append line value

&&>-assoc :
    (o : Option (List ℕ)) (f g : List ℕ → Option (List ℕ))
    → (o &&> (λ l. f l &&> g)) ≡ ((o &&> f) &&> g)
&&>-assoc none f g = refl
&&>-assoc (some l) f g = refl

nothing_more : (o : Option (List ℕ)) → (o &&> some) ≡ o
nothing_more none = refl
nothing_more (some l) = refl

escaped_fitting :
    (cs line : List ℕ) (o : Option (List ℕ))
    → o ≡ fitting line
    → (o &&> append_escaped_from cs) ≡ fitting (line ++ escape cs)
unfolding append_escaped_from escape
escaped_fitting [] line o e = nothing_more o ∙ e ∙ ap fitting (sym (append-nil line))
escaped_fitting (c ∷ cs) line o e =
    &&>-assoc o (append_bytes (escape_byte c)) (append_escaped_from cs)
    ∙ escaped_fitting cs (line ++ escape_byte c) (o &&> append_bytes (escape_byte c))
        (step_fitting line (escape_byte c) o e)
    ∙ ap fitting (append_assoc line (escape_byte c) (escape cs))

string_fitting :
    (text line : List ℕ) (o : Option (List ℕ))
    → o ≡ fitting line
    → (o &&> append_escaped_string (some text)) ≡ fitting (line ++ quote text)
unfolding append_escaped_string
string_fitting text line o e =
    &&>-assoc o (λ l. append_bytes (b'"' ∷ []) l &&> append_escaped_from text)
      (append_bytes (b'"' ∷ []))
    ∙ ap (λ p. p &&> append_bytes (b'"' ∷ []))
        (&&>-assoc o (append_bytes (b'"' ∷ [])) (append_escaped_from text))
    ∙ step_fitting ((line ++ (b'"' ∷ [])) ++ escape text) (b'"' ∷ []) _
        (escaped_fitting text (line ++ (b'"' ∷ [])) _ (step_fitting line (b'"' ∷ []) o e))
    ∙ ap fitting (
        append_assoc (line ++ (b'"' ∷ [])) (escape text) (b'"' ∷ [])
        ∙ append_assoc line (b'"' ∷ []) (escape text ++ (b'"' ∷ [])))

-- The text of the frame.
abbrev pub head_text : ℕ → List ℕ
head_text seq = (codes "{\"type\":\"telemetry\",\"seq\":" ++ decimal seq) ++ codes ",\"timestamp\":"

abbrev pub frame : ℕ → ℕ → List ℕ → List ℕ → List ℕ
frame seq now id telemetry =
    (((((head_text seq ++ decimal now) ++ codes ",\"source\":") ++ quote id)
        ++ codes ",\"target\":\"controller\",\"telemetry\":")
      ++ telemetry)
    ++ (b'}' ∷ b'\n' ∷ [])

head_fitting : (seq : ℕ) → append_head seq [] ≡ some (head_text seq)
unfolding append_bytes append_uint64
head_fitting seq = ground (
  arith,
  length-decimal seq,
  length-append (codes "{\"type\":\"telemetry\",\"seq\":") (decimal seq),
)

tail_fitting :
    (now : ℕ) (id telemetry line : List ℕ) (identity : BoardIdentity)
    → identity.board_id ≡ some id
    → length line ≤ 8000
    → append_tail now identity telemetry line
      ≡ fitting (
          (((((line ++ decimal now) ++ codes ",\"source\":") ++ quote id)
              ++ codes ",\"target\":\"controller\",\"telemetry\":")
            ++ telemetry)
          ++ (b'}' ∷ b'\n' ∷ []))
unfolding append_uint64
tail_fitting now id telemetry line identity e short =
    let start : some line ≡ fitting line = ground arith in
    rw e (
      step_fitting _ (b'}' ∷ b'\n' ∷ []) _ (
        step_fitting _ telemetry _ (
          step_fitting _ (codes ",\"target\":\"controller\",\"telemetry\":") _ (
            string_fitting id _ _ (
              step_fitting _ (codes ",\"source\":") _
                (step_fitting line (decimal now) (some line) start))))))

length-head_text : (seq : ℕ) → length (head_text seq) ≤ 8000
length-head_text seq = omega (
  arith,
  length-decimal seq,
  length-append (codes "{\"type\":\"telemetry\",\"seq\":") (decimal seq),
  length-append (codes "{\"type\":\"telemetry\",\"seq\":" ++ decimal seq) (codes ",\"timestamp\":"),
)

module _ {W : Type 0} (clock : Clock W) where
  -- For the text of a closed object, the builder yields exactly the frame with the sequence number,
  -- the time, the board as source, escaped, and the object as it is, with one newline, and it does so
  -- exactly when the frame has at most 8191 bytes.
  pub build_line_lem :
      (seq : ℕ) (id telemetry : List ℕ) (identity : BoardIdentity) (w : W)
      → identity.board_id ≡ some id
      → is_object_text telemetry ≡ true
      → let (now, w') = clock.monotonic_milliseconds w in
        build_line clock identity seq telemetry w ≡ (fitting (frame seq now id telemetry), w')
  unfolding build_line
  build_line_lem seq id telemetry identity w e o =
      let (now, w') = clock.monotonic_milliseconds w in
      ap
        (λ b.
          if not b then (none, w) else finish_line clock identity telemetry (append_head seq []) w)
        o
      ∙ ap (λ h. finish_line clock identity telemetry h w) (head_fitting seq)
      ∙ ap (λ (l : Option (List ℕ)). (l, w'))
          (tail_fitting now id telemetry (head_text seq) identity e (length-head_text seq))
