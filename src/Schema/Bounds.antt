-- ===== src/Schema/Bounds.antt =====
-- `validateMaximumSchemaSize` of src/core/SchemaBuilder.h, which builds the schema once at the
-- greatest time.
use cuddly_train.Base.{
  ℕ, ◌+◌, ◌-◌, ◌^◌, ◌≤◌, ◌≡◌, ◌∙◌, sym, refl, ap, Bool, true, false, List, [], ◌∷◌, ◌++◌, Option,
  some, none, codes, arith, leb, if◌then◌else◌, length, length-append,
}
use cuddly_train.Limits.{board_tx_max_line_bytes}
use cuddly_train.Status.{Status, is_ok, status, capacity_exceeded}
use cuddly_train.Protocol.{BoardIdentity}
use cuddly_train.Platform.{Clock}
use cuddly_train.Registry.{Registry, ok_status}
use cuddly_train.Json.Decimal.{decimal, length-decimal}
use cuddly_train.Json.Escape.{quote}
use cuddly_train.Json.Value.{
  Value, Members, text, number, object, nil, member, render, render_first, render_rest,
}
use cuddly_train.Schema.{build_schema_line, validate_maximum_schema_size}
use cuddly_train.Schema.Line.{schema_value, schema_object, build_schema_line_lem}

length-greatest : length (decimal (2 ^ 64 - 1)) ≡ 20
unfolding decimal
length-greatest = refl

abbrev too_long : Status × Option (List ℕ)
too_long = (status capacity_exceeded (codes "schema exceeds transmit limit"), none)

accepted :
    (b : Bool) (line : List ℕ)
    → is_ok (if b then (ok_status, some line) else too_long).0 ≡ true
    → b ≡ true
accepted true line h = refl
accepted false line h = cc

-- How long an object with one more member is.
length-render_rest :
    (name : List ℕ) (v : Value) (ms : Members)
    → length (render_rest (member name v ms))
      ≡ 2 + length (quote name) + length (render v) + length (render_rest ms)
unfolding render
length-render_rest name v ms = ground (
  arith,
  length-append (quote name) (b':' ∷ (render v ++ render_rest ms)),
  length-append (render v) (render_rest ms),
)

length-render_first :
    (name : List ℕ) (v : Value) (ms : Members)
    → length (render_first (member name v ms))
      ≡ 1 + length (quote name) + length (render v) + length (render_rest ms)
unfolding render
length-render_first name v ms = ground (
  arith,
  length-append (quote name) (b':' ∷ (render v ++ render_rest ms)),
  length-append (render v) (render_rest ms),
)

length-object :
    (ms : Members) → length (render (object ms) ++ (b'\n' ∷ [])) ≡ 3 + length (render_first ms)
unfolding render
length-object ms = ground (
  arith,
  length-append (render_first ms) (b'}' ∷ []),
  length-append (render_first ms ++ (b'}' ∷ [])) (b'\n' ∷ []),
)

length-number : (n : ℕ) → length (render (number n)) ≡ length (decimal n)
unfolding render
length-number n = refl

module _ {H P K : Type 0} (r : Registry H P K) (id pv fv : List ℕ) where
  abbrev pub line : ℕ → List ℕ
  line timestamp = render (object (schema_value r id pv fv timestamp)) ++ (b'\n' ∷ [])

  -- The members from the time on, and behind it.
  abbrev behind : Members
  behind = member (codes "source") (text id) (
      member (codes "target") (text (codes "controller")) (
        member (codes "protocol_version") (text pv)
          (member (codes "schema") (object (schema_object r id pv fv)) nil)))

  abbrev timed : ℕ → Members
  timed timestamp = member (codes "timestamp") (number timestamp) behind

  length-line :
      (timestamp : ℕ)
      → length (line timestamp)
        ≡ 6
          + length (quote (codes "type"))
          + length (render (text (codes "schema")))
          + length (quote (codes "seq"))
          + length (render (number 1))
          + length (render_rest (timed timestamp))
  length-line timestamp = omega (
    arith,
    length-object (schema_value r id pv fv timestamp),
    length-render_first (codes "type") (text (codes "schema"))
        (member (codes "seq") (number 1) (timed timestamp)),
    length-render_rest (codes "seq") (number 1) (timed timestamp),
  )

  -- Only the time's digits vary.
  line-grows : (timestamp : ℕ) → length (line timestamp) ≤ length (line (2 ^ 64 - 1))
  line-grows timestamp = omega (
    arith,
    length-line timestamp,
    length-line (2 ^ 64 - 1),
    length-render_rest (codes "timestamp") (number timestamp) behind,
    length-render_rest (codes "timestamp") (number (2 ^ 64 - 1)) behind,
    length-number timestamp,
    length-number (2 ^ 64 - 1),
    length-decimal timestamp,
    length-greatest,
  )

  -- A registry and an identity that pass the check of the maximum schema size have a schema line at
  -- every time that a 64-bit clock can show, so that no session fails for the length of its schema.
  pub validate_maximum_schema_size_lem :
      {W : Type 0} (clock : Clock W) (w : W)
      → let identity : BoardIdentity = record {
        board_id = some id;
        protocol_version = some pv;
        firmware_version = some fv;
      } in
        is_ok (validate_maximum_schema_size r identity) ≡ true
        → let (timestamp, w') = clock.monotonic_milliseconds w in
          build_schema_line r identity clock w (some board_tx_max_line_bytes)
          ≡ ((ok_status, some (line timestamp)), w')
  unfolding validate_maximum_schema_size build_schema_line
  validate_maximum_schema_size_lem clock w h =
      let identity : BoardIdentity = record {
        board_id = some id;
        protocol_version = some pv;
        firmware_version = some fv;
      } in
      let time = (clock.monotonic_milliseconds w).0 in
      let built = build_schema_line_lem r identity id pv fv (2 ^ 64 - 1) refl refl refl in
      let fits =
        accepted (leb (length (line (2 ^ 64 - 1))) board_tx_max_line_bytes) (line (2 ^ 64 - 1))
          (ap (λ out. is_ok out.0) (sym built) ∙ h) in
      let short : leb (length (line time)) board_tx_max_line_bytes ≡ true =
        ground (arith, fits, line-grows time) in
      ap (λ s. (s, (clock.monotonic_milliseconds w).1))
        (build_schema_line_lem r identity id pv fv time refl refl refl
          ∙ ap (λ b. if b then (ok_status, some (line time)) else too_long) short)
