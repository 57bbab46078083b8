-- ===== src/Loop/Routing.antt =====
-- `processLine` of src/core/ServiceLoop.h: where a valid message goes.
use cuddly_train.Base.{
  ℕ, ◌≡◌, ◌∙◌, refl, Bool, true, false, not, List, Option, some, Bool-cases, inl, inr,
  if◌then◌else◌,
}
use cuddly_train.Counters.{invalid_targets}
use cuddly_train.Platform.{Clock}
use cuddly_train.Protocol.{BoardIdentity}
use cuddly_train.Inbound.{
  JsonLibrary, ParseOutcome, valid, InboundMessageKind, no_message, command, estop, heartbeat,
  parse,
}
use cuddly_train.Loop.{
  SourceTarget, SessionLike, Loop, Routes, count, route_valid, route_parsed, process_line,
  extract_source_target, now_us, tear_down_if, run_command, run_estop, run_heartbeat,
}
use cuddly_train.Loop.Address.{IsAddressed, passes, passes-IsAddressed, IsAddressed-passes}

if-not {ℓ} : {A : Type ℓ} (b : Bool) (x y : A) → (if not b then y else x) ≡ (if b then x else y)
if-not true x y = refl
if-not false x y = refl

if_true {ℓ} : {A : Type ℓ} {b : Bool} (x y : A) → b ≡ true → (if b then x else y) ≡ x
if_true x y e = rw e refl

if_false {ℓ} : {A : Type ℓ} {b : Bool} (x y : A) → b ≡ false → (if b then x else y) ≡ y
if_false x y e = rw e refl

module _ {S V C Double Float : Type 0} (driver : SessionLike S) (lib : JsonLibrary V Double Float)
    (deserialize_copy : ℕ → List ℕ → Option V) (identity : BoardIdentity)
    (routes : Routes (Loop S V C) Double) (clock : Option (Clock (Loop S V C))) where
  -- The route that a message takes.
  abbrev pub routed : InboundMessageKind → ParseOutcome Double → ℕ → Loop S V C → Loop S V C
  routed command outcome t e =
      tear_down_if driver lib deserialize_copy identity routes clock
        (run_command driver lib deserialize_copy identity routes clock outcome.command t e)
  routed estop outcome t e =
      run_estop driver lib deserialize_copy identity routes clock outcome.estop e
  routed heartbeat outcome t e =
      run_heartbeat driver lib deserialize_copy identity routes clock outcome.heartbeat e
  routed no_message outcome t e = e

  route_valid-passes :
      (kind : InboundMessageKind) (outcome : ParseOutcome Double) (line : List ℕ) (t : ℕ)
      (e : Loop S V C)
      → outcome.message_kind ≡ kind
      → route_valid driver lib deserialize_copy identity routes clock outcome
          (extract_source_target driver lib deserialize_copy identity routes clock line)
          t
          e
        ≡ (if passes driver lib deserialize_copy identity routes clock kind outcome line
            then routed kind outcome t e
            else count driver lib deserialize_copy identity routes clock invalid_targets e)
  unfolding route_valid
  route_valid-passes command outcome line t e k =
      rw k
        (if-not (passes driver lib deserialize_copy identity routes clock command outcome line) _ _)
  route_valid-passes estop outcome line t e k =
      rw k
        (if-not (passes driver lib deserialize_copy identity routes clock estop outcome line) _ _)
  route_valid-passes heartbeat outcome line t e k =
      rw k (
        if-not (passes driver lib deserialize_copy identity routes clock heartbeat outcome line) _
          _)
  route_valid-passes no_message outcome line t e k = rw k refl

  route_parsed-valid :
      (outcome : ParseOutcome Double) (gate : SourceTarget) (t : ℕ) (e : Loop S V C)
      → outcome.kind ≡ valid
      → route_parsed driver lib deserialize_copy identity routes clock outcome gate t e
        ≡ route_valid driver lib deserialize_copy identity routes clock outcome gate t e
  unfolding route_parsed
  route_parsed-valid outcome gate t e v = rw v refl

  -- Every valid message is routed by its address, and by nothing else: behind the parse and the reading
  -- of the clock, a message from the controller to this board takes exactly the route of its kind, and
  -- any other one reaches no route and does nothing but count one invalid target. The address of a
  -- command is that of the document of its line, where the board's name has at most 48 bytes.
  pub process_line-IsAddressed :
      (line : List ℕ) (e : Loop S V C)
      → let (outcome, parser, c) = parse lib (some line) e.parser (driver.counters e.session) in
        let (t, e') =
          now_us driver lib deserialize_copy identity routes clock
            (record e { parser = parser; session = driver.with_counters c e.session }) in
        let out = process_line driver lib deserialize_copy identity routes clock line e in
        outcome.kind ≡ valid
        → (IsAddressed driver lib deserialize_copy identity routes clock outcome.message_kind
              outcome line
            → out ≡ routed outcome.message_kind outcome t e')
          × ((IsAddressed driver lib deserialize_copy identity routes clock outcome.message_kind
                  outcome line
                → ⊥)
              → out ≡ count driver lib deserialize_copy identity routes clock invalid_targets e')
  unfolding process_line
  process_line-IsAddressed line e v =
      let (outcome, parser, c) = parse lib (some line) e.parser (driver.counters e.session) in
      let (t, e') =
        now_us driver lib deserialize_copy identity routes clock
          (record e { parser = parser; session = driver.with_counters c e.session }) in
      let kind = outcome.message_kind in
      let gate = extract_source_target driver lib deserialize_copy identity routes clock line in
      let split =
        route_parsed-valid outcome gate t e' v ∙ route_valid-passes kind outcome line t e' refl in
      (
        λ h.
            split
            ∙ if_true _ _ (
                IsAddressed-passes driver lib deserialize_copy identity routes clock kind outcome
                  line h),
        λ n.
            split
            ∙ elim (Bool-cases
                (passes driver lib deserialize_copy identity routes clock kind outcome line)) [
                  | inl p ↦ absurd (
                      n (
                        passes-IsAddressed driver lib deserialize_copy identity routes clock kind
                          outcome line p))
                  | inr p ↦ if_false _ _ p
                ],
      )
