-- ===== src/Loop/Engine/Lines.antt =====
-- The lines and routes of src/core/ServiceLoop.h.
use cuddly_train.Base.{ℕ, not, ◌&&◌, List, Option, some, if◌then◌else◌}
use cuddly_train.Counters.{invalid_targets}
use cuddly_train.Platform.{Clock}
use cuddly_train.Protocol.{BoardIdentity}
use cuddly_train.Inbound.{
  JsonLibrary, ParseOutcome, parse, ParsedCommand, ParsedEstop, ParseOutcomeKind, valid, malformed,
  structurally_invalid, unsupported_type, InboundMessageKind, no_message, command, estop, heartbeat,
}
use cuddly_train.Heartbeat.{ParsedHeartbeat}
use cuddly_train.Dispatch.{RecoverableCommandError}
use cuddly_train.Loop.{
  SessionLike, Loop, Routes, SourceTarget, is_command, process_line, count, tear_down_if,
  route_valid, valid_gate, valid_controller_target, route_parsed, run_command, run_estop,
  run_heartbeat, route_recoverable_command_error, now_us,
}
use cuddly_train.Loop.Engine.{holds-elim, Kept, KeptPair, kept-if, IsKept}
use cuddly_train.Loop.Engine.Outcomes.{count-Kept, torn-Kept}

module _ {S V C Double Float : Type 0} (driver : SessionLike S) (lib : JsonLibrary V Double Float)
    (deserialize_copy : ℕ → List ℕ → Option V) (identity : BoardIdentity)
    (routes : Routes (Loop S V C) Double) (clock : Option (Clock (Loop S V C)))
    (Before Inv : S → Type 0)
    (law : IsKept driver lib deserialize_copy identity routes clock Before Inv) where
  command-Kept :
      (x : ParsedCommand Double) (t : ℕ) (e : Loop S V C)
      → Kept Inv e
      → Kept Inv (run_command driver lib deserialize_copy identity routes clock x t e).1
  command-Kept x t e k =
      holds-elim (KeptPair Inv) routes.command_with_timing _ _ law.command_with_timing
        (λ f h. h x t e k)
        (holds-elim (KeptPair Inv) routes.command _ _ law.command (λ f h. h x e k) k)

  estop-Kept :
      (x : ParsedEstop) (e : Loop S V C)
      → Kept Inv e
      → Kept Inv (run_estop driver lib deserialize_copy identity routes clock x e)
  estop-Kept x e k =
      holds-elim (Kept Inv) routes.estop _ _ law.estop (λ f h. h x e k)
        (holds-elim (Kept Inv) routes.estop_with_result _ _ law.estop_with_result
          (λ f h.
            torn-Kept driver lib deserialize_copy identity routes clock Before Inv law _ (h x e k))
          (count-Kept driver lib deserialize_copy identity routes clock Before Inv law _ e k))

  heartbeat-Kept :
      (x : ParsedHeartbeat) (e : Loop S V C)
      → Kept Inv e
      → Kept Inv (run_heartbeat driver lib deserialize_copy identity routes clock x e)
  heartbeat-Kept x e k =
      holds-elim (Kept Inv) routes.heartbeat _ _ law.heartbeat (λ f h. h x e k)
        (holds-elim (Kept Inv) routes.heartbeat_with_result _ _ law.heartbeat_with_result
          (λ f h.
            torn-Kept driver lib deserialize_copy identity routes clock Before Inv law _ (h x e k))
          k)

  kind-Kept :
      (kind : InboundMessageKind) (a b c d : Loop S V C)
      → Kept Inv a
      → Kept Inv b
      → Kept Inv c
      → Kept Inv d
      → Kept Inv (elim kind [ command ↦ a | estop ↦ b | heartbeat ↦ c | no_message ↦ d ])
  kind-Kept command a b c d p q r t = p
  kind-Kept estop a b c d p q r t = q
  kind-Kept heartbeat a b c d p q r t = r
  kind-Kept no_message a b c d p q r t = t

  valid-Kept :
      (outcome : ParseOutcome Double) (gate : SourceTarget) (t : ℕ) (e : Loop S V C)
      → Kept Inv e
      → Kept Inv (route_valid driver lib deserialize_copy identity routes clock outcome gate t e)
  unfolding route_valid
  valid-Kept outcome gate t e k =
      let refused = count driver lib deserialize_copy identity routes clock invalid_targets e in
      let counted : Kept Inv refused =
        count-Kept driver lib deserialize_copy identity routes clock Before Inv law invalid_targets
          e k in
      let ran = run_command driver lib deserialize_copy identity routes clock outcome.command t e in
      let stopped = run_estop driver lib deserialize_copy identity routes clock outcome.estop e in
      let beaten =
        run_heartbeat driver lib deserialize_copy identity routes clock outcome.heartbeat e in
      let foreign = not (valid_gate driver lib deserialize_copy identity routes clock gate) in
      let foreign_estop = not (
        valid_controller_target driver lib deserialize_copy identity routes clock
          outcome.estop.source outcome.estop.target) in
      let foreign_heartbeat = not (
        valid_controller_target driver lib deserialize_copy identity routes clock
          outcome.heartbeat.source outcome.heartbeat.target) in
      kind-Kept outcome.message_kind
        (if foreign
          then refused
          else tear_down_if driver lib deserialize_copy identity routes clock ran)
        (if foreign_estop then refused else stopped) (if foreign_heartbeat then refused else beaten)
        e
        (kept-if (Kept Inv) foreign refused
          (tear_down_if driver lib deserialize_copy identity routes clock ran) (λ h. counted)
          (λ h.
            torn-Kept driver lib deserialize_copy identity routes clock Before Inv law ran
              (command-Kept outcome.command t e k)))
        (kept-if (Kept Inv) foreign_estop refused stopped (λ h. counted)
          (λ h. estop-Kept outcome.estop e k))
        (kept-if (Kept Inv) foreign_heartbeat refused beaten (λ h. counted)
          (λ h. heartbeat-Kept outcome.heartbeat e k))
        k

  recoverable-Kept :
      (x : RecoverableCommandError Double) (e : Loop S V C)
      → Kept Inv e
      → Kept Inv
          (route_recoverable_command_error driver lib deserialize_copy identity routes clock x e)
  recoverable-Kept x e k =
      holds-elim (Kept Inv) routes.recoverable_command_error _ _ law.recoverable (λ f h. h x e k) k

  outcome_kind-Kept :
      (kind : ParseOutcomeKind) (a b c : Loop S V C)
      → Kept Inv a
      → Kept Inv b
      → Kept Inv c
      → Kept Inv (elim kind [
        | valid ↦ a
        | structurally_invalid ↦ b
        | malformed ↦ c
        | unsupported_type ↦ c
      ])
  outcome_kind-Kept valid a b c p q r = p
  outcome_kind-Kept structurally_invalid a b c p q r = q
  outcome_kind-Kept malformed a b c p q r = r
  outcome_kind-Kept unsupported_type a b c p q r = r

  parsed-Kept :
      (outcome : ParseOutcome Double) (gate : SourceTarget) (t : ℕ) (e : Loop S V C)
      → Kept Inv e
      → Kept Inv (route_parsed driver lib deserialize_copy identity routes clock outcome gate t e)
  unfolding route_parsed
  parsed-Kept outcome gate t e k =
      let passed = route_valid driver lib deserialize_copy identity routes clock outcome gate t e in
      let refused = count driver lib deserialize_copy identity routes clock invalid_targets e in
      let error : RecoverableCommandError Double = record {
        seq = outcome.seq;
        controller_ts = outcome.controller_ts;
        code = outcome.suggested_error;
      } in
      let reported =
        route_recoverable_command_error driver lib deserialize_copy identity routes clock error e in
      let foreign =
        gate.is_complete
        && not (valid_gate driver lib deserialize_copy identity routes clock gate) in
      let recovered : Loop S V C = if foreign then refused else reported in
      let recovers =
        is_command outcome.message_kind
        && outcome.has_seq
        && outcome.has_controller_ts
        && outcome.has_suggested_error in
      outcome_kind-Kept outcome.kind passed (if recovers then recovered else e) e
        (valid-Kept outcome gate t e k)
        (kept-if (Kept Inv) recovers recovered e
          (λ h.
            kept-if (Kept Inv) foreign refused reported
              (λ h.
                count-Kept driver lib deserialize_copy identity routes clock Before Inv law
                  invalid_targets e k)
              (λ h. recoverable-Kept error e k))
          (λ h. k))
        k

  now-Kept :
      (e : Loop S V C)
      → Kept Inv e
      → Kept Inv (now_us driver lib deserialize_copy identity routes clock e).1
  now-Kept e k =
      holds-elim (λ (out : ℕ × Loop S V C). Kept Inv out.1) clock _ _ law.read (λ c h. h e k) k

  pub line-Kept :
      (line : List ℕ) (e : Loop S V C)
      → Kept Inv e
      → Kept Inv (process_line driver lib deserialize_copy identity routes clock line e)
  unfolding process_line
  line-Kept line e k =
      let (outcome, parser, c) = parse lib (some line) e.parser (driver.counters e.session) in
      parsed-Kept outcome _ _ _ (now-Kept _ (law.counted c e.session k))
