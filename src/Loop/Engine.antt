-- ===== src/Loop/Engine.antt =====
-- What a round of src/core/ServiceLoop.h keeps of the session, whatever lines it receives.
pub mod Outcomes
pub mod Lines
pub mod Rounds
use cuddly_train.Base.{
  ℕ, ◌≡◌, refl, ap, ◌∙◌, Bool, true, false, not, ◌&&◌, ◌||◌, List, [], ◌∷◌, Option, some, none,
  arith, if◌then◌else◌, is_some, Bool-cases, inl, inr, Option-cases,
}
use cuddly_train.Counters.{Counters, Field, invalid_targets}
use cuddly_train.Platform.{Clock}
use cuddly_train.Protocol.{BoardIdentity}
use cuddly_train.Wire.{LineView, MessageClass, OutboundSendResult, TeardownReason}
use cuddly_train.Inbound.{
  JsonLibrary, ParseOutcome, parse, ParsedCommand, ParsedEstop, ParseOutcomeKind, valid, malformed,
  structurally_invalid, unsupported_type, InboundMessageKind, no_message, command, estop, heartbeat,
}
use cuddly_train.Heartbeat.{ParsedHeartbeat}
use cuddly_train.Dispatch.{RecoverableCommandError}
use cuddly_train.Outbound.{
  Scheduler, OutboundOutcome, OutboundKind, is_telemetry, has_pending, drain_one,
  select_critical_index, drain_critical, drain_telemetry, clear_for_session_end, telemetry,
  estop_ack, heartbeat_ack, estop_triggered, command_response,
}
use cuddly_train.Loop.{
  SessionLike, Loop, Routes, SourceTarget, is_sent, is_send_failed, is_command, call_if,
  telemetry_session_active, count_sent, run_telemetry_due_check, run_safety_due_check,
  route_outcome, route_all, cancel_route_and_apply, after_drain, drain_route_and_maybe_teardown,
  service_line, unless_returned, service_outbound, unless_torn, release_if, torn_if, safety_checked,
  service, process_line, on_session, count, tear_down_if, route_valid, valid_gate,
  valid_controller_target, route_parsed, run_command, run_estop, run_heartbeat,
  route_recoverable_command_error, now_us, extract_source_target,
}

-- With nothing to send, the session is not asked to send.
pub drain_one-none :
    {S : Type 0} (send : LineView → MessageClass → S → OutboundSendResult × S) (s : Scheduler)
    (session : S)
    → (drain_one send s session).0 ≡ none
    → (drain_one send s session).2 ≡ session
unfolding drain_one drain_critical drain_telemetry
drain_one-none send s session h = ground (arith, h)

-- A drain asks for at most one send.
pub drain_one-keeps :
    {S : Type 0} (send : LineView → MessageClass → S → OutboundSendResult × S) (P : S → Type 0)
    (s : Scheduler) (session : S)
    → P session
    → ((line : LineView) (m : MessageClass) → P (send line m session).1)
    → P (drain_one send s session).2
unfolding drain_one drain_critical drain_telemetry
drain_one-keeps send P s session p q = elim (Option-cases (select_critical_index s)) [
  | inl e ↦ rw (e, drain_one) (telemetry-keeps s.telemetry_active refl)
  | inr (i, e) ↦ rw (e, drain_one) (q _ _)
]
  where
    telemetry-keeps : (b : Bool) → s.telemetry_active ≡ b → P (drain_telemetry send s session).2
    telemetry-keeps true t = rw (t, drain_telemetry) (q _ _)
    telemetry-keeps false t = rw (t, drain_telemetry) p

pub or_left : (a b : Bool) → (a || b) ≡ false → a ≡ false
or_left true b h = cc
or_left false b h = refl

-- A predicate of a function that may be null.
abbrev pub Holds {ℓ} : {A : Type ℓ} → (A → Type 0) → Option A → Type 0
Holds P none = Unit {0}
Holds P (some f) = P f

-- By cases of a function that may be null.
pub holds-elim :
    {A R : Type 0} {H : A → Type 0} (P : R → Type 0) (o : Option A) (f : A → R) (d : R)
    → Holds H o
    → ((a : A) → H a → P (f a))
    → P d
    → P (elim o [ some a ↦ f a | none ↦ d ])
holds-elim P none f d h p q = q
holds-elim P (some a) f d h p q = p a h

-- The session of a loop is kept.
abbrev pub Kept : {S V C : Type 0} → (S → Type 0) → Loop S V C → Type 0
Kept Inv e = Inv e.session

abbrev pub KeptPair : {S V C : Type 0} → (S → Type 0) → Bool × Loop S V C → Type 0
KeptPair Inv out = Inv out.1.session

-- It is kept, and no teardown is pending.
abbrev pub Quiet : {S V C : Type 0} → SessionLike S → (S → Type 0) → Loop S V C → Type 0
Quiet driver Inv e = Inv e.session × (driver.teardown_pending e.session ≡ false)

-- A check that is due keeps the session, and asks for no teardown but by its result.
abbrev pub KeepsQuiet :
    {S V C : Type 0} → SessionLike S → (S → Type 0) → (Loop S V C → Loop S V C) → Type 0
KeepsQuiet driver Inv f = (e : Loop _ _ _) → Quiet driver Inv e → Quiet driver Inv (f e)

pub kept-if :
    {R : Type 0} (P : R → Type 0) (b : Bool) (x y : R)
    → (b ≡ true → P x)
    → (b ≡ false → P y)
    → P (if b then x else y)
kept-if P true x y p q = p refl
kept-if P false x y p q = q refl

module _ {S V C Double Float : Type 0} (driver : SessionLike S) (lib : JsonLibrary V Double Float)
    (deserialize_copy : ℕ → List ℕ → Option V) (identity : BoardIdentity)
    (routes : Routes (Loop S V C) Double) (clock : Option (Clock (Loop S V C)))
    (Before Inv : S → Type 0) where
  -- What the parts of a round keep: `Before` holds of a session between two rounds.
  pub record IsKept : Type 0 where
    pub polled : (s : S) → Before s → Inv (driver.poll s)
    pub lined : (s : S) → Inv s → Inv (driver.next_line s).1
    pub released : (s : S) → Inv s → Inv (driver.release_line s)
    pub requested : (r : TeardownReason) (s : S) → Inv s → Inv (driver.request_teardown r s)
    pub applied :
        (s : S)
        → Inv s
        → Inv (driver.apply_pending_teardown s)
          × (driver.teardown_pending (driver.apply_pending_teardown s) ≡ false)
    pub sent :
        (line : LineView) (m : MessageClass) (s : S)
        → Inv s
        → Inv (driver.send_active_line line m s).1
    pub counted : (c : Counters) (s : S) → Inv s → Inv (driver.with_counters c s)
    pub read :
        Holds
          (λ (c : Clock (Loop S V C)).
            (e : Loop S V C) → Kept Inv e → Kept Inv (c.monotonic_microseconds e).1)
          clock
    pub command :
        Holds
          (λ (f : ParsedCommand Double → Loop S V C → Bool × Loop S V C).
            (x : ParsedCommand Double) (e : Loop S V C) → Kept Inv e → Kept Inv (f x e).1)
          routes.command
    pub command_with_timing :
        Holds
          (λ (f : ParsedCommand Double → ℕ → Loop S V C → Bool × Loop S V C).
            (x : ParsedCommand Double) (t : ℕ) (e : Loop S V C) → Kept Inv e → Kept Inv (f x t e).1)
          routes.command_with_timing
    pub recoverable :
        Holds
          (λ (f : RecoverableCommandError Double → Loop S V C → Loop S V C).
            (x : RecoverableCommandError Double) (e : Loop S V C) → Kept Inv e → Kept Inv (f x e))
          routes.recoverable_command_error
    pub estop :
        Holds
          (λ (f : ParsedEstop → Loop S V C → Loop S V C).
            (x : ParsedEstop) (e : Loop S V C) → Kept Inv e → Kept Inv (f x e))
          routes.estop
    pub estop_with_result :
        Holds
          (λ (f : ParsedEstop → Loop S V C → Bool × Loop S V C).
            (x : ParsedEstop) (e : Loop S V C) → Kept Inv e → Kept Inv (f x e).1)
          routes.estop_with_result
    pub heartbeat :
        Holds
          (λ (f : ParsedHeartbeat → Loop S V C → Loop S V C).
            (x : ParsedHeartbeat) (e : Loop S V C) → Kept Inv e → Kept Inv (f x e))
          routes.heartbeat
    pub heartbeat_with_result :
        Holds
          (λ (f : ParsedHeartbeat → Loop S V C → Bool × Loop S V C).
            (x : ParsedHeartbeat) (e : Loop S V C) → Kept Inv e → Kept Inv (f x e).1)
          routes.heartbeat_with_result
    pub outcome :
        Holds
          (λ (f : OutboundOutcome → Loop S V C → Loop S V C).
            (x : OutboundOutcome) (e : Loop S V C) → Kept Inv e → Kept Inv (f x e))
          routes.outbound_outcome
    pub inactive :
        Holds
          (λ (f : Loop S V C → Loop S V C). (e : Loop S V C) → Kept Inv e → Kept Inv (f e))
          routes.telemetry_inactive
    pub inactive_quiet : Holds (KeepsQuiet driver Inv) routes.telemetry_inactive
    pub due_quiet : Holds (KeepsQuiet driver Inv) routes.telemetry_due
    pub safety_quiet :
        Holds
          (λ (f : Loop S V C → Bool × Loop S V C).
            (e : Loop S V C) → Quiet driver Inv e → Quiet driver Inv (f e).1)
          routes.safety_due
