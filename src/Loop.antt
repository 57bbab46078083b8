-- ===== src/Loop.antt =====
-- src/core/ServiceLoop.h: one round of the server. The session is the interface `SessionLike`, as it is
-- the parameter of a template in the source; a route is a function on everything that it can reach.
pub mod Engine
pub mod Address
pub mod Routing
mod Tests
use cuddly_train.Base.{
  ℕ, suc, Bool, true, false, not, ◌&&◌, ◌||◌, List, [], ◌∷◌, Option, some, none, CString, codes,
  ltb, if◌then◌else◌, is_some, str_eq, bounded_from,
}
use cuddly_train.Limits.{max_json_nesting_depth, max_board_id_bytes}
use cuddly_train.Counters.{
  Counters, Field, increment, invalid_targets, estop_apply_failed, telemetry_sent, estop_ack_sent,
  heartbeat_ack_sent,
}
use cuddly_train.Platform.{Clock}
use cuddly_train.Protocol.{BoardIdentity}
use cuddly_train.Wire.{
  LineView, MessageClass, OutboundSendResult, TeardownReason, critical_transmit_failure,
}
use cuddly_train.Heartbeat.{ParsedHeartbeat}
use cuddly_train.Inbound.{
  JsonLibrary, Parser, ParseOutcome, ParseOutcomeKind, valid, malformed, structurally_invalid,
  unsupported_type, InboundMessageKind, no_message, command, estop, heartbeat, ParsedCommand,
  ParsedEstop, parse,
}
use cuddly_train.Outbound.{
  Scheduler, OutboundKind, OutboundCompletion, OutboundOutcome, sent, send_failed,
  canceled_by_session_end, estop_ack, heartbeat_ack, telemetry, estop_triggered, command_response,
  is_telemetry, has_pending, drain_one, clear_for_session_end,
}
use cuddly_train.Dispatch.{RecoverableCommandError}

-- What the loop calls of the session, with the counters that they share.
pub record SessionLike (S : Type 0) : Type 0 where
  pub poll : S → S
  pub next_line : S → Option (List ℕ) × S
  pub release_line : S → S
  pub teardown_pending : S → Bool
  pub session_active : S → Bool
  pub request_teardown : TeardownReason → S → S
  pub apply_pending_teardown : S → S
  pub send_active_line : LineView → MessageClass → S → OutboundSendResult × S
  pub counters : S → Counters
  pub with_counters : Counters → S → S

-- The session, the scheduler, the parser, and the context of the routes.
pub record Loop (S V C : Type 0) : Type 0 where
  pub session : S
  pub scheduler : Scheduler
  pub parser : Parser V
  pub context : C

-- A null function is `none`; those with a result say whether they ask for a teardown.
pub record Routes (E Double : Type 0) : Type 0 where
  pub command : Option (ParsedCommand Double → E → Bool × E)
  pub recoverable_command_error : Option (RecoverableCommandError Double → E → E)
  pub estop : Option (ParsedEstop → E → E)
  pub heartbeat : Option (ParsedHeartbeat → E → E)
  pub telemetry_due : Option (E → E)
  pub outbound_outcome : Option (OutboundOutcome → E → E)
  pub command_with_timing : Option (ParsedCommand Double → ℕ → E → Bool × E)
  pub telemetry_inactive : Option (E → E)
  pub estop_with_result : Option (ParsedEstop → E → Bool × E)
  pub heartbeat_with_result : Option (ParsedHeartbeat → E → Bool × E)
  pub safety_due : Option (E → Bool × E)

pub record SourceTarget : Type 0 where
  pub source : List ℕ
  pub target : List ℕ
  pub is_complete : Bool

-- The result, and what stands in the destination afterwards.
abbrev pub copy_bounded : CString → ℕ → Bool × List ℕ
copy_bounded none capacity = (false, [])
copy_bounded (some source) capacity =
    if ltb capacity (bounded_from (suc capacity) source) then (false, []) else (true, source)

abbrev pub is_sent : OutboundCompletion → Bool
is_sent sent = true
is_sent _ = false

abbrev pub is_send_failed : OutboundCompletion → Bool
is_send_failed send_failed = true
is_send_failed _ = false

abbrev pub is_command : InboundMessageKind → Bool
is_command command = true
is_command _ = false

-- `deserialize_copy` is `deserializeJson` from a constant buffer, whose texts are copied into the
-- document, as against that of `lib`, which works in the line itself.
module _ {S V C Double Float : Type 0} (driver : SessionLike S) (lib : JsonLibrary V Double Float)
    (deserialize_copy : ℕ → List ℕ → Option V) (identity : BoardIdentity)
    (routes : Routes (Loop S V C) Double) (clock : Option (Clock (Loop S V C))) where
  abbrev pub on_session : (S → S) → Loop S V C → Loop S V C
  on_session f e = record e { session = f e.session }

  abbrev pub count : Field → Loop S V C → Loop S V C
  count field e = on_session (λ s. driver.with_counters (increment field (driver.counters s)) s) e

  abbrev pub no_gate : SourceTarget
  no_gate = record { source = []; target = []; is_complete = false }

  abbrev gate_of : V → SourceTarget
  gate_of root =
      let (a, source) =
        copy_bounded (lib.as_text (lib.get root (codes "source"))) max_board_id_bytes in
      let (b, target) =
        copy_bounded (lib.as_text (lib.get root (codes "target"))) max_board_id_bytes in
      if not (lib.is_object root)
      then no_gate
      else if not (lib.is_text (lib.get root (codes "source")))
          || not (lib.is_text (lib.get root (codes "target")))
      then no_gate
      else record { source = source; target = if a then target else []; is_complete = a && b }

  unfoldable pub extract_source_target : List ℕ → SourceTarget
  extract_source_target line = elim (deserialize_copy max_json_nesting_depth line) [
    | none ↦ no_gate
    | some root ↦ gate_of root
  ]

  abbrev pub is_board : List ℕ → Bool
  is_board target = elim identity.board_id [ none ↦ false | some id ↦ str_eq target id ]

  -- The two overloads of `validControllerTarget`.
  abbrev pub valid_gate : SourceTarget → Bool
  valid_gate gate =
      gate.is_complete && str_eq gate.source (codes "controller") && is_board gate.target

  abbrev pub valid_controller_target : CString → CString → Bool
  valid_controller_target none target = false
  valid_controller_target (some source) none = false
  valid_controller_target (some source) (some target) =
      str_eq source (codes "controller") && is_board target

  abbrev pub tear_down_if : Bool × Loop S V C → Loop S V C
  tear_down_if (true, e) = on_session (driver.request_teardown critical_transmit_failure) e
  tear_down_if (false, e) = e

  abbrev pub run_command : ParsedCommand Double → ℕ → Loop S V C → Bool × Loop S V C
  run_command parsed parse_completed_us e = elim routes.command_with_timing [
    | some route ↦ route parsed parse_completed_us e
    | none ↦ elim routes.command [ some route ↦ route parsed e | none ↦ (true, e) ]
  ]

  abbrev pub run_estop : ParsedEstop → Loop S V C → Loop S V C
  run_estop parsed e = elim routes.estop [
    | some route ↦ route parsed e
    | none ↦ elim routes.estop_with_result [
      | some route ↦ tear_down_if (route parsed e)
      | none ↦ count estop_apply_failed e
    ]
  ]

  abbrev pub run_heartbeat : ParsedHeartbeat → Loop S V C → Loop S V C
  run_heartbeat parsed e = elim routes.heartbeat [
    | some route ↦ route parsed e
    | none ↦ elim routes.heartbeat_with_result [
      | some route ↦ tear_down_if (route parsed e)
      | none ↦ e
    ]
  ]

  unfoldable pub route_valid : ParseOutcome Double → SourceTarget → ℕ → Loop S V C → Loop S V C
  unfolding increment
  route_valid outcome gate parse_completed_us e = elim outcome.message_kind [
    | command ↦
        if not (valid_gate gate)
        then count invalid_targets e
        else tear_down_if (run_command outcome.command parse_completed_us e)
    | estop ↦
        if not (valid_controller_target outcome.estop.source outcome.estop.target)
        then count invalid_targets e
        else run_estop outcome.estop e
    | heartbeat ↦
        if not (valid_controller_target outcome.heartbeat.source outcome.heartbeat.target)
        then count invalid_targets e
        else run_heartbeat outcome.heartbeat e
    | no_message ↦ e
  ]

  abbrev pub route_recoverable_command_error :
      RecoverableCommandError Double → Loop S V C → Loop S V C
  route_recoverable_command_error error e = elim routes.recoverable_command_error [
    | none ↦ e
    | some route ↦ route error e
  ]

  abbrev pub now_us : Loop S V C → ℕ × Loop S V C
  now_us e = elim clock [ none ↦ (0, e) | some c ↦ c.monotonic_microseconds e ]

  -- `processLine` behind the parser.
  unfoldable pub route_parsed : ParseOutcome Double → SourceTarget → ℕ → Loop S V C → Loop S V C
  unfolding route_valid increment
  route_parsed outcome gate parse_completed_us e = elim outcome.kind [
    | valid ↦ route_valid outcome gate parse_completed_us e
    | structurally_invalid ↦
        if is_command outcome.message_kind
          && outcome.has_seq
          && outcome.has_controller_ts
          && outcome.has_suggested_error
        then (if gate.is_complete && not (valid_gate gate)
            then count invalid_targets e
            else route_recoverable_command_error
                (record {
                  seq = outcome.seq;
                  controller_ts = outcome.controller_ts;
                  code = outcome.suggested_error;
                })
                e)
        else e
    | malformed ↦ e
    | unsupported_type ↦ e
  ]

  unfoldable pub process_line : List ℕ → Loop S V C → Loop S V C
  unfolding route_parsed extract_source_target
  process_line line e =
      let gate = extract_source_target line in
      let (outcome, parser, c) = parse lib (some line) e.parser (driver.counters e.session) in
      let (parse_completed_us, e') =
        now_us (record e { parser = parser; session = driver.with_counters c e.session }) in
      route_parsed outcome gate parse_completed_us e'

  abbrev pub telemetry_session_active : Loop S V C → Bool
  telemetry_session_active e =
      driver.session_active e.session && not (driver.teardown_pending e.session)

  abbrev pub call_if : Option (Loop S V C → Loop S V C) → Loop S V C → Loop S V C
  call_if none e = e
  call_if (some route) e = route e

  unfoldable pub run_telemetry_due_check : Loop S V C → Loop S V C
  run_telemetry_due_check e =
      if telemetry_session_active e
      then call_if routes.telemetry_due e
      else call_if routes.telemetry_inactive e

  -- Whether a teardown was requested.
  abbrev pub torn_if : Bool × Loop S V C → Bool × Loop S V C
  torn_if (torn, e) = (torn, tear_down_if (torn, e))

  abbrev pub safety_checked :
      Option (Loop S V C → Bool × Loop S V C) → Loop S V C → Bool × Loop S V C
  safety_checked none e = (false, e)
  safety_checked (some route) e =
      if not (telemetry_session_active e) then (false, e) else torn_if (route e)

  unfoldable pub run_safety_due_check : Loop S V C → Bool × Loop S V C
  run_safety_due_check e = safety_checked routes.safety_due e

  abbrev pub count_sent : OutboundKind → Loop S V C → Loop S V C
  count_sent telemetry e = count telemetry_sent e
  count_sent estop_ack e = count Field.estop_ack_sent e
  count_sent heartbeat_ack e = count Field.heartbeat_ack_sent e
  count_sent estop_triggered e = e
  count_sent command_response e = e

  unfoldable pub route_outcome : OutboundOutcome → Loop S V C → Loop S V C
  unfolding increment
  route_outcome o e =
      let counted = if is_sent o.completion then count_sent o.kind e else e in
      elim routes.outbound_outcome [ none ↦ counted | some route ↦ route o counted ]

  unfoldable pub route_all : List OutboundOutcome → Loop S V C → Loop S V C
  unfolding route_outcome
  route_all [] e = e
  route_all (o ∷ os) e = route_all os (route_outcome o e)

  unfoldable pub cancel_route_and_apply : Loop S V C → Loop S V C
  unfolding route_all
  cancel_route_and_apply e =
      let (batch, scheduler) = clear_for_session_end e.scheduler in
      on_session driver.apply_pending_teardown
        (call_if routes.telemetry_inactive (route_all batch (record e { scheduler = scheduler })))

  abbrev pub release_if : Bool → Loop S V C → Loop S V C
  release_if acquired e = if acquired then on_session driver.release_line e else e

  -- `drainRouteAndMaybeTeardown`, behind what was drained.
  abbrev pub after_drain : Bool → Option OutboundOutcome → Loop S V C → Bool × Loop S V C
  after_drain line_acquired none e = (false, e)
  after_drain line_acquired (some outcome) e =
      let e₁ = route_outcome outcome e in
      let e₂ =
        if driver.teardown_pending e₁.session
        then e₁
        else on_session (driver.request_teardown critical_transmit_failure) e₁ in
      if driver.teardown_pending e₁.session
        || (is_send_failed outcome.completion && not (is_telemetry outcome.kind))
      then (true, cancel_route_and_apply (release_if line_acquired e₂))
      else (false, e₁)

  unfoldable pub drain_route_and_maybe_teardown : Bool → Loop S V C → Bool × Loop S V C
  unfolding drain_one cancel_route_and_apply
  drain_route_and_maybe_teardown line_acquired e =
      let (outcome, scheduler, session) = drain_one driver.send_active_line e.scheduler e.session in
      after_drain line_acquired outcome (record e { scheduler = scheduler; session = session })

  -- The end of a round, with the line that was acquired.
  unfoldable pub service_line : Option (List ℕ) → Bool → Loop S V C → Loop S V C
  unfolding process_line drain_route_and_maybe_teardown
  service_line none drained e = e
  service_line (some line) drained e =
      let e' = on_session driver.release_line (process_line line e) in
      if driver.teardown_pending e'.session
      then cancel_route_and_apply e'
      else if not drained && has_pending e'.scheduler
      then (drain_route_and_maybe_teardown false e').1
      else e'

  abbrev pub unless_returned : Option (List ℕ) → Bool × Loop S V C → Loop S V C
  unless_returned line (true, e) = e
  unless_returned line (false, e) = service_line line true e

  -- The drain of a round and what follows.
  unfoldable pub service_outbound : Option (List ℕ) → Loop S V C → Loop S V C
  unfolding service_line
  service_outbound line e =
      if has_pending e.scheduler
      then unless_returned line (drain_route_and_maybe_teardown (is_some line) e)
      else service_line line false e

  abbrev pub unless_torn : Option (List ℕ) → Bool × Loop S V C → Loop S V C
  unless_torn line (true, e) = cancel_route_and_apply e
  unless_torn line (false, e) = service_outbound line e

  unfoldable pub service : Loop S V C → Loop S V C
  unfolding service_outbound run_telemetry_due_check run_safety_due_check
  service e =
      let (line, session) = driver.next_line (driver.poll e.session) in
      let e₁ = record e { session = session } in
      if driver.teardown_pending session
      then cancel_route_and_apply (release_if (is_some line) e₁)
      else unless_torn line (run_safety_due_check (run_telemetry_due_check e₁))
