-- ===== src/Estop.antt =====
-- src/core/EstopHandler.h: the controller's e-stop, and the board's own e-stop event, which waits in
-- the handler until the outbound scheduler reports it as sent.
pub mod Text
pub mod Linked
pub mod Steps
pub mod Delivery
pub mod History
pub mod Handle
mod Tests
use cuddly_train.Base.{
  bounded_from, ℕ, zero, suc, ◌+◌, ◌*◌, ◌||◌, Bool, true, false, not, ◌&&◌, List, [], ◌∷◌, Option,
  some, none, codes, CString, ◌==◌, ltb, if◌then◌else◌, min,
}
use cuddly_train.Limits.{board_tx_max_line_bytes, hook_budget_ms, estop_triggered_reason_max_bytes}
use cuddly_train.Counters.{
  Counters, increment, estop_received, estop_apply_failed, estop_hook_over_budget,
}
use cuddly_train.Status.{Status, status, capacity_exceeded, ok}
use cuddly_train.Platform.{Clock, read_ms, read_us, elapsed_us}
use cuddly_train.Protocol.{BoardIdentity, message_type_text, event_name_text, EventName, event}
use cuddly_train.Outbound.{
  Scheduler, OutboundKind, OutboundOutcome, OutboundEnqueueResult, OutboundCompletion,
  enqueue_critical, estop_ack, estop_triggered, mark_estop_triggered_pending, is_estop_triggered,
}
use cuddly_train.Heartbeat.{not_queued}
use cuddly_train.Json.{
  JsonWriter, Step, ◌&&>◌, add_string, add_string_bytes, add_uint64, begin_object_field, end_object,
}
use cuddly_train.Json.Line.{build_line}

pub data PendingState : Type 0 where
  empty pending_not_queued queued_awaiting_completion : PendingState

-- The reason's bytes `[0, reason_length)` are the list `reason`.
pub record EstopHandler : Type 0 where
  pub state : PendingState
  pub reason : List ℕ
  pub timestamp_ms : ℕ

abbrev pub init : EstopHandler
init = record { state = empty; reason = []; timestamp_ms = 0 }

unfoldable pub bounded_length : CString → ℕ → ℕ
bounded_length none capacity = capacity + 1
bounded_length (some value) capacity = bounded_from (suc capacity) value

abbrev pub is_empty : PendingState → Bool
is_empty empty = true
is_empty _ = false

abbrev pub is_pending_not_queued : PendingState → Bool
is_pending_not_queued pending_not_queued = true
is_pending_not_queued _ = false

abbrev pub is_queued : PendingState → Bool
is_queued queued_awaiting_completion = true
is_queued _ = false

abbrev pub accept_reason : List ℕ → ℕ → EstopHandler → EstopHandler
accept_reason reason now h = record {
  state = pending_not_queued;
  reason = reason;
  timestamp_ms = now;
}

module _ {W : Type 0} where
  unfoldable pub request_estop_triggered :
      CString
      → Option (Clock W)
      → EstopHandler × Scheduler × W
      → Status × EstopHandler × Scheduler × W
  request_estop_triggered none clock (h, s, w) =
      if not (is_empty h.state)
      then (status capacity_exceeded (codes "estop_triggered event is already pending"), h, s, w)
      else (status capacity_exceeded (codes "estop_triggered reason exceeds capacity"), h, s, w)
  request_estop_triggered (some reason) clock (h, s, w) =
      if not (is_empty h.state)
      then (status capacity_exceeded (codes "estop_triggered event is already pending"), h, s, w)
      else if ltb estop_triggered_reason_max_bytes
          (bounded_length (some reason) estop_triggered_reason_max_bytes)
      then (status capacity_exceeded (codes "estop_triggered reason exceeds capacity"), h, s, w)
      else (let (now, w') = read_ms clock w in
          (status ok (codes "ok"), accept_reason reason now h, mark_estop_triggered_pending s, w'))

abbrev pub ack_members : ℕ → BoardIdentity → Step
ack_members now identity w =
    add_string (some (codes "type")) (some (message_type_text event)) w
    &&> add_uint64 (some (codes "timestamp")) now
    &&> add_string (some (codes "source")) identity.board_id
    &&> add_string (some (codes "target")) (some (codes "controller"))
    &&> add_string (some (codes "event")) (some (event_name_text EventName.estop_ack))
    &&> begin_object_field (some (codes "details"))
    &&> add_string (some (codes "state")) (some (codes "safe"))
    &&> end_object
    &&> end_object

unfoldable pub build_estop_ack_line : ℕ → BoardIdentity → Option (List ℕ)
build_estop_ack_line now identity = build_line board_tx_max_line_bytes (ack_members now identity)

abbrev pub triggered_members : EstopHandler → BoardIdentity → Step
triggered_members h identity w =
    add_string (some (codes "type")) (some (message_type_text event)) w
    &&> add_uint64 (some (codes "timestamp")) h.timestamp_ms
    &&> add_string (some (codes "source")) identity.board_id
    &&> add_string (some (codes "target")) (some (codes "controller"))
    &&> add_string (some (codes "event")) (some (event_name_text EventName.estop_triggered))
    &&> begin_object_field (some (codes "details"))
    &&> add_string (some (codes "reason")) (some h.reason)
    &&> end_object
    &&> end_object

unfoldable pub build_estop_triggered_line : EstopHandler → BoardIdentity → Option (List ℕ)
build_estop_triggered_line h identity =
    build_line board_tx_max_line_bytes (triggered_members h identity)

-- What the safety hook and the two readings of the clock around it leave: whether the hook reports
-- the safe state, the counters, and the world. The hook is the board's code.
module _ {W : Type 0} where
  unfoldable pub run_hook : Option (Clock W) → (W → Bool × W) → Counters × W → Bool × Counters × W
  unfolding increment
  run_hook clock hook (c, w) =
      let (start, w₁) = read_us clock w in
      let (safe, w₂) = hook w₁ in
      let (took, w₃) = elapsed_us clock start w₂ in
      (
        safe,
        (if ltb (hook_budget_ms * 1000) took then increment estop_hook_over_budget c else c),
        w₃,
      )

  -- The acknowledgement, once the hook has reported the safe state.
  unfoldable pub acknowledge :
      Option (Clock W) → BoardIdentity → Scheduler × Counters × W → Bool × Scheduler × Counters × W
  unfolding increment
  acknowledge clock identity (s, c, w) =
      let (now, w') = read_ms clock w in
      elim (build_estop_ack_line now identity) [
        | none ↦ (true, s, increment estop_apply_failed c, w')
        | some line ↦
            (let (result, s') = enqueue_critical estop_ack (some line) s in
              (not_queued result, s', c, w'))
      ]

  unfoldable pub handle_estop :
      Option (Clock W)
      → Option (W → Bool × W)
      → BoardIdentity
      → Scheduler × Counters × W
      → Bool × Scheduler × Counters × W
  unfolding run_hook acknowledge increment
  handle_estop clock none identity (s, c, w) =
      (false, s, increment estop_apply_failed (increment estop_received c), w)
  handle_estop clock (some hook) identity (s, c, w) =
      let (safe, c', w') = run_hook clock hook (increment estop_received c, w) in
      if not safe
      then (false, s, increment estop_apply_failed c', w')
      else acknowledge clock identity (s, c', w')

-- The branch of `service` behind the line that was built.
abbrev pub after_enqueue :
    EstopHandler → OutboundEnqueueResult × Scheduler → Bool × EstopHandler × Scheduler
after_enqueue h (OutboundEnqueueResult.queued, s) =
    (false, record h { state = queued_awaiting_completion }, s)
after_enqueue h (OutboundEnqueueResult.invalid_line, s) = (false, h, mark_estop_triggered_pending s)
after_enqueue h (OutboundEnqueueResult.teardown_requested, s) =
    (true, h, mark_estop_triggered_pending s)

unfoldable pub service : BoardIdentity → EstopHandler × Scheduler → Bool × EstopHandler × Scheduler
service identity (h, s) =
    if not (is_pending_not_queued h.state)
    then (false, h, s)
    else elim (build_estop_triggered_line h identity) [
      | none ↦ (true, h, s)
      | some line ↦
          after_enqueue h
            (enqueue_critical estop_triggered (some line) (mark_estop_triggered_pending s))
    ]

abbrev pub is_sent : OutboundCompletion → Bool
is_sent OutboundCompletion.sent = true
is_sent _ = false

unfoldable pub on_outbound_outcome :
    OutboundOutcome → EstopHandler × Scheduler → EstopHandler × Scheduler
on_outbound_outcome o (h, s) =
    if not (is_estop_triggered o.kind) || not (is_queued h.state)
    then (h, s)
    else if is_sent o.completion
    then (record { state = empty; reason = []; timestamp_ms = 0 }, s)
    else (record h { state = pending_not_queued }, mark_estop_triggered_pending s)
