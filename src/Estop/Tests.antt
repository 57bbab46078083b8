-- ===== src/Estop/Tests.antt =====
-- The e-stop at concrete inputs: the world is the time in microseconds.
use cuddly_train.Base.{
  ℕ, ◌+◌, ◌/◌, ◌≡◌, refl, Bool, true, false, List, [], ◌∷◌, ◌++◌, some, codes, arith, replicate,
}
use cuddly_train.Counters.{zero_counters, increment, estop_received}
use cuddly_train.Wire.{LineView, MessageClass, OutboundSendResult}
use cuddly_train.Platform.{Clock, read_ms}
use cuddly_train.Protocol.{BoardIdentity}
use cuddly_train.Json.Value.{render}
use cuddly_train.Outbound.{
  Scheduler, EstopTriggeredPendingState, empty_entry, enqueue_critical, estop_ack,
}
use cuddly_train.Heartbeat.{not_queued}
use cuddly_train.Estop.{
  EstopHandler, pending_not_queued, build_estop_triggered_line, build_estop_ack_line, handle_estop,
  run_hook,
}
use cuddly_train.Estop.Linked.{Linked}
use cuddly_train.Estop.Text.{event_value, build_estop_triggered_line_lem}
use cuddly_train.Estop.Handle.{ack_line, Handled, handle_estop-Handled, handle_estop-safe}
use cuddly_train.Estop.History.{Event, requests, serves, drains, ends, run, Keeps, run-Keeps}

abbrev board : BoardIdentity
board = record {
  board_id = some (codes "rover");
  protocol_version = some (codes "1");
  firmware_version = some (codes "0.1.0");
}

abbrev clock : Clock ℕ
clock = record {
  monotonic_milliseconds = λ t. (t / 1000, t + 1);
  monotonic_microseconds = λ t. (t, t + 1);
}

abbrev waiting : EstopHandler
waiting = record { state = pending_not_queued; reason = codes "lid open"; timestamp_ms = 12 }

abbrev scheduler : Scheduler
scheduler = record {
  entries = replicate 4 empty_entry;
  critical_count = 0;
  telemetry_bytes = [];
  telemetry_active = false;
  estop_triggered_state = EstopTriggeredPendingState.pending_not_queued;
}

waiting-Linked : Linked waiting scheduler
waiting-Linked = record {
  array = ground arith;
  state_agrees = refl;
  lines_agree = refl;
  reason_fits = omega arith;
}

-- The session cannot send.
abbrev refuse : LineView → MessageClass → ℕ → OutboundSendResult × ℕ
refuse view message_class t = (OutboundSendResult.deadline_expired, t + 100000)

-- The event is queued, its send fails, it is queued again, and the session ends.
abbrev history : List Event
history = serves ∷ drains ∷ serves ∷ requests (some (codes "other")) ∷ ends ∷ []

history_unsent : (run (some clock) board refuse history (waiting, scheduler, 0)).0 ≡ false
unfolding run cuddly_train.Estop.History.step cuddly_train.Outbound.drain_one
    cuddly_train.Outbound.select_critical_index cuddly_train.Estop.service
    build_estop_triggered_line cuddly_train.Json.Line.build_line cuddly_train.Json.append_bytes
    cuddly_train.Json.remaining cuddly_train.Json.add_string cuddly_train.Json.add_string_bytes
    cuddly_train.Json.write_field_prefix cuddly_train.Json.write_escaped_string
    cuddly_train.Json.write_escaped_from cuddly_train.Json.Escape.escape_byte
    cuddly_train.Json.add_uint64 cuddly_train.Json.add_number_literal
    cuddly_train.Estop.Delivery.end_session cuddly_train.Estop.Delivery.route_all
    cuddly_train.Estop.Steps.route_outcome cuddly_train.Estop.bounded_length
    cuddly_train.Estop.on_outbound_outcome cuddly_train.Estop.request_estop_triggered
    cuddly_train.Json.Decimal.decimal cuddly_train.Json.Decimal.decimal_from
    cuddly_train.Json.append_newline cuddly_train.Json.begin_object
    cuddly_train.Json.begin_object_field cuddly_train.Json.end_object cuddly_train.Json.new
    cuddly_train.Json.release_tail_reserve cuddly_train.Json.reserve_tail_bytes
    cuddly_train.Outbound.cancel_from cuddly_train.Outbound.clear_for_session_end
    cuddly_train.Outbound.drain_critical cuddly_train.Outbound.drain_telemetry enqueue_critical
    cuddly_train.Outbound.is_valid_line cuddly_train.Outbound.mark_estop_triggered_pending
    cuddly_train.Outbound.remove_critical cuddly_train.Outbound.select_from
    cuddly_train.Outbound.shift_down
history_unsent = refl

run-Keeps_example :
    let (_, h', s', _) = run (some clock) board refuse history (waiting, scheduler, 0) in
    Keeps waiting h' × Linked h' s'
run-Keeps_example =
    run-Keeps (some clock) board refuse history waiting scheduler 0 waiting-Linked refl
      history_unsent

build_estop_triggered_line_lem_example :
    build_estop_triggered_line waiting board
    ≡ some (
        render (
          event_value
            (codes "estop_triggered")
            12
            (codes "rover")
            (codes "reason")
            (codes "lid open"))
        ++ (b'\n' ∷ []))
build_estop_triggered_line_lem_example =
    build_estop_triggered_line_lem waiting (codes "rover") board refl (omega arith) (omega arith)

abbrev safe_hook : ℕ → Bool × ℕ
safe_hook t = (true, t + 500)

abbrev unsafe_hook : ℕ → Bool × ℕ
unsafe_hook t = (false, t + 500)

handle_estop-Handled_example :
    Handled
      (some clock)
      board
      (codes "rover")
      false
      scheduler
      zero_counters
      (handle_estop (some clock) (some unsafe_hook) board (scheduler, zero_counters, 0))
handle_estop-Handled_example =
    handle_estop-Handled (some clock) board (codes "rover") (some unsafe_hook) scheduler
      zero_counters 0 (ground arith) refl (omega arith)

handle_estop-safe_example :
    let (_, c', w') = run_hook (some clock) safe_hook (increment estop_received zero_counters, 0) in
    let (now, w'') = read_ms (some clock) w' in
    let (result, s') = enqueue_critical estop_ack (some (ack_line now (codes "rover"))) scheduler in
    handle_estop (some clock) (some safe_hook) board (scheduler, zero_counters, 0)
    ≡ (not_queued result, s', c', w'')
handle_estop-safe_example =
    handle_estop-safe (some clock) board (codes "rover") safe_hook scheduler zero_counters 0 refl
      (omega arith) (unfold run_hook in refl)
