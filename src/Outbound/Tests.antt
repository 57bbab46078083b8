-- ===== src/Outbound/Tests.antt =====
-- The outbound scheduler at concrete inputs.
use mathlib.Core.Logic.{◌⊎◌}
use cuddly_train.Base.{
  ℕ, suc, ◌≡◌, ◌≢◌, ◌↔◌, ◌<◌, ◌≤◌, refl, true, false, List, [], ◌∷◌, ◌++◌, some, none, arith,
}
use cuddly_train.Wire.{LineView, MessageClass, OutboundSendResult}
use cuddly_train.Outbound.{
  command_response, heartbeat_ack, estop_triggered, Scheduler, enqueue_critical, drain_one,
  select_critical_index, clear_for_session_end, has_pending, EstopTriggeredPendingState,
  empty_entry, queued, canceled, telemetry, pending_not_queued, teardown_requested,
}
use cuddly_train.Outbound.Queue.{IsValid, queue, queued_entry}
use cuddly_train.Outbound.Accepted.{IsCritical, enqueue_critical-IsCritical}
use cuddly_train.Outbound.Drain.{SentCritical, SentTelemetry, drain_one_lem}
use cuddly_train.Outbound.Cancel.{cancellations, clear_for_session_end_lem}

abbrev line : ℕ → List ℕ
line b = b ∷ b'\n' ∷ []

-- A heartbeat acknowledgement, a response and an e-stop event wait, and telemetry.
abbrev busy : Scheduler
busy = record {
  entries =
      queued_entry heartbeat_ack (some (line b'h'))
      ∷ queued_entry command_response (some (line b'r'))
      ∷ queued_entry estop_triggered (some (line b'e'))
      ∷ empty_entry
      ∷ [];
  critical_count = 3;
  telemetry_bytes = line b't';
  telemetry_active = true;
  estop_triggered_state = EstopTriggeredPendingState.in_queue;
}

busy-IsValid : IsValid busy
busy-IsValid = ground arith

-- The session sends every line, and counts them.
abbrev send : LineView → MessageClass → ℕ → OutboundSendResult × ℕ
send view message_class n = (OutboundSendResult.sent, suc n)

-- The e-stop event is sent first, although it came last.
drains_most_urgent : select_critical_index busy ≡ some 2
unfolding select_critical_index
drains_most_urgent = refl

enqueue_critical-IsCritical_example :
    let (result, s') = enqueue_critical command_response (some (line b'x')) busy in
    IsValid s'
    × (s'.telemetry_active ≡ true)
    × ((result ≡ queued) ↔ (IsCritical command_response (some (line b'x')) × (3 < 4)))
    × ((result ≡ teardown_requested) ↔ (IsCritical command_response (some (line b'x')) × (4 ≤ 3)))
    × (result ≡ queued
        → queue s' ≡ queue busy ++ (queued_entry command_response (some (line b'x')) ∷ []))
    × (result ≢ queued → s' ≡ busy)
enqueue_critical-IsCritical_example =
    enqueue_critical-IsCritical command_response (some (line b'x')) busy busy-IsValid

drain_one_lem_example :
    SentCritical send busy 0 (drain_one send busy 0)
    ⊎ SentTelemetry send busy 0 (drain_one send busy 0)
    ⊎ ((has_pending busy ≡ false) × (drain_one send busy 0 ≡ (none, busy, 0)))
drain_one_lem_example = drain_one_lem send busy 0 busy-IsValid

clear_for_session_end_lem_example :
    let (batch, s') = clear_for_session_end busy in
    (batch ≡ cancellations (queue busy) ++ (canceled telemetry ∷ []))
    × (has_pending s' ≡ false)
    × (queue s' ≡ [])
    × (s'.estop_triggered_state ≡ pending_not_queued)
    × IsValid s'
clear_for_session_end_lem_example = clear_for_session_end_lem busy busy-IsValid
