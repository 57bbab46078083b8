-- ===== src/Counters.antt =====
-- src/core/Counters.h: the diagnostic counters. `Counters::Field`, a pointer to a member, is the
-- type `Field`; each counter is a `uint32_t` whose increment wraps.
use cuddly_train.Base.{ℕ, ◌+◌, ◌%◌, ◌^◌}

pub record Counters : Type 0 where
  pub sessions_accepted : ℕ
  pub sessions_rejected : ℕ
  pub sessions_superseded : ℕ
  pub schemas_sent : ℕ
  pub commands_received : ℕ
  pub commands_ok : ℕ
  pub commands_error : ℕ
  pub unknown_commands : ℕ
  pub invalid_arguments : ℕ
  pub invalid_json : ℕ
  pub invalid_targets : ℕ
  pub oversized_lines : ℕ
  pub telemetry_sent : ℕ
  pub telemetry_coalesced : ℕ
  pub telemetry_dropped : ℕ
  pub estop_received : ℕ
  pub estop_ack_sent : ℕ
  pub estop_apply_failed : ℕ
  pub estop_hook_over_budget : ℕ
  pub controller_loss_hook_over_budget : ℕ
  pub heartbeat_received : ℕ
  pub heartbeat_ack_sent : ℕ
  pub tx_failures : ℕ
  pub controller_disconnects : ℕ

pub data Field : Type 0 where
  sessions_accepted : Field
  sessions_rejected : Field
  sessions_superseded : Field
  schemas_sent : Field
  commands_received : Field
  commands_ok : Field
  commands_error : Field
  unknown_commands : Field
  invalid_arguments : Field
  invalid_json : Field
  invalid_targets : Field
  oversized_lines : Field
  telemetry_sent : Field
  telemetry_coalesced : Field
  telemetry_dropped : Field
  estop_received : Field
  estop_ack_sent : Field
  estop_apply_failed : Field
  estop_hook_over_budget : Field
  controller_loss_hook_over_budget : Field
  heartbeat_received : Field
  heartbeat_ack_sent : Field
  tx_failures : Field
  controller_disconnects : Field

-- `++value` on a `uint32_t`.
abbrev pub bump : ℕ → ℕ
bump n = (n + 1) % 2 ^ 32

unfoldable pub increment : Field → Counters → Counters
increment sessions_accepted c = record c { sessions_accepted = bump c.sessions_accepted }
increment sessions_rejected c = record c { sessions_rejected = bump c.sessions_rejected }
increment sessions_superseded c = record c { sessions_superseded = bump c.sessions_superseded }
increment schemas_sent c = record c { schemas_sent = bump c.schemas_sent }
increment commands_received c = record c { commands_received = bump c.commands_received }
increment commands_ok c = record c { commands_ok = bump c.commands_ok }
increment commands_error c = record c { commands_error = bump c.commands_error }
increment unknown_commands c = record c { unknown_commands = bump c.unknown_commands }
increment invalid_arguments c = record c { invalid_arguments = bump c.invalid_arguments }
increment invalid_json c = record c { invalid_json = bump c.invalid_json }
increment invalid_targets c = record c { invalid_targets = bump c.invalid_targets }
increment oversized_lines c = record c { oversized_lines = bump c.oversized_lines }
increment telemetry_sent c = record c { telemetry_sent = bump c.telemetry_sent }
increment telemetry_coalesced c = record c { telemetry_coalesced = bump c.telemetry_coalesced }
increment telemetry_dropped c = record c { telemetry_dropped = bump c.telemetry_dropped }
increment estop_received c = record c { estop_received = bump c.estop_received }
increment estop_ack_sent c = record c { estop_ack_sent = bump c.estop_ack_sent }
increment estop_apply_failed c = record c { estop_apply_failed = bump c.estop_apply_failed }
increment estop_hook_over_budget c = record c {
  estop_hook_over_budget = bump c.estop_hook_over_budget;
}
increment controller_loss_hook_over_budget c = record c {
  controller_loss_hook_over_budget = bump c.controller_loss_hook_over_budget;
}
increment heartbeat_received c = record c { heartbeat_received = bump c.heartbeat_received }
increment heartbeat_ack_sent c = record c { heartbeat_ack_sent = bump c.heartbeat_ack_sent }
increment tx_failures c = record c { tx_failures = bump c.tx_failures }
increment controller_disconnects c = record c {
  controller_disconnects = bump c.controller_disconnects;
}

abbrev pub zero_counters : Counters
zero_counters = record {
  sessions_accepted = 0;
  sessions_rejected = 0;
  sessions_superseded = 0;
  schemas_sent = 0;
  commands_received = 0;
  commands_ok = 0;
  commands_error = 0;
  unknown_commands = 0;
  invalid_arguments = 0;
  invalid_json = 0;
  invalid_targets = 0;
  oversized_lines = 0;
  telemetry_sent = 0;
  telemetry_coalesced = 0;
  telemetry_dropped = 0;
  estop_received = 0;
  estop_ack_sent = 0;
  estop_apply_failed = 0;
  estop_hook_over_budget = 0;
  controller_loss_hook_over_budget = 0;
  heartbeat_received = 0;
  heartbeat_ack_sent = 0;
  tx_failures = 0;
  controller_disconnects = 0;
}
