-- ===== src/Dispatch/Diagnostics.antt =====
-- src/core/DiagnosticsCommand.h: the command that answers with the counters. Its context pointer is
-- an `Option`, and its snapshot is the value of the counters.
pub mod Snapshot
use cuddly_train.Base.{
  ℕ, ◌≡◌, refl, Bool, true, false, not, List, [], ◌∷◌, Option, some, none, CString, codes, str_eq,
  if◌then◌else◌,
}
use cuddly_train.Counters.{Counters}
use cuddly_train.Protocol.{internal_error}
use cuddly_train.Registry.{CommandRegistration, Registry, register_command}
use cuddly_train.Status.{Status}
use cuddly_train.Result.{ObjectWriter, CommandResult, ok_result, error_result, add_uint64}

abbrev pub diagnostics_name : List ℕ
diagnostics_name = codes "get_counters"

module _ {H P K : Type 0} where
  -- With the handler that `handle` is for the counters.
  unfoldable pub register_diagnostics : H → Registry H P K → Status × Registry H P K
  unfolding register_command
  register_diagnostics handler r =
      register_command
        (record {
          name = some diagnostics_name;
          args = none;
          arg_count = 0;
          blocked_by_estop = false;
          blocked_by_estop_specified = true;
          handler = some handler;
        })
        r

unfoldable pub is_diagnostics_command : CString → Bool
is_diagnostics_command none = false
is_diagnostics_command (some name) = str_eq name diagnostics_name

-- The members of the snapshot, in the order of the calls.
abbrev pub snapshot_members : Counters → List (List ℕ × ℕ)
snapshot_members c =
    (codes "sessions_accepted", c.sessions_accepted)
    ∷ (codes "sessions_rejected", c.sessions_rejected)
    ∷ (codes "sessions_superseded", c.sessions_superseded)
    ∷ (codes "schemas_sent", c.schemas_sent)
    ∷ (codes "commands_received", c.commands_received)
    ∷ (codes "commands_ok", c.commands_ok)
    ∷ (codes "commands_error", c.commands_error)
    ∷ (codes "unknown_commands", c.unknown_commands)
    ∷ (codes "invalid_arguments", c.invalid_arguments)
    ∷ (codes "invalid_json", c.invalid_json)
    ∷ (codes "invalid_targets", c.invalid_targets)
    ∷ (codes "oversized_lines", c.oversized_lines)
    ∷ (codes "telemetry_sent", c.telemetry_sent)
    ∷ (codes "telemetry_coalesced", c.telemetry_coalesced)
    ∷ (codes "telemetry_dropped", c.telemetry_dropped)
    ∷ (codes "estop_received", c.estop_received)
    ∷ (codes "estop_ack_sent", c.estop_ack_sent)
    ∷ (codes "estop_apply_failed", c.estop_apply_failed)
    ∷ (codes "estop_hook_over_budget", c.estop_hook_over_budget)
    ∷ (codes "controller_loss_hook_over_budget", c.controller_loss_hook_over_budget)
    ∷ (codes "heartbeat_received", c.heartbeat_received)
    ∷ (codes "heartbeat_ack_sent", c.heartbeat_ack_sent)
    ∷ (codes "tx_failures", c.tx_failures)
    ∷ (codes "controller_disconnects", c.controller_disconnects)
    ∷ []

-- The calls in a row, until one returns `false`.
unfoldable pub write_all : List (List ℕ × ℕ) → ObjectWriter → Bool × ObjectWriter
unfolding add_uint64
write_all [] o = (true, o)
write_all ((name, value) ∷ members) o =
    let (added, o') = add_uint64 (some name) value o in
    let rest = write_all members o' in if added then rest else (false, o')

unfoldable pub write_snapshot : Counters → ObjectWriter → Bool × ObjectWriter
unfolding write_all
write_snapshot c o = write_all (snapshot_members c) o

unfoldable pub handle_diagnostics : Option Counters → ObjectWriter → CommandResult × ObjectWriter
unfolding write_snapshot ok_result error_result
handle_diagnostics none result =
    (error_result internal_error (some (codes "counters context is required")), result)
handle_diagnostics (some c) result =
    let (written, result') = write_snapshot c result in
    if not written
    then (
      error_result internal_error (some (codes "counter snapshot exceeds fixed capacity")),
      result',
    )
    else (ok_result, result')
