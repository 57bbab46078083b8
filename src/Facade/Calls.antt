-- ===== src/Facade/Calls.antt =====
-- The calls of src/TeensyCommandServer.h by which the sketch sets the server up.
use cuddly_train.Base.{
  ℕ, true, not, ◌&&◌, List, [], ◌∷◌, Option, some, CString, codes, ◌==◌, ltb, if◌then◌else◌, take,
}
use cuddly_train.Status.{
  Status, status, is_ok, registration_sealed, invalid_configuration, invalid_argument_schema,
}
use cuddly_train.Protocol.{BoardIdentity, NetworkConfig}
use cuddly_train.Platform.{Clock}
use cuddly_train.Estop as Estop
use cuddly_train.Registry.{
  ArgumentSpec, is_sealed, is_null, ok_status, specs_of, register_telemetry_field,
  register_state_field,
}
use cuddly_train.Dispatch.{Handler}
use cuddly_train.Dispatch.Diagnostics.{register_diagnostics, handle_diagnostics}
use cuddly_train.Facade.{
  Provider, Hook, Board, is_mode, is_static, all_zero, clock_if, CommandSpec, Facade,
}
use cuddly_train.Registry as Registry

module _ {V W : Type 0} where
  -- A call of the registry.
  abbrev pub on_registry : (Board V W → Status × Board V W) → Facade V W → Status × Facade V W
  on_registry f s = let (result, r) = f s.registry in (result, record s { registry = r })

  unfoldable pub set_identity : BoardIdentity → Facade V W → Status × Facade V W
  unfolding Registry.set_identity
  set_identity identity s =
      let (result, s') = on_registry (Registry.set_identity identity) s in
      (result, if is_ok result then record s' { identity_bound = true } else s')

  unfoldable pub set_network_config : NetworkConfig → Facade V W → Status × Facade V W
  set_network_config config s =
      if is_sealed s.registry.lifecycle
      then (status registration_sealed (codes "registry is sealed"), s)
      else if config.listen_port == 0
      then (status invalid_configuration (codes "listen port is required"), s)
      else if not (is_mode config.mode)
      then (status invalid_configuration (codes "invalid network mode"), s)
      else if is_static config.mode && all_zero config.ip
      then (status invalid_configuration (codes "static ip is required"), s)
      else (ok_status, record s { network_config = config; network_config_set = true })

  unfoldable pub register_command :
      CommandSpec → Option (Handler V W) → Facade V W → Status × Facade V W
  unfolding Registry.register_command
  register_command spec handler s =
      on_registry
        (Registry.register_command (record {
          name = spec.name;
          args = spec.args;
          arg_count = spec.arg_count;
          blocked_by_estop = spec.blocked_by_estop;
          blocked_by_estop_specified = true;
          handler = handler;
        }))
        s

  -- The loop over the fields, until one is refused.
  abbrev pub register_each :
      (ArgumentSpec → Board V W → Status × Board V W)
      → List ArgumentSpec
      → Board V W
      → Status × Board V W
  register_each register [] r = (ok_status, r)
  register_each register (field ∷ fields) r =
      let (result, r') = register field r in
      let rest = register_each register fields r' in
      if not (is_ok result) then (result, r') else rest

  unfoldable pub register_telemetry_schema :
      Option (List ArgumentSpec) → ℕ → Facade V W → Status × Facade V W
  unfolding register_telemetry_field
  register_telemetry_schema fields field_count s =
      if ltb 0 field_count && is_null fields
      then (status invalid_argument_schema (codes "telemetry fields required"), s)
      else on_registry (register_each register_telemetry_field (take field_count (specs_of fields)))
          s

  unfoldable pub register_state_schema :
      Option (List ArgumentSpec) → ℕ → Facade V W → Status × Facade V W
  unfolding register_state_field
  register_state_schema fields field_count s =
      if ltb 0 field_count && is_null fields
      then (status invalid_argument_schema (codes "state fields required"), s)
      else on_registry (register_each register_state_field (take field_count (specs_of fields))) s

  unfoldable pub set_telemetry_provider : Option (Provider W) → Facade V W → Status × Facade V W
  unfolding Registry.set_telemetry_provider
  set_telemetry_provider provider s = on_registry (Registry.set_telemetry_provider provider) s

  unfoldable pub set_estop_hook : Option (Hook W) → Facade V W → Status × Facade V W
  unfolding Registry.set_estop_hook
  set_estop_hook hook s = on_registry (Registry.set_estop_hook hook) s

  unfoldable pub set_controller_loss_hook : Option (Hook W) → Facade V W → Status × Facade V W
  unfolding Registry.set_controller_loss_hook
  set_controller_loss_hook hook s = on_registry (Registry.set_controller_loss_hook hook) s

  -- The handler of the diagnostics is given the counters as they are when it runs.
  abbrev pub diagnostics_handler : Handler V W
  diagnostics_handler seq args parser counters result w =
      let (answer, result') = handle_diagnostics (some counters) result in (answer, result', w)

  unfoldable pub enable_counters_diagnostic_command : Facade V W → Status × Facade V W
  unfolding register_diagnostics handle_diagnostics
  enable_counters_diagnostic_command s = on_registry (register_diagnostics diagnostics_handler) s

  unfoldable pub request_estop_triggered :
      Clock W → CString → Facade V W × W → Status × Facade V W × W
  unfolding Estop.request_estop_triggered
  request_estop_triggered clock reason (s, w) =
      let (result, h, scheduler, w') =
        Estop.request_estop_triggered reason (clock_if s.attached clock)
          (s.estop_handler, s.scheduler, w) in
      (result, record s { estop_handler = h; scheduler = scheduler }, w')
