-- ===== src/Facade/Setup.antt =====
-- The calls that set up src/TeensyCommandServer.h, on a facade that has started.
use cuddly_train.Base.{
  ℕ, ◌≡◌, refl, ap, Bool, true, false, List, [], ◌∷◌, Option, arith, if◌then◌else◌, take, ltb, ◌&&◌,
}
use cuddly_train.Status.{Status, is_ok}
use cuddly_train.Protocol.{BoardIdentity, NetworkConfig}
use cuddly_train.Platform.{Clock, Network}
use cuddly_train.Registry.{
  ArgumentSpec, is_sealed, refused_as_sealed, commit_seal, register_telemetry_field,
  register_state_field, specs_of, is_null,
}
use cuddly_train.Registry.Sealed.{
  sealed_call, sets_identity, registers_command, registers_telemetry_field, registers_state_field,
  sets_telemetry_provider, sets_estop_hook, sets_controller_loss_hook, call,
}
use cuddly_train.Dispatch.{Handler}
use cuddly_train.Dispatch.Diagnostics.{register_diagnostics}
use cuddly_train.Facade.{Facade, Board, CommandSpec, Provider, Hook}
use cuddly_train.Facade.Calls.{
  on_registry, register_each, set_network_config, register_telemetry_schema, register_state_schema,
  enable_counters_diagnostic_command,
}
use cuddly_train.Facade.Calls as Calls
use cuddly_train.Facade.Launch.{start}

-- The calls of the sketch, `requestEstopTriggered` and `service` aside.
pub data SetupCall (V W : Type 0) : Type 0 where
  set_identity_call : BoardIdentity → SetupCall V W
  set_network_config_call : NetworkConfig → SetupCall V W
  register_command_call : CommandSpec → Option (Handler V W) → SetupCall V W
  register_telemetry_call register_state_call : Option (List ArgumentSpec) → ℕ → SetupCall V W
  set_provider_call : Option (Provider W) → SetupCall V W
  set_estop_hook_call set_loss_hook_call : Option (Hook W) → SetupCall V W
  enable_diagnostics_call start_call : SetupCall V W

module _ {V W : Type 0} (clock : Clock W) (network : Network W) (fuel : ℕ) where
  abbrev pub setup : SetupCall V W → Facade V W × W → Status × Facade V W × W
  setup (set_identity_call identity) (f, w) =
      let (result, f') = Calls.set_identity identity f in (result, f', w)
  setup (set_network_config_call config) (f, w) =
      let (result, f') = set_network_config config f in (result, f', w)
  setup (register_command_call spec handler) (f, w) =
      let (result, f') = Calls.register_command spec handler f in (result, f', w)
  setup (register_telemetry_call fields n) (f, w) =
      let (result, f') = register_telemetry_schema fields n f in (result, f', w)
  setup (register_state_call fields n) (f, w) =
      let (result, f') = register_state_schema fields n f in (result, f', w)
  setup (set_provider_call provider) (f, w) =
      let (result, f') = Calls.set_telemetry_provider provider f in (result, f', w)
  setup (set_estop_hook_call hook) (f, w) =
      let (result, f') = Calls.set_estop_hook hook f in (result, f', w)
  setup (set_loss_hook_call hook) (f, w) =
      let (result, f') = Calls.set_controller_loss_hook hook f in (result, f', w)
  setup enable_diagnostics_call (f, w) =
      let (result, f') = enable_counters_diagnostic_command f in (result, f', w)
  setup start_call (f, w) = start clock network fuel (f, w)

  abbrev pub run_setup : List (SetupCall V W) → Facade V W × W → Facade V W × W
  run_setup [] st = st
  run_setup (c ∷ cs) st = let (_, f, w) = setup c st in run_setup cs (f, w)

  refused-on_registry :
      (call : Board V W → Status × Board V W) (f : Facade V W) (result : Status)
      → call f.registry ≡ (result, f.registry)
      → on_registry call f ≡ (result, f)
  refused-on_registry call f result h = ap (λ out. (out.0, record f { registry = out.1 })) h

  refused-register_each :
      (register : ArgumentSpec → Board V W → Status × Board V W) (fields : List ArgumentSpec)
      (r : Board V W)
      → ((field : ArgumentSpec) → register field r ≡ (refused_as_sealed, r))
      → (register_each register fields r).1 ≡ r
  refused-register_each register [] r h = refl
  refused-register_each register (field ∷ fields) r h = rw (h field) refl

  module _ (f : Facade V W) (w : W) (h : is_sealed f.registry.lifecycle ≡ true) where
    schema-kept :
        (register : ArgumentSpec → Board V W → Status × Board V W) (fields : List ArgumentSpec)
        → ((field : ArgumentSpec) → register field f.registry ≡ (refused_as_sealed, f.registry))
        → (on_registry (register_each register fields) f).1 ≡ f
    schema-kept register fields q =
        ap (λ r. record f { registry = r }) (refused-register_each register fields f.registry q)

    kept-if :
        (b : Bool) (x : Status) (out : Status × Facade V W)
        → out.1 ≡ f
        → (let chosen : Status × Facade V W = if b then (x, f) else out in chosen.1 ≡ f)
    kept-if true x out e = refl
    kept-if false x out e = e

    setup-kept : (c : SetupCall V W) → (setup c (f, w)).1 ≡ f
    unfolding Calls.set_identity set_network_config Calls.register_command start commit_seal
        register_telemetry_schema register_state_schema Calls.set_telemetry_provider
        Calls.set_estop_hook Calls.set_controller_loss_hook enable_counters_diagnostic_command
        register_diagnostics call
    setup-kept (set_identity_call identity) =
        rw (sealed_call (sets_identity identity) f.registry h) refl
    setup-kept (set_network_config_call config) = ground (arith, h)
    setup-kept (register_command_call spec handler) =
        rw (sealed_call (registers_command _) f.registry h) refl
    setup-kept (register_telemetry_call fields n) = kept-if (ltb 0 n && is_null fields) _ _ (
        schema-kept register_telemetry_field (take n (specs_of fields))
          (λ field. sealed_call (registers_telemetry_field field) f.registry h))
    setup-kept (register_state_call fields n) = kept-if (ltb 0 n && is_null fields) _ _ (
        schema-kept register_state_field (take n (specs_of fields))
          (λ field. sealed_call (registers_state_field field) f.registry h))
    setup-kept (set_provider_call provider) =
        rw (sealed_call (sets_telemetry_provider provider) f.registry h) refl
    setup-kept (set_estop_hook_call hook) =
        rw (sealed_call (sets_estop_hook hook) f.registry h) refl
    setup-kept (set_loss_hook_call hook) =
        rw (sealed_call (sets_controller_loss_hook hook) f.registry h) refl
    setup-kept enable_diagnostics_call = rw (sealed_call (registers_command _) f.registry h) refl
    setup-kept start_call = ground (arith, h)

    start-refused :
        start clock network fuel (f, w) ≡ ((start clock network fuel (f, w)).0, f, w)
        × (is_ok (start clock network fuel (f, w)).0 ≡ false)
    unfolding start commit_seal
    start-refused = ground (arith, h)

    world-kept : (c : SetupCall V W) → (setup c (f, w)).2 ≡ w
    world-kept (set_identity_call identity) = refl
    world-kept (set_network_config_call config) = refl
    world-kept (register_command_call spec handler) = refl
    world-kept (register_telemetry_call fields n) = refl
    world-kept (register_state_call fields n) = refl
    world-kept (set_provider_call provider) = refl
    world-kept (set_estop_hook_call hook) = refl
    world-kept (set_loss_hook_call hook) = refl
    world-kept enable_diagnostics_call = refl
    world-kept start_call = ap (λ out. out.2) start-refused.0

  -- Once the registry is sealed, which a start has done, no sequence of setup calls changes anything
  -- of the facade, another start included, which is refused.
  pub run_setup-sealed :
      (calls : List (SetupCall V W)) (f : Facade V W) (w : W)
      → is_sealed f.registry.lifecycle ≡ true
      → (run_setup calls (f, w) ≡ (f, w)) × (is_ok (start clock network fuel (f, w)).0 ≡ false)
  run_setup-sealed [] f w h = (refl, (start-refused f w h).1)
  run_setup-sealed (c ∷ cs) f w h = (
    rw (setup-kept f w h c, world-kept f w h c) (run_setup-sealed cs f w h).0,
    (start-refused f w h).1,
  )
