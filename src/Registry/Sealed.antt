-- ===== src/Registry/Sealed.antt =====
-- The operations of src/core/CommandRegistry.h as data, for registries that are sealed.
use cuddly_train.Base.{◌≡◌, refl, true, List, [], ◌∷◌, Option, arith}
use cuddly_train.Status.{Status}
use cuddly_train.Protocol.{BoardIdentity}
use cuddly_train.Registry.{
  CommandRegistration, ArgumentSpec, Registry, is_sealed, refused_as_sealed, set_identity,
  register_command, register_telemetry_field, register_state_field, register_field,
  set_telemetry_provider, set_estop_hook, set_controller_loss_hook, commit_seal,
}

-- The calls that change a registry.
pub data Call (H P K : Type 0) : Type 0 where
  sets_identity : BoardIdentity → Call H P K
  registers_command : CommandRegistration H → Call H P K
  registers_telemetry_field registers_state_field : ArgumentSpec → Call H P K
  sets_telemetry_provider : Option P → Call H P K
  sets_estop_hook sets_controller_loss_hook : Option K → Call H P K
  seals : Call H P K

module _ {H P K : Type 0} where
  unfoldable pub call : Call H P K → Registry H P K → Status × Registry H P K
  call (sets_identity identity) r = set_identity identity r
  call (registers_command reg) r = register_command reg r
  call (registers_telemetry_field field) r = register_telemetry_field field r
  call (registers_state_field field) r = register_state_field field r
  call (sets_telemetry_provider provider) r = set_telemetry_provider provider r
  call (sets_estop_hook hook) r = set_estop_hook hook r
  call (sets_controller_loss_hook hook) r = set_controller_loss_hook hook r
  call seals r = commit_seal r

  unfoldable pub run_calls : List (Call H P K) → Registry H P K → Registry H P K
  run_calls [] r = r
  run_calls (c ∷ cs) r = run_calls cs (call c r).1

  pub sealed_call :
      (c : Call H P K) (r : Registry H P K)
      → is_sealed r.lifecycle ≡ true
      → call c r ≡ (refused_as_sealed, r)
  unfolding call set_identity register_command register_telemetry_field register_state_field
      register_field set_telemetry_provider set_estop_hook set_controller_loss_hook commit_seal
  sealed_call (sets_identity identity) r h = ground (arith, h)
  sealed_call (registers_command reg) r h = ground (arith, h)
  sealed_call (registers_telemetry_field field) r h = ground (arith, h)
  sealed_call (registers_state_field field) r h = ground (arith, h)
  sealed_call (sets_telemetry_provider provider) r h = ground (arith, h)
  sealed_call (sets_estop_hook hook) r h = ground (arith, h)
  sealed_call (sets_controller_loss_hook hook) r h = ground (arith, h)
  sealed_call seals r h = ground (arith, h)

  commit_seal-seals : (r : Registry H P K) → is_sealed (commit_seal r).1.lifecycle ≡ true
  unfolding commit_seal
  commit_seal-seals r = ground arith

  run_calls-sealed :
      (cs : List (Call H P K)) (r : Registry H P K)
      → is_sealed r.lifecycle ≡ true
      → run_calls cs r ≡ r
  unfolding run_calls
  run_calls-sealed [] r h = refl
  run_calls-sealed (c ∷ cs) r h = rw (sealed_call c r h) (run_calls-sealed cs r h)

  -- Once the registry is sealed, which `commitSeal` always achieves, it never changes again: every
  -- call of any kind is refused with the code for a sealed registry, and no sequence of calls leaves
  -- anything but the registry that was sealed.
  pub commit_seal_lem :
      (cs : List (Call H P K)) (c : Call H P K) (r : Registry H P K)
      → let (_, r') = commit_seal r in
        (run_calls cs r' ≡ r') × (call c (run_calls cs r') ≡ (refused_as_sealed, r'))
  commit_seal_lem cs c r =
      let (_, r') = commit_seal r in
      let done = commit_seal-seals r in
      let still = run_calls-sealed cs r' done in (still, rw still (sealed_call c r' done))
