-- ===== src/Registry/Invariant.antt =====
-- The registry of src/core/CommandRegistry.h under any sequence of its operations.
use mathlib.Core.Path.{subst}
use cuddly_train.Base.{
  ℕ, ◌+◌, ◌≤◌, ◌≡◌, inl, inr, refl, true, List, [], ◌∷◌, ◌++◌, arith, length, length-append,
  length-take, take, str_eq_comm,
}
use cuddly_train.Registry.{
  CommandRegistration, ArgumentSpec, StoredField, StoredCommand, Registry, is_null, init,
  find_named, specs_of, register_command, register_telemetry_field, register_state_field,
  set_identity, set_telemetry_provider, set_estop_hook, set_controller_loss_hook, commit_seal,
  copy_arguments,
}
use cuddly_train.Registry.Names.{
  IsName, AreFields, Copied, copy_arguments-Copied, register_field-AreFields,
}
use cuddly_train.Registry.Commands.{find_named-append, Registered, register_command_lem}
use cuddly_train.Registry.Sealed.{
  Call, sets_identity, registers_command, registers_telemetry_field, registers_state_field,
  sets_telemetry_provider, sets_estop_hook, sets_controller_loss_hook, seals, call, run_calls,
}

-- At most `max_args_per_command` arguments, each in its own name.
abbrev AreCommands : {H : Type 0} → List (StoredCommand H) → Type 0
AreCommands [] = Unit {0}
AreCommands (c ∷ cs) =
    (is_null (find_named cs c.name) ≡ true)
    × IsName 48 c.name
    × AreFields c.args
    × (length c.args ≤ 8)
    × AreCommands cs

module _ {H P K : Type 0} where
  pub record IsValid (r : Registry H P K) : Type 0 where
    pub telemetry : AreFields r.telemetry_fields
    pub state : AreFields r.state_fields
    pub commands : AreCommands r.commands
    pub telemetry_room : length r.telemetry_fields ≤ 24
    pub state_room : length r.state_fields ≤ 24
    pub commands_room : length r.commands ≤ 16

module _ {H : Type 0} where
  AreCommands-append :
      (cs : List (StoredCommand H)) (c : StoredCommand H)
      → AreCommands cs
      → is_null (find_named cs c.name) ≡ true
      → IsName 48 c.name
      → AreFields c.args
      → length c.args ≤ 8
      → AreCommands (cs ++ (c ∷ []))
  unfolding find_named
  AreCommands-append [] c v e n a l = (refl, n, a, l, tt)
  AreCommands-append (d ∷ cs) c v e n a l = (
    ground (
      arith,
      e,
      find_named-append cs c d.name (ground (arith, e)),
      str_eq_comm c.name d.name,
      v.0,
    ),
    v.1,
    v.2,
    v.3,
    AreCommands-append cs c v.4 (ground (arith, e)) n a l,
  )

copied_args :
    (reg_count : ℕ) (specs : List ArgumentSpec) (args : List StoredField)
    → reg_count ≤ 8
    → copy_arguments (take reg_count specs) [] ≡ inr args
    → AreFields args × (length args ≤ 8)
copied_args n specs args few e =
    let copied =
      subst (Copied (length {A = StoredField} [] + length (take n specs))) e
        (copy_arguments-Copied (take n specs) [] tt) in
    (copied.0, ground (arith, few, copied.1, length-take n specs))

module _ {H P K : Type 0} where
  register_command-IsValid :
      (reg : CommandRegistration H) (r : Registry H P K)
      → IsValid r
      → IsValid (register_command reg r).1
  register_command-IsValid reg r v =
      let (result, r') = register_command reg r in
      elim (register_command_lem reg r) [
        | inr n ↦ rw (n.1) v
        | inl y ↦
            let done : Registered reg r r' = y.1 in
            let args =
              copied_args reg.arg_count (specs_of reg.args) done.stored.args done.few done.copied in
            rw done.others record {
              telemetry = v.telemetry;
              state = v.state;
              telemetry_room = v.telemetry_room;
              state_room = v.state_room;
              commands =
                  AreCommands-append r.commands done.stored v.commands done.new done.fits args.0
                    args.1;
              commands_room =
                  ground (arith, done.room, length-append r.commands (done.stored ∷ []));
            }
      ]

  -- Only the lists matter.
  kept-IsValid :
      (r r' : Registry H P K)
      → IsValid r
      → r'.commands ≡ r.commands
      → r'.telemetry_fields ≡ r.telemetry_fields
      → r'.state_fields ≡ r.state_fields
      → IsValid r'
  kept-IsValid r r' v c t s = record {
    telemetry = rw t v.telemetry;
    state = rw s v.state;
    commands = rw c v.commands;
    telemetry_room = rw t v.telemetry_room;
    state_room = rw s v.state_room;
    commands_room = rw c v.commands_room;
  }

  call-IsValid : (c : Call H P K) (r : Registry H P K) → IsValid r → IsValid (call c r).1
  unfolding call set_identity register_telemetry_field register_state_field set_telemetry_provider
      set_estop_hook set_controller_loss_hook commit_seal
  call-IsValid (sets_identity identity) r v =
      kept-IsValid r _ v (ground arith) (ground arith) (ground arith)
  call-IsValid (registers_command reg) r v = register_command-IsValid reg r v
  call-IsValid (registers_telemetry_field field) r v =
      let grown =
        register_field-AreFields r.lifecycle field 24 r.telemetry_fields v.telemetry
          v.telemetry_room in
      record {
        telemetry = grown.0;
        state = v.state;
        commands = v.commands;
        telemetry_room = grown.1;
        state_room = v.state_room;
        commands_room = v.commands_room;
      }
  call-IsValid (registers_state_field field) r v =
      let grown =
        register_field-AreFields r.lifecycle field 24 r.state_fields v.state v.state_room in
      record {
        telemetry = v.telemetry;
        state = grown.0;
        commands = v.commands;
        telemetry_room = v.telemetry_room;
        state_room = grown.1;
        commands_room = v.commands_room;
      }
  call-IsValid (sets_telemetry_provider provider) r v =
      kept-IsValid r _ v (ground arith) (ground arith) (ground arith)
  call-IsValid (sets_estop_hook hook) r v =
      kept-IsValid r _ v (ground arith) (ground arith) (ground arith)
  call-IsValid (sets_controller_loss_hook hook) r v =
      kept-IsValid r _ v (ground arith) (ground arith) (ground arith)
  call-IsValid seals r v = kept-IsValid r _ v (ground arith) (ground arith) (ground arith)

  run_calls-IsValid_from :
      (cs : List (Call H P K)) (r : Registry H P K) → IsValid r → IsValid (run_calls cs r)
  unfolding run_calls
  run_calls-IsValid_from [] r v = v
  run_calls-IsValid_from (c ∷ cs) r v = run_calls-IsValid_from cs (call c r).1 (call-IsValid c r v)

  -- Whatever the board's code calls, in whatever order and with whatever arguments, the registry
  -- stays within its arrays: at most sixteen commands with at most eight arguments each and at most
  -- 24 fields of either kind, where every name is there once in its list, is not empty and fits its
  -- buffer, and every type is one of the four.
  pub IsValid-run_calls : (cs : List (Call H P K)) → IsValid (run_calls cs init)
  unfolding init
  IsValid-run_calls cs = run_calls-IsValid_from cs init (record {
    telemetry = tt;
    state = tt;
    commands = tt;
    telemetry_room = omega arith;
    state_room = omega arith;
    commands_room = omega arith;
  })
