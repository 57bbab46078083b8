-- ===== src/Registry/Tests.antt =====
-- The registry at concrete inputs.
use cuddly_train.Base.{ℕ, ◌≡◌, ◌⊎◌, refl, true, false, List, [], ◌∷◌, some, codes, str_eq_refl}
use cuddly_train.Status.{is_ok}
use cuddly_train.Protocol.{BoardIdentity}
use cuddly_train.Registry.{
  ValueType, Lifecycle, ArgumentSpec, CommandRegistration, Registry, init, find_command,
  field_name_exists, set_identity, register_command, register_handled, copy_arguments,
  copy_argument, find_named, validate_metadata_for_seal,
}
use cuddly_train.Registry.Commands.{Registered}
use cuddly_train.Registry.Acceptance.{IsAcceptable, register_command-Acceptance}
use cuddly_train.Registry.Sealed.{
  Call, sets_identity, registers_command, registers_telemetry_field, sets_telemetry_provider,
  sets_estop_hook, sets_controller_loss_hook, run_calls,
}
use cuddly_train.Registry.Invariant.{IsValid, IsValid-run_calls}
use cuddly_train.Registry.Identity.{set_identity_lem}

abbrev speed : ArgumentSpec
speed = record { name = some (codes "speed"); type = ValueType.int }

abbrev move : CommandRegistration ℕ
move = record {
  name = some (codes "move");
  args = some (speed ∷ []);
  arg_count = 1;
  blocked_by_estop = true;
  blocked_by_estop_specified = true;
  handler = some 7;
}

abbrev board : BoardIdentity
board = record {
  board_id = some (codes "arm");
  protocol_version = some (codes "1");
  firmware_version = some (codes "2.0");
}

-- Another board, whose protocol version is too long.
abbrev other_board : BoardIdentity
other_board = record {
  board_id = some (codes "leg");
  protocol_version = some (codes "1.0.0.0.0");
  firmware_version = some (codes "2.0");
}

abbrev calls : List (Call ℕ ℕ ℕ)
calls =
    sets_identity board
    ∷ registers_command move
    ∷ registers_telemetry_field speed
    ∷ sets_telemetry_provider (some 1)
    ∷ sets_estop_hook (some 2)
    ∷ sets_controller_loss_hook (some 3)
    ∷ []

abbrev empty : Registry ℕ ℕ ℕ
empty = record {
  lifecycle = Lifecycle.mutable;
  identity_set = true;
  board_id = codes "arm";
  protocol_version = codes "1";
  firmware_version = codes "2.0";
  commands = [];
  telemetry_fields = [];
  state_fields = [];
  telemetry_provider = some 1;
  estop_hook = some 2;
  controller_loss_hook = some 3;
}

move_is_accepted : is_ok (register_command move empty).0 ≡ true
unfolding register_command register_handled copy_arguments copy_argument find_command
    field_name_exists
move_is_accepted = refl

twice_is_refused : is_ok (register_command move (register_command move empty).1).0 ≡ false
unfolding register_command register_handled copy_arguments copy_argument find_command find_named
    field_name_exists
twice_is_refused = rw (str_eq_refl (codes "move")) refl

register_command-Acceptance_example :
    let (result, r') = register_command move empty in
    ((is_ok result ≡ true) × Registered move empty r')
    ⊎ ((is_ok result ≡ false) × (r' ≡ empty) × (IsAcceptable move empty → ⊥))
register_command-Acceptance_example = register_command-Acceptance move empty

IsValid-run_calls_example : IsValid (run_calls calls init)
IsValid-run_calls_example = IsValid-run_calls calls

set_identity_lem_example :
    let (result, r') = set_identity other_board empty in
    (is_ok result ≡ false)
    × (some (codes "leg") ≡ some r'.board_id)
    × (r'.protocol_version ≡ [])
    × (is_ok (validate_metadata_for_seal r') ≡ true)
unfolding validate_metadata_for_seal
set_identity_lem_example = set_identity_lem other_board empty refl refl refl refl
