-- ===== src/Registry.antt =====
-- src/core/CommandRegistry.h, with the specifications of src/api/CommandTypes.h: what the board's
-- code registers before the server starts. An array with its count is the list of its first `count`
-- elements, and a stored text is the list of its bytes. Handlers, providers and hooks are functions
-- of the board, each with its context pointer.
pub mod Text
pub mod Names
pub mod Stored
pub mod Commands
pub mod Acceptance
pub mod Invariant
pub mod Sealed
pub mod Identity
mod Tests
use Text.{
  CopyResult, is_copied, copy_required, copy_status, valid_required_string, string_failure_code,
}
use cuddly_train.Base.{
  ◌⊎◌, inl, inr, ℕ, ◌+◌, Bool, true, false, not, ◌&&◌, ◌||◌, List, [], ◌∷◌, ◌++◌, Option, some,
  none, CString, codes, ◌==◌, ltb, leb, if◌then◌else◌, length, take, str_eq,
}
use cuddly_train.Limits.{
  max_registered_commands, max_args_per_command, max_board_id_bytes, max_protocol_version_bytes,
  max_firmware_version_bytes, max_command_name_bytes, max_arg_name_bytes, max_field_name_bytes,
  max_telemetry_fields, max_state_fields,
}
use cuddly_train.Status.{
  Status, StatusCode, status, ok, duplicate_registration, registration_sealed, capacity_exceeded,
  invalid_name, invalid_argument_schema, invalid_configuration, no_telemetry_provider,
  no_estop_hook, no_controller_loss_hook,
}
use cuddly_train.Protocol.{BoardIdentity}

-- `other` is a value outside the enumeration, which a cast can make.
pub data ValueType : Type 0 where
  int float bool string other : ValueType

abbrev pub valid_value_type : ValueType → Bool
valid_value_type other = false
valid_value_type _ = true

pub record ArgumentSpec : Type 0 where
  pub name : CString
  pub type : ValueType

-- `StoredArgument` and `StoredField`.
pub record StoredField : Type 0 where
  pub name : List ℕ
  pub type : ValueType

pub data Lifecycle : Type 0 where
  mutable sealed : Lifecycle

pub record CommandRegistration (H : Type 0) : Type 0 where
  pub name : CString
  pub args : Option (List ArgumentSpec)
  pub arg_count : ℕ
  pub blocked_by_estop : Bool
  pub blocked_by_estop_specified : Bool
  pub handler : Option H

pub record StoredCommand (H : Type 0) : Type 0 where
  pub name : List ℕ
  pub args : List StoredField
  pub blocked_by_estop : Bool
  pub handler : H

pub record Registry (H P K : Type 0) : Type 0 where
  pub lifecycle : Lifecycle
  pub identity_set : Bool
  pub board_id : List ℕ
  pub protocol_version : List ℕ
  pub firmware_version : List ℕ
  pub commands : List (StoredCommand H)
  pub telemetry_fields : List StoredField
  pub state_fields : List StoredField
  pub telemetry_provider : Option P
  pub estop_hook : Option K
  pub controller_loss_hook : Option K

module _ {H P K : Type 0} where
  unfoldable pub init : Registry H P K
  init = record {
    lifecycle = mutable;
    identity_set = false;
    board_id = [];
    protocol_version = [];
    firmware_version = [];
    commands = [];
    telemetry_fields = [];
    state_fields = [];
    telemetry_provider = none;
    estop_hook = none;
    controller_loss_hook = none;
  }

abbrev pub is_null {ℓ} : {A : Type ℓ} → Option A → Bool
is_null none = true
is_null (some a) = false

abbrev pub is_sealed : Lifecycle → Bool
is_sealed sealed = true
is_sealed mutable = false

abbrev pub refused_as_sealed : Status
refused_as_sealed = status registration_sealed (codes "registry is sealed")

abbrev pub ok_status : Status
ok_status = status ok (codes "ok")

-- `argumentNameExists` and `fieldNameExists`.
unfoldable pub field_name_exists : List StoredField → List ℕ → Bool
field_name_exists [] name = false
field_name_exists (f ∷ fs) name = str_eq f.name name || field_name_exists fs name

module _ {H : Type 0} where
  unfoldable pub find_named : List (StoredCommand H) → List ℕ → Option (StoredCommand H)
  find_named [] name = none
  find_named (c ∷ cs) name = if str_eq c.name name then some c else find_named cs name

  unfoldable pub find_command : List (StoredCommand H) → CString → Option (StoredCommand H)
  unfolding find_named
  find_command cs none = none
  find_command cs (some name) = find_named cs name

-- The body of the loop over the arguments, and the loop: the arguments, or the status of a refusal.
unfoldable pub copy_argument : ArgumentSpec → List StoredField → Status ⊎ List StoredField
copy_argument spec pending =
    let (result, name) = copy_required spec.name max_arg_name_bytes in
    if not (valid_value_type spec.type)
    then inl (status invalid_argument_schema (codes "invalid argument type"))
    else if not (is_copied result)
    then inl (copy_status result invalid_argument_schema (codes "invalid argument name"))
    else if field_name_exists pending name
    then inl (status duplicate_registration (codes "duplicate argument"))
    else inr (pending ++ (record { name = name; type = spec.type } ∷ []))

unfoldable pub copy_arguments : List ArgumentSpec → List StoredField → Status ⊎ List StoredField
unfolding copy_argument
copy_arguments [] pending = inr pending
copy_arguments (spec ∷ specs) pending = elim (copy_argument spec pending) [
  | inl refusal ↦ inl refusal
  | inr pending' ↦ copy_arguments specs pending'
]

abbrev pub specs_of : Option (List ArgumentSpec) → List ArgumentSpec
specs_of none = []
specs_of (some specs) = specs

abbrev pub text_of : CString → List ℕ
text_of none = []
text_of (some text) = text

module _ {H P K : Type 0} where
  unfoldable pub set_identity : BoardIdentity → Registry H P K → Status × Registry H P K
  set_identity identity r =
      let (a, board_id) = copy_required identity.board_id max_board_id_bytes in
      let (b, protocol_version) =
        copy_required identity.protocol_version max_protocol_version_bytes in
      let (c, firmware_version) =
        copy_required identity.firmware_version max_firmware_version_bytes in
      let r₁ = record r { board_id = board_id } in
      let r₂ = record r₁ { protocol_version = protocol_version } in
      let r₃ = record r₂ { firmware_version = firmware_version } in
      if is_sealed r.lifecycle
      then (refused_as_sealed, r)
      else if not (is_copied a)
      then (copy_status a invalid_name (codes "invalid board id"), r₁)
      else if not (is_copied b)
      then (copy_status b invalid_configuration (codes "invalid protocol version"), r₂)
      else if not (is_copied c)
      then (copy_status c invalid_configuration (codes "invalid firmware version"), r₃)
      else (ok_status, record r₃ { identity_set = true })

  -- The registration behind its checks, with the arguments that the loop has copied.
  abbrev pub store_command :
      CommandRegistration H
      → H
      → Status ⊎ List StoredField
      → Registry H P K
      → Status × Registry H P K
  store_command reg handler (inl refusal) r = (refusal, r)
  store_command reg handler (inr args) r = (
    ok_status,
    record r {
      commands =
          r.commands
          ++ (record {
            name = text_of reg.name;
            args = args;
            blocked_by_estop = reg.blocked_by_estop;
            handler = handler;
          }
              ∷ []);
    },
  )

  unfoldable pub register_handled :
      CommandRegistration H → H → Registry H P K → Status × Registry H P K
  unfolding copy_arguments find_command
  register_handled reg handler r =
      if ltb max_args_per_command reg.arg_count
      then (status capacity_exceeded (codes "too many command arguments"), r)
      else if ltb 0 reg.arg_count && is_null reg.args
      then (status invalid_argument_schema (codes "argument specs are required"), r)
      else if leb max_registered_commands (length r.commands)
      then (status capacity_exceeded (codes "too many commands"), r)
      else if not (valid_required_string reg.name max_command_name_bytes)
      then (
        status (string_failure_code reg.name max_command_name_bytes invalid_name)
            (codes "invalid command name"),
        r,
      )
      else if not (is_null (find_command r.commands reg.name))
      then (status duplicate_registration (codes "duplicate command"), r)
      else store_command reg handler (copy_arguments (take reg.arg_count (specs_of reg.args)) []) r

  abbrev pub register_checked :
      CommandRegistration H → Option H → Registry H P K → Status × Registry H P K
  register_checked reg none r =
      (status invalid_configuration (codes "command handler is required"), r)
  register_checked reg (some handler) r = register_handled reg handler r

  unfoldable pub register_command : CommandRegistration H → Registry H P K → Status × Registry H P K
  unfolding register_handled
  register_command reg r =
      if is_sealed r.lifecycle
      then (refused_as_sealed, r)
      else if not reg.blocked_by_estop_specified
      then (status invalid_argument_schema (codes "blocked_by_estop must be explicit"), r)
      else register_checked reg reg.handler r

-- `registerField`, on one of the two arrays of fields. `FieldSpec` has the members of an argument's.
unfoldable pub register_field :
    Lifecycle → ArgumentSpec → ℕ → List StoredField → Status × List StoredField
register_field lifecycle field capacity fields =
    let (result, name) = copy_required field.name max_field_name_bytes in
    if is_sealed lifecycle
    then (refused_as_sealed, fields)
    else if leb capacity (length fields)
    then (status capacity_exceeded (codes "too many fields"), fields)
    else if not (valid_value_type field.type)
    then (status invalid_argument_schema (codes "invalid field type"), fields)
    else if not (is_copied result)
    then (copy_status result invalid_name (codes "invalid field name"), fields)
    else if field_name_exists fields name
    then (status duplicate_registration (codes "duplicate field"), fields)
    else (ok_status, fields ++ (record { name = name; type = field.type } ∷ []))

module _ {H P K : Type 0} where
  unfoldable pub register_telemetry_field : ArgumentSpec → Registry H P K → Status × Registry H P K
  unfolding register_field
  register_telemetry_field field r =
      let (result, fields) =
        register_field r.lifecycle field max_telemetry_fields r.telemetry_fields in
      (result, record r { telemetry_fields = fields })

  unfoldable pub register_state_field : ArgumentSpec → Registry H P K → Status × Registry H P K
  unfolding register_field
  register_state_field field r =
      let (result, fields) = register_field r.lifecycle field max_state_fields r.state_fields in
      (result, record r { state_fields = fields })

  unfoldable pub set_telemetry_provider : Option P → Registry H P K → Status × Registry H P K
  set_telemetry_provider provider r =
      if is_sealed r.lifecycle
      then (refused_as_sealed, r)
      else if is_null provider
      then (status no_telemetry_provider (codes "telemetry provider is required"), r)
      else (ok_status, record r { telemetry_provider = provider })

  unfoldable pub set_estop_hook : Option K → Registry H P K → Status × Registry H P K
  set_estop_hook hook r =
      if is_sealed r.lifecycle
      then (refused_as_sealed, r)
      else if is_null hook
      then (status no_estop_hook (codes "e-stop hook is required"), r)
      else (ok_status, record r { estop_hook = hook })

  unfoldable pub set_controller_loss_hook : Option K → Registry H P K → Status × Registry H P K
  set_controller_loss_hook hook r =
      if is_sealed r.lifecycle
      then (refused_as_sealed, r)
      else if is_null hook
      then (status no_controller_loss_hook (codes "controller-loss hook is required"), r)
      else (ok_status, record r { controller_loss_hook = hook })

  unfoldable pub validate_metadata_for_seal : Registry H P K → Status
  validate_metadata_for_seal r =
      if not r.identity_set
      then status invalid_configuration (codes "identity is required")
      else if is_null r.telemetry_provider
      then status no_telemetry_provider (codes "telemetry provider is required")
      else if is_null r.estop_hook
      then status no_estop_hook (codes "e-stop hook is required")
      else if is_null r.controller_loss_hook
      then status no_controller_loss_hook (codes "controller-loss hook is required")
      else ok_status

  unfoldable pub commit_seal : Registry H P K → Status × Registry H P K
  commit_seal r =
      if is_sealed r.lifecycle
      then (refused_as_sealed, r)
      else (ok_status, record r { lifecycle = sealed })
