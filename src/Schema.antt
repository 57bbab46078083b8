-- ===== src/Schema.antt =====
-- src/core/SchemaBuilder.h: the first line of a session, which tells the controller what the board
-- has registered. The builder's buffer is the line that it returns beside its status, and a null
-- buffer is `none` in place of its capacity.
pub mod Line
pub mod Bounds
mod Tests
use cuddly_train.Base.{ℕ, ◌-◌, ◌^◌, Bool, true, List, [], ◌∷◌, Option, some, none, CString, codes}
use cuddly_train.Limits.{schema_json_buffer_bytes}
use cuddly_train.Status.{Status, status, capacity_exceeded, invalid_configuration}
use cuddly_train.Protocol.{BoardIdentity, message_type_text, schema}
use cuddly_train.Platform.{Clock}
use cuddly_train.Registry.{
  ValueType, int, float, bool, string, other, StoredField, StoredCommand, Registry, ok_status,
}
use cuddly_train.Json.{
  JsonWriter, Step, ◌&&>◌, add_string, add_uint64, add_bool, begin_object_field, end_object,
}
use cuddly_train.Json.Line.{build_line}

abbrev pub value_type_string : ValueType → List ℕ
value_type_string int = codes "int"
value_type_string float = codes "float"
value_type_string bool = codes "bool"
value_type_string string = codes "string"
value_type_string other = []

-- The loop over the fields of an object.
unfoldable pub write_each : List StoredField → Step
write_each [] w = (true, w)
write_each (f ∷ fs) w =
    add_string (some f.name) (some (value_type_string f.type)) w &&> write_each fs

unfoldable pub write_fields : List ℕ → List StoredField → Step
unfolding write_each
write_fields object_name fields w =
    begin_object_field (some object_name) w &&> write_each fields &&> end_object

module _ {H : Type 0} where
  -- The body of the loop over the commands, and the loop.
  unfoldable pub write_command : StoredCommand H → Step
  unfolding write_each
  write_command c w =
      begin_object_field (some c.name) w
      &&> begin_object_field (some (codes "args"))
      &&> write_each c.args
      &&> end_object
      &&> add_bool (some (codes "blocked_by_estop")) c.blocked_by_estop
      &&> end_object

  unfoldable pub write_commands_from : List (StoredCommand H) → Step
  unfolding write_command
  write_commands_from [] w = (true, w)
  write_commands_from (c ∷ cs) w = write_command c w &&> write_commands_from cs

  unfoldable pub write_commands : List (StoredCommand H) → Step
  unfolding write_commands_from
  write_commands commands w =
      begin_object_field (some (codes "commands")) w &&> write_commands_from commands &&> end_object

module _ {H P K : Type 0} where
  unfoldable pub write_schema_object : Registry H P K → BoardIdentity → Step
  unfolding write_commands write_fields
  write_schema_object registry identity w =
      begin_object_field (some (codes "schema")) w
      &&> write_commands registry.commands
      &&> write_fields (codes "telemetry") registry.telemetry_fields
      &&> write_fields (codes "state") registry.state_fields
      &&> add_string (some (codes "firmware_version")) identity.firmware_version
      &&> end_object

  -- The calls behind `beginObject()`.
  abbrev pub schema_members : Registry H P K → BoardIdentity → ℕ → Step
  schema_members registry identity timestamp w =
      add_string (some (codes "type")) (some (message_type_text schema)) w
      &&> add_uint64 (some (codes "seq")) 1
      &&> add_uint64 (some (codes "timestamp")) timestamp
      &&> add_string (some (codes "source")) identity.board_id
      &&> add_string (some (codes "target")) (some (codes "controller"))
      &&> add_string (some (codes "protocol_version")) identity.protocol_version
      &&> write_schema_object registry identity
      &&> end_object

abbrev pub schema_result : Option (List ℕ) → Status × Option (List ℕ)
schema_result none = (status capacity_exceeded (codes "schema exceeds transmit limit"), none)
schema_result (some line) = (ok_status, some line)

module _ {H P K : Type 0} where
  unfoldable pub build_schema_line_with_timestamp :
      Registry H P K → BoardIdentity → ℕ → Option ℕ → Status × Option (List ℕ)
  unfolding build_line write_schema_object
  build_schema_line_with_timestamp registry identity timestamp none =
      (status invalid_configuration (codes "schema buffer is required"), none)
  build_schema_line_with_timestamp registry identity timestamp (some capacity) =
      schema_result (build_line capacity (schema_members registry identity timestamp))

  -- The clock reads the time of the world.
  unfoldable pub build_schema_line :
      {W : Type 0}
      → Registry H P K
      → BoardIdentity
      → Clock W
      → W
      → Option ℕ
      → (Status × Option (List ℕ)) × W
  unfolding build_schema_line_with_timestamp
  build_schema_line registry identity clock w buffer =
      let (timestamp, w') = clock.monotonic_milliseconds w in
      (build_schema_line_with_timestamp registry identity timestamp buffer, w')

  unfoldable pub validate_maximum_schema_size : Registry H P K → BoardIdentity → Status
  unfolding build_schema_line_with_timestamp
  validate_maximum_schema_size registry identity =
      (build_schema_line_with_timestamp registry identity (2 ^ 64 - 1)
        (some schema_json_buffer_bytes)).0
