-- ===== src/Schema/Line.antt =====
-- The text of the schema line of src/core/SchemaBuilder.h.
use mathlib.Core.Path.{fun_ext}
use cuddly_train.Base.{
  ℕ, ◌+◌, ◌<◌, ◌≡◌, ◌∙◌, sym, refl, ap, Bool, true, false, List, [], ◌∷◌, ◌++◌, some, none, codes,
  arith, leb, if◌then◌else◌, length,
}
use cuddly_train.Limits.{board_tx_max_line_bytes}
use cuddly_train.Status.{status, capacity_exceeded}
use cuddly_train.Protocol.{BoardIdentity}
use cuddly_train.Registry.{StoredField, StoredCommand, Registry, ok_status}
use cuddly_train.Json.{
  JsonWriter, Step, ◌&&>◌, add_string, add_uint64, add_bool, begin_object_field, end_object,
}
use cuddly_train.Json.Line.{build_line}
use cuddly_train.Json.Value.{Value, Members, text, number, boolean, object, nil, member, render}
use cuddly_train.Json.Members.{write_member, write_members, AreWithin}
use cuddly_train.Json.Members.Text.{write_object, build_line-write_object}
use cuddly_train.Schema.{
  value_type_string, write_each, write_fields, write_command, write_commands_from, write_commands,
  write_schema_object, schema_members, schema_result, build_schema_line_with_timestamp,
}

-- The schema as a JSON value.
unfoldable pub fields_value : List StoredField → Members
fields_value [] = nil
fields_value (f ∷ fs) = member f.name (text (value_type_string f.type)) (fields_value fs)

module _ {H : Type 0} where
  abbrev pub command_value : StoredCommand H → Value
  command_value c = object (
      member (codes "args") (object (fields_value c.args))
        (member (codes "blocked_by_estop") (boolean c.blocked_by_estop) nil))

  unfoldable pub commands_value : List (StoredCommand H) → Members
  commands_value [] = nil
  commands_value (c ∷ cs) = member c.name (command_value c) (commands_value cs)

module _ {H P K : Type 0} (registry : Registry H P K)
    (board_id protocol_version firmware_version : List ℕ) where
  abbrev pub schema_object : Members
  schema_object = member (codes "commands") (object (commands_value registry.commands)) (
      member (codes "telemetry") (object (fields_value registry.telemetry_fields)) (
        member (codes "state") (object (fields_value registry.state_fields))
          (member (codes "firmware_version") (text firmware_version) nil)))

  abbrev pub schema_value : ℕ → Members
  schema_value timestamp = member (codes "type") (text (codes "schema")) (
      member (codes "seq") (number 1) (
        member (codes "timestamp") (number timestamp) (
          member (codes "source") (text board_id) (
            member (codes "target") (text (codes "controller")) (
              member (codes "protocol_version") (text protocol_version)
                (member (codes "schema") (object schema_object) nil))))))

-- What the calls write is the value.
-- A row of calls, grouped to the left as the source writes it and to the right as a value is written.
unfoldable left : Bool × JsonWriter → List Step → Bool × JsonWriter
left out [] = out
left out (k ∷ ks) = left (out &&> k) ks

unfoldable right : List Step → Step
right [] w = (true, w)
right (k ∷ ks) w = k w &&> right ks

then-then : (out : Bool × JsonWriter) (k l : Step) → (out &&> k &&> l) ≡ (out &&> (λ w. k w &&> l))
then-then (true, w) k l = refl
then-then (false, w) k l = refl

then-return : (out : Bool × JsonWriter) → (out &&> (λ w. (true, w))) ≡ out
then-return (true, w) = refl
then-return (false, w) = refl

left-right : (out : Bool × JsonWriter) (ks : List Step) → left out ks ≡ (out &&> right ks)
unfolding left right
left-right out [] = sym (then-return out)
left-right out (k ∷ ks) = left-right (out &&> k) ks ∙ then-then out k (right ks)

then-object :
    (out : Bool × JsonWriter) (a b c : Step)
    → (out &&> a &&> b &&> c) ≡ (out &&> (λ w. a w &&> b &&> c))
then-object (true, w) a b c = refl
then-object (false, w) a b c = refl

write_each-members : (fs : List StoredField) → write_each fs ≡ write_members (fields_value fs)
unfolding write_each fields_value write_members write_member
write_each-members [] = refl
write_each-members (f ∷ fs) =
    ap (λ k. λ w. add_string (some f.name) (some (value_type_string f.type)) w &&> k)
      (write_each-members fs)

write_fields-member :
    (name : List ℕ) (fs : List StoredField)
    → write_fields name fs ≡ write_member name (object (fields_value fs))
unfolding write_fields write_members write_member
write_fields-member name fs =
    ap (λ k. λ w. begin_object_field (some name) w &&> k &&> end_object) (write_each-members fs)

module _ {H : Type 0} where
  write_command-member :
      (c : StoredCommand H) → write_command c ≡ write_member c.name (command_value c)
  unfolding write_command write_members write_member left right
  write_command-member c = fun_ext (λ w.
      let start = begin_object_field (some c.name) w in
      let flag = add_bool (some (codes "blocked_by_estop")) c.blocked_by_estop in
      let args = write_member (codes "args") (object (fields_value c.args)) in
      ap
        (λ k.
          start
          &&> begin_object_field (some (codes "args"))
          &&> k
          &&> end_object
          &&> flag
          &&> end_object)
        (write_each-members c.args)
      ∙ ap (λ out. out &&> flag &&> end_object)
          (then-object start (begin_object_field (some (codes "args")))
            (write_members (fields_value c.args)) end_object)
      ∙ ap (λ out. out &&> end_object) (left-right start (args ∷ flag ∷ [])))

  write_commands_from-members :
      (cs : List (StoredCommand H)) → write_commands_from cs ≡ write_members (commands_value cs)
  unfolding write_commands_from commands_value write_members write_member
  write_commands_from-members [] = refl
  write_commands_from-members (c ∷ cs) =
      ap (λ k. λ w. k w &&> write_commands_from cs) (write_command-member c)
      ∙ ap (λ k. λ w. write_member c.name (command_value c) w &&> k)
          (write_commands_from-members cs)

  write_commands-member :
      (cs : List (StoredCommand H))
      → write_commands cs ≡ write_member (codes "commands") (object (commands_value cs))
  unfolding write_commands write_members write_member
  write_commands-member cs =
      ap (λ k. λ w. begin_object_field (some (codes "commands")) w &&> k &&> end_object)
        (write_commands_from-members cs)

AreWithin-fields_value : (depth : ℕ) (fs : List StoredField) → AreWithin depth (fields_value fs)
unfolding AreWithin fields_value
AreWithin-fields_value depth [] = tt
AreWithin-fields_value depth (f ∷ fs) = (tt, AreWithin-fields_value depth fs)

AreWithin-commands_value :
    {H : Type 0}
    → (depth : ℕ) (cs : List (StoredCommand H)) → depth < 7
    → AreWithin depth (commands_value cs)
unfolding AreWithin commands_value
AreWithin-commands_value depth [] h = tt
AreWithin-commands_value depth (c ∷ cs) h = (
  (omega (arith, h), ((omega (arith, h), AreWithin-fields_value (depth + 1 + 1) c.args), (tt, tt))),
  AreWithin-commands_value depth cs h,
)

schema_result-if :
    (b : Bool) (line : List ℕ)
    → schema_result (if b then some line else none) ≡ (
        if b
        then (ok_status, some line)
        else (status capacity_exceeded (codes "schema exceeds transmit limit"), none))
schema_result-if true line = refl
schema_result-if false line = refl

module _ {H P K : Type 0} (r : Registry H P K) (identity : BoardIdentity) (id pv fv : List ℕ) where
  write_schema_object-member :
      identity.firmware_version ≡ some fv
      → write_schema_object r identity
        ≡ write_member (codes "schema") (object (schema_object r id pv fv))
  unfolding write_schema_object write_members write_member left right
  write_schema_object-member f = fun_ext (λ w.
      let start = begin_object_field (some (codes "schema")) w in
      let commands = write_member (codes "commands") (object (commands_value r.commands)) in
      let telemetry = write_member (codes "telemetry") (object (fields_value r.telemetry_fields)) in
      let state = write_member (codes "state") (object (fields_value r.state_fields)) in
      let version = add_string (some (codes "firmware_version")) (some fv) in
      rw
        (
          f,
          write_commands-member r.commands,
          write_fields-member (codes "telemetry") r.telemetry_fields,
          write_fields-member (codes "state") r.state_fields,
        )
        (ap (λ out. out &&> end_object)
          (left-right start (commands ∷ telemetry ∷ state ∷ version ∷ []))))

  schema_members-object :
      (timestamp : ℕ)
      → identity.board_id ≡ some id
      → identity.protocol_version ≡ some pv
      → identity.firmware_version ≡ some fv
      → schema_members r identity timestamp ≡ write_object (schema_value r id pv fv timestamp)
  unfolding write_members write_member left right
  schema_members-object timestamp b p f = fun_ext (λ w.
      let start = add_string (some (codes "type")) (some (codes "schema")) w in
      let seq = add_uint64 (some (codes "seq")) 1 in
      let time = add_uint64 (some (codes "timestamp")) timestamp in
      let source = add_string (some (codes "source")) (some id) in
      let target = add_string (some (codes "target")) (some (codes "controller")) in
      let version = add_string (some (codes "protocol_version")) (some pv) in
      let schema = write_member (codes "schema") (object (schema_object r id pv fv)) in
      rw (write_schema_object-member f, b, p)
        (ap (λ out. out &&> end_object)
          (left-right start (seq ∷ time ∷ source ∷ target ∷ version ∷ schema ∷ []))))

  AreWithin-schema_value : (timestamp : ℕ) → AreWithin 1 (schema_value r id pv fv timestamp)
  unfolding AreWithin
  AreWithin-schema_value timestamp =
      let commands = AreWithin-commands_value 3 r.commands (omega arith) in
      let telemetry = AreWithin-fields_value 3 r.telemetry_fields in
      let state = AreWithin-fields_value 3 r.state_fields in
      (
        tt,
        (
          tt,
          (
            tt,
            (
              tt,
              (
                tt,
                (
                  tt,
                  (
                    (
                      omega arith,
                      (
                        (omega arith, commands),
                        ((omega arith, telemetry), ((omega arith, state), (tt, tt))),
                      ),
                    ),
                    tt,
                  ),
                ),
              ),
            ),
          ),
        ),
      )

  -- For an identity with its three texts, the schema is the JSON object with the board's identity and
  -- everything that is registered, and one newline: every command with its arguments, their types and
  -- its flag, the telemetry fields, the state fields, and the firmware version. The builder yields it
  -- exactly when it is at most 8192 bytes long, and otherwise reports that it exceeds the limit.
  pub build_schema_line_lem :
      (timestamp : ℕ)
      → identity.board_id ≡ some id
      → identity.protocol_version ≡ some pv
      → identity.firmware_version ≡ some fv
      → let line = render (object (schema_value r id pv fv timestamp)) ++ (b'\n' ∷ []) in
        build_schema_line_with_timestamp r identity timestamp (some board_tx_max_line_bytes) ≡ (
          if leb (length line) board_tx_max_line_bytes
          then (ok_status, some line)
          else (status capacity_exceeded (codes "schema exceeds transmit limit"), none))
  unfolding build_schema_line_with_timestamp
  build_schema_line_lem timestamp b p f =
      let line = render (object (schema_value r id pv fv timestamp)) ++ (b'\n' ∷ []) in
      ap (λ k. schema_result (build_line board_tx_max_line_bytes k))
        (schema_members-object timestamp b p f)
      ∙ ap schema_result (
          build_line-write_object (schema_value r id pv fv timestamp)
            (AreWithin-schema_value timestamp))
      ∙ schema_result-if (leb (length line) board_tx_max_line_bytes) line
