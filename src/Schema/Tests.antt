-- ===== src/Schema/Tests.antt =====
-- The schema of a board with one command.
use cuddly_train.Base.{
  ℕ, ◌^◌, ◌-◌, ◌≡◌, ◌∙◌, refl, ap, true, List, [], ◌∷◌, ◌++◌, some, none, codes, leb, if◌then◌else◌,
  length,
}
use cuddly_train.Limits.{board_tx_max_line_bytes}
use cuddly_train.Status.{is_ok, status, capacity_exceeded}
use cuddly_train.Protocol.{BoardIdentity}
use cuddly_train.Platform.{Clock}
use cuddly_train.Registry.{Registry, Lifecycle, ValueType, ok_status}
use cuddly_train.Json.Decimal.{decimal}
use cuddly_train.Json.Escape.{escape, escape_byte}
use cuddly_train.Json.Value.{object, render}
use cuddly_train.Schema.{
  build_schema_line_with_timestamp, build_schema_line, validate_maximum_schema_size,
}
use cuddly_train.Schema.Line.{schema_value, build_schema_line_lem, fields_value, commands_value}
use cuddly_train.Schema.Bounds.{validate_maximum_schema_size_lem}

abbrev board : Registry ℕ ℕ ℕ
board = record {
  lifecycle = Lifecycle.mutable;
  identity_set = true;
  board_id = codes "arm";
  protocol_version = codes "1";
  firmware_version = codes "2.0";
  commands =
      record {
        name = codes "move";
        args = record { name = codes "speed"; type = ValueType.int } ∷ [];
        blocked_by_estop = true;
        handler = 7;
      }
      ∷ [];
  telemetry_fields = record { name = codes "volts"; type = ValueType.float } ∷ [];
  state_fields = [];
  telemetry_provider = some 1;
  estop_hook = some 2;
  controller_loss_hook = some 3;
}

abbrev identity : BoardIdentity
identity = record {
  board_id = some (codes "arm");
  protocol_version = some (codes "1");
  firmware_version = some (codes "2.0");
}

abbrev clock : Clock ℕ
clock = record { monotonic_milliseconds = λ w. (w, w); monotonic_microseconds = λ w. (w, w) }

abbrev expected : List ℕ
expected =
    codes
      "{\"type\":\"schema\",\"seq\":1,\"timestamp\":42,\"source\":\"arm\",\"target\":\"controller\",\"protocol_version\":\"1\",\"schema\":{\"commands\":{\"move\":{\"args\":{\"speed\":\"int\"},\"blocked_by_estop\":true}},\"telemetry\":{\"volts\":\"float\"},\"state\":{},\"firmware_version\":\"2.0\"}}"

value_is_expected :
    render (object (schema_value board (codes "arm") (codes "1") (codes "2.0") 42)) ≡ expected
unfolding render decimal escape escape_byte fields_value commands_value
value_is_expected = refl

build_schema_line_lem_example :
    let line =
      render (object (schema_value board (codes "arm") (codes "1") (codes "2.0") 42))
      ++ (b'\n' ∷ []) in
    build_schema_line_with_timestamp board identity 42 (some board_tx_max_line_bytes) ≡ (
      if leb (length line) board_tx_max_line_bytes
      then (ok_status, some line)
      else (status capacity_exceeded (codes "schema exceeds transmit limit"), none))
build_schema_line_lem_example =
    build_schema_line_lem board identity (codes "arm") (codes "1") (codes "2.0") 42 refl refl refl

abbrev greatest_line : List ℕ
greatest_line =
    render (object (schema_value board (codes "arm") (codes "1") (codes "2.0") (2 ^ 64 - 1)))
    ++ (b'\n' ∷ [])

greatest_fits : leb (length greatest_line) board_tx_max_line_bytes ≡ true
unfolding render decimal escape escape_byte fields_value commands_value
greatest_fits = refl

accepted : is_ok (validate_maximum_schema_size board identity) ≡ true
unfolding validate_maximum_schema_size
accepted =
    ap (λ out. is_ok out.0)
      (build_schema_line_lem board identity (codes "arm") (codes "1") (codes "2.0") (2 ^ 64 - 1)
        refl refl refl)
    ∙ rw greatest_fits refl

validate_maximum_schema_size_lem_example :
    build_schema_line board identity clock 42 (some board_tx_max_line_bytes) ≡ (
      (
        ok_status,
        some (
            render (object (schema_value board (codes "arm") (codes "1") (codes "2.0") 42))
            ++ (b'\n' ∷ [])),
      ),
      42,
    )
validate_maximum_schema_size_lem_example =
    validate_maximum_schema_size_lem board (codes "arm") (codes "1") (codes "2.0") clock 42 accepted
