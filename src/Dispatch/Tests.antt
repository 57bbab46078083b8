-- ===== src/Dispatch/Tests.antt =====
-- The dispatcher with one command, whose handler answers with an empty object.
use cuddly_train.Base.{ℕ, ◌≡◌, ◌↔◌, refl, true, false, List, [], ◌∷◌, some, none, codes, str_eq}
use cuddly_train.Counters.{zero_counters, increment, commands_received}
use cuddly_train.Json.Decimal.{pos}
use cuddly_train.Platform.{Clock}
use cuddly_train.Protocol.{BoardIdentity}
use cuddly_train.Registry.{ValueType, StoredCommand, StoredField}
use cuddly_train.Inbound.{JsonLibrary, Parser, of_parser, ParsedCommand}
use cuddly_train.Outbound.{Scheduler, empty_entry, not_pending}
use cuddly_train.Result.{ok_result, new_object}
use cuddly_train.Dispatch.Diagnostics.{handle_diagnostics}
use cuddly_train.Dispatch.Diagnostics.Snapshot.{handle_diagnostics_lem}
use cuddly_train.Dispatch.{Handler, validate_args, dispatch}
use cuddly_train.Dispatch.Declared.{HasAll, AllDeclared, validate_args-HasAll}
use cuddly_train.Dispatch.Answers.{Answered, dispatch_lem}

-- Every value is the number 5 under the only key `speed`.
abbrev library : JsonLibrary ℕ ℕ ℕ
library = record {
  deserialize = λ limit bytes. some 5;
  is_object = λ v. true;
  contains_key = λ v name. str_eq name (codes "speed");
  get = λ v name. v;
  keys = λ v. some (codes "speed") ∷ [];
  is_text = λ v. false;
  as_text = λ v. none;
  is_seq = λ v. true;
  as_seq = λ v. v;
  is_double = λ v. true;
  as_double = λ v. v;
  is_int = λ v. true;
  as_int = λ v. pos v;
  is_bool = λ v. false;
  as_bool = λ v. false;
  is_finite = λ d. true;
  to_float = λ d. d;
  zero = 0;
}

abbrev clock : Clock ℕ
clock = record { monotonic_milliseconds = λ w. (w, w); monotonic_microseconds = λ w. (w, w) }

abbrev identity : BoardIdentity
identity = record {
  board_id = some (codes "arm");
  protocol_version = some (codes "1");
  firmware_version = some (codes "2.0");
}

abbrev speed : StoredField
speed = record { name = codes "speed"; type = ValueType.int }

abbrev commands : List (StoredCommand (Handler ℕ ℕ))
commands =
    record {
      name = codes "move";
      args = speed ∷ [];
      blocked_by_estop = true;
      handler = λ seq args p c result w. (ok_result, result, w);
    }
    ∷ []

abbrev parser : Parser ℕ
parser = record { args = some 5; active = true; payload = none }

abbrev command : ParsedCommand ℕ
command = record { seq = 9; controller_ts = 1; command = some (codes "move"); args = of_parser }

abbrev empty : Scheduler
empty = record {
  entries = empty_entry ∷ empty_entry ∷ empty_entry ∷ empty_entry ∷ [];
  critical_count = 0;
  telemetry_bytes = [];
  telemetry_active = false;
  estop_triggered_state = not_pending;
}

validate_args-HasAll_example :
    (validate_args library (speed ∷ []) of_parser parser ≡ none)
    ↔ (HasAll library (speed ∷ []) 5 × AllDeclared library (speed ∷ []) (some (codes "speed") ∷ []))
validate_args-HasAll_example = validate_args-HasAll library (speed ∷ []) 5 parser refl refl

dispatch_lem_example : Answered empty (increment commands_received zero_counters) (
    dispatch library
      (λ d. codes "1")
      clock
      identity
      commands
      command
      0
      parser
      empty
      zero_counters
      0)
dispatch_lem_example =
    dispatch_lem library (λ d. codes "1") clock identity commands command 0 parser empty
      zero_counters 0

handle_diagnostics_lem_example : (handle_diagnostics (some zero_counters) new_object).0 ≡ ok_result
handle_diagnostics_lem_example = handle_diagnostics_lem zero_counters
