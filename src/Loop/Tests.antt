-- ===== src/Loop/Tests.antt =====
-- Rounds with a session that has one line.
use cuddly_train.Base.{
  ℕ, ◌≡◌, refl, Bool, true, false, List, [], ◌∷◌, Option, some, none, CString, codes, if◌then◌else◌,
  str_eq,
}
use cuddly_train.Counters.{Counters, zero_counters, invalid_targets}
use cuddly_train.Json.Decimal.{pos}
use cuddly_train.Protocol.{BoardIdentity}
use cuddly_train.Wire.{OutboundSendResult}
use cuddly_train.Inbound.{JsonLibrary, parse, parse_document, parse_typed, parse_estop}
use cuddly_train.Inbound.Utf8.{is_valid_utf8, valid_from, sequence_at}
use cuddly_train.Outbound.{empty_entry, not_pending}
use cuddly_train.Loop.{SessionLike, Loop, Routes, count, process_line}
use cuddly_train.Loop.Address.{IsAddressed}
use cuddly_train.Loop.Routing.{routed, process_line-IsAddressed}

-- Whether a teardown is pending, and the counters.
abbrev driver : SessionLike (Bool × Counters)
driver = record {
  poll = λ s. s;
  next_line = λ s. (some (codes "{}"), s);
  release_line = λ s. s;
  teardown_pending = λ s. s.0;
  session_active = λ s. true;
  request_teardown = λ reason s. (true, s.1);
  apply_pending_teardown = λ s. (false, s.1);
  send_active_line = λ line kind s. (OutboundSendResult.sent, s);
  counters = λ s. s.1;
  with_counters = λ c s. (s.0, c);
}

-- Every line is read as an e-stop for the board `leg`.
abbrev library : JsonLibrary CString ℕ ℕ
library = record {
  deserialize = λ limit bytes. some none;
  is_object = λ v. true;
  contains_key = λ v name. true;
  get = λ v name.
      if str_eq name (codes "type")
      then some (codes "estop")
      else if str_eq name (codes "source")
      then some (codes "controller")
      else some (codes "leg");
  keys = λ v. [];
  is_text = λ v. true;
  as_text = λ v. v;
  is_seq = λ v. false;
  as_seq = λ v. 0;
  is_double = λ v. false;
  as_double = λ v. 0;
  is_int = λ v. false;
  as_int = λ v. pos 0;
  is_bool = λ v. false;
  as_bool = λ v. false;
  is_finite = λ d. true;
  to_float = λ d. d;
  zero = 0;
}

abbrev identity : BoardIdentity
identity = record {
  board_id = some (codes "arm");
  protocol_version = some (codes "1");
  firmware_version = some (codes "2.0");
}

abbrev State : Type 0
State = Loop (Bool × Counters) CString ℕ

abbrev routes : Routes State ℕ
routes = record {
  command = none;
  recoverable_command_error = none;
  estop = none;
  heartbeat = none;
  telemetry_due = some (λ e. record e { context = 1 });
  outbound_outcome = none;
  command_with_timing = none;
  telemetry_inactive = none;
  estop_with_result = some (λ stop e. (true, e));
  heartbeat_with_result = none;
  safety_due = some (λ e. (false, e));
}

abbrev start : State
start = record {
  session = (false, zero_counters);
  scheduler = record {
    entries = empty_entry ∷ empty_entry ∷ empty_entry ∷ empty_entry ∷ [];
    critical_count = 0;
    telemetry_bytes = [];
    telemetry_active = false;
    estop_triggered_state = not_pending;
  };
  parser = record { args = none; active = false; payload = none };
  context = 0;
}

abbrev copy : ℕ → List ℕ → Option CString
copy limit line = some none

process_line-IsAddressed_example :
    let (outcome, parser, c) = parse library (some (codes "{}")) start.parser zero_counters in
    let e' = record start { parser = parser; session = (false, c) } in
    let out = process_line driver library copy identity routes none (codes "{}") start in
    (IsAddressed driver library copy identity routes none outcome.message_kind outcome (codes "{}")
      → out ≡ routed driver library copy identity routes none outcome.message_kind outcome 0 e')
    × ((IsAddressed driver library copy identity routes none outcome.message_kind outcome
            (codes "{}")
          → ⊥)
        → out ≡ count driver library copy identity routes none invalid_targets e')
unfolding parse parse_document parse_typed parse_estop is_valid_utf8 valid_from sequence_at str_eq
process_line-IsAddressed_example =
    process_line-IsAddressed driver library copy identity routes none (codes "{}") start refl
