-- ===== src/Facade/Tests.antt =====
-- A facade that is set up, on a network that nobody connects to; the world is its time.
use cuddly_train.Base.{
  ℕ, ◌+◌, ◌≡◌, ◌⊎◌, refl, true, false, List, [], ◌∷◌, Option, some, none, CString, codes, arith,
  length, if◌then◌else◌, str_eq,
}
use cuddly_train.Json.{
  append_bytes, remaining, add_string, add_string_bytes, write_field_prefix, write_escaped_string,
  write_escaped_from, add_uint64, add_number_literal, begin_object_field, end_object,
}
use cuddly_train.Json.Escape.{escape_byte}
use cuddly_train.Json.Decimal.{pos, decimal}
use cuddly_train.Counters.{zero_counters}
use cuddly_train.Status.{is_ok}
use cuddly_train.Protocol.{NetworkConfig, dhcp}
use cuddly_train.Wire.{ConnectionHandle, invalid_connection, is_open, ready}
use cuddly_train.Platform.{Clock, Network}
use cuddly_train.Session.Reading.{IsFinite}
use cuddly_train.Inbound.{JsonLibrary, parse}
use cuddly_train.Inbound.Utf8.{is_valid_utf8}
use cuddly_train.Registry.{mutable, sealed}
use cuddly_train.Estop as Estop
use cuddly_train.Outbound.{empty_entry, not_pending}
use cuddly_train.Facade.{Facade, Board, new_session, registry_identity}
use cuddly_train.Facade.Launch.{start}
use cuddly_train.Facade.Service.{Round, load, driver, facade_routes, loop_clock}
use cuddly_train.Facade.Rounds.{Usable, Settled, facade-IsKept}
use cuddly_train.Loop as Loop
use cuddly_train.Loop.Engine.{Quiet}
use cuddly_train.Loop.Engine.Rounds.{service-Quiet}
use cuddly_train.Framer.Invariant.{init-IsValid}
use cuddly_train.Session.Teardown.{IsSettled}
use cuddly_train.Facade.Start.{IsSetUp, IsStarted, start_lem}
use cuddly_train.Facade.Setup.{
  SetupCall, set_network_config_call, enable_diagnostics_call, run_setup, run_setup-sealed,
}
use cuddly_train.Facade.Routing.{process_facade_line, process_line-structural}
use cuddly_train.Facade.History.{
  Step, serves, reports, sets_up, IsRunning, run_steps, start-IsRunning,
}

abbrev clock : Clock ℕ
clock = record {
  monotonic_milliseconds = λ w. (w, w + 1);
  monotonic_microseconds = λ w. (w, w + 1);
}

abbrev network : Network ℕ
network = record {
  progress = λ (w : ℕ). w + 1;
  availability = λ (w : ℕ). (ready, w);
  listen = λ port (w : ℕ). (true, w);
  is_listening = λ (w : ℕ). (true, w);
  has_pending_connection = λ (w : ℕ). (false, w);
  accept = λ (w : ℕ). (invalid_connection, w);
  has_transport = λ h (w : ℕ). (false, w);
  abort = λ h (w : ℕ). w;
  connection_state = λ h (w : ℕ). (is_open, w);
  read_some = λ h n (w : ℕ). ([], w);
  write_some = λ h (bytes : List ℕ) (w : ℕ). (length bytes, w);
  flush = λ h (w : ℕ). w;
}

abbrev unread : ConnectionHandle → ℕ → ℕ
unread h w = 0

finite : IsFinite network unread
finite = record { state_quiet = λ h w. omega arith; read_takes = λ h n w. omega arith }

-- Every line is read as a command of the board `arm` whose name is missing.
abbrev library : JsonLibrary CString ℕ ℕ
library = record {
  deserialize = λ limit bytes. some none;
  is_object = λ v. true;
  contains_key = λ v name. true;
  get = λ v name.
      if str_eq name (codes "type")
      then some (codes "command")
      else if str_eq name (codes "source")
      then some (codes "controller")
      else if str_eq name (codes "command")
      then none
      else some (codes "arm");
  keys = λ v. [];
  is_text = λ v. elim v [ none ↦ false | some t ↦ true ];
  as_text = λ v. v;
  is_seq = λ v. true;
  as_seq = λ v. 5;
  is_double = λ v. true;
  as_double = λ v. 0;
  is_int = λ v. false;
  as_int = λ v. pos 0;
  is_bool = λ v. false;
  as_bool = λ v. false;
  is_finite = λ d. true;
  to_float = λ d. d;
  zero = 0;
}

abbrev copy : ℕ → List ℕ → Option CString
copy limit line = some none

abbrev print : ℕ → List ℕ
print d = codes "0"

abbrev board : Board CString ℕ
board = record {
  lifecycle = mutable;
  identity_set = true;
  board_id = codes "arm";
  protocol_version = codes "1";
  firmware_version = codes "2.0";
  commands = [];
  telemetry_fields = [];
  state_fields = [];
  telemetry_provider = some (λ w. (some (codes "{}"), w));
  estop_hook = some (λ w. (true, w));
  controller_loss_hook = some (λ w. (true, w));
}

abbrev config : NetworkConfig
config = record { mode = dhcp; listen_port = 5000; ip = []; gateway = []; subnet = [] }

abbrev facade : Facade CString ℕ
facade = record {
  attached = true;
  counters = zero_counters;
  registry = board;
  scheduler = record {
    entries = empty_entry ∷ empty_entry ∷ empty_entry ∷ empty_entry ∷ [];
    critical_count = 0;
    telemetry_bytes = [];
    telemetry_active = false;
    estop_triggered_state = not_pending;
  };
  estop_handler = Estop.init;
  identity_bound = true;
  network_config = config;
  network_config_set = true;
  started = false;
  session = none;
  telemetry = none;
  parser = record { args = none; active = false; payload = none };
}

start_lem_example :
    let (result, f', w') = start clock network 4 (facade, 7) in
    ((is_ok result ≡ false) × (IsSetUp clock network 4 facade → ⊥) × (f' ≡ facade) × (w' ≡ 7))
    ⊎ ((is_ok result ≡ true) × IsStarted clock network 4 facade f')
start_lem_example = start_lem clock network 4 facade 7

facade-starts : is_ok (start clock network 4 (facade, 7)).0 ≡ true
unfolding start append_bytes remaining add_string add_string_bytes write_field_prefix
    write_escaped_string write_escaped_from escape_byte add_uint64 add_number_literal decimal
    begin_object_field end_object
facade-starts = refl

abbrev steps : List (Step CString ℕ)
steps = serves ∷ reports (some (codes "limit")) ∷ sets_up enable_diagnostics_call ∷ serves ∷ []

start-IsRunning_example :
    let (_, f', w') = start clock network 4 (facade, 7) in
    IsRunning f'.registry (run_steps library copy print clock network 4 steps (f', w')).0
start-IsRunning_example =
    start-IsRunning library copy print clock network 4 unread finite (λ h w. omega arith) facade 7
      refl facade-starts steps

abbrev running : Facade CString ℕ
running = record facade { registry = record board { lifecycle = sealed }; started = true }

abbrev calls : List (SetupCall CString ℕ)
calls = set_network_config_call config ∷ enable_diagnostics_call ∷ []

run_setup-sealed_example :
    (run_setup clock network 4 calls (running, 7) ≡ (running, 7))
    × (is_ok (start clock network 4 (running, 7)).0 ≡ false)
run_setup-sealed_example = run_setup-sealed clock network 4 calls running 7 refl

abbrev round : Round CString ℕ
round = load library print clock network 4 5000 board facade (new_session zero_counters) 7

process_line-structural_example :
    let e' = process_facade_line library copy print clock network 4 5000 board (codes "{}") round in
    (e'.scheduler ≡ round.scheduler) × (e'.context ≡ round.context)
unfolding parse is_valid_utf8 str_eq
process_line-structural_example =
    process_line-structural library copy print clock network 4 5000 board (codes "{}") round refl

fresh-IsSettled : IsSettled round.session.session
fresh-IsSettled = (
  record {
    set_up = refl;
    framer_valid = init-IsValid;
    bound = refl;
    in_session = refl;
    pending = refl;
    at_rest = refl;
    replacement = λ h. refl;
  },
  refl,
)

service-Quiet_example : Quiet (driver library print clock network 4 5000 board) Usable (
    Loop.service
      (driver library print clock network 4 5000 board)
      library
      copy
      (registry_identity board)
      (facade_routes library print clock network 4 5000 board)
      (some (loop_clock library print clock network 4 5000 board))
      round)
unfolding driver
service-Quiet_example =
    service-Quiet (driver library print clock network 4 5000 board) library copy
      (registry_identity board) (facade_routes library print clock network 4 5000 board)
      (some (loop_clock library print clock network 4 5000 board)) Settled Usable
      (facade-IsKept library copy print clock network unread finite 4 (λ h w. omega arith) 5000
        board)
      round fresh-IsSettled
