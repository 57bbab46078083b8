-- ===== src/Telemetry/Tests.antt =====
-- The telemetry scheduler at a concrete world, the time in milliseconds.
use cuddly_train.Base.{ℕ, ◌+◌, ◌≡◌, refl, true, false, List, [], Option, some, codes, replicate}
use cuddly_train.Counters.{zero_counters}
use cuddly_train.Platform.{Clock}
use cuddly_train.Protocol.{BoardIdentity}
use cuddly_train.Outbound.{Scheduler, not_pending, empty_entry}
use cuddly_train.Telemetry.{init, service, build_line, is_object_text}
use cuddly_train.Telemetry.Line.{fitting, frame, build_line_lem}
use cuddly_train.Telemetry.Service.{Served, made, service_lem}

abbrev board : BoardIdentity
board = record {
  board_id = some (codes "rover");
  protocol_version = some (codes "1");
  firmware_version = some (codes "0.1.0");
}

abbrev clock : Clock ℕ
clock = record {
  monotonic_milliseconds = λ t. (t, t + 1);
  monotonic_microseconds = λ t. (t, t + 1);
}

abbrev provider : ℕ → Option (List ℕ) × ℕ
provider t = (some (codes "{\"x\":1}"), t)

abbrev idle : Scheduler
idle = record {
  entries = replicate 4 empty_entry;
  critical_count = 0;
  telemetry_bytes = [];
  telemetry_active = false;
  estop_triggered_state = not_pending;
}

build_line_lem_example :
    build_line clock board 7 (codes "{\"x\":1}") 100
    ≡ (fitting (frame 7 100 (codes "rover") (codes "{\"x\":1}")), 101)
build_line_lem_example =
    build_line_lem clock 7 (codes "rover") (codes "{\"x\":1}") board 100 refl
      (unfold is_object_text in refl)

service_lem_example :
    let out = service clock board (some provider) (init, idle, zero_counters, 100) in
    (true ≡ false → out ≡ (init, idle, zero_counters, 101))
    × (true ≡ true
        → Served
            (made clock board (some provider) 1 (codes "rover") (provider 101))
            1
            100
            idle
            zero_counters
            out)
service_lem_example =
    service_lem clock board (some provider) (codes "rover") init idle zero_counters 100 refl
