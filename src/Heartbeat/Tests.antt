-- ===== src/Heartbeat/Tests.antt =====
-- A heartbeat at a concrete input.
use cuddly_train.Base.{◌≡◌, refl, [], ◌∷◌, ◌++◌, some, none, codes, length, leb, if◌then◌else◌}
use cuddly_train.Protocol.{BoardIdentity}
use cuddly_train.Json.Value.{render}
use cuddly_train.Heartbeat.{ParsedHeartbeat, build_heartbeat_ack_line}
use cuddly_train.Heartbeat.Ack.{ack_value, build_heartbeat_ack_line_lem}

abbrev board : BoardIdentity
board = record {
  board_id = some (codes "rover");
  protocol_version = some (codes "1");
  firmware_version = some (codes "0.1.0");
}

abbrev beat : ParsedHeartbeat
beat = record { seq = 7; source = some (codes "controller"); target = some (codes "arm") }

build_heartbeat_ack_line_lem_example :
    let line = render (ack_value 7 (codes "rover")) ++ (b'\n' ∷ []) in
    build_heartbeat_ack_line beat board ≡ (if leb (length line) 8192 then some line else none)
build_heartbeat_ack_line_lem_example = build_heartbeat_ack_line_lem beat (codes "rover") board refl
