-- ===== src/Heartbeat.antt =====
-- src/core/HeartbeatHandler.h: the acknowledgement of a heartbeat.
pub mod Ack
mod Tests
use cuddly_train.Base.{CString, ℕ, Bool, true, false, List, Option, some, none, codes}
use cuddly_train.Limits.{board_tx_max_line_bytes}
use cuddly_train.Counters.{Counters, increment, heartbeat_received}
use cuddly_train.Protocol.{BoardIdentity, message_type_text, heartbeat}
use cuddly_train.Outbound.{Scheduler, OutboundEnqueueResult, enqueue_critical, heartbeat_ack}
use cuddly_train.Json.{JsonWriter, Step, ◌&&>◌, add_string, add_uint64, end_object}
use cuddly_train.Json.Line.{build_line}

-- From src/core/InboundParser.h.
pub record ParsedHeartbeat : Type 0 where
  pub seq : ℕ
  pub source : CString
  pub target : CString

abbrev pub ack_members : ParsedHeartbeat → BoardIdentity → Step
ack_members hb identity w =
    add_string (some (codes "type")) (some (message_type_text heartbeat)) w
    &&> add_uint64 (some (codes "seq")) hb.seq
    &&> add_string (some (codes "source")) identity.board_id
    &&> add_string (some (codes "target")) (some (codes "controller"))
    &&> end_object

unfoldable pub build_heartbeat_ack_line : ParsedHeartbeat → BoardIdentity → Option (List ℕ)
build_heartbeat_ack_line hb identity = build_line board_tx_max_line_bytes (ack_members hb identity)

-- Whether an enqueue failed, so that the session has to be torn down.
abbrev pub not_queued : OutboundEnqueueResult → Bool
not_queued OutboundEnqueueResult.queued = false
not_queued _ = true

unfoldable pub handle_heartbeat :
    ParsedHeartbeat → BoardIdentity → Scheduler × Counters → Bool × Scheduler × Counters
unfolding increment
handle_heartbeat hb identity (s, c) =
    let c' = increment heartbeat_received c in
    elim (build_heartbeat_ack_line hb identity) [
      | none ↦ (true, s, c')
      | some line ↦
          (let (result, s') = enqueue_critical heartbeat_ack (some line) s in
            (not_queued result, s', c'))
    ]
