-- ===== src/Wire.antt =====
-- src/core/OutboundWriter.h, the types of outbound lines, and src/core/Transport.h and
-- src/core/NetworkServer.h, the types of connections.
use cuddly_train.Base.{ℕ, Bool, ◌&&◌, not, List, Option, ◌==◌}

-- `ConstLineView`: `none` is the null pointer, and otherwise the bytes `[data, data + size)`.
abbrev pub LineView : Type 0
LineView = Option (List ℕ)

pub data MessageClass : Type 0 where
  critical telemetry : MessageClass

pub data OutboundSendResult : Type 0 where
  sent invalid_line no_active_transport busy deadline_expired : OutboundSendResult

pub data TeardownReason : Type 0 where
  critical_transmit_failure telemetry_transmit_failure_streak connection_lost : TeardownReason
  link_lost schema_send_failure explicit_shutdown superseded : TeardownReason

pub data TransportConnectionState : Type 0 where
  is_open bytes_available closed link_down : TransportConnectionState

pub data NetworkAvailability : Type 0 where
  uninitialized no_link address_pending ready : NetworkAvailability

pub record ConnectionHandle : Type 0 where
  pub slot : ℕ
  pub generation : ℕ

abbrev pub invalid_connection : ConnectionHandle
invalid_connection = record { slot = 0xFF; generation = 0 }

abbrev pub is_valid_connection_handle : ConnectionHandle → Bool
is_valid_connection_handle h = not (h.generation == 0) && not (h.slot == 0xFF)
