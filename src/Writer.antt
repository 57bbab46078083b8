-- ===== src/Writer.antt =====
-- src/core/OutboundWriter.h: one line at a time goes to the transport, until it is written or the
-- transmit deadline has passed. The teardown that the writer requests of the session through its
-- callback is returned beside the result; the session applies it (src/core/SessionDriver.h).
pub mod Wire
pub mod Deadline
pub mod Valid
mod Tests
use cuddly_train.Base.{
  ℕ, zero, suc, ◌+◌, ◌-◌, Bool, true, false, not, ◌&&◌, ◌||◌, List, [], ◌∷◌, Option, some, none,
  ◌==◌, ltb, leb, if◌then◌else◌, length, drop, last_or,
}
use cuddly_train.Limits.{
  board_tx_max_line_bytes, transmit_deadline_ms, telemetry_deadline_failures_to_teardown,
}
use cuddly_train.Counters.{Counters, increment, tx_failures, telemetry_dropped}
use cuddly_train.Wire.{
  LineView, MessageClass, critical, telemetry, OutboundSendResult, sent, invalid_line,
  no_active_transport, busy, deadline_expired, TeardownReason, critical_transmit_failure,
  telemetry_transmit_failure_streak, ConnectionHandle,
}
use cuddly_train.Platform.{Clock, Network, elapsed}

-- The transport that is bound, if any, by the handle of its connection.
pub record Writer : Type 0 where
  pub transport : Option ConnectionHandle
  pub consecutive_telemetry_failures : ℕ
  pub send_in_progress : Bool

abbrev pub init : Writer
init = record { transport = none; consecutive_telemetry_failures = 0; send_in_progress = false }

unfoldable pub bind_transport : ConnectionHandle → Writer → Writer
bind_transport handle wr = record wr { transport = some handle; consecutive_telemetry_failures = 0 }

unfoldable pub clear_transport : Writer → Writer
clear_transport wr = record {
  transport = none;
  consecutive_telemetry_failures = 0;
  send_in_progress = false;
}

-- Whether a newline stands before the last byte.
unfoldable pub has_inner_newline : List ℕ → Bool
has_inner_newline [] = false
has_inner_newline (b ∷ []) = false
has_inner_newline (b ∷ c ∷ rest) = (b == b'\n') || has_inner_newline (c ∷ rest)

unfoldable pub is_valid_wire_line : LineView → Bool
is_valid_wire_line none = false
is_valid_wire_line (some line) =
    if length line == 0 || ltb board_tx_max_line_bytes (length line)
    then false
    else if not (last_or line 0 == b'\n')
    then false
    else not (has_inner_newline line)

-- The bytes of a view that is not null.
abbrev pub line_bytes : LineView → List ℕ
line_bytes none = []
line_bytes (some line) = line

-- What a send returns: the result, the writer, the counters, the requested teardown, the world.
pub record Sending (W : Type 0) : Type 0 where
  pub result : OutboundSendResult
  pub writer : Writer
  pub counters : Counters
  pub teardown : Option TeardownReason
  pub world : W

abbrev is_critical : MessageClass → Bool
is_critical critical = true
is_critical telemetry = false

unfoldable pub handle_deadline : {W : Type 0} → MessageClass → Writer → Counters → W → Sending W
unfolding increment
handle_deadline critical wr c w = record {
  result = deadline_expired;
  writer = wr;
  counters = increment tx_failures c;
  teardown = some critical_transmit_failure;
  world = w;
}
handle_deadline telemetry wr c w =
    let below = ltb wr.consecutive_telemetry_failures telemetry_deadline_failures_to_teardown in
    let failures =
      (if below
        then wr.consecutive_telemetry_failures + 1
        else wr.consecutive_telemetry_failures) in
    record {
      result = deadline_expired;
      writer = record wr { consecutive_telemetry_failures = failures };
      counters = increment telemetry_dropped c;
      teardown =
          if below && leb telemetry_deadline_failures_to_teardown failures
          then some telemetry_transmit_failure_streak
          else none;
      world = w;
    }

-- What `sendValidLine` makes of the end of its loop.
unfoldable pub finish_send : {W : Type 0} → MessageClass → Writer → Counters → Bool × W → Sending W
unfolding handle_deadline
finish_send message_class wr c (true, w) = record {
  result = sent;
  writer =
      if is_critical message_class then wr else record wr { consecutive_telemetry_failures = 0 };
  counters = c;
  teardown = none;
  world = w;
}
finish_send message_class wr c (false, w) = handle_deadline message_class wr c w

abbrev pub refuse : {W : Type 0} → OutboundSendResult → Writer × Counters × W → Option (Sending W)
refuse r (wr, c, w) =
    some (record { result = r; writer = wr; counters = c; teardown = none; world = w })

-- `send_in_progress_` is set during the call and reset behind it.
abbrev pub settle : {W : Type 0} → Sending W → Sending W
settle out = record out { writer = record (out.writer) { send_in_progress = false } }

module _ {W : Type 0} (clock : Clock W) (network : Network W) where
  -- The loop of `sendValidLine`, with fuel. `some true` is a line that was sent, `some false` an
  -- expired deadline, and `none` means that the fuel ran out.
  unfoldable pub send_loop : ℕ → ConnectionHandle → List ℕ → ℕ → ℕ → W → Option (Bool × W)
  send_loop zero handle line start accepted w = none
  send_loop (suc fuel) handle line start accepted w =
      let (now, w₁) = clock.monotonic_milliseconds w in
      let (written, w₂) = network.write_some handle (drop accepted line) w₁ in
      let rest = send_loop fuel handle line start (accepted + written) (network.progress w₂) in
      if not (ltb accepted (length line))
      then some (true, w)
      else if leb transmit_deadline_ms (elapsed now start)
      then some (false, w₁)
      else if accepted + written == length line
      then some (true, network.flush handle w₂)
      else rest

  unfoldable pub send_valid_line :
      ℕ → ConnectionHandle → List ℕ → MessageClass → Writer × Counters × W → Option (Sending W)
  unfolding send_loop finish_send
  send_valid_line fuel handle line message_class (wr, c, w) =
      let (start, w₁) = clock.monotonic_milliseconds w in
      elim (send_loop fuel handle line start 0 w₁) [
        | none ↦ none
        | some out ↦ some (finish_send message_class wr c out)
      ]

  -- The call behind the checks, by the bound transport.
  unfoldable pub send_bound :
      ℕ
      → List ℕ
      → Option ConnectionHandle
      → MessageClass
      → Writer × Counters × W
      → Option (Sending W)
  unfolding send_valid_line
  send_bound fuel line none message_class (wr, c, w) = refuse no_active_transport (wr, c, w)
  send_bound fuel line (some handle) message_class (wr, c, w) =
      elim (send_valid_line fuel handle line message_class
        (record wr { send_in_progress = true }, c, w)) [
          | none ↦ none
          | some out ↦ some (settle out)
        ]

  unfoldable pub send_line :
      ℕ → LineView → MessageClass → Writer × Counters × W → Option (Sending W)
  unfolding send_bound
  send_line fuel line message_class (wr, c, w) =
      if wr.send_in_progress
      then refuse busy (wr, c, w)
      else if not (is_valid_wire_line line)
      then refuse invalid_line (wr, c, w)
      else send_bound fuel (line_bytes line) wr.transport message_class (wr, c, w)
