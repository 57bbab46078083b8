-- ===== src/Telemetry.antt =====
-- src/core/TelemetryScheduler.h: one telemetry frame per period while a session is active. The line
-- buffer is rebuilt for every frame, so its bytes are the result of the builder.
pub mod Line
pub mod Service
mod Tests
use cuddly_train.Base.{
  ℕ, ◌+◌, ◌-◌, ◌%◌, ◌^◌, Bool, true, false, not, ◌&&◌, ◌||◌, List, [], ◌∷◌, ◌++◌, Option, some,
  none, CString, codes, ◌==◌, ltb, leb, if◌then◌else◌, length, get_or, last_or,
}
use cuddly_train.Limits.{board_tx_max_line_bytes, telemetry_period_ms}
use cuddly_train.Counters.{Counters, increment, telemetry_dropped}
use cuddly_train.Platform.{Clock, elapsed}
use cuddly_train.Protocol.{BoardIdentity}
use cuddly_train.Json.Decimal.{decimal}
use cuddly_train.Json.Escape.{escape_byte}
use cuddly_train.Outbound.{Scheduler, OutboundEnqueueResult, queued, replace_telemetry}

pub record Telemetry : Type 0 where
  pub next_seq : ℕ
  pub session_active : Bool
  pub first_frame_due : Bool
  pub last_due_ms : ℕ

abbrev pub init : Telemetry
init = record { next_seq = 1; session_active = false; first_frame_due = true; last_due_ms = 0 }

-- `kTelemetryJsonBufferBytes`, the size of `line_`.
abbrev pub telemetry_json_buffer_bytes : ℕ
telemetry_json_buffer_bytes = board_tx_max_line_bytes

-- The line grows; `none` is the result `false`, after which the line is not used.
unfoldable pub append_bytes : List ℕ → List ℕ → Option (List ℕ)
append_bytes value line =
    if leb telemetry_json_buffer_bytes (length value)
      || ltb (telemetry_json_buffer_bytes - 1 - length value) (length line)
    then none
    else some (line ++ value)

-- `a && b` of two calls.
infixl 5 ◌&&>◌
abbrev pub ◌&&>◌ : Option (List ℕ) → (List ℕ → Option (List ℕ)) → Option (List ℕ)
none &&> k = none
some line &&> k = k line

unfoldable pub append_uint64 : ℕ → List ℕ → Option (List ℕ)
append_uint64 value = append_bytes (decimal value)

-- The loop of `appendEscapedString`.
unfoldable pub append_escaped_from : List ℕ → List ℕ → Option (List ℕ)
append_escaped_from [] line = some line
append_escaped_from (c ∷ cs) line = append_bytes (escape_byte c) line &&> append_escaped_from cs

abbrev pub text_or_empty : CString → List ℕ
text_or_empty none = []
text_or_empty (some text) = text

unfoldable pub append_escaped_string : CString → List ℕ → Option (List ℕ)
append_escaped_string value line =
    append_bytes (b'"' ∷ []) line
    &&> append_escaped_from (text_or_empty value)
    &&> append_bytes (b'"' ∷ [])

-- The line up to the timestamp, and behind it.
abbrev pub append_head : ℕ → List ℕ → Option (List ℕ)
append_head seq line =
    append_bytes (codes "{\"type\":\"telemetry\",\"seq\":") line
    &&> append_uint64 seq
    &&> append_bytes (codes ",\"timestamp\":")

abbrev pub append_tail : ℕ → BoardIdentity → List ℕ → List ℕ → Option (List ℕ)
append_tail now identity telemetry line =
    append_uint64 now line
    &&> append_bytes (codes ",\"source\":")
    &&> append_escaped_string identity.board_id
    &&> append_bytes (codes ",\"target\":\"controller\",\"telemetry\":")
    &&> append_bytes telemetry
    &&> append_bytes (b'}' ∷ b'\n' ∷ [])

-- The text of a closed object.
unfoldable pub is_object_text : List ℕ → Bool
is_object_text telemetry =
    not (ltb (length telemetry) 2)
    && (get_or telemetry 0 0 == b'{')
    && (last_or telemetry 0 == b'}')

module _ {W : Type 0} (clock : Clock W) (identity : BoardIdentity) where
  -- The clock is read between the two parts.
  abbrev pub finish_line : List ℕ → Option (List ℕ) → W → Option (List ℕ) × W
  finish_line telemetry none w = (none, w)
  finish_line telemetry (some line) w =
      let (now, w') = clock.monotonic_milliseconds w in
      (append_tail now identity telemetry line, w')

  unfoldable pub build_line : ℕ → List ℕ → W → Option (List ℕ) × W
  build_line seq telemetry w =
      if not (is_object_text telemetry)
      then (none, w)
      else finish_line telemetry (append_head seq []) w

  -- The provider is the board's code with the object writer that it fills: the text of the closed
  -- object, or `none` where the provider or the closing fails. It may be a null pointer.
  module _ (provider : Option (W → Option (List ℕ) × W)) where
    abbrev pub drop_frame :
        Telemetry × Scheduler × Counters × W → Telemetry × Scheduler × Counters × W
    drop_frame (t, s, c, w) = (t, s, increment telemetry_dropped c, w)

    abbrev pub after_replace :
        Telemetry
        → OutboundEnqueueResult × Scheduler × Counters
        → W
        → Telemetry × Scheduler × Counters × W
    after_replace t (queued, s, c) w = (record t { next_seq = (t.next_seq + 1) % 2 ^ 64 }, s, c, w)
    after_replace t (_, s, c) w = drop_frame (t, s, c, w)

    abbrev pub queue_line :
        Telemetry × Scheduler × Counters
        → Option (List ℕ) × W
        → Telemetry × Scheduler × Counters × W
    queue_line (t, s, c) (none, w) = drop_frame (t, s, c, w)
    queue_line (t, s, c) (some line, w) = after_replace t (replace_telemetry (some line) (s, c)) w

    abbrev pub provided :
        Telemetry × Scheduler × Counters
        → Option (List ℕ) × W
        → Telemetry × Scheduler × Counters × W
    provided (t, s, c) (none, w) = drop_frame (t, s, c, w)
    provided (t, s, c) (some telemetry, w) =
        queue_line (t, s, c) (build_line t.next_seq telemetry w)

    abbrev pub ask : Option (W → Option (List ℕ) × W) → W → Option (List ℕ) × W
    ask none w = (none, w)
    ask (some fill) w = fill w

    unfoldable pub build_and_queue :
        Telemetry × Scheduler × Counters × W → Telemetry × Scheduler × Counters × W
    build_and_queue (t, s, c, w) = provided (t, s, c) (ask provider w)

    abbrev pub activated : Telemetry → Telemetry
    activated t =
        if not t.session_active
        then record t { session_active = true; first_frame_due = true }
        else t

    unfoldable pub service :
        Telemetry × Scheduler × Counters × W → Telemetry × Scheduler × Counters × W
    unfolding build_and_queue
    service (t, s, c, w) =
        let (now, w') = clock.monotonic_milliseconds w in
        let t' = activated t in
        if not t'.first_frame_due && ltb (elapsed now t'.last_due_ms) telemetry_period_ms
        then (t', s, c, w')
        else build_and_queue (record t' { first_frame_due = false; last_due_ms = now }, s, c, w')

unfoldable pub on_session_inactive : Telemetry → Telemetry
on_session_inactive t = record t { session_active = false; first_frame_due = true }
