-- ===== src/Outbound.antt =====
-- src/core/OutboundScheduler.h: at most four critical lines, sent by priority, and one telemetry
-- line that newer ones replace. An entry's byte array and its size are the list of its `size` bytes.
pub mod Queue
pub mod Accepted
pub mod Select
pub mod Drain
pub mod Cancel
mod Tests
use cuddly_train.Base.{
  ℕ, zero, suc, ◌+◌, ◌-◌, Bool, true, false, not, ◌&&◌, ◌||◌, List, [], ◌∷◌, ◌++◌, Option, none,
  some, ◌==◌, if◌then◌else◌, ltb, leb, set, get_or, length, last_or, replicate,
}
use cuddly_train.Limits.{
  board_tx_max_line_bytes, outbound_critical_queue_capacity, outbound_cancellation_batch_capacity,
}
use cuddly_train.Counters.{Counters, increment, telemetry_coalesced}
use cuddly_train.Wire.{LineView, MessageClass, OutboundSendResult}

pub data OutboundKind : Type 0 where
  command_response estop_ack estop_triggered heartbeat_ack telemetry : OutboundKind

pub data OutboundCompletion : Type 0 where
  sent send_failed canceled_by_session_end : OutboundCompletion

pub record OutboundOutcome : Type 0 where
  pub kind : OutboundKind
  pub completion : OutboundCompletion

pub data OutboundEnqueueResult : Type 0 where
  queued invalid_line teardown_requested : OutboundEnqueueResult

pub data EstopTriggeredPendingState : Type 0 where
  not_pending pending_not_queued in_queue : EstopTriggeredPendingState

pub data Priority : Type 0 where
  safety response heartbeat : Priority

-- The numeric value of a priority; a lower one is sent first.
abbrev pub priority_code : Priority → ℕ
priority_code safety = 0
priority_code response = 1
priority_code heartbeat = 2

abbrev pub priority_for : OutboundKind → Priority
priority_for estop_ack = safety
priority_for estop_triggered = safety
priority_for heartbeat_ack = heartbeat
priority_for command_response = response
priority_for telemetry = response

abbrev pub is_estop_triggered : OutboundKind → Bool
is_estop_triggered estop_triggered = true
is_estop_triggered _ = false

abbrev pub is_telemetry : OutboundKind → Bool
is_telemetry telemetry = true
is_telemetry _ = false

pub record CriticalEntry : Type 0 where
  pub kind : OutboundKind
  pub priority : Priority
  pub bytes : List ℕ
  pub active : Bool

abbrev pub empty_entry : CriticalEntry
empty_entry = record { kind = command_response; priority = response; bytes = []; active = false }

pub record Scheduler : Type 0 where
  pub entries : List CriticalEntry
  pub critical_count : ℕ
  pub telemetry_bytes : List ℕ
  pub telemetry_active : Bool
  pub estop_triggered_state : EstopTriggeredPendingState

-- The entry at an index of the array.
abbrev pub entry_at : List CriticalEntry → ℕ → CriticalEntry
entry_at es i = get_or es i empty_entry

-- The constructor clears the array; `clear` does so in any state.
unfoldable pub clear : Scheduler → Scheduler
clear s = record {
  entries = replicate 4 empty_entry;
  critical_count = 0;
  telemetry_bytes = [];
  telemetry_active = false;
  estop_triggered_state = not_pending;
}

unfoldable pub is_valid_line : LineView → Bool
is_valid_line none = false
is_valid_line (some line) =
    if length line == 0 || ltb board_tx_max_line_bytes (length line)
    then false
    else last_or line 0 == b'\n'

-- The bytes of a view that is not null.
abbrev pub line_bytes : LineView → List ℕ
line_bytes none = []
line_bytes (some line) = line

unfoldable pub enqueue_critical :
    OutboundKind → LineView → Scheduler → OutboundEnqueueResult × Scheduler
enqueue_critical kind line s =
    if is_telemetry kind || not (is_valid_line line)
    then (invalid_line, s)
    else if leb outbound_critical_queue_capacity s.critical_count
    then (teardown_requested, s)
    else (
      queued,
      record s {
        entries = set s.entries s.critical_count (record {
          kind = kind;
          priority = priority_for kind;
          bytes = line_bytes line;
          active = true;
        });
        critical_count = s.critical_count + 1;
        estop_triggered_state =
            if is_estop_triggered kind then in_queue else s.estop_triggered_state;
      },
    )

abbrev mark : EstopTriggeredPendingState → EstopTriggeredPendingState
mark not_pending = pending_not_queued
mark pending_not_queued = pending_not_queued
mark in_queue = in_queue

unfoldable pub mark_estop_triggered_pending : Scheduler → Scheduler
mark_estop_triggered_pending s = record s { estop_triggered_state = mark s.estop_triggered_state }

unfoldable pub replace_telemetry :
    LineView → Scheduler × Counters → OutboundEnqueueResult × Scheduler × Counters
unfolding increment
replace_telemetry line (s, c) = if not (is_valid_line line) then (invalid_line, s, c) else (
  queued,
  record s { telemetry_bytes = line_bytes line; telemetry_active = true },
  if s.telemetry_active then increment telemetry_coalesced c else c,
)

unfoldable pub has_pending : Scheduler → Bool
has_pending s = ltb 0 s.critical_count || s.telemetry_active

-- The loop over the indices `i`, `i + 1`, … of the rounds left.
unfoldable pub select_from : ℕ → ℕ → ℕ → List CriticalEntry → ℕ
select_from zero i selected es = selected
select_from (suc n) i selected es =
    select_from n (suc i)
      (if ltb (priority_code (entry_at es i).priority)
          (priority_code (entry_at es selected).priority)
        then i
        else selected)
      es

-- `none` is the index -1.
unfoldable pub select_critical_index : Scheduler → Option ℕ
unfolding select_from
select_critical_index s =
    if s.critical_count == 0 then none else some (select_from (s.critical_count - 1) 1 0 s.entries)

-- `for (i = index; i + 1 < count; ++i) critical[i] = critical[i + 1]`, by the rounds left.
unfoldable pub shift_down : ℕ → ℕ → List CriticalEntry → List CriticalEntry
shift_down zero i es = es
shift_down (suc n) i es = shift_down n (suc i) (set es i (entry_at es (suc i)))

unfoldable pub remove_critical : ℕ → Scheduler → Scheduler
remove_critical index s = if leb s.critical_count index then s else record s {
  estop_triggered_state =
      if is_estop_triggered (entry_at s.entries index).kind
      then not_pending
      else s.estop_triggered_state;
  entries =
      set (shift_down (s.critical_count - 1 - index) index s.entries) (s.critical_count - 1)
        empty_entry;
  critical_count = s.critical_count - 1;
}

abbrev pub completion_for : OutboundSendResult → OutboundCompletion
completion_for OutboundSendResult.sent = sent
completion_for _ = send_failed

-- One line goes to the session, whose `sendActiveLine` is `send`. `none` stands for the result
-- `false`: there was nothing to send.
module _ {ℓ} {S : Type ℓ} (send : LineView → MessageClass → S → OutboundSendResult × S) where
  unfoldable pub drain_critical : ℕ → Scheduler → S → Option OutboundOutcome × Scheduler × S
  drain_critical index s session =
      let entry = entry_at s.entries index in
      let (result, session') = send (some entry.bytes) MessageClass.critical session in
      (
        some (record { kind = entry.kind; completion = completion_for result }),
        remove_critical index s,
        session',
      )

  unfoldable pub drain_telemetry : Scheduler → S → Option OutboundOutcome × Scheduler × S
  drain_telemetry s session =
      if s.telemetry_active
      then (let (result, session') = send (some s.telemetry_bytes) MessageClass.telemetry session in
          (
            some (record { kind = telemetry; completion = completion_for result }),
            record s { telemetry_active = false; telemetry_bytes = [] },
            session',
          ))
      else (none, s, session)

  unfoldable pub drain_one : Scheduler → S → Option OutboundOutcome × Scheduler × S
  unfolding drain_critical drain_telemetry
  drain_one s session = elim (select_critical_index s) [
    | some index ↦ drain_critical index s session
    | none ↦ drain_telemetry s session
  ]

-- `OutboundCancellationBatch::append`, without the flag that its callers ignore.
abbrev pub batch_append : OutboundOutcome → List OutboundOutcome → List OutboundOutcome
batch_append o batch =
    if leb outbound_cancellation_batch_capacity (length batch) then batch else batch ++ (o ∷ [])

abbrev pub canceled : OutboundKind → OutboundOutcome
canceled k = record { kind = k; completion = canceled_by_session_end }

-- The loop of `clearForSessionEnd` over the entries from `i` on, by the rounds left.
unfoldable pub cancel_from :
    ℕ
    → ℕ
    → List CriticalEntry
    → List OutboundOutcome × EstopTriggeredPendingState
    → List OutboundOutcome × EstopTriggeredPendingState
cancel_from zero i es (batch, st) = (batch, st)
cancel_from (suc n) i es (batch, st) = cancel_from n (suc i) es (
  batch_append (canceled (entry_at es i).kind) batch,
  if is_estop_triggered (entry_at es i).kind then pending_not_queued else st,
)

unfoldable pub clear_for_session_end : Scheduler → List OutboundOutcome × Scheduler
unfolding cancel_from
clear_for_session_end s =
    let (batch, st) = cancel_from s.critical_count 0 s.entries ([], s.estop_triggered_state) in
    (
      if s.telemetry_active then batch_append (canceled telemetry) batch else batch,
      record {
        entries = replicate 4 empty_entry;
        critical_count = 0;
        telemetry_bytes = if s.telemetry_active then [] else s.telemetry_bytes;
        telemetry_active = false;
        estop_triggered_state = st;
      },
    )
