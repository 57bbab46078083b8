-- ===== src/Framer.antt =====
-- src/core/LineFramer.h: bytes of the transport to lines, with two line buffers of constant size.
-- `pending_line` is both the accumulator of the current line and, once that is complete, the line
-- that waits while the client holds `active_line`.
pub mod Invariant
pub mod Stream
pub mod Lines
pub mod Chunks
mod Tests
use cuddly_train.Base.{
  ℕ, suc, ◌+◌, ◌-◌, Bool, true, false, not, ◌&&◌, ◌||◌, List, [], ◌∷◌, ◌++◌, Option, none, some,
  ◌==◌, if◌then◌else◌, set, take, drop, replicate,
}
use cuddly_train.Limits.{board_rx_max_line_bytes}
use cuddly_train.Counters.{Counters, increment, oversized_lines}

abbrev pub max_payload_bytes : ℕ
max_payload_bytes = board_rx_max_line_bytes - 1

pub record Framer : Type 0 where
  pub active_line : List ℕ
  pub pending_line : List ℕ
  pub active_length : ℕ
  pub pending_length : ℕ
  pub accumulator_length : ℕ
  pub active_ready : Bool
  pub active_acquired : Bool
  pub pending_ready : Bool
  pub discard_until_newline : Bool

-- The buffers hold `max_payload_bytes + 1` zero bytes.
unfoldable pub init : Framer
init = record {
  active_line = replicate 1024 0;
  pending_line = replicate 1024 0;
  active_length = 0;
  pending_length = 0;
  accumulator_length = 0;
  active_ready = false;
  active_acquired = false;
  pending_ready = false;
  discard_until_newline = false;
}

unfoldable pub has_line : Framer → Bool
has_line f = f.active_ready && not f.active_acquired

-- `memcpy(dst, src, n)` between two arrays.
abbrev pub memcpy : List ℕ → List ℕ → ℕ → List ℕ
memcpy dst src n = take n src ++ drop n dst

unfoldable pub promote_pending_if_possible : Framer → Framer
promote_pending_if_possible f =
    if not f.pending_ready || f.active_ready || f.active_acquired then f else record f {
      active_line = memcpy f.active_line f.pending_line (f.pending_length + 1);
      active_length = f.pending_length;
      active_ready = true;
      pending_ready = false;
      pending_length = 0;
      pending_line = set f.pending_line 0 0;
    }

unfoldable pub complete_accumulated_line : Framer → Framer
unfolding promote_pending_if_possible
complete_accumulated_line f = promote_pending_if_possible (record f {
  pending_length = f.accumulator_length;
  pending_line = set f.pending_line f.accumulator_length 0;
  accumulator_length = 0;
  pending_ready = true;
})

-- The view that the client gets: the bytes of the active line, or `none` for the null view.
unfoldable pub acquire_line : Framer → Option (List ℕ) × Framer
acquire_line f =
    if f.active_acquired || not f.active_ready
    then (none, f)
    else (some (take f.active_length f.active_line), record f { active_acquired = true })

unfoldable pub release_line : Framer → Framer
unfolding promote_pending_if_possible
release_line f =
    if not f.active_acquired
    then f
    else promote_pending_if_possible (record f {
      active_acquired = false;
      active_ready = false;
      active_length = 0;
      active_line = set f.active_line 0 0;
    })

unfoldable pub close_session : Framer → Framer
close_session f = record f {
  active_ready = false;
  active_acquired = false;
  active_length = 0;
  active_line = set f.active_line 0 0;
  pending_ready = false;
  pending_length = 0;
  pending_line = set f.pending_line 0 0;
  accumulator_length = 0;
  discard_until_newline = false;
}

unfoldable pub discard_partial_line : Framer → Framer
discard_partial_line f = record f {
  accumulator_length = 0;
  pending_line = set f.pending_line 0 0;
  discard_until_newline = false;
}

-- The body of the loop of `append`, for one byte that is consumed.
unfoldable pub append_byte : ℕ → Framer × Counters → Framer × Counters
unfolding complete_accumulated_line increment
append_byte b (f, c) =
    if f.discard_until_newline
    then (if b == b'\n' then record f { discard_until_newline = false } else f, c)
    else if b == b'\n'
    then (complete_accumulated_line f, c)
    else if f.accumulator_length == max_payload_bytes
    then (
      record f {
        accumulator_length = 0;
        pending_line = set f.pending_line 0 0;
        discard_until_newline = true;
      },
      increment oversized_lines c,
    )
    else (
      record f {
        pending_line = set (set f.pending_line f.accumulator_length b) (f.accumulator_length + 1) 0;
        accumulator_length = f.accumulator_length + 1;
      },
      c,
    )

-- The loop: it stops at the end of the data, or as soon as a completed line has to wait.
unfoldable pub append_from : List ℕ → ℕ → Framer × Counters → ℕ × Framer × Counters
append_from [] consumed (f, c) = (consumed, f, c)
append_from (b ∷ bs) consumed (f, c) =
    let rest = append_from bs (consumed + 1) (append_byte b (f, c)) in
    if f.pending_ready then (consumed, f, c) else rest

-- `none` is the null pointer.
unfoldable pub append : Option (List ℕ) → Framer × Counters → ℕ × Framer × Counters
unfolding append_from
append none (f, c) = (0, f, c)
append (some bytes) (f, c) = append_from bytes 0 (f, c)
