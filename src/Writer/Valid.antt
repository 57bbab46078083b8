-- ===== src/Writer/Valid.antt =====
-- What a send of a valid line over a bound transport does: it ends, and either the whole line is on
-- the wire or the deadline has passed.
use mathlib.Core.List.{append-nil}
use cuddly_train.Base.{
  ℕ, ◌+◌, ◌/◌, ◌≤◌, ◌≡◌, ◌∙◌, sym, refl, ap, Bool, true, false, not, List, ◌++◌, Option, some, none,
  arith, length, take, ltb, leb, ◌==◌, if◌then◌else◌,
}
use cuddly_train.Counters.{Counters}
use cuddly_train.Wire.{
  ConnectionHandle, MessageClass, critical, telemetry, sent, busy, invalid_line, deadline_expired,
  TeardownReason, critical_transmit_failure, telemetry_transmit_failure_streak,
}
use cuddly_train.Platform.{Clock, Network}
use cuddly_train.Writer.{
  Writer, Sending, send_loop, finish_send, send_valid_line, send_bound, send_line, handle_deadline,
  is_valid_wire_line, settle, refuse,
}
use cuddly_train.Writer.Wire.{IsWire, OnWire, send_loop-OnWire}
use cuddly_train.Writer.Deadline.{IsTimed, IsLate, send_loop-returns}

-- The teardown that a missed deadline asks for: always for a critical line, and for a telemetry line
-- exactly at the tenth miss in a row.
abbrev pub missed : MessageClass → ℕ → Option TeardownReason
missed critical failures = some critical_transmit_failure
missed telemetry failures = if failures == 9 then some telemetry_transmit_failure_streak else none

-- The number of misses in a row behind a send.
abbrev pub failures_after : MessageClass → Bool → ℕ → ℕ
failures_after critical done failures = failures
failures_after telemetry true failures = 0
failures_after telemetry false failures = if ltb failures 10 then failures + 1 else failures

module _ {W : Type 0} where
  finish_send_lem :
      (m : MessageClass) (wr : Writer) (c : Counters) (done : Bool) (w : W)
      → let out = settle (finish_send m wr c (done, w)) in
        (out.result ≡ (if done then sent else deadline_expired))
        × (out.teardown ≡ (if done then none else missed m wr.consecutive_telemetry_failures))
        × (out.writer.consecutive_telemetry_failures
            ≡ failures_after m done wr.consecutive_telemetry_failures)
        × (out.writer.transport ≡ wr.transport)
        × (out.writer.send_in_progress ≡ false)
        × (out.world ≡ w)
  unfolding finish_send handle_deadline
  finish_send_lem m wr c done w = ground arith

-- What a send of the valid line `line` over the connection `h` leaves: the first `k` bytes of the
-- line are on the wire behind what was there, and the result is `sent` exactly if that is all of it;
-- if it is not, the deadline has passed.
pub record Sends {W : Type 0} (wire : ConnectionHandle → W → List ℕ) (now : W → ℕ)
    (h : ConnectionHandle) (line : List ℕ) (m : MessageClass) (wr : Writer) (w : W)
    (out : Sending W) : Type 0 where
  pub count : ℕ
  pub within : count ≤ length line
  pub on_wire : wire h out.world ≡ wire h w ++ take count line
  pub result_is : out.result ≡ (if leb (length line) count then sent else deadline_expired)
  pub late : leb (length line) count ≡ false → IsLate (now w) (now out.world)
  pub teardown_is :
      out.teardown
      ≡ (if leb (length line) count then none else missed m wr.consecutive_telemetry_failures)
  pub failures_are :
      out.writer.consecutive_telemetry_failures
      ≡ failures_after m (leb (length line) count) wr.consecutive_telemetry_failures
  pub still_bound : out.writer.transport ≡ wr.transport
  pub free : out.writer.send_in_progress ≡ false

module _ {W : Type 0} (clock : Clock W) (network : Network W) (wire : ConnectionHandle → W → List ℕ)
    (now : W → ℕ) (wired : IsWire clock network wire) (timed : IsTimed clock network now) where
  loop-Sends :
      (h : ConnectionHandle) (line : List ℕ) (m : MessageClass) (wr : Writer) (c : Counters) (w : W)
      (done : Bool) (w' : W)
      → OnWire wire h line (wire h w) (some (done, w'))
      → (done ≡ false → IsLate (now w) (now w'))
      → Sends wire now h line m wr w
          (settle (finish_send m (record wr { send_in_progress = true }) c (done, w')))
  loop-Sends h line m wr c w done w' (k, within, on, e) late =
      let (a, b, f, t, p, q) =
        finish_send_lem m (record wr { send_in_progress = true }) c done w' in
      record {
        count = k;
        within = within;
        on_wire = ap (wire h) q ∙ on;
        result_is = a ∙ ap (λ d. if d then sent else deadline_expired) e;
        late = λ part. rw (ap now q) (late (e ∙ part));
        teardown_is =
            b ∙ ap (λ d. if d then none else missed m wr.consecutive_telemetry_failures) e;
        failures_are = f ∙ ap (λ d. failures_after m d wr.consecutive_telemetry_failures) e;
        still_bound = t;
        free = p;
      }

  send_valid_line-Sends :
      (fuel : ℕ) (h : ConnectionHandle) (line : List ℕ) (m : MessageClass) (wr : Writer)
      (c : Counters) (w : W)
      → 100001 ≤ fuel
      → (out : Sending W) × (send_bound clock network fuel line (some h) m (wr, c, w) ≡ some out)
        × Sends wire now h line m wr w out
  unfolding send_bound send_valid_line
  send_valid_line-Sends fuel h line m wr c w long =
      let (start, w₁) = clock.monotonic_milliseconds w in
      let a₁ = timed.read_later w in
      let b₁ = timed.read_soon w in
      let shown = timed.reads w in
      let ((done, w'), e₀, late) =
        send_loop-returns clock network now timed fuel h line (now w / 1000) 0 w₁ (omega arith)
          (omega arith) (omega arith) (omega arith) in
      let e : send_loop clock network fuel h line start 0 w₁ ≡ some (done, w') =
        ap (λ k. send_loop clock network fuel h line k 0 w₁) shown ∙ e₀ in
      let sends =
        send_loop-OnWire clock network wire wired fuel h line (wire h w) start 0 w₁ (omega arith)
          (wired.clock_quiet h w ∙ sym (append-nil (wire h w))) in
      (
        settle (finish_send m (record wr { send_in_progress = true }) c (done, w')),
        rw (e, send_bound, send_valid_line) refl,
        loop-Sends h line m wr c w done w' (rw e at sends) late,
      )

  send_line-ready :
      (fuel : ℕ) (h : ConnectionHandle) (line : List ℕ) (m : MessageClass) (wr : Writer)
      (c : Counters) (w : W)
      → wr.transport ≡ some h
      → wr.send_in_progress ≡ false
      → is_valid_wire_line (some line) ≡ true
      → send_line clock network fuel (some line) m (wr, c, w)
        ≡ send_bound clock network fuel line (some h) m (wr, c, w)
  unfolding send_line
  send_line-ready fuel h line m wr c w bound free valid =
      ap
        (λ b.
          if b
          then refuse busy (wr, c, w)
          else if not (is_valid_wire_line (some line))
          then refuse invalid_line (wr, c, w)
          else send_bound clock network fuel line wr.transport m (wr, c, w))
        free
      ∙ ap
          (λ b.
            if not b
            then refuse invalid_line (wr, c, w)
            else send_bound clock network fuel line wr.transport m (wr, c, w))
          valid
      ∙ ap (λ t. send_bound clock network fuel line t m (wr, c, w)) bound

  -- Where the network keeps its law, and the clock shows the milliseconds since the board started modulo
  -- 2^32, a send of a valid line over a bound transport, by a writer that is not busy, always ends:
  -- fuel for as many passes as the deadline has microseconds is enough. The result is `sent` exactly if
  -- the whole line is on the wire, once and in order, behind what was sent before. Otherwise the clock
  -- has moved on by the 100 ms of the deadline or has wrapped during the send, a proper prefix of the
  -- line is there, and a teardown is requested for a critical line always, for a telemetry line exactly
  -- at the tenth miss in a row.
  pub send_line-Sends :
      (fuel : ℕ) (h : ConnectionHandle) (line : List ℕ) (m : MessageClass) (wr : Writer)
      (c : Counters) (w : W)
      → 100001 ≤ fuel
      → wr.transport ≡ some h
      → wr.send_in_progress ≡ false
      → is_valid_wire_line (some line) ≡ true
      → (out : Sending W) × (send_line clock network fuel (some line) m (wr, c, w) ≡ some out)
        × Sends wire now h line m wr w out
  unfolding send_line
  send_line-Sends fuel h line m wr c w long bound free valid =
      let (out, e, s) = send_valid_line-Sends fuel h line m wr c w long in
      (out, send_line-ready fuel h line m wr c w bound free valid ∙ e, s)
