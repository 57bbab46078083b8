-- ===== src/Dispatch/Answers.antt =====
-- The responses that `dispatch` of src/core/CommandDispatcher.h queues and counts.
use cuddly_train.Base.{
  ℕ, ◌+◌, ◌-◌, ◌%◌, ◌^◌, ◌≡◌, ◌∙◌, ◌⊎◌, refl, Bool, true, false, not, ◌||◌, List, Option, some,
  none, CString, codes, arith, if◌then◌else◌,
}
use cuddly_train.Counters.{
  Counters, increment, bump, commands_received, commands_ok, commands_error, unknown_commands,
}
use cuddly_train.Platform.{Clock}
use cuddly_train.Protocol.{
  BoardIdentity, BoardErrorCode, internal_error, unknown_command, to_board_error_code,
}
use cuddly_train.Dispatch.Line.{build_ok_line}
use cuddly_train.Registry.{StoredCommand}
use cuddly_train.Inbound.{JsonLibrary, Parser, ParsedCommand}
use cuddly_train.Outbound.{Scheduler, queued, command_response, enqueue_critical}
use cuddly_train.Result.{ObjectWriter, close, CommandResult}
use cuddly_train.Dispatch.{
  Handler, is_invalid_argument, reports_invalid_argument, enqueue_line, enqueue_error, answer_ok,
  count_invalid, finish_handled, run_checked, run_found, dispatch, default_message,
  recoverable_command_error, RecoverableCommandError,
}

-- The counters of responses are those of before.
record Same (c c' : Counters) : Type 0 where
  ok_same : c'.commands_ok ≡ c.commands_ok
  error_same : c'.commands_error ≡ c.commands_error
  received_same : c'.commands_received ≡ c.commands_received

-- Either a line was queued as a response and one of the two counters of responses grew, or a teardown
-- is requested, and then neither the scheduler nor these counters have changed.
pub record Answered {W : Type 0} (s : Scheduler) (c : Counters)
    (out : Bool × Scheduler × Counters × W) : Type 0 where
  pub torn : out.0 ≡ true → out.1 ≡ s
  pub torn_ok : out.0 ≡ true → out.2.commands_ok ≡ c.commands_ok
  pub torn_error : out.0 ≡ true → out.2.commands_error ≡ c.commands_error
  pub line :
      out.0 ≡ false
      → (bytes : List ℕ) × (enqueue_critical command_response (some bytes) s ≡ (queued, out.1))
  pub counted :
      out.0 ≡ false
      → ((out.2.commands_ok ≡ bump c.commands_ok) × (out.2.commands_error ≡ c.commands_error))
        ⊎ ((out.2.commands_ok ≡ c.commands_ok) × (out.2.commands_error ≡ bump c.commands_error))
  pub received : out.2.commands_received ≡ c.commands_received

module _ {W : Type 0} where
  Same-Answered :
      (s : Scheduler) (c c' : Counters) (out : Bool × Scheduler × Counters × W)
      → Same c c'
      → Answered s c' out
      → Answered s c out
  Same-Answered s c c' out k a = record {
    torn = a.torn;
    torn_ok = λ h. a.torn_ok h ∙ k.ok_same;
    torn_error = λ h. a.torn_error h ∙ k.error_same;
    line = a.line;
    counted = λ h. ground (arith, a.counted h, k.ok_same, k.error_same);
    received = a.received ∙ k.received_same;
  }

  if-Answered :
      (s : Scheduler) (c : Counters) (b : Bool) (x y : Bool × Scheduler × Counters × W)
      → Answered s c x
      → Answered s c y
      → Answered s c (if b then x else y)
  if-Answered s c true x y a b = a
  if-Answered s c false x y a b = b

count_invalid-Same :
    (b : Bool) (c : Counters) → Same c (increment unknown_commands c) × Same c (count_invalid b c)
unfolding increment
count_invalid-Same true c = (
  record { ok_same = refl; error_same = refl; received_same = refl },
  record { ok_same = refl; error_same = refl; received_same = refl },
)
count_invalid-Same false c = (
  record { ok_same = refl; error_same = refl; received_same = refl },
  record { ok_same = refl; error_same = refl; received_same = refl },
)

module _ {V Double Float W : Type 0} (lib : JsonLibrary V Double Float)
    (print_double : Double → List ℕ) (clock : Clock W) (identity : BoardIdentity) where
  error_line-Answered :
      (line : Option (List ℕ)) (s : Scheduler) (c : Counters) (w : W)
      → Answered s c
          (enqueue_line lib print_double clock identity (increment commands_error) line s c w)
  unfolding enqueue_critical increment
  error_line-Answered none s c w = record {
    torn = λ h. refl;
    torn_ok = λ h. refl;
    torn_error = λ h. refl;
    line = λ h. cc;
    counted = λ h. cc;
    received = refl;
  }
  error_line-Answered (some line) s c w = record {
    torn = ground arith;
    torn_ok = ground arith;
    torn_error = ground arith;
    line = λ h. (line, ground (arith, h));
    counted = ground arith;
    received = ground arith;
  }

  ok_line-Answered :
      (line : List ℕ) (s : Scheduler) (c : Counters) (w : W)
      → Answered s c
          (enqueue_line lib print_double clock identity (increment commands_ok) (some line) s c w)
  unfolding enqueue_critical increment
  ok_line-Answered line s c w = record {
    torn = ground arith;
    torn_ok = ground arith;
    torn_error = ground arith;
    line = λ h. (line, ground (arith, h));
    counted = ground arith;
    received = ground arith;
  }

  enqueue_error-Answered :
      (seq : ℕ) (controller_ts : Double) (code : BoardErrorCode) (message : CString) (s : Scheduler)
      (c : Counters) (w : W)
      → Answered s c
          (enqueue_error lib print_double clock identity seq controller_ts code message s c w)
  unfolding enqueue_error
  enqueue_error-Answered seq controller_ts code message s c w = error_line-Answered _ s c _

  answer_ok-Answered :
      (command : ParsedCommand Double) (line : Option (List ℕ)) (s : Scheduler) (c : Counters)
      (w : W)
      → Answered s c (answer_ok lib print_double clock identity command line s c w)
  answer_ok-Answered command none s c w =
      enqueue_error-Answered command.seq command.controller_ts internal_error
        (some (codes "response exceeded fixed capacity")) s c w
  answer_ok-Answered command (some line) s c w = ok_line-Answered line s c w

  finish_handled-Answered :
      (command : ParsedCommand Double) (parsed : ℕ) (handled : CommandResult)
      (result : ObjectWriter) (s : Scheduler) (c : Counters) (w : W)
      → Answered s c
          (finish_handled lib print_double clock identity command parsed handled result s c w)
  unfolding finish_handled
  finish_handled-Answered command parsed handled result s c w =
      let code = to_board_error_code handled.error_code in
      let (closed, result') = close result in
      let (ready, w₁) = clock.monotonic_microseconds w in
      let (line, w₂) =
        build_ok_line lib.is_finite print_double clock identity command.seq command.controller_ts
          result'.writer.text ((ready + 2 ^ 64 - parsed) % 2 ^ 64) w₁ in
      let c' = count_invalid (reports_invalid_argument handled.error_code) c in
      if-Answered s c (not handled.ok) _ _
        (Same-Answered s c c' _
          (count_invalid-Same (reports_invalid_argument handled.error_code) c).1
          (enqueue_error-Answered command.seq command.controller_ts code (some handled.message) s c'
            w))
        (if-Answered s c (result.writer.failed || not closed || result'.writer.failed) _ _
          (enqueue_error-Answered command.seq command.controller_ts internal_error
            (some (codes "response exceeded fixed capacity")) s c w)
          (answer_ok-Answered command line s c w₂))

  run_checked-Answered :
      (command : ParsedCommand Double) (parsed : ℕ) (handler : Handler V W)
      (error : Option (BoardErrorCode × CString)) (p : Parser V) (s : Scheduler) (c : Counters)
      (w : W)
      → Answered s c
          (run_checked lib print_double clock identity command parsed handler error p s c w)
  run_checked-Answered command parsed handler (some (code, message)) p s c w =
      Same-Answered s c _ _ (count_invalid-Same (is_invalid_argument code) c).1
        (enqueue_error-Answered command.seq command.controller_ts code message s _ w)
  run_checked-Answered command parsed handler none p s c w =
      finish_handled-Answered command parsed _ _ s c _

  run_found-Answered :
      (command : ParsedCommand Double) (parsed : ℕ) (found : Option (StoredCommand (Handler V W)))
      (p : Parser V) (s : Scheduler) (c : Counters) (w : W)
      → Answered s c (run_found lib print_double clock identity command parsed found p s c w)
  run_found-Answered command parsed none p s c w =
      Same-Answered s c _ _ (count_invalid-Same true c).0 (
        enqueue_error-Answered command.seq command.controller_ts unknown_command
          (some (codes "unknown command")) s _ w)
  run_found-Answered command parsed (some registered) p s c w =
      run_checked-Answered command parsed registered.handler _ p s c w

  -- Whatever the command, its arguments and its handler are, a dispatch counts the command, and it
  -- either queues one response and counts it once, as a success or as an error; or it asks for a
  -- teardown, and then no response is queued or counted.
  pub dispatch_lem :
      (commands : List (StoredCommand (Handler V W))) (command : ParsedCommand Double) (parsed : ℕ)
      (p : Parser V) (s : Scheduler) (c : Counters) (w : W)
      → Answered s
          (increment commands_received c)
          (dispatch lib print_double clock identity commands command parsed p s c w)
  unfolding dispatch
  dispatch_lem commands command parsed p s c w = run_found-Answered command parsed _ p s _ w

  -- The same of the answer to a command that the parser has refused, but that it is an error.
  pub recoverable_command_error_lem :
      (error : RecoverableCommandError Double) (s : Scheduler) (c : Counters) (w : W)
      → Answered s c (recoverable_command_error lib print_double clock identity error s c w)
  unfolding recoverable_command_error
  recoverable_command_error_lem error s c w =
      enqueue_error-Answered error.seq error.controller_ts error.code
        (some (default_message error.code)) s c w
