-- ===== src/Dispatch.antt =====
-- src/core/CommandDispatcher.h: a parsed command is looked up, its arguments are checked, its handler
-- runs, and one response is queued. A handler is the board's code: a function of the sequence number,
-- the arguments with the parser behind them, the counters and the world, which fills an object writer.
pub mod Line
pub mod Arguments
pub mod Declared
pub mod Answers
pub mod Diagnostics
mod Tests
use cuddly_train.Base.{
  ℕ, ◌+◌, ◌-◌, ◌%◌, ◌^◌, Bool, true, false, not, ◌&&◌, ◌||◌, List, [], ◌∷◌, Option, some, none,
  CString, codes, if◌then◌else◌, is_some, str_eq,
}
use cuddly_train.Counters.{
  Counters, increment, commands_received, commands_ok, commands_error, unknown_commands,
  invalid_arguments,
}
use cuddly_train.Platform.{Clock}
use cuddly_train.Protocol.{
  BoardIdentity, BoardErrorCode, missing_field, invalid_type, unknown_command, invalid_argument,
  internal_error, estop_active, ErrorCode, to_board_error_code,
}
use cuddly_train.Registry.{
  ValueType, int, float, bool, string, other, StoredField, StoredCommand, find_command,
  field_name_exists,
}
use cuddly_train.Inbound.{
  JsonLibrary, Parser, CommandArgs, unbound, of_parser, ParsedCommand, args_has, args_get_int,
  args_get_float, args_get_bool, args_get_string, backing_live,
}
use cuddly_train.Outbound.{
  Scheduler, OutboundEnqueueResult, queued, command_response, enqueue_critical,
}
use cuddly_train.Result.{ObjectWriter, new_object, close, CommandResult}
use Line.{build_ok_line, build_error_line}

module _ {V Double Float : Type 0} (lib : JsonLibrary V Double Float) where
  unfoldable pub argument_type_matches : CommandArgs → StoredField → Parser V → Bool
  unfolding args_get_int args_get_float args_get_bool args_get_string
  argument_type_matches args spec p = elim spec.type [
    | int ↦ is_some (args_get_int lib args (some spec.name) p)
    | float ↦ is_some (args_get_float lib args (some spec.name) p)
    | bool ↦ is_some (args_get_bool lib args (some spec.name) p)
    | string ↦ is_some (args_get_string lib args (some spec.name) p)
    | other ↦ false
  ]

  abbrev pub declares_argument : List StoredField → CString → Bool
  declares_argument specs none = false
  declares_argument specs (some name) = field_name_exists specs name

  -- The loop over the keys.
  unfoldable pub has_undeclared : List StoredField → List CString → Bool
  has_undeclared specs [] = false
  has_undeclared specs (name ∷ names) =
      not (declares_argument specs name) || has_undeclared specs names

  unfoldable pub has_extra_argument : List StoredField → CommandArgs → Parser V → Bool
  unfolding has_undeclared
  has_extra_argument specs unbound p = false
  has_extra_argument specs of_parser p =
      if not (backing_live lib p)
      then false
      else elim p.args [ none ↦ false | some args ↦ has_undeclared specs (lib.keys args) ]

  -- The loop over the declared arguments: the error and its message, or `none` at its end.
  unfoldable pub check_declared :
      List StoredField → CommandArgs → Parser V → Option (BoardErrorCode × CString)
  unfolding args_has argument_type_matches
  check_declared [] args p = none
  check_declared (spec ∷ specs) args p =
      let rest = check_declared specs args p in
      if not (args_has lib args (some spec.name) p)
      then some (missing_field, some (codes "missing required argument"))
      else if not (argument_type_matches args spec p)
      then some (invalid_type, some (codes "argument has invalid type"))
      else rest

  -- The error and its message, or `none` where the function returns `true`.
  unfoldable pub validate_args :
      List StoredField → CommandArgs → Parser V → Option (BoardErrorCode × CString)
  unfolding check_declared has_extra_argument
  validate_args specs args p = elim (check_declared specs args p) [
    | some error ↦ some error
    | none ↦
        if has_extra_argument specs args p
        then some (invalid_argument, some (codes "argument is not declared"))
        else none
  ]

abbrev pub is_invalid_argument : BoardErrorCode → Bool
is_invalid_argument invalid_argument = true
is_invalid_argument _ = false

abbrev pub reports_invalid_argument : ErrorCode → Bool
reports_invalid_argument ErrorCode.invalid_argument = true
reports_invalid_argument _ = false

abbrev pub count_invalid : Bool → Counters → Counters
count_invalid invalid c = if invalid then increment invalid_arguments c else c

abbrev pub is_queued : OutboundEnqueueResult → Bool
is_queued queued = true
is_queued _ = false

abbrev pub default_message : BoardErrorCode → List ℕ
default_message missing_field = codes "missing required field"
default_message invalid_type = codes "field has invalid type"
default_message unknown_command = codes "unknown command"
default_message invalid_argument = codes "invalid argument"
default_message internal_error = codes "internal error"
default_message estop_active = codes "hardware safety condition is active"

pub record RecoverableCommandError (Double : Type 0) : Type 0 where
  pub seq : ℕ
  pub controller_ts : Double
  pub code : BoardErrorCode

abbrev pub Handler : Type 0 → Type 0 → Type 0
Handler V W =
    ℕ → CommandArgs → Parser V → Counters → ObjectWriter → W → CommandResult × ObjectWriter × W

module _ {V Double Float W : Type 0} (lib : JsonLibrary V Double Float)
    (print_double : Double → List ℕ) (clock : Clock W) (identity : BoardIdentity) where
  -- Whether a teardown is requested, the scheduler, the counters and the world.
  abbrev pub Dispatched : Type 0
  Dispatched = Bool × Scheduler × Counters × W

  -- `enqueueCritical` with the line that was built, and the counter of the response.
  abbrev pub enqueue_line :
      (Counters → Counters) → Option (List ℕ) → Scheduler → Counters → W → Dispatched
  enqueue_line count none s c w = (true, s, c, w)
  enqueue_line count (some line) s c w =
      let (result, s') = enqueue_critical command_response (some line) s in
      if not (is_queued result) then (true, s', c, w) else (false, s', count c, w)

  unfoldable pub enqueue_error :
      ℕ → Double → BoardErrorCode → CString → Scheduler → Counters → W → Dispatched
  unfolding build_error_line increment
  enqueue_error seq controller_ts code message s c w =
      let (line, w') =
        build_error_line lib.is_finite print_double clock identity seq controller_ts code message
          w in
      enqueue_line (increment commands_error) line s c w'

  unfoldable pub recoverable_command_error :
      RecoverableCommandError Double → Scheduler → Counters → W → Dispatched
  unfolding enqueue_error
  recoverable_command_error error s c w =
      enqueue_error error.seq error.controller_ts error.code (some (default_message error.code)) s c
        w

  abbrev pub enqueue_fallback_internal_error : ℕ → Double → Scheduler → Counters → W → Dispatched
  enqueue_fallback_internal_error seq controller_ts s c w =
      enqueue_error seq controller_ts internal_error
        (some (codes "response exceeded fixed capacity")) s c w

  -- `dispatch` from its end to its start: with the line of the response, with the result of the
  -- handler, with the outcome of the checks, and with the command that was found.
  abbrev pub answer_ok :
      ParsedCommand Double → Option (List ℕ) → Scheduler → Counters → W → Dispatched
  answer_ok command none s c w =
      enqueue_fallback_internal_error command.seq command.controller_ts s c w
  answer_ok command (some line) s c w = enqueue_line (increment commands_ok) (some line) s c w

  unfoldable pub finish_handled :
      ParsedCommand Double
      → ℕ
      → CommandResult
      → ObjectWriter
      → Scheduler
      → Counters
      → W
      → Dispatched
  unfolding enqueue_error build_ok_line increment
  finish_handled command parse_completed_us handled result s c w =
      let code = to_board_error_code handled.error_code in
      let (closed, result') = close result in
      let (response_ready_us, w₁) = clock.monotonic_microseconds w in
      let board_proc_us = (response_ready_us + 2 ^ 64 - parse_completed_us) % 2 ^ 64 in
      let (line, w₂) =
        build_ok_line lib.is_finite print_double clock identity command.seq command.controller_ts
          result'.writer.text board_proc_us w₁ in
      if not handled.ok
      then enqueue_error command.seq command.controller_ts code (some handled.message) s
          (count_invalid (reports_invalid_argument handled.error_code) c) w
      else if result.writer.failed || not closed || result'.writer.failed
      then enqueue_fallback_internal_error command.seq command.controller_ts s c w
      else answer_ok command line s c w₂

  abbrev pub run_checked :
      ParsedCommand Double
      → ℕ
      → Handler V W
      → Option (BoardErrorCode × CString)
      → Parser V
      → Scheduler
      → Counters
      → W
      → Dispatched
  run_checked command parse_completed_us handler (some (code, message)) p s c w =
      enqueue_error command.seq command.controller_ts code message s
        (count_invalid (is_invalid_argument code) c) w
  run_checked command parse_completed_us handler none p s c w =
      let (handled, result, w') = handler command.seq command.args p c new_object w in
      finish_handled command parse_completed_us handled result s c w'

  abbrev pub run_found :
      ParsedCommand Double
      → ℕ
      → Option (StoredCommand (Handler V W))
      → Parser V
      → Scheduler
      → Counters
      → W
      → Dispatched
  run_found command parse_completed_us none p s c w =
      enqueue_error command.seq command.controller_ts unknown_command
        (some (codes "unknown command")) s (increment unknown_commands c) w
  run_found command parse_completed_us (some registered) p s c w =
      run_checked command parse_completed_us registered.handler
        (validate_args lib registered.args command.args p) p s c w

  unfoldable pub dispatch :
      List (StoredCommand (Handler V W))
      → ParsedCommand Double
      → ℕ
      → Parser V
      → Scheduler
      → Counters
      → W
      → Dispatched
  unfolding finish_handled validate_args find_command
  dispatch commands command parse_completed_us p s c w =
      run_found command parse_completed_us (find_command commands command.command) p s
        (increment commands_received c) w
