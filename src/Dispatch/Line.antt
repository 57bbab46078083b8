-- ===== src/Dispatch/Line.antt =====
-- src/core/CommandDispatcher.h: the lines of the responses. The line buffer is reset for every
-- response, so its bytes are the result of the builder, `none` where it returns `false`.
use cuddly_train.Base.{
  ℕ, ◌+◌, ◌-◌, ◌/◌, ◌%◌, Bool, not, ◌||◌, List, [], ◌∷◌, ◌++◌, Option, some, none, CString, codes,
  ◌==◌, ltb, leb, if◌then◌else◌, length, get_or, take, last_or,
}
use cuddly_train.Limits.{response_json_buffer_bytes, max_double_literal_bytes}
use cuddly_train.Platform.{Clock}
use cuddly_train.Protocol.{
  BoardIdentity, BoardStatus, BoardErrorCode, board_status_text, board_error_code_text,
}
use cuddly_train.Json.Decimal.{decimal}
use cuddly_train.Telemetry.{◌&&>◌, text_or_empty}

unfoldable pub append_bytes : List ℕ → List ℕ → Option (List ℕ)
append_bytes value line =
    if leb response_json_buffer_bytes (length value)
      || ltb (response_json_buffer_bytes - 1 - length value) (length line)
    then none
    else some (line ++ value)

unfoldable pub append_uint64 : ℕ → List ℕ → Option (List ℕ)
append_uint64 value = append_bytes (decimal value)

-- A digit as `%x` prints it.
abbrev pub lower_hex : ℕ → ℕ
lower_hex value = if ltb value 10 then b'0' + value else b'a' + (value - 10)

unfoldable pub escape_byte : ℕ → List ℕ
escape_byte c =
    if c == b'"'
    then b'\\' ∷ b'"' ∷ []
    else if c == b'\\'
    then b'\\' ∷ b'\\' ∷ []
    else if c == 8
    then b'\\' ∷ b'b' ∷ []
    else if c == 12
    then b'\\' ∷ b'f' ∷ []
    else if c == b'\n'
    then b'\\' ∷ b'n' ∷ []
    else if c == b'\r'
    then b'\\' ∷ b'r' ∷ []
    else if c == b'\t'
    then b'\\' ∷ b't' ∷ []
    else if ltb c 0x20
    then b'\\' ∷ b'u' ∷ b'0' ∷ b'0' ∷ lower_hex (c / 16) ∷ lower_hex (c % 16) ∷ []
    else c ∷ []

-- The loop of `appendEscapedString`.
unfoldable pub append_escaped_from : List ℕ → List ℕ → Option (List ℕ)
append_escaped_from [] line = some line
append_escaped_from (c ∷ cs) line = append_bytes (escape_byte c) line &&> append_escaped_from cs

unfoldable pub append_escaped_string : CString → List ℕ → Option (List ℕ)
append_escaped_string value line =
    append_bytes (b'"' ∷ []) line
    &&> append_escaped_from (text_or_empty value)
    &&> append_bytes (b'"' ∷ [])

-- The result with the time that the board took behind its other members.
unfoldable pub append_result_with_board_proc_us : List ℕ → ℕ → List ℕ → Option (List ℕ)
append_result_with_board_proc_us result board_proc_us line =
    let alone =
      append_bytes (codes "{\"board_proc_us\":") line
      &&> append_uint64 board_proc_us
      &&> append_bytes (codes "}") in
    let behind =
      append_bytes (take (length result - 1) result) line
      &&> append_bytes (codes ",\"board_proc_us\":")
      &&> append_uint64 board_proc_us
      &&> append_bytes (codes "}") in
    if ltb (length result) 2 || not (get_or result 0 0 == b'{') || not (last_or result 0 == b'}')
    then none
    else if length result == 2
    then alone
    else behind

-- The finite doubles, and what `snprintf` prints of one under `%.*g`, are the platform's.
module _ {Double : Type 0} (is_finite : Double → Bool) (print_double : Double → List ℕ) where
  unfoldable pub append_double : Double → List ℕ → Option (List ℕ)
  append_double value line =
      let literal = print_double value in
      if not (is_finite value)
      then none
      else if length literal == 0 || leb max_double_literal_bytes (length literal)
      then none
      else append_bytes literal line

  -- The envelope up to its timestamp, and behind it.
  abbrev pub append_head : ℕ → Double → List ℕ → Option (List ℕ)
  append_head seq controller_ts line =
      append_bytes (codes "{\"type\":\"response\",\"seq\":") line
      &&> append_uint64 seq
      &&> append_bytes (codes ",\"controller_ts\":")
      &&> append_double controller_ts
      &&> append_bytes (codes ",\"timestamp\":")

abbrev pub append_tail : ℕ → BoardIdentity → BoardStatus → List ℕ → Option (List ℕ)
append_tail now identity status line =
    append_uint64 now line
    &&> append_bytes (codes ",\"source\":")
    &&> append_escaped_string identity.board_id
    &&> append_bytes (codes ",\"target\":\"controller\",\"status\":")
    &&> append_escaped_string (some (board_status_text status))

module _ {W Double : Type 0} (is_finite : Double → Bool) (print_double : Double → List ℕ)
    (clock : Clock W) (identity : BoardIdentity) where
  abbrev pub at_time : BoardStatus → Option (List ℕ) → W → Option (List ℕ) × W
  at_time status none w = (none, w)
  at_time status (some line) w =
      let (now, w') = clock.monotonic_milliseconds w in (append_tail now identity status line, w')

  unfoldable pub append_envelope_prefix : ℕ → Double → BoardStatus → W → Option (List ℕ) × W
  unfolding append_double
  append_envelope_prefix seq controller_ts status w =
      at_time status (append_head is_finite print_double seq controller_ts []) w

  unfoldable pub build_ok_line : ℕ → Double → List ℕ → ℕ → W → Option (List ℕ) × W
  unfolding append_envelope_prefix append_result_with_board_proc_us
  build_ok_line seq controller_ts result board_proc_us w =
      let (line, w') = append_envelope_prefix seq controller_ts BoardStatus.ok w in
      (
        line
            &&> append_bytes (codes ",\"result\":")
            &&> append_result_with_board_proc_us result board_proc_us
            &&> append_bytes (codes ",\"error\":null}\n"),
        w',
      )

  unfoldable pub build_error_line : ℕ → Double → BoardErrorCode → CString → W → Option (List ℕ) × W
  unfolding append_envelope_prefix append_escaped_string
  build_error_line seq controller_ts code message w =
      let (line, w') = append_envelope_prefix seq controller_ts BoardStatus.error w in
      (
        line
            &&> append_bytes (codes ",\"result\":null,\"error\":{\"code\":")
            &&> append_escaped_string (some (board_error_code_text code))
            &&> append_bytes (codes ",\"message\":")
            &&> append_escaped_string message
            &&> append_bytes (codes "}}\n"),
        w',
      )
