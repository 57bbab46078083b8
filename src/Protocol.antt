-- ===== src/Protocol.antt =====
-- src/core/Protocol.h and src/core/ErrorCodeMapping.h: the words of the protocol and its error codes;
-- src/api/BoardIdentity.h: who the board is.
use cuddly_train.Base.{ℕ, List, CString, codes}

pub data MessageType : Type 0 where
  schema command response telemetry event estop heartbeat : MessageType

abbrev pub message_type_text : MessageType → List ℕ
message_type_text schema = codes "schema"
message_type_text command = codes "command"
message_type_text response = codes "response"
message_type_text telemetry = codes "telemetry"
message_type_text event = codes "event"
message_type_text estop = codes "estop"
message_type_text heartbeat = codes "heartbeat"

pub data BoardStatus : Type 0 where
  ok error : BoardStatus

abbrev pub board_status_text : BoardStatus → List ℕ
board_status_text ok = codes "ok"
board_status_text error = codes "error"

-- `BoardErrorCode`, and the `ErrorCode` of the API, which has the same constructors.
pub data BoardErrorCode : Type 0 where
  missing_field invalid_type unknown_command invalid_argument internal_error estop_active :
      BoardErrorCode

pub data ErrorCode : Type 0 where
  missing_field invalid_type unknown_command invalid_argument internal_error estop_active :
      ErrorCode

abbrev pub board_error_code_text : BoardErrorCode → List ℕ
board_error_code_text BoardErrorCode.missing_field = codes "MISSING_FIELD"
board_error_code_text BoardErrorCode.invalid_type = codes "INVALID_TYPE"
board_error_code_text BoardErrorCode.unknown_command = codes "UNKNOWN_COMMAND"
board_error_code_text BoardErrorCode.invalid_argument = codes "INVALID_ARGUMENT"
board_error_code_text BoardErrorCode.internal_error = codes "INTERNAL_ERROR"
board_error_code_text BoardErrorCode.estop_active = codes "ESTOP_ACTIVE"

abbrev pub to_board_error_code : ErrorCode → BoardErrorCode
to_board_error_code ErrorCode.missing_field = BoardErrorCode.missing_field
to_board_error_code ErrorCode.invalid_type = BoardErrorCode.invalid_type
to_board_error_code ErrorCode.unknown_command = BoardErrorCode.unknown_command
to_board_error_code ErrorCode.invalid_argument = BoardErrorCode.invalid_argument
to_board_error_code ErrorCode.internal_error = BoardErrorCode.internal_error
to_board_error_code ErrorCode.estop_active = BoardErrorCode.estop_active

abbrev pub to_api_error_code : BoardErrorCode → ErrorCode
to_api_error_code BoardErrorCode.missing_field = ErrorCode.missing_field
to_api_error_code BoardErrorCode.invalid_type = ErrorCode.invalid_type
to_api_error_code BoardErrorCode.unknown_command = ErrorCode.unknown_command
to_api_error_code BoardErrorCode.invalid_argument = ErrorCode.invalid_argument
to_api_error_code BoardErrorCode.internal_error = ErrorCode.internal_error
to_api_error_code BoardErrorCode.estop_active = ErrorCode.estop_active

pub data EventName : Type 0 where
  estop_ack estop_triggered : EventName

abbrev pub event_name_text : EventName → List ℕ
event_name_text estop_ack = codes "estop_ack"
event_name_text estop_triggered = codes "estop_triggered"

pub record BoardIdentity : Type 0 where
  pub board_id : CString
  pub protocol_version : CString
  pub firmware_version : CString

-- `other_mode` is a value outside the enumeration, which a cast can make.
pub data Mode : Type 0 where
  dhcp static_ipv4 other_mode : Mode

pub record NetworkConfig : Type 0 where
  pub mode : Mode
  pub listen_port : ℕ
  pub ip : List ℕ
  pub gateway : List ℕ
  pub subnet : List ℕ
