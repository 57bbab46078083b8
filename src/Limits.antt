-- ===== src/Limits.antt =====
-- src/support/Limits.h: the capacities and periods that the components share.
use cuddly_train.Base.{ℕ, ◌-◌}

abbrev pub board_rx_max_line_bytes : ℕ
board_rx_max_line_bytes = 1024

abbrev pub board_tx_max_line_bytes : ℕ
board_tx_max_line_bytes = 8192

abbrev pub outbound_critical_queue_capacity : ℕ
outbound_critical_queue_capacity = 4

abbrev pub outbound_cancellation_batch_capacity : ℕ
outbound_cancellation_batch_capacity = 5

abbrev pub response_envelope_reserve_bytes : ℕ
response_envelope_reserve_bytes = 512

abbrev pub max_result_payload_bytes : ℕ
max_result_payload_bytes = board_tx_max_line_bytes - response_envelope_reserve_bytes

abbrev pub max_error_message_bytes : ℕ
max_error_message_bytes = 160

abbrev pub max_json_nesting_depth : ℕ
max_json_nesting_depth = 8

abbrev pub telemetry_period_ms : ℕ
telemetry_period_ms = 50

abbrev pub transmit_deadline_ms : ℕ
transmit_deadline_ms = 100

abbrev pub telemetry_deadline_failures_to_teardown : ℕ
telemetry_deadline_failures_to_teardown = 10

abbrev pub hook_budget_ms : ℕ
hook_budget_ms = 100

abbrev pub network_init_retry_ms : ℕ
network_init_retry_ms = 1000

abbrev pub max_registered_commands : ℕ
max_registered_commands = 16

abbrev pub max_args_per_command : ℕ
max_args_per_command = 8

abbrev pub max_board_id_bytes : ℕ
max_board_id_bytes = 48

abbrev pub max_protocol_version_bytes : ℕ
max_protocol_version_bytes = 8

abbrev pub max_firmware_version_bytes : ℕ
max_firmware_version_bytes = 32

abbrev pub max_command_name_bytes : ℕ
max_command_name_bytes = 48

abbrev pub max_arg_name_bytes : ℕ
max_arg_name_bytes = 48

abbrev pub max_field_name_bytes : ℕ
max_field_name_bytes = 48

abbrev pub max_telemetry_fields : ℕ
max_telemetry_fields = 24

abbrev pub max_state_fields : ℕ
max_state_fields = 24

abbrev pub estop_triggered_reason_max_bytes : ℕ
estop_triggered_reason_max_bytes = 160

abbrev pub schema_json_buffer_bytes : ℕ
schema_json_buffer_bytes = board_tx_max_line_bytes

abbrev pub response_json_buffer_bytes : ℕ
response_json_buffer_bytes = board_tx_max_line_bytes

abbrev pub max_double_literal_bytes : ℕ
max_double_literal_bytes = 32
