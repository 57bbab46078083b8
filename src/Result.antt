-- ===== src/Result.antt =====
-- src/api/ObjectWriter.h and src/api/CommandResult.h: what a command's handler fills and returns.
-- mod Tests
use cuddly_train.Base.{
  ℕ, Bool, true, false, not, ◌&&◌, List, [], Option, some, none, CString, codes, ltb, if◌then◌else◌,
  length, is_some, str_eq,
}
use cuddly_train.Limits.{max_result_payload_bytes, max_error_message_bytes}
use cuddly_train.Protocol.{ErrorCode, internal_error}
use cuddly_train.Json.Decimal.{ℤ}
use cuddly_train.Json.{
  JsonWriter, Step, new, begin_object, reserve_tail_bytes, release_tail_reserve, end_object,
}
use cuddly_train.Json as Json

pub record ObjectWriter : Type 0 where
  pub writer : JsonWriter
  pub closed : Bool

unfoldable pub new_object : ObjectWriter
new_object = record {
  writer = (reserve_tail_bytes 1 (begin_object (new max_result_payload_bytes)).1).1;
  closed = false;
}

abbrev pub is_board_proc_us : CString → Bool
is_board_proc_us none = false
is_board_proc_us (some name) = str_eq name (codes "board_proc_us")

abbrev pub allowed : CString → ObjectWriter → Bool
allowed name o = not o.closed && is_some name && not (is_board_proc_us name)

-- `allowed(name) && …` with a call on the writer.
unfoldable pub add : CString → Step → ObjectWriter → Bool × ObjectWriter
add name step o =
    let (added, writer) = step o.writer in
    if allowed name o then (added, record o { writer = writer }) else (false, o)

unfoldable pub add_int : CString → ℤ → ObjectWriter → Bool × ObjectWriter
unfolding add
add_int name value = add name (Json.add_int name value)

unfoldable pub add_uint64 : CString → ℕ → ObjectWriter → Bool × ObjectWriter
unfolding add
add_uint64 name value = add name (Json.add_uint64 name value)

unfoldable pub add_bool : CString → Bool → ObjectWriter → Bool × ObjectWriter
unfolding add
add_bool name value = add name (Json.add_bool name value)

unfoldable pub add_string : CString → CString → ObjectWriter → Bool × ObjectWriter
unfolding add
add_string name value = add name (Json.add_string name value)

unfoldable pub add_string_bytes : CString → Option (List ℕ) → ObjectWriter → Bool × ObjectWriter
unfolding add
add_string_bytes name value = add name (Json.add_string_bytes name value)

unfoldable pub close : ObjectWriter → Bool × ObjectWriter
close o =
    let (ended, writer) = end_object (release_tail_reserve o.writer) in
    if o.closed then (true, o) else (ended, record o { writer = writer; closed = ended })

pub record CommandResult : Type 0 where
  pub ok : Bool
  pub error_code : ErrorCode
  pub message : List ℕ

abbrev pub copy_message : CString → List ℕ
copy_message none = []
copy_message (some message) =
    if ltb max_error_message_bytes (length message)
    then codes "error message exceeds fixed capacity"
    else message

unfoldable pub ok_result : CommandResult
ok_result = record { ok = true; error_code = internal_error; message = copy_message (some []) }

unfoldable pub error_result : ErrorCode → CString → CommandResult
error_result code message = record { ok = false; error_code = code; message = copy_message message }
