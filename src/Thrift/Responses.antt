-- ===== src/Thrift/Responses.antt =====
-- The responses of the methods: src/thrift.rs. The responses that hold a result set, those of
-- `GetResultSetMetadata` and `FetchResults`, need the encoding of columns and are not here.
pub mod Parts
pub mod Trees
pub mod WellFormed
pub mod Replies
pub mod OperationReplies
use harborsql.Base.{
  ℕ, Bool, true, false, Option, none, some, List, [], ◌∷◌, Bytes, ascii, length, if◌then◌else◌,
}
use harborsql.Thrift.Protocol.{
  t_bool, t_i32, t_string, t_struct, t_list, success_status, error_status, invalid_handle_status,
  error_state, get_columns, spark_cli_service_protocol_v7,
}
use harborsql.Thrift.Codec.Writer.{
  Write, ◌⨾◌, write_field, write_stop, write_bool, write_i32, write_string, write_list_begin,
}
use harborsql.Thrift.State.{OperationState, status_code, operation_state, result, error_message}
use harborsql.Thrift.Responses.Parts.{
  write_success_response, write_status, write_operation_status_response, write_session_handle,
  write_operation_handle_with_type, write_operation_handle, write_namespace,
  write_get_info_string_value, write_get_info_value,
}

-- A response that holds a status and nothing else.
unfoldable pub status_only : Bytes → ℕ → ℕ → Option Bytes → Bytes
status_only method seqid code text =
    write_success_response method seqid
      (write_field t_struct 1 (write_status code text) ⨾ write_stop)

write_info_values : List ℕ → Bytes → Write
write_info_values [] catalog w = w
write_info_values (t ∷ ts) catalog w =
    write_info_values ts catalog (write_get_info_value t catalog w)

-- `if !get_info_types.is_empty()`
write_info_types : List ℕ → Bytes → Write → Write
unfolding write_info_values
write_info_types [] catalog rest = rest
write_info_types (t ∷ ts) catalog rest =
    write_field t_list 1281
      (write_list_begin t_struct (length (t ∷ ts)) ⨾ write_info_values (t ∷ ts) catalog)
    ⨾ rest

pub write_open_session_response : ℕ → Bytes → Bytes → Bytes → Bytes → List ℕ → Bytes
unfolding write_info_types
write_open_session_response seqid guid secret catalog schema get_info_types =
    write_success_response (ascii "OpenSession") seqid (
      write_field t_struct 1 (write_status success_status none)
      ⨾ write_field t_i32 2 (write_i32 spark_cli_service_protocol_v7)
      ⨾ write_field t_struct 3 (write_session_handle guid secret)
      ⨾ write_field t_struct 1284 (write_namespace catalog schema)
      ⨾ write_field t_bool 1285 (write_bool true)
      ⨾ write_info_types get_info_types catalog write_stop)

pub write_open_session_error : ℕ → Bytes → Bytes
unfolding status_only
write_open_session_error seqid text =
    status_only (ascii "OpenSession") seqid error_status (some text)

pub write_close_session_response : ℕ → Bool → Bytes
unfolding status_only
write_close_session_response seqid valid =
    status_only (ascii "CloseSession") seqid
      (if valid then success_status else invalid_handle_status)
      (if valid then none else some (ascii "invalid session handle"))

pub write_get_info_response : ℕ → ℕ → Bytes → Bytes
write_get_info_response seqid info_type catalog = write_success_response (ascii "GetInfo") seqid (
    write_field t_struct 1 (write_status success_status none)
    ⨾ write_field t_struct 2 (write_get_info_value info_type catalog)
    ⨾ write_stop)

pub write_get_info_invalid : ℕ → Bytes
write_get_info_invalid seqid = write_success_response (ascii "GetInfo") seqid (
    write_field t_struct 1
      (write_status invalid_handle_status (some (ascii "invalid session handle")))
    ⨾ write_field t_struct 2 (write_get_info_string_value [])
    ⨾ write_stop)

pub write_get_columns_response : ℕ → Bytes → Bytes → Bytes
write_get_columns_response seqid guid secret = write_success_response (ascii "GetColumns") seqid (
    write_field t_struct 1 (write_status success_status none)
    ⨾ write_field t_struct 2 (write_operation_handle_with_type guid secret true get_columns)
    ⨾ write_stop)

pub write_get_columns_error : ℕ → Bytes → Bytes
unfolding status_only
write_get_columns_error seqid text = status_only (ascii "GetColumns") seqid error_status (some text)

pub write_get_columns_invalid : ℕ → Bytes → Bytes
unfolding status_only
write_get_columns_invalid seqid text =
    status_only (ascii "GetColumns") seqid invalid_handle_status (some text)

pub write_execute_statement_response : ℕ → Bytes → Bytes → Bytes
write_execute_statement_response seqid guid secret =
    write_success_response (ascii "ExecuteStatement") seqid (
      write_field t_struct 1 (write_status success_status none)
      ⨾ write_field t_struct 2 (write_operation_handle guid secret true)
      ⨾ write_stop)

pub write_execute_statement_error : ℕ → Bytes → Bytes
unfolding status_only
write_execute_statement_error seqid text =
    status_only (ascii "ExecuteStatement") seqid error_status (some text)

pub write_execute_statement_invalid : ℕ → Bytes → Bytes
unfolding status_only
write_execute_statement_invalid seqid text =
    status_only (ascii "ExecuteStatement") seqid invalid_handle_status (some text)

abbrev is_some {ℓ} : {A : Type ℓ} → Option A → Bool
is_some none = false
is_some (some a) = true

pub write_get_operation_status_response : {R : Type 0} → ℕ → OperationState R → Bytes
unfolding status_code operation_state result error_message
write_get_operation_status_response seqid o =
    write_success_response (ascii "GetOperationStatus") seqid (
      write_operation_status_response (status_code o.state) (operation_state o.state)
        (is_some (result o.state)) (error_message o.state))

pub write_get_operation_status_invalid : ℕ → Bytes
write_get_operation_status_invalid seqid =
    write_success_response (ascii "GetOperationStatus") seqid (
      write_operation_status_response invalid_handle_status error_state false
        (some (ascii "unknown operation handle")))

pub write_get_query_id_response : ℕ → Bytes → Bytes
write_get_query_id_response seqid query_id =
    write_success_response (ascii "GetQueryId") seqid
      (write_field t_string 1 (write_string query_id) ⨾ write_stop)

pub write_close_operation_response : ℕ → Bool → Bytes
unfolding status_only
write_close_operation_response seqid valid =
    status_only (ascii "CloseOperation") seqid
      (if valid then success_status else invalid_handle_status)
      (if valid then none else some (ascii "unknown operation handle"))

pub write_cancel_operation_response : ℕ → Bool → Bytes
unfolding status_only
write_cancel_operation_response seqid valid =
    status_only (ascii "CancelOperation") seqid
      (if valid then success_status else invalid_handle_status)
      (if valid then none else some (ascii "unknown operation handle"))
