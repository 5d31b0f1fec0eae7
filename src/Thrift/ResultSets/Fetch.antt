-- ===== src/Thrift/ResultSets/Fetch.antt =====
-- The responses that carry a result set: `write_fetch_results_response_struct` of
-- src/thrift/result_encoding.rs, and the responses to GetResultSetMetadata and FetchResults in
-- src/thrift.rs. `none` is a panic. The log of an error is left out.
pub mod Replies
use harborsql.Base.{ℕ, Bool, true, false, Option, none, some, List, [], ◌∷◌, Bytes, ascii}
use harborsql.Error.{HarborError, client_error, status_message}
use harborsql.Error.Outcome.{Result, ok, err, ◌>>=◌}
use harborsql.Thrift.Protocol.{
  t_bool, t_struct, success_status, error_status, invalid_handle_status,
}
use harborsql.Thrift.Codec.Writer.{Write, ◌⨾◌, write_stop, write_bool, write_field}
use harborsql.Thrift.Responses.Parts.{write_success_response, write_status}
use harborsql.Results.{InlineResultStore, QueryResultPage, row_page}
use harborsql.Results.Batches.{RecordBatches}
use harborsql.Thrift.ResultSets.Encoders.{
  DataType, ColumnEncoder, column_encoders, write_result_set_metadata_response,
  write_result_set_metadata_response_with_encoders, write_result_set_metadata_response_with_error,
}
use harborsql.Thrift.ResultSets.Values.{Formats}
use harborsql.Thrift.ResultSets.Rows.{ArrayRef, write_row_set_with_encoders}

unfoldable pub thrift_client_error_message : HarborError → Bytes
thrift_client_error_message error = status_message (client_error error)

-- A response without rows.
unfoldable pub no_rows : ℕ → Bytes → Write
no_rows status message =
    write_field t_struct 1 (write_status status (some message))
    ⨾ write_field t_bool 2 (write_bool false)
    ⨾ write_stop

unfoldable pub metadata_or_error : Result Write → Write
metadata_or_error (ok w) = w
metadata_or_error (err e) =
    write_result_set_metadata_response_with_error error_status (thrift_client_error_message e)

unfoldable pub write_get_result_set_metadata_response : ℕ → List Bytes → List DataType → Bytes
write_get_result_set_metadata_response seqid names types =
    write_success_response (ascii "GetResultSetMetadata") seqid
      (metadata_or_error (write_result_set_metadata_response names types success_status))

unfoldable pub write_get_result_set_metadata_invalid : ℕ → Bytes
write_get_result_set_metadata_invalid seqid =
    write_success_response (ascii "GetResultSetMetadata") seqid (
      write_result_set_metadata_response_with_error invalid_handle_status
        (ascii "unknown operation handle"))

unfoldable pub message_or_default : Option Bytes → Bytes
message_or_default none = ascii "operation is not finished"
message_or_default (some message) = message

unfoldable pub write_get_result_set_metadata_not_ready : ℕ → Option Bytes → Bytes
write_get_result_set_metadata_not_ready seqid message =
    write_success_response (ascii "GetResultSetMetadata") seqid
      (write_result_set_metadata_response_with_error error_status (message_or_default message))

unfoldable pub write_fetch_results_invalid : ℕ → Bytes
write_fetch_results_invalid seqid =
    write_success_response (ascii "FetchResults") seqid
      (no_rows invalid_handle_status (ascii "unknown operation handle"))

unfoldable pub write_fetch_results_not_ready : ℕ → Option Bytes → Bytes
write_fetch_results_not_ready seqid message =
    write_success_response (ascii "FetchResults") seqid
      (no_rows error_status (message_or_default message))

-- The metadata behind the rows, if the client asks for it.
unfoldable pub write_included : Bool → Write → Write
write_included true metadata = write_field t_struct 1281 metadata ⨾ write_stop
write_included false metadata = write_stop

module _ (f : Formats) (r : RecordBatches) (columns : r.RecordBatch → List ArrayRef) where
  unfoldable pub fetched :
      List Bytes
      → List ColumnEncoder
      → Bool
      → QueryResultPage r
      → Option (Result Write)
      → Option (Result Write)
  fetched names encoders include_metadata page none = none
  fetched names encoders include_metadata page (some (err e)) = some (err e)
  fetched names encoders include_metadata page (some (ok row_set)) = some (
      ok (
        write_field t_struct 1 (write_status success_status none)
        ⨾ write_field t_bool 2 (write_bool page.has_more_rows)
        ⨾ write_field t_struct 3 row_set
        ⨾ write_included include_metadata
            (write_result_set_metadata_response_with_encoders names encoders success_status)))

  unfoldable pub fetched_with :
      List Bytes → Bool → QueryResultPage r → Result (List ColumnEncoder) → Option (Result Write)
  fetched_with names include_metadata page (err e) = some (err e)
  fetched_with names include_metadata page (ok encoders) =
      fetched names encoders include_metadata page
        (write_row_set_with_encoders f r columns names page encoders)

  unfoldable pub write_fetch_results_response_struct :
      List Bytes → List DataType → InlineResultStore r → Bool → ℕ → Option ℕ → Option (Result Write)
  write_fetch_results_response_struct names types store include_metadata start max_rows =
      fetched_with names include_metadata (row_page r store start max_rows)
        (column_encoders names types)

  unfoldable pub response_of : ℕ → Option (Result Write) → Option Bytes
  response_of seqid none = none
  response_of seqid (some (ok w)) = some (write_success_response (ascii "FetchResults") seqid w)
  response_of seqid (some (err e)) = some (
      write_success_response (ascii "FetchResults") seqid
        (no_rows error_status (thrift_client_error_message e)))

  unfoldable pub write_fetch_results_response :
      ℕ → List Bytes → List DataType → InlineResultStore r → Bool → ℕ → Option ℕ → Option Bytes
  write_fetch_results_response seqid names types store include_metadata start max_rows =
      response_of seqid
        (write_fetch_results_response_struct names types store include_metadata start max_rows)
