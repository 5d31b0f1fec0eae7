-- ===== src/Thrift/Responses/OperationReplies.antt =====
-- The responses about operations: src/thrift.rs.
use harborsql.Base.{ℕ, ◌^◌, ◌<◌, ◌≡◌, refl, Bool, true, false, none, some, Bytes, ascii, arith}
use harborsql.Thrift.Protocol.{get_columns, execute_statement, t_struct, success_status}
use harborsql.Thrift.Codec.Writer.{◌⨾◌, write_field, write_stop}
use harborsql.Thrift.Codec.Reader.{utf8_valid}
use harborsql.Thrift.State.{OperationState, error_message}
use harborsql.Thrift.Responses.Trees.{
  IsText, IsStruct-stop, IsStruct-field, IsValue-string, IsValue-struct,
}
use harborsql.Thrift.Responses.Parts.{
  write_operation_handle, write_operation_handle_with_type, write_success_response, write_status,
}
use harborsql.Thrift.Responses.WellFormed.{IsReply, IsReply-success}
use harborsql.Thrift.Responses.Replies.{
  IsText-some, IsText-none, IsStruct-status_field, IsStruct-operation_handle, status_only-IsReply,
  IsStruct-operation_status, status_code-lt, operation_state-lt,
}
use harborsql.Thrift.Responses.{
  status_only, write_get_columns_response, write_get_columns_error, write_get_columns_invalid,
  write_execute_statement_response, write_execute_statement_error, write_execute_statement_invalid,
  write_get_operation_status_response, write_get_operation_status_invalid,
  write_get_query_id_response, write_close_operation_response, write_cancel_operation_response,
}

module _ (seqid : ℕ) (word : seqid < 2 ^ 32) where
  close-IsReply :
      (valid : Bool)
      → IsReply (ascii "CloseOperation") seqid (write_close_operation_response seqid valid)
  unfolding write_close_operation_response utf8_valid
  close-IsReply true =
      status_only-IsReply _ seqid _ _ (omega arith) refl word (omega arith) IsText-none
  close-IsReply false =
      status_only-IsReply _ seqid _ _ (omega arith) refl word (omega arith)
        (IsText-some (omega arith))

  cancel-IsReply :
      (valid : Bool)
      → IsReply (ascii "CancelOperation") seqid (write_cancel_operation_response seqid valid)
  unfolding write_cancel_operation_response utf8_valid
  cancel-IsReply true =
      status_only-IsReply _ seqid _ _ (omega arith) refl word (omega arith) IsText-none
  cancel-IsReply false =
      status_only-IsReply _ seqid _ _ (omega arith) refl word (omega arith)
        (IsText-some (omega arith))

  -- The responses that start an operation, that report on one and that end one are replies to the
  -- method that they name, with the number of the call, in the sense of `session_responses_are_replies`.
  -- Each text has fewer than 2 ^ 31 bytes, also the error message of the operation, if it has one.
  pub operation_responses_are_replies :
      {R : Type 0} (o : OperationState R) (guid secret text query_id : Bytes) (valid : Bool)
      → IsText guid
      → IsText secret
      → IsText text
      → IsText query_id
      → ((m : Bytes) → error_message o.state ≡ some m → IsText m)
      → IsReply (ascii "GetColumns") seqid (write_get_columns_response seqid guid secret)
        × IsReply (ascii "GetColumns") seqid (write_get_columns_error seqid text)
        × IsReply (ascii "GetColumns") seqid (write_get_columns_invalid seqid text)
        × IsReply
            (ascii "ExecuteStatement")
            seqid
            (write_execute_statement_response seqid guid secret)
        × IsReply (ascii "ExecuteStatement") seqid (write_execute_statement_error seqid text)
        × IsReply (ascii "ExecuteStatement") seqid (write_execute_statement_invalid seqid text)
        × IsReply (ascii "GetOperationStatus") seqid (write_get_operation_status_response seqid o)
        × IsReply (ascii "GetOperationStatus") seqid (write_get_operation_status_invalid seqid)
        × IsReply (ascii "GetQueryId") seqid (write_get_query_id_response seqid query_id)
        × IsReply (ascii "CloseOperation") seqid (write_close_operation_response seqid valid)
        × IsReply (ascii "CancelOperation") seqid (write_cancel_operation_response seqid valid)
  unfolding write_get_columns_response write_get_columns_error write_get_columns_invalid
      write_execute_statement_response write_execute_statement_error write_operation_handle
      write_execute_statement_invalid write_get_operation_status_response
      write_get_operation_status_invalid write_get_query_id_response utf8_valid
  operation_responses_are_replies o guid secret text query_id valid g s t q m = (
    started get_columns (ascii "GetColumns") (omega arith) refl (omega arith),
    only (ascii "GetColumns") _ (omega arith) refl (omega arith),
    only (ascii "GetColumns") _ (omega arith) refl (omega arith),
    started execute_statement (ascii "ExecuteStatement") (omega arith) refl (omega arith),
    only (ascii "ExecuteStatement") _ (omega arith) refl (omega arith),
    only (ascii "ExecuteStatement") _ (omega arith) refl (omega arith),
    IsReply-success _ seqid _ (omega arith) refl word
        (IsStruct-operation_status _ _ _ _ (status_code-lt o) (operation_state-lt o) m),
    IsReply-success _ seqid _ (omega arith) refl word
        (IsStruct-operation_status _ _ _ _ (omega arith) (omega arith) (IsText-some (omega arith))),
    IsReply-success _ seqid _ (omega arith) refl word (
        IsStruct-field _ _ _ _ _ (omega arith) (IsValue-string 3 (omega arith) query_id q)
          (IsStruct-stop 3)),
    close-IsReply valid,
    cancel-IsReply valid,
  )
    where
      only :
          (method : Bytes) (code : ℕ)
          → IsText method
          → utf8_valid method ≡ true
          → code < 2 ^ 32
          → IsReply method seqid (status_only method seqid code (some text))
      only method code n u c = status_only-IsReply method seqid code _ n u word c (IsText-some t)

      started :
          (type : ℕ) (method : Bytes)
          → IsText method
          → utf8_valid method ≡ true
          → type < 2 ^ 32
          → IsReply method seqid (
              write_success_response method seqid (
                write_field t_struct 1 (write_status success_status none)
                ⨾ write_field t_struct 2 (write_operation_handle_with_type guid secret true type)
                ⨾ write_stop))
      started type method n u c = IsReply-success method seqid _ n u word (
          IsStruct-status_field _ none _ (omega arith) IsText-none (
            IsStruct-field _ _ _ _ _ (omega arith)
              (IsValue-struct 3 _ (omega arith)
                (IsStruct-operation_handle guid secret true type c g s))
              (IsStruct-stop 3)))
