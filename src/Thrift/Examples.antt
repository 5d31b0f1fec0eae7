-- ===== src/Thrift/Examples.antt =====
-- The theorems on src/thrift.rs and src/thrift/codec.rs at concrete inputs.
use harborsql.Base.{
  ℕ, ◌≡◌, refl, true, false, some, [], ◌∷◌, ◌++◌, Bytes, ascii, length, ◌≤◌, arith, ◌<◌, ◌^◌,
}
use harborsql.Thrift.Protocol.{t_message_call, t_i32, valid_field_type}
use harborsql.Thrift.Result.{ok}
use harborsql.Thrift.Uuids.{plain_uuids, an_id}
use harborsql.Thrift.Codec.Reader
use harborsql.Thrift.Codec.Reader.{Reader, utf8_valid}
use harborsql.Thrift.Codec.Reader.Safe.{IsValid, Outcome}
use harborsql.Thrift.Codec.Reader.Reads.{advance}
use harborsql.Thrift.Codec.Writer.{new, into_inner, write_message_begin}
use harborsql.Thrift.Codec.Skip.{skip, skip_remaining_struct_fields}
use harborsql.Thrift.Codec.Skip.Safe.{skip-Outcome}
use harborsql.Thrift.Codec.Skip.Value.{
  Value, Fields, string, i32, list, cons, nil, struct, field, end, type_of, encode, encode_fields,
  Fits,
}
use harborsql.Thrift.Codec.Skip.Reads.{skip-encode, skip_remaining_struct_fields-encode_fields}
use harborsql.Thrift.Requests.{decode_message, read_session_handle, read_operation_handle}
use harborsql.Thrift.Requests.Decoding.{decode_message-write_message_begin}
use harborsql.Thrift.Requests.Handles.{handles_round_trip}
use harborsql.Thrift.Responses.Parts.{write_session_handle, write_operation_handle_with_type}
use harborsql.Thrift.Responses.{
  write_open_session_response, write_open_session_error, write_close_session_response,
  write_get_info_response, write_get_info_invalid, write_get_columns_response,
  write_get_columns_error, write_get_columns_invalid, write_execute_statement_response,
  write_execute_statement_error, write_execute_statement_invalid,
  write_get_operation_status_response, write_get_operation_status_invalid,
  write_get_query_id_response, write_close_operation_response, write_cancel_operation_response,
}
use harborsql.Thrift.Responses.WellFormed.{IsReply}
use harborsql.Thrift.Responses.Replies.{session_responses_are_replies}
use harborsql.Thrift.Responses.OperationReplies.{operation_responses_are_replies}
use harborsql.Thrift.Service.Access.{some_inj}
use harborsql.Thrift.State.{OperationState, canceled, error_message}

-- A list of two numbers, and a struct that holds it.
abbrev numbers : Value
numbers = list t_i32 (cons (i32 7) (cons (i32 8) nil))

abbrev named_numbers : Fields
named_numbers = field 1 (string (ascii "ids")) (field 2 (struct (field 3 numbers end)) end)

abbrev start : Bytes → Reader
start bytes = Reader.new bytes

start-IsValid : (bytes : Bytes) → IsValid (start bytes)
start-IsValid bytes = record { within = omega arith }

skip-Outcome_example : Outcome 0 (start (0 ∷ 1 ∷ [])) (skip 6 (start (0 ∷ 1 ∷ [])))
skip-Outcome_example = skip-Outcome 6 (start (0 ∷ 1 ∷ [])) (start-IsValid (0 ∷ 1 ∷ []))

numbers-Fits : (d : ℕ) → d ≤ 10 → Fits d numbers
unfolding valid_field_type
numbers-Fits d h = (
  omega arith,
  refl,
  omega arith,
  (refl, (omega arith, omega arith), (refl, (omega arith, omega arith), tt)),
)

skip-encode_example :
    skip (type_of numbers) (start (encode numbers ++ (9 ∷ [])))
    ≡ ok (tt, advance (length (encode numbers)) (start (encode numbers ++ (9 ∷ []))))
skip-encode_example =
    skip-encode numbers (start (encode numbers ++ (9 ∷ []))) (9 ∷ []) (numbers-Fits 0 (omega arith))
      (start-IsValid _) refl

skip_remaining_struct_fields-encode_fields_example :
    skip_remaining_struct_fields (start (encode_fields named_numbers ++ (9 ∷ [])))
    ≡ ok (
      tt,
      advance
          (length (encode_fields named_numbers))
          (start (encode_fields named_numbers ++ (9 ∷ []))),
    )
skip_remaining_struct_fields-encode_fields_example =
    skip_remaining_struct_fields-encode_fields named_numbers
      (start (encode_fields named_numbers ++ (9 ∷ []))) (9 ∷ [])
      (
        omega arith,
        (omega arith, omega arith),
        (omega arith, (omega arith, (omega arith, numbers-Fits 3 (omega arith), tt)), tt),
      )
      (start-IsValid _) refl

decode_message-write_message_begin_example :
    decode_message
      (into_inner (write_message_begin (ascii "GetInfo") t_message_call 7 new) ++ (0 ∷ []))
    ≡ ok (record {
      name = ascii "GetInfo";
      message_type = t_message_call;
      seqid = 7;
      payload = 0 ∷ [];
    })
unfolding utf8_valid
decode_message-write_message_begin_example =
    decode_message-write_message_begin (ascii "GetInfo") (0 ∷ []) t_message_call 7 (omega arith)
      refl (omega arith) (omega arith)

abbrev sixteen_bytes : Bytes
sixteen_bytes = ascii "0123456789abcdef"

abbrev session_handle_bytes : Bytes
session_handle_bytes =
    into_inner (write_session_handle (plain_uuids.as_bytes an_id) sixteen_bytes new)

abbrev operation_handle_bytes : Bytes
operation_handle_bytes =
    into_inner
      (write_operation_handle_with_type (plain_uuids.as_bytes an_id) sixteen_bytes true 4 new)

handles_round_trip_example :
    (read_session_handle plain_uuids (start (session_handle_bytes ++ (0 ∷ [])))
      ≡ ok (
        some (record { id = plain_uuids.to_string an_id; secret = sixteen_bytes }),
        advance (length session_handle_bytes) (start (session_handle_bytes ++ (0 ∷ []))),
      ))
    × (read_operation_handle plain_uuids (start (operation_handle_bytes ++ (0 ∷ [])))
        ≡ ok (
          some (record { id = plain_uuids.to_string an_id; secret = sixteen_bytes }),
          advance (length operation_handle_bytes) (start (operation_handle_bytes ++ (0 ∷ []))),
        ))
handles_round_trip_example =
    handles_round_trip plain_uuids an_id sixteen_bytes refl
      (start (session_handle_bytes ++ (0 ∷ []))) (start (operation_handle_bytes ++ (0 ∷ [])))
      (0 ∷ []) true 4 (omega arith) (start-IsValid _) (start-IsValid _) refl refl

session_responses_are_replies_example :
    IsReply (ascii "OpenSession") 5 (
      write_open_session_response 5 sixteen_bytes sixteen_bytes
        (ascii "main")
        (ascii "default")
        (1 ∷ []))
    × IsReply (ascii "OpenSession") 5 (write_open_session_error 5 (ascii "full"))
    × IsReply (ascii "CloseSession") 5 (write_close_session_response 5 true)
    × IsReply (ascii "GetInfo") 5 (write_get_info_response 5 1 (ascii "main"))
    × IsReply (ascii "GetInfo") 5 (write_get_info_invalid 5)
session_responses_are_replies_example =
    session_responses_are_replies 5 1 sixteen_bytes sixteen_bytes (ascii "main") (ascii "default")
      (ascii "full") (1 ∷ []) true (omega arith) (omega arith) (omega arith) (omega arith)
      (omega arith) (omega arith) (omega arith)

abbrev canceled_operation : OperationState ℕ
canceled_operation = record {
  secret = sixteen_bytes;
  session_id = ascii "s";
  token_fingerprint = ascii "f";
  state = canceled 3 9;
}

message_is_short : (m : Bytes) → error_message canceled_operation.state ≡ some m → length m < 2 ^ 31
unfolding error_message
message_is_short m h = rw (← some_inj _ _ h) (omega arith)

operation_responses_are_replies_example :
    IsReply (ascii "GetColumns") 5 (write_get_columns_response 5 sixteen_bytes sixteen_bytes)
    × IsReply (ascii "GetColumns") 5 (write_get_columns_error 5 (ascii "full"))
    × IsReply (ascii "GetColumns") 5 (write_get_columns_invalid 5 (ascii "full"))
    × IsReply
        (ascii "ExecuteStatement")
        5
        (write_execute_statement_response 5 sixteen_bytes sixteen_bytes)
    × IsReply (ascii "ExecuteStatement") 5 (write_execute_statement_error 5 (ascii "full"))
    × IsReply (ascii "ExecuteStatement") 5 (write_execute_statement_invalid 5 (ascii "full"))
    × IsReply
        (ascii "GetOperationStatus")
        5
        (write_get_operation_status_response 5 canceled_operation)
    × IsReply (ascii "GetOperationStatus") 5 (write_get_operation_status_invalid 5)
    × IsReply (ascii "GetQueryId") 5 (write_get_query_id_response 5 (ascii "q"))
    × IsReply (ascii "CloseOperation") 5 (write_close_operation_response 5 false)
    × IsReply (ascii "CancelOperation") 5 (write_cancel_operation_response 5 false)
operation_responses_are_replies_example =
    operation_responses_are_replies 5 (omega arith) canceled_operation sixteen_bytes sixteen_bytes
      (ascii "full") (ascii "q") false (omega arith) (omega arith) (omega arith) (omega arith)
      message_is_short
