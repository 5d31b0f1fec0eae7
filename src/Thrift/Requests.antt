-- ===== src/Thrift/Requests.antt =====
-- The decoding of messages and of the arguments of each method: `decode_message`, `read_args` and the
-- `read_…` functions of src/thrift.rs. A loop over fields is `read_fields` with the body of the loop,
-- a function of the loop's variables, the field's type and its id.
pub mod Safe
pub mod Decoding
pub mod Handles
use harborsql.Base.{
  ℕ, zero, suc, ◌*◌, ◌^◌, Bool, ◌&&◌, not, Option, none, some, List, [], ◌∷◌, length, drop, Bytes,
  bit_and, leb, ◌==◌, if◌then◌else◌,
}
use harborsql.Thrift.Protocol.{t_stop, t_i32, t_i64, t_string, t_struct, t_list, t_binary_version_1}
use harborsql.Thrift.Protocol.Info.{cli_dbms_name}
use harborsql.Thrift.Result.{
  Result, ok, err, stuck, not_strict_binary, missing_req, missing_sql, negative_i32_list,
}
use harborsql.Thrift.Uuids.{Uuids}
use harborsql.Thrift.Codec.Reader
use harborsql.Thrift.Codec.Reader.{
  Reader, Parse, ◌>>=◌, ◌>>◌, pure, fail, remaining, read_u8, read_i32, read_i64, read_string,
  read_binary, read_field_begin,
}
use harborsql.Thrift.Codec.Skip.{
  out_of_fuel, read_fields, repeat, skip, skip_remaining_struct_fields,
}

pub record Message : Type 0 where
  pub name : Bytes
  pub message_type : ℕ
  pub seqid : ℕ
  pub payload : Bytes

-- `&body[reader.position()..]` is the payload.
with_payload : ℕ → Bytes → ℕ → Parse Message
with_payload version name seqid r = ok (
  record {
    name = name;
    message_type = bit_and version 0xff;
    seqid = seqid;
    payload = drop r.position r.buffer;
  },
  r,
)

pub message : Parse Message
unfolding with_payload
message = do
  version ← read_i32
  if not (bit_and version 0xffff_0000 == t_binary_version_1)
      then fail not_strict_binary
      else do name ← read_string; seqid ← read_i32; with_payload version name seqid

pub decode_message : Bytes → Result Message
decode_message body = elim (message (Reader.new body)) [
  | ok (m, r) ↦ ok m
  | err e ↦ err e
  | stuck ↦ stuck
]

args_loop {ℓ} : {A : Type ℓ} → ℕ → Parse A → Parse A
args_loop zero parse = out_of_fuel
args_loop (suc fuel) parse = read_field_begin >>= λ (t, id).
    if t == t_stop
    then fail missing_req
    else if id == 1 && t == t_struct
    then (do request ← parse; skip_remaining_struct_fields; pure request)
    else (skip t >>= λ _. args_loop fuel parse)

-- Each round of the loop reads a byte at least.
pub args {ℓ} : {A : Type ℓ} → Parse A → Parse A
args parse r = args_loop (suc (remaining r)) parse r

pub read_args {ℓ} : {A : Type ℓ} → Bytes → Parse A → Result A
read_args payload parse = elim (args parse (Reader.new payload)) [
  | ok (request, r) ↦ ok request
  | err e ↦ err e
  | stuck ↦ stuck
]

-- A field that the decoder does not know: `_ => reader.skip(field_type)?`.
abbrev pub unknown {ℓ} : {S : Type ℓ} → S → ℕ → Parse S
unknown s t = skip t >>= λ _. pure s

pub record Handle : Type 0 where
  pub id : Bytes
  pub secret : Bytes

-- `bytes.as_slice().try_into().ok()` for 16 bytes.
abbrev pub secret_of : Bytes → Option Bytes
secret_of bytes = if length bytes == 16 then some bytes else none

-- The loop variables `guid` and `secret`.
pub record Identifier : Type 0 where
  pub guid : Option Bytes
  pub secret : Option Bytes

abbrev pub handle_of : Option Bytes → Option Bytes → Option Handle
handle_of (some id) (some secret) = some (record { id = id; secret = secret })
handle_of _ _ = none

pub record Namespace : Type 0 where
  pub catalog : Option Bytes
  pub schema : Option Bytes

namespace_field : Namespace → ℕ → ℕ → Parse Namespace
namespace_field s t id =
    if id == 1 && t == t_string
    then (do v ← read_string; pure (record s { catalog = some v }))
    else if id == 2 && t == t_string
    then (do v ← read_string; pure (record s { schema = some v }))
    else unknown s t

pub read_namespace : Parse Namespace
unfolding namespace_field
read_namespace = read_fields namespace_field (record { catalog = none; schema = none })

read_i32s : ℕ → Parse (List ℕ)
read_i32s zero = pure []
read_i32s (suc n) = do v ← read_i32; vs ← read_i32s n; pure (v ∷ vs)

pub read_i32_list : Parse (List ℕ)
unfolding read_i32s
read_i32_list = do
  element_type ← read_u8
  len ← read_i32
  if leb (2 ^ 31) len then fail negative_i32_list else do
    if not (element_type == t_i32)
        then (do repeat len (skip element_type); pure [])
        else read_i32s len

pub record OpenSessionReq : Type 0 where
  pub catalog : Option Bytes
  pub schema : Option Bytes
  pub get_info_types : List ℕ

open_session_field : OpenSessionReq → ℕ → ℕ → Parse OpenSessionReq
open_session_field s t id =
    if id == 1281 && t == t_list
    then (do types ← read_i32_list; pure (record s { get_info_types = types }))
    else if id == 1284 && t == t_struct
    then (do n ← read_namespace; pure (record s { catalog = n.catalog; schema = n.schema }))
    else unknown s t

pub read_open_session_req : Parse OpenSessionReq
unfolding open_session_field
read_open_session_req =
    read_fields open_session_field (record { catalog = none; schema = none; get_info_types = [] })

pub record CloseSessionReq : Type 0 where
  pub session_handle : Option Handle

pub record GetInfoReq : Type 0 where
  pub session_handle : Option Handle
  pub info_type : ℕ

pub record GetColumnsReq : Type 0 where
  pub session_handle : Option Handle
  pub catalog_name : Option Bytes
  pub schema_name : Option Bytes
  pub table_name : Option Bytes
  pub column_name : Option Bytes

pub record ExecuteStatementReq : Type 0 where
  pub session_handle : Option Handle
  pub statement : Bytes

pub record OperationReq : Type 0 where
  pub operation_handle : Option Handle

pub record FetchResultsReq : Type 0 where
  pub operation_handle : Option Handle
  pub start_row_offset : Option ℕ
  pub max_rows : Option ℕ

-- The loop variables of `read_get_info_req` and of `read_execute_statement_req`.
pub record InfoFields : Type 0 where
  session_handle : Option Handle
  info_type : Option ℕ

pub record StatementFields : Type 0 where
  session_handle : Option Handle
  statement : Option Bytes

module _ (u : Uuids) where
  unfoldable pub guid_of : Bytes → Option Bytes
  guid_of bytes = elim (u.from_slice bytes) [ some id ↦ some (u.to_string id) | none ↦ none ]

  identifier_field : Identifier → ℕ → ℕ → Parse Identifier
  identifier_field s t id =
      if id == 1 && t == t_string
      then (do bytes ← read_binary; pure (record s { guid = guid_of bytes }))
      else if id == 2 && t == t_string
      then (do bytes ← read_binary; pure (record s { secret = secret_of bytes }))
      else unknown s t

  pub read_handle_identifier : Parse (Option Handle)
  unfolding identifier_field
  read_handle_identifier = do
    s ← read_fields identifier_field (record { guid = none; secret = none })
    pure (handle_of s.guid s.secret)

  -- The loop of `read_session_handle` and of `read_operation_handle`.
  handle_field : Option Handle → ℕ → ℕ → Parse (Option Handle)
  handle_field s t id = if id == 1 && t == t_struct then read_handle_identifier else unknown s t

  pub read_session_handle : Parse (Option Handle)
  unfolding handle_field
  read_session_handle = read_fields handle_field none

  pub read_operation_handle : Parse (Option Handle)
  unfolding handle_field
  read_operation_handle = read_fields handle_field none

  close_session_field : CloseSessionReq → ℕ → ℕ → Parse CloseSessionReq
  close_session_field s t id =
      if id == 1 && t == t_struct
      then (do h ← read_session_handle; pure (record { session_handle = h }))
      else unknown s t

  pub read_close_session_req : Parse CloseSessionReq
  unfolding close_session_field
  read_close_session_req = read_fields close_session_field (record { session_handle = none })

  get_info_field : InfoFields → ℕ → ℕ → Parse InfoFields
  get_info_field s t id =
      if id == 1 && t == t_struct
      then (do h ← read_session_handle; pure (record s { session_handle = h }))
      else if id == 2 && t == t_i32
      then (do v ← read_i32; pure (record s { info_type = some v }))
      else unknown s t

  pub read_get_info_req : Parse GetInfoReq
  unfolding get_info_field
  read_get_info_req = do
    s ← read_fields get_info_field (record { session_handle = none; info_type = none })
    pure (record {
      session_handle = s.session_handle;
      info_type = elim s.info_type [ some v ↦ v | none ↦ cli_dbms_name ];
    })

  get_columns_field : GetColumnsReq → ℕ → ℕ → Parse GetColumnsReq
  get_columns_field s t id =
      if id == 1 && t == t_struct
      then (do h ← read_session_handle; pure (record s { session_handle = h }))
      else if id == 2 && t == t_string
      then (do v ← read_string; pure (record s { catalog_name = some v }))
      else if id == 3 && t == t_string
      then (do v ← read_string; pure (record s { schema_name = some v }))
      else if id == 4 && t == t_string
      then (do v ← read_string; pure (record s { table_name = some v }))
      else if id == 5 && t == t_string
      then (do v ← read_string; pure (record s { column_name = some v }))
      else unknown s t

  pub read_get_columns_req : Parse GetColumnsReq
  unfolding get_columns_field
  read_get_columns_req = read_fields get_columns_field (record {
    session_handle = none;
    catalog_name = none;
    schema_name = none;
    table_name = none;
    column_name = none;
  })

  execute_statement_field : StatementFields → ℕ → ℕ → Parse StatementFields
  execute_statement_field s t id =
      if id == 1 && t == t_struct
      then (do h ← read_session_handle; pure (record s { session_handle = h }))
      else if id == 2 && t == t_string
      then (do v ← read_string; pure (record s { statement = some v }))
      else unknown s t

  statement_or_error : StatementFields → Option Bytes → Parse ExecuteStatementReq
  statement_or_error s none = fail missing_sql
  statement_or_error s (some sql) =
      pure (record { session_handle = s.session_handle; statement = sql })

  pub read_execute_statement_req : Parse ExecuteStatementReq
  unfolding execute_statement_field statement_or_error
  read_execute_statement_req = do
    s ← read_fields execute_statement_field (record { session_handle = none; statement = none })
    statement_or_error s s.statement

  operation_field : OperationReq → ℕ → ℕ → Parse OperationReq
  operation_field s t id =
      if id == 1 && t == t_struct
      then (do h ← read_operation_handle; pure (record { operation_handle = h }))
      else unknown s t

  pub read_operation_req : Parse OperationReq
  unfolding operation_field
  read_operation_req = read_fields operation_field (record { operation_handle = none })

  fetch_results_field : FetchResultsReq → ℕ → ℕ → Parse FetchResultsReq
  fetch_results_field s t id =
      if id == 1 && t == t_struct
      then (do h ← read_operation_handle; pure (record s { operation_handle = h }))
      else if id == 3 && t == t_i64
      then (do v ← read_i64; pure (record s { max_rows = some v }))
      else if id == 1282 && t == t_i64
      then (do v ← read_i64; pure (record s { start_row_offset = some v }))
      else unknown s t

  pub read_fetch_results_req : Parse FetchResultsReq
  unfolding fetch_results_field
  read_fetch_results_req =
      read_fields fetch_results_field
        (record { operation_handle = none; start_row_offset = none; max_rows = none })
