-- ===== src/Thrift/Responses/Replies.antt =====
-- The responses about sessions, and the structs that responses share: src/thrift.rs.
use harborsql.Base.{
  ℕ, ◌^◌, ◌≤◌, ◌<◌, ◌≡◌, refl, Bool, true, false, Option, none, some, List, [], ◌∷◌, Bytes, ascii,
  length, arith,
}
use harborsql.Thrift.Protocol.{t_struct}
use harborsql.Thrift.Codec.Writer.{Write, ◌⨾◌, write_stop, write_field}
use harborsql.Thrift.Codec.Skip.{max_container_elements}
use harborsql.Thrift.Codec.Reader.{utf8_valid}
use harborsql.Thrift.State.{
  OperationState, OperationExecution, status_code, operation_state, failed,
}
use harborsql.Thrift.Responses.Trees.{
  IsStruct, IsText, IsStruct-stop, IsStruct-field, IsValue-i32, IsValue-bool, IsValue-struct,
  IsValue-list, AreStructs, AreStructs-nil, AreStructs-cons,
}
use harborsql.Thrift.Responses.Parts.{
  write_session_handle, write_operation_handle_with_type, write_status,
  write_operation_status_response, write_get_info_value,
}
use harborsql.Thrift.Responses.WellFormed.{
  IsReply, IsReply-success, IsStruct-status, IsStruct-handle_identifier, IsStruct-namespace,
  IsStruct-get_info_value, IsStruct-get_info_string_value,
}
use harborsql.Thrift.Responses.{
  status_only, write_info_values, write_info_types, write_open_session_response,
  write_open_session_error, write_close_session_response, write_get_info_response,
  write_get_info_invalid,
}

pub IsText-some : {v : Bytes} → IsText v → (m : Bytes) → some v ≡ some m → IsText m
IsText-some h m e = ground arith

pub IsText-none : (m : Bytes) → none ≡ some m → IsText m
IsText-none m e = cc

-- A status field at the head of a response.
pub IsStruct-status_field :
    (code : ℕ) (text : Option Bytes) (rest : Write)
    → code < 2 ^ 32
    → ((m : Bytes) → text ≡ some m → IsText m)
    → IsStruct 3 rest
    → IsStruct 3 (write_field t_struct 1 (write_status code text) ⨾ rest)
IsStruct-status_field code text rest c t s =
    IsStruct-field _ _ _ _ _ (omega arith)
      (IsValue-struct 3 _ (omega arith) (IsStruct-status 5 (omega arith) code text c t)) s

pub IsStruct-session_handle :
    (guid secret : Bytes)
    → IsText guid
    → IsText secret
    → IsStruct 5 (write_session_handle guid secret)
unfolding write_session_handle
IsStruct-session_handle guid secret g s =
    IsStruct-field _ _ _ _ _ (omega arith)
      (IsValue-struct 5 _ (omega arith)
        (IsStruct-handle_identifier 7 (omega arith) guid secret g s))
      (IsStruct-field _ _ _ _ _ (omega arith) (IsValue-i32 5 (omega arith) _ (omega arith))
        (IsStruct-stop 5))

pub IsStruct-operation_handle :
    (guid secret : Bytes) (has : Bool) (type : ℕ)
    → type < 2 ^ 32
    → IsText guid
    → IsText secret
    → IsStruct 5 (write_operation_handle_with_type guid secret has type)
unfolding write_operation_handle_with_type
IsStruct-operation_handle guid secret has type t g s =
    IsStruct-field _ _ _ _ _ (omega arith)
      (IsValue-struct 5 _ (omega arith)
        (IsStruct-handle_identifier 7 (omega arith) guid secret g s))
      (IsStruct-field _ _ _ _ _ (omega arith) (IsValue-i32 5 (omega arith) _ t) (
        IsStruct-field _ _ _ _ _ (omega arith) (IsValue-bool 5 (omega arith) has)
          (IsStruct-stop 5)))

AreStructs-info_values :
    (types : List ℕ) (catalog : Bytes)
    → IsText catalog
    → AreStructs 4 (length types) (write_info_values types catalog)
unfolding write_info_values ◌⨾◌
AreStructs-info_values [] catalog c = AreStructs-nil 4
AreStructs-info_values (t ∷ ts) catalog c =
    AreStructs-cons 4 (length ts) (write_get_info_value t catalog) (write_info_values ts catalog)
      (IsValue-struct 4 _ (omega arith) (IsStruct-get_info_value 6 (omega arith) t catalog c))
      (AreStructs-info_values ts catalog c)

IsStruct-info_types :
    (types : List ℕ) (catalog : Bytes)
    → IsText catalog
    → length types ≤ max_container_elements
    → IsStruct 3 (write_info_types types catalog write_stop)
unfolding write_info_types
IsStruct-info_types [] catalog c h = IsStruct-stop 3
IsStruct-info_types (t ∷ ts) catalog c h =
    IsStruct-field _ _ _ _ _ (omega arith)
      (IsValue-list 3 (length (t ∷ ts)) _ (omega arith) h
        (AreStructs-info_values (t ∷ ts) catalog c))
      (IsStruct-stop 3)

pub status_only-IsReply :
    (method : Bytes) (seqid code : ℕ) (text : Option Bytes)
    → IsText method
    → utf8_valid method ≡ true
    → seqid < 2 ^ 32
    → code < 2 ^ 32
    → ((m : Bytes) → text ≡ some m → IsText m)
    → IsReply method seqid (status_only method seqid code text)
unfolding status_only
status_only-IsReply method seqid code text s u w c t =
    IsReply-success method seqid _ s u w (IsStruct-status_field code text _ c t (IsStruct-stop 3))

pub IsStruct-operation_status :
    (code state : ℕ) (has : Bool) (text : Option Bytes)
    → code < 2 ^ 32
    → state < 2 ^ 32
    → ((m : Bytes) → text ≡ some m → IsText m)
    → IsStruct 3 (write_operation_status_response code state has text)
unfolding write_operation_status_response
IsStruct-operation_status code state has text c s t = IsStruct-status_field code text _ c t (
    IsStruct-field _ _ _ _ _ (omega arith) (IsValue-i32 3 (omega arith) state s)
      (IsStruct-field _ _ _ _ _ (omega arith) (IsValue-bool 3 (omega arith) has) (IsStruct-stop 3)))

module _ {R : Type 0} (o : OperationState R) where
  pub status_code-lt : status_code o.state < 2 ^ 32
  unfolding status_code
  status_code-lt = go o.state
    where
      go : (s : OperationExecution R) → status_code s < 2 ^ 32
      go (failed e d c) = omega arith
      go _ = omega arith

  pub operation_state-lt : operation_state o.state < 2 ^ 32
  unfolding operation_state
  operation_state-lt = go o.state
    where
      go : (s : OperationExecution R) → operation_state s < 2 ^ 32
      go (failed e d c) = omega arith
      go _ = omega arith

-- The responses about sessions are replies to the method that they name, with the number of the call:
-- `decode_message` reads their header, and skipping reads exactly the one struct behind it. The number
-- has 32 bits, each text has fewer than 2 ^ 31 bytes, and at most 16 384 information types are asked for.
pub session_responses_are_replies :
    (seqid info_type : ℕ) (guid secret catalog schema text : Bytes) (types : List ℕ) (valid : Bool)
    → seqid < 2 ^ 32
    → IsText guid
    → IsText secret
    → IsText catalog
    → IsText schema
    → IsText text
    → length types ≤ max_container_elements
    → IsReply
        (ascii "OpenSession")
        seqid
        (write_open_session_response seqid guid secret catalog schema types)
      × IsReply (ascii "OpenSession") seqid (write_open_session_error seqid text)
      × IsReply (ascii "CloseSession") seqid (write_close_session_response seqid valid)
      × IsReply (ascii "GetInfo") seqid (write_get_info_response seqid info_type catalog)
      × IsReply (ascii "GetInfo") seqid (write_get_info_invalid seqid)
unfolding write_open_session_response write_open_session_error write_close_session_response
    write_get_info_response write_get_info_invalid utf8_valid
session_responses_are_replies seqid info_type guid secret catalog schema text types valid w g s c h
      t n =
    (
      IsReply-success _ seqid _ (omega arith) refl w (
          IsStruct-status_field _ none _ (omega arith) IsText-none (
            IsStruct-field _ _ _ _ _ (omega arith) (IsValue-i32 3 (omega arith) _ (omega arith)) (
              IsStruct-field _ _ _ _ _ (omega arith)
                (IsValue-struct 3 _ (omega arith) (IsStruct-session_handle guid secret g s))
                (IsStruct-field _ _ _ _ _ (omega arith)
                  (IsValue-struct 3 _ (omega arith)
                    (IsStruct-namespace 5 (omega arith) catalog schema c h))
                  (IsStruct-field _ _ _ _ _ (omega arith) (IsValue-bool 3 (omega arith) true)
                    (IsStruct-info_types types catalog c n)))))),
      status_only-IsReply _ seqid _ _ (omega arith) refl w (omega arith) (IsText-some t),
      close valid,
      IsReply-success _ seqid _ (omega arith) refl w (
          IsStruct-status_field _ none _ (omega arith) IsText-none (
            IsStruct-field _ _ _ _ _ (omega arith)
              (IsValue-struct 3 _ (omega arith)
                (IsStruct-get_info_value 5 (omega arith) info_type catalog c))
              (IsStruct-stop 3))),
      IsReply-success _ seqid _ (omega arith) refl w (
          IsStruct-status_field _ _ _ (omega arith) (IsText-some (omega arith)) (
            IsStruct-field _ _ _ _ _ (omega arith)
              (IsValue-struct 3 _ (omega arith)
                (IsStruct-get_info_string_value 5 (omega arith) [] (omega arith)))
              (IsStruct-stop 3))),
    )
  where
    close : (v : Bool) → IsReply (ascii "CloseSession") seqid (write_close_session_response seqid v)
    close true = status_only-IsReply _ seqid _ _ (omega arith) refl w (omega arith) IsText-none
    close false =
        status_only-IsReply _ seqid _ _ (omega arith) refl w (omega arith)
          (IsText-some (omega arith))
