-- ===== src/Thrift/Responses/WellFormed.antt =====
-- Replies of the protocol, and the structs of the responses of src/thrift.rs as such.
use harborsql.Base.{
  ℕ, ◌+◌, ◌^◌, ◌≤◌, ◌<◌, ◌≡◌, refl, ap, ◌∙◌, Bool, true, false, Option, none, some, [], Bytes,
  length, arith, append-nil, if◌then◌else◌,
}
use harborsql.Thrift.Protocol.{t_struct, t_message_reply}
use harborsql.Thrift.Result.{ok}
use harborsql.Thrift.Codec.Reader
use harborsql.Thrift.Codec.Reader.{utf8_valid}
use harborsql.Thrift.Codec.Writer.{Write, ◌⨾◌, write_field, write_stop}
use harborsql.Thrift.Codec.Writer.Writes.{Writes-then, into_inner-Writes}
use harborsql.Thrift.Codec.Skip.{skip_remaining_struct_fields, max_skip_depth}
use harborsql.Thrift.Codec.Skip.Value.{encode_fields}
use harborsql.Thrift.Codec.Skip.Reads.{skip-Reads_fields}
use harborsql.Thrift.Requests.{decode_message}
use harborsql.Thrift.Requests.Decoding.{Writes-message_begin, decode_message-write_message_begin}
use harborsql.Thrift.Responses.Trees.{
  IsValue, IsStruct, IsText, IsStruct-stop, IsStruct-field, IsValue-i32, IsValue-i64,
  IsValue-string, IsValue-bytes, IsValue-struct,
}
use harborsql.Thrift.Responses.Parts.{
  write_success_response, write_status, write_handle_identifier, write_namespace,
  write_get_info_string_value, write_get_info_value, get_info_string, get_info_len, get_info_flag,
}

-- `bytes` is a reply to a call of `method` with the number `seqid`, and its payload is one struct.
pub record IsReply (method : Bytes) (seqid : ℕ) (bytes : Bytes) : Type 0 where
  pub payload : Bytes
  pub decoded :
      decode_message bytes
      ≡ ok (record {
        name = method;
        message_type = t_message_reply;
        seqid = seqid;
        payload = payload;
      })
  pub one_struct :
      skip_remaining_struct_fields (Reader.new payload)
      ≡ ok (tt, record { buffer = payload; position = length payload })

pub IsReply-success :
    (method : Bytes) (seqid : ℕ) (w : Write)
    → IsText method
    → utf8_valid method ≡ true
    → seqid < 2 ^ 32
    → IsStruct 3 w
    → IsReply method seqid (write_success_response method seqid w)
unfolding write_success_response
IsReply-success method seqid w short utf8 word s =
    let body =
      IsStruct-field 1 t_struct 0 w write_stop (omega arith) (IsValue-struct 1 w (omega arith) s)
        (IsStruct-stop 1) in
    let payload : Bytes = encode_fields body.fields in
    let bytes =
      into_inner-Writes _ _ (
        Writes-then _ _ _ _ (Writes-message_begin method t_message_reply seqid short)
          body.writes) in
    let head = into_inner-Writes _ _ (Writes-message_begin method t_message_reply seqid short) in
    let decoded =
      decode_message-write_message_begin method payload t_message_reply seqid short utf8
        (omega arith) word in
    record {
      payload = payload;
      decoded = rw bytes (rw head at decoded);
      one_struct =
          (skip-Reads_fields body.fields body.fits).at (Reader.new payload) []
            (record { within = omega arith }) (rw append-nil)
          ∙ ap (λ (n : ℕ). ok (tt, record { buffer = payload; position = n })) (omega arith);
    }

if-lt : (b : Bool) (x y n : ℕ) → x < n → y < n → (if b then x else y) < n
if-lt true x y n h h' = h
if-lt false x y n h h' = h'

get_info_len-lt : (t : ℕ) → get_info_len t < 2 ^ 64
unfolding get_info_len
get_info_len-lt t = if-lt _ 128 0 _ (omega arith) (omega arith)

get_info_flag-lt : (t : ℕ) → get_info_flag t < 2 ^ 32
unfolding get_info_flag
get_info_flag-lt t = if-lt _ 1 _ _ (omega arith) (if-lt _ 2011 0 _ (omega arith) (omega arith))

get_info_string-IsText :
    (t : ℕ) (catalog : Bytes) → IsText catalog → IsText (get_info_string t catalog)
unfolding get_info_string
get_info_string-IsText t catalog c = ground arith

module _ (d : ℕ) (h : d + 3 ≤ max_skip_depth) where
  pub IsStruct-get_info_string_value :
      (v : Bytes) → IsText v → IsStruct d (write_get_info_string_value v)
  unfolding write_get_info_string_value
  IsStruct-get_info_string_value v s =
      IsStruct-field _ _ _ _ _ (omega arith) (IsValue-string d (omega arith) v s) (IsStruct-stop d)

  pub IsStruct-status :
      (code : ℕ) (text : Option Bytes)
      → code < 2 ^ 32
      → ((m : Bytes) → text ≡ some m → IsText m)
      → IsStruct d (write_status code text)
  unfolding write_status
  IsStruct-status code none w t =
      IsStruct-field _ _ _ _ _ (omega arith) (IsValue-i32 d (omega arith) code w) (IsStruct-stop d)
  IsStruct-status code (some m) w t =
      IsStruct-field _ _ _ _ _ (omega arith) (IsValue-i32 d (omega arith) code w) (
        IsStruct-field _ _ _ _ _ (omega arith) (IsValue-string d (omega arith) m (t m refl)) (
          IsStruct-field _ _ _ _ _ (omega arith) (IsValue-string d (omega arith) m (t m refl))
            (IsStruct-stop d)))

  pub IsStruct-handle_identifier :
      (guid secret : Bytes)
      → IsText guid
      → IsText secret
      → IsStruct d (write_handle_identifier guid secret)
  unfolding write_handle_identifier
  IsStruct-handle_identifier guid secret g s =
      IsStruct-field _ _ _ _ _ (omega arith) (IsValue-bytes d (omega arith) guid g) (
        IsStruct-field _ _ _ _ _ (omega arith) (IsValue-bytes d (omega arith) secret s)
          (IsStruct-stop d))

  pub IsStruct-namespace :
      (catalog schema : Bytes)
      → IsText catalog
      → IsText schema
      → IsStruct d (write_namespace catalog schema)
  unfolding write_namespace
  IsStruct-namespace catalog schema c s =
      IsStruct-field _ _ _ _ _ (omega arith) (IsValue-string d (omega arith) catalog c) (
        IsStruct-field _ _ _ _ _ (omega arith) (IsValue-string d (omega arith) schema s)
          (IsStruct-stop d))

  IsStruct-one :
      (t id : ℕ) (w : Write)
      → id < 2 ^ 16
      → IsValue d t w
      → IsStruct d (write_field t id w ⨾ write_stop)
  IsStruct-one t id w i v = IsStruct-field _ _ _ _ _ i v (IsStruct-stop d)

  IsStruct-if :
      (b : Bool) (w w' : Write) → IsStruct d w → IsStruct d w' → IsStruct d (if b then w else w')
  IsStruct-if true w w' s s' = s
  IsStruct-if false w w' s s' = s'

  pub IsStruct-get_info_value :
      (t : ℕ) (catalog : Bytes) → IsText catalog → IsStruct d (write_get_info_value t catalog)
  unfolding write_get_info_value
  IsStruct-get_info_value t catalog c =
      let number = λ (v : ℕ) (w : v < 2 ^ 32). IsValue-i32 d (omega arith) v w in
      IsStruct-if _ _ _ (IsStruct-get_info_string_value _ (get_info_string-IsText t catalog c)) (
        IsStruct-if _ _ _
          (IsStruct-one _ _ _ (omega arith) (IsValue-i64 d (omega arith) _ (get_info_len-lt t)))
          (IsStruct-if _ _ _ (IsStruct-one _ _ _ (omega arith) (number _ (get_info_flag-lt t)))
            (IsStruct-one _ _ _ (omega arith) (number 0 (omega arith)))))
