-- ===== src/Thrift/Requests/Handles.antt =====
-- Handles that responses write and requests read: src/thrift.rs.
use harborsql.Base.{
  ℕ, ◌^◌, ◌<◌, ◌≡◌, refl, Bool, none, some, ◌++◌, Bytes, length, arith, eq→==, if◌then◌else◌,
}
use harborsql.Thrift.Protocol.{
  t_bool, t_i32, t_string, t_struct, valid_field_type, spark_cli_service_protocol_v7,
}
use harborsql.Thrift.Result.{ok}
use harborsql.Thrift.Uuids.{Uuids}
use harborsql.Thrift.Codec.Reader.{Reader}
use harborsql.Thrift.Codec.Reader.Safe.{IsValid}
use harborsql.Thrift.Codec.Reader.Reads.{
  Reads, rest, advance, Reads-pure, Reads-last, Reads-read_binary, binary,
}
use harborsql.Thrift.Codec.Writer.{new, into_inner, write_bool}
use harborsql.Thrift.Codec.Writer.Writes.{
  Writes, Writes-field, Writes-stop, Writes-bytes, Writes-struct, Writes-i32, Writes-raw,
  into_inner-Writes,
}
use harborsql.Thrift.Codec.Skip.Fields.{stop, next, Reads-read_fields}
use harborsql.Thrift.Codec.Skip.Value.{
  Value, Fields, field, end, string, struct, i32, bool, encode, encode_fields, type_of, Fits,
}
use harborsql.Thrift.Codec.Skip.Reads.{skip-Reads_value}
use harborsql.Thrift.Requests.{
  Handle, unknown, guid_of, secret_of, handle_of, read_handle_identifier, read_session_handle,
  read_operation_handle,
}
use harborsql.Thrift.Responses.Parts.{
  write_handle_identifier, write_session_handle, write_operation_handle_with_type,
}
use harborsql.Thrift.Responses.Trees.{IsText}

abbrev identifier : Bytes → Bytes → Fields
identifier guid secret = field 1 (string guid) (field 2 (string secret) end)

abbrev session_handle : Bytes → Bytes → Fields
session_handle guid secret =
    field 1 (struct (identifier guid secret)) (field 3329 (i32 spark_cli_service_protocol_v7) end)

abbrev operation_handle : Bytes → Bytes → Bool → ℕ → Fields
operation_handle guid secret has type =
    field 1 (struct (identifier guid secret))
      (field 2 (i32 type) (field 3 (bool (if has then 1 else 0)) end))

module _ (guid secret : Bytes) (g : IsText guid) (s : IsText secret) where
  Writes-identifier :
      Writes (write_handle_identifier guid secret) (encode_fields (identifier guid secret))
  unfolding write_handle_identifier
  Writes-identifier =
      Writes-field 1 (string guid) _ _ _ (Writes-bytes guid g)
        (Writes-field 2 (string secret) _ _ _ (Writes-bytes secret s) Writes-stop)

  Writes-session_handle :
      Writes (write_session_handle guid secret) (encode_fields (session_handle guid secret))
  unfolding write_session_handle
  Writes-session_handle =
      Writes-field 1 (struct (identifier guid secret)) _ _ _ (Writes-struct _ _ Writes-identifier)
        (Writes-field 3329 (i32 _) _ _ _ (Writes-i32 _) Writes-stop)

  Writes-bool : (b : Bool) → Writes (write_bool b) (encode (bool (if b then 1 else 0)))
  unfolding write_bool encode
  Writes-bool b = Writes-raw _

  Writes-operation_handle :
      (has : Bool) (type : ℕ)
      → Writes
          (write_operation_handle_with_type guid secret has type)
          (encode_fields (operation_handle guid secret has type))
  unfolding write_operation_handle_with_type
  Writes-operation_handle has type =
      Writes-field 1 (struct (identifier guid secret)) _ _ _ (Writes-struct _ _ Writes-identifier) (
        Writes-field 2 (i32 type) _ _ _ (Writes-i32 _)
          (Writes-field 3 (bool (if has then 1 else 0)) _ _ _ (Writes-bool has) Writes-stop))

module _ (u : Uuids) (id : u.Uuid) (secret : Bytes) (sixteen : length secret ≡ 16) where
  abbrev guid : Bytes
  guid = u.as_bytes id

  guid-IsText : IsText guid
  guid-IsText = omega (arith, u.length-as_bytes id)

  secret-IsText : IsText secret
  secret-IsText = omega arith

  guid_of-as_bytes : guid_of u guid ≡ some (u.to_string id)
  unfolding guid_of
  guid_of-as_bytes = rw (u.from_slice-as_bytes id, guid_of)

  abbrev handle : Handle
  handle = record { id = u.to_string id; secret = secret }

  handle_of-fields : handle_of (guid_of u guid) (secret_of secret) ≡ some handle
  handle_of-fields = rw (guid_of-as_bytes, eq→== (length secret) 16 sixteen)

  Reads-handle-identifier :
      Reads (read_handle_identifier u) (encode_fields (identifier guid secret)) (some handle)
  unfolding read_handle_identifier encode valid_field_type
  Reads-handle-identifier = rw (← handle_of-fields) (
      Reads-last _ _ _ (record { guid = guid_of u guid; secret = secret_of secret }) _
        (Reads-read_fields _ (
          next t_string 1 (binary guid) _ _ (record { guid = guid_of u guid; secret = none }) _ refl
            (omega arith) (Reads-last _ _ _ _ _ (Reads-read_binary guid guid-IsText) (Reads-pure _))
            (next t_string 2 (binary secret) _ _
              (record { guid = guid_of u guid; secret = secret_of secret }) _ refl (omega arith)
              (Reads-last _ _ _ _ _ (Reads-read_binary secret secret-IsText) (Reads-pure _))
              (stop _))))
        (Reads-pure _))

  -- A field that the loop over a handle does not know keeps the handle that was read.
  Reads-unknown :
      (v : Value) → Fits 0 v → Reads (unknown (some handle) (type_of v)) (encode v) (some handle)
  Reads-unknown v f = Reads-last _ _ _ _ _ (skip-Reads_value v f) (Reads-pure (some handle))

  Reads-session_handle :
      Reads (read_session_handle u) (encode_fields (session_handle guid secret)) (some handle)
  unfolding read_session_handle encode valid_field_type
  Reads-session_handle = Reads-read_fields _ (
      next t_struct 1 (encode_fields (identifier guid secret)) _ _ (some handle) _ refl
        (omega arith) Reads-handle-identifier
        (next t_i32 3329 (encode (i32 spark_cli_service_protocol_v7)) _ _ (some handle) _ refl
          (omega arith) (Reads-unknown (i32 _) (omega arith)) (stop _)))

  Reads-operation_handle :
      (has : Bool) (type : ℕ)
      → type < 2 ^ 32
      → Reads
          (read_operation_handle u)
          (encode_fields (operation_handle guid secret has type))
          (some handle)
  unfolding read_operation_handle encode valid_field_type
  Reads-operation_handle has type w = Reads-read_fields _ (
      next t_struct 1 (encode_fields (identifier guid secret)) _ _ (some handle) _ refl
        (omega arith) Reads-handle-identifier
        (next t_i32 2 (encode (i32 type)) _ _ (some handle) _ refl (omega arith)
          (Reads-unknown (i32 type) (omega arith, w))
          (next t_bool 3 (encode (bool (if has then 1 else 0))) _ _ (some handle) _ refl
            (omega arith) (Reads-unknown (bool (if has then 1 else 0)) (omega arith)) (stop _))))

  pub read_session_handle-write_session_handle :
      Reads
        (read_session_handle u)
        (into_inner (write_session_handle guid secret new))
        (some handle)
  read_session_handle-write_session_handle =
      rw (into_inner-Writes _ _ (Writes-session_handle guid secret guid-IsText secret-IsText))
        Reads-session_handle

  pub read_operation_handle-write_operation_handle :
      (has : Bool) (type : ℕ)
      → type < 2 ^ 32
      → Reads
          (read_operation_handle u)
          (into_inner (write_operation_handle_with_type guid secret has type new))
          (some handle)
  read_operation_handle-write_operation_handle has type w =
      rw
        (into_inner-Writes _ _
          (Writes-operation_handle guid secret guid-IsText secret-IsText has type))
        (Reads-operation_handle has type w)

  -- From a cursor inside its buffer that stands before what `write_session_handle` wrote,
  -- `read_session_handle` gives the id in its text form and the secret, and moves exactly past it, whatever
  -- follows; and `read_operation_handle` does so for a handle that `write_operation_handle_with_type` wrote,
  -- of every operation type of 32 bits and with or without a result set. The secret has 16 bytes.
  pub handles_round_trip :
      (r q : Reader) (tail : Bytes) (has : Bool) (type : ℕ)
      → type < 2 ^ 32
      → IsValid r
      → IsValid q
      → let session = into_inner (write_session_handle guid secret new) in
        let operation = into_inner (write_operation_handle_with_type guid secret has type new) in
        rest r ≡ session ++ tail
        → rest q ≡ operation ++ tail
        → (read_session_handle u r ≡ ok (some handle, advance (length session) r))
          × (read_operation_handle u q ≡ ok (some handle, advance (length operation) q))
  handles_round_trip r q tail has type w v z e f = (
    read_session_handle-write_session_handle.at r tail v e,
    (read_operation_handle-write_operation_handle has type w).at q tail z f,
  )
