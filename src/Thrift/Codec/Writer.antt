-- ===== src/Thrift/Codec/Writer.antt =====
-- `Writer` of src/thrift/codec.rs: a method appends to the buffer.
pub mod Writes
use harborsql.Base.{ℕ, ◌/◌, ◌%◌, ◌^◌, Bool, [], ◌∷◌, ◌++◌, length, Bytes, bit_or, if◌then◌else◌}
use harborsql.Thrift.Protocol.{t_stop, t_binary_version_1}

pub record Writer : Type 0 where
  pub buffer : Bytes

-- Writer::new
abbrev pub new : Writer
new = record { buffer = [] }

abbrev pub into_inner : Writer → Bytes
into_inner w = w.buffer

abbrev pub Write : Type 0
Write = Writer → Writer

-- One statement after another.
infixr 20 ◌⨾◌
unfoldable pub ◌⨾◌ : Write → Write → Write
◌⨾◌ f g w = g (f w)

unfoldable pub write_raw : Bytes → Write
write_raw bytes w = record w { buffer = w.buffer ++ bytes }

-- `self.buffer.push`
abbrev pub push : ℕ → Write
push b = write_raw (b ∷ [])

-- `to_be_bytes` of a pattern of `n` bytes.
unfoldable pub be16 : ℕ → Bytes
be16 v = v / 256 % 256 ∷ v % 256 ∷ []

unfoldable pub be32 : ℕ → Bytes
be32 v = v / 2 ^ 24 % 256 ∷ v / 2 ^ 16 % 256 ∷ v / 256 % 256 ∷ v % 256 ∷ []

unfoldable pub be64 : ℕ → Bytes
be64 v =
    v / 2 ^ 56 % 256
    ∷ v / 2 ^ 48 % 256
    ∷ v / 2 ^ 40 % 256
    ∷ v / 2 ^ 32 % 256
    ∷ v / 2 ^ 24 % 256
    ∷ v / 2 ^ 16 % 256
    ∷ v / 256 % 256
    ∷ v % 256
    ∷ []

unfoldable pub write_stop : Write
write_stop = push t_stop

unfoldable pub write_bool : Bool → Write
write_bool b = push (if b then 1 else 0)

unfoldable pub write_i16 : ℕ → Write
write_i16 v = write_raw (be16 v)

unfoldable pub write_i32 : ℕ → Write
write_i32 v = write_raw (be32 v)

unfoldable pub write_i64 : ℕ → Write
write_i64 v = write_raw (be64 v)

unfoldable pub write_double : ℕ → Write
write_double bits = write_raw (be64 bits)

-- `value.len() as i32` keeps the low 32 bits.
unfoldable pub write_binary : Bytes → Write
write_binary value = write_i32 (length value % 2 ^ 32) ⨾ write_raw value

unfoldable pub write_string : Bytes → Write
write_string value = write_binary value

unfoldable pub write_list_begin : ℕ → ℕ → Write
write_list_begin element_type len = push element_type ⨾ write_i32 (len % 2 ^ 32)

unfoldable pub write_field : ℕ → ℕ → Write → Write
write_field field_type field_id write_value = push field_type ⨾ write_i16 field_id ⨾ write_value

unfoldable pub write_message_begin : Bytes → ℕ → ℕ → Write
write_message_begin name message_type seqid =
    write_i32 (bit_or t_binary_version_1 message_type) ⨾ write_string name ⨾ write_i32 seqid
