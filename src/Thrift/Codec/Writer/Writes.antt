-- ===== src/Thrift/Codec/Writer/Writes.antt =====
-- What a writer appends, and the writers of structs.
use harborsql.Base.{
  ℕ, ◌%◌, ◌^◌, ◌<◌, ◌≡◌, refl, ap, ◌∙◌, arith, [], ◌∷◌, ◌++◌, length, append_assoc, Bytes,
}
use harborsql.Thrift.Codec.Reader.Reads.{binary}
use harborsql.Thrift.Codec.Skip.Value.{
  Value, Fields, end, field, type_of, encode, encode_fields, i32, i64, string, struct,
}
use harborsql.Thrift.Codec.Writer.{
  Writer, Write, ◌⨾◌, write_raw, push, be16, write_stop, write_i16, write_i32, write_i64,
  write_binary, write_string, write_field, new, into_inner,
}

pub record Writes (w : Write) (bytes : Bytes) : Type 0 where
  pub at : (b : Writer) → (w b).buffer ≡ b.buffer ++ bytes

pub Writes-raw : (bytes : Bytes) → Writes (write_raw bytes) bytes
unfolding write_raw
Writes-raw bytes = record { at = λ b. refl }

pub Writes-then :
    (f g : Write) (xs ys : Bytes) → Writes f xs → Writes g ys → Writes (f ⨾ g) (xs ++ ys)
unfolding ◌⨾◌
Writes-then f g xs ys h h' = record {
  at = λ b. h'.at (f b) ∙ ap (λ (z : Bytes). z ++ ys) (h.at b) ∙ append_assoc b.buffer xs ys;
}

pub Writes-binary :
    (value : Bytes) → length value < 2 ^ 31 → Writes (write_binary value) (binary value)
unfolding write_binary write_i32
Writes-binary value h =
    let e : length value % 2 ^ 32 ≡ length value = omega arith in
    rw e (Writes-then _ _ _ _ (Writes-raw _) (Writes-raw value))

-- The values that the responses write.
pub Writes-i32 : (v : ℕ) → Writes (write_i32 v) (encode (i32 v))
unfolding write_i32 encode
Writes-i32 v = Writes-raw _

pub Writes-i64 : (v : ℕ) → Writes (write_i64 v) (encode (i64 v))
unfolding write_i64 encode
Writes-i64 v = Writes-raw _

pub Writes-string : (v : Bytes) → length v < 2 ^ 31 → Writes (write_string v) (encode (string v))
unfolding write_string encode
Writes-string v h = Writes-binary v h

pub Writes-bytes : (v : Bytes) → length v < 2 ^ 31 → Writes (write_binary v) (encode (string v))
unfolding encode
Writes-bytes v h = Writes-binary v h

pub Writes-struct :
    (w : Write) (fs : Fields) → Writes w (encode_fields fs) → Writes w (encode (struct fs))
unfolding encode
Writes-struct w fs h = h

pub Writes-stop : Writes write_stop (encode_fields end)
unfolding write_stop encode
Writes-stop = Writes-raw _

pub Writes-field :
    (id : ℕ) (v : Value) (w rest : Write) (fs : Fields)
    → Writes w (encode v)
    → Writes rest (encode_fields fs)
    → Writes (write_field (type_of v) id w ⨾ rest) (encode_fields (field id v fs))
unfolding write_field write_i16 encode
Writes-field id v w rest fs h h' =
    let head : Writes (write_raw (be16 id) ⨾ w) (be16 id ++ encode v) =
      Writes-then _ _ _ _ (Writes-raw (be16 id)) h in
    let whole : Writes ((push (type_of v) ⨾ write_raw (be16 id) ⨾ w) ⨾ rest)
        ((type_of v ∷ (be16 id ++ encode v)) ++ encode_fields fs) =
      Writes-then _ _ _ _ (Writes-then _ _ (type_of v ∷ []) _ (Writes-raw _) head) h' in
    rw append_assoc at whole

-- What is written into an empty buffer.
pub into_inner-Writes : (w : Write) (bytes : Bytes) → Writes w bytes → into_inner (w new) ≡ bytes
into_inner-Writes w bytes h = h.at new
