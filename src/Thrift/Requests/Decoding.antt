-- ===== src/Thrift/Requests/Decoding.antt =====
-- `decode_message` of src/thrift.rs on what `write_message_begin` of src/thrift/codec.rs writes.
use harborsql.Base.{
  ℕ, ◌+◌, ◌^◌, ◌<◌, ◌≡◌, refl, ap, ◌∙◌, true, arith, ◌++◌, length, append_assoc, Bytes, bit_and,
  bit_or,
}
use harborsql.Base.Table.{equal_below, equal_below→eq}
use harborsql.Thrift.Protocol.{t_binary_version_1}
use harborsql.Thrift.Result.{ok}
use harborsql.Thrift.Codec.Writer.{
  be32, write_message_begin, write_i32, write_string, new, into_inner,
}
use harborsql.Thrift.Codec.Writer.Writes.{
  Writes, Writes-raw, Writes-then, Writes-binary, into_inner-Writes,
}
use harborsql.Thrift.Codec.Reader
use harborsql.Thrift.Codec.Reader.{Reader, Parse, ◌>>=◌, read_i32, read_string, utf8_valid}
use harborsql.Thrift.Codec.Reader.Safe.{IsValid}
use harborsql.Thrift.Codec.Reader.Reads.{
  Reads-step, Reads-read_i32, Reads-read_string, binary, rest, advance, rest-advance,
  IsValid-advance,
}
use harborsql.Thrift.Requests.{message, with_payload, decode_message}

abbrev version : ℕ → ℕ
version t = bit_or t_binary_version_1 t

module _ (t : ℕ) (h : t < 256) where
  version-mask : bit_and (version t) 0xffff_0000 ≡ t_binary_version_1
  unfolding equal_below
  version-mask =
      equal_below→eq 256 (λ i. bit_and (version i) 0xffff_0000) (λ i. t_binary_version_1) t refl h

  version-type : bit_and (version t) 0xff ≡ t
  unfolding equal_below
  version-type = equal_below→eq 256 (λ i. bit_and (version i) 0xff) (λ i. i) t refl h

  version-sum : version t ≡ t_binary_version_1 + t
  unfolding equal_below
  version-sum = equal_below→eq 256 version (λ i. t_binary_version_1 + i) t refl h

-- What `write_message_begin` writes.
abbrev pub header : Bytes → ℕ → ℕ → Bytes
header name t seqid = be32 (version t) ++ (binary name ++ be32 seqid)

pub Writes-message_begin :
    (name : Bytes) (t seqid : ℕ)
    → length name < 2 ^ 31
    → Writes (write_message_begin name t seqid) (header name t seqid)
unfolding write_message_begin write_i32 write_string
Writes-message_begin name t seqid h =
    Writes-then _ _ _ _ (Writes-raw _) (Writes-then _ _ _ _ (Writes-binary name h) (Writes-raw _))

module _ (name payload : Bytes) (t seqid : ℕ) (short : length name < 2 ^ 31)
    (utf8 : utf8_valid name ≡ true) (byte : t < 256) (word : seqid < 2 ^ 32) where
  with_payload_lem :
      (r : Reader)
      → rest r ≡ payload
      → with_payload (version t) name seqid r
        ≡ ok (record { name = name; message_type = t; seqid = seqid; payload = payload }, r)
  unfolding with_payload
  with_payload_lem r e = rw (version-type t byte, e)

  seqid_step :
      (r : Reader)
      → IsValid r
      → rest r ≡ be32 seqid ++ payload
      → (read_i32 >>= λ s. with_payload (version t) name s) r
        ≡ ok (
          record { name = name; message_type = t; seqid = seqid; payload = payload },
          advance (length (be32 seqid)) r,
        )
  seqid_step r v e =
      Reads-step _ _ _ payload _ r (Reads-read_i32 seqid word) v e
      ∙ with_payload_lem _ (rest-advance r (be32 seqid) payload e)

  name_step :
      (r : Reader)
      → IsValid r
      → rest r ≡ binary name ++ (be32 seqid ++ payload)
      → (read_string >>= λ n. read_i32 >>= λ s. with_payload (version t) n s) r
        ≡ ok (
          record { name = name; message_type = t; seqid = seqid; payload = payload },
          advance (length (be32 seqid)) (advance (length (binary name)) r),
        )
  name_step r v e =
      Reads-step _ _ _ (be32 seqid ++ payload) _ r (Reads-read_string name short utf8) v e
      ∙ seqid_step _ (IsValid-advance r _ _ v e) (rest-advance r _ _ e)

  whole :
      header name t seqid ++ payload ≡ be32 (version t) ++ (binary name ++ (be32 seqid ++ payload))
  whole =
      append_assoc (be32 (version t)) (binary name ++ be32 seqid) payload
      ∙ ap (λ (z : Bytes). be32 (version t) ++ z) (append_assoc (binary name) (be32 seqid) payload)

  message_step :
      (r : Reader)
      → IsValid r
      → rest r ≡ be32 (version t) ++ (binary name ++ (be32 seqid ++ payload))
      → message r
        ≡ ok (
          record { name = name; message_type = t; seqid = seqid; payload = payload },
          advance
              (length (be32 seqid))
              (advance (length (binary name)) (advance (length (be32 (version t))) r)),
        )
  unfolding message
  message_step r v e =
      Reads-step _ _ _ (binary name ++ (be32 seqid ++ payload)) _ r
        (Reads-read_i32 (version t) (omega (arith, version-sum t byte))) v e
      ∙ rw (version-mask t byte) (name_step _ (IsValid-advance r _ _ v e) (rest-advance r _ _ e))

  -- A message that begins with what `write_message_begin` writes is decoded into the name, the type
  -- and the sequence number that were written, with all that follows as the payload. The name is
  -- UTF-8 of fewer than 2 ^ 31 bytes, the type is a byte, and the number has 32 bits.
  pub decode_message-write_message_begin :
      decode_message (into_inner (write_message_begin name t seqid new) ++ payload)
      ≡ ok (record { name = name; message_type = t; seqid = seqid; payload = payload })
  unfolding decode_message
  decode_message-write_message_begin =
      rw (into_inner-Writes _ _ (Writes-message_begin name t seqid short)) (
        rw (
          message_step (Reader.new (header name t seqid ++ payload))
              (record { within = omega arith }) whole,
          decode_message,
        ))
