-- ===== src/Thrift/Codec/Skip/Fields.antt =====
-- What a loop over fields reads: a run of it, field by field up to the stop byte.
use harborsql.Base.{
  ℕ, zero, suc, ◌^◌, ◌≤◌, ◌<◌, ◌≡◌, ap, true, arith, [], ◌∷◌, ◌++◌, length, length-append, Bytes,
  ◌==◌,
}
use harborsql.Thrift.Protocol.{t_stop, valid_field_type}
use harborsql.Thrift.Codec.Writer.{be16}
use harborsql.Thrift.Codec.Reader.{Parse, remaining}
use harborsql.Thrift.Codec.Reader.Reads.{
  Reads, Reads-pure, Reads-bind, Reads-last, Reads-if_false, Reads-field_stop, Reads-field_begin,
  field_begin, valid-ne-stop, length-rest,
}
use harborsql.Thrift.Codec.Skip.{fields_loop, read_fields}

-- The body `field` takes `s` to `s'` over the fields that `bytes` holds.
pub data Run {S : Type 0} (field : S → ℕ → ℕ → Parse S) : S → Bytes → S → Type 0 where
  stop : (s : S) → Run field s (t_stop ∷ []) s
  next :
      (t id : ℕ) (value more : Bytes) (s s' s'' : S)
      → valid_field_type t ≡ true
      → id < 2 ^ 16
      → Reads (field s t id) value s'
      → Run field s' more s''
      → Run field s (field_begin t id ++ (value ++ more)) s''

module _ {S : Type 0} (field : S → ℕ → ℕ → Parse S) where
  fields_loop_lem :
      (fuel : ℕ) {s s' : S} {bytes : Bytes}
      → Run field s bytes s'
      → length bytes ≤ fuel
      → Reads (fields_loop fuel field s) bytes s'
  unfolding fields_loop
  fields_loop_lem zero (stop s) h = absurd (omega arith)
  fields_loop_lem (suc fuel) (stop s) h =
      Reads-last {A = ℕ × ℕ} _ _ _ _ _ Reads-field_stop (Reads-pure s)
  fields_loop_lem zero (next t id value more s s' s'' e w h r) le = absurd (omega arith)
  fields_loop_lem (suc fuel) (next t id value more s s' s'' e w h r) le =
      Reads-bind {A = ℕ × ℕ} _ _ (field_begin t id) (value ++ more) (t, id) s''
        (Reads-field_begin t id e w)
        (Reads-if_false (t == t_stop) _ _ (valid-ne-stop t e) (
          Reads-bind _ _ value more s' s'' h (
            fields_loop_lem fuel r (
              omega (
                arith,
                length-append {0} value more,
                length-append {0} (be16 id) (value ++ more),
              )))))

  -- The fuel that `read_fields` gives is enough, since the bytes are in the buffer.
  pub Reads-read_fields :
      {s s' : S} {bytes : Bytes} → Run field s bytes s' → Reads (read_fields field s) bytes s'
  unfolding read_fields
  Reads-read_fields {s} {s'} {bytes} r = record {
    at = λ rd tail v h.
        let enough : length bytes ≤ suc (remaining rd) =
          omega
            (arith, length-rest rd, ap (λ (b : Bytes). length b) h, length-append {0} bytes tail) in
        (fields_loop_lem (suc (remaining rd)) r enough).at rd tail v h;
  }
