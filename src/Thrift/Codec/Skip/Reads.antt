-- ===== src/Thrift/Codec/Skip/Reads.antt =====
-- Skipping of encoded values: src/thrift/codec.rs.
use harborsql.Base.{
  ℕ, zero, suc, ◌+◌, ◌^◌, ◌≤◌, ◌≡◌, true, refl, ap, arith, [], ◌∷◌, ◌++◌, length, Bytes, not, leb,
  ltb, le→ltb,
}
use harborsql.Thrift.Protocol.{valid_field_type}
use harborsql.Thrift.Result.{Position, Container, ok}
use harborsql.Thrift.Codec.Writer.{be32}
use harborsql.Thrift.Codec.Reader.{Reader, Parse, ◌>>=◌, pure}
use harborsql.Thrift.Codec.Reader.Safe.{IsValid}
use harborsql.Thrift.Codec.Reader.Reads.{
  Reads, rest, advance, Reads-pure, Reads-bind, Reads-last, Reads-if_false, Reads-read_u8,
  Reads-read_i16, Reads-read_i32, Reads-read_i64, Reads-read_double, Reads-read_binary,
}
use harborsql.Thrift.Codec.Skip.{
  Skip, repeat, check_depth, read_container_element_type, read_container_size, skip_fields_with,
  skip_map_with, skip_list_with, skip_value_with, skip_at_depth, max_container_elements,
  max_skip_depth, skip, skip_remaining_struct_fields, skip_remaining_struct_fields_at_depth,
}
use harborsql.Thrift.Codec.Skip.Fields.{Run, stop, next, Reads-read_fields}
use harborsql.Thrift.Codec.Skip.Value.{
  Value, Items, Pairs, Fields, bool, byte, i16, i32, i64, double, string, struct, map, list, set,
  nil, cons, no_pair, pair, end, field, type_of, count_items, count_pairs, encode, encode_items,
  encode_pairs, encode_fields, Fits, FitsItems, FitsPairs, FitsFields,
}

pub Reads-check_depth :
    (d : ℕ) {m : Skip} {bytes : Bytes}
    → d ≤ max_skip_depth
    → Reads m bytes tt
    → Reads (check_depth d >>= λ _. m) bytes tt
unfolding check_depth
Reads-check_depth d h r =
    Reads-bind _ _ [] _ tt tt
      (Reads-if_false (ltb max_skip_depth d) _ _ (le→ltb _ _ h) (Reads-pure tt)) r

Reads-element_type :
    (p : Position) (t : ℕ)
    → valid_field_type t ≡ true
    → Reads (read_container_element_type p) (t ∷ []) t
unfolding read_container_element_type
Reads-element_type p t e =
    Reads-last _ _ _ _ _ (Reads-read_u8 t)
      (Reads-if_false (not (valid_field_type t)) _ _ (ap not e) (Reads-pure t))

Reads-size :
    (c : Container) (n : ℕ) → n ≤ max_container_elements → Reads (read_container_size c) (be32 n) n
unfolding read_container_size
Reads-size c n h = Reads-last _ _ _ _ _ (Reads-read_i32 n (omega arith)) (
    Reads-if_false (leb (2 ^ 31) n) _ _ (ground arith)
      (Reads-if_false (ltb max_container_elements n) _ _ (le→ltb _ _ h) (Reads-pure n)))

valid-type_of : (v : Value) → valid_field_type (type_of v) ≡ true
unfolding valid_field_type
valid-type_of (bool b) = refl
valid-type_of _ = refl

ignored :
    (m : Parse ℕ) (bytes : Bytes) (a : ℕ)
    → Reads m bytes a
    → (let n : Skip = m >>= (λ _. pure tt) in Reads n bytes tt)
ignored m bytes a h = Reads-last _ _ _ _ _ h (Reads-pure tt)

too_deep : (v : Value) (d : ℕ) → 34 ≤ 0 + d → Fits d v → ⊥
too_deep (bool b) d h f = omega arith
too_deep _ d h f = omega arith

-- `levels` calls are left at depth `d`.
mutual
  unfolding skip_at_depth skip_value_with skip_fields_with skip_map_with skip_list_with repeat
      encode

  Reads-skip_at_depth :
      (v : Value) (levels d : ℕ)
      → 34 ≤ levels + d
      → Fits d v
      → Reads (skip_at_depth levels (type_of v) d) (encode v) tt
  Reads-skip_at_depth (bool b) (suc n) d h f =
      Reads-check_depth d f (ignored _ _ _ (Reads-read_u8 b))
  Reads-skip_at_depth (byte b) (suc n) d h f =
      Reads-check_depth d f (ignored _ _ _ (Reads-read_u8 b))
  Reads-skip_at_depth (i16 v) (suc n) d h f =
      Reads-check_depth d f.0 (ignored _ _ _ (Reads-read_i16 v f.1))
  Reads-skip_at_depth (i32 v) (suc n) d h f =
      Reads-check_depth d f.0 (ignored _ _ _ (Reads-read_i32 v f.1))
  Reads-skip_at_depth (i64 v) (suc n) d h f =
      Reads-check_depth d f.0 (ignored _ _ _ (Reads-read_i64 v f.1))
  Reads-skip_at_depth (double v) (suc n) d h f =
      Reads-check_depth d f.0 (ignored _ _ _ (Reads-read_double v f.1))
  Reads-skip_at_depth (string v) (suc n) d h f =
      Reads-check_depth d f.0 (Reads-last _ _ _ _ _ (Reads-read_binary v f.1) (Reads-pure tt))
  Reads-skip_at_depth (struct fs) (suc n) d h f = Reads-check_depth d (omega arith) (
      Reads-check_depth (d + 1) f.0
        (Reads-read_fields _ (Run-skip fs n (d + 1 + 1) (omega arith) f.1)))
  Reads-skip_at_depth (map k v ps) (suc n) d h f = Reads-check_depth d f.0 (
      Reads-bind _ _ (k ∷ []) _ k tt (Reads-element_type _ k f.1) (
        Reads-bind _ _ (v ∷ []) _ v tt (Reads-element_type _ v f.2) (
          Reads-bind _ _ _ _ _ _ (Reads-size _ (count_pairs ps) f.3)
            (Reads-repeat_pairs ps n (d + 1) k v (omega arith) f.4))))
  Reads-skip_at_depth (list t xs) (suc n) d h f = Reads-check_depth d f.0 (
      Reads-bind _ _ (t ∷ []) _ t tt (Reads-element_type _ t f.1) (
        Reads-bind _ _ _ _ _ _ (Reads-size _ (count_items xs) f.2)
          (Reads-repeat_items xs n (d + 1) t (omega arith) f.3)))
  Reads-skip_at_depth (set t xs) (suc n) d h f = Reads-check_depth d f.0 (
      Reads-bind _ _ (t ∷ []) _ t tt (Reads-element_type _ t f.1) (
        Reads-bind _ _ _ _ _ _ (Reads-size _ (count_items xs) f.2)
          (Reads-repeat_items xs n (d + 1) t (omega arith) f.3)))
  Reads-skip_at_depth v zero d h f = absurd (too_deep v d h f)

  Reads-repeat_items :
      (xs : Items) (levels d t : ℕ)
      → 34 ≤ levels + d
      → FitsItems d t xs
      → Reads (repeat (count_items xs) (skip_at_depth levels t d)) (encode_items xs) tt
  Reads-repeat_items nil n d t h f = Reads-pure tt
  Reads-repeat_items (cons v xs) n d t h f =
      Reads-bind _ _ _ _ tt tt (rw (← f.0) (Reads-skip_at_depth v n d h f.1))
        (Reads-repeat_items xs n d t h f.2)

  Reads-repeat_pairs :
      (ps : Pairs) (levels d k v : ℕ)
      → 34 ≤ levels + d
      → FitsPairs d k v ps
      → Reads
          (repeat (count_pairs ps) (skip_at_depth levels k d >>= λ _. skip_at_depth levels v d))
          (encode_pairs ps)
          tt
  Reads-repeat_pairs no_pair n d k v h f = Reads-pure tt
  Reads-repeat_pairs (pair a b ps) n d k v h f =
      Reads-bind _ _ _ _ tt tt
        (Reads-bind _ _ (encode a) (encode b) tt tt (rw (← f.0) (Reads-skip_at_depth a n d h f.2))
          (rw (← f.1) (Reads-skip_at_depth b n d h f.3)))
        (Reads-repeat_pairs ps n d k v h f.4)

  Run-skip :
      (fs : Fields) (levels d : ℕ)
      → 34 ≤ levels + d
      → FitsFields d fs
      → Run (λ _ t _. skip_at_depth levels t d) tt (encode_fields fs) tt
  Run-skip end n d h f = stop tt
  Run-skip (field id v fs) n d h f =
      next (type_of v) id (encode v) (encode_fields fs) tt tt tt (valid-type_of v) f.0
        (Reads-skip_at_depth v n d h f.1) (Run-skip fs n d h f.2)

pub skip-Reads_value : (v : Value) → Fits 0 v → Reads (skip (type_of v)) (encode v) tt
unfolding skip
skip-Reads_value v f = Reads-skip_at_depth v 34 0 (omega arith) f

pub skip-Reads_fields :
    (fs : Fields) → FitsFields 1 fs → Reads skip_remaining_struct_fields (encode_fields fs) tt
unfolding skip_remaining_struct_fields skip_remaining_struct_fields_at_depth skip_fields_with
skip-Reads_fields fs f =
    Reads-check_depth 0 (omega arith) (Reads-read_fields _ (Run-skip fs 34 1 (omega arith) f))

-- From a cursor inside its buffer that stands before the encoding of a value, `skip` of the value's type
-- succeeds and moves exactly past the encoding, whatever follows. The parts of the value have the declared
-- types and widths, its texts have fewer than 2 ^ 31 bytes, its containers have at most 16 384 elements, and no value lies deeper than 32 as the code counts: one for
-- each list, set or map around it and two for each struct, where a struct itself needs one more than its
-- depth, so that at most 16 structs stand inside each other.
pub skip-encode :
    (v : Value) (r : Reader) (tail : Bytes)
    → Fits 0 v
    → IsValid r
    → rest r ≡ encode v ++ tail
    → skip (type_of v) r ≡ ok (tt, advance (length (encode v)) r)
skip-encode v r tail f valid e = (skip-Reads_value v f).at r tail valid e

-- From a cursor inside its buffer that stands before the fields of a struct and its stop byte,
-- `skip_remaining_struct_fields` succeeds and moves exactly past the stop byte, whatever follows. The
-- fields are within the limits of skipping at depth 1.
pub skip_remaining_struct_fields-encode_fields :
    (fs : Fields) (r : Reader) (tail : Bytes)
    → FitsFields 1 fs
    → IsValid r
    → rest r ≡ encode_fields fs ++ tail
    → skip_remaining_struct_fields r ≡ ok (tt, advance (length (encode_fields fs)) r)
skip_remaining_struct_fields-encode_fields fs r tail f valid e =
    (skip-Reads_fields fs f).at r tail valid e
