-- ===== src/Thrift/ResultSets/Encoders/WellFormed.antt =====
-- The metadata of a result set as a struct of the protocol: the writers of schemas in
-- src/thrift/result_encoding.rs.
use harborsql.Base.{
  ℕ, suc, ◌+◌, ◌%◌, ◌^◌, ◌≤◌, ◌<◌, ◌≡◌, refl, sym, ap, append-nil, Option, none, some, List, [],
  ◌∷◌, Bytes, length, All, arith, ascii,
}
use harborsql.Thrift.Protocol.{t_bool, t_i32, t_map, t_string, t_struct, t_list, valid_field_type}
use harborsql.Thrift.Codec.Skip.{max_skip_depth, max_container_elements}
use harborsql.Thrift.Codec.Skip.Value.{
  Pairs, no_pair, pair, map as map_value, string as string_value, count_pairs, encode, encode_pairs,
  FitsPairs,
}
use harborsql.Thrift.Codec.Writer.{
  Write, ◌⨾◌, write_stop, write_i32, write_string, write_field, write_raw, be32,
}
use harborsql.Thrift.Codec.Writer.Writes.{Writes, Writes-raw, Writes-then, Writes-string}
use harborsql.Thrift.Responses.Trees.{
  IsValue, IsStruct, AreStructs, IsText, IsStruct-stop, IsStruct-field, IsValue-i32, IsValue-bool,
  IsValue-string, IsValue-struct, IsValue-list, AreStructs-nil, AreStructs-cons,
}
use harborsql.Thrift.Responses.WellFormed.{IsStruct-status}
use harborsql.Thrift.Responses.Replies.{IsText-none, IsText-some}
use harborsql.Thrift.ResultSets.Encoders
use harborsql.Thrift.ResultSets.Encoders.{ColumnEncoder, DataType, decimal128, decimal256}

-- The pairs of a map from texts to structs, one writer after the other.
record ArePairs (d n : ℕ) (w : Write) : Type 0 where
  pub pairs : Pairs
  pub count : count_pairs pairs ≡ n
  pub fits : FitsPairs d t_string t_struct pairs
  pub writes : Writes w (encode_pairs pairs)

ArePairs-nil : (d : ℕ) → ArePairs d 0 (λ w. w)
unfolding encode
ArePairs-nil d = record {
  pairs = no_pair;
  count = refl;
  fits = tt;
  writes = record { at = λ b. sym (append-nil b.buffer) };
}

ArePairs-cons :
    (d n : ℕ) (key : Bytes) (w rest : Write)
    → d ≤ max_skip_depth
    → IsText key
    → IsValue d t_struct w
    → ArePairs d n rest
    → ArePairs d (suc n) (write_string key ⨾ w ⨾ rest)
unfolding encode ◌⨾◌
ArePairs-cons d n key w rest h short v s = record {
  pairs = pair (string_value key) v.value s.pairs;
  count = ap suc s.count;
  fits = (refl, v.type, (h, short), v.fits, s.fits);
  writes =
      Writes-then (write_string key ⨾ w) rest _ _
        (Writes-then _ w _ _ (Writes-string key short) v.writes) s.writes;
}

IsValue-map :
    (d n : ℕ) (w : Write)
    → d ≤ max_skip_depth
    → n ≤ max_container_elements
    → ArePairs (d + 1) n w
    → IsValue d t_map (write_raw (t_string ∷ t_struct ∷ []) ⨾ write_i32 n ⨾ w)
unfolding encode write_i32
IsValue-map d n w h le s = record {
  value = map_value t_string t_struct s.pairs;
  type = refl;
  fits = (
    h,
    unfold valid_field_type in refl,
    unfold valid_field_type in refl,
    omega (arith, s.count, le),
    s.fits,
  );
  writes = rw (← s.count) (
      Writes-then _ _ (t_string ∷ t_struct ∷ []) _ (Writes-raw _)
        (Writes-then _ w (be32 (count_pairs s.pairs)) _ (Writes-raw _) s.writes));
}

-- The numbers of an encoder are words.
abbrev AreWords : Option (ℕ × ℕ) → Type 0
AreWords none = Unit
AreWords (some (precision, scale)) = (precision < 2 ^ 32) × (scale < 2 ^ 32)

abbrev pub IsEncoder : ColumnEncoder → Type 0
IsEncoder e = (e.schema_type < 2 ^ 32) × AreWords e.decimal

IsStruct-word :
    (d v : ℕ)
    → d ≤ max_skip_depth
    → v < 2 ^ 32
    → IsStruct d (write_field t_i32 1 (write_i32 v) ⨾ write_stop)
IsStruct-word d v h w =
    IsStruct-field _ _ _ _ _ (omega arith) (IsValue-i32 d h v w) (IsStruct-stop d)

decimal_pairs :
    (d precision scale : ℕ)
    → d + 2 ≤ max_skip_depth
    → precision < 2 ^ 32
    → scale < 2 ^ 32
    → ArePairs d 2 (
        write_string (ascii "precision")
        ⨾ (write_field t_i32 1 (write_i32 precision) ⨾ write_stop)
        ⨾ write_string (ascii "scale")
        ⨾ (write_field t_i32 1 (write_i32 scale) ⨾ write_stop)
        ⨾ (λ w. w))
decimal_pairs d precision scale h p s =
    ArePairs-cons d 1 _ _ _ (omega (arith, h)) (omega arith)
      (IsValue-struct d _ (omega (arith, h)) (IsStruct-word _ precision (omega (arith, h)) p))
      (ArePairs-cons d 0 _ _ _ (omega (arith, h)) (omega arith)
        (IsValue-struct d _ (omega (arith, h)) (IsStruct-word _ scale (omega (arith, h)) s))
        (ArePairs-nil d))

IsStruct-decimal :
    (d : ℕ) (decimal : Option (ℕ × ℕ)) (rest : Write)
    → d + 6 ≤ max_skip_depth
    → AreWords decimal
    → IsStruct d rest
    → IsStruct d (Encoders.write_decimal decimal rest)
unfolding Encoders.write_decimal Encoders.write_decimal_type_qualifiers ◌⨾◌
IsStruct-decimal d none rest h w s = s
IsStruct-decimal d (some (precision, scale)) rest h w s =
    IsStruct-field d t_struct 2 _ rest (omega arith)
      (IsValue-struct d _ (omega (arith, h)) (
        IsStruct-field (d + 1 + 1) t_map 1 _ write_stop (omega arith)
          (IsValue-map (d + 1 + 1) 2 _ (omega (arith, h)) (omega arith)
            (decimal_pairs (d + 1 + 1 + 1) precision scale (omega (arith, h)) w.0 w.1))
          (IsStruct-stop _)))
      s

IsStruct-type_desc :
    (d : ℕ) (e : ColumnEncoder)
    → d + 11 ≤ max_skip_depth
    → IsEncoder e
    → IsStruct d (Encoders.write_type_desc e)
unfolding Encoders.write_type_desc ◌⨾◌
IsStruct-type_desc d e h (t, w) =
    IsStruct-field d t_list 1 _ write_stop (omega arith)
      (IsValue-list d 1 _ (omega (arith, h)) (omega arith) (
        AreStructs-cons (d + 1) 0 _ _
          (IsValue-struct (d + 1) _ (omega (arith, h)) (
            IsStruct-field (d + 1 + 1 + 1) t_struct 1 _ write_stop (omega arith)
              (IsValue-struct (d + 1 + 1 + 1) _ (omega (arith, h)) (
                IsStruct-field (d + 1 + 1 + 1 + 1 + 1) t_i32 1 _ _ (omega arith)
                  (IsValue-i32 _ (omega (arith, h)) e.schema_type t)
                  (IsStruct-decimal _ e.decimal write_stop (omega (arith, h)) w (IsStruct-stop _))))
              (IsStruct-stop _)))
          (AreStructs-nil (d + 1))))
      (IsStruct-stop d)

IsStruct-column_desc :
    (d : ℕ) (name : Bytes) (e : ColumnEncoder) (position : ℕ)
    → d + 13 ≤ max_skip_depth
    → IsText name
    → IsEncoder e
    → IsStruct d (Encoders.write_column_desc name e position)
unfolding Encoders.write_column_desc
IsStruct-column_desc d name e position h n w =
    IsStruct-field d t_string 1 _ _ (omega arith) (IsValue-string d (omega (arith, h)) name n) (
      IsStruct-field d t_struct 2 _ _ (omega arith)
        (IsValue-struct d _ (omega (arith, h))
          (IsStruct-type_desc (d + 1 + 1) e (omega (arith, h)) w))
        (IsStruct-field d t_i32 3 _ _ (omega arith)
          (IsValue-i32 d (omega (arith, h)) (position % 2 ^ 32) (omega arith)) (IsStruct-stop d)))

AreStructs-column_descs :
    (d : ℕ) (names : List Bytes) (es : List ColumnEncoder) (position : ℕ)
    → d + 15 ≤ max_skip_depth
    → length names ≡ length es
    → All IsText names
    → All IsEncoder es
    → AreStructs d (length names) (Encoders.write_column_descs names es position)
unfolding Encoders.write_column_descs
AreStructs-column_descs d [] [] position h same n w = AreStructs-nil d
AreStructs-column_descs d [] (e ∷ es) position h same n w = absurd (omega (arith, same))
AreStructs-column_descs d (name ∷ names) [] position h same n w = absurd (omega (arith, same))
AreStructs-column_descs d (name ∷ names) (e ∷ es) position h same n w =
    AreStructs-cons d (length names) _ _
      (IsValue-struct d _ (omega (arith, h))
        (IsStruct-column_desc (d + 1 + 1) name e position (omega (arith, h)) n.0 w.0))
      (AreStructs-column_descs d names es (suc position) h (omega (arith, same)) n.1 w.1)

-- The names of the columns of a result that a reader accepts.
unfoldable pub AreNames : List Bytes → Type 0
AreNames names = All IsText names × (length names ≤ max_container_elements)

IsStruct-table_schema :
    (d : ℕ) (names : List Bytes) (es : List ColumnEncoder)
    → d + 16 ≤ max_skip_depth
    → length names ≡ length es
    → AreNames names
    → All IsEncoder es
    → IsStruct d (Encoders.write_table_schema names es)
unfolding Encoders.write_table_schema AreNames
IsStruct-table_schema d names es h same n w =
    IsStruct-field d t_list 1 _ write_stop (omega arith)
      (IsValue-list d (length names) _ (omega (arith, h)) n.1
        (AreStructs-column_descs (d + 1) names es 0 (omega (arith, h)) same n.0 w))
      (IsStruct-stop d)

pub IsStruct-metadata :
    (d : ℕ) (names : List Bytes) (es : List ColumnEncoder) (status : ℕ)
    → d + 18 ≤ max_skip_depth
    → length names ≡ length es
    → AreNames names
    → All IsEncoder es
    → status < 2 ^ 32
    → IsStruct d (Encoders.write_result_set_metadata_response_with_encoders names es status)
unfolding Encoders.write_result_set_metadata_response_with_encoders
IsStruct-metadata d names es status h same n w s =
    IsStruct-field d t_struct 1 _ _ (omega arith)
      (IsValue-struct d _ (omega (arith, h))
        (IsStruct-status (d + 1 + 1) (omega (arith, h)) status none s IsText-none))
      (IsStruct-field d t_struct 2 _ _ (omega arith)
        (IsValue-struct d _ (omega (arith, h))
          (IsStruct-table_schema (d + 1 + 1) names es (omega (arith, h)) same n w))
        (IsStruct-field d t_i32 1281 _ _ (omega arith)
          (IsValue-i32 d (omega (arith, h)) 1 (omega arith))
          (IsStruct-field d t_bool 1282 _ _ (omega arith) (IsValue-bool d (omega (arith, h)) _) (
            IsStruct-field d t_bool 1287 _ _ (omega arith) (IsValue-bool d (omega (arith, h)) _)
              (IsStruct-stop d)))))

pub IsStruct-metadata_error :
    (d : ℕ) (status : ℕ) (message : Bytes)
    → d + 18 ≤ max_skip_depth
    → status < 2 ^ 32
    → IsText message
    → IsStruct d (Encoders.write_result_set_metadata_response_with_error status message)
unfolding Encoders.write_result_set_metadata_response_with_error AreNames
IsStruct-metadata_error d status message h s t =
    IsStruct-field d t_struct 1 _ _ (omega arith)
      (IsValue-struct d _ (omega (arith, h))
        (IsStruct-status (d + 1 + 1) (omega (arith, h)) status (some message) s (IsText-some t)))
      (IsStruct-field d t_struct 2 _ _ (omega arith)
        (IsValue-struct d _ (omega (arith, h))
          (IsStruct-table_schema (d + 1 + 1) [] [] (omega (arith, h)) refl (tt, omega arith) tt))
        (IsStruct-field d t_i32 1281 _ _ (omega arith)
          (IsValue-i32 d (omega (arith, h)) 1 (omega arith))
          (IsStruct-field d t_bool 1282 _ _ (omega arith) (IsValue-bool d (omega (arith, h)) _)
            (IsStruct-stop d))))
