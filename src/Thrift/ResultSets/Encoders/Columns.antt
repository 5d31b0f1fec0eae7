-- ===== src/Thrift/ResultSets/Encoders/Columns.antt =====
-- What `column_encoders` of src/thrift/result_encoding.rs gives for the columns of a result.
use harborsql.Base.{
  ℕ, suc, ◌^◌, ◌<◌, ◌≡◌, refl, sym, ap, subst, ◌==◌, ==→eq, Bool-cases, inl, inr, List, [], ◌∷◌,
  Bytes, length, All, arith,
}
use harborsql.Error.Outcome.{Returns, Returns-bind}
use harborsql.Thrift.ResultSets.Encoders
use harborsql.Thrift.ResultSets.Encoders.{
  ColumnEncoder, DataType, decimal128, decimal256, boolean, int8, int16, int32, int64, uint8,
  uint16, uint32, uint64, float32, float64, utf8, large_utf8, utf8_view, date32, date64, timestamp,
  binary, large_binary, fixed_size_binary, list, large_list, fixed_size_list, list_view,
  large_list_view, map, struct, other_type,
}
use harborsql.Thrift.ResultSets.Encoders.WellFormed.{IsEncoder}

-- Precision and scale are words.
abbrev pub IsDataType : DataType → Type 0
IsDataType (decimal128 precision scale) = (precision < 2 ^ 32) × (scale < 2 ^ 32)
IsDataType (decimal256 precision scale) = (precision < 2 ^ 32) × (scale < 2 ^ 32)
IsDataType _ = Unit

column_encoder-IsEncoder :
    (t : DataType) → IsDataType t → Returns IsEncoder (Encoders.column_encoder t)
unfolding Encoders.column_encoder
column_encoder-IsEncoder (decimal128 precision scale) h = (omega arith, h)
column_encoder-IsEncoder (decimal256 precision scale) h = (omega arith, h)
column_encoder-IsEncoder (other_type text) h = tt
column_encoder-IsEncoder _ h = (omega arith, tt)

-- That many encoders.
unfoldable pub AreEncoders : ℕ → List ColumnEncoder → Type 0
AreEncoders n es = (n ≡ length es) × All IsEncoder es

collect_encoders-AreEncoders :
    (ts : List DataType)
    → All IsDataType ts
    → Returns (AreEncoders (length ts)) (Encoders.collect_encoders ts)
unfolding Encoders.collect_encoders AreEncoders
collect_encoders-AreEncoders [] h = (refl, tt)
collect_encoders-AreEncoders (t ∷ ts) h =
    Returns-bind IsEncoder _ (Encoders.column_encoder t) _ (column_encoder-IsEncoder t h.0) (λ e w.
      Returns-bind (AreEncoders (length ts)) _ (Encoders.collect_encoders ts) _
        (collect_encoders-AreEncoders ts h.1) (λ es a. (ap suc a.0, (w, a.1))))

pub column_encoders-AreEncoders :
    (names : List Bytes) (ts : List DataType)
    → All IsDataType ts
    → Returns (AreEncoders (length names)) (Encoders.column_encoders names ts)
unfolding Encoders.column_encoders
column_encoders-AreEncoders names ts h = elim (Bool-cases (length names == length ts)) [
  | inr e ↦ rw e tt
  | inl e ↦ rw e (
      subst (λ n. Returns (AreEncoders n) (Encoders.collect_encoders ts))
        (sym (==→eq (length names) (length ts) e)) (collect_encoders-AreEncoders ts h))
]
