-- ===== src/Metadata/Results/Fit.antt =====
-- The fields, the columns and the arrays of the answers in src/engine/metadata/result.rs fit each other, as
-- `RecordBatch::try_new` wants them.
use harborsql.Base.{
  ℕ, zero, suc, ◌≡◌, refl, ap, subst, Bool, true, false, ◌⊎◌, inl, inr, Option, none, some, List,
  [], ◌∷◌, map, Str, length,
}
use harborsql.Metadata.Columns.Rows.{ColumnMetadataRow}
use harborsql.Metadata.Results
use harborsql.Metadata.Results.{
  DataType, utf8, boolean, int8, int16, int32, Column, Field, ArrayRef, string_array, boolean_array,
  int8_array, int16_array, int32_array, QueryResult, TableRow, TableExtendedRow,
}

unfoldable has_none {ℓ} : {A : Type ℓ} → List (Option A) → Bool
has_none [] = false
has_none (none ∷ rest) = true
has_none (some a ∷ rest) = has_none rest

unfoldable type_of : ArrayRef → DataType
type_of (string_array values) = utf8
type_of (boolean_array values) = boolean
type_of (int8_array values) = int8
type_of (int16_array values) = int16
type_of (int32_array values) = int32

unfoldable array_length : ArrayRef → ℕ
array_length (string_array values) = length values
array_length (boolean_array values) = length values
array_length (int8_array values) = length values
array_length (int16_array values) = length values
array_length (int32_array values) = length values

unfoldable has_nulls : ArrayRef → Bool
has_nulls (string_array values) = has_none values
has_nulls (boolean_array values) = false
has_nulls (int8_array values) = has_none values
has_nulls (int16_array values) = has_none values
has_nulls (int32_array values) = has_none values

-- One column of `n` rows: the column and the field say the same, the array has the type and the length, and
-- nulls only where they are allowed.
ColumnFits : ℕ → Column → Field → ArrayRef → Type 0
ColumnFits n c f a =
    (c.name ≡ f.name)
    × (c.data_type ≡ f.data_type)
    × (c.nullable ≡ f.nullable)
    × (type_of a ≡ f.data_type)
    × (array_length a ≡ n)
    × ((f.nullable ≡ true) ⊎ (has_nulls a ≡ false))

abbrev AllFit : ℕ → List Column → List Field → List ArrayRef → Type 0
AllFit n [] [] [] = Unit
AllFit n (c ∷ cs) (f ∷ fs) (a ∷ arrays) = ColumnFits n c f a × AllFit n cs fs arrays
AllFit n _ _ _ = ⊥

pub IsBatch : ℕ → QueryResult → Type 0
unfolding ColumnFits type_of array_length has_nulls has_none
IsBatch n r = AllFit n r.columns r.fields r.arrays

length-map {ℓ κ} :
    {A : Type ℓ} {B : Type κ} (f : A → B) (xs : List A) → length (map f xs) ≡ length xs
length-map f [] = refl
length-map f (x ∷ xs) = ap suc (length-map f xs)

length-repeat : {A : Type 0} (a : A) (n : ℕ) → length (Results.repeat a n) ≡ n
unfolding Results.repeat
length-repeat a zero = refl
length-repeat a (suc n) = ap suc (length-repeat a n)

length-required :
    {A B : Type 0} (value : B → A) (rows : List B)
    → length (Results.required value rows) ≡ length rows
unfolding Results.required
length-required value rows = length-map (λ row. some (value row)) rows

has_none-required :
    {A B : Type 0} (value : B → A) (rows : List B) → has_none (Results.required value rows) ≡ false
unfolding Results.required has_none
has_none-required value [] = refl
has_none-required value (row ∷ rows) = has_none-required value rows

has_none-repeat : {A : Type 0} (a : A) (n : ℕ) → has_none (Results.repeat (some a) n) ≡ false
unfolding Results.repeat has_none
has_none-repeat a zero = refl
has_none-repeat a (suc n) = has_none-repeat a n

module _ {B : Type 0} (rows : List B) where
  strings :
      (name : Str) (value : B → Str)
      → ColumnFits
          (length rows)
          (Results.string_column name)
          (Results.new_field name utf8 false)
          (string_array (Results.required value rows))
  unfolding ColumnFits type_of array_length has_nulls
  strings name value =
      (refl, refl, refl, refl, length-required value rows, inr (has_none-required value rows))

  optional_strings :
      (name : Str) (value : B → Option Str)
      → ColumnFits
          (length rows)
          (Results.nullable_string_column name)
          (Results.new_field name utf8 true)
          (string_array (map value rows))
  unfolding ColumnFits type_of array_length
  optional_strings name value = (refl, refl, refl, refl, length-map value rows, inl refl)

  numbers :
      (name : Str) (value : B → ℕ)
      → ColumnFits
          (length rows)
          (Results.int32_column name false)
          (Results.new_field name int32 false)
          (int32_array (Results.required value rows))
  unfolding ColumnFits type_of array_length has_nulls
  numbers name value =
      (refl, refl, refl, refl, length-required value rows, inr (has_none-required value rows))

  optional_numbers :
      (name : Str) (value : B → Option ℕ)
      → ColumnFits
          (length rows)
          (Results.int32_column name true)
          (Results.new_field name int32 true)
          (int32_array (map value rows))
  unfolding ColumnFits type_of array_length
  optional_numbers name value = (refl, refl, refl, refl, length-map value rows, inl refl)

no_strings :
    (n : ℕ) (name : Str)
    → ColumnFits n
        (Results.nullable_string_column name)
        (Results.new_field name utf8 true)
        (string_array (Results.repeat none n))
unfolding ColumnFits type_of array_length
no_strings n name = (refl, refl, refl, refl, length-repeat none n, inl refl)

string_result-IsBatch :
    (name : Str) (values : List Str) → IsBatch (length values) (Results.string_result name values)
unfolding IsBatch Results.string_result
string_result-IsBatch name values = (strings values name (λ v. v), tt)

-- A column before the ones behind it.
infixr 4 ◌&◌
◌&◌ : {P Q : Type 0} → P → Q → P × Q
p & q = (p, q)

booleans :
    (n : ℕ) (name : Str) (values : List Bool)
    → length values ≡ n
    → ColumnFits n
        (Results.boolean_column name)
        (Results.new_field name boolean false)
        (boolean_array values)
unfolding ColumnFits type_of array_length has_nulls
booleans n name values h = (refl, refl, refl, refl, h, inr refl)

repeated :
    (n : ℕ) (name value : Str)
    → ColumnFits n
        (Results.string_column name)
        (Results.new_field name utf8 false)
        (string_array (Results.repeat (some value) n))
unfolding ColumnFits type_of array_length has_nulls
repeated n name value =
    (refl, refl, refl, refl, length-repeat (some value) n, inr (has_none-repeat value n))

table_rows_result-IsBatch :
    (first second third : Str) (rows : List (Str × Str × Bool))
    → IsBatch (length rows) (Results.table_rows_result first second third rows)
unfolding IsBatch Results.table_rows_result
table_rows_result-IsBatch first second third rows =
    strings rows first (λ row. row.0)
    & strings rows second (λ row. row.1)
    & booleans (length rows) third (map (λ (row : Str × Str × Bool). row.2) rows)
        (length-map (λ (row : Str × Str × Bool). row.2) rows)
    & tt

table_extended_result-IsBatch :
    (rows : List TableExtendedRow) → IsBatch (length rows) (Results.table_extended_result rows)
unfolding IsBatch Results.table_extended_result
table_extended_result-IsBatch rows =
    strings rows _ (λ row. row.schema)
    & strings rows _ (λ row. row.name)
    & booleans (length rows) _ (Results.repeat false (length rows))
        (length-repeat false (length rows))
    & strings rows _ (λ row. row.information)
    & tt

no_int8s :
    (n : ℕ) (name : Str)
    → ColumnFits n
        (Results.int8_column name)
        (Results.new_field name int8 true)
        (int8_array (Results.repeat none n))
unfolding ColumnFits type_of array_length
no_int8s n name = (refl, refl, refl, refl, length-repeat none n, inl refl)

no_int16s :
    (n : ℕ) (name : Str)
    → ColumnFits n
        (Results.int16_column name)
        (Results.new_field name int16 true)
        (int16_array (Results.repeat none n))
unfolding ColumnFits type_of array_length
no_int16s n name = (refl, refl, refl, refl, length-repeat none n, inl refl)

column_metadata_result-IsBatch :
    (rows : List ColumnMetadataRow) → IsBatch (length rows) (Results.column_metadata_result rows)
unfolding IsBatch Results.column_metadata_result
column_metadata_result-IsBatch rows =
    strings rows _ (λ row. row.catalog)
    & strings rows _ (λ row. row.schema)
    & strings rows _ (λ row. row.table)
    & strings rows _ (λ row. row.column)
    & numbers rows _ (λ row. row.data_type)
    & strings rows _ (λ row. row.type_name)
    & optional_numbers rows _ (λ row. row.column_size)
    & no_int8s (length rows) _
    & optional_numbers rows _ (λ row. row.decimal_digits)
    & optional_numbers rows _ (λ row. row.num_prec_radix)
    & numbers rows _ (λ row. row.nullable)
    & optional_strings rows _ (λ row. row.remarks)
    & no_strings (length rows) _
    & numbers rows _ (λ row. row.sql_data_type)
    & optional_numbers rows _ (λ row. row.sql_datetime_sub)
    & optional_numbers rows _ (λ row. row.char_octet_length)
    & numbers rows _ (λ row. row.ordinal_position)
    & strings rows _ (λ row. row.is_nullable)
    & no_strings (length rows) _
    & no_strings (length rows) _
    & no_strings (length rows) _
    & no_int16s (length rows) _
    & repeated (length rows) _ _
    & tt

subst_length :
    {A B : Type 0} (f : A → B) (xs : List A) (r : QueryResult)
    → IsBatch (length (map f xs)) r
    → IsBatch (length xs) r
subst_length f xs r h = subst (λ n. IsBatch n r) (length-map f xs) h

-- Each answer to a metadata statement, whatever it lists, is a batch of as many rows as it lists: its columns
-- and fields agree, every array has the type of its field and that many values, and none is missing where
-- the field takes no nulls.
pub results-IsBatch :
    (names : List Str) (rows : List TableRow) (extended : List TableExtendedRow)
    (columns : List ColumnMetadataRow)
    → IsBatch (length names) (Results.catalogs_result names)
      × IsBatch (length names) (Results.schemas_result names)
      × IsBatch (length names) (Results.columns_result names)
      × IsBatch (length rows) (Results.tables_result rows)
      × IsBatch (length rows) (Results.views_result rows)
      × IsBatch (length extended) (Results.table_extended_result extended)
      × IsBatch (length columns) (Results.column_metadata_result columns)
unfolding Results.catalogs_result Results.schemas_result Results.columns_result
    Results.tables_result Results.views_result
results-IsBatch names rows extended columns = (
  string_result-IsBatch _ names,
  string_result-IsBatch _ names,
  string_result-IsBatch _ names,
  subst_length _ rows _ (table_rows_result-IsBatch _ _ _ _),
  subst_length _ rows _ (table_rows_result-IsBatch _ _ _ _),
  table_extended_result-IsBatch extended,
  column_metadata_result-IsBatch columns,
)
