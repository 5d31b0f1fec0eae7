-- ===== src/Metadata/Columns/Rows.antt =====
-- The rows that describe the columns of a table: `table_column_names` and `column_metadata_rows` of
-- src/engine/metadata/mod.rs.
use harborsql.Base.{
  ℕ, suc, ◌+◌, ◌-◌, ◌^◌, ◌%◌, Bool, true, false, ◌&&◌, ◌||◌, Option, none, some, List, [], ◌∷◌, map,
  Str, ascii, leb, ltb, ◌==◌, if◌then◌else◌,
}
use harborsql.Base.Sort.{sort_by}
use harborsql.Metadata.Infos.{ColumnInfo, TableInfo, unwrap_or, nonempty}
use harborsql.Metadata.Columns.{
  column_type_name, jdbc_data_type, column_size, decimal_digits, num_prec_radix, sql_datetime_sub,
  char_octet_length,
}

pub record ColumnMetadataRow : Type 0 where
  pub catalog : Str
  pub schema : Str
  pub table : Str
  pub column : Str
  pub data_type : ℕ
  pub type_name : Str
  pub column_size : Option ℕ
  pub decimal_digits : Option ℕ
  pub num_prec_radix : Option ℕ
  pub nullable : ℕ
  pub remarks : Option Str
  pub sql_data_type : ℕ
  pub sql_datetime_sub : Option ℕ
  pub char_octet_length : Option ℕ
  pub ordinal_position : ℕ
  pub is_nullable : Str

-- The order of numbers of 32 bits with a sign.
unfoldable pub signed : ℕ → ℕ
signed n = (n + 2 ^ 31) % 2 ^ 32

unfoldable pub position_of : ColumnInfo → ℕ
position_of column = unwrap_or (2 ^ 31 - 1) column.position

-- The order of the keys of `sort_by_key`: the position, then the index.
unfoldable pub column_le : ℕ × ColumnInfo → ℕ × ColumnInfo → Bool
column_le (i, a) (j, b) =
    ltb (signed (position_of a)) (signed (position_of b))
    || signed (position_of a) == signed (position_of b) && leb i j

unfoldable pub enumerate {ℓ} : {A : Type ℓ} → ℕ → List A → List (ℕ × A)
enumerate n [] = []
enumerate n (x ∷ xs) = (n, x) ∷ enumerate (suc n) xs

unfoldable pub ordered_columns : TableInfo → List (ℕ × ColumnInfo)
ordered_columns table = sort_by column_le (enumerate 0 table.columns)

unfoldable pub table_column_names : TableInfo → List Str
table_column_names table = map (λ (entry : ℕ × ColumnInfo). entry.1.name) (ordered_columns table)

-- The code and the word for whether a column takes nulls.
unfoldable pub nullable_of : Option Bool → ℕ × Str
nullable_of (some false) = (0, ascii "NO")
nullable_of (some true) = (1, ascii "YES")
nullable_of none = (2, [])

unfoldable pub column_row : TableInfo → Str → Str → Str → ℕ × ColumnInfo → ColumnMetadataRow
column_row table catalog schema table_name (index, column) =
    let type_name = column_type_name column in
    record {
      catalog = unwrap_or catalog table.catalog_name;
      schema = unwrap_or schema table.schema_name;
      table = unwrap_or table_name table.name;
      column = column.name;
      data_type = jdbc_data_type type_name;
      type_name = type_name;
      column_size = column_size type_name column;
      decimal_digits = decimal_digits type_name column;
      num_prec_radix = num_prec_radix type_name;
      nullable = (nullable_of column.nullable).0;
      remarks = nonempty column.comment;
      sql_data_type = jdbc_data_type type_name;
      sql_datetime_sub = sql_datetime_sub type_name;
      char_octet_length = char_octet_length type_name;
      ordinal_position = (unwrap_or (index % 2 ^ 32) column.position + 1) % 2 ^ 32;
      is_nullable = (nullable_of column.nullable).1;
    }

unfoldable pub filter {ℓ} : {A : Type ℓ} → (A → Bool) → List A → List A
filter keep [] = []
filter keep (x ∷ xs) = let rest = filter keep xs in if keep x then x ∷ rest else rest

-- `accepts` is `matches` of the pattern.
unfoldable pub column_metadata_rows :
    TableInfo → Str → Str → Str → (Str → Bool) → List ColumnMetadataRow
column_metadata_rows table catalog schema table_name accepts =
    map (column_row table catalog schema table_name)
      (filter (λ (entry : ℕ × ColumnInfo). accepts entry.1.name) (ordered_columns table))
