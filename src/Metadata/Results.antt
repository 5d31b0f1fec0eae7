-- ===== src/Metadata/Results.antt =====
-- The answers of metadata statements: src/engine/metadata/result.rs, and `Column` of src/engine.rs, which
-- holds the name that a type displays, here the type. `RecordBatch::try_new` of the `arrow` crate, which the
-- code then calls, makes a batch of fields and arrays that fit each other.
pub mod Fit
use harborsql.Base.{
  ℕ, zero, suc, Bool, true, false, Option, none, some, List, [], ◌∷◌, map, Str, ascii, length,
}
use harborsql.Metadata.Columns.Rows.{ColumnMetadataRow}

pub data DataType : Type 0 where
  utf8 boolean int8 int16 int32 : DataType

pub record Column : Type 0 where
  pub name : Str
  pub data_type : DataType
  pub nullable : Bool

-- `Field` of the crate.
pub record Field : Type 0 where
  pub name : Str
  pub data_type : DataType
  pub nullable : Bool

pub data ArrayRef : Type 0 where
  string_array : List (Option Str) → ArrayRef
  boolean_array : List Bool → ArrayRef
  int8_array int16_array int32_array : List (Option ℕ) → ArrayRef

pub record QueryResult : Type 0 where
  pub columns : List Column
  pub fields : List Field
  pub arrays : List ArrayRef

pub record TableRow : Type 0 where
  pub schema : Str
  pub name : Str

pub record TableExtendedRow : Type 0 where
  pub schema : Str
  pub name : Str
  pub information : Str

abbrev pub new_field : Str → DataType → Bool → Field
new_field name data_type nullable = record {
  name = name;
  data_type = data_type;
  nullable = nullable;
}

abbrev pub string_column : Str → Column
string_column name = record { name = name; data_type = utf8; nullable = false }

abbrev pub nullable_string_column : Str → Column
nullable_string_column name = record { name = name; data_type = utf8; nullable = true }

abbrev pub boolean_column : Str → Column
boolean_column name = record { name = name; data_type = boolean; nullable = false }

abbrev pub int8_column : Str → Column
int8_column name = record { name = name; data_type = int8; nullable = true }

abbrev pub int16_column : Str → Column
int16_column name = record { name = name; data_type = int16; nullable = true }

abbrev pub int32_column : Str → Bool → Column
int32_column name nullable = record { name = name; data_type = int32; nullable = nullable }

-- An array of values that are all there.
unfoldable pub required {ℓ} : {A : Type 0} {B : Type ℓ} → (B → A) → List B → List (Option A)
required value rows = map (λ row. some (value row)) rows

unfoldable pub repeat {ℓ} : {A : Type ℓ} → A → ℕ → List A
repeat a zero = []
repeat a (suc n) = a ∷ repeat a n

unfoldable pub string_result : Str → List Str → QueryResult
string_result column_name values = record {
  columns = string_column column_name ∷ [];
  fields = new_field column_name utf8 false ∷ [];
  arrays = string_array (required (λ v. v) values) ∷ [];
}

unfoldable pub table_rows_result : Str → Str → Str → List (Str × Str × Bool) → QueryResult
table_rows_result first second third rows = record {
  columns = string_column first ∷ string_column second ∷ boolean_column third ∷ [];
  fields =
      new_field first utf8 false ∷ new_field second utf8 false ∷ new_field third boolean false ∷ [];
  arrays =
      string_array (required (λ (row : Str × Str × Bool). row.0) rows)
      ∷ string_array (required (λ (row : Str × Str × Bool). row.1) rows)
      ∷ boolean_array (map (λ (row : Str × Str × Bool). row.2) rows)
      ∷ [];
}

unfoldable pub catalogs_result : List Str → QueryResult
catalogs_result names = string_result (ascii "catalog") names

unfoldable pub schemas_result : List Str → QueryResult
schemas_result names = string_result (ascii "databaseName") names

unfoldable pub tables_result : List TableRow → QueryResult
tables_result rows =
    table_rows_result (ascii "database") (ascii "tableName") (ascii "isTemporary")
      (map (λ (row : TableRow). (row.schema, row.name, false)) rows)

unfoldable pub views_result : List TableRow → QueryResult
views_result rows =
    table_rows_result (ascii "namespace") (ascii "viewName") (ascii "isTemporary")
      (map (λ (row : TableRow). (row.schema, row.name, false)) rows)

unfoldable pub columns_result : List Str → QueryResult
columns_result names = string_result (ascii "col_name") names

unfoldable pub table_extended_result : List TableExtendedRow → QueryResult
table_extended_result rows = record {
  columns =
      string_column (ascii "database")
      ∷ string_column (ascii "tableName")
      ∷ boolean_column (ascii "isTemporary")
      ∷ string_column (ascii "information")
      ∷ [];
  fields =
      new_field (ascii "database") utf8 false
      ∷ new_field (ascii "tableName") utf8 false
      ∷ new_field (ascii "isTemporary") boolean false
      ∷ new_field (ascii "information") utf8 false
      ∷ [];
  arrays =
      string_array (required (λ (row : TableExtendedRow). row.schema) rows)
      ∷ string_array (required (λ (row : TableExtendedRow). row.name) rows)
      ∷ boolean_array (repeat false (length rows))
      ∷ string_array (required (λ (row : TableExtendedRow). row.information) rows)
      ∷ [];
}

unfoldable pub column_metadata_result : List ColumnMetadataRow → QueryResult
column_metadata_result rows = record {
  columns =
      string_column (ascii "TABLE_CAT")
      ∷ string_column (ascii "TABLE_SCHEM")
      ∷ string_column (ascii "TABLE_NAME")
      ∷ string_column (ascii "COLUMN_NAME")
      ∷ int32_column (ascii "DATA_TYPE") false
      ∷ string_column (ascii "TYPE_NAME")
      ∷ int32_column (ascii "COLUMN_SIZE") true
      ∷ int8_column (ascii "BUFFER_LENGTH")
      ∷ int32_column (ascii "DECIMAL_DIGITS") true
      ∷ int32_column (ascii "NUM_PREC_RADIX") true
      ∷ int32_column (ascii "NULLABLE") false
      ∷ nullable_string_column (ascii "REMARKS")
      ∷ nullable_string_column (ascii "COLUMN_DEF")
      ∷ int32_column (ascii "SQL_DATA_TYPE") false
      ∷ int32_column (ascii "SQL_DATETIME_SUB") true
      ∷ int32_column (ascii "CHAR_OCTET_LENGTH") true
      ∷ int32_column (ascii "ORDINAL_POSITION") false
      ∷ string_column (ascii "IS_NULLABLE")
      ∷ nullable_string_column (ascii "SCOPE_CATALOG")
      ∷ nullable_string_column (ascii "SCOPE_SCHEMA")
      ∷ nullable_string_column (ascii "SCOPE_TABLE")
      ∷ int16_column (ascii "SOURCE_DATA_TYPE")
      ∷ string_column (ascii "IS_AUTO_INCREMENT")
      ∷ [];
  fields =
      new_field (ascii "TABLE_CAT") utf8 false
      ∷ new_field (ascii "TABLE_SCHEM") utf8 false
      ∷ new_field (ascii "TABLE_NAME") utf8 false
      ∷ new_field (ascii "COLUMN_NAME") utf8 false
      ∷ new_field (ascii "DATA_TYPE") int32 false
      ∷ new_field (ascii "TYPE_NAME") utf8 false
      ∷ new_field (ascii "COLUMN_SIZE") int32 true
      ∷ new_field (ascii "BUFFER_LENGTH") int8 true
      ∷ new_field (ascii "DECIMAL_DIGITS") int32 true
      ∷ new_field (ascii "NUM_PREC_RADIX") int32 true
      ∷ new_field (ascii "NULLABLE") int32 false
      ∷ new_field (ascii "REMARKS") utf8 true
      ∷ new_field (ascii "COLUMN_DEF") utf8 true
      ∷ new_field (ascii "SQL_DATA_TYPE") int32 false
      ∷ new_field (ascii "SQL_DATETIME_SUB") int32 true
      ∷ new_field (ascii "CHAR_OCTET_LENGTH") int32 true
      ∷ new_field (ascii "ORDINAL_POSITION") int32 false
      ∷ new_field (ascii "IS_NULLABLE") utf8 false
      ∷ new_field (ascii "SCOPE_CATALOG") utf8 true
      ∷ new_field (ascii "SCOPE_SCHEMA") utf8 true
      ∷ new_field (ascii "SCOPE_TABLE") utf8 true
      ∷ new_field (ascii "SOURCE_DATA_TYPE") int16 true
      ∷ new_field (ascii "IS_AUTO_INCREMENT") utf8 false
      ∷ [];
  arrays =
      string_array (required (λ (row : ColumnMetadataRow). row.catalog) rows)
      ∷ string_array (required (λ (row : ColumnMetadataRow). row.schema) rows)
      ∷ string_array (required (λ (row : ColumnMetadataRow). row.table) rows)
      ∷ string_array (required (λ (row : ColumnMetadataRow). row.column) rows)
      ∷ int32_array (required (λ (row : ColumnMetadataRow). row.data_type) rows)
      ∷ string_array (required (λ (row : ColumnMetadataRow). row.type_name) rows)
      ∷ int32_array (map (λ (row : ColumnMetadataRow). row.column_size) rows)
      ∷ int8_array (repeat none (length rows))
      ∷ int32_array (map (λ (row : ColumnMetadataRow). row.decimal_digits) rows)
      ∷ int32_array (map (λ (row : ColumnMetadataRow). row.num_prec_radix) rows)
      ∷ int32_array (required (λ (row : ColumnMetadataRow). row.nullable) rows)
      ∷ string_array (map (λ (row : ColumnMetadataRow). row.remarks) rows)
      ∷ string_array (repeat none (length rows))
      ∷ int32_array (required (λ (row : ColumnMetadataRow). row.sql_data_type) rows)
      ∷ int32_array (map (λ (row : ColumnMetadataRow). row.sql_datetime_sub) rows)
      ∷ int32_array (map (λ (row : ColumnMetadataRow). row.char_octet_length) rows)
      ∷ int32_array (required (λ (row : ColumnMetadataRow). row.ordinal_position) rows)
      ∷ string_array (required (λ (row : ColumnMetadataRow). row.is_nullable) rows)
      ∷ string_array (repeat none (length rows))
      ∷ string_array (repeat none (length rows))
      ∷ string_array (repeat none (length rows))
      ∷ int16_array (repeat none (length rows))
      ∷ string_array (repeat (some (ascii "NO")) (length rows))
      ∷ [];
}
