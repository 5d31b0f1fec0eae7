-- ===== src/Thrift/ResultSets/Encoders.antt =====
-- Column types and the metadata of a result set: `column_encoder` and the writers of schemas in
-- src/thrift/result_encoding.rs.
pub mod WellFormed
pub mod Columns
use harborsql.Base.{
  ℕ, suc, ◌%◌, ◌^◌, ◌==◌, Bool, true, false, not, Option, none, some, List, [], ◌∷◌, ◌++◌, Bytes,
  length, ascii, if◌then◌else◌,
}
use harborsql.Error.{unsupported_result_type}
use harborsql.Error.Outcome.{Result, ok, err, ◌>>=◌, fail}
use harborsql.Thrift.Protocol.{
  t_bool, t_i32, t_map, t_string, t_struct, t_list, boolean_type, tinyint_type, smallint_type,
  int_type, bigint_type, float_type, double_type, string_type, timestamp_type, binary_type,
  array_type, map_type, struct_type, decimal_type, date_type, column_based_set,
}
use harborsql.Thrift.Codec.Writer.{
  Write, ◌⨾◌, write_stop, write_bool, write_i32, write_string, write_field, write_list_begin,
  write_raw,
}
use harborsql.Thrift.Responses.Parts.{write_status}

pub data TimeUnit : Type 0 where
  second millisecond microsecond nanosecond : TimeUnit

-- `DataType` of the `arrow` crate as far as the code looks at it. A precision and a scale are `i32`s,
-- a timestamp may have the name of its time zone, and `other_type` is any further type, with the text that it displays.
pub data DataType : Type 0 where
  boolean int8 int16 int32 int64 uint8 uint16 uint32 uint64 float32 float64 : DataType
  utf8 large_utf8 utf8_view date32 date64 : DataType
  timestamp : TimeUnit → Option Bytes → DataType
  binary large_binary fixed_size_binary : DataType
  decimal128 decimal256 : ℕ → ℕ → DataType
  list large_list fixed_size_list list_view large_list_view map struct : DataType
  other_type : Bytes → DataType

pub data PhysicalType : Type 0 where
  bool i32 i64 f64 string binary_values : PhysicalType

pub record ColumnEncoder : Type 0 where
  pub schema_type : ℕ
  pub physical_type : PhysicalType
  pub decimal : Option (ℕ × ℕ)

abbrev plain : ℕ → PhysicalType → Result ColumnEncoder
plain schema_type physical_type =
    ok (record { schema_type = schema_type; physical_type = physical_type; decimal = none })

abbrev with_scale : ℕ → ℕ → Result ColumnEncoder
with_scale precision scale = ok (record {
  schema_type = decimal_type;
  physical_type = string;
  decimal = some (precision, scale);
})

unfoldable pub column_encoder : DataType → Result ColumnEncoder
column_encoder boolean = plain boolean_type bool
column_encoder int8 = plain tinyint_type i32
column_encoder int16 = plain smallint_type i32
column_encoder int32 = plain int_type i32
column_encoder int64 = plain bigint_type i64
column_encoder uint8 = plain bigint_type i64
column_encoder uint16 = plain bigint_type i64
column_encoder uint32 = plain bigint_type i64
column_encoder uint64 = plain bigint_type i64
column_encoder float32 = plain float_type f64
column_encoder float64 = plain double_type f64
column_encoder utf8 = plain string_type string
column_encoder large_utf8 = plain string_type string
column_encoder utf8_view = plain string_type string
column_encoder date32 = plain date_type string
column_encoder date64 = plain date_type string
column_encoder (timestamp unit tz) = plain timestamp_type string
column_encoder binary = plain binary_type binary_values
column_encoder large_binary = plain binary_type binary_values
column_encoder fixed_size_binary = plain binary_type binary_values
column_encoder (decimal128 precision scale) = with_scale precision scale
column_encoder (decimal256 precision scale) = with_scale precision scale
column_encoder list = plain array_type string
column_encoder large_list = plain array_type string
column_encoder fixed_size_list = plain array_type string
column_encoder list_view = plain array_type string
column_encoder large_list_view = plain array_type string
column_encoder map = plain map_type string
column_encoder struct = plain struct_type string
column_encoder (other_type text) =
    fail unsupported_result_type (ascii "unsupported Arrow result type `" ++ (text ++ ascii "`"))

-- `map(column_encoder).collect()`
unfoldable pub collect_encoders : List DataType → Result (List ColumnEncoder)
collect_encoders [] = ok []
collect_encoders (t ∷ ts) = do
  encoder ← column_encoder t
  encoders ← collect_encoders ts
  ok (encoder ∷ encoders)

-- The names of the columns are all that is written of `columns`. The message leaves the numbers out.
unfoldable pub column_encoders : List Bytes → List DataType → Result (List ColumnEncoder)
column_encoders columns data_types =
    if length columns == length data_types
    then collect_encoders data_types
    else fail unsupported_result_type (ascii "result has columns but Arrow data types")

unfoldable pub write_decimal_type_qualifiers : ℕ → ℕ → Write
write_decimal_type_qualifiers precision scale = write_field t_struct 2 (
    write_field t_map 1 (
      write_raw (t_string ∷ t_struct ∷ [])
      ⨾ write_i32 2
      ⨾ write_string (ascii "precision")
      ⨾ write_field t_i32 1 (write_i32 precision)
      ⨾ write_stop
      ⨾ write_string (ascii "scale")
      ⨾ write_field t_i32 1 (write_i32 scale)
      ⨾ write_stop)
    ⨾ write_stop)

unfoldable pub write_decimal : Option (ℕ × ℕ) → Write → Write
write_decimal none rest = rest
write_decimal (some decimal) rest = write_decimal_type_qualifiers decimal.0 decimal.1 ⨾ rest

unfoldable pub write_type_desc : ColumnEncoder → Write
write_type_desc encoder =
    write_field t_list 1 (
      write_list_begin t_struct 1
      ⨾ write_field t_struct 1 (
          write_field t_i32 1 (write_i32 encoder.schema_type)
          ⨾ write_decimal encoder.decimal write_stop)
      ⨾ write_stop)
    ⨾ write_stop

unfoldable pub write_column_desc : Bytes → ColumnEncoder → ℕ → Write
write_column_desc name encoder position =
    write_field t_string 1 (write_string name)
    ⨾ write_field t_struct 2 (write_type_desc encoder)
    ⨾ write_field t_i32 3 (write_i32 (position % 2 ^ 32))
    ⨾ write_stop

-- `zip` and `enumerate`: the shorter list ends the loop.
unfoldable pub write_column_descs : List Bytes → List ColumnEncoder → ℕ → Write
write_column_descs (name ∷ names) (encoder ∷ encoders) position =
    write_column_desc name encoder position ⨾ write_column_descs names encoders (suc position)
write_column_descs _ _ position = λ w. w

unfoldable pub write_table_schema : List Bytes → List ColumnEncoder → Write
write_table_schema columns encoders =
    write_field t_list 1
      (write_list_begin t_struct (length columns) ⨾ write_column_descs columns encoders 0)
    ⨾ write_stop

unfoldable pub write_result_set_metadata_response_with_encoders :
    List Bytes → List ColumnEncoder → ℕ → Write
write_result_set_metadata_response_with_encoders columns encoders status =
    write_field t_struct 1 (write_status status none)
    ⨾ write_field t_struct 2 (write_table_schema columns encoders)
    ⨾ write_field t_i32 1281 (write_i32 column_based_set)
    ⨾ write_field t_bool 1282 (write_bool false)
    ⨾ write_field t_bool 1287 (write_bool false)
    ⨾ write_stop

unfoldable pub write_result_set_metadata_response_with_error : ℕ → Bytes → Write
write_result_set_metadata_response_with_error status message =
    write_field t_struct 1 (write_status status (some message))
    ⨾ write_field t_struct 2 (write_table_schema [] [])
    ⨾ write_field t_i32 1281 (write_i32 column_based_set)
    ⨾ write_field t_bool 1282 (write_bool false)
    ⨾ write_stop

unfoldable pub write_result_set_metadata_response : List Bytes → List DataType → ℕ → Result Write
write_result_set_metadata_response columns data_types status = do
  encoders ← column_encoders columns data_types
  ok (write_result_set_metadata_response_with_encoders columns encoders status)
