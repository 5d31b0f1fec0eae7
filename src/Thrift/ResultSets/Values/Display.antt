-- ===== src/Thrift/ResultSets/Values/Display.antt =====
-- The texts of values: `arrow_value_to_string` and the functions `databricks_display_…` and `format_…_value` of
-- src/thrift/result_encoding.rs.
use harborsql.Base.{
  Bool, inl, inr, Option, none, some, List, [], ◌∷◌, ◌++◌, Bytes, ascii, join, if◌then◌else◌,
}
use harborsql.Base.Chars.{text_le}
use harborsql.Base.Sort.{sort_by}
use harborsql.Error.{unsupported_result_type}
use harborsql.Error.Outcome.{Result, ok, ◌>>=◌, fail}
use harborsql.Thrift.ResultSets.Encoders.{
  DataType, boolean, int8, int16, int32, int64, uint8, uint16, uint32, uint64, float32, float64,
  utf8, large_utf8, utf8_view, date32, date64, timestamp, binary, large_binary, fixed_size_binary,
  decimal128, decimal256, list, large_list, fixed_size_list, list_view, large_list_view, map,
  struct,
}
use harborsql.Thrift.ResultSets.Values.{
  Slot, Slots, Pairs, Members, null, elements, entries, members, no_slot, next_slot, no_pair,
  next_pair, no_member, next_member, Formats, unexpected_value_type, number_of, text_of,
  arrow_value_to_bool, arrow_value_to_i32, arrow_value_to_i64, arrow_value_to_f64,
  arrow_value_to_binary, array_name,
}

module _ (f : Formats) where
  -- `array_value_to_string`, with the code's own message.
  unfoldable pub formatted : Bytes → DataType → Slot → Result Bytes
  formatted kind type slot = elim (f.array_value_to_string type slot) [
    | inr t ↦ ok t
    | inl error ↦
        fail unsupported_result_type
          (ascii "failed to format " ++ (kind ++ (ascii " value: " ++ error)))
  ]

  -- The message leaves out the row.
  unfoldable pub in_range : Bytes → Option Bytes → Result Bytes
  in_range kind none =
      fail unsupported_result_type (kind ++ ascii " value is outside supported range")
  in_range kind (some t) = ok t

  unfoldable pub format_date_value : DataType → Slot → Result Bytes
  format_date_value date32 slot = do
    days ← number_of (ascii "Date32") slot
    in_range (ascii "date") (f.date_text date32 days)
  format_date_value date64 slot = do
    millis ← number_of (ascii "Date64") slot
    in_range (ascii "date") (f.date_text date64 millis)
  format_date_value _ slot = unexpected_value_type (ascii "Date32/Date64")

  unfoldable pub format_timestamp_value : DataType → Slot → Result Bytes
  format_timestamp_value (timestamp unit tz) slot = do
    n ← number_of (array_name unit) slot
    in_range (ascii "timestamp") (f.timestamp_text unit n)
  format_timestamp_value _ slot = unexpected_value_type (ascii "Timestamp")

  key_le : Bytes × Bytes → Bytes × Bytes → Bool
  key_le a b = text_le a.0 b.0

  rendered : List (Bytes × Bytes) → List Bytes
  rendered [] = []
  rendered ((key, value) ∷ pairs) = (f.json_string key ++ (ascii ":" ++ value)) ∷ rendered pairs

  braces : List Bytes → Bytes
  braces parts = ascii "{" ++ (join (ascii ",") parts ++ ascii "}")

  brackets : List Bytes → Bytes
  brackets parts = ascii "[" ++ (join (ascii ",") parts ++ ascii "]")

  -- `databricks_display_value` but for arrays of arrays whose slots are such.
  unfoldable pub display_scalar : DataType → Slot → Result Bytes
  display_scalar boolean slot = do
    b ← arrow_value_to_bool boolean slot
    ok (if b then ascii "true" else ascii "false")
  display_scalar int8 slot = do n ← arrow_value_to_i32 int8 slot; ok (f.show_i32 n)
  display_scalar int16 slot = do n ← arrow_value_to_i32 int16 slot; ok (f.show_i32 n)
  display_scalar int32 slot = do n ← arrow_value_to_i32 int32 slot; ok (f.show_i32 n)
  display_scalar int64 slot = do n ← arrow_value_to_i64 int64 slot; ok (f.show_i64 n)
  display_scalar uint8 slot = do n ← arrow_value_to_i64 uint8 slot; ok (f.show_i64 n)
  display_scalar uint16 slot = do n ← arrow_value_to_i64 uint16 slot; ok (f.show_i64 n)
  display_scalar uint32 slot = do n ← arrow_value_to_i64 uint32 slot; ok (f.show_i64 n)
  display_scalar uint64 slot = do n ← arrow_value_to_i64 uint64 slot; ok (f.show_i64 n)
  display_scalar float32 slot = do bits ← arrow_value_to_f64 f float32 slot; ok (f.show_f64 bits)
  display_scalar float64 slot = do bits ← arrow_value_to_f64 f float64 slot; ok (f.show_f64 bits)
  display_scalar utf8 slot = do t ← text_of (ascii "Utf8") slot; ok (f.json_string t)
  display_scalar large_utf8 slot = do t ← text_of (ascii "LargeUtf8") slot; ok (f.json_string t)
  display_scalar utf8_view slot = do t ← text_of (ascii "Utf8View") slot; ok (f.json_string t)
  display_scalar date32 slot = format_date_value date32 slot
  display_scalar date64 slot = format_date_value date64 slot
  display_scalar (timestamp unit tz) slot = format_timestamp_value (timestamp unit tz) slot
  display_scalar (decimal128 p s) slot = formatted (ascii "Decimal") (decimal128 p s) slot
  display_scalar (decimal256 p s) slot = formatted (ascii "Decimal") (decimal256 p s) slot
  display_scalar binary slot = do b ← arrow_value_to_binary binary slot; ok (f.json_bytes b)
  display_scalar large_binary slot = do
    b ← arrow_value_to_binary large_binary slot
    ok (f.json_bytes b)
  display_scalar fixed_size_binary slot = do
    b ← arrow_value_to_binary fixed_size_binary slot
    ok (f.json_bytes b)
  display_scalar list slot = unexpected_value_type (ascii "List")
  display_scalar large_list slot = unexpected_value_type (ascii "LargeList")
  display_scalar fixed_size_list slot = unexpected_value_type (ascii "FixedSizeList")
  display_scalar map slot = unexpected_value_type (ascii "Map")
  display_scalar struct slot = unexpected_value_type (ascii "Struct")
  display_scalar _ slot = unexpected_value_type (ascii "Databricks display-compatible Arrow type")

  -- The key of a map: a text stands as it is, and what else there is as it is displayed.
  unfoldable pub key_text : DataType → Slot → Result Bytes → Result Bytes
  key_text type null displayed = ok (ascii "null")
  key_text utf8 slot displayed = text_of (ascii "Utf8") slot
  key_text large_utf8 slot displayed = text_of (ascii "LargeUtf8") slot
  key_text utf8_view slot displayed = text_of (ascii "Utf8View") slot
  key_text type slot displayed = displayed

  unfoldable mutual
    unfolding key_le rendered braces brackets

    pub databricks_display_value : DataType → Slot → Result Bytes
    databricks_display_value type null = ok (ascii "null")
    databricks_display_value list (elements t xs) = do
      parts ← databricks_display_list t xs
      ok (brackets parts)
    databricks_display_value large_list (elements t xs) = do
      parts ← databricks_display_list t xs
      ok (brackets parts)
    databricks_display_value fixed_size_list (elements t xs) = do
      parts ← databricks_display_list t xs
      ok (brackets parts)
    databricks_display_value map (entries k v ps) = do
      pairs ← databricks_display_map k v ps
      ok (braces (rendered (sort_by key_le pairs)))
    databricks_display_value struct (members ms) = do
      parts ← databricks_display_struct ms
      ok (braces parts)
    databricks_display_value type slot = display_scalar type slot

    pub databricks_display_list : DataType → Slots → Result (List Bytes)
    databricks_display_list type no_slot = ok []
    databricks_display_list type (next_slot slot slots) = do
      part ← databricks_display_value type slot
      parts ← databricks_display_list type slots
      ok (part ∷ parts)

    pub databricks_display_map : DataType → DataType → Pairs → Result (List (Bytes × Bytes))
    databricks_display_map k v no_pair = ok []
    databricks_display_map k v (next_pair key value pairs) = do
      name ← key_text k key (databricks_display_value k key)
      part ← databricks_display_value v value
      rest ← databricks_display_map k v pairs
      ok ((name, part) ∷ rest)

    pub databricks_display_struct : Members → Result (List Bytes)
    databricks_display_struct no_member = ok []
    databricks_display_struct (next_member name type slot rest) = do
      part ← databricks_display_value type slot
      parts ← databricks_display_struct rest
      ok ((f.json_string name ++ (ascii ":" ++ part)) ∷ parts)

  unfoldable pub arrow_value_to_string : DataType → Slot → Result Bytes
  arrow_value_to_string type null = ok []
  arrow_value_to_string utf8 slot = text_of (ascii "Utf8") slot
  arrow_value_to_string large_utf8 slot = text_of (ascii "LargeUtf8") slot
  arrow_value_to_string utf8_view slot = text_of (ascii "Utf8View") slot
  arrow_value_to_string date32 slot = formatted (ascii "Date32") date32 slot
  arrow_value_to_string date64 slot = formatted (ascii "Date64") date64 slot
  arrow_value_to_string (timestamp unit tz) slot =
      formatted (ascii "Timestamp") (timestamp unit tz) slot
  arrow_value_to_string (decimal128 p s) slot = databricks_display_value (decimal128 p s) slot
  arrow_value_to_string (decimal256 p s) slot = databricks_display_value (decimal256 p s) slot
  arrow_value_to_string list slot = databricks_display_value list slot
  arrow_value_to_string large_list slot = databricks_display_value large_list slot
  arrow_value_to_string fixed_size_list slot = databricks_display_value fixed_size_list slot
  arrow_value_to_string list_view slot = databricks_display_value list_view slot
  arrow_value_to_string large_list_view slot = databricks_display_value large_list_view slot
  arrow_value_to_string map slot = databricks_display_value map slot
  arrow_value_to_string struct slot = databricks_display_value struct slot
  arrow_value_to_string _ slot =
      unexpected_value_type (ascii "Utf8/LargeUtf8/Utf8View/Date/Timestamp/Decimal/List/Map/Struct")
