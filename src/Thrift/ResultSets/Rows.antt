-- ===== src/Thrift/ResultSets/Rows.antt =====
-- The rows of a page, column by column: `write_row_set_with_encoders` of src/thrift/result_encoding.rs and
-- what it calls. `none` is the panic of `null_bitset` on an index out of bounds. An array has as many slots
-- as its batch has rows.
pub mod Items
pub mod Written
use harborsql.Base.{
  ℕ, zero, suc, ◌%◌, ◌^◌, Bool, true, false, Option, none, some, List, [], ◌∷◌, Bytes, length,
  ascii,
}
use harborsql.Error.{unsupported_result_type}
use harborsql.Error.Outcome.{Result, ok, err, ◌>>=◌, fail}
use harborsql.Thrift.Protocol.{t_bool, t_i32, t_i64, t_double, t_string, t_struct, t_list}
use harborsql.Thrift.Codec.Writer.{
  Write, ◌⨾◌, write_stop, write_bool, write_i32, write_i64, write_double, write_string,
  write_binary, write_field, write_list_begin,
}
use harborsql.Results.{QueryResultPage}
use harborsql.Results.Batches.{RecordBatches}
use harborsql.Results.Nulls.{ColumnBatch, with_column, without_column, null_bitset}
use harborsql.Thrift.ResultSets.Encoders.{
  DataType, PhysicalType, bool, i32, i64, f64, string, binary_values, ColumnEncoder,
}
use harborsql.Thrift.ResultSets.Values.{
  Slot, null, Formats, arrow_value_to_bool, arrow_value_to_i32, arrow_value_to_i64,
  arrow_value_to_f64, arrow_value_to_binary,
}
use harborsql.Thrift.ResultSets.Values.Display.{arrow_value_to_string}

pub record ArrayRef : Type 0 where
  pub data_type : DataType
  pub slots : List Slot

unfoldable pub is_null : Slot → Bool
is_null null = true
is_null _ = false

-- `array.is_null(row)`
unfoldable pub null_in : List Slot → ℕ → Bool
null_in [] row = false
null_in (slot ∷ slots) zero = is_null slot
null_in (slot ∷ slots) (suc row) = null_in slots row

unfoldable pub get_column : ℕ → List ArrayRef → Option ArrayRef
get_column index [] = none
get_column zero (array ∷ arrays) = some array
get_column (suc index) (array ∷ arrays) = get_column index arrays

-- The type of the elements and the number of the field of a column.
unfoldable pub value_type : PhysicalType → ℕ
value_type bool = t_bool
value_type i32 = t_i32
value_type i64 = t_i64
value_type f64 = t_double
value_type string = t_string
value_type binary_values = t_string

unfoldable pub column_field : PhysicalType → ℕ
column_field bool = 1
column_field i32 = 4
column_field i64 = 5
column_field f64 = 6
column_field string = 7
column_field binary_values = 8

module _ (f : Formats) where
  -- `read_value`, and the writer of what it gives.
  unfoldable pub write_value : PhysicalType → DataType → Slot → Result Write
  write_value bool type slot = do v ← arrow_value_to_bool type slot; ok (write_bool v)
  write_value i32 type slot = do v ← arrow_value_to_i32 type slot; ok (write_i32 v)
  write_value i64 type slot = do v ← arrow_value_to_i64 type slot; ok (write_i64 v)
  write_value f64 type slot = do v ← arrow_value_to_f64 f type slot; ok (write_double v)
  write_value string type slot = do v ← arrow_value_to_string f type slot; ok (write_string v)
  write_value binary_values type slot = do v ← arrow_value_to_binary type slot; ok (write_binary v)

  unfoldable pub write_slots : PhysicalType → DataType → List Slot → Result Write
  write_slots physical type [] = ok (λ w. w)
  write_slots physical type (slot ∷ slots) = do
    first ← write_value physical type slot
    rest ← write_slots physical type slots
    ok (first ⨾ rest)

  unfoldable pub write_array : PhysicalType → Option ArrayRef → Result Write
  write_array physical none =
      fail unsupported_result_type (ascii "result page is missing column index")
  write_array physical (some array) = write_slots physical array.data_type array.slots

  module _ (r : RecordBatches) (columns : r.RecordBatch → List ArrayRef) where
    -- The outer loop of `write_column_values`.
    unfoldable pub write_batches : PhysicalType → ℕ → List r.RecordBatch → Result Write
    write_batches physical index [] = ok (λ w. w)
    write_batches physical index (batch ∷ batches) = do
      first ← write_array physical (get_column index (columns batch))
      rest ← write_batches physical index batches
      ok (first ⨾ rest)

    unfoldable pub column_batch : ℕ → Option ArrayRef → ColumnBatch
    column_batch num_rows none = without_column
    column_batch num_rows (some array) = with_column num_rows (null_in array.slots)

    -- What `null_bitset` sees of the batches.
    unfoldable pub column_batches : ℕ → List r.RecordBatch → List ColumnBatch
    column_batches index [] = []
    column_batches index (batch ∷ batches) =
        column_batch (r.num_rows batch) (get_column index (columns batch))
        ∷ column_batches index batches

    unfoldable pub write_column_values : PhysicalType → ℕ → QueryResultPage r → Bytes → Result Write
    write_column_values physical index page nulls = do
      values ← write_batches physical index page.batches
      ok (
          write_field t_list 1 (write_list_begin (value_type physical) page.row_count ⨾ values)
          ⨾ write_field t_string 2 (write_binary nulls)
          ⨾ write_stop)

    unfoldable pub column_of : ColumnEncoder → ℕ → QueryResultPage r → Bytes → Result Write
    column_of encoder index page nulls = do
      values ← write_column_values encoder.physical_type index page nulls
      ok (write_field t_struct (column_field encoder.physical_type) values ⨾ write_stop)

    -- A column with its bitset.
    unfoldable pub with_bitset :
        ColumnEncoder → ℕ → QueryResultPage r → Option Bytes → Option (Result Write)
    with_bitset encoder index page none = none
    with_bitset encoder index page (some nulls) = some (column_of encoder index page nulls)

    unfoldable pub write_column : ColumnEncoder → ℕ → QueryResultPage r → Option (Result Write)
    write_column encoder index page =
        with_bitset encoder index page
          (null_bitset (column_batches index page.batches) page.row_count)

    -- One column and then the others, until one fails.
    unfoldable pub and_columns :
        Option (Result Write) → Option (Result Write) → Option (Result Write)
    and_columns none others = none
    and_columns (some (err e)) others = some (err e)
    and_columns (some (ok w)) none = none
    and_columns (some (ok w)) (some (err e)) = some (err e)
    and_columns (some (ok w)) (some (ok ws)) = some (ok (w ⨾ ws))

    unfoldable pub write_columns :
        List ColumnEncoder → ℕ → QueryResultPage r → Option (Result Write)
    write_columns [] index page = some (ok (λ w. w))
    write_columns (encoder ∷ encoders) index page =
        and_columns (write_column encoder index page) (write_columns encoders (suc index) page)

    -- The fields around the columns.
    unfoldable pub row_set : List Bytes → QueryResultPage r → Write → Write
    row_set names page ws =
        write_field t_i64 1 (write_i64 page.start_row_offset)
        ⨾ write_field t_list 2 (write_list_begin t_struct 0)
        ⨾ write_field t_list 3 (write_list_begin t_struct (length names) ⨾ ws)
        ⨾ write_field t_i32 5 (write_i32 (length names % 2 ^ 32))
        ⨾ write_stop

    unfoldable pub around :
        List Bytes → QueryResultPage r → Option (Result Write) → Option (Result Write)
    around names page none = none
    around names page (some (err e)) = some (err e)
    around names page (some (ok ws)) = some (ok (row_set names page ws))

    unfoldable pub write_row_set_with_encoders :
        List Bytes → QueryResultPage r → List ColumnEncoder → Option (Result Write)
    write_row_set_with_encoders names page encoders =
        around names page (write_columns encoders 0 page)
