-- ===== src/Thrift/ResultSets/Values.antt =====
-- The values of Arrow arrays: the functions `arrow_value_to_…` of src/thrift/result_encoding.rs but for the one to
-- texts. `Formats` is what the libraries print.
pub mod Display
use harborsql.Base.{
  ℕ, ◌%◌, ◌^◌, Bool, false, ◌⊎◌, inl, inr, Option, none, some, List, [], ◌∷◌, ◌++◌, Bytes, ascii,
  leb, join, if◌then◌else◌,
}
use harborsql.Base.Chars.{text_le}
use harborsql.Base.Sort.{sort_by}
use harborsql.Error.{unsupported_result_type}
use harborsql.Error.Outcome.{Result, ok, ◌>>=◌, fail}
use harborsql.Thrift.ResultSets.Encoders.{
  TimeUnit, second, millisecond, microsecond, nanosecond, DataType, boolean, int8, int16, int32,
  int64, uint8, uint16, uint32, uint64, float32, float64, utf8, large_utf8, utf8_view, date32,
  date64, timestamp, binary, large_binary, fixed_size_binary, decimal128, decimal256, list,
  large_list, fixed_size_list, list_view, large_list_view, map, struct,
}

-- What stands in one row of an array. A number is the 64 bits that it is extended to, and a float of 32 or 64
-- bits its bits. A list is an array of its elements, a map one of its keys and one of its values, and a struct
-- has a value of each of its members.
mutual
  pub data Slot : Type 0 where
    null : Slot
    bool : Bool → Slot
    number float : ℕ → Slot
    text bytes : Bytes → Slot
    elements : DataType → Slots → Slot
    entries : DataType → DataType → Pairs → Slot
    members : Members → Slot

  pub data Slots : Type 0 where
    no_slot : Slots
    next_slot : Slot → Slots → Slots

  pub data Pairs : Type 0 where
    no_pair : Pairs
    next_pair : Slot → Slot → Pairs → Pairs

  pub data Members : Type 0 where
    no_member : Members
    next_member : Bytes → DataType → Slot → Members → Members

-- `array_value_to_string` of the `arrow` crate, which may fail; JSON texts; the texts of numbers, dates and
-- times, where `none` is a value out of range; `f64::from` of a float of 32 bits.
pub record Formats : Type 0 where
  pub array_value_to_string : DataType → Slot → Bytes ⊎ Bytes
  pub json_string : Bytes → Bytes
  pub json_bytes : Bytes → Bytes
  pub show_i32 : ℕ → Bytes
  pub show_i64 : ℕ → Bytes
  pub show_f64 : ℕ → Bytes
  pub date_text : DataType → ℕ → Option Bytes
  pub timestamp_text : TimeUnit → ℕ → Option Bytes
  pub f64_of_f32 : ℕ → ℕ

-- The message leaves out the type that was found.
unfoldable pub unexpected_value_type {ℓ} : {A : Type ℓ} → Bytes → Result A
unexpected_value_type expected =
    fail unsupported_result_type (ascii "expected Arrow value type " ++ expected)

-- `downcast_ref` and `value`, for each kind of array.
unfoldable pub number_of : Bytes → Slot → Result ℕ
number_of expected (number n) = ok n
number_of expected _ = unexpected_value_type expected

unfoldable pub float_of : Bytes → Slot → Result ℕ
float_of expected (float bits) = ok bits
float_of expected _ = unexpected_value_type expected

unfoldable pub text_of : Bytes → Slot → Result Bytes
text_of expected (text t) = ok t
text_of expected _ = unexpected_value_type expected

unfoldable pub binary_of : Bytes → Slot → Result Bytes
binary_of expected (bytes b) = ok b
binary_of expected _ = unexpected_value_type expected

unfoldable pub arrow_value_to_bool : DataType → Slot → Result Bool
arrow_value_to_bool type null = ok false
arrow_value_to_bool boolean (bool b) = ok b
arrow_value_to_bool _ _ = unexpected_value_type (ascii "Boolean")

-- The number of 32 bits, of an array that holds such numbers.
unfoldable pub i32_of : Bytes → Slot → Result ℕ
i32_of expected slot = do n ← number_of expected slot; ok (n % 2 ^ 32)

unfoldable pub arrow_value_to_i32 : DataType → Slot → Result ℕ
arrow_value_to_i32 type null = ok 0
arrow_value_to_i32 int8 slot = i32_of (ascii "Int8") slot
arrow_value_to_i32 int16 slot = i32_of (ascii "Int16") slot
arrow_value_to_i32 int32 slot = i32_of (ascii "Int32") slot
arrow_value_to_i32 _ slot = unexpected_value_type (ascii "Int8/Int16/Int32")

-- `i64::try_from` of a `u64`.
unfoldable pub checked_u64 : ℕ → Result ℕ
checked_u64 n =
    if leb (2 ^ 63) n
    then fail unsupported_result_type (ascii "UInt64 result value exceeds signed BIGINT range")
    else ok n

unfoldable pub i64_of : Bytes → Slot → Result ℕ
i64_of expected slot = do n ← number_of expected slot; ok (n % 2 ^ 64)

unfoldable pub arrow_value_to_i64 : DataType → Slot → Result ℕ
arrow_value_to_i64 type null = ok 0
arrow_value_to_i64 int64 slot = i64_of (ascii "Int64") slot
arrow_value_to_i64 uint8 slot = i64_of (ascii "UInt8") slot
arrow_value_to_i64 uint16 slot = i64_of (ascii "UInt16") slot
arrow_value_to_i64 uint32 slot = i64_of (ascii "UInt32") slot
arrow_value_to_i64 uint64 slot = do n ← i64_of (ascii "UInt64") slot; checked_u64 n
arrow_value_to_i64 _ slot = unexpected_value_type (ascii "Int64/UInt8/UInt16/UInt32/UInt64")

unfoldable pub arrow_value_to_binary : DataType → Slot → Result Bytes
arrow_value_to_binary type null = ok []
arrow_value_to_binary binary slot = binary_of (ascii "Binary") slot
arrow_value_to_binary large_binary slot = binary_of (ascii "LargeBinary") slot
arrow_value_to_binary fixed_size_binary slot = binary_of (ascii "FixedSizeBinary") slot
arrow_value_to_binary _ slot = unexpected_value_type (ascii "Binary/LargeBinary/FixedSizeBinary")

unfoldable pub array_name : TimeUnit → Bytes
array_name second = ascii "TimestampSecond"
array_name millisecond = ascii "TimestampMillisecond"
array_name microsecond = ascii "TimestampMicrosecond"
array_name nanosecond = ascii "TimestampNanosecond"

module _ (f : Formats) where
  unfoldable pub arrow_value_to_f64 : DataType → Slot → Result ℕ
  arrow_value_to_f64 type null = ok 0
  arrow_value_to_f64 float32 slot = do
    bits ← float_of (ascii "Float32") slot
    ok (f.f64_of_f32 bits % 2 ^ 64)
  arrow_value_to_f64 float64 slot = do bits ← float_of (ascii "Float64") slot; ok (bits % 2 ^ 64)
  arrow_value_to_f64 _ slot = unexpected_value_type (ascii "Float32/Float64")
