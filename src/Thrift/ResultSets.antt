-- ===== src/Thrift/ResultSets.antt =====
-- Result sets on the wire: src/thrift/result_encoding.rs, and the responses of src/thrift.rs that carry them.
-- An Arrow array is its type and what stands in each of its rows; `array_value_to_string` of the crate, the
-- conversions of dates, JSON texts and the texts of numbers are those of the libraries.
pub mod Encoders
pub mod Values
pub mod Rows
pub mod Fetch
pub mod Examples
