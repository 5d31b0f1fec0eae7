-- ===== src/Thrift/Result.antt =====
-- The outcome of decoding. An error is the site that builds a `HarborError::Thrift` message, with
-- the values that the message prints. `stuck` is no Rust value: a loop of the model ran out of fuel.
use harborsql.Base.{ℕ}

pub data Position : Type 0 where
  map_key map_value list_element : Position

pub data Container : Type 0 where
  map_container list_container : Container

pub data Error : Type 0 where
  unexpected_end invalid_utf8 negative_length stop_in_value : Error
  unsupported_type : ℕ → Error
  invalid_element_type : Position → ℕ → Error
  negative_size size_exceeds_maximum : Container → Error
  depth_exceeds_maximum : Error
  not_strict_binary missing_req missing_sql negative_i32_list : Error

pub data Result {ℓ} (A : Type ℓ) : Type ℓ where
  ok : A → Result A
  err : Error → Result A
  stuck : Result A
