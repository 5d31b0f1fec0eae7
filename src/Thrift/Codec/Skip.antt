-- ===== src/Thrift/Codec/Skip.antt =====
-- Skipping of values of unknown fields, and the loop over the fields of a struct that every decoder
-- of a request is written with: src/thrift/codec.rs, src/thrift.rs.
-- `skip_at_depth` and `skip_remaining_struct_fields_at_depth` call each other one or two levels
-- deeper until `check_depth` stops them, so 34 levels are enough; a loop over fields reads a byte at
-- least in each round, so one round more than there are bytes left is enough. `stuck` stands for a
-- call without fuel.
pub mod Safe
pub mod Fields
pub mod Value
pub mod Reads
use harborsql.Base.{ℕ, zero, suc, ◌+◌, ◌^◌, ◌||◌, not, ltb, leb, ◌==◌, if◌then◌else◌}
use harborsql.Thrift.Protocol.{
  t_stop, t_bool, t_byte, t_i16, t_i32, t_i64, t_double, t_string, t_struct, t_map, t_set, t_list,
  valid_field_type,
}
use harborsql.Thrift.Result.{
  stuck, depth_exceeds_maximum, stop_in_value, unsupported_type, invalid_element_type,
  negative_size, size_exceeds_maximum, Position, map_key, map_value, list_element, Container,
  map_container, list_container,
}
use harborsql.Thrift.Codec.Reader.{
  Parse, ◌>>=◌, ◌>>◌, pure, fail, remaining, read_u8, read_i16, read_i32, read_i64, read_double,
  read_binary, read_field_begin,
}

abbrev pub max_container_elements : ℕ
max_container_elements = 16_384

abbrev pub max_skip_depth : ℕ
max_skip_depth = 32

abbrev pub Skip : Type 0
Skip = Parse (Unit {0})

-- An action whose value is dropped: `self.read_u8()?; Ok(())`.
abbrev ignore : Parse ℕ → Skip
ignore m = do _ ← m; pure tt

abbrev pub out_of_fuel {ℓ} : {A : Type ℓ} → Parse A
out_of_fuel r = stuck

-- `loop { let (t, id) = read_field_begin()?; if t == T_STOP { break } … }` over the variables `S`,
-- with the body of the loop as `field`.
unfoldable pub fields_loop {ℓ} : {S : Type ℓ} → ℕ → (S → ℕ → ℕ → Parse S) → S → Parse S
fields_loop zero field s = out_of_fuel
fields_loop (suc fuel) field s = read_field_begin >>= λ (t, id).
    if t == t_stop then pure s else field s t id >>= fields_loop fuel field

unfoldable pub read_fields {ℓ} : {S : Type ℓ} → (S → ℕ → ℕ → Parse S) → S → Parse S
read_fields field s r = fields_loop (suc (remaining r)) field s r

-- `for _ in 0..n { body?; }`
unfoldable pub repeat : ℕ → Skip → Skip
repeat zero body = pure tt
repeat (suc n) body = do body; repeat n body

pub check_depth : ℕ → Skip
check_depth depth = if ltb max_skip_depth depth then fail depth_exceeds_maximum else pure tt

pub read_container_element_type : Position → Parse ℕ
read_container_element_type position = do
  t ← read_u8
  if not (valid_field_type t) then fail (invalid_element_type position t) else pure t

pub read_container_size : Container → Parse ℕ
read_container_size kind = do
  size ← read_i32
  if leb (2 ^ 31) size then fail (negative_size kind) else do
    if ltb max_container_elements size then fail (size_exceeds_maximum kind) else pure size

-- The two functions that call each other, over `skip`, the calls of `skip_at_depth` in them.
module _ (skip : ℕ → ℕ → Skip) where
  pub skip_fields_with : ℕ → Skip
  skip_fields_with depth = do check_depth depth; read_fields (λ _ t _. skip t (depth + 1)) tt

  pub skip_map_with : ℕ → Skip
  skip_map_with depth = do
    key ← read_container_element_type map_key
    value ← read_container_element_type map_value
    size ← read_container_size map_container
    repeat size (do skip key (depth + 1); skip value (depth + 1))

  pub skip_list_with : ℕ → Skip
  skip_list_with depth = do
    element ← read_container_element_type list_element
    size ← read_container_size list_container
    repeat size (skip element (depth + 1))

  pub skip_value_with : ℕ → ℕ → Skip
  skip_value_with t depth =
      if t == t_stop
      then fail stop_in_value
      else if t == t_bool || t == t_byte
      then ignore read_u8
      else if t == t_i16
      then ignore read_i16
      else if t == t_i32
      then ignore read_i32
      else if t == t_i64
      then ignore read_i64
      else if t == t_double
      then ignore read_double
      else if t == t_string
      then (do _ ← read_binary; pure tt)
      else if t == t_struct
      then skip_fields_with (depth + 1)
      else if t == t_map
      then skip_map_with depth
      else if t == t_list || t == t_set
      then skip_list_with depth
      else fail (unsupported_type t)

pub skip_at_depth : ℕ → ℕ → ℕ → Skip
skip_at_depth zero t depth = out_of_fuel
skip_at_depth (suc levels) t depth = do
  check_depth depth
  skip_value_with (skip_at_depth levels) t depth

abbrev pub skip_levels : ℕ
skip_levels = 34

pub skip_remaining_struct_fields_at_depth : ℕ → Skip
skip_remaining_struct_fields_at_depth = skip_fields_with (skip_at_depth skip_levels)

pub skip_remaining_struct_fields : Skip
skip_remaining_struct_fields = skip_remaining_struct_fields_at_depth 0

pub skip : ℕ → Skip
skip t = skip_at_depth skip_levels t 0
