-- ===== src/Results/Nulls.antt =====
-- The bits that mark the null values of a column: `null_bitset` of src/thrift/result_encoding.rs. A batch
-- that has the column is the number of its rows and the test `is_null` of the column's array.
-- `none` is the panic of an index out of bounds.
pub mod Bits
pub mod Marks
use harborsql.Base.{
  ℕ, zero, suc, ◌+◌, ◌/◌, ◌%◌, ◌^◌, Bool, true, false, Option, none, some, List, [], ◌∷◌, Bytes,
  bit_or, bit_and,
}

-- A batch, and what `batch.columns().get(column_index)` gives.
pub data ColumnBatch : Type 0 where
  with_column : ℕ → (ℕ → Bool) → ColumnBatch
  without_column : ColumnBatch

-- `vec![0_u8; n]`
unfoldable pub zeros : ℕ → Bytes
zeros zero = []
zeros (suc n) = 0 ∷ zeros n

-- `nulls[index] |= mask`
unfoldable pub or_at : ℕ → ℕ → Bytes → Option Bytes
or_at index mask [] = none
or_at zero mask (b ∷ bs) = some (bit_or b mask ∷ bs)
or_at (suc index) mask (b ∷ bs) = elim (or_at index mask bs) [
  | some cs ↦ some (b ∷ cs)
  | none ↦ none
]

-- `page_row >> 3` and `1 << (page_row & 7)`
unfoldable pub mark_null : Bool → ℕ → Bytes → Option Bytes
unfolding or_at
mark_null true page_row nulls = or_at (page_row / 8) (2 ^ (page_row % 8)) nulls
mark_null false page_row nulls = some nulls

abbrev pub and_then : Option Bytes → (Bytes → Option Bytes) → Option Bytes
and_then none f = none
and_then (some nulls) f = f nulls

-- The loop over `n` rows of a batch, from `row` on.
unfoldable pub mark_rows : (ℕ → Bool) → ℕ → ℕ → ℕ → Bytes → Option Bytes
unfolding mark_null
mark_rows is_null zero row page_row nulls = some nulls
mark_rows is_null (suc n) row page_row nulls =
    and_then (mark_null (is_null row) page_row nulls) (mark_rows is_null n (suc row) (suc page_row))

unfoldable pub mark_batches : List ColumnBatch → ℕ → Bytes → Option Bytes
unfolding mark_rows
mark_batches [] page_row nulls = some nulls
mark_batches (without_column ∷ bs) page_row nulls = mark_batches bs page_row nulls
mark_batches (with_column num_rows is_null ∷ bs) page_row nulls =
    and_then (mark_rows is_null num_rows 0 page_row nulls) (mark_batches bs (page_row + num_rows))

unfoldable pub null_bitset : List ColumnBatch → ℕ → Option Bytes
unfolding zeros mark_batches
null_bitset batches row_count = mark_batches batches 0 (zeros ((row_count + 7) / 8))
