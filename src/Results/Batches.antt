-- ===== src/Results/Batches.antt =====
-- What the code uses of `RecordBatch` of the `arrow` crate. `rows` is what a batch holds, which the program
-- does not look at here; `slice` is a window of the rows.
use harborsql.Base.{ℕ, ◌+◌, ◌*◌, ◌≤◌, ◌≡◌, refl, List, length, take, drop}

pub record RecordBatches : Type 1 where
  pub RecordBatch : Type 0
  pub Row : Type 0
  pub num_rows : RecordBatch → ℕ
  pub memory_size : RecordBatch → ℕ
  pub slice : RecordBatch → ℕ → ℕ → RecordBatch
  pub rows : RecordBatch → List Row
  pub length-rows : (b : RecordBatch) → length (rows b) ≡ num_rows b
  pub rows-slice :
      (b : RecordBatch) (offset n : ℕ)
      → offset + n ≤ num_rows b
      → rows (slice b offset n) ≡ take n (drop offset (rows b))

-- A library that meets this: a batch is the list of its rows.
abbrev pub plain_batches : RecordBatches
plain_batches = record {
  RecordBatch = List ℕ;
  Row = ℕ;
  num_rows = λ b. length b;
  memory_size = λ b. 8 * length b;
  slice = λ b offset n. take n (drop offset b);
  rows = λ b. b;
  length-rows = λ b. refl;
  rows-slice = λ b offset n h. refl;
}
