-- ===== src/Results.antt =====
-- The rows of a query: how a stream of record batches becomes a result and how FetchResults takes a page of
-- it. src/engine/results.rs, `InlineResultStore` of src/engine.rs, and the row limits of
-- src/thrift/result_encoding.rs. A `usize` has 64 bits; an `i64` is its bit pattern.
pub mod Batches
pub mod Rows
pub mod Paging
pub mod Fetching
pub mod Limits
pub mod Nulls
pub mod Examples
use harborsql.Base.{
  ℕ, ◌+◌, ◌-◌, ◌^◌, Bool, true, false, ◌||◌, Option, none, some, List, [], ◌∷◌, leb, ltb, ◌==◌, min,
  if◌then◌else◌,
}
use harborsql.Thrift.Protocol.{default_fetch_rows, max_fetch_rows}
use harborsql.Results.Batches.{RecordBatches}

-- `saturating_add` on `usize`.
abbrev pub saturating_add : ℕ → ℕ → ℕ
saturating_add a b = min (a + b) (2 ^ 64 - 1)

-- `start_row_offset.max(0)` as a `usize`.
abbrev pub non_negative : ℕ → ℕ
non_negative offset = if leb (2 ^ 63) offset then 0 else offset

unfoldable pub requested_row_limit : Option ℕ → ℕ
requested_row_limit none = default_fetch_rows
requested_row_limit (some value) =
    if leb (2 ^ 63) value || value == 0 then 0 else min value max_fetch_rows

module _ (r : RecordBatches) where
  unfoldable pub count_rows : List r.RecordBatch → ℕ
  count_rows [] = 0
  count_rows (b ∷ bs) = r.num_rows b + count_rows bs

  pub record InlineResultStore : Type 0 where
    pub batches : List r.RecordBatch
    pub row_count : ℕ

  -- InlineResultStore::new
  unfoldable pub new : List r.RecordBatch → InlineResultStore
  unfolding count_rows
  new batches = record { batches = batches; row_count = count_rows batches }

  pub record QueryResultPage : Type 0 where
    pub batches : List r.RecordBatch
    pub start_row_offset : ℕ
    pub row_count : ℕ
    pub has_more_rows : Bool

  -- The loop of `page`, with `remaining_skip` and `remaining_take`.
  unfoldable pub page_batches : List r.RecordBatch → ℕ → ℕ → List r.RecordBatch
  page_batches [] skip take = []
  page_batches (b ∷ bs) skip take =
      if take == 0
      then []
      else if leb (r.num_rows b) skip
      then page_batches bs (skip - r.num_rows b) take
      else let local_take = min (r.num_rows b - skip) take in
        r.slice b skip local_take ∷ page_batches bs 0 (take - local_take)

  unfoldable pub page_start : InlineResultStore → ℕ → ℕ
  page_start s offset = min (non_negative offset) s.row_count

  unfoldable pub page_end : InlineResultStore → ℕ → ℕ → ℕ
  page_end s start limit = min (saturating_add start limit) s.row_count

  unfoldable pub page : InlineResultStore → ℕ → ℕ → QueryResultPage
  unfolding page_batches page_start page_end
  page s start_row_offset limit =
      let start = page_start s start_row_offset in
      let end = page_end s start limit in
      record {
        batches = page_batches s.batches start (end - start);
        start_row_offset = start;
        row_count = end - start;
        has_more_rows = ltb end s.row_count;
      }

  unfoldable pub row_page : InlineResultStore → ℕ → Option ℕ → QueryResultPage
  unfolding page requested_row_limit
  row_page result start_row_offset max_rows =
      page result start_row_offset (requested_row_limit max_rows)

pub record ResultLimits : Type 0 where
  pub max_rows : Option ℕ
  pub max_bytes : Option ℕ

pub data Stopped : Type 0 where
  stream_error too_many_rows too_many_bytes : Stopped

pub data Materialized (A : Type 0) : Type 0 where
  complete : A → ℕ → ℕ → Materialized A
  stopped : Stopped → Materialized A

-- Whether a limit is set and `n` is above it.
abbrev pub exceeds : Option ℕ → ℕ → Bool
exceeds none n = false
exceeds (some limit) n = ltb limit n

module _ (r : RecordBatches) where
  abbrev pub with_batch :
      r.RecordBatch → Materialized (List r.RecordBatch) → Materialized (List r.RecordBatch)
  with_batch b (complete bs rows bytes) = complete (b ∷ bs) rows bytes
  with_batch b (stopped e) = stopped e

  -- The loop of `materialize_stream`, with `row_count` and `result_bytes`; the batches come in their order.
  -- An item of the stream is a batch, or `none` for the error that ends it. The number of rows, a `usize` in
  -- the code, is not reduced to 64 bits.
  unfoldable pub materialize_from :
      ResultLimits → ℕ → ℕ → List (Option r.RecordBatch) → Materialized (List r.RecordBatch)
  materialize_from l rows bytes [] = complete [] rows bytes
  materialize_from l rows bytes (none ∷ stream) = stopped stream_error
  materialize_from l rows bytes (some b ∷ stream) =
      let rest =
        materialize_from l (rows + r.num_rows b) (saturating_add bytes (r.memory_size b)) stream in
      if exceeds l.max_rows (rows + r.num_rows b)
      then stopped too_many_rows
      else if exceeds l.max_bytes (saturating_add bytes (r.memory_size b))
      then stopped too_many_bytes
      else with_batch b rest

  unfoldable pub materialize_stream :
      ResultLimits → List (Option r.RecordBatch) → Materialized (List r.RecordBatch)
  unfolding materialize_from
  materialize_stream l stream = materialize_from l 0 0 stream
