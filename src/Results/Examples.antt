-- ===== src/Results/Examples.antt =====
-- The theorems on query results at concrete batches.
use harborsql.Base.{
  ℕ, ◌+◌, ◌≡◌, refl, ◌||◌, ◌==◌, some, List, [], ◌∷◌, ◌++◌, length, take, drop, map, arith,
}
use harborsql.Results.Batches.{plain_batches}
use harborsql.Results.{
  requested_row_limit, non_negative, count_rows, new, page, page_start, page_end, page_batches,
  ResultLimits, complete, materialize_stream,
}
use harborsql.Results.Nulls.{
  ColumnBatch, with_column, without_column, null_bitset, mark_batches, mark_rows, mark_null, or_at,
  zeros,
}
use harborsql.Results.Nulls.Marks.{IsBitset, marked_rows, null_bitset-IsBitset}
use harborsql.Results.Rows.{rows_of}
use harborsql.Results.Fetching.{fetch_all, fetch_all_complete}
use harborsql.Results.Paging.{page-rows, page-page}
use harborsql.Results.Limits.{sum_memory, materialize_stream-complete}

abbrev batches : List (List ℕ)
batches = (1 ∷ 2 ∷ 3 ∷ []) ∷ (4 ∷ []) ∷ (5 ∷ 6 ∷ []) ∷ []

abbrev limits : ResultLimits
limits = record { max_rows = some 10; max_bytes = some 100 }

page-rows_example :
    let p = page plain_batches (new plain_batches batches) 2 3 in
    (rows_of plain_batches p.batches
      ≡ take 3 (drop (non_negative 2) (rows_of plain_batches batches)))
    × (length (rows_of plain_batches p.batches) ≡ p.row_count)
unfolding count_rows
page-rows_example = page-rows plain_batches batches (omega arith) 2 3

-- The three rows from row 2 on.
page_test :
    rows_of plain_batches (page plain_batches (new plain_batches batches) 2 3).batches
    ≡ 3 ∷ 4 ∷ 5 ∷ []
unfolding rows_of page new page_batches page_start page_end count_rows
page_test = refl

page-page_example :
    rows_of plain_batches (page plain_batches (new plain_batches batches) 1 2).batches
      ++ rows_of plain_batches (page plain_batches (new plain_batches batches) (1 + 2) 2).batches
    ≡ rows_of plain_batches (page plain_batches (new plain_batches batches) 1 (2 + 2)).batches
unfolding count_rows
page-page_example = page-page plain_batches batches (omega arith) 1 2 2 (omega arith)

materialize_stream-complete_example :
    materialize_stream plain_batches limits (map some batches)
    ≡ complete batches (count_rows plain_batches batches) (sum_memory plain_batches 0 batches)
unfolding count_rows sum_memory
materialize_stream-complete_example =
    materialize_stream-complete plain_batches limits batches (omega arith) (omega arith)

-- Three rows, a batch without the column, and six rows: the rows 1, 8 and 3 are null.
abbrev columns : List ColumnBatch
columns =
    with_column 3 (λ row. row == 1)
    ∷ without_column
    ∷ with_column 6 (λ row. row == 5 || row == 0)
    ∷ []

null_bitset-IsBitset_example : IsBitset columns 9 (null_bitset columns 9)
unfolding marked_rows
null_bitset-IsBitset_example = null_bitset-IsBitset columns 9 (omega arith)

null_bitset_test : null_bitset columns 9 ≡ some (10 ∷ 1 ∷ [])
unfolding null_bitset mark_batches mark_rows mark_null or_at zeros
null_bitset_test = refl

fetch_all_complete_example :
    fetch_all plain_batches batches (some 4) 2 0 ≡ some (rows_of plain_batches batches)
unfolding count_rows requested_row_limit
fetch_all_complete_example =
    fetch_all_complete plain_batches batches (some 4) 1 (omega arith) (omega arith)
