-- ===== src/Results/Paging.antt =====
-- The pages of a result: `page` of src/engine.rs and `row_page` of src/thrift/result_encoding.rs.
use harborsql.Base.{
  ℕ, zero, suc, ◌+◌, ◌-◌, ◌^◌, ◌≤◌, ◌<◌, ◌≡◌, refl, sym, ap, ap₂, ◌∙◌, false, Option, none, some,
  List, [], ◌∷◌, ◌++◌, length, take, drop, ltb, min, arith, length-drop, drop-drop, Bool-cases, inl,
  inr, ltb→le,
}
use harborsql.Thrift.Protocol.{max_fetch_rows}
use harborsql.Results.Batches.{RecordBatches}
use harborsql.Results.{
  non_negative, requested_row_limit, count_rows, InlineResultStore, new, page_start, page_end, page,
  row_page,
}
use harborsql.Results.Rows.{
  rows_of, rows_of-page_batches, length-rows_of, take_all, take_two, take_enough,
}

module _ {ℓ} {A : Type ℓ} where
  drop_all : (n : ℕ) (xs : List A) → length xs ≤ n → drop n xs ≡ []
  drop_all zero [] h = refl
  drop_all (suc n) [] h = refl
  drop_all zero (x ∷ xs) h = absurd (omega (arith, h))
  drop_all (suc n) (x ∷ xs) h = drop_all n xs (omega (arith, h))

  drop-min : (n : ℕ) (xs : List A) → drop (min n (length xs)) xs ≡ drop n xs
  drop-min n xs = elim (Bool-cases (ltb n (length xs))) [
    | inl x ↦ ap (λ i. drop i xs) (ground (arith, x))
    | inr x ↦
        drop_all (min n (length xs)) xs (ground (arith, x))
        ∙ sym (drop_all n xs (ltb→le n (length xs) x))
  ]

pub requested_row_limit-le : (max_rows : Option ℕ) → requested_row_limit max_rows ≤ max_fetch_rows
unfolding requested_row_limit
requested_row_limit-le none = omega arith
requested_row_limit-le (some value) = ground arith

module _ (r : RecordBatches) (bs : List r.RecordBatch) (small : count_rows r bs < 2 ^ 64) where
  abbrev all_rows : List r.Row
  all_rows = rows_of r bs

  -- The rows of a page are the rows of the result from the offset on, at most as many as the limit says; a
  -- negative offset counts as 0. The number of rows that the page reports is theirs. The result has
  -- fewer than 2 ^ 64 rows.
  pub page-rows :
      (offset limit : ℕ)
      → let p = page r (new r bs) offset limit in
        (rows_of r p.batches ≡ take limit (drop (non_negative offset) (rows_of r bs)))
        × (length (rows_of r p.batches) ≡ p.row_count)
  unfolding page new page_start page_end
  page-rows offset limit =
      let start = min (non_negative offset) (count_rows r bs) in
      let total = length-rows_of r bs in
      let from =
        ap (λ i. drop (min (non_negative offset) i) all_rows) (sym total)
        ∙ drop-min (non_negative offset) all_rows in
      let rows = rows_of-page_batches r bs start (page_end r (new r bs) start limit - start) in
      (
        rows
            ∙ take_enough _ limit (drop start all_rows)
                (omega (arith, total, small, length-drop start all_rows))
            ∙ ap (take limit) from,
        ap (λ xs. length xs) rows
            ∙ length_take _ (drop start all_rows)
                (omega (arith, total, small, length-drop start all_rows)),
      )
    where
      length_take : {A : Type 0} (n : ℕ) (xs : List A) → n ≤ length xs → length (take n xs) ≡ n
      length_take zero xs h = refl
      length_take (suc n) [] h = absurd (omega (arith, h))
      length_take (suc n) (x ∷ xs) h = omega (arith, length_take n xs (omega (arith, h)))

  non_negative_lem : (offset : ℕ) → offset < 2 ^ 63 → non_negative offset ≡ offset
  non_negative_lem offset h = ground (arith, h)

  -- A page of `m` rows and then the page of `n` rows that starts where it ends have together the rows of the
  -- page of `m + n` rows. The second offset is no negative `i64`, and the result has fewer than 2 ^ 64 rows.
  pub page-page :
      (offset m n : ℕ)
      → offset + m < 2 ^ 63
      → rows_of r (page r (new r bs) offset m).batches
          ++ rows_of r (page r (new r bs) (offset + m) n).batches
        ≡ rows_of r (page r (new r bs) offset (m + n)).batches
  page-page offset m n h =
      ap₂ (λ xs ys. xs ++ ys)
        ((page-rows offset m).0
          ∙ ap (λ i. take m (drop i all_rows)) (non_negative_lem offset (omega (arith, h))))
        ((page-rows (offset + m) n).0
          ∙ ap (λ i. take n (drop i all_rows)) (non_negative_lem (offset + m) h)
          ∙ ap (take n) (sym (drop-drop m offset all_rows)))
      ∙ take_two m n (drop offset all_rows)
      ∙ sym (
          (page-rows offset (m + n)).0
          ∙ ap (λ i. take (m + n) (drop i all_rows)) (non_negative_lem offset (omega (arith, h))))

  more_rows :
      (start limit : ℕ)
      → ltb (page_end r (new r bs) start limit) (count_rows r bs) ≡ false
      → count_rows r bs - start ≤ limit
  unfolding page_end new
  more_rows start limit h = ground (arith, h, small)

  -- When a page says that no more rows follow, its rows are all the rows of the result from the offset on.
  pub page-last :
      (offset limit : ℕ)
      → (page r (new r bs) offset limit).has_more_rows ≡ false
      → rows_of r (page r (new r bs) offset limit).batches
        ≡ drop (non_negative offset) (rows_of r bs)
  unfolding page new page_start
  page-last offset limit h =
      (page-rows offset limit).0
      ∙ take_all limit (drop (non_negative offset) all_rows) (
          omega (
            arith,
            more_rows _ limit h,
            length-rows_of r bs,
            length-drop (non_negative offset) all_rows,
          ))

-- A page for FetchResults has at most 10 000 rows, whatever the client asks for.
pub row_page-le :
    (r : RecordBatches) (s : InlineResultStore r) (offset : ℕ) (max_rows : Option ℕ)
    → (row_page r s offset max_rows).row_count ≤ max_fetch_rows
unfolding row_page page page_end
row_page-le r s offset max_rows = omega (arith, requested_row_limit-le max_rows)
