-- ===== src/Results/Fetching.antt =====
-- A client that asks for one page after another: `row_page` of src/thrift/result_encoding.rs and `page` of
-- src/engine.rs, from the first row until a page says that no more rows follow.
use harborsql.Base.{
  ℕ, zero, suc, ◌+◌, ◌*◌, ◌^◌, ◌≤◌, ◌<◌, ◌≡◌, refl, sym, ap, ap₂, ◌∙◌, true, false, Option, none,
  some, List, [], ◌∷◌, ◌++◌, take, drop, arith, drop-drop, Bool-cases, inl, inr, if◌then◌else◌,
}
use harborsql.Results.Batches.{RecordBatches}
use harborsql.Results
use harborsql.Results.{
  non_negative, requested_row_limit, count_rows, InlineResultStore, new, page_start, page_end,
  row_page,
}
use harborsql.Results.Rows.{rows_of}
use harborsql.Results.Paging.{page-rows, page-last}

take-drop : {A : Type 0} (n : ℕ) (xs : List A) → take n xs ++ drop n xs ≡ xs
take-drop zero xs = refl
take-drop (suc n) [] = refl
take-drop (suc n) (x ∷ xs) = ap (λ ys. x ∷ ys) (take-drop n xs)

module _ (r : RecordBatches) (bs : List r.RecordBatch) (max_rows : Option ℕ) where
  before_rest : List r.Row → Option (List r.Row) → Option (List r.Row)
  before_rest rows none = none
  before_rest rows (some rest) = some (rows ++ rest)

  -- The rows that so many requests give, if the last of them says that no more follow.
  pub fetch_all : ℕ → ℕ → Option (List r.Row)
  unfolding before_rest
  fetch_all zero offset = none
  fetch_all (suc requests) offset =
      let p = row_page r (new r bs) offset max_rows in
      let rest = fetch_all requests (p.start_row_offset + p.row_count) in
      if p.has_more_rows then before_rest (rows_of r p.batches) rest else some (rows_of r p.batches)

  abbrev limit : ℕ
  limit = requested_row_limit max_rows

  more-row_page :
      (offset : ℕ)
      → count_rows r bs < 2 ^ 63
      → offset ≤ count_rows r bs
      → (row_page r (new r bs) offset max_rows).has_more_rows ≡ true
      → (offset + limit < count_rows r bs)
        × ((row_page r (new r bs) offset max_rows).start_row_offset
              + (row_page r (new r bs) offset max_rows).row_count
            ≡ offset + limit)
  unfolding row_page Results.page page_start page_end new
  more-row_page offset small within h = ground (arith, small, within, h)

  first_rows :
      (offset : ℕ)
      → count_rows r bs < 2 ^ 63
      → offset ≤ count_rows r bs
      → rows_of r (row_page r (new r bs) offset max_rows).batches
        ≡ take limit (drop offset (rows_of r bs))
  unfolding row_page
  first_rows offset small within =
      (page-rows r bs (omega (arith, small)) offset limit).0
      ∙ ap (λ i. take limit (drop i (rows_of r bs))) (ground (arith, small, within))

  last_rows :
      (offset : ℕ)
      → count_rows r bs < 2 ^ 63
      → offset ≤ count_rows r bs
      → (row_page r (new r bs) offset max_rows).has_more_rows ≡ false
      → rows_of r (row_page r (new r bs) offset max_rows).batches ≡ drop offset (rows_of r bs)
  unfolding row_page
  last_rows offset small within h =
      page-last r bs (omega (arith, small)) offset limit h
      ∙ ap (λ i. drop i (rows_of r bs)) (ground (arith, small, within))

  fetch_from :
      (requests offset : ℕ)
      → count_rows r bs < 2 ^ 63
      → offset ≤ count_rows r bs
      → count_rows r bs ≤ offset + suc requests * limit
      → fetch_all (suc requests) offset ≡ some (drop offset (rows_of r bs))
  unfolding fetch_all before_rest
  fetch_from zero offset small within enough =
      elim (Bool-cases (row_page r (new r bs) offset max_rows).has_more_rows) [
        | inr last ↦ rw last (ap some (last_rows offset small within last))
        | inl more ↦ absurd (omega (arith, enough, (more-row_page offset small within more).0))
      ]
  fetch_from (suc requests) offset small within enough =
      elim (Bool-cases (row_page r (new r bs) offset max_rows).has_more_rows) [
        | inr last ↦ rw last (ap some (last_rows offset small within last))
        | inl more ↦
            let next = more-row_page offset small within more in
            rw more (
              ap (before_rest (rows_of r (row_page r (new r bs) offset max_rows).batches)) (
                ap (fetch_all (suc requests)) next.1
                ∙ fetch_from requests (offset + limit) small (omega (arith, next.0))
                    (grind (arith, enough)))
              ∙ ap some (
                  ap₂ (λ xs ys. xs ++ ys) (first_rows offset small within)
                    (sym (drop-drop limit offset (rows_of r bs)))
                  ∙ take-drop limit (drop offset (rows_of r bs))))
      ]

  -- A client that asks for page after page, from the first row on and each time from where the last page ended,
  -- with the same number of rows each time: after as many requests, one at least, as full pages of that
  -- size hold the rows of the result, a page has said that no more rows follow, and the client has all the
  -- rows of the result, in order. Where the limit of a page comes to 0, as for a request of no rows or of a
  -- negative number, this is about results without rows only. The result has fewer than 2 ^ 63 rows.
  pub fetch_all_complete :
      (requests : ℕ)
      → count_rows r bs < 2 ^ 63
      → count_rows r bs ≤ suc requests * requested_row_limit max_rows
      → fetch_all (suc requests) 0 ≡ some (rows_of r bs)
  fetch_all_complete requests small enough =
      fetch_from requests 0 small (omega arith) (omega (arith, enough))
