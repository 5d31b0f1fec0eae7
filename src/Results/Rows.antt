-- ===== src/Results/Rows.antt =====
-- Windows of the rows of several batches: the loop of `page` in src/engine.rs.
use Prim.Native.Nat.add
use harborsql.Base.{
  ℕ, zero, suc, ◌+◌, ◌-◌, ◌≤◌, ◌≡◌, refl, sym, ap, ap₂, ◌∙◌, List, [], ◌∷◌, ◌++◌, length, take,
  drop, leb, ◌==◌, min, ==→eq, arith, length-drop, length-append, drop-nil, Bool-cases, inl, inr,
}
use harborsql.Results.Batches.{RecordBatches}
use harborsql.Results.{count_rows, page_batches}

module _ {ℓ} {A : Type ℓ} where
  take-append_min :
      (k n : ℕ) (xs ys : List A)
      → k ≡ min (length xs) n
      → take k xs ++ take (n - k) ys ≡ take n (xs ++ ys)
  take-append_min zero n [] ys h = ap (λ i. take i ys) (omega arith)
  take-append_min (suc k) n [] ys h = absurd (omega (arith, h))
  take-append_min zero zero (x ∷ xs) ys h = refl
  take-append_min (suc k) zero (x ∷ xs) ys h = absurd (omega (arith, h))
  take-append_min zero (suc n) (x ∷ xs) ys h = absurd (omega (arith, h))
  take-append_min (suc k) (suc n) (x ∷ xs) ys h =
      ap (λ zs. x ∷ zs)
        (ap (λ i. take k xs ++ take i ys) (omega arith)
          ∙ take-append_min k n xs ys (omega (arith, h)))

  drop-append_ge :
      (n : ℕ) (xs ys : List A) → length xs ≤ n → drop n (xs ++ ys) ≡ drop (n - length xs) ys
  drop-append_ge n [] ys h = ap (λ i. drop i ys) (omega arith)
  drop-append_ge zero (x ∷ xs) ys h = absurd (omega (arith, h))
  drop-append_ge (suc n) (x ∷ xs) ys h =
      drop-append_ge n xs ys (omega (arith, h)) ∙ ap (λ i. drop i ys) (omega arith)

  drop-append_le : (n : ℕ) (xs ys : List A) → n ≤ length xs → drop n (xs ++ ys) ≡ drop n xs ++ ys
  drop-append_le zero xs ys h = refl
  drop-append_le (suc n) [] ys h = absurd (omega (arith, h))
  drop-append_le (suc n) (x ∷ xs) ys h = drop-append_le n xs ys (omega (arith, h))

  pub take_all : (n : ℕ) (xs : List A) → length xs ≤ n → take n xs ≡ xs
  take_all zero [] h = refl
  take_all (suc n) [] h = refl
  take_all zero (x ∷ xs) h = absurd (omega (arith, h))
  take_all (suc n) (x ∷ xs) h = ap (λ zs. x ∷ zs) (take_all n xs (omega (arith, h)))

  pub take_two : (m n : ℕ) (xs : List A) → take m xs ++ take n (drop m xs) ≡ take (m + n) xs
  take_two zero n xs = ap (λ i. take i xs) (omega arith)
  take_two (suc m) n [] = take_all n [] (omega arith) ∙ sym (take_all (suc m + n) [] (omega arith))
  take_two (suc m) n (x ∷ xs) = rw (add.suc m n) (ap (λ zs. x ∷ zs) (take_two m n xs))

  pub take_enough : (k n : ℕ) (xs : List A) → k ≡ min (length xs) n → take k xs ≡ take n xs
  take_enough zero n [] h = sym (take_all n [] (omega arith))
  take_enough (suc k) n [] h = absurd (omega (arith, h))
  take_enough zero zero (x ∷ xs) h = refl
  take_enough (suc k) zero (x ∷ xs) h = absurd (omega (arith, h))
  take_enough zero (suc n) (x ∷ xs) h = absurd (omega (arith, h))
  take_enough (suc k) (suc n) (x ∷ xs) h = ap (λ zs. x ∷ zs) (take_enough k n xs (omega (arith, h)))

module _ (r : RecordBatches) where
  -- The rows of batches, one after another.
  unfoldable pub rows_of : List r.RecordBatch → List r.Row
  rows_of [] = []
  rows_of (b ∷ bs) = r.rows b ++ rows_of bs

  pub length-rows_of : (bs : List r.RecordBatch) → length (rows_of bs) ≡ count_rows r bs
  unfolding rows_of count_rows
  length-rows_of [] = refl
  length-rows_of (b ∷ bs) =
      omega (arith, length-append (r.rows b) (rows_of bs), r.length-rows b, length-rows_of bs)

  first_window :
      (b : r.RecordBatch) (bs : List r.RecordBatch) (skip t : ℕ)
      → skip ≤ r.num_rows b
      → let k = min (r.num_rows b - skip) t in
        rows_of (page_batches r bs 0 (t - k)) ≡ take (t - k) (rows_of bs)
        → r.rows (r.slice b skip k) ++ rows_of (page_batches r bs 0 (t - k))
          ≡ take t (drop skip (r.rows b) ++ rows_of bs)
  first_window b bs skip t h rest =
      ap₂ (λ xs ys. xs ++ ys) (r.rows-slice b skip (min (r.num_rows b - skip) t) (omega (arith, h)))
        rest
      ∙ take-append_min (min (r.num_rows b - skip) t) t (drop skip (r.rows b)) (rows_of bs)
          (omega (arith, r.length-rows b, length-drop skip (r.rows b)))

  pub rows_of-page_batches :
      (bs : List r.RecordBatch) (skip t : ℕ)
      → rows_of (page_batches r bs skip t) ≡ take t (drop skip (rows_of bs))
  unfolding rows_of page_batches
  rows_of-page_batches [] skip t = sym (ap (take t) (drop-nil skip) ∙ take_all t [] (omega arith))
  rows_of-page_batches (b ∷ bs) skip t = elim (Bool-cases (t == 0)) [
    | inl x ↦ rw (x, ==→eq t 0 x) refl
    | inr x ↦ elim (Bool-cases (leb (r.num_rows b) skip)) [
      | inl y ↦
          rw
            (
              x,
              y,
              drop-append_ge skip (r.rows b) (rows_of bs) (ground (arith, y, r.length-rows b)),
              r.length-rows b,
            )
            (rows_of-page_batches bs (skip - r.num_rows b) t)
      | inr y ↦
          rw
            (x, y, drop-append_le skip (r.rows b) (rows_of bs) (ground (arith, y, r.length-rows b)))
            (first_window b bs skip t (ground (arith, y))
              (rows_of-page_batches bs 0 (t - min (r.num_rows b - skip) t)))
    ]
  ]
