-- ===== src/Results/Nulls/Marks.antt =====
-- The bits of `null_bitset` of src/thrift/result_encoding.rs against the null values of the batches.
use harborsql.Base.{
  ℕ, zero, suc, ◌+◌, ◌-◌, ◌*◌, ◌/◌, ◌%◌, ◌≤◌, ◌<◌, ◌≡◌, refl, ap, ◌∙◌, Bool, true, false, ◌&&◌,
  ◌||◌, Option, some, List, [], ◌∷◌, Bytes, length, arith, leb, ltb, ◌==◌, if◌then◌else◌,
  Bool-cases, inl, inr, ==→eq,
}
use harborsql.Results.Nulls.{
  ColumnBatch, with_column, without_column, zeros, mark_null, and_then, mark_rows, mark_batches,
  null_bitset,
}
use harborsql.Results.Nulls.Bits.{bit_of, byte_of, bit, AreBytes, Sets, or_at-Sets}

-- The rows of the batches that have the column.
unfoldable pub marked_rows : List ColumnBatch → ℕ
marked_rows [] = 0
marked_rows (without_column ∷ bs) = marked_rows bs
marked_rows (with_column num_rows is_null ∷ bs) = num_rows + marked_rows bs

-- Whether row `i` of the batches, one after another, is null in the column.
unfoldable pub null_at : List ColumnBatch → ℕ → Bool
null_at [] i = false
null_at (without_column ∷ bs) i = null_at bs i
null_at (with_column num_rows is_null ∷ bs) i =
    if ltb i num_rows then is_null i else null_at bs (i - num_rows)

Sets-none :
    (set : ℕ → Bool) (nulls : Bytes)
    → AreBytes nulls
    → ((i : ℕ) → set i ≡ false)
    → Sets set nulls (some nulls)
Sets-none set nulls h f = record {
  left = nulls;
  is_left = refl;
  same_length = refl;
  bytes = h;
  bits = λ i. rw (f i) refl;
}

Sets-then :
    (one two both : ℕ → Bool) (nulls : Bytes) (m : Option Bytes) (f : Bytes → Option Bytes)
    → Sets one nulls m
    → ((left : Bytes) → length left ≡ length nulls → AreBytes left → Sets two left (f left))
    → ((i : ℕ) → (two i || one i) ≡ both i)
    → Sets both nulls (and_then m f)
Sets-then one two both nulls m f h g same =
    let next = g h.left h.same_length h.bytes in
    rw h.is_left (record {
      left = next.left;
      is_left = next.is_left;
      same_length = next.same_length ∙ h.same_length;
      bytes = next.bytes;
      bits = λ i.
          next.bits i
          ∙ ap (λ (b : ℕ). if two i then 1 else b) (h.bits i)
          ∙ joined (two i) (one i) (both i) (bit_of nulls i) (same i);
    })
  where
    joined :
        (t o b : Bool) (n : ℕ)
        → (t || o) ≡ b
        → (if t then 1 else (if o then 1 else n)) ≡ (if b then 1 else n)
    joined t o b n e = ground (arith, e)

Sets-mark_null :
    (v : Bool) (page_row : ℕ) (nulls : Bytes)
    → AreBytes nulls
    → page_row < 8 * length nulls
    → Sets (λ i. v && i == page_row) nulls (mark_null v page_row nulls)
unfolding mark_null
Sets-mark_null true page_row nulls h lt = or_at-Sets page_row nulls h lt
Sets-mark_null false page_row nulls h lt = Sets-none _ nulls h (λ i. refl)

-- The rows from `page_row` on that are null, of `n` rows.
abbrev rows_set : (ℕ → Bool) → ℕ → ℕ → ℕ → ℕ → Bool
rows_set is_null n row page_row i =
    leb page_row i && (ltb i (page_row + n) && is_null (row + (i - page_row)))

Sets-mark_rows :
    (is_null : ℕ → Bool) (n row page_row : ℕ) (nulls : Bytes)
    → AreBytes nulls
    → page_row + n ≤ 8 * length nulls
    → Sets (rows_set is_null n row page_row) nulls (mark_rows is_null n row page_row nulls)
unfolding mark_rows
Sets-mark_rows is_null zero row page_row nulls h le =
    Sets-none (rows_set is_null zero row page_row) nulls h (λ i. ground arith)
Sets-mark_rows is_null (suc n) row page_row nulls h le =
    Sets-then (λ i. is_null row && i == page_row) (rows_set is_null n (suc row) (suc page_row))
      (rows_set is_null (suc n) row page_row) nulls _ _
      (Sets-mark_null (is_null row) page_row nulls h (omega (arith, le)))
      (λ left same bytes.
        Sets-mark_rows is_null n (suc row) (suc page_row) left bytes (omega (arith, le, same)))
      (λ i. elim (Bool-cases (i == page_row)) [
        | inl x ↦ rw (==→eq i page_row x) (here n)
        | inr x ↦ rw x (there i x)
      ])
  where
    here :
        (n : ℕ)
        → (rows_set is_null n (suc row) (suc page_row) page_row
            || (is_null row && page_row == page_row))
          ≡ rows_set is_null (suc n) row page_row page_row
    here n = let e : row + (page_row - page_row) ≡ row = omega arith in rw e (ground arith)

    there :
        (i : ℕ)
        → (i == page_row) ≡ false
        → (rows_set is_null n (suc row) (suc page_row) i || (is_null row && false))
          ≡ rows_set is_null (suc n) row page_row i
    there i x = elim (Bool-cases (leb (suc page_row) i)) [
      | inl y ↦
          let e : suc row + (i - suc page_row) ≡ row + (i - page_row) = ground (arith, y) in
          rw e (ground (arith, y))
      | inr y ↦ ground (arith, x, y)
    ]

-- The nulls of batches whose first row is row `page_row`.
abbrev batches_set : List ColumnBatch → ℕ → ℕ → Bool
batches_set bs page_row i = leb page_row i && null_at bs (i - page_row)

Sets-mark_batches :
    (bs : List ColumnBatch) (page_row : ℕ) (nulls : Bytes)
    → AreBytes nulls
    → page_row + marked_rows bs ≤ 8 * length nulls
    → Sets (batches_set bs page_row) nulls (mark_batches bs page_row nulls)
unfolding mark_batches marked_rows null_at
Sets-mark_batches [] page_row nulls h le =
    Sets-none (batches_set [] page_row) nulls h (λ i. ground arith)
Sets-mark_batches (without_column ∷ bs) page_row nulls h le =
    Sets-mark_batches bs page_row nulls h le
Sets-mark_batches (with_column n is_null ∷ bs) page_row nulls h le =
    Sets-then (rows_set is_null n 0 page_row) (batches_set bs (page_row + n))
      (λ i.
        leb page_row i
        && (if ltb (i - page_row) n then is_null (i - page_row) else null_at bs (i - page_row - n)))
      nulls _ _ (Sets-mark_rows is_null n 0 page_row nulls h (omega (arith, le)))
      (λ left same bytes. Sets-mark_batches bs (page_row + n) left bytes (omega (arith, le, same)))
      (λ i.
        let e : 0 + (i - page_row) ≡ i - page_row = omega arith in
        let e' : i - (page_row + n) ≡ i - page_row - n = omega arith in rw (e, e') (ground arith))

AreBytes-zeros : (n : ℕ) → AreBytes (zeros n)
unfolding zeros
AreBytes-zeros zero = tt
AreBytes-zeros (suc n) = (omega arith, AreBytes-zeros n)

length-zeros : (n : ℕ) → length (zeros n) ≡ n
unfolding zeros
length-zeros zero = refl
length-zeros (suc n) = omega (arith, length-zeros n)

bit-zero : (k : ℕ) → bit 0 k ≡ 0
bit-zero k = omega arith

byte_of-zeros : (n m : ℕ) → byte_of (zeros n) m ≡ 0
unfolding zeros
byte_of-zeros zero m = refl
byte_of-zeros (suc n) zero = refl
byte_of-zeros (suc n) (suc m) = byte_of-zeros n m

-- The bitset of a column: `nulls` has one bit for each row, rounded up to bytes, and bit `i` tells whether
-- row `i` is null.
pub record IsBitset (batches : List ColumnBatch) (row_count : ℕ) (result : Option Bytes)
    : Type 0 where
  pub nulls : Bytes
  pub is_result : result ≡ some nulls
  pub size : length nulls ≡ (row_count + 7) / 8
  pub bits : (i : ℕ) → bit_of nulls i ≡ (if null_at batches i then 1 else 0)

-- When the batches that have the column have together no more rows than the page says, `null_bitset` does not
-- index out of bounds, and gives a bit for each row of the page, rounded up to bytes; bit `i` is set
-- exactly when row `i` of these batches is null, and the bits after the last row are clear.
pub null_bitset-IsBitset :
    (batches : List ColumnBatch) (row_count : ℕ)
    → marked_rows batches ≤ row_count
    → IsBitset batches row_count (null_bitset batches row_count)
unfolding null_bitset
null_bitset-IsBitset batches row_count le =
    let n = (row_count + 7) / 8 in
    let s =
      Sets-mark_batches batches 0 (zeros n) (AreBytes-zeros n)
        (omega (arith, le, length-zeros n)) in
    record {
      nulls = s.left;
      is_result = s.is_left;
      size = s.same_length ∙ length-zeros n;
      bits = λ i.
          s.bits i
          ∙ from_zero _ batches i
          ∙ ap (λ (b : ℕ). if null_at batches i then 1 else b)
              (ap (λ b. bit b (i % 8)) (byte_of-zeros n (i / 8)) ∙ bit-zero (i % 8));
    }
  where
    from_zero :
        (x : ℕ) (batches : List ColumnBatch) (i : ℕ)
        → (if batches_set batches 0 i then 1 else x) ≡ (if null_at batches i then 1 else x)
    from_zero x batches i = let e : i - 0 ≡ i = omega arith in rw e (ground arith)
