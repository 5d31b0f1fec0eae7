-- ===== src/Thrift/ResultSets/Rows/Written.antt =====
-- The row set of a page as a struct of the protocol: `write_row_set_with_encoders` of
-- src/thrift/result_encoding.rs.
use harborsql.Base.{
  ℕ, zero, suc, ◌+◌, ◌%◌, ◌^◌, ◌≤◌, ◌<◌, ◌≡◌, refl, sym, ap, subst, true, Option, none, some, List,
  [], ◌∷◌, Bytes, length, All, arith,
}
use harborsql.Error.Outcome.{Result, ok, err, Returns, Returns-bind}
use harborsql.Thrift.Protocol.{t_struct, t_list, t_string, t_i64, t_i32, valid_field_type}
use harborsql.Thrift.Codec.Skip.{max_skip_depth, max_container_elements}
use harborsql.Thrift.Codec.Writer.{Write, ◌⨾◌, write_stop}
use harborsql.Thrift.Responses.Trees.{
  IsValue, IsStruct, AreStructs, IsText, IsStruct-stop, IsStruct-field, IsValue-i32, IsValue-i64,
  IsValue-bytes, IsValue-struct, IsValue-list, AreStructs-nil, AreStructs-cons,
}
use harborsql.Results.{QueryResultPage, count_rows}
use harborsql.Results.Batches.{RecordBatches}
use harborsql.Results.Nulls.{ColumnBatch}
use harborsql.Results.Nulls.Marks.{marked_rows, null_bitset-IsBitset}
use harborsql.Thrift.ResultSets.Encoders.{
  PhysicalType, bool, i32, i64, f64, string, binary_values, ColumnEncoder,
}
use harborsql.Thrift.ResultSets.Encoders.WellFormed.{AreNames}
use harborsql.Thrift.ResultSets.Values.{Formats}
use harborsql.Thrift.ResultSets.Rows
use harborsql.Thrift.ResultSets.Rows.{ArrayRef, get_column}
use harborsql.Thrift.ResultSets.Rows.Items.{
  AreItems, AreItems-nil, AreItems-append, IsValue-items, IsShort, write_slots-AreItems,
}

abbrev OnSome : {A : Type 0} → (A → Type 0) → Option A → Type 0
OnSome P none = Unit
OnSome P (some a) = P a

get_column-All :
    (P : ArrayRef → Type 0) (index : ℕ) (arrays : List ArrayRef)
    → All P arrays
    → OnSome P (get_column index arrays)
unfolding get_column
get_column-All P index [] h = tt
get_column-All P zero (array ∷ arrays) h = h.0
get_column-All P (suc index) (array ∷ arrays) h = get_column-All P index arrays h.1

valid-value_type : (p : PhysicalType) → valid_field_type (Rows.value_type p) ≡ true
unfolding valid_field_type Rows.value_type
valid-value_type bool = refl
valid-value_type i32 = refl
valid-value_type i64 = refl
valid-value_type f64 = refl
valid-value_type string = refl
valid-value_type binary_values = refl

column_field-lt : (p : PhysicalType) → Rows.column_field p < 2 ^ 16
unfolding Rows.column_field
column_field-lt bool = omega arith
column_field-lt i32 = omega arith
column_field-lt i64 = omega arith
column_field-lt f64 = omega arith
column_field-lt string = omega arith
column_field-lt binary_values = omega arith

-- No panic, and if there is no error what is written satisfies the predicate.
unfoldable pub IsWritten : (Write → Type 0) → Option (Result Write) → Type 0
IsWritten P o = (m : Result Write) × (o ≡ some m) × Returns P m

module _ (f : Formats) (r : RecordBatches) (columns : r.RecordBatch → List ArrayRef) where
  -- Every array has a slot for each row of its batch, and its values are not too long.
  unfoldable pub IsFilled : r.RecordBatch → Type 0
  IsFilled b =
      All
        (λ (array : ArrayRef).
          (length array.slots ≡ r.num_rows b) × All (IsShort f array.data_type) array.slots)
        (columns b)

  write_array-AreItems :
      (d : ℕ) (p : PhysicalType) (n : ℕ) (array : Option ArrayRef)
      → d ≤ max_skip_depth
      → OnSome
          (λ (array : ArrayRef).
            (length array.slots ≡ n) × All (IsShort f array.data_type) array.slots)
          array
      → Returns (AreItems d (Rows.value_type p) n) (Rows.write_array f p array)
  unfolding Rows.write_array
  write_array-AreItems d p n none h s = tt
  write_array-AreItems d p n (some array) h s =
      subst (λ n. Returns (AreItems d (Rows.value_type p) n) (Rows.write_array f p (some array)))
        s.0 (write_slots-AreItems f d h p array.data_type array.slots s.1)

  write_batches-AreItems :
      (d : ℕ) (p : PhysicalType) (index : ℕ) (bs : List r.RecordBatch)
      → d ≤ max_skip_depth
      → All IsFilled bs
      → Returns
          (AreItems d (Rows.value_type p) (count_rows r bs))
          (Rows.write_batches f r columns p index bs)
  unfolding Rows.write_batches count_rows IsFilled
  write_batches-AreItems d p index [] h s = AreItems-nil d _
  write_batches-AreItems d p index (b ∷ bs) h s =
      Returns-bind (AreItems d (Rows.value_type p) (r.num_rows b)) _ _ _
        (write_array-AreItems d p (r.num_rows b) _ h (get_column-All _ index (columns b) s.0))
        (λ w a.
          Returns-bind (AreItems d (Rows.value_type p) (count_rows r bs)) _ _ _
            (write_batches-AreItems d p index bs h s.1)
            (λ ws more. AreItems-append d _ _ _ w ws a more))

  marked_rows-column_batch :
      (n m : ℕ) (array : Option ArrayRef) (bs : List ColumnBatch)
      → marked_rows bs ≤ m
      → marked_rows (Rows.column_batch f r columns n array ∷ bs) ≤ n + m
  unfolding Rows.column_batch marked_rows
  marked_rows-column_batch n m none bs h = omega (arith, h)
  marked_rows-column_batch n m (some array) bs h = omega (arith, h)

  marked_rows-le :
      (index : ℕ) (bs : List r.RecordBatch)
      → marked_rows (Rows.column_batches f r columns index bs) ≤ count_rows r bs
  unfolding Rows.column_batches count_rows marked_rows
  marked_rows-le index [] = omega arith
  marked_rows-le index (b ∷ bs) =
      marked_rows-column_batch (r.num_rows b) (count_rows r bs) (get_column index (columns b)) _
        (marked_rows-le index bs)

  -- A page that counts its rows, no more of them than a list may have.
  unfoldable pub IsPage : QueryResultPage r → Type 0
  IsPage page =
      (count_rows r page.batches ≡ page.row_count)
      × (page.row_count ≤ max_container_elements)
      × (page.start_row_offset < 2 ^ 64)
      × All IsFilled page.batches

  column_of-IsValue :
      (d : ℕ) (e : ColumnEncoder) (index : ℕ) (page : QueryResultPage r) (nulls : Bytes)
      → d + 8 ≤ max_skip_depth
      → IsPage page
      → IsText nulls
      → Returns (IsValue d t_struct) (Rows.column_of f r columns e index page nulls)
  unfolding Rows.column_of Rows.write_column_values IsPage
  column_of-IsValue d e index page nulls h p t =
      let type = e.physical_type in
      Returns-bind (IsStruct (d + 1 + 1 + 1 + 1)) _ _ _
        (Returns-bind (AreItems (d + 1 + 1 + 1 + 1 + 1) (Rows.value_type type) page.row_count) _ _ _
          (subst
            (λ n.
              Returns (AreItems (d + 1 + 1 + 1 + 1 + 1) (Rows.value_type type) n)
                (Rows.write_batches f r columns type index page.batches))
            p.0 (write_batches-AreItems _ type index page.batches (omega (arith, h)) p.3))
          (λ values a.
            IsStruct-field _ t_list 1 _ _ (omega arith)
              (IsValue-items _ (Rows.value_type type) page.row_count values (omega (arith, h))
                (valid-value_type type) p.1 a)
              (IsStruct-field _ t_string 2 _ write_stop (omega arith)
                (IsValue-bytes _ (omega (arith, h)) nulls t) (IsStruct-stop _))))
        (λ w s. IsValue-struct d _ (omega (arith, h)) (
          IsStruct-field (d + 1 + 1) t_struct _ w write_stop (column_field-lt type)
            (IsValue-struct _ w (omega (arith, h)) s) (IsStruct-stop _)))

  write_column-IsWritten :
      (d : ℕ) (e : ColumnEncoder) (index : ℕ) (page : QueryResultPage r)
      → d + 8 ≤ max_skip_depth
      → IsPage page
      → IsWritten (IsValue d t_struct) (Rows.write_column f r columns e index page)
  unfolding Rows.write_column Rows.with_bitset IsWritten IsPage
  write_column-IsWritten d e index page h p =
      let b =
        null_bitset-IsBitset (Rows.column_batches f r columns index page.batches) page.row_count
          (omega (arith, marked_rows-le index page.batches, p.0)) in
      (
        Rows.column_of f r columns e index page b.nulls,
        ap (Rows.with_bitset f r columns e index page) b.is_result,
        column_of-IsValue d e index page b.nulls h p (omega (arith, b.size, p.1)),
      )

  and_columns-IsWritten :
      (d n : ℕ) (first others : Option (Result Write))
      → IsWritten (IsValue d t_struct) first
      → IsWritten (AreStructs d n) others
      → IsWritten (AreStructs d (suc n)) (Rows.and_columns f r columns first others)
  unfolding IsWritten Rows.and_columns
  and_columns-IsWritten d n first others (ok w, e, v) (ok ws, e', s) =
      (ok (w ⨾ ws), rw (e, e') refl, AreStructs-cons d n w ws v s)
  and_columns-IsWritten d n first others (ok w, e, v) (err x, e', s) = (err x, rw (e, e') refl, tt)
  and_columns-IsWritten d n first others (err x, e, v) (m, e', s) = (err x, rw e refl, tt)

  write_columns-IsWritten :
      (d : ℕ) (es : List ColumnEncoder) (index : ℕ) (page : QueryResultPage r)
      → d + 8 ≤ max_skip_depth
      → IsPage page
      → IsWritten (AreStructs d (length es)) (Rows.write_columns f r columns es index page)
  unfolding Rows.write_columns IsWritten
  write_columns-IsWritten d [] index page h p = (ok (λ w. w), refl, AreStructs-nil d)
  write_columns-IsWritten d (e ∷ es) index page h p =
      and_columns-IsWritten d (length es) _ _ (write_column-IsWritten d e index page h p)
        (write_columns-IsWritten d es (suc index) page h p)

  row_set-IsStruct :
      (d : ℕ) (names : List Bytes) (page : QueryResultPage r) (ws : Write)
      → d + 2 ≤ max_skip_depth
      → IsPage page
      → AreNames names
      → AreStructs (d + 1) (length names) ws
      → IsStruct d (Rows.row_set f r columns names page ws)
  unfolding Rows.row_set IsPage AreNames ◌⨾◌
  row_set-IsStruct d names page ws h p n s =
      IsStruct-field d t_i64 1 _ _ (omega arith)
        (IsValue-i64 d (omega (arith, h)) page.start_row_offset p.2)
        (IsStruct-field d t_list 2 _ _ (omega arith)
          (IsValue-list d 0 (λ w. w) (omega (arith, h)) (omega arith) (AreStructs-nil (d + 1)))
          (IsStruct-field d t_list 3 _ _ (omega arith)
            (IsValue-list d (length names) ws (omega (arith, h)) n.1 s)
            (IsStruct-field d t_i32 5 _ _ (omega arith)
              (IsValue-i32 d (omega (arith, h)) (length names % 2 ^ 32) (omega arith))
              (IsStruct-stop d))))

  around-IsWritten :
      (d : ℕ) (names : List Bytes) (page : QueryResultPage r) (o : Option (Result Write))
      → d + 2 ≤ max_skip_depth
      → IsPage page
      → AreNames names
      → IsWritten (AreStructs (d + 1) (length names)) o
      → IsWritten (IsStruct d) (Rows.around f r columns names page o)
  unfolding IsWritten Rows.around
  around-IsWritten d names page o h p n (ok ws, e, s) = (
    ok (Rows.row_set f r columns names page ws),
    rw e refl,
    row_set-IsStruct d names page ws h p n s,
  )
  around-IsWritten d names page o h p n (err x, e, s) = (err x, rw e refl, tt)

  pub write_row_set-IsWritten :
      (d : ℕ) (names : List Bytes) (page : QueryResultPage r) (es : List ColumnEncoder)
      → d + 9 ≤ max_skip_depth
      → IsPage page
      → AreNames names
      → length names ≡ length es
      → IsWritten (IsStruct d) (Rows.write_row_set_with_encoders f r columns names page es)
  unfolding Rows.write_row_set_with_encoders
  write_row_set-IsWritten d names page es h p n same =
      around-IsWritten d names page _ (omega (arith, h)) p n (
        subst (λ k. IsWritten (AreStructs (d + 1) k) (Rows.write_columns f r columns es 0 page))
          (sym same) (write_columns-IsWritten (d + 1) es 0 page (omega (arith, h)) p))
