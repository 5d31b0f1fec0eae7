-- ===== src/Metadata/Execute/GetColumns/Ordered.antt =====
-- The rows of the columns of one table: `column_metadata_rows` and the order of `execute_get_columns` in
-- src/engine/metadata/mod.rs.
use mathlib.Core.List.Perm
use mathlib.Core.List.{Perm}
use harborsql.Base.{
  ℕ, suc, ◌+◌, ◌%◌, ◌^◌, ◌≡◌, refl, sym, ap, ◌∙◌, subst, Bool, true, false, leb, inl, inr,
  Bool-cases, List, [], ◌∷◌, map, Str, bytes_eq_iff, All, arith, if◌then◌else◌,
}
use harborsql.Base.Text.{bytes_eq}
use harborsql.Base.Sort.{insert, sort_by, IsSorted, IsTotal, sort_by-IsSorted, sort_by-Perm}
use harborsql.Base.Sort.Members.{All-sort_by, sort_by-sort_by}
use harborsql.Metadata.Infos.{ColumnInfo, TableInfo, unwrap_or}
use harborsql.Metadata.Columns.Rows.{
  ColumnMetadataRow, column_metadata_rows, column_row, column_le, enumerate, ordered_columns,
  filter, signed,
}
use harborsql.Metadata.Execute.GetColumns

-- An element goes before the others or behind the first of them, where either may be left out.
behind_first :
    {A : Type 0} (keep_x keep_y : Bool) (x y : A) (xs ys : List A)
    → Perm xs (if keep_x then x ∷ ys else ys)
    → Perm
        (if keep_y then y ∷ xs else xs)
        (if keep_x then x ∷ (if keep_y then y ∷ ys else ys) else (if keep_y then y ∷ ys else ys))
behind_first true true x y xs ys p = Perm.trans (Perm.cons y p) (Perm.swap x y ys)
behind_first true false x y xs ys p = p
behind_first false true x y xs ys p = Perm.cons y p
behind_first false false x y xs ys p = p

module _ {A : Type 0} (keep : A → Bool) (le : A → A → Bool) where
  filter-insert : (x : A) (xs : List A) → Perm (filter keep (insert le x xs)) (filter keep (x ∷ xs))
  unfolding insert filter
  filter-insert x [] = Perm.refl _
  filter-insert x (y ∷ ys) = elim (Bool-cases (le x y)) [
    | inl e ↦ rw e (Perm.refl (filter keep (x ∷ y ∷ ys)))
    | inr e ↦ rw e (behind_first (keep x) (keep y) x y _ (filter keep ys) (filter-insert x ys))
  ]

  cons_filter :
      (x : A) (xs ys : List A)
      → Perm (filter keep xs) (filter keep ys)
      → Perm (filter keep (x ∷ xs)) (filter keep (x ∷ ys))
  unfolding filter
  cons_filter x xs ys p = elim (Bool-cases (keep x)) [
    | inl e ↦ rw e (Perm.cons x p)
    | inr e ↦ rw e p
  ]

  filter-sort_by : (xs : List A) → Perm (filter keep (sort_by le xs)) (filter keep xs)
  unfolding sort_by
  filter-sort_by [] = Perm.refl _
  filter-sort_by (x ∷ xs) =
      Perm.trans (filter-insert x (sort_by le xs)) (cons_filter x _ xs (filter-sort_by xs))

-- The names of the entries that are kept.
filter-enumerate :
    (accepts : Str → Bool) (n : ℕ) (columns : List ColumnInfo)
    → map
        (λ (entry : ℕ × ColumnInfo). entry.1.name)
        (filter (λ (entry : ℕ × ColumnInfo). accepts entry.1.name) (enumerate n columns))
      ≡ filter accepts (map (λ (column : ColumnInfo). column.name) columns)
unfolding enumerate filter
filter-enumerate accepts n [] = refl
filter-enumerate accepts n (x ∷ xs) = elim (Bool-cases (accepts x.name)) [
  | inl e ↦ rw e (ap (λ names. x.name ∷ names) (filter-enumerate accepts (suc n) xs))
  | inr e ↦ rw e (filter-enumerate accepts (suc n) xs)
]

-- The order of the positions of columns, numbers of 32 bits with a sign.
abbrev pub by_position : ColumnMetadataRow → ColumnMetadataRow → Bool
by_position a b =
    leb ((a.ordinal_position + 2 ^ 31) % 2 ^ 32) ((b.ordinal_position + 2 ^ 31) % 2 ^ 32)

by_position-total : IsTotal by_position
by_position-total a b = elim (Bool-cases (by_position a b)) [
  | inl e ↦ inl e
  | inr e ↦ inr (ground (arith, e))
]

-- The row is one of the table, with the names that Unity Catalog has for it, or those that were asked for.
pub record IsRowOf (table : TableInfo) (catalog schema name : Str) (row : ColumnMetadataRow)
    : Type 0 where
  pub catalog_is : row.catalog ≡ unwrap_or catalog table.catalog_name
  pub schema_is : row.schema ≡ unwrap_or schema table.schema_name
  pub table_is : row.table ≡ unwrap_or name table.name

same_text :
    (a b x : Str) → a ≡ x → b ≡ x → bytes_eq (GetColumns.lower a) (GetColumns.lower b) ≡ true
same_text a b x e f =
    (bytes_eq_iff (GetColumns.lower a) (GetColumns.lower b)).1 (ap GetColumns.lower (e ∙ sym f))

module _ (table : TableInfo) (catalog schema name : Str) where
  one_table :
      (a b : ColumnMetadataRow)
      → IsRowOf table catalog schema name a
      → IsRowOf table catalog schema name b
      → GetColumns.column_row_le a b ≡ by_position a b
  unfolding GetColumns.column_row_le signed
  one_table a b p q =
      rw
        (
          same_text a.catalog b.catalog _ p.catalog_is q.catalog_is,
          same_text a.schema b.schema _ p.schema_is q.schema_is,
          same_text a.table b.table _ p.table_is q.table_is,
        )
        refl

  rows-IsRowOf :
      (entries : List (ℕ × ColumnInfo))
      → All (IsRowOf table catalog schema name) (map (column_row table catalog schema name) entries)
  unfolding column_row
  rows-IsRowOf [] = tt
  rows-IsRowOf (entry ∷ entries) =
      (record { catalog_is = refl; schema_is = refl; table_is = refl }, rows-IsRowOf entries)

  names_of_rows :
      (entries : List (ℕ × ColumnInfo))
      → map
          (λ (row : ColumnMetadataRow). row.column)
          (map (column_row table catalog schema name) entries)
        ≡ map (λ (entry : ℕ × ColumnInfo). entry.1.name) entries
  unfolding column_row
  names_of_rows [] = refl
  names_of_rows (entry ∷ entries) = ap (λ names. entry.1.name ∷ names) (names_of_rows entries)

  -- The rows of the columns of a table whose names are accepted: a row each, by position.
  pub record AreColumns (accepts : Str → Bool) (rows : List ColumnMetadataRow) : Type 0 where
    pub columns :
        Perm
          (map (λ (row : ColumnMetadataRow). row.column) rows)
          (filter accepts (map (λ (column : ColumnInfo). column.name) table.columns))
    pub in_order : IsSorted by_position rows
    pub of_table : All (IsRowOf table catalog schema name) rows

  pub sort_by-AreColumns :
      (accepts : Str → Bool)
      → AreColumns accepts (
          sort_by GetColumns.column_row_le (column_metadata_rows table catalog schema name accepts))
  unfolding column_metadata_rows ordered_columns
  sort_by-AreColumns accepts =
      let accepted : ℕ × ColumnInfo → Bool = λ entry. accepts entry.1.name in
      let entries = filter accepted (sort_by column_le (enumerate 0 table.columns)) in
      let rows = map (column_row table catalog schema name) entries in
      let name_of : ColumnMetadataRow → Str = λ row. row.column in
      let entry_name : ℕ × ColumnInfo → Str = λ entry. entry.1.name in
      let from = rows-IsRowOf entries in
      let same =
        sort_by-sort_by (IsRowOf table catalog schema name) GetColumns.column_row_le by_position
          one_table rows from in
      record {
        columns = Perm.trans (Perm.map name_of (sort_by-Perm GetColumns.column_row_le rows)) (
            subst
              (λ names.
                Perm names (filter accepts (map (λ (c : ColumnInfo). c.name) table.columns)))
              (sym (names_of_rows entries))
              (subst (Perm (map entry_name entries)) (filter-enumerate accepts 0 table.columns) (
                Perm.map entry_name
                  (filter-sort_by accepted column_le (enumerate 0 table.columns)))));
        in_order =
            subst (IsSorted by_position) (sym same)
              (sort_by-IsSorted by_position by_position-total rows);
        of_table =
            All-sort_by (IsRowOf table catalog schema name) GetColumns.column_row_le rows from;
      }
