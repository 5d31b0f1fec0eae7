-- ===== src/Metadata/Execute/Listing.antt =====
-- What the listings of src/engine/metadata/mod.rs hold, and their order.
use mathlib.Core.List.{Perm}
use harborsql.Base.{
  ◌≡◌, refl, ap, ◌∙◌, subst, Bool, false, not, ◌&&◌, Bool-cases, inl, inr, Option, none, some, List,
  [], ◌∷◌, map, Str, ascii, to_ascii_lowercase,
}
use harborsql.Base.Text.{bytes_eq}
use harborsql.Base.Chars.{text_le, text_le-total, to_ascii_uppercase}
use harborsql.Base.Sort.{sort_by, sort_by-Perm, sort_by-IsSorted, IsSorted, IsTotal}
use harborsql.Error.Outcome.{ok, bind_steps}
use harborsql.Metadata.Statements.{ObjectName}
use harborsql.Metadata.Regexes.{Regexes}
use harborsql.Metadata.Patterns.{show_pattern, matches}
use harborsql.Metadata.Infos.{TableInfo, table_name, is_table_like, is_view_like}
use harborsql.Metadata.Names.{ResolvedSchema, resolve_schema}
use harborsql.Metadata.Columns.Rows.{filter}
use harborsql.Metadata.Results.{TableRow}
use harborsql.Metadata.Execute

name_le-total : IsTotal Execute.name_le
unfolding Execute.name_le
name_le-total a b = text_le-total (map to_ascii_lowercase a) (map to_ascii_lowercase b)

row_le-total : IsTotal Execute.row_le
unfolding Execute.row_le
row_le-total a b = name_le-total a.name b.name

-- The names that SHOW CATALOGS and SHOW SCHEMAS give are those that the pattern accepts, each as often as it
-- was listed, in the order of their lower case.
pub filtered_sorted_names-IsSorted :
    (r : Regexes) (names listed : List Str) (pattern : Option Str)
    → Execute.filtered_sorted_names r names pattern ≡ ok listed
    → (p : Option r.Regex) × (show_pattern r pattern ≡ ok p)
      × IsSorted Execute.name_le listed
      × Perm listed (filter (matches r p) names)
unfolding Execute.filtered_sorted_names
filtered_sorted_names-IsSorted r names listed pattern h =
    let (p, e, s) = bind_steps (show_pattern r pattern) _ listed h in
    let same : sort_by Execute.name_le (filter (matches r p) names) ≡ listed = cc in
    (
      p,
      e,
      subst (IsSorted Execute.name_le) same (sort_by-IsSorted Execute.name_le name_le-total _),
      subst (λ l. Perm l (filter (matches r p) names)) same (sort_by-Perm Execute.name_le _),
    )

-- The catalog and the schema that the name in a statement stands for.
pub data IsNamespace (default_catalog default_schema : Str)
    : Option ObjectName → Str → Str → Type 0 where
  by_default : IsNamespace default_catalog default_schema none default_catalog default_schema
  schema_of_default :
      {schema : Str}
      → IsNamespace default_catalog default_schema (some (schema ∷ [])) default_catalog schema
  both_named :
      {catalog schema : Str}
      → IsNamespace default_catalog default_schema (some (catalog ∷ schema ∷ [])) catalog schema

resolve_schema-IsNamespace :
    (name : Option ObjectName) (dc ds : Str) (x : ResolvedSchema)
    → resolve_schema name dc ds ≡ ok x
    → IsNamespace dc ds name x.catalog x.schema
unfolding resolve_schema
resolve_schema-IsNamespace none dc ds x h =
    let e : record { catalog = dc; schema = ds } ≡ x = cc in
    subst (λ (x : ResolvedSchema). IsNamespace dc ds none x.catalog x.schema) e by_default
resolve_schema-IsNamespace (some []) dc ds x h = absurd cc
resolve_schema-IsNamespace (some (schema ∷ [])) dc ds x h =
    let e : record { catalog = dc; schema = schema } ≡ x = cc in
    subst (λ (x : ResolvedSchema). IsNamespace dc ds (some (schema ∷ [])) x.catalog x.schema) e
      schema_of_default
resolve_schema-IsNamespace (some (catalog ∷ schema ∷ [])) dc ds x h =
    let e : record { catalog = catalog; schema = schema } ≡ x = cc in
    subst
      (λ (x : ResolvedSchema). IsNamespace dc ds (some (catalog ∷ schema ∷ [])) x.catalog x.schema)
      e both_named
resolve_schema-IsNamespace (some (a ∷ b ∷ c ∷ name)) dc ds x h = absurd cc

-- The row of a table, in a schema.
abbrev pub row_of : Str → TableInfo → TableRow
row_of schema info = record { schema = schema; name = table_name info }

-- The order of the names in lower case.
abbrev pub by_name : TableRow → TableRow → Bool
by_name a b = text_le (map to_ascii_lowercase a.name) (map to_ascii_lowercase b.name)

-- Unity Catalog calls it a view, in either case of the letters.
pub is_view : TableInfo → Bool
is_view info = elim info.table_type [
  | none ↦ false
  | some type ↦ bytes_eq (map to_ascii_uppercase type) (ascii "VIEW")
]

matching_rows-map :
    (accepts : Str → Bool) (schema : Str) (keep : TableInfo → Bool) (infos : List TableInfo)
    → Execute.matching_rows accepts schema (filter keep infos)
      ≡ map (row_of schema) (filter (λ info. keep info && accepts (table_name info)) infos)
unfolding Execute.matching_rows filter
matching_rows-map accepts schema keep [] = refl
matching_rows-map accepts schema keep (x ∷ xs) =
    let rest = matching_rows-map accepts schema keep xs in
    elim (Bool-cases (keep x)) [
      | inr e ↦ rw e rest
      | inl e ↦ elim (Bool-cases (accepts (table_name x))) [
        | inl f ↦ rw (e, f) (ap (λ rows. row_of schema x ∷ rows) rest)
        | inr f ↦ rw (e, f) rest
      ]
    ]

module _ (r : Regexes) (source : Execute.MetadataSource) (token : Str) where
  -- The rows of a listing: those of the tables that Unity Catalog lists for the schema, that are to be kept and
  -- that the pattern accepts, each as often as it is listed, in order.
  pub record IsListing (name : Option ObjectName) (pattern : Option Str)
      (default_catalog default_schema : Str) (keep : TableInfo → Bool) (rows : List TableRow)
      : Type 0 where
    pub catalog : Str
    pub schema : Str
    pub accepted_by : Option r.Regex
    pub infos : List TableInfo
    pub namespace : IsNamespace default_catalog default_schema name catalog schema
    pub pattern_read : show_pattern r pattern ≡ ok accepted_by
    pub listed : source.list_tables token catalog schema ≡ ok infos
    pub in_order : IsSorted by_name rows
    pub rows_are : Perm rows (
        map
          (row_of schema)
          (filter (λ info. keep info && matches r accepted_by (table_name info)) infos))

  kept_rows-IsListing :
      (keep : TableInfo → Bool) (name : Option ObjectName) (pattern : Option Str) (dc ds : Str)
      (rows : List TableRow)
      → Execute.listed_rows r source token keep name pattern dc ds ≡ ok rows
      → IsListing name pattern dc ds keep rows
  unfolding Execute.listed_rows Execute.listed_tables Execute.sort_table_rows Execute.row_le
      Execute.name_le
  kept_rows-IsListing keep name pattern dc ds rows h =
      let (l, listed, end) =
        bind_steps (Execute.listed_tables r source token name pattern dc ds) _ rows h in
      let (x, resolved, more) = bind_steps (resolve_schema name dc ds) _ l listed in
      let (p, read, last) = bind_steps (show_pattern r pattern) _ l more in
      let (infos, given, made) =
        bind_steps (source.list_tables token x.catalog x.schema) _ l last in
      let same : (x, p, infos) ≡ l = cc in
      let all = Execute.matching_rows (matches r p) x.schema (filter keep infos) in
      let sorted : sort_by Execute.row_le all ≡ rows =
        ap
          (λ (l : ResolvedSchema × Option r.Regex × List TableInfo).
            sort_by Execute.row_le
              (Execute.matching_rows (matches r l.1) l.0.schema (filter keep l.2)))
          same
        ∙ (let e : sort_by Execute.row_le
                  (Execute.matching_rows (matches r l.1) l.0.schema (filter keep l.2))
                ≡ rows =
              cc in
            e) in
      record {
        catalog = x.catalog;
        schema = x.schema;
        accepted_by = p;
        infos = infos;
        namespace = resolve_schema-IsNamespace name dc ds x resolved;
        pattern_read = read;
        listed = given;
        in_order =
            subst (IsSorted Execute.row_le) sorted
              (sort_by-IsSorted Execute.row_le row_le-total all);
        rows_are =
            subst (Perm rows) (matching_rows-map (matches r p) x.schema keep infos)
              (subst (λ xs. Perm xs all) sorted (sort_by-Perm Execute.row_le all));
      }

  -- When both give rows, SHOW TABLES lists the tables that are no views and SHOW VIEWS the views, of the schema that the name and the
  -- defaults give: those of the tables that Unity Catalog lists for it whose names the pattern accepts,
  -- each as often as it is listed and with that schema, in the order of the names in lower case.
  pub listed_rows-IsListing :
      (name : Option ObjectName) (pattern : Option Str) (dc ds : Str) (tables views : List TableRow)
      → Execute.listed_rows r source token is_table_like name pattern dc ds ≡ ok tables
      → Execute.listed_rows r source token is_view_like name pattern dc ds ≡ ok views
      → IsListing name pattern dc ds (λ info. not (is_view info)) tables
        × IsListing name pattern dc ds is_view views
  unfolding is_table_like is_view_like is_view
  listed_rows-IsListing name pattern dc ds tables views t v = (
    kept_rows-IsListing is_table_like name pattern dc ds tables t,
    kept_rows-IsListing is_view_like name pattern dc ds views v,
  )
