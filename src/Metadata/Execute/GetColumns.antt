-- ===== src/Metadata/Execute/GetColumns.antt =====
-- The columns that a driver asks for: `execute_get_columns` of src/engine/metadata/mod.rs.
pub mod Ordered
pub mod Exact
use harborsql.Base.{
  ℕ, ◌||◌, ◌&&◌, ◌==◌, leb, Bool, true, false, Option, none, some, List, [], ◌∷◌, ◌++◌, map, Str,
  to_ascii_lowercase, if◌then◌else◌,
}
use harborsql.Base.Text.{bytes_eq}
use harborsql.Base.Chars.{text_le}
use harborsql.Base.Sort.{sort_by}
use harborsql.Error.Outcome.{Result, ok, err, ◌>>=◌}
use harborsql.Metadata.Regexes.{Regexes}
use harborsql.Metadata.Patterns.{
  metadata_pattern, matches, contains_metadata_wildcard, strip_metadata_escapes,
}
use harborsql.Metadata.Infos.{CatalogInfo, SchemaInfo, TableInfo, schema_name, table_name, nonempty}
use harborsql.Metadata.Names.{
  GetColumnsRequest, normalize_get_columns_request, ResolvedTable, table_full_identifier,
}
use harborsql.Metadata.Columns.Rows.{ColumnMetadataRow, column_metadata_rows, filter, signed}
use harborsql.Metadata.Results.{QueryResult, TableRow, column_metadata_result}
use harborsql.Metadata.Execute.{MetadataSource, name_le, sort_table_rows, matching_rows}

abbrev pub lower : Str → Str
lower = map to_ascii_lowercase

-- The order of the keys of rows: catalog, schema and table in lower case, then the position.
unfoldable pub column_row_le : ColumnMetadataRow → ColumnMetadataRow → Bool
column_row_le a b =
    if bytes_eq (lower a.catalog) (lower b.catalog)
    then (if bytes_eq (lower a.schema) (lower b.schema)
        then (if bytes_eq (lower a.table) (lower b.table)
            then leb (signed a.ordinal_position) (signed b.ordinal_position)
            else name_le a.table b.table)
        else name_le a.schema b.schema)
    else name_le a.catalog b.catalog

-- A loop that collects the rows of each element, and ends at the first error.
unfoldable pub extend_all {ℓ κ} :
    {A : Type ℓ} {B : Type κ} → (A → Result (List B)) → List A → Result (List B)
extend_all rows [] = ok []
extend_all rows (a ∷ rest) = do first ← rows a; more ← extend_all rows rest; ok (first ++ more)

module _ (r : Regexes) (source : MetadataSource) (token : Str) where
  -- `resolve_catalog_candidates`, of a catalog that is not empty.
  unfoldable pub catalog_candidates : Option Str → Str → Result (List Str)
  catalog_candidates none default_catalog = ok (default_catalog ∷ [])
  catalog_candidates (some catalog) default_catalog =
      if contains_metadata_wildcard catalog
      then (do
        p ← metadata_pattern r (some catalog)
        infos ← source.list_catalogs token
        ok (sort_by name_le (filter (matches r p) (map (λ (c : CatalogInfo). c.name) infos))))
      else ok (strip_metadata_escapes catalog ∷ [])

  unfoldable pub resolve_catalog_candidates : Option Str → Str → Result (List Str)
  resolve_catalog_candidates catalog default_catalog =
      catalog_candidates (nonempty catalog) default_catalog

  unfoldable pub list_schema_candidates : Str → Option Str → Result (List Str)
  list_schema_candidates catalog pattern = do
    p ← metadata_pattern r pattern
    infos ← source.list_schemas token catalog
    ok (sort_by name_le (filter (matches r p) (map schema_name infos)))

  unfoldable pub resolve_schema_candidates : Str → Option Str → Result (List Str)
  resolve_schema_candidates catalog none = list_schema_candidates catalog none
  resolve_schema_candidates catalog (some []) = ok []
  resolve_schema_candidates catalog (some (c ∷ t)) =
      if contains_metadata_wildcard (c ∷ t)
      then list_schema_candidates catalog (some (c ∷ t))
      else ok (strip_metadata_escapes (c ∷ t) ∷ [])

  unfoldable pub list_matching_tables : Str → Str → Option Str → Result (List TableRow)
  list_matching_tables catalog schema pattern = do
    p ← metadata_pattern r pattern
    infos ← source.list_tables token catalog schema
    ok (sort_table_rows (matching_rows (matches r p) schema infos))

  -- `resolve_table_candidates`, of a table that is not empty.
  unfoldable pub table_candidates : Str → Str → Option Str → Result (List TableRow)
  table_candidates catalog schema none = list_matching_tables catalog schema none
  table_candidates catalog schema (some table) =
      if contains_metadata_wildcard table
      then list_matching_tables catalog schema (some table)
      else ok (record { schema = schema; name = strip_metadata_escapes table } ∷ [])

  unfoldable pub resolve_table_candidates : Str → Str → Option Str → Result (List TableRow)
  resolve_table_candidates catalog schema table = table_candidates catalog schema (nonempty table)

  -- The three loops of `execute_get_columns`, the innermost first.
  unfoldable pub rows_of_table :
      (Str → Bool) → Str → Str → TableRow → Result (List ColumnMetadataRow)
  rows_of_table accepts catalog schema table = do
    detailed ←
        source.table token (
          table_full_identifier (record { catalog = catalog; schema = schema; table = table.name }))
    ok (column_metadata_rows detailed catalog schema table.name accepts)

  unfoldable pub rows_of_schema :
      (Str → Bool) → Option Str → Str → Str → Result (List ColumnMetadataRow)
  rows_of_schema accepts table catalog schema = do
    tables ← resolve_table_candidates catalog schema table
    extend_all (rows_of_table accepts catalog schema) tables

  unfoldable pub rows_of_catalog :
      (Str → Bool) → Option Str → Option Str → Str → Result (List ColumnMetadataRow)
  rows_of_catalog accepts schema table catalog = do
    schemas ← resolve_schema_candidates catalog schema
    extend_all (rows_of_schema accepts table catalog) schemas

  unfoldable pub rows_of_request : GetColumnsRequest → Str → Result (List ColumnMetadataRow)
  rows_of_request request default_catalog = do
    catalogs ← resolve_catalog_candidates request.catalog default_catalog
    p ← metadata_pattern r request.column
    rows ← extend_all (rows_of_catalog (matches r p) request.schema request.table) catalogs
    ok (sort_by column_row_le rows)

  unfoldable pub execute_get_columns : GetColumnsRequest → Str → Result QueryResult
  execute_get_columns request default_catalog = do
    rows ← rows_of_request (normalize_get_columns_request request) default_catalog
    ok (column_metadata_result rows)
