-- ===== src/Metadata/Execute.antt =====
-- Statements run against Unity Catalog: `execute_show_statement` and `execute_metadata_statement` of
-- src/engine/metadata/mod.rs. `MetadataSource` answers with the state of the catalog at that time.
pub mod Listing
pub mod GetColumns
use harborsql.Base.{
  ℕ, ◌||◌, ◌&&◌, Bool, true, false, ◌⊎◌, Option, none, some, List, [], ◌∷◌, map, Str, ascii,
  to_ascii_lowercase, if◌then◌else◌,
}
use harborsql.Base.Chars.{text_le}
use harborsql.Base.Sort.{sort_by}
use harborsql.Error.{unsupported_sql}
use harborsql.Error.Outcome.{Result, ok, err, ◌>>=◌, fail}
use harborsql.Metadata.Statements.{
  Token, ObjectName, MetadataStatement, catalogs, schemas, tables, views, columns, table_extended,
}
use harborsql.Metadata.Parser.{parse_show_statement}
use harborsql.Metadata.Regexes.{Regexes}
use harborsql.Metadata.Patterns.{show_pattern, matches}
use harborsql.Metadata.Infos.{
  CatalogInfo, SchemaInfo, TableInfo, schema_name, table_name, is_table_like, is_view_like,
  table_information,
}
use harborsql.Metadata.Names.{
  ResolvedSchema, resolve_catalog, resolve_schema, resolve_table, table_full_identifier,
  table_full_name,
}
use harborsql.Metadata.Columns.Rows.{table_column_names, filter}
use harborsql.Metadata.Results.{
  QueryResult, TableRow, TableExtendedRow, catalogs_result, schemas_result, tables_result,
  views_result, columns_result, table_extended_result,
}

pub record MetadataSource : Type 0 where
  pub list_catalogs : Str → Result (List CatalogInfo)
  pub list_schemas : Str → Str → Result (List SchemaInfo)
  pub list_tables : Str → Str → Str → Result (List TableInfo)
  pub table : Str → Str → Result TableInfo

-- The order of names without case.
unfoldable pub name_le : Str → Str → Bool
name_le a b = text_le (map to_ascii_lowercase a) (map to_ascii_lowercase b)

unfoldable pub row_le : TableRow → TableRow → Bool
row_le a b = name_le a.name b.name

unfoldable pub sort_table_rows : List TableRow → List TableRow
sort_table_rows = sort_by row_le

unfoldable pub extended_le : TableExtendedRow → TableExtendedRow → Bool
extended_le a b = name_le a.name b.name

-- `filter_map`: a row for each table whose name is accepted.
unfoldable pub matching_rows : (Str → Bool) → Str → List TableInfo → List TableRow
matching_rows accepts schema [] = []
matching_rows accepts schema (table ∷ rest) =
    let rows = matching_rows accepts schema rest in
    if accepts (table_name table)
    then record { schema = schema; name = table_name table } ∷ rows
    else rows

module _ (r : Regexes) where
  unfoldable pub filtered_sorted_names : List Str → Option Str → Result (List Str)
  filtered_sorted_names names pattern = do
    p ← show_pattern r pattern
    ok (sort_by name_le (filter (matches r p) names))

  module _ (source : MetadataSource) (token : Str) where
    unfoldable pub show_catalogs : Option Str → Result QueryResult
    show_catalogs pattern = do
      infos ← source.list_catalogs token
      names ← filtered_sorted_names (map (λ (c : CatalogInfo). c.name) infos) pattern
      ok (catalogs_result names)

    unfoldable pub show_schemas : Option ObjectName → Option Str → Str → Result QueryResult
    show_schemas name pattern default_catalog = do
      catalog ← resolve_catalog name default_catalog
      infos ← source.list_schemas token catalog
      names ← filtered_sorted_names (map schema_name infos) pattern
      ok (schemas_result names)

    -- The schema, the pattern and the tables that SHOW TABLES and SHOW VIEWS read.
    unfoldable pub listed_tables :
        Option ObjectName
        → Option Str
        → Str
        → Str
        → Result (ResolvedSchema × Option r.Regex × List TableInfo)
    listed_tables name pattern default_catalog default_schema = do
      schema ← resolve_schema name default_catalog default_schema
      p ← show_pattern r pattern
      infos ← source.list_tables token schema.catalog schema.schema
      ok (schema, p, infos)

    -- The rows of both, which `keep` tells apart.
    unfoldable pub listed_rows :
        (TableInfo → Bool) → Option ObjectName → Option Str → Str → Str → Result (List TableRow)
    listed_rows keep name pattern default_catalog default_schema = do
      l ← listed_tables name pattern default_catalog default_schema
      ok (sort_table_rows (matching_rows (matches r l.1) l.0.schema (filter keep l.2)))

    unfoldable pub show_columns : ObjectName → Option ObjectName → Str → Str → Result QueryResult
    show_columns table schema default_catalog default_schema = do
      resolved ← resolve_table table schema default_catalog default_schema
      detailed ← source.table token (table_full_identifier resolved)
      ok (columns_result (table_column_names detailed))

    -- The loop over the tables of SHOW TABLE EXTENDED.
    unfoldable pub extended_rows :
        (Str → Bool) → ResolvedSchema → List TableInfo → Result (List TableExtendedRow)
    extended_rows accepts schema [] = ok []
    extended_rows accepts schema (table ∷ rest) =
        let rows = extended_rows accepts schema rest in
        let name = table_name table in
        if accepts name
        then (do
          detailed ← source.table token (table_full_name table schema name)
          more ← rows
          ok (
              record {
                schema = schema.schema;
                name = name;
                information = table_information detailed;
              }
              ∷ more))
        else rows

    unfoldable pub show_table_extended :
        Option ObjectName → Str → Option Str → Str → Str → Result QueryResult
    show_table_extended name pattern (some partition) default_catalog default_schema =
        fail unsupported_sql (ascii "SHOW TABLE EXTENDED PARTITION is not supported")
    show_table_extended name pattern none default_catalog default_schema = do
      schema ← resolve_schema name default_catalog default_schema
      p ← show_pattern r (some pattern)
      infos ← source.list_tables token schema.catalog schema.schema
      rows ← extended_rows (matches r p) schema (filter is_table_like infos)
      ok (table_extended_result (sort_by extended_le rows))

    unfoldable pub execute_metadata_statement : MetadataStatement → Str → Str → Result QueryResult
    execute_metadata_statement (catalogs pattern) dc ds = show_catalogs pattern
    execute_metadata_statement (schemas name pattern) dc ds = show_schemas name pattern dc
    execute_metadata_statement (tables name pattern) dc ds = do
      rows ← listed_rows is_table_like name pattern dc ds
      ok (tables_result rows)
    execute_metadata_statement (views name pattern) dc ds = do
      rows ← listed_rows is_view_like name pattern dc ds
      ok (views_result rows)
    execute_metadata_statement (columns table schema) dc ds = show_columns table schema dc ds
    execute_metadata_statement (table_extended name pattern partition) dc ds =
        show_table_extended name pattern partition dc ds

    executed : Str → Str → Option MetadataStatement → Result (Option QueryResult)
    executed dc ds none = ok none
    executed dc ds (some statement) = do
      result ← execute_metadata_statement statement dc ds
      ok (some result)

    -- `none` is a statement that is not SHOW.
    unfoldable pub execute_show_statement :
        (Str → Str ⊎ List Token) → Str → Str → Str → Result (Option QueryResult)
    unfolding executed
    execute_show_statement tokenize sql dc ds = do
      statement ← parse_show_statement tokenize sql
      executed dc ds statement
