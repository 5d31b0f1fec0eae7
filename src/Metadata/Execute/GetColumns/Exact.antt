-- ===== src/Metadata/Execute/GetColumns/Exact.antt =====
-- A request for the columns of one table: `execute_get_columns` of src/engine/metadata/mod.rs, where no name
-- holds a wildcard.
use harborsql.Base.{◌≡◌, ◌≢◌, ascii, false, Option, List, [], ◌++◌, Str}
use harborsql.Error.Outcome.{ok}
use harborsql.Metadata.Regexes.{Regexes}
use harborsql.Metadata.Patterns.{
  metadata_pattern, matches, contains_metadata_wildcard, strip_metadata_escapes,
}
use harborsql.Metadata.Infos.{TableInfo}
use harborsql.Metadata.Names.{table_full_identifier}
use harborsql.Metadata.Columns.Rows.{ColumnMetadataRow}
use harborsql.Metadata.Execute.{MetadataSource}
use harborsql.Metadata.Execute.GetColumns
use harborsql.Metadata.Execute.GetColumns.Ordered.{AreColumns}

-- A name that is there and holds no wildcard.
unfoldable pub IsExact : Str → Type 0
IsExact name = (name ≢ []) × (contains_metadata_wildcard name ≡ false)

-- The one table that a request without wildcards names.
named : Str → Str → Str → Str
named catalog schema table = table_full_identifier (record {
  catalog = strip_metadata_escapes catalog;
  schema = strip_metadata_escapes schema;
  table = strip_metadata_escapes table;
})

module _ (r : Regexes) (source : MetadataSource) (token : Str) where
  -- The rows of one table of Unity Catalog, asked for by its full name.
  pub record IsTable (catalog schema table : Str) (column : Option Str)
      (rows : List ColumnMetadataRow) : Type 0 where
    pub accepted_by : Option r.Regex
    pub detailed : TableInfo
    pub pattern_read : metadata_pattern r column ≡ ok accepted_by
    pub answered :
        source.table token (catalog ++ (ascii "." ++ (schema ++ (ascii "." ++ table))))
        ≡ ok detailed
    pub are_columns : AreColumns detailed catalog schema table (matches r accepted_by) rows
