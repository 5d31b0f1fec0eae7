-- ===== src/Metadata/Names.antt =====
-- Which catalog, schema and table a name stands for: the `resolve_` functions of
-- src/engine/metadata/mod.rs, and the names that drivers send.
pub mod Agreement
use harborsql.Base.{
  ℕ, Bool, true, false, not, ◌&&◌, ◌||◌, ◌==◌, Option, none, some, List, [], ◌∷◌, ◌++◌, Str, ascii,
  split, if◌then◌else◌,
}
use harborsql.Base.Text.{bytes_eq}
use harborsql.Error.{unsupported_sql}
use harborsql.Error.Outcome.{Result, ok, err, ◌>>=◌, fail}
use harborsql.Metadata.Statements.{ObjectName}
use harborsql.Metadata.Infos.{TableInfo, unwrap_or, or_else, is_some}

pub record ResolvedSchema : Type 0 where
  pub catalog : Str
  pub schema : Str

pub record ResolvedTable : Type 0 where
  pub catalog : Str
  pub schema : Str
  pub table : Str

unfoldable pub resolve_catalog : Option ObjectName → Str → Result Str
resolve_catalog none default_catalog = ok default_catalog
resolve_catalog (some (catalog ∷ [])) default_catalog = ok catalog
resolve_catalog (some _) default_catalog =
    fail unsupported_sql (ascii "SHOW SCHEMAS expects a single catalog name")

unfoldable pub resolve_schema : Option ObjectName → Str → Str → Result ResolvedSchema
resolve_schema none default_catalog default_schema =
    ok (record { catalog = default_catalog; schema = default_schema })
resolve_schema (some (schema ∷ [])) default_catalog default_schema =
    ok (record { catalog = default_catalog; schema = schema })
resolve_schema (some (catalog ∷ schema ∷ [])) default_catalog default_schema =
    ok (record { catalog = catalog; schema = schema })
resolve_schema (some _) default_catalog default_schema =
    fail unsupported_sql (ascii "SHOW TABLES expects a schema or catalog.schema name")

-- The parts of the name of a table, and those of the schema beside it.
unfoldable pub table_parts : ObjectName → Result (Option Str × Option Str × Str)
table_parts (table ∷ []) = ok (none, none, table)
table_parts (schema ∷ table ∷ []) = ok (none, some schema, table)
table_parts (catalog ∷ schema ∷ table ∷ []) = ok (some catalog, some schema, table)
table_parts _ =
    fail unsupported_sql
      (ascii "SHOW COLUMNS expects a table, schema.table, or catalog.schema.table name")

unfoldable pub schema_parts : Option ObjectName → Result (Option Str × Option Str)
schema_parts none = ok (none, none)
schema_parts (some (schema ∷ [])) = ok (none, some schema)
schema_parts (some (catalog ∷ schema ∷ [])) = ok (some catalog, some schema)
schema_parts (some _) =
    fail unsupported_sql (ascii "SHOW COLUMNS expects an optional schema or catalog.schema name")

-- Both are there and are not the same.
unfoldable pub differ : Option Str → Option Str → Bool
differ (some left) (some right) = not (bytes_eq left right)
differ _ _ = false

-- The checks of `resolve_table` on the parts of the two names.
unfoldable pub resolve_parts :
    Str → Str → Option Str × Option Str × Str → Option Str × Option Str → Result ResolvedTable
resolve_parts default_catalog default_schema t s =
    if differ t.1 s.1
    then fail unsupported_sql
        (ascii "SHOW COLUMNS table name and schema name must not refer to different schemas")
    else if differ t.0 s.0
    then fail unsupported_sql
        (ascii "SHOW COLUMNS table name and schema name must not refer to different catalogs")
    else ok (record {
      catalog = unwrap_or default_catalog (or_else t.0 s.0);
      schema = unwrap_or default_schema (or_else t.1 s.1);
      table = t.2;
    })

unfoldable pub resolve_table : ObjectName → Option ObjectName → Str → Str → Result ResolvedTable
resolve_table table_name schema_name default_catalog default_schema = do
  t ← table_parts table_name
  s ← schema_parts schema_name
  resolve_parts default_catalog default_schema t s

abbrev dot : Str
dot = 46 ∷ []

unfoldable pub table_full_identifier : ResolvedTable → Str
table_full_identifier table = table.catalog ++ (dot ++ (table.schema ++ (dot ++ table.table)))

unfoldable pub table_full_name : TableInfo → ResolvedSchema → Str → Str
table_full_name table schema table_name = elim table.full_name [
  | [] ↦ schema.catalog ++ (dot ++ (schema.schema ++ (dot ++ table_name)))
  | c ∷ t ↦ c ∷ t
]

pub record GetColumnsRequest : Type 0 where
  pub catalog : Option Str
  pub schema : Option Str
  pub table : Option Str
  pub column : Option Str

-- `split('.')`, as one list.
unfoldable pub parts_of : Str → List Str
parts_of t = let parts = split 46 t in parts.0 ∷ parts.1

-- `contains_namespace` holds of a text in two parts or more.
unfoldable pub with_schema_parts : GetColumnsRequest → List Str → GetColumnsRequest
with_schema_parts request (catalog ∷ schema ∷ []) = record request {
  catalog = some catalog;
  schema = some schema;
}
with_schema_parts request _ = request

unfoldable pub split_schema : GetColumnsRequest → GetColumnsRequest
split_schema request = elim request.catalog [
  | some _ ↦ request
  | none ↦ elim request.schema [
    | none ↦ request
    | some schema ↦ with_schema_parts request (parts_of schema)
  ]
]

unfoldable pub with_table_parts : GetColumnsRequest → List Str → GetColumnsRequest
with_table_parts request (catalog ∷ schema ∷ table ∷ []) =
    if not (is_some request.catalog) && not (is_some request.schema)
    then record {
      catalog = some catalog;
      schema = some schema;
      table = some table;
      column = request.column;
    }
    else request
with_table_parts request (schema ∷ table ∷ []) =
    if not (is_some request.schema)
    then record request { schema = some schema; table = some table }
    else request
with_table_parts request _ = request

unfoldable pub split_table : GetColumnsRequest → GetColumnsRequest
split_table request = elim request.table [
  | none ↦ request
  | some table ↦ with_table_parts request (parts_of table)
]

unfoldable pub normalize_get_columns_request : GetColumnsRequest → GetColumnsRequest
normalize_get_columns_request request = split_table (split_schema request)
