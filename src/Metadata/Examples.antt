-- ===== src/Metadata/Examples.antt =====
-- Runs of src/engine/metadata on small inputs.
use harborsql.Base.{
  not, ◌≡◌, ◌≢◌, refl, true, false, inr, ◌⊎◌, ◌↔◌, Option, none, some, List, [], ◌∷◌, ◌++◌, Str,
  ascii,
}
use harborsql.Base.Text.{bytes_eq}
use harborsql.Base.Chars.{eq_ignore_ascii_case, split, trim, trim_start, trim_end, text_le}
use harborsql.Base.Sort.{sort_by, insert, IsSorted}
use harborsql.Error.Outcome.{Result, ok, err}
use harborsql.Metadata.Statements.{
  Token, word, single_quoted_string, period, lparen, rparen, mul, semi_colon, space, whitespace,
  MetadataStatement, tables, table_extended,
}
use harborsql.Metadata.Parser
use harborsql.Metadata.Parser.Printed.{IsWritten, show_tokens, semi_colons}
use harborsql.Metadata.Parser.Printed.RoundTrip.{parse_show_statement-show_tokens}
use harborsql.Metadata.Parser.Written.{parse_tokens-parse_tokens}
use harborsql.Metadata.Regexes.{literal, any_one, any_run, matches_all, some_end, is_dot}
use harborsql.Metadata.Regexes.Plain.{plain_regexes, build, same_letter}
use harborsql.Metadata.Patterns
use harborsql.Metadata.Patterns.{strip_metadata_escapes}
use harborsql.Metadata.Patterns.Like.{Like, metadata_pattern_iff}
use harborsql.Metadata.Patterns.Stripped.{Alike, metadata_pattern-strip_metadata_escapes}
use harborsql.Metadata.Columns
use harborsql.Metadata.Infos.{
  ColumnInfo, TableInfo, or_else, unwrap_or, nonempty, table_name, last_part, is_table_like,
  is_view_like,
}
use harborsql.Metadata.Names.{GetColumnsRequest, ResolvedTable, resolve_table, resolve_schema}
use harborsql.Metadata.Names.Agreement.{IsResolved, resolve_table_iff}
use harborsql.Metadata.Execute.GetColumns
use harborsql.Metadata.Columns.Rows.{ColumnMetadataRow, column_row, filter}
use harborsql.Metadata.Results.{
  TableRow, TableExtendedRow, catalogs_result, schemas_result, columns_result, tables_result,
  views_result, table_extended_result, column_metadata_result,
}
use harborsql.Metadata.Execute.{
  MetadataSource, filtered_sorted_names, listed_rows, listed_tables, row_le, name_le, matching_rows,
  sort_table_rows,
}
use harborsql.Metadata.Execute.Listing.{
  IsListing, is_view, filtered_sorted_names-IsSorted, listed_rows-IsListing,
}
use harborsql.Metadata.Execute.GetColumns.{rows_of_request, column_row_le}
use mathlib.Core.List.{Perm}
use harborsql.Metadata.Results.Fit.{IsBatch, results-IsBatch}

-- SHOW TABLE EXTENDED IN "main"."s" LIKE 'a*' PARTITION ('x');;
abbrev statement : MetadataStatement
statement = table_extended (some (ascii "main" ∷ ascii "s" ∷ [])) (ascii "a*") (some (ascii "(x)"))

abbrev keyword : Str → Token
keyword value = word (record { value = value; quote_style = none })

abbrev quoted : Str → Token
quoted value = word (record { value = value; quote_style = some 34 })

-- Its tokens, with white space.
abbrev spaced : List Token
spaced =
    space
    ∷ keyword (ascii "SHOW")
    ∷ space
    ∷ keyword (ascii "TABLE")
    ∷ keyword (ascii "EXTENDED")
    ∷ keyword (ascii "IN")
    ∷ quoted (ascii "main")
    ∷ period
    ∷ quoted (ascii "s")
    ∷ whitespace (ascii "/**/")
    ∷ keyword (ascii "LIKE")
    ∷ single_quoted_string (ascii "a*")
    ∷ keyword (ascii "PARTITION")
    ∷ lparen
    ∷ single_quoted_string (ascii "x")
    ∷ rparen
    ∷ semi_colon
    ∷ semi_colon
    ∷ []

abbrev tokenize_spaced : Str → Str ⊎ List Token
tokenize_spaced sql = inr spaced

parse_show_statement-show_tokens_example :
    Parser.parse_show_statement tokenize_spaced (ascii "SHOW") ≡ ok (some statement)
unfolding show_tokens semi_colons Parser.without_whitespace
    harborsql.Metadata.Statements.is_whitespace
parse_show_statement-show_tokens_example =
    parse_show_statement-show_tokens tokenize_spaced (ascii "SHOW") spaced statement 2
      (tt, (ascii "x", refl)) refl refl

-- show Tables From s x * ;
abbrev typed : List Token
typed =
    keyword (ascii "show")
    ∷ keyword (ascii "Tables")
    ∷ keyword (ascii "From")
    ∷ keyword (ascii "s")
    ∷ keyword (ascii "x")
    ∷ mul
    ∷ semi_colon
    ∷ []

abbrev typed_statement : MetadataStatement
typed_statement = tables (some (ascii "s" ∷ [])) (some (ascii "x*"))

parse_tokens-typed : Parser.parse_tokens typed ≡ ok (some typed_statement)
unfolding Parser.parse_tokens Parser.starts_with_show Parser.drop_semi_colons Parser.keep_token
    Parser.is_semi_colon Parser.parse Parser.expect_keyword Parser.consume_keyword
    Parser.peek_keyword Parser.token_is_keyword Parser.parse_branch Parser.take_branch
    Parser.parse_tables Parser.parse_listing Parser.parse_optional_in_name Parser.optional_name
    Parser.consume_from_or_in Parser.parse_object_name Parser.parse_identifier
    Parser.parse_more_parts Parser.parse_optional_pattern Parser.parse_pattern_until_end
    Parser.parse_pattern_until Parser.pattern_parts Parser.pattern_token Parser.concat
    Parser.expect_end eq_ignore_ascii_case bytes_eq
parse_tokens-typed = refl

parse_tokens-parse_tokens_example :
    IsWritten typed_statement
    × (Parser.parse_tokens (show_tokens typed_statement ++ semi_colons 1)
        ≡ ok (some typed_statement))
parse_tokens-parse_tokens_example =
    parse_tokens-parse_tokens typed typed_statement 1 parse_tokens-typed

-- A pattern of a run, a character behind a backslash and one further character.
abbrev wild_items : plain_regexes.Regex
unfolding plain_regexes
wild_items = any_run ∷ literal 95 ∷ any_one ∷ []

abbrev exact_items : plain_regexes.Regex
unfolding plain_regexes
exact_items = literal 97 ∷ literal 95 ∷ literal 98 ∷ []

metadata_pattern_iff_example :
    (Patterns.matches plain_regexes (some wild_items) (ascii "ab_c") ≡ true)
    ↔ ((ascii "%\\__" ≡ []) ⊎ Like plain_regexes.same false (ascii "%\\__") (ascii "ab_c"))
unfolding Patterns.metadata_pattern Patterns.metadata_pattern_regex Patterns.regex_from
    Patterns.built_or plain_regexes build wild_items exact_items
metadata_pattern_iff_example =
    metadata_pattern_iff plain_regexes (ascii "%\\__") (some wild_items) (ascii "ab_c") refl

-- Without a wildcard: an escaped underscore.
abbrev exact_pattern : Str
exact_pattern = ascii "a\\_b"

exact_nonempty : exact_pattern ≢ []
exact_nonempty h = cc

exact_plain : Patterns.contains_metadata_wildcard exact_pattern ≡ false
unfolding Patterns.contains_metadata_wildcard Patterns.contains_from Patterns.is_wildcard
exact_plain = refl

metadata_pattern-strip_metadata_escapes_example :
    (Patterns.matches plain_regexes (some exact_items) (ascii "A_b") ≡ true)
    ↔ Alike plain_regexes.same (Patterns.strip_metadata_escapes exact_pattern) (ascii "A_b")
unfolding Patterns.metadata_pattern Patterns.metadata_pattern_regex Patterns.regex_from
    Patterns.built_or plain_regexes build wild_items exact_items
metadata_pattern-strip_metadata_escapes_example =
    metadata_pattern-strip_metadata_escapes plain_regexes exact_pattern (ascii "A_b")
      (some exact_items) exact_nonempty exact_plain refl

abbrev resolved : ResolvedTable
resolved = record { catalog = ascii "main"; schema = ascii "s"; table = ascii "t" }

resolve_table_iff_example :
    (resolve_table
        (ascii "s" ∷ ascii "t" ∷ [])
        (some (ascii "main" ∷ ascii "s" ∷ []))
        (ascii "workspace")
        (ascii "default")
      ≡ ok resolved)
    ↔ IsResolved
        (ascii "s" ∷ ascii "t" ∷ [])
        (some (ascii "main" ∷ ascii "s" ∷ []))
        (ascii "workspace")
        (ascii "default")
        resolved
resolve_table_iff_example =
    resolve_table_iff (ascii "s" ∷ ascii "t" ∷ []) (some (ascii "main" ∷ ascii "s" ∷ []))
      (ascii "workspace") (ascii "default") resolved

abbrev amount : ColumnInfo
amount = record {
  name = ascii "amount";
  position = some 0;
  type_name = some (ascii "DECIMAL");
  type_text = some (ascii "decimal(10, 2)");
  type_precision = none;
  type_scale = none;
  nullable = some false;
  comment = none;
}

abbrev info_of : Str → Str → TableInfo
info_of name table_type = record {
  table_id = none;
  full_name = ascii "main.s." ++ name;
  name = none;
  catalog_name = some (ascii "main");
  schema_name = none;
  table_type = some table_type;
  data_source_format = none;
  storage_location = none;
  comment = none;
  owner = none;
  created_at = none;
  created_by = none;
  updated_at = none;
  updated_by = none;
  columns = amount ∷ [];
}

abbrev infos : List TableInfo
infos =
    info_of (ascii "Sales") (ascii "MANAGED")
    ∷ info_of (ascii "recent") (ascii "view")
    ∷ info_of (ascii "people") (ascii "EXTERNAL")
    ∷ []

abbrev amount_row : ColumnMetadataRow
amount_row =
    column_row (info_of (ascii "Sales") (ascii "MANAGED")) (ascii "m") (ascii "s") (ascii "x")
      (0, amount)

-- The type text gives precision and scale.
amount_row-size : (amount_row.column_size ≡ some 10) × (amount_row.decimal_digits ≡ some 2)
unfolding column_row Columns.column_type_name Columns.column_size Columns.decimal_digits
    Columns.first_arm Columns.one_of Columns.base_type_name Columns.before_bracket
    Columns.parse_precision Columns.parse_scale Columns.parse_decimal_parts Columns.after
    Columns.before Columns.collect Columns.get_part Columns.parse_i32 Columns.unsigned
    Columns.digits or_else nonempty trim trim_start trim_end split bytes_eq
amount_row-size = (refl, refl)

abbrev sales_row : TableRow
sales_row = record { schema = ascii "s"; name = ascii "Sales" }

abbrev sales_extended : TableExtendedRow
sales_extended = record {
  schema = ascii "s";
  name = ascii "Sales";
  information = ascii "Table: Sales";
}

results-IsBatch_example :
    IsBatch 2 (catalogs_result (ascii "main" ∷ ascii "dev" ∷ []))
    × IsBatch 2 (schemas_result (ascii "main" ∷ ascii "dev" ∷ []))
    × IsBatch 2 (columns_result (ascii "main" ∷ ascii "dev" ∷ []))
    × IsBatch 1 (tables_result (sales_row ∷ []))
    × IsBatch 1 (views_result (sales_row ∷ []))
    × IsBatch 1 (table_extended_result (sales_extended ∷ []))
    × IsBatch 1 (column_metadata_result (amount_row ∷ []))
results-IsBatch_example =
    results-IsBatch (ascii "main" ∷ ascii "dev" ∷ []) (sales_row ∷ []) (sales_extended ∷ [])
      (amount_row ∷ [])

-- A catalog that has one schema, whose tables are those above.
abbrev source : MetadataSource
source = record {
  list_catalogs = λ token. ok (record { name = ascii "main"; catalog_type = none } ∷ []);
  list_schemas = λ token catalog. ok (record { name = ascii "s"; full_name = none } ∷ []);
  list_tables = λ token catalog schema. ok infos;
  table = λ token full_name. ok (info_of (ascii "Sales") (ascii "MANAGED"));
}

abbrev three_names : List Str
three_names = ascii "main" ∷ ascii "dev" ∷ ascii "Mart" ∷ []

-- Those that begin with M, in either case.
filtered_sorted_names-run :
    filtered_sorted_names plain_regexes three_names (some (ascii " m* "))
    ≡ ok (ascii "main" ∷ ascii "Mart" ∷ [])
unfolding filtered_sorted_names Patterns.show_pattern Patterns.trimmed_show_pattern
    Patterns.databricks_show_regex Patterns.show_regex_parts Patterns.built_or Patterns.matches
    plain_regexes build same_letter trim trim_start trim_end filter sort_by insert name_le text_le
    matches_all some_end is_dot
filtered_sorted_names-run = refl

filtered_sorted_names-IsSorted_example :
    (p : Option (plain_regexes.Regex)) × (Patterns.show_pattern plain_regexes (some (ascii " m* "))
      ≡ ok p)
    × IsSorted name_le (ascii "main" ∷ ascii "Mart" ∷ [])
    × Perm
        (ascii "main" ∷ ascii "Mart" ∷ [])
        (filter (Patterns.matches plain_regexes p) three_names)
filtered_sorted_names-IsSorted_example =
    filtered_sorted_names-IsSorted plain_regexes three_names (ascii "main" ∷ ascii "Mart" ∷ [])
      (some (ascii " m* ")) filtered_sorted_names-run

abbrev row : Str → TableRow
row name = record { schema = ascii "default"; name = name }

listed_rows-tables :
    listed_rows plain_regexes source [] is_table_like none
      (some (ascii "*e*"))
      (ascii "main")
      (ascii "default")
    ≡ ok (row (ascii "people") ∷ row (ascii "Sales") ∷ [])
unfolding listed_rows listed_tables resolve_schema is_table_like is_view_like sort_table_rows row_le
    matching_rows table_name last_part unwrap_or Patterns.show_pattern Patterns.trimmed_show_pattern
    Patterns.databricks_show_regex Patterns.show_regex_parts Patterns.built_or Patterns.matches
    plain_regexes build same_letter trim trim_start trim_end split filter sort_by insert name_le
    text_le matches_all some_end is_dot bytes_eq
listed_rows-tables = refl

listed_rows-views :
    listed_rows plain_regexes source [] is_view_like none
      (some (ascii "*e*"))
      (ascii "main")
      (ascii "default")
    ≡ ok (row (ascii "recent") ∷ [])
unfolding listed_rows listed_tables resolve_schema is_view_like sort_table_rows row_le matching_rows
    table_name last_part unwrap_or Patterns.show_pattern Patterns.trimmed_show_pattern
    Patterns.databricks_show_regex Patterns.show_regex_parts Patterns.built_or Patterns.matches
    plain_regexes build same_letter trim trim_start trim_end split filter sort_by insert name_le
    text_le matches_all some_end is_dot bytes_eq
listed_rows-views = refl

listed_rows-IsListing_example :
    IsListing plain_regexes source [] none
      (some (ascii "*e*"))
      (ascii "main")
      (ascii "default")
      (λ info. not (is_view info))
      (row (ascii "people") ∷ row (ascii "Sales") ∷ [])
    × IsListing plain_regexes source [] none
        (some (ascii "*e*"))
        (ascii "main")
        (ascii "default")
        is_view
        (row (ascii "recent") ∷ [])
listed_rows-IsListing_example =
    listed_rows-IsListing plain_regexes source [] none (some (ascii "*e*")) (ascii "main")
      (ascii "default") (row (ascii "people") ∷ row (ascii "Sales") ∷ [])
      (row (ascii "recent") ∷ []) listed_rows-tables listed_rows-views

-- The columns of one table that begin with an A.
abbrev sales_request : GetColumnsRequest
sales_request = record {
  catalog = some (ascii "main");
  schema = some (ascii "s");
  table = some (ascii "Sales");
  column = some (ascii "a%");
}

abbrev rows_or_none : Result (List ColumnMetadataRow) → List ColumnMetadataRow
rows_or_none (ok rows) = rows
rows_or_none (err error) = []

abbrev sales_rows : List ColumnMetadataRow
sales_rows =
    rows_or_none (rows_of_request plain_regexes source [] sales_request (ascii "workspace"))
