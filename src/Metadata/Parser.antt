-- ===== src/Metadata/Parser.antt =====
-- The parser of SHOW statements: src/engine/metadata/parser.rs. `ShowParser` is the list of the tokens from
-- its index on. A message holds the text that comes before the token it shows, which `Display` of the crate
-- prints.
pub mod Printed
pub mod Written
use harborsql.Base.{
  ℕ, zero, suc, Bool, true, false, ◌||◌, ◌⊎◌, inl, inr, Option, none, some, List, [], ◌∷◌, ◌++◌,
  Str, ascii, eq_ignore_ascii_case, if◌then◌else◌,
}
use harborsql.Error.{HarborError, unsupported_sql}
use harborsql.Error.Outcome.{Result, ok, err, ◌>>=◌, fail}
use harborsql.Metadata.Statements.{
  Token, word, single_quoted_string, double_quoted_string, escaped_string_literal,
  national_string_literal, number, mul, pipe, period, eq, comma, lparen, rparen, semi_colon, space,
  is_whitespace, ObjectName, MetadataStatement, catalogs, schemas, tables, views, columns,
  table_extended,
}

abbrev pub Parse {ℓ} : Type ℓ → Type ℓ
Parse A = Result (A × List Token)

unfoldable pub token_is_keyword : Token → Str → Bool
token_is_keyword (word w) expected = eq_ignore_ascii_case w.value expected
token_is_keyword _ expected = false

unfoldable pub pattern_token : Token → Result Str
pattern_token (word w) = ok w.value
pattern_token (single_quoted_string value) = ok value
pattern_token (double_quoted_string value) = ok value
pattern_token (escaped_string_literal value) = ok value
pattern_token (national_string_literal value) = ok value
pattern_token (number value _) = ok value
pattern_token mul = ok (ascii "*")
pattern_token pipe = ok (ascii "|")
pattern_token period = ok (ascii ".")
pattern_token eq = ok (ascii "=")
pattern_token comma = ok (ascii ",")
pattern_token lparen = ok (ascii "(")
pattern_token rparen = ok (ascii ")")
pattern_token space = ok (ascii " ")
pattern_token _ = fail unsupported_sql (ascii "unsupported token in SHOW pattern")

unfoldable pub peek_keyword : Str → List Token → Bool
peek_keyword expected [] = false
peek_keyword expected (token ∷ _) = token_is_keyword token expected

-- `consume_keyword`, with the tokens that follow.
unfoldable pub consume_keyword : Str → List Token → Option (List Token)
consume_keyword expected [] = none
consume_keyword expected (token ∷ rest) =
    if token_is_keyword token expected then some rest else none

unfoldable pub expect_keyword : Str → List Token → Result (List Token)
expect_keyword expected ts = elim (consume_keyword expected ts) [
  | none ↦ fail unsupported_sql (ascii "expected `" ++ (expected ++ ascii "` in SHOW statement"))
  | some rest ↦ ok rest
]

unfoldable pub expect_end {ℓ} : {A : Type ℓ} → A → List Token → Result A
expect_end a [] = ok a
expect_end a (_ ∷ _) = fail unsupported_sql (ascii "unexpected token in SHOW statement")

unfoldable pub parse_identifier : List Token → Parse Str
parse_identifier (word w ∷ rest) = ok (w.value, rest)
parse_identifier (double_quoted_string value ∷ rest) = ok (value, rest)
parse_identifier (_ ∷ rest) =
    fail unsupported_sql (ascii "expected identifier in SHOW statement, found")
parse_identifier [] = fail unsupported_sql (ascii "expected identifier in SHOW statement")

-- The loop of `parse_object_name`.
unfoldable pub parse_more_parts : List Token → Parse ObjectName
parse_more_parts (period ∷ word w ∷ rest) = do
  more ← parse_more_parts rest
  ok (w.value ∷ more.0, more.1)
parse_more_parts (period ∷ double_quoted_string value ∷ rest) = do
  more ← parse_more_parts rest
  ok (value ∷ more.0, more.1)
parse_more_parts (period ∷ _ ∷ rest) =
    fail unsupported_sql (ascii "expected identifier in SHOW statement, found")
parse_more_parts (period ∷ []) =
    fail unsupported_sql (ascii "expected identifier in SHOW statement")
parse_more_parts ts = ok ([], ts)

unfoldable pub parse_object_name : List Token → Parse ObjectName
parse_object_name ts = do
  first ← parse_identifier ts
  more ← parse_more_parts first.1
  ok (first.0 ∷ more.0, more.1)

-- `self.consume_keyword("FROM") || self.consume_keyword("IN")`
unfoldable pub consume_from_or_in : List Token → Option (List Token)
consume_from_or_in ts = elim (consume_keyword (ascii "FROM") ts) [
  | some rest ↦ some rest
  | none ↦ consume_keyword (ascii "IN") ts
]

-- The name behind FROM or IN, and what is given when neither is there.
unfoldable pub required_name : Str → Option (List Token) → Parse ObjectName
required_name message (some rest) = parse_object_name rest
required_name message none = fail unsupported_sql message

unfoldable pub optional_name : List Token → Option (List Token) → Parse (Option ObjectName)
optional_name ts (some rest) = do name ← parse_object_name rest; ok (some name.0, name.1)
optional_name ts none = ok (none, ts)

unfoldable pub parse_required_in_name : Str → List Token → Parse ObjectName
parse_required_in_name message ts = required_name message (consume_from_or_in ts)

unfoldable pub parse_optional_in_name : List Token → Parse (Option ObjectName)
parse_optional_in_name ts = optional_name ts (consume_from_or_in ts)

-- The loop of `parse_pattern_until`: the texts of the tokens before the first that `stop` accepts.
unfoldable pub pattern_parts : (Token → Bool) → List Token → Parse (List Str)
pattern_parts stop [] = ok ([], [])
pattern_parts stop (token ∷ ts) =
    let rest = pattern_parts stop ts in
    if stop token
    then ok ([], token ∷ ts)
    else do part ← pattern_token token; parts ← rest; ok (part ∷ parts.0, parts.1)

unfoldable pub concat : List Str → Str
concat [] = []
concat (t ∷ ts) = t ++ concat ts

unfoldable pub parse_pattern_until : (Token → Bool) → List Token → Parse Str
parse_pattern_until stop ts = do
  parts ← pattern_parts stop ts
  elim parts.0 [
    | [] ↦ fail unsupported_sql (ascii "SHOW pattern cannot be empty")
    | _ ∷ _ ↦ ok (concat parts.0, parts.1)
  ]

unfoldable pub parse_pattern_until_end : List Token → Parse Str
parse_pattern_until_end = parse_pattern_until (λ _. false)

unfoldable pub parse_pattern_until_partition : List Token → Parse Str
parse_pattern_until_partition =
    parse_pattern_until (λ token. token_is_keyword token (ascii "PARTITION"))

unfoldable pub parse_optional_pattern : List Token → Parse (Option Str)
parse_optional_pattern [] = ok (none, [])
parse_optional_pattern (token ∷ ts) = do
  pattern ← elim (consume_keyword (ascii "LIKE") (token ∷ ts)) [
    | some rest ↦ parse_pattern_until_end rest
    | none ↦ parse_pattern_until_end (token ∷ ts)
  ]
  ok (some pattern.0, pattern.1)

-- The loop of `parse_optional_partition`, `depth` parentheses below the clause's own.
unfoldable pub partition_parts : ℕ → List Token → Parse (List Str)
partition_parts depth [] =
    fail unsupported_sql (ascii "SHOW TABLE EXTENDED PARTITION clause is not closed")
partition_parts depth (lparen ∷ ts) = do
  rest ← partition_parts (suc depth) ts
  ok (ascii "(" ∷ rest.0, rest.1)
partition_parts zero (rparen ∷ ts) = ok (ascii ")" ∷ [], ts)
partition_parts (suc depth) (rparen ∷ ts) = do
  rest ← partition_parts depth ts
  ok (ascii ")" ∷ rest.0, rest.1)
partition_parts depth (token ∷ ts) = do
  part ← pattern_token token
  rest ← partition_parts depth ts
  ok (part ∷ rest.0, rest.1)

unfoldable pub partition_clause : List Token → Parse (Option Str)
partition_clause (lparen ∷ ts) = do
  parts ← partition_parts 0 ts
  ok (some (concat (ascii "(" ∷ parts.0)), parts.1)
partition_clause _ =
    fail unsupported_sql (ascii "SHOW TABLE EXTENDED PARTITION requires a parenthesized clause")

unfoldable pub optional_partition : List Token → Option (List Token) → Parse (Option Str)
optional_partition ts none = ok (none, ts)
optional_partition ts (some rest) = partition_clause rest

unfoldable pub parse_optional_partition : List Token → Parse (Option Str)
parse_optional_partition ts = optional_partition ts (consume_keyword (ascii "PARTITION") ts)

-- The branches of `parse`, behind their keyword.
unfoldable pub parse_catalogs : List Token → Result MetadataStatement
parse_catalogs ts =
    if peek_keyword (ascii "FROM") ts || peek_keyword (ascii "IN") ts
    then fail unsupported_sql (ascii "SHOW CATALOGS does not accept a namespace")
    else do pattern ← parse_optional_pattern ts; expect_end (catalogs pattern.0) pattern.1

-- The part that SHOW SCHEMAS, SHOW TABLES and SHOW VIEWS share.
unfoldable pub parse_listing :
    (Option ObjectName → Option Str → MetadataStatement) → List Token → Result MetadataStatement
parse_listing statement ts = do
  name ← parse_optional_in_name ts
  pattern ← parse_optional_pattern name.1
  expect_end (statement name.0 pattern.0) pattern.1

unfoldable pub parse_schemas : List Token → Result MetadataStatement
parse_schemas ts =
    if peek_keyword (ascii "HISTORY") ts
    then fail unsupported_sql (ascii "SHOW SCHEMAS HISTORY is not supported")
    else parse_listing schemas ts

unfoldable pub parse_tables : List Token → Result MetadataStatement
parse_tables ts =
    if peek_keyword (ascii "EXTENDED") ts || peek_keyword (ascii "HISTORY") ts
    then fail unsupported_sql (ascii "use SHOW TABLE EXTENDED for extended table metadata")
    else parse_listing tables ts

unfoldable pub parse_views : List Token → Result MetadataStatement
parse_views ts = parse_listing views ts

unfoldable pub parse_columns : List Token → Result MetadataStatement
parse_columns ts = do
  table ← parse_required_in_name (ascii "SHOW COLUMNS requires IN or FROM table_name") ts
  schema ← parse_optional_in_name table.1
  expect_end (columns table.0 schema.0) schema.1

unfoldable pub parse_table_extended : List Token → Result MetadataStatement
parse_table_extended ts = do
  extended ← expect_keyword (ascii "EXTENDED") ts
  schema ← parse_optional_in_name extended
  like ← expect_keyword (ascii "LIKE") schema.1
  pattern ← parse_pattern_until_partition like
  partition ← parse_optional_partition pattern.1
  expect_end (table_extended schema.0 pattern.0 partition.0) partition.1

unfoldable pub take_branch :
    (List Token → Result MetadataStatement)
    → Result MetadataStatement
    → Option (List Token)
    → Result MetadataStatement
take_branch branch others (some rest) = branch rest
take_branch branch others none = others

-- The first keyword that the next token is, and the branch of it.
unfoldable pub parse_branch :
    List (Str × (List Token → Result MetadataStatement)) → List Token → Result MetadataStatement
parse_branch [] ts = fail unsupported_sql (ascii "unsupported SHOW statement")
parse_branch ((keyword, branch) ∷ branches) ts =
    take_branch branch (parse_branch branches ts) (consume_keyword keyword ts)

abbrev pub branches : List (Str × (List Token → Result MetadataStatement))
branches =
    (ascii "CATALOGS", parse_catalogs)
    ∷ (ascii "SCHEMAS", parse_schemas)
    ∷ (ascii "DATABASES", parse_schemas)
    ∷ (ascii "TABLES", parse_tables)
    ∷ (ascii "VIEWS", parse_views)
    ∷ (ascii "COLUMNS", parse_columns)
    ∷ (ascii "TABLE", parse_table_extended)
    ∷ []

unfoldable pub parse : List Token → Result MetadataStatement
parse ts = do rest ← expect_keyword (ascii "SHOW") ts; parse_branch branches rest

unfoldable pub is_semi_colon : Token → Bool
is_semi_colon semi_colon = true
is_semi_colon _ = false

-- A token before the tokens that are kept of those behind it.
unfoldable pub keep_token : Token → List Token → List Token
keep_token token [] = if is_semi_colon token then [] else token ∷ []
keep_token token (t ∷ rest) = token ∷ t ∷ rest

-- `ShowParser::new`: the semicolons at the end are dropped.
unfoldable pub drop_semi_colons : List Token → List Token
drop_semi_colons [] = []
drop_semi_colons (token ∷ ts) = keep_token token (drop_semi_colons ts)

-- `matches!(tokens.first(), ..)`: an unquoted SHOW stands first.
unfoldable pub starts_with_show : List Token → Bool
starts_with_show (word w ∷ _) = elim w.quote_style [
  | none ↦ eq_ignore_ascii_case w.value (ascii "SHOW")
  | some _ ↦ false
]
starts_with_show _ = false

unfoldable pub without_whitespace : List Token → List Token
without_whitespace [] = []
without_whitespace (token ∷ ts) =
    let rest = without_whitespace ts in if is_whitespace token then rest else token ∷ rest

unfoldable pub parse_tokens : List Token → Result (Option MetadataStatement)
parse_tokens ts =
    if starts_with_show ts
    then (do statement ← parse (drop_semi_colons ts); ok (some statement))
    else ok none

-- `tokenize` is `Tokenizer::tokenize` of the crate, which gives tokens or the text of an error.
unfoldable pub parse_show_statement :
    (Str → Str ⊎ List Token) → Str → Result (Option MetadataStatement)
parse_show_statement tokenize sql = elim (tokenize sql) [
  | inl error ↦ fail unsupported_sql (ascii "invalid SHOW statement: " ++ error)
  | inr ts ↦ parse_tokens (without_whitespace ts)
]
