-- ===== src/Metadata/Parser/Printed/RoundTrip.antt =====
-- What `parse` of src/engine/metadata/parser.rs reads from statements written as tokens.
use harborsql.Base.{
  ℕ, zero, suc, ◌≡◌, refl, sym, ap, ◌∙◌, Bool, true, false, ◌&&◌, Option, none, some, List, [], ◌∷◌,
  ◌++◌, append_assoc, append-nil, map, All, All-append, Str, ascii, if◌then◌else◌, ◌==◌, ◌⊎◌, inl,
  inr,
}
use harborsql.Base.Text.{bytes_eq}
use harborsql.Error.{unsupported_sql}
use harborsql.Error.Outcome.{ok, fail}
use harborsql.Metadata.Statements.{
  Token, single_quoted_string, period, ObjectName, MetadataStatement, catalogs, schemas, tables,
  views, columns, table_extended,
}
use harborsql.Metadata.Parser
use harborsql.Metadata.Parser.Printed.{
  keyword, quoted, more_parts_tokens, name_tokens, in_tokens, like_tokens, without_last, inner,
  partition_tokens, statement_tokens, show_tokens, semi_colons, IsName, IsOptionalName, IsClause,
  IsWritten,
}
use harborsql.Metadata.Parser.Printed.Plain.{drop_semi_colons-IsPlain, IsPlain-show_tokens}

starts_with_period : List Token → Bool
starts_with_period (period ∷ _) = true
starts_with_period _ = false

parse_more_parts-tokens :
    (ts : List Str) (rest : List Token)
    → starts_with_period rest ≡ false
    → Parser.parse_more_parts (more_parts_tokens ts ++ rest) ≡ ok (ts, rest)
unfolding Parser.parse_more_parts more_parts_tokens starts_with_period quoted
parse_more_parts-tokens [] [] h = refl
parse_more_parts-tokens [] (period ∷ rest) h = absurd cc
parse_more_parts-tokens [] (_ ∷ rest) h = refl
parse_more_parts-tokens (t ∷ ts) rest h = rw (parse_more_parts-tokens ts rest h) refl

parse_object_name-tokens :
    (name : ObjectName) (rest : List Token)
    → IsName name
    → starts_with_period rest ≡ false
    → Parser.parse_object_name (name_tokens name ++ rest) ≡ ok (name, rest)
unfolding Parser.parse_object_name Parser.parse_identifier name_tokens quoted
parse_object_name-tokens [] rest n h = absurd n
parse_object_name-tokens (t ∷ ts) rest n h = rw (parse_more_parts-tokens ts rest h) refl

-- The tokens behind a name that may be missing.
IsAfterName : List Token → Type 0
IsAfterName rest = (starts_with_period rest ≡ false) × (Parser.consume_from_or_in rest ≡ none)

parse_optional_in_name-tokens :
    (name : Option ObjectName) (rest : List Token)
    → IsOptionalName name
    → IsAfterName rest
    → Parser.parse_optional_in_name (in_tokens name ++ rest) ≡ ok (name, rest)
unfolding Parser.parse_optional_in_name Parser.optional_name Parser.consume_from_or_in
    Parser.consume_keyword Parser.token_is_keyword in_tokens keyword bytes_eq
    harborsql.Base.Chars.eq_ignore_ascii_case IsAfterName
parse_optional_in_name-tokens none rest n h = rw (h.1) refl
parse_optional_in_name-tokens (some name) rest n h =
    rw (parse_object_name-tokens name rest n (h.0)) refl

parse_optional_pattern-tokens :
    (pattern : Option Str) → Parser.parse_optional_pattern (like_tokens pattern) ≡ ok (pattern, [])
unfolding Parser.parse_optional_pattern Parser.consume_keyword Parser.token_is_keyword like_tokens
    keyword bytes_eq harborsql.Base.Chars.eq_ignore_ascii_case Parser.parse_pattern_until_end
    Parser.parse_pattern_until Parser.pattern_parts Parser.pattern_token Parser.concat
parse_optional_pattern-tokens none = refl
parse_optional_pattern-tokens (some pattern) = rw (append-nil pattern) refl

IsAfterName-like_tokens : (pattern : Option Str) → IsAfterName (like_tokens pattern)
unfolding IsAfterName starts_with_period Parser.consume_from_or_in Parser.consume_keyword
    Parser.token_is_keyword like_tokens keyword bytes_eq harborsql.Base.Chars.eq_ignore_ascii_case
IsAfterName-like_tokens none = (refl, refl)
IsAfterName-like_tokens (some pattern) = (refl, refl)

parse_listing-tokens :
    (statement : Option ObjectName → Option Str → MetadataStatement) (name : Option ObjectName)
    (pattern : Option Str)
    → IsOptionalName name
    → Parser.parse_listing statement (in_tokens name ++ like_tokens pattern)
      ≡ ok (statement name pattern)
unfolding Parser.parse_listing Parser.expect_end
parse_listing-tokens statement name pattern n =
    rw
      (
        parse_optional_in_name-tokens name (like_tokens pattern) n
            (IsAfterName-like_tokens pattern),
        parse_optional_pattern-tokens pattern,
      )
      refl

without_last-append : (t : Str) (c : ℕ) → without_last (t ++ (c ∷ [])) ≡ t
unfolding without_last
without_last-append [] c = refl
without_last-append (a ∷ []) c = refl
without_last-append (a ∷ b ∷ t) c = ap (λ u. a ∷ u) (without_last-append (b ∷ t) c)

parse_pattern_until_partition-tokens :
    (pattern : Str) (partition : Option Str)
    → Parser.parse_pattern_until_partition
        (single_quoted_string pattern ∷ partition_tokens partition)
      ≡ ok (pattern, partition_tokens partition)
unfolding Parser.parse_pattern_until_partition Parser.parse_pattern_until Parser.pattern_parts
    Parser.pattern_token Parser.concat Parser.token_is_keyword bytes_eq
    harborsql.Base.Chars.eq_ignore_ascii_case partition_tokens keyword
parse_pattern_until_partition-tokens pattern none = rw (append-nil pattern) refl
parse_pattern_until_partition-tokens pattern (some clause) = rw (append-nil pattern) refl

parse_optional_partition-tokens :
    (partition : Option Str)
    → IsClause partition
    → Parser.parse_optional_partition (partition_tokens partition) ≡ ok (partition, [])
unfolding Parser.parse_optional_partition Parser.optional_partition Parser.partition_clause
    Parser.partition_parts Parser.consume_keyword Parser.token_is_keyword Parser.pattern_token
    Parser.concat bytes_eq harborsql.Base.Chars.eq_ignore_ascii_case partition_tokens keyword inner
parse_optional_partition-tokens none h = refl
parse_optional_partition-tokens (some clause) (t, e) = rw (e, without_last-append t 41) refl

IsAfterName-partition :
    (pattern : Str) (partition : Option Str)
    → IsAfterName (like_tokens (some pattern) ++ partition_tokens partition)
unfolding IsAfterName starts_with_period Parser.consume_from_or_in Parser.consume_keyword
    Parser.token_is_keyword like_tokens keyword bytes_eq harborsql.Base.Chars.eq_ignore_ascii_case
IsAfterName-partition pattern partition = (refl, refl)

parse_catalogs-tokens :
    (pattern : Option Str) → Parser.parse_catalogs (like_tokens pattern) ≡ ok (catalogs pattern)
unfolding Parser.parse_catalogs Parser.peek_keyword Parser.token_is_keyword Parser.expect_end
    like_tokens keyword bytes_eq harborsql.Base.Chars.eq_ignore_ascii_case
parse_catalogs-tokens none = rw (parse_optional_pattern-tokens none) refl
parse_catalogs-tokens (some pattern) = rw (parse_optional_pattern-tokens (some pattern)) refl

IsAfterName-in_tokens : (name : Option ObjectName) → starts_with_period (in_tokens name) ≡ false
unfolding starts_with_period in_tokens keyword
IsAfterName-in_tokens none = refl
IsAfterName-in_tokens (some name) = refl

IsAfterName-nil : IsAfterName []
unfolding IsAfterName starts_with_period Parser.consume_from_or_in Parser.consume_keyword
IsAfterName-nil = (refl, refl)

parse_last_name-tokens :
    (name : Option ObjectName)
    → IsOptionalName name
    → Parser.parse_optional_in_name (in_tokens name) ≡ ok (name, [])
parse_last_name-tokens name n =
    ap Parser.parse_optional_in_name (sym (append-nil (in_tokens name)))
    ∙ parse_optional_in_name-tokens name [] n IsAfterName-nil

parse_columns-tokens :
    (table : ObjectName) (schema : Option ObjectName)
    → IsName table
    → IsOptionalName schema
    → Parser.parse_columns (in_tokens (some table) ++ in_tokens schema) ≡ ok (columns table schema)
unfolding Parser.parse_columns Parser.parse_required_in_name Parser.required_name
    Parser.consume_from_or_in Parser.consume_keyword Parser.token_is_keyword Parser.expect_end
    in_tokens keyword bytes_eq harborsql.Base.Chars.eq_ignore_ascii_case
parse_columns-tokens table schema t n =
    rw
      (
        parse_object_name-tokens table (in_tokens schema) t (IsAfterName-in_tokens schema),
        parse_last_name-tokens schema n,
      )
      refl

parse_table_extended-tokens :
    (schema : Option ObjectName) (pattern : Str) (partition : Option Str)
    → IsOptionalName schema
    → IsClause partition
    → Parser.parse_table_extended (
        keyword (ascii "EXTENDED") ∷ in_tokens schema
        ++ (like_tokens (some pattern) ++ partition_tokens partition))
      ≡ ok (table_extended schema pattern partition)
unfolding Parser.parse_table_extended Parser.expect_keyword Parser.consume_keyword
    Parser.token_is_keyword Parser.expect_end like_tokens keyword bytes_eq
    harborsql.Base.Chars.eq_ignore_ascii_case
parse_table_extended-tokens schema pattern partition n c =
    rw
      (
        parse_optional_in_name-tokens schema
            (like_tokens (some pattern) ++ partition_tokens partition) n
            (IsAfterName-partition pattern partition),
        parse_pattern_until_partition-tokens pattern partition,
        parse_optional_partition-tokens partition c,
      )
      refl

-- No branch but that of a listing looks at a name behind it.
parse-show_tokens : (s : MetadataStatement) → IsWritten s → Parser.parse (show_tokens s) ≡ ok s
unfolding Parser.parse Parser.parse_branch Parser.take_branch Parser.expect_keyword
    Parser.consume_keyword Parser.peek_keyword Parser.token_is_keyword bytes_eq
    harborsql.Base.Chars.eq_ignore_ascii_case show_tokens keyword Parser.parse_schemas
    Parser.parse_tables Parser.parse_views like_tokens in_tokens statement_tokens
parse-show_tokens (catalogs pattern) w = parse_catalogs-tokens pattern
parse-show_tokens (schemas none none) w = parse_listing-tokens schemas none none w
parse-show_tokens (schemas none (some p)) w = parse_listing-tokens schemas none (some p) w
parse-show_tokens (schemas (some name) p) w = parse_listing-tokens schemas (some name) p w
parse-show_tokens (tables none none) w = parse_listing-tokens tables none none w
parse-show_tokens (tables none (some p)) w = parse_listing-tokens tables none (some p) w
parse-show_tokens (tables (some name) p) w = parse_listing-tokens tables (some name) p w
parse-show_tokens (views name p) w = parse_listing-tokens views name p w
parse-show_tokens (columns table schema) w = parse_columns-tokens table schema w.0 w.1
parse-show_tokens (table_extended schema p partition) w =
    parse_table_extended-tokens schema p partition w.0 w.1

starts_with_show-show_tokens :
    (s : MetadataStatement) (n : ℕ)
    → Parser.starts_with_show (show_tokens s ++ semi_colons n) ≡ true
unfolding Parser.starts_with_show show_tokens keyword bytes_eq
    harborsql.Base.Chars.eq_ignore_ascii_case
starts_with_show-show_tokens s n = refl

pub parse_tokens-show_tokens :
    (ts : List Token) (s : MetadataStatement) (n : ℕ)
    → IsWritten s
    → ts ≡ show_tokens s ++ semi_colons n
    → Parser.parse_tokens ts ≡ ok (some s)
unfolding Parser.parse_tokens
parse_tokens-show_tokens ts s n w e =
    rw
      (
        e,
        starts_with_show-show_tokens s n,
        drop_semi_colons-IsPlain (show_tokens s) n (IsPlain-show_tokens s),
        parse-show_tokens s w,
      )
      refl

parse_show_statement-read :
    (tokenize : Str → Str ⊎ List Token) (sql : Str) (ts : List Token)
    → tokenize sql ≡ inr ts
    → Parser.parse_show_statement tokenize sql ≡ Parser.parse_tokens (Parser.without_whitespace ts)
unfolding Parser.parse_show_statement
parse_show_statement-read tokenize sql ts e =
    ap
      (λ tokens. elim tokens [
        | inl error ↦ fail unsupported_sql (ascii "invalid SHOW statement: " ++ error)
        | inr ts ↦ Parser.parse_tokens (Parser.without_whitespace ts)
      ])
      e

-- A SHOW statement that is written out in tokens, with white space anywhere between them and any number of
-- semicolons at the end, is read as that statement.
pub parse_show_statement-show_tokens :
    (tokenize : Str → Str ⊎ List Token) (sql : Str) (ts : List Token) (s : MetadataStatement)
    (n : ℕ)
    → IsWritten s
    → tokenize sql ≡ inr ts
    → Parser.without_whitespace ts ≡ show_tokens s ++ semi_colons n
    → Parser.parse_show_statement tokenize sql ≡ ok (some s)
parse_show_statement-show_tokens tokenize sql ts s n w read filtered =
    parse_show_statement-read tokenize sql ts read
    ∙ parse_tokens-show_tokens (Parser.without_whitespace ts) s n w filtered
