-- ===== src/Metadata/Parser/Written.antt =====
-- What `parse` of src/engine/metadata/parser.rs returns, whatever the tokens are.
use harborsql.Base.{
  ℕ, zero, suc, Bool, true, false, Bool-cases, inl, inr, if◌then◌else◌, ◌≡◌, refl, sym, ap, ◌∙◌,
  Option, none, some, List, [], ◌∷◌, ◌++◌, append_assoc, Str, ascii, All,
}
use harborsql.Error.{unsupported_sql}
use harborsql.Error.Outcome.{
  Result, ok, err, ◌>>=◌, fail, Returns, Returns-bind, Returns-any, Returns-ok,
}
use harborsql.Metadata.Statements.{
  Token, lparen, rparen, ObjectName, MetadataStatement, catalogs, schemas, tables, views, columns,
  table_extended,
}
use harborsql.Metadata.Parser
use harborsql.Metadata.Parser.Printed.{
  IsName, IsOptionalName, IsClause, IsWritten, show_tokens, semi_colons,
}
use harborsql.Metadata.Parser.Printed.RoundTrip.{parse_tokens-show_tokens}

parse_object_name-IsName :
    (ts : List Token) → Returns (λ r. IsName r.0) (Parser.parse_object_name ts)
unfolding Parser.parse_object_name
parse_object_name-IsName ts =
    Returns-bind (λ _. Unit {0}) (λ r. IsName r.0) (Parser.parse_identifier ts) _
      (Returns-any (Parser.parse_identifier ts))
      (λ first _.
        Returns-bind (λ _. Unit {0}) (λ r. IsName r.0) (Parser.parse_more_parts first.1) _
          (Returns-any (Parser.parse_more_parts first.1)) (λ more _. tt))

optional_name-IsOptionalName :
    (ts : List Token) (rest : Option (List Token))
    → Returns (λ r. IsOptionalName r.0) (Parser.optional_name ts rest)
unfolding Parser.optional_name
optional_name-IsOptionalName ts none = tt
optional_name-IsOptionalName ts (some rest) =
    Returns-bind (λ r. IsName r.0) (λ r. IsOptionalName r.0) (Parser.parse_object_name rest) _
      (parse_object_name-IsName rest) (λ name n. n)

parse_optional_in_name-IsOptionalName :
    (ts : List Token) → Returns (λ r. IsOptionalName r.0) (Parser.parse_optional_in_name ts)
unfolding Parser.parse_optional_in_name
parse_optional_in_name-IsOptionalName ts =
    optional_name-IsOptionalName ts (Parser.consume_from_or_in ts)

required_name-IsName :
    (message : Str) (rest : Option (List Token))
    → Returns (λ r. IsName r.0) (Parser.required_name message rest)
unfolding Parser.required_name
required_name-IsName message none = tt
required_name-IsName message (some rest) = parse_object_name-IsName rest

expect_end-Returns :
    (P : MetadataStatement → Type 0) (s : MetadataStatement) (ts : List Token)
    → P s
    → Returns P (Parser.expect_end s ts)
unfolding Parser.expect_end
expect_end-Returns P s [] p = p
expect_end-Returns P s (t ∷ ts) p = tt

-- Parts that end with the closing parenthesis.
IsClosed : List Str → Type 0
IsClosed parts = (t : Str) × (Parser.concat parts ≡ t ++ (41 ∷ []))

IsClosed-∷ : (part : Str) (parts : List Str) → IsClosed parts → IsClosed (part ∷ parts)
unfolding IsClosed Parser.concat
IsClosed-∷ part parts (t, e) =
    (part ++ t, ap (λ u. part ++ u) e ∙ sym (append_assoc part t (41 ∷ [])))

IsClosedParse : Parser.Parse (List Str) → Type 0
IsClosedParse m = Returns (λ r. IsClosed r.0) m

-- The part of a token, and then parts that end with the closing parenthesis.
then-IsClosedParse :
    (part : Result Str) (m : Parser.Parse (List Str))
    → IsClosedParse m
    → IsClosedParse (do p ← part; rest ← m; ok (p ∷ rest.0, rest.1))
unfolding IsClosedParse
then-IsClosedParse (err e) m h = tt
then-IsClosedParse (ok part) m h =
    Returns-bind (λ r. IsClosed r.0) (λ r. IsClosed r.0) m _ h (λ rest c. IsClosed-∷ part rest.0 c)

partition_parts-IsClosedParse :
    (depth : ℕ) (ts : List Token) → IsClosedParse (Parser.partition_parts depth ts)
unfolding IsClosedParse Parser.partition_parts IsClosed Parser.concat
partition_parts-IsClosedParse depth [] = tt
partition_parts-IsClosedParse depth (lparen ∷ ts) =
    then-IsClosedParse (ok (ascii "(")) (Parser.partition_parts (suc depth) ts)
      (partition_parts-IsClosedParse (suc depth) ts)
partition_parts-IsClosedParse zero (rparen ∷ ts) = ([], refl)
partition_parts-IsClosedParse (suc depth) (rparen ∷ ts) =
    then-IsClosedParse (ok (ascii ")")) (Parser.partition_parts depth ts)
      (partition_parts-IsClosedParse depth ts)
partition_parts-IsClosedParse zero (token ∷ ts) =
    then-IsClosedParse (Parser.pattern_token token) (Parser.partition_parts zero ts)
      (partition_parts-IsClosedParse zero ts)
partition_parts-IsClosedParse (suc depth) (token ∷ ts) =
    then-IsClosedParse (Parser.pattern_token token) (Parser.partition_parts (suc depth) ts)
      (partition_parts-IsClosedParse (suc depth) ts)

partition_clause-IsClause :
    (ts : List Token) → Returns (λ r. IsClause r.0) (Parser.partition_clause ts)
unfolding IsClosedParse IsClosed Parser.partition_clause Parser.concat
partition_clause-IsClause (lparen ∷ ts) =
    Returns-bind (λ r. IsClosed r.0) (λ r. IsClause r.0) (Parser.partition_parts 0 ts) _
      (partition_parts-IsClosedParse 0 ts) (λ parts c. (c.0, ap (λ u. 40 ∷ u) c.1))
partition_clause-IsClause _ = tt

optional_partition-IsClause :
    (ts : List Token) (rest : Option (List Token))
    → Returns (λ r. IsClause r.0) (Parser.optional_partition ts rest)
unfolding Parser.optional_partition
optional_partition-IsClause ts none = tt
optional_partition-IsClause ts (some rest) = partition_clause-IsClause rest

parse_optional_partition-IsClause :
    (ts : List Token) → Returns (λ r. IsClause r.0) (Parser.parse_optional_partition ts)
unfolding Parser.parse_optional_partition
parse_optional_partition-IsClause ts =
    optional_partition-IsClause ts (Parser.consume_keyword (ascii "PARTITION") ts)

parse_listing-IsWritten :
    (statement : Option ObjectName → Option Str → MetadataStatement)
    → ((name : Option ObjectName) (p : Option Str)
        → IsOptionalName name
        → IsWritten (statement name p))
    → (ts : List Token) → Returns IsWritten (Parser.parse_listing statement ts)
unfolding Parser.parse_listing
parse_listing-IsWritten statement written ts =
    Returns-bind (λ r. IsOptionalName r.0) IsWritten (Parser.parse_optional_in_name ts) _
      (parse_optional_in_name-IsOptionalName ts)
      (λ name n.
        Returns-bind (λ _. Unit {0}) IsWritten (Parser.parse_optional_pattern name.1) _
          (Returns-any (Parser.parse_optional_pattern name.1))
          (λ p _. expect_end-Returns IsWritten (statement name.0 p.0) p.1 (written name.0 p.0 n)))

unless-IsWritten :
    (test : Bool) (text : Str) (m : Result MetadataStatement)
    → Returns IsWritten m
    → Returns IsWritten (if test then fail unsupported_sql text else m)
unless-IsWritten true text m h = tt
unless-IsWritten false text m h = h

parse_catalogs-IsWritten : (ts : List Token) → Returns IsWritten (Parser.parse_catalogs ts)
unfolding Parser.parse_catalogs
parse_catalogs-IsWritten ts = unless-IsWritten _ _ _ (
    Returns-bind (λ _. Unit {0}) IsWritten (Parser.parse_optional_pattern ts) _
      (Returns-any (Parser.parse_optional_pattern ts))
      (λ p _. expect_end-Returns IsWritten (catalogs p.0) p.1 tt))

parse_schemas-IsWritten : (ts : List Token) → Returns IsWritten (Parser.parse_schemas ts)
unfolding Parser.parse_schemas
parse_schemas-IsWritten ts =
    unless-IsWritten _ _ _ (parse_listing-IsWritten schemas (λ name p n. n) ts)

parse_tables-IsWritten : (ts : List Token) → Returns IsWritten (Parser.parse_tables ts)
unfolding Parser.parse_tables
parse_tables-IsWritten ts =
    unless-IsWritten _ _ _ (parse_listing-IsWritten tables (λ name p n. n) ts)

parse_views-IsWritten : (ts : List Token) → Returns IsWritten (Parser.parse_views ts)
unfolding Parser.parse_views
parse_views-IsWritten ts = parse_listing-IsWritten views (λ name p n. n) ts

parse_columns-IsWritten : (ts : List Token) → Returns IsWritten (Parser.parse_columns ts)
unfolding Parser.parse_columns Parser.parse_required_in_name
parse_columns-IsWritten ts =
    Returns-bind (λ r. IsName r.0) IsWritten (Parser.parse_required_in_name _ ts) _
      (required_name-IsName _ (Parser.consume_from_or_in ts))
      (λ table t.
        Returns-bind (λ r. IsOptionalName r.0) IsWritten (Parser.parse_optional_in_name table.1) _
          (parse_optional_in_name-IsOptionalName table.1)
          (λ schema n. expect_end-Returns IsWritten (columns table.0 schema.0) schema.1 (t, n)))

parse_table_extended-IsWritten :
    (ts : List Token) → Returns IsWritten (Parser.parse_table_extended ts)
unfolding Parser.parse_table_extended
parse_table_extended-IsWritten ts =
    Returns-bind (λ _. Unit {0}) IsWritten (Parser.expect_keyword (ascii "EXTENDED") ts) _
      (Returns-any (Parser.expect_keyword (ascii "EXTENDED") ts))
      (λ extended _.
        Returns-bind (λ r. IsOptionalName r.0) IsWritten (Parser.parse_optional_in_name extended) _
          (parse_optional_in_name-IsOptionalName extended)
          (λ schema n.
            Returns-bind (λ _. Unit {0}) IsWritten (Parser.expect_keyword (ascii "LIKE") schema.1) _
              (Returns-any (Parser.expect_keyword (ascii "LIKE") schema.1))
              (λ like _. behind_like schema.0 n like)))
  where
    behind_like :
        (schema : Option ObjectName)
        → IsOptionalName schema
        → (ts : List Token)
        → Returns IsWritten (do
          pattern ← Parser.parse_pattern_until_partition ts
          partition ← Parser.parse_optional_partition pattern.1
          Parser.expect_end (table_extended schema pattern.0 partition.0) partition.1)
    behind_like schema n ts =
        Returns-bind (λ _. Unit {0}) IsWritten (Parser.parse_pattern_until_partition ts) _
          (Returns-any (Parser.parse_pattern_until_partition ts))
          (λ p _.
            Returns-bind (λ r. IsClause r.0) IsWritten (Parser.parse_optional_partition p.1) _
              (parse_optional_partition-IsClause p.1)
              (λ c h. expect_end-Returns IsWritten (table_extended schema p.0 c.0) c.1 (n, h)))

take_branch-IsWritten :
    (branch : List Token → Result MetadataStatement) (others : Result MetadataStatement)
    (rest : Option (List Token))
    → ((ts : List Token) → Returns IsWritten (branch ts))
    → Returns IsWritten others
    → Returns IsWritten (Parser.take_branch branch others rest)
unfolding Parser.take_branch
take_branch-IsWritten branch others none b o = o
take_branch-IsWritten branch others (some rest) b o = b rest

parse_branch-IsWritten :
    (branches : List (Str × (List Token → Result MetadataStatement))) (ts : List Token)
    → All (λ branch. (rest : List Token) → Returns IsWritten (branch.1 rest)) branches
    → Returns IsWritten (Parser.parse_branch branches ts)
unfolding Parser.parse_branch
parse_branch-IsWritten [] ts h = tt
parse_branch-IsWritten ((keyword, branch) ∷ branches) ts h =
    take_branch-IsWritten branch _ (Parser.consume_keyword keyword ts) h.0
      (parse_branch-IsWritten branches ts h.1)

parse-IsWritten : (ts : List Token) → Returns IsWritten (Parser.parse ts)
unfolding Parser.parse
parse-IsWritten ts =
    Returns-bind (λ _. Unit {0}) IsWritten (Parser.expect_keyword (ascii "SHOW") ts) _
      (Returns-any (Parser.expect_keyword (ascii "SHOW") ts))
      (λ rest _. parse_branch-IsWritten Parser.branches rest (
        parse_catalogs-IsWritten,
        (
          parse_schemas-IsWritten,
          (
            parse_schemas-IsWritten,
            (
              parse_tables-IsWritten,
              (
                parse_views-IsWritten,
                (parse_columns-IsWritten, (parse_table_extended-IsWritten, tt)),
              ),
            ),
          ),
        ),
      ))

parse_tokens-IsWritten :
    (ts : List Token) (s : MetadataStatement) → Parser.parse_tokens ts ≡ ok (some s) → IsWritten s
unfolding Parser.parse_tokens
parse_tokens-IsWritten ts s = elim (Bool-cases (Parser.starts_with_show ts)) [
  | inl e ↦ rw e (λ h.
      Returns-ok IsSome _ (some s)
        (Returns-bind IsWritten IsSome (Parser.parse (Parser.drop_semi_colons ts)) _
          (parse-IsWritten (Parser.drop_semi_colons ts)) (λ s w. w))
        h)
  | inr e ↦ rw e (λ h. absurd cc)
]
  where
    IsSome : Option MetadataStatement → Type 0
    IsSome none = Unit
    IsSome (some s) = IsWritten s

-- Whatever tokens a statement was read from, the statement has a name for each namespace it mentions and a
-- clause in parentheses if it has a partition, and writing it out in tokens, with any number of semicolons,
-- and reading those gives the same statement.
pub parse_tokens-parse_tokens :
    (ts : List Token) (s : MetadataStatement) (n : ℕ)
    → Parser.parse_tokens ts ≡ ok (some s)
    → IsWritten s × (Parser.parse_tokens (show_tokens s ++ semi_colons n) ≡ ok (some s))
parse_tokens-parse_tokens ts s n h =
    let w = parse_tokens-IsWritten ts s h in
    (w, parse_tokens-show_tokens (show_tokens s ++ semi_colons n) s n w refl)
