-- ===== src/Metadata/Parser/Printed.antt =====
-- Statements written as tokens, as the parser of src/engine/metadata/parser.rs should read them.
pub mod Plain
pub mod RoundTrip
use harborsql.Base.{
  ℕ, zero, suc, ◌≡◌, refl, sym, ap, ◌∙◌, Bool, true, false, ◌&&◌, Option, none, some, List, [], ◌∷◌,
  ◌++◌, append_assoc, append-nil, map, All, All-append, Str, ascii, if◌then◌else◌, ◌==◌, ◌⊎◌, inl,
  inr,
}
use harborsql.Base.Text.{bytes_eq}
use harborsql.Error.{unsupported_sql}
use harborsql.Error.Outcome.{ok, fail}
use harborsql.Metadata.Statements.{
  Token, word, single_quoted_string, period, lparen, rparen, semi_colon, ObjectName,
  MetadataStatement, catalogs, schemas, tables, views, columns, table_extended,
}
use harborsql.Metadata.Parser

pub keyword : Str → Token
keyword value = word (record { value = value; quote_style = none })

-- An identifier in double quotes.
pub quoted : Str → Token
quoted value = word (record { value = value; quote_style = some 34 })

pub more_parts_tokens : List Str → List Token
more_parts_tokens [] = []
more_parts_tokens (t ∷ ts) = period ∷ quoted t ∷ more_parts_tokens ts

pub name_tokens : ObjectName → List Token
name_tokens [] = []
name_tokens (t ∷ ts) = quoted t ∷ more_parts_tokens ts

pub in_tokens : Option ObjectName → List Token
in_tokens none = []
in_tokens (some name) = keyword (ascii "IN") ∷ name_tokens name

pub like_tokens : Option Str → List Token
like_tokens none = []
like_tokens (some pattern) = keyword (ascii "LIKE") ∷ single_quoted_string pattern ∷ []

pub without_last : Str → Str
without_last [] = []
without_last (c ∷ []) = []
without_last (c ∷ d ∷ t) = c ∷ without_last (d ∷ t)

-- The text between the parentheses of a partition clause.
pub inner : Str → Str
inner [] = []
inner (c ∷ t) = without_last t

pub partition_tokens : Option Str → List Token
partition_tokens none = []
partition_tokens (some clause) =
    keyword (ascii "PARTITION") ∷ lparen ∷ single_quoted_string (inner clause) ∷ rparen ∷ []

pub statement_tokens : MetadataStatement → List Token
statement_tokens (catalogs pattern) = keyword (ascii "CATALOGS") ∷ like_tokens pattern
statement_tokens (schemas name pattern) =
    keyword (ascii "SCHEMAS") ∷ in_tokens name ++ like_tokens pattern
statement_tokens (tables name pattern) =
    keyword (ascii "TABLES") ∷ in_tokens name ++ like_tokens pattern
statement_tokens (views name pattern) =
    keyword (ascii "VIEWS") ∷ in_tokens name ++ like_tokens pattern
statement_tokens (columns table schema) =
    keyword (ascii "COLUMNS") ∷ in_tokens (some table) ++ in_tokens schema
statement_tokens (table_extended schema pattern partition) =
    keyword (ascii "TABLE") ∷ keyword (ascii "EXTENDED") ∷ in_tokens schema
    ++ (like_tokens (some pattern) ++ partition_tokens partition)

unfoldable pub show_tokens : MetadataStatement → List Token
unfolding statement_tokens in_tokens like_tokens partition_tokens keyword name_tokens quoted inner
    without_last more_parts_tokens
show_tokens s = keyword (ascii "SHOW") ∷ statement_tokens s

unfoldable pub semi_colons : ℕ → List Token
semi_colons zero = []
semi_colons (suc n) = semi_colon ∷ semi_colons n

-- A name has a part, and a partition clause stands in parentheses.
abbrev pub IsName : ObjectName → Type 0
IsName [] = ⊥
IsName (_ ∷ _) = Unit

abbrev pub IsOptionalName : Option ObjectName → Type 0
IsOptionalName none = Unit
IsOptionalName (some name) = IsName name

abbrev pub IsClause : Option Str → Type 0
IsClause none = Unit
IsClause (some clause) = (t : Str) × (clause ≡ 40 ∷ t ++ (41 ∷ []))

abbrev pub IsWritten : MetadataStatement → Type 0
IsWritten (catalogs pattern) = Unit
IsWritten (schemas name pattern) = IsOptionalName name
IsWritten (tables name pattern) = IsOptionalName name
IsWritten (views name pattern) = IsOptionalName name
IsWritten (columns table schema) = IsName table × IsOptionalName schema
IsWritten (table_extended schema pattern partition) = IsOptionalName schema × IsClause partition
