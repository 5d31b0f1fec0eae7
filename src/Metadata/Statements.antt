-- ===== src/Metadata/Statements.antt =====
-- The statements of src/engine/metadata/mod.rs, and the tokens that they are read from. A text is its
-- characters. Tokens are those of the `sqlparser` crate that the parser names; `other` is any further one,
-- with the text that it displays.
use harborsql.Base.{ℕ, Bool, true, false, Option, List, Str}

pub record Word : Type 0 where
  pub value : Str
  pub quote_style : Option ℕ

pub data Token : Type 0 where
  word : Word → Token
  single_quoted_string double_quoted_string escaped_string_literal national_string_literal :
      Str → Token
  number : Str → Bool → Token
  mul pipe period eq comma lparen rparen semi_colon : Token
  space : Token
  whitespace : Str → Token
  other : Str → Token

unfoldable pub is_whitespace : Token → Bool
is_whitespace space = true
is_whitespace (whitespace _) = true
is_whitespace _ = false

-- `Vec<String>`, which the parser never leaves empty.
abbrev pub ObjectName : Type 0
ObjectName = List Str

pub data MetadataStatement : Type 0 where
  catalogs : Option Str → MetadataStatement
  schemas tables views : Option ObjectName → Option Str → MetadataStatement
  columns : ObjectName → Option ObjectName → MetadataStatement
  table_extended : Option ObjectName → Str → Option Str → MetadataStatement
