-- ===== src/Metadata/Parser/Printed/Plain.antt =====
-- The semicolons at the end of a statement: `ShowParser::new` of src/engine/metadata/parser.rs drops them and no
-- other token of a statement.
use harborsql.Base.{
  ℕ, zero, suc, ◌≡◌, refl, ap, ◌∙◌, false, Option, none, some, List, [], ◌∷◌, ◌++◌, All, All-append,
  Str,
}
use harborsql.Metadata.Statements.{
  Token, semi_colon, ObjectName, MetadataStatement, catalogs, schemas, tables, views, columns,
  table_extended,
}
use harborsql.Metadata.Parser
use harborsql.Metadata.Parser.Printed.{
  keyword, quoted, more_parts_tokens, name_tokens, in_tokens, like_tokens, partition_tokens,
  statement_tokens, show_tokens, semi_colons,
}

-- Tokens without a semicolon.
pub IsPlain : List Token → Type 0
IsPlain ts = All (λ t. Parser.is_semi_colon t ≡ false) ts

drop_semi_colons-semi_colons : (n : ℕ) → Parser.drop_semi_colons (semi_colons n) ≡ []
unfolding Parser.drop_semi_colons Parser.keep_token semi_colons Parser.is_semi_colon
drop_semi_colons-semi_colons zero = refl
drop_semi_colons-semi_colons (suc n) =
    ap (Parser.keep_token semi_colon) (drop_semi_colons-semi_colons n)

keep_token-plain :
    (t : Token) (ts : List Token) → Parser.is_semi_colon t ≡ false → Parser.keep_token t ts ≡ t ∷ ts
unfolding Parser.keep_token
keep_token-plain t [] p = rw p refl
keep_token-plain t (u ∷ ts) p = refl

pub drop_semi_colons-IsPlain :
    (ts : List Token) (n : ℕ) → IsPlain ts → Parser.drop_semi_colons (ts ++ semi_colons n) ≡ ts
unfolding Parser.drop_semi_colons IsPlain
drop_semi_colons-IsPlain [] n p = drop_semi_colons-semi_colons n
drop_semi_colons-IsPlain (t ∷ ts) n p =
    ap (Parser.keep_token t) (drop_semi_colons-IsPlain ts n p.1) ∙ keep_token-plain t ts p.0

IsPlain-more_parts : (ts : List Str) → IsPlain (more_parts_tokens ts)
unfolding IsPlain more_parts_tokens quoted Parser.is_semi_colon
IsPlain-more_parts [] = tt
IsPlain-more_parts (t ∷ ts) = (refl, (refl, IsPlain-more_parts ts))

IsPlain-in_tokens : (name : Option ObjectName) → IsPlain (in_tokens name)
unfolding IsPlain in_tokens name_tokens quoted keyword Parser.is_semi_colon
IsPlain-in_tokens none = tt
IsPlain-in_tokens (some []) = (refl, tt)
IsPlain-in_tokens (some (t ∷ ts)) = (refl, (refl, IsPlain-more_parts ts))

IsPlain-like_tokens : (pattern : Option Str) → IsPlain (like_tokens pattern)
unfolding IsPlain like_tokens keyword Parser.is_semi_colon
IsPlain-like_tokens none = tt
IsPlain-like_tokens (some pattern) = (refl, (refl, tt))

IsPlain-partition_tokens : (partition : Option Str) → IsPlain (partition_tokens partition)
unfolding IsPlain partition_tokens keyword Parser.is_semi_colon
IsPlain-partition_tokens none = tt
IsPlain-partition_tokens (some clause) = (refl, (refl, (refl, (refl, tt))))

IsPlain-listing :
    (name : Option ObjectName) (ts : List Token) → IsPlain ts → IsPlain (in_tokens name ++ ts)
unfolding IsPlain
IsPlain-listing name ts =
    All-append (λ t. Parser.is_semi_colon t ≡ false) (in_tokens name) ts (IsPlain-in_tokens name)

pub IsPlain-show_tokens : (s : MetadataStatement) → IsPlain (show_tokens s)
unfolding IsPlain show_tokens statement_tokens keyword Parser.is_semi_colon
IsPlain-show_tokens (catalogs p) = (refl, (refl, IsPlain-like_tokens p))
IsPlain-show_tokens (schemas name p) =
    (refl, (refl, IsPlain-listing name _ (IsPlain-like_tokens p)))
IsPlain-show_tokens (tables name p) = (refl, (refl, IsPlain-listing name _ (IsPlain-like_tokens p)))
IsPlain-show_tokens (views name p) = (refl, (refl, IsPlain-listing name _ (IsPlain-like_tokens p)))
IsPlain-show_tokens (columns table schema) =
    (refl, (refl, IsPlain-listing (some table) _ (IsPlain-in_tokens schema)))
IsPlain-show_tokens (table_extended schema p partition) =
    let rest =
      All-append (λ t. Parser.is_semi_colon t ≡ false) (like_tokens (some p)) _
        (IsPlain-like_tokens (some p)) (IsPlain-partition_tokens partition) in
    (refl, (refl, (refl, IsPlain-listing schema _ rest)))
