-- ===== src/Metadata/Patterns.antt =====
-- The patterns of names: src/engine/metadata/pattern.rs, for SHOW, and `MetadataPattern` of
-- src/engine/metadata/mod.rs, for the columns that a driver asks for.
pub mod Like
pub mod Stripped
use harborsql.Base.{
  ℕ, Bool, true, false, not, ◌&&◌, ◌||◌, ◌⊎◌, inl, inr, Option, none, some, List, [], ◌∷◌, ◌++◌,
  Str, ascii, ◌==◌, if◌then◌else◌, trim,
}
use harborsql.Error.{unsupported_sql}
use harborsql.Error.Outcome.{Result, ok, fail, ◌>>=◌}
use harborsql.Metadata.Regexes.{Regexes}

-- The characters that a pattern gives a meaning.
abbrev pub percent : ℕ
percent = 37

abbrev pub star : ℕ
star = 42

abbrev pub underscore : ℕ
underscore = 95

abbrev pub backslash : ℕ
backslash = 92

unfoldable pub is_wildcard : ℕ → Bool
is_wildcard c = c == percent || c == underscore || c == star

-- The loop of `contains_metadata_wildcard`; the flag is `escaped`.
unfoldable pub contains_from : Bool → Str → Bool
contains_from escaped [] = false
contains_from true (c ∷ t) = contains_from false t
contains_from false (c ∷ t) =
    if c == backslash then contains_from true t else is_wildcard c || contains_from false t

unfoldable pub contains_metadata_wildcard : Str → Bool
contains_metadata_wildcard = contains_from false

-- The loop of `strip_metadata_escapes`; the flag tells that a backslash was just taken.
unfoldable pub strip_from : Bool → Str → Str
strip_from false [] = []
strip_from true [] = backslash ∷ []
strip_from true (c ∷ t) = c ∷ strip_from false t
strip_from false (c ∷ t) = if c == backslash then strip_from true t else c ∷ strip_from false t

unfoldable pub strip_metadata_escapes : Str → Str
strip_metadata_escapes = strip_from false

unfoldable pub show_regex_parts : Str → Str
show_regex_parts [] = []
show_regex_parts (c ∷ t) = (if c == star then ascii ".*" else c ∷ []) ++ show_regex_parts t

unfoldable pub databricks_show_regex : Str → Str
databricks_show_regex pattern = ascii "^(?:" ++ (show_regex_parts pattern ++ ascii ")$")

module _ (r : Regexes) where
  -- The loop of `metadata_pattern_regex`, with what follows it.
  unfoldable pub regex_from : Bool → Str → Str
  regex_from false [] = ascii "$"
  regex_from true [] = r.escape backslash ++ ascii "$"
  regex_from true (c ∷ t) = r.escape c ++ regex_from false t
  regex_from false (c ∷ t) =
      if c == backslash
      then regex_from true t
      else if c == percent || c == star
      then ascii ".*" ++ regex_from false t
      else if c == underscore
      then ascii "." ++ regex_from false t
      else r.escape c ++ regex_from false t

  unfoldable pub metadata_pattern_regex : Str → Str
  metadata_pattern_regex pattern = ascii "^" ++ regex_from false pattern

  -- `RegexBuilder::build`, and the error that the code makes of its own.
  unfoldable pub built_or : Str → Str ⊎ r.Regex → Result (Option r.Regex)
  built_or what (inl error) = fail unsupported_sql (what ++ (ascii "`: " ++ error))
  built_or what (inr regex) = ok (some regex)

  -- A pattern is its expression, and no pattern matches everything.
  unfoldable pub matches : Option r.Regex → Str → Bool
  matches none value = true
  matches (some regex) value = r.is_match regex value

  -- `ShowPattern::new`, of a pattern without the white space around it.
  unfoldable pub trimmed_show_pattern : Str → Result (Option r.Regex)
  trimmed_show_pattern [] = fail unsupported_sql (ascii "SHOW pattern cannot be empty")
  trimmed_show_pattern (c ∷ t) =
      built_or (ascii "invalid SHOW pattern `" ++ (c ∷ t)) (r.build (databricks_show_regex (c ∷ t)))

  unfoldable pub show_pattern : Option Str → Result (Option r.Regex)
  show_pattern none = ok none
  show_pattern (some pattern) = trimmed_show_pattern (trim pattern)

  -- `MetadataPattern::new`
  unfoldable pub metadata_pattern : Option Str → Result (Option r.Regex)
  metadata_pattern none = ok none
  metadata_pattern (some []) = ok none
  metadata_pattern (some (c ∷ t)) =
      built_or (ascii "invalid metadata pattern `" ++ (c ∷ t))
        (r.build (metadata_pattern_regex (c ∷ t)))
