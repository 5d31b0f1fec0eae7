-- ===== src/Metadata/Regexes.antt =====
-- What the code uses of the `regex` crate, built with `case_insensitive(true)`, and a library that meets it.
-- The code writes expressions of a small part of the syntax: `Item` is one piece, and `write` its text.
pub mod Plain
use harborsql.Base.{
  ℕ, ◌≡◌, Bool, true, false, ◌&&◌, ◌||◌, not, ◌⊎◌, inl, inr, List, [], ◌∷◌, ◌++◌, Str, ascii, ◌==◌,
}

-- `literal c` is the character, written as `regex::escape` writes it; `any_one` is `.` and `any_run` is `.*`.
pub data Item : Type 0 where
  literal : ℕ → Item
  any_one any_run : Item

unfoldable pub write : (ℕ → Str) → List Item → Str
write escape [] = []
write escape (literal c ∷ items) = escape c ++ write escape items
write escape (any_one ∷ items) = ascii "." ++ write escape items
write escape (any_run ∷ items) = ascii ".*" ++ write escape items

-- The dot stands for any character but the line feed.
unfoldable pub is_dot : ℕ → Bool
is_dot c = not (c == 10)

-- Whether items match a whole text; `same` compares two characters without their case.
module _ (same : ℕ → ℕ → Bool) where
  -- Some end of the text, behind characters that the dot stands for, passes the test.
  unfoldable pub some_end : (Str → Bool) → Str → Bool
  some_end test [] = test []
  some_end test (d ∷ t) = test (d ∷ t) || is_dot d && some_end test t

  unfoldable pub matches_all : List Item → Str → Bool
  matches_all [] [] = true
  matches_all [] (d ∷ t) = false
  matches_all (literal c ∷ items) [] = false
  matches_all (literal c ∷ items) (d ∷ t) = same c d && matches_all items t
  matches_all (any_one ∷ items) [] = false
  matches_all (any_one ∷ items) (d ∷ t) = is_dot d && matches_all items t
  matches_all (any_run ∷ items) t = some_end (matches_all items) t

pub record Regexes : Type 1 where
  pub Regex : Type 0
  pub build : Str → Str ⊎ Regex
  pub is_match : Regex → Str → Bool
  pub escape : ℕ → Str
  pub same : ℕ → ℕ → Bool
  -- An expression of items between `^` and `$` that builds, and need not when it is too large, matches the texts
  -- that the items match.
  pub built :
      (items : List Item) (regex : Regex) (t : Str)
      → build (ascii "^" ++ (write escape items ++ ascii "$")) ≡ inr regex
      → is_match regex t ≡ matches_all same items t
