-- ===== src/Metadata/Regexes/Plain.antt =====
-- A regular expression library for the expressions that src/engine/metadata/mod.rs writes: it puts a backslash
-- before every literal character, reads the items back from the text, and compares characters as ASCII does
-- without case.
use harborsql.Base.{
  ℕ, ◌≡◌, refl, sym, ◌∙◌, ap, Bool, ◌⊎◌, inl, inr, Option, none, some, List, [], ◌∷◌, ◌++◌, ◌&&◌,
  drop, Str, ascii, ◌==◌, if◌then◌else◌, to_ascii_lowercase,
}
use harborsql.Metadata.Regexes.{Item, literal, any_one, any_run, write, matches_all, Regexes}

abbrev pub escape : ℕ → Str
escape c = 92 ∷ c ∷ []

-- An item before the ones behind it.
push : Item → Option (List Item) → Option (List Item)
push item none = none
push item (some items) = some (item ∷ items)

read : Str → Option (List Item)
read [] = none
read (c ∷ []) = if c == 36 then some [] else none
read (c ∷ d ∷ t) =
    if c == 92
    then push (literal d) (read t)
    else if c == 46
    then (if d == 42 then push any_run (read t) else push any_one (read (d ∷ t)))
    else none

read-write : (items : List Item) → read (write escape items ++ ascii "$") ≡ some items
unfolding read write push
read-write [] = refl
read-write (literal c ∷ items) = ap (push (literal c)) (read-write items)
read-write (any_run ∷ items) = ap (push any_run) (read-write items)
read-write (any_one ∷ []) = refl
read-write (any_one ∷ literal c ∷ items) = ap (push any_one) (read-write (literal c ∷ items))
read-write (any_one ∷ any_run ∷ items) = ap (push any_one) (read-write (any_run ∷ items))
read-write (any_one ∷ any_one ∷ items) = ap (push any_one) (read-write (any_one ∷ items))

-- The inside of the group that a SHOW pattern is put into, where every character but a run is literal.
read_group : Str → Option (List Item)
read_group [] = none
read_group (c ∷ []) = none
read_group (c ∷ d ∷ t) =
    if c == 46 && d == 42
    then push any_run (read_group t)
    else if c == 41 && d == 36
    then some []
    else push (literal c) (read_group (d ∷ t))

-- An expression behind `^`; the group opens with `(?:`.
read_body : Str → Option (List Item)
read_body [] = none
read_body (c ∷ t) = if c == 40 then read_group (drop 2 t) else read (c ∷ t)

read_whole : Str → Option (List Item)
read_whole [] = none
read_whole (c ∷ t) = if c == 94 then read_body t else none

read_body-write : (items : List Item) → read_body (write escape items ++ ascii "$") ≡ some items
unfolding read_body write
read_body-write [] = read-write []
read_body-write (literal c ∷ items) = read-write (literal c ∷ items)
read_body-write (any_one ∷ items) = read-write (any_one ∷ items)
read_body-write (any_run ∷ items) = read-write (any_run ∷ items)

found : Option (List Item) → Str ⊎ List Item
found none = inl (ascii "not an expression of items")
found (some items) = inr items

unfoldable pub build : Str → Str ⊎ List Item
unfolding found read_whole read_body read_group read push
build t = found (read_whole t)

unfoldable pub same_letter : ℕ → ℕ → Bool
same_letter a b = to_ascii_lowercase a == to_ascii_lowercase b

pub build-write :
    (items : List Item) → build (ascii "^" ++ (write escape items ++ ascii "$")) ≡ inr items
unfolding build read_whole found
build-write items = ap found (read_body-write items)

pub is_match-build :
    (items regex : List Item) (t : Str)
    → build (ascii "^" ++ (write escape items ++ ascii "$")) ≡ inr regex
    → matches_all same_letter regex t ≡ matches_all same_letter items t
is_match-build items regex t e =
    let same : items ≡ regex = let b = sym (build-write items) ∙ e in cc in
    ap (λ xs. matches_all same_letter xs t) (sym same)

unfoldable pub plain_regexes : Regexes
unfolding build same_letter
plain_regexes = record {
  Regex = List Item;
  build = build;
  is_match = matches_all same_letter;
  escape = escape;
  same = same_letter;
  built = λ items regex t e. is_match-build items regex t e;
}
