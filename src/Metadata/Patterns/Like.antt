-- ===== src/Metadata/Patterns/Like.antt =====
-- What a pattern of names stands for: `MetadataPattern` and its two companions in
-- src/engine/metadata/mod.rs, next to the wildcards as drivers use them.
use harborsql.Base.{
  ℕ, ◌≡◌, refl, sym, ap, ◌∙◌, Bool, true, false, ◌||◌, ◌⊎◌, ◌↔◌, inl, inr, Option, none, some, List,
  [], ◌∷◌, ◌++◌, append_assoc, Str, ascii, ◌==◌, if◌then◌else◌, Bool-cases, and_left, and_right,
  or_split, ==→eq, arith,
}
use harborsql.Error.Outcome.{ok}
use harborsql.Metadata.Regexes.{
  Regexes, Item, literal, any_one, any_run, write, is_dot, some_end, matches_all,
}
use harborsql.Metadata.Patterns

unfoldable pub is_run : ℕ → Bool
is_run c = c == Patterns.percent || c == Patterns.star

-- The text `t` is one that the pattern stands for, behind a backslash if the flag is set.
pub data Like (same : ℕ → ℕ → Bool) : Bool → Str → Str → Type 0 where
  like_end : Like same false [] []
  like_last : {d : ℕ} → same Patterns.backslash d ≡ true → Like same true [] (d ∷ [])
  like_escaped :
      {c d : ℕ} {p t : Str} → same c d ≡ true → Like same false p t → Like same true (c ∷ p) (d ∷ t)
  like_escape :
      {c : ℕ} {p t : Str}
      → (c == Patterns.backslash) ≡ true
      → Like same true p t
      → Like same false (c ∷ p) t
  like_none :
      {c : ℕ} {p t : Str} → is_run c ≡ true → Like same false p t → Like same false (c ∷ p) t
  like_more :
      {c d : ℕ} {p t : Str}
      → is_run c ≡ true
      → is_dot d ≡ true
      → Like same false (c ∷ p) t
      → Like same false (c ∷ p) (d ∷ t)
  like_one :
      {c d : ℕ} {p t : Str}
      → (c == Patterns.underscore) ≡ true
      → is_dot d ≡ true
      → Like same false p t
      → Like same false (c ∷ p) (d ∷ t)
  like_same :
      {c d : ℕ} {p t : Str}
      → (c == Patterns.backslash || Patterns.is_wildcard c) ≡ false
      → same c d ≡ true
      → Like same false p t
      → Like same false (c ∷ p) (d ∷ t)

-- The items that a pattern is made into.
pub items_from : Bool → Str → List Item
items_from false [] = []
items_from true [] = literal Patterns.backslash ∷ []
items_from true (c ∷ p) = literal c ∷ items_from false p
items_from false (c ∷ p) =
    if c == Patterns.backslash
    then items_from true p
    else if is_run c
    then any_run ∷ items_from false p
    else if c == Patterns.underscore
    then any_one ∷ items_from false p
    else literal c ∷ items_from false p

write_literal :
    (r : Regexes) (c : ℕ) (escaped : Bool) (p : Str)
    → Patterns.regex_from r escaped p ≡ write r.escape (items_from escaped p) ++ ascii "$"
    → r.escape c ++ Patterns.regex_from r escaped p
      ≡ r.escape c ++ write r.escape (items_from escaped p) ++ ascii "$"
write_literal r c escaped p e =
    ap (λ u. r.escape c ++ u) e
    ∙ sym (append_assoc (r.escape c) (write r.escape (items_from escaped p)) (ascii "$"))

regex_from-write :
    (r : Regexes) (escaped : Bool) (p : Str)
    → Patterns.regex_from r escaped p ≡ write r.escape (items_from escaped p) ++ ascii "$"
unfolding Patterns.regex_from write items_from is_run
regex_from-write r false [] = refl
regex_from-write r true [] = sym (append_assoc (r.escape Patterns.backslash) [] (ascii "$"))
regex_from-write r true (c ∷ p) = write_literal r c false p (regex_from-write r false p)
regex_from-write r false (c ∷ p) = elim (Bool-cases (c == Patterns.backslash)) [
  | inl e ↦ rw e (regex_from-write r true p)
  | inr e ↦ rw e (elim (Bool-cases (c == Patterns.percent || c == Patterns.star)) [
    | inl f ↦ rw f (ap (λ u. ascii ".*" ++ u) (regex_from-write r false p))
    | inr f ↦ rw f (elim (Bool-cases (c == Patterns.underscore)) [
      | inl g ↦ rw g (ap (λ u. ascii "." ++ u) (regex_from-write r false p))
      | inr g ↦ rw g (write_literal r c false p (regex_from-write r false p))
    ])
  ])
]

-- The item that a character is made into.
items_from-run :
    (c : ℕ) (p : Str) → is_run c ≡ true → items_from false (c ∷ p) ≡ any_run ∷ items_from false p
unfolding items_from is_run
items_from-run c p h =
    rw (let e : (c == Patterns.backslash) ≡ false = ground (arith, h) in e, h) refl

items_from-one :
    (c : ℕ) (p : Str)
    → (c == Patterns.underscore) ≡ true
    → items_from false (c ∷ p) ≡ any_one ∷ items_from false p
unfolding items_from is_run
items_from-one c p h = rw (==→eq c Patterns.underscore h) refl

items_from-literal :
    (c : ℕ) (p : Str)
    → (c == Patterns.backslash || Patterns.is_wildcard c) ≡ false
    → items_from false (c ∷ p) ≡ literal c ∷ items_from false p
unfolding items_from is_run Patterns.is_wildcard
items_from-literal c p h = ground (arith, h)

-- A text behind a run of characters that the dot stands for.
some_end-Like :
    (same : ℕ → ℕ → Bool) (c : ℕ) (p : Str) (test : Str → Bool)
    → is_run c ≡ true
    → ((t : Str) → test t ≡ true → Like same false p t)
    → (t : Str) → some_end same test t ≡ true
    → Like same false (c ∷ p) t
unfolding some_end
some_end-Like same c p test run found [] h = like_none run (found [] h)
some_end-Like same c p test run found (d ∷ t) h = elim (or_split (test (d ∷ t)) _ h) [
  | inl e ↦ like_none run (found (d ∷ t) e)
  | inr e ↦
      like_more run (and_left _ _ e)
        (some_end-Like same c p test run found t (and_right (is_dot d) _ e))
]

one-Like :
    (same : ℕ → ℕ → Bool) (c : ℕ) (p t : Str)
    → (c == Patterns.underscore) ≡ true
    → ((u : Str) → matches_all same (items_from false p) u ≡ true → Like same false p u)
    → matches_all same (any_one ∷ items_from false p) t ≡ true
    → Like same false (c ∷ p) t
unfolding matches_all
one-Like same c p [] one found h = absurd cc
one-Like same c p (d ∷ t) one found h =
    like_one one (and_left _ _ h) (found t (and_right (is_dot d) _ h))

literal-Like :
    (same : ℕ → ℕ → Bool) (c : ℕ) (p t : Str)
    → (c == Patterns.backslash || Patterns.is_wildcard c) ≡ false
    → ((u : Str) → matches_all same (items_from false p) u ≡ true → Like same false p u)
    → matches_all same (literal c ∷ items_from false p) t ≡ true
    → Like same false (c ∷ p) t
unfolding matches_all
literal-Like same c p [] plain found h = absurd cc
literal-Like same c p (d ∷ t) plain found h =
    like_same plain (and_left _ _ h) (found t (and_right (same c d) _ h))

is_plain :
    (c : ℕ)
    → (c == Patterns.backslash) ≡ false
    → is_run c ≡ false
    → (c == Patterns.underscore) ≡ false
    → (c == Patterns.backslash || Patterns.is_wildcard c) ≡ false
unfolding is_run Patterns.is_wildcard
is_plain c e f g = ground (arith, e, f, g)

matches_all-Like :
    (same : ℕ → ℕ → Bool) (escaped : Bool) (p t : Str)
    → matches_all same (items_from escaped p) t ≡ true
    → Like same escaped p t
unfolding matches_all items_from
matches_all-Like same false [] [] = λ h. like_end
matches_all-Like same false [] (d ∷ t) = λ h. absurd cc
matches_all-Like same true [] [] = λ h. absurd cc
matches_all-Like same true [] (d ∷ []) = λ h. like_last (and_left _ _ h)
matches_all-Like same true [] (d ∷ e ∷ t) =
    λ h. absurd (let f = and_right (same Patterns.backslash d) _ h in cc)
matches_all-Like same true (c ∷ p) [] = λ h. absurd cc
matches_all-Like same true (c ∷ p) (d ∷ t) =
    λ h. like_escaped (and_left _ _ h) (matches_all-Like same false p t (and_right (same c d) _ h))
matches_all-Like same false (c ∷ p) t = elim (Bool-cases (c == Patterns.backslash)) [
  | inl e ↦ rw e (λ h. like_escape e (matches_all-Like same true p t h))
  | inr e ↦ rw e (elim (Bool-cases (is_run c)) [
    | inl f ↦ rw f (λ h. some_end-Like same c p _ f (λ u. matches_all-Like same false p u) t h)
    | inr f ↦ rw f (elim (Bool-cases (c == Patterns.underscore)) [
      | inl g ↦ rw g (λ h. one-Like same c p t g (λ u. matches_all-Like same false p u) h)
      | inr g ↦
          rw g (λ h.
            literal-Like same c p t (is_plain c e f g) (λ u. matches_all-Like same false p u) h)
    ])
  ])
]

some_end-now :
    (same : ℕ → ℕ → Bool) (test : Str → Bool) (t : Str)
    → test t ≡ true
    → some_end same test t ≡ true
unfolding some_end
some_end-now same test [] h = h
some_end-now same test (d ∷ t) h = rw h refl

some_end-later :
    (same : ℕ → ℕ → Bool) (test : Str → Bool) (d : ℕ) (t : Str)
    → is_dot d ≡ true
    → some_end same test t ≡ true
    → some_end same test (d ∷ t) ≡ true
unfolding some_end
some_end-later same test d t dot h = elim (Bool-cases (test (d ∷ t))) [
  | inl e ↦ rw e refl
  | inr e ↦ rw (e, dot, h) refl
]

Like-matches_all :
    (same : ℕ → ℕ → Bool) (escaped : Bool) (p t : Str)
    → Like same escaped p t
    → matches_all same (items_from escaped p) t ≡ true
unfolding matches_all items_from some_end
Like-matches_all same _ _ _ like_end = refl
Like-matches_all same _ _ _ (like_last h) = rw h refl
Like-matches_all same _ _ _ (like_escaped {p = p} {t = t} h l) =
    rw (h, Like-matches_all same false p t l) refl
Like-matches_all same _ _ _ (like_escape {p = p} {t = t} h l) =
    rw h (Like-matches_all same true p t l)
Like-matches_all same _ _ _ (like_none {c = c} {p = p} {t = t} h l) =
    ap (λ items. matches_all same items t) (items_from-run c p h)
    ∙ some_end-now same (matches_all same (items_from false p)) t
        (Like-matches_all same false p t l)
Like-matches_all same _ _ _ (like_more {c = c} {d = d} {p = p} {t = t} h dot l) =
    ap (λ items. matches_all same items (d ∷ t)) (items_from-run c p h)
    ∙ some_end-later same (matches_all same (items_from false p)) d t dot (
        ap (λ items. matches_all same items t) (sym (items_from-run c p h))
        ∙ Like-matches_all same false (c ∷ p) t l)
Like-matches_all same _ _ _ (like_one {c = c} {d = d} {p = p} {t = t} h dot l) =
    ap (λ items. matches_all same items (d ∷ t)) (items_from-one c p h)
    ∙ rw (dot, Like-matches_all same false p t l) refl
Like-matches_all same _ _ _ (like_same {c = c} {d = d} {p = p} {t = t} plain h l) =
    ap (λ items. matches_all same items (d ∷ t)) (items_from-literal c p plain)
    ∙ rw (h, Like-matches_all same false p t l) refl

built_or-ok :
    (r : Regexes) (what : Str) (o : Str ⊎ r.Regex) (x : Option r.Regex)
    → Patterns.built_or r what o ≡ ok x
    → (regex : r.Regex) × (o ≡ inr regex) × (some regex ≡ x)
unfolding Patterns.built_or
built_or-ok r what (inl error) x h = absurd cc
built_or-ok r what (inr regex) x h = (regex, refl, cc)

-- A pattern that a driver sends and that the `regex` crate builds matches every name if the text is empty, and
-- otherwise exactly the names that the text stands for: `%` and `*` for any run of characters and `_` for
-- one character, but for the line feed, a character behind a backslash and every further character for
-- itself, in either case.
pub metadata_pattern_iff :
    (r : Regexes) (p : Str) (x : Option r.Regex) (t : Str)
    → Patterns.metadata_pattern r (some p) ≡ ok x
    → (Patterns.matches r x t ≡ true) ↔ ((p ≡ []) ⊎ Like r.same false p t)
unfolding Patterns.metadata_pattern Patterns.matches Patterns.metadata_pattern_regex
metadata_pattern_iff r [] x t h =
    let same : none ≡ x = cc in (λ _. inl refl, λ _. ap (λ y. Patterns.matches r y t) (sym same))
metadata_pattern_iff r (c ∷ p) x t h =
    let (regex, e, same) =
      built_or-ok r _ (r.build (ascii "^" ++ Patterns.regex_from r false (c ∷ p))) x h in
    let match : r.is_match regex t ≡ matches_all r.same (items_from false (c ∷ p)) t =
      r.built (items_from false (c ∷ p)) regex t
        (ap (λ u. r.build (ascii "^" ++ u)) (sym (regex_from-write r false (c ∷ p))) ∙ e) in
    let whole = ap (λ y. Patterns.matches r y t) (sym same) ∙ match in
    (
      λ h. inr (matches_all-Like r.same false (c ∷ p) t (sym whole ∙ h)),
      λ found. elim found [
        | inl e ↦ absurd cc
        | inr l ↦ whole ∙ Like-matches_all r.same false (c ∷ p) t l
      ],
    )
