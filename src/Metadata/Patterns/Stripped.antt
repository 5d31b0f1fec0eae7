-- ===== src/Metadata/Patterns/Stripped.antt =====
-- Patterns without a wildcard: `contains_metadata_wildcard` and `strip_metadata_escapes` of
-- src/engine/metadata/mod.rs, which let a name be looked up without a list of all names.
use harborsql.Base.{
  ℕ, ◌≡◌, ◌≢◌, refl, subst, sym, ◌∙◌, Bool, true, false, ◌||◌, ◌↔◌, inl, inr, Option, some, [], ◌∷◌,
  Str, ◌==◌, Bool-cases, arith,
}
use harborsql.Error.Outcome.{ok}
use harborsql.Metadata.Regexes.{Regexes}
use harborsql.Metadata.Patterns
use harborsql.Metadata.Patterns.Like.{
  Like, is_run, metadata_pattern_iff, like_end, like_last, like_escaped, like_escape, like_none,
  like_more, like_one, like_same,
}

-- Two texts that agree character by character.
abbrev pub Alike : (ℕ → ℕ → Bool) → Str → Str → Type 0
Alike same [] [] = Unit
Alike same (c ∷ t) (d ∷ u) = (same c d ≡ true) × Alike same t u
Alike same _ _ = ⊥

contains_from-escape :
    (c : ℕ) (p : Str)
    → (c == Patterns.backslash) ≡ true
    → Patterns.contains_from false (c ∷ p) ≡ Patterns.contains_from true p
unfolding Patterns.contains_from
contains_from-escape c p e = rw e refl

strip_from-escape :
    (c : ℕ) (p : Str)
    → (c == Patterns.backslash) ≡ true
    → Patterns.strip_from false (c ∷ p) ≡ Patterns.strip_from true p
unfolding Patterns.strip_from
strip_from-escape c p e = rw e refl

strip_from-other :
    (c : ℕ) (p : Str)
    → (c == Patterns.backslash) ≡ false
    → Patterns.strip_from false (c ∷ p) ≡ c ∷ Patterns.strip_from false p
unfolding Patterns.strip_from
strip_from-other c p e = rw e refl

-- A character that is neither a backslash nor a wildcard, before a pattern without a wildcard.
contains_from-other :
    (c : ℕ) (p : Str)
    → (c == Patterns.backslash) ≡ false
    → Patterns.contains_from false (c ∷ p) ≡ false
    → (Patterns.is_wildcard c || Patterns.contains_from false p) ≡ false
unfolding Patterns.contains_from
contains_from-other c p e = rw e (λ h. h)

or_left : (a b : Bool) → (a || b) ≡ false → a ≡ false
or_left true b h = absurd cc
or_left false b h = refl

or_right : (a b : Bool) → (a || b) ≡ false → b ≡ false
or_right true b h = absurd cc
or_right false b h = h

contains_from-wildcard :
    (c : ℕ) (p : Str) → Patterns.is_wildcard c ≡ true → Patterns.contains_from false (c ∷ p) ≡ true
unfolding Patterns.contains_from Patterns.is_wildcard
contains_from-wildcard c p w =
    rw (let e : (c == Patterns.backslash) ≡ false = ground (arith, w) in e, w) refl

run_is_wildcard : (c : ℕ) → is_run c ≡ true → Patterns.is_wildcard c ≡ true
unfolding is_run Patterns.is_wildcard
run_is_wildcard c h = ground (arith, h)

one_is_wildcard : (c : ℕ) → (c == Patterns.underscore) ≡ true → Patterns.is_wildcard c ≡ true
unfolding Patterns.is_wildcard
one_is_wildcard c h = ground (arith, h)

not_wildcard :
    {A : Type 0} (c : ℕ) (p : Str)
    → Patterns.is_wildcard c ≡ true
    → Patterns.contains_from false (c ∷ p) ≡ false
    → A
not_wildcard c p w h = absurd (let e = contains_from-wildcard c p w in cc)

Like-Alike :
    (same : ℕ → ℕ → Bool) (escaped : Bool) (p t : Str)
    → Patterns.contains_from escaped p ≡ false
    → Like same escaped p t
    → Alike same (Patterns.strip_from escaped p) t
unfolding Patterns.strip_from Patterns.contains_from
Like-Alike same _ _ _ n like_end = tt
Like-Alike same _ _ _ n (like_last h) = (h, tt)
Like-Alike same _ _ _ n (like_escaped {p = p} {t = t} h l) = (h, Like-Alike same false p t n l)
Like-Alike same _ _ _ n (like_escape {c = c} {p = p} {t = t} e l) =
    subst (λ u. Alike same u t) (sym (strip_from-escape c p e))
      (Like-Alike same true p t (sym (contains_from-escape c p e) ∙ n) l)
Like-Alike same _ _ _ n (like_none {c = c} {p = p} h l) = not_wildcard c p (run_is_wildcard c h) n
Like-Alike same _ _ _ n (like_more {c = c} {p = p} h dot l) =
    not_wildcard c p (run_is_wildcard c h) n
Like-Alike same _ _ _ n (like_one {c = c} {p = p} h dot l) =
    not_wildcard c p (one_is_wildcard c h) n
Like-Alike same _ _ _ n (like_same {c = c} {d = d} {p = p} {t = t} plain h l) =
    let e = or_left (c == Patterns.backslash) _ plain in
    subst (λ u. Alike same u (d ∷ t)) (sym (strip_from-other c p e))
      (
        h,
        Like-Alike same false p t
            (or_right (Patterns.is_wildcard c) _ (contains_from-other c p e n)) l,
      )

is_plain :
    (c : ℕ)
    → (c == Patterns.backslash) ≡ false
    → Patterns.is_wildcard c ≡ false
    → (c == Patterns.backslash || Patterns.is_wildcard c) ≡ false
is_plain c e w = rw (e, w) refl

Alike-Like :
    (same : ℕ → ℕ → Bool) (escaped : Bool) (p t : Str)
    → Patterns.contains_from escaped p ≡ false
    → Alike same (Patterns.strip_from escaped p) t
    → Like same escaped p t
unfolding Patterns.strip_from Patterns.contains_from
Alike-Like same false [] [] n a = like_end
Alike-Like same false [] (d ∷ t) n a = absurd a
Alike-Like same true [] [] n a = absurd a
Alike-Like same true [] (d ∷ []) n a = like_last a.0
Alike-Like same true [] (d ∷ e ∷ t) n a = absurd a.1
Alike-Like same true (c ∷ p) [] n a = absurd a
Alike-Like same true (c ∷ p) (d ∷ t) n a = like_escaped a.0 (Alike-Like same false p t n a.1)
Alike-Like same false (c ∷ p) t n a = elim (Bool-cases (c == Patterns.backslash)) [
  | inl e ↦ like_escape e (
      Alike-Like same true p t (sym (contains_from-escape c p e) ∙ n)
        (subst (λ u. Alike same u t) (strip_from-escape c p e) a))
  | inr e ↦
      let w = contains_from-other c p e n in
      next t (is_plain c e (or_left (Patterns.is_wildcard c) _ w))
        (λ u. Alike-Like same false p u (or_right (Patterns.is_wildcard c) _ w))
        (subst (λ u. Alike same u t) (strip_from-other c p e) a)
]
  where
    next :
        (t : Str)
        → (c == Patterns.backslash || Patterns.is_wildcard c) ≡ false
        → ((u : Str) → Alike same (Patterns.strip_from false p) u → Like same false p u)
        → Alike same (c ∷ Patterns.strip_from false p) t
        → Like same false (c ∷ p) t
    next [] plain f a = absurd a
    next (d ∷ u) plain f a = like_same plain a.0 (f u a.1)

-- A pattern without a wildcard matches exactly the names that agree, in either case of the letters, with the
-- text that `strip_metadata_escapes` leaves of it.
pub metadata_pattern-strip_metadata_escapes :
    (r : Regexes) (p t : Str) (x : Option r.Regex)
    → p ≢ []
    → Patterns.contains_metadata_wildcard p ≡ false
    → Patterns.metadata_pattern r (some p) ≡ ok x
    → (Patterns.matches r x t ≡ true) ↔ Alike r.same (Patterns.strip_metadata_escapes p) t
unfolding Patterns.contains_metadata_wildcard Patterns.strip_metadata_escapes
metadata_pattern-strip_metadata_escapes r p t x nonempty plain built =
    let m = metadata_pattern_iff r p x t built in
    (
      λ h. elim (m.0 h) [
        | inl e ↦ absurd (nonempty e)
        | inr l ↦ Like-Alike r.same false p t plain l
      ],
      λ a. m.1 (inr (Alike-Like r.same false p t plain a)),
    )
