-- ===== src/Base/Sort/Members.antt =====
-- Sorting and what holds of the elements of a list.
use mathlib.Core.Path.{◌≡◌, refl, ap, ◌∙◌}
use mathlib.Core.Bool.{Bool}
use mathlib.Core.List.{List, [], ◌∷◌}
use mathlib.Core.Logic.{inl, inr}
use harborsql.Base.Tests.{Bool-cases}
use harborsql.Base.Lists.{All}
use harborsql.Base.Sort.{insert, sort_by}

module _ {ℓ κ} {A : Type ℓ} (P : A → Type κ) (le : A → A → Bool) where
  All-insert : (x : A) (xs : List A) → P x → All P xs → All P (insert le x xs)
  unfolding insert
  All-insert x [] p h = (p, h)
  All-insert x (y ∷ ys) p h = elim (Bool-cases (le x y)) [
    | inl e ↦ rw e (p, h)
    | inr e ↦ rw e (h.0, All-insert x ys p h.1)
  ]

  pub All-sort_by : (xs : List A) → All P xs → All P (sort_by le xs)
  unfolding sort_by
  All-sort_by [] h = h
  All-sort_by (x ∷ xs) h = All-insert x (sort_by le xs) h.0 (All-sort_by xs h.1)

-- Two orders that agree on the elements of a list sort it alike.
module _ {ℓ κ} {A : Type ℓ} (P : A → Type κ) (le le' : A → A → Bool)
    (agree : (x y : A) → P x → P y → le x y ≡ le' x y) where
  insert-insert : (x : A) (xs : List A) → P x → All P xs → insert le x xs ≡ insert le' x xs
  unfolding insert
  insert-insert x [] p h = refl
  insert-insert x (y ∷ ys) p h = rw (agree x y p h.0, insert-insert x ys p h.1) refl

  pub sort_by-sort_by : (xs : List A) → All P xs → sort_by le xs ≡ sort_by le' xs
  unfolding sort_by
  sort_by-sort_by [] h = refl
  sort_by-sort_by (x ∷ xs) h =
      ap (insert le x) (sort_by-sort_by xs h.1)
      ∙ insert-insert x (sort_by le' xs) h.0 (All-sort_by P le' xs h.1)
