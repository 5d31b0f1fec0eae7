-- ===== src/Base/Sort.antt =====
-- `sort_by`, which keeps the order of elements that are alike.
pub mod Members
use mathlib.Core.Path.{◌≡◌}
use mathlib.Core.Bool.{Bool, true, false}
use mathlib.Core.List.{List, [], ◌∷◌, Perm}
use mathlib.Core.Logic.{◌⊎◌, inl, inr}
use mathlib.Core.List.Perm
use harborsql.Base.Tests.{if◌then◌else◌, Bool-cases}

module _ {ℓ} {A : Type ℓ} (le : A → A → Bool) where
  unfoldable pub insert : A → List A → List A
  insert x [] = x ∷ []
  insert x (y ∷ ys) = let rest = insert x ys in if le x y then x ∷ y ∷ ys else y ∷ rest

  unfoldable pub sort_by : List A → List A
  sort_by [] = []
  sort_by (x ∷ xs) = insert x (sort_by xs)

  -- Neighbours are in order.
  abbrev pub IsSorted : List A → Type 0
  IsSorted [] = Unit
  IsSorted (x ∷ []) = Unit
  IsSorted (x ∷ y ∷ ys) = (le x y ≡ true) × IsSorted (y ∷ ys)

  -- One of two elements may stand before the other.
  abbrev pub IsTotal : Type ℓ
  IsTotal = (x y : A) → (le x y ≡ true) ⊎ (le y x ≡ true)

  insert-Perm : (x : A) (xs : List A) → Perm (insert x xs) (x ∷ xs)
  unfolding insert
  insert-Perm x [] = Perm.refl _
  insert-Perm x (y ∷ ys) = elim (Bool-cases (le x y)) [
    | inl e ↦ rw e (Perm.refl (x ∷ y ∷ ys))
    | inr e ↦ rw e (Perm.trans (Perm.cons y (insert-Perm x ys)) (Perm.swap x y ys))
  ]

  pub sort_by-Perm : (xs : List A) → Perm (sort_by xs) xs
  unfolding sort_by
  sort_by-Perm [] = Perm.nil
  sort_by-Perm (x ∷ xs) = Perm.trans (insert-Perm x (sort_by xs)) (Perm.cons x (sort_by-Perm xs))

  flip : (total : IsTotal) (x y : A) → le x y ≡ false → le y x ≡ true
  flip total x y e = elim (total x y) [ inl h ↦ absurd cc | inr h ↦ h ]

  insert_behind :
      (total : IsTotal) (x y : A) (ys : List A)
      → le y x ≡ true
      → IsSorted (y ∷ ys)
      → IsSorted (y ∷ insert x ys)
  unfolding insert
  insert_behind total x y [] h s = (h, tt)
  insert_behind total x y (z ∷ zs) h s = elim (Bool-cases (le x z)) [
    | inl e ↦ rw e (h, (e, s.1))
    | inr e ↦ rw e (s.0, insert_behind total x z zs (flip total x z e) s.1)
  ]

  insert-IsSorted : (total : IsTotal) (x : A) (xs : List A) → IsSorted xs → IsSorted (insert x xs)
  unfolding insert
  insert-IsSorted total x [] s = tt
  insert-IsSorted total x (y ∷ ys) s = elim (Bool-cases (le x y)) [
    | inl e ↦ rw e (e, s)
    | inr e ↦ rw e (insert_behind total x y ys (flip total x y e) s)
  ]

  pub sort_by-IsSorted : (total : IsTotal) (xs : List A) → IsSorted (sort_by xs)
  unfolding sort_by
  sort_by-IsSorted total [] = tt
  sort_by-IsSorted total (x ∷ xs) = insert-IsSorted total x (sort_by xs) (sort_by-IsSorted total xs)
