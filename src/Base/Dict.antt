-- ===== src/Base/Dict.antt =====
-- A hash map with texts for keys, as a list of its entries. The code depends on no order of a map.
use Prim.Native.Nat.{◌+◌, ◌≤◌}
use mathlib.Core.Path.{◌≡◌, refl}
use mathlib.Core.Logic.{inl, inr}
use mathlib.Core.Bool.{Bool, not}
use mathlib.Core.Option.{Option, none, some}
use mathlib.Core.List.{List, [], ◌∷◌}
use native.Mathlib.Omega.{arith}
use harborsql.Base.Tests.{if◌then◌else◌, Bool-cases}
use harborsql.Base.Lists.{length}
use harborsql.Base.Text.{Bytes, bytes_eq, bytes_eq_iff}

abbrev pub Dict {ℓ} : Type ℓ → Type ℓ
Dict V = List (Bytes × V)

module _ {ℓ} {V : Type ℓ} where
  unfoldable pub get : Bytes → Dict V → Option V
  get k [] = none
  get k ((j, v) ∷ m) = if bytes_eq j k then some v else get k m

  unfoldable pub insert : Bytes → V → Dict V → Dict V
  insert k v [] = (k, v) ∷ []
  insert k v ((j, w) ∷ m) = if bytes_eq j k then (j, v) ∷ m else (j, w) ∷ insert k v m

  -- A write through `get_mut`.
  unfoldable pub update : Bytes → (V → V) → Dict V → Dict V
  update k f [] = []
  update k f ((j, w) ∷ m) = if bytes_eq j k then (j, f w) ∷ m else (j, w) ∷ update k f m

  unfoldable pub retain : (Bytes → V → Bool) → Dict V → Dict V
  retain keep [] = []
  retain keep ((j, w) ∷ m) = let kept = retain keep m in if keep j w then (j, w) ∷ kept else kept

  unfoldable pub remove : Bytes → Dict V → Dict V
  remove k m = retain (λ j _. not (bytes_eq j k)) m

  -- Every key has one entry.
  abbrev pub Distinct : Dict V → Type ℓ
  Distinct [] = Unit {ℓ}
  Distinct ((j, w) ∷ m) = (get j m ≡ none) × Distinct m

  abbrev pub kept : (Bytes → V → Bool) → Bytes → Option V → Option V
  kept keep k none = none
  kept keep k (some v) = if keep k v then some v else none

  abbrev pub map_some : (V → V) → Option V → Option V
  map_some f none = none
  map_some f (some v) = some (f v)

module _ {ℓ} {V : Type ℓ} where
  pub get-insert :
      (k j : Bytes) (v : V) (m : Dict V)
      → get j (insert k v m) ≡ (if bytes_eq k j then some v else get j m)
  unfolding get insert
  get-insert k j v [] = refl
  get-insert k j v ((i, w) ∷ m) =
      ground (arith, bytes_eq_iff k j, bytes_eq_iff i k, bytes_eq_iff i j, get-insert k j v m)

  pub get-update :
      (k j : Bytes) (f : V → V) (m : Dict V)
      → get j (update k f m) ≡ (if bytes_eq k j then map_some f (get j m) else get j m)
  unfolding get update
  get-update k j f [] = ground arith
  get-update k j f ((i, w) ∷ m) =
      ground (arith, bytes_eq_iff k j, bytes_eq_iff i k, bytes_eq_iff i j, get-update k j f m)

  pub get-retain-none :
      (keep : Bytes → V → Bool) (k : Bytes) (m : Dict V)
      → get k m ≡ none
      → get k (retain keep m) ≡ none
  unfolding get retain
  get-retain-none keep k [] h = refl
  get-retain-none keep k ((j, w) ∷ m) h = ground (arith, get-retain-none keep k m)

  pub get-retain :
      (keep : Bytes → V → Bool) (k : Bytes) (m : Dict V)
      → Distinct m
      → get k (retain keep m) ≡ kept keep k (get k m)
  unfolding get retain
  get-retain keep k [] d = refl
  get-retain keep k ((j, w) ∷ m) d =
      ground (arith, bytes_eq_iff j k, get-retain keep k m, get-retain-none keep k m)

  pub Distinct-retain :
      (keep : Bytes → V → Bool) (m : Dict V) → Distinct m → Distinct (retain keep m)
  unfolding retain
  Distinct-retain keep [] d = tt
  Distinct-retain keep ((j, w) ∷ m) d = elim (Bool-cases (keep j w)) [
    | inl e ↦ rw e (get-retain-none keep j m d.0, Distinct-retain keep m d.1)
    | inr e ↦ rw e (Distinct-retain keep m d.1)
  ]

  pub Distinct-insert : (k : Bytes) (v : V) (m : Dict V) → Distinct m → Distinct (insert k v m)
  unfolding insert
  Distinct-insert k v [] d = (unfold get in refl, tt)
  Distinct-insert k v ((j, w) ∷ m) d = elim (Bool-cases (bytes_eq j k)) [
    | inl e ↦ rw e d
    | inr e ↦ rw e (
      ground (arith, get-insert k j v m, bytes_eq_iff j k, bytes_eq_iff k j),
      Distinct-insert k v m d.1,
    )
  ]

  pub Distinct-update : (k : Bytes) (f : V → V) (m : Dict V) → Distinct m → Distinct (update k f m)
  unfolding update
  Distinct-update k f [] d = tt
  Distinct-update k f ((j, w) ∷ m) d = elim (Bool-cases (bytes_eq j k)) [
    | inl e ↦ rw e d
    | inr e ↦ rw e (
      ground (arith, get-update k j f m, bytes_eq_iff j k, bytes_eq_iff k j),
      Distinct-update k f m d.1,
    )
  ]

  pub length-retain : (keep : Bytes → V → Bool) (m : Dict V) → length (retain keep m) ≤ length m
  unfolding retain
  length-retain keep [] = omega arith
  length-retain keep ((j, w) ∷ m) = ground (arith, length-retain keep m)

  pub length-update : (k : Bytes) (f : V → V) (m : Dict V) → length (update k f m) ≡ length m
  unfolding update
  length-update k f [] = refl
  length-update k f ((j, w) ∷ m) = ground (arith, length-update k f m)

  pub length-insert : (k : Bytes) (v : V) (m : Dict V) → length (insert k v m) ≤ length m + 1
  unfolding insert
  length-insert k v [] = omega arith
  length-insert k v ((j, w) ∷ m) = ground (arith, length-insert k v m)

  pub get-remove :
      (k j : Bytes) (m : Dict V) → get j (remove k m) ≡ (if bytes_eq k j then none else get j m)
  unfolding get remove retain
  get-remove k j [] = ground arith
  get-remove k j ((i, w) ∷ m) =
      ground (arith, bytes_eq_iff i k, bytes_eq_iff i j, bytes_eq_iff k j, get-remove k j m)
