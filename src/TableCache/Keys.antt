-- ===== src/TableCache/Keys.antt =====
-- The map from keys to slots in `TableCacheInner` of src/table_cache.rs, as a list of its entries.
use harborsql.Base.{
  ℕ, ◌≤◌, ◌≡◌, Bool, true, false, not, ◌&&◌, Option, none, some, List, [], ◌∷◌, Bytes, length, ◌==◌,
  All, arith, Bool-cases, inl, inr, if◌then◌else◌,
}
use harborsql.Base.Text.{bytes_eq}

-- The fingerprint is that of the principal, an HMAC of the bearer token.
pub record TableCacheKey : Type 0 where
  pub principal_fingerprint : Bytes
  pub full_name : Bytes
  pub aws_region : Bytes

unfoldable pub key_eq : TableCacheKey → TableCacheKey → Bool
key_eq j k =
    bytes_eq j.principal_fingerprint k.principal_fingerprint
    && bytes_eq j.full_name k.full_name
    && bytes_eq j.aws_region k.aws_region

abbrev pub Entries : Type 0
Entries = List (TableCacheKey × ℕ)

unfoldable pub get : TableCacheKey → Entries → Option ℕ
get k [] = none
get k ((j, slot) ∷ m) = if key_eq j k then some slot else get k m

unfoldable pub retain : (TableCacheKey → ℕ → Bool) → Entries → Entries
retain keep [] = []
retain keep ((j, slot) ∷ m) =
    let kept = retain keep m in if keep j slot then (j, slot) ∷ kept else kept

unfoldable pub remove : TableCacheKey → Entries → Entries
remove k = retain (λ j _. not (key_eq j k))

pub length-retain :
    (keep : TableCacheKey → ℕ → Bool) (m : Entries) → length (retain keep m) ≤ length m
unfolding retain
length-retain keep [] = omega arith
length-retain keep ((j, slot) ∷ m) = ground (arith, length-retain keep m)

pub All-retain :
    (P : TableCacheKey × ℕ → Type 0) (keep : TableCacheKey → ℕ → Bool) (m : Entries)
    → All P m
    → All P (retain keep m)
unfolding retain
All-retain P keep [] h = tt
All-retain P keep ((j, slot) ∷ m) h = elim (Bool-cases (keep j slot)) [
  | inl e ↦ rw e (h.0, All-retain P keep m h.1)
  | inr e ↦ rw e (All-retain P keep m h.1)
]

-- The entry is for another key and another slot than the given ones.
abbrev pub IsApart : TableCacheKey → ℕ → TableCacheKey × ℕ → Type 0
IsApart k slot e = (key_eq e.0 k ≡ false) × ((e.1 == slot) ≡ false)

-- No two entries have the same key or the same slot.
abbrev pub AreApart : Entries → Type 0
AreApart [] = Unit
AreApart ((k, slot) ∷ m) = All (IsApart k slot) m × AreApart m

pub AreApart-retain :
    (keep : TableCacheKey → ℕ → Bool) (m : Entries) → AreApart m → AreApart (retain keep m)
unfolding retain
AreApart-retain keep [] h = tt
AreApart-retain keep ((j, slot) ∷ m) h = elim (Bool-cases (keep j slot)) [
  | inl e ↦ rw e (All-retain (IsApart j slot) keep m h.0, AreApart-retain keep m h.1)
  | inr e ↦ rw e (AreApart-retain keep m h.1)
]

some_slot : (s slot : ℕ) → some s ≡ some slot → s ≡ slot
some_slot s slot e = cc

-- What `get` finds is an entry.
pub get-All :
    (P : TableCacheKey × ℕ → Type 0) (k : TableCacheKey) (slot : ℕ) (m : Entries)
    → ((j : TableCacheKey) (i : ℕ) → key_eq j k ≡ true → P (j, i) → P (k, i))
    → All P m
    → get k m ≡ some slot
    → P (k, slot)
unfolding get
get-All P k slot [] t h = λ e. absurd (ground (arith, e))
get-All P k slot ((j, s) ∷ m) t h = elim (Bool-cases (key_eq j k)) [
  | inl x ↦ rw x (λ e. rw (← some_slot s slot e) (t j s x h.0))
  | inr x ↦ rw x (get-All P k slot m t h.1)
]
