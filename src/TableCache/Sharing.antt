-- ===== src/TableCache/Sharing.antt =====
-- Keys and the slots that they find: src/table_cache.rs.
use harborsql.Base.{
  ℕ, ◌≡◌, sym, ◌∙◌, true, false, some, List, [], ◌∷◌, ◌==◌, All, arith, Bool-cases, inl, inr,
  bytes_eq→eq,
}
use harborsql.TableCache.Keys.{TableCacheKey, Entries, key_eq, get, IsApart, AreApart, get-All}
use harborsql.TableCache.{Limits, new_cache}
use harborsql.TableCache.Wf.{Event, serve, serve-new_cache-IsWf}

pub key_eq→eq : (j k : TableCacheKey) → key_eq j k ≡ true → j ≡ k
unfolding key_eq
key_eq→eq j k h = ground (
  arith,
  h,
  bytes_eq→eq j.principal_fingerprint k.principal_fingerprint,
  bytes_eq→eq j.full_name k.full_name,
  bytes_eq→eq j.aws_region k.aws_region,
)

some_slot : (s slot : ℕ) → some s ≡ some slot → s ≡ slot
some_slot s slot e = cc

pub same_slot :
    (j k : TableCacheKey) (slot : ℕ) (m : Entries)
    → AreApart m
    → get j m ≡ some slot
    → get k m ≡ some slot
    → j ≡ k
unfolding get
same_slot j k slot [] a = λ e _. absurd (ground (arith, e))
same_slot j k slot ((i, s) ∷ m) a = elim (Bool-cases (key_eq i j)) [
  | inl x ↦ elim (Bool-cases (key_eq i k)) [
    | inl y ↦ λ _ _. sym (key_eq→eq i j x) ∙ key_eq→eq i k y
    | inr y ↦
        rw (x, y)
          (λ e f. absurd (
            ground (
              arith,
              some_slot s slot e,
              get-All (λ p. (p.1 == s) ≡ false) k slot m (λ _ _ _ p. p) (only_slots i s m a.0) f,
            )))
  ]
  | inr x ↦ elim (Bool-cases (key_eq i k)) [
    | inl y ↦
        rw (x, y)
          (λ e f. absurd (
            ground (
              arith,
              some_slot s slot f,
              get-All (λ p. (p.1 == s) ≡ false) j slot m (λ _ _ _ p. p) (only_slots i s m a.0) e,
            )))
    | inr y ↦ rw (x, y) (same_slot j k slot m a.1)
  ]
]
  where
    only_slots :
        (i : TableCacheKey) (s : ℕ) (m : Entries)
        → All (IsApart i s) m
        → All (λ p. (p.1 == s) ≡ false) m
    only_slots i s [] h = tt
    only_slots i s (e ∷ m) h = (h.0.1, only_slots i s m h.1)

-- After any events on a cache that started empty, two keys that find the same slot are the same key: the
-- same principal, table and region.
pub one_key_for_slot :
    {T : Type 0} (l : Limits) (es : List (Event T)) (j k : TableCacheKey) (slot : ℕ)
    → get j (serve l es new_cache).entries ≡ some slot
    → get k (serve l es new_cache).entries ≡ some slot
    → j ≡ k
one_key_for_slot l es j k slot =
    same_slot j k slot (serve l es new_cache).entries (serve-new_cache-IsWf l es).apart
