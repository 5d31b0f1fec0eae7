-- ===== src/TableCache/Expiry.antt =====
-- How long a table stays in the cache: src/table_cache.rs.
use harborsql.Base.{
  ℕ, ◌+◌, ◌-◌, ◌*◌, ◌<◌, ◌≤◌, ◌≡◌, refl, Option, none, some, ◌==◌, leb, min, ◌⊎◌, arith, Bool-cases,
  inl, inr, eq→==, if◌then◌else◌,
}
use harborsql.TableCache.Keys.{TableCacheKey, get, remove}
use harborsql.TableCache.{
  TableCache, CachedTable, Limits, success, empty, ready, is_expired, finish_load, remove_slot,
  set_slot, loaded_table, cap_expires_at, checked_deadline, expires_at_from_unity_expiration_ms_at,
}

module _ {T : Type 0} (l : Limits) where
  ready_inj : (a b : CachedTable T) → ready a ≡ ready b → a ≡ b
  ready_inj a b e = cc

  slots_remove_slot :
      (key : TableCacheKey) (slot : ℕ) (c : TableCache T) → (remove_slot key slot c).slots ≡ c.slots
  unfolding remove_slot
  slots_remove_slot key slot c = go (get key c.entries)
    where
      go :
          (o : Option ℕ)
          → let left : TableCache T = elim o [
            | none ↦ c
            | some current ↦
                if current == slot then record c { entries = remove key c.entries } else c
          ] in
            left.slots ≡ c.slots
      go none = refl
      go (some current) = ground arith

  emptied :
      (key : TableCacheKey) (slot : ℕ) (c : TableCache T)
      → (remove_slot key slot (set_slot slot empty c)).slots slot ≡ empty
  unfolding set_slot
  emptied key slot c = rw (slots_remove_slot key slot _, eq→== slot slot refl) refl

  -- What a finished load leaves in its slot is a table only when that has not expired yet, and then it
  -- expires no later than the loader said and no later than the time to live after now.
  pub finish_load-expiry :
      (key : TableCacheKey) (slot : ℕ) (cached : CachedTable T) (now : ℕ) (c : TableCache T)
      (kept : CachedTable T)
      → (finish_load l key slot (success cached) now c).1.slots slot ≡ ready kept
      → (now < kept.expires_at)
        × (kept.expires_at ≤ cached.expires_at)
        × (kept.expires_at ≤ now + l.ttl)
  unfolding finish_load is_expired loaded_table cap_expires_at checked_deadline set_slot
  finish_load-expiry key slot cached now c kept =
      elim (Bool-cases (leb (min cached.expires_at (checked_deadline l now l.ttl)) now)) [
        | inl x ↦ rw (x, emptied key slot c) (λ e. absurd cc)
        | inr x ↦
            rw (x, eq→== slot slot refl)
              (λ e. rw (← ready_inj _ _ e) (ground arith, ground arith, ground arith))
      ]

-- A table whose credentials expire at `expiration_time_ms`, in milliseconds since the epoch, either expires at
-- once, or its remaining life and the skew end no later than the credentials; and it never expires in the past.
pub expires_at_from_unity_expiration_ms_at-bounds :
    (l : Limits) (expiration_time_ms safety_skew now_system now_instant : ℕ)
    → let expires =
        expires_at_from_unity_expiration_ms_at l
          (some expiration_time_ms)
          safety_skew
          now_system
          now_instant in
      (now_instant ≤ expires)
      × ((expires ≡ now_instant)
          ⊎ (now_system + (expires - now_instant) + safety_skew ≤ expiration_time_ms * 1_000_000))
unfolding expires_at_from_unity_expiration_ms_at checked_deadline
expires_at_from_unity_expiration_ms_at-bounds l ms skew now_system now = ground arith
