-- ===== src/TableCache.antt =====
-- The cache of loaded tables: src/table_cache.rs. `T` is what a cached table holds besides its expiry. An
-- `Arc<EntrySlot>` is a number, which `Arc::ptr_eq` compares, and `slots` is the memory that it points
-- into. Instants and durations are numbers of nanoseconds, and `last_instant` is the last instant that the
-- platform can express. A poisoned lock, which only a panic leaves behind, has no counterpart.
pub mod Keys
pub mod Wf
pub mod Sharing
pub mod Detached
pub mod Loading
pub mod Expiry
pub mod Hits
pub mod Origin
pub mod Examples
use harborsql.Base.{
  ℕ, suc, ◌+◌, ◌-◌, ◌*◌, ◌^◌, Bool, true, false, not, ◌&&◌, ◌||◌, Option, none, some, List, [], ◌∷◌,
  Bytes, length, leb, ltb, ◌==◌, min, if◌then◌else◌,
}
use harborsql.Base.Chars.{eq_ignore_ascii_case}
use harborsql.TableCache.Keys.{TableCacheKey, Entries, get, retain, remove}

pub record CachedTable (T : Type 0) : Type 0 where
  pub table : T
  pub expires_at : ℕ

pub data EntryState (T : Type 0) : Type 0 where
  empty loading : EntryState T
  ready : CachedTable T → EntryState T

pub record Limits : Type 0 where
  pub max_entries : ℕ
  pub ttl : ℕ
  pub last_instant : ℕ

pub record TableCache (T : Type 0) : Type 0 where
  pub entries : Entries
  pub slots : ℕ → EntryState T
  pub next_slot : ℕ

-- `Result<CachedTable>` of the loader; an error is opaque.
pub data Loaded (T : Type 0) : Type 0 where
  success : CachedTable T → Loaded T
  failure : Loaded T

-- What a caller does with a slot: `get_or_load` between the lookup of the slot and the load.
pub data Turn (T : Type 0) : Type 0 where
  hit : CachedTable T → Turn T
  wait load : Turn T

module _ (l : Limits) where
  unfoldable pub is_enabled : Bool
  is_enabled = ltb 0 l.max_entries && not (l.ttl == 0)

  unfoldable pub checked_deadline : ℕ → ℕ → ℕ
  checked_deadline now duration =
      if leb (now + duration) l.last_instant then now + duration else now

  -- `none` is an expiration before the epoch. The instants of the system clock count from the epoch.
  unfoldable pub expires_at_from_unity_expiration_ms_at : Option ℕ → ℕ → ℕ → ℕ → ℕ
  unfolding checked_deadline
  expires_at_from_unity_expiration_ms_at none safety_skew now_system now_instant = now_instant
  expires_at_from_unity_expiration_ms_at (some expiration_time_ms) safety_skew now_system
        now_instant =
      checked_deadline now_instant (expiration_time_ms * 1_000_000 - now_system - safety_skew)

module _ {T : Type 0} where
  unfoldable pub is_expired : CachedTable T → ℕ → Bool
  is_expired cached now = leb cached.expires_at now

  unfoldable pub cap_expires_at : ℕ → CachedTable T → CachedTable T
  cap_expires_at max_expires_at cached = record cached {
    expires_at = min cached.expires_at max_expires_at;
  }

  unfoldable pub set_slot : ℕ → EntryState T → TableCache T → TableCache T
  set_slot slot state c = record c { slots = λ i. if i == slot then state else c.slots i }

  -- Whether `prune_expired_entries` collects an entry whose slot is in this state.
  unfoldable pub is_prunable : ℕ → EntryState T → Bool
  unfolding is_expired
  is_prunable now empty = true
  is_prunable now loading = false
  is_prunable now (ready cached) = is_expired cached now

  unfoldable pub prune_expired_entries : ℕ → TableCache T → TableCache T
  prune_expired_entries now c = record c {
    entries = retain (λ k slot. not (is_prunable now (c.slots slot))) c.entries;
  }

  unfoldable pub invalidate_table : Bytes → TableCache T → TableCache T
  invalidate_table full_name c = record c {
    entries = retain (λ k slot. not (eq_ignore_ascii_case k.full_name full_name)) c.entries;
  }

  unfoldable pub remove_slot : TableCacheKey → ℕ → TableCache T → TableCache T
  remove_slot key slot c = elim (get key c.entries) [
    | none ↦ c
    | some current ↦ if current == slot then record c { entries = remove key c.entries } else c
  ]

  unfoldable pub new_cache : TableCache T
  new_cache = record { entries = []; slots = λ _. empty; next_slot = 0 }

module _ {T : Type 0} (l : Limits) where
  -- `slot_for_key` after the entries were pruned, by the entry of the key.
  unfoldable pub slot_found : TableCacheKey → Option ℕ → TableCache T → Option ℕ × TableCache T
  unfolding set_slot
  slot_found key (some slot) c = (some slot, c)
  slot_found key none c = if leb l.max_entries (length c.entries) then (none, c) else (
    some c.next_slot,
    set_slot c.next_slot empty
        (record c { entries = (key, c.next_slot) ∷ c.entries; next_slot = suc c.next_slot }),
  )

  unfoldable pub slot_for_key : TableCacheKey → ℕ → TableCache T → Option ℕ × TableCache T
  unfolding prune_expired_entries slot_found
  slot_for_key key now c =
      let pruned = prune_expired_entries now c in slot_found key (get key pruned.entries) pruned

  unfoldable pub turn_for : ℕ → ℕ → EntryState T → TableCache T → Turn T × TableCache T
  unfolding set_slot is_expired
  turn_for slot now empty c = (load, set_slot slot loading c)
  turn_for slot now loading c = (wait, c)
  turn_for slot now (ready cached) c =
      if is_expired cached now then (load, set_slot slot loading c) else (hit cached, c)

  -- What `get_or_load` does under the lock of the slot's state.
  unfoldable pub take_turn : ℕ → ℕ → TableCache T → Turn T × TableCache T
  unfolding turn_for
  take_turn slot now c = turn_for slot now (c.slots slot) c

  unfoldable pub loaded_table : ℕ → CachedTable T → CachedTable T
  unfolding cap_expires_at checked_deadline
  loaded_table now cached = cap_expires_at (checked_deadline l now l.ttl) cached

  unfoldable pub finish_load :
      TableCacheKey → ℕ → Loaded T → ℕ → TableCache T → Option (CachedTable T) × TableCache T
  unfolding loaded_table set_slot remove_slot is_expired
  finish_load key slot (success cached) now c =
      if is_expired (loaded_table now cached) now
      then (some (loaded_table now cached), remove_slot key slot (set_slot slot empty c))
      else (some (loaded_table now cached), set_slot slot (ready (loaded_table now cached)) c)
  finish_load key slot failure now c = (none, remove_slot key slot (set_slot slot empty c))

-- What one call of `get_or_load` comes to when no other caller steps in: a table, the error of its loader, or
-- waiting for the load of another caller.
pub data Answer (T : Type 0) : Type 0 where
  answers : CachedTable T → Answer T
  fails : Answer T
  waits : ℕ → Answer T

module _ {T : Type 0} (l : Limits) where
  abbrev pub answer_of : Option (CachedTable T) → Answer T
  answer_of none = fails
  answer_of (some cached) = answers cached

  -- The loader called without the cache.
  unfoldable pub load_alone : Loaded T → Answer T
  load_alone (success cached) = answers cached
  load_alone failure = fails

  unfoldable pub slot_taken :
      TableCacheKey → ℕ → ℕ → Loaded T → Turn T × TableCache T → Answer T × TableCache T
  unfolding finish_load
  slot_taken key slot now loaded (hit cached, c) = (answers cached, c)
  slot_taken key slot now loaded (wait, c) = (waits slot, c)
  slot_taken key slot now loaded (load, c) =
      let (result, c') = finish_load l key slot loaded now c in (answer_of result, c')

  unfoldable pub slot_given :
      TableCacheKey → ℕ → Loaded T → Option ℕ × TableCache T → Answer T × TableCache T
  unfolding slot_taken take_turn load_alone
  slot_given key now loaded (none, c) = (load_alone loaded, c)
  slot_given key now loaded (some slot, c) = slot_taken key slot now loaded (take_turn l slot now c)

  -- `loaded` is what the loader gives if it is called; the clock reads `now` throughout.
  unfoldable pub get_or_load : TableCacheKey → ℕ → Loaded T → TableCache T → Answer T × TableCache T
  unfolding is_enabled slot_given slot_for_key load_alone
  get_or_load key now loaded c =
      if is_enabled l
      then slot_given key now loaded (slot_for_key l key now c)
      else (load_alone loaded, c)
