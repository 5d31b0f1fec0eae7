-- ===== src/TableCache/Wf.antt =====
-- The cache over all events: its bound, its keys and its slots. src/table_cache.rs.
use harborsql.Base.{
  ℕ, suc, ◌≤◌, ◌<◌, ◌≡◌, refl, Bool, Option, none, some, List, [], ◌∷◌, Bytes, length, leb, ◌==◌,
  All, arith, Bool-cases, inl, inr, if◌then◌else◌,
}
use harborsql.TableCache.Keys.{
  TableCacheKey, Entries, key_eq, get, retain, remove, length-retain, All-retain, IsApart, AreApart,
  AreApart-retain,
}
use harborsql.TableCache.{
  TableCache, Limits, Loaded, success, failure, EntryState, empty, loading, ready, is_expired,
  new_cache, slot_for_key, slot_found, take_turn, turn_for, finish_load, invalidate_table,
  prune_expired_entries, remove_slot, set_slot, loaded_table,
}

-- The steps of concurrent calls, each under one lock or one after another as `finish_load` takes them.
pub data Event (T : Type 0) : Type 0 where
  looks_up : TableCacheKey → ℕ → Event T
  takes_turn : ℕ → ℕ → Event T
  finishes : TableCacheKey → ℕ → Loaded T → ℕ → Event T
  invalidates : Bytes → Event T

IsApart-new :
    (k : TableCacheKey) (n : ℕ) (m : Entries)
    → All (λ e. e.1 < n) m
    → get k m ≡ none
    → All (IsApart k n) m
unfolding get
IsApart-new k n [] h = λ _. tt
IsApart-new k n ((j, s) ∷ m) h = elim (Bool-cases (key_eq j k)) [
  | inl x ↦ rw x (λ e. absurd (ground (arith, e)))
  | inr x ↦ rw x (λ e. ((refl, ground (arith, h.0)), IsApart-new k n m h.1 e))
]

known_suc : (n : ℕ) (m : Entries) → All (λ e. e.1 < n) m → All (λ e. e.1 < suc n) m
known_suc n [] h = tt
known_suc n ((j, s) ∷ m) h = (omega (arith, h.0), known_suc n m h.1)

module _ {T : Type 0} (l : Limits) where
  unfoldable pub step : Event T → TableCache T → TableCache T
  step (looks_up key now) c = (slot_for_key l key now c).1
  step (takes_turn slot now) c = (take_turn l slot now c).1
  step (finishes key slot loaded now) c = (finish_load l key slot loaded now c).1
  step (invalidates full_name) c = invalidate_table full_name c

  unfoldable pub serve : List (Event T) → TableCache T → TableCache T
  unfolding step
  serve [] c = c
  serve (e ∷ es) c = serve es (step e c)

  -- What holds of the entries and of the number of slots, whatever the slots hold.
  pub record IsWf (c : TableCache T) : Type 0 where
    pub fits : length c.entries ≤ l.max_entries
    pub known : All (λ e. e.1 < c.next_slot) c.entries
    pub apart : AreApart c.entries

  pub IsWf-retain :
      (keep : TableCacheKey → ℕ → Bool) (c : TableCache T)
      → IsWf c
      → IsWf (record c { entries = retain keep c.entries })
  IsWf-retain keep c h = record {
    fits = omega (arith, h.fits, length-retain keep c.entries);
    known = All-retain _ keep c.entries h.known;
    apart = AreApart-retain keep c.entries h.apart;
  }

  pub IsWf-slot_found :
      (key : TableCacheKey) (o : Option ℕ) (c : TableCache T)
      → get key c.entries ≡ o
      → IsWf c
      → IsWf (slot_found l key o c).1
  unfolding slot_found set_slot
  IsWf-slot_found key (some slot) c e h = h
  IsWf-slot_found key none c e h = elim (Bool-cases (leb l.max_entries (length c.entries))) [
    | inl x ↦ rw x h
    | inr x ↦ rw x (record {
      fits = ground (arith, x);
      known = (omega arith, known_suc c.next_slot c.entries h.known);
      apart = (IsApart-new key c.next_slot c.entries h.known e, h.apart);
    })
  ]

  pub IsWf-slot_for_key :
      (key : TableCacheKey) (now : ℕ) (c : TableCache T)
      → IsWf c
      → IsWf (slot_for_key l key now c).1
  unfolding slot_for_key prune_expired_entries
  IsWf-slot_for_key key now c h = IsWf-slot_found key _ _ refl (IsWf-retain _ c h)

  pub IsWf-set_slot :
      (slot : ℕ) (state : EntryState T) (c : TableCache T) → IsWf c → IsWf (set_slot slot state c)
  unfolding set_slot
  IsWf-set_slot slot state c h = record { fits = h.fits; known = h.known; apart = h.apart }

  pub IsWf-turn_for :
      (slot now : ℕ) (state : EntryState T) (c : TableCache T)
      → IsWf c
      → IsWf (turn_for l slot now state c).1
  unfolding turn_for
  IsWf-turn_for slot now empty c h = IsWf-set_slot slot loading c h
  IsWf-turn_for slot now loading c h = h
  IsWf-turn_for slot now (ready cached) c h = elim (Bool-cases (is_expired cached now)) [
    | inl x ↦ rw x (IsWf-set_slot slot loading c h)
    | inr x ↦ rw x h
  ]

  IsWf-remove_slot :
      (key : TableCacheKey) (slot : ℕ) (c : TableCache T) → IsWf c → IsWf (remove_slot key slot c)
  unfolding remove_slot remove
  IsWf-remove_slot key slot c h = go (get key c.entries)
    where
      go :
          (o : Option ℕ)
          → IsWf (elim o [
            | none ↦ c
            | some current ↦
                if current == slot then record c { entries = remove key c.entries } else c
          ])
      go none = h
      go (some current) = elim (Bool-cases (current == slot)) [
        | inl x ↦ rw x (IsWf-retain _ c h)
        | inr x ↦ rw x h
      ]

  pub IsWf-finish_load :
      (key : TableCacheKey) (slot : ℕ) (loaded : Loaded T) (now : ℕ) (c : TableCache T)
      → IsWf c
      → IsWf (finish_load l key slot loaded now c).1
  unfolding finish_load
  IsWf-finish_load key slot failure now c h =
      IsWf-remove_slot key slot _ (IsWf-set_slot slot empty c h)
  IsWf-finish_load key slot (success cached) now c h =
      elim (Bool-cases (is_expired (loaded_table l now cached) now)) [
        | inl x ↦ rw x (IsWf-remove_slot key slot _ (IsWf-set_slot slot empty c h))
        | inr x ↦ rw x (IsWf-set_slot slot _ c h)
      ]

  pub IsWf-step : (e : Event T) (c : TableCache T) → IsWf c → IsWf (step e c)
  unfolding step take_turn invalidate_table
  IsWf-step (looks_up key now) c h = IsWf-slot_for_key key now c h
  IsWf-step (takes_turn slot now) c h = IsWf-turn_for slot now (c.slots slot) c h
  IsWf-step (finishes key slot loaded now) c h = IsWf-finish_load key slot loaded now c h
  IsWf-step (invalidates full_name) c h = IsWf-retain _ c h

  pub IsWf-run : (es : List (Event T)) (c : TableCache T) → IsWf c → IsWf (serve es c)
  unfolding serve
  IsWf-run [] c h = h
  IsWf-run (e ∷ es) c h = IsWf-run es (step e c) (IsWf-step e c h)

  -- A cache that starts empty has, after any events, at most `max_entries` entries, each with a slot that
  -- was created, and no two of them have the same key or the same slot.
  pub serve-new_cache-IsWf : (es : List (Event T)) → IsWf (serve es new_cache)
  unfolding new_cache
  serve-new_cache-IsWf es =
      IsWf-run es new_cache (record { fits = omega arith; known = tt; apart = tt })
