-- ===== src/TableCache/Detached.antt =====
-- The slots that `invalidate_table` of src/table_cache.rs takes out of the map, and later events.
use harborsql.Base.{
  ℕ, ◌≤◌, ◌<◌, ◌≡◌, ◌≢◌, ◌⊎◌, Bool, true, false, not, Option, none, some, List, [], ◌∷◌, Bytes,
  length, leb, ◌==◌, All, arith, Bool-cases, inl, inr, bytes_eq→eq, if◌then◌else◌,
}
use harborsql.Base.Chars.{eq_ignore_ascii_case}
use harborsql.TableCache.Keys.{
  TableCacheKey, Entries, key_eq, get, retain, remove, All-retain, get-All,
}
use harborsql.TableCache.{
  TableCache, Limits, Loaded, success, failure, EntryState, empty, loading, ready, is_expired,
  slot_for_key, slot_found, take_turn, turn_for, finish_load, invalidate_table,
  prune_expired_entries, remove_slot, set_slot, loaded_table,
}
use harborsql.TableCache.Wf.{Event, step, serve, looks_up, takes_turn, finishes, invalidates}

-- The entry is for another table than `full_name`, or its slot is one of those from `n` on.
abbrev IsNew : Bytes → ℕ → TableCacheKey × ℕ → Type 0
IsNew full_name n e = (eq_ignore_ascii_case e.0.full_name full_name ≡ false) ⊎ (n ≤ e.1)

module _ {T : Type 0} (l : Limits) (full_name : Bytes) (n : ℕ) where
  record IsDetached (c : TableCache T) : Type 0 where
    counted : n ≤ c.next_slot
    entries_new : All (IsNew full_name n) c.entries

  IsDetached-retain :
      (keep : TableCacheKey → ℕ → Bool) (c : TableCache T)
      → IsDetached c
      → IsDetached (record c { entries = retain keep c.entries })
  IsDetached-retain keep c h = record {
    counted = h.counted;
    entries_new = All-retain _ keep c.entries h.entries_new;
  }

  IsDetached-set_slot :
      (slot : ℕ) (state : EntryState T) (c : TableCache T)
      → IsDetached c
      → IsDetached (set_slot slot state c)
  unfolding set_slot
  IsDetached-set_slot slot state c h = record { counted = h.counted; entries_new = h.entries_new }

  IsDetached-slot_found :
      (key : TableCacheKey) (o : Option ℕ) (c : TableCache T)
      → IsDetached c
      → IsDetached (slot_found l key o c).1
  unfolding slot_found set_slot
  IsDetached-slot_found key (some slot) c h = h
  IsDetached-slot_found key none c h = elim (Bool-cases (leb l.max_entries (length c.entries))) [
    | inl x ↦ rw x h
    | inr x ↦ rw x (record {
      counted = omega (arith, h.counted);
      entries_new = (inr h.counted, h.entries_new);
    })
  ]

  IsDetached-turn_for :
      (slot now : ℕ) (state : EntryState T) (c : TableCache T)
      → IsDetached c
      → IsDetached (turn_for l slot now state c).1
  unfolding turn_for
  IsDetached-turn_for slot now empty c h = IsDetached-set_slot slot loading c h
  IsDetached-turn_for slot now loading c h = h
  IsDetached-turn_for slot now (ready cached) c h = elim (Bool-cases (is_expired cached now)) [
    | inl x ↦ rw x (IsDetached-set_slot slot loading c h)
    | inr x ↦ rw x h
  ]

  IsDetached-remove_slot :
      (key : TableCacheKey) (slot : ℕ) (c : TableCache T)
      → IsDetached c
      → IsDetached (remove_slot key slot c)
  unfolding remove_slot remove
  IsDetached-remove_slot key slot c h = go (get key c.entries)
    where
      go :
          (o : Option ℕ)
          → IsDetached (elim o [
            | none ↦ c
            | some current ↦
                if current == slot then record c { entries = remove key c.entries } else c
          ])
      go none = h
      go (some current) = elim (Bool-cases (current == slot)) [
        | inl x ↦ rw x (IsDetached-retain _ c h)
        | inr x ↦ rw x h
      ]

  IsDetached-finish_load :
      (key : TableCacheKey) (slot : ℕ) (loaded : Loaded T) (now : ℕ) (c : TableCache T)
      → IsDetached c
      → IsDetached (finish_load l key slot loaded now c).1
  unfolding finish_load
  IsDetached-finish_load key slot failure now c h =
      IsDetached-remove_slot key slot _ (IsDetached-set_slot slot empty c h)
  IsDetached-finish_load key slot (success cached) now c h =
      elim (Bool-cases (is_expired (loaded_table l now cached) now)) [
        | inl x ↦ rw x (IsDetached-remove_slot key slot _ (IsDetached-set_slot slot empty c h))
        | inr x ↦ rw x (IsDetached-set_slot slot _ c h)
      ]

  IsDetached-step : (e : Event T) (c : TableCache T) → IsDetached c → IsDetached (step l e c)
  unfolding step take_turn invalidate_table slot_for_key prune_expired_entries
  IsDetached-step (looks_up key now) c h = IsDetached-slot_found key _ _ (IsDetached-retain _ c h)
  IsDetached-step (takes_turn slot now) c h = IsDetached-turn_for slot now (c.slots slot) c h
  IsDetached-step (finishes key slot loaded now) c h =
      IsDetached-finish_load key slot loaded now c h
  IsDetached-step (invalidates name) c h = IsDetached-retain _ c h

  IsDetached-serve :
      (es : List (Event T)) (c : TableCache T) → IsDetached c → IsDetached (serve l es c)
  unfolding serve
  IsDetached-serve [] c h = h
  IsDetached-serve (e ∷ es) c h = IsDetached-serve es (step l e c) (IsDetached-step e c h)

invalidated-IsNew :
    (full_name : Bytes) (n : ℕ) (m : Entries)
    → All
        (IsNew full_name n)
        (retain (λ k slot. not (eq_ignore_ascii_case k.full_name full_name)) m)
unfolding retain
invalidated-IsNew full_name n [] = tt
invalidated-IsNew full_name n ((k, s) ∷ m) =
    elim (Bool-cases (eq_ignore_ascii_case k.full_name full_name)) [
      | inl x ↦ rw x (invalidated-IsNew full_name n m)
      | inr x ↦ rw x (inl x, invalidated-IsNew full_name n m)
    ]

key_name : (j k : TableCacheKey) → key_eq j k ≡ true → j.full_name ≡ k.full_name
unfolding key_eq
key_name j k h = ground (arith, h, bytes_eq→eq j.full_name k.full_name)

-- After a table is invalidated and after any events that follow, whatever loads were under way: no key whose
-- table has that name, in whatever case of its letters, finds a slot that was created before.
pub invalidate_table-detaches :
    {T : Type 0} (l : Limits) (full_name : Bytes) (c : TableCache T) (es : List (Event T))
    (key : TableCacheKey) (old : ℕ)
    → old < c.next_slot
    → eq_ignore_ascii_case key.full_name full_name ≡ true
    → get key (serve l es (invalidate_table full_name c)).entries ≢ some old
unfolding invalidate_table
invalidate_table-detaches l full_name c es key old before same found =
    let detached =
      IsDetached-serve l full_name c.next_slot es (invalidate_table full_name c) (record {
        counted = omega arith;
        entries_new = invalidated-IsNew full_name c.next_slot c.entries;
      }) in
    elim (get-All (IsNew full_name c.next_slot) key old _ (λ j i x h. rw (← key_name j key x) h)
      detached.entries_new found) [
        | inl different ↦ ground (arith, same, different)
        | inr later ↦ omega (arith, before, later)
      ]
