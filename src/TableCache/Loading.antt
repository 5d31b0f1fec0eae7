-- ===== src/TableCache/Loading.antt =====
-- The callers of one slot during a load: `take_turn`, a part of `get_or_load` of src/table_cache.rs.
use harborsql.Base.{
  ℕ, ◌<◌, ◌≡◌, refl, false, Option, none, some, List, [], ◌∷◌, length, leb, ◌==◌, arith, Bool-cases,
  inl, inr, eq→==, if◌then◌else◌,
}
use harborsql.TableCache.Keys.{TableCacheKey, get, remove}
use harborsql.TableCache.{
  TableCache, Limits, Loaded, success, failure, EntryState, empty, loading, ready, wait, load,
  is_expired, slot_for_key, slot_found, take_turn, turn_for, finish_load, invalidate_table,
  prune_expired_entries, remove_slot, set_slot, loaded_table,
}
use harborsql.TableCache.Wf.{Event, step, serve, looks_up, takes_turn, finishes, invalidates}

-- The event is not the end of the load of this slot.
abbrev pub IsUnfinished : {T : Type 0} → ℕ → Event T → Type 0
IsUnfinished slot (finishes key i loaded now) = (slot == i) ≡ false
IsUnfinished slot _ = Unit

abbrev pub AreUnfinished : {T : Type 0} → ℕ → List (Event T) → Type 0
AreUnfinished slot [] = Unit
AreUnfinished slot (e ∷ es) = IsUnfinished slot e × AreUnfinished slot es

module _ {T : Type 0} (l : Limits) (slot : ℕ) where
  record IsLoading (c : TableCache T) : Type 0 where
    created : slot < c.next_slot
    state : c.slots slot ≡ loading

  IsLoading-set_slot :
      (i : ℕ) (state : EntryState T) (c : TableCache T)
      → (slot == i) ≡ false
      → IsLoading c
      → IsLoading (set_slot i state c)
  unfolding set_slot
  IsLoading-set_slot i state c other h = record { created = h.created; state = rw other h.state }

  IsLoading-set_loading :
      (i : ℕ) (c : TableCache T) → IsLoading c → IsLoading (set_slot i loading c)
  unfolding set_slot
  IsLoading-set_loading i c h = elim (Bool-cases (slot == i)) [
    | inl x ↦ record { created = h.created; state = rw x refl }
    | inr x ↦ record { created = h.created; state = rw x h.state }
  ]

  IsLoading-slot_found :
      (key : TableCacheKey) (o : Option ℕ) (c : TableCache T)
      → IsLoading c
      → IsLoading (slot_found l key o c).1
  unfolding slot_found set_slot
  IsLoading-slot_found key (some i) c h = h
  IsLoading-slot_found key none c h = elim (Bool-cases (leb l.max_entries (length c.entries))) [
    | inl x ↦ rw x h
    | inr x ↦
        let other : (slot == c.next_slot) ≡ false = ground (arith, h.created) in
        rw x (record { created = omega (arith, h.created); state = rw other h.state })
  ]

  IsLoading-turn_for :
      (i now : ℕ) (state : EntryState T) (c : TableCache T)
      → IsLoading c
      → IsLoading (turn_for l i now state c).1
  unfolding turn_for
  IsLoading-turn_for i now empty c h = IsLoading-set_loading i c h
  IsLoading-turn_for i now loading c h = h
  IsLoading-turn_for i now (ready cached) c h = elim (Bool-cases (is_expired cached now)) [
    | inl x ↦ rw x (IsLoading-set_loading i c h)
    | inr x ↦ rw x h
  ]

  IsLoading-remove_slot :
      (key : TableCacheKey) (i : ℕ) (c : TableCache T)
      → IsLoading c
      → IsLoading (remove_slot key i c)
  unfolding remove_slot
  IsLoading-remove_slot key i c h = go (get key c.entries)
    where
      go :
          (o : Option ℕ)
          → IsLoading (elim o [
            | none ↦ c
            | some current ↦ if current == i then record c { entries = remove key c.entries } else c
          ])
      go none = h
      go (some current) = elim (Bool-cases (current == i)) [
        | inl x ↦ rw x (record { created = h.created; state = h.state })
        | inr x ↦ rw x h
      ]

  IsLoading-finish_load :
      (key : TableCacheKey) (i : ℕ) (loaded : Loaded T) (now : ℕ) (c : TableCache T)
      → (slot == i) ≡ false
      → IsLoading c
      → IsLoading (finish_load l key i loaded now c).1
  unfolding finish_load
  IsLoading-finish_load key i failure now c other h =
      IsLoading-remove_slot key i _ (IsLoading-set_slot i empty c other h)
  IsLoading-finish_load key i (success cached) now c other h =
      elim (Bool-cases (is_expired (loaded_table l now cached) now)) [
        | inl x ↦ rw x (IsLoading-remove_slot key i _ (IsLoading-set_slot i empty c other h))
        | inr x ↦ rw x (IsLoading-set_slot i _ c other h)
      ]

  IsLoading-step :
      (e : Event T) (c : TableCache T) → IsUnfinished slot e → IsLoading c → IsLoading (step l e c)
  unfolding step take_turn invalidate_table slot_for_key prune_expired_entries
  IsLoading-step (looks_up key now) c u h =
      let pruned = prune_expired_entries now c in
      IsLoading-slot_found key (get key pruned.entries) pruned
        (record { created = h.created; state = h.state })
  IsLoading-step (takes_turn i now) c u h = IsLoading-turn_for i now (c.slots i) c h
  IsLoading-step (finishes key i loaded now) c u h = IsLoading-finish_load key i loaded now c u h
  IsLoading-step (invalidates name) c u h = record { created = h.created; state = h.state }

  IsLoading-serve :
      (es : List (Event T)) (c : TableCache T)
      → AreUnfinished slot es
      → IsLoading c
      → IsLoading (serve l es c)
  unfolding serve
  IsLoading-serve [] c u h = h
  IsLoading-serve (e ∷ es) c u h = IsLoading-serve es (step l e c) u.1 (IsLoading-step e c u.0 h)

  loads_slot :
      (now : ℕ) (state : EntryState T) (c : TableCache T)
      → slot < c.next_slot
      → (turn_for l slot now state c).0 ≡ load
      → IsLoading (turn_for l slot now state c).1
  unfolding turn_for set_slot
  loads_slot now empty c b = λ _. record { created = b; state = rw (eq→== slot slot refl) refl }
  loads_slot now loading c b = λ e. absurd (cc)
  loads_slot now (ready cached) c b = elim (Bool-cases (is_expired cached now)) [
    | inl x ↦ rw x (λ _. record { created = b; state = rw (eq→== slot slot refl) refl })
    | inr x ↦ rw x (λ e. absurd (cc))
  ]

  waits :
      (now : ℕ) (state : EntryState T) (c : TableCache T)
      → state ≡ loading
      → (turn_for l slot now state c).0 ≡ wait
  unfolding turn_for
  waits now state c e = rw e refl

  -- From when one caller is told to load the table of a slot until the end of that load, every other
  -- caller that takes its turn on the slot is told to wait, whatever else happens in between.
  pub take_turn-waits :
      (now later : ℕ) (c : TableCache T) (es : List (Event T))
      → slot < c.next_slot
      → (take_turn l slot now c).0 ≡ load
      → AreUnfinished slot es
      → (take_turn l slot later (serve l es (take_turn l slot now c).1)).0 ≡ wait
  unfolding take_turn
  take_turn-waits now later c es b e u =
      waits later _ _ (IsLoading-serve es _ u (loads_slot now (c.slots slot) c b e)).state
