-- ===== src/TableCache/Origin.antt =====
-- Steps of the cache after which a key has no table that it did not have: src/table_cache.rs.
pub mod Answers
pub mod Log
use harborsql.Base.{
  ℕ, suc, ◌≤◌, ◌<◌, ◌≡◌, ◌≢◌, refl, sym, subst, ap, ◌∙◌, ◌⊎◌, Bool, true, false, not, Option, none,
  some, List, [], ◌∷◌, leb, length, ◌==◌, eq→==, ==→eq, All, arith, Bool-cases, inl, inr,
  if◌then◌else◌,
}
use harborsql.TableCache.Keys.{
  TableCacheKey, Entries, key_eq, get, retain, remove, get-All, All-retain, IsApart, AreApart,
}
use harborsql.TableCache.{
  TableCache, CachedTable, Limits, Loaded, success, failure, EntryState, empty, loading, ready,
  Turn, hit, wait, load, is_enabled, is_expired, is_prunable, slot_for_key, slot_found, take_turn,
  turn_for, finish_load, remove_slot, prune_expired_entries, set_slot, loaded_table, Answer,
  answers, slot_taken, slot_given, get_or_load, new_cache,
}
use harborsql.TableCache.Wf.{
  IsWf, IsWf-retain, IsWf-slot_for_key, IsWf-set_slot, IsWf-turn_for, IsWf-finish_load,
}
use harborsql.TableCache.Sharing.{key_eq→eq, same_slot}
use harborsql.TableCache.Hits.{HasTable, key_eq_refl, some_slot, found_slot}

-- An entry for a key that is apart from all others.
other_entries :
    (j k : TableCacheKey) (s slot : ℕ) (m : Entries)
    → key_eq j k ≡ true
    → All (IsApart j s) m
    → get k m ≢ some slot
other_entries j k s slot m x a e =
    let away : key_eq k j ≡ false =
      get-All (λ p. key_eq p.0 j ≡ false) k slot m
        (λ i _ same p. subst (λ z. key_eq z j ≡ false) (key_eq→eq i k same) p) (firsts m a) e in
    let same : key_eq k j ≡ true =
      subst (λ z. key_eq k z ≡ true) (sym (key_eq→eq j k x)) (key_eq_refl k) in
    absurd (ground (arith, away, same))
  where
    firsts : (m : Entries) → All (IsApart j s) m → All (λ p. key_eq p.0 j ≡ false) m
    firsts [] h = tt
    firsts (p ∷ m) h = (h.0.0, firsts m h.1)

-- What is found among the entries that are kept is found among all.
pub get_retained :
    (keep : TableCacheKey → ℕ → Bool) (k : TableCacheKey) (slot : ℕ) (m : Entries)
    → AreApart m
    → get k (retain keep m) ≡ some slot
    → get k m ≡ some slot
unfolding get retain
get_retained keep k slot [] a = λ e. e
get_retained keep k slot ((j, s) ∷ m) a = elim (Bool-cases (key_eq j k)) [
  | inl x ↦ elim (Bool-cases (keep j s)) [
    | inl y ↦ rw (x, y, x) (λ e. e)
    | inr y ↦
        rw (x, y)
          (λ e. absurd (other_entries j k s slot (retain keep m) x (All-retain _ keep m a.0) e))
  ]
  | inr x ↦ elim (Bool-cases (keep j s)) [
    | inl y ↦ rw (x, y, x) (get_retained keep k slot m a.1)
    | inr y ↦ rw (x, y) (get_retained keep k slot m a.1)
  ]
]

module _ {T : Type 0} (l : Limits) where
  abbrev pub Has : TableCacheKey → CachedTable T → TableCache T → Type 0
  Has = HasTable l

  pub Has-retain :
      (keep : TableCacheKey → ℕ → Bool) (k : TableCacheKey) (t : CachedTable T) (c : TableCache T)
      → IsWf l c
      → Has k t (record c { entries = retain keep c.entries })
      → Has k t c
  Has-retain keep k t c w h = record {
    slot = h.slot;
    found = get_retained keep k h.slot c.entries w.apart h.found;
    state = h.state;
  }

  -- A slot whose new state is no table.
  pub Has-set_slot :
      (slot : ℕ) (state : EntryState T) (k : TableCacheKey) (t : CachedTable T) (c : TableCache T)
      → state ≢ ready t
      → Has k t (set_slot slot state c)
      → Has k t c
  unfolding set_slot
  Has-set_slot slot state k t c differs h = go (Bool-cases (h.slot == slot)) h.state
    where
      go :
          (h.slot == slot ≡ true) ⊎ (h.slot == slot ≡ false)
          → (if h.slot == slot then state else c.slots h.slot) ≡ ready t
          → Has k t c
      go (inl x) = rw x (λ e. absurd (differs e))
      go (inr x) = rw x (λ e. record { slot = h.slot; found = h.found; state = e })

  -- The new entry has no table yet.
  Has-new_entry :
      (key k : TableCacheKey) (t : CachedTable T) (c : TableCache T) (slot : ℕ)
      → IsWf l c
      → (if key_eq key k then some c.next_slot else get k c.entries) ≡ some slot
      → (if slot == c.next_slot then empty else c.slots slot) ≡ ready t
      → Has k t c
  Has-new_entry key k t c slot w = elim (Bool-cases (key_eq key k)) [
    | inl x ↦ rw x (λ e.
        let same : (slot == c.next_slot) ≡ true =
          eq→== slot c.next_slot (sym (some_slot c.next_slot slot e)) in
        rw same (λ s. absurd cc))
    | inr x ↦ rw x (λ e.
        let old : (slot == c.next_slot) ≡ false =
          ground
            (arith, get-All (λ p. p.1 < c.next_slot) k slot c.entries (λ _ _ _ p. p) w.known e) in
        rw old (λ s. record { slot = slot; found = e; state = s }))
  ]

  Has-slot_found :
      (key : TableCacheKey) (o : Option ℕ) (k : TableCacheKey) (t : CachedTable T)
      (c : TableCache T)
      → IsWf l c
      → Has k t (slot_found l key o c).1
      → Has k t c
  unfolding slot_found set_slot get
  Has-slot_found key (some slot) k t c w = λ h. h
  Has-slot_found key none k t c w = elim (Bool-cases (leb l.max_entries (length c.entries))) [
    | inl x ↦ rw x (λ h. h)
    | inr x ↦ rw x (λ h. Has-new_entry key k t c h.slot w h.found h.state)
  ]

  pub Has-slot_for_key :
      (key : TableCacheKey) (now : ℕ) (k : TableCacheKey) (t : CachedTable T) (c : TableCache T)
      → IsWf l c
      → Has k t (slot_for_key l key now c).1
      → Has k t c
  unfolding slot_for_key prune_expired_entries
  Has-slot_for_key key now k t c w h =
      Has-retain _ k t c w (Has-slot_found key _ k t _ (IsWf-retain l _ c w) h)

  Has-turn_for :
      (slot now : ℕ) (state : EntryState T) (k : TableCacheKey) (t : CachedTable T)
      (c : TableCache T)
      → Has k t (turn_for l slot now state c).1
      → Has k t c
  unfolding turn_for
  Has-turn_for slot now empty k t c = Has-set_slot slot loading k t c (λ e. cc)
  Has-turn_for slot now loading k t c = λ h. h
  Has-turn_for slot now (ready cached) k t c = elim (Bool-cases (is_expired cached now)) [
    | inl x ↦ rw x (Has-set_slot slot loading k t c (λ e. cc))
    | inr x ↦ rw x (λ h. h)
  ]

  pub Has-remove_slot :
      (key : TableCacheKey) (slot : ℕ) (k : TableCacheKey) (t : CachedTable T) (c : TableCache T)
      → IsWf l c
      → Has k t (remove_slot key slot c)
      → Has k t c
  unfolding remove_slot remove
  Has-remove_slot key slot k t c w = go (get key c.entries)
    where
      go :
          (o : Option ℕ)
          → Has k t (elim o [
            | none ↦ c
            | some current ↦
                if current == slot then record c { entries = remove key c.entries } else c
          ])
          → Has k t c
      go none = λ h. h
      go (some current) = elim (Bool-cases (current == slot)) [
        | inl x ↦ rw x (Has-retain _ k t c w)
        | inr x ↦ rw x (λ h. h)
      ]

  -- A table that is stored was loaded for the key that finds the slot.
  pub Has-ready :
      (key : TableCacheKey) (slot : ℕ) (loaded : CachedTable T) (k : TableCacheKey)
      (t : CachedTable T) (c : TableCache T)
      → IsWf l c
      → get key c.entries ≡ some slot
      → Has k t (set_slot slot (ready loaded) c)
      → Has k t c ⊎ ((k ≡ key) × (loaded ≡ t))
  unfolding set_slot
  Has-ready key slot loaded k t c w found h = go (Bool-cases (h.slot == slot)) h.state
    where
      go :
          (h.slot == slot ≡ true) ⊎ (h.slot == slot ≡ false)
          → (if h.slot == slot then ready loaded else c.slots h.slot) ≡ ready t
          → Has k t c ⊎ ((k ≡ key) × (loaded ≡ t))
      go (inl x) = rw x (λ e. inr (
        same_slot k key slot c.entries w.apart (h.found ∙ ap some (==→eq h.slot slot x)) found,
        cc,
      ))
      go (inr x) = rw x (λ e. inl (record { slot = h.slot; found = h.found; state = e }))
