-- ===== src/TableCache/Hits.antt =====
-- Two calls of `get_or_load` in src/table_cache.rs, one after the other.
use harborsql.Base.{
  ℕ, ◌≡◌, ◌≢◌, ◌≤◌, ◌⊎◌, ◌==◌, ==→eq, refl, ap, ◌∙◌, Bool, true, false, not, Option, none, some, [],
  ◌∷◌, leb, length, eq→==, arith, Bool-cases, inl, inr, bytes_eq_iff,
}
use harborsql.TableCache.Keys.{TableCacheKey, Entries, key_eq, get, retain}
use harborsql.TableCache.{
  TableCache, CachedTable, Limits, Loaded, success, failure, EntryState, empty, loading, ready,
  load, is_enabled, is_expired, is_prunable, slot_for_key, slot_found, take_turn, turn_for,
  finish_load, prune_expired_entries, set_slot, loaded_table, answers, slot_taken, slot_given,
  get_or_load,
}

pub key_eq_refl : (k : TableCacheKey) → key_eq k k ≡ true
unfolding key_eq
key_eq_refl k = ground (
  arith,
  (bytes_eq_iff k.principal_fingerprint k.principal_fingerprint).1 refl,
  (bytes_eq_iff k.full_name k.full_name).1 refl,
  (bytes_eq_iff k.aws_region k.aws_region).1 refl,
)

pub some_slot : (s slot : ℕ) → some s ≡ some slot → s ≡ slot
some_slot s slot e = cc

-- An entry that is kept for its slot is still found.
get-retain :
    (keep : ℕ → Bool) (k : TableCacheKey) (slot : ℕ) (m : Entries)
    → keep slot ≡ true
    → get k m ≡ some slot
    → get k (retain (λ _ s. keep s) m) ≡ some slot
unfolding get retain
get-retain keep k slot [] h = λ e. e
get-retain keep k slot ((j, s) ∷ m) h = elim (Bool-cases (key_eq j k)) [
  | inl x ↦
      rw x (λ e. let found : keep s ≡ true = ap keep (some_slot s slot e) ∙ h in rw (found, x) e)
  | inr x ↦ elim (Bool-cases (keep s)) [
    | inl y ↦ rw (x, y, x) (get-retain keep k slot m h)
    | inr y ↦ rw (x, y) (get-retain keep k slot m h)
  ]
]

module _ {T : Type 0} (l : Limits) where
  -- A key whose slot holds a table that has not expired.
  pub record HasTable (key : TableCacheKey) (table : CachedTable T) (c : TableCache T)
      : Type 0 where
    pub slot : ℕ
    pub found : get key c.entries ≡ some slot
    pub state : c.slots slot ≡ ready table

  -- The cache is disabled, or it has no entry for the key and no room for one once the expired ones are pruned.
  unfoldable pub IsAlone : TableCacheKey → ℕ → TableCache T → Type 0
  IsAlone key now c =
      (l.max_entries ≡ 0)
      ⊎ (l.ttl ≡ 0)
      ⊎ ((get key (prune_expired_entries now c).entries ≡ none)
          × (l.max_entries ≤ length (prune_expired_entries now c).entries))

  pub IsAlone-disabled :
      (key : TableCacheKey) (now : ℕ) (c : TableCache T) → is_enabled l ≡ false → IsAlone key now c
  unfolding is_enabled IsAlone
  IsAlone-disabled key now c h = elim (Bool-cases (l.ttl == 0)) [
    | inl e ↦ inr (inl (==→eq l.ttl 0 e))
    | inr e ↦ inl (ground (arith, h, e))
  ]

  no_slot :
      (key : TableCacheKey) (o : Option ℕ) (c : TableCache T)
      → (slot_found l key o c).0 ≡ none
      → (o ≡ none) × (l.max_entries ≤ length c.entries)
  unfolding slot_found
  no_slot key (some slot) c = λ h. absurd cc
  no_slot key none c = elim (Bool-cases (leb l.max_entries (length c.entries))) [
    | inl e ↦ rw e (λ _. (refl, ground (arith, e)))
    | inr e ↦ rw e (λ h. absurd cc)
  ]

  pub IsAlone-slot_for_key :
      (key : TableCacheKey) (now : ℕ) (c : TableCache T)
      → (slot_for_key l key now c).0 ≡ none
      → IsAlone key now c
  unfolding slot_for_key IsAlone
  IsAlone-slot_for_key key now c h = inr (inr (no_slot key _ (prune_expired_entries now c) h))

  through_cache :
      (key : TableCacheKey) (now : ℕ) (c : TableCache T) → ¬ IsAlone key now c → is_enabled l ≡ true
  through_cache key now c h = elim (Bool-cases (is_enabled l)) [
    | inl e ↦ e
    | inr e ↦ absurd (h (IsAlone-disabled key now c e))
  ]

  get_or_load-hit :
      (key : TableCacheKey) (now : ℕ) (loaded : Loaded T) (table : CachedTable T) (c : TableCache T)
      → is_enabled l ≡ true
      → HasTable key table c
      → is_expired table now ≡ false
      → (get_or_load l key now loaded c).0 ≡ answers table
  unfolding get_or_load slot_for_key prune_expired_entries slot_found slot_taken slot_given
      take_turn turn_for is_prunable
  get_or_load-hit key now loaded table c on h live =
      let kept : not (is_prunable now (c.slots h.slot)) ≡ true = rw (h.state, live) refl in
      let found =
        get-retain (λ s. not (is_prunable now (c.slots s))) key h.slot c.entries kept h.found in
      rw (on, found, h.state, live) refl

  pub found_slot :
      (key : TableCacheKey) (o : Option ℕ) (c : TableCache T) (slot : ℕ)
      → get key c.entries ≡ o
      → (slot_found l key o c).0 ≡ some slot
      → get key (slot_found l key o c).1.entries ≡ some slot
  unfolding slot_found set_slot get
  found_slot key (some s) c slot e = λ h. e ∙ h
  found_slot key none c slot e = elim (Bool-cases (leb l.max_entries (length c.entries))) [
    | inl x ↦ rw x (λ h. absurd cc)
    | inr x ↦ rw (x, key_eq_refl key) (λ h. h)
  ]

  answers_inj : (a b : CachedTable T) → answers a ≡ answers b → a ≡ b
  answers_inj a b e = cc

  stored :
      (key : TableCacheKey) (slot now : ℕ) (loaded : Loaded T) (table : CachedTable T)
      (c : TableCache T)
      → get key c.entries ≡ some slot
      → is_expired table now ≡ false
      → (slot_taken l key slot now loaded (load, c)).0 ≡ answers table
      → HasTable key table (slot_taken l key slot now loaded (load, c)).1
  unfolding slot_taken finish_load set_slot
  stored key slot now failure table c e live = λ h. absurd cc
  stored key slot now (success cached) table c e live =
      elim (Bool-cases (is_expired (loaded_table l now cached) now)) [
        | inl x ↦ rw x (λ h. absurd (
            ground (
              arith,
              live,
              x,
              ap (λ t. is_expired t now) (answers_inj (loaded_table l now cached) table h),
            )))
        | inr x ↦ rw x (λ h. record {
          slot = slot;
          found = e;
          state =
              rw (eq→== slot slot refl)
                (ap ready (answers_inj (loaded_table l now cached) table h));
        })
      ]

  same_entries :
      (key : TableCacheKey) (slot : ℕ) (c : TableCache T)
      → get key c.entries ≡ some slot
      → get key (set_slot slot loading c).entries ≡ some slot
  unfolding set_slot
  same_entries key slot c e = e

  turn_taken :
      (key : TableCacheKey) (slot now : ℕ) (loaded : Loaded T) (table : CachedTable T)
      (c : TableCache T) (state : EntryState T)
      → c.slots slot ≡ state
      → get key c.entries ≡ some slot
      → is_expired table now ≡ false
      → (slot_taken l key slot now loaded (turn_for l slot now state c)).0 ≡ answers table
      → HasTable key table (slot_taken l key slot now loaded (turn_for l slot now state c)).1
  unfolding slot_taken turn_for
  turn_taken key slot now loaded table c empty s e live =
      stored key slot now loaded table (set_slot slot loading c) (same_entries key slot c e) live
  turn_taken key slot now loaded table c loading s e live = λ h. absurd cc
  turn_taken key slot now loaded table c (ready cached) s e live =
      elim (Bool-cases (is_expired cached now)) [
        | inl x ↦ rw x (
            stored key slot now loaded table (set_slot slot loading c) (same_entries key slot c e)
              live)
        | inr x ↦ rw x (λ h. record {
          slot = slot;
          found = e;
          state = s ∙ ap ready (answers_inj cached table h);
        })
      ]

  given :
      (key : TableCacheKey) (now : ℕ) (loaded : Loaded T) (table : CachedTable T) (o : Option ℕ)
      (c : TableCache T)
      → o ≢ none
      → ((slot : ℕ) → o ≡ some slot → get key c.entries ≡ some slot)
      → is_expired table now ≡ false
      → (slot_given l key now loaded (o, c)).0 ≡ answers table
      → HasTable key table (slot_given l key now loaded (o, c)).1
  unfolding slot_given take_turn
  given key now loaded table none c there f live = λ h. absurd (there refl)
  given key now loaded table (some slot) c there f live =
      turn_taken key slot now loaded table c (c.slots slot) refl (f slot refl) live

  get_or_load-HasTable :
      (key : TableCacheKey) (now : ℕ) (loaded : Loaded T) (table : CachedTable T) (c : TableCache T)
      → is_enabled l ≡ true
      → (slot_for_key l key now c).0 ≢ none
      → is_expired table now ≡ false
      → (get_or_load l key now loaded c).0 ≡ answers table
      → HasTable key table (get_or_load l key now loaded c).1
  unfolding get_or_load slot_for_key
  get_or_load-HasTable key now loaded table c on there live =
      let pruned = prune_expired_entries now c in
      let o = get key pruned.entries in
      rw on (
        given key now loaded table (slot_found l key o pruned).0 (slot_found l key o pruned).1 there
          (λ slot. found_slot key o pruned slot refl) live)

  -- With the cache enabled, and an entry for the key or room for one once the expired entries are pruned: when one
  -- call of `get_or_load` is answered with a table that has not expired at that time, the next call for the
  -- same key, at any time at which the table has not expired, is answered with the same table, whatever its
  -- loader would give.
  pub get_or_load-again :
      (key : TableCacheKey) (now later : ℕ) (loaded loaded' : Loaded T) (table : CachedTable T)
      (c : TableCache T)
      → ¬ IsAlone key now c
      → is_expired table now ≡ false
      → (get_or_load l key now loaded c).0 ≡ answers table
      → is_expired table later ≡ false
      → (get_or_load l key later loaded' (get_or_load l key now loaded c).1).0 ≡ answers table
  get_or_load-again key now later loaded loaded' table c there live e live' =
      let on = through_cache key now c there in
      get_or_load-hit key later loaded' table (get_or_load l key now loaded c).1 on
        (get_or_load-HasTable key now loaded table c on
          (λ h. there (IsAlone-slot_for_key key now c h)) live e)
        live'
