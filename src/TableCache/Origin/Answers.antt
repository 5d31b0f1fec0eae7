-- ===== src/TableCache/Origin/Answers.antt =====
-- Where the table of a key and the answer of `get_or_load` come from, in one call: src/table_cache.rs.
use harborsql.Base.{
  ℕ, ◌≡◌, refl, sym, ap, ◌∙◌, ◌⊎◌, false, Option, none, some, Bool-cases, inl, inr,
}
use harborsql.TableCache.Keys.{TableCacheKey, get}
use harborsql.TableCache.{
  TableCache, CachedTable, Limits, Loaded, success, failure, EntryState, empty, loading, ready,
  Turn, hit, wait, load, is_enabled, is_expired, slot_for_key, slot_found, take_turn, turn_for,
  finish_load, prune_expired_entries, set_slot, loaded_table, Answer, answers, slot_taken,
  slot_given, get_or_load, load_alone,
}
use harborsql.TableCache.Wf.{
  IsWf, IsWf-slot_for_key, IsWf-set_slot, IsWf-turn_for, IsWf-finish_load,
}
use harborsql.TableCache.Hits.{found_slot, IsAlone, IsAlone-disabled, IsAlone-slot_for_key}
use harborsql.TableCache.Origin.{Has, Has-slot_for_key, Has-set_slot, Has-remove_slot, Has-ready}

module _ {T : Type 0} (l : Limits) where
  -- A table that a key has after a step with an answer: it had it before, or the answer is the table.
  abbrev pub IsFrom :
      TableCacheKey → Answer T → TableCacheKey → CachedTable T → TableCache T → Type 0
  IsFrom key answer k t c = Has l k t c ⊎ ((k ≡ key) × (answer ≡ answers t))

  IsFrom-map :
      (key : TableCacheKey) (answer : Answer T) (k : TableCacheKey) (t : CachedTable T)
      (c c' : TableCache T)
      → (Has l k t c → Has l k t c')
      → IsFrom key answer k t c
      → IsFrom key answer k t c'
  IsFrom-map key answer k t c c' f (inl h) = inl (f h)
  IsFrom-map key answer k t c c' f (inr h) = inr h

  load-IsFrom :
      (key : TableCacheKey) (slot now : ℕ) (loaded : Loaded T) (k : TableCacheKey)
      (t : CachedTable T) (c : TableCache T)
      → IsWf l c
      → get key c.entries ≡ some slot
      → Has l k t (slot_taken l key slot now loaded (load, c)).1
      → IsFrom key (slot_taken l key slot now loaded (load, c)).0 k t c
  unfolding slot_taken finish_load
  load-IsFrom key slot now failure k t c w found = λ h. inl (
      Has-set_slot l slot empty k t c (λ e. cc)
        (Has-remove_slot l key slot k t _ (IsWf-set_slot l slot empty c w) h))
  load-IsFrom key slot now (success cached) k t c w found =
      elim (Bool-cases (is_expired (loaded_table l now cached) now)) [
        | inl x ↦ rw x (λ h. inl (
            Has-set_slot l slot empty k t c (λ e. cc)
              (Has-remove_slot l key slot k t _ (IsWf-set_slot l slot empty c w) h)))
        | inr x ↦
            rw x (λ h. as_answer (Has-ready l key slot (loaded_table l now cached) k t c w found h))
      ]
    where
      as_answer :
          Has l k t c ⊎ ((k ≡ key) × (loaded_table l now cached ≡ t))
          → IsFrom key (answers (loaded_table l now cached)) k t c
      as_answer (inl h) = inl h
      as_answer (inr h) = inr (h.0, ap answers h.1)

  started-IsFrom :
      (key : TableCacheKey) (slot now : ℕ) (loaded : Loaded T) (k : TableCacheKey)
      (t : CachedTable T) (c : TableCache T)
      → IsWf l c
      → get key c.entries ≡ some slot
      → Has l k t (slot_taken l key slot now loaded (load, set_slot slot loading c)).1
      → IsFrom key (slot_taken l key slot now loaded (load, set_slot slot loading c)).0 k t c
  started-IsFrom key slot now loaded k t c w found h =
      IsFrom-map key (slot_taken l key slot now loaded (load, set_slot slot loading c)).0 k t
        (set_slot slot loading c) c (Has-set_slot l slot loading k t c (λ e. cc))
        (load-IsFrom key slot now loaded k t (set_slot slot loading c)
          (IsWf-set_slot l slot loading c w) (unfold set_slot in found) h)

  slot_taken-IsFrom :
      (key : TableCacheKey) (slot now : ℕ) (loaded : Loaded T) (k : TableCacheKey)
      (t : CachedTable T) (c : TableCache T) (state : EntryState T)
      → IsWf l c
      → get key c.entries ≡ some slot
      → Has l k t (slot_taken l key slot now loaded (turn_for l slot now state c)).1
      → IsFrom key (slot_taken l key slot now loaded (turn_for l slot now state c)).0 k t c
  unfolding slot_taken turn_for
  slot_taken-IsFrom key slot now loaded k t c empty w found =
      started-IsFrom key slot now loaded k t c w found
  slot_taken-IsFrom key slot now loaded k t c loading w found = λ h. inl h
  slot_taken-IsFrom key slot now loaded k t c (ready cached) w found =
      elim (Bool-cases (is_expired cached now)) [
        | inl x ↦ rw x (started-IsFrom key slot now loaded k t c w found)
        | inr x ↦ rw x (λ h. inl h)
      ]

  slot_given-IsFrom :
      (key : TableCacheKey) (now : ℕ) (loaded : Loaded T) (k : TableCacheKey) (t : CachedTable T)
      (o : Option ℕ) (c : TableCache T)
      → IsWf l c
      → ((slot : ℕ) → o ≡ some slot → get key c.entries ≡ some slot)
      → Has l k t (slot_given l key now loaded (o, c)).1
      → IsFrom key (slot_given l key now loaded (o, c)).0 k t c
  unfolding slot_given take_turn
  slot_given-IsFrom key now loaded k t none c w found = λ h. inl h
  slot_given-IsFrom key now loaded k t (some slot) c w found =
      slot_taken-IsFrom key slot now loaded k t c (c.slots slot) w (found slot refl)

  pub get_or_load-IsFrom :
      (key : TableCacheKey) (now : ℕ) (loaded : Loaded T) (k : TableCacheKey) (t : CachedTable T)
      (c : TableCache T)
      → IsWf l c
      → Has l k t (get_or_load l key now loaded c).1
      → IsFrom key (get_or_load l key now loaded c).0 k t c
  unfolding get_or_load slot_for_key
  get_or_load-IsFrom key now loaded k t c w = elim (Bool-cases (is_enabled l)) [
    | inr x ↦ rw x (λ h. inl h)
    | inl x ↦
        let pruned = prune_expired_entries now c in
        let o = get key pruned.entries in
        let given = slot_found l key o pruned in
        rw x (λ h.
          IsFrom-map key (slot_given l key now loaded given).0 k t given.1 c
            (Has-slot_for_key l key now k t c w)
            (slot_given-IsFrom key now loaded k t given.0 given.1 (IsWf-slot_for_key l key now c w)
              (λ slot. found_slot l key o pruned slot refl) h))
  ]

  -- What an answer with a table says: the cache has it and it has not expired, or the loader gave it.
  -- The loader gave it as it is where the cache is left out.
  abbrev pub IsGiven : Type 0 → TableCacheKey → ℕ → Loaded T → CachedTable T → TableCache T → Type 0
  IsGiven Alone key now loaded t c =
      (Has l key t c × (is_expired t now ≡ false))
      ⊎ ((cached : CachedTable T) × (loaded ≡ success cached) × (loaded_table l now cached ≡ t))
      ⊎ (Alone × (loaded ≡ success t))

  answers_inj : (a b : CachedTable T) → answers a ≡ answers b → a ≡ b
  answers_inj a b e = cc

  load-IsGiven :
      (key : TableCacheKey) (slot now : ℕ) (loaded : Loaded T) (t : CachedTable T)
      (c : TableCache T)
      → (slot_taken l key slot now loaded (load, c)).0 ≡ answers t
      → (cached : CachedTable T) × (loaded ≡ success cached) × (loaded_table l now cached ≡ t)
  unfolding slot_taken finish_load
  load-IsGiven key slot now failure t c = λ e. absurd cc
  load-IsGiven key slot now (success cached) t c =
      elim (Bool-cases (is_expired (loaded_table l now cached) now)) [
        | inl x ↦ rw x (λ e. (cached, refl, answers_inj (loaded_table l now cached) t e))
        | inr x ↦ rw x (λ e. (cached, refl, answers_inj (loaded_table l now cached) t e))
      ]

  slot_taken-IsGiven :
      (Alone : Type 0) (key : TableCacheKey) (slot now : ℕ) (loaded : Loaded T) (t : CachedTable T)
      (c : TableCache T) (state : EntryState T)
      → c.slots slot ≡ state
      → get key c.entries ≡ some slot
      → (slot_taken l key slot now loaded (turn_for l slot now state c)).0 ≡ answers t
      → IsGiven Alone key now loaded t c
  unfolding slot_taken turn_for
  slot_taken-IsGiven Alone key slot now loaded t c empty s found =
      λ e. inr (inl (load-IsGiven key slot now loaded t (set_slot slot loading c) e))
  slot_taken-IsGiven Alone key slot now loaded t c loading s found = λ e. absurd cc
  slot_taken-IsGiven Alone key slot now loaded t c (ready cached) s found =
      elim (Bool-cases (is_expired cached now)) [
        | inl x ↦
            rw x (λ e. inr (inl (load-IsGiven key slot now loaded t (set_slot slot loading c) e)))
        | inr x ↦ rw x (λ e.
            let same = answers_inj cached t e in
            inl (
              record { slot = slot; found = found; state = s ∙ ap ready same },
              ap (λ u. is_expired u now) (sym same) ∙ x,
            ))
      ]

  alone-IsGiven :
      (loaded : Loaded T) (t : CachedTable T) → load_alone l loaded ≡ answers t → loaded ≡ success t
  unfolding load_alone
  alone-IsGiven (success cached) t e = ap success (answers_inj cached t e)
  alone-IsGiven failure t e = absurd cc

  slot_given-IsGiven :
      (key : TableCacheKey) (now : ℕ) (loaded : Loaded T) (t : CachedTable T) (o : Option ℕ)
      (c : TableCache T)
      → ((slot : ℕ) → o ≡ some slot → get key c.entries ≡ some slot)
      → (slot_given l key now loaded (o, c)).0 ≡ answers t
      → IsGiven (o ≡ none) key now loaded t c
  unfolding slot_given take_turn
  slot_given-IsGiven key now loaded t none c found = λ e. inr (inr (refl, alone-IsGiven loaded t e))
  slot_given-IsGiven key now loaded t (some slot) c found =
      slot_taken-IsGiven (some slot ≡ none) key slot now loaded t c (c.slots slot) refl
        (found slot refl)

  pub get_or_load-IsGiven :
      (key : TableCacheKey) (now : ℕ) (loaded : Loaded T) (t : CachedTable T) (c : TableCache T)
      → IsWf l c
      → (get_or_load l key now loaded c).0 ≡ answers t
      → IsGiven (IsAlone l key now c) key now loaded t c
  unfolding get_or_load slot_for_key
  get_or_load-IsGiven key now loaded t c w = elim (Bool-cases (is_enabled l)) [
    | inr x ↦ rw x (λ e. inr (inr (IsAlone-disabled l key now c x, alone-IsGiven loaded t e)))
    | inl x ↦
        let pruned = prune_expired_entries now c in
        let o = get key pruned.entries in
        let given = slot_found l key o pruned in
        rw x (λ e.
          earlier (λ h. IsAlone-slot_for_key l key now c (unfold slot_for_key in h))
            (Has-slot_for_key l key now key t c w)
            (slot_given-IsGiven key now loaded t given.0 given.1
              (λ slot. found_slot l key o pruned slot refl) e))
  ]
    where
      earlier :
          {A B : Type 0} {c c' : TableCache T}
          → (A → B)
          → (Has l key t c' → Has l key t c)
          → IsGiven A key now loaded t c'
          → IsGiven B key now loaded t c
      earlier g f (inl (h, live)) = inl (f h, live)
      earlier g f (inr (inl h)) = inr (inl h)
      earlier g f (inr (inr (a, h))) = inr (inr (g a, h))

  IsWf-slot_taken :
      (key : TableCacheKey) (slot now : ℕ) (loaded : Loaded T) (turn : Turn T) (c : TableCache T)
      → IsWf l c
      → IsWf l (slot_taken l key slot now loaded (turn, c)).1
  unfolding slot_taken
  IsWf-slot_taken key slot now loaded (hit cached) c w = w
  IsWf-slot_taken key slot now loaded wait c w = w
  IsWf-slot_taken key slot now loaded load c w = IsWf-finish_load l key slot loaded now c w

  IsWf-slot_given :
      (key : TableCacheKey) (now : ℕ) (loaded : Loaded T) (o : Option ℕ) (c : TableCache T)
      → IsWf l c
      → IsWf l (slot_given l key now loaded (o, c)).1
  unfolding slot_given take_turn
  IsWf-slot_given key now loaded none c w = w
  IsWf-slot_given key now loaded (some slot) c w =
      IsWf-slot_taken key slot now loaded _ _ (IsWf-turn_for l slot now (c.slots slot) c w)

  pub IsWf-get_or_load :
      (key : TableCacheKey) (now : ℕ) (loaded : Loaded T) (c : TableCache T)
      → IsWf l c
      → IsWf l (get_or_load l key now loaded c).1
  unfolding get_or_load
  IsWf-get_or_load key now loaded c w = elim (Bool-cases (is_enabled l)) [
    | inr x ↦ rw x w
    | inl x ↦ rw x (IsWf-slot_given key now loaded _ _ (IsWf-slot_for_key l key now c w))
  ]
