-- ===== src/TableCache/Origin/Log.antt =====
-- Calls of `get_or_load` and of `invalidate_table` in src/table_cache.rs one after another, and the abstract view of
-- them: a log of what was answered for each key, from which an invalidation takes its table.
use harborsql.Base.{
  ℕ, ◌≡◌, subst, ap, ◌∙◌, ◌⊎◌, Bool, true, false, not, some, List, [], ◌∷◌, Bytes, arith,
  Bool-cases, inl, inr, if◌then◌else◌,
}
use harborsql.Base.Chars.{eq_ignore_ascii_case}
use harborsql.TableCache.Keys.{TableCacheKey, Entries, key_eq, get, retain}
use harborsql.TableCache.{
  TableCache, CachedTable, Limits, Loaded, success, is_expired, loaded_table, Answer, answers,
  get_or_load, invalidate_table, new_cache,
}
use harborsql.TableCache.Wf.{IsWf, IsWf-retain, serve, serve-new_cache-IsWf}
use harborsql.TableCache.Hits.{IsAlone}
use harborsql.TableCache.Sharing.{key_eq→eq}
use harborsql.TableCache.Origin.{Has, Has-retain}
use harborsql.TableCache.Origin.Answers.{
  IsFrom, IsGiven, get_or_load-IsFrom, get_or_load-IsGiven, IsWf-get_or_load,
}

pub data Request (T : Type 0) : Type 0 where
  asks : TableCacheKey → ℕ → Loaded T → Request T
  forgets : Bytes → Request T

abbrev pub Log : Type 0 → Type 0
Log T = List (TableCacheKey × Answer T)

module _ {T : Type 0} where
  abbrev pub IsIn : TableCacheKey × Answer T → Log T → Type 0
  IsIn p [] = ⊥
  IsIn p (q ∷ log) = (q ≡ p) ⊎ IsIn p log

  unfoldable pub drop_table : Bytes → Log T → Log T
  drop_table full_name [] = []
  drop_table full_name ((k, a) ∷ log) =
      let rest = drop_table full_name log in
      if eq_ignore_ascii_case k.full_name full_name then rest else (k, a) ∷ rest

  IsIn-drop_table :
      (full_name : Bytes) (k : TableCacheKey) (a : Answer T) (log : Log T)
      → eq_ignore_ascii_case k.full_name full_name ≡ false
      → IsIn (k, a) log
      → IsIn (k, a) (drop_table full_name log)
  unfolding drop_table
  IsIn-drop_table full_name k a [] other h = absurd h
  IsIn-drop_table full_name k a ((j, b) ∷ log) other (inl e) =
      let same : eq_ignore_ascii_case j.full_name full_name ≡ false =
        ap (λ p. eq_ignore_ascii_case p.0.full_name full_name) e ∙ other in
      rw same (inl e)
  IsIn-drop_table full_name k a ((j, b) ∷ log) other (inr h) =
      elim (Bool-cases (eq_ignore_ascii_case j.full_name full_name)) [
        | inl x ↦ rw x (IsIn-drop_table full_name k a log other h)
        | inr x ↦ rw x (inr (IsIn-drop_table full_name k a log other h))
      ]

-- What is found among the entries that are kept was kept.
kept_key :
    (keep : TableCacheKey → Bool) (k : TableCacheKey) (slot : ℕ) (m : Entries)
    → get k (retain (λ j _. keep j) m) ≡ some slot
    → keep k ≡ true
unfolding get retain
kept_key keep k slot [] = λ e. absurd cc
kept_key keep k slot ((j, s) ∷ m) = elim (Bool-cases (keep j)) [
  | inr y ↦ rw y (kept_key keep k slot m)
  | inl y ↦ elim (Bool-cases (key_eq j k)) [
    | inl x ↦ λ _. subst (λ i. keep i ≡ true) (key_eq→eq j k x) y
    | inr x ↦ rw (y, x) (kept_key keep k slot m)
  ]
]

module _ {T : Type 0} (l : Limits) where
  unfoldable pub cache_after : List (Request T) → TableCache T → TableCache T
  cache_after [] c = c
  cache_after (asks key now loaded ∷ rs) c = cache_after rs (get_or_load l key now loaded c).1
  cache_after (forgets full_name ∷ rs) c = cache_after rs (invalidate_table full_name c)

  -- The answers to the requests that no later invalidation is about, on top of an earlier log.
  unfoldable pub log_after : List (Request T) → TableCache T → Log T → Log T
  log_after [] c log = log
  log_after (asks key now loaded ∷ rs) c log =
      log_after rs (get_or_load l key now loaded c).1
        ((key, (get_or_load l key now loaded c).0) ∷ log)
  log_after (forgets full_name ∷ rs) c log =
      log_after rs (invalidate_table full_name c) (drop_table full_name log)

  abbrev IsLogged : TableCache T → Log T → Type 0
  IsLogged c log =
      IsWf l c × ((k : TableCacheKey) (t : CachedTable T) → Has l k t c → IsIn (k, answers t) log)

  asks-IsLogged :
      (key : TableCacheKey) (now : ℕ) (loaded : Loaded T) (c : TableCache T) (log : Log T)
      → IsLogged c log
      → IsLogged
          (get_or_load l key now loaded c).1
          ((key, (get_or_load l key now loaded c).0) ∷ log)
  asks-IsLogged key now loaded c log (w, h) = (
    IsWf-get_or_load l key now loaded c w,
    λ k t has. logged k t (get_or_load-IsFrom l key now loaded k t c w has),
  )
    where
      logged :
          (k : TableCacheKey) (t : CachedTable T)
          → IsFrom l key (get_or_load l key now loaded c).0 k t c
          → IsIn (k, answers t) ((key, (get_or_load l key now loaded c).0) ∷ log)
      logged k t (inl has) = inr (h k t has)
      logged k t (inr (same, e)) = inl cc

  forgets-IsLogged :
      (full_name : Bytes) (c : TableCache T) (log : Log T)
      → IsLogged c log
      → IsLogged (invalidate_table full_name c) (drop_table full_name log)
  unfolding invalidate_table
  forgets-IsLogged full_name c log (w, h) = (
    IsWf-retain l _ c w,
    λ k t has.
        IsIn-drop_table full_name k (answers t) log
          (ground (
            arith,
            kept_key (λ j. not (eq_ignore_ascii_case j.full_name full_name)) k has.slot c.entries
                has.found,
          ))
          (h k t (Has-retain l _ k t c w has)),
  )

  IsLogged-after :
      (rs : List (Request T)) (c : TableCache T) (log : Log T)
      → IsLogged c log
      → IsLogged (cache_after rs c) (log_after rs c log)
  unfolding cache_after log_after
  IsLogged-after [] c log h = h
  IsLogged-after (asks key now loaded ∷ rs) c log h =
      IsLogged-after rs _ _ (asks-IsLogged key now loaded c log h)
  IsLogged-after (forgets full_name ∷ rs) c log h =
      IsLogged-after rs _ _ (forgets-IsLogged full_name c log h)

  new_cache-IsWf : IsWf {T = T} l new_cache
  unfolding serve
  new_cache-IsWf = serve-new_cache-IsWf l []

  new_is_empty :
      (k : TableCacheKey) (t : CachedTable T) → Has l k t new_cache → IsIn (k, answers t) []
  unfolding new_cache get
  new_is_empty k t has = absurd cc

  -- The cache refines a log of its answers. After any calls of `get_or_load` and of `invalidate_table` on a cache
  -- that started empty, one after another: when a further call for a key is answered with a table, then
  -- either that table has not expired and an earlier call for the same key, the same principal, table and
  -- region, was answered with it, after which its table was not invalidated; or the loader of the call
  -- itself gave it, and its expiry is capped, or it is not and the call left the cache out: the cache is
  -- disabled, or has no entry for the key and no room for one once the expired entries are pruned.
  pub get_or_load_lem :
      (rs : List (Request T)) (key : TableCacheKey) (now : ℕ) (loaded : Loaded T)
      (t : CachedTable T)
      → (get_or_load l key now loaded (cache_after rs new_cache)).0 ≡ answers t
      → (IsIn (key, answers t) (log_after rs new_cache []) × (is_expired t now ≡ false))
        ⊎ ((cached : CachedTable T) × (loaded ≡ success cached) × (loaded_table l now cached ≡ t))
        ⊎ (IsAlone l key now (cache_after rs new_cache) × (loaded ≡ success t))
  get_or_load_lem rs key now loaded t e =
      logged (get_or_load-IsGiven l key now loaded t (cache_after rs new_cache) covered.0 e)
    where
      covered : IsLogged (cache_after rs new_cache) (log_after rs new_cache [])
      covered = IsLogged-after rs new_cache [] (new_cache-IsWf, new_is_empty)

      logged :
          IsGiven l
            (IsAlone l key now (cache_after rs new_cache))
            key
            now
            loaded
            t
            (cache_after rs new_cache)
          → (IsIn (key, answers t) (log_after rs new_cache []) × (is_expired t now ≡ false))
            ⊎ ((cached : CachedTable T) × (loaded ≡ success cached)
                × (loaded_table l now cached ≡ t))
            ⊎ (IsAlone l key now (cache_after rs new_cache) × (loaded ≡ success t))
      logged (inl (has, live)) = inl (covered.1 key t has, live)
      logged (inr given) = inr given
