-- ===== src/TableCache/Examples.antt =====
-- The theorems on src/table_cache.rs at concrete caches.
use harborsql.Base.{
  ℕ, ◌+◌, ◌<◌, ◌≤◌, ◌≡◌, ◌≢◌, refl, false, ◌⊎◌, inl, inr, some, List, [], ◌∷◌, ascii, arith,
}
use harborsql.Base.Text.{bytes_eq}
use harborsql.Base.Chars.{eq_ignore_ascii_case}
use harborsql.TableCache.Keys.{TableCacheKey, get, key_eq, retain}
use harborsql.TableCache.{
  answers, get_or_load, is_enabled, slot_given, slot_taken, TableCache, CachedTable, Limits,
  success, failure, wait, is_expired, new_cache, take_turn, turn_for, finish_load, slot_for_key,
  slot_found, invalidate_table, is_prunable, prune_expired_entries, set_slot, loaded_table,
  cap_expires_at, checked_deadline,
}
use harborsql.TableCache.Hits.{IsAlone, get_or_load-again}
use harborsql.TableCache.Wf.{
  Event, serve, IsWf, serve-new_cache-IsWf, looks_up, takes_turn, finishes, invalidates,
}
use harborsql.TableCache.Origin.Log.{
  Request, asks, forgets, IsIn, cache_after, log_after, get_or_load_lem,
}
use harborsql.TableCache.Detached.{invalidate_table-detaches}
use harborsql.TableCache.Loading.{take_turn-waits}
use harborsql.TableCache.Expiry.{finish_load-expiry}

abbrev limits : Limits
limits = record { max_entries = 2; ttl = 60; last_instant = 1000 }

abbrev sales : TableCacheKey
sales = record {
  principal_fingerprint = ascii "p";
  full_name = ascii "main.s.Sales";
  aws_region = ascii "eu";
}

abbrev a_table : CachedTable ℕ
a_table = record { table = 7; expires_at = 500 }

abbrev events : List (Event ℕ)
events =
    looks_up sales 0
    ∷ takes_turn 0 0
    ∷ finishes sales 0 (success a_table) 10
    ∷ invalidates (ascii "main.s.sales")
    ∷ looks_up sales 20
    ∷ takes_turn 1 20
    ∷ finishes sales 0 failure 30
    ∷ []

-- The cache after one lookup: an empty slot.
abbrev one_slot : TableCache ℕ
unfolding slot_for_key prune_expired_entries slot_found set_slot get retain new_cache
one_slot = (slot_for_key limits sales 0 new_cache).1

serve-new_cache-IsWf_example : IsWf limits (serve limits events new_cache)
serve-new_cache-IsWf_example = serve-new_cache-IsWf limits events

invalidate_table-detaches_example :
    get sales (serve limits events (invalidate_table (ascii "MAIN.S.SALES") one_slot)).entries
    ≢ some 0
unfolding one_slot eq_ignore_ascii_case bytes_eq
invalidate_table-detaches_example =
    invalidate_table-detaches limits (ascii "MAIN.S.SALES") one_slot events sales 0 (omega arith)
      refl

take_turn-waits_example :
    (take_turn limits 0 5
      (serve limits (looks_up sales 3 ∷ takes_turn 0 4 ∷ []) (take_turn limits 0 0 one_slot).1)).0
    ≡ wait
unfolding one_slot take_turn turn_for
take_turn-waits_example =
    take_turn-waits limits 0 0 5 one_slot (looks_up sales 3 ∷ takes_turn 0 4 ∷ []) (omega arith)
      refl (tt, (tt, tt))

finish_load-expiry_example : (10 < 70) × (70 ≤ 500) × (70 ≤ 10 + 60)
unfolding finish_load loaded_table cap_expires_at checked_deadline is_expired set_slot
finish_load-expiry_example =
    finish_load-expiry limits sales 0 a_table 10 new_cache (record { table = 7; expires_at = 70 })
      refl

-- A second caller of the same key before the first took its turn: the empty slot is pruned, and it gets
-- another one.
second_slot_test : (slot_for_key limits sales 0 one_slot).0 ≡ some 1
unfolding one_slot slot_for_key prune_expired_entries slot_found set_slot get retain is_prunable
    key_eq bytes_eq
second_slot_test = refl

through_cache : ¬ IsAlone limits sales 10 (new_cache {T = ℕ})
unfolding IsAlone prune_expired_entries retain new_cache
through_cache (inl e) = omega (arith, e)
through_cache (inr (inl e)) = omega (arith, e)
through_cache (inr (inr (e, h))) = omega (arith, h)

get_or_load-again_example :
    (get_or_load limits sales 60 failure
      (get_or_load limits sales 10 (success a_table) new_cache).1).0
    ≡ answers (record { table = 7; expires_at = 70 })
unfolding get_or_load is_enabled slot_given slot_taken slot_for_key prune_expired_entries slot_found
    set_slot get retain new_cache take_turn turn_for finish_load loaded_table cap_expires_at
    checked_deadline is_expired
get_or_load-again_example =
    get_or_load-again limits sales 10 60 (success a_table) failure
      (record { table = 7; expires_at = 70 }) new_cache through_cache refl refl refl

abbrev capped_table : CachedTable ℕ
capped_table = record { table = 7; expires_at = 70 }

abbrev requests : List (Request ℕ)
requests = asks sales 10 (success a_table) ∷ forgets (ascii "main.s.Orders") ∷ []

get_or_load_lem_example :
    (IsIn (sales, answers capped_table) (log_after limits requests new_cache [])
      × (is_expired capped_table 60 ≡ false))
    ⊎ ((cached : CachedTable ℕ) × (failure ≡ success cached)
        × (loaded_table limits 60 cached ≡ capped_table))
    ⊎ (IsAlone limits sales 60 (cache_after limits requests new_cache)
        × (failure ≡ success capped_table))
unfolding get_or_load is_enabled slot_given slot_taken slot_for_key prune_expired_entries slot_found
    set_slot get retain new_cache take_turn turn_for finish_load loaded_table cap_expires_at
    checked_deadline is_expired invalidate_table cache_after eq_ignore_ascii_case bytes_eq
    is_prunable key_eq
get_or_load_lem_example = get_or_load_lem limits requests sales 60 failure capped_table refl
