-- ===== src/Routing.antt =====
-- The object store that sends a path to the store with the credentials for it: `PrefixRoutingObjectStore` of
-- src/engine.rs. A path is its bytes; the stores behind it, which are of the `object_store` crate, are opaque.
-- `sort_by_key` of the standard library is a stable sort, here by insertion.
pub mod Prefixes
pub mod Longest
pub mod Examples
use harborsql.Base.{
  ℕ, Bool, true, false, ◌||◌, Option, none, some, List, [], ◌∷◌, Bytes, length, leb, ◌==◌, bytes_eq,
  if◌then◌else◌,
}

pub record ObjectStoreRoute (Store : Type 0) : Type 0 where
  pub prefix : Bytes
  pub store : Store

-- `str::strip_prefix`
unfoldable pub strip_prefix : Bytes → Bytes → Option Bytes
strip_prefix path [] = some path
strip_prefix [] (p ∷ ps) = none
strip_prefix (c ∷ cs) (p ∷ ps) = if c == p then strip_prefix cs ps else none

abbrev pub slash : ℕ
slash = 47

abbrev pub starts_with_slash : Option Bytes → Bool
starts_with_slash none = false
starts_with_slash (some []) = false
starts_with_slash (some (c ∷ cs)) = c == slash

abbrev pub is_empty : Bytes → Bool
is_empty [] = true
is_empty (c ∷ cs) = false

unfoldable pub path_has_prefix : Bytes → Bytes → Bool
unfolding strip_prefix
path_has_prefix path prefix =
    is_empty prefix || bytes_eq path prefix || starts_with_slash (strip_prefix path prefix)

pub record PrefixRoutingObjectStore (Store : Type 0) : Type 0 where
  pub routes : List (ObjectStoreRoute Store)

module _ {Store : Type 0} where
  unfoldable pub insert_route :
      ObjectStoreRoute Store → List (ObjectStoreRoute Store) → List (ObjectStoreRoute Store)
  insert_route r [] = r ∷ []
  insert_route r (q ∷ qs) =
      if leb (length q.prefix) (length r.prefix) then r ∷ q ∷ qs else q ∷ insert_route r qs

  unfoldable pub sort_routes : List (ObjectStoreRoute Store) → List (ObjectStoreRoute Store)
  unfolding insert_route
  sort_routes [] = []
  sort_routes (r ∷ rs) = insert_route r (sort_routes rs)

  -- PrefixRoutingObjectStore::new
  unfoldable pub new : List (ObjectStoreRoute Store) → PrefixRoutingObjectStore Store
  unfolding sort_routes
  new routes = record { routes = sort_routes routes }

  unfoldable pub find_route :
      (ObjectStoreRoute Store → Bool)
      → List (ObjectStoreRoute Store)
      → Option (ObjectStoreRoute Store)
  find_route test [] = none
  find_route test (r ∷ rs) = if test r then some r else find_route test rs

  abbrev pub store_of : Option (ObjectStoreRoute Store) → Option Store
  store_of none = none
  store_of (some r) = some r.store

  -- `none` is the error "no Unity table credential route matched object path".
  unfoldable pub route_for_location :
      List (ObjectStoreRoute Store) → Bytes → Option (ObjectStoreRoute Store)
  unfolding find_route path_has_prefix
  route_for_location routes location = find_route (λ r. path_has_prefix location r.prefix) routes

  unfoldable pub store_for_location : PrefixRoutingObjectStore Store → Bytes → Option Store
  unfolding route_for_location
  store_for_location s location = store_of (route_for_location s.routes location)

  unfoldable pub first_store : PrefixRoutingObjectStore Store → Option Store
  unfolding find_route
  first_store s = store_of (find_route (λ r. true) s.routes)

  unfoldable pub store_for_prefix : PrefixRoutingObjectStore Store → Option Bytes → Option Store
  unfolding store_for_location first_store find_route path_has_prefix
  store_for_prefix s none = first_store s
  store_for_prefix s (some prefix) = elim (store_for_location s prefix) [
    | some store ↦ some store
    | none ↦ store_of (find_route (λ r. path_has_prefix r.prefix prefix) s.routes)
  ]
