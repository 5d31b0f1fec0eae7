-- ===== src/Routing/Longest.antt =====
-- The choice of a route for a path in src/engine.rs: the sorted routes and the first that has the path.
use harborsql.Base.{
  ◌≤◌, ◌≡◌, refl, ◌⊎◌, inl, inr, Bool, true, false, none, some, List, [], ◌∷◌, Bytes, length, leb,
  All, arith, Bool-cases,
}
use harborsql.Routing.{
  ObjectStoreRoute, new, insert_route, sort_routes, find_route, route_for_location, path_has_prefix,
}

module _ {Store : Type 0} where
  abbrev pub IsIn : ObjectStoreRoute Store → List (ObjectStoreRoute Store) → Type 0
  IsIn r [] = ⊥
  IsIn r (q ∷ qs) = (q ≡ r) ⊎ IsIn r qs

  IsIn-insert_route :
      (r x : ObjectStoreRoute Store) (qs : List (ObjectStoreRoute Store))
      → IsIn x (insert_route r qs)
      → (r ≡ x) ⊎ IsIn x qs
  unfolding insert_route
  IsIn-insert_route r x [] = λ h. h
  IsIn-insert_route r x (q ∷ qs) = elim (Bool-cases (leb (length q.prefix) (length r.prefix))) [
    | inl e ↦ rw e (λ h. h)
    | inr e ↦ rw e (λ h. elim h [
      | inl same ↦ inr (inl same)
      | inr later ↦ elim (IsIn-insert_route r x qs later) [
        | inl same ↦ inl same
        | inr there ↦ inr (inr there)
      ]
    ])
  ]

  IsIn-sort_routes :
      (x : ObjectStoreRoute Store) (rs : List (ObjectStoreRoute Store))
      → IsIn x (sort_routes rs)
      → IsIn x rs
  unfolding sort_routes
  IsIn-sort_routes x [] h = h
  IsIn-sort_routes x (r ∷ rs) h = elim (IsIn-insert_route r x (sort_routes rs) h) [
    | inl same ↦ inl same
    | inr there ↦ inr (IsIn-sort_routes x rs there)
  ]

  module _ (P : ObjectStoreRoute Store → Type 0) where
    All-insert_route :
        (r : ObjectStoreRoute Store) (qs : List (ObjectStoreRoute Store))
        → P r
        → All P qs
        → All P (insert_route r qs)
    unfolding insert_route
    All-insert_route r [] p h = (p, tt)
    All-insert_route r (q ∷ qs) p h = elim (Bool-cases (leb (length q.prefix) (length r.prefix))) [
      | inl e ↦ rw e (p, (h.0, h.1))
      | inr e ↦ rw e (h.0, All-insert_route r qs p h.1)
    ]

    insert_route-All :
        (r : ObjectStoreRoute Store) (qs : List (ObjectStoreRoute Store))
        → All P (insert_route r qs)
        → P r × All P qs
    unfolding insert_route
    insert_route-All r [] = λ h. h
    insert_route-All r (q ∷ qs) = elim (Bool-cases (leb (length q.prefix) (length r.prefix))) [
      | inl e ↦ rw e (λ h. h)
      | inr e ↦ rw e (λ h. let (p, rest) = insert_route-All r qs h.1 in (p, (h.0, rest)))
    ]

    sort_routes-All : (rs : List (ObjectStoreRoute Store)) → All P (sort_routes rs) → All P rs
    unfolding sort_routes
    sort_routes-All [] h = tt
    sort_routes-All (r ∷ rs) h =
        let (p, rest) = insert_route-All r (sort_routes rs) h in (p, sort_routes-All rs rest)

  -- The prefixes do not get longer along the list.
  abbrev IsNoLonger : ObjectStoreRoute Store → ObjectStoreRoute Store → Type 0
  IsNoLonger r q = length q.prefix ≤ length r.prefix

  abbrev IsSorted : List (ObjectStoreRoute Store) → Type 0
  IsSorted [] = Unit
  IsSorted (r ∷ rs) = All (IsNoLonger r) rs × IsSorted rs

  All-map :
      (P Q : ObjectStoreRoute Store → Type 0)
      → ((r : ObjectStoreRoute Store) → P r → Q r)
      → (rs : List (ObjectStoreRoute Store)) → All P rs
      → All Q rs
  All-map P Q f [] h = tt
  All-map P Q f (r ∷ rs) h = (f r h.0, All-map P Q f rs h.1)

  IsSorted-insert_route :
      (r : ObjectStoreRoute Store) (qs : List (ObjectStoreRoute Store))
      → IsSorted qs
      → IsSorted (insert_route r qs)
  unfolding insert_route
  IsSorted-insert_route r [] h = (tt, tt)
  IsSorted-insert_route r (q ∷ qs) h = elim (Bool-cases (leb (length q.prefix) (length r.prefix))) [
    | inl e ↦
        let le : length q.prefix ≤ length r.prefix = ground (arith, e) in
        rw e ((le, All-map (IsNoLonger q) (IsNoLonger r) (λ x k. omega (arith, k, le)) qs h.0), h)
    | inr e ↦ rw e (
      All-insert_route (IsNoLonger q) r qs (ground (arith, e)) h.0,
      IsSorted-insert_route r qs h.1,
    )
  ]

  IsSorted-sort_routes : (rs : List (ObjectStoreRoute Store)) → IsSorted (sort_routes rs)
  unfolding sort_routes
  IsSorted-sort_routes [] = tt
  IsSorted-sort_routes (r ∷ rs) = IsSorted-insert_route r (sort_routes rs) (IsSorted-sort_routes rs)

  -- The route fails the test, or its prefix is not longer than the one that was found.
  abbrev pub IsWorse :
      (ObjectStoreRoute Store → Bool) → ObjectStoreRoute Store → ObjectStoreRoute Store → Type 0
  IsWorse test found r = (test r ≡ false) ⊎ (length r.prefix ≤ length found.prefix)

  -- What a search found: a route of the list that passes the test, and no worse than the others.
  pub record IsBest (test : ObjectStoreRoute Store → Bool) (rs : List (ObjectStoreRoute Store))
      (found : ObjectStoreRoute Store) : Type 0 where
    pub is_in : IsIn found rs
    pub passes : test found ≡ true
    pub best : All (IsWorse test found) rs

  some_route : (a b : ObjectStoreRoute Store) → some a ≡ some b → a ≡ b
  some_route a b e = cc

  find_route-IsBest :
      (test : ObjectStoreRoute Store → Bool) (rs : List (ObjectStoreRoute Store))
      (found : ObjectStoreRoute Store)
      → IsSorted rs
      → find_route test rs ≡ some found
      → IsBest test rs found
  unfolding find_route
  find_route-IsBest test [] found s = λ e. absurd cc
  find_route-IsBest test (r ∷ rs) found s = elim (Bool-cases (test r)) [
    | inl x ↦ rw x (λ e. rw (← some_route r found e) (record {
      is_in = inl refl;
      passes = x;
      best = (inr (omega arith), All-map (IsNoLonger r) (IsWorse test r) (λ q k. inr k) rs s.0);
    }))
    | inr x ↦ rw x (λ e.
        let rest = find_route-IsBest test rs found s.1 e in
        record { is_in = inr rest.is_in; passes = rest.passes; best = (inl x, rest.best) })
  ]

  find_route-none :
      (test : ObjectStoreRoute Store → Bool) (rs : List (ObjectStoreRoute Store))
      → find_route test rs ≡ none
      → All (λ r. test r ≡ false) rs
  unfolding find_route
  find_route-none test [] = λ e. tt
  find_route-none test (r ∷ rs) = elim (Bool-cases (test r)) [
    | inl x ↦ rw x (λ e. absurd cc)
    | inr x ↦ rw x (λ e. (refl, find_route-none test rs e))
  ]

  -- The route that a location takes is one of the routes that the store was made from, the location has its
  -- prefix, and no route with a longer prefix has the location.
  pub route_for_location-IsBest :
      (rs : List (ObjectStoreRoute Store)) (location : Bytes) (found : ObjectStoreRoute Store)
      → route_for_location (new rs).routes location ≡ some found
      → IsBest (λ r. path_has_prefix location r.prefix) rs found
  unfolding route_for_location new
  route_for_location-IsBest rs location found e =
      let sorted =
        find_route-IsBest (λ r. path_has_prefix location r.prefix) (sort_routes rs) found
          (IsSorted-sort_routes rs) e in
      record {
        is_in = IsIn-sort_routes found rs sorted.is_in;
        passes = sorted.passes;
        best = sort_routes-All _ rs sorted.best;
      }

  -- When a location takes no route, it has the prefix of none of the routes that the store was made from.
  pub route_for_location-none :
      (rs : List (ObjectStoreRoute Store)) (location : Bytes)
      → route_for_location (new rs).routes location ≡ none
      → All (λ r. path_has_prefix location r.prefix ≡ false) rs
  unfolding route_for_location new
  route_for_location-none rs location e =
      sort_routes-All _ rs
        (find_route-none (λ r. path_has_prefix location r.prefix) (sort_routes rs) e)
