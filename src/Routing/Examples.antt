-- ===== src/Routing/Examples.antt =====
-- The theorems on the routing of paths in src/engine.rs at concrete routes.
use harborsql.Base.{◌≡◌, refl, true, false, ◌↔◌, [], ◌∷◌, ascii, All, ℕ}
use harborsql.Base.Text.{bytes_eq}
use harborsql.Routing.{
  ObjectStoreRoute, new, route_for_location, find_route, sort_routes, insert_route, path_has_prefix,
  strip_prefix,
}
use harborsql.Routing.Prefixes.{IsBelow, path_has_prefix_iff}
use harborsql.Routing.Longest.{IsBest, route_for_location-IsBest, route_for_location-none}

abbrev bucket : ObjectStoreRoute ℕ
bucket = record { prefix = ascii "a"; store = 1 }

abbrev table : ObjectStoreRoute ℕ
table = record { prefix = ascii "a/t"; store = 2 }

path_has_prefix_iff_example :
    (path_has_prefix (ascii "a/tt") (ascii "a/t") ≡ true) ↔ IsBelow (ascii "a/tt") (ascii "a/t")
path_has_prefix_iff_example = path_has_prefix_iff (ascii "a/tt") (ascii "a/t")

route_for_location-IsBest_example :
    IsBest (λ r. path_has_prefix (ascii "a/t/x") r.prefix) (bucket ∷ table ∷ []) table
unfolding route_for_location find_route new sort_routes insert_route path_has_prefix strip_prefix
    bytes_eq
route_for_location-IsBest_example =
    route_for_location-IsBest (bucket ∷ table ∷ []) (ascii "a/t/x") table refl

route_for_location-none_example :
    All
      (λ (r : ObjectStoreRoute ℕ). path_has_prefix (ascii "b/x") r.prefix ≡ false)
      (bucket ∷ table ∷ [])
unfolding route_for_location find_route new sort_routes insert_route path_has_prefix strip_prefix
    bytes_eq
route_for_location-none_example = route_for_location-none (bucket ∷ table ∷ []) (ascii "b/x") refl
