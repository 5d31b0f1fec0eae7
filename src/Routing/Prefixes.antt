-- ===== src/Routing/Prefixes.antt =====
-- What `path_has_prefix` of src/engine.rs accepts.
use harborsql.Base.{
  ◌≡◌, refl, ap, ap₂, ◌∙◌, ◌⊎◌, inl, inr, ◌↔◌, Bool, true, false, ◌||◌, Option, none, some, [], ◌∷◌,
  ◌++◌, Bytes, ◌==◌, ==→eq, bytes_eq, bytes_eq_iff, bytes_eq→eq, arith, Bool-cases,
}
use harborsql.Routing.{strip_prefix, slash, starts_with_slash, is_empty, path_has_prefix}

-- The path is the prefix or lies below it, as whole segments; an empty prefix is the root.
pub data IsBelow : Bytes → Bytes → Type 0 where
  root : (path : Bytes) → IsBelow path []
  itself : (path : Bytes) → IsBelow path path
  below : (prefix rest : Bytes) → IsBelow (prefix ++ (slash ∷ rest)) prefix

strip_prefix-append : (prefix rest : Bytes) → strip_prefix (prefix ++ rest) prefix ≡ some rest
unfolding strip_prefix
strip_prefix-append [] rest = refl
strip_prefix-append (p ∷ ps) rest = ground (arith, strip_prefix-append ps rest)

strip_prefix_lem :
    (path prefix rest : Bytes) → strip_prefix path prefix ≡ some rest → path ≡ prefix ++ rest
unfolding strip_prefix
strip_prefix_lem path [] rest = λ e. cc
strip_prefix_lem [] (p ∷ ps) rest = λ e. absurd cc
strip_prefix_lem (c ∷ cs) (p ∷ ps) rest = elim (Bool-cases (c == p)) [
  | inl x ↦ rw x (λ e. ap₂ (λ y ys. y ∷ ys) (==→eq c p x) (strip_prefix_lem cs ps rest e))
  | inr x ↦ rw x (λ e. absurd cc)
]

or_true : (a b : Bool) → (a || b) ≡ true → (a ≡ true) ⊎ (b ≡ true)
or_true true b h = inl refl
or_true false b h = inr h

IsBelow-slash :
    (path prefix : Bytes) (o : Option Bytes)
    → strip_prefix path prefix ≡ o
    → starts_with_slash o ≡ true
    → IsBelow path prefix
IsBelow-slash path prefix none e h = absurd (ground (arith, h))
IsBelow-slash path prefix (some []) e h = absurd (ground (arith, h))
IsBelow-slash path prefix (some (c ∷ rest)) e h =
    rw
      (strip_prefix_lem path prefix (c ∷ rest) e ∙ ap (λ x. prefix ++ (x ∷ rest)) (==→eq c slash h))
      (below prefix rest)

empty_is_root : (path prefix : Bytes) → is_empty prefix ≡ true → IsBelow path prefix
empty_is_root path [] h = root path
empty_is_root path (c ∷ cs) h = absurd (ground (arith, h))

pub path_has_prefix-IsBelow :
    (path prefix : Bytes) → path_has_prefix path prefix ≡ true → IsBelow path prefix
unfolding path_has_prefix
path_has_prefix-IsBelow path prefix h =
    elim (or_true (is_empty prefix || bytes_eq path prefix)
      (starts_with_slash (strip_prefix path prefix)) h) [
        | inl y ↦ elim (or_true (is_empty prefix) (bytes_eq path prefix) y) [
          | inl x ↦ empty_is_root path prefix x
          | inr x ↦ rw (bytes_eq→eq path prefix x) (itself prefix)
        ]
        | inr x ↦ IsBelow-slash path prefix (strip_prefix path prefix) refl x
      ]

or_left : (a b : Bool) → a ≡ true → (a || b) ≡ true
or_left true b h = refl
or_left false b h = absurd (ground (arith, h))

true_or : (a b : Bool) → b ≡ true → (a || b) ≡ true
true_or true b h = refl
true_or false b h = h

pub IsBelow-path_has_prefix :
    (path prefix : Bytes) → IsBelow path prefix → path_has_prefix path prefix ≡ true
unfolding path_has_prefix
IsBelow-path_has_prefix path _ (root _) = refl
IsBelow-path_has_prefix path _ (itself _) =
    or_left (is_empty path || bytes_eq path path) _
      (true_or (is_empty path) (bytes_eq path path) ((bytes_eq_iff path path).1 refl))
IsBelow-path_has_prefix _ prefix (below _ rest) =
    true_or (is_empty prefix || bytes_eq (prefix ++ (slash ∷ rest)) prefix) _
      (rw (strip_prefix-append prefix (slash ∷ rest)) refl)

-- `path_has_prefix` accepts exactly the paths that are the prefix or lie below it as whole segments, and
-- every path when the prefix is empty.
pub path_has_prefix_iff :
    (path prefix : Bytes) → (path_has_prefix path prefix ≡ true) ↔ IsBelow path prefix
path_has_prefix_iff path prefix =
    (path_has_prefix-IsBelow path prefix, IsBelow-path_has_prefix path prefix)
