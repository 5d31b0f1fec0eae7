-- ===== src/Base/Chars.antt =====
-- Texts as the sequence of their characters, and what the program uses of Rust's `char` and `str`.
use Prim.Native.Nat.{ℕ, ◌+◌, ◌-◌}
use mathlib.Core.Path.{◌≡◌, refl}
use mathlib.Core.Logic.{◌⊎◌, inl, inr}
use mathlib.Core.Bool.{Bool, true, false, ◌&&◌, ◌||◌}
use mathlib.Core.List.{List, [], ◌∷◌, ◌++◌, map}
use native.Mathlib.Omega.{arith}
use harborsql.Base.Tests.{◌==◌, leb, ltb, if◌then◌else◌, Bool-cases}
use harborsql.Base.Text.{Bytes, bytes_eq}

-- The characters of a text, by their numbers.
abbrev pub Str : Type 0
Str = List ℕ

abbrev pub to_ascii_lowercase : ℕ → ℕ
to_ascii_lowercase b = if leb 65 b && leb b 90 then b + 32 else b

abbrev pub to_ascii_uppercase : ℕ → ℕ
to_ascii_uppercase b = if leb 97 b && leb b 122 then b - 32 else b

unfoldable pub eq_ignore_ascii_case : Bytes → Bytes → Bool
eq_ignore_ascii_case a b = bytes_eq (map to_ascii_lowercase a) (map to_ascii_lowercase b)

-- `char::is_whitespace`
abbrev pub is_whitespace : ℕ → Bool
is_whitespace c =
    leb 9 c && leb c 13
    || c == 32
    || c == 133
    || c == 160
    || c == 5760
    || leb 8192 c && leb c 8202
    || c == 8232
    || c == 8233
    || c == 8239
    || c == 8287
    || c == 12288

unfoldable pub trim_start : Str → Str
trim_start [] = []
trim_start (c ∷ t) = if is_whitespace c then trim_start t else c ∷ t

-- The end is cut where only white space is left.
unfoldable pub trim_end : Str → Str
trim_end [] = []
trim_end (c ∷ t) = elim (trim_end t) [
  | [] ↦ if is_whitespace c then [] else c ∷ []
  | d ∷ u ↦ c ∷ d ∷ u
]

unfoldable pub trim : Str → Str
trim t = trim_end (trim_start t)

unfoldable pub is_empty {ℓ} : {A : Type ℓ} → List A → Bool
is_empty [] = true
is_empty (_ ∷ _) = false

-- `str::cmp`, as a test: the order of the characters is that of their UTF-8.
unfoldable pub text_le : Str → Str → Bool
text_le [] u = true
text_le (c ∷ t) [] = false
text_le (c ∷ t) (d ∷ u) = ltb c d || c == d && text_le t u

-- `str::split` at a character: the first part, and the parts behind it.
unfoldable pub split : ℕ → Str → Str × List Str
split sep [] = ([], [])
split sep (c ∷ t) =
    let parts = split sep t in if c == sep then ([], parts.0 ∷ parts.1) else (c ∷ parts.0, parts.1)

unfoldable pub join : Str → List Str → Str
join sep [] = []
join sep (t ∷ []) = t
join sep (t ∷ u ∷ ts) = t ++ (sep ++ join sep (u ∷ ts))

pub text_le-total : (t u : Str) → (text_le t u ≡ true) ⊎ (text_le u t ≡ true)
unfolding text_le
text_le-total [] u = inl refl
text_le-total (c ∷ t) [] = inr refl
text_le-total (c ∷ t) (d ∷ u) = elim (Bool-cases (ltb c d)) [
  | inl e ↦ inl (rw e refl)
  | inr e ↦ elim (Bool-cases (ltb d c)) [
    | inl f ↦ inr (rw f refl)
    | inr f ↦
        let same : (c == d) ≡ true = ground (arith, e, f) in
        let back : (d == c) ≡ true = ground (arith, e, f) in
        elim (text_le-total t u) [
          | inl h ↦ inl (rw (e, same, h) refl)
          | inr h ↦ inr (rw (f, back, h) refl)
        ]
  ]
]
