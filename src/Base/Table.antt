-- ===== src/Base/Table.antt =====
-- Facts about bytes that are checked at every value.
use Prim.Native.Nat.{ℕ, zero, suc, ◌<◌}
use mathlib.Core.Path.{◌≡◌}
use mathlib.Core.Bool.{Bool, true, ◌&&◌}
use native.Mathlib.Omega.{arith}
use harborsql.Base.Tests.{◌==◌}

unfoldable pub equal_below : ℕ → (ℕ → ℕ) → (ℕ → ℕ) → Bool
equal_below zero f g = true
equal_below (suc n) f g = (f n == g n) && equal_below n f g

pub equal_below→eq : (n : ℕ) (f g : ℕ → ℕ) (i : ℕ) → equal_below n f g ≡ true → i < n → f i ≡ g i
unfolding equal_below
equal_below→eq zero f g i h lt = absurd (omega arith)
equal_below→eq (suc n) f g i h lt = ground (arith, equal_below→eq n f g i)
