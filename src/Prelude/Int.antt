-- ===== src/Prelude/Int.antt =====
-- The numbers that a JavaScript comparison function returns, as integers.
use mathlib.Core.Path.{◌≡◌}
use Prim.Native.Nat.{ℕ, zero, suc}
use mathlib.Core.Bool.{Bool, true, false}
use native.Mathlib.Omega.{arith}

-- `negsuc n` is -(n + 1).
pub data ℤ : Type 0 where
  pos : ℕ → ℤ
  negsuc : ℕ → ℤ

abbrev pub neg : ℤ → ℤ
neg (pos zero) = pos zero
neg (pos (suc n)) = negsuc n
neg (negsuc n) = pos (suc n)

-- n <= 0
abbrev pub is_nonpos : ℤ → Bool
is_nonpos (pos zero) = true
is_nonpos (pos (suc n)) = false
is_nonpos (negsuc n) = true

pub neg-neg : (a : ℤ) → neg (neg a) ≡ a
neg-neg (pos zero) = ground arith
neg-neg (pos (suc n)) = ground arith
neg-neg (negsuc n) = ground arith
