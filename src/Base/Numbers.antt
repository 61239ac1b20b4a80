-- ===== src/Base/Numbers.antt =====
-- Sums as the recursions over positions need them.
use Prim.Native.Nat.{ℕ, suc, ◌+◌}
use mathlib.Core.Path.{◌≡◌}
use native.Mathlib.Omega.{arith}

pub plus_zero : (k : ℕ) → k + 0 ≡ k
plus_zero k = omega arith

pub plus_suc : (k j : ℕ) → k + suc j ≡ suc k + j
plus_suc k j = omega arith

pub zero_plus : (j : ℕ) → j ≡ 0 + j
zero_plus j = omega arith
