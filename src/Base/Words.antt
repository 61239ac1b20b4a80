-- ===== src/Base/Words.antt =====
-- Rust's `usize` and `u64` of a 64-bit target: saturating, wrapping and checked arithmetic.
use Prim.Native.Nat.{ℕ, ◌+◌, ◌-◌, ◌*◌, ◌%◌, ◌≤◌, min}
use mathlib.Core.Path.{◌≡◌, refl}
use mathlib.Core.List.{List, [], ◌∷◌}
use mathlib.Core.Option.{Option, none, some}
use native.Mathlib.Omega.{arith}
use rsproxy.Base.Tests.{leb, if◌then◌else◌}

-- `usize::MAX` and `u64::MAX`.
abbrev pub word_max : ℕ
word_max = 18446744073709551615

-- `saturating_add`.
unfoldable pub sat_add : ℕ → ℕ → ℕ
sat_add a b = min (a + b) word_max

-- `saturating_sub`: the truncated subtraction of ℕ.
abbrev pub sat_sub : ℕ → ℕ → ℕ
sat_sub a b = a - b

-- `saturating_mul`.
unfoldable pub sat_mul : ℕ → ℕ → ℕ
sat_mul a b = min (a * b) word_max

-- `wrapping_add`, and `+` in a build without overflow checks.
abbrev pub wrap_add : ℕ → ℕ → ℕ
wrap_add a b = (a + b) % 18446744073709551616

-- `Iterator::sum::<usize>` in a build without overflow checks.
unfoldable pub sum_usize : List ℕ → ℕ
sum_usize [] = 0
sum_usize (x ∷ xs) = wrap_add x (sum_usize xs)

-- `checked_add`.
abbrev pub checked_add : ℕ → ℕ → Option ℕ
checked_add a b = if leb (a + b) word_max then some (a + b) else none

pub sat_add-min : (a b : ℕ) → sat_add a b ≡ min (a + b) word_max
unfolding sat_add
sat_add-min a b = refl

pub sat_add-le : (a b : ℕ) → sat_add a b ≤ word_max
unfolding sat_add
sat_add-le a b = omega arith
