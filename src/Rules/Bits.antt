-- ===== src/Rules/Bits.antt =====
-- A `u64` used as a set of flags, by its bits from the lowest on: `0`, `1 << i`, `|` and `& != 0`.
use rsproxy.Base.{
  ℕ, zero, suc, ◌≡◌, refl, Bool, true, false, ◌||◌, List, [], ◌∷◌, ◌==◌, if◌then◌else◌, arith,
}

abbrev pub Bits : Type 0
Bits = List Bool

-- Whether bit `i` is set.
unfoldable pub has_bit : Bits → ℕ → Bool
has_bit [] i = false
has_bit (b ∷ bits) zero = b
has_bit (b ∷ bits) (suc i) = has_bit bits i

-- `bits |= 1 << i`.
unfoldable pub set_bit : Bits → ℕ → Bits
set_bit [] zero = true ∷ []
set_bit [] (suc i) = false ∷ set_bit [] i
set_bit (b ∷ bits) zero = true ∷ bits
set_bit (b ∷ bits) (suc i) = b ∷ set_bit bits i

unfoldable pub union : Bits → Bits → Bits
union [] ys = ys
union (x ∷ xs) [] = x ∷ xs
union (x ∷ xs) (y ∷ ys) = (x || y) ∷ union xs ys

-- `bits == 0`.
unfoldable pub is_zero : Bits → Bool
is_zero [] = true
is_zero (true ∷ bits) = false
is_zero (false ∷ bits) = is_zero bits

-- `(1 << n) - 1`.
unfoldable pub ones : ℕ → Bits
ones zero = []
ones (suc n) = true ∷ ones n

pub has_bit-set_bit :
    (bits : Bits) (i j : ℕ) → has_bit (set_bit bits i) j ≡ (if i == j then true else has_bit bits j)
unfolding has_bit set_bit
has_bit-set_bit [] zero zero = refl
has_bit-set_bit [] zero (suc j) = ground arith
has_bit-set_bit [] (suc i) zero = ground arith
has_bit-set_bit [] (suc i) (suc j) = ground (arith, has_bit-set_bit [] i j)
has_bit-set_bit (b ∷ bits) zero zero = refl
has_bit-set_bit (b ∷ bits) zero (suc j) = ground arith
has_bit-set_bit (b ∷ bits) (suc i) zero = ground arith
has_bit-set_bit (b ∷ bits) (suc i) (suc j) = ground (arith, has_bit-set_bit bits i j)

pub has_bit-union :
    (xs ys : Bits) (i : ℕ) → has_bit (union xs ys) i ≡ (has_bit xs i || has_bit ys i)
unfolding has_bit union
has_bit-union [] ys i = refl
has_bit-union (x ∷ xs) [] i = ground arith
has_bit-union (x ∷ xs) (y ∷ ys) zero = refl
has_bit-union (x ∷ xs) (y ∷ ys) (suc i) = has_bit-union xs ys i
