-- ===== src/Prelude/Bits.antt =====
-- `&` on native numbers, digit by digit.
use Prim.Native.Nat.{ℕ, zero, suc, ◌+◌, ◌*◌, ◌/◌, ◌%◌, ◌≤◌, min, bit_and, digits, bit_and-bitwise}
use mathlib.Core.Path.{◌≡◌, refl}
use native.Mathlib.Omega.{arith}

-- Enough rounds of the digit recursion all give one result.
rounds_agree :
    (n m a b : ℕ) → a ≤ n → a ≤ m → digits (λ c. zero) min n a b ≡ digits (λ c. zero) min m a b
rounds_agree zero zero a b p q = refl
rounds_agree zero (suc m) zero b p q = refl
rounds_agree zero (suc m) (suc a) b p q = absurd (omega arith)
rounds_agree (suc n) zero zero b p q = refl
rounds_agree (suc n) zero (suc a) b p q = absurd (omega arith)
rounds_agree (suc n) (suc m) zero b p q = refl
rounds_agree (suc n) (suc m) (suc a) b p q =
    omega (arith, rounds_agree n m (suc a / 2) (b / 2) (omega arith) (omega arith))

pub bit_and-halves : (a b : ℕ) → bit_and a b ≡ bit_and (a / 2) (b / 2) * 2 + min (a % 2) (b % 2)
bit_and-halves zero b = omega (arith, bit_and-bitwise 0 b, bit_and-bitwise 0 (b / 2))
bit_and-halves (suc a) b = omega (
  arith,
  bit_and-bitwise (suc a) b,
  bit_and-bitwise (suc a / 2) (b / 2),
  rounds_agree a (suc a / 2) (suc a / 2) (b / 2) (omega arith) (omega arith),
)
