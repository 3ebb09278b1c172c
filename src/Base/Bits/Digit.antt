-- ===== src/Base/Bits/Digit.antt =====
-- The lowest binary digit of `&` and `|`. The native operations stand for a recursion on digits
-- whose fuel is the first operand; any larger fuel gives the same.
use Prim.Native.Nat.{ℕ, zero, suc, ◌+◌, ◌*◌, ◌/◌, ◌%◌, ◌≤◌, min, max, bit_and, bit_or, digits}
use Prim.Native.Nat.{bit_and-bitwise, bit_or-bitwise}
use mathlib.Core.Path.{◌≡◌, refl}
use native.Mathlib.Omega.{arith}

module _ (at_zero : ℕ → ℕ) (op : ℕ → ℕ → ℕ) where
  enough_fuel :
      (n a b : ℕ) (m : ℕ) → a ≤ n → a ≤ m → digits at_zero op n a b ≡ digits at_zero op m a b
  enough_fuel zero zero b zero p q = refl
  enough_fuel zero zero b (suc m) p q = refl
  enough_fuel zero (suc a) b m p q = absurd (omega arith)
  enough_fuel (suc n) zero b zero p q = refl
  enough_fuel (suc n) zero b (suc m) p q = refl
  enough_fuel (suc n) (suc a) b zero p q = absurd (omega arith)
  enough_fuel (suc n) (suc a) b (suc m) p q =
      omega (arith, enough_fuel n (suc a / 2) (b / 2) m (omega arith) (omega arith))

pub bit_and_digit : (a b : ℕ) → bit_and a b ≡ bit_and (a / 2) (b / 2) * 2 + min (a % 2) (b % 2)
bit_and_digit zero b = omega (arith, bit_and-bitwise 0 b, bit_and-bitwise 0 (b / 2))
bit_and_digit (suc a) b = omega (
  arith,
  bit_and-bitwise (suc a) b,
  bit_and-bitwise (suc a / 2) (b / 2),
  enough_fuel (λ y. 0) min a (suc a / 2) (b / 2) (suc a / 2) (omega arith) (omega arith),
)

pub bit_or_digit : (a b : ℕ) → bit_or a b ≡ bit_or (a / 2) (b / 2) * 2 + max (a % 2) (b % 2)
bit_or_digit zero b = omega (arith, bit_or-bitwise 0 b, bit_or-bitwise 0 (b / 2))
bit_or_digit (suc a) b = omega (
  arith,
  bit_or-bitwise (suc a) b,
  bit_or-bitwise (suc a / 2) (b / 2),
  enough_fuel (λ y. y) max a (suc a / 2) (b / 2) (suc a / 2) (omega arith) (omega arith),
)
