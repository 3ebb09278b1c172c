-- ===== src/Base/Subset.antt =====
-- The bits of one word among those of another.
use Prim.Native.Nat.{ℕ, zero, suc, ◌/◌, ◌≤◌, bit_and, bit_or}
use mathlib.Core.Path.{◌≡◌, refl, sym, ap, ◌∙◌}
use native.Mathlib.Omega.{arith}
use virtualization_learning.Base.Bits.Digit.{bit_and_digit, bit_or_digit}
use virtualization_learning.Base.Bits.{
  bit_and-bit_or, bit_and_assoc, bit_and-zero, zero-bit_and, bit_or_comm,
}

-- Each bit of `a` is one of `b`.
abbrev pub Within : ℕ → ℕ → Type 0
Within a b = bit_and a b ≡ a

bit_and_self_below : (n a : ℕ) → a ≤ n → bit_and a a ≡ a
bit_and_self_below n zero h = refl
bit_and_self_below zero (suc a) h = absurd (omega arith)
bit_and_self_below (suc n) (suc a) h =
    omega (arith, bit_and_digit (suc a) (suc a), bit_and_self_below n (suc a / 2) (omega arith))

pub bit_and_self : (a : ℕ) → bit_and a a ≡ a
bit_and_self a = bit_and_self_below a a (omega arith)

bit_and_comm_below : (n a b : ℕ) → a ≤ n → bit_and a b ≡ bit_and b a
bit_and_comm_below n zero b h = zero-bit_and b ∙ sym (bit_and-zero b)
bit_and_comm_below zero (suc a) b h = absurd (omega arith)
bit_and_comm_below (suc n) (suc a) b h = omega (
  arith,
  bit_and_digit (suc a) b,
  bit_and_digit b (suc a),
  bit_and_comm_below n (suc a / 2) (b / 2) (omega arith),
)

pub bit_and_comm : (a b : ℕ) → bit_and a b ≡ bit_and b a
bit_and_comm a b = bit_and_comm_below a a b (omega arith)

pub Within-trans : (a b c : ℕ) → Within a b → Within b c → Within a c
Within-trans a b c p q =
    ap (λ x. bit_and x c) (sym p) ∙ (bit_and_assoc a b c ∙ (ap (bit_and a) q ∙ p))

pub bit_or-Within : (a b c : ℕ) → Within a c → Within b c → Within (bit_or a b) c
bit_or-Within a b c p q =
    bit_and-bit_or a b c ∙ (ap (λ x. bit_or x (bit_and b c)) p ∙ ap (bit_or a) q)

pub bit_and-Within_right : (a b : ℕ) → Within (bit_and a b) b
bit_and-Within_right a b = bit_and_assoc a b b ∙ ap (bit_and a) (bit_and_self b)

absorb_below : (n a b : ℕ) → a ≤ n → bit_and a (bit_or a b) ≡ a
absorb_below n zero b h = zero-bit_and (bit_or 0 b)
absorb_below zero (suc a) b h = absurd (omega arith)
absorb_below (suc n) (suc a) b h = omega (
  arith,
  bit_and_digit (suc a) (bit_or (suc a) b),
  bit_or_digit (suc a) b,
  ap (bit_and (suc a / 2)) halved ∙ absorb_below n (suc a / 2) (b / 2) (omega arith),
)
  where
    halved : bit_or (suc a) b / 2 ≡ bit_or (suc a / 2) (b / 2)
    halved = omega (arith, bit_or_digit (suc a) b)

pub Within-bit_or_left : (a b : ℕ) → Within a (bit_or a b)
Within-bit_or_left a b = absorb_below a a b (omega arith)

pub Within-bit_or_right : (a b : ℕ) → Within a (bit_or b a)
Within-bit_or_right a b = ap (bit_and a) (bit_or_comm b a) ∙ Within-bit_or_left a b

-- A bit that a larger word has is set in it.
pub Within-set : (m a b : ℕ) → bit_and a m ≡ m → Within a b → bit_and b m ≡ m
Within-set m a b p q = bit_and_comm b m ∙ Within-trans m a b (bit_and_comm m a ∙ p) q
