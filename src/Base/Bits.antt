-- ===== src/Base/Bits.antt =====
-- Laws of `&` and `|` at variables, at every width: each follows from one equation for the lowest
-- binary digit.
pub mod Digit
use Prim.Native.Nat.{ℕ, zero, suc, ◌+◌, ◌-◌, ◌*◌, ◌/◌, ◌%◌, ◌^◌, ◌≤◌, ◌<◌, bit_and, bit_or}
use mathlib.Core.Path.{◌≡◌, refl, ap, ◌∙◌}
use Prim.Native.Nat.{bit_and-bitwise, bit_or-bitwise}
use native.Mathlib.Nat.{pow-suc, one-le-pow, div-one, mul-one, div-div-eq-div-mul, mod_def}
use native.Mathlib.Omega.{arith}
use Digit.{bit_and_digit, bit_or_digit}

-- Each goes from `m / 2` to `m`, under a bound that falls.
bit_and-zero_below : (n a : ℕ) → a ≤ n → bit_and a 0 ≡ 0
bit_and-zero_below n zero h = refl
bit_and-zero_below zero (suc a) h = absurd (omega arith)
bit_and-zero_below (suc n) (suc a) h =
    omega (arith, bit_and_digit (suc a) 0, bit_and-zero_below n (suc a / 2) (omega arith))

pub bit_and-zero : (a : ℕ) → bit_and a 0 ≡ 0
bit_and-zero a = bit_and-zero_below a a (omega arith)

bit_or-zero_below : (n a : ℕ) → a ≤ n → bit_or a 0 ≡ a
bit_or-zero_below n zero h = refl
bit_or-zero_below zero (suc a) h = absurd (omega arith)
bit_or-zero_below (suc n) (suc a) h =
    omega (arith, bit_or_digit (suc a) 0, bit_or-zero_below n (suc a / 2) (omega arith))

pub bit_or-zero : (a : ℕ) → bit_or a 0 ≡ a
bit_or-zero a = bit_or-zero_below a a (omega arith)

pub zero-bit_or : (a : ℕ) → bit_or 0 a ≡ a
zero-bit_or a = bit_or-bitwise 0 a

pub zero-bit_and : (a : ℕ) → bit_and 0 a ≡ 0
zero-bit_and a = bit_and-bitwise 0 a

bit_or-half : (a b : ℕ) → bit_or a b / 2 ≡ bit_or (a / 2) (b / 2)
bit_or-half a b = omega (arith, bit_or_digit a b)

bit_and-half : (a b : ℕ) → bit_and a b / 2 ≡ bit_and (a / 2) (b / 2)
bit_and-half a b = omega (arith, bit_and_digit a b)

-- The digits of a nested operation.
ruleset halves = (bit_or-half, bit_and-half)

bit_and-bit_or_below :
    (n m a b : ℕ) → m ≤ n → bit_and (bit_or a b) m ≡ bit_or (bit_and a m) (bit_and b m)
bit_and-bit_or_below n zero a b h = simp (bit_and-zero, bit_or-zero)
bit_and-bit_or_below zero (suc m) a b h = absurd (omega arith)
bit_and-bit_or_below (suc n) (suc m) a b h =
    let halved : bit_and (bit_or a b / 2) (suc m / 2)
        ≡ bit_or (bit_and a (suc m) / 2) (bit_and b (suc m) / 2) =
      simp halves (bit_and-bit_or_below n (suc m / 2) (a / 2) (b / 2) (omega arith)) in
    omega (
      arith,
      bit_and_digit (bit_or a b) (suc m),
      bit_or_digit (bit_and a (suc m)) (bit_and b (suc m)),
      bit_or_digit a b,
      bit_and_digit a (suc m),
      bit_and_digit b (suc m),
      halved,
    )

-- `(a | b) & m` is `(a & m) | (b & m)`.
pub bit_and-bit_or : (a b m : ℕ) → bit_and (bit_or a b) m ≡ bit_or (bit_and a m) (bit_and b m)
bit_and-bit_or a b m = bit_and-bit_or_below m m a b (omega arith)

bit_and_assoc_below : (n c a b : ℕ) → c ≤ n → bit_and (bit_and a b) c ≡ bit_and a (bit_and b c)
bit_and_assoc_below n zero a b h = simp bit_and-zero
bit_and_assoc_below zero (suc c) a b h = absurd (omega arith)
bit_and_assoc_below (suc n) (suc c) a b h =
    let halved : bit_and (bit_and a b / 2) (suc c / 2) ≡ bit_and (a / 2) (bit_and b (suc c) / 2) =
      simp halves (bit_and_assoc_below n (suc c / 2) (a / 2) (b / 2) (omega arith)) in
    omega (
      arith,
      bit_and_digit (bit_and a b) (suc c),
      bit_and_digit a (bit_and b (suc c)),
      bit_and_digit a b,
      bit_and_digit b (suc c),
      halved,
    )

-- `(a & b) & c` is `a & (b & c)`: two masks of numerals become one.
pub bit_and_assoc : (a b c : ℕ) → bit_and (bit_and a b) c ≡ bit_and a (bit_and b c)
bit_and_assoc a b c = bit_and_assoc_below c c a b (omega arith)

bit_and-le_below : (n m a : ℕ) → m ≤ n → bit_and a m ≤ m
bit_and-le_below n zero a h = omega (arith, bit_and-zero a)
bit_and-le_below zero (suc m) a h = absurd (omega arith)
bit_and-le_below (suc n) (suc m) a h =
    omega (arith, bit_and_digit a (suc m), bit_and-le_below n (suc m / 2) (a / 2) (omega arith))

pub bit_and-le : (a m : ℕ) → bit_and a m ≤ m
bit_and-le a m = bit_and-le_below m m a (omega arith)

double-pow : (q k : ℕ) → q * 2 ^ suc k ≡ 2 * (q * 2 ^ k)
double-pow q k = omega (arith, ap (λ (t : ℕ). q * t) (pow-suc 2 k))

half-pow : (q k : ℕ) → q * 2 ^ suc k / 2 ≡ q * 2 ^ k
half-pow q k = omega (arith, double-pow q k)

half-mask : (k : ℕ) → (2 ^ suc k - 1) / 2 ≡ 2 ^ k - 1
half-mask k = omega (arith, pow-suc 2 k, one-le-pow k 2)

div-pow_suc : (a k : ℕ) → a / 2 / 2 ^ k ≡ a / 2 ^ suc k
div-pow_suc a k = div-div-eq-div-mul a 2 (2 ^ k) ∙ ap (λ t. a / t) (omega (arith, pow-suc 2 k))

mod-double : (a k : ℕ) → a % 2 ^ suc k ≡ a / 2 % 2 ^ k * 2 + a % 2
mod-double a k =
    rw (mod_def a (2 ^ suc k), mod_def (a / 2) (2 ^ k), div-pow_suc a k)
      (omega (arith, double-pow (a / 2 ^ suc k) k, mul-pow))
  where
    mul-pow : 2 ^ suc k * (a / 2 ^ suc k) ≡ 2 * (2 ^ k * (a / 2 ^ suc k))
    mul-pow = omega (arith, ap (λ (t : ℕ). t * (a / 2 ^ suc k)) (pow-suc 2 k))

-- `|` of values of `k` bits has `k` bits.
pub bit_or-lt : (k a b : ℕ) → a < 2 ^ k → b < 2 ^ k → bit_or a b < 2 ^ k
bit_or-lt zero a b p q = ground (arith, two_zeros a b)
  where
    two_zeros : (a b : ℕ) → a < 1 → b < 1 → bit_or a b ≡ 0
    two_zeros zero zero p q = refl
    two_zeros zero (suc b) p q = absurd (omega arith)
    two_zeros (suc a) b p q = absurd (omega arith)
bit_or-lt (suc k) a b p q = omega (
  arith,
  pow-suc 2 k,
  bit_or_digit a b,
  bit_or-lt k (a / 2) (b / 2) (omega (arith, pow-suc 2 k)) (omega (arith, pow-suc 2 k)),
)

-- `(q << k) | r` is a sum where `r` fits `k` bits.
pub bit_or-eq-add : (k q r : ℕ) → r < 2 ^ k → bit_or (q * 2 ^ k) r ≡ q * 2 ^ k + r
bit_or-eq-add zero q r h = ground (arith, bit_or-zero q)
bit_or-eq-add (suc k) q r h =
    let halved : bit_or (q * 2 ^ suc k / 2) (r / 2) ≡ q * 2 ^ k + r / 2 =
      rw (half-pow q k) (bit_or-eq-add k q (r / 2) (omega (arith, pow-suc 2 k))) in
    omega (arith, bit_or_digit (q * 2 ^ suc k) r, double-pow q k, halved)

-- `a & (m << k)` keeps the bits of `a >> k` under `m`, in place.
pub bit_and_shifted : (k a m : ℕ) → bit_and a (m * 2 ^ k) ≡ bit_and (a / 2 ^ k) m * 2 ^ k
bit_and_shifted zero a m = simp (div-one, mul-one)
bit_and_shifted (suc k) a m =
    let halved : bit_and (a / 2) (m * 2 ^ suc k / 2) ≡ bit_and (a / 2 ^ suc k) m * 2 ^ k =
      rw (half-pow m k, bit_and_shifted k (a / 2) m, div-pow_suc a k) refl in
    omega (
      arith,
      bit_and_digit a (m * 2 ^ suc k),
      double-pow m k,
      double-pow (bit_and (a / 2 ^ suc k) m) k,
      halved,
    )

-- `a & (2 ^ k - 1)` is the remainder by `2 ^ k`.
pub bit_and_mask : (k a : ℕ) → bit_and a (2 ^ k - 1) ≡ a % 2 ^ k
bit_and_mask zero a = omega (arith, bit_and-zero a)
bit_and_mask (suc k) a =
    let halved : bit_and (a / 2) ((2 ^ suc k - 1) / 2) ≡ a / 2 % 2 ^ k =
      rw (half-mask k) (bit_and_mask k (a / 2)) in
    omega
      (arith, bit_and_digit a (2 ^ suc k - 1), pow-suc 2 k, one-le-pow k 2, halved, mod-double a k)

bit_or_comm_below : (n a b : ℕ) → a ≤ n → bit_or a b ≡ bit_or b a
bit_or_comm_below n zero b h = omega (arith, zero-bit_or b, bit_or-zero b)
bit_or_comm_below zero (suc a) b h = absurd (omega arith)
bit_or_comm_below (suc n) (suc a) b h = omega (
  arith,
  bit_or_digit (suc a) b,
  bit_or_digit b (suc a),
  bit_or_comm_below n (suc a / 2) (b / 2) (omega arith),
)

pub bit_or_comm : (a b : ℕ) → bit_or a b ≡ bit_or b a
bit_or_comm a b = bit_or_comm_below a a b (omega arith)

le-bit_or_below : (n a b : ℕ) → b ≤ n → b ≤ bit_or a b
le-bit_or_below n a zero h = omega arith
le-bit_or_below zero a (suc b) h = absurd (omega arith)
le-bit_or_below (suc n) a (suc b) h =
    omega (arith, bit_or_digit a (suc b), le-bit_or_below n (a / 2) (suc b / 2) (omega arith))

pub le-bit_or_right : (a b : ℕ) → b ≤ bit_or a b
le-bit_or_right a b = le-bit_or_below b a b (omega arith)

pub le-bit_or_left : (a b : ℕ) → a ≤ bit_or a b
le-bit_or_left a b = omega (arith, bit_or_comm a b, le-bit_or_right b a)

-- Brings a masked word to the masks that reach it.
pub ruleset masks =
    (bit_and-bit_or, bit_and_assoc, bit_and-zero, zero-bit_and, bit_or-zero, zero-bit_or)

-- `a & (1 << k)` is bit `k` of `a`, in place.
pub bit_and_bit : (k a : ℕ) → bit_and a (1 * 2 ^ k) ≡ a / 2 ^ k % 2 * 2 ^ k
bit_and_bit k a = bit_and_shifted k a 1 ∙ ap (λ t. t * 2 ^ k) (bit_and_mask 1 (a / 2 ^ k))

bit_or_assoc_below : (n a b c : ℕ) → c ≤ n → bit_or (bit_or a b) c ≡ bit_or a (bit_or b c)
bit_or_assoc_below n a b zero h = simp bit_or-zero
bit_or_assoc_below zero a b (suc c) h = absurd (omega arith)
bit_or_assoc_below (suc n) a b (suc c) h =
    let halved : bit_or (bit_or a b / 2) (suc c / 2) ≡ bit_or (a / 2) (bit_or b (suc c) / 2) =
      simp halves (bit_or_assoc_below n (a / 2) (b / 2) (suc c / 2) (omega arith)) in
    omega (
      arith,
      bit_or_digit (bit_or a b) (suc c),
      bit_or_digit a (bit_or b (suc c)),
      bit_or_digit a b,
      bit_or_digit b (suc c),
      halved,
    )

pub bit_or_assoc : (a b c : ℕ) → bit_or (bit_or a b) c ≡ bit_or a (bit_or b c)
bit_or_assoc a b c = bit_or_assoc_below c a b c (omega arith)
