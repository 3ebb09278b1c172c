-- ===== src/Base/Masks.antt =====
-- A mask after a bit is set or bits are cleared.
use Prim.Native.Nat.{ℕ, zero, suc, ◌*◌, ◌/◌, ◌%◌, ◌^◌, ◌<◌, bit_and, bit_or}
use mathlib.Core.Path.{◌≡◌, ap, ◌∙◌}
use native.Mathlib.Omega.{arith}
use virtualization_learning.Base.Bits.{
  bit_and-bit_or, bit_and_assoc, bit_and-zero, bit_or-zero, bit_and_bit,
}

-- Setting bits outside a mask.
pub set-outside : (x m mask : ℕ) → bit_and m mask ≡ 0 → bit_and (bit_or x m) mask ≡ bit_and x mask
set-outside x m mask h =
    bit_and-bit_or x m mask ∙ (ap (bit_or (bit_and x mask)) h ∙ bit_or-zero (bit_and x mask))

-- Keeping at least the bits of a mask, and none of them.
pub keep-all : (x m mask : ℕ) → bit_and m mask ≡ mask → bit_and (bit_and x m) mask ≡ bit_and x mask
keep-all x m mask h = bit_and_assoc x m mask ∙ ap (bit_and x) h

pub keep-none : (x m mask : ℕ) → bit_and m mask ≡ 0 → bit_and (bit_and x m) mask ≡ 0
keep-none x m mask h = bit_and_assoc x m mask ∙ (ap (bit_and x) h ∙ bit_and-zero x)

-- A bit that is set: `k` is its number, and `or` computes on the two values of the old bit.
pub set-bit :
    (k x m mask : ℕ)
    → mask ≡ 1 * 2 ^ k
    → bit_or (0 * 2 ^ k) (bit_and m mask) ≡ mask
    → bit_or (1 * 2 ^ k) (bit_and m mask) ≡ mask
    → bit_and (bit_or x m) mask ≡ mask
set-bit k x m mask e off on =
    bit_and-bit_or x m mask
    ∙ (ap (λ t. bit_or t (bit_and m mask)) (ap (bit_and x) e ∙ bit_and_bit k x)
        ∙ either (x / 2 ^ k % 2) (omega arith))
  where
    either : (b : ℕ) → b < 2 → bit_or (b * 2 ^ k) (bit_and m mask) ≡ mask
    either zero h = off
    either (suc zero) h = on
    either (suc (suc b)) h = absurd (omega arith)
