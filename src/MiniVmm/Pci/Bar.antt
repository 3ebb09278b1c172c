-- ===== src/MiniVmm/Pci/Bar.antt =====
-- What the guest reads from a BAR of the passed-through device after it wrote to it.
use virtualization_learning.Base.{
  ℕ, zero, suc, ◌+◌, ◌-◌, ◌*◌, ◌/◌, ◌%◌, ◌^◌, ◌≤◌, ◌<◌, bit_and, bit_or, ◌≡◌, refl, sym, ap, ◌∙◌,
  subst, ◌⊎◌, inl, inr, Bool, true, false, ◌&&◌, Option, some, List, [], ◌∷◌, arith, ltb, leb, ◌==◌,
  nonzero, if◌then◌else◌, nonzero_of_ne, length, get_or, u32, ◌<<<◌, not32, bit_and_mask,
  bit_and-le, bit_or-eq-add, bit_and_shifted, get_or-set_self,
}
use virtualization_learning.MiniVmm.Pci.{
  Vfio, find_bar, find_bar_start, implemented, bar_register, read_bar, in_bars, pt_config_read,
  write_half, write_found, pt_config_write,
}
use native.Mathlib.Nat.{
  pow-suc, add-mul, pow-le-pow_right, mod-eq_of_lt, div-div-eq-div-mul, div-lt_iff_lt-mul,
  one-le-pow,
}

-- The search of a read and that of a write agree on the first byte of a register.
find_bar-eq-find_bar_start :
    (reg i : ℕ) (is64 : List Bool) → reg % 4 ≡ 0 → find_bar reg i is64 ≡ find_bar_start reg i is64
unfolding find_bar find_bar_start
find_bar-eq-find_bar_start reg i [] h = refl
find_bar-eq-find_bar_start reg i (b ∷ bs) h =
    rw (low, high, find_bar-eq-find_bar_start reg (suc i) bs h) refl
  where
    low : (leb (0x10 + i * 4) reg && ltb reg (0x10 + i * 4 + 4)) ≡ (reg == 0x10 + i * 4)
    low = ground (arith, h)

    high : (leb (0x10 + i * 4 + 4) reg && ltb reg (0x10 + i * 4 + 8)) ≡ (reg == 0x10 + i * 4 + 4)
    high = ground (arith, h)

pow_add : (j k : ℕ) → 2 ^ (j + k) ≡ 2 ^ j * 2 ^ k
pow_add zero k = ap (λ x. 2 ^ x) (zero_add k) ∙ omega arith
  where
    zero_add : (k : ℕ) → 0 + k ≡ k
    zero_add k = omega arith
pow_add (suc j) k =
    ap (λ x. 2 ^ x) (suc_add j k)
    ∙ omega (arith, pow-suc 2 (j + k), pow_add j k, ap (λ (t : ℕ). t * 2 ^ k) (pow-suc 2 j))
  where
    suc_add : (j k : ℕ) → suc j + k ≡ suc (j + k)
    suc_add j k = omega arith

pred-mul : (q p : ℕ) → (q - 1) * p ≡ q * p - p
pred-mul zero p = omega arith
pred-mul (suc q) p =
    ap (λ x. x * p) (pred q) ∙ omega (arith, add-mul q 1 p, ap (λ x. x * p) (succ q))
  where
    pred : (q : ℕ) → suc q - 1 ≡ q
    pred q = omega arith

    succ : (q : ℕ) → suc q ≡ q + 1
    succ q = omega arith

-- The mask of a BAR of `2 ^ k` bytes, of `j + k` bits.
bit_and_high : (j k a : ℕ) → a < 2 ^ (j + k) → bit_and a ((2 ^ j - 1) * 2 ^ k) ≡ a / 2 ^ k * 2 ^ k
bit_and_high j k a h =
    bit_and_shifted k a (2 ^ j - 1)
    ∙ ap (λ x. x * 2 ^ k) (bit_and_mask j (a / 2 ^ k) ∙ mod-eq_of_lt small)
  where
    small : a / 2 ^ k < 2 ^ j
    small =
        (div-lt_iff_lt-mul (one-le-pow k 2 (omega arith))).1 (subst (λ x. a < x) (pow_add j k) h)

-- The 32-bit halves of a BAR, as the write puts them together.
low_half : (v r : ℕ) → r < 2 ^ 32 → bit_or (bit_and v 0xffffffff00000000) r % 2 ^ 32 ≡ r
low_half v r h =
    ap (λ x. bit_or x r % 2 ^ 32) (bit_and_shifted 32 v 0xffffffff)
    ∙ (ap (λ x. x % 2 ^ 32) (bit_or-eq-add 32 (bit_and (v / 2 ^ 32) 0xffffffff) r h)
        ∙ omega (arith, h))

high_half : (v val : ℕ) → bit_or (val * 2 ^ 32) (bit_and v 0xffffffff) / 2 ^ 32 ≡ val
high_half v val =
    ap (λ x. x / 2 ^ 32) (bit_or-eq-add 32 val (bit_and v 0xffffffff) small) ∙ omega (arith, small)
  where
    small : bit_and v 0xffffffff < 2 ^ 32
    small = omega (arith, bit_and-le v 0xffffffff)

-- The bits of `val` that a BAR of `2 ^ k` bytes keeps.
kept_bits :
    (j k val : ℕ)
    → j + k ≡ 28
    → val < 2 ^ 32
    → bit_and (bit_and val 0xfffffff0) (not32 (u32 (2 ^ (4 + k) - 1)))
      ≡ val / 2 ^ (4 + k) * 2 ^ (4 + k)
kept_bits j k val e h =
    ap (bit_and (bit_and val 0xfffffff0)) mask
    ∙ (bit_and_high j (4 + k) (bit_and val 0xfffffff0) below
        ∙ ap (λ x. x * 2 ^ (4 + k)) (ap (λ x. x / 2 ^ (4 + k)) low ∙ quotient))
  where
    total : 2 ^ j * 2 ^ (4 + k) ≡ 2 ^ 32
    total = sym (pow_add j (4 + k)) ∙ ap (λ x. 2 ^ x) {x = j + (4 + k)} {y = 32} (omega (arith, e))

    sixteen : 2 ^ (4 + k) ≡ 16 * 2 ^ k
    sixteen = pow_add 4 k

    mask : not32 (u32 (2 ^ (4 + k) - 1)) ≡ (2 ^ j - 1) * 2 ^ (4 + k)
    mask = omega (
      arith,
      pred-mul (2 ^ j) (2 ^ (4 + k)),
      total,
      one-le-pow (4 + k) 2 (omega arith),
      pow-le-pow_right {n = 2} (omega arith) {i = (4 + k)} {j = 32} (omega (arith, e)),
    )

    low : bit_and val 0xfffffff0 ≡ val / 16 * 16
    low = bit_and_high 28 4 val h

    below : bit_and val 0xfffffff0 < 2 ^ (j + (4 + k))
    below =
        subst (λ x. bit_and val 0xfffffff0 < x) (sym (pow_add j (4 + k) ∙ total))
          (omega (arith, low, h))

    quotient : val / 16 * 16 / 2 ^ (4 + k) ≡ val / 2 ^ (4 + k)
    quotient =
        ap (λ p. val / 16 * 16 / p) sixteen
        ∙ (sym (div-div-eq-div-mul (val / 16 * 16) 16 (2 ^ k))
            ∙ (ap (λ x. x / 2 ^ k) (omega arith)
                ∙ (div-div-eq-div-mul val 16 (2 ^ k) ∙ ap (λ p. val / p) (sym sixteen))))

-- What the guest finds in a register of a BAR after it wrote `val` there.
abbrev pub expected : Vfio → ℕ → ℕ → Bool → ℕ
expected vf val i hi =
    let size = get_or vf.bar_size i 0 in
    if hi then val else val / size * size + get_or vf.bar_type i 0

bar_register-write_half :
    (vf : Vfio) (val i j k : ℕ) (hi : Bool)
    → val < 2 ^ 32
    → i < length vf.bar_val
    → get_or vf.bar_size i 0 ≡ 2 ^ (4 + k)
    → j + k ≡ 28
    → get_or vf.bar_type i 0 < 16
    → bar_register (write_half val i hi vf) i hi ≡ expected vf val i hi
unfolding bar_register write_half
bar_register-write_half vf val i j k true hv hi hs e ht =
    ap (λ v. u32 (v / 2 ^ 32))
      (get_or-set_self vf.bar_val i
        (bit_or (val <<< 32) (bit_and (get_or vf.bar_val i 0) 0xffffffff)) 0 hi)
    ∙ (ap u32 (high_half (get_or vf.bar_val i 0) val) ∙ omega (arith, hv))
bar_register-write_half vf val i j k false hv hi hs e ht =
    let v = get_or vf.bar_val i 0 in
    let r = bit_and val 0xfffffff0 in
    let type = get_or vf.bar_type i 0 in
    ap (λ x. bit_or (bit_and (u32 x) (not32 (u32 (get_or vf.bar_size i 0 - 1)))) type)
      (get_or-set_self vf.bar_val i (bit_or (bit_and v 0xffffffff00000000) r) 0 hi)
    ∙ (ap (λ x. bit_or (bit_and x (not32 (u32 (get_or vf.bar_size i 0 - 1)))) type)
          (low_half v r (omega (arith, bit_and-le val 0xfffffff0)))
        ∙ (ap (λ n. bit_or (bit_and r (not32 (u32 (n - 1)))) type) hs
            ∙ (ap (λ x. bit_or x type) (kept_bits j k val e hv)
                ∙ (bit_or-eq-add (4 + k) (val / 2 ^ (4 + k)) type
                      (omega (arith, ht, pow_add 4 k, one-le-pow k 2 (omega arith)))
                    ∙ ap (λ n. val / n * n + type) (sym hs)))))

-- A 4-byte write to a register of a BAR that the device has, of a size that is a power of two
-- from 16 bytes to 2 GiB, and a 4-byte read of it: the lower half gives the value down to a
-- multiple of the size, with the type in its low bits, so that all ones give the size; the upper
-- half of a 64-bit BAR gives the value. The capability of MSI-X lies beyond the BARs.
pub pt_config_read-pt_config_write :
    (dev_read : ℕ → ℕ → Option ℕ) (works : Bool) (vf : Vfio) (n val i j k : ℕ) (hi : Bool)
    → n < 6
    → find_bar_start (0x10 + n * 4) 0 vf.bar_is64 ≡ some (i, hi)
    → (vf.msix_cap ≡ 0) ⊎ (0x40 ≤ vf.msix_cap)
    → val < 2 ^ 32
    → i < length vf.bar_val
    → get_or vf.bar_size i 0 ≡ 2 ^ (4 + k)
    → j + k ≡ 28
    → get_or vf.bar_type i 0 < 16
    → pt_config_read dev_read (pt_config_write works vf (0x10 + n * 4) 4 val) (0x10 + n * 4) 4
      ≡ expected vf val i hi
unfolding pt_config_read pt_config_write read_bar write_found implemented in_bars write_half
pt_config_read-pt_config_write dev_read works vf n val i j k hi hn found place hv hl hs e ht =
    rw
      (
        within,
        found,
        there,
        not_msix,
        find_bar-eq-find_bar_start (0x10 + n * 4) 0 vf.bar_is64 aligned,
        found,
        there,
      )
      (bar_register-write_half vf val i j k hi hv hl hs e ht)
  where
    within : (leb 0x10 (0x10 + n * 4) && ltb (0x10 + n * 4) 0x28) ≡ true
    within = ground (arith, hn)

    aligned : (0x10 + n * 4) % 4 ≡ 0
    aligned = omega arith

    there : nonzero (get_or vf.bar_size i 0) ≡ true
    there =
        nonzero_of_ne (get_or vf.bar_size i 0)
          (λ z. omega (arith, z, hs, one-le-pow (4 + k) 2 (omega arith)))

    not_msix :
        (nonzero vf.msix_cap
          && (leb (vf.msix_cap + 2) (0x10 + n * 4) && leb (0x10 + n * 4 + 4) (vf.msix_cap + 4)))
        ≡ false
    not_msix = elim place [ inl z ↦ ground (arith, z) | inr z ↦ ground (arith, z, hn) ]
