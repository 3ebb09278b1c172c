-- ===== src/MiniVmm/Cpuid/Presented/Leaf.antt =====
-- One leaf of the filter of setup_cpuid (minivmm.c).
use virtualization_learning.Base.{
  ℕ, ◌+◌, ◌*◌, ◌/◌, ◌%◌, ◌^◌, bit_and, bit_or, ◌≡◌, refl, ap, ◌∙◌, ◌⊎◌, inl, inr, false, arith,
  if-intro, if-cases, ◌<<<◌, not32, bit_and_mask, bit_or-eq-add, bit_or_comm, set-outside, keep-all,
  keep-none, set-bit,
}
use virtualization_learning.MiniVmm.Cpuid.{CpuidEntry, is_leaf_one, filter_entry}

-- Bits 21, 24 and 31 of ECX of leaf 1: x2APIC, the TSC deadline timer and the hypervisor; EBX has
-- the APIC ID, the number of logical processors and what the host gives for CLFLUSH. Any other
-- leaf is the host's.
abbrev pub Presents : CpuidEntry → CpuidEntry → Type 0
Presents e e' =
    ((is_leaf_one e ≡ false) × (e' ≡ e))
    ⊎ ((bit_and e'.ecx (1 * 2 ^ 21) ≡ 0)
        × (bit_and e'.ecx (1 * 2 ^ 31) ≡ 1 * 2 ^ 31)
        × (bit_and e'.ecx (1 * 2 ^ 24) ≡ bit_and e.ecx (1 * 2 ^ 24))
        × (e'.ebx / 2 ^ 24 ≡ 0)
        × (e'.ebx / 2 ^ 16 % 2 ^ 8 ≡ 1)
        × (e'.ebx % 2 ^ 16 ≡ e.ebx % 2 ^ 16)
        × (e'.eax ≡ e.eax)
        × (e'.edx ≡ e.edx))

clear_and_set-21 :
    (x : ℕ) → bit_and (bit_or (bit_and x (not32 (1 <<< 21))) (1 <<< 31)) (1 * 2 ^ 21) ≡ 0
clear_and_set-21 x =
    set-outside (bit_and x (not32 (1 <<< 21))) (1 <<< 31) (1 * 2 ^ 21) refl
    ∙ keep-none x (not32 (1 <<< 21)) (1 * 2 ^ 21) refl

clear_and_set-24 :
    (x : ℕ)
    → bit_and (bit_or (bit_and x (not32 (1 <<< 21))) (1 <<< 31)) (1 * 2 ^ 24)
      ≡ bit_and x (1 * 2 ^ 24)
clear_and_set-24 x =
    set-outside (bit_and x (not32 (1 <<< 21))) (1 <<< 31) (1 * 2 ^ 24) refl
    ∙ keep-all x (not32 (1 <<< 21)) (1 * 2 ^ 24) refl

clear_and_set-31 :
    (x : ℕ) → bit_and (bit_or (bit_and x (not32 (1 <<< 21))) (1 <<< 31)) (1 * 2 ^ 31) ≡ 1 * 2 ^ 31
clear_and_set-31 x =
    set-bit 31 (bit_and x (not32 (1 <<< 21))) (1 <<< 31) (1 * 2 ^ 31) refl refl refl

one_processor : (x : ℕ) → bit_or (bit_and x 0x0000ffff) (1 <<< 16) ≡ 1 * 2 ^ 16 + x % 2 ^ 16
one_processor x =
    bit_or_comm (bit_and x 0x0000ffff) (1 <<< 16)
    ∙ (ap (bit_or (1 <<< 16)) (bit_and_mask 16 x) ∙ bit_or-eq-add 16 1 (x % 2 ^ 16) (omega arith))

pub filter_entry-Presents : (e : CpuidEntry) → Presents e (filter_entry e)
unfolding filter_entry
filter_entry-Presents e =
    if-cases (Presents e) (is_leaf_one e)
      (record e {
        ecx = bit_or (bit_and e.ecx (not32 (1 <<< 21))) (1 <<< 31);
        ebx = bit_or (bit_and e.ebx 0x0000ffff) (1 <<< 16);
      })
      e
      (λ one. inr (
        clear_and_set-21 e.ecx,
        clear_and_set-31 e.ecx,
        clear_and_set-24 e.ecx,
        omega (arith, one_processor e.ebx),
        omega (arith, one_processor e.ebx),
        omega (arith, one_processor e.ebx),
        refl,
        refl,
      ))
      (λ other. inl (other, refl))

pub filter_entry-function : (e : CpuidEntry) → (filter_entry e).function ≡ e.function
unfolding filter_entry
filter_entry-function e =
    if-intro (λ (x : CpuidEntry). x.function ≡ e.function) (is_leaf_one e)
      {x = record e {
        ecx = bit_or (bit_and e.ecx (not32 (1 <<< 21))) (1 <<< 31);
        ebx = bit_or (bit_and e.ebx 0x0000ffff) (1 <<< 16);
      }}
      refl refl
