-- ===== src/MiniKvm/Vmx/Negotiation.antt =====
-- The controls of a VMCS that mini-kvm negotiates with the processor.
use virtualization_learning.Base.{
  ℕ, bit_and, ◌≡◌, refl, ◌≢◌, ◌⊎◌, inl, inr, Bool, true, false, not, ◌||◌, arith, nonzero,
  if◌then◌else◌, u32, ◌>>>◌, Within, bit_or-Within, bit_and-Within_right, Within-bit_or_left,
  Within-bit_or_right,
}
use virtualization_learning.MiniKvm.{Errno, Result, ok, err}
use virtualization_learning.MiniKvm.Vmx.{
  Msr, adjust_control, Controls, compute_controls, pin_based_desired, cpu_based_desired,
  secondary_desired, exit_desired, entry_desired, pin_based_msr, cpu_based_msr, exit_msr, entry_msr,
}

-- The two halves of a capability MSR.
abbrev pub must_be_one : ℕ → ℕ
must_be_one msr = u32 msr

abbrev pub can_be_one : ℕ → ℕ
can_be_one msr = u32 (msr >>> 32)

-- A control word that VM entry accepts by a capability MSR, and that has each bit of `desired` that
-- the processor allows.
pub record IsNegotiated (msr desired word : ℕ) : Type 0 where
  pub required : Within (must_be_one msr) word
  pub allowed : Within word (can_be_one msr)
  pub kept : Within (bit_and desired (can_be_one msr)) word

-- A bit that must be one can be one.
abbrev pub IsCapability : ℕ → Type 0
IsCapability msr = Within (must_be_one msr) (can_be_one msr)

-- The five capability MSRs that the negotiation reads.
abbrev pub AreCapabilities : (Msr → ℕ) → Bool → Type 0
AreCapabilities rdmsr t =
    IsCapability (rdmsr (pin_based_msr t))
    × IsCapability (rdmsr (cpu_based_msr t))
    × IsCapability (rdmsr Msr.vmx_procbased_ctls2)
    × IsCapability (rdmsr (exit_msr t))
    × IsCapability (rdmsr (entry_msr t))

adjust_control-IsNegotiated :
    (rdmsr : Msr → ℕ) (desired : ℕ) (index : Msr)
    → IsCapability (rdmsr index)
    → IsNegotiated (rdmsr index) desired (adjust_control rdmsr desired index)
unfolding adjust_control
adjust_control-IsNegotiated rdmsr desired index h =
    let msr = rdmsr index in
    let wanted = bit_and desired (can_be_one msr) in
    record {
      required = Within-bit_or_right (must_be_one msr) wanted;
      allowed =
          bit_or-Within wanted (must_be_one msr) (can_be_one msr)
            (bit_and-Within_right desired (can_be_one msr)) h;
      kept = Within-bit_or_left wanted (must_be_one msr);
    }

-- What the negotiation promises of all five words.
pub record AreNegotiated (rdmsr : Msr → ℕ) (t : Bool) (c : Controls) : Type 0 where
  pub pin_based : IsNegotiated (rdmsr (pin_based_msr t)) pin_based_desired c.pin_based
  pub cpu_based : IsNegotiated (rdmsr (cpu_based_msr t)) cpu_based_desired c.cpu_based
  pub secondary : IsNegotiated (rdmsr Msr.vmx_procbased_ctls2) secondary_desired c.secondary
  pub exit_ctls : IsNegotiated (rdmsr (exit_msr t)) exit_desired c.exit_ctls
  pub entry_ctls : IsNegotiated (rdmsr (entry_msr t)) entry_desired c.entry_ctls
  pub secondary_on : bit_and c.cpu_based 0x80000000 ≢ 0
  pub ept_on : bit_and c.secondary 0x02 ≢ 0

-- What a negotiation leaves: controls, or the refusal, and then one of the two controls is missing.
abbrev pub Outcome : (Msr → ℕ) → Bool → Result Controls → Type 0
Outcome rdmsr t (ok c) = AreNegotiated rdmsr t c
Outcome rdmsr t (err e) =
    (e ≡ Errno.eopnotsupp)
    × ((bit_and (adjust_control rdmsr cpu_based_desired (cpu_based_msr t)) 0x80000000 ≡ 0)
        ⊎ (bit_and (adjust_control rdmsr secondary_desired Msr.vmx_procbased_ctls2) 0x02 ≡ 0))

-- If each of the five capability MSRs that it reads lets a bit that must be one be one, the five
-- control words have every bit that must be one, no bit that cannot be one, and every bit that
-- the module wants and the processor allows, with the secondary controls and EPT among them;
-- otherwise the negotiation is refused with EOPNOTSUPP, and the processor lacks the secondary
-- controls or EPT.
pub compute_controls-Outcome :
    (rdmsr : Msr → ℕ) (t : Bool)
    → AreCapabilities rdmsr t
    → Outcome rdmsr t (compute_controls rdmsr t)
unfolding compute_controls
compute_controls-Outcome rdmsr t (pin_ok, cpu_ok, sec_ok, exit_ok, entry_ok) =
    split (nonzero (bit_and cpu 0x80000000)) refl (nonzero (bit_and sec 0x02)) refl
  where
    cpu : ℕ
    cpu = adjust_control rdmsr cpu_based_desired (cpu_based_msr t)

    sec : ℕ
    sec = adjust_control rdmsr secondary_desired Msr.vmx_procbased_ctls2

    words : Controls
    words = record {
      pin_based = adjust_control rdmsr pin_based_desired (pin_based_msr t);
      cpu_based = cpu;
      secondary = sec;
      exit_ctls = adjust_control rdmsr exit_desired (exit_msr t);
      entry_ctls = adjust_control rdmsr entry_desired (entry_msr t);
    }

    split :
        (a : Bool)
        → nonzero (bit_and cpu 0x80000000) ≡ a
        → (b : Bool) → nonzero (bit_and sec 0x02) ≡ b
        → Outcome rdmsr t (if not a || not b then err Errno.eopnotsupp else ok words)
    split false p b q = (refl, inl (ground (arith, p)))
    split true p false q = (refl, inr (ground (arith, q)))
    split true p true q = record {
      pin_based = adjust_control-IsNegotiated rdmsr pin_based_desired (pin_based_msr t) pin_ok;
      cpu_based = adjust_control-IsNegotiated rdmsr cpu_based_desired (cpu_based_msr t) cpu_ok;
      secondary =
          adjust_control-IsNegotiated rdmsr secondary_desired Msr.vmx_procbased_ctls2 sec_ok;
      exit_ctls = adjust_control-IsNegotiated rdmsr exit_desired (exit_msr t) exit_ok;
      entry_ctls = adjust_control-IsNegotiated rdmsr entry_desired (entry_msr t) entry_ok;
      secondary_on = λ z. ground (arith, p, z);
      ept_on = λ z. ground (arith, q, z);
    }
