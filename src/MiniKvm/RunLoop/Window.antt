-- ===== src/MiniKvm/RunLoop/Window.antt =====
-- The injection window of the run loop in vcpu.c: what a VM entry finds in the VMCS.
use virtualization_learning.Base.{
  ℕ, zero, suc, ◌+◌, ◌-◌, ◌*◌, ◌/◌, ◌%◌, ◌^◌, ◌<◌, bit_and, bit_or, ◌≡◌, refl, ap, ◌∙◌, ◌≢◌, arith,
  nonzero_of_ne, not64, bit_and_mask, bit_and_shifted, bit_and_bit, bit_and-bit_or, bit_or-zero,
}
use virtualization_learning.MiniKvm.{Vmcs, Machine}
use virtualization_learning.MiniKvm.Interrupt.{take_intr_info}
use virtualization_learning.MiniKvm.RunLoop.{prepare_entry, open_window}

if_set : (r : ℕ) → bit_and (bit_or r 0x200) 0x200 ≡ 0x200
if_set r = bit_and-bit_or r 0x200 0x200 ∙ rw (bit_and_bit 9 r) (either (r / 512 % 2) (omega arith))
  where
    either : (b : ℕ) → b < 2 → bit_or (b * 512) (bit_and 0x200 0x200) ≡ 0x200
    either zero h = refl
    either (suc zero) h = refl
    either (suc (suc b)) h = absurd (omega arith)

others_kept : (r mask : ℕ) → bit_and 0x200 mask ≡ 0 → bit_and (bit_or r 0x200) mask ≡ bit_and r mask
others_kept r mask h =
    bit_and-bit_or r 0x200 mask ∙ (ap (bit_or (bit_and r mask)) h ∙ bit_or-zero (bit_and r mask))

blocking_off : (ib : ℕ) → ib < 2 ^ 64 → bit_and ib (not64 3) ≡ ib / 4 * 4
blocking_off ib h = omega (arith, bit_and_shifted 2 ib (2 ^ 62 - 1), bit_and_mask 62 (ib / 4))

window_open :
    (intr : ℕ) (vmcs : Vmcs)
    → intr ≢ 0
    → open_window intr vmcs ≡ record vmcs {
      guest_rflags = bit_or vmcs.guest_rflags 0x200;
      guest_interruptibility = bit_and vmcs.guest_interruptibility (not64 3);
    }
unfolding open_window
window_open intr vmcs h = rw (nonzero_of_ne intr h) refl

-- A VM entry that injects an event finds the guest able to take it: the event is in the VM-entry
-- field and gone from the slot, RFLAGS.IF is set with the other bits as they were, and blocking
-- by STI and by MOV SS is off with the other bits as they were. Without an event the field is 0
-- and both are untouched.
pub prepare_entry-ready :
    (m : Machine)
    → m.vmcs.guest_interruptibility < 2 ^ 64
    → let m' = prepare_entry m in
      (m'.vmcs.entry_intr_info ≡ m.vcpu.pending_intr_info)
      × (m'.vcpu.pending_intr_info ≡ 0)
      × (m.vcpu.pending_intr_info ≢ 0
          → (bit_and m'.vmcs.guest_rflags 0x200 ≡ 0x200)
            × ((mask : ℕ)
                → bit_and 0x200 mask ≡ 0
                → bit_and m'.vmcs.guest_rflags mask ≡ bit_and m.vmcs.guest_rflags mask)
            × (m'.vmcs.guest_interruptibility ≡ m.vmcs.guest_interruptibility / 4 * 4)
            × (m'.vcpu.n_injected ≡ (m.vcpu.n_injected + 1) % 2 ^ 64))
      × (m.vcpu.pending_intr_info ≡ 0
          → (m'.vmcs.guest_rflags ≡ m.vmcs.guest_rflags)
            × (m'.vmcs.guest_interruptibility ≡ m.vmcs.guest_interruptibility)
            × (m'.vcpu.n_injected ≡ m.vcpu.n_injected))
unfolding prepare_entry take_intr_info
prepare_entry-ready m small = (
  refl,
  refl,
  λ ne.
      let e = window_open m.vcpu.pending_intr_info m.vmcs ne in
      let r = ap (λ v. v.guest_rflags) e in
      (
        ap (λ x. bit_and x 0x200) r ∙ if_set m.vmcs.guest_rflags,
        λ mask h. ap (λ x. bit_and x mask) r ∙ others_kept m.vmcs.guest_rflags mask h,
        ap (λ v. v.guest_interruptibility) e ∙ blocking_off m.vmcs.guest_interruptibility small,
        rw (nonzero_of_ne m.vcpu.pending_intr_info ne) refl,
      ),
  λ e. ground arith,
)
