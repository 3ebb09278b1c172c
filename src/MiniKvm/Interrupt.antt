-- ===== src/MiniKvm/Interrupt.antt =====
-- phase9-capstone/practice/mini-kvm/interrupt.c: the event slot `pending_intr_info` of a vCPU.
--
-- The numbers of the fields are those that the head of interrupt.c gives: vector in bits 7:0,
-- type in bits 10:8 (0 external interrupt, 2 NMI), valid in bit 31. A C `int` is its 32-bit
-- pattern.
pub mod Slot
use virtualization_learning.Base.{
  ℕ, zero, suc, ◌^◌, bit_and, bit_or, Bool, not, ◌||◌, arith, ltb, leb, ◌==◌, nonzero,
  if◌then◌else◌, u32, ◌>>>◌,
}
use virtualization_learning.MiniKvm.{Errno, ok, err, Status, Vmcs, Vcpu}

abbrev pub intr_info_valid_mask : ℕ
intr_info_valid_mask = 0x80000000

abbrev pub intr_type_ext_intr : ℕ
intr_type_ext_intr = 0

abbrev pub intr_type_nmi_intr : ℕ
intr_type_nmi_intr = 0x200

-- The signed tests `vector < 0`, `vector > 255` and `vector < 32` on the pattern of an `int`.
abbrev pub int_negative : ℕ → Bool
int_negative w = leb (2 ^ 31) w

-- `mini_vcpu_inject_irq`
unfoldable pub inject_irq : Vcpu → ℕ → Status × Vcpu
inject_irq vcpu vector =
    if int_negative vector || ltb 255 vector
    then (err Errno.einval, vcpu)
    else if ltb vector 32
    then (err Errno.einval, vcpu)
    else if nonzero vcpu.pending_intr_info
    then (err Errno.ebusy, vcpu)
    else (
      ok tt,
      record vcpu {
        pending_intr_info = bit_or (bit_or intr_info_valid_mask intr_type_ext_intr) vector;
      },
    )

-- `mini_vcpu_take_intr_info`
unfoldable pub take_intr_info : Vcpu → ℕ × Vcpu
take_intr_info vcpu = (vcpu.pending_intr_info, record vcpu { pending_intr_info = 0 })

-- The event that the IDT-vectoring field gives back, or 0.
unfoldable pub requeued_intr_info : ℕ → ℕ
requeued_intr_info idtv =
    if not (nonzero (bit_and idtv 0x80000000))
    then 0
    else if bit_and (idtv >>> 8) 7 == intr_type_ext_intr
    then bit_or (bit_or intr_info_valid_mask intr_type_ext_intr) (u32 (bit_and idtv 0xff))
    else 0

-- `mini_vcpu_complete_intr_info`
unfoldable pub complete_intr_info : Vcpu → Vmcs → Vcpu
unfolding requeued_intr_info
complete_intr_info vcpu vmcs = record vcpu {
  pending_intr_info = requeued_intr_info vmcs.idt_vectoring_info;
}

-- `mini_vcpu_reinject_nmi`
unfoldable pub reinject_nmi : Vcpu → Vmcs → Vcpu
reinject_nmi vcpu vmcs =
    if nonzero (bit_and vmcs.guest_interruptibility 8)
    then vcpu
    else if nonzero vcpu.pending_intr_info
    then vcpu
    else record vcpu {
      pending_intr_info = bit_or (bit_or intr_info_valid_mask intr_type_nmi_intr) 2;
    }
