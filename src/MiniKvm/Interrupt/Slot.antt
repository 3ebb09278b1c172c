-- ===== src/MiniKvm/Interrupt/Slot.antt =====
-- What the event slot of interrupt.c holds after each operation.
use virtualization_learning.Base.{
  ℕ, ◌+◌, ◌/◌, ◌%◌, ◌^◌, ◌≤◌, ◌<◌, bit_or, ◌≡◌, refl, ap, ◌≢◌, ◌⊎◌, inl, inr, arith, ◌==◌,
  if◌then◌else◌, Bool-cases, bit_and_mask, bit_or-eq-add, bit_and_bit,
}
use virtualization_learning.MiniKvm.{Errno, ok, err, Vmcs, Vcpu}
use virtualization_learning.MiniKvm.Interrupt.{
  inject_irq, take_intr_info, requeued_intr_info, complete_intr_info, reinject_nmi,
}

-- An external interrupt with a vector that is not reserved, ready for VM entry.
abbrev pub ext_intr : ℕ → ℕ
ext_intr vector = 0x80000000 + vector

-- The event slot is empty, or holds an event in the form that VM entry accepts.
abbrev pub IsEvent : ℕ → Type 0
IsEvent info =
    (info ≡ 0) ⊎ (((vector : ℕ) × (vector < 256) × (info ≡ ext_intr vector)) ⊎ (info ≡ 0x80000202))

valid-vector : (v : ℕ) → v < 256 → bit_or 0x80000000 v ≡ 0x80000000 + v
valid-vector v h = bit_or-eq-add 31 1 v (omega arith)

-- All branches of a request to inject: a vector outside 32 to 255 is refused with EINVAL; any other
-- is refused with EBUSY while an event is pending; otherwise that external interrupt is queued.
-- A refusal changes nothing, and an acceptance only the slot.
pub inject_irq_cases :
    (vcpu : Vcpu) (vector : ℕ)
    → ((vector < 32) ⊎ (255 < vector) → inject_irq vcpu vector ≡ (err Errno.einval, vcpu))
      × (32 ≤ vector
          → vector ≤ 255
          → vcpu.pending_intr_info ≢ 0
          → inject_irq vcpu vector ≡ (err Errno.ebusy, vcpu))
      × (32 ≤ vector
          → vector ≤ 255
          → vcpu.pending_intr_info ≡ 0
          → inject_irq vcpu vector ≡ (ok tt, record vcpu { pending_intr_info = ext_intr vector }))
unfolding inject_irq
inject_irq_cases vcpu vector =
    (λ h. ground arith, λ lo hi e. ground arith, λ lo hi e. ground (arith, valid-vector vector))

-- What the IDT-vectoring field gives back, by its fields: an external interrupt (type 0) whose
-- delivery was cut short returns to the slot with its vector, and all else leaves the slot empty.
pub requeued_intr_info_fields :
    (idtv : ℕ)
    → requeued_intr_info idtv ≡ (
        if idtv / 2 ^ 31 % 2 == 1
        then (if idtv / 256 % 8 == 0 then ext_intr (idtv % 256) else 0)
        else 0)
unfolding requeued_intr_info
requeued_intr_info_fields idtv =
    rw
      (
        bit_and_bit 31 idtv,
        bit_and_mask 3 (idtv / 256),
        bit_and_mask 8 idtv,
        small,
        valid-vector (idtv % 256) (omega arith),
      )
      (ground arith)
  where
    small : idtv % 256 % 2 ^ 32 ≡ idtv % 256
    small = omega arith

requeued-ext_intr :
    (vector : ℕ) → vector < 256 → requeued_intr_info (ext_intr vector) ≡ ext_intr vector
requeued-ext_intr vector h = rw (requeued_intr_info_fields (ext_intr vector)) (ground arith)

requeued-event :
    (info : ℕ) → IsEvent info → requeued_intr_info info ≡ (if info == 0x80000202 then 0 else info)
requeued-event info (inl e) = rw (e, requeued_intr_info_fields 0)
requeued-event info (inr (inl (vector, h, e))) = rw (e, requeued-ext_intr vector h) (ground arith)
requeued-event info (inr (inr e)) = rw (e, requeued_intr_info_fields 0x80000202)

-- An event that VM entry took from the slot, and that the exit hands back through the
-- IDT-vectoring field, is pending again and the vCPU is as before the entry. An NMI is not: the
-- slot is then empty.
pub complete-take :
    (vcpu : Vcpu) (vmcs : Vmcs)
    → IsEvent vcpu.pending_intr_info
    → vmcs.idt_vectoring_info ≡ (take_intr_info vcpu).0
    → complete_intr_info (take_intr_info vcpu).1 vmcs ≡ (
        if vcpu.pending_intr_info == 0x80000202
        then record vcpu { pending_intr_info = 0 }
        else vcpu)
unfolding complete_intr_info take_intr_info
complete-take vcpu vmcs h e =
    ground (arith, requeued-event vcpu.pending_intr_info h, ap requeued_intr_info e)

requeued-IsEvent : (idtv : ℕ) → IsEvent (requeued_intr_info idtv)
requeued-IsEvent idtv =
    rw (requeued_intr_info_fields idtv) (elim (Bool-cases (idtv / 2 ^ 31 % 2 == 1)) [
      | inl e ↦ rw e (elim (Bool-cases (idtv / 256 % 8 == 0)) [
        | inl e' ↦ rw e' (inr (inl (idtv % 256, omega arith, refl)))
        | inr e' ↦ rw e' (inl refl)
      ])
      | inr e ↦ rw e (inl refl)
    ])

inject_irq-slot :
    (vcpu : Vcpu) (vector : ℕ)
    → ((inject_irq vcpu vector).1.pending_intr_info ≡ vcpu.pending_intr_info)
      ⊎ ((vector < 256) × ((inject_irq vcpu vector).1.pending_intr_info ≡ ext_intr vector))
unfolding inject_irq
inject_irq-slot vcpu vector = ground (arith, valid-vector vector)

reinject_nmi-slot :
    (vcpu : Vcpu) (vmcs : Vmcs)
    → ((reinject_nmi vcpu vmcs).pending_intr_info ≡ vcpu.pending_intr_info)
      ⊎ ((reinject_nmi vcpu vmcs).pending_intr_info ≡ 0x80000202)
unfolding reinject_nmi
reinject_nmi-slot vcpu vmcs = ground arith

-- What the four operations do to the slot keeps it empty or in the form that VM entry accepts: bit
-- 31 set, and either an external interrupt of any vector or the NMI with vector 2.
pub slot-IsEvent :
    (vcpu : Vcpu) (vmcs : Vmcs) (vector : ℕ)
    → IsEvent vcpu.pending_intr_info
    → IsEvent (inject_irq vcpu vector).1.pending_intr_info
      × IsEvent (take_intr_info vcpu).0
      × IsEvent (take_intr_info vcpu).1.pending_intr_info
      × IsEvent (complete_intr_info vcpu vmcs).pending_intr_info
      × IsEvent (reinject_nmi vcpu vmcs).pending_intr_info
unfolding take_intr_info complete_intr_info
slot-IsEvent vcpu vmcs vector h = (
  elim (inject_irq-slot vcpu vector) [
    | inl e ↦ rw e h
    | inr (small, e) ↦ inr (inl (vector, small, e))
  ],
  h,
  inl refl,
  requeued-IsEvent vmcs.idt_vectoring_info,
  elim (reinject_nmi-slot vcpu vmcs) [ inl e ↦ rw e h | inr e ↦ inr (inr e) ],
)
