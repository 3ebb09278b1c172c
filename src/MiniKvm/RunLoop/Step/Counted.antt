-- ===== src/MiniKvm/RunLoop/Step/Counted.antt =====
-- How one exit of mini-kvm is counted, and the event slot over its handler.
use virtualization_learning.Base.{
  ℕ, ◌+◌, ◌≤◌, bit_and, ◌≡◌, refl, inr, true, false, ◌&&◌, Option, none, some, arith, ◌==◌, nonzero,
  if-intro, set, u8, u64,
}
use virtualization_learning.MiniKvm.{
  serial_port, Errno, ok, err, Status, Vcpu, Vmcs, Machine, Host, EptRoot,
}
use virtualization_learning.MiniKvm.Interrupt.{reinject_nmi}
use virtualization_learning.MiniKvm.Interrupt.Slot.{IsEvent}
use virtualization_learning.MiniKvm.Device.{
  handle_io_exit, emulate_io, io_is_in, io_port, io_value, serial_out,
}
use virtualization_learning.MiniKvm.Ept.{
  handle_violation, map_page, ept_walk, outside_slot, page_start,
}
use virtualization_learning.MiniKvm.RunLoop.{Run, kvm_exit_shutdown, kvm_exit_internal_error}
use virtualization_learning.MiniKvm.RunLoop.Step.{
  Next, again, leave_with, with_vcpu, exit_external_interrupt, exit_exception_nmi,
  exit_io_instruction, exit_ept_violation, exit_cpuid, exit_hlt, exit_triple_fault, continue_after,
  on_exception, on_external_interrupt, on_io_instruction, on_ept_violation, on_cpuid, on_hlt,
  dispatch,
}

-- The sum of the counters of the exits by kind.
abbrev pub by_kind : Vcpu → ℕ
by_kind v = v.n_io_exits + v.n_ept_violations + v.n_hlt_exits + v.n_extint_exits + v.n_nmi_exits

-- One exit handled: the total is the same, and at most one of the counters is one higher.
pub record Counted (vcpu vcpu' : Vcpu) : Type 0 where
  pub event : IsEvent vcpu.pending_intr_info → IsEvent vcpu'.pending_intr_info
  pub total : vcpu'.n_exits ≡ vcpu.n_exits
  pub kinds : by_kind vcpu' ≤ by_kind vcpu + 1
  pub launched : vcpu'.launched ≡ vcpu.launched
  pub loaded : vcpu'.loaded_cpu ≡ vcpu.loaded_cpu

abbrev pub CountedBy : Run → Next × Run → Type 0
CountedBy run r = Counted run.machine.vcpu r.1.machine.vcpu

continue_after-machine : (s : Status) (run : Run) → (continue_after s run).1.machine ≡ run.machine
unfolding continue_after
continue_after-machine (ok u) run = refl
continue_after-machine (err e) run = refl

-- A successful IO exit
emulated :
    (m : Machine) (qual : ℕ)
    → let m' = emulate_io m qual in
      Counted m.vcpu (record (m'.vcpu) { n_io_exits = u64 (m'.vcpu.n_io_exits + 1) })
unfolding emulate_io
emulated m qual =
    let P : Machine → Type 0 =
      λ m'. Counted m.vcpu (record (m'.vcpu) { n_io_exits = u64 (m'.vcpu.n_io_exits + 1) }) in
    if-intro P (io_is_in qual)
      {x = record m { vcpu = record (m.vcpu) { regs = set m.vcpu.regs 0 0 } }}
      record { event = λ h. h; total = refl; kinds = omega arith; launched = refl; loaded = refl }
      (if-intro P (io_port qual == serial_port)
        {x = record m { capture = serial_out m.capture (u8 (io_value m.vcpu qual)) }} {y = m}
        record { event = λ h. h; total = refl; kinds = omega arith; launched = refl; loaded = refl }
        record {
          event = λ h. h;
          total = refl;
          kinds = omega arith;
          launched = refl;
          loaded = refl;
        })

handle_io_exit-Counted : (m : Machine) → Counted m.vcpu (handle_io_exit m).1.vcpu
unfolding handle_io_exit
handle_io_exit-Counted m =
    let qual = m.vmcs.exit_qualification in
    if-intro {A = Status × Machine} (λ r. Counted m.vcpu r.1.vcpu) (nonzero (bit_and qual 16))
      {x = (err Errno.eio, m)}
      record { event = λ h. h; total = refl; kinds = omega arith; launched = refl; loaded = refl }
      (emulated m qual)

map_page-Counted :
    (m : Machine) (gpa : ℕ) (r : Option (ℕ × ℕ) × EptRoot × Host)
    → Counted m.vcpu (map_page m gpa r).1.vcpu
unfolding map_page
map_page-Counted m gpa (none, ept, host) = record {
  event = λ h. h;
  total = refl;
  kinds = omega arith;
  launched = refl;
  loaded = refl;
}
map_page-Counted m gpa (some (frame, i), ept, host) = record {
  event = λ h. h;
  total = refl;
  kinds = omega arith;
  launched = refl;
  loaded = refl;
}

handle_violation-Counted : (m : Machine) → Counted m.vcpu (handle_violation m).1.vcpu
unfolding handle_violation
handle_violation-Counted m =
    let gpa = page_start m.vmcs.guest_physical_address in
    if-intro {A = Status × Machine} (λ r. Counted m.vcpu r.1.vcpu) (outside_slot m.slot gpa)
      {x = (err Errno.efault, m)}
      record { event = λ h. h; total = refl; kinds = omega arith; launched = refl; loaded = refl }
      (map_page-Counted m gpa (ept_walk m.ept m.host gpa true))

reinject_nmi-Counted :
    (vcpu : Vcpu) (vmcs : Vmcs)
    → Counted vcpu (reinject_nmi (record vcpu { n_nmi_exits = u64 (vcpu.n_nmi_exits + 1) }) vmcs)
unfolding reinject_nmi
reinject_nmi-Counted vcpu vmcs =
    let vcpu' = record vcpu { n_nmi_exits = u64 (vcpu.n_nmi_exits + 1) } in
    let same : Counted vcpu vcpu' = record {
      event = λ h. h;
      total = refl;
      kinds = omega arith;
      launched = refl;
      loaded = refl;
    } in
    if-intro (Counted vcpu) (nonzero (bit_and vmcs.guest_interruptibility 8)) same (
      if-intro (Counted vcpu) (nonzero vcpu.pending_intr_info) same record {
        event = λ h. inr (inr refl);
        total = refl;
        kinds = omega arith;
        launched = refl;
        loaded = refl;
      })

continue_after-Counted :
    (vcpu : Vcpu) (s : Status) (run : Run)
    → Counted vcpu run.machine.vcpu
    → Counted vcpu (continue_after s run).1.machine.vcpu
unfolding continue_after
continue_after-Counted vcpu (ok u) run h = h
continue_after-Counted vcpu (err e) run h = h

pub dispatch-Counted : (reason : ℕ) (run : Run) → CountedBy run (dispatch reason run)
unfolding dispatch on_io_instruction on_ept_violation on_exception
dispatch-Counted reason run = if-intro P (reason == exit_external_interrupt) external (
    if-intro P (reason == exit_exception_nmi) exception (
      if-intro P (reason == exit_io_instruction) io (
        if-intro P (reason == exit_ept_violation) ept (
          if-intro P (reason == exit_cpuid) cpuid (
            if-intro P (reason == exit_hlt) hlt (
              if-intro P (reason == exit_triple_fault) (leaves (ok tt) kvm_exit_shutdown)
                (leaves (err Errno.eio) kvm_exit_internal_error)))))))
  where
    P : Next × Run → Type 0
    P = CountedBy run

    external : P (on_external_interrupt run)
    external = record {
      event = λ h. h;
      total = refl;
      kinds = omega arith;
      launched = refl;
      loaded = refl;
    }

    cpuid : P (on_cpuid run)
    cpuid = record {
      event = λ h. h;
      total = refl;
      kinds = omega arith;
      launched = refl;
      loaded = refl;
    }

    hlt : P (on_hlt run)
    hlt = record {
      event = λ h. h;
      total = refl;
      kinds = omega arith;
      launched = refl;
      loaded = refl;
    }

    leaves : (s : Status) (e : ℕ) → P (leave_with s e run)
    leaves s e = record {
      event = λ h. h;
      total = refl;
      kinds = omega arith;
      launched = refl;
      loaded = refl;
    }

    nmi : P (
      again,
      with_vcpu
          (reinject_nmi
            (record (run.machine.vcpu) { n_nmi_exits = u64 (run.machine.vcpu.n_nmi_exits + 1) })
            run.machine.vmcs)
          run,
    )
    nmi = reinject_nmi-Counted run.machine.vcpu run.machine.vmcs

    exception : P (on_exception run)
    exception =
        if-intro P
          (bit_and run.machine.vmcs.exit_intr_info 0x700 == 0x200
            && bit_and run.machine.vmcs.exit_intr_info 0xff == 2)
          nmi (leaves (err Errno.eio) kvm_exit_internal_error)

    io : P (on_io_instruction run)
    io =
        let (r, m) = handle_io_exit run.machine in
        continue_after-Counted run.machine.vcpu r
          (record run { machine = m; cpu = record (run.cpu) { irqs_on = false } })
          (handle_io_exit-Counted run.machine)

    ept : P (on_ept_violation run)
    ept =
        let (r, m) = handle_violation run.machine in
        continue_after-Counted run.machine.vcpu r (record run { machine = m })
          (handle_violation-Counted run.machine)
