-- ===== src/MiniKvm/RunLoop/Step/Balance.antt =====
-- The run loop gives the CPU back as it found it: interrupts, preemption and KERNEL_GS_BASE.
use virtualization_learning.Base.{
  ℕ, ◌+◌, ◌-◌, bit_and, ◌≡◌, refl, ap, ◌∙◌, ◌⊎◌, inl, inr, true, false, ◌&&◌, List, [], ◌∷◌, arith,
  ◌==◌, if-intro, u32,
}
use virtualization_learning.MiniKvm.{Errno, ok, err, Status, Vcpu}
use virtualization_learning.MiniKvm.RunLoop.{
  Cpu, Answers, Entry, vm_fail, exited, Run, kvm_exit_internal_error, preempt_disable, load_vcpu,
  prepare_entry, enter,
}
use virtualization_learning.MiniKvm.Device.{handle_io_exit}
use virtualization_learning.MiniKvm.Ept.{handle_violation}
use virtualization_learning.MiniKvm.RunLoop.Step.{
  Next, again, leave, leave_with, with_vcpu, exit_external_interrupt, exit_exception_nmi,
  exit_io_instruction, exit_ept_violation, exit_cpuid, exit_hlt, exit_triple_fault, continue_after,
  on_exception, on_external_interrupt, on_io_instruction, on_ept_violation, on_cpuid, on_hlt,
  dispatch, is_entry_failure, note_exit, requeue, check_exit, iterate, and_then, run_entries,
  finish, enter_loop, run_loop,
}
use virtualization_learning.MiniKvm.RunLoop.Step.Preserved.{SameFlags, load_vcpu-SameFlags}

-- What handling an exit does to the CPU: only the interrupt flag changes, which is on at a return.
pub record Kept (run : Run) (r : Next × Run) : Type 0 where
  pub same : r.1.cpu ≡ record (run.cpu) { irqs_on = r.1.cpu.irqs_on }
  pub on : (r.0 ≡ again) ⊎ (r.1.cpu.irqs_on ≡ true)

continue_after-Kept : (s : Status) (run : Run) → Kept run (continue_after s run)
unfolding continue_after
continue_after-Kept (ok u) run = record { same = refl; on = inl refl }
continue_after-Kept (err e) run = record { same = refl; on = inr refl }

on_io_instruction-Kept : (run : Run) → Kept run (on_io_instruction run)
unfolding on_io_instruction
on_io_instruction-Kept run =
    let (r, m) = handle_io_exit run.machine in
    let k =
      continue_after-Kept r
        (record run { machine = m; cpu = record (run.cpu) { irqs_on = false } }) in
    record { same = k.same; on = k.on }

on_ept_violation-Kept : (run : Run) → Kept run (on_ept_violation run)
unfolding on_ept_violation
on_ept_violation-Kept run =
    let (r, m) = handle_violation run.machine in
    let k = continue_after-Kept r (record run { machine = m }) in
    record { same = k.same; on = k.on }

on_exception-Kept : (run : Run) → Kept run (on_exception run)
unfolding on_exception
on_exception-Kept run =
    if-intro (Kept run)
      (bit_and run.machine.vmcs.exit_intr_info 0x700 == 0x200
        && bit_and run.machine.vmcs.exit_intr_info 0xff == 2)
      nmi leaves
  where
    nmi : {vcpu : Vcpu} → Kept run (again, with_vcpu vcpu run)
    nmi = record { same = refl; on = inl refl }

    leaves : {s : Status} {e : ℕ} → Kept run (leave_with s e run)
    leaves = record { same = refl; on = inr refl }

pub dispatch-Kept : (reason : ℕ) (run : Run) → Kept run (dispatch reason run)
unfolding dispatch
dispatch-Kept reason run = if-intro (Kept run) (reason == exit_external_interrupt) external (
    if-intro (Kept run) (reason == exit_exception_nmi) (on_exception-Kept run) (
      if-intro (Kept run) (reason == exit_io_instruction) (on_io_instruction-Kept run) (
        if-intro (Kept run) (reason == exit_ept_violation) (on_ept_violation-Kept run) (
          if-intro (Kept run) (reason == exit_cpuid) cpuid (
            if-intro (Kept run) (reason == exit_hlt) hlt
              (if-intro (Kept run) (reason == exit_triple_fault) leaves leaves))))))
  where
    external : Kept run (on_external_interrupt run)
    external = record { same = refl; on = inl refl }

    cpuid : Kept run (on_cpuid run)
    cpuid = record { same = refl; on = inl refl }

    hlt : Kept run (on_hlt run)
    hlt = record { same = refl; on = inr refl }

    leaves : {s : Status} {e : ℕ} → Kept run (leave_with s e run)
    leaves = record { same = refl; on = inr refl }

-- What an iteration, or the whole loop, leaves of the CPU.
pub record Balanced (run : Run) (r : Next × Run) : Type 0 where
  pub preempt : r.1.cpu.preempt_count ≡ run.cpu.preempt_count
  pub gs : r.1.cpu.kernel_gs_base ≡ run.cpu.kernel_gs_base
  pub on : (r.0 ≡ again) ⊎ (r.1.cpu.irqs_on ≡ true)

Kept→Balanced :
    {run run' : Run} {r : Next × Run}
    → run'.cpu.preempt_count ≡ run.cpu.preempt_count
    → run'.cpu.kernel_gs_base ≡ run.cpu.kernel_gs_base
    → Kept run' r
    → Balanced run r
Kept→Balanced p g k = record {
  preempt = ap (λ c. c.preempt_count) k.same ∙ p;
  gs = ap (λ c. c.kernel_gs_base) k.same ∙ g;
  on = k.on;
}

pub check_exit-Kept : (run : Run) → Kept run (check_exit run)
unfolding check_exit
check_exit-Kept run =
    let k =
      dispatch-Kept (bit_and (u32 run.machine.vmcs.exit_reason) 0xffff) (requeue (note_exit run)) in
    if-intro (Kept run) (is_entry_failure run.machine.vmcs.exit_reason)
      {x = leave_with (err Errno.eio) kvm_exit_internal_error (note_exit run)}
      record { same = refl; on = inr refl } record { same = k.same; on = k.on }

iterate-Balanced : (entry : Entry) (run : Run) → Balanced run (iterate entry run)
unfolding iterate enter
iterate-Balanced vm_fail run = record { preempt = refl; gs = refl; on = inr refl }
iterate-Balanced (exited regs vmcs gs launch_state) run = Kept→Balanced refl refl (
    check_exit-Kept (
      enter (exited regs vmcs gs launch_state)
        (record run { machine = prepare_entry run.machine })))

run_entries-Balanced : (entries : List Entry) (run : Run) → Balanced run (run_entries entries run)
unfolding run_entries
run_entries-Balanced [] run = record { preempt = refl; gs = refl; on = inl refl }
run_entries-Balanced (entry ∷ entries) run =
    let rest = run_entries-Balanced entries (iterate entry run).1 in
    both (iterate entry run) (iterate-Balanced entry run) _ rest
  where
    both :
        (r : Next × Run)
        → Balanced run r
        → (rest : Next × Run) → Balanced r.1 rest
        → Balanced run (and_then r rest)
    both (again, run') b rest c = record {
      preempt = c.preempt ∙ b.preempt;
      gs = c.gs ∙ b.gs;
      on = c.on;
    }
    both (leave s, run') b rest c = b

-- The CPU after a run of the loop that started on the first one.
abbrev pub Restored : Cpu → Next × Run → Type 0
Restored cpu (next, run') =
    (run'.cpu.kernel_gs_base ≡ cpu.kernel_gs_base)
    × (((next ≡ again) × (run'.cpu.preempt_count ≡ cpu.preempt_count + 1))
        ⊎ ((s : Status) × (next ≡ leave s)
            × (run'.cpu.preempt_count ≡ cpu.preempt_count)
            × (run'.cpu.irqs_on ≡ true)))

-- What a run of the loop through any entries leaves of the CPU: the preemption count is back when
-- the loop has returned and one higher while the guest runs on; KERNEL_GS_BASE is the host's,
-- whatever the guest left in it; and at a return interrupts are on, if they were on at the call.
pub run_loop-Balanced :
    (answers : Answers) (entries : List Entry) (run : Run)
    → run.cpu.irqs_on ≡ true
    → Restored run.cpu (run_loop answers entries run)
unfolding run_loop
run_loop-Balanced answers entries run irqs = entered (load_vcpu answers start) loaded
  where
    start : Run
    start = record run { run_exit_reason = 0; cpu = preempt_disable run.cpu }

    loaded : SameFlags start.cpu (load_vcpu answers start).1.cpu
    loaded = load_vcpu-SameFlags answers start

    back : {n : ℕ} → n ≡ run.cpu.preempt_count + 1 → n - 1 ≡ run.cpu.preempt_count
    back e = omega (arith, e)

    finished :
        {run1 : Run} (r : Next × Run)
        → SameFlags start.cpu run1.cpu
        → Balanced run1 r
        → Restored run.cpu (finish r)
    finished (again, run') f b = (b.gs ∙ f.1, inl (refl, b.preempt ∙ f.0))
    finished (leave s, run') f b = (
      b.gs ∙ f.1,
      inr (s, refl, back (b.preempt ∙ f.0), elim b.on [ inl e ↦ absurd (cc e) | inr e ↦ e ]),
    )

    entered :
        (r : Status × Run) → SameFlags start.cpu r.1.cpu → Restored run.cpu (enter_loop r entries)
    entered (ok u, run1) f =
        finished (run_entries entries run1) f (run_entries-Balanced entries run1)
    entered (err e, run1) f = (f.1, inr (err e, refl, back f.0, f.2 ∙ irqs))
