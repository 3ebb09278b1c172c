-- ===== src/MiniKvm/RunLoop/Step.antt =====
-- phase9-capstone/practice/mini-kvm/vcpu.c: what the run loop does with an exit, and the loop.
pub mod Preserved
pub mod Balance
pub mod Counted
pub mod Sound
pub mod Loaded
pub mod Launch
use virtualization_learning.Base.{
  ℕ, zero, suc, ◌+◌, bit_and, Bool, true, ◌&&◌, List, [], ◌∷◌, arith, ◌==◌, nonzero, if◌then◌else◌,
  set, u32, u64,
}
use virtualization_learning.MiniKvm.{Errno, ok, err, Status, Vcpu, Machine}
use virtualization_learning.MiniKvm.Interrupt.{complete_intr_info, reinject_nmi}
use virtualization_learning.MiniKvm.Device.{handle_io_exit}
use virtualization_learning.MiniKvm.Ept.{handle_violation}
use virtualization_learning.MiniKvm.RunLoop.{
  Cpu, Answers, Entry, vm_fail, exited, Run, kvm_exit_hlt, kvm_exit_shutdown,
  kvm_exit_internal_error, preempt_disable, preempt_enable, irq_enable, irq_disable, load_vcpu,
  prepare_entry, enter,
}

-- What an iteration ends in: the next iteration, or a return of the function.
pub data Next : Type 0 where
  again : Next
  leave : Status → Next

-- `EXIT_REASON_*`
abbrev pub exit_exception_nmi : ℕ
exit_exception_nmi = 0

abbrev pub exit_external_interrupt : ℕ
exit_external_interrupt = 1

abbrev pub exit_triple_fault : ℕ
exit_triple_fault = 2

abbrev pub exit_cpuid : ℕ
exit_cpuid = 10

abbrev pub exit_hlt : ℕ
exit_hlt = 12

abbrev pub exit_io_instruction : ℕ
exit_io_instruction = 30

abbrev pub exit_ept_violation : ℕ
exit_ept_violation = 48

with_machine : Machine → Run → Run
with_machine m run = record run { machine = m }

with_vcpu : Vcpu → Run → Run
with_vcpu vcpu run = record run { machine = record (run.machine) { vcpu = vcpu } }

with_cpu : Cpu → Run → Run
with_cpu cpu run = record run { cpu = cpu }

-- The return to user space, with interrupts on.
leave_with : Status → ℕ → Run → Next × Run
leave_with r exit_reason run =
    (leave r, record run { run_exit_reason = exit_reason; cpu = irq_enable run.cpu })

-- The end of an exit that a handler took over: on with the guest, or its error to user space.
continue_after : Status → Run → Next × Run
unfolding leave_with
continue_after (ok u) run = (again, run)
continue_after (err e) run = leave_with (err e) kvm_exit_internal_error run

on_exception : Run → Next × Run
unfolding with_vcpu leave_with
on_exception run =
    let info = run.machine.vmcs.exit_intr_info in
    let vcpu = run.machine.vcpu in
    if bit_and info 0x700 == 0x200 && bit_and info 0xff == 2
    then (
      again,
      with_vcpu
          (reinject_nmi (record vcpu { n_nmi_exits = u64 (vcpu.n_nmi_exits + 1) }) run.machine.vmcs)
          run,
    )
    else leave_with (err Errno.eio) kvm_exit_internal_error run

on_external_interrupt : Run → Next × Run
unfolding with_vcpu with_cpu
on_external_interrupt run =
    let run1 = with_cpu (irq_enable run.cpu) run in
    let vcpu = run1.machine.vcpu in
    let run2 = with_vcpu (record vcpu { n_extint_exits = u64 (vcpu.n_extint_exits + 1) }) run1 in
    (again, with_cpu (irq_disable run2.cpu) run2)

on_io_instruction : Run → Next × Run
unfolding with_machine with_cpu continue_after
on_io_instruction run =
    let run1 = with_cpu (irq_enable run.cpu) run in
    let (r, m) = handle_io_exit run1.machine in
    let run2 = with_machine m run1 in continue_after r (with_cpu (irq_disable run2.cpu) run2)

on_ept_violation : Run → Next × Run
unfolding with_machine continue_after
on_ept_violation run =
    let (r, m) = handle_violation run.machine in continue_after r (with_machine m run)

on_cpuid : Run → Next × Run
on_cpuid run =
    let m = run.machine in
    (
      again,
      record run {
        machine = record m {
          vcpu = record (m.vcpu) { regs = set m.vcpu.regs 0 0 };
          vmcs = record (m.vmcs) {
            guest_rip = u64 (m.vmcs.guest_rip + m.vmcs.exit_instruction_len);
          };
        };
      },
    )

on_hlt : Run → Next × Run
unfolding with_vcpu leave_with
on_hlt run =
    let vcpu = run.machine.vcpu in
    leave_with (ok tt) kvm_exit_hlt
      (with_vcpu (record vcpu { n_hlt_exits = u64 (vcpu.n_hlt_exits + 1) }) run)

-- The switch on the basic exit reason
unfoldable pub dispatch : ℕ → Run → Next × Run
unfolding on_exception on_external_interrupt on_io_instruction on_ept_violation on_cpuid on_hlt
    leave_with
dispatch reason run =
    if reason == exit_external_interrupt
    then on_external_interrupt run
    else if reason == exit_exception_nmi
    then on_exception run
    else if reason == exit_io_instruction
    then on_io_instruction run
    else if reason == exit_ept_violation
    then on_ept_violation run
    else if reason == exit_cpuid
    then on_cpuid run
    else if reason == exit_hlt
    then on_hlt run
    else if reason == exit_triple_fault
    then leave_with (ok tt) kvm_exit_shutdown run
    else leave_with (err Errno.eio) kvm_exit_internal_error run

-- Bit 31 of the exit reason: the VM entry failed.
abbrev pub is_entry_failure : ℕ → Bool
is_entry_failure reason64 = nonzero (bit_and reason64 0x80000000)

-- An exit is counted, before it is looked at.
pub note_exit : Run → Run
unfolding with_vcpu
note_exit run =
    let vcpu = run.machine.vcpu in
    with_vcpu (record vcpu { launched = true; n_exits = u64 (vcpu.n_exits + 1) }) run

pub requeue : Run → Run
unfolding with_vcpu
requeue run = with_vcpu (complete_intr_info run.machine.vcpu run.machine.vmcs) run

-- What follows a VM exit
pub check_exit : Run → Next × Run
unfolding leave_with note_exit requeue
check_exit run =
    let run1 = note_exit run in
    let reason64 = run1.machine.vmcs.exit_reason in
    if is_entry_failure reason64
    then leave_with (err Errno.eio) kvm_exit_internal_error run1
    else dispatch (bit_and (u32 reason64) 0xffff) (requeue run1)

-- What follows the return of `mini_vmx_enter`.
after_entry : Entry → Run → Next × Run
unfolding leave_with check_exit
after_entry vm_fail run = leave_with (err Errno.eio) kvm_exit_internal_error run
after_entry (exited regs vmcs gs launch_state) run = check_exit run

-- The body of the loop
unfoldable pub iterate : Entry → Run → Next × Run
unfolding after_entry
iterate entry run =
    after_entry entry (enter entry (record run { machine = prepare_entry run.machine }))

-- The rest of the loop, if the iteration ends in another.
abbrev pub and_then : Next × Run → (Next × Run) → Next × Run
and_then (again, run) rest = rest
and_then (leave r, run) rest = (leave r, run)

-- The loop through these entries. After the last of them the guest runs on.
unfoldable pub run_entries : List Entry → Run → Next × Run
run_entries [] run = (again, run)
run_entries (entry ∷ entries) run =
    let first = iterate entry run in let rest = run_entries entries first.1 in and_then first rest

-- `out:`
finish : Next × Run → Next × Run
unfolding with_cpu
finish (again, run) = (again, run)
finish (leave r, run) = (leave r, with_cpu (preempt_enable run.cpu) run)

enter_loop : Status × Run → List Entry → Next × Run
unfolding run_entries finish
enter_loop (err e, run) entries = finish (leave (err e), run)
enter_loop (ok u, run) entries = finish (run_entries entries run)

-- `mini_vcpu_run_loop`
unfoldable pub run_loop : Answers → List Entry → Run → Next × Run
unfolding enter_loop with_cpu
run_loop answers entries run =
    let run' = record run { run_exit_reason = 0; cpu = preempt_disable run.cpu } in
    enter_loop (load_vcpu answers run') entries
