-- ===== src/MiniKvm/RunLoop.antt =====
-- phase9-capstone/practice/mini-kvm/vcpu.c: `KVM_RUN`, with `mini_vmcs_clear` of vmx.c.
--
-- The processor is a parameter: each VM entry is answered by an `Entry`, either the failure of the
-- instruction or a VM exit with all that it leaves. The host-state fields of the VMCS, the log and
-- the dumps are left out.
pub mod Step
pub mod Window
mod Examples
use virtualization_learning.Base.{
  u64, ℕ, zero, suc, ◌+◌, ◌-◌, bit_and, bit_or, Bool, true, false, not, Option, none, some, List,
  ◌∷◌, arith, ◌==◌, nonzero, if◌then◌else◌, not64,
}
use virtualization_learning.MiniKvm.{Errno, ok, err, Status, Vmcs, Vcpu, Machine}
use virtualization_learning.MiniKvm.Interrupt.{take_intr_info}
use virtualization_learning.MiniKvm.Ept.{invept}

-- The host as the thread in the run loop sees it. `active` tells on which CPUs the VMCS is active
-- and `launch_state` is the VMCS's own; `cross_calls` has, for each `smp_call_function_single`,
-- whether interrupts were on, and `flushed` whether EPT mappings were invalidated on this CPU.
pub record Cpu : Type 0 where
  pub here : ℕ
  pub in_vmx : ℕ → Bool
  pub online : ℕ → Bool
  pub irqs_on : Bool
  pub preempt_count : ℕ
  pub kernel_gs_base : ℕ
  pub active : ℕ → Bool
  pub launch_state : Bool
  pub flushed : Bool
  pub cross_calls : List Bool

-- What the instructions of the load answer: whether VMCLEAR, VMPTRLD and INVEPT fail.
pub record Answers : Type 0 where
  pub vmclear_fails : Bool
  pub vmptrld_fails : Bool
  pub invept_fails : Bool

-- A VM entry: the instruction fails, or the guest runs until a VM exit, which leaves the registers,
-- the VMCS, KERNEL_GS_BASE and the launch state.
pub data Entry : Type 0 where
  vm_fail : Entry
  exited : List ℕ → Vmcs → ℕ → Bool → Entry

-- `run_exit_reason` is `exit_reason` of the shared `struct kvm_run`.
pub record Run : Type 0 where
  pub machine : Machine
  pub cpu : Cpu
  pub run_exit_reason : ℕ

abbrev pub kvm_exit_hlt : ℕ
kvm_exit_hlt = 5

abbrev pub kvm_exit_shutdown : ℕ
kvm_exit_shutdown = 8

abbrev pub kvm_exit_internal_error : ℕ
kvm_exit_internal_error = 17

abbrev pub preempt_disable : Cpu → Cpu
preempt_disable cpu = record cpu { preempt_count = cpu.preempt_count + 1 }

abbrev pub preempt_enable : Cpu → Cpu
preempt_enable cpu = record cpu { preempt_count = cpu.preempt_count - 1 }

abbrev pub irq_enable : Cpu → Cpu
irq_enable cpu = record cpu { irqs_on = true }

abbrev pub irq_disable : Cpu → Cpu
irq_disable cpu = record cpu { irqs_on = false }

abbrev pub set_flag : (ℕ → Bool) → ℕ → Bool → ℕ → Bool
set_flag f i b j = if j == i then b else f j

-- VMCLEAR on one CPU
unfoldable pub vmclear : Answers → ℕ → Cpu → Cpu
vmclear answers at cpu =
    if answers.vmclear_fails
    then cpu
    else record cpu { active = set_flag cpu.active at false; launch_state = false }

-- `mini_vmclear_ipi`
vmclear_ipi : Answers → ℕ → Cpu → Cpu
unfolding vmclear
vmclear_ipi answers at cpu = if not (cpu.in_vmx at) then cpu else vmclear answers at cpu

-- `smp_call_function_single` to the CPU where the VMCS was loaded: not run if that is offline.
cross_call : Answers → ℕ → Cpu → Cpu
unfolding vmclear_ipi
cross_call answers at cpu =
    let cpu' = record cpu { cross_calls = cpu.irqs_on ∷ cpu.cross_calls } in
    if cpu'.online at then vmclear_ipi answers at cpu' else cpu'

unfoldable pub clear_loaded : Answers → Option ℕ → Vcpu → Cpu → Vcpu × Cpu
unfolding cross_call vmclear
clear_loaded answers none vcpu cpu = (vcpu, cpu)
clear_loaded answers (some at) vcpu cpu =
    let cpu' = preempt_disable cpu in
    (
      record vcpu { loaded_cpu = none },
      preempt_enable
          (if at == cpu'.here then vmclear answers at cpu' else cross_call answers at cpu'),
    )

-- `mini_vmcs_clear`
unfoldable pub vmcs_clear : Answers → Vcpu → Cpu → Vcpu × Cpu
unfolding clear_loaded
vmcs_clear answers vcpu cpu =
    clear_loaded answers vcpu.loaded_cpu (record vcpu { launched = false }) cpu

unfoldable pub is_loaded : Option ℕ → ℕ → Bool
is_loaded none here = false
is_loaded (some at) here = at == here

fail_with : Errno → Run → Status × Run
fail_with e run = (err e, record run { run_exit_reason = kvm_exit_internal_error })

set_flushed : Status → Cpu → Cpu
set_flushed (ok u) cpu = record cpu { flushed = true }
set_flushed (err e) cpu = record cpu { flushed = false }

pub vmptrld : Answers → Run → Status × Run
unfolding fail_with set_flushed invept
vmptrld answers run =
    if answers.vmptrld_fails
    then fail_with Errno.eio run
    else let cpu' = record (run.cpu) { active = set_flag run.cpu.active run.cpu.here true } in
      (
        ok tt,
        record run {
          cpu = set_flushed (invept (cpu'.in_vmx cpu'.here) answers.invept_fails) cpu';
          machine = record (run.machine) {
            vcpu = record (run.machine.vcpu) { loaded_cpu = some cpu'.here };
          };
        },
      )

-- What the loop does once, before its first entry: the check for VMX operation, and the move of
-- the VMCS to this CPU.
unfoldable pub load_vcpu : Answers → Run → Status × Run
unfolding is_loaded fail_with vmptrld
load_vcpu answers run =
    if not (run.cpu.in_vmx run.cpu.here)
    then fail_with Errno.eproto run
    else if is_loaded run.machine.vcpu.loaded_cpu run.cpu.here
    then (ok tt, run)
    else let cleared = vmcs_clear answers run.machine.vcpu run.cpu in
      vmptrld answers
        (record run { machine = record (run.machine) { vcpu = cleared.0 }; cpu = cleared.1 })

open_window : ℕ → Vmcs → Vmcs
open_window intr vmcs =
    if nonzero intr
    then record vmcs {
      guest_rflags = bit_or vmcs.guest_rflags 0x200;
      guest_interruptibility = bit_and vmcs.guest_interruptibility (not64 3);
    }
    else vmcs

-- The injection window: the pending event goes to the VM-entry field.
unfoldable pub prepare_entry : Machine → Machine
unfolding open_window
prepare_entry m =
    let (intr, vcpu') = take_intr_info m.vcpu in
    record m {
      vcpu = record vcpu' {
        n_injected = if nonzero intr then u64 (vcpu'.n_injected + 1) else vcpu'.n_injected;
      };
      vmcs = record (open_window intr m.vmcs) { entry_intr_info = intr };
    }

-- What the guest leaves in the CPU and in the vCPU.
run_guest : Entry → Run → Run
run_guest vm_fail run = run
run_guest (exited regs vmcs gs launch_state) run = record run {
  machine = record (run.machine) { vcpu = record (run.machine.vcpu) { regs = regs }; vmcs = vmcs };
  cpu = record (run.cpu) { kernel_gs_base = gs; launch_state = launch_state };
}

-- `mini_vmx_enter` between the reading of KERNEL_GS_BASE and its restoration.
unfoldable pub enter : Entry → Run → Run
unfolding run_guest
enter entry run =
    let gs_shadow = run.cpu.kernel_gs_base in
    let run' = run_guest entry (record run { cpu = irq_disable run.cpu }) in
    record run' { cpu = record (run'.cpu) { kernel_gs_base = gs_shadow } }
