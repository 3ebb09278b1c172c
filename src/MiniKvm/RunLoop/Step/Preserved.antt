-- ===== src/MiniKvm/RunLoop/Step/Preserved.antt =====
-- The flags of the CPU over the loading of a vCPU in vcpu.c of mini-kvm.
use virtualization_learning.Base.{
  ℕ, ◌≡◌, refl, ◌∙◌, true, false, not, Option, none, some, ◌∷◌, arith, ◌==◌, if-intro,
}
use virtualization_learning.MiniKvm.{Errno, ok, err, Status, Vcpu}
use virtualization_learning.MiniKvm.RunLoop.{
  Cpu, Answers, Run, preempt_disable, preempt_enable, load_vcpu, vmcs_clear, vmptrld, clear_loaded,
  fail_with, is_loaded, set_flushed, set_flag, vmclear, cross_call,
}
use virtualization_learning.MiniKvm.Ept.{invept}

-- A change of the CPU that leaves its preemption count, GS base and interrupt flag.
abbrev pub SameFlags : Cpu → Cpu → Type 0
SameFlags cpu cpu' =
    (cpu'.preempt_count ≡ cpu.preempt_count)
    × (cpu'.kernel_gs_base ≡ cpu.kernel_gs_base)
    × (cpu'.irqs_on ≡ cpu.irqs_on)

SameFlags-refl : (cpu : Cpu) → SameFlags cpu cpu
SameFlags-refl cpu = (refl, refl, refl)

vmclear-SameFlags : (a : Answers) (at : ℕ) (cpu : Cpu) → SameFlags cpu (vmclear a at cpu)
unfolding vmclear
vmclear-SameFlags a at cpu =
    if-intro (SameFlags cpu) a.vmclear_fails (SameFlags-refl cpu) (refl, refl, refl)

cross_call-SameFlags : (a : Answers) (at : ℕ) (cpu : Cpu) → SameFlags cpu (cross_call a at cpu)
unfolding cross_call
cross_call-SameFlags a at cpu =
    let cpu' = record cpu { cross_calls = cpu.irqs_on ∷ cpu.cross_calls } in
    if-intro (SameFlags cpu) (cpu.online at)
      (if-intro (SameFlags cpu) (not (cpu.in_vmx at)) (refl, refl, refl)
        (vmclear-SameFlags a at cpu'))
      (refl, refl, refl)

clear_loaded-SameFlags :
    (a : Answers) (o : Option ℕ) (vcpu : Vcpu) (cpu : Cpu)
    → SameFlags cpu (clear_loaded a o vcpu cpu).1
unfolding clear_loaded
clear_loaded-SameFlags a none vcpu cpu = SameFlags-refl cpu
clear_loaded-SameFlags a (some at) vcpu cpu =
    let cpu' = preempt_disable cpu in
    let P : Cpu → Type 0 = λ c. SameFlags cpu (preempt_enable c) in
    let back : (c : Cpu) → SameFlags cpu' c → P c = λ c h. (omega (arith, h.0), h.1, h.2) in
    if-intro P (at == cpu.here) (back (vmclear a at cpu') (vmclear-SameFlags a at cpu'))
      (back (cross_call a at cpu') (cross_call-SameFlags a at cpu'))

set_flushed-SameFlags : (s : Status) (cpu : Cpu) → SameFlags cpu (set_flushed s cpu)
unfolding set_flushed
set_flushed-SameFlags (ok u) cpu = (refl, refl, refl)
set_flushed-SameFlags (err e) cpu = (refl, refl, refl)

vmptrld-SameFlags : (a : Answers) (run : Run) → SameFlags run.cpu (vmptrld a run).1.cpu
unfolding vmptrld
vmptrld-SameFlags a run =
    let cpu' = record (run.cpu) { active = set_flag run.cpu.active run.cpu.here true } in
    let flush = invept (run.cpu.in_vmx run.cpu.here) a.invept_fails in
    let loaded = record run {
      cpu = set_flushed flush cpu';
      machine = record (run.machine) {
        vcpu = record (run.machine.vcpu) { loaded_cpu = some run.cpu.here };
      };
    } in
    if-intro (λ r. SameFlags run.cpu r.1.cpu) a.vmptrld_fails {x = fail_with Errno.eio run}
      {y = (ok tt, loaded)} (SameFlags-refl run.cpu) (set_flushed-SameFlags flush cpu')

pub load_vcpu-SameFlags : (a : Answers) (run : Run) → SameFlags run.cpu (load_vcpu a run).1.cpu
unfolding load_vcpu vmptrld vmcs_clear
load_vcpu-SameFlags a run =
    let P : Status × Run → Type 0 = λ r. SameFlags run.cpu r.1.cpu in
    let cleared =
      clear_loaded-SameFlags a run.machine.vcpu.loaded_cpu
        (record (run.machine.vcpu) { launched = false }) run.cpu in
    let clear = vmcs_clear a run.machine.vcpu run.cpu in
    let run' = record run { machine = record (run.machine) { vcpu = clear.0 }; cpu = clear.1 } in
    if-intro P (not (run.cpu.in_vmx run.cpu.here)) (SameFlags-refl run.cpu) (
      if-intro P (is_loaded run.machine.vcpu.loaded_cpu run.cpu.here) {x = (ok tt, run)}
        (SameFlags-refl run.cpu)
        (moved clear.1 (vmptrld a run') (vmptrld-SameFlags a run') cleared))
  where
    moved :
        (cpu : Cpu) (r : Status × Run)
        → SameFlags cpu r.1.cpu
        → SameFlags run.cpu cpu
        → SameFlags run.cpu r.1.cpu
    moved cpu r f c = (f.0 ∙ c.0, f.1 ∙ c.1, f.2 ∙ c.2)
