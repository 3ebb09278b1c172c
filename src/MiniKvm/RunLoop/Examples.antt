-- ===== src/MiniKvm/RunLoop/Examples.antt =====
-- The theorems about the run loop of mini-kvm at concrete inputs.
use virtualization_learning.Base.{
  ◌≡◌, refl, true, false, some, List, [], ◌∷◌, arith, replicate, ◌==◌,
}
use virtualization_learning.MiniKvm.{ok, Vcpu, Vmcs}
use virtualization_learning.MiniKvm.Examples.{
  machine, vmcs_out, vcpu_pending, vmcs_cut_short, pending-IsEvent,
}
use virtualization_learning.MiniKvm.RunLoop.{
  Cpu, Answers, Entry, vm_fail, exited, Run, load_vcpu, is_loaded,
}
use virtualization_learning.MiniKvm.RunLoop.Step.{run_entries, run_loop}
use virtualization_learning.MiniKvm.RunLoop.Step.Balance.{Restored, run_loop-Balanced}
use virtualization_learning.MiniKvm.RunLoop.Step.Sound.{IsSound, run_entries-IsSound}
use virtualization_learning.MiniKvm.RunLoop.Step.Launch.{
  Synced, load_vcpu-Synced, run_entries-Synced,
}

-- Two CPUs in VMX operation; the thread is on CPU 1.
abbrev cpu_idle : Cpu
cpu_idle = record {
  here = 1;
  in_vmx = λ i. true;
  online = λ i. true;
  irqs_on = true;
  preempt_count = 0;
  kernel_gs_base = 0x1234;
  active = λ i. false;
  launch_state = false;
  flushed = false;
  cross_calls = [];
}

abbrev all_work : Answers
all_work = record { vmclear_fails = false; vmptrld_fails = false; invept_fails = false }

abbrev run_idle : Run
run_idle = record { machine = machine; cpu = cpu_idle; run_exit_reason = 0 }

-- The guest writes a byte to the port, with SWAPGS before, and halts.
abbrev vmcs_hlt : Vmcs
vmcs_hlt = record vmcs_out { exit_reason = 12 }

abbrev out_and_halt : List Entry
out_and_halt =
    exited (replicate 16 0x41) vmcs_out 0x6666 true
    ∷ exited (replicate 16 0x41) vmcs_hlt 0x6666 true
    ∷ []

run_loop-Balanced_example : Restored cpu_idle (run_loop all_work out_and_halt run_idle)
run_loop-Balanced_example = run_loop-Balanced all_work out_and_halt run_idle refl

-- Interrupt 0x21 is pending.
abbrev run_pending : Run
run_pending = record run_idle { machine = record machine { vcpu = vcpu_pending } }

run_entries-IsSound_example :
    IsSound
      (run_entries (exited [] vmcs_cut_short 0 true ∷ out_and_halt) run_pending).1.machine.vcpu
run_entries-IsSound_example =
    run_entries-IsSound (exited [] vmcs_cut_short 0 true ∷ out_and_halt) run_pending (omega arith)
      record { event = pending-IsEvent; counted = omega arith }

-- The vCPU was last on CPU 0.
abbrev vcpu_elsewhere : Vcpu
vcpu_elsewhere = record vcpu_pending { launched = true; loaded_cpu = some 0 }

abbrev cpu_elsewhere : Cpu
cpu_elsewhere = record cpu_idle { active = λ i. 0 == i; launch_state = true }

elsewhere-Synced : Synced vcpu_elsewhere cpu_elsewhere
unfolding is_loaded
elsewhere-Synced = record { launch = refl; active_at = λ i. refl; unloaded = λ e. absurd (cc e) }

abbrev run_elsewhere : Run
run_elsewhere = record run_idle {
  machine = record machine { vcpu = vcpu_elsewhere };
  cpu = cpu_elsewhere;
}

load_vcpu-Synced_example :
    let (r, run') = load_vcpu all_work run_elsewhere in
    Synced run'.machine.vcpu run'.cpu × (r ≡ ok tt → run'.machine.vcpu.loaded_cpu ≡ some 1)
load_vcpu-Synced_example =
    load_vcpu-Synced all_work run_elsewhere refl (λ at e ne. (refl, refl)) elsewhere-Synced

run_entries-Synced_example :
    let run' = (run_entries (vm_fail ∷ out_and_halt) run_elsewhere).1 in
    Synced run'.machine.vcpu run'.cpu
run_entries-Synced_example =
    run_entries-Synced (vm_fail ∷ out_and_halt) run_elsewhere (tt, (refl, (refl, tt)))
      (λ e. absurd (cc e)) elsewhere-Synced
