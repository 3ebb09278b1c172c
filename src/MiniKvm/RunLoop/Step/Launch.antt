-- ===== src/MiniKvm/RunLoop/Step/Launch.antt =====
-- What the vCPU records of its VMCS, its launch state and the CPU where it is active, is the truth.
use virtualization_learning.Base.{
  ℕ, bit_and, ◌≡◌, refl, sym, ap, ◌∙◌, ◌≢◌, inl, inr, true, false, Option, none, some, List, [],
  ◌∷◌, arith, Bool-cases, if-intro, u32,
}
use virtualization_learning.MiniKvm.{Errno, ok, err}
use virtualization_learning.MiniKvm.Interrupt.{take_intr_info, complete_intr_info}
use virtualization_learning.MiniKvm.RunLoop.{
  Answers, Entry, vm_fail, exited, Run, kvm_exit_internal_error, enter, load_vcpu, vmcs_clear,
  is_loaded, prepare_entry,
}
use virtualization_learning.MiniKvm.RunLoop.Step.{
  Next, again, leave, leave_with, is_entry_failure, note_exit, requeue, check_exit, iterate,
  and_then, run_entries,
}
use virtualization_learning.MiniKvm.RunLoop.Step.Balance.{check_exit-Kept}
use virtualization_learning.MiniKvm.RunLoop.Step.Sound.{dispatch-Counted}
pub use virtualization_learning.MiniKvm.RunLoop.Step.Loaded.{Reachable, Synced, vmcs_clear-Synced}
use virtualization_learning.MiniKvm.RunLoop.Step.Loaded.{vmptrld-Synced}

-- Loading the vCPU, from a state where its flags agree with the hardware: they agree again, with
-- every error too, and after a success the VMCS is active on this CPU. The CPU that had the VMCS
-- before is reachable, and VMCLEAR works.
pub load_vcpu-Synced :
    (answers : Answers) (run : Run)
    → answers.vmclear_fails ≡ false
    → Reachable run.machine.vcpu run.cpu
    → Synced run.machine.vcpu run.cpu
    → let (r, run') = load_vcpu answers run in
      Synced run'.machine.vcpu run'.cpu
      × (r ≡ ok tt → run'.machine.vcpu.loaded_cpu ≡ some run.cpu.here)
unfolding load_vcpu is_loaded
load_vcpu-Synced answers run works reach s = elim (Bool-cases (run.cpu.in_vmx run.cpu.here)) [
  | inr h ↦
      rw (h, load_vcpu)
        (
          record { launch = s.launch; active_at = s.active_at; unloaded = s.unloaded },
          λ k. absurd (cc k),
        )
  | inl h ↦ elim (Bool-cases (is_loaded run.machine.vcpu.loaded_cpu run.cpu.here)) [
    | inl on ↦ rw (h, on, load_vcpu) (s, λ k. loaded_here run.machine.vcpu.loaded_cpu on)
    | inr off ↦
        let (vcpu', cpu') = vmcs_clear answers run.machine.vcpu run.cpu in
        let run' = record run { machine = record (run.machine) { vcpu = vcpu' }; cpu = cpu' } in
        let (s', unloaded, here) =
          vmcs_clear-Synced answers run.machine.vcpu run.cpu works reach s in
        let (t, loaded) = vmptrld-Synced answers run' s' unloaded in
        rw (h, off, load_vcpu) (t, λ k. loaded k ∙ ap some here)
  ]
]
  where
    loaded_here : (o : Option ℕ) → is_loaded o run.cpu.here ≡ true → o ≡ some run.cpu.here
    loaded_here none k = absurd (cc k)
    loaded_here (some at) k = ap some (ground (arith, k))

check_exit-launched :
    (run : Run)
    → let run' = (check_exit run).1 in
      (run'.machine.vcpu.launched ≡ true)
      × (run'.machine.vcpu.loaded_cpu ≡ run.machine.vcpu.loaded_cpu)
unfolding check_exit complete_intr_info
check_exit-launched run =
    let d =
      dispatch-Counted (bit_and (u32 run.machine.vmcs.exit_reason) 0xffff)
        (requeue (note_exit run)) in
    if-intro {A = Next × Run}
      (λ r.
        (r.1.machine.vcpu.launched ≡ true)
        × (r.1.machine.vcpu.loaded_cpu ≡ run.machine.vcpu.loaded_cpu))
      (is_entry_failure run.machine.vmcs.exit_reason)
      {x = leave_with (err Errno.eio) kvm_exit_internal_error (note_exit run)} (refl, refl)
      (d.launched, d.loaded)

-- What an entry must be for the flags to stay right: an entry that fails as an instruction, or an
-- exit that leaves the VMCS launched.
abbrev pub Launches : Entry → Type 0
Launches vm_fail = Unit {0}
Launches (exited regs vmcs gs launch_state) = launch_state ≡ true

abbrev pub AllLaunch : List Entry → Type 0
AllLaunch [] = Unit {0}
AllLaunch (entry ∷ entries) = Launches entry × AllLaunch entries

iterate-Synced :
    (entry : Entry) (run : Run)
    → Launches entry
    → run.machine.vcpu.loaded_cpu ≢ none
    → Synced run.machine.vcpu run.cpu
    → let run' = (iterate entry run).1 in
      Synced run'.machine.vcpu run'.cpu
      × (run'.machine.vcpu.loaded_cpu ≡ run.machine.vcpu.loaded_cpu)
unfolding iterate enter prepare_entry take_intr_info
iterate-Synced vm_fail run l ne s =
    (record { launch = s.launch; active_at = s.active_at; unloaded = s.unloaded }, refl)
iterate-Synced (exited regs vmcs gs launch_state) run l ne s =
    let run1 =
      enter (exited regs vmcs gs launch_state)
        (record run { machine = prepare_entry run.machine }) in
    let (launched, loaded) = check_exit-launched run1 in
    let same = (check_exit-Kept run1).same in
    (
      record {
        launch = launched ∙ sym (ap (λ c. c.launch_state) same ∙ l);
        active_at =
            λ c. ap (λ p. p.active c) same ∙ (s.active_at c ∙ sym (ap (λ o. is_loaded o c) loaded));
        unloaded = λ u. absurd (ne (sym loaded ∙ u));
      },
      loaded,
    )

-- The flags agree with the hardware through any entries, from a state where they do and the vCPU is
-- loaded, if each entry is the failure of the instruction or an exit that leaves the VMCS launched.
pub run_entries-Synced :
    (entries : List Entry) (run : Run)
    → AllLaunch entries
    → run.machine.vcpu.loaded_cpu ≢ none
    → Synced run.machine.vcpu run.cpu
    → let run' = (run_entries entries run).1 in Synced run'.machine.vcpu run'.cpu
unfolding run_entries
run_entries-Synced [] run l ne s = s
run_entries-Synced (entry ∷ entries) run (l, ls) ne s =
    let (s', same) = iterate-Synced entry run l ne s in
    either (iterate entry run) s' _
      (run_entries-Synced entries (iterate entry run).1 ls (λ e. ne (sym same ∙ e)) s')
  where
    either :
        (r : Next × Run)
        → Synced r.1.machine.vcpu r.1.cpu
        → (rest : Next × Run) → Synced rest.1.machine.vcpu rest.1.cpu
        → let r' = (and_then r rest).1 in Synced r'.machine.vcpu r'.cpu
    either (again, run') v' rest w = w
    either (leave t, run') v' rest w = v'
