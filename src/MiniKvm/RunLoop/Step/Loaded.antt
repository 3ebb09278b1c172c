-- ===== src/MiniKvm/RunLoop/Step/Loaded.antt =====
-- What VMCLEAR and VMPTRLD in vcpu.c of mini-kvm leave of the agreement of a vCPU with the
-- hardware.
use virtualization_learning.Base.{
  ℕ, ◌≡◌, refl, sym, ap, ◌∙◌, ◌≢◌, inl, inr, Bool, true, false, Option, none, some, arith, ◌==◌,
  Bool-cases,
}
use virtualization_learning.MiniKvm.{ok, err, Status, Vcpu}
use virtualization_learning.MiniKvm.Ept.{invept}
use virtualization_learning.MiniKvm.RunLoop.{
  Cpu, Answers, Run, preempt_disable, preempt_enable, vmcs_clear, vmptrld, clear_loaded, is_loaded,
  set_flushed, set_flag, vmclear, cross_call,
}

-- The vCPU's flags agree with the hardware: `launched`, by which `mini_vmx_enter` chooses between
-- VMLAUNCH and VMRESUME, is the launch state of the VMCS, and the VMCS is active on the CPU that
-- `loaded_cpu` names and on no other.
pub record Synced (vcpu : Vcpu) (cpu : Cpu) : Type 0 where
  pub launch : vcpu.launched ≡ cpu.launch_state
  pub active_at : (c : ℕ) → cpu.active c ≡ is_loaded vcpu.loaded_cpu c
  pub unloaded : vcpu.loaded_cpu ≡ none → cpu.launch_state ≡ false

-- The CPU that has the VMCS, if it is another one, is online and in VMX operation.
abbrev pub Reachable : Vcpu → Cpu → Type 0
Reachable vcpu cpu =
    (at : ℕ)
    → vcpu.loaded_cpu ≡ some at
    → at ≢ cpu.here
    → (cpu.online at ≡ true) × (cpu.in_vmx at ≡ true)

-- VMCLEAR took effect.
abbrev Cleared : Cpu → ℕ → Cpu → Type 0
Cleared cpu at cpu' =
    (cpu'.active ≡ set_flag cpu.active at false)
    × (cpu'.launch_state ≡ false)
    × (cpu'.here ≡ cpu.here)

vmclear-Cleared :
    (a : Answers) (at : ℕ) (cpu : Cpu) → a.vmclear_fails ≡ false → Cleared cpu at (vmclear a at cpu)
unfolding vmclear
vmclear-Cleared a at cpu h = rw (h, vmclear) (refl, refl, refl)

cross_call-Cleared :
    (a : Answers) (at : ℕ) (cpu : Cpu)
    → a.vmclear_fails ≡ false
    → cpu.online at ≡ true
    → cpu.in_vmx at ≡ true
    → Cleared cpu at (cross_call a at cpu)
unfolding cross_call
cross_call-Cleared a at cpu h on vmx = rw (on, vmx, h, cross_call) (refl, refl, refl)

none_active :
    (active : ℕ → Bool) (at : ℕ)
    → ((c : ℕ) → active c ≡ is_loaded (some at) c)
    → (c : ℕ) → set_flag active at false c ≡ false
unfolding is_loaded
none_active active at h c = ground (arith, h c)

clear_loaded-Synced :
    (a : Answers) (o : Option ℕ) (vcpu : Vcpu) (cpu : Cpu)
    → a.vmclear_fails ≡ false
    → Reachable vcpu cpu
    → Synced vcpu cpu
    → vcpu.loaded_cpu ≡ o
    → let (vcpu', cpu') = clear_loaded a o (record vcpu { launched = false }) cpu in
      Synced vcpu' cpu' × (vcpu'.loaded_cpu ≡ none) × (cpu'.here ≡ cpu.here)
unfolding clear_loaded is_loaded
clear_loaded-Synced a none vcpu cpu works reach s e = (
  record { launch = sym (s.unloaded e); active_at = s.active_at; unloaded = s.unloaded },
  e,
  refl,
)
clear_loaded-Synced a (some at) vcpu cpu works reach s e = elim (Bool-cases (at == cpu.here)) [
  | inl h ↦ rw (h, clear_loaded) (cleared (vmclear a at cpu') (vmclear-Cleared a at cpu' works))
  | inr h ↦
      let (on, vmx) = reach at e (ground (arith, h)) in
      rw (h, clear_loaded)
        (cleared (cross_call a at cpu') (cross_call-Cleared a at cpu' works on vmx))
]
  where
    cpu' : Cpu
    cpu' = preempt_disable cpu

    cleared :
        (c : Cpu)
        → Cleared cpu' at c
        → let vcpu' = record vcpu { launched = false; loaded_cpu = none } in
          Synced vcpu' (preempt_enable c) × (vcpu'.loaded_cpu ≡ none) × (c.here ≡ cpu.here)
    cleared c k = (
      record {
        launch = sym k.1;
        active_at = λ i.
            ap (λ f. f i) k.0
            ∙ none_active cpu.active at (λ j. s.active_at j ∙ ap (λ o. is_loaded o j) e) i;
        unloaded = λ u. k.1;
      },
      refl,
      k.2,
    )

pub vmcs_clear-Synced :
    (a : Answers) (vcpu : Vcpu) (cpu : Cpu)
    → a.vmclear_fails ≡ false
    → Reachable vcpu cpu
    → Synced vcpu cpu
    → let (vcpu', cpu') = vmcs_clear a vcpu cpu in
      Synced vcpu' cpu' × (vcpu'.loaded_cpu ≡ none) × (cpu'.here ≡ cpu.here)
unfolding vmcs_clear
vmcs_clear-Synced a vcpu cpu works reach s =
    clear_loaded-Synced a vcpu.loaded_cpu vcpu cpu works reach s refl

pub vmptrld-Synced :
    (a : Answers) (run : Run)
    → Synced run.machine.vcpu run.cpu
    → run.machine.vcpu.loaded_cpu ≡ none
    → let (r, run') = vmptrld a run in
      Synced run'.machine.vcpu run'.cpu
      × (r ≡ ok tt → run'.machine.vcpu.loaded_cpu ≡ some run.cpu.here)
unfolding vmptrld set_flushed is_loaded
vmptrld-Synced a run s e = elim (Bool-cases a.vmptrld_fails) [
  | inl h ↦ rw (h, vmptrld) (s, λ k. absurd (cc k))
  | inr h ↦
      rw (h, vmptrld) (flushed (invept (run.cpu.in_vmx run.cpu.here) a.invept_fails), λ k. refl)
]
  where
    at_here :
        (c : ℕ) → set_flag run.cpu.active run.cpu.here true c ≡ is_loaded (some run.cpu.here) c
    at_here c = ground (arith, s.active_at c ∙ ap (λ o. is_loaded o c) e)

    flushed :
        (r : Status)
        → Synced
            (record (run.machine.vcpu) { loaded_cpu = some run.cpu.here })
            (set_flushed r
              (record (run.cpu) { active = set_flag run.cpu.active run.cpu.here true }))
    flushed (ok u) = record {
      launch = s.launch;
      active_at = at_here;
      unloaded = λ k. absurd (cc k);
    }
    flushed (err f) = record {
      launch = s.launch;
      active_at = at_here;
      unloaded = λ k. absurd (cc k);
    }
