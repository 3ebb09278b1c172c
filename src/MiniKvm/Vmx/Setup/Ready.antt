-- ===== src/MiniKvm/Vmx/Setup/Ready.antt =====
-- What the setup and the teardown of a VMCS leave behind.
use virtualization_learning.Base.{
  ℕ, ◌-◌, ◌^◌, ◌≡◌, refl, sym, ap, ◌∙◌, subst, inl, inr, true, false, Option, none, some, List, ◌∷◌,
  arith, ◌==◌, Bool-cases, if-intro,
}
use virtualization_learning.MiniKvm.{Errno, Result, ok, err, Status}
use virtualization_learning.MiniKvm.RunLoop.{Cpu, Answers, vmclear, set_flag, is_loaded}
use virtualization_learning.MiniKvm.RunLoop.Step.Launch.{Synced, Reachable, vmcs_clear-Synced}
use virtualization_learning.MiniKvm.Vmx.{Controls, compute_controls}
use virtualization_learning.MiniKvm.Vmx.Negotiation.{
  AreCapabilities, AreNegotiated, Outcome, compute_controls-Outcome,
}
use virtualization_learning.MiniKvm.Vmx.GuestState.{IsEnterable, set_guest_state-IsEnterable}
use virtualization_learning.MiniKvm.Vmx.Setup.{
  VmcsArea, VmxVcpu, Given, SetupAnswers, vmwrites, unload, free_vmcs, with_controls, loaded,
  with_page, vcpu_vmx_setup, teardown_page, vcpu_vmx_teardown,
}

-- The VMCS is active on no CPU and the vCPU says so.
pub record IsUnloaded (s : VmxVcpu) : Type 0 where
  pub synced : Synced s.vcpu s.cpu
  pub nowhere : s.vcpu.loaded_cpu ≡ none

-- A VMCS that was set up.
pub record IsFilled (given : Given) (area : VmcsArea) : Type 0 where
  pub controls : AreNegotiated given.env.rdmsr given.true_ctls area.controls
  pub guest : IsEnterable area.guest
  pub link : area.link_pointer ≡ 2 ^ 64 - 1
  pub eptp : area.ept_pointer ≡ given.eptp

-- The outcomes of a setup: the page is kept with the VMCS in it, or no page is kept and the one
-- that was allocated is given back.
abbrev pub SetupOutcome : Given → Option ℕ → List ℕ → Status → VmxVcpu → Type 0
SetupOutcome given page freed (ok u) s =
    (s.vmcs_page ≡ page)
    × (s.revision ≡ given.vmcs_revision_id)
    × (s.freed ≡ freed)
    × IsFilled given s.area
SetupOutcome given none freed (err e) s = (s.vmcs_page ≡ none) × (s.freed ≡ freed)
SetupOutcome given (some page) freed (err e) s = (s.vmcs_page ≡ none) × (s.freed ≡ page ∷ freed)

-- One step of the setup at a time.
unload-IsUnloaded :
    (a : Answers) (s : VmxVcpu)
    → a.vmclear_fails ≡ false
    → Synced s.vcpu s.cpu
    → Reachable s.vcpu s.cpu
    → IsUnloaded (unload a s)
unfolding unload
unload-IsUnloaded a s works sync reach =
    let (sync', nowhere', h) = vmcs_clear-Synced a s.vcpu s.cpu works reach sync in
    record { synced = sync'; nowhere = nowhere' }

loaded-Synced :
    (s : VmxVcpu) → IsUnloaded s → Synced (loaded s.cpu.here s).vcpu (loaded s.cpu.here s).cpu
unfolding loaded is_loaded
loaded-Synced s u = record {
  launch = u.synced.launch;
  active_at = λ c. ground (arith, u.synced.active_at c ∙ ap (λ o. is_loaded o c) u.nowhere);
  unloaded = λ k. absurd (cc k);
}

pub vmclear-here : (a : Answers) (at : ℕ) (cpu : Cpu) → (vmclear a at cpu).here ≡ cpu.here
unfolding vmclear
vmclear-here a at cpu =
    if-intro (λ c. c.here ≡ cpu.here) a.vmclear_fails {x = cpu}
      {y = record cpu { active = set_flag cpu.active at false; launch_state = false }} refl refl

pub first_clear :
    (a : Answers) (s : VmxVcpu)
    → IsUnloaded s
    → IsUnloaded (record s { cpu = vmclear a s.cpu.here s.cpu })
unfolding vmclear is_loaded
first_clear a s u = elim (Bool-cases a.vmclear_fails) [
  | inl h ↦ rw h u
  | inr h ↦ rw h record {
    synced = record {
      launch = u.synced.launch ∙ u.synced.unloaded u.nowhere;
      active_at = λ c. ground (arith, u.synced.active_at c ∙ ap (λ o. is_loaded o c) u.nowhere);
      unloaded = λ k. refl;
    };
    nowhere = u.nowhere;
  }
]

-- From VMPTRLD on, where the thread stays on its CPU.
with_controls-Outcome :
    (given : Given) (a : Answers) (page : ℕ) (r : Result Controls) (s : VmxVcpu)
    → a.vmclear_fails ≡ false
    → Outcome given.env.rdmsr given.true_ctls r
    → IsUnloaded s
    → s.vmcs_page ≡ some page
    → s.revision ≡ given.vmcs_revision_id
    → let (status, s') = with_controls given a page r (loaded s.cpu.here s) in
      IsUnloaded s' × SetupOutcome given (some page) s.freed status s'
unfolding with_controls free_vmcs vmwrites loaded unload
with_controls-Outcome given a page (err e) s works o u held rev =
    let u' =
      unload-IsUnloaded a (loaded s.cpu.here s) works (loaded-Synced s u)
        (λ at p n. absurd (n (here_eq s at p))) in
    (record { synced = u'.synced; nowhere = u'.nowhere }, (refl, refl))
  where
    here_eq : (s : VmxVcpu) (at : ℕ) → some s.cpu.here ≡ some at → at ≡ s.cpu.here
    here_eq s at p = cc p
with_controls-Outcome given a page (ok c) s works o u held rev =
    let u' =
      unload-IsUnloaded a (loaded s.cpu.here s) works (loaded-Synced s u)
        (λ at p n. absurd (n (here_eq s at p))) in
    rw (self s.cpu.here) (
      record { synced = u'.synced; nowhere = u'.nowhere },
      (
        held,
        rev,
        refl,
        record {
          controls = o;
          guest = set_guest_state-IsEnterable s.area.guest;
          link = refl;
          eptp = refl;
        },
      ),
    )
  where
    here_eq : (s : VmxVcpu) (at : ℕ) → some s.cpu.here ≡ some at → at ≡ s.cpu.here
    here_eq s at p = cc p

    self : (i : ℕ) → (i == i) ≡ true
    self i = ground arith

-- A setup during which the thread stays on its CPU and the unloading VMCLEAR works, on a
-- processor each of whose five capability MSRs for the controls lets a bit that must be one be
-- one, for a new vCPU whose VMCS is active nowhere: it succeeds with a VMCS page whose controls
-- were negotiated, whose guest state passes the checks of VM entry, whose link pointer is all
-- ones and whose EPTP is the VM's; or it fails with no VMCS page kept, and the page that it
-- allocated given back once. In both cases the VMCS is active on no CPU, and the vCPU's flags say
-- so.
pub vcpu_vmx_setup-Outcome :
    (given : Given) (a : SetupAnswers) (s : VmxVcpu)
    → AreCapabilities given.env.rdmsr given.true_ctls
    → a.moved_to ≡ s.cpu.here
    → a.unload.vmclear_fails ≡ false
    → IsUnloaded s
    → s.vmcs_page ≡ none
    → let (status, s') = vcpu_vmx_setup given a s in
      IsUnloaded s' × SetupOutcome given a.page s.freed status s'
unfolding vcpu_vmx_setup with_page free_vmcs
vcpu_vmx_setup-Outcome given a s capable stays works u empty = by_page a.page
  where
    P : ℕ → Status × VmxVcpu → Type 0
    P page r = IsUnloaded r.1 × SetupOutcome given (some page) s.freed r.0 r.1

    negotiated : Result Controls
    negotiated = compute_controls given.env.rdmsr given.true_ctls

    started : ℕ → VmxVcpu
    started page = record s {
      vmcs_page = some page;
      revision = given.vmcs_revision_id;
      cpu = vmclear a.first s.cpu.here s.cpu;
    }

    clear : (page : ℕ) → IsUnloaded (started page)
    clear page =
        first_clear a.first (record s { vmcs_page = some page; revision = given.vmcs_revision_id })
          record { synced = u.synced; nowhere = u.nowhere }

    failed : (page : ℕ) → P page (err Errno.eio, free_vmcs page (started page))
    failed page =
        (record { synced = (clear page).synced; nowhere = (clear page).nowhere }, (refl, refl))

    by_page :
        (page : Option ℕ)
        → let (status, s') = with_page given a page s in
          IsUnloaded s' × SetupOutcome given page s.freed status s'
    by_page none = (u, (empty, refl))
    by_page (some page) = if-intro (P page) a.first.vmclear_fails (failed page) (
        if-intro (P page) a.first.vmptrld_fails (failed page) (
          subst
            (λ at. P page (with_controls given a.unload page negotiated (loaded at (started page))))
            (sym (stays ∙ sym (vmclear-here a.first s.cpu.here s.cpu)))
            (with_controls-Outcome given a.unload page negotiated (started page) works
              (compute_controls-Outcome given.env.rdmsr given.true_ctls capable) (clear page) refl
              refl)))

-- The teardown gives the page back once, and leaves nothing to a second teardown: from a vCPU
-- whose VMCS is where its flags say, on a CPU that the VMCLEAR can reach, the VMCS is then active
-- nowhere.
pub vcpu_vmx_teardown-IsUnloaded :
    (a : Answers) (s : VmxVcpu) (page : ℕ)
    → a.vmclear_fails ≡ false
    → Synced s.vcpu s.cpu
    → Reachable s.vcpu s.cpu
    → s.vmcs_page ≡ some page
    → let s' = vcpu_vmx_teardown a s in
      IsUnloaded s'
      × (s'.vmcs_page ≡ none)
      × (s'.freed ≡ page ∷ s.freed)
      × (vcpu_vmx_teardown a s' ≡ s')
unfolding vcpu_vmx_teardown teardown_page free_vmcs unload
vcpu_vmx_teardown-IsUnloaded a s page works sync reach held =
    let u = unload-IsUnloaded a s works sync reach in
    rw held (record { synced = u.synced; nowhere = u.nowhere }, refl, refl, refl)
