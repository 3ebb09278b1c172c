-- ===== src/MiniKvm/Lifecycle/World.antt =====
-- The file descriptors of a VM of mini-kvm, and what user space can do with them in any order.
use virtualization_learning.Base.{
  ℕ, ◌+◌, ◌≡◌, ◌≢◌, Bool, true, false, Option, none, some, List, [], ◌∷◌, ◌++◌, nonzero, length,
  if◌then◌else◌,
}
use virtualization_learning.MiniKvm.{Result, ok, err, Memslot, EptRoot, Capture, Host}
use virtualization_learning.MiniKvm.Lifecycle.{
  Vm, Region, set_memregion, VcpuAnswers, create_vcpu, vcpu_release, vm_release,
}

-- A VM with its open file descriptors: its own, and those of vCPUs, by the vCPU.
pub record World : Type 0 where
  pub vm : Vm
  pub vm_open : Bool
  pub fds : List ℕ

-- The descriptors after the creation of a vCPU.
abbrev pub opened : Option ℕ → Result ℕ → List ℕ → List ℕ
opened (some vcpu) (ok fd) fds = vcpu ∷ fds
opened none (ok fd) fds = fds
opened o (err e) fds = fds

-- What user space and the guest can do. A guest that runs changes the EPT, the capture and host
-- memory, and runs only while its vCPU is open.
pub data Step : World → World → Type 0 where
  registers :
      {w : World} (region : Option Region) (allocated : Bool) (pinned : Option (List ℕ))
      → w.vm_open ≡ true
      → Step w (record w { vm = (set_memregion region allocated pinned w.vm).1 })
  creates :
      {w : World} (id : ℕ) (answers : VcpuAnswers)
      → w.vm_open ≡ true
      → Step w (record w {
        vm = (create_vcpu id answers w.vm).1;
        fds = opened answers.object (create_vcpu id answers w.vm).0 w.fds;
      })
  runs :
      {w : World} (ept : EptRoot) (capture : Capture) (host : Host)
      → w.fds ≢ []
      → Step w (record w { vm = record (w.vm) { ept = ept; capture = capture; host = host } })
  closes_vcpu :
      {w : World} (before : List ℕ) (vcpu : ℕ) (after : List ℕ)
      → w.fds ≡ before ++ vcpu ∷ after
      → Step w (record w { vm = vcpu_release vcpu w.vm; fds = before ++ after })
  closes_vm :
      {w : World} → w.vm_open ≡ true → Step w (record w { vm = vm_release w.vm; vm_open = false })

pub data Steps : World → World → Type 0 where
  done : {w : World} → Steps w w
  step : {w w' w'' : World} → Steps w w' → Step w' w'' → Steps w w''

abbrev pub held_by : Bool → ℕ
held_by true = 1
held_by false = 0

abbrev pub vcpu_list : Option ℕ → List ℕ
vcpu_list none = []
vcpu_list (some vcpu) = vcpu ∷ []

-- The frames that the slot holds pinned.
abbrev pub held_frames : Memslot → List ℕ
held_frames slot = if slot.valid then slot.pages else []

-- Each pin was given back, or the slot still holds it.
abbrev pub IsBalanced : Vm → Type 0
IsBalanced vm = vm.pinned ≡ held_frames vm.slot ++ vm.unpinned

-- The pins are given back, and the EPT has no root and no table in its list.
abbrev pub Released : Vm → Type 0
Released vm =
    (vm.slot.valid ≡ false)
    × (vm.unpinned ≡ vm.pinned)
    × (vm.ept.tracked ≡ [])
    × (vm.ept.pml4 ≡ none)

-- What holds of a VM and its descriptors at any time.
pub record Sound (w : World) : Type 0 where
  pub refs : w.vm.refcount ≡ held_by w.vm_open + length w.fds
  pub one_vcpu : w.fds ≡ vcpu_list w.vm.vcpu
  pub live : w.vm.live ≡ nonzero w.vm.refcount
  pub objects : w.vm.vcpu_objects ≡ length w.fds
  pub run_pages : w.vm.run_pages ≡ length w.fds
  pub vmx_states : w.vm.vmx_states ≡ length w.fds
  pub pins : IsBalanced w.vm
  pub released : w.vm.live ≡ false → Released w.vm

-- A VM just created, with its descriptor open.
abbrev pub new_world : Vm → World
new_world vm = record { vm = vm; vm_open = true; fds = [] }
