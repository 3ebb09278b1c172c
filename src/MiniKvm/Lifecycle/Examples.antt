-- ===== src/MiniKvm/Lifecycle/Examples.antt =====
-- The theorems about the life of a VM of mini-kvm, and its ioctls, at concrete inputs.
use virtualization_learning.Base.{refl, true, false, some, [], ◌∷◌, arith}
use virtualization_learning.MiniKvm.{ok}
use virtualization_learning.MiniKvm.Examples.{host_fresh}
use virtualization_learning.MiniKvm.Lifecycle.{
  Vm, Region, VcpuAnswers, new_vm, set_memregion, check_region, create_vcpu, vcpu_release,
  vm_release,
}
use virtualization_learning.MiniKvm.Lifecycle.References.{Created, create_vcpu-Created}
use virtualization_learning.MiniKvm.Lifecycle.World.{World, Step, Steps, Sound, new_world}
use virtualization_learning.MiniKvm.Lifecycle.Release.{Steps-Sound, new_world-Sound}

abbrev vm_fresh : Vm
vm_fresh = record (new_vm host_fresh) { ept = record { pml4 = some 6; eptp = 24606; tracked = [] } }

-- Two pages at guest address 0x100000
abbrev region_small : Region
region_small = record {
  slot_id = 0;
  flags = 0;
  guest_phys_addr = 0x100000;
  memory_size = 0x2000;
  user_addr = 0x7000000;
}

abbrev vcpu_granted : VcpuAnswers
vcpu_granted = record { object = some 7; run_page = true; setup = ok tt; fd = ok 4 }

create_vcpu-Created_example : Created vcpu_granted vm_fresh (create_vcpu 0 vcpu_granted vm_fresh)
create_vcpu-Created_example = create_vcpu-Created 0 vcpu_granted vm_fresh (omega arith)

-- Memory and a vCPU; the descriptor of the VM is closed first, and that of the vCPU last.
abbrev vm_registered : Vm
vm_registered = (set_memregion (some region_small) true (some (50 ∷ 51 ∷ [])) vm_fresh).1

abbrev vm_running : Vm
vm_running = (create_vcpu 0 vcpu_granted vm_registered).1

abbrev world_registered : World
world_registered = record { vm = vm_registered; vm_open = true; fds = [] }

abbrev world_running : World
world_running = record { vm = vm_running; vm_open = true; fds = 7 ∷ [] }

abbrev world_orphan : World
world_orphan = record { vm = vm_release vm_running; vm_open = false; fds = 7 ∷ [] }

abbrev world_closed : World
world_closed = record { vm = vcpu_release 7 (vm_release vm_running); vm_open = false; fds = [] }

registered : Step (new_world vm_fresh) world_registered
registered = Step.registers (some region_small) true (some (50 ∷ 51 ∷ [])) refl

running : Step world_registered world_running
unfolding set_memregion check_region create_vcpu
running = Step.creates 0 vcpu_granted refl

orphan : Step world_running world_orphan
orphan = Step.closes_vm refl

closed : Step world_orphan world_closed
closed = Step.closes_vcpu [] 7 [] refl

life : Steps (new_world vm_fresh) world_closed
life = Steps.step (Steps.step (Steps.step (Steps.step Steps.done registered) running) orphan) closed

Steps-Sound_example : Sound world_closed
Steps-Sound_example = Steps-Sound life (new_world-Sound vm_fresh host_fresh vm_fresh.ept refl)
