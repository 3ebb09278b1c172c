-- ===== src/MiniKvm/Lifecycle.antt =====
-- phase9-capstone/practice/mini-kvm/vcpu.c: the life of a VM and of its vCPUs, from the creation of
-- their file descriptors to the release of the last one.
--
-- Objects of the kernel's allocator are counted: vCPUs, their run pages and their VMX state that
-- exist. A vCPU is named by its address. What the kernel's services answer is an argument.
pub mod References
pub mod World
pub mod Release
pub mod Memory
mod Examples
use virtualization_learning.Base.{
  ℕ, zero, suc, ◌+◌, ◌-◌, bit_and, Bool, true, false, not, ◌||◌, Option, none, some, List, [], ◌++◌,
  arith, ◌==◌, nonzero, if◌then◌else◌, length, replicate, ◌>>>◌,
}
use virtualization_learning.MiniKvm.{
  Errno, Result, ok, err, Status, Memslot, EptRoot, Capture, Host,
}
use virtualization_learning.MiniKvm.Ept.{ept_init, ept_destroy}

-- `struct mini_kvm`, with the memory and the objects that hang on it. `live` is false once it is
-- freed; `pinned` has the frames that `pin_user_pages` pinned for it, `unpinned` those of which
-- the pin was given back.
pub record Vm : Type 0 where
  pub refcount : ℕ
  pub slot : Memslot
  pub ept : EptRoot
  pub vcpu : Option ℕ
  pub capture : Capture
  pub host : Host
  pub live : Bool
  pub pinned : List ℕ
  pub unpinned : List ℕ
  pub vcpu_objects : ℕ
  pub run_pages : ℕ
  pub vmx_states : ℕ

-- `struct kvm_userspace_memory_region`
pub record Region : Type 0 where
  pub slot_id : ℕ
  pub flags : ℕ
  pub guest_phys_addr : ℕ
  pub memory_size : ℕ
  pub user_addr : ℕ

page_aligned : ℕ → Bool
page_aligned addr = bit_and addr 4095 == 0

-- The checks of `mini_kvm_set_memregion`, in their order.
unfoldable pub check_region : Region → Memslot → Status
unfolding page_aligned
check_region region slot =
    if not (region.slot_id == 0) || nonzero region.flags
    then err Errno.einval
    else if slot.valid
    then err Errno.eexist
    else if region.memory_size == 0
        || (not (page_aligned region.guest_phys_addr)
            || (not (page_aligned region.user_addr) || not (page_aligned region.memory_size)))
    then err Errno.einval
    else ok tt

-- After `pin_user_pages`, which gives the frames that it pinned, or `none` for an error.
pin_region : Region → Option (List ℕ) → Vm → Status × Vm
pin_region region none vm = (err Errno.efault, vm)
pin_region region (some pinned) vm =
    let npages = region.memory_size >>> 12 in
    if not (length pinned == npages)
    then (
      err Errno.efault,
      record vm { pinned = pinned ++ vm.pinned; unpinned = pinned ++ vm.unpinned },
    )
    else (
      ok tt,
      record vm {
        pinned = pinned ++ vm.pinned;
        slot = record {
          valid = true;
          base_gpa = region.guest_phys_addr;
          npages = npages;
          userspace_addr = region.user_addr;
          pages = pinned;
        };
      },
    )

add_region : Status → Region → Bool → Option (List ℕ) → Vm → Status × Vm
unfolding pin_region
add_region (err e) region allocated pinned vm = (err e, vm)
add_region (ok u) region allocated pinned vm =
    if not allocated then (err Errno.enomem, vm) else pin_region region pinned vm

-- `mini_kvm_set_memregion`: `none` where `copy_from_user` fails.
unfoldable pub set_memregion : Option Region → Bool → Option (List ℕ) → Vm → Status × Vm
unfolding add_region
set_memregion none allocated pinned vm = (err Errno.efault, vm)
set_memregion (some region) allocated pinned vm =
    add_region (check_region region vm.slot) region allocated pinned vm

-- `mini_kvm_unpin_memslot`
unfoldable pub unpin_memslot : Vm → Vm
unpin_memslot vm = if not vm.slot.valid then vm else record vm {
  unpinned = vm.slot.pages ++ vm.unpinned;
  slot = record (vm.slot) { pages = []; valid = false };
}

-- `mini_kvm_destroy`
unfoldable pub destroy : Vm → Vm
unfolding unpin_memslot
destroy vm =
    let vm' = unpin_memslot vm in
    let (ept, host) = ept_destroy vm'.ept vm'.host in
    record vm' { ept = ept; host = host; live = false }

-- `mini_kvm_get` and `mini_kvm_put`
abbrev pub get_ref : Vm → Vm
get_ref vm = record vm { refcount = vm.refcount + 1 }

unfoldable pub put_ref : Vm → Vm
put_ref vm =
    let vm' = record vm { refcount = vm.refcount - 1 } in
    if vm'.refcount == 0 then destroy vm' else vm'

-- What the kernel answers to the creation of a vCPU: the address of the object, the page, the
-- result of the VMX setup and the new file descriptor.
pub record VcpuAnswers : Type 0 where
  pub object : Option ℕ
  pub run_page : Bool
  pub setup : Status
  pub fd : Result ℕ

free_vcpu : Vm → Vm
free_vcpu vm = record vm { vcpu_objects = vm.vcpu_objects - 1 }

free_run_page : Vm → Vm
free_run_page vm = record vm { run_pages = vm.run_pages - 1 }

-- `mini_vcpu_vmx_teardown`, for what it gives back.
vmx_teardown : Vm → Vm
vmx_teardown vm = record vm { vmx_states = vm.vmx_states - 1 }

-- `err_teardown:`
drop_vcpu : Vm → Vm
unfolding free_vcpu free_run_page vmx_teardown
drop_vcpu vm = free_vcpu (free_run_page (vmx_teardown vm))

-- From `anon_inode_getfd` on
install_fd : Result ℕ → Vm → Result ℕ × Vm
unfolding drop_vcpu
install_fd (ok fd) vm = (ok fd, vm)
install_fd (err e) vm = (err e, drop_vcpu (put_ref (record vm { vcpu = none })))

-- From the reference to the VM on
publish_to : Option ℕ → ℕ → Result ℕ → Vm → Result ℕ × Vm
unfolding drop_vcpu install_fd
publish_to (some other) vcpu fd vm = (err Errno.eexist, drop_vcpu (put_ref vm))
publish_to none vcpu fd vm = install_fd fd (record vm { vcpu = some vcpu })

after_setup : Status → ℕ → Result ℕ → Vm → Result ℕ × Vm
unfolding free_vcpu free_run_page publish_to
after_setup (err e) vcpu fd vm = (err e, free_vcpu (free_run_page vm))
after_setup (ok u) vcpu fd vm =
    publish_to vm.vcpu vcpu fd (get_ref (record vm { vmx_states = vm.vmx_states + 1 }))

with_object : Option ℕ → VcpuAnswers → Vm → Result ℕ × Vm
unfolding free_vcpu after_setup
with_object none answers vm = (err Errno.enomem, vm)
with_object (some vcpu) answers vm =
    let vm1 = record vm { vcpu_objects = vm.vcpu_objects + 1 } in
    if not answers.run_page
    then (err Errno.enomem, free_vcpu vm1)
    else after_setup answers.setup vcpu answers.fd (record vm1 { run_pages = vm1.run_pages + 1 })

-- `mini_kvm_create_vcpu`
unfoldable pub create_vcpu : ℕ → VcpuAnswers → Vm → Result ℕ × Vm
unfolding with_object
create_vcpu id answers vm =
    if not (id == 0)
    then (err Errno.einval, vm)
    else if not vm.slot.valid
    then (err Errno.einval, vm)
    else with_object answers.object answers vm

is_vcpu : Option ℕ → ℕ → Bool
is_vcpu none vcpu = false
is_vcpu (some v) vcpu = v == vcpu

-- `mini_vcpu_release`. A vCPU has its run page from its creation on.
unfoldable pub vcpu_release : ℕ → Vm → Vm
unfolding is_vcpu drop_vcpu
vcpu_release vcpu vm =
    let vm' = if is_vcpu vm.vcpu vcpu then record vm { vcpu = none } else vm in
    put_ref (drop_vcpu vm')

-- `mini_vm_release`
unfoldable pub vm_release : Vm → Vm
vm_release vm = put_ref vm

install_vm_fd : Result ℕ → Vm → Result ℕ × Vm
install_vm_fd (ok fd) vm = (ok fd, vm)
install_vm_fd (err e) vm =
    let (ept, host) = ept_destroy vm.ept vm.host in
    (err e, record vm { ept = ept; host = host; live = false })

after_ept : Status × EptRoot × Host → Result ℕ → Vm → Result ℕ × Vm
unfolding install_vm_fd
after_ept (err e, ept, host) fd vm = (err e, record vm { ept = ept; host = host; live = false })
after_ept (ok u, ept, host) fd vm = install_vm_fd fd (record vm { ept = ept; host = host })

-- The VM that `kzalloc` and `kref_init` give.
abbrev pub new_vm : Host → Vm
new_vm host = record {
  refcount = 1;
  slot = record { valid = false; base_gpa = 0; npages = 0; userspace_addr = 0; pages = [] };
  ept = record { pml4 = none; eptp = 0; tracked = [] };
  vcpu = none;
  capture = record { serial = replicate 512 0; serial_len = 0; dmesg = [] };
  host = host;
  live = true;
  pinned = [];
  unpinned = [];
  vcpu_objects = 0;
  run_pages = 0;
  vmx_states = 0;
}

-- `mini_kvm_create_vm`, once `kzalloc` has given the object.
unfoldable pub create_vm : Result ℕ → Host → Result ℕ × Vm
unfolding after_ept
create_vm fd host = let vm = new_vm host in after_ept (ept_init vm.ept vm.host) fd vm
