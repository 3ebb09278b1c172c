-- ===== src/MiniKvm/Ioctl.antt =====
-- phase9-capstone/practice/mini-kvm/vcpu.c: the ioctls of the device, of a VM and of a vCPU, and
-- the mapping of `struct kvm_run`. The numbers of the commands are the kernel's; a command is a
-- constructor here.
use virtualization_learning.Base.{
  ℕ, zero, suc, ◌+◌, ◌-◌, ◌^◌, ◌<◌, min, ◌≡◌, refl, sym, ap, ◌∙◌, ◌≢◌, ◌⊎◌, Bool, true, false, not,
  Option, none, some, List, [], ◌∷◌, ◌++◌, arith, ◌==◌, nonzero, if◌then◌else◌, length, take,
  replicate, u64, length-append, length-take, length-replicate,
}
use virtualization_learning.MiniKvm.{Errno, Result, ok, err, Status, Capture, Vcpu}
use virtualization_learning.MiniKvm.Interrupt.{inject_irq}
use virtualization_learning.MiniKvm.Lifecycle.{Vm, Region, VcpuAnswers, create_vcpu, set_memregion}
use virtualization_learning.MiniKvm.RunLoop.{Answers, Entry, Run}
use virtualization_learning.MiniKvm.RunLoop.Step.{Next, leave, run_loop}
use virtualization_learning.MiniKvm.Device.SerialOut.{captured}

-- `KVM_RUN` with its argument, `MINI_KVM_VCPU_INJECT_IRQ` with what `copy_from_user` reads.
pub data VcpuCmd : Type 0 where
  run_cmd : ℕ → VcpuCmd
  inject_irq_cmd : Option ℕ → VcpuCmd
  other_vcpu_cmd : VcpuCmd

with_irq : Status × Vcpu → Run → Next × Run
with_irq (r, vcpu) run = (leave r, record run { machine = record (run.machine) { vcpu = vcpu } })

-- `mini_vcpu_ioctl`, and whether a signal killed the wait for the mutex.
unfoldable pub vcpu_ioctl : Bool → VcpuCmd → Answers → List Entry → Run → Next × Run
unfolding with_irq
vcpu_ioctl true cmd answers entries run = (leave (err Errno.eintr), run)
vcpu_ioctl false (run_cmd arg) answers entries run =
    if nonzero arg then (leave (err Errno.einval), run) else run_loop answers entries run
vcpu_ioctl false (inject_irq_cmd none) answers entries run = (leave (err Errno.efault), run)
vcpu_ioctl false (inject_irq_cmd (some vector)) answers entries run =
    with_irq (inject_irq run.machine.vcpu vector) run
vcpu_ioctl false other_vcpu_cmd answers entries run = (leave (err Errno.enotty), run)

abbrev pub page_size : ℕ
page_size = 4096

-- `mini_vcpu_mmap`, with the answer of `remap_pfn_range`.
unfoldable pub vcpu_mmap : ℕ → ℕ → ℕ → Status → Status
vcpu_mmap vm_pgoff vm_start vm_end remapped =
    if nonzero vm_pgoff
    then err Errno.einval
    else if not (u64 (vm_end + 2 ^ 64 - vm_start) == page_size)
    then err Errno.einval
    else remapped

-- The commands of the device. `check_extension` tells whether it asks for `KVM_CAP_USER_MEMORY`.
pub data DevCmd : Type 0 where
  get_api_version : DevCmd
  check_extension : Bool → DevCmd
  get_vcpu_mmap_size : DevCmd
  create_vm_cmd : DevCmd
  other_dev_cmd : DevCmd

-- `mini_kvm_dev_ioctl`, with the result of `mini_kvm_create_vm`.
unfoldable pub dev_ioctl : DevCmd → Result ℕ → Result ℕ
dev_ioctl get_api_version vm_fd = ok 12
dev_ioctl (check_extension is_user_memory) vm_fd = if is_user_memory then ok 1 else ok 0
dev_ioctl get_vcpu_mmap_size vm_fd = ok page_size
dev_ioctl create_vm_cmd vm_fd = vm_fd
dev_ioctl other_dev_cmd vm_fd = err Errno.enotty

-- The 256 bytes that `MINI_KVM_VM_GET_SERIAL` copies to user space.
unfoldable pub serial_snapshot : Capture → List ℕ
serial_snapshot kvm = let n = min kvm.serial_len 255 in take n kvm.serial ++ replicate (256 - n) 0

pub data VmCmd : Type 0 where
  create_vcpu_cmd : ℕ → VcpuAnswers → VmCmd
  set_memory_region : Option Region → Bool → Option (List ℕ) → VmCmd
  get_serial : Bool → VmCmd
  other_vm_cmd : VmCmd

of_status : Status × Vm → Result ℕ × Vm × List ℕ
of_status (ok u, vm) = (ok 0, vm, [])
of_status (err e, vm) = (err e, vm, [])

no_bytes : Result ℕ × Vm → Result ℕ × Vm × List ℕ
no_bytes (r, vm) = (r, vm, [])

-- `mini_vm_ioctl`, with the bytes that go to user space.
unfoldable pub vm_ioctl : VmCmd → Vm → Result ℕ × Vm × List ℕ
unfolding of_status no_bytes serial_snapshot
vm_ioctl (create_vcpu_cmd id answers) vm = no_bytes (create_vcpu id answers vm)
vm_ioctl (set_memory_region region allocated pinned) vm =
    of_status (set_memregion region allocated pinned vm)
vm_ioctl (get_serial copied) vm =
    if copied then (ok 0, vm, serial_snapshot vm.capture) else (err Errno.efault, vm, [])
vm_ioctl other_vm_cmd vm = (err Errno.enotty, vm, [])

-- The run structure can be mapped exactly as the device says: a mapping at page offset 0 whose
-- length is the answer to `KVM_GET_VCPU_MMAP_SIZE` ends as `remap_pfn_range` ends, and any other
-- is refused with EINVAL.
pub vcpu_mmap-dev_ioctl :
    (vm_fd : Result ℕ) (size pgoff start len : ℕ) (remapped : Status)
    → dev_ioctl get_vcpu_mmap_size vm_fd ≡ ok size
    → start + len < 2 ^ 64
    → (pgoff ≡ 0 → len ≡ size → vcpu_mmap pgoff start (start + len) remapped ≡ remapped)
      × ((pgoff ≢ 0) ⊎ (len ≢ size)
          → vcpu_mmap pgoff start (start + len) remapped ≡ err Errno.einval)
unfolding dev_ioctl vcpu_mmap
vcpu_mmap-dev_ioctl vm_fd size pgoff start len remapped h small =
    let same : size ≡ 4096 = sym (cc h) in (λ p l. ground (arith, same), λ o. ground (arith, same))

min-suc-suc : (m n : ℕ) → min (suc m) (suc n) ≡ suc (min m n)
min-suc-suc m n = omega arith

take-take : (n m : ℕ) (xs : List ℕ) → take n (take m xs) ≡ take (min m n) xs
take-take n zero xs = rw (zero-min n) (nothing n)
  where
    zero-min : (n : ℕ) → min 0 n ≡ 0
    zero-min n = omega arith

    nothing : (n : ℕ) → take {A = ℕ} n [] ≡ []
    nothing zero = refl
    nothing (suc n) = refl
take-take zero (suc m) xs = rw (min-zero (suc m)) refl
  where
    min-zero : (n : ℕ) → min n 0 ≡ 0
    min-zero n = omega arith
take-take (suc n) (suc m) [] = rw (min-suc-suc m n) refl
take-take (suc n) (suc m) (x ∷ xs) = rw (min-suc-suc m n) (ap (λ t. x ∷ t) (take-take n m xs))

-- The snapshot of the serial output is always 256 bytes: the first 255 at most of what was
-- captured, and zeros after them, at least one. The buffer has the size it is created with.
pub serial_snapshot_lem :
    (kvm : Capture)
    → length kvm.serial ≡ 512
    → kvm.serial_len < 512
    → (length (serial_snapshot kvm) ≡ 256)
      × (serial_snapshot kvm
          ≡ take 255 (captured kvm) ++ replicate (256 - length (take 255 (captured kvm))) 0)
unfolding serial_snapshot
serial_snapshot_lem kvm size len = (
  length-append (take n kvm.serial) (replicate (256 - n) 0)
      ∙ omega (arith, taken, length-replicate {A = ℕ} (256 - n) 0),
  sym (rw (take-take 255 kvm.serial_len kvm.serial, taken) refl),
)
  where
    n : ℕ
    n = min kvm.serial_len 255

    taken : length (take n kvm.serial) ≡ n
    taken = omega (arith, length-take n kvm.serial, size)
