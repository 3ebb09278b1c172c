-- ===== src/MiniKvm.antt =====
-- phase9-capstone/practice/mini-kvm/mini-kvm.h: the structures of the kernel module, the error
-- codes, and the hardware state that its functions read and write.
--
-- The current VMCS is a record of the fields that the module uses; VMREAD and VMWRITE of these
-- fields succeed while a VMCS is loaded. Frames of host memory are numbered; a page table is a
-- function from an index to a 64-bit entry. `alloc_page` is the kernel's: what its next calls
-- return is the list `pages`, and no page is left where the list ends.
pub mod Interrupt
pub mod Device
pub mod Ept
pub mod RunLoop
pub mod Vmx
pub mod Module
pub mod Lifecycle
pub mod Ioctl
mod Examples
use virtualization_learning.Base.{ℕ, ◌*◌, ◌==◌, Bool, if◌then◌else◌, Option, List}

-- The values that the module's functions return as a negative `int`.
pub data Errno : Type 0 where
  eio efault enomem einval ebusy eexist enodev enxio eproto eopnotsupp enotty eintr : Errno

pub data Result {ℓ} (A : Type ℓ) : Type ℓ where
  ok : A → Result A
  err : Errno → Result A

-- An `int` that is 0 or a negative error.
abbrev pub Status : Type 0
Status = Result (Unit {0})

-- `MINI_KVM_SERIAL_SIZE`, `MINI_KVM_SERIAL_PORT` and `MINI_KVM_EPT_TRACK_MAX`.
abbrev pub serial_size : ℕ
serial_size = 512

abbrev pub serial_port : ℕ
serial_port = 0x3f8

abbrev pub ept_track_max : ℕ
ept_track_max = 1024

-- `EPT_PTE_READ`, `EPT_PTE_WRITE` and `EPT_PTE_EXEC`.
abbrev pub ept_pte_read : ℕ
ept_pte_read = 1

abbrev pub ept_pte_write : ℕ
ept_pte_write = 2

abbrev pub ept_pte_exec : ℕ
ept_pte_exec = 4

-- The VMCS fields that the run loop and its handlers access, of the VMCS that is loaded.
pub record Vmcs : Type 0 where
  pub guest_rip : ℕ
  pub guest_rflags : ℕ
  pub guest_interruptibility : ℕ
  pub guest_physical_address : ℕ
  pub entry_intr_info : ℕ
  pub exit_reason : ℕ
  pub exit_qualification : ℕ
  pub exit_intr_info : ℕ
  pub exit_instruction_len : ℕ
  pub idt_vectoring_info : ℕ

-- `struct mini_kvm_memslot`; `pages` holds the frame number of each pinned page.
pub record Memslot : Type 0 where
  pub valid : Bool
  pub base_gpa : ℕ
  pub npages : ℕ
  pub userspace_addr : ℕ
  pub pages : List ℕ

-- `struct mini_kvm_ept`; the page structures are frame numbers, `none` is NULL, and `nr_tracked`
-- is the length of `tracked`, whose newest page is first.
pub record EptRoot : Type 0 where
  pub pml4 : Option ℕ
  pub eptp : ℕ
  pub tracked : List ℕ

-- `struct mini_kvm_vcpu`. `loaded_cpu` is `none` for -1; `lock` and `vcpu_id` play no part.
pub record Vcpu : Type 0 where
  pub regs : List ℕ
  pub launched : Bool
  pub loaded_cpu : Option ℕ
  pub pending_intr_info : ℕ
  pub n_exits : ℕ
  pub n_io_exits : ℕ
  pub n_ept_violations : ℕ
  pub n_hlt_exits : ℕ
  pub n_extint_exits : ℕ
  pub n_nmi_exits : ℕ
  pub n_injected : ℕ

-- The serial capture of `struct mini_kvm`, with the lines that went to the kernel log.
pub record Capture : Type 0 where
  pub serial : List ℕ
  pub serial_len : ℕ
  pub dmesg : List (List ℕ)

-- Host memory as the EPT code sees it.
pub record Host : Type 0 where
  pub table : ℕ → ℕ → ℕ
  pub pages : List (Option ℕ)
  pub freed : List ℕ

-- A store into the table of one frame.
abbrev pub store : (ℕ → ℕ → ℕ) → ℕ → ℕ → ℕ → ℕ → ℕ → ℕ
store table frame idx entry f i =
    if f == frame then (if i == idx then entry else table f i) else table f i

-- `__GFP_ZERO`.
abbrev pub clear_page : (ℕ → ℕ → ℕ) → ℕ → ℕ → ℕ → ℕ
clear_page table frame f i = if f == frame then 0 else table f i

-- `struct page *` as the physical address of its frame.
abbrev pub page_to_phys : ℕ → ℕ
page_to_phys frame = frame * 4096

-- What the run loop of one vCPU works on: the vCPU, the VMCS, and what it reaches through
-- `vcpu->kvm`.
pub record Machine : Type 0 where
  pub vcpu : Vcpu
  pub vmcs : Vmcs
  pub capture : Capture
  pub slot : Memslot
  pub ept : EptRoot
  pub host : Host
