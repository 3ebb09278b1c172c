-- ===== src/MiniKvm/Examples.antt =====
-- The theorems about mini-kvm at concrete inputs.
use virtualization_learning.Base.{
  length, ℕ, ◌+◌, ◌-◌, ◌*◌, ◌≤◌, ◌<◌, ◌≡◌, refl, ◌≢◌, ◌⊎◌, inl, inr, true, false, Option, none,
  some, List, [], ◌∷◌, ◌++◌, arith, ◌==◌, if◌then◌else◌, get_or, take, drop, replicate,
}
use mathlib.Core.List.{Perm}
use virtualization_learning.MiniKvm.{ok, Vmcs, Vcpu, Memslot, Capture, Host, Machine}
use virtualization_learning.MiniKvm.Interrupt.{
  inject_irq, take_intr_info, complete_intr_info, reinject_nmi,
}
use virtualization_learning.MiniKvm.Interrupt.Slot.{ext_intr, IsEvent, complete-take, slot-IsEvent}
use virtualization_learning.MiniKvm.Device.{c_string, serial_out, handle_io_exit}
use virtualization_learning.MiniKvm.Device.SerialOut.{
  captured, serial_out_all, captured-serial_out_all, serial_out-logs,
}
use virtualization_learning.MiniKvm.Device.SerialOut
use virtualization_learning.MiniKvm.Device.IoExit.{handle_io_exit-emulates}
use virtualization_learning.MiniKvm.Ept.{
  ept_destroy, handle_violation, alloc_page, ensure_entry, walk_from, ept_walk,
}
use virtualization_learning.MiniKvm.Ept.Translate.{Owner}
use virtualization_learning.MiniKvm.Ept.Violation.{IsAlive, Mapped, handle_violation-Mapped}
use virtualization_learning.MiniKvm.Ept.Progress.{handle_violation-progress}
use virtualization_learning.MiniKvm.Ept.Pages.{handle_all, ept_destroy-frees, frames_onto, started}

abbrev vcpu_idle : Vcpu
vcpu_idle = record {
  regs = replicate 16 0x41;
  launched = false;
  loaded_cpu = none;
  pending_intr_info = 0;
  n_exits = 0;
  n_io_exits = 0;
  n_ept_violations = 0;
  n_hlt_exits = 0;
  n_extint_exits = 0;
  n_nmi_exits = 0;
  n_injected = 0;
}

-- An IO exit for OUT to port 0x3f8, one byte wide, at RIP 0x1000.
abbrev pub vmcs_out : Vmcs
vmcs_out = record {
  guest_rip = 0x1000;
  guest_rflags = 2;
  guest_interruptibility = 0;
  guest_physical_address = 0x201234;
  entry_intr_info = 0;
  exit_reason = 30;
  exit_qualification = 0x3f80000;
  exit_intr_info = 0;
  exit_instruction_len = 1;
  idt_vectoring_info = 0;
}

abbrev pub capture_empty : Capture
capture_empty = record { serial = replicate 512 0; serial_len = 0; dmesg = [] }

capture_empty-IsValid : SerialOut.IsValid capture_empty
capture_empty-IsValid = record { size = refl; len = omega arith }

-- Four pages from guest address 0x200000 on.
abbrev slot_small : Memslot
slot_small = record {
  valid = true;
  base_gpa = 0x200000;
  npages = 4;
  userspace_addr = 0x7000_0000;
  pages = 100 ∷ 101 ∷ 102 ∷ 103 ∷ [];
}

abbrev pub host_fresh : Host
host_fresh = record { table = λ f i. 0; pages = some 6 ∷ some 7 ∷ some 8 ∷ none ∷ []; freed = [] }

abbrev pub machine : Machine
machine = record {
  vcpu = vcpu_idle;
  vmcs = vmcs_out;
  capture = capture_empty;
  slot = slot_small;
  ept = record { pml4 = some 5; eptp = 5 * 4096 + 30; tracked = [] };
  host = host_fresh;
}

abbrev only_root : Owner
only_root f = if f == 5 then some (3, 0) else none

machine-IsAlive : IsAlive only_root 5 machine.ept machine.host
machine-IsAlive = record {
  rooted = refl;
  at_top = refl;
  tree = record { shaped = λ f b p i o lt. inl refl; linked = λ f b p i o lt e. cc };
  supply = (
    omega arith,
    refl,
    (omega arith, (omega arith, tt)),
    (omega arith, refl, (omega arith, tt), (omega arith, refl, tt, tt)),
  );
}

handle_violation_ok : (handle_violation machine).0 ≡ ok tt
unfolding handle_violation ensure_entry walk_from alloc_page ept_walk
handle_violation_ok = refl

handle_violation-Mapped_example : Mapped machine 5 513 (handle_violation machine).1
handle_violation-Mapped_example =
    handle_violation-Mapped machine only_root 5 machine-IsAlive (omega arith) refl (omega arith)
      handle_violation_ok

handle_violation-progress_example : (handle_violation machine).0 ≡ ok tt
handle_violation-progress_example =
    (handle_violation-progress machine 5 refl (omega arith) (omega arith)).1
      (refl, omega arith, omega arith) (omega arith, tt)

ept_destroy-frees_example :
    let m' = handle_all (started machine) (0x201000 ∷ 0x203000 ∷ []) in
    let host' = (ept_destroy m'.ept m'.host).1 in
    (taken : List (Option ℕ)) × (machine.host.pages ≡ taken ++ host'.pages)
    × Perm host'.freed (frames_onto taken [] ++ machine.host.freed)
ept_destroy-frees_example =
    ept_destroy-frees machine 6 (some 7 ∷ some 8 ∷ none ∷ []) (0x201000 ∷ 0x203000 ∷ []) refl

abbrev pub vcpu_pending : Vcpu
vcpu_pending = record vcpu_idle { pending_intr_info = ext_intr 0x21 }

-- The delivery of interrupt 0x21 ended in an EPT violation.
abbrev pub vmcs_cut_short : Vmcs
vmcs_cut_short = record vmcs_out { exit_reason = 48; idt_vectoring_info = ext_intr 0x21 }

pub pending-IsEvent : IsEvent vcpu_pending.pending_intr_info
pending-IsEvent = inr (inl (0x21, omega arith, refl))

complete-take_example :
    complete_intr_info (take_intr_info vcpu_pending).1 vmcs_cut_short ≡ vcpu_pending
unfolding take_intr_info
complete-take_example = complete-take vcpu_pending vmcs_cut_short pending-IsEvent refl

slot-IsEvent_example :
    IsEvent (inject_irq vcpu_pending 0x22).1.pending_intr_info
    × IsEvent (take_intr_info vcpu_pending).0
    × IsEvent (take_intr_info vcpu_pending).1.pending_intr_info
    × IsEvent (complete_intr_info vcpu_pending vmcs_cut_short).pending_intr_info
    × IsEvent (reinject_nmi vcpu_pending vmcs_cut_short).pending_intr_info
slot-IsEvent_example = slot-IsEvent vcpu_pending vmcs_cut_short 0x22 pending-IsEvent

captured-serial_out_all_example :
    (captured (serial_out_all capture_empty (0x68 ∷ 0x69 ∷ [])) ≡ 0x68 ∷ 0x69 ∷ [])
    × SerialOut.IsValid (serial_out_all capture_empty (0x68 ∷ 0x69 ∷ []))
captured-serial_out_all_example = captured-serial_out_all (0x68 ∷ 0x69 ∷ []) capture_empty-IsValid

serial_out-logs_example :
    let kvm' = serial_out capture_empty b'\n' in
    (start : ℕ) × (kvm'.dmesg
      ≡ c_string (take (kvm'.serial_len - start) (drop start kvm'.serial)) ∷ [])
    × (let line = take (kvm'.serial_len - start) (drop start kvm'.serial) in
        ((i : ℕ) → i < length line → get_or line i 0 ≢ 0) → c_string line ≡ line)
    × (start < kvm'.serial_len)
    × ((start ≡ 0) ⊎ (get_or kvm'.serial (start - 1) 0 ≡ b'\n'))
    × ((i : ℕ) → start ≤ i → i + 1 < kvm'.serial_len → get_or kvm'.serial i 0 ≢ b'\n')
    × (get_or kvm'.serial (kvm'.serial_len - 1) 0 ≡ b'\n')
serial_out-logs_example = serial_out-logs capture_empty capture_empty-IsValid (omega arith)

handle_io_exit-emulates_example :
    ((handle_io_exit machine).1.vcpu.regs ≡ machine.vcpu.regs)
    × ((handle_io_exit machine).1.capture ≡ serial_out capture_empty 0x41)
handle_io_exit-emulates_example =
    (handle_io_exit-emulates machine (omega arith)).1 (omega arith) (omega arith)
