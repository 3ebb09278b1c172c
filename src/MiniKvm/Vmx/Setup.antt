-- ===== src/MiniKvm/Vmx/Setup.antt =====
-- phase9-capstone/practice/mini-kvm/vmx.c: `mini_vcpu_vmx_setup` and `mini_vcpu_vmx_teardown`.
--
-- The thread may be preempted during the setup: `moved_to` is the CPU where it is once VMPTRLD
-- has run. A VMWRITE reaches the VMCS only on a CPU where the VMCS is active.
pub mod Ready
use virtualization_learning.Base.{
  ℕ, zero, suc, ◌-◌, ◌^◌, bit_or, Bool, true, Option, none, some, List, ◌∷◌, arith, if◌then◌else◌,
  ◌<<<◌,
}
use virtualization_learning.MiniKvm.{Errno, Result, ok, err, Status, Vcpu}
use virtualization_learning.MiniKvm.RunLoop.{Cpu, Answers, vmclear, vmcs_clear, set_flag}
use virtualization_learning.MiniKvm.Vmx.{
  Controls, compute_controls, HostArea, HostEnv, set_constant_host_state,
}
use virtualization_learning.MiniKvm.Vmx.GuestState.{GuestArea, set_guest_state}

-- The VMCS, as far as the setup writes it.
pub record VmcsArea : Type 0 where
  pub controls : Controls
  pub exception_bitmap : ℕ
  pub page_fault_mask : ℕ
  pub page_fault_match : ℕ
  pub cr3_target_count : ℕ
  pub link_pointer : ℕ
  pub tpr_threshold : ℕ
  pub ept_pointer : ℕ
  pub guest : GuestArea
  pub host : HostArea

-- A vCPU with its VMCS. `revision` is the first word of the VMCS page, and `freed` has the pages
-- given back.
pub record VmxVcpu : Type 0 where
  pub vcpu : Vcpu
  pub cpu : Cpu
  pub vmcs_page : Option ℕ
  pub revision : ℕ
  pub area : VmcsArea
  pub freed : List ℕ

-- `mk_global`, as far as the setup reads it, and `vcpu->kvm->ept.eptp`.
pub record Given : Type 0 where
  pub env : HostEnv
  pub vmcs_revision_id : ℕ
  pub true_ctls : Bool
  pub eptp : ℕ

-- What the kernel and the processor answer to one setup.
pub record SetupAnswers : Type 0 where
  pub page : Option ℕ
  pub first : Answers
  pub moved_to : ℕ
  pub unload : Answers

-- The VMWRITEs of the setup, from the controls to the host state.
abbrev pub fill : Given → Controls → ℕ → VmcsArea → VmcsArea
fill given c cpu area = record area {
  controls = c;
  exception_bitmap = bit_or (bit_or (bit_or (1 <<< 1) (1 <<< 6)) (1 <<< 13)) (1 <<< 14);
  page_fault_mask = 0;
  page_fault_match = 0;
  cr3_target_count = 0;
  link_pointer = 2 ^ 64 - 1;
  tpr_threshold = 0;
  ept_pointer = given.eptp;
  guest = set_guest_state area.guest;
  host = set_constant_host_state given.env cpu area.host;
}

vmwrites : Given → Controls → VmxVcpu → VmxVcpu
vmwrites given c s =
    if s.cpu.active s.cpu.here then record s { area = fill given c s.cpu.here s.area } else s

unload : Answers → VmxVcpu → VmxVcpu
unload answers s =
    let (vcpu, cpu) = vmcs_clear answers s.vcpu s.cpu in record s { vcpu = vcpu; cpu = cpu }

-- `err_free:`
free_vmcs : ℕ → VmxVcpu → VmxVcpu
free_vmcs page s = record s { vmcs_page = none; freed = page ∷ s.freed }

with_controls : Given → Answers → ℕ → Result Controls → VmxVcpu → Status × VmxVcpu
unfolding vmwrites unload free_vmcs
with_controls given answers page (err e) s = (err e, free_vmcs page (unload answers s))
with_controls given answers page (ok c) s = (ok tt, unload answers (vmwrites given c s))

-- VMPTRLD, and the CPU that the vCPU records for it.
loaded : ℕ → VmxVcpu → VmxVcpu
loaded moved_to s = record s {
  cpu = record (s.cpu) { active = set_flag s.cpu.active s.cpu.here true; here = moved_to };
  vcpu = record (s.vcpu) { loaded_cpu = some moved_to };
}

with_page : Given → SetupAnswers → Option ℕ → VmxVcpu → Status × VmxVcpu
unfolding free_vmcs with_controls loaded
with_page given answers none s = (err Errno.enomem, s)
with_page given answers (some page) s =
    let s1 = record s { vmcs_page = some page; revision = given.vmcs_revision_id } in
    let s2 = record s1 { cpu = vmclear answers.first s1.cpu.here s1.cpu } in
    if answers.first.vmclear_fails
    then (err Errno.eio, free_vmcs page s2)
    else if answers.first.vmptrld_fails
    then (err Errno.eio, free_vmcs page s2)
    else with_controls given answers.unload page (compute_controls given.env.rdmsr given.true_ctls)
        (loaded answers.moved_to s2)

-- `mini_vcpu_vmx_setup`
unfoldable pub vcpu_vmx_setup : Given → SetupAnswers → VmxVcpu → Status × VmxVcpu
unfolding with_page
vcpu_vmx_setup given answers s = with_page given answers answers.page s

teardown_page : Answers → Option ℕ → VmxVcpu → VmxVcpu
unfolding unload free_vmcs
teardown_page answers none s = s
teardown_page answers (some page) s = free_vmcs page (unload answers s)

-- `mini_vcpu_vmx_teardown`
unfoldable pub vcpu_vmx_teardown : Answers → VmxVcpu → VmxVcpu
unfolding teardown_page
vcpu_vmx_teardown answers s = teardown_page answers s.vmcs_page s
