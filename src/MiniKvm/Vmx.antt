-- ===== src/MiniKvm/Vmx.antt =====
-- phase9-capstone/practice/mini-kvm/vmx.c: the controls, the host state and the guest state of a
-- VMCS, and `mini_vcpu_vmx_setup` and `mini_vcpu_vmx_teardown`.
--
-- The processor's model-specific registers are a function of their names.
pub mod Negotiation
pub mod HostState
pub mod GuestState
pub mod Setup
mod Examples
use virtualization_learning.Base.{
  ℕ, zero, suc, ◌*◌, bit_and, bit_or, Bool, not, ◌||◌, arith, nonzero, if◌then◌else◌, u32, ◌>>>◌,
}
use virtualization_learning.MiniKvm.{Errno, Result, ok, err}

-- The MSRs that vmx.c reads, by the names of the kernel without their prefix.
pub data Msr : Type 0 where
  vmx_pinbased_ctls vmx_procbased_ctls vmx_exit_ctls vmx_entry_ctls : Msr
  vmx_true_pinbased_ctls vmx_true_procbased_ctls vmx_true_exit_ctls vmx_true_entry_ctls : Msr
  vmx_procbased_ctls2 fs_base sysenter_cs sysenter_eip efer : Msr
  feat_ctl vmx_basic vmx_ept_vpid_cap : Msr

-- `mini_vmx_adjust_control`
unfoldable pub adjust_control : (Msr → ℕ) → ℕ → Msr → ℕ
adjust_control rdmsr desired index =
    let msr = rdmsr index in
    let must_be_one = u32 msr in
    let can_be_one = u32 (msr >>> 32) in bit_or (bit_and desired can_be_one) must_be_one

-- `struct mini_vmcs_controls`
pub record Controls : Type 0 where
  pub pin_based : ℕ
  pub cpu_based : ℕ
  pub secondary : ℕ
  pub exit_ctls : ℕ
  pub entry_ctls : ℕ

abbrev pub pin_based_desired : ℕ
pin_based_desired = bit_or 0x01 0x08

abbrev pub cpu_based_desired : ℕ
cpu_based_desired = bit_or (bit_or 0x80 0x1000000) 0x80000000

abbrev pub secondary_desired : ℕ
secondary_desired = 0x02

abbrev pub exit_desired : ℕ
exit_desired = bit_or 0x200 0x200000

abbrev pub entry_desired : ℕ
entry_desired = bit_or 0x200 0x8000

-- The capability MSR of each group, by `mk_global.true_ctls`.
abbrev pub pin_based_msr : Bool → Msr
pin_based_msr t = if t then Msr.vmx_true_pinbased_ctls else Msr.vmx_pinbased_ctls

abbrev pub cpu_based_msr : Bool → Msr
cpu_based_msr t = if t then Msr.vmx_true_procbased_ctls else Msr.vmx_procbased_ctls

abbrev pub exit_msr : Bool → Msr
exit_msr t = if t then Msr.vmx_true_exit_ctls else Msr.vmx_exit_ctls

abbrev pub entry_msr : Bool → Msr
entry_msr t = if t then Msr.vmx_true_entry_ctls else Msr.vmx_entry_ctls

-- `mini_compute_controls`
unfoldable pub compute_controls : (Msr → ℕ) → Bool → Result Controls
unfolding adjust_control
compute_controls rdmsr true_ctls =
    let cpu_based = adjust_control rdmsr cpu_based_desired (cpu_based_msr true_ctls) in
    let secondary = adjust_control rdmsr secondary_desired Msr.vmx_procbased_ctls2 in
    if not (nonzero (bit_and cpu_based 0x80000000)) || not (nonzero (bit_and secondary 0x02))
    then err Errno.eopnotsupp
    else ok record {
      pin_based = adjust_control rdmsr pin_based_desired (pin_based_msr true_ctls);
      cpu_based = cpu_based;
      secondary = secondary;
      exit_ctls = adjust_control rdmsr exit_desired (exit_msr true_ctls);
      entry_ctls = adjust_control rdmsr entry_desired (entry_msr true_ctls);
    }

-- The host-state area of the VMCS, as far as vmx.c writes it.
pub record HostArea : Type 0 where
  pub host_cr0 : ℕ
  pub host_cr3 : ℕ
  pub host_cr4 : ℕ
  pub host_cs : ℕ
  pub host_ds : ℕ
  pub host_es : ℕ
  pub host_ss : ℕ
  pub host_tr : ℕ
  pub host_fs : ℕ
  pub host_gs : ℕ
  pub host_idtr_base : ℕ
  pub host_gdtr_base : ℕ
  pub host_tr_base : ℕ
  pub host_fs_base : ℕ
  pub host_gs_base : ℕ
  pub host_sysenter_cs : ℕ
  pub host_sysenter_esp : ℕ
  pub host_sysenter_eip : ℕ
  pub host_efer : ℕ
  pub host_rip : ℕ

-- What the kernel answers about the host: the per-CPU values are functions of the CPU.
pub record HostEnv : Type 0 where
  pub cr0 : ℕ
  pub cr3 : ℕ
  pub cr4_shadow : ℕ
  pub idt_address : ℕ
  pub gdt : ℕ → ℕ
  pub tss : ℕ → ℕ
  pub entry_stack : ℕ → ℕ
  pub gs_base_of : ℕ → ℕ
  pub rdmsr : Msr → ℕ
  pub ia32_emulation : Bool
  pub vmexit : ℕ

-- `X86_CR4_VMXE`
abbrev pub cr4_vmxe : ℕ
cr4_vmxe = 0x2000

-- `mini_host_cr4`
abbrev pub host_cr4_value : HostEnv → ℕ
host_cr4_value env = bit_or env.cr4_shadow cr4_vmxe

-- `mini_vmx_refresh_host_state`, on the CPU `cpu`.
unfoldable pub refresh_host_state : HostEnv → ℕ → HostArea → HostArea
refresh_host_state env cpu h = record h {
  host_cr3 = env.cr3;
  host_cr4 = host_cr4_value env;
  host_gs_base = env.gs_base_of cpu;
  host_fs_base = env.rdmsr Msr.fs_base;
}

-- `mini_vmx_fixup_host_for_cpu`
unfoldable pub fixup_host_for_cpu : HostEnv → ℕ → HostArea → HostArea
fixup_host_for_cpu env cpu h = record h {
  host_tr_base = env.tss cpu;
  host_gdtr_base = env.gdt cpu;
  host_sysenter_esp = if env.ia32_emulation then env.entry_stack cpu else h.host_sysenter_esp;
}

-- `mini_vmx_set_constant_host_state`, with `__KERNEL_CS`, `__KERNEL_DS` and `GDT_ENTRY_TSS * 8`.
unfoldable pub set_constant_host_state : HostEnv → ℕ → HostArea → HostArea
unfolding fixup_host_for_cpu
set_constant_host_state env cpu h =
    let h1 = record h {
      host_cr0 = env.cr0;
      host_cr3 = env.cr3;
      host_cr4 = host_cr4_value env;
      host_cs = 0x10;
      host_ds = 0;
      host_es = 0;
      host_ss = 0x18;
      host_tr = 8 * 8;
      host_fs = 0;
      host_gs = 0;
      host_idtr_base = env.idt_address;
      host_sysenter_cs = u32 (env.rdmsr Msr.sysenter_cs);
      host_sysenter_eip = env.rdmsr Msr.sysenter_eip;
      host_sysenter_esp = if not env.ia32_emulation then 0 else h.host_sysenter_esp;
      host_efer = env.rdmsr Msr.efer;
    } in
    record (fixup_host_for_cpu env cpu h1) {
      host_fs_base = env.rdmsr Msr.fs_base;
      host_gs_base = env.gs_base_of cpu;
      host_rip = env.vmexit;
    }
