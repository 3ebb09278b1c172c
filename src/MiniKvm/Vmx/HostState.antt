-- ===== src/MiniKvm/Vmx/HostState.antt =====
-- The host state that mini-kvm puts into the VMCS, on the CPU that enters.
use virtualization_learning.Base.{
  ℕ, bit_and, ◌≡◌, refl, sym, ap, u32, ◌≢◌, Bool, true, false, not, arith, if◌then◌else◌, set-bit,
  Within, Within-bit_or_left,
}
use virtualization_learning.MiniKvm.Vmx.{
  Msr, HostArea, HostEnv, cr4_vmxe, refresh_host_state, fixup_host_for_cpu, set_constant_host_state,
}

-- The RPL and the TI flag of a selector are 0.
abbrev IsHostSelector : ℕ → Type 0
IsHostSelector selector = bit_and selector 7 ≡ 0

-- The checks of VM entry on the selectors of the host, and what a VM exit must give back to the
-- kernel on the CPU `cpu`: its own GDT, TSS and per-CPU base, the current page table, the SYSENTER
-- entry point and the landing point of the exit.
pub record IsHost (env : HostEnv) (cpu : ℕ) (h : HostArea) : Type 0 where
  pub cs : IsHostSelector h.host_cs × (h.host_cs ≢ 0)
  pub ds : IsHostSelector h.host_ds
  pub es : IsHostSelector h.host_es
  pub ss : IsHostSelector h.host_ss × (h.host_ss ≢ 0)
  pub tr : IsHostSelector h.host_tr × (h.host_tr ≢ 0)
  pub fs : IsHostSelector h.host_fs
  pub gs : IsHostSelector h.host_gs
  pub vmxe : bit_and h.host_cr4 cr4_vmxe ≡ cr4_vmxe
  pub cr4_kept : Within env.cr4_shadow h.host_cr4
  pub cr0 : h.host_cr0 ≡ env.cr0
  pub cr3 : h.host_cr3 ≡ env.cr3
  pub gdtr : h.host_gdtr_base ≡ env.gdt cpu
  pub idtr : h.host_idtr_base ≡ env.idt_address
  pub tss : h.host_tr_base ≡ env.tss cpu
  pub gs_base : h.host_gs_base ≡ env.gs_base_of cpu
  pub fs_base : h.host_fs_base ≡ env.rdmsr Msr.fs_base
  pub stack : h.host_sysenter_esp ≡ (if env.ia32_emulation then env.entry_stack cpu else 0)
  pub efer : h.host_efer ≡ env.rdmsr Msr.efer
  pub sysenter_cs : h.host_sysenter_cs ≡ u32 (env.rdmsr Msr.sysenter_cs)
  pub sysenter_eip : h.host_sysenter_eip ≡ env.rdmsr Msr.sysenter_eip
  pub rip : h.host_rip ≡ env.vmexit

-- What does not change while the machine runs and is the same on each CPU: all but CR3, CR4 and
-- FS_BASE.
pub record SameMachine (env env' : HostEnv) : Type 0 where
  pub same_cr0 : env'.cr0 ≡ env.cr0
  pub same_idt : env'.idt_address ≡ env.idt_address
  pub same_config : env'.ia32_emulation ≡ env.ia32_emulation
  pub same_vmexit : env'.vmexit ≡ env.vmexit
  pub same_efer : env'.rdmsr Msr.efer ≡ env.rdmsr Msr.efer
  pub same_sysenter_cs : env'.rdmsr Msr.sysenter_cs ≡ env.rdmsr Msr.sysenter_cs
  pub same_sysenter_eip : env'.rdmsr Msr.sysenter_eip ≡ env.rdmsr Msr.sysenter_eip

stack_eq :
    (b b' : Bool) (at at' esp : ℕ)
    → b' ≡ b
    → (if b' then at' else (if b then at else (if not b then 0 else esp))) ≡ (if b' then at' else 0)
stack_eq true true at at' esp h = refl
stack_eq false false at at' esp h = refl
stack_eq true false at at' esp h = absurd (cc h)
stack_eq false true at at' esp h = refl

-- A VMCS that was set up on any CPU and is then loaded and entered on another, where CR0, the
-- IDT, EFER, the SYSENTER code segment and entry point and the exit's landing point are the same,
-- passes the checks of VM entry on host selectors and CR4.VMXE, and its exit gives back these,
-- the GDT, TSS, SYSENTER stack and per-CPU base of the CPU that enters, and the page table and FS
-- base of that moment.
pub refresh_host_state-IsHost :
    (env env' : HostEnv) (at cpu : ℕ) (h : HostArea)
    → SameMachine env env'
    → IsHost env' cpu (
        refresh_host_state env' cpu
          (fixup_host_for_cpu env' cpu (set_constant_host_state env at h)))
unfolding refresh_host_state fixup_host_for_cpu set_constant_host_state
refresh_host_state-IsHost env env' at cpu h same = record {
  cs = (refl, λ e. omega (arith, e));
  ds = refl;
  es = refl;
  ss = (refl, λ e. omega (arith, e));
  tr = (refl, λ e. omega (arith, e));
  fs = refl;
  gs = refl;
  vmxe = set-bit 13 env'.cr4_shadow cr4_vmxe cr4_vmxe refl refl refl;
  cr4_kept = Within-bit_or_left env'.cr4_shadow cr4_vmxe;
  cr0 = sym same.same_cr0;
  cr3 = refl;
  gdtr = refl;
  idtr = sym same.same_idt;
  tss = refl;
  gs_base = refl;
  fs_base = refl;
  stack =
      stack_eq env.ia32_emulation env'.ia32_emulation (env.entry_stack at) (env'.entry_stack cpu)
        h.host_sysenter_esp same.same_config;
  efer = sym same.same_efer;
  sysenter_cs = sym (ap u32 same.same_sysenter_cs);
  sysenter_eip = sym same.same_sysenter_eip;
  rip = sym same.same_vmexit;
}
