-- ===== src/MiniKvm/Vmx/Examples.antt =====
-- The theorems about the VMCS of mini-kvm at concrete inputs.
use virtualization_learning.Base.{ℕ, ◌+◌, ◌*◌, refl, true, false, none, some, [], replicate}
use virtualization_learning.MiniKvm.RunLoop.{Answers, is_loaded}
use virtualization_learning.MiniKvm.Vmx.{
  Msr, compute_controls, HostArea, HostEnv, refresh_host_state, fixup_host_for_cpu,
  set_constant_host_state,
}
use virtualization_learning.MiniKvm.Vmx.Negotiation.{
  AreCapabilities, Outcome, compute_controls-Outcome,
}
use virtualization_learning.MiniKvm.Vmx.HostState.{IsHost, refresh_host_state-IsHost}
use virtualization_learning.MiniKvm.Vmx.GuestState.{Segment, GuestArea}
use virtualization_learning.MiniKvm.Vmx.Setup.{
  VmcsArea, VmxVcpu, Given, SetupAnswers, vcpu_vmx_setup,
}
use virtualization_learning.MiniKvm.Vmx.Setup.Ready.{
  IsUnloaded, SetupOutcome, vcpu_vmx_setup-Outcome,
}

-- A processor that allows every control and demands three.
abbrev rdmsr : Msr → ℕ
rdmsr index = 0xffffffff00000016

rdmsr-AreCapabilities : AreCapabilities rdmsr true
rdmsr-AreCapabilities = (refl, refl, refl, refl, refl)

compute_controls-Outcome_example : Outcome rdmsr true (compute_controls rdmsr true)
compute_controls-Outcome_example = compute_controls-Outcome rdmsr true rdmsr-AreCapabilities

abbrev host_env : HostEnv
host_env = record {
  cr0 = 0x80050033;
  cr3 = 0x5000;
  cr4_shadow = 0x3606f0;
  idt_address = 0xfffe0000;
  gdt = λ cpu. 0x100000 + cpu * 4096;
  tss = λ cpu. 0x200000 + cpu * 4096;
  entry_stack = λ cpu. 0x300000 + cpu * 4096;
  gs_base_of = λ cpu. 0x400000 + cpu * 4096;
  rdmsr = rdmsr;
  ia32_emulation = true;
  vmexit = 0x1234;
}

abbrev host_empty : HostArea
host_empty = record {
  host_cr0 = 0;
  host_cr3 = 0;
  host_cr4 = 0;
  host_cs = 0;
  host_ds = 0;
  host_es = 0;
  host_ss = 0;
  host_tr = 0;
  host_fs = 0;
  host_gs = 0;
  host_idtr_base = 0;
  host_gdtr_base = 0;
  host_tr_base = 0;
  host_fs_base = 0;
  host_gs_base = 0;
  host_sysenter_cs = 0;
  host_sysenter_esp = 0;
  host_sysenter_eip = 0;
  host_efer = 0;
  host_rip = 0;
}

-- The VMCS is set up on CPU 0; when it is entered on CPU 1, another page table is loaded.
abbrev later_env : HostEnv
later_env = record host_env { cr3 = 0x7000 }

refresh_host_state-IsHost_example : IsHost later_env 1 (
    refresh_host_state later_env 1
      (fixup_host_for_cpu later_env 1 (set_constant_host_state host_env 0 host_empty)))
refresh_host_state-IsHost_example =
    refresh_host_state-IsHost host_env later_env 0 1 host_empty record {
      same_cr0 = refl;
      same_idt = refl;
      same_config = refl;
      same_vmexit = refl;
      same_efer = refl;
      same_sysenter_cs = refl;
      same_sysenter_eip = refl;
    }

abbrev segment_empty : Segment
segment_empty = record { selector = 0; seg_base = 0; seg_limit = 0; access_rights = 0 }

abbrev guest_empty : GuestArea
guest_empty = record {
  rip = 0;
  rsp = 0;
  cr0 = 0;
  cr3 = 0;
  cr4 = 0;
  efer = 0;
  rflags = 0;
  dr7 = 0;
  interruptibility = 0;
  pending_dbg_exceptions = 0;
  activity_state = 0;
  sysenter_cs = 0;
  sysenter_esp = 0;
  sysenter_eip = 0;
  cs = segment_empty;
  ss = segment_empty;
  ds = segment_empty;
  es = segment_empty;
  fs = segment_empty;
  gs = segment_empty;
  ldtr = segment_empty;
  tr = segment_empty;
  gdtr_base = 0;
  gdtr_limit = 0;
  idtr_base = 0;
  idtr_limit = 0;
}

abbrev area_empty : VmcsArea
area_empty = record {
  controls = record { pin_based = 0; cpu_based = 0; secondary = 0; exit_ctls = 0; entry_ctls = 0 };
  exception_bitmap = 0;
  page_fault_mask = 0;
  page_fault_match = 0;
  cr3_target_count = 0;
  link_pointer = 0;
  tpr_threshold = 0;
  ept_pointer = 0;
  guest = guest_empty;
  host = host_empty;
}

-- A new vCPU; the thread is on CPU 1.
abbrev new_vcpu : VmxVcpu
new_vcpu = record {
  vcpu = record {
    regs = replicate 16 0;
    launched = false;
    loaded_cpu = none;
    pending_intr_info = 0;
    n_exits = 0;
    n_io_exits = 0;
    n_ept_violations = 0;
    n_hlt_exits = 0;
    n_extint_exits = 0;
    n_nmi_exits = 0;
    n_injected = 0;
  };
  cpu = record {
    here = 1;
    in_vmx = λ i. true;
    online = λ i. true;
    irqs_on = true;
    preempt_count = 0;
    kernel_gs_base = 0;
    active = λ i. false;
    launch_state = false;
    flushed = false;
    cross_calls = [];
  };
  vmcs_page = none;
  revision = 0;
  area = area_empty;
  freed = [];
}

new_vcpu-IsUnloaded : IsUnloaded new_vcpu
unfolding is_loaded
new_vcpu-IsUnloaded = record {
  synced = record { launch = refl; active_at = λ c. refl; unloaded = λ h. refl };
  nowhere = refl;
}

abbrev given : Given
given = record { env = host_env; vmcs_revision_id = 4; true_ctls = true; eptp = 0x501e }

abbrev nothing_fails : Answers
nothing_fails = record { vmclear_fails = false; vmptrld_fails = false; invept_fails = false }

abbrev stays : SetupAnswers
stays = record { page = some 9; first = nothing_fails; moved_to = 1; unload = nothing_fails }

vcpu_vmx_setup-Outcome_example :
    let (status, s') = vcpu_vmx_setup given stays new_vcpu in
    IsUnloaded s' × SetupOutcome given (some 9) [] status s'
vcpu_vmx_setup-Outcome_example =
    vcpu_vmx_setup-Outcome given stays new_vcpu rdmsr-AreCapabilities refl refl new_vcpu-IsUnloaded
      refl
