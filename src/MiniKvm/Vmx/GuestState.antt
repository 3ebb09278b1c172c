-- ===== src/MiniKvm/Vmx/GuestState.antt =====
-- phase9-capstone/practice/mini-kvm/vmx.c: the guest state that a new VMCS has.
use virtualization_learning.Base.{ℕ, ◌-◌, ◌%◌, ◌^◌, ◌<◌, bit_or, ◌≡◌, refl, arith, ◌>>>◌}

-- A segment register in the guest-state area.
pub record Segment : Type 0 where
  pub selector : ℕ
  pub seg_base : ℕ
  pub seg_limit : ℕ
  pub access_rights : ℕ

-- The guest-state area, as far as `mini_vmx_set_guest_state` writes it.
pub record GuestArea : Type 0 where
  pub rip : ℕ
  pub rsp : ℕ
  pub cr0 : ℕ
  pub cr3 : ℕ
  pub cr4 : ℕ
  pub efer : ℕ
  pub rflags : ℕ
  pub dr7 : ℕ
  pub interruptibility : ℕ
  pub pending_dbg_exceptions : ℕ
  pub activity_state : ℕ
  pub sysenter_cs : ℕ
  pub sysenter_esp : ℕ
  pub sysenter_eip : ℕ
  pub cs : Segment
  pub ss : Segment
  pub ds : Segment
  pub es : Segment
  pub fs : Segment
  pub gs : Segment
  pub ldtr : Segment
  pub tr : Segment
  pub gdtr_base : ℕ
  pub gdtr_limit : ℕ
  pub idtr_base : ℕ
  pub idtr_limit : ℕ

-- `MINI_GUEST_CR0`: PE, MP, ET, NE, WP and PG.
abbrev pub guest_cr0 : ℕ
guest_cr0 = bit_or (bit_or (bit_or (bit_or (bit_or 0x1 0x2) 0x10) 0x20) 0x10000) 0x80000000

-- `MINI_GUEST_CR4`: PAE and VMXE.
abbrev pub guest_cr4 : ℕ
guest_cr4 = bit_or 0x20 0x2000

-- `MINI_GUEST_EFER`: SCE, LME and LMA.
abbrev pub guest_efer : ℕ
guest_efer = bit_or (bit_or 0x1 0x100) 0x400

-- `MINI_SEG_AR_LDT_UNUSABLE`, `MINI_SEG_AR_CS64` and `MINI_SEG_AR_TSS64`.
abbrev pub seg_ar_unusable : ℕ
seg_ar_unusable = 0x10000

abbrev pub seg_ar_cs64 : ℕ
seg_ar_cs64 = 0xa09b

abbrev pub seg_ar_tss64 : ℕ
seg_ar_tss64 = 0x8b

unusable : Segment → Segment
unusable s = record s { selector = 0; access_rights = seg_ar_unusable }

-- `mini_vmx_set_guest_state`
unfoldable pub set_guest_state : GuestArea → GuestArea
unfolding unusable
set_guest_state g = record g {
  rip = 0x1000;
  rsp = 0x100000;
  cr3 = 0x6000;
  rflags = 2;
  cr0 = guest_cr0;
  cr4 = guest_cr4;
  efer = guest_efer;
  dr7 = 0x400;
  interruptibility = 0;
  pending_dbg_exceptions = 0;
  activity_state = 0;
  sysenter_cs = 0;
  sysenter_esp = 0;
  sysenter_eip = 0;
  cs = record { selector = 8; seg_base = 0; seg_limit = 0xffffffff; access_rights = seg_ar_cs64 };
  ss = unusable g.ss;
  ds = unusable g.ds;
  es = unusable g.es;
  fs = record (unusable g.fs) { seg_base = 0 };
  gs = record (unusable g.gs) { seg_base = 0 };
  ldtr = record (unusable g.ldtr) { seg_base = 0 };
  tr = record { selector = 0x10; seg_base = 0; seg_limit = 0x67; access_rights = seg_ar_tss64 };
  gdtr_base = 0;
  gdtr_limit = 0xffff;
  idtr_base = 0;
  idtr_limit = 0xffff;
}

abbrev bit_at : ℕ → ℕ → ℕ
bit_at k word = word >>> k % 2

-- The granularity of a usable segment: a limit whose low 12 bits are not all ones is in bytes, and
-- one that has a high bit is in pages.
abbrev IsGranular : Segment → Type 0
IsGranular s =
    (bit_at 15 s.access_rights ≡ 1 → s.seg_limit % 2 ^ 12 ≡ 2 ^ 12 - 1)
    × (bit_at 15 s.access_rights ≡ 0 → s.seg_limit < 2 ^ 20)

abbrev IsUnusable : Segment → Type 0
IsUnusable s = bit_at 16 s.access_rights ≡ 1

-- What VM entry checks of the guest state for a guest in 64-bit mode.
pub record IsEnterable (g : GuestArea) : Type 0 where
  paging : (bit_at 0 g.cr0 ≡ 1) × (bit_at 5 g.cr0 ≡ 1) × (bit_at 31 g.cr0 ≡ 1)
  pae : bit_at 5 g.cr4 ≡ 1
  vmxe : bit_at 13 g.cr4 ≡ 1
  long_mode : (bit_at 10 g.efer ≡ 1) × (bit_at 8 g.efer ≡ 1)
  page_table : g.cr3 % 4096 ≡ 0
  flags : (bit_at 1 g.rflags ≡ 1) × (bit_at 17 g.rflags ≡ 0)
  no_blocking : (g.interruptibility ≡ 0) × (g.activity_state ≡ 0) × (g.pending_dbg_exceptions ≡ 0)
  code :
      (g.cs.access_rights % 16 ≡ 11)
      × (bit_at 4 g.cs.access_rights ≡ 1)
      × (bit_at 7 g.cs.access_rights ≡ 1)
      × (bit_at 13 g.cs.access_rights ≡ 1)
      × (bit_at 14 g.cs.access_rights ≡ 0)
      × (bit_at 16 g.cs.access_rights ≡ 0)
  code_limit : IsGranular g.cs
  task :
      (g.tr.access_rights % 16 ≡ 11)
      × (bit_at 4 g.tr.access_rights ≡ 0)
      × (bit_at 7 g.tr.access_rights ≡ 1)
      × (bit_at 16 g.tr.access_rights ≡ 0)
      × (bit_at 2 g.tr.selector ≡ 0)
  task_limit : IsGranular g.tr
  others :
      IsUnusable g.ss
      × IsUnusable g.ds
      × IsUnusable g.es
      × IsUnusable g.fs
      × IsUnusable g.gs
      × IsUnusable g.ldtr
  bases : (g.fs.seg_base ≡ 0) × (g.gs.seg_base ≡ 0) × (g.ldtr.seg_base ≡ 0) × (g.tr.seg_base ≡ 0)
  tables : (g.gdtr_limit < 2 ^ 16) × (g.idtr_limit < 2 ^ 16)

pub set_guest_state-IsEnterable : (g : GuestArea) → IsEnterable (set_guest_state g)
unfolding set_guest_state
set_guest_state-IsEnterable g = record {
  paging = (refl, refl, refl);
  pae = refl;
  vmxe = refl;
  long_mode = (refl, refl);
  page_table = refl;
  flags = (refl, refl);
  no_blocking = (refl, refl, refl);
  code = (refl, refl, refl, refl, refl, refl);
  code_limit = (λ h. refl, λ h. absurd (omega (arith, h)));
  task = (refl, refl, refl, refl, refl);
  task_limit = (λ h. absurd (omega (arith, h)), λ h. omega arith);
  others = (refl, refl, refl, refl, refl, refl);
  bases = (refl, refl, refl, refl);
  tables = (omega arith, omega arith);
}
