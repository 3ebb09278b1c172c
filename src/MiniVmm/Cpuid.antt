-- ===== src/MiniVmm/Cpuid.antt =====
-- phase9-capstone/practice/minivmm.c: what the guest sees of the processor, setup_cpuid.
--
-- The leaves that KVM supports are an argument: KVM_GET_SUPPORTED_CPUID gives at most as many as
-- there is room for. The buffer is zeroed, so an entry that is added has zeros where nothing is
-- stored. A store beyond the buffer has no result: `none`.
pub mod Presented
mod Examples
use virtualization_learning.Base.{
  ℕ, zero, suc, bit_and, bit_or, Bool, false, not, ◌&&◌, ◌||◌, Option, none, some, List, [], ◌∷◌,
  ◌++◌, arith, ltb, ◌==◌, if◌then◌else◌, length, ◌<<<◌, not32,
}

-- `MAX_CPUID_ENTRIES`
abbrev pub max_cpuid_entries : ℕ
max_cpuid_entries = 256

-- `struct kvm_cpuid_entry2`
pub record CpuidEntry : Type 0 where
  pub function : ℕ
  pub index : ℕ
  pub flags : ℕ
  pub eax : ℕ
  pub ebx : ℕ
  pub ecx : ℕ
  pub edx : ℕ

abbrev pub is_leaf : ℕ → CpuidEntry → Bool
is_leaf leaf e = e.function == leaf

abbrev pub is_leaf_one : CpuidEntry → Bool
is_leaf_one e = e.function == 1 && e.index == 0

-- Leaf 1: no x2APIC, a hypervisor, one logical processor with APIC ID 0.
unfoldable pub filter_entry : CpuidEntry → CpuidEntry
filter_entry e =
    if is_leaf_one e
    then record e {
      ecx = bit_or (bit_and e.ecx (not32 (1 <<< 21))) (1 <<< 31);
      ebx = bit_or (bit_and e.ebx 0x0000ffff) (1 <<< 16);
    }
    else e

-- The loop over the entries: the entries after it, `has_sig` and `has_feat`.
unfoldable pub filter_entries : List CpuidEntry → Bool → Bool → List CpuidEntry × Bool × Bool
unfolding filter_entry
filter_entries [] has_sig has_feat = ([], has_sig, has_feat)
filter_entries (e ∷ es) has_sig has_feat =
    let (es', sig, feat) =
      filter_entries es (is_leaf 0x40000000 e || has_sig) (is_leaf 0x40000001 e || has_feat) in
    (filter_entry e ∷ es', sig, feat)

-- `cpuid->entries[cpuid->nent++]`
add_entry : CpuidEntry → Option (List CpuidEntry) → Option (List CpuidEntry)
add_entry e none = none
add_entry e (some es) = if ltb (length es) max_cpuid_entries then some (es ++ e ∷ []) else none

abbrev pub signature_entry : CpuidEntry
signature_entry = record {
  function = 0x40000000;
  index = 0;
  flags = 0;
  eax = 0x40000001;
  ebx = 0x4b4d564b;
  ecx = 0x564b4d56;
  edx = 0x4d;
}

abbrev pub features_entry : CpuidEntry
features_entry = record {
  function = 0x40000001;
  index = 0;
  flags = 0;
  eax = bit_or (bit_or (bit_or (1 <<< 0) (1 <<< 3)) (1 <<< 6)) (1 <<< 9);
  ebx = 0;
  ecx = 0;
  edx = 0;
}

add_missing : List CpuidEntry × Bool × Bool → Option (List CpuidEntry)
unfolding add_entry
add_missing (es, has_sig, has_feat) =
    let es1 = if not has_sig then add_entry signature_entry (some es) else some es in
    if not has_feat then add_entry features_entry es1 else es1

-- `setup_cpuid`: the entries given to KVM_SET_CPUID2.
unfoldable pub setup_cpuid : List CpuidEntry → Option (List CpuidEntry)
unfolding filter_entries add_missing
setup_cpuid es = add_missing (filter_entries es false false)
