-- ===== src/MiniVmm/Cpuid/Examples.antt =====
-- The theorem on setup_cpuid (minivmm.c) at a concrete input.
use virtualization_learning.Base.{◌+◌, ◌<◌, ◌≡◌, ◌⊎◌, none, some, List, [], ◌∷◌, arith}
use virtualization_learning.MiniVmm.Cpuid.{max_cpuid_entries, CpuidEntry, setup_cpuid}
use virtualization_learning.MiniVmm.Cpuid.Presented.{IsPresented, missing, setup_cpuid-IsPresented}

-- A host with x2APIC on the processor with APIC ID 7.
abbrev host_leaves : List CpuidEntry
host_leaves =
    record {
      function = 1;
      index = 0;
      flags = 0;
      eax = 0x50657;
      ebx = 0x07600800;
      ecx = 0x76fab223;
      edx = 0x178bfbff;
    }
    ∷ []

setup_cpuid-IsPresented_example :
    ((max_cpuid_entries < 1 + missing host_leaves) × (setup_cpuid host_leaves ≡ none))
    ⊎ ((es' : List CpuidEntry) × (setup_cpuid host_leaves ≡ some es') × IsPresented host_leaves es')
setup_cpuid-IsPresented_example = setup_cpuid-IsPresented host_leaves (omega arith)
