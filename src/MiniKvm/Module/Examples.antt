-- ===== src/MiniKvm/Module/Examples.antt =====
-- The theorems about the module's load and unload at concrete inputs.
use virtualization_learning.Base.{◌≡◌, refl, true, false, none, some, [], ◌∷◌}
use virtualization_learning.MiniKvm.{Errno, ok, err}
use virtualization_learning.MiniKvm.Module.{PerCpu, Global, module_init, module_exit}
use virtualization_learning.MiniKvm.Module.Restore.{AllCpus, IsClean, IsEntered}
use virtualization_learning.MiniKvm.Module.Load.{IsRestored, module_init-module_exit}

abbrev cpu_clean : PerCpu
cpu_clean = record {
  online = true;
  has_vmx = true;
  feat_ctl = 5;
  vmxon_fails = false;
  vmxoff_fails = false;
  vmxe = false;
  in_operation = false;
  vmxon_page = none;
  vmxon_done = false;
}

-- Three CPUs: one is offline, and on the last one another hypervisor has set CR4.VMXE.
abbrev host : Global
host = record {
  cpus = cpu_clean ∷ record cpu_clean { online = false } ∷ record cpu_clean { vmxe = true } ∷ [];
  enable_err = ok tt;
  enable_count = 0;
  vmx_enabled = false;
  pages = some 3 ∷ some 8 ∷ some 5 ∷ [];
  allocated = [];
  freed = [];
}

module_init-module_exit_example :
    let (r, g') = module_init cpu_clean 0x4004040 (ok tt) host in
    ((e : Errno) → r ≡ err e → IsRestored host g')
    × (r ≡ ok tt → AllCpus IsEntered g'.cpus × IsRestored host (module_exit g'))
module_init-module_exit_example =
    module_init-module_exit cpu_clean 0x4004040 (ok tt) host
      (clean, (clean_offline, (clean_busy, tt))) refl refl
  where
    clean : IsClean cpu_clean
    clean = record {
      out = record { not_done = refl; outside = refl; off_works = refl };
      no_page = refl;
    }

    clean_offline : IsClean (record cpu_clean { online = false })
    clean_offline = record {
      out = record { not_done = refl; outside = refl; off_works = refl };
      no_page = refl;
    }

    clean_busy : IsClean (record cpu_clean { vmxe = true })
    clean_busy = record {
      out = record { not_done = refl; outside = refl; off_works = refl };
      no_page = refl;
    }
