-- ===== src/MiniVmm/Pci/Examples.antt =====
-- The theorems about minivmm's configuration space at concrete inputs.
use virtualization_learning.Base.{
  ℕ, ◌≡◌, refl, inr, true, false, Option, none, some, [], ◌∷◌, ◌++◌, arith, replicate,
}
use virtualization_learning.MiniVmm.Pci.{
  Vfio, find_bar_start, pt_config_read, pt_config_write, pci_config_io,
}
use virtualization_learning.MiniVmm.Pci.Bar.{pt_config_read-pt_config_write}
use virtualization_learning.MiniVmm.Pci.Access.{IsKept, pci_config_io-IsKept}

-- BAR 0 has 16 KiB and 64 bits; vector 1 of three is programmed.
abbrev vf_example : Vfio
vf_example = record {
  ready = true;
  bar_size = 0x4000 ∷ 0 ∷ 0 ∷ 0 ∷ 0 ∷ 0 ∷ [];
  bar_type = 4 ∷ 0 ∷ 0 ∷ 0 ∷ 0 ∷ 0 ∷ [];
  bar_is64 = true ∷ false ∷ false ∷ false ∷ false ∷ false ∷ [];
  bar_val = replicate 6 0;
  hostbridge_cfg = replicate 256 0;
  msix_cap = 0x60;
  msix_nr = 3;
  msix_shadow = replicate 17 0 ++ 0x10 ∷ 0xe0 ∷ 0xfe ∷ replicate 4 0 ++ 0x41 ∷ replicate 487 0;
  msix_msgctl = 2;
  msix_routing_done = false;
  armed = 0;
  pci_cfg_addr = 0x80000860;
  forwarded = [];
}

no_device : ℕ → ℕ → Option ℕ
no_device reg len = none

bar_zero : find_bar_start 0x10 0 (vf_example.bar_is64) ≡ some (0, false)
unfolding find_bar_start
bar_zero = refl

-- All ones give the size: 16 KiB.
pt_config_read-pt_config_write_example :
    pt_config_read no_device (pt_config_write true vf_example 0x10 4 0xffffffff) 0x10 4 ≡ 0xffffc004
pt_config_read-pt_config_write_example =
    pt_config_read-pt_config_write no_device true vf_example 0 0xffffffff 0 18 10 false
      (omega arith) bar_zero (inr (omega arith)) (omega arith) (omega arith) refl refl (omega arith)

pci_config_io-IsKept_example :
    IsKept vf_example (pci_config_io no_device true 0xcfe true 0xffff 2 vf_example).2
pci_config_io-IsKept_example = pci_config_io-IsKept no_device true 0xcfe true 0xffff 2 vf_example
