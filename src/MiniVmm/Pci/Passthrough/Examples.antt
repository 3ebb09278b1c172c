-- ===== src/MiniVmm/Pci/Passthrough/Examples.antt =====
-- The theorems on the passed-through device of minivmm.c at concrete inputs.
use virtualization_learning.Base.{
  ◌^◌, ◌↔◌, ℕ, ◌+◌, ◌*◌, ◌%◌, ◌≤◌, ◌<◌, ◌≡◌, refl, true, false, none, some, [], ◌∷◌, ◌++◌, arith,
  ◌==◌, if◌then◌else◌, length, get_or, replicate,
}
use virtualization_learning.MiniVmm.Virtio.Mmio.{MmioExit}
use virtualization_learning.MiniVmm.Pci.{Vfio}
use virtualization_learning.MiniVmm.Pci.Routes.{is_programmed, routes_of, programmed, update_routes}
use virtualization_learning.MiniVmm.Pci.Passthrough.{
  Host, Passthrough, find_mmio, handle_pt_mmio, msix_setup_irqs,
}
use virtualization_learning.MiniVmm.Pci.Passthrough.Safe.{is_fault, handle_pt_mmio-fault, Overruns}
use virtualization_learning.MiniVmm.Pci.Passthrough.Vectors.{Attached, msix_setup_irqs-delivers}
use virtualization_learning.MiniVmm.Pci.Passthrough.Discovery.{le16, le32, discover, discover-finds}

-- 40 vectors in BAR 2; vector 1 is programmed.
abbrev vf_table : Vfio
vf_table = record {
  ready = true;
  bar_size = 0x40 ∷ 0 ∷ 0x1000 ∷ 0 ∷ 0 ∷ 0 ∷ [];
  bar_type = replicate 6 0;
  bar_is64 = replicate 6 false;
  bar_val = 0xe0000000 ∷ 0 ∷ 0xe0001000 ∷ 0 ∷ 0 ∷ 0 ∷ [];
  hostbridge_cfg = replicate 256 0;
  msix_cap = 0x60;
  msix_nr = 40;
  msix_shadow = replicate 17 0 ++ 0x10 ∷ 0xe0 ∷ 0xfe ∷ replicate 4 0 ++ 0x41 ∷ replicate 487 0;
  msix_msgctl = 0x8027;
  msix_routing_done = true;
  armed = 1;
  pci_cfg_addr = 0;
  forwarded = [];
}

abbrev pt_table : Passthrough
pt_table = record {
  vf = vf_table;
  msix_table_off = 0;
  msix_table_bar = 2;
  msix_cfg_vec = 0xffff;
  msix_q_vec = 0xffff;
  pt_notifies = 0;
  pt_notify_last = 0;
  pt_ctrl_fwd = 0;
  msix_efd = replicate 32 none;
  routes = update_routes vf_table;
  irqfds = [];
  device_fds = [];
  region_writes = [];
}

abbrev host : Host
host = record {
  region_read = λ b off len. replicate len 0;
  accepts = λ b off. true;
  eventfd = λ v. some (10 + v);
  irqfd_works = λ gsi. true;
  routing_works = true;
  set_irqs_works = true;
  msix_slowpath = false;
}

-- The guest masks vector 32, whose entry the shadow has no room for.
abbrev mask_32 : MmioExit
mask_32 = record {
  phys_addr = 0xe0001000 + 32 * 16 + 12;
  len = 4;
  is_write = true;
  bytes = 1 ∷ replicate 7 0;
}

mask_32-found : find_mmio mask_32.phys_addr vf_table.bar_val vf_table.bar_size 0 ≡ some (2, 524)
unfolding find_mmio
mask_32-found = refl

handle_pt_mmio-fault_example :
    (is_fault (handle_pt_mmio host mask_32 pt_table) ≡ true) ↔ Overruns 2 524 mask_32 pt_table
handle_pt_mmio-fault_example =
    handle_pt_mmio-fault host mask_32 pt_table 2 524 refl mask_32-found refl

-- The guest changes the data of vector 1.
abbrev data_1 : MmioExit
data_1 = record {
  phys_addr = 0xe0001000 + 16 + 8;
  len = 4;
  is_write = true;
  bytes = 0x42 ∷ replicate 7 0;
}

programmed_1 : is_programmed vf_table.msix_shadow 1 ≡ true
unfolding is_programmed
programmed_1 = refl

msix_setup_irqs-delivers_example :
    let d' = msix_setup_irqs host pt_table in
    (get_or d'.device_fds 1 none ≡ some 11)
    × Attached 11 25 d'.irqfds
    × (routes_of 25 d'.routes ≡ programmed vf_table.msix_shadow 1 ∷ [])
    × (d'.vf.msix_routing_done ≡ true)
msix_setup_irqs-delivers_example =
    msix_setup_irqs-delivers host pt_table 1 11 refl refl refl refl (omega arith) programmed_1 refl
      refl

-- Power management at 0x40, then MSI-X at 0x60.
abbrev config_space : ℕ → ℕ
config_space at =
    if at == 0x34
    then 0x40
    else if at == 0x40
    then 0x01
    else if at == 0x41
    then 0x60
    else if at == 0x60
    then 0x11
    else if at == 0x62
    then 0x02
    else 0

discover-finds_example :
    let d = discover config_space (λ b. 0x1000) in
    (d.vf.msix_cap ≡ 0x60)
    × (d.vf.msix_nr ≡ le16 config_space (d.vf.msix_cap + 2) % 2048 + 1)
    × (d.vf.msix_nr ≤ 2048)
    × (d.msix_table_bar + d.msix_table_off ≡ le32 config_space (d.vf.msix_cap + 4) % 2 ^ 32)
    × (d.msix_table_bar < 8)
    × (d.msix_table_off % 8 ≡ 0)
    × (d.msix_efd ≡ replicate 32 none)
    × (length d.vf.msix_shadow ≡ 512)
    × (d.vf.msix_routing_done ≡ false)
discover-finds_example =
    discover-finds config_space (λ b. 0x1000) 1 (omega arith)
      (λ e. omega (arith, e), λ e. omega (arith, e), tt) (λ e. omega (arith, e)) refl
