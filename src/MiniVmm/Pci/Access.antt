-- ===== src/MiniVmm/Pci/Access.antt =====
-- What no access to the configuration space of minivmm.c changes.
pub mod Kept
use virtualization_learning.Base.{
  ℕ, zero, suc, ◌+◌, ◌-◌, ◌*◌, ◌%◌, ◌^◌, bit_and, bit_or, ◌≡◌, refl, sym, ◌∙◌, Bool, true, false,
  not, ◌&&◌, Option, none, some, List, ◌∷◌, arith, ltb, leb, ◌==◌, nonzero, if◌then◌else◌, if-intro,
  length, set, get_or, ◌<<<◌, ◌>>>◌, length-set,
}
use virtualization_learning.MiniVmm.Pci.{
  Vfio, find_bar_start, implemented, write_half, write_msgctl, setup_irqs, maybe_arm, write_other,
  write_found, pt_config_read, pt_config_write, bridge_write, bridge_read, config_data,
  pci_config_io, in_bars,
}
pub use virtualization_learning.MiniVmm.Pci.Access.Kept.{IsKept, kept}
use virtualization_learning.MiniVmm.Pci.Access.Kept.{write_msgctl-low}

maybe_arm-IsKept :
    (works : Bool) (vf vf' : Vfio)
    → IsKept vf vf'
    → vf'.msix_routing_done ≡ vf.msix_routing_done
    → IsKept vf (maybe_arm works vf')
unfolding maybe_arm setup_irqs
maybe_arm-IsKept works vf vf' k same =
    either (nonzero (bit_and vf'.msix_msgctl 0x8000)) (nonzero (bit_and vf'.msix_msgctl 0x4000))
      vf'.msix_routing_done refl
  where
    either :
        (enable funcmask done : Bool)
        → vf'.msix_routing_done ≡ done
        → IsKept vf (if enable && (not funcmask && not done) then setup_irqs works vf' else vf')
    either false funcmask done e = k
    either true true done e = k
    either true false true e = k
    either true false false e = record {
      sizes = k.sizes;
      types = k.types;
      wide = k.wide;
      bars = k.bars;
      bridge = k.bridge;
      capability = k.capability;
      vectors = k.vectors;
      table = k.table;
      read_only = k.read_only;
      once = λ h. absurd (cc (sym h ∙ (sym same ∙ e)));
    }

write_other-IsKept :
    (works : Bool) (reg len val : ℕ) (vf : Vfio) → IsKept vf (write_other works reg len val vf)
unfolding write_other
write_other-IsKept works reg len val vf =
    let mc = write_msgctl val (reg - (vf.msix_cap + 2)) 0 len vf.msix_msgctl in
    if-intro (IsKept vf)
      (nonzero vf.msix_cap && (leb (vf.msix_cap + 2) reg && ltb reg (vf.msix_cap + 4)))
      {y = record vf { forwarded = (reg, len, val) ∷ vf.forwarded }}
      (maybe_arm-IsKept works vf (record vf { msix_msgctl = mc })
        (message mc (write_msgctl-low val (reg - (vf.msix_cap + 2)) 0 len vf.msix_msgctl)) refl)
      (forward vf.forwarded)
  where
    message :
        (mc : ℕ)
        → mc % 2 ^ 14 ≡ vf.msix_msgctl % 2 ^ 14
        → IsKept vf (record vf { msix_msgctl = mc })
    message mc e = record {
      sizes = refl;
      types = refl;
      wide = refl;
      bars = refl;
      bridge = refl;
      capability = refl;
      vectors = refl;
      table = refl;
      read_only = e;
      once = λ h. (refl, h);
    }

    forward : (ws : List (ℕ × ℕ × ℕ)) → IsKept vf (record vf { forwarded = (reg, len, val) ∷ ws })
    forward ws = record {
      sizes = refl;
      types = refl;
      wide = refl;
      bars = refl;
      bridge = refl;
      capability = refl;
      vectors = refl;
      table = refl;
      read_only = refl;
      once = λ h. (refl, h);
    }

write_found-IsKept :
    (works : Bool) (reg len val : ℕ) (vf : Vfio) (o : Option (ℕ × Bool))
    → IsKept vf (write_found works reg len val vf o)
unfolding write_found write_half
write_found-IsKept works reg len val vf none = write_other-IsKept works reg len val vf
write_found-IsKept works reg len val vf (some (i, hi)) = record {
  sizes = refl;
  types = refl;
  wide = refl;
  bars = length-set vf.bar_val i (
      if hi
      then bit_or (val <<< 32) (bit_and (get_or vf.bar_val i 0) 0xffffffff)
      else bit_or (bit_and (get_or vf.bar_val i 0) 0xffffffff00000000) (bit_and val 0xfffffff0));
  bridge = refl;
  capability = refl;
  vectors = refl;
  table = refl;
  read_only = refl;
  once = λ h. (refl, h);
}

pt_config_write-IsKept :
    (works : Bool) (vf : Vfio) (reg len val : ℕ) → IsKept vf (pt_config_write works vf reg len val)
unfolding pt_config_write
pt_config_write-IsKept works vf reg len val =
    if-intro (IsKept vf) (in_bars reg && len == 4)
      (write_found-IsKept works reg len val vf (implemented vf (find_bar_start reg 0 vf.bar_is64)))
      (write_other-IsKept works reg len val vf)

length-bridge_write :
    (val reg i n : ℕ) (cfg : List ℕ) → length (bridge_write val reg i n cfg) ≡ length cfg
unfolding bridge_write
length-bridge_write val reg i zero cfg = refl
length-bridge_write val reg i (suc n) cfg =
    let byte = bit_and (val >>> (i * 8)) 0xff in
    if-intro (λ (c : List ℕ). length c ≡ length cfg) (ltb (reg + i) 256)
      (length-bridge_write val reg (suc i) n (set cfg (reg + i) byte)
        ∙ length-set cfg (reg + i) byte)
      refl

config_data-IsKept :
    (dev_read : ℕ → ℕ → Option ℕ) (works : Bool) (devfn reg : ℕ) (is_write : Bool) (val size : ℕ)
    (vf : Vfio)
    → IsKept vf (config_data dev_read works devfn reg is_write val size vf).1
unfolding config_data
config_data-IsKept dev_read works devfn reg is_write val size vf =
    let cfg = bridge_write val reg 0 size vf.hostbridge_cfg in
    if-intro P (devfn == 0)
      (if-intro P is_write {x = (val, record vf { hostbridge_cfg = cfg })}
        {y = (bridge_read reg 0 size vf.hostbridge_cfg, vf)}
        (bridged cfg (length-bridge_write val reg 0 size vf.hostbridge_cfg)) (kept vf))
      (if-intro P (devfn == 8) {y = (if is_write then val else 0xffffffff, vf)}
        (if-intro P is_write {x = (val, pt_config_write works vf reg size val)}
          {y = (pt_config_read dev_read vf reg size, vf)}
          (pt_config_write-IsKept works vf reg size val) (kept vf))
        (kept vf))
  where
    P : ℕ × Vfio → Type 0
    P r = IsKept vf r.1

    bridged :
        (cfg : List ℕ)
        → length cfg ≡ length vf.hostbridge_cfg
        → IsKept vf (record vf { hostbridge_cfg = cfg })
    bridged cfg e = record {
      sizes = refl;
      types = refl;
      wide = refl;
      bars = refl;
      bridge = e;
      capability = refl;
      vectors = refl;
      table = refl;
      read_only = refl;
      once = λ h. (refl, h);
    }

-- No access of the guest to an IO port of the configuration space changes the sizes and types of
-- the BARs, the layout of MSI-X, a size of a table or a read-only bit of Message Control; and once
-- the arming of the vectors has succeeded, none arms them again.
pub pci_config_io-IsKept :
    (dev_read : ℕ → ℕ → Option ℕ) (works : Bool) (port : ℕ) (is_write : Bool) (val size : ℕ)
    (vf : Vfio)
    → IsKept vf (pci_config_io dev_read works port is_write val size vf).2
unfolding pci_config_io
pci_config_io-IsKept dev_read works port is_write val size vf =
    if-intro P (not vf.ready) {x = (false, val, vf)} same (
      if-intro P (port == 0xcf8 && size == 4)
        (if-intro P is_write {x = (true, val, record vf { pci_cfg_addr = val })}
          {y = (true, vf.pci_cfg_addr, vf)} addressed same)
        (if-intro P (leb 0xcfc port && ltb port (0xcfc + 4)) {y = (false, val, vf)}
          (if-intro P (not (nonzero (bit_and vf.pci_cfg_addr 0x80000000)))
            {x = (true, if is_write then val else 0xffffffff, vf)} same
            (if-intro P (not (bit_and (vf.pci_cfg_addr >>> 16) 0xff == 0))
              {x = (true, if is_write then val else 0xffffffff, vf)} same
              (data_ (bit_and (vf.pci_cfg_addr >>> 8) 0xff)
                (bit_or (bit_and vf.pci_cfg_addr 0xfc) (port - 0xcfc)))))
          same))
  where
    P : Bool × ℕ × Vfio → Type 0
    P r = IsKept vf r.2

    same : IsKept vf vf
    same = kept vf

    addressed : IsKept vf (record vf { pci_cfg_addr = val })
    addressed = record {
      sizes = refl;
      types = refl;
      wide = refl;
      bars = refl;
      bridge = refl;
      capability = refl;
      vectors = refl;
      table = refl;
      read_only = refl;
      once = λ h. (refl, h);
    }

    data_ :
        (devfn reg : ℕ) → IsKept vf (config_data dev_read works devfn reg is_write val size vf).1
    data_ devfn reg = config_data-IsKept dev_read works devfn reg is_write val size vf
