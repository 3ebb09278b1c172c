-- ===== src/MiniVmm/Pci.antt =====
-- phase9-capstone/practice/minivmm.c: the configuration space of the guest's PCI bus, with a host
-- bridge and the device that is passed through.
--
-- `dev_read` is what `pread` on VFIO's configuration region gives for a register and a length, and
-- the writes that go there are the list `forwarded`, newest first.
pub mod Bar
pub mod Routes
pub mod Access
pub mod Passthrough
mod Examples
use virtualization_learning.Base.{
  ℕ, zero, suc, ◌+◌, ◌-◌, ◌*◌, bit_and, bit_or, Bool, true, false, not, ◌&&◌, ◌||◌, Option, none,
  some, List, [], ◌∷◌, arith, ltb, leb, ◌==◌, nonzero, if◌then◌else◌, set, get_or, u16, u32, ◌<<<◌,
  ◌>>>◌, not32,
}

-- `vf`, as far as the configuration space and the routes use it; the lists of the BARs have 6
-- entries. `armed` counts the calls of `msix_setup_irqs`.
pub record Vfio : Type 0 where
  pub ready : Bool
  pub bar_size : List ℕ
  pub bar_type : List ℕ
  pub bar_is64 : List Bool
  pub bar_val : List ℕ
  pub hostbridge_cfg : List ℕ
  pub msix_cap : ℕ
  pub msix_nr : ℕ
  pub msix_shadow : List ℕ
  pub msix_msgctl : ℕ
  pub msix_routing_done : Bool
  pub armed : ℕ
  pub pci_cfg_addr : ℕ
  pub forwarded : List (ℕ × ℕ × ℕ)

-- The BAR that a register belongs to, and whether it is its upper half: the search of the read,
-- which takes every byte of a BAR.
unfoldable pub find_bar : ℕ → ℕ → List Bool → Option (ℕ × Bool)
find_bar reg i [] = none
find_bar reg i (is64 ∷ rest) =
    let later = find_bar reg (suc i) rest in
    let lo_reg = 0x10 + i * 4 in
    if leb lo_reg reg && ltb reg (lo_reg + 4)
    then some (i, false)
    else if is64 && (leb (lo_reg + 4) reg && ltb reg (lo_reg + 8))
    then some (i, true)
    else later

-- The search of the write, which takes only the first byte.
unfoldable pub find_bar_start : ℕ → ℕ → List Bool → Option (ℕ × Bool)
find_bar_start reg i [] = none
find_bar_start reg i (is64 ∷ rest) =
    let later = find_bar_start reg (suc i) rest in
    let lo_reg = 0x10 + i * 4 in
    if reg == lo_reg
    then some (i, false)
    else if is64 && reg == lo_reg + 4
    then some (i, true)
    else later

-- A BAR that the device has
implemented : Vfio → Option (ℕ × Bool) → Option (ℕ × Bool)
implemented vf none = none
implemented vf (some (i, hi)) = if nonzero (get_or vf.bar_size i 0) then some (i, hi) else none

-- The register of a BAR as the guest sees it.
unfoldable pub bar_register : Vfio → ℕ → Bool → ℕ
bar_register vf i hi =
    let v = get_or vf.bar_val i 0 in
    if hi
    then u32 (v >>> 32)
    else bit_or (bit_and (u32 v) (not32 (u32 (get_or vf.bar_size i 0 - 1))))
        (get_or vf.bar_type i 0)

-- The device's answer, with all ones where `pread` fails.
device_read : (ℕ → ℕ → Option ℕ) → ℕ → ℕ → ℕ
device_read dev_read reg len = elim (dev_read reg len) [ none ↦ 0xffffffff | some val ↦ val ]

read_bar : (ℕ → ℕ → Option ℕ) → Vfio → ℕ → ℕ → Option (ℕ × Bool) → ℕ
unfolding device_read
read_bar dev_read vf reg len none = device_read dev_read reg len
read_bar dev_read vf reg len (some (i, hi)) =
    let r = bar_register vf i hi in
    if len == 4 then r else bit_and (r >>> (bit_and reg 3 * 8)) (if len == 2 then 0xffff else 0xff)

-- The bytes of the shadow of Message Control from the byte `at` on.
msgctl_bytes : ℕ → ℕ → ℕ → ℕ → ℕ
msgctl_bytes mc at i zero = 0
msgctl_bytes mc at i (suc n) =
    bit_or (bit_and (mc >>> ((at + i) * 8)) 0xff <<< (i * 8)) (msgctl_bytes mc at (suc i) n)

in_bars : ℕ → Bool
in_bars reg = leb 0x10 reg && ltb reg 0x28

-- `pt_config_read`
unfoldable pub pt_config_read : (ℕ → ℕ → Option ℕ) → Vfio → ℕ → ℕ → ℕ
unfolding implemented read_bar device_read msgctl_bytes in_bars
pt_config_read dev_read vf reg len =
    if nonzero vf.msix_cap && (leb (vf.msix_cap + 2) reg && leb (reg + len) (vf.msix_cap + 4))
    then msgctl_bytes vf.msix_msgctl (reg - (vf.msix_cap + 2)) 0 len
    else if in_bars reg
    then read_bar dev_read vf reg len (implemented vf (find_bar reg 0 vf.bar_is64))
    else device_read dev_read reg len

-- A write of one half of a BAR
unfoldable pub write_half : ℕ → ℕ → Bool → Vfio → Vfio
write_half val i hi vf =
    let v = get_or vf.bar_val i 0 in
    record vf {
      bar_val = set vf.bar_val i (
          if hi
          then bit_or (val <<< 32) (bit_and v 0xffffffff)
          else bit_or (bit_and v 0xffffffff00000000) (bit_and val 0xfffffff0));
    }

-- One byte of a write to Message Control: only Enable and Function Mask can change.
write_msgctl_byte : ℕ → ℕ → ℕ → ℕ
write_msgctl_byte b bitpos mc =
    if ltb bitpos 16
    then (let mask = bit_and 0xc000 (0xff <<< bitpos) in
        u16 (bit_or (bit_and mc (not32 mask)) (bit_and (u16 (b <<< bitpos)) mask)))
    else mc

pub write_msgctl : ℕ → ℕ → ℕ → ℕ → ℕ → ℕ
unfolding write_msgctl_byte
write_msgctl val at i zero mc = mc
write_msgctl val at i (suc n) mc =
    write_msgctl val at (suc i) n
      (write_msgctl_byte (bit_and (val >>> (i * 8)) 0xff) ((at + i) * 8) mc)

-- `msix_setup_irqs`: `works` tells whether VFIO_DEVICE_SET_IRQS succeeds.
setup_irqs : Bool → Vfio → Vfio
setup_irqs works vf = record vf {
  armed = vf.armed + 1;
  msix_routing_done = works || vf.msix_routing_done;
}

-- After the shadow of Message Control is written.
maybe_arm : Bool → Vfio → Vfio
unfolding setup_irqs
maybe_arm works vf =
    let enable = nonzero (bit_and vf.msix_msgctl 0x8000) in
    let funcmask = nonzero (bit_and vf.msix_msgctl 0x4000) in
    if enable && (not funcmask && not vf.msix_routing_done) then setup_irqs works vf else vf

write_other : Bool → ℕ → ℕ → ℕ → Vfio → Vfio
unfolding write_msgctl maybe_arm
write_other works reg len val vf =
    if nonzero vf.msix_cap && (leb (vf.msix_cap + 2) reg && ltb reg (vf.msix_cap + 4))
    then maybe_arm works (record vf {
      msix_msgctl = write_msgctl val (reg - (vf.msix_cap + 2)) 0 len vf.msix_msgctl;
    })
    else record vf { forwarded = (reg, len, val) ∷ vf.forwarded }

write_found : Bool → ℕ → ℕ → ℕ → Vfio → Option (ℕ × Bool) → Vfio
unfolding write_other
write_found works reg len val vf none = write_other works reg len val vf
write_found works reg len val vf (some (i, hi)) = write_half val i hi vf

-- `pt_config_write`
unfoldable pub pt_config_write : Bool → Vfio → ℕ → ℕ → ℕ → Vfio
unfolding implemented in_bars write_found write_other
pt_config_write works vf reg len val =
    if in_bars reg && len == 4
    then write_found works reg len val vf (implemented vf (find_bar_start reg 0 vf.bar_is64))
    else write_other works reg len val vf

-- The loops of the host bridge: the bytes up to the end of the 256 of the configuration space.
bridge_write : ℕ → ℕ → ℕ → ℕ → List ℕ → List ℕ
bridge_write val reg i zero cfg = cfg
bridge_write val reg i (suc n) cfg =
    let cfg' =
      bridge_write val reg (suc i) n (set cfg (reg + i) (bit_and (val >>> (i * 8)) 0xff)) in
    if ltb (reg + i) 256 then cfg' else cfg

bridge_read : ℕ → ℕ → ℕ → List ℕ → ℕ
bridge_read reg i zero cfg = 0
bridge_read reg i (suc n) cfg =
    let later = bridge_read reg (suc i) n cfg in
    if ltb (reg + i) 256 then bit_or (u32 (get_or cfg (reg + i) 0 <<< (i * 8))) later else 0

-- An access to the configuration data of the device and the register that the address selects.
config_data : (ℕ → ℕ → Option ℕ) → Bool → ℕ → ℕ → Bool → ℕ → ℕ → Vfio → ℕ × Vfio
unfolding bridge_write bridge_read
config_data dev_read works devfn reg is_write val size vf =
    if devfn == 0
    then (if is_write
        then (val, record vf { hostbridge_cfg = bridge_write val reg 0 size vf.hostbridge_cfg })
        else (bridge_read reg 0 size vf.hostbridge_cfg, vf))
    else if devfn == 8
    then (if is_write
        then (val, pt_config_write works vf reg size val)
        else (pt_config_read dev_read vf reg size, vf))
    else (if is_write then val else 0xffffffff, vf)

-- `pci_config_io`: whether the port is one of configuration mechanism 1, the value after it, and
-- the state.
unfoldable pub pci_config_io : (ℕ → ℕ → Option ℕ) → Bool → ℕ → Bool → ℕ → ℕ → Vfio → Bool × ℕ × Vfio
unfolding config_data
pci_config_io dev_read works port is_write val size vf =
    if not vf.ready
    then (false, val, vf)
    else if port == 0xcf8 && size == 4
    then (if is_write
        then (true, val, record vf { pci_cfg_addr = val })
        else (true, vf.pci_cfg_addr, vf))
    else if leb 0xcfc port && ltb port (0xcfc + 4)
    then (if not (nonzero (bit_and vf.pci_cfg_addr 0x80000000))
        then (true, if is_write then val else 0xffffffff, vf)
        else (let bus = bit_and (vf.pci_cfg_addr >>> 16) 0xff in
            let devfn = bit_and (vf.pci_cfg_addr >>> 8) 0xff in
            let reg = bit_or (bit_and vf.pci_cfg_addr 0xfc) (port - 0xcfc) in
            if not (bus == 0)
            then (true, if is_write then val else 0xffffffff, vf)
            else (let (val', vf') = config_data dev_read works devfn reg is_write val size vf in
                (true, val', vf'))))
    else (false, val, vf)
