-- ===== src/MiniVmm/IoPorts.antt =====
-- phase9-capstone/practice/minivmm.c: the exits of the guest for its IO ports, which reach the
-- serial port, the PCI configuration space and the reset ports.
--
-- The data of an exit is the list of bytes that the run structure holds from `data_offset` on.
pub mod Sound
pub mod PowerOff
use virtualization_learning.Base.{
  ℕ, zero, suc, ◌+◌, ◌*◌, ◌/◌, ◌%◌, bit_and, Bool, true, false, not, ◌&&◌, ◌||◌, Option, List,
  arith, ltb, leb, ◌==◌, nonzero, if◌then◌else◌, set, get_or,
}
use virtualization_learning.MiniVmm.Serial.{SerialState, serial_io}
use virtualization_learning.MiniVmm.Pci.{Vfio, pci_config_io}

-- What an IO exit can reach.
pub record Devices : Type 0 where
  pub serial : SerialState
  pub vfio : Vfio
  pub running : Bool

-- `run->io`, without its data.
pub record IoExit : Type 0 where
  pub port : ℕ
  pub is_write : Bool
  pub size : ℕ

-- `power_io`: whether the port is one of the reset ports, the value after it, and `running`.
unfoldable pub power_io : ℕ → Bool → ℕ → Bool → Bool × ℕ × Bool
power_io port is_write val running =
    if not (port == 0x64) && not (port == 0xcf9)
    then (false, val, running)
    else if not is_write
    then (true, 0, running)
    else (
      true,
      val,
      if (port == 0x64 && val == 0xfe) || (port == 0xcf9 && nonzero (bit_and val 2))
          then false
          else running,
    )

-- `generic_io_in`
abbrev pub generic_io_in : ℕ → ℕ
generic_io_in size = if size == 4 then 0xffffffff else if size == 2 then 0xffff else 0xff

-- The number of bytes that the switches on the size access.
abbrev pub width : ℕ → ℕ
width size = if size == 1 then 1 else if size == 2 then 2 else 4

-- A number of `n` bytes, the lowest first, read from and written to the data.
pub load_le : List ℕ → ℕ → ℕ → ℕ
load_le bytes at zero = 0
load_le bytes at (suc n) = get_or bytes at 0 + load_le bytes (at + 1) n * 256

unfoldable pub store_le : List ℕ → ℕ → ℕ → ℕ → List ℕ
store_le bytes at zero val = bytes
store_le bytes at (suc n) val = store_le (set bytes at (val % 256)) (at + 1) n (val / 256)

is_config_port : ℕ → Bool
is_config_port port = port == 0xcf8 || (leb 0xcfc port && ltb port (0xcfc + 4))

-- The serial port, then the reset ports; and all ones where neither answers.
legacy_io : IoExit → ℕ → List ℕ → Devices → List ℕ × Devices
legacy_io io at bytes d =
    let val = if io.is_write then get_or bytes at 0 else 0 in
    let (taken, val1, serial) =
      serial_io io.port io.is_write val (record (d.serial) { running = d.running }) in
    let (powered, val2, running) = power_io io.port io.is_write val1 d.running in
    let d' = record d { serial = serial; running = if taken then serial.running else running } in
    let out = if taken then val1 else if powered then val2 else generic_io_in io.size in
    (if io.is_write then bytes else store_le bytes at (width io.size) out, d')

-- After `pci_config_io`: whether it took the port, its value and the state.
after_config : IoExit → ℕ → List ℕ → Devices → Bool × ℕ × Vfio → List ℕ × Devices
unfolding legacy_io
after_config io at bytes d (false, val, vfio) = legacy_io io at bytes (record d { vfio = vfio })
after_config io at bytes d (true, val, vfio) =
    (if io.is_write then bytes else store_le bytes at (width io.size) val, record d { vfio = vfio })

-- One element of the exit, at the offset `at`.
io_element : (ℕ → ℕ → Option ℕ) → Bool → IoExit → ℕ → List ℕ → Devices → List ℕ × Devices
unfolding is_config_port after_config legacy_io
io_element dev_read works io at bytes d =
    if is_config_port io.port
    then after_config io at bytes d (
        pci_config_io dev_read works io.port io.is_write
          (if io.is_write then load_le bytes at (width io.size) else 0) io.size d.vfio)
    else legacy_io io at bytes d

-- `handle_io`, from the element `i` on, with `n` to go.
unfoldable pub handle_io :
    (ℕ → ℕ → Option ℕ) → Bool → IoExit → ℕ → ℕ → List ℕ → Devices → List ℕ × Devices
unfolding io_element
handle_io dev_read works io i zero bytes d = (bytes, d)
handle_io dev_read works io i (suc n) bytes d =
    let (bytes', d') = io_element dev_read works io (i * io.size) bytes d in
    handle_io dev_read works io (suc i) n bytes' d'
