-- ===== src/MiniVmm/IoPorts/Sound.antt =====
-- What any IO exit of the guest keeps.
use virtualization_learning.Base.{
  ℕ, zero, suc, ◌+◌, ◌*◌, ◌/◌, ◌%◌, ◌≡◌, refl, ◌∙◌, Bool, true, false, Option, List, if◌then◌else◌,
  if-intro, length, set, get_or, length-set,
}
use virtualization_learning.MiniVmm.Serial.{serial_io}
use virtualization_learning.MiniVmm.Serial.Irq.{IsDriven, with_running-IsDriven, serial_io-IsDriven}
use virtualization_learning.MiniVmm.Pci.{Vfio, pci_config_io}
use virtualization_learning.MiniVmm.Pci.Access.{IsKept, pci_config_io-IsKept}
use virtualization_learning.MiniVmm.IoPorts.{
  Devices, IoExit, power_io, generic_io_in, width, load_le, store_le, is_config_port, legacy_io,
  after_config, io_element, handle_io,
}

-- The serial port's IRQ line and IIR tell the truth, the layout of the configuration space is
-- that of before, and the data has its length and is as before where the guest wrote.
pub record IsSound (vf : Vfio) (io : IoExit) (bytes : List ℕ) (r : List ℕ × Devices) : Type 0 where
  pub driven : IsDriven r.1.serial
  pub config : IsKept vf r.1.vfio
  pub fits : length r.0 ≡ length bytes
  pub written : io.is_write ≡ true → r.0 ≡ bytes

IsKept-trans : (a b c : Vfio) → IsKept a b → IsKept b c → IsKept a c
IsKept-trans a b c p q = record {
  sizes = q.sizes ∙ p.sizes;
  types = q.types ∙ p.types;
  wide = q.wide ∙ p.wide;
  bars = q.bars ∙ p.bars;
  bridge = q.bridge ∙ p.bridge;
  capability = q.capability ∙ p.capability;
  vectors = q.vectors ∙ p.vectors;
  table = q.table ∙ p.table;
  read_only = q.read_only ∙ p.read_only;
  once =
      λ h. let (same, done) = p.once h in let (same', done') = q.once done in (same' ∙ same, done');
}

length-store_le : (bytes : List ℕ) (at n val : ℕ) → length (store_le bytes at n val) ≡ length bytes
unfolding store_le
length-store_le bytes at zero val = refl
length-store_le bytes at (suc n) val =
    length-store_le (set bytes at (val % 256)) (at + 1) n (val / 256)
    ∙ length-set bytes at (val % 256)

-- The data after an element: the guest's own for a write, and the answer for a read.
length-answer :
    (b : Bool) (bytes : List ℕ) (at n val : ℕ)
    → length (if b then bytes else store_le bytes at n val) ≡ length bytes
length-answer true bytes at n val = refl
length-answer false bytes at n val = length-store_le bytes at n val

answer-written :
    (b : Bool) (bytes : List ℕ) (at n val : ℕ)
    → b ≡ true
    → (if b then bytes else store_le bytes at n val) ≡ bytes
answer-written true bytes at n val h = refl
answer-written false bytes at n val h = absurd (cc h)

legacy_io-IsSound :
    (vf : Vfio) (io : IoExit) (at : ℕ) (bytes : List ℕ) (d : Devices)
    → IsDriven d.serial
    → IsKept vf d.vfio
    → IsSound vf io bytes (legacy_io io at bytes d)
unfolding legacy_io
legacy_io-IsSound vf io at bytes d driven kept =
    let val = if io.is_write then get_or bytes at 0 else 0 in
    let s0 = record (d.serial) { running = d.running } in
    let (taken, val1, serial) = serial_io io.port io.is_write val s0 in
    let (powered, val2, running) = power_io io.port io.is_write val1 d.running in
    let out = if taken then val1 else if powered then val2 else generic_io_in io.size in
    record {
      driven =
          (serial_io-IsDriven s0 (with_running-IsDriven d.running driven)).0 io.port io.is_write
            val;
      config = kept;
      fits = length-answer io.is_write bytes at (width io.size) out;
      written = answer-written io.is_write bytes at (width io.size) out;
    }

after_config-IsSound :
    (vf : Vfio) (io : IoExit) (at : ℕ) (bytes : List ℕ) (d : Devices) (r : Bool × ℕ × Vfio)
    → IsDriven d.serial
    → IsKept vf r.2
    → IsSound vf io bytes (after_config io at bytes d r)
unfolding after_config
after_config-IsSound vf io at bytes d (false, val, vfio) driven kept =
    legacy_io-IsSound vf io at bytes (record d { vfio = vfio }) driven kept
after_config-IsSound vf io at bytes d (true, val, vfio) driven kept = record {
  driven = driven;
  config = kept;
  fits = length-answer io.is_write bytes at (width io.size) val;
  written = answer-written io.is_write bytes at (width io.size) val;
}

io_element-IsSound :
    (dev_read : ℕ → ℕ → Option ℕ) (works : Bool) (vf : Vfio) (io : IoExit) (at : ℕ) (bytes : List ℕ)
    (d : Devices)
    → IsDriven d.serial
    → IsKept vf d.vfio
    → IsSound vf io bytes (io_element dev_read works io at bytes d)
unfolding io_element
io_element-IsSound dev_read works vf io at bytes d driven kept =
    let val = if io.is_write then load_le bytes at (width io.size) else 0 in
    let r = pci_config_io dev_read works io.port io.is_write val io.size d.vfio in
    if-intro (IsSound vf io bytes) (is_config_port io.port)
      (after_config-IsSound vf io at bytes d r driven (
        IsKept-trans vf d.vfio r.2 kept
          (pci_config_io-IsKept dev_read works io.port io.is_write val io.size d.vfio)))
      (legacy_io-IsSound vf io at bytes d driven kept)

-- An IO exit of any port, width, direction and number of elements leaves the serial port's IRQ line
-- and IIR telling the truth, if they did before, and what is fixed in the configuration space as it
-- was; it keeps the length of the data, and the data itself where the guest wrote.
pub handle_io-IsSound :
    (dev_read : ℕ → ℕ → Option ℕ) (works : Bool) (vf : Vfio) (io : IoExit) (i n : ℕ)
    (bytes : List ℕ) (d : Devices)
    → IsDriven d.serial
    → IsKept vf d.vfio
    → IsSound vf io bytes (handle_io dev_read works io i n bytes d)
unfolding handle_io
handle_io-IsSound dev_read works vf io i zero bytes d driven kept = record {
  driven = driven;
  config = kept;
  fits = refl;
  written = λ h. refl;
}
handle_io-IsSound dev_read works vf io i (suc n) bytes d driven kept =
    let s = io_element-IsSound dev_read works vf io (i * io.size) bytes d driven kept in
    let (bytes', d') = io_element dev_read works io (i * io.size) bytes d in
    let s' = handle_io-IsSound dev_read works vf io (suc i) n bytes' d' s.driven s.config in
    record {
      driven = s'.driven;
      config = s'.config;
      fits = s'.fits ∙ s.fits;
      written = λ h. s'.written h ∙ s.written h;
    }
