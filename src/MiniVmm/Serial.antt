-- ===== src/MiniVmm/Serial.antt =====
-- phase9-capstone/practice/minivmm.c: the 16550A serial port on COM1.
--
-- The lock of the port makes each operation atomic. What the port sends out is a list: the
-- characters that `console_output` got, newest first, whose last thirteen are its `hist`, and the
-- levels that `kvm_irq_line` was given, newest first.
pub mod Irq
pub mod Fifo
use virtualization_learning.Base.{
  ℕ, zero, suc, ◌+◌, ◌-◌, ◌%◌, ◌^◌, bit_and, bit_or, bit_xor, Bool, true, false, not, ◌&&◌, ◌||◌,
  List, [], ◌∷◌, arith, ltb, leb, ◌==◌, nonzero, if◌then◌else◌, set, get_or, replicate, u8, u16,
  u32, ◌<<<◌, ◌>>>◌,
}

-- `SER_RX_SZ`
abbrev pub rx_size : ℕ
rx_size = 1024

-- `struct serial_state`. The head and the tail are 32-bit counters that run freely. `running` is
-- the variable of the program that `console_output` clears, as the access to the port finds and
-- leaves it.
pub record SerialState : Type 0 where
  pub ier : ℕ
  pub fcr : ℕ
  pub lcr : ℕ
  pub mcr : ℕ
  pub scr : ℕ
  pub lsr : ℕ
  pub msr : ℕ
  pub iir : ℕ
  pub thr_ipending : Bool
  pub divider : ℕ
  pub rx_ring : List ℕ
  pub rx_head : ℕ
  pub rx_tail : ℕ
  pub irq_level : Bool
  pub console : List ℕ
  pub running : Bool
  pub irq_line : List Bool

-- `serial`, the initial state
unfoldable pub serial_init : SerialState
serial_init = record {
  ier = 0;
  fcr = 0;
  lcr = 0;
  mcr = 0;
  scr = 0;
  lsr = 0x60;
  msr = 0xb0;
  iir = 1;
  thr_ipending = false;
  divider = 0;
  rx_ring = replicate rx_size 0;
  rx_head = 0;
  rx_tail = 0;
  irq_level = false;
  console = [];
  running = true;
  irq_line = [];
}

-- `kvm_irq_line(SERIAL_IRQ_GSI, level)`
abbrev pub kvm_irq_line : Bool → SerialState → SerialState
kvm_irq_line level s = record s { irq_line = level ∷ s.irq_line }

-- What starts with these bytes.
starts_with : List ℕ → List ℕ → Bool
starts_with [] bs = true
starts_with (m ∷ ms) [] = false
starts_with (m ∷ ms) (b ∷ bs) = (m == b) && starts_with ms bs

-- The bytes of MINIVMM_READY, the last first.
abbrev ready_marker : List ℕ
ready_marker =
    b'Y' ∷ b'D' ∷ b'A' ∷ b'E' ∷ b'R' ∷ b'_' ∷ b'M' ∷ b'M' ∷ b'V' ∷ b'I' ∷ b'N' ∷ b'I' ∷ b'M' ∷ []

-- `console_output`: the marker stops the program.
pub console_output : ℕ → SerialState → SerialState
unfolding starts_with
console_output c s =
    let out = c ∷ s.console in
    record s { console = out; running = if starts_with ready_marker out then false else s.running }

-- `rx_count_locked`: a difference of 32-bit numbers.
abbrev pub rx_count : SerialState → ℕ
rx_count s = u32 (s.rx_head + 2 ^ 32 - s.rx_tail)

-- A bit or a group of bits of a register.
abbrev pub test : ℕ → ℕ → Bool
test reg mask = nonzero (bit_and reg mask)

abbrev pub clear_bits : ℕ → ℕ → ℕ
clear_bits reg mask = bit_and reg (255 - mask)

-- The interrupt that is pending, by priority: `tmp` of `serial_update_irq_locked`.
unfoldable pub interrupt_id : SerialState → ℕ
interrupt_id s =
    if test s.ier 4 && nonzero (bit_and s.lsr 0x1e)
    then 6
    else if test s.ier 1 && test s.lsr 1
    then 4
    else if test s.ier 2 && s.thr_ipending
    then 2
    else if test s.ier 8 && test s.msr 0x0f
    then 0
    else 1

same_level : Bool → Bool → Bool
same_level true b = b
same_level false b = not b

drive_irq : Bool → SerialState → SerialState
unfolding same_level
drive_irq level s =
    if same_level level s.irq_level then s else kvm_irq_line level (record s { irq_level = level })

-- `serial_update_irq_locked`
unfoldable pub update_irq : SerialState → SerialState
unfolding drive_irq
update_irq s =
    let tmp = interrupt_id s in
    drive_irq (not (tmp == 1)) (record s { iir = bit_or tmp (bit_and s.iir 0xc0) })

pub store_rx : ℕ → SerialState → SerialState
store_rx c s =
    if leb (rx_size - 1) (rx_count s) then record s { lsr = bit_or s.lsr 2 } else record s {
      rx_ring = set s.rx_ring (s.rx_head % rx_size) c;
      rx_head = u32 (s.rx_head + 1);
      lsr = bit_or s.lsr 1;
    }

-- `serial_recv_locked`
unfoldable pub recv : ℕ → SerialState → SerialState
unfolding store_rx
recv c s = update_irq (store_rx c s)

write_thr : ℕ → SerialState → SerialState
unfolding console_output
write_thr val s =
    let s1 = record s { thr_ipending = false; lsr = clear_bits s.lsr 0x60 } in
    let s2 = if test s.mcr 0x10 then recv val s1 else console_output val s1 in
    update_irq (record s2 { lsr = bit_or s2.lsr 0x60; thr_ipending = true })

write_ier : ℕ → SerialState → SerialState
write_ier val s =
    let s1 = record s { ier = bit_and val 0x0f } in
    update_irq (record s1 {
      thr_ipending = if test s1.ier 2 && test s1.lsr 0x20 then true else s1.thr_ipending;
    })

clear_rcvr : ℕ → SerialState → SerialState
clear_rcvr val s =
    if test val 2 then record s { rx_head = 0; rx_tail = 0; lsr = clear_bits s.lsr 0x11 } else s

clear_xmit : ℕ → SerialState → SerialState
clear_xmit val s =
    if test val 4 then record s { lsr = bit_or s.lsr 0x20; thr_ipending = true } else s

set_fcr : ℕ → SerialState → SerialState
set_fcr val s =
    let s1 = record s { fcr = bit_and val 0xc9 } in
    record s1 { iir = if test s1.fcr 1 then bit_or s1.iir 0xc0 else clear_bits s1.iir 0xc0 }

write_fcr : ℕ → SerialState → SerialState
unfolding set_fcr clear_xmit clear_rcvr
write_fcr val s =
    let val' = if test (bit_xor val s.fcr) 1 then bit_or val 6 else val in
    update_irq (set_fcr val' (clear_xmit val' (clear_rcvr val' s)))

-- `serial_write_reg`
unfoldable pub write_reg : ℕ → ℕ → SerialState → SerialState
unfolding write_thr write_ier write_fcr
write_reg reg val s =
    if reg == 0
    then (if test s.lcr 0x80
        then record s { divider = bit_or (bit_and s.divider 0xff00) val }
        else write_thr val s)
    else if reg == 1
    then (if test s.lcr 0x80
        then record s { divider = bit_or (bit_and s.divider 0x00ff) (u16 (val <<< 8)) }
        else write_ier val s)
    else if reg == 2
    then write_fcr val s
    else if reg == 3
    then record s { lcr = val }
    else if reg == 4
    then record s { mcr = val }
    else if reg == 7
    then record s { scr = val }
    else s

take_rx : SerialState → ℕ × SerialState
take_rx s =
    if nonzero (rx_count s)
    then (get_or s.rx_ring (s.rx_tail % rx_size) 0, record s { rx_tail = u32 (s.rx_tail + 1) })
    else (0, s)

pub read_rx : SerialState → ℕ × SerialState
unfolding take_rx
read_rx s =
    let (val, s1) = take_rx s in
    (
      val,
      update_irq
          (if not (nonzero (rx_count s1)) then record s1 { lsr = clear_bits s1.lsr 0x11 } else s1),
    )

read_iir : SerialState → ℕ × SerialState
read_iir s =
    (s.iir, if bit_and s.iir 0x0e == 2 then update_irq (record s { thr_ipending = false }) else s)

read_lsr : SerialState → ℕ × SerialState
read_lsr s =
    (s.lsr, if test s.lsr 0x12 then update_irq (record s { lsr = clear_bits s.lsr 0x12 }) else s)

loopback_msr : ℕ → ℕ
loopback_msr mcr =
    u8 (bit_or (bit_or (bit_and mcr 0x0c <<< 4) (bit_and mcr 0x02 <<< 3)) (bit_and mcr 0x01 <<< 5))

read_msr : SerialState → ℕ × SerialState
unfolding loopback_msr
read_msr s =
    if test s.mcr 0x10
    then (loopback_msr s.mcr, s)
    else (s.msr, if test s.msr 0x0f then update_irq (record s { msr = bit_and s.msr 0xf0 }) else s)

-- `serial_read_reg`
unfoldable pub read_reg : ℕ → SerialState → ℕ × SerialState
unfolding read_rx read_iir read_lsr read_msr
read_reg reg s =
    if reg == 0
    then (if test s.lcr 0x80 then (bit_and s.divider 0xff, s) else read_rx s)
    else if reg == 1
    then (if test s.lcr 0x80 then u8 (s.divider >>> 8) else s.ier, s)
    else if reg == 2
    then read_iir s
    else if reg == 3
    then (s.lcr, s)
    else if reg == 4
    then (s.mcr, s)
    else if reg == 5
    then read_lsr s
    else if reg == 6
    then read_msr s
    else (s.scr, s)

-- `serial_io`: the value after it, the port, and whether it is one of the serial ports.
unfoldable pub serial_io : ℕ → Bool → ℕ → SerialState → Bool × ℕ × SerialState
serial_io port is_write val s =
    if leb 0x3f8 port && ltb port (0x3f8 + 8)
    then (if is_write
        then (true, val, write_reg (port - 0x3f8) val s)
        else let (val', s') = read_reg (port - 0x3f8) s in (true, val', s'))
    else if (leb 0x2e8 port && ltb port 0x2f0)
        || ((leb 0x2f8 port && ltb port 0x300) || (leb 0x3e8 port && ltb port 0x3f0))
    then (true, if is_write then val else 0xff, s)
    else (false, val, s)
