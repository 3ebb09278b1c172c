-- ===== src/MiniKvm/Device.antt =====
-- phase9-capstone/practice/mini-kvm/device.c: the decoding of an IO exit, and the capture of COM1.
pub mod SerialOut
pub mod IoExit
use virtualization_learning.Base.{
  ℕ, zero, suc, ◌+◌, ◌-◌, bit_and, Bool, not, List, [], ◌∷◌, arith, ltb, ◌==◌, nonzero,
  if◌then◌else◌, set, get_or, take, drop, u8, u32, u64, ◌>>>◌,
}
use virtualization_learning.MiniKvm.{
  Errno, ok, err, Status, serial_size, serial_port, Vmcs, Vcpu, Capture, Machine,
}

-- The search of `mini_serial_out` for the end of the line before, from index `n - 1` down.
unfoldable pub line_start : List ℕ → ℕ → ℕ
line_start serial zero = 0
line_start serial (suc i) = if get_or serial i 0 == b'\n' then suc i else line_start serial i

-- What `%s` prints of these bytes: up to a byte of 0.
unfoldable pub c_string : List ℕ → List ℕ
c_string [] = []
c_string (b ∷ bs) = let rest = c_string bs in if b == 0 then [] else b ∷ rest

-- The bytes of `serial` that `pr_info` prints.
unfoldable pub last_line : List ℕ → ℕ → List ℕ
unfolding line_start c_string
last_line serial serial_len =
    let start = line_start serial (serial_len - 1) in
    c_string (take (serial_len - start) (drop start serial))

append_byte : Capture → ℕ → Capture
append_byte kvm c =
    if ltb kvm.serial_len (serial_size - 1)
    then record kvm { serial = set kvm.serial kvm.serial_len c; serial_len = kvm.serial_len + 1 }
    else kvm

-- `mini_serial_out`
unfoldable pub serial_out : Capture → ℕ → Capture
unfolding append_byte
serial_out kvm c =
    let kvm' = append_byte kvm c in
    if not (c == b'\n')
    then kvm'
    else record kvm' { dmesg = last_line kvm'.serial kvm'.serial_len ∷ kvm'.dmesg }

-- The access size in bytes, the direction and the port of an exit qualification.
unfoldable pub io_size : ℕ → ℕ
io_size qual = u32 (bit_and qual 7) + 1

unfoldable pub io_is_in : ℕ → Bool
io_is_in qual = nonzero (bit_and qual 8)

unfoldable pub io_port : ℕ → ℕ
io_port qual = bit_and (u32 (qual >>> 16)) 0xffff

size_mask : ℕ → ℕ
size_mask size = if size == 1 then 0xff else if size == 2 then 0xffff else 0xffff_ffff

-- The value that an OUT of this exit writes.
unfoldable pub io_value : Vcpu → ℕ → ℕ
unfolding size_mask io_size
io_value vcpu qual = bit_and (u32 (get_or vcpu.regs 0 0)) (size_mask (io_size qual))

unfoldable pub emulate_io : Machine → ℕ → Machine
emulate_io m qual =
    if io_is_in qual
    then record m { vcpu = record (m.vcpu) { regs = set m.vcpu.regs 0 0 } }
    else if io_port qual == serial_port
    then record m { capture = serial_out m.capture (u8 (io_value m.vcpu qual)) }
    else m

unfoldable pub advance_rip : Vmcs → Vmcs
advance_rip vmcs = record vmcs { guest_rip = u64 (vmcs.guest_rip + vmcs.exit_instruction_len) }

-- `mini_handle_io_exit`
unfoldable pub handle_io_exit : Machine → Status × Machine
unfolding emulate_io advance_rip
handle_io_exit m =
    let qual = m.vmcs.exit_qualification in
    if nonzero (bit_and qual 16)
    then (err Errno.eio, m)
    else let m' = emulate_io m qual in
      (
        ok tt,
        record m' {
          vmcs = advance_rip m'.vmcs;
          vcpu = record (m'.vcpu) { n_io_exits = u64 (m'.vcpu.n_io_exits + 1) };
        },
      )
