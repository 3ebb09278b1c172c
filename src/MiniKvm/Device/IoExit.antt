-- ===== src/MiniKvm/Device/IoExit.antt =====
-- What `mini_handle_io_exit` of device.c does, by the fields of the exit qualification.
use virtualization_learning.Base.{
  ℕ, ◌+◌, ◌*◌, ◌/◌, ◌%◌, ◌^◌, bit_and, ◌≡◌, ap, ◌≢◌, arith, nonzero, set, get_or, u8, u32, ◌>>>◌,
  bit_and_mask, bit_and_bit,
}
use virtualization_learning.MiniKvm.{Errno, ok, err, Machine}
use virtualization_learning.MiniKvm.Device.{serial_out, io_is_in, io_port, io_value, handle_io_exit}

-- The fields of the exit qualification of an IO instruction (bit 4: string, bit 3: IN).
abbrev pub IsString : ℕ → Type 0
IsString qual = qual / 16 % 2 ≡ 1

abbrev pub IsIn : ℕ → Type 0
IsIn qual = qual / 8 % 2 ≡ 1

abbrev pub port_of : ℕ → ℕ
port_of qual = qual / 65536 % 65536

string_bit : (qual : ℕ) → bit_and qual 16 ≡ qual / 16 % 2 * 16
string_bit qual = bit_and_bit 4 qual

io_is_in_lem : (qual : ℕ) → io_is_in qual ≡ nonzero (qual / 8 % 2 * 8)
unfolding io_is_in
io_is_in_lem qual = ap nonzero (bit_and_bit 3 qual)

io_port_lem : (qual : ℕ) → io_port qual ≡ port_of qual
unfolding io_port
io_port_lem qual = omega (arith, bit_and_mask 16 (u32 (qual >>> 16)))

-- The byte that reaches the serial port is the lowest of RAX, at every access size.
io_value-byte : (m : Machine) (qual : ℕ) → u8 (io_value m.vcpu qual) ≡ get_or m.vcpu.regs 0 0 % 256
unfolding io_value
io_value-byte m qual = ground (
  arith,
  bit_and_mask 8 (u32 (get_or m.vcpu.regs 0 0)),
  bit_and_mask 16 (u32 (get_or m.vcpu.regs 0 0)),
  bit_and_mask 32 (u32 (get_or m.vcpu.regs 0 0)),
)

-- A string instruction is refused with EIO and changes nothing. Any other instruction succeeds,
-- moves RIP past itself and counts one exit, both modulo 2^64.
pub handle_io_exit-rip :
    (m : Machine)
    → (IsString m.vmcs.exit_qualification → handle_io_exit m ≡ (err Errno.eio, m))
      × (¬ IsString m.vmcs.exit_qualification
          → let (status, m') = handle_io_exit m in
            (status ≡ ok tt)
            × (m'.vmcs ≡ record (m.vmcs) {
              guest_rip = (m.vmcs.guest_rip + m.vmcs.exit_instruction_len) % 2 ^ 64;
            })
            × (m'.vcpu.n_io_exits ≡ (m.vcpu.n_io_exits + 1) % 2 ^ 64))
unfolding handle_io_exit
handle_io_exit-rip m = (
  λ h. ground (arith, string_bit m.vmcs.exit_qualification),
  λ h. ground (arith, string_bit m.vmcs.exit_qualification),
)

-- What an instruction that is not a string instruction does: IN sets RAX to 0; OUT to COM1 captures
-- the lowest byte of RAX; OUT to another port is ignored. Each leaves the rest of the registers and
-- of the capture alone.
pub handle_io_exit-emulates :
    (m : Machine)
    → ¬ IsString m.vmcs.exit_qualification
    → let m' = (handle_io_exit m).1 in
      (IsIn m.vmcs.exit_qualification
        → (m'.vcpu.regs ≡ set m.vcpu.regs 0 0) × (m'.capture ≡ m.capture))
      × (¬ IsIn m.vmcs.exit_qualification
          → port_of m.vmcs.exit_qualification ≡ 0x3f8
          → (m'.vcpu.regs ≡ m.vcpu.regs)
            × (m'.capture ≡ serial_out m.capture (get_or m.vcpu.regs 0 0 % 256)))
      × (¬ IsIn m.vmcs.exit_qualification
          → port_of m.vmcs.exit_qualification ≢ 0x3f8
          → (m'.vcpu.regs ≡ m.vcpu.regs) × (m'.capture ≡ m.capture))
unfolding handle_io_exit
handle_io_exit-emulates m h =
    let qual = m.vmcs.exit_qualification in
    (
      λ i. ground (arith, string_bit qual, io_is_in_lem qual),
      λ o p.
          ground
            (arith, string_bit qual, io_is_in_lem qual, io_port_lem qual, io_value-byte m qual),
      λ o p. ground (arith, string_bit qual, io_is_in_lem qual, io_port_lem qual),
    )
