-- ===== src/MiniVmm/MpTable.antt =====
-- phase9-capstone/practice/minivmm.c: the MP tables that build_mptable writes into guest memory.
--
-- An entry is the structure that the code fills in, `encode` its bytes in the order of the fields.
pub mod Readable
mod Examples
use virtualization_learning.Base.{
  ℕ, zero, suc, ◌+◌, ◌/◌, ◌%◌, List, [], ◌∷◌, ◌++◌, arith, ◌==◌, if◌then◌else◌, length, set, take,
  replicate, u8, u16,
}
use virtualization_learning.MiniVmm.Boot.{mp_checksum}
use virtualization_learning.MiniVmm.Virtio.Blk.{write_bytes}

-- A number of `n` bytes, the lowest first.
abbrev pub le : ℕ → ℕ → List ℕ
le zero val = []
le (suc n) val = val % 256 ∷ le n (val / 256)

-- `MP_FLOAT_GPA`, `MP_TABLE_GPA`, `MP_LAPIC_ADDR` and `MP_IOAPIC_ADDR`
abbrev pub mp_float_gpa : ℕ
mp_float_gpa = 0x9fc00

abbrev pub mp_table_gpa : ℕ
mp_table_gpa = 0x9fd00

abbrev pub mp_lapic_addr : ℕ
mp_lapic_addr = 0xfee00000

abbrev pub mp_ioapic_addr : ℕ
mp_ioapic_addr = 0xfec00000

-- `struct mpc_cpu`, `mpc_bus`, `mpc_ioapic`, `mpc_intsrc` and `mpc_lintsrc`, with what differs
-- between entries.
pub data MpEntry : Type 0 where
  processor : MpEntry
  bus : ℕ → List ℕ → MpEntry
  ioapic : MpEntry
  intsrc : ℕ → MpEntry
  lintsrc : ℕ → ℕ → MpEntry

abbrev pub encode : MpEntry → List ℕ
encode processor = 0 ∷ 0 ∷ 0x14 ∷ 0x3 ∷ le 4 0 ++ (le 4 0 ++ (le 4 0 ++ le 4 0))
encode (bus id name) = 1 ∷ u8 id ∷ name
encode ioapic = 2 ∷ 0 ∷ 0x11 ∷ 1 ∷ le 4 mp_ioapic_addr
encode (intsrc irq) = 3 ∷ 0 ∷ 0 ∷ 0 ∷ 0 ∷ u8 irq ∷ 0 ∷ u8 irq ∷ []
encode (lintsrc irqtype lint) = 4 ∷ u8 irqtype ∷ 0 ∷ 0 ∷ 0 ∷ 0 ∷ 0 ∷ u8 lint ∷ []

unfoldable pub encode_all : List MpEntry → List ℕ
encode_all [] = []
encode_all (e ∷ es) = encode e ++ encode_all es

-- The loop over the ISA interrupts, from `irq` on: all but 2.
sources : ℕ → ℕ → List MpEntry
sources irq zero = []
sources irq (suc n) = let rest = sources (suc irq) n in if irq == 2 then rest else intsrc irq ∷ rest

-- The entries in the order in which they are written.
unfoldable pub mp_entries : List MpEntry
unfolding sources
mp_entries =
    processor
      ∷ bus 0 (0x49 ∷ 0x53 ∷ 0x41 ∷ 0x20 ∷ 0x20 ∷ 0x20 ∷ [])
      ∷ bus 1 (0x50 ∷ 0x43 ∷ 0x49 ∷ 0x20 ∷ 0x20 ∷ 0x20 ∷ [])
      ∷ ioapic
      ∷ sources 0 16
    ++ (lintsrc 3 0 ∷ lintsrc 1 1 ∷ [])

-- `struct mpc_table` with a checksum of 0: the signature, the length, the revision, the checksum,
-- the names, and the address of the local APIC.
abbrev pub mp_header : ℕ → List ℕ
mp_header len =
    0x50 ∷ 0x43 ∷ 0x4d ∷ 0x50 ∷ le 2 len
    ++ (4
          ∷ 0
          ∷ 0x4d
          ∷ 0x49
          ∷ 0x4e
          ∷ 0x49
          ∷ 0x56
          ∷ 0x4d
          ∷ 0x4d
          ∷ 0x20
          ∷ 0x4b
          ∷ 0x56
          ∷ 0x4d
          ∷ 0x2d
          ∷ 0x53
          ∷ 0x54
          ∷ 0x55
          ∷ 0x44
          ∷ 0x59
          ∷ 0x20
          ∷ 0x20
          ∷ 0x20
          ∷ le 4 0
        ++ (le 2 0 ++ (le 2 0 ++ (le 4 mp_lapic_addr ++ le 4 0))))

-- The table with these entries: its length and then its checksum, over as many bytes as the
-- length says, are stored last.
unfoldable pub mp_config : List MpEntry → List ℕ
unfolding encode_all
mp_config es =
    let body = encode_all es in
    let len = u16 (44 + length body) in
    let table = mp_header len ++ body in set table 7 (mp_checksum (take len table))

-- `struct mpf_intel`
unfoldable pub mp_float : List ℕ
mp_float =
    let float = 0x5f ∷ 0x4d ∷ 0x50 ∷ 0x5f ∷ le 4 mp_table_gpa ++ (1 ∷ 4 ∷ 0 ∷ replicate 5 0) in
    set float 10 (mp_checksum float)

-- `build_mptable`
unfoldable pub build_mptable : (ℕ → ℕ) → ℕ → ℕ
build_mptable mem =
    write_bytes (write_bytes mem mp_table_gpa (mp_config mp_entries)) mp_float_gpa mp_float
