-- ===== src/MiniVmm/Boot.antt =====
-- phase9-capstone/practice/minivmm.c: the placement of the kernel and the initrd in guest memory,
-- and the checksum of the MP tables.
--
-- `DIE` ends the program. The fields of the setup header that the code reads by name are those that
-- the image carries, and 0 where its header is too short for them.
pub mod Placement
pub mod Checksum
mod Examples
use virtualization_learning.Base.{
  ℕ, zero, suc, ◌+◌, ◌-◌, ◌*◌, ◌^◌, bit_and, not, ◌||◌, Option, none, some, List, [], ◌∷◌, arith,
  ltb, leb, ◌==◌, if◌then◌else◌, length, get_or, u8, u32, u64, not64,
}

-- What `DIE` says
pub data BootError : Type 0 where
  too_small setup_out_of_bounds bad_magic too_old no_room long_cmdline initrd_overlap : BootError

pub data BootResult (A : Type 0) : Type 0 where
  loaded : A → BootResult A
  died : BootError → BootResult A

-- A kernel image: its bytes, and `pref_address` and `init_size` of its setup header.
pub record Image : Type 0 where
  pub bytes : List ℕ
  pub pref_address : ℕ
  pub init_size : ℕ

-- What is put where: `struct boot_image`, with what the boot parameters say and the sizes of the
-- copies.
pub record Boot : Type 0 where
  pub kernel_gpa : ℕ
  pub kernel_size : ℕ
  pub initrd_gpa : ℕ
  pub initrd_size : ℕ
  pub code32_start : ℕ
  pub ramdisk_image : ℕ
  pub ramdisk_size : ℕ
  pub cmdline_size : Option ℕ
  pub high_memory : ℕ

-- `memcpy` of 2 and of 4 bytes.
abbrev pub load16 : List ℕ → ℕ → ℕ
load16 bytes at = get_or bytes at 0 + get_or bytes (at + 1) 0 * 2 ^ 8

abbrev pub load32_at : List ℕ → ℕ → ℕ
load32_at bytes at = load16 bytes at + load16 bytes (at + 2) * 2 ^ 16

-- `CMDLINE_MAX`
abbrev pub cmdline_max : ℕ
cmdline_max = 4096

unfoldable pub setup_len : List ℕ → ℕ
setup_len bytes =
    let setup_sects = get_or bytes 0x1f1 0 in
    ((if setup_sects == 0 then 4 else setup_sects) + 1) * 512

-- The part of `load_bzimage` that places the initrd.
place_initrd : ℕ → Image → ℕ → ℕ → ℕ → ℕ → BootResult Boot
unfolding setup_len
place_initrd mem_size image version load_addr cl_len isize =
    let initrd_gpa = bit_and (u64 (mem_size + 2 ^ 64 - isize)) (not64 0xfff) in
    if leb initrd_gpa (u64 (load_addr + image.init_size))
    then died BootError.initrd_overlap
    else loaded record {
      kernel_gpa = load_addr;
      kernel_size = length image.bytes - setup_len image.bytes;
      initrd_gpa = initrd_gpa;
      initrd_size = isize;
      code32_start = u32 load_addr;
      ramdisk_image = u32 initrd_gpa;
      ramdisk_size = u32 isize;
      cmdline_size = if leb 0x0206 version then some (u32 (cl_len - 1)) else none;
      high_memory = u64 (mem_size + 2 ^ 64 - 0x100000);
    }

-- The part that follows the choice of the load address; `cl_len` counts the final zero.
place_cmdline : ℕ → Image → ℕ → ℕ → ℕ → ℕ → BootResult Boot
unfolding place_initrd
place_cmdline mem_size image version load_addr cl_len isize =
    if ltb cmdline_max cl_len
    then died BootError.long_cmdline
    else place_initrd mem_size image version load_addr cl_len isize

-- The choice of the load address
place_kernel : ℕ → Image → ℕ → ℕ → ℕ → BootResult Boot
unfolding setup_len place_cmdline
place_kernel mem_size image version cl_len isize =
    if ltb version 0x020a
      || (image.pref_address == 0 || ltb mem_size (u64 (image.pref_address + image.init_size)))
    then (if ltb mem_size (u64 (0x100000 + (length image.bytes - setup_len image.bytes)))
        then died BootError.no_room
        else place_cmdline mem_size image version 0x100000 cl_len isize)
    else place_cmdline mem_size image version image.pref_address cl_len isize

-- `load_bzimage`, for a command line of `cl_len` bytes with its final zero and an initrd of
-- `isize`.
unfoldable pub load_bzimage : ℕ → Image → ℕ → ℕ → BootResult Boot
unfolding setup_len place_kernel
load_bzimage mem_size image cl_len isize =
    let ksize = length image.bytes in
    let version = load16 image.bytes 0x206 in
    if ltb ksize (0x202 + 2)
    then died BootError.too_small
    else if leb ksize (setup_len image.bytes)
    then died BootError.setup_out_of_bounds
    else if not (load32_at image.bytes 0x202 == 0x53726448)
    then died BootError.bad_magic
    else if ltb version 0x0200
    then died BootError.too_old
    else place_kernel mem_size image version cl_len isize

-- `mp_checksum`
sum_bytes : List ℕ → ℕ → ℕ
sum_bytes [] sum = sum
sum_bytes (b ∷ bs) sum = sum_bytes bs (u8 (sum + b))

unfoldable pub mp_checksum : List ℕ → ℕ
unfolding sum_bytes
mp_checksum bytes = u8 (0x100 - sum_bytes bytes 0)
