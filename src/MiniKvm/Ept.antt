-- ===== src/MiniKvm/Ept.antt =====
-- phase9-capstone/practice/mini-kvm/ept.c: the EPT of a VM, built by need.
--
-- The bits of an EPTP and of an entry are those that the head of ept.c gives. An entry's address is
-- a frame of host memory, and `page_address` of it is that frame's table.
pub mod Entry
pub mod Translate
pub mod Grow
pub mod Walk
pub mod Violation
pub mod Progress
pub mod Pages
use virtualization_learning.Base.{
  ℕ, zero, suc, ◌+◌, ◌-◌, bit_and, bit_or, Bool, true, false, not, ◌||◌, Option, none, some, List,
  [], ◌∷◌, ◌++◌, arith, ltb, leb, nonzero, if◌then◌else◌, length, get_or, u64, ◌<<<◌, ◌>>>◌, not64,
}
use virtualization_learning.MiniKvm.{
  Errno, ok, err, Status, ept_track_max, ept_pte_read, ept_pte_write, ept_pte_exec, Memslot,
  EptRoot, Host, Machine, store, clear_page, page_to_phys,
}

abbrev pub ept_entry_rwx : ℕ
ept_entry_rwx = bit_or (bit_or ept_pte_read ept_pte_write) ept_pte_exec

abbrev pub ept_memtype_wb : ℕ
ept_memtype_wb = 6 <<< 3

abbrev pub ept_pte_addr_mask : ℕ
ept_pte_addr_mask = 0x000f_ffff_ffff_f000

-- Memory type WB in bits 2:0, and the walk length less 1 in bits 5:3.
abbrev pub vmx_eptp_mt_wb : ℕ
vmx_eptp_mt_wb = 6

abbrev pub vmx_eptp_pwl_4 : ℕ
vmx_eptp_pwl_4 = 3 <<< 3

-- `mini_invept`: whether this CPU is in VMX operation, and whether the instruction fails.
unfoldable pub invept : Bool → Bool → Status
invept in_vmx fails =
    if not in_vmx then err Errno.enodev else if fails then err Errno.eio else ok tt

take_page : List (Option ℕ) → Host → Option ℕ × Host
take_page [] host = (none, host)
take_page (none ∷ rest) host = (none, record host { pages = rest })
take_page (some frame ∷ rest) host =
    (some frame, record host { pages = rest; table = clear_page host.table frame })

-- `alloc_page(… | __GFP_ZERO)`
unfoldable pub alloc_page : Host → Option ℕ × Host
unfolding take_page
alloc_page host = take_page host.pages host

init_root : EptRoot → Option ℕ × Host → Status × EptRoot × Host
init_root ept (none, host) = (err Errno.enomem, ept, host)
init_root ept (some frame, host) = (
  ok tt,
  record ept {
    pml4 = some frame;
    tracked = [];
    eptp = bit_or (bit_or (page_to_phys frame) vmx_eptp_mt_wb) vmx_eptp_pwl_4;
  },
  host,
)

-- `mini_ept_init`
unfoldable pub ept_init : EptRoot → Host → Status × EptRoot × Host
unfolding init_root
ept_init ept host = init_root ept (alloc_page host)

free_root : Option ℕ → List ℕ → List ℕ
free_root none freed = freed
free_root (some frame) freed = frame ∷ freed

-- `mini_ept_destroy`. The pages go back oldest first; `freed` has the last one freed in front.
unfoldable pub ept_destroy : EptRoot → Host → EptRoot × Host
unfolding free_root
ept_destroy ept host =
    let freed = ept.tracked ++ host.freed in
    (record ept { tracked = []; pml4 = none }, record host { freed = free_root ept.pml4 freed })

-- `shifts[level]` for the level with this number of levels below it.
abbrev pub shift : ℕ → ℕ
shift below = get_or (39 ∷ 30 ∷ 21 ∷ 12 ∷ []) (3 - below) 0

abbrev pub table_index : ℕ → ℕ → ℕ
table_index below gpa = bit_and (gpa >>> shift below) 511

-- The frame that an entry points to.
abbrev pub entry_frame : ℕ → ℕ
entry_frame entry = bit_and entry ept_pte_addr_mask >>> 12

-- The new table, if there is one, goes into `tracked` and into the entry.
hang_table : ℕ → ℕ → EptRoot → Option ℕ × Host → Bool × EptRoot × Host
hang_table frame idx ept (none, host) = (false, ept, host)
hang_table frame idx ept (some new, host) = (
  true,
  record ept { tracked = new ∷ ept.tracked },
  record host { table = store host.table frame idx (bit_or (page_to_phys new) ept_entry_rwx) },
)

-- The body of the loop of `mini_ept_walk` at a level that is not the last: whether the entry is
-- present at its end.
unfoldable pub ensure_entry : ℕ → ℕ → Bool → EptRoot → Host → Bool × EptRoot × Host
unfolding hang_table
ensure_entry frame idx alloc ept host =
    if nonzero (bit_and (host.table frame idx) ept_pte_read)
    then (true, ept, host)
    else if not alloc
    then (false, ept, host)
    else if leb ept_track_max (length ept.tracked)
    then (false, ept, host)
    else hang_table frame idx ept (alloc_page host)

-- The rest of the walk from the table in `frame`: the place of the leaf entry, or NULL.
unfoldable pub walk_from : ℕ → ℕ → ℕ → Bool → EptRoot → Host → Option (ℕ × ℕ) × EptRoot × Host
walk_from zero frame gpa alloc ept host = (some (frame, table_index zero gpa), ept, host)
walk_from (suc below) frame gpa alloc ept host =
    let idx = table_index (suc below) gpa in
    let (present, ept', host') = ensure_entry frame idx alloc ept host in
    let rest = walk_from below (entry_frame (host'.table frame idx)) gpa alloc ept' host' in
    if present then rest else (none, ept', host')

walk_root : Option ℕ → EptRoot → Host → ℕ → Bool → Option (ℕ × ℕ) × EptRoot × Host
walk_root none ept host gpa alloc = (none, ept, host)
walk_root (some root) ept host gpa alloc = walk_from 3 root gpa alloc ept host

-- `mini_ept_walk`. A VM that is alive has a root.
unfoldable pub ept_walk : EptRoot → Host → ℕ → Bool → Option (ℕ × ℕ) × EptRoot × Host
unfolding walk_root
ept_walk ept host gpa alloc = walk_root ept.pml4 ept host gpa alloc

-- The guard of `mini_ept_handle_violation`.
unfoldable pub outside_slot : Memslot → ℕ → Bool
outside_slot slot gpa =
    not slot.valid
    || (ltb gpa slot.base_gpa || leb (u64 (slot.base_gpa + u64 (slot.npages <<< 12))) gpa)

abbrev pub page_start : ℕ → ℕ
page_start gpa = bit_and gpa (not64 4095)

-- What follows the walk: the leaf entry for the pinned page, and the statistics.
unfoldable pub map_page : Machine → ℕ → Option (ℕ × ℕ) × EptRoot × Host → Status × Machine
map_page m gpa (none, ept', host') = (err Errno.enomem, record m { ept = ept'; host = host' })
map_page m gpa (some (frame, i), ept', host') =
    let hpa = page_to_phys (get_or m.slot.pages ((gpa - m.slot.base_gpa) >>> 12) 0) in
    (
      ok tt,
      record m {
        ept = ept';
        host = record host' {
          table = store host'.table frame i (bit_or (bit_or hpa ept_entry_rwx) ept_memtype_wb);
        };
        vcpu = record (m.vcpu) { n_ept_violations = u64 (m.vcpu.n_ept_violations + 1) };
      },
    )

-- `mini_ept_handle_violation`
unfoldable pub handle_violation : Machine → Status × Machine
unfolding outside_slot map_page
handle_violation m =
    let gpa = page_start m.vmcs.guest_physical_address in
    if outside_slot m.slot gpa
    then (err Errno.efault, m)
    else map_page m gpa (ept_walk m.ept m.host gpa true)
