-- ===== src/MiniVmm/Pci/Passthrough.antt =====
-- phase9-capstone/practice/minivmm.c: the memory accesses that go to the passed-through device
-- (handle_pt_mmio, handle_bar0_legacy) and its MSI-X vectors (msix_setup_irqs).
--
-- An access outside an array of the program has no result: `none`. What the host answers is a
-- record: `Host`.
pub mod Safe
pub mod Messages
pub mod Synced
pub mod Vectors
pub mod Layout
pub mod Discovery
mod Examples
use virtualization_learning.Base.{
  ℕ, zero, suc, ◌+◌, ◌-◌, ◌*◌, ◌/◌, ◌%◌, bit_and, bit_or, Bool, true, false, not, ◌&&◌, ◌||◌,
  Option, none, some, List, [], ◌∷◌, arith, ltb, leb, ◌==◌, nonzero, if◌then◌else◌, length, set,
  get_or, take, drop, u32, u64, ◌<<<◌, ◌>>>◌, not64,
}
use virtualization_learning.MiniVmm.Virtio.Mmio.{MmioExit}
use virtualization_learning.MiniVmm.Pci.{Vfio, setup_irqs}
use virtualization_learning.MiniVmm.Pci.Routes.{
  Route, msix_gsi_base, is_programmed, vectors, update_routes,
}

-- The answers of the host: the bytes of a BAR, whether a control word of the table reaches the
-- device (its region is there and `pwrite` stores 4 bytes), the eventfd made for a vector,
-- whether KVM_IRQFD takes a GSI, whether `msix_update_routes` gets its memory and
-- KVM_SET_GSI_ROUTING takes the table, and whether VFIO_DEVICE_SET_IRQS succeeds.
pub record Host : Type 0 where
  pub region_read : ℕ → ℕ → ℕ → List ℕ
  pub accepts : ℕ → ℕ → Bool
  pub eventfd : ℕ → Option ℕ
  pub irqfd_works : ℕ → Bool
  pub routing_works : Bool
  pub set_irqs_works : Bool
  pub msix_slowpath : Bool

-- The rest of `vf`. `routes` is the table last given to KVM, `irqfds` the eventfds that KVM turns
-- into a GSI, `device_fds` those that the device signals, `region_writes` what was written to a
-- BAR and where, newest first.
pub record Passthrough : Type 0 where
  pub vf : Vfio
  pub msix_table_off : ℕ
  pub msix_table_bar : ℕ
  pub msix_cfg_vec : ℕ
  pub msix_q_vec : ℕ
  pub pt_notifies : ℕ
  pub pt_notify_last : ℕ
  pub pt_ctrl_fwd : ℕ
  pub msix_efd : List (Option ℕ)
  pub routes : List Route
  pub irqfds : List (ℕ × ℕ)
  pub device_fds : List (Option ℕ)
  pub region_writes : List (ℕ × ℕ × List ℕ)

-- `memcpy` of `len` bytes into an array, and out of one.
unfoldable pub put_bytes : List ℕ → ℕ → List ℕ → List ℕ
put_bytes xs at [] = xs
put_bytes xs at (b ∷ bs) = put_bytes (set xs at b) (suc at) bs

unfoldable pub memcpy_to : List ℕ → ℕ → ℕ → List ℕ → Option (List ℕ)
unfolding put_bytes
memcpy_to xs at len bs =
    if leb (at + len) (length xs) then some (put_bytes xs at (take len bs)) else none

unfoldable pub memcpy_from : List ℕ → ℕ → ℕ → Option (List ℕ)
memcpy_from xs at len = if leb (at + len) (length xs) then some (take len (drop at xs)) else none

-- The number that bytes stand for, the lowest first.
number_of : List ℕ → ℕ
number_of [] = 0
number_of (b ∷ bs) = b + 256 * number_of bs

-- An access that the device answers.
device_access : Host → ℕ → ℕ → MmioExit → Passthrough → List ℕ × Passthrough
unfolding put_bytes
device_access host b off run d =
    if run.is_write
    then (
      run.bytes,
      record d { region_writes = (b, off, take run.len run.bytes) ∷ d.region_writes },
    )
    else (put_bytes run.bytes 0 (take run.len (host.region_read b off run.len)), d)

count_notify : MmioExit → Passthrough → Passthrough
unfolding number_of
count_notify run d = record d {
  pt_notify_last = number_of (take (if ltb run.len 2 then run.len else 2) run.bytes);
  pt_notifies = u64 (d.pt_notifies + 1);
}

-- `regs`, the four bytes of the two vector registers, and the registers made from them.
vector_bytes : Passthrough → List ℕ
vector_bytes d =
    bit_and d.msix_cfg_vec 0xff
    ∷ d.msix_cfg_vec >>> 8
    ∷ bit_and d.msix_q_vec 0xff
    ∷ d.msix_q_vec >>> 8
    ∷ []

store_vectors : Passthrough → Option (List ℕ) → Option Passthrough
store_vectors d none = none
store_vectors d (some regs) = some (record d {
  msix_cfg_vec = bit_or (get_or regs 0 0) (get_or regs 1 0 <<< 8);
  msix_q_vec = bit_or (get_or regs 2 0) (get_or regs 3 0 <<< 8);
})

then_access : Host → ℕ → MmioExit → Option Passthrough → Option (List ℕ × Passthrough)
unfolding device_access
then_access host off run none = none
then_access host off run (some d) = some (device_access host 0 off run d)

-- `handle_bar0_legacy`
unfoldable pub handle_bar0_legacy :
    Host → ℕ → MmioExit → Passthrough → Option (List ℕ × Passthrough)
unfolding count_notify vector_bytes store_vectors then_access memcpy_to
handle_bar0_legacy host off run d =
    let d1 = if off == 0x10 && run.is_write then count_notify run d else d in
    then_access host off run (
      if leb 0x14 off && (ltb off 0x18 && run.is_write)
      then store_vectors d1 (memcpy_to (vector_bytes d1) (off - 0x14) run.len run.bytes)
      else some d1)

-- The control word of a vector goes to the table of the device.
unfoldable pub forward_ctrl : Host → ℕ → Passthrough → Passthrough
forward_ctrl host vec d =
    let at = d.msix_table_off + vec * 16 + 12 in
    if host.accepts d.msix_table_bar at
    then record d {
      region_writes =
          (d.msix_table_bar, at, take 4 (drop (vec * 16 + 12) d.vf.msix_shadow)) ∷ d.region_writes;
      pt_ctrl_fwd = u64 (d.pt_ctrl_fwd + 1);
    }
    else d

-- `msix_update_routes`: where there is no memory or KVM refuses the table, its routes stay.
pub give_routes : Host → Passthrough → Passthrough
give_routes host d = if host.routing_works then record d { routes = update_routes d.vf } else d

-- After the shadow table is written at `pos`.
unfoldable pub table_written : Host → ℕ → ℕ → Passthrough → Passthrough
unfolding forward_ctrl give_routes
table_written host pos len d =
    let fld = pos % 16 in
    let d1 = if leb 12 fld || ltb 12 (fld + len) then forward_ctrl host (pos / 16) d else d in
    if d1.vf.msix_routing_done && ltb fld 12 then give_routes host d1 else d1

write_table : Host → ℕ → MmioExit → Passthrough → Option (List ℕ) → Option (List ℕ × Passthrough)
unfolding table_written
write_table host pos run d none = none
write_table host pos run d (some shadow) = some (
  run.bytes,
  table_written host pos run.len (record d { vf = record (d.vf) { msix_shadow = shadow } }),
)

read_table : MmioExit → Passthrough → Option (List ℕ) → Option (List ℕ × Passthrough)
unfolding put_bytes
read_table run d none = none
read_table run d (some bs) = some (put_bytes run.bytes 0 bs, d)

-- An access to the MSI-X table, which the shadow answers.
unfoldable pub table_access : Host → ℕ → MmioExit → Passthrough → Option (List ℕ × Passthrough)
unfolding write_table read_table memcpy_to memcpy_from
table_access host pos run d =
    if run.is_write
    then write_table host pos run d (memcpy_to d.vf.msix_shadow pos run.len run.bytes)
    else read_table run d (memcpy_from d.vf.msix_shadow pos run.len)

-- The loop over the BARs: the first that has the address, and the offset in it.
unfoldable pub find_mmio : ℕ → List ℕ → List ℕ → ℕ → Option (ℕ × ℕ)
find_mmio pa [] sizes b = none
find_mmio pa (v ∷ vals) [] b = none
find_mmio pa (v ∷ vals) (size ∷ sizes) b =
    let later = find_mmio pa vals sizes (suc b) in
    let base = bit_and v (not64 0xf) in
    if not (nonzero base) || not (nonzero size)
    then later
    else if leb base pa && ltb pa (u64 (base + size))
    then some (b, pa - base)
    else later

unfoldable pub in_table : ℕ → ℕ → MmioExit → Passthrough → Bool
in_table b off run d =
    b == d.msix_table_bar
    && (nonzero d.vf.msix_cap
        && (leb d.msix_table_off off
            && leb (u64 (off + run.len)) (d.msix_table_off + d.vf.msix_nr * 16)))

taken : Option (List ℕ × Passthrough) → Option (Bool × List ℕ × Passthrough)
taken none = none
taken (some (bytes, d)) = some (true, bytes, d)

found_access : Host → MmioExit → Passthrough → Option (ℕ × ℕ) → Option (Bool × List ℕ × Passthrough)
unfolding taken handle_bar0_legacy table_access device_access in_table
found_access host run d none = some (false, run.bytes, d)
found_access host run d (some (b, off)) = taken (
    if b == 0
    then handle_bar0_legacy host off run d
    else if in_table b off run d
    then table_access host (u32 (off - d.msix_table_off)) run d
    else some (device_access host b off run d))

-- `handle_pt_mmio`: whether a BAR has the address, the data and the state.
unfoldable pub handle_pt_mmio : Host → MmioExit → Passthrough → Option (Bool × List ℕ × Passthrough)
unfolding found_access
handle_pt_mmio host run d =
    if not d.vf.ready
    then some (false, run.bytes, d)
    else found_access host run d (find_mmio run.phys_addr d.vf.bar_val d.vf.bar_size 0)

-- KVM_IRQFD for the eventfd of a vector, which `eventfd` may have failed to make.
attach : Host → ℕ → Option ℕ → List (ℕ × ℕ) → List (ℕ × ℕ)
attach host gsi none irqfds = irqfds
attach host gsi (some fd) irqfds = if host.irqfd_works gsi then (fd, gsi) ∷ irqfds else irqfds

-- The first loop of `msix_setup_irqs`, from the vector `v` on.
arm_vectors :
    Host → List ℕ → ℕ → ℕ → List (Option ℕ) × List (ℕ × ℕ) → List (Option ℕ) × List (ℕ × ℕ)
unfolding attach
arm_vectors host shadow v zero (efd, irqfds) = (efd, irqfds)
arm_vectors host shadow v (suc n) (efd, irqfds) = arm_vectors host shadow (suc v) n (
    if is_programmed shadow v
    then (
      set efd v (host.eventfd v),
      if host.msix_slowpath
          then irqfds
          else attach host (msix_gsi_base + v) (host.eventfd v) irqfds,
    )
    else (efd, irqfds))

-- The last loop: the control words of the programmed vectors go to the device.
sync_ctrl : Host → ℕ → ℕ → Passthrough → Passthrough
unfolding forward_ctrl
sync_ctrl host v zero d = d
sync_ctrl host v (suc n) d =
    sync_ctrl host (suc v) n (if is_programmed d.vf.msix_shadow v then forward_ctrl host v d else d)

-- `msix_setup_irqs`
unfoldable pub msix_setup_irqs : Host → Passthrough → Passthrough
unfolding arm_vectors sync_ctrl setup_irqs give_routes
msix_setup_irqs host d =
    let nr = vectors d.vf in
    let (efd, irqfds) = arm_vectors host d.vf.msix_shadow 0 nr (d.msix_efd, d.irqfds) in
    let d1 = record (give_routes host d) {
      msix_efd = efd;
      irqfds = irqfds;
      vf = setup_irqs host.set_irqs_works d.vf;
    } in
    if host.set_irqs_works then sync_ctrl host 0 nr (record d1 { device_fds = take nr efd }) else d1
