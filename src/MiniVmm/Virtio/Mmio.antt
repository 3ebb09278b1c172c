-- ===== src/MiniVmm/Virtio/Mmio.antt =====
-- phase9-capstone/practice/minivmm.c: the MMIO registers of the virtio devices, without eventfds
-- (the program's option -e).
--
-- The service of a queue, which a notification runs, is an argument.
pub mod QueueAddress
pub mod Shape
use virtualization_learning.Base.{
  ℕ, zero, suc, ◌+◌, ◌-◌, ◌*◌, ◌/◌, ◌%◌, bit_and, bit_or, Bool, true, false, not, ◌&&◌, List, [],
  ◌∷◌, arith, ltb, leb, ◌==◌, nonzero, if◌then◌else◌, set, get_or, u32, ◌<<<◌, ◌>>>◌, not32,
}
use virtualization_learning.MiniVmm.Virtio.{Vq}

-- `struct virtio_dev`, with the levels given to its interrupt line, newest first.
pub record VirtioDev : Type 0 where
  pub base : ℕ
  pub gsi : ℕ
  pub device_id : ℕ
  pub status : ℕ
  pub int_status : ℕ
  pub dev_features : ℕ
  pub drv_features : ℕ
  pub dev_feat_sel : ℕ
  pub drv_feat_sel : ℕ
  pub queue_sel : ℕ
  pub nqueues : ℕ
  pub vq : List Vq
  pub config : List ℕ
  pub config_len : ℕ
  pub irq_line : List Bool

-- `VQ_MAX` and `VRING_NUM_MAX`
abbrev pub vq_max : ℕ
vq_max = 4

abbrev pub vring_num_max : ℕ
vring_num_max = 256

-- A queue that was not set up.
abbrev pub vq_zero : Vq
vq_zero = record { num = 0; desc = 0; avail = 0; used = 0; ready = 0; last_avail_idx = 0 }

-- The index of the queue that `queue_sel` selects.
abbrev pub selected : VirtioDev → ℕ
selected dev = if ltb dev.queue_sel vq_max then dev.queue_sel else 0

-- `virtio_raise_irq` and `virtio_lower_irq`
unfoldable pub raise_irq : VirtioDev → VirtioDev
raise_irq dev = record dev { int_status = bit_or dev.int_status 1; irq_line = true ∷ dev.irq_line }

unfoldable pub lower_irq : VirtioDev → VirtioDev
lower_irq dev =
    if not (nonzero dev.int_status) then record dev { irq_line = false ∷ dev.irq_line } else dev

-- `memcpy` of `len` bytes of the configuration into a number, and of a number into it.
load_config : List ℕ → ℕ → ℕ → ℕ
load_config config at zero = 0
load_config config at (suc n) = get_or config at 0 + 256 * load_config config (at + 1) n

store_config : List ℕ → ℕ → ℕ → ℕ → List ℕ
store_config config at zero val = config
store_config config at (suc n) val = store_config (set config at (val % 256)) (at + 1) n (val / 256)

in_config : VirtioDev → ℕ → ℕ → Bool
in_config dev off len = leb 0x100 off && leb (off + len) (0x100 + dev.config_len)

-- `virtio_mmio_read`
unfoldable pub mmio_read : VirtioDev → ℕ → ℕ → ℕ
unfolding load_config in_config
mmio_read dev off len =
    let vq = get_or dev.vq (selected dev) vq_zero in
    if off == 0x000
    then 0x74726976
    else if off == 0x004
    then 2
    else if off == 0x008
    then dev.device_id
    else if off == 0x00c
    then 0xffff
    else if off == 0x010
    then bit_and (dev.dev_features >>> (32 * bit_and dev.dev_feat_sel 1)) 0xffff_ffff
    else if off == 0x034
    then (if ltb dev.queue_sel dev.nqueues then vring_num_max else 0)
    else if off == 0x044
    then vq.ready
    else if off == 0x060
    then dev.int_status
    else if off == 0x070
    then dev.status
    else if off == 0x0fc
    then 0
    else if in_config dev off len
    then load_config dev.config (off - 0x100) len
    else 0

reset_queues : ℕ → List Vq → List Vq
reset_queues zero queues = queues
reset_queues (suc n) [] = []
reset_queues (suc n) (vq ∷ queues) =
    record vq { ready = 0; last_avail_idx = 0 } ∷ reset_queues n queues

-- `virtio_reset`
unfoldable pub reset : VirtioDev → VirtioDev
unfolding reset_queues
reset dev = record dev {
  status = 0;
  int_status = 0;
  irq_line = false ∷ dev.irq_line;
  vq = reset_queues dev.nqueues dev.vq;
}

set_vq : VirtioDev → Vq → VirtioDev
set_vq dev vq = record dev { vq = set dev.vq (selected dev) vq }

low_half : ℕ → ℕ → ℕ
low_half reg val = bit_or (bit_and reg 0xffff_ffff_0000_0000) (u32 val)

high_half : ℕ → ℕ → ℕ
high_half reg val = bit_or (bit_and reg 0xffff_ffff) (u32 val <<< 32)

drive_features : VirtioDev → ℕ → VirtioDev
drive_features dev val =
    if nonzero (bit_and dev.drv_feat_sel 1)
    then record dev { drv_features = bit_or dev.drv_features (bit_and val 0xffff_ffff <<< 32) }
    else record dev { drv_features = bit_or dev.drv_features (bit_and val 0xffff_ffff) }

-- A write to any register but the notification. An `int` register keeps the low 32 bits, and `&=
-- ~val` the bits of them outside `val`.
write_register : VirtioDev → ℕ → ℕ → ℕ → VirtioDev
unfolding set_vq low_half high_half drive_features store_config in_config
write_register dev off len val =
    let vq = get_or dev.vq (selected dev) vq_zero in
    if off == 0x014
    then record dev { dev_feat_sel = u32 val }
    else if off == 0x024
    then record dev { drv_feat_sel = u32 val }
    else if off == 0x020
    then drive_features dev val
    else if off == 0x030
    then record dev { queue_sel = u32 val }
    else if off == 0x038
    then set_vq dev (record vq { num = u32 val })
    else if off == 0x044
    then set_vq dev (record vq { ready = u32 val })
    else if off == 0x080
    then set_vq dev (record vq { desc = low_half vq.desc val })
    else if off == 0x084
    then set_vq dev (record vq { desc = high_half vq.desc val })
    else if off == 0x090
    then set_vq dev (record vq { avail = low_half vq.avail val })
    else if off == 0x094
    then set_vq dev (record vq { avail = high_half vq.avail val })
    else if off == 0x0a0
    then set_vq dev (record vq { used = low_half vq.used val })
    else if off == 0x0a4
    then set_vq dev (record vq { used = high_half vq.used val })
    else if off == 0x064
    then lower_irq (record dev { int_status = bit_and dev.int_status (not32 (u32 val)) })
    else if off == 0x070
    then (if val == 0 then reset dev else record dev { status = u32 val })
    else if in_config dev off len
    then record dev { config = store_config dev.config (off - 0x100) len val }
    else dev

-- `virtio_mmio_write`, with the state that the service of a queue works on.
unfoldable pub mmio_write :
    {S : Type 0} → (VirtioDev → ℕ → S → VirtioDev × S) → VirtioDev → ℕ → ℕ → ℕ → S → VirtioDev × S
unfolding write_register
mmio_write service dev off len val s =
    if off == 0x050 then service dev (bit_and val 0xffff) s else (write_register dev off len val, s)

-- The two devices
pub record Devices : Type 0 where
  pub console : VirtioDev
  pub blk : VirtioDev

-- The MMIO exit in `struct kvm_run`: `bytes` is `data`, of 8 bytes.
pub record MmioExit : Type 0 where
  pub phys_addr : ℕ
  pub len : ℕ
  pub is_write : Bool
  pub bytes : List ℕ

access :
    {S : Type 0}
    → (VirtioDev → ℕ → S → VirtioDev × S)
    → VirtioDev
    → MmioExit
    → S
    → List ℕ × VirtioDev × S
unfolding load_config store_config
access service dev run s =
    let off = run.phys_addr - dev.base in
    if run.is_write
    then (let (dev', s') = mmio_write service dev off run.len (load_config run.bytes 0 run.len) s in
        (run.bytes, dev', s'))
    else (store_config run.bytes 0 run.len (mmio_read dev off run.len), dev, s)

-- `handle_virtio_mmio`: whether the address is in a window, the bytes after it, the devices and
-- the state.
unfoldable pub handle_virtio_mmio :
    {S : Type 0}
    → (VirtioDev → ℕ → S → VirtioDev × S)
    → Devices
    → MmioExit
    → S
    → Bool × List ℕ × Devices × S
unfolding access
handle_virtio_mmio service devs run s =
    if leb 0xd0000000 run.phys_addr && ltb run.phys_addr (0xd0000000 + 0x200)
    then (let (bytes, dev, s') = access service devs.console run s in
        (true, bytes, record devs { console = dev }, s'))
    else if leb 0xd0000200 run.phys_addr && ltb run.phys_addr (0xd0000200 + 0x200)
    then (let (bytes, dev, s') = access service devs.blk run s in
        (true, bytes, record devs { blk = dev }, s'))
    else (false, run.bytes, devs, s)
