-- ===== src/MiniVmm/Virtio/Backend.antt =====
-- phase9-capstone/practice/minivmm.c: the service of a queue by the device that has it,
-- dev_can_consume and dev_handle, which service_vq calls and which call it.
--
-- `pread` and `pwrite` are the file of the block device, `stack` what an uninitialised header
-- holds.
pub mod Echo
pub mod Kept
mod Examples
use virtualization_learning.Base.{
  ℕ, zero, suc, Bool, true, ◌&&◌, Option, List, arith, ltb, ◌==◌, if◌then◌else◌,
}
use virtualization_learning.MiniVmm.Virtio.{Seg}
use virtualization_learning.MiniVmm.Virtio.Mmio.{VirtioDev}
use virtualization_learning.MiniVmm.Virtio.Blk.{blk_handle}
use virtualization_learning.MiniVmm.Virtio.Console.{Backend, con_in_count, console_handle}
use virtualization_learning.MiniVmm.Virtio.Service.{service_vq}

-- `VIRTIO_ID_CONSOLE`
abbrev pub id_console : ℕ
id_console = 3

-- `dev_can_consume`
unfoldable pub dev_can_consume : ℕ → VirtioDev → Backend → Bool
dev_can_consume qi dev be =
    if dev.device_id == id_console && qi == 0 then ltb 0 (con_in_count be.con_in) else true

blk_done : VirtioDev → Backend → ℕ × (ℕ → ℕ) × List (ℕ × List ℕ) → ℕ × (ℕ → ℕ) × VirtioDev × Backend
blk_done dev be (used_len, mem, writes) = (used_len, mem, dev, record be { writes = writes })

module _ (pread : ℕ → ℕ → Option (List ℕ)) (pwrite : ℕ → List ℕ → Option ℕ) (stack : List ℕ)
    (mem_size : ℕ) where
  -- `dev_handle`; the first argument is the service of another queue.
  unfoldable pub dev_handle :
      (VirtioDev → ℕ → (ℕ → ℕ) → Backend → VirtioDev × (ℕ → ℕ) × Backend)
      → ℕ
      → List Seg
      → (ℕ → ℕ)
      → VirtioDev
      → Backend
      → ℕ × (ℕ → ℕ) × VirtioDev × Backend
  unfolding blk_done
  dev_handle service qi segs mem dev be =
      if dev.device_id == id_console
      then console_handle service qi segs mem dev be
      else blk_done dev be (blk_handle pread pwrite stack segs mem be.writes)

  -- `service_vq`, with calls of itself this deep.
  unfoldable pub service : ℕ → VirtioDev → ℕ → (ℕ → ℕ) → Backend → VirtioDev × (ℕ → ℕ) × Backend
  unfolding dev_handle dev_can_consume
  service zero dev qi mem be = (dev, mem, be)
  service (suc depth) dev qi mem be =
      service_vq (dev_can_consume qi) (dev_handle (service depth) qi) mem_size dev qi mem be
