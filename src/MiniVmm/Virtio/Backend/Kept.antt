-- ===== src/MiniVmm/Virtio/Backend/Kept.antt =====
-- The service of a queue by the console and the block device (minivmm.c) leaves what the device is.
use virtualization_learning.Base.{ℕ, zero, suc, Option, List, ◌==◌, if-intro}
use virtualization_learning.MiniVmm.Virtio.{Seg}
use virtualization_learning.MiniVmm.Virtio.Mmio.{VirtioDev}
use virtualization_learning.MiniVmm.Virtio.Mmio.Shape.{SameShape}
use virtualization_learning.MiniVmm.Virtio.Service.Kept.{service_vq-SameShape}
use virtualization_learning.MiniVmm.Virtio.Console.{Backend, transmit, console_handle}
use virtualization_learning.MiniVmm.Virtio.Backend.{
  id_console, dev_can_consume, dev_handle, service,
}

module _ (pread : ℕ → ℕ → Option (List ℕ)) (pwrite : ℕ → List ℕ → Option ℕ) (stack : List ℕ)
    (mem_size : ℕ) (dev0 : VirtioDev) where
  dev_handle-SameShape :
      (serve : VirtioDev → ℕ → (ℕ → ℕ) → Backend → VirtioDev × (ℕ → ℕ) × Backend)
      → ((dev : VirtioDev) (qi : ℕ) (mem : ℕ → ℕ) (be : Backend)
          → SameShape dev0 dev
          → SameShape dev0 (serve dev qi mem be).0)
      → (qi : ℕ) (segs : List Seg) (mem : ℕ → ℕ) (dev : VirtioDev) (be : Backend)
      → SameShape dev0 dev
      → let (used_len, mem', dev', be') =
          dev_handle pread pwrite stack mem_size serve qi segs mem dev be in
        SameShape dev0 dev'
  unfolding dev_handle console_handle
  dev_handle-SameShape serve keeps qi segs mem dev be h =
      if-intro P (dev.device_id == id_console)
        (if-intro P (qi == 1) (keeps dev 0 mem (transmit segs mem be) h) h) h
    where
      P : ℕ × (ℕ → ℕ) × VirtioDev × Backend → Type 0
      P r = SameShape dev0 r.2

  pub service-SameShape :
      (depth : ℕ) (dev : VirtioDev) (qi : ℕ) (mem : ℕ → ℕ) (be : Backend)
      → SameShape dev0 dev
      → SameShape dev0 (service pread pwrite stack mem_size depth dev qi mem be).0
  unfolding service
  service-SameShape zero dev qi mem be h = h
  service-SameShape (suc depth) dev qi mem be h =
      service_vq-SameShape (dev_can_consume qi)
        (dev_handle pread pwrite stack mem_size (service pread pwrite stack mem_size depth) qi)
        mem_size dev0
        (dev_handle-SameShape (service pread pwrite stack mem_size depth) (service-SameShape depth)
          qi)
        dev qi mem be h
