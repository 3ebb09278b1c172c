-- ===== src/MiniVmm/Virtio/Service/Kept.antt =====
-- The service of a queue (service_vq of minivmm.c) leaves what the device is, for any backend.
use virtualization_learning.Base.{
  ℕ, ◌+◌, ◌*◌, ◌≡◌, ◌∙◌, Bool, ◌||◌, Option, none, some, List, leb, ◌==◌, if-intro, length, set,
  get_or, u64, length-set,
}
use virtualization_learning.MiniVmm.Virtio.{Vq, Seg, gpa2hva, load}
use virtualization_learning.MiniVmm.Virtio.Mmio.{VirtioDev, vq_zero, raise_irq}
use virtualization_learning.MiniVmm.Virtio.Mmio.Shape.{SameShape}
use virtualization_learning.MiniVmm.Virtio.Service.{
  Progress, drain, finish_service, with_avail, service_vq,
}
use virtualization_learning.MiniVmm.Virtio.Service.Outcome.{queue, drain-keeps, start}

-- A device of the shape of another, after its queues and its interrupt are written.
rewritten :
    (dev0 dev : VirtioDev) (qs : List Vq)
    → length qs ≡ length dev.vq
    → SameShape dev0 dev
    → SameShape dev0 (record dev { vq = qs })
rewritten dev0 dev qs e h = record {
  base = h.base;
  gsi = h.gsi;
  device_id = h.device_id;
  features = h.features;
  nqueues = h.nqueues;
  queues = e ∙ h.queues;
  config = h.config;
  config_len = h.config_len;
}

raised : (dev0 dev : VirtioDev) → SameShape dev0 dev → SameShape dev0 (raise_irq dev)
unfolding raise_irq
raised dev0 dev h = record {
  base = h.base;
  gsi = h.gsi;
  device_id = h.device_id;
  features = h.features;
  nqueues = h.nqueues;
  queues = h.queues;
  config = h.config;
  config_len = h.config_len;
}

module _ {S : Type 0} (can : VirtioDev → S → Bool)
    (handle : List Seg → (ℕ → ℕ) → VirtioDev → S → ℕ × (ℕ → ℕ) × VirtioDev × S) (mem_size : ℕ)
    (dev0 : VirtioDev)
    (keeps : (segs : List Seg) (mem : ℕ → ℕ) (dev : VirtioDev) (s : S)
      → SameShape dev0 dev
      → let (used_len, mem', dev', s') = handle segs mem dev s in SameShape dev0 dev') where
  finish_service-SameShape :
      (qi : ℕ) (p : Progress S)
      → SameShape dev0 p.dev
      → SameShape dev0 (finish_service can handle mem_size qi p).0
  unfolding finish_service
  finish_service-SameShape qi p h =
      let vq' = record (get_or p.dev.vq qi vq_zero) { last_avail_idx = p.last } in
      let dev' = record (p.dev) { vq = set p.dev.vq qi vq' } in
      let same = rewritten dev0 p.dev (set p.dev.vq qi vq') (length-set p.dev.vq qi vq') h in
      if-intro (SameShape dev0) p.did {x = raise_irq dev'} {y = dev'} (raised dev0 dev' same) same

  with_avail-SameShape :
      (avail_idx avail_ring : Option ℕ) (dev : VirtioDev) (qi : ℕ) (mem : ℕ → ℕ) (s : S)
      → SameShape dev0 dev
      → SameShape dev0
          (with_avail can handle mem_size avail_idx avail_ring dev qi (queue dev qi) mem s).0
  unfolding with_avail
  with_avail-SameShape none ring dev qi mem s h = h
  with_avail-SameShape (some idx) none dev qi mem s h = h
  with_avail-SameShape (some idx) (some ring) dev qi mem s h =
      let p =
        drain can handle mem_size 65536 (queue dev qi) ring (load 2 mem idx)
          (start can handle mem_size dev qi mem s) in
      finish_service-SameShape qi p (
        drain-keeps can handle mem_size (λ d be. SameShape dev0 d) keeps 65536 (queue dev qi) ring
          (load 2 mem idx) (start can handle mem_size dev qi mem s) h)

  pub service_vq-SameShape :
      (dev : VirtioDev) (qi : ℕ) (mem : ℕ → ℕ) (s : S)
      → SameShape dev0 dev
      → SameShape dev0 (service_vq can handle mem_size dev qi mem s).0
  unfolding service_vq
  service_vq-SameShape dev qi mem s h =
      let vq = queue dev qi in
      if-intro P (leb dev.nqueues qi) {x = (dev, mem, s)} h (
        if-intro P (vq.ready == 0 || vq.num == 0) {x = (dev, mem, s)} h (
          with_avail-SameShape (gpa2hva mem_size (u64 (vq.avail + 2)) 2)
            (gpa2hva mem_size (u64 (vq.avail + 4)) (u64 (2 * vq.num))) dev qi mem s h))
    where
      P : VirtioDev × (ℕ → ℕ) × S → Type 0
      P r = SameShape dev0 r.0
