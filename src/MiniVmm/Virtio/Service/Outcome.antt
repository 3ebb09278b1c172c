-- ===== src/MiniVmm/Virtio/Service/Outcome.antt =====
-- What service_vq (minivmm.c) leaves of a queue that is set up, for any backend.
use virtualization_learning.Base.{
  ℕ, zero, suc, ◌+◌, ◌*◌, ◌%◌, ◌^◌, ◌<◌, ◌≡◌, refl, ap, Bool, false, not, ◌||◌, Option, none, some,
  List, leb, ◌==◌, if-intro, length, set, get_or, u64, get_or-set_self,
}
use virtualization_learning.MiniVmm.Virtio.{Vq, Seg, gpa2hva, load, gather_chain}
use virtualization_learning.MiniVmm.Virtio.Mmio.{VirtioDev, vq_zero, raise_irq}
use virtualization_learning.MiniVmm.Virtio.Service.{
  Progress, use_chain, one_chain, drain, finish_service, with_avail, service_vq,
}

abbrev pub queue : VirtioDev → ℕ → Vq
queue dev qi = get_or dev.vq qi vq_zero

-- The queue is ready, its index and its ring of available chains lie in guest memory at these
-- addresses.
pub record IsSetUp (mem_size : ℕ) (dev : VirtioDev) (qi idx_at ring : ℕ) : Type 0 where
  pub exists : (leb dev.nqueues qi) ≡ false
  pub listed : qi < length dev.vq
  pub enabled : ((queue dev qi).ready == 0 || (queue dev qi).num == 0) ≡ false
  pub idx_mapped : gpa2hva mem_size (u64 ((queue dev qi).avail + 2)) 2 ≡ some idx_at
  pub ring_mapped :
      gpa2hva mem_size (u64 ((queue dev qi).avail + 4)) (u64 (2 * (queue dev qi).num)) ≡ some ring
  pub index_bound : (queue dev qi).last_avail_idx < 2 ^ 16

module _ {S : Type 0} (can : VirtioDev → S → Bool)
    (handle : List Seg → (ℕ → ℕ) → VirtioDev → S → ℕ × (ℕ → ℕ) × VirtioDev × S) (mem_size : ℕ)
    (P : VirtioDev → S → Type 0)
    (keeps : (segs : List Seg) (mem : ℕ → ℕ) (dev : VirtioDev) (s : S)
      → P dev s
      → let (used_len, mem', dev', s') = handle segs mem dev s in P dev' s') where
  one_chain-keeps :
      (vq : Vq) (ring : ℕ) (p : Progress S)
      → P p.dev p.state
      → P
          (one_chain can handle mem_size vq ring p).dev
          (one_chain can handle mem_size vq ring p).state
  unfolding one_chain use_chain
  one_chain-keeps vq ring p h = used (gather_chain mem_size p.mem vq head)
    where
      head : ℕ
      head = load 2 p.mem (ring + 2 * (p.last % vq.num))

      used :
          (o : Option (List Seg))
          → P
              (use_chain can handle mem_size vq head o p).dev
              (use_chain can handle mem_size vq head o p).state
      used none = h
      used (some segs) = keeps segs p.mem p.dev p.state h

  -- What each chain keeps, the loop keeps.
  pub drain-keeps :
      (rounds : ℕ) (vq : Vq) (ring idx : ℕ) (p : Progress S)
      → P p.dev p.state
      → P
          (drain can handle mem_size rounds vq ring idx p).dev
          (drain can handle mem_size rounds vq ring idx p).state
  unfolding drain
  drain-keeps zero vq ring idx p h = h
  drain-keeps (suc rounds) vq ring idx p h =
      let next = one_chain can handle mem_size vq ring p in
      let later = drain-keeps rounds vq ring idx next (one_chain-keeps vq ring p h) in
      if-intro (λ (q : Progress S). P q.dev q.state) (p.last == idx) h
        (if-intro (λ (q : Progress S). P q.dev q.state) (not (can p.dev p.state)) h later)

module _ {S : Type 0} (can : VirtioDev → S → Bool)
    (handle : List Seg → (ℕ → ℕ) → VirtioDev → S → ℕ × (ℕ → ℕ) × VirtioDev × S) (mem_size : ℕ) where
  abbrev pub start : VirtioDev → ℕ → (ℕ → ℕ) → S → Progress S
  start dev qi mem s = record {
    mem = mem;
    dev = dev;
    state = s;
    last = (queue dev qi).last_avail_idx;
    did = false;
  }

  -- A queue that is set up is served by the loop.
  pub service_vq-IsSetUp :
      (dev : VirtioDev) (qi : ℕ) (mem : ℕ → ℕ) (s : S) (idx_at ring : ℕ)
      → IsSetUp mem_size dev qi idx_at ring
      → service_vq can handle mem_size dev qi mem s
        ≡ finish_service can handle mem_size qi (
            drain can handle mem_size 65536
              (queue dev qi)
              ring
              (load 2 mem idx_at)
              (start dev qi mem s))
  unfolding service_vq with_avail
  service_vq-IsSetUp dev qi mem s idx_at ring h =
      rw (h.exists, h.enabled, h.idx_mapped, h.ring_mapped, with_avail) refl

  -- The end of the service stores how far the loop came, and changes no other register but the
  -- interrupt's.
  pub finish_service-last :
      (qi : ℕ) (p : Progress S)
      → qi < length p.dev.vq
      → (queue (finish_service can handle mem_size qi p).0 qi).last_avail_idx ≡ p.last
  unfolding finish_service raise_irq
  finish_service-last qi p h =
      let vq' = record (get_or p.dev.vq qi vq_zero) { last_avail_idx = p.last } in
      let dev' = record (p.dev) { vq = set p.dev.vq qi vq' } in
      let at = ap (λ (v : Vq). v.last_avail_idx) (get_or-set_self p.dev.vq qi vq' vq_zero h) in
      if-intro (λ d. (queue d qi).last_avail_idx ≡ p.last) p.did {x = raise_irq dev'} {y = dev'} at
        at

  pub finish_service-state :
      (qi : ℕ) (p : Progress S) → (finish_service can handle mem_size qi p).2 ≡ p.state
  unfolding finish_service
  finish_service-state qi p = refl
