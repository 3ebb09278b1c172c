-- ===== src/MiniVmm/Virtio/Service.antt =====
-- phase9-capstone/practice/minivmm.c: the service of a queue.
--
-- The backend is a parameter: whether it can consume a chain now, and what it does with a
-- gathered chain, which is to give the length for the used ring, the memory, the device and its
-- own state. The queue in service is read at the start: the console, which serves its receive
-- queue within a transmission, changes another one.
pub mod Outcome
pub mod Kept
use virtualization_learning.Base.{
  ℕ, zero, suc, ◌+◌, ◌-◌, ◌*◌, ◌%◌, ◌^◌, ◌≤◌, ◌<◌, ◌≡◌, refl, ◌≢◌, ◌⊎◌, inl, inr, Bool, true, false,
  not, ◌||◌, Option, none, some, List, arith, leb, ◌==◌, if◌then◌else◌, ==_iff, Bool-cases, set,
  get_or, u16, u64,
}
use virtualization_learning.MiniVmm.Virtio.{Vq, Seg, gpa2hva, load, gather_chain, push_used}
use virtualization_learning.MiniVmm.Virtio.Mmio.{VirtioDev, vq_zero, raise_irq}

-- Where the loop of `service_vq` stands: guest memory, the device, the backend, `last_avail_idx`
-- of the queue and `did`.
pub record Progress (S : Type 0) : Type 0 where
  pub mem : ℕ → ℕ
  pub dev : VirtioDev
  pub state : S
  pub last : ℕ
  pub did : Bool

module _ {S : Type 0} (can : VirtioDev → S → Bool)
    (handle : List Seg → (ℕ → ℕ) → VirtioDev → S → ℕ × (ℕ → ℕ) × VirtioDev × S) (mem_size : ℕ) where
  use_chain : Vq → ℕ → Option (List Seg) → Progress S → Progress S
  use_chain vq head none p = p
  use_chain vq head (some segs) p =
      let (used_len, mem', dev', state') = handle segs p.mem p.dev p.state in
      record p {
        mem = push_used mem_size vq head used_len mem';
        dev = dev';
        state = state';
        did = true;
      }

  one_chain : Vq → ℕ → Progress S → Progress S
  unfolding use_chain
  one_chain vq avail_ring p =
      let head = load 2 p.mem (avail_ring + 2 * (p.last % vq.num)) in
      let p' = use_chain vq head (gather_chain mem_size p.mem vq head) p in
      record p' { last = u16 (p'.last + 1) }

  -- The loop of `service_vq`, for at most this many rounds.
  unfoldable pub drain : ℕ → Vq → ℕ → ℕ → Progress S → Progress S
  unfolding one_chain
  drain zero vq avail_ring idx p = p
  drain (suc rounds) vq avail_ring idx p =
      let rest = drain rounds vq avail_ring idx (one_chain vq avail_ring p) in
      if p.last == idx then p else if not (can p.dev p.state) then p else rest

  -- `last_avail_idx` of the queue is stored, and the interrupt raised if a chain was used.
  pub finish_service : ℕ → Progress S → VirtioDev × (ℕ → ℕ) × S
  finish_service qi p =
      let vq = record (get_or p.dev.vq qi vq_zero) { last_avail_idx = p.last } in
      let dev' = record (p.dev) { vq = set p.dev.vq qi vq } in
      (if p.did then raise_irq dev' else dev', p.mem, p.state)

  with_avail : Option ℕ → Option ℕ → VirtioDev → ℕ → Vq → (ℕ → ℕ) → S → VirtioDev × (ℕ → ℕ) × S
  unfolding finish_service
  with_avail (some avail_idx) (some avail_ring) dev qi vq mem state = finish_service qi (
      drain 65536 vq avail_ring (load 2 mem avail_idx)
        (record { mem = mem; dev = dev; state = state; last = vq.last_avail_idx; did = false }))
  with_avail none ring dev qi vq mem state = (dev, mem, state)
  with_avail (some avail_idx) none dev qi vq mem state = (dev, mem, state)

  -- `service_vq`
  unfoldable pub service_vq : VirtioDev → ℕ → (ℕ → ℕ) → S → VirtioDev × (ℕ → ℕ) × S
  unfolding with_avail
  service_vq dev qi mem state =
      let vq = get_or dev.vq qi vq_zero in
      if leb dev.nqueues qi
      then (dev, mem, state)
      else if vq.ready == 0 || vq.num == 0
      then (dev, mem, state)
      else with_avail (gpa2hva mem_size (u64 (vq.avail + 2)) 2)
          (gpa2hva mem_size (u64 (vq.avail + 4)) (u64 (2 * vq.num))) dev qi vq mem state

  last-one_chain :
      (vq : Vq) (ring : ℕ) (p : Progress S) → (one_chain vq ring p).last ≡ (p.last + 1) % 2 ^ 16
  unfolding one_chain use_chain
  last-one_chain vq ring p =
      used (gather_chain mem_size p.mem vq (load 2 p.mem (ring + 2 * (p.last % vq.num))))
    where
      used :
          (o : Option (List Seg))
          → u16 ((use_chain vq (load 2 p.mem (ring + 2 * (p.last % vq.num))) o p).last + 1)
            ≡ (p.last + 1) % 2 ^ 16
      used none = refl
      used (some segs) = refl

  -- How many chains the driver has made available that the device has not looked at.
  abbrev pub behind : ℕ → ℕ → ℕ
  behind idx last = (idx + 2 ^ 16 - last) % 2 ^ 16

  -- The loop ends by itself: with as many rounds as there are chains behind, or more, it stops
  -- only where the device has looked at every chain, or where the backend cannot consume one. So
  -- 65536 rounds are enough.
  pub drain-caught_up :
      (rounds : ℕ) (vq : Vq) (avail_ring idx : ℕ) (p : Progress S)
      → idx < 2 ^ 16
      → p.last < 2 ^ 16
      → behind idx p.last ≤ rounds
      → let p' = drain rounds vq avail_ring idx p in (p'.last ≡ idx) ⊎ (can p'.dev p'.state ≡ false)
  unfolding drain
  drain-caught_up zero vq ring idx p i l enough = inl (omega arith)
  drain-caught_up (suc rounds) vq ring idx p i l enough =
      let next = one_chain vq ring p in
      let at : next.last ≡ (p.last + 1) % 2 ^ 16 = last-one_chain vq ring p in
      elim (Bool-cases (p.last == idx)) [
        | inl e ↦ rw (e, drain) (inl ((==_iff p.last idx).0 e))
        | inr e ↦
            let ne : p.last ≢ idx = ground (arith, e) in
            elim (Bool-cases (can p.dev p.state)) [
              | inr c ↦ rw (e, c, drain) (inr c)
              | inl c ↦
                  rw (e, c, drain)
                    (drain-caught_up rounds vq ring idx next i (omega (arith, at))
                      (omega (arith, at, ne)))
            ]
      ]
