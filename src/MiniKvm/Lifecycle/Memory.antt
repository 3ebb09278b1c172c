-- ===== src/MiniKvm/Lifecycle/Memory.antt =====
-- The registration of guest memory in mini-kvm: what the slot is after each branch.
use virtualization_learning.Base.{
  ℕ, ◌*◌, ◌%◌, ◌≡◌, refl, ap, ◌≢◌, ◌⊎◌, inl, inr, Bool, true, false, Option, none, some, List, [],
  ◌++◌, arith, ◌==◌, Bool-cases, length, ◌>>>◌, bit_and_mask,
}
use virtualization_learning.MiniKvm.{Errno, ok, err, Status, Memslot}
use virtualization_learning.MiniKvm.Lifecycle.{
  Vm, Region, page_aligned, check_region, pin_region, add_region, set_memregion,
}

page_aligned_lem : (addr : ℕ) → page_aligned addr ≡ (addr % 4096 == 0)
unfolding page_aligned
page_aligned_lem addr = ap (λ x. x == 0) (bit_and_mask 12 addr)

-- What the checks demand of a region
pub record IsAccepted (region : Region) (slot : Memslot) : Type 0 where
  pub slot_id : region.slot_id ≡ 0
  pub flags : region.flags ≡ 0
  pub free : slot.valid ≡ false
  pub size : region.memory_size ≢ 0
  pub base_aligned : region.guest_phys_addr % 4096 ≡ 0
  pub user_aligned : region.user_addr % 4096 ≡ 0
  pub size_aligned : region.memory_size % 4096 ≡ 0

check_region-IsAccepted :
    (region : Region) (slot : Memslot) → check_region region slot ≡ ok tt → IsAccepted region slot
unfolding check_region
check_region-IsAccepted region slot h = record {
  slot_id = ground arith;
  flags = ground arith;
  free = ground arith;
  size = ground arith;
  base_aligned = ground (arith, page_aligned_lem region.guest_phys_addr);
  user_aligned = ground (arith, page_aligned_lem region.user_addr);
  size_aligned = ground (arith, page_aligned_lem region.memory_size);
}

-- What the slot holds after a success.
pub record IsRegistered (region : Region) (slot : Memslot) : Type 0 where
  pub valid : slot.valid ≡ true
  pub base : slot.base_gpa ≡ region.guest_phys_addr
  pub whole : slot.npages * 4096 ≡ region.memory_size
  pub all_pinned : length slot.pages ≡ slot.npages

-- The frames that an attempt to pin got.
abbrev pub frames_of : Option (List ℕ) → List ℕ
frames_of none = []
frames_of (some frames) = frames

-- These frames were pinned and unpinned again.
abbrev pub given_back : List ℕ → Vm → Vm
given_back frames vm = record vm { pinned = frames ++ vm.pinned; unpinned = frames ++ vm.unpinned }

pinned-cases :
    (region : Region) (pinned : Option (List ℕ)) (vm : Vm)
    → region.memory_size % 4096 ≡ 0
    → let (status, vm') = pin_region region pinned vm in
      ((status ≡ ok tt) × IsRegistered region vm'.slot × (vm'.unpinned ≡ vm.unpinned))
      ⊎ ((status ≡ err Errno.efault) × (vm' ≡ given_back (frames_of pinned) vm))
unfolding pin_region
pinned-cases region none vm h = inr (refl, refl)
pinned-cases region (some frames) vm h =
    elim (Bool-cases (length frames == (region.memory_size >>> 12))) [
      | inl e ↦
          rw (e, pin_region)
            (inl (
              refl,
              record {
                valid = refl;
                base = refl;
                whole = omega (arith, h);
                all_pinned = ground (arith, e);
              },
              refl,
            ))
      | inr e ↦ rw (e, pin_region) (inr (refl, refl))
    ]

added-cases :
    (s : Status) (region : Region) (allocated : Bool) (pinned : Option (List ℕ)) (vm : Vm)
    → (s ≡ ok tt → IsAccepted region vm.slot)
    → let (status, vm') = add_region s region allocated pinned vm in
      ((status ≡ ok tt)
        × IsAccepted region vm.slot
        × IsRegistered region vm'.slot
        × (vm'.unpinned ≡ vm.unpinned))
      ⊎ ((e : Errno) × (status ≡ err e) × ((vm' ≡ vm) ⊎ (vm' ≡ given_back (frames_of pinned) vm)))
unfolding add_region
added-cases (err e) region allocated pinned vm h = inr (e, refl, inl refl)
added-cases (ok u) region false pinned vm h = inr (Errno.enomem, refl, inl refl)
added-cases (ok u) region true pinned vm h =
    let a = h refl in
    elim (pinned-cases region pinned vm a.size_aligned) [
      | inl (s, r, k) ↦ inl (s, a, r, k)
      | inr (s, k) ↦ inr (Errno.efault, s, inr k)
    ]

-- The registration of a region, all branches. It succeeds only for slot 0, no flags, a region
-- that is not empty, all of it aligned to pages, and a VM with no slot yet; then the slot is that
-- region, with a pinned frame for each page. A failure changes nothing, or gives back each frame
-- that was pinned.
pub set_memregion_cases :
    (region : Region) (allocated : Bool) (pinned : Option (List ℕ)) (vm : Vm)
    → let (status, vm') = set_memregion (some region) allocated pinned vm in
      ((status ≡ ok tt)
        × IsAccepted region vm.slot
        × IsRegistered region vm'.slot
        × (vm'.unpinned ≡ vm.unpinned))
      ⊎ ((e : Errno) × (status ≡ err e) × ((vm' ≡ vm) ⊎ (vm' ≡ given_back (frames_of pinned) vm)))
unfolding set_memregion
set_memregion_cases region allocated pinned vm =
    added-cases (check_region region vm.slot) region allocated pinned vm
      (check_region-IsAccepted region vm.slot)
