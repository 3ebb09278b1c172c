-- ===== src/MiniKvm/Lifecycle/Release/Kept.antt =====
-- What `mini_kvm_put` and the registration of memory in vcpu.c leave of a VM of mini-kvm.
use virtualization_learning.Base.{
  ℕ, ◌-◌, ◌≡◌, refl, sym, ap, ◌∙◌, inl, inr, Bool, true, false, not, Option, none, some, List, [],
  ◌++◌, if◌then◌else◌, arith, ◌==◌, nonzero, Bool-cases, length, ◌>>>◌,
}
use virtualization_learning.MiniKvm.{ok, err, Status, Memslot}
use virtualization_learning.MiniKvm.Ept.{ept_destroy}
use virtualization_learning.MiniKvm.Lifecycle.{
  Vm, Region, set_memregion, check_region, add_region, pin_region, unpin_memslot, destroy, put_ref,
}
use virtualization_learning.MiniKvm.Lifecycle.World.{Released, IsBalanced}

-- What the release of a reference leaves.
pub record Put (vm vm' : Vm) : Type 0 where
  pub refcount : vm'.refcount ≡ vm.refcount - 1
  pub live : vm'.live ≡ nonzero vm'.refcount
  pub vcpu : vm'.vcpu ≡ vm.vcpu
  pub objects : vm'.vcpu_objects ≡ vm.vcpu_objects
  pub run_pages : vm'.run_pages ≡ vm.run_pages
  pub vmx_states : vm'.vmx_states ≡ vm.vmx_states
  pub pins : IsBalanced vm → IsBalanced vm'
  pub released : IsBalanced vm → vm'.live ≡ false → Released vm'

-- After `mini_kvm_unpin_memslot` no pin is left.
unpin-pins :
    (vm : Vm)
    → IsBalanced vm
    → ((unpin_memslot vm).unpinned ≡ vm.pinned) × ((unpin_memslot vm).pinned ≡ vm.pinned)
unfolding unpin_memslot
unpin-pins vm h = elim (Bool-cases vm.slot.valid) [
  | inl v ↦
      rw (v, unpin_memslot)
        (sym (h ∙ ap (λ b. (if b then vm.slot.pages else []) ++ vm.unpinned) v), refl)
  | inr v ↦
      rw (v, unpin_memslot)
        (sym (h ∙ ap (λ b. (if b then vm.slot.pages else []) ++ vm.unpinned) v), refl)
]

unpinned_invalid : (vm : Vm) → (unpin_memslot vm).slot.valid ≡ false
unfolding unpin_memslot
unpinned_invalid vm = ground arith

-- What `mini_kvm_unpin_memslot` leaves alone.
unpin-rest :
    (vm : Vm)
    → let vm' = unpin_memslot vm in
      (vm'.refcount ≡ vm.refcount)
      × (vm'.vcpu ≡ vm.vcpu)
      × (vm'.vcpu_objects ≡ vm.vcpu_objects)
      × (vm'.run_pages ≡ vm.run_pages)
      × (vm'.vmx_states ≡ vm.vmx_states)
unfolding unpin_memslot
unpin-rest vm = elim (Bool-cases vm.slot.valid) [
  | inl h ↦ rw (h, unpin_memslot) (refl, refl, refl, refl, refl)
  | inr h ↦ rw (h, unpin_memslot) (refl, refl, refl, refl, refl)
]

pub put_ref-Put : (vm : Vm) → vm.live ≡ true → Put vm (put_ref vm)
unfolding put_ref destroy ept_destroy
put_ref-Put vm alive = elim (Bool-cases (vm.refcount - 1 == 0)) [
  | inl h ↦
      let vm1 = record vm { refcount = vm.refcount - 1 } in
      let (a, b, c, d, e) = unpin-rest vm1 in
      rw (h, put_ref)
        record {
          refcount = a;
          live = sym (ap nonzero a ∙ ap not h);
          vcpu = b;
          objects = c;
          run_pages = d;
          vmx_states = e;
          pins = λ k.
              (unpin-pins vm1 k).1
              ∙ (sym (unpin-pins vm1 k).0
                  ∙ sym (
                      ap
                        (λ b.
                          (if b then (unpin_memslot vm1).slot.pages else [])
                          ++ (unpin_memslot vm1).unpinned)
                        (unpinned_invalid vm1)));
          released = λ k l.
              (unpinned_invalid vm1, (unpin-pins vm1 k).0 ∙ sym (unpin-pins vm1 k).1, refl, refl);
        }
  | inr h ↦
      rw (h, put_ref)
        record {
          refcount = refl;
          live = alive ∙ sym (ap not h);
          vcpu = refl;
          objects = refl;
          run_pages = refl;
          vmx_states = refl;
          pins = λ k. k;
          released = λ k l. absurd (cc (alive, l));
        }
]

-- The rest of the VM as after a registration of memory.
pub record Kept (vm vm' : Vm) : Type 0 where
  pub refcount : vm'.refcount ≡ vm.refcount
  pub live : vm'.live ≡ vm.live
  pub vcpu : vm'.vcpu ≡ vm.vcpu
  pub objects : vm'.vcpu_objects ≡ vm.vcpu_objects
  pub run_pages : vm'.run_pages ≡ vm.run_pages
  pub vmx_states : vm'.vmx_states ≡ vm.vmx_states
  pub pins : IsBalanced vm → IsBalanced vm'

Kept-refl : (vm : Vm) → Kept vm vm
Kept-refl vm = record {
  refcount = refl;
  live = refl;
  vcpu = refl;
  objects = refl;
  run_pages = refl;
  vmx_states = refl;
  pins = λ k. k;
}

pin_region-Kept :
    (region : Region) (pinned : Option (List ℕ)) (vm : Vm)
    → vm.slot.valid ≡ false
    → Kept vm (pin_region region pinned vm).1
unfolding pin_region
pin_region-Kept region none vm free = Kept-refl vm
pin_region-Kept region (some pinned) vm free =
    elim (Bool-cases (length pinned == (region.memory_size >>> 12))) [
      | inl h ↦
          rw (h, pin_region)
            record {
              refcount = refl;
              live = refl;
              vcpu = refl;
              objects = refl;
              run_pages = refl;
              vmx_states = refl;
              pins = λ k. ap (λ fs. pinned ++ fs) (none_held k);
            }
      | inr h ↦
          rw (h, pin_region)
            record {
              refcount = refl;
              live = refl;
              vcpu = refl;
              objects = refl;
              run_pages = refl;
              vmx_states = refl;
              pins = λ k.
                  ap (λ fs. pinned ++ fs) (none_held k)
                  ∙ sym
                      (ap (λ b. (if b then vm.slot.pages else []) ++ (pinned ++ vm.unpinned)) free);
            }
    ]
  where
    none_held : IsBalanced vm → vm.pinned ≡ vm.unpinned
    none_held k = k ∙ ap (λ b. (if b then vm.slot.pages else []) ++ vm.unpinned) free

-- What passes the checks has no slot before.
check_region-free :
    (region : Region) (slot : Memslot) → check_region region slot ≡ ok tt → slot.valid ≡ false
unfolding check_region
check_region-free region slot h = ground arith

add_region-Kept :
    (s : Status) (region : Region) (allocated : Bool) (pinned : Option (List ℕ)) (vm : Vm)
    → (s ≡ ok tt → vm.slot.valid ≡ false)
    → Kept vm (add_region s region allocated pinned vm).1
unfolding add_region
add_region-Kept (err e) region allocated pinned vm free = Kept-refl vm
add_region-Kept (ok u) region true pinned vm free = pin_region-Kept region pinned vm (free refl)
add_region-Kept (ok u) region false pinned vm free = Kept-refl vm

pub set_memregion-Kept :
    (region : Option Region) (allocated : Bool) (pinned : Option (List ℕ)) (vm : Vm)
    → Kept vm (set_memregion region allocated pinned vm).1
unfolding set_memregion
set_memregion-Kept none allocated pinned vm = Kept-refl vm
set_memregion-Kept (some region) allocated pinned vm =
    add_region-Kept (check_region region vm.slot) region allocated pinned vm
      (check_region-free region vm.slot)
