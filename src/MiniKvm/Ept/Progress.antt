-- ===== src/MiniKvm/Ept/Progress.antt =====
-- When an EPT violation succeeds, and which are refused.
use virtualization_learning.Base.{
  ℕ, zero, suc, ◌+◌, ◌*◌, ◌^◌, ◌≤◌, ◌<◌, bit_and, ◌≡◌, refl, ap, ◌∙◌, inl, inr, true, false, Option,
  none, some, List, [], ◌∷◌, arith, leb, nonzero, Bool-cases, length,
}
use virtualization_learning.MiniKvm.{Errno, ok, err, Memslot, EptRoot, Host, Machine}
use virtualization_learning.MiniKvm.Ept.{
  take_page, alloc_page, hang_table, ensure_entry, walk_from, ept_walk, walk_root, outside_slot,
  page_start, map_page, handle_violation, table_index, entry_frame,
}
use virtualization_learning.MiniKvm.Ept.Entry.{page_of, page_start_lem}

-- The next `n` calls of the allocator succeed.
abbrev pub Somes : ℕ → List (Option ℕ) → Type 0
Somes zero ps = Unit {0}
Somes (suc n) [] = ⊥
Somes (suc n) (none ∷ ps) = ⊥
Somes (suc n) (some f ∷ ps) = Somes n ps

Somes-weaken : (n : ℕ) (ps : List (Option ℕ)) → Somes (suc n) ps → Somes n ps
Somes-weaken n [] s = absurd s
Somes-weaken n (none ∷ ps) s = absurd s
Somes-weaken zero (some f ∷ ps) s = tt
Somes-weaken (suc n) (some f ∷ ps) s = Somes-weaken n ps s

-- `n` more tables can be had, and be tracked.
abbrev pub HasRoom : ℕ → EptRoot → Host → Type 0
HasRoom n ept host = (length ept.tracked + n ≤ 1024) × Somes n host.pages

hang_table-HasRoom :
    (n frame i : ℕ) (ept : EptRoot) (ps : List (Option ℕ)) (host : Host)
    → length ept.tracked + suc n ≤ 1024
    → Somes (suc n) ps
    → let r = hang_table frame i ept (take_page ps host) in (r.0 ≡ true) × HasRoom n r.1 r.2
unfolding hang_table take_page
hang_table-HasRoom n frame i ept [] host le s = absurd s
hang_table-HasRoom n frame i ept (none ∷ ps) host le s = absurd s
hang_table-HasRoom n frame i ept (some f ∷ ps) host le s = (refl, (omega arith, s))

ensure_entry-HasRoom :
    (n frame i : ℕ) (ept : EptRoot) (host : Host)
    → HasRoom (suc n) ept host
    → let r = ensure_entry frame i true ept host in (r.0 ≡ true) × HasRoom n r.1 r.2
unfolding ensure_entry alloc_page
ensure_entry-HasRoom n frame i ept host room =
    elim (Bool-cases (nonzero (bit_and (host.table frame i) 1))) [
      | inl e ↦ rw (e, ensure_entry) (refl, (omega arith, Somes-weaken n host.pages room.1))
      | inr e ↦
          let free : leb 1024 (length ept.tracked) ≡ false = ground arith in
          rw (e, free, ensure_entry)
            (hang_table-HasRoom n frame i ept host.pages host room.0 room.1)
    ]

-- With room for a table at each level below, a walk that may allocate finds the leaf entry.
pub walk_from-HasRoom :
    (below frame gpa : ℕ) (ept : EptRoot) (host : Host)
    → HasRoom below ept host
    → (p : ℕ × ℕ) × ((walk_from below frame gpa true ept host).0 ≡ some p)
unfolding walk_from
walk_from-HasRoom zero frame gpa ept host room = ((frame, table_index zero gpa), refl)
walk_from-HasRoom (suc below) frame gpa ept host room =
    let idx = table_index (suc below) gpa in
    let es = ensure_entry frame idx true ept host in
    let (h, room') = ensure_entry-HasRoom below frame idx ept host room in
    let (p, found) =
      walk_from-HasRoom below (entry_frame (es.2.table frame idx)) gpa es.1 es.2 room' in
    (p, rw (h, walk_from) found)

map_page-some :
    (m : Machine) (gpa : ℕ) (r : Option (ℕ × ℕ) × EptRoot × Host) (p : ℕ × ℕ)
    → r.0 ≡ some p
    → (map_page m gpa r).0 ≡ ok tt
unfolding map_page
map_page-some m gpa (none, e', h') p e = cc
map_page-some m gpa (some (f, i), e', h') p e = refl

-- Whether an address, rounded down to its page, lies in the slot.
abbrev pub InSlot : Memslot → ℕ → Type 0
InSlot slot gpa =
    (slot.valid ≡ true)
    × (slot.base_gpa ≤ page_of gpa * 4096)
    × (page_of gpa * 4096 < slot.base_gpa + slot.npages * 4096)

outside_slot_lem :
    (slot : Memslot) (gpa : ℕ)
    → gpa < 2 ^ 64
    → slot.base_gpa + slot.npages * 4096 < 2 ^ 64
    → (InSlot slot gpa → outside_slot slot (page_start gpa) ≡ false)
      × (¬ InSlot slot gpa → outside_slot slot (page_start gpa) ≡ true)
unfolding outside_slot
outside_slot_lem slot gpa h bound = (
  λ i. ground (arith, page_start_lem gpa h),
  λ i. elim (Bool-cases (outside_slot slot (page_start gpa))) [
    | inl out ↦ out
    | inr e ↦ absurd (i (within e))
  ],
)
  where
    within : outside_slot slot (page_start gpa) ≡ false → InSlot slot gpa
    within e =
        (ground arith, ground (arith, page_start_lem gpa h), ground (arith, page_start_lem gpa h))

-- A violation at an address outside the slot is refused with EFAULT and changes nothing. One inside
-- the slot is handled, if the allocator has three more pages to give and the EPT can track them.
-- The slot does not reach 2^64.
pub handle_violation-progress :
    (m : Machine) (root : ℕ)
    → m.ept.pml4 ≡ some root
    → m.vmcs.guest_physical_address < 2 ^ 64
    → m.slot.base_gpa + m.slot.npages * 4096 < 2 ^ 64
    → (¬ InSlot m.slot m.vmcs.guest_physical_address → handle_violation m ≡ (err Errno.efault, m))
      × (InSlot m.slot m.vmcs.guest_physical_address
          → HasRoom 3 m.ept m.host
          → (handle_violation m).0 ≡ ok tt)
unfolding handle_violation ept_walk
handle_violation-progress m root e h bound =
    let gpa = m.vmcs.guest_physical_address in
    let (inside, outside) = outside_slot_lem m.slot gpa h bound in
    (
      λ out. rw (outside out, handle_violation) refl,
      λ inn room.
          let (p, found) = walk_from-HasRoom 3 root (page_start gpa) m.ept m.host room in
          rw (inside inn, handle_violation)
            (map_page-some m (page_start gpa)
              (walk_root m.ept.pml4 m.ept m.host (page_start gpa) true) p
              (ap (λ (r : Option ℕ). (walk_root r m.ept m.host (page_start gpa) true).0) e
                ∙ found)),
    )
