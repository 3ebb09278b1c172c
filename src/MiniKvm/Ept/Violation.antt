-- ===== src/MiniKvm/Ept/Violation.antt =====
-- What an EPT violation does to the translation that the processor makes.
use virtualization_learning.Base.{
  ℕ, zero, suc, ◌+◌, ◌-◌, ◌*◌, ◌/◌, ◌%◌, ◌^◌, ◌<◌, ◌≡◌, refl, sym, ap, ◌∙◌, ◌≢◌, ◌⊎◌, inl, inr,
  true, Option, none, some, arith, ℕ_discrete, if◌then◌else◌, Bool-cases, get_or,
}
use virtualization_learning.MiniKvm.{Errno, ok, err, Status, Memslot, EptRoot, Host, Machine, store}
use virtualization_learning.MiniKvm.Ept.{
  ept_walk, walk_root, walk_from, outside_slot, map_page, handle_violation,
}
use virtualization_learning.MiniKvm.Ept.Entry.{index_of, page_of, page_start_lem, leaf_entry_lem}
use virtualization_learning.MiniKvm.Ept.Translate.{
  resolve, next_owner, Owner, IsTree, Reaches, resolve-agree, resolve-Reaches,
}
use virtualization_learning.MiniKvm.Ept.Walk.{Supply, Walked, walk_from-Walked, pml4-walk_from}

-- The EPT of a VM that is alive: a tree with this root, and an allocator that keeps its promise.
pub record IsAlive (owner : Owner) (root : ℕ) (ept : EptRoot) (host : Host) : Type 0 where
  pub rooted : ept.pml4 ≡ some root
  pub at_top : owner root ≡ some (3, 0)
  pub tree : IsTree owner host.table
  pub supply : Supply owner host.pages

-- The frame of host memory that the processor finds for a page of guest memory.
abbrev pub translate : Host → ℕ → ℕ → Option ℕ
translate host root page = resolve host.table 3 root page

-- A leaf entry, written where the walk for a page ended.
module _ (owner : Owner) (t : ℕ → ℕ → ℕ) (tree : IsTree owner t) (page leaf frame : ℕ)
    (owned : owner leaf ≡ some (zero, page / 512 ^ 1)) (small : frame < 2 ^ 40) where
  abbrev t' : ℕ → ℕ → ℕ
  t' = store t leaf (index_of zero page) (frame * 4096 + 55)

  same_entry : (f i : ℕ) → (f ≢ leaf) ⊎ (i ≢ index_of zero page) → t' f i ≡ t f i
  same_entry f i h = ground arith

  new_entry : t' leaf (index_of zero page) ≡ frame * 4096 + 55
  new_entry = ground arith

  not_leaf : (f b p : ℕ) → owner f ≡ some (suc b, p) → f ≢ leaf
  not_leaf f b p o e = cc (ap owner e)

  shaped : (f b p i : ℕ) → owner f ≡ some (b, p) → i < 512 → (t' f i ≡ 0) ⊎ (t' f i % 8 ≡ 7)
  shaped f b p i o lt = elim (ℕ_discrete f leaf) [
    | no n ↦ rw (same_entry f i (inl n)) (tree.shaped f b p i o lt)
    | yes e ↦ elim (ℕ_discrete i (index_of zero page)) [
      | no n ↦ rw (same_entry f i (inr n)) (tree.shaped f b p i o lt)
      | yes e' ↦ inr (rw (e, e', new_entry) (omega arith))
    ]
  ]

  pub map_leaf-IsTree : IsTree owner t'
  map_leaf-IsTree = record {
    shaped = shaped;
    linked = λ f b p i o lt e.
        let same = same_entry f i (inl (not_leaf f b p o)) in
        rw same (tree.linked f b p i o lt (rw same at e));
  }

  pub map_leaf-Reaches :
      (below top : ℕ)
      → owner top ≡ some (below, page / 512 ^ suc below)
      → Reaches t below top page leaf
      → Reaches t' below top page leaf
  unfolding Reaches
  map_leaf-Reaches zero top o r = r
  map_leaf-Reaches (suc below) top o r =
      let same = same_entry top (index_of (suc below) page) (inl (not_leaf top below _ o)) in
      rw same (r.0, map_leaf-Reaches below _ (next_owner tree page below top o r.0) r.1)

  -- Only the page itself has its entry there.
  other_slot :
      (other b : ℕ)
      → other ≢ page
      → owner leaf ≡ some (b, other / 512 ^ suc b)
      → index_of b other ≢ index_of zero page
  other_slot other zero ne o e =
      let key : some (zero, other / 512 ^ 1) ≡ some (zero, page / 512 ^ 1) = sym o ∙ owned in
      ne (close (ground (arith, key)) e)
    where
      close : other / 512 ≡ page / 512 → other / 1 % 512 ≡ page / 1 % 512 → other ≡ page
      close h k = omega arith
  other_slot other (suc b) ne o e = cc (sym o ∙ owned)

  pub map_leaf-other :
      (other below top : ℕ)
      → other ≢ page
      → owner top ≡ some (below, other / 512 ^ suc below)
      → resolve t' below top other ≡ resolve t below top other
  map_leaf-other other below top ne o = resolve-agree owner t t' other tree kept below top o
    where
      kept :
          (f b : ℕ)
          → owner f ≡ some (b, other / 512 ^ suc b)
          → (t' f (index_of b other) ≡ t f (index_of b other))
            ⊎ (resolve t' b f other ≡ resolve t b f other)
      kept f b o' = elim (ℕ_discrete f leaf) [
        | no n ↦ inl (same_entry f _ (inl n))
        | yes e ↦ inl (same_entry f _ (inr (other_slot other b ne (rw e at o'))))
      ]

  pub map_leaf-page : resolve t' zero leaf page ≡ some frame
  unfolding resolve
  map_leaf-page = rw new_entry (ground (arith, back))
    where
      back : (frame * 4096 + 55) / 4096 % 2 ^ 40 ≡ frame
      back = omega arith

-- The frame that backs a page of the slot.
abbrev pub backing : Memslot → ℕ → ℕ
backing slot page = get_or slot.pages (page - page_of slot.base_gpa) 0

-- What a handled violation leaves: the page maps to its backing, every other page as before, and
-- the EPT is well formed.
pub record Mapped (m : Machine) (root page : ℕ) (m' : Machine) : Type 0 where
  pub this_page : translate m'.host root page ≡ some (backing m.slot page)
  pub other_pages :
      (other : ℕ)
      → other < 2 ^ 36
      → other ≢ page
      → translate m'.host root other ≡ translate m.host root other
  pub owner' : Owner
  pub alive : IsAlive owner' root m'.ept m'.host

top_part : (page : ℕ) → page < 2 ^ 36 → page / 512 ^ 4 ≡ 0
top_part page h = omega arith

at_top :
    (owner : Owner) (root page : ℕ)
    → page < 2 ^ 36
    → owner root ≡ some (3, 0)
    → owner root ≡ some (3, page / 512 ^ 4)
at_top owner root page h o = o ∙ ap (λ (k : ℕ). some (3, k)) (sym (top_part page h))

slot_index : (page base : ℕ) → base % 4096 ≡ 0 → (page * 4096 - base) / 2 ^ 12 ≡ page - base / 4096
slot_index page base h = omega arith

map_page-Mapped :
    (m : Machine) (owner : Owner) (root page : ℕ) (r : Option (ℕ × ℕ) × EptRoot × Host)
    → IsAlive owner root m.ept m.host
    → page < 2 ^ 36
    → m.slot.base_gpa % 4096 ≡ 0
    → backing m.slot page < 2 ^ 40
    → r.1.pml4 ≡ some root
    → Walked owner m.host 3 root page r
    → (map_page m (page * 4096) r).0 ≡ ok tt
    → Mapped m root page (map_page m (page * 4096) r).1
unfolding map_page
map_page-Mapped m owner root page (none, e', h') alive h36 aligned small rooted w h = cc
map_page-Mapped m owner root page (some (leaf, i), e', h') alive h36 aligned small rooted w h =
    let (at_i, o, reaches) = w.found leaf i refl in
    let frame = backing m.slot page in
    let top = w.grown.keeps_owner root _ alive.at_top in
    rw (slot_index page m.slot.base_gpa aligned, leaf_entry_lem, at_i)
      (record {
        this_page =
            resolve-Reaches _ 3 root page leaf (
              map_leaf-Reaches w.owner' h'.table w.grown.tree page leaf frame o small 3 root
                (at_top w.owner' root page h36 top) reaches)
            ∙ map_leaf-page w.owner' h'.table w.grown.tree page leaf frame o small;
        other_pages = λ other lt ne.
            map_leaf-other w.owner' h'.table w.grown.tree page leaf frame o small other 3 root ne
              (at_top w.owner' root other lt top)
            ∙ w.grown.keeps_pages other 3 root (at_top owner root other lt alive.at_top);
        owner' = w.owner';
        alive = record {
          rooted = rooted;
          at_top = top;
          tree = map_leaf-IsTree w.owner' h'.table w.grown.tree page leaf frame o small;
          supply = w.supply;
        };
      })

ept_walk-rooted :
    (m : Machine) (root gpa : ℕ)
    → m.ept.pml4 ≡ some root
    → ept_walk m.ept m.host gpa true ≡ walk_from 3 root gpa true m.ept m.host
unfolding ept_walk
ept_walk-rooted m root gpa e = ap (λ p. walk_root p m.ept m.host gpa true) e

guarded :
    (m : Machine) (owner : Owner) (root page gpa : ℕ)
    → IsAlive owner root m.ept m.host
    → page < 2 ^ 36
    → m.slot.base_gpa % 4096 ≡ 0
    → backing m.slot page < 2 ^ 40
    → gpa ≡ page * 4096
    → (r : Status × Machine)
    → r ≡ (
        if outside_slot m.slot gpa
        then (err Errno.efault, m)
        else map_page m gpa (ept_walk m.ept m.host gpa true))
    → r.0 ≡ ok tt
    → Mapped m root page r.1
guarded m owner root page gpa alive h36 aligned small e r at_r h =
    elim (Bool-cases (outside_slot m.slot gpa)) [
      | inl out ↦ absurd (ground (arith, out, at_r, h))
      | inr inside ↦
          let walked = walk_from 3 root gpa true m.ept m.host in
          let same : page_of gpa ≡ page = omega (arith, e) in
          let w =
            walk_from-Walked 3 owner root gpa true m.ept m.host (omega arith) alive.tree
              alive.supply (rw same (at_top owner root page h36 alive.at_top)) in
          let at_walk : r ≡ map_page m (page * 4096) walked =
            at_r ∙ rw (inside, ept_walk-rooted m root gpa alive.rooted, e) refl in
          rw at_walk (
            map_page-Mapped m owner root page walked alive h36 aligned small
              (pml4-walk_from 3 root gpa true m.ept m.host ∙ alive.rooted) (rw same at w)
              (rw at_walk at h))
    ]

-- An EPT violation that is handled: the processor now finds, for the page of the faulting address,
-- the frame that was pinned for it, and finds for each other page what it found before; and the EPT
-- is well formed as before. The address has 48 bits, the slot's base is aligned, and the pinned
-- frame is below 2^40.
pub handle_violation-Mapped :
    (m : Machine) (owner : Owner) (root : ℕ)
    → IsAlive owner root m.ept m.host
    → m.vmcs.guest_physical_address < 2 ^ 48
    → m.slot.base_gpa % 4096 ≡ 0
    → backing m.slot (page_of m.vmcs.guest_physical_address) < 2 ^ 40
    → (handle_violation m).0 ≡ ok tt
    → Mapped m root (page_of m.vmcs.guest_physical_address) (handle_violation m).1
unfolding handle_violation
handle_violation-Mapped m owner root alive h48 aligned small h =
    guarded m owner root (page_of m.vmcs.guest_physical_address) _ alive (omega arith) aligned small
      (page_start_lem m.vmcs.guest_physical_address (omega arith)) (handle_violation m) refl h
