-- ===== src/MiniKvm/Ept/Walk.antt =====
-- `mini_ept_walk` over a well-formed tree: it finds the slot of the page's leaf entry, and what it
-- adds on the way disturbs no page.
use virtualization_learning.Base.{
  ℕ, zero, suc, ◌+◌, ◌*◌, ◌/◌, ◌%◌, ◌^◌, ◌≤◌, ◌<◌, bit_and, ◌≡◌, refl, ap, ◌≢◌, inl, inr, Bool,
  true, false, Option, none, some, List, [], ◌∷◌, arith, leb, Bool-cases, length,
}
use virtualization_learning.MiniKvm.{EptRoot, Host}
use virtualization_learning.MiniKvm.Ept.{
  alloc_page, take_page, hang_table, ensure_entry, walk_from, table_index, entry_frame,
}
use virtualization_learning.MiniKvm.Ept.Entry.{
  index_of, page_of, table_entry_lem, entry_frame_lem, read_bit, table_index_lem,
}
use virtualization_learning.MiniKvm.Ept.Translate.{
  frame_of, Owner, IsTree, assign, next_owner, Grown, Grown-refl, Grown-trans, Reaches,
}
use virtualization_learning.MiniKvm.Ept.Grow.{add_table-Grown}

abbrev pub NotIn : ℕ → List (Option ℕ) → Type 0
NotIn f [] = Unit {0}
NotIn f (none ∷ ps) = NotIn f ps
NotIn f (some g ∷ ps) = (f ≢ g) × NotIn f ps

-- What the kernel's allocator promises: a page that it hands out is a frame below 2^40 that serves
-- no table, and it hands out no page twice.
abbrev pub Supply : Owner → List (Option ℕ) → Type 0
Supply owner [] = Unit {0}
Supply owner (none ∷ ps) = Supply owner ps
Supply owner (some f ∷ ps) = (f < 2 ^ 40) × (owner f ≡ none) × NotIn f ps × Supply owner ps

Supply-assign :
    (owner : Owner) (f : ℕ) (k : ℕ × ℕ) (ps : List (Option ℕ))
    → NotIn f ps
    → Supply owner ps
    → Supply (assign owner f k) ps
Supply-assign owner f k [] n s = tt
Supply-assign owner f k (none ∷ ps) n s = Supply-assign owner f k ps n s
Supply-assign owner f k (some g ∷ ps) n s =
    (s.0, ground arith, s.2, Supply-assign owner f k ps n.1 s.3)

-- What a step of the walk leaves behind.
record Ensured (owner : Owner) (host : Host) (frame i : ℕ) (r : Bool × EptRoot × Host)
    : Type 0 where
  owner' : Owner
  grown : Grown owner host.table owner' r.2.table
  supply : Supply owner' r.2.pages
  present : r.0 ≡ true → r.2.table frame i % 8 ≡ 7

unchanged :
    {owner : Owner} (host : Host) (frame i : ℕ) (ept : EptRoot) (b : Bool)
    → IsTree owner host.table
    → Supply owner host.pages
    → (b ≡ true → host.table frame i % 8 ≡ 7)
    → Ensured owner host frame i (b, ept, host)
unchanged {owner} host frame i ept b tree supply p = record {
  owner' = owner;
  grown = Grown-refl tree;
  supply = supply;
  present = p;
}

module _ (owner : Owner) (frame below part i : ℕ) (alloc : Bool) (ept : EptRoot)
    (owned : owner frame ≡ some (suc below, part)) (inside : i < 512) where
  -- A page from the allocator becomes the table below.
  hang_table-Ensured :
      (pages : List (Option ℕ)) (host : Host)
      → host.pages ≡ pages
      → host.table frame i ≡ 0
      → IsTree owner host.table
      → Supply owner pages
      → Ensured owner host frame i (hang_table frame i ept (take_page pages host))
  unfolding hang_table take_page
  hang_table-Ensured [] host e absent tree supply =
      unchanged host frame i ept false tree (rw e supply) (λ h. cc)
  hang_table-Ensured (none ∷ ps) host e absent tree supply = record {
    owner' = owner;
    grown = Grown-refl tree;
    supply = supply;
    present = λ h. cc;
  }
  hang_table-Ensured (some new ∷ ps) host e absent tree supply = rw table_entry_lem (record {
    owner' = assign owner new (below, part * 512 + i);
    grown =
        add_table-Grown owner host.table tree new frame below part i supply.0 supply.1 owned inside
          absent;
    supply = Supply-assign owner new _ ps supply.2 supply.3;
    present = λ h. ground arith;
  })

  ensure_entry-Ensured :
      (host : Host)
      → IsTree owner host.table
      → Supply owner host.pages
      → Ensured owner host frame i (ensure_entry frame i alloc ept host)
  unfolding ensure_entry alloc_page
  ensure_entry-Ensured host tree supply = elim (tree.shaped frame _ part i owned inside) [
    | inr e ↦
        let here : bit_and (host.table frame i) 1 ≡ 1 =
          omega (arith, read_bit (host.table frame i)) in
        rw (here, ensure_entry) (unchanged host frame i ept true tree supply (λ h. e))
    | inl e ↦
        let gone : bit_and (host.table frame i) 1 ≡ 0 =
          omega (arith, read_bit (host.table frame i)) in
        rw (gone, ensure_entry)
          (elim (Bool-cases alloc) [
            | inr no_alloc ↦ rw no_alloc (unchanged host frame i ept false tree supply (λ h. cc))
            | inl h ↦ rw h (elim (Bool-cases (leb 1024 (length ept.tracked))) [
              | inl full ↦ rw full (unchanged host frame i ept false tree supply (λ h. cc))
              | inr room ↦ rw room (hang_table-Ensured host.pages host refl e tree supply)
            ])
          ])
  ]

-- What the whole walk for a page leaves behind: on success, the last table of the page's walk and
-- the index of its entry there.
pub record Walked (owner : Owner) (host : Host) (below frame page : ℕ)
    (r : Option (ℕ × ℕ) × EptRoot × Host) : Type 0 where
  pub owner' : Owner
  pub grown : Grown owner host.table owner' r.2.table
  pub supply : Supply owner' r.2.pages
  pub found :
      (f i : ℕ)
      → r.0 ≡ some (f, i)
      → (i ≡ index_of zero page)
        × (owner' f ≡ some (zero, page / 512 ^ 1))
        × Reaches r.2.table below frame page f

-- A level of the walk, from what its step and the levels below leave behind.
module _ (owner : Owner) (host : Host) (below frame page idx : ℕ) (es : Bool × EptRoot × Host)
    (step : Ensured owner host frame idx es) (at_idx : idx ≡ index_of (suc below) page)
    (owned : owner frame ≡ some (suc below, page / 512 ^ suc (suc below))) where
  abbrev next_frame : ℕ
  next_frame = entry_frame (es.2.table frame idx)

  step_present : es.0 ≡ true → es.2.table frame (index_of (suc below) page) % 8 ≡ 7
  step_present h = rw at_idx at (step.present h)

  next_frame_lem : next_frame ≡ frame_of (es.2.table frame (index_of (suc below) page))
  next_frame_lem = rw entry_frame_lem (ap (λ j. frame_of (es.2.table frame j)) at_idx)

  next_frame-owner : es.0 ≡ true → step.owner' next_frame ≡ some (below, page / 512 ^ suc below)
  next_frame-owner h = rw next_frame_lem (
      next_owner step.grown.tree page below frame (step.grown.keeps_owner frame _ owned)
        (step_present h))

  walk_level :
      (r : Option (ℕ × ℕ) × EptRoot × Host)
      → es.0 ≡ true
      → Walked step.owner' es.2 below next_frame page r
      → Walked owner host (suc below) frame page r
  unfolding Reaches
  walk_level r h w = record {
    owner' = w.owner';
    grown = Grown-trans step.grown w.grown;
    supply = w.supply;
    found = λ f i e.
        let (at_i, o, reaches) = w.found f i e in
        let same =
          w.grown.keeps_entries frame _ _ (index_of (suc below) page)
            (step.grown.keeps_owner frame _ owned) (omega arith) (step_present h) in
        (at_i, o, rw same (step_present h, rw next_frame_lem at reaches));
  }

pub walk_from-Walked :
    (below : ℕ) (owner : Owner) (frame gpa : ℕ) (alloc : Bool) (ept : EptRoot) (host : Host)
    → below ≤ 3
    → IsTree owner host.table
    → Supply owner host.pages
    → owner frame ≡ some (below, page_of gpa / 512 ^ suc below)
    → Walked owner host below frame (page_of gpa) (walk_from below frame gpa alloc ept host)
unfolding walk_from Reaches
walk_from-Walked zero owner frame gpa alloc ept host le tree supply o = record {
  owner' = owner;
  grown = Grown-refl tree;
  supply = supply;
  found = λ f i e. ground (arith, table_index_lem zero gpa, o);
}
walk_from-Walked (suc below) owner frame gpa alloc ept host le tree supply o =
    let idx = table_index (suc below) gpa in
    let at_idx = table_index_lem (suc below) gpa le in
    let es = ensure_entry frame idx alloc ept host in
    let step =
      ensure_entry-Ensured owner frame below (page_of gpa / 512 ^ suc (suc below)) idx alloc ept o
        (omega (arith, at_idx)) host tree supply in
    elim (Bool-cases es.0) [
      | inl h ↦
          rw (h, walk_from)
            (walk_level owner host below frame (page_of gpa) idx es step at_idx o _ h (
              walk_from-Walked below step.owner' (entry_frame (es.2.table frame idx)) gpa alloc es.1
                es.2 (omega arith) step.grown.tree step.supply
                (next_frame-owner owner host below frame (page_of gpa) idx es step at_idx o h)))
      | inr h ↦
          rw (h, walk_from)
            (record {
              owner' = step.owner';
              grown = step.grown;
              supply = step.supply;
              found = λ f i e. cc;
            })
    ]

pml4-hang_table :
    (frame i : ℕ) (ept : EptRoot) (r : Option ℕ × Host)
    → (hang_table frame i ept r).1.pml4 ≡ ept.pml4
unfolding hang_table
pml4-hang_table frame i ept (none, host) = refl
pml4-hang_table frame i ept (some new, host) = refl

pml4-ensure_entry :
    (frame i : ℕ) (alloc : Bool) (ept : EptRoot) (host : Host)
    → (ensure_entry frame i alloc ept host).1.pml4 ≡ ept.pml4
unfolding ensure_entry
pml4-ensure_entry frame i alloc ept host =
    ground (arith, pml4-hang_table frame i ept (alloc_page host))

-- A walk leaves the root alone.
pub pml4-walk_from :
    (below frame gpa : ℕ) (alloc : Bool) (ept : EptRoot) (host : Host)
    → (walk_from below frame gpa alloc ept host).1.pml4 ≡ ept.pml4
unfolding walk_from
pml4-walk_from zero frame gpa alloc ept host = refl
pml4-walk_from (suc below) frame gpa alloc ept host =
    let idx = table_index (suc below) gpa in
    let es = ensure_entry frame idx alloc ept host in
    ground (
      arith,
      pml4-ensure_entry frame idx alloc ept host,
      pml4-walk_from below (entry_frame (es.2.table frame idx)) gpa alloc es.1 es.2,
    )
