-- ===== src/MiniKvm/Ept/Pages.antt =====
-- The pages of an EPT: what the allocator gave is tracked until `mini_ept_destroy` gives it back.
use virtualization_learning.Base.{
  ℕ, zero, suc, bit_and, ◌≡◌, refl, sym, ap, ◌∙◌, inl, inr, Bool, true, Option, none, some, List,
  [], ◌∷◌, ◌++◌, leb, nonzero, Bool-cases, length,
}
use mathlib.Core.List.{append_assoc, Perm, perm_middle}
use mathlib.Core.List.Perm
use virtualization_learning.MiniKvm.{EptRoot, Host, Machine}
use virtualization_learning.MiniKvm.Ept.{
  take_page, alloc_page, hang_table, ensure_entry, walk_from, ept_walk, walk_root, ept_init,
  init_root, free_root, outside_slot, ept_destroy, map_page, handle_violation, page_start,
  table_index, entry_frame,
}

-- The frames among the allocator's answers, newest first, in front of those before.
abbrev pub frames_onto : List (Option ℕ) → List ℕ → List ℕ
frames_onto [] fs = fs
frames_onto (none ∷ ps) fs = frames_onto ps fs
frames_onto (some f ∷ ps) fs = frames_onto ps (f ∷ fs)

-- From one state to a later one the allocator answered `taken`; the pages among that are tracked,
-- and none was freed.
pub record Took (taken : List (Option ℕ)) (ept : EptRoot) (host : Host) (ept' : EptRoot)
    (host' : Host) : Type 0 where
  pub answers : host.pages ≡ taken ++ host'.pages
  pub kept : ept'.tracked ≡ frames_onto taken ept.tracked
  pub root : ept'.pml4 ≡ ept.pml4
  pub freed : host'.freed ≡ host.freed

-- Some answers of the allocator lead from one state to the other.
abbrev pub Accounts : EptRoot → Host → EptRoot → Host → Type 0
Accounts ept host ept' host' = (taken : List (Option ℕ)) × Took taken ept host ept' host'

frames_onto-append :
    (ps qs : List (Option ℕ)) (fs : List ℕ)
    → frames_onto (ps ++ qs) fs ≡ frames_onto qs (frames_onto ps fs)
frames_onto-append [] qs fs = refl
frames_onto-append (none ∷ ps) qs fs = frames_onto-append ps qs fs
frames_onto-append (some f ∷ ps) qs fs = frames_onto-append ps qs (f ∷ fs)

Accounts-refl : (ept : EptRoot) (host : Host) → Accounts ept host ept host
Accounts-refl ept host = ([], record { answers = refl; kept = refl; root = refl; freed = refl })

Accounts-trans :
    (e₁ e₂ e₃ : EptRoot) (h₁ h₂ h₃ : Host)
    → Accounts e₁ h₁ e₂ h₂
    → Accounts e₂ h₂ e₃ h₃
    → Accounts e₁ h₁ e₃ h₃
Accounts-trans e₁ e₂ e₃ h₁ h₂ h₃ (ps, a) (qs, b) = (
  ps ++ qs,
  record {
    answers = a.answers ∙ rw (b.answers, append_assoc) refl;
    kept = b.kept ∙ rw (a.kept, frames_onto-append ps qs) refl;
    root = b.root ∙ a.root;
    freed = b.freed ∙ a.freed;
  },
)

hang_table-Accounts :
    (frame i : ℕ) (ept : EptRoot) (ps : List (Option ℕ)) (host : Host)
    → host.pages ≡ ps
    → let r = hang_table frame i ept (take_page ps host) in Accounts ept host r.1 r.2
unfolding hang_table take_page
hang_table-Accounts frame i ept [] host e = Accounts-refl ept host
hang_table-Accounts frame i ept (none ∷ ps) host e =
    (none ∷ [], record { answers = e; kept = refl; root = refl; freed = refl })
hang_table-Accounts frame i ept (some f ∷ ps) host e =
    (some f ∷ [], record { answers = e; kept = refl; root = refl; freed = refl })

ensure_entry-Accounts :
    (frame i : ℕ) (alloc : Bool) (ept : EptRoot) (host : Host)
    → let r = ensure_entry frame i alloc ept host in Accounts ept host r.1 r.2
unfolding ensure_entry alloc_page
ensure_entry-Accounts frame i alloc ept host =
    elim (Bool-cases (nonzero (bit_and (host.table frame i) 1))) [
      | inl e ↦ rw (e, ensure_entry) (Accounts-refl ept host)
      | inr e ↦
          rw (e, ensure_entry)
            (elim (Bool-cases alloc) [
              | inr e' ↦ rw e' (Accounts-refl ept host)
              | inl e' ↦ rw e' (elim (Bool-cases (leb 1024 (length ept.tracked))) [
                | inl full ↦ rw full (Accounts-refl ept host)
                | inr room ↦ rw room (hang_table-Accounts frame i ept host.pages host refl)
              ])
            ])
    ]

walk_from-Accounts :
    (below frame gpa : ℕ) (alloc : Bool) (ept : EptRoot) (host : Host)
    → let r = walk_from below frame gpa alloc ept host in Accounts ept host r.1 r.2
unfolding walk_from
walk_from-Accounts zero frame gpa alloc ept host = Accounts-refl ept host
walk_from-Accounts (suc below) frame gpa alloc ept host =
    let idx = table_index (suc below) gpa in
    let es = ensure_entry frame idx alloc ept host in
    let step = ensure_entry-Accounts frame idx alloc ept host in
    let rest = walk_from-Accounts below (entry_frame (es.2.table frame idx)) gpa alloc es.1 es.2 in
    elim (Bool-cases es.0) [
      | inl h ↦ rw (h, walk_from) (Accounts-trans ept es.1 _ host es.2 _ step rest)
      | inr h ↦ rw (h, walk_from) step
    ]

map_page-Accounts :
    (m : Machine) (gpa : ℕ) (r : Option (ℕ × ℕ) × EptRoot × Host)
    → Accounts m.ept m.host r.1 r.2
    → let m' = (map_page m gpa r).1 in Accounts m.ept m.host m'.ept m'.host
unfolding map_page
map_page-Accounts m gpa (none, e', h') a = a
map_page-Accounts m gpa (some (f, i), e', h') (taken, a) =
    (taken, record { answers = a.answers; kept = a.kept; root = a.root; freed = a.freed })

walk_root-Accounts :
    (root : Option ℕ) (ept : EptRoot) (host : Host) (gpa : ℕ)
    → let r = walk_root root ept host gpa true in Accounts ept host r.1 r.2
unfolding walk_root
walk_root-Accounts none ept host gpa = Accounts-refl ept host
walk_root-Accounts (some root) ept host gpa = walk_from-Accounts 3 root gpa true ept host

-- A violation frees no page and tracks each one that it got, also where it fails on the way.
pub handle_violation-Accounts :
    (m : Machine) → let m' = (handle_violation m).1 in Accounts m.ept m.host m'.ept m'.host
unfolding handle_violation ept_walk
handle_violation-Accounts m =
    let gpa = page_start m.vmcs.guest_physical_address in
    elim (Bool-cases (outside_slot m.slot gpa)) [
      | inl e ↦ rw (e, handle_violation) (Accounts-refl m.ept m.host)
      | inr e ↦
          rw (e, handle_violation)
            (map_page-Accounts m gpa _ (walk_root-Accounts m.ept.pml4 m.ept m.host gpa))
    ]

-- The guest faults at these addresses, in order.
unfoldable pub handle_all : Machine → List ℕ → Machine
handle_all m [] = m
handle_all m (gpa ∷ gpas) =
    let faulted = record m { vmcs = record (m.vmcs) { guest_physical_address = gpa } } in
    handle_all (handle_violation faulted).1 gpas

handle_all-Accounts :
    (m : Machine) (gpas : List ℕ)
    → let m' = handle_all m gpas in Accounts m.ept m.host m'.ept m'.host
unfolding handle_all
handle_all-Accounts m [] = Accounts-refl m.ept m.host
handle_all-Accounts m (gpa ∷ gpas) =
    let faulted = record m { vmcs = record (m.vmcs) { guest_physical_address = gpa } } in
    let m' = (handle_violation faulted).1 in
    Accounts-trans m.ept m'.ept _ m.host m'.host _ (handle_violation-Accounts faulted)
      (handle_all-Accounts m' gpas)

frames_onto-perm :
    (ps : List (Option ℕ)) (fs gs : List ℕ) → frames_onto ps (fs ++ gs) ≡ frames_onto ps fs ++ gs
frames_onto-perm [] fs gs = refl
frames_onto-perm (none ∷ ps) fs gs = frames_onto-perm ps fs gs
frames_onto-perm (some f ∷ ps) fs gs = frames_onto-perm ps (f ∷ fs) gs

-- A machine with the EPT that `mini_ept_init` leaves.
abbrev pub started : Machine → Machine
started m = let r = ept_init m.ept m.host in record m { ept = r.1; host = r.2 }

record Begun (m : Machine) (root : ℕ) (rest : List (Option ℕ)) : Type 0 where
  rooted : (started m).ept.pml4 ≡ some root
  empty : (started m).ept.tracked ≡ []
  left : (started m).host.pages ≡ rest
  freed : (started m).host.freed ≡ m.host.freed

begun_on :
    (ept : EptRoot) (host : Host) (root : ℕ) (rest ps : List (Option ℕ))
    → ps ≡ some root ∷ rest
    → let r = init_root ept (take_page ps host) in
      (r.1.pml4 ≡ some root) × (r.1.tracked ≡ []) × (r.2.pages ≡ rest) × (r.2.freed ≡ host.freed)
unfolding init_root take_page
begun_on ept host root rest ps e = rw e (refl, refl, refl, refl)

started-Begun :
    (m : Machine) (root : ℕ) (rest : List (Option ℕ))
    → m.host.pages ≡ some root ∷ rest
    → Begun m root rest
unfolding ept_init alloc_page
started-Begun m root rest e =
    let (a, b, c, d) = begun_on m.ept m.host root rest m.host.pages e in
    record { rooted = a; empty = b; left = c; freed = d }

-- From the creation of an EPT, through any violations, to its destruction: the pages that the
-- allocator gave are all freed, each once, and no other page is.
pub ept_destroy-frees :
    (m : Machine) (root : ℕ) (rest : List (Option ℕ)) (gpas : List ℕ)
    → m.host.pages ≡ some root ∷ rest
    → let m' = handle_all (started m) gpas in
      let host' = (ept_destroy m'.ept m'.host).1 in
      (taken : List (Option ℕ)) × (m.host.pages ≡ taken ++ host'.pages)
      × Perm host'.freed (frames_onto taken [] ++ m.host.freed)
unfolding ept_destroy
ept_destroy-frees m root rest gpas e =
    let (ts, a) = handle_all-Accounts (started m) gpas in
    let begun = started-Begun m root rest e in
    let m' = handle_all (started m) gpas in
    let tracked : m'.ept.tracked ≡ frames_onto ts [] = a.kept ∙ ap (frames_onto ts) begun.empty in
    let freed : free_root m'.ept.pml4 (m'.ept.tracked ++ m'.host.freed)
        ≡ root ∷ (frames_onto ts [] ++ m.host.freed) =
      rw (a.root ∙ begun.rooted, tracked, a.freed ∙ begun.freed) refl in
    (
      some root ∷ ts,
      e ∙ ap (◌∷◌ (some root)) (sym begun.left ∙ a.answers),
      rw (freed, frames_onto-perm ts [] (root ∷ []), append_assoc)
          (Perm.symm (perm_middle (frames_onto ts []) m.host.freed)),
    )
