-- ===== src/MiniKvm/Ept/Translate.antt =====
-- The translation that the processor makes with an EPT, and the tables that ept.c builds for it.
use virtualization_learning.Base.{
  ℕ, zero, suc, ◌+◌, ◌*◌, ◌/◌, ◌%◌, ◌^◌, ◌<◌, ◌≡◌, refl, sym, ap, ◌∙◌, ◌⊎◌, inl, inr, Bool, Option,
  none, some, arith, ◌==◌, nonzero, if◌then◌else◌,
}
use virtualization_learning.MiniKvm.Ept.Entry.{index_of, page-split}

-- Bits 2:0 all 0: not present. Bits 51:12: the frame.
abbrev pub is_present : ℕ → Bool
is_present entry = nonzero (entry % 8)

abbrev pub frame_of : ℕ → ℕ
frame_of entry = entry / 4096 % 2 ^ 40

-- The processor's walk for a page from a table with `below` levels below it, by the page-walk rules
-- of the EPT and not by the code: the frame that the page is mapped to.
unfoldable pub resolve : (ℕ → ℕ → ℕ) → ℕ → ℕ → ℕ → Option ℕ
resolve table zero frame page =
    let entry = table frame (index_of zero page) in
    if is_present entry then some (frame_of entry) else none
resolve table (suc below) frame page =
    let entry = table frame (index_of (suc below) page) in
    let rest = resolve table below (frame_of entry) page in if is_present entry then rest else none

-- Which part of guest memory each frame serves: a table with `below` levels below it serves the
-- pages with one value of `page / 512 ^ suc below`.
abbrev pub Owner : Type 0
Owner = ℕ → Option (ℕ × ℕ)

-- Each entry of a table is 0, or grants all rights and leads to the table of its part.
pub record IsTree (owner : Owner) (table : ℕ → ℕ → ℕ) : Type 0 where
  pub shaped :
      (frame below part i : ℕ)
      → owner frame ≡ some (below, part)
      → i < 512
      → (table frame i ≡ 0) ⊎ (table frame i % 8 ≡ 7)
  pub linked :
      (frame below part i : ℕ)
      → owner frame ≡ some (suc below, part)
      → i < 512
      → table frame i % 8 ≡ 7
      → owner (frame_of (table frame i)) ≡ some (below, part * 512 + i)

abbrev pub assign : Owner → ℕ → ℕ × ℕ → Owner
assign owner frame key f = if f == frame then some key else owner f

-- The table below serves the page too.
pub next_owner :
    {owner : Owner} {t : ℕ → ℕ → ℕ}
    → IsTree owner t
    → (page below frame : ℕ) → owner frame ≡ some (suc below, page / 512 ^ suc (suc below))
    → t frame (index_of (suc below) page) % 8 ≡ 7
    → owner (frame_of (t frame (index_of (suc below) page))) ≡ some (below, page / 512 ^ suc below)
next_owner tree page below frame o present =
    tree.linked frame below _ _ o (omega arith) present
    ∙ ap (λ (k : ℕ). some (below, k)) (sym (page-split (suc below) page))

-- Tables that give a page the same entries, or the same result where they differ, resolve it alike.
pub resolve-agree :
    (owner : Owner) (t t' : ℕ → ℕ → ℕ) (page : ℕ)
    → IsTree owner t
    → ((f b : ℕ)
        → owner f ≡ some (b, page / 512 ^ suc b)
        → (t' f (index_of b page) ≡ t f (index_of b page))
          ⊎ (resolve t' b f page ≡ resolve t b f page))
    → (below frame : ℕ) → owner frame ≡ some (below, page / 512 ^ suc below)
    → resolve t' below frame page ≡ resolve t below frame page
unfolding resolve
resolve-agree owner t t' page tree same zero frame o = elim (same frame zero o) [
  | inl e ↦ rw e refl
  | inr e ↦ e
]
resolve-agree owner t t' page tree same (suc below) frame o = elim (same frame (suc below) o) [
  | inr e ↦ e
  | inl e ↦ rw e (elim (tree.shaped frame _ _ (index_of (suc below) page) o (omega arith)) [
    | inl absent ↦ rw absent refl
    | inr present ↦
        rw
          (resolve-agree owner t t' page tree same below
            (frame_of (t frame (index_of (suc below) page)))
            (next_owner tree page below frame o present))
          refl
  ])
]

-- Tables that grew out of others: nothing that was there has changed, for any page.
pub record Grown (owner : Owner) (t : ℕ → ℕ → ℕ) (owner' : Owner) (t' : ℕ → ℕ → ℕ) : Type 0 where
  pub tree : IsTree owner' t'
  pub keeps_owner : (f : ℕ) (k : ℕ × ℕ) → owner f ≡ some k → owner' f ≡ some k
  pub keeps_entries :
      (f b p i : ℕ) → owner f ≡ some (b, p) → i < 512 → t f i % 8 ≡ 7 → t' f i ≡ t f i
  pub keeps_pages :
      (page b f : ℕ)
      → owner f ≡ some (b, page / 512 ^ suc b)
      → resolve t' b f page ≡ resolve t b f page

pub Grown-refl : {owner : Owner} {t : ℕ → ℕ → ℕ} → IsTree owner t → Grown owner t owner t
Grown-refl tree = record {
  tree = tree;
  keeps_owner = λ f k o. o;
  keeps_entries = λ f b p i o h e. refl;
  keeps_pages = λ page b f o. refl;
}

pub Grown-trans :
    {o₁ o₂ o₃ : Owner} {t₁ t₂ t₃ : ℕ → ℕ → ℕ}
    → Grown o₁ t₁ o₂ t₂
    → Grown o₂ t₂ o₃ t₃
    → Grown o₁ t₁ o₃ t₃
Grown-trans g h = record {
  tree = h.tree;
  keeps_owner = λ f k o. h.keeps_owner f k (g.keeps_owner f k o);
  keeps_entries = λ f b p i o lt e.
      let once = g.keeps_entries f b p i o lt e in
      h.keeps_entries f b p i (g.keeps_owner f _ o) lt (rw once e) ∙ once;
  keeps_pages =
      λ page b f o. h.keeps_pages page b f (g.keeps_owner f _ o) ∙ g.keeps_pages page b f o;
}

-- The walk for a page goes down to the last table `leaf`.
unfoldable pub Reaches : (ℕ → ℕ → ℕ) → ℕ → ℕ → ℕ → ℕ → Type 0
Reaches t zero frame page leaf = frame ≡ leaf
Reaches t (suc below) frame page leaf =
    let entry = t frame (index_of (suc below) page) in
    (entry % 8 ≡ 7) × Reaches t below (frame_of entry) page leaf

pub resolve-Reaches :
    (t : ℕ → ℕ → ℕ) (below frame page leaf : ℕ)
    → Reaches t below frame page leaf
    → resolve t below frame page ≡ resolve t zero leaf page
unfolding resolve Reaches
resolve-Reaches t zero frame page leaf r = rw r refl
resolve-Reaches t (suc below) frame page leaf r =
    rw (resolve-Reaches t below _ page leaf r.1) (ground (arith, r.0))

pub Reaches-Grown :
    {owner owner' : Owner} {t t' : ℕ → ℕ → ℕ}
    → IsTree owner t
    → Grown owner t owner' t'
    → (page leaf below frame : ℕ) → owner frame ≡ some (below, page / 512 ^ suc below)
    → Reaches t below frame page leaf
    → Reaches t' below frame page leaf
unfolding Reaches
Reaches-Grown tree g page leaf zero frame o r = r
Reaches-Grown tree g page leaf (suc below) frame o r =
    let same = g.keeps_entries frame _ _ (index_of (suc below) page) o (omega arith) r.0 in
    rw same
      (r.0, Reaches-Grown tree g page leaf below _ (next_owner tree page below frame o r.0) r.1)
