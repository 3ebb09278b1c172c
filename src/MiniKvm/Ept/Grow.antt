-- ===== src/MiniKvm/Ept/Grow.antt =====
-- One step of `mini_ept_walk`: the table that it adds, and what stays as it was.
use virtualization_learning.Base.{
  ℕ, zero, suc, ◌+◌, ◌*◌, ◌/◌, ◌%◌, ◌^◌, ◌<◌, ◌≡◌, refl, sym, ap, ◌∙◌, ◌≢◌, ◌⊎◌, inl, inr, none,
  some, arith, ℕ_discrete, Bool-cases,
}
use virtualization_learning.MiniKvm.{store, clear_page}
use virtualization_learning.MiniKvm.Ept.Entry.{index_of}
use virtualization_learning.MiniKvm.Ept.Translate.{
  is_present, frame_of, resolve, Owner, IsTree, assign, resolve-agree, Grown,
}

-- The tables with a cleared page `new` hung into entry `i` of `frame`.
abbrev pub add_table : (ℕ → ℕ → ℕ) → ℕ → ℕ → ℕ → ℕ → ℕ → ℕ
add_table t new frame i = store (clear_page t new) frame i (new * 4096 + 7)

module _ (owner : Owner) (t : ℕ → ℕ → ℕ) (tree : IsTree owner t) (new frame below part i : ℕ)
    (small : new < 2 ^ 40) (fresh : owner new ≡ none) (owned : owner frame ≡ some (suc below, part))
    (inside : i < 512) (absent : t frame i ≡ 0) where
  abbrev owner' : Owner
  owner' = assign owner new (below, part * 512 + i)

  abbrev t' : ℕ → ℕ → ℕ
  t' = add_table t new frame i

  owned-ne-new : (f : ℕ) (k : ℕ × ℕ) → owner f ≡ some k → f ≢ new
  owned-ne-new f k o e = cc (ap owner e)

  entry-old : (f j : ℕ) (k : ℕ × ℕ) → owner f ≡ some k → (f ≢ frame) ⊎ (j ≢ i) → t' f j ≡ t f j
  entry-old f j k o other = ground (arith, owned-ne-new f k o)

  entry-new : t' frame i ≡ new * 4096 + 7
  entry-new = ground arith

  new-empty : (j : ℕ) → t' new j ≡ 0
  new-empty j = ground (arith, owned-ne-new frame _ owned)

  frame_of-new : frame_of (new * 4096 + 7) ≡ new
  frame_of-new = omega arith

  keeps_owner : (f : ℕ) (k : ℕ × ℕ) → owner f ≡ some k → owner' f ≡ some k
  keeps_owner f k o = ground (arith, owned-ne-new f k o)

  -- Where a place lies: in the new table, at the changed entry, or elsewhere.
  data Place (f j : ℕ) : Type 0 where
    in_new : f ≡ new → Place f j
    changed : f ≡ frame → j ≡ i → Place f j
    elsewhere : f ≢ new → (f ≢ frame) ⊎ (j ≢ i) → Place f j

  place : (f j : ℕ) → Place f j
  place f j = elim (ℕ_discrete f new) [
    | yes e ↦ in_new e
    | no n ↦ elim (ℕ_discrete f frame) [
      | no m ↦ elsewhere n (inl m)
      | yes e ↦ elim (ℕ_discrete j i) [ yes e' ↦ changed e e' | no m ↦ elsewhere n (inr m) ]
    ]
  ]

  owner-old : (f : ℕ) (k : ℕ × ℕ) → f ≢ new → owner' f ≡ some k → owner f ≡ some k
  owner-old f k n o = ground arith

  owner_new : (b p : ℕ) → b ≡ below → p ≡ part → owner' new ≡ some (b, p * 512 + i)
  owner_new b p e e' = ground arith

  shaped : (f b p j : ℕ) → owner' f ≡ some (b, p) → j < 512 → (t' f j ≡ 0) ⊎ (t' f j % 8 ≡ 7)
  shaped f b p j o lt = elim (place f j) [
    | in_new e ↦ inl (rw e (new-empty j))
    | changed e e' ↦ inr (rw (e, e', entry-new) (omega arith))
    | elsewhere n m ↦
        let o' = owner-old f _ n o in rw (entry-old f j _ o' m) (tree.shaped f b p j o' lt)
  ]

  linked :
      (f b p j : ℕ)
      → owner' f ≡ some (suc b, p)
      → j < 512
      → t' f j % 8 ≡ 7
      → owner' (frame_of (t' f j)) ≡ some (b, p * 512 + j)
  linked f b p j o lt e = elim (place f j) [
    | in_new e' ↦ absurd (ground (arith, new-empty j))
    | changed e' e'' ↦
        let key : some (suc b, p) ≡ some (suc below, part) =
          sym o ∙ rw e' (keeps_owner frame _ owned) in
        rw (e', e'', entry-new, frame_of-new)
          (owner_new b p (ground (arith, key)) (ground (arith, key)))
    | elsewhere n m ↦
        let o' = owner-old f _ n o in
        let same = entry-old f j _ o' m in
        rw same (keeps_owner _ _ (tree.linked f b p j o' lt (rw same at e)))
  ]

  resolve-empty : (b page : ℕ) → resolve t' b new page ≡ none
  unfolding resolve
  resolve-empty zero page = rw (new-empty (index_of zero page)) refl
  resolve-empty (suc b) page = rw (new-empty (index_of (suc b) page)) refl

  -- A page of the new table was not mapped, and is not.
  empty_page :
      (page : ℕ)
      → page / 512 ^ suc (suc below) ≡ part
      → index_of (suc below) page ≡ i
      → resolve t' (suc below) frame page ≡ resolve t (suc below) frame page
  unfolding resolve
  empty_page page e e' =
      rw (e', entry-new, frame_of-new, absent)
        (elim (Bool-cases (is_present (new * 4096 + 7))) [
          | inl h ↦ rw h (resolve-empty below page)
          | inr h ↦ rw h refl
        ])

  changed_page :
      (page b f : ℕ)
      → b ≡ suc below
      → f ≡ frame
      → page / 512 ^ suc b ≡ part
      → index_of b page ≡ i
      → resolve t' b f page ≡ resolve t b f page
  changed_page page b f e e' p q = let r = empty_page page (rw e at p) (rw e at q) in rw (e, e') r

  kept :
      (page f b : ℕ)
      → owner f ≡ some (b, page / 512 ^ suc b)
      → (t' f (index_of b page) ≡ t f (index_of b page))
        ⊎ (resolve t' b f page ≡ resolve t b f page)
  kept page f b o = elim (place f (index_of b page)) [
    | in_new e' ↦ absurd (owned-ne-new f _ o e')
    | elsewhere n m ↦ inl (entry-old f (index_of b page) _ o m)
    | changed e' e'' ↦
        let key : some (b, page / 512 ^ suc b) ≡ some (suc below, part) = sym o ∙ rw e' owned in
        inr (changed_page page b f (ground (arith, key)) e' (ground (arith, key)) e'')
  ]

  pub add_table-Grown : Grown owner t owner' t'
  add_table-Grown = record {
    tree = record { shaped = shaped; linked = linked };
    keeps_owner = keeps_owner;
    keeps_entries = λ f b p j o lt e. elim (place f j) [
      | in_new e' ↦ absurd (owned-ne-new f _ o e')
      | changed e' e'' ↦ ground (arith, absent, ap (λ x. t x j) e', ap (t frame) e'')
      | elsewhere n m ↦ entry-old f j _ o m
    ];
    keeps_pages = λ page b f o. resolve-agree owner t t' page tree (kept page) b f o;
  }
