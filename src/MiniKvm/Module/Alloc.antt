-- ===== src/MiniKvm/Module/Alloc.antt =====
-- The VMXON pages of the CPUs: a failed allocation gives back those before it.
use virtualization_learning.Base.{
  ℕ, ◌≡◌, refl, sym, ap, ◌∙◌, subst, false, Option, none, some, List, [], ◌∷◌, ◌++◌, map,
}
use mathlib.Core.List.{append-nil, append_assoc}
use virtualization_learning.MiniKvm.{ok, err, Status}
use virtualization_learning.MiniKvm.Module.{
  PerCpu, Global, free_page, free_each, free_before, alloc_each,
}
use virtualization_learning.MiniKvm.Module.Restore.{AllCpus, IsOut, IsClean, forget, given_back}

free_each-eq :
    (cs : List PerCpu) (freed : List ℕ) → free_each cs freed ≡ (map forget cs, given_back cs freed)
unfolding free_each forget given_back
free_each-eq [] freed = refl
free_each-eq (c ∷ cs) freed =
    ap {A = List PerCpu × List ℕ} (λ q. (forget c ∷ q.0, q.1))
      (free_each-eq cs (free_page c.vmxon_page freed))

given_back-snoc :
    (cs : List PerCpu) (c : PerCpu) (freed : List ℕ)
    → given_back (cs ++ c ∷ []) freed ≡ free_page c.vmxon_page (given_back cs freed)
unfolding given_back free_each
given_back-snoc [] c freed = refl
given_back-snoc (d ∷ cs) c freed = given_back-snoc cs c (free_page d.vmxon_page freed)

map-snoc :
    (cs : List PerCpu) (c : PerCpu) → map forget (cs ++ c ∷ []) ≡ map forget cs ++ forget c ∷ []
map-snoc [] c = refl
map-snoc (d ∷ cs) c = ap (◌∷◌ (forget d)) (map-snoc cs c)

all-snoc :
    (cs : List PerCpu) (c : PerCpu) → AllCpus IsOut cs → IsOut c → AllCpus IsOut (cs ++ c ∷ [])
all-snoc [] c h k = (k, tt)
all-snoc (d ∷ cs) c (p, h) k = (p, all-snoc cs c h k)

-- The CPUs that have a page so far, and the CPUs that they were.
pub record IsPaged (orig before : List PerCpu) (g : Global) : Type 0 where
  pub cpus_were : map forget before ≡ orig
  pub pages_are : given_back before g.freed ≡ g.allocated
  pub all_out : AllCpus IsOut before
  pub not_yet : g.vmx_enabled ≡ false

-- The outcome of the allocation
abbrev pub AllocOutcome : List PerCpu → Status → Global → Type 0
AllocOutcome orig (ok u) g = IsPaged orig g.cpus g
AllocOutcome orig (err e) g = (g.cpus ≡ orig) × (g.freed ≡ g.allocated) × (g.vmx_enabled ≡ false)

free_before-restores :
    (orig before cs : List PerCpu) (g : Global)
    → IsPaged orig before g
    → let (r, g') = free_before before cs g in AllocOutcome (orig ++ cs) r g'
unfolding free_before
free_before-restores orig before cs g p =
    let e = free_each-eq before g.freed in
    (
      ap (λ q. q.0 ++ cs) e ∙ ap (λ x. x ++ cs) p.cpus_were,
      ap (λ q. q.1) e ∙ p.pages_are,
      p.not_yet,
    )

pub alloc_each-restores :
    (orig before cs : List PerCpu) (pages : List (Option ℕ)) (g : Global)
    → IsPaged orig before g
    → AllCpus IsClean cs
    → let (r, g') = alloc_each before cs pages g in AllocOutcome (orig ++ cs) r g'
unfolding alloc_each forget
alloc_each-restores orig before [] pages g p clean = record {
  cpus_were = p.cpus_were ∙ sym (append-nil orig);
  pages_are = p.pages_are;
  all_out = p.all_out;
  not_yet = p.not_yet;
}
alloc_each-restores orig before (c ∷ cs) [] g p clean =
    free_before-restores orig before (c ∷ cs) (record g { pages = [] })
      record {
        cpus_were = p.cpus_were;
        pages_are = p.pages_are;
        all_out = p.all_out;
        not_yet = p.not_yet;
      }
alloc_each-restores orig before (c ∷ cs) (none ∷ pages) g p clean =
    free_before-restores orig before (c ∷ cs) (record g { pages = pages })
      record {
        cpus_were = p.cpus_were;
        pages_are = p.pages_are;
        all_out = p.all_out;
        not_yet = p.not_yet;
      }
alloc_each-restores orig before (c ∷ cs) (some page ∷ pages) g p (clean, cleans) =
    let c' = record c { vmxon_page = some page } in
    let (r, g') =
      alloc_each (before ++ c' ∷ []) cs pages (record g { allocated = page ∷ g.allocated }) in
    subst (λ o. AllocOutcome o r g') (append_assoc orig (c ∷ []) cs)
      (alloc_each-restores (orig ++ c ∷ []) (before ++ c' ∷ []) cs pages
        (record g { allocated = page ∷ g.allocated })
        record {
          cpus_were =
              map-snoc before c'
              ∙ (ap (λ x. x ++ forget c' ∷ []) p.cpus_were ∙ ap (λ x. orig ++ x ∷ []) (was clean));
          pages_are = given_back-snoc before c' g.freed ∙ ap (λ f. page ∷ f) p.pages_are;
          all_out = all-snoc before c' p.all_out record {
            not_done = clean.out.not_done;
            outside = clean.out.outside;
            off_works = clean.out.off_works;
          };
          not_yet = p.not_yet;
        }
        cleans)
  where
    was : IsClean c → record c { vmxon_page = none } ≡ c
    was k = ap (λ o. record c { vmxon_page = o }) (sym k.no_page)
