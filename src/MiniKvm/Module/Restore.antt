-- ===== src/MiniKvm/Module/Restore.antt =====
-- What the unload of the module makes of one CPU, and of all of them.
use virtualization_learning.Base.{
  ℕ, ◌+◌, ◌-◌, ◌≡◌, refl, sym, ap, ◌∙◌, inl, inr, Bool, true, false, not, ◌&&◌, none, List, [], ◌∷◌,
  map, if◌then◌else◌, Bool-cases, if-intro, if-cases,
}
use virtualization_learning.MiniKvm.{Errno, ok, err, Status}
use virtualization_learning.MiniKvm.Module.{
  PerCpu, vmx_supported, enable_one, vmxoff, disable_one, enable_each, disable_each, free_page,
  free_each,
}

abbrev pub AllCpus : (PerCpu → Type 0) → List PerCpu → Type 0
AllCpus P [] = Unit
AllCpus P (c ∷ cs) = P c × AllCpus P cs

-- A CPU outside VMX operation, where VMXOFF does not fail: that happens only under the dual-monitor
-- treatment of SMM.
pub record IsOut (c : PerCpu) : Type 0 where
  pub not_done : c.vmxon_done ≡ false
  pub outside : c.in_operation ≡ false
  pub off_works : c.vmxoff_fails ≡ false

-- A CPU before the module is loaded.
pub record IsClean (c : PerCpu) : Type 0 where
  pub out : IsOut c
  pub no_page : c.vmxon_page ≡ none

-- A CPU that the module has put into VMX operation, if it is online.
pub record IsEntered (c : PerCpu) : Type 0 where
  pub entered : c.online ≡ true → (c.in_operation ≡ true) × (c.vmxe ≡ true) × (c.vmxon_done ≡ true)

-- What the unload makes of one CPU.
off : PerCpu → PerCpu
off c = if c.online then (disable_one c 0).0 else c

unfoldable pub undo : PerCpu → PerCpu
unfolding off
undo c = record (off c) { vmxon_page = none }

disable_one-count : (c : PerCpu) (n m : ℕ) → (disable_one c n).0 ≡ (disable_one c m).0
unfolding disable_one
disable_one-count c n m = elim (Bool-cases c.vmxon_done) [
  | inl h ↦ rw (h, disable_one) refl
  | inr h ↦ rw (h, disable_one) refl
]

disable_one-page : (c : PerCpu) (n : ℕ) → (disable_one c n).0.vmxon_page ≡ c.vmxon_page
unfolding disable_one vmxoff
disable_one-page c n =
    if-intro {A = PerCpu × ℕ} (λ r. r.0.vmxon_page ≡ c.vmxon_page) (not c.vmxon_done) {x = (c, n)}
      {y = (record (vmxoff c) { vmxe = false; vmxon_done = false }, n - 1)} refl refl

-- One CPU of `disable_each`
disabled : PerCpu → ℕ → PerCpu × ℕ
disabled c n = if c.online then disable_one c n else (c, n)

disabled-off : (c : PerCpu) (n : ℕ) → (disabled c n).0 ≡ off c
unfolding disabled off
disabled-off c n = either c.online
  where
    either :
        (b : Bool)
        → (if b then disable_one c n else (c, n)).0 ≡ (if b then (disable_one c 0).0 else c)
    either true = disable_one-count c n 0
    either false = refl

off-page : (c : PerCpu) → (off c).vmxon_page ≡ c.vmxon_page
unfolding off
off-page c =
    if-intro {A = PerCpu} (λ d. d.vmxon_page ≡ c.vmxon_page) c.online (disable_one-page c 0) refl

-- The pages that `free_each` gives back, and what it leaves of the CPUs.
unfoldable pub given_back : List PerCpu → List ℕ → List ℕ
given_back cs freed = (free_each cs freed).1

free_each-cons :
    (c d : PerCpu) (cs rest : List PerCpu) (freed : List ℕ)
    → d ≡ off c
    → ((f : List ℕ) → free_each rest f ≡ (map undo cs, given_back cs f))
    → free_each (d ∷ rest) freed ≡ (undo c ∷ map undo cs, given_back (c ∷ cs) freed)
unfolding free_each undo given_back
free_each-cons c d cs rest freed e h =
    ap (λ x. free_each (x ∷ rest) freed) e
    ∙ ap {A = List PerCpu × List ℕ} (λ q. (undo c ∷ q.0, q.1))
        (ap (λ p. free_each rest (free_page p freed)) (off-page c)
          ∙ h (free_page c.vmxon_page freed))

pub free_each-disable :
    (cs : List PerCpu) (n : ℕ) (freed : List ℕ)
    → free_each (disable_each cs n).0 freed ≡ (map undo cs, given_back cs freed)
unfolding disable_each disabled free_each given_back
free_each-disable [] n freed = refl
free_each-disable (c ∷ cs) n freed =
    free_each-cons c (disabled c n).0 cs (disable_each cs (disabled c n).1).0 freed
      (disabled-off c n) (λ f. free_each-disable cs (disabled c n).1 f)

-- Entering VMX operation is undone.
mk_undone : PerCpu → Bool → Bool → Bool → PerCpu
mk_undone c v d i = record c { vmxe = v; vmxon_done = d; in_operation = i; vmxon_page = none }

undo-clear : (c : PerCpu) → c.vmxon_done ≡ false → undo c ≡ record c { vmxon_page = none }
unfolding undo off disable_one
undo-clear c h = elim (Bool-cases c.online) [
  | inl o ↦ rw (o, h, undo) refl
  | inr o ↦ rw (o, undo) refl
]

undo-set :
    (c : PerCpu)
    → IsOut c
    → c.online ≡ true
    → c.vmxe ≡ false
    → undo (record c { vmxe = true; in_operation = true; vmxon_done = true })
      ≡ record c { vmxon_page = none }
unfolding undo off disable_one mk_undone vmxoff
undo-set c out on clear =
    ap
      (λ b.
        record (if b
          then record c { vmxe = false; vmxon_done = false; in_operation = c.vmxoff_fails && true }
          else record c { vmxe = true; in_operation = true; vmxon_done = true }) {
            vmxon_page = none;
          })
      on
    ∙ (ap (λ b. mk_undone c false false (b && true)) out.off_works
        ∙ (ap (λ v. mk_undone c v false false) (sym clear)
            ∙ (ap (λ d. mk_undone c c.vmxe d false) (sym out.not_done)
                ∙ ap (λ i. mk_undone c c.vmxe c.vmxon_done i) (sym out.outside))))

undo-enable :
    (c : PerCpu) (r : Status) (n : ℕ)
    → IsOut c
    → c.online ≡ true
    → undo (enable_one c r n).0 ≡ record c { vmxon_page = none }
unfolding enable_one
undo-enable c (err e) n out on = undo-clear c out.not_done
undo-enable c (ok u) n out on =
    if-intro Kept (not (vmx_supported c)) {x = (c, err Errno.enodev, n)} same (
      if-cases Kept c.vmxe (c, err Errno.ebusy, n) _ (λ h. same)
        (λ v.
          if-intro Kept c.vmxon_fails {x = (record c { vmxe = false }, err Errno.eio, n)}
            (undo-clear (record c { vmxe = false }) out.not_done
              ∙ ap (λ b. record c { vmxe = b; vmxon_page = none }) (sym v))
            (undo-set c out on v)))
  where
    Kept : PerCpu × Status × ℕ → Type 0
    Kept r = undo r.0 ≡ record c { vmxon_page = none }

    same : undo c ≡ record c { vmxon_page = none }
    same = undo-clear c out.not_done

enable_one-page : (c : PerCpu) (r : Status) (n : ℕ) → (enable_one c r n).0.vmxon_page ≡ c.vmxon_page
unfolding enable_one
enable_one-page c (err e) n = refl
enable_one-page c (ok u) n =
    if-intro P (not (vmx_supported c)) {x = (c, err Errno.enodev, n)} refl (
      if-intro P c.vmxe {x = (c, err Errno.ebusy, n)} refl (
        if-intro P c.vmxon_fails {x = (record c { vmxe = false }, err Errno.eio, n)}
          {y = (record c { vmxe = true; in_operation = true; vmxon_done = true }, ok tt, n + 1)}
          refl refl))
  where
    P : PerCpu × Status × ℕ → Type 0
    P r = r.0.vmxon_page ≡ c.vmxon_page

-- One CPU of `enable_each`
unfoldable pub enabled : PerCpu → Status → ℕ → PerCpu × Status × ℕ
enabled c r n = if c.online then enable_one c r n else (c, r, n)

enabled-undo :
    (c : PerCpu) (r : Status) (n : ℕ)
    → IsOut c
    → undo (enabled c r n).0 ≡ record c { vmxon_page = none }
unfolding enabled
enabled-undo c r n out = either c.online refl
  where
    either :
        (b : Bool)
        → c.online ≡ b
        → undo (if b then enable_one c r n else (c, r, n)).0 ≡ record c { vmxon_page = none }
    either true e = undo-enable c r n out e
    either false e = undo-clear c out.not_done

enabled-page : (c : PerCpu) (r : Status) (n : ℕ) → (enabled c r n).0.vmxon_page ≡ c.vmxon_page
unfolding enabled
enabled-page c r n =
    if-intro {A = PerCpu × Status × ℕ} (λ t. t.0.vmxon_page ≡ c.vmxon_page) c.online {y = (c, r, n)}
      (enable_one-page c r n) refl

unfoldable pub forget : PerCpu → PerCpu
forget c = record c { vmxon_page = none }

-- What is left of the CPUs by an unload after an entry, and the pages that it gives back.
pub enable_each-undo :
    (cs : List PerCpu) (r : Status) (n : ℕ)
    → AllCpus IsOut cs
    → map undo (enable_each cs r n).0 ≡ map forget cs
unfolding enable_each enabled forget
enable_each-undo [] r n out = refl
enable_each-undo (c ∷ cs) r n (out, outs) =
    let (c', r', n') = enabled c r n in
    ap (λ x. x ∷ map undo (enable_each cs r' n').0) (enabled-undo c r n out)
    ∙ ap (◌∷◌ (forget c)) (enable_each-undo cs r' n' outs)

pub enable_each-pages :
    (cs : List PerCpu) (r : Status) (n : ℕ) (freed : List ℕ)
    → given_back (enable_each cs r n).0 freed ≡ given_back cs freed
unfolding enable_each enabled given_back free_each
enable_each-pages [] r n freed = refl
enable_each-pages (c ∷ cs) r n freed =
    let (c', r', n') = enabled c r n in
    enable_each-pages cs r' n' (free_page c'.vmxon_page freed)
    ∙ ap (λ p. given_back cs (free_page p freed)) (enabled-page c r n)
