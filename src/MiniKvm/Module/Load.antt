-- ===== src/MiniKvm/Module/Load.antt =====
-- The load of the module either puts every online CPU into VMX operation or leaves the host as it
-- was, and the unload gives back the host of before the load.
use virtualization_learning.Base.{
  ℕ, ◌+◌, ◌≡◌, refl, sym, ap, ◌∙◌, Bool, true, false, not, List, [], ◌∷◌, map, if◌then◌else◌,
  if-intro,
}
use virtualization_learning.MiniKvm.{Errno, ok, err, Status}
use virtualization_learning.MiniKvm.Module.{
  PerCpu, Global, vmx_supported, enable_one, enable_each, disable_each, free_each, alloc_each,
  settle, enter_vmx, hardware_enable_all, hardware_disable_all, read_capabilities, after_dev,
  after_enable, with_capabilities, module_init, module_exit,
}
use virtualization_learning.MiniKvm.Module.Restore.{
  AllCpus, IsOut, enabled, IsClean, IsEntered, forget, given_back, free_each-disable,
  enable_each-undo, enable_each-pages,
}
use virtualization_learning.MiniKvm.Module.Alloc.{IsPaged, AllocOutcome, alloc_each-restores}

-- The host of before: each CPU as it was, and each page that was allocated given back.
pub record IsRestored (g g' : Global) : Type 0 where
  pub same_cpus : g'.cpus ≡ g.cpus
  pub balanced : g'.freed ≡ g'.allocated
  pub disabled : g'.vmx_enabled ≡ false

-- Each online CPU is in VMX operation where no call left an error.
enable_one-IsEntered :
    (c : PerCpu) (n : ℕ)
    → c.online ≡ true
    → (enable_one c (ok tt) n).1 ≡ ok tt
    → IsEntered (enable_one c (ok tt) n).0
unfolding enable_one
enable_one-IsEntered c n on =
    if-intro P (not (vmx_supported c)) {x = (c, err Errno.enodev, n)} (λ e. absurd (cc e))
      (if-intro P c.vmxe {x = (c, err Errno.ebusy, n)} (λ e. absurd (cc e))
        (if-intro P c.vmxon_fails {x = (record c { vmxe = false }, err Errno.eio, n)}
          {y = (record c { vmxe = true; in_operation = true; vmxon_done = true }, ok tt, n + 1)}
          (λ e. absurd (cc e)) (λ e. record { entered = λ o. (refl, refl, refl) })))
  where
    P : PerCpu × Status × ℕ → Type 0
    P r = r.1 ≡ ok tt → IsEntered r.0

enabled-IsEntered :
    (c : PerCpu) (n : ℕ) → (enabled c (ok tt) n).1 ≡ ok tt → IsEntered (enabled c (ok tt) n).0
unfolding enabled
enabled-IsEntered c n = either c.online refl
  where
    either :
        (b : Bool)
        → c.online ≡ b
        → let r = if b then enable_one c (ok tt) n else (c, ok tt, n) in r.1 ≡ ok tt → IsEntered r.0
    either true on e = enable_one-IsEntered c n on e
    either false on e = record { entered = λ o. absurd (cc (sym on ∙ o)) }

-- A CPU that finds an error leaves it.
enable_each-err : (cs : List PerCpu) (e : Errno) (n : ℕ) → (enable_each cs (err e) n).1 ≡ err e
unfolding enable_each enabled enable_one
enable_each-err [] e n = refl
enable_each-err (c ∷ cs) e n =
    let same =
      if-intro {A = PerCpu × Status × ℕ} (λ t. (t.1 ≡ err e) × (t.2 ≡ n)) c.online
        {x = (c, err e, n)} {y = (c, err e, n)} (refl, refl) (refl, refl) in
    ap (λ r. (enable_each cs r (enabled c (err e) n).2).1) same.0
    ∙ enable_each-err cs e (enabled c (err e) n).2

enable_each-IsEntered :
    (cs : List PerCpu) (n : ℕ)
    → (enable_each cs (ok tt) n).1 ≡ ok tt
    → AllCpus IsEntered (enable_each cs (ok tt) n).0
unfolding enable_each enabled
enable_each-IsEntered [] n e = tt
enable_each-IsEntered (c ∷ cs) n e =
    rest (enabled c (ok tt) n) (enabled-IsEntered c n) (enable_each-IsEntered cs) e
  where
    rest :
        (t : PerCpu × Status × ℕ)
        → (t.1 ≡ ok tt → IsEntered t.0)
        → ((m : ℕ)
            → (enable_each cs (ok tt) m).1 ≡ ok tt
            → AllCpus IsEntered (enable_each cs (ok tt) m).0)
        → (enable_each cs t.1 t.2).1 ≡ ok tt
        → IsEntered t.0 × AllCpus IsEntered (enable_each cs t.1 t.2).0
    rest (c', ok u, m) h ih k = (h refl, ih m k)
    rest (c', err x, m) h ih k = absurd (cc (sym (enable_each-err cs x m) ∙ k))

forget-clean : (cs : List PerCpu) → AllCpus IsClean cs → AllCpus IsOut cs
forget-clean [] h = tt
forget-clean (c ∷ cs) (h, hs) = (h.out, forget-clean cs hs)

-- After the allocation
abbrev pub Outcome : Global → Status → Global → Type 0
Outcome g (ok u) g' =
    AllCpus IsEntered g'.cpus × (g'.vmx_enabled ≡ true) × IsRestored g (hardware_disable_all g')
Outcome g (err e) g' = IsRestored g g'

-- An unload takes back what the CPUs entered, and the pages.
undone :
    (cs : List PerCpu) (r : Status) (n m : ℕ) (freed : List ℕ)
    → AllCpus IsOut cs
    → free_each (disable_each (enable_each cs r n).0 m).0 freed
      ≡ (map forget cs, given_back cs freed)
undone cs r n m freed out =
    free_each-disable (enable_each cs r n).0 m freed
    ∙ (ap (λ x. (x, given_back (enable_each cs r n).0 freed)) (enable_each-undo cs r n out)
        ∙ ap (λ y. (map forget cs, y)) (enable_each-pages cs r n freed))

enter_vmx-Outcome :
    (g g1 : Global)
    → IsPaged g.cpus g1.cpus g1
    → let (r, g') = enter_vmx (ok tt, g1) in Outcome g r g'
unfolding enter_vmx settle hardware_disable_all
enter_vmx-Outcome g g1 p = by_result (enable_each g1.cpus (ok tt) 0).1 refl
  where
    cpus : List PerCpu
    cpus = (enable_each g1.cpus (ok tt) 0).0

    count : ℕ
    count = (enable_each g1.cpus (ok tt) 0).2

    back : free_each (disable_each cpus count).0 g1.freed ≡ (g.cpus, g1.allocated)
    back =
        undone g1.cpus (ok tt) 0 count g1.freed p.all_out
        ∙ (ap (λ x. (x, given_back g1.cpus g1.freed)) p.cpus_were
            ∙ ap (λ y. (g.cpus, y)) p.pages_are)

    by_result :
        (r : Status)
        → (enable_each g1.cpus (ok tt) 0).1 ≡ r
        → let (r', g') =
            settle r (record g1 { cpus = cpus; enable_err = r; enable_count = count }) in
          Outcome g r' g'
    by_result (ok u) e = (
      enable_each-IsEntered g1.cpus 0 e,
      refl,
      record { same_cpus = ap (λ q. q.0) back; balanced = ap (λ q. q.1) back; disabled = refl },
    )
    by_result (err x) e = record {
      same_cpus = ap (λ q. q.0) back;
      balanced = ap (λ q. q.1) back;
      disabled = p.not_yet;
    }

-- From CPUs outside VMX operation that hold no page: the module puts every online CPU into VMX
-- operation, with CR4.VMXE set, and disabling it gives back every CPU as it was and each page
-- that was allocated; or it fails, on whatever CPU and for whatever reason, and has done all that
-- itself.
pub hardware_enable_all-Outcome :
    (g : Global)
    → AllCpus IsClean g.cpus
    → g.freed ≡ g.allocated
    → g.vmx_enabled ≡ false
    → let (r, g') = hardware_enable_all g in Outcome g r g'
unfolding hardware_enable_all enter_vmx given_back free_each
hardware_enable_all-Outcome g clean even idle = by_alloc (alloc_each [] g.cpus g.pages g) (
    alloc_each-restores [] [] g.cpus g.pages g
      record { cpus_were = refl; pages_are = even; all_out = tt; not_yet = idle } clean)
  where
    by_alloc :
        (t : Status × Global)
        → AllocOutcome g.cpus t.0 t.1
        → let (r, g') = enter_vmx t in Outcome g r g'
    by_alloc (ok u, g1) p = enter_vmx-Outcome g g1 p
    by_alloc (err e, g1) (same, freed, not_yet) = record {
      same_cpus = same;
      balanced = freed;
      disabled = not_yet;
    }

-- From CPUs outside VMX operation with no page of the module, on which VMXOFF works, and with
-- each page allocated so far given back: the load of the module fails and leaves the host as it
-- was, also where registering the device fails after VMXON, or succeeds with every online CPU in
-- VMX operation; and the unload then leaves the host as it was before the load.
pub module_init-module_exit :
    (here : PerCpu) (ept_vpid_cap : ℕ) (dev : Status) (g : Global)
    → AllCpus IsClean g.cpus
    → g.freed ≡ g.allocated
    → g.vmx_enabled ≡ false
    → let (r, g') = module_init here ept_vpid_cap dev g in
      ((e : Errno) → r ≡ err e → IsRestored g g')
      × (r ≡ ok tt → AllCpus IsEntered g'.cpus × IsRestored g (module_exit g'))
unfolding module_init with_capabilities after_enable after_dev module_exit
module_init-module_exit here cap dev g clean even idle = by_cap (read_capabilities here cap)
  where
    Loads : Status × Global → Type 0
    Loads t =
        ((e : Errno) → t.0 ≡ err e → IsRestored g t.1)
        × (t.0 ≡ ok tt → AllCpus IsEntered t.1.cpus × IsRestored g (module_exit t.1))

    by_dev : (d : Status) (g' : Global) → Outcome g (ok tt) g' → Loads (after_dev d g')
    by_dev (ok u) g' (entered, on, back) = (λ e h. absurd (cc h), λ h. (entered, back))
    by_dev (err x) g' (entered, on, back) = (λ e h. back, λ h. absurd (cc h))

    by_enable : (t : Status × Global) → Outcome g t.0 t.1 → Loads (after_enable dev t)
    by_enable (ok u, g') o = by_dev dev g' o
    by_enable (err x, g') o = (λ e h. o, λ h. absurd (cc h))

    by_cap : (r : Status) → Loads (with_capabilities r dev g)
    by_cap (ok u) =
        by_enable (hardware_enable_all g) (hardware_enable_all-Outcome g clean even idle)
    by_cap (err x) =
        (λ e h. record { same_cpus = refl; balanced = even; disabled = idle }, λ h. absurd (cc h))
