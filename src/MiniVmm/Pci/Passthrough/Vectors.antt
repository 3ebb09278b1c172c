-- ===== src/MiniVmm/Pci/Passthrough/Vectors.antt =====
-- The MSI-X vectors after msix_setup_irqs (minivmm.c).
use virtualization_learning.Base.{
  ℕ, zero, suc, ◌+◌, ◌*◌, ◌≤◌, ◌<◌, ◌≡◌, refl, sym, ap, ◌∙◌, subst, ◌≢◌, ◌⊎◌, inl, inr, Bool, true,
  false, Option, none, some, List, [], ◌∷◌, arith, ◌==◌, if◌then◌else◌, ==_iff, Bool-cases,
  if-intro, length, set, get_or, take, length-set, get_or-set_self, get_or-set_ne,
}
use virtualization_learning.MiniVmm.Pci.{setup_irqs}
use virtualization_learning.MiniVmm.Pci.Routes.{
  msix_gsi_base, is_programmed, vectors, routes_of, programmed, update_routes,
  routes_of-update_routes,
}
use virtualization_learning.MiniVmm.Pci.Passthrough.{
  Host, Passthrough, forward_ctrl, attach, arm_vectors, give_routes, sync_ctrl, msix_setup_irqs,
}

-- KVM turns a signal of the eventfd into the GSI.
abbrev pub Attached : ℕ → ℕ → List (ℕ × ℕ) → Type 0
Attached fd gsi [] = ⊥
Attached fd gsi ((f, g) ∷ rest) = ((f ≡ fd) × (g ≡ gsi)) ⊎ Attached fd gsi rest

-- What the forwarding of control words leaves alone.
sync_ctrl-keeps {ℓ} :
    {A : Type ℓ} (f : Passthrough → A)
    → ((d : Passthrough) (ws : List (ℕ × ℕ × List ℕ)) (n : ℕ)
        → f (record d { region_writes = ws; pt_ctrl_fwd = n }) ≡ f d)
    → (host : Host) (v n : ℕ) (d : Passthrough) → f (sync_ctrl host v n d) ≡ f d
unfolding sync_ctrl forward_ctrl
sync_ctrl-keeps f same host v zero d = refl
sync_ctrl-keeps f same host v (suc n) d =
    sync_ctrl-keeps f same host (suc v) n
      (if is_programmed d.vf.msix_shadow v then forward_ctrl host v d else d)
    ∙ if-intro (λ x. f x ≡ f d) (is_programmed d.vf.msix_shadow v)
        (if-intro (λ x. f x ≡ f d) (host.accepts d.msix_table_bar (d.msix_table_off + v * 16 + 12))
          {y = d} (same d _ _) refl)
        refl

get_or-take {ℓ} :
    {A : Type ℓ} (n : ℕ) (xs : List A) (i : ℕ) (a : A)
    → i < n
    → get_or (take n xs) i a ≡ get_or xs i a
get_or-take zero xs i a h = absurd (omega arith)
get_or-take (suc n) [] i a h = refl
get_or-take (suc n) (x ∷ xs) zero a h = refl
get_or-take (suc n) (x ∷ xs) (suc i) a h = get_or-take n xs i a (omega arith)

module _ (host : Host) (shadow : List ℕ) where
  -- The state of the loop after the vector `v`.
  abbrev armed_one : ℕ → List (Option ℕ) → List (ℕ × ℕ) → List (Option ℕ) × List (ℕ × ℕ)
  armed_one v efd irqfds =
      if is_programmed shadow v
      then (
        set efd v (host.eventfd v),
        if host.msix_slowpath
            then irqfds
            else attach host (msix_gsi_base + v) (host.eventfd v) irqfds,
      )
      else (efd, irqfds)

  arm_vectors-later :
      (v u n : ℕ) (s : List (Option ℕ) × List (ℕ × ℕ))
      → v < u
      → get_or (arm_vectors host shadow u n s).0 v none ≡ get_or s.0 v none
  unfolding arm_vectors
  arm_vectors-later v u zero (efd, irqfds) h = refl
  arm_vectors-later v u (suc n) (efd, irqfds) h =
      arm_vectors-later v (suc u) n (armed_one u efd irqfds) (omega (arith, h))
      ∙ if-intro (λ (s : List (Option ℕ) × List (ℕ × ℕ)). get_or s.0 v none ≡ get_or efd v none)
          (is_programmed shadow u) {y = (efd, irqfds)}
          (get_or-set_ne efd (host.eventfd u) none apart) refl
    where
      apart : u ≢ v
      apart e = omega (arith, e, h)

  arm_vectors-efd :
      (v u n : ℕ) (s : List (Option ℕ) × List (ℕ × ℕ))
      → u ≤ v
      → v < u + n
      → v < length s.0
      → get_or (arm_vectors host shadow u n s).0 v none
        ≡ (if is_programmed shadow v then host.eventfd v else get_or s.0 v none)
  unfolding arm_vectors
  arm_vectors-efd v u zero (efd, irqfds) h k l = absurd (omega arith)
  arm_vectors-efd v u (suc n) (efd, irqfds) h k l = elim (Bool-cases (u == v)) [
    | inl e ↦
        let same : u ≡ v = (==_iff u v).0 e in
        subst
          (λ w.
            get_or (arm_vectors host shadow (suc w) n (armed_one w efd irqfds)).0 v none
            ≡ (if is_programmed shadow v then host.eventfd v else get_or efd v none))
          (sym same)
          (arm_vectors-later v (suc v) n (armed_one v efd irqfds) (omega arith)
            ∙ here (is_programmed shadow v))
    | inr e ↦
        let apart : u ≢ v = ground (arith, e) in
        let kept : get_or (armed_one u efd irqfds).0 v none ≡ get_or efd v none =
          if-intro (λ (s : List (Option ℕ) × List (ℕ × ℕ)). get_or s.0 v none ≡ get_or efd v none)
            (is_programmed shadow u) {y = (efd, irqfds)}
            (get_or-set_ne efd (host.eventfd u) none apart) refl in
        let long : v < length (armed_one u efd irqfds).0 =
          if-intro (λ (s : List (Option ℕ) × List (ℕ × ℕ)). v < length s.0) (is_programmed shadow u)
            {y = (efd, irqfds)} (omega (arith, l, length-set efd u (host.eventfd u))) l in
        arm_vectors-efd v (suc u) n (armed_one u efd irqfds) (omega (arith, h, apart))
          (omega (arith, k)) long
        ∙ ap (λ o. if is_programmed shadow v then host.eventfd v else o) kept
  ]
    where
      pair : Bool → List (Option ℕ) × List (ℕ × ℕ)
      pair b =
          if b
          then (
            set efd v (host.eventfd v),
            if host.msix_slowpath
                then irqfds
                else attach host (msix_gsi_base + v) (host.eventfd v) irqfds,
          )
          else (efd, irqfds)

      here :
          (b : Bool) → get_or (pair b).0 v none ≡ (if b then host.eventfd v else get_or efd v none)
      here true = get_or-set_self efd v (host.eventfd v) none l
      here false = refl

  attach-Attached :
      (fd gsi g : ℕ) (o : Option ℕ) (irqfds : List (ℕ × ℕ))
      → Attached fd gsi irqfds
      → Attached fd gsi (attach host g o irqfds)
  unfolding attach
  attach-Attached fd gsi g none irqfds h = h
  attach-Attached fd gsi g (some f) irqfds h =
      if-intro (Attached fd gsi) (host.irqfd_works g) {x = (f, g) ∷ irqfds} (inr h) h

  -- Once attached, always attached.
  arm_vectors-Attached :
      (fd gsi u n : ℕ) (s : List (Option ℕ) × List (ℕ × ℕ))
      → Attached fd gsi s.1
      → Attached fd gsi (arm_vectors host shadow u n s).1
  unfolding arm_vectors
  arm_vectors-Attached fd gsi u zero (efd, irqfds) h = h
  arm_vectors-Attached fd gsi u (suc n) (efd, irqfds) h =
      arm_vectors-Attached fd gsi (suc u) n (armed_one u efd irqfds) (
        if-intro (λ (s : List (Option ℕ) × List (ℕ × ℕ)). Attached fd gsi s.1)
          (is_programmed shadow u) {y = (efd, irqfds)}
          (if-intro (Attached fd gsi) host.msix_slowpath h
            (attach-Attached fd gsi (msix_gsi_base + u) (host.eventfd u) irqfds h))
          h)

  arm_vectors-attaches :
      (fd v u n : ℕ) (s : List (Option ℕ) × List (ℕ × ℕ))
      → u ≤ v
      → v < u + n
      → is_programmed shadow v ≡ true
      → host.msix_slowpath ≡ false
      → host.eventfd v ≡ some fd
      → host.irqfd_works (msix_gsi_base + v) ≡ true
      → Attached fd (msix_gsi_base + v) (arm_vectors host shadow u n s).1
  unfolding arm_vectors attach
  arm_vectors-attaches fd v u zero (efd, irqfds) h k p slow made works = absurd (omega arith)
  arm_vectors-attaches fd v u (suc n) (efd, irqfds) h k p slow made works =
      elim (Bool-cases (u == v)) [
        | inl e ↦
            let same : u ≡ v = (==_iff u v).0 e in
            arm_vectors-Attached fd (msix_gsi_base + v) (suc u) n (armed_one u efd irqfds) (
              subst (λ w. Attached fd (msix_gsi_base + v) (armed_one w efd irqfds).1) (sym same)
                (rw (p, slow, made, attach, works) (inl (refl, refl))))
        | inr e ↦
            let apart : u ≢ v = ground (arith, e) in
            arm_vectors-attaches fd v (suc u) n (armed_one u efd irqfds) (omega (arith, h, apart))
              (omega (arith, k)) p slow made works
      ]

-- If KVM takes the routes, VFIO takes the eventfds, KVM_IRQFD takes the one of vector `v` and the
-- slow path is off: after `msix_setup_irqs`, for a vector among the first 32 of the device that
-- the guest programmed and that got an eventfd, the device signals this eventfd, and KVM turns it
-- into the GSI of the vector, whose only route, to a pin or as a message, is the message that the
-- guest programmed; and the arming is marked as done.
pub msix_setup_irqs-delivers :
    (host : Host) (d : Passthrough) (v fd : ℕ)
    → host.routing_works ≡ true
    → host.set_irqs_works ≡ true
    → host.msix_slowpath ≡ false
    → length d.msix_efd ≡ 32
    → v < vectors d.vf
    → is_programmed d.vf.msix_shadow v ≡ true
    → host.eventfd v ≡ some fd
    → host.irqfd_works (msix_gsi_base + v) ≡ true
    → let d' = msix_setup_irqs host d in
      (get_or d'.device_fds v none ≡ some fd)
      × Attached fd (msix_gsi_base + v) d'.irqfds
      × (routes_of (msix_gsi_base + v) d'.routes ≡ programmed d.vf.msix_shadow v ∷ [])
      × (d'.vf.msix_routing_done ≡ true)
unfolding msix_setup_irqs
msix_setup_irqs-delivers host d v fd routed works slow size in_range prog made taken =
    rw (routed, works, setup_irqs, give_routes)
      (
        sync_ctrl-keeps (λ (x : Passthrough). get_or x.device_fds v none) (λ x ws n. refl) host 0 nr
              d2
            ∙ (get_or-take nr s.0 v none in_range
                ∙ (arm_vectors-efd host shadow v 0 nr (d.msix_efd, d.irqfds) (omega arith)
                      (omega (arith, in_range)) (omega (arith, in_range, size, few))
                    ∙ rw (prog, made) refl)),
        subst (Attached fd (msix_gsi_base + v))
            (sym (sync_ctrl-keeps (λ (x : Passthrough). x.irqfds) (λ x ws n. refl) host 0 nr d2))
            (arm_vectors-attaches host shadow fd v 0 nr (d.msix_efd, d.irqfds) (omega arith)
              (omega (arith, in_range)) prog slow made taken),
        ap (routes_of (msix_gsi_base + v))
              (sync_ctrl-keeps (λ (x : Passthrough). x.routes) (λ x ws n. refl) host 0 nr d2)
            ∙ ((routes_of-update_routes d.vf).1 v in_range ∙ rw prog refl),
        sync_ctrl-keeps (λ (x : Passthrough). x.vf.msix_routing_done) (λ x ws n. refl) host 0 nr d2,
      )
  where
    shadow : List ℕ
    shadow = d.vf.msix_shadow

    nr : ℕ
    nr = vectors d.vf

    few : vectors d.vf ≤ 32
    few = ground arith

    s : List (Option ℕ) × List (ℕ × ℕ)
    s = arm_vectors host shadow 0 nr (d.msix_efd, d.irqfds)

    d2 : Passthrough
    d2 = record d {
      routes = update_routes d.vf;
      msix_efd = s.0;
      irqfds = s.1;
      vf = setup_irqs true d.vf;
      device_fds = take nr s.0;
    }
