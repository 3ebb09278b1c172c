-- ===== src/MiniVmm/Pci/Routes.antt =====
-- phase9-capstone/practice/minivmm.c: `msix_update_routes`, the interrupt routes that KVM gets for
-- the vectors of the passed-through device.
use virtualization_learning.Base.{
  ℕ, zero, suc, ◌+◌, ◌-◌, ◌*◌, ◌^◌, ◌≤◌, ◌<◌, ◌≡◌, refl, ap, ◌∙◌, subst, inl, inr, Bool, true,
  false, not, ◌&&◌, List, [], ◌∷◌, ◌++◌, arith, ltb, ◌==◌, nonzero, if◌then◌else◌, Bool-cases,
  if-intro, length, get_or,
}
use virtualization_learning.MiniVmm.Pci.{Vfio}

-- `struct kvm_irq_routing_entry`; the chips are those of `KVM_IRQCHIP_*`.
pub data Chip : Type 0 where
  ioapic pic_master pic_slave : Chip

pub data Route : Type 0 where
  irqchip : ℕ → Chip → ℕ → Route
  msi : ℕ → ℕ → ℕ → ℕ → Route

-- `MSIX_GSI_BASE`
abbrev pub msix_gsi_base : ℕ
msix_gsi_base = 24

-- `memcpy` of four bytes of the shadow table, the lowest first.
abbrev pub load32 : List ℕ → ℕ → ℕ
load32 bytes at =
    get_or bytes at 0
    + get_or bytes (at + 1) 0 * 2 ^ 8
    + get_or bytes (at + 2) 0 * 2 ^ 16
    + get_or bytes (at + 3) 0 * 2 ^ 24

-- Neither half of the address of a vector is set: it was not programmed.
unfoldable pub is_programmed : List ℕ → ℕ → Bool
is_programmed shadow v =
    not (not (nonzero (load32 shadow (v * 16))) && not (nonzero (load32 shadow (v * 16 + 4))))

-- The three loops of `msix_update_routes`, from an index on.
ioapic_routes : ℕ → ℕ → List Route
ioapic_routes g zero = []
ioapic_routes g (suc n) = irqchip g Chip.ioapic g ∷ ioapic_routes (suc g) n

pic_routes : ℕ → ℕ → List Route
pic_routes g zero = []
pic_routes g (suc n) =
    irqchip g (if ltb g 8 then Chip.pic_master else Chip.pic_slave) (if ltb g 8 then g else g - 8)
    ∷ pic_routes (suc g) n

unfoldable pub msi_routes : List ℕ → ℕ → ℕ → List Route
msi_routes shadow v zero = []
msi_routes shadow v (suc n) =
    let rest = msi_routes shadow (suc v) n in
    if is_programmed shadow v
    then msi (msix_gsi_base + v) (load32 shadow (v * 16)) (load32 shadow (v * 16 + 4))
        (load32 shadow (v * 16 + 8))
      ∷ rest
    else rest

-- `nr` of `msix_update_routes`
abbrev pub vectors : Vfio → ℕ
vectors vf = if ltb 32 vf.msix_nr then 32 else vf.msix_nr

-- `msix_update_routes`: the entries of the table that KVM gets.
unfoldable pub update_routes : Vfio → List Route
unfolding ioapic_routes pic_routes msi_routes
update_routes vf =
    ioapic_routes 0 24 ++ (pic_routes 0 16 ++ msi_routes vf.msix_shadow 0 (vectors vf))

-- The routes of a GSI, to the pin of a chip or as a message.
abbrev pub routes_of : ℕ → List Route → List Route
routes_of gsi [] = []
routes_of gsi (irqchip g chip pin ∷ rs) =
    let rest = routes_of gsi rs in if g == gsi then irqchip g chip pin ∷ rest else rest
routes_of gsi (msi g lo hi data_ ∷ rs) =
    let rest = routes_of gsi rs in if g == gsi then msi g lo hi data_ ∷ rest else rest

-- The message that the guest programmed for a vector, on the vector's GSI
abbrev pub programmed : List ℕ → ℕ → Route
programmed shadow v =
    msi (msix_gsi_base + v) (load32 shadow (v * 16)) (load32 shadow (v * 16 + 4))
      (load32 shadow (v * 16 + 8))

routes_of-ioapic_routes :
    (gsi g n : ℕ) (rs : List Route)
    → g + n ≤ gsi
    → routes_of gsi (ioapic_routes g n ++ rs) ≡ routes_of gsi rs
unfolding ioapic_routes
routes_of-ioapic_routes gsi g zero rs h = refl
routes_of-ioapic_routes gsi g (suc n) rs h =
    rw other (routes_of-ioapic_routes gsi (suc g) n rs (omega (arith, h)))
  where
    other : (g == gsi) ≡ false
    other = ground (arith, h)

routes_of-pic_routes :
    (gsi g n : ℕ) (rs : List Route)
    → g + n ≤ gsi
    → routes_of gsi (pic_routes g n ++ rs) ≡ routes_of gsi rs
unfolding pic_routes
routes_of-pic_routes gsi g zero rs h = refl
routes_of-pic_routes gsi g (suc n) rs h =
    rw other (routes_of-pic_routes gsi (suc g) n rs (omega (arith, h)))
  where
    other : (g == gsi) ≡ false
    other = ground (arith, h)

-- Vectors beyond the one that is asked for have other GSIs.
routes_of-msi_routes_later :
    (shadow : List ℕ) (v u n : ℕ)
    → v < u
    → routes_of (msix_gsi_base + v) (msi_routes shadow u n) ≡ []
unfolding msi_routes
routes_of-msi_routes_later shadow v u zero h = refl
routes_of-msi_routes_later shadow v u (suc n) h =
    if-intro (λ rs. routes_of (msix_gsi_base + v) rs ≡ []) (is_programmed shadow u)
      (rw other (routes_of-msi_routes_later shadow v (suc u) n (omega arith)))
      (routes_of-msi_routes_later shadow v (suc u) n (omega arith))
  where
    other : (msix_gsi_base + u == msix_gsi_base + v) ≡ false
    other = ground (arith, h)

routes_of-msi_routes :
    (shadow : List ℕ) (v u n : ℕ)
    → u ≤ v
    → v < u + n
    → routes_of (msix_gsi_base + v) (msi_routes shadow u n)
      ≡ (if is_programmed shadow v then programmed shadow v ∷ [] else [])
unfolding msi_routes
routes_of-msi_routes shadow v u zero h k = absurd (omega arith)
routes_of-msi_routes shadow v u (suc n) h k = elim (Bool-cases (u == v)) [
  | inl e ↦
      subst
        (λ w.
          routes_of (msix_gsi_base + v) (msi_routes shadow w (suc n))
          ≡ (if is_programmed shadow v then programmed shadow v ∷ [] else []))
        (same e) (here (is_programmed shadow v))
  | inr e ↦
      if-intro
        (λ rs.
          routes_of (msix_gsi_base + v) rs
          ≡ (if is_programmed shadow v then programmed shadow v ∷ [] else []))
        (is_programmed shadow u)
        (rw (other e)
          (routes_of-msi_routes shadow v (suc u) n (ground (arith, h, e)) (omega (arith, k))))
        (routes_of-msi_routes shadow v (suc u) n (ground (arith, h, e)) (omega (arith, k)))
]
  where
    same : (u == v) ≡ true → v ≡ u
    same e = ground arith

    other : (u == v) ≡ false → (msix_gsi_base + u == msix_gsi_base + v) ≡ false
    other e = ground arith

    self : (msix_gsi_base + v == msix_gsi_base + v) ≡ true
    self = ground arith

    here :
        (b : Bool)
        → routes_of (msix_gsi_base + v) (
            if b
            then msi
                (msix_gsi_base + v)
                (load32 shadow (v * 16))
                (load32 shadow (v * 16 + 4))
                (load32 shadow (v * 16 + 8))
              ∷ msi_routes shadow (suc v) n
            else msi_routes shadow (suc v) n)
          ≡ (if b then programmed shadow v ∷ [] else [])
    here true = rw self (
        ap (◌∷◌ (programmed shadow v))
          (routes_of-msi_routes_later shadow v (suc v) n (omega arith)))
    here false = routes_of-msi_routes_later shadow v (suc v) n (omega arith)

length-msi_routes : (shadow : List ℕ) (u n : ℕ) → length (msi_routes shadow u n) ≤ n
unfolding msi_routes
length-msi_routes shadow u zero = omega arith
length-msi_routes shadow u (suc n) =
    let shorter : length (msi_routes shadow (suc u) n) ≤ suc n =
      omega (arith, length-msi_routes shadow (suc u) n) in
    let longer : suc (length (msi_routes shadow (suc u) n)) ≤ suc n =
      omega (arith, length-msi_routes shadow (suc u) n) in
    if-intro (λ rs. length rs ≤ suc n) (is_programmed shadow u)
      {x = msi (msix_gsi_base + u) (load32 shadow (u * 16)) (load32 shadow (u * 16 + 4))
          (load32 shadow (u * 16 + 8))
        ∷ msi_routes shadow (suc u) n}
      longer shorter

-- The routes that KVM gets fit the table that is allocated for them, and give each of the first
-- 32 vectors of the device its GSI, from 24 on: exactly one route, the message that the guest
-- programmed, or none where it has programmed no address.
pub routes_of-update_routes :
    (vf : Vfio)
    → (length (update_routes vf) ≤ 24 + 16 + vectors vf + 4)
      × ((v : ℕ)
          → v < vectors vf
          → routes_of (msix_gsi_base + v) (update_routes vf)
            ≡ (if is_programmed vf.msix_shadow v then programmed vf.msix_shadow v ∷ [] else []))
unfolding update_routes ioapic_routes pic_routes
routes_of-update_routes vf = (
  omega (arith, length-msi_routes vf.msix_shadow 0 (vectors vf)),
  λ v h.
      routes_of-ioapic_routes (msix_gsi_base + v) 0 24
        (pic_routes 0 16 ++ msi_routes vf.msix_shadow 0 (vectors vf)) (omega arith)
      ∙ (routes_of-pic_routes (msix_gsi_base + v) 0 16 (msi_routes vf.msix_shadow 0 (vectors vf))
            (omega arith)
          ∙ routes_of-msi_routes vf.msix_shadow v 0 (vectors vf) (omega arith) (omega (arith, h))),
)
