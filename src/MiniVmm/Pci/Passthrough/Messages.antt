-- ===== src/MiniVmm/Pci/Passthrough/Messages.antt =====
-- The routes that msix_update_routes of minivmm.c makes of two MSI-X tables with the same messages.
use virtualization_learning.Base.{
  ℕ, zero, suc, ◌+◌, ◌*◌, ◌%◌, ◌≤◌, ◌<◌, ◌≡◌, refl, ◌∙◌, ◌≢◌, ◌⊎◌, inl, inr, List, [], ◌∷◌, arith,
  length, set, get_or, get_or-set_ne,
}
use virtualization_learning.MiniVmm.Pci.{Vfio}
use virtualization_learning.MiniVmm.Pci.Routes.{
  load32, is_programmed, msi_routes, vectors, update_routes,
}
use virtualization_learning.MiniVmm.Pci.Passthrough.{put_bytes}

pub put_bytes-ne :
    (bs xs : List ℕ) (at i : ℕ)
    → (i < at) ⊎ (at + length bs ≤ i)
    → get_or (put_bytes xs at bs) i 0 ≡ get_or xs i 0
unfolding put_bytes
put_bytes-ne [] xs at i h = refl
put_bytes-ne (b ∷ bs) xs at i h =
    put_bytes-ne bs (set xs at b) (suc at) i (later h) ∙ get_or-set_ne xs b 0 (apart h)
  where
    later : (i < at) ⊎ (at + suc (length bs) ≤ i) → (i < suc at) ⊎ (suc at + length bs ≤ i)
    later (inl l) = inl (omega (arith, l))
    later (inr r) = inr (omega (arith, r))

    apart : (i < at) ⊎ (at + suc (length bs) ≤ i) → at ≢ i
    apart (inl l) e = omega (arith, l, e)
    apart (inr r) e = omega (arith, r, e)

-- Two tables that differ in control words only.
abbrev pub SameMessages : List ℕ → List ℕ → Type 0
SameMessages s s' = (i : ℕ) → i % 16 < 12 → get_or s i 0 ≡ get_or s' i 0

load32-same :
    (s s' : List ℕ) (at : ℕ) → SameMessages s s' → at % 16 < 9 → load32 s at ≡ load32 s' at
load32-same s s' at h k = omega (
  arith,
  h at (omega arith),
  h (at + 1) (omega arith),
  h (at + 2) (omega arith),
  h (at + 3) (omega arith),
)

msi_routes-same :
    (s s' : List ℕ) (v n : ℕ) → SameMessages s s' → msi_routes s v n ≡ msi_routes s' v n
unfolding msi_routes is_programmed
msi_routes-same s s' v zero h = refl
msi_routes-same s s' v (suc n) h =
    rw
      (
        load32-same s s' (v * 16) h (omega arith),
        load32-same s s' (v * 16 + 4) h (omega arith),
        load32-same s s' (v * 16 + 8) h (omega arith),
        msi_routes-same s s' (suc v) n h,
      )
      refl

pub update_routes-same :
    (vf : Vfio) (s' : List ℕ)
    → SameMessages vf.msix_shadow s'
    → update_routes vf ≡ update_routes (record vf { msix_shadow = s' })
unfolding update_routes
update_routes-same vf s' h = rw (msi_routes-same vf.msix_shadow s' 0 (vectors vf) h) refl
