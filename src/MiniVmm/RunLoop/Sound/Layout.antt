-- ===== src/MiniVmm/RunLoop/Sound/Layout.antt =====
-- What is fixed of the passed-through device of minivmm.c over a run of the loop.
use virtualization_learning.Base.{◌≡◌, refl, ap, ◌∙◌, length}
use virtualization_learning.MiniVmm.Pci.{Vfio}
use virtualization_learning.MiniVmm.Pci.Access.{IsKept}
use virtualization_learning.MiniVmm.Pci.Passthrough.Layout.{SameVf}

-- What is fixed of the passed-through device.
pub record SameLayout (vf vf' : Vfio) : Type 0 where
  pub sizes : vf'.bar_size ≡ vf.bar_size
  pub types : vf'.bar_type ≡ vf.bar_type
  pub wide : vf'.bar_is64 ≡ vf.bar_is64
  pub bars : length vf'.bar_val ≡ length vf.bar_val
  pub capability : vf'.msix_cap ≡ vf.msix_cap
  pub vectors : vf'.msix_nr ≡ vf.msix_nr
  pub table : length vf'.msix_shadow ≡ length vf.msix_shadow

pub SameLayout-refl : (vf : Vfio) → SameLayout vf vf
SameLayout-refl vf = record {
  sizes = refl;
  types = refl;
  wide = refl;
  bars = refl;
  capability = refl;
  vectors = refl;
  table = refl;
}

pub SameLayout-trans : (a b c : Vfio) → SameLayout a b → SameLayout b c → SameLayout a c
SameLayout-trans a b c p q = record {
  sizes = q.sizes ∙ p.sizes;
  types = q.types ∙ p.types;
  wide = q.wide ∙ p.wide;
  bars = q.bars ∙ p.bars;
  capability = q.capability ∙ p.capability;
  vectors = q.vectors ∙ p.vectors;
  table = q.table ∙ p.table;
}

pub kept-layout : (vf vf' : Vfio) → IsKept vf vf' → SameLayout vf vf'
kept-layout vf vf' k = record {
  sizes = k.sizes;
  types = k.types;
  wide = k.wide;
  bars = k.bars;
  capability = k.capability;
  vectors = k.vectors;
  table = ap length k.table;
}

pub same-layout : (vf vf' : Vfio) → SameVf vf vf' → SameLayout vf vf'
same-layout vf vf' k = record {
  sizes = ap (λ (v : Vfio). v.bar_size) k.rest;
  types = ap (λ (v : Vfio). v.bar_type) k.rest;
  wide = ap (λ (v : Vfio). v.bar_is64) k.rest;
  bars = ap (λ (v : Vfio). length v.bar_val) k.rest;
  capability = ap (λ (v : Vfio). v.msix_cap) k.rest;
  vectors = ap (λ (v : Vfio). v.msix_nr) k.rest;
  table = k.table;
}
