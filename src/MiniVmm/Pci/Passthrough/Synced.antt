-- ===== src/MiniVmm/Pci/Passthrough/Synced.antt =====
-- The routes of KVM follow the MSI-X table that the guest sees (minivmm.c).
use virtualization_learning.Base.{
  ℕ, ◌+◌, ◌*◌, ◌≡◌, refl, ◌⊎◌, Bool, false, Option, none, some, List, if-intro,
}
use virtualization_learning.MiniVmm.Pci.Routes.{update_routes}
use virtualization_learning.MiniVmm.Pci.Passthrough.{Host, Passthrough, forward_ctrl, taken}

-- Once the interrupts are set up, the routes that KVM has are those of the table.
abbrev pub IsSynced : Passthrough → Type 0
IsSynced d = (d.vf.msix_routing_done ≡ false) ⊎ (d.routes ≡ update_routes d.vf)

pub forward_ctrl-vf :
    (host : Host) (vec : ℕ) (d : Passthrough) → (forward_ctrl host vec d).vf ≡ d.vf
unfolding forward_ctrl
forward_ctrl-vf host vec d =
    if-intro (λ (x : Passthrough). x.vf ≡ d.vf)
      (host.accepts d.msix_table_bar (d.msix_table_off + vec * 16 + 12)) {y = d} refl refl

-- What the access leaves; where it has no result, the state before.
abbrev pub state_after {ℓ} : {A : Type ℓ} → Passthrough → Option (A × Passthrough) → Passthrough
state_after d none = d
state_after d (some (a, d')) = d'

abbrev pub left_by : Passthrough → Option (Bool × List ℕ × Passthrough) → Passthrough
left_by d none = d
left_by d (some (taken, bytes, d')) = d'
