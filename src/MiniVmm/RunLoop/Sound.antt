-- ===== src/MiniVmm/RunLoop/Sound.antt =====
-- The devices of minivmm.c over a whole run of the loop.
pub mod Meanwhile
pub mod Layout
use virtualization_learning.MiniVmm.Virtio.Console.{Backend}
use virtualization_learning.MiniVmm.Pci.Passthrough.{Passthrough}
use virtualization_learning.MiniVmm.IoPorts as IoPorts
use virtualization_learning.MiniVmm.RunLoop.{Vmm, Reaction, goes, ends}
pub use virtualization_learning.MiniVmm.RunLoop.Sound.Meanwhile.{IsVmm}

-- Of a reaction, whether or not the loop ends.
OnReaction : (Vmm → Type 0) → Reaction → Type 0
OnReaction P (goes s) = P s
OnReaction P (ends why s) = P s
