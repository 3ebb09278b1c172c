-- ===== src/MiniVmm.antt =====
-- phase9-capstone/practice/minivmm.c: a virtual machine monitor on KVM.
pub mod Serial
pub mod Virtio
pub mod Pci
pub mod IoPorts
pub mod RunLoop
pub mod Boot
pub mod Cpuid
pub mod MpTable
mod Examples
