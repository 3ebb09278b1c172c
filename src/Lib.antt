-- ===== src/Lib.antt =====
-- Two hypervisors of the capstone: the kernel module mini-kvm, in phase9-capstone/practice/mini-kvm/,
-- and the virtual machine monitor phase9-capstone/practice/minivmm.c, which runs on KVM.
--
-- Base has what all parts share: the C tests and the conditional, lists with native lengths, the
-- laws of the bit operations, and machine words with their wrap-around written out.
--
-- MiniKvm has the records of mini-kvm.h: the vCPU, the VMCS fields, the slot, the EPT, the serial
-- capture, and `Machine`, what one run of a vCPU works on.
--   MiniKvm/Interrupt: interrupt.c, the event slot (mini_vcpu_inject_irq, mini_vcpu_take_intr_info,
--     mini_vcpu_complete_intr_info, mini_vcpu_reinject_nmi).
--   MiniKvm/Device: device.c, mini_handle_io_exit and mini_serial_out.
--   MiniKvm/Ept: ept.c, mini_ept_init, mini_ept_walk, mini_ept_handle_violation, mini_ept_destroy.
--   MiniKvm/RunLoop: mini_vcpu_run_loop of vcpu.c, with mini_vmcs_clear of vmx.c; RunLoop/Step has
--     the exits and the loop, which calls the three parts above.
--   MiniKvm/Vmx: vmx.c, the negotiation of controls, the host and the guest state; Vmx/Setup has
--     mini_vcpu_vmx_setup and mini_vcpu_vmx_teardown.
--   MiniKvm/Module: main.c, the load and unload of the module with VMXON on each CPU.
--   MiniKvm/Lifecycle: registration of memory, creation and release of VMs and vCPUs in vcpu.c.
--   MiniKvm/Ioctl: the ioctls and mini_vcpu_mmap of vcpu.c, on top of the loop and the life cycle.
-- MiniVmm has the parts of minivmm.c.
--   MiniVmm/Serial: the 16550A (serial_write_reg, serial_read_reg, serial_recv_locked, serial_io).
--   MiniVmm/Virtio: guest memory, descriptor chains and the used ring (gpa2hva, gather_chain,
--     chain_read, push_used); Virtio/Mmio: the registers (virtio_mmio_read, virtio_mmio_write,
--     virtio_reset, handle_virtio_mmio); Virtio/Service: service_vq;
--     Virtio/Blk: blk_handle; Virtio/Console: con_in and console_handle; Virtio/Backend:
--     dev_can_consume and dev_handle, which compose the service with the two backends.
--   MiniVmm/Pci: configuration mechanism 1 (pci_config_io), the BARs and Message Control of the
--     passed-through device (pt_config_read, pt_config_write); Pci/Routes: the MSI-X routes
--     (msix_update_routes); Pci/Passthrough: the accesses to its BARs (handle_pt_mmio,
--     handle_bar0_legacy), its vectors (msix_setup_irqs) and what vfio_setup learns of it.
--   MiniVmm/IoPorts: the IO exits (handle_io), which compose the serial port, the configuration space
--     and the reset ports.
--   MiniVmm/RunLoop: run_loop, which composes all devices over the exits of the guest.
--   MiniVmm/Boot: the placement of the kernel and the initrd (load_bzimage), and mp_checksum.
--   MiniVmm/Cpuid: setup_cpuid. MiniVmm/MpTable: build_mptable.
-- The modules named Examples have the theorems at concrete inputs.
--
-- State is passed explicitly: an operation takes a record and returns its result and the next
-- record. A frame of host memory is a number and a page table is a function from an index to an
-- entry. What is not the program's is an argument: the page allocator is the list of its answers,
-- the processor a list of VM entries with what each leaves, a system call its result. Locks are
-- not modelled: each operation is taken to run alone, as the locks and the vCPU mutex make most of
-- them. The registration of memory takes no lock in the code: that no two calls of it overlap is
-- assumed. The counters of exits are words of 64 bits.
--
-- Loops recurse on structure: the EPT walk on the levels below, the run loop on the list of entries,
-- so a run is a prefix of what the guest does, and `gather_chain` on the rounds that its own
-- guard allows, one more than the size of the queue. `service_vq` has fuel of 65536 rounds, which is
-- more than its 16-bit index can be behind, and calls itself two deep at most, for the console that
-- serves its receive queue after a transmission. The run loop of minivmm recurses on the list of the
-- answers of KVM_RUN. Where the code would leave an array, an operation has no result.
--
-- Not modelled: the assembly of the entry and exit, and in minivmm.c the GDT and the segment registers,
-- the opening of VFIO devices, the slow path of MSI-X, eventfds for virtio and what is printed. They
-- are system calls, privileged instructions or tables of constants.
pub mod Base
pub mod MiniKvm
pub mod MiniVmm
