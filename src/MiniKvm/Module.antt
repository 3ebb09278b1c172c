-- ===== src/MiniKvm/Module.antt =====
-- phase9-capstone/practice/mini-kvm/main.c: the load and the unload of the kernel module, with
-- VMXON and VMXOFF on each CPU.
--
-- The list of CPUs has all possible CPUs in the order of `for_each_possible_cpu`. The calls of
-- `on_each_cpu` run on those that are online, one after the other; they share the error and the
-- counter, which are atomic, and no two of them are about the same CPU.
pub mod Restore
pub mod Alloc
pub mod Load
mod Examples
use virtualization_learning.Base.{
  ℕ, zero, suc, ◌+◌, ◌-◌, bit_and, bit_or, Bool, true, false, not, ◌&&◌, ◌||◌, Option, none, some,
  List, [], ◌∷◌, ◌++◌, arith, ◌==◌, nonzero, if◌then◌else◌, ◌<<<◌,
}
use virtualization_learning.MiniKvm.{Errno, ok, err, Status}

-- One CPU: what it has in hardware, its CR4.VMXE, and the per-CPU variables of main.c.
pub record PerCpu : Type 0 where
  pub online : Bool
  pub has_vmx : Bool
  pub feat_ctl : ℕ
  pub vmxon_fails : Bool
  pub vmxoff_fails : Bool
  pub vmxe : Bool
  pub in_operation : Bool
  pub vmxon_page : Option ℕ
  pub vmxon_done : Bool

-- `mk_global` and the counter, with the page allocator: `pages` has what its next calls return.
pub record Global : Type 0 where
  pub cpus : List PerCpu
  pub enable_err : Status
  pub enable_count : ℕ
  pub vmx_enabled : Bool
  pub pages : List (Option ℕ)
  pub allocated : List ℕ
  pub freed : List ℕ

-- `FEAT_CTL_LOCKED | FEAT_CTL_VMX_ENABLED_OUTSIDE_SMX`
abbrev pub feat_ctl_mask : ℕ
feat_ctl_mask = bit_or 1 4

-- `mini_cpu_vmx_supported`
unfoldable pub vmx_supported : PerCpu → Bool
vmx_supported c =
    if not c.has_vmx
    then false
    else if not (bit_and c.feat_ctl feat_ctl_mask == feat_ctl_mask)
    then false
    else true

-- `mini_vmx_enable_one` on one CPU, with the error and the counter.
unfoldable pub enable_one : PerCpu → Status → ℕ → PerCpu × Status × ℕ
enable_one c (err e) count = (c, err e, count)
enable_one c (ok u) count =
    if not (vmx_supported c)
    then (c, err Errno.enodev, count)
    else if c.vmxe
    then (c, err Errno.ebusy, count)
    else (let c1 = record c { vmxe = true } in
        if c1.vmxon_fails
        then (record c1 { vmxe = false }, err Errno.eio, count)
        else (record c1 { in_operation = true; vmxon_done = true }, ok tt, count + 1))

-- `mini_cpu_vmxoff`: a VMfail leaves the CPU in VMX operation.
vmxoff : PerCpu → PerCpu
vmxoff c = record c { in_operation = c.vmxoff_fails && c.in_operation }

-- `mini_vmx_disable_one`
unfoldable pub disable_one : PerCpu → ℕ → PerCpu × ℕ
unfolding vmxoff
disable_one c count =
    if not c.vmxon_done
    then (c, count)
    else (record (vmxoff c) { vmxe = false; vmxon_done = false }, count - 1)

-- `on_each_cpu(mini_vmx_enable_one)` and `on_each_cpu(mini_vmx_disable_one)`.
unfoldable pub enable_each : List PerCpu → Status → ℕ → List PerCpu × Status × ℕ
enable_each [] r count = ([], r, count)
enable_each (c ∷ cs) r count =
    let (c', r', count') = if c.online then enable_one c r count else (c, r, count) in
    let (cs', r'', count'') = enable_each cs r' count' in (c' ∷ cs', r'', count'')

unfoldable pub disable_each : List PerCpu → ℕ → List PerCpu × ℕ
disable_each [] count = ([], count)
disable_each (c ∷ cs) count =
    let (c', count') = if c.online then disable_one c count else (c, count) in
    let (cs', count'') = disable_each cs count' in (c' ∷ cs', count'')

-- `__free_page`
abbrev pub free_page : Option ℕ → List ℕ → List ℕ
free_page none freed = freed
free_page (some page) freed = page ∷ freed

-- The loops that free the VMXON page of each CPU.
unfoldable pub free_each : List PerCpu → List ℕ → List PerCpu × List ℕ
free_each [] freed = ([], freed)
free_each (c ∷ cs) freed =
    let (cs', freed') = free_each cs (free_page c.vmxon_page freed) in
    (record c { vmxon_page = none } ∷ cs', freed')

free_before : List PerCpu → List PerCpu → Global → Status × Global
free_before before cs g =
    let (before', freed) = free_each before g.freed in
    (err Errno.enomem, record g { cpus = before' ++ cs; freed = freed })

-- The loop that allocates a page for each CPU; `before` are the CPUs that have one already.
pub alloc_each : List PerCpu → List PerCpu → List (Option ℕ) → Global → Status × Global
unfolding free_before
alloc_each before [] pages g = (ok tt, record g { cpus = before; pages = pages })
alloc_each before (c ∷ cs) [] g = free_before before (c ∷ cs) (record g { pages = [] })
alloc_each before (c ∷ cs) (none ∷ pages) g =
    free_before before (c ∷ cs) (record g { pages = pages })
alloc_each before (c ∷ cs) (some page ∷ pages) g =
    alloc_each (before ++ record c { vmxon_page = some page } ∷ []) cs pages
      (record g { allocated = page ∷ g.allocated })

-- The rest of `mini_vmx_hardware_enable_all` by the error that the CPUs left.
settle : Status → Global → Status × Global
settle (ok u) g = (ok tt, record g { vmx_enabled = true })
settle (err e) g =
    let (off, count) = disable_each g.cpus g.enable_count in
    let (cpus, freed) = free_each off g.freed in
    (err e, record g { cpus = cpus; enable_count = count; freed = freed })

enter_vmx : Status × Global → Status × Global
unfolding settle
enter_vmx (err e, g) = (err e, g)
enter_vmx (ok u, g) =
    let (cpus, r, count) = enable_each g.cpus (ok tt) 0 in
    settle r (record g { cpus = cpus; enable_err = r; enable_count = count })

-- `mini_vmx_hardware_enable_all`
unfoldable pub hardware_enable_all : Global → Status × Global
unfolding alloc_each enter_vmx
hardware_enable_all g = enter_vmx (alloc_each [] g.cpus g.pages g)

-- `mini_vmx_hardware_disable_all`
unfoldable pub hardware_disable_all : Global → Global
hardware_disable_all g =
    if not g.vmx_enabled
    then g
    else (let (off, count) = disable_each g.cpus g.enable_count in
        let (cpus, freed) = free_each off g.freed in
        record g { cpus = cpus; enable_count = count; freed = freed; vmx_enabled = false })

-- The tests of `mini_vmx_read_capabilities` on the CPU that loads the module: `ept_vpid_cap` must
-- have 4-level walks, write-back memory and the INVEPT of all contexts.
unfoldable pub read_capabilities : PerCpu → ℕ → Status
read_capabilities c ept_vpid_cap =
    if not (vmx_supported c)
    then err Errno.enodev
    else if not (nonzero (bit_and ept_vpid_cap (1 <<< 6)))
        || (not (nonzero (bit_and ept_vpid_cap (1 <<< 14)))
            || not (nonzero (bit_and ept_vpid_cap (1 <<< 26))))
    then err Errno.enodev
    else ok tt

after_dev : Status → Global → Status × Global
after_dev (ok u) g = (ok tt, g)
after_dev (err e) g = (err e, hardware_disable_all g)

after_enable : Status → Status × Global → Status × Global
unfolding after_dev
after_enable dev (err e, g) = (err e, g)
after_enable dev (ok u, g) = after_dev dev g

with_capabilities : Status → Status → Global → Status × Global
unfolding after_enable
with_capabilities (err e) dev g = (err e, g)
with_capabilities (ok u) dev g = after_enable dev (hardware_enable_all g)

-- `mini_kvm_init`, on the CPU `here`, where `mini_vcpu_dev_init` ends as `dev`.
unfoldable pub module_init : PerCpu → ℕ → Status → Global → Status × Global
unfolding with_capabilities
module_init here ept_vpid_cap dev g = with_capabilities (read_capabilities here ept_vpid_cap) dev g

-- `mini_kvm_exit`, after `mini_vcpu_dev_exit`.
unfoldable pub module_exit : Global → Global
module_exit g = hardware_disable_all g
