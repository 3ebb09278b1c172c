-- ===== src/MiniKvm/Lifecycle/References.antt =====
-- The references to a VM of mini-kvm: what its file descriptors hold, and when it is released.
use virtualization_learning.Base.{
  ℕ, ◌+◌, ◌-◌, ◌<◌, ◌≡◌, refl, sym, ap, ◌⊎◌, inl, inr, false, not, Option, none, some, arith, ◌==◌,
  if-intro,
}
use virtualization_learning.MiniKvm.{Errno, Result, ok, err, Status}
use virtualization_learning.MiniKvm.Lifecycle.{
  Vm, put_ref, VcpuAnswers, free_vcpu, free_run_page, drop_vcpu, install_fd, publish_to,
  after_setup, with_object, create_vcpu,
}

-- A VM with one vCPU more
abbrev pub with_vcpu : ℕ → Vm → Vm
with_vcpu vcpu vm = record vm {
  refcount = vm.refcount + 1;
  vcpu = some vcpu;
  vcpu_objects = vm.vcpu_objects + 1;
  run_pages = vm.run_pages + 1;
  vmx_states = vm.vmx_states + 1;
}

-- What the creation of a vCPU ends in.
abbrev pub Created : VcpuAnswers → Vm → Result ℕ × Vm → Type 0
Created answers vm r =
    ((e : Errno) × (r ≡ (err e, vm)))
    ⊎ ((fd : ℕ) × (vcpu : ℕ) × (answers.object ≡ some vcpu)
        × (vm.vcpu ≡ none)
        × (r ≡ (ok fd, with_vcpu vcpu vm)))

add-sub_one : (n : ℕ) → n + 1 - 1 ≡ n
add-sub_one n = omega arith

positive : (n : ℕ) → 0 < n → (n == 0) ≡ false
positive n h = ground arith

module _ (answers : VcpuAnswers) (vm : Vm) (held : 0 < vm.refcount) (vcpu : ℕ)
    (object : answers.object ≡ some vcpu) where
  install_fd-Created :
      (fd : Result ℕ) → vm.vcpu ≡ none → Created answers vm (install_fd fd (with_vcpu vcpu vm))
  unfolding install_fd put_ref drop_vcpu
  install_fd-Created (ok fd) h = inr (fd, vcpu, object, h, refl)
  install_fd-Created (err e) h = inl (
    e,
    rw
        (
          add-sub_one vm.refcount,
          positive vm.refcount held,
          install_fd,
          add-sub_one vm.vcpu_objects,
          add-sub_one vm.run_pages,
          add-sub_one vm.vmx_states,
        )
        (ap (λ o. (err e, record vm { vcpu = o })) (sym h)),
  )

  publish_to-Created :
      (o : Option ℕ)
      → vm.vcpu ≡ o
      → Created answers vm
          (publish_to o vcpu answers.fd (record (with_vcpu vcpu vm) { vcpu = vm.vcpu }))
  unfolding publish_to put_ref drop_vcpu
  publish_to-Created none h = install_fd-Created answers.fd h
  publish_to-Created (some other) h = inl (
    Errno.eexist,
    rw
        (
          add-sub_one vm.refcount,
          positive vm.refcount held,
          publish_to,
          add-sub_one vm.vcpu_objects,
          add-sub_one vm.run_pages,
          add-sub_one vm.vmx_states,
        )
        refl,
  )

  after_setup-Created :
      (s : Status)
      → Created answers vm (
          after_setup s vcpu answers.fd
            (record vm { vcpu_objects = vm.vcpu_objects + 1; run_pages = vm.run_pages + 1 }))
  unfolding after_setup free_vcpu free_run_page
  after_setup-Created (ok u) = publish_to-Created vm.vcpu refl
  after_setup-Created (err e) =
      inl (e, rw (add-sub_one vm.vcpu_objects, add-sub_one vm.run_pages) refl)

with_object-Created :
    (answers : VcpuAnswers) (vm : Vm)
    → 0 < vm.refcount
    → (o : Option ℕ) → answers.object ≡ o
    → Created answers vm (with_object o answers vm)
unfolding with_object free_vcpu
with_object-Created answers vm held none h = inl (Errno.enomem, refl)
with_object-Created answers vm held (some vcpu) h =
    if-intro (Created answers vm) (not answers.run_page)
      (inl (Errno.enomem, rw (add-sub_one vm.vcpu_objects) refl))
      (after_setup-Created answers vm held vcpu h answers.setup)

-- The creation of a vCPU, all branches: it fails and leaves the VM exactly as it was, with every
-- object of the failed attempt given back, or it succeeds, and then the VM had no vCPU before and
-- has this one now, with one reference, object, run page and VMX state more. The VM is referenced
-- at the call.
pub create_vcpu-Created :
    (id : ℕ) (answers : VcpuAnswers) (vm : Vm)
    → 0 < vm.refcount
    → Created answers vm (create_vcpu id answers vm)
unfolding create_vcpu
create_vcpu-Created id answers vm held =
    if-intro (Created answers vm) (not (id == 0)) (inl (Errno.einval, refl)) (
      if-intro (Created answers vm) (not vm.slot.valid) (inl (Errno.einval, refl))
        (with_object-Created answers vm held answers.object refl))
