-- ===== src/MiniKvm/Lifecycle/Release.antt =====
-- When a VM of mini-kvm is released: after any sequence of calls and closes, exactly when its last
-- file descriptor is closed.
pub mod Kept
use virtualization_learning.Base.{
  ℕ, ◌+◌, ◌<◌, ◌≡◌, refl, sym, ap, ◌∙◌, subst, ◌≢◌, inl, inr, Bool, true, false, Option, none, some,
  List, [], ◌∷◌, ◌++◌, arith, ◌==◌, nonzero, if◌then◌else◌, nonzero_of_ne, length,
}
use virtualization_learning.MiniKvm.{Result, ok, EptRoot, Host}
use virtualization_learning.MiniKvm.Lifecycle.{
  Vm, put_ref, VcpuAnswers, drop_vcpu, create_vcpu, is_vcpu, vcpu_release, vm_release, new_vm,
}
use virtualization_learning.MiniKvm.Lifecycle.References.{Created, create_vcpu-Created, with_vcpu}
use virtualization_learning.MiniKvm.Lifecycle.World.{
  World, Step, Steps, opened, held_by, vcpu_list, Sound, new_world,
}
use virtualization_learning.MiniKvm.Lifecycle.Release.Kept.{Put, put_ref-Put, set_memregion-Kept}

-- An open descriptor keeps the VM alive.
alive_of : {w : World} → Sound w → 0 < held_by w.vm_open + length w.fds → w.vm.live ≡ true
alive_of {w} s h = s.live ∙ nonzero_of_ne w.vm.refcount (λ e. omega (arith, s.refs, e, h))

held_open : (b : Bool) (n : ℕ) → b ≡ true → 0 < held_by b + n
held_open true n e = omega arith
held_open false n e = absurd (cc e)

only_one :
    (o : Option ℕ) (before : List ℕ) (vcpu : ℕ) (after : List ℕ)
    → before ++ vcpu ∷ after ≡ vcpu_list o
    → (before ++ after ≡ []) × (o ≡ some vcpu)
only_one none [] vcpu after h = absurd (cc h)
only_one none (b ∷ bs) vcpu after h = absurd (cc h)
only_one (some x) [] vcpu after h = (cc h, cc h)
only_one (some x) (b ∷ []) vcpu after h = absurd (cc h)
only_one (some x) (b ∷ c ∷ bs) vcpu after h = absurd (cc h)

creates-Sound :
    (w : World) (answers : VcpuAnswers) (r : Result ℕ × Vm)
    → Sound w
    → w.vm_open ≡ true
    → Created answers w.vm r
    → Sound (record w { vm = r.1; fds = opened answers.object r.0 w.fds })
creates-Sound w answers r s h (inl (e, same)) =
    subst (λ r. Sound (record w { vm = r.1; fds = opened answers.object r.0 w.fds })) (sym same) s
creates-Sound w answers r s h (inr (fd, vcpu, object, free, made)) =
    subst (λ r. Sound (record w { vm = r.1; fds = opened answers.object r.0 w.fds })) (sym made)
      (subst (λ o. Sound (record w { vm = with_vcpu vcpu w.vm; fds = opened o (ok fd) w.fds }))
        (sym object)
        record {
          refs = omega (arith, s.refs);
          one_vcpu = ap (λ l. vcpu ∷ l) (s.one_vcpu ∙ ap vcpu_list free);
          live = alive ∙ sym (nonzero_of_ne (w.vm.refcount + 1) (omega arith));
          objects = omega (arith, s.objects);
          run_pages = omega (arith, s.run_pages);
          vmx_states = omega (arith, s.vmx_states);
          pins = s.pins;
          released = λ d. absurd (cc (d, alive));
        })
  where
    alive : w.vm.live ≡ true
    alive = alive_of s (held_open w.vm_open (length w.fds) h)

some_open : (fds : List ℕ) → fds ≢ [] → 0 < length fds
some_open [] h = absurd (h refl)
some_open (x ∷ xs) h = omega arith

closes_vcpu-Sound :
    (w : World) (before : List ℕ) (vcpu : ℕ) (after : List ℕ)
    → Sound w
    → w.fds ≡ before ++ vcpu ∷ after
    → Sound (record w { vm = vcpu_release vcpu w.vm; fds = before ++ after })
unfolding vcpu_release is_vcpu drop_vcpu
closes_vcpu-Sound w before vcpu after s h =
    subst
      (λ b. Sound (record w {
        vm = put_ref (drop_vcpu (if b then record (w.vm) { vcpu = none } else w.vm));
        fds = before ++ after;
      }))
      (sym its_own)
      record {
        refs = omega (arith, p.refcount, s.refs, one, none_left);
        one_vcpu = no_fds ∙ sym (ap vcpu_list p.vcpu);
        live = p.live;
        objects = omega (arith, p.objects, s.objects, one, none_left);
        run_pages = omega (arith, p.run_pages, s.run_pages, one, none_left);
        vmx_states = omega (arith, p.vmx_states, s.vmx_states, one, none_left);
        pins = p.pins s.pins;
        released = p.released s.pins;
      }
  where
    shape : (before ++ after ≡ []) × (w.vm.vcpu ≡ some vcpu)
    shape = only_one w.vm.vcpu before vcpu after (sym h ∙ s.one_vcpu)

    no_fds : before ++ after ≡ []
    no_fds = shape.0

    none_left : length (before ++ after) ≡ 0
    none_left = ap length no_fds

    one : length w.fds ≡ 1
    one = ap length (s.one_vcpu ∙ ap vcpu_list shape.1)

    itself : (vcpu == vcpu) ≡ true
    itself = ground arith

    its_own : is_vcpu w.vm.vcpu vcpu ≡ true
    its_own = ap (λ o. is_vcpu o vcpu) shape.1 ∙ itself

    p :
        Put
          (drop_vcpu (record (w.vm) { vcpu = none }))
          (put_ref (drop_vcpu (record (w.vm) { vcpu = none })))
    p = put_ref-Put _ (alive_of s (omega (arith, one)))

closes_vm-Sound :
    (w : World)
    → Sound w
    → w.vm_open ≡ true
    → Sound (record w { vm = vm_release w.vm; vm_open = false })
unfolding vm_release
closes_vm-Sound w s h =
    let p = put_ref-Put w.vm (alive_of s (held_open w.vm_open (length w.fds) h)) in
    let one : held_by w.vm_open ≡ 1 = ap held_by h in
    record {
      refs = omega (arith, p.refcount, s.refs, one);
      one_vcpu = s.one_vcpu ∙ sym (ap vcpu_list p.vcpu);
      live = p.live;
      objects = p.objects ∙ s.objects;
      run_pages = p.run_pages ∙ s.run_pages;
      vmx_states = p.vmx_states ∙ s.vmx_states;
      pins = p.pins s.pins;
      released = p.released s.pins;
    }

-- Each thing that user space and the guest can do keeps this.
Step-Sound : {w w' : World} → Step w w' → Sound w → Sound w'
Step-Sound {w} (Step.registers region allocated pinned h) s =
    let k = set_memregion-Kept region allocated pinned w.vm in
    let alive = alive_of s (held_open w.vm_open (length w.fds) h) in
    record {
      refs = k.refcount ∙ s.refs;
      one_vcpu = s.one_vcpu ∙ sym (ap vcpu_list k.vcpu);
      live = k.live ∙ (s.live ∙ sym (ap nonzero k.refcount));
      objects = k.objects ∙ s.objects;
      run_pages = k.run_pages ∙ s.run_pages;
      vmx_states = k.vmx_states ∙ s.vmx_states;
      pins = k.pins s.pins;
      released = λ d. absurd (cc (d, k.live, alive));
    }
Step-Sound {w} (Step.creates id answers h) s =
    creates-Sound w answers (create_vcpu id answers w.vm) s h (
      create_vcpu-Created id answers w.vm
        (omega (arith, s.refs, held_open w.vm_open (length w.fds) h)))
Step-Sound {w} (Step.runs ept capture host h) s = record {
  refs = s.refs;
  one_vcpu = s.one_vcpu;
  live = s.live;
  objects = s.objects;
  run_pages = s.run_pages;
  vmx_states = s.vmx_states;
  pins = s.pins;
  released = λ d. absurd (cc (d, alive_of s (omega (arith, some_open w.fds h))));
}
Step-Sound {w} (Step.closes_vcpu before vcpu after h) s = closes_vcpu-Sound w before vcpu after s h
Step-Sound {w} (Step.closes_vm h) s = closes_vm-Sound w s h

-- After any calls, runs of the guest and closes, in any order, from a sound state: the reference
-- count is the number of open descriptors; there is one vCPU at most, and its objects exist
-- exactly while its descriptor is open; the VM is alive exactly while a descriptor is open; each
-- frame that was pinned for it is held by its slot or was unpinned, once; and for a VM that is
-- not alive every pin was given back, and its EPT has no root and no table in its list.
pub Steps-Sound : {w w' : World} → Steps w w' → Sound w → Sound w'
Steps-Sound Steps.done s = s
Steps-Sound (Steps.step steps last) s = Step-Sound last (Steps-Sound steps s)

pub new_world-Sound :
    (vm : Vm)
    → (host : Host) (ept : EptRoot) → vm ≡ record (new_vm host) { ept = ept }
    → Sound (new_world vm)
new_world-Sound vm host ept e =
    subst (λ v. Sound (new_world v)) (sym e)
      record {
        refs = refl;
        one_vcpu = refl;
        live = refl;
        objects = refl;
        run_pages = refl;
        vmx_states = refl;
        pins = refl;
        released = λ d. absurd (cc d);
      }
