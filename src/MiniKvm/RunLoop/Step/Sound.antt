-- ===== src/MiniKvm/RunLoop/Step/Sound.antt =====
-- The event slot, the exit counters and the launch state across the iterations of the run loop.
use virtualization_learning.Base.{
  ℕ, ◌+◌, ◌≤◌, bit_and, refl, inl, ◌≡◌, ◌<◌, ◌^◌, length, List, [], ◌∷◌, arith, if-intro, u32,
}
use virtualization_learning.MiniKvm.{Errno, err, Vcpu}
use virtualization_learning.MiniKvm.Interrupt.{take_intr_info, complete_intr_info}
use virtualization_learning.MiniKvm.Interrupt.Slot.{IsEvent, slot-IsEvent}
use virtualization_learning.MiniKvm.RunLoop.{
  Entry, vm_fail, exited, Run, kvm_exit_internal_error, prepare_entry, enter,
}
use virtualization_learning.MiniKvm.RunLoop.Step.{
  Next, again, leave, leave_with, dispatch, is_entry_failure, note_exit, requeue, check_exit,
  iterate, and_then, run_entries,
}
pub use virtualization_learning.MiniKvm.RunLoop.Step.Counted.{dispatch-Counted}
use virtualization_learning.MiniKvm.RunLoop.Step.Counted.{by_kind}

-- The vCPU between iterations: its slot is empty or holds an event that VM entry accepts, and the
-- counters by kind do not exceed the count of all exits.
pub record IsSound (vcpu : Vcpu) : Type 0 where
  pub event : IsEvent vcpu.pending_intr_info
  pub counted : by_kind vcpu ≤ vcpu.n_exits

-- What an iteration leaves: the total grows by one at most.
abbrev Grown : Run → Next × Run → Type 0
Grown run r = IsSound r.1.machine.vcpu × (r.1.machine.vcpu.n_exits ≤ run.machine.vcpu.n_exits + 1)

-- The exit has been counted, and not yet by its kind.
dispatched :
    (reason : ℕ) (run : Run)
    → IsEvent run.machine.vcpu.pending_intr_info
    → by_kind run.machine.vcpu + 1 ≤ run.machine.vcpu.n_exits
    → IsSound (dispatch reason run).1.machine.vcpu
      × ((dispatch reason run).1.machine.vcpu.n_exits ≡ run.machine.vcpu.n_exits)
dispatched reason run event room =
    let d = dispatch-Counted reason run in
    (record { event = d.event event; counted = omega (arith, d.kinds, d.total, room) }, d.total)

check_exit-Grown :
    (run : Run)
    → run.machine.vcpu.n_exits + 1 < 2 ^ 64
    → IsSound run.machine.vcpu
    → Grown run (check_exit run)
unfolding check_exit complete_intr_info
check_exit-Grown run few v =
    let (sound, same) =
      dispatched (bit_and (u32 run.machine.vmcs.exit_reason) 0xffff) (requeue (note_exit run))
        ((slot-IsEvent run.machine.vcpu run.machine.vmcs 0 v.event).3)
        (omega (arith, v.counted, few)) in
    if-intro {A = Next × Run} (Grown run) (is_entry_failure run.machine.vmcs.exit_reason)
      {x = leave_with (err Errno.eio) kvm_exit_internal_error (note_exit run)}
      (record { event = v.event; counted = omega (arith, v.counted, few) }, omega (arith, few))
      (sound, omega (arith, same, few))

iterate-Grown :
    (entry : Entry) (run : Run)
    → run.machine.vcpu.n_exits + 1 < 2 ^ 64
    → IsSound run.machine.vcpu
    → Grown run (iterate entry run)
unfolding iterate enter prepare_entry take_intr_info
iterate-Grown vm_fail run few v = (record { event = inl refl; counted = v.counted }, omega arith)
iterate-Grown (exited regs vmcs gs launch_state) run few v =
    check_exit-Grown
      (enter (exited regs vmcs gs launch_state)
        (record run { machine = prepare_entry run.machine }))
      few record { event = inl refl; counted = v.counted }

-- While the 64-bit count of exits does not wrap, through any entries the slot stays empty or in
-- the form that VM entry accepts, and no counter of exits by kind, nor their sum, exceeds the
-- count of all exits.
pub run_entries-IsSound :
    (entries : List Entry) (run : Run)
    → run.machine.vcpu.n_exits + length entries < 2 ^ 64
    → IsSound run.machine.vcpu
    → IsSound (run_entries entries run).1.machine.vcpu
unfolding run_entries
run_entries-IsSound [] run few v = v
run_entries-IsSound (entry ∷ entries) run few v =
    let (v', grown) = iterate-Grown entry run (omega (arith, few)) v in
    either (iterate entry run) v' _
      (run_entries-IsSound entries (iterate entry run).1 (omega (arith, few, grown)) v')
  where
    either :
        (r : Next × Run)
        → IsSound r.1.machine.vcpu
        → (rest : Next × Run) → IsSound rest.1.machine.vcpu
        → IsSound (and_then r rest).1.machine.vcpu
    either (again, run') v' rest w = w
    either (leave s, run') v' rest w = v'
