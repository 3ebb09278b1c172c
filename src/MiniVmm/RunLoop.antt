-- ===== src/MiniVmm/RunLoop.antt =====
-- phase9-capstone/practice/minivmm.c: run_loop, with the signal handlers and the input thread,
-- without eventfds (the program's option -e).
--
-- What KVM_RUN gives is an argument: a list of rounds. A round has what happens beside the loop
-- between its test of `running` and the return of KVM_RUN, and the answer of KVM_RUN with the
-- memory as the guest left it. A character of the input thread is taken to arrive between two
-- exits. The ends by `DIE` keep no more than the fact.
pub mod Sound
pub mod Reset
mod Examples
use virtualization_learning.Base.{
  ℕ, zero, suc, ◌+◌, ◌-◌, Bool, true, false, not, Option, none, some, List, [], ◌∷◌, arith, ltb,
  if◌then◌else◌, set, get_or, replicate, u64,
}
use virtualization_learning.MiniVmm.Serial.{SerialState, recv}
use virtualization_learning.MiniVmm.Virtio.Mmio.{VirtioDev, Devices, MmioExit, handle_virtio_mmio}
use virtualization_learning.MiniVmm.Virtio.Console.{Backend}
use virtualization_learning.MiniVmm.Virtio.Backend.{service}
use virtualization_learning.MiniVmm.Pci.Passthrough.{
  Host, Passthrough, put_bytes, handle_pt_mmio, msix_setup_irqs,
}
use virtualization_learning.MiniVmm.IoPorts.{IoExit, handle_io}
use virtualization_learning.MiniVmm.IoPorts as IoPorts

-- The state of the program. `answer` is the data that the guest finds in `struct kvm_run`;
-- `dumps` has the exit counts that were printed, newest first.
pub record Vmm : Type 0 where
  pub serial : SerialState
  pub running : Bool
  pub pt : Passthrough
  pub virtio : Devices
  pub be : Backend
  pub mem : ℕ → ℕ
  pub answer : List ℕ
  pub exit_counts : List ℕ
  pub stats_requested : Bool
  pub dumps : List (List ℕ)

-- The exits that `run_loop` tells apart; an IO exit has its count and its data.
pub data Exit : Type 0 where
  io : IoExit → ℕ → List ℕ → Exit
  hlt : Exit
  mmio : MmioExit → Exit
  shutdown : Exit
  fail_entry : Exit
  internal_error : Exit
  other : ℕ → Exit

pub data Answer : Type 0 where
  eintr : Answer
  failed : Answer
  exited : (ℕ → ℕ) → Exit → Answer

-- SIGINT or SIGTERM, SIGUSR1, and a character of the input thread.
pub data Async : Type 0 where
  on_signal : Async
  on_stats : Async
  input : ℕ → Async

pub record Round : Type 0 where
  pub meanwhile : List Async
  pub answer : Answer

-- Why the loop ends: `running` is 0, the guest shut down, `DIE`, or a store outside an array.
pub data Ending : Type 0 where
  stopped shut_down died overrun : Ending

pub data Reaction : Type 0 where
  goes : Vmm → Reaction
  ends : Ending → Vmm → Reaction

-- `KVM_EXIT_*`
abbrev pub reason : Exit → ℕ
reason (io run count bytes) = 2
reason hlt = 5
reason (mmio run) = 6
reason shutdown = 8
reason fail_entry = 9
reason internal_error = 17
reason (other n) = n

pub happen : List Async → Vmm → Vmm
happen [] s = s
happen (on_signal ∷ rest) s = happen rest (record s { running = false })
happen (on_stats ∷ rest) s = happen rest (record s { stats_requested = true })
happen (input c ∷ rest) s = happen rest (record s { serial = recv c s.serial })

-- `dump_exit_stats`, if it was asked for.
pub dump_if_requested : Vmm → Vmm
dump_if_requested s =
    if s.stats_requested
    then record s { stats_requested = false; dumps = s.exit_counts ∷ s.dumps }
    else s

pub count_exit : ℕ → Vmm → Vmm
count_exit n s =
    if ltb n 64
    then record s { exit_counts = set s.exit_counts n (u64 (get_or s.exit_counts n 0 + 1)) }
    else s

-- `msix_setup_irqs`, as often as the configuration space called it.
rearm : Host → ℕ → Passthrough → Passthrough
rearm host zero d = d
rearm host (suc n) d = rearm host n (msix_setup_irqs host d)

after_io : Host → Vmm → List ℕ × IoPorts.Devices → Vmm
unfolding rearm
after_io host s (bytes, d) = record s {
  answer = bytes;
  serial = d.serial;
  running = d.running;
  pt = record (rearm host (d.vfio.armed - s.pt.vf.armed) s.pt) { vf = d.vfio };
}

-- Where no device has the address.
unhandled : MmioExit → Vmm → Vmm
unhandled run s = record s {
  answer = if run.is_write then run.bytes else put_bytes run.bytes 0 (replicate run.len 0);
}

after_pt : MmioExit → Vmm → Option (Bool × List ℕ × Passthrough) → Reaction
unfolding unhandled
after_pt run s none = ends overrun s
after_pt run s (some (true, bytes, pt)) = goes (record s { answer = bytes; pt = pt })
after_pt run s (some (false, bytes, pt)) = goes (unhandled run s)

module _ (pread : ℕ → ℕ → Option (List ℕ)) (pwrite : ℕ → List ℕ → Option ℕ) (stack : List ℕ)
    (mem_size : ℕ) (dev_read : ℕ → ℕ → Option ℕ) (host : Host) where
  -- A notification: two nested services are enough.
  notify : VirtioDev → ℕ → (ℕ → ℕ) × Backend → VirtioDev × ((ℕ → ℕ) × Backend)
  notify dev qi (mem, be) =
      let (dev', mem', be') = service pread pwrite stack mem_size 2 dev qi mem be in
      (dev', (mem', be'))

  mmio_exit : MmioExit → Vmm → Reaction
  unfolding notify after_pt
  mmio_exit run s =
      let (taken, bytes, devs, (mem', be')) =
        handle_virtio_mmio notify s.virtio run (s.mem, s.be) in
      if taken
      then goes (record s { answer = bytes; virtio = devs; mem = mem'; be = be' })
      else after_pt run s (handle_pt_mmio host run s.pt)

  -- The switch on the exit reason
  handle_exit : Exit → Vmm → Reaction
  unfolding mmio_exit after_io
  handle_exit (io run count bytes) s = goes (
      after_io host s (
        handle_io dev_read host.set_irqs_works run 0 count bytes
          (record { serial = s.serial; vfio = s.pt.vf; running = s.running })))
  handle_exit hlt s = goes s
  handle_exit (mmio run) s = mmio_exit run s
  handle_exit shutdown s = ends shut_down s
  handle_exit fail_entry s = ends died s
  handle_exit internal_error s = ends died s
  handle_exit (other n) s = goes s

  react : Answer → Vmm → Reaction
  unfolding handle_exit dump_if_requested count_exit
  react eintr s = goes (dump_if_requested s)
  react failed s = ends died s
  react (exited mem x) s =
      handle_exit x (dump_if_requested (count_exit (reason x) (record s { mem = mem })))

  -- `run_loop`: why it ended, if it did within these rounds, and the state.
  unfoldable pub run_loop : List Round → Vmm → Option Ending × Vmm
  unfolding react happen
  run_loop [] s = (none, s)
  run_loop (r ∷ rs) s =
      let round : Option Ending × Vmm = elim (react r.answer (happen r.meanwhile s)) [
        | goes s' ↦ run_loop rs s'
        | ends why s' ↦ (some why, s')
      ] in
      if not s.running then (some stopped, s) else round
