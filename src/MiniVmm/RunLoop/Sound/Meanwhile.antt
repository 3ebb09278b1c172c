-- ===== src/MiniVmm/RunLoop/Sound/Meanwhile.antt =====
-- The devices of minivmm.c over what happens outside an exit: signals, characters and statistics.
use virtualization_learning.Base.{
  ℕ, ◌+◌, ◌≡◌, ◌∙◌, true, false, List, [], ◌∷◌, ltb, if-intro, length, get_or, u64, length-set,
}
use virtualization_learning.MiniVmm.Serial.{recv}
use virtualization_learning.MiniVmm.Serial.Irq.{IsDriven, serial_io-IsDriven}
use virtualization_learning.MiniVmm.Virtio.Mmio.Shape.{SameShape}
use virtualization_learning.MiniVmm.RunLoop.{
  Vmm, Async, on_signal, on_stats, input, happen, dump_if_requested, count_exit,
}
use virtualization_learning.MiniVmm.RunLoop.Sound.Layout.{SameLayout}

-- The serial port's IRQ line and IIR tell the truth, and what each device is and the sizes of the
-- arrays are as in the state `s0`.
pub record IsVmm (s0 s : Vmm) : Type 0 where
  pub driven : IsDriven s.serial
  pub console : SameShape s0.virtio.console s.virtio.console
  pub blk : SameShape s0.virtio.blk s.virtio.blk
  pub layout : SameLayout s0.pt.vf s.pt.vf
  pub counts : length s.exit_counts ≡ length s0.exit_counts

pub happen-IsVmm : (s0 : Vmm) (es : List Async) (s : Vmm) → IsVmm s0 s → IsVmm s0 (happen es s)
unfolding happen
happen-IsVmm s0 [] s h = h
happen-IsVmm s0 (on_signal ∷ es) s h =
    happen-IsVmm s0 es (record s { running = false })
      (record {
        driven = h.driven;
        console = h.console;
        blk = h.blk;
        layout = h.layout;
        counts = h.counts;
      })
happen-IsVmm s0 (on_stats ∷ es) s h =
    happen-IsVmm s0 es (record s { stats_requested = true })
      (record {
        driven = h.driven;
        console = h.console;
        blk = h.blk;
        layout = h.layout;
        counts = h.counts;
      })
happen-IsVmm s0 (input c ∷ es) s h =
    happen-IsVmm s0 es (record s { serial = recv c s.serial })
      (record {
        driven = (serial_io-IsDriven s.serial h.driven).1 c;
        console = h.console;
        blk = h.blk;
        layout = h.layout;
        counts = h.counts;
      })

pub dump-IsVmm : (s0 s : Vmm) → IsVmm s0 s → IsVmm s0 (dump_if_requested s)
unfolding dump_if_requested
dump-IsVmm s0 s h =
    if-intro (IsVmm s0) s.stats_requested {y = s}
      (record {
        driven = h.driven;
        console = h.console;
        blk = h.blk;
        layout = h.layout;
        counts = h.counts;
      })
      h

pub count_exit-IsVmm : (s0 : Vmm) (n : ℕ) (s : Vmm) → IsVmm s0 s → IsVmm s0 (count_exit n s)
unfolding count_exit
count_exit-IsVmm s0 n s h =
    if-intro (IsVmm s0) (ltb n 64) {y = s}
      (record {
        driven = h.driven;
        console = h.console;
        blk = h.blk;
        layout = h.layout;
        counts = length-set s.exit_counts n (u64 (get_or s.exit_counts n 0 + 1)) ∙ h.counts;
      })
      h
