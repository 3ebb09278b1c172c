-- ===== src/MiniVmm/RunLoop/Reset.antt =====
-- A reset by the guest ends run_loop (minivmm.c).
use virtualization_learning.Base.{ℕ, ◌≡◌, refl, ◌∙◌, true, false, Option, some, List, ◌∷◌}
use virtualization_learning.MiniVmm.IoPorts as IoPorts
use virtualization_learning.MiniVmm.IoPorts.{IoExit, handle_io}
use virtualization_learning.MiniVmm.IoPorts.PowerOff.{Resets, handle_io-stops}
use virtualization_learning.MiniVmm.Pci.Passthrough.{Host}
use virtualization_learning.MiniVmm.RunLoop.{
  Vmm, io, exited, Round, stopped, happen, dump_if_requested, count_exit, after_io, handle_exit,
  react, run_loop,
}

-- While the loop is running, whatever signals and characters come meanwhile, an IO exit of one
-- element that writes 0xfe to port 0x64, or a value with bit 1 to port 0xcf9, is the last exit
-- that the loop handles: it ends at its next test of running.
pub run_loop-reset :
    (pread : ℕ → ℕ → Option (List ℕ)) (pwrite : ℕ → List ℕ → Option ℕ) (stack : List ℕ)
    (mem_size : ℕ) (dev_read : ℕ → ℕ → Option ℕ) (host : Host) (r next : Round)
    (rounds : List Round) (s : Vmm) (mem : ℕ → ℕ) (port val size : ℕ) (rest : List ℕ)
    → s.running ≡ true
    → r.answer
      ≡ exited mem (io (record { port = port; is_write = true; size = size }) 1 (val ∷ rest))
    → Resets port val
    → (s' : Vmm) × (run_loop pread pwrite stack mem_size dev_read host (r ∷ next ∷ rounds) s
        ≡ (some stopped, s'))
      × (s'.running ≡ false)
unfolding run_loop react handle_exit after_io
run_loop-reset pread pwrite stack mem_size dev_read host r next rounds s mem port val size rest up
      at resets =
    (s', first ∙ second, stops)
  where
    out : IoExit
    out = record { port = port; is_write = true; size = size }

    s1 : Vmm
    s1 = dump_if_requested (count_exit 2 (record (happen r.meanwhile s) { mem = mem }))

    d1 : IoPorts.Devices
    d1 = record { serial = s1.serial; vfio = s1.pt.vf; running = s1.running }

    s' : Vmm
    s' = after_io host s1 (handle_io dev_read host.set_irqs_works out 0 1 (val ∷ rest) d1)

    stops : s'.running ≡ false
    stops = handle_io-stops dev_read host.set_irqs_works port val size rest d1 resets

    first :
        run_loop pread pwrite stack mem_size dev_read host (r ∷ next ∷ rounds) s
        ≡ run_loop pread pwrite stack mem_size dev_read host (next ∷ rounds) s'
    first = rw (up, at, react) refl

    second :
        run_loop pread pwrite stack mem_size dev_read host (next ∷ rounds) s' ≡ (some stopped, s')
    second = rw stops refl
