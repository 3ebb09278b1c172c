-- ===== src/MiniVmm/RunLoop/Examples.antt =====
-- The theorems on run_loop of minivmm.c at concrete inputs.
use virtualization_learning.Base.{
  ℕ, ◌+◌, ◌^◌, ◌≡◌, refl, inl, true, false, Option, none, some, List, [], ◌∷◌, replicate,
}
use virtualization_learning.MiniVmm.Serial.{serial_init}
use virtualization_learning.MiniVmm.Virtio.Mmio.{VirtioDev, vq_zero}
use virtualization_learning.MiniVmm.Pci.Passthrough.{Host}
use virtualization_learning.MiniVmm.Pci.Passthrough.Discovery.{discover}
use virtualization_learning.MiniVmm.RunLoop.{
  Vmm, io, mmio, exited, input, on_stats, Round, stopped, run_loop,
}
use virtualization_learning.MiniVmm.RunLoop.Reset.{run_loop-reset}

abbrev device : ℕ → ℕ → VirtioDev
device base id = record {
  base = base;
  gsi = 5;
  device_id = id;
  status = 0;
  int_status = 0;
  dev_features = 2 ^ 32;
  drv_features = 0;
  dev_feat_sel = 0;
  drv_feat_sel = 0;
  queue_sel = 0;
  nqueues = 1;
  vq = replicate 4 vq_zero;
  config = replicate 64 0;
  config_len = 8;
  irq_line = [];
}

abbrev host : Host
host = record {
  region_read = λ b off len. replicate len 0;
  accepts = λ b off. true;
  eventfd = λ v. some (10 + v);
  irqfd_works = λ gsi. true;
  routing_works = true;
  set_irqs_works = true;
  msix_slowpath = false;
}

-- The program before the first entry.
abbrev vmm : Vmm
vmm = record {
  serial = serial_init;
  running = true;
  pt = discover (λ at. 0) (λ b. 0);
  virtio = record { console = device 0xd0000000 3; blk = device 0xd0000200 2 };
  be = record { con_in = record { buf = λ i. 0; head = 0; tail = 0 }; stdout = []; writes = [] };
  mem = λ a. 0;
  answer = replicate 8 0;
  exit_counts = replicate 64 0;
  stats_requested = false;
  dumps = [];
}

no_pread : ℕ → ℕ → Option (List ℕ)
no_pread off len = none

no_pwrite : ℕ → List ℕ → Option ℕ
no_pwrite off bs = none

no_device : ℕ → ℕ → Option ℕ
no_device reg len = none

-- A character comes and the guest notifies queue 0 of the console; then it resets the machine.
abbrev notified : Round
notified = record {
  meanwhile = input 0x41 ∷ [];
  answer =
      exited (λ a. 0)
        (mmio (record { phys_addr = 0xd0000050; len = 4; is_write = true; bytes = replicate 8 0 }));
}

abbrev reset_round : Round
reset_round = record {
  meanwhile = on_stats ∷ [];
  answer = exited (λ a. 0) (io (record { port = 0x64; is_write = true; size = 1 }) 1 (0xfe ∷ []));
}

run_loop-reset_example :
    (s' : Vmm) × (run_loop no_pread no_pwrite [] 0x10000 no_device host
        (reset_round ∷ notified ∷ [])
        vmm
      ≡ (some stopped, s'))
    × (s'.running ≡ false)
run_loop-reset_example =
    run_loop-reset no_pread no_pwrite [] 0x10000 no_device host reset_round notified [] vmm (λ a. 0)
      0x64 0xfe 1 [] refl refl (inl (refl, refl))
