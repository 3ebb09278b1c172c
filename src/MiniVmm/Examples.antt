-- ===== src/MiniVmm/Examples.antt =====
-- The theorems about minivmm at concrete inputs.
use virtualization_learning.Base.{
  ℕ, ◌+◌, ◌^◌, ◌≡◌, refl, ◌⊎◌, Bool, true, false, some, List, [], ◌∷◌, arith, replicate, ◌==◌,
  if◌then◌else◌, take, drop,
}
use virtualization_learning.MiniVmm.Serial.{serial_init, serial_io, recv}
use virtualization_learning.MiniVmm.Serial.Irq.{IsDriven, serial_init-IsDriven, serial_io-IsDriven}
use virtualization_learning.MiniVmm.Serial.{write_reg, read_reg, test}
use virtualization_learning.MiniVmm.Serial.Fifo.{Holds, push, serial_init-Holds}
use virtualization_learning.MiniVmm.Serial.Fifo.Writes.{queue_write, queue_read}
use virtualization_learning.MiniVmm.Serial.Fifo.Reads.{port-Holds}
use virtualization_learning.MiniVmm.Serial.Fifo.Delivery.{
  recv_all, read_all, Unlatched, read_all-recv_all,
}
use virtualization_learning.MiniVmm.Virtio.{
  Vq, Seg, gpa2hva, load, gather_from, gather_chain, chain_read,
}
use virtualization_learning.Base.{length, length-replicate, Option, none, inr, sym, subst, ◌≤◌}
use virtualization_learning.MiniVmm.Virtio.Blk.{blk_handle}
use virtualization_learning.MiniVmm.Virtio.Blk.Contained.{IsPread, blk_handle-Outside}
use virtualization_learning.MiniVmm.Virtio.Chain.{IsBytes, IsGathered, gather_chain-IsGathered}
use virtualization_learning.MiniVmm.Virtio.ChainRead.{chain_bytes, chain_read_lem}
use virtualization_learning.MiniVmm.Virtio.Service.{Progress, drain, drain-caught_up}
use virtualization_learning.MiniVmm.Virtio.Mmio.{VirtioDev, vq_zero}

-- The guest sends the byte 0x41 on COM1, and then the host sends one.
serial_io-IsDriven_example :
    ((port : ℕ) (is_write : Bool) (val : ℕ)
      → IsDriven (serial_io port is_write val (recv 0x41 serial_init)).2)
    × ((c : ℕ) → IsDriven (recv c (recv 0x41 serial_init)))
serial_io-IsDriven_example =
    serial_io-IsDriven (recv 0x41 serial_init)
      ((serial_io-IsDriven serial_init serial_init-IsDriven).1 0x41)

-- One character waits, and the guest and the host go on.
port-Holds_example :
    ((c : ℕ) → Holds (recv c (recv 0x41 serial_init)) (push c (0x41 ∷ [])))
    × ((reg val : ℕ)
        → Holds
            (write_reg reg val (recv 0x41 serial_init))
            (queue_write reg val (recv 0x41 serial_init) (0x41 ∷ [])))
    × ((reg : ℕ)
        → Holds
            (read_reg reg (recv 0x41 serial_init)).1
            (queue_read reg (recv 0x41 serial_init) (0x41 ∷ [])))
    × (test (recv 0x41 serial_init).lcr 0x80 ≡ false
        → (read_reg 0 (recv 0x41 serial_init)).0 ≡ 0x41)
port-Holds_example =
    port-Holds (recv 0x41 serial_init) (0x41 ∷ [])
      ((port-Holds serial_init [] serial_init-Holds).0 0x41)

serial_init-Unlatched : Unlatched serial_init
unfolding serial_init
serial_init-Unlatched = refl

read_all-recv_all_example :
    read_all 3 (recv_all (0x41 ∷ 0x0a ∷ 0x42 ∷ []) serial_init) ≡ 0x41 ∷ 0x0a ∷ 0x42 ∷ []
read_all-recv_all_example =
    read_all-recv_all serial_init [] (0x41 ∷ 0x0a ∷ 0x42 ∷ []) serial_init-Holds (omega arith)
      serial_init-Unlatched

-- A table of one descriptor at 0x100: 16 bytes at 0x200 for the device to write, and no next.
abbrev memory : ℕ → ℕ
memory n = if n == 0x101 then 2 else if n == 0x108 then 16 else if n == 0x10c then 2 else 0

memory-IsBytes : IsBytes memory
memory-IsBytes n = ground arith

abbrev vq_small : Vq
vq_small = record { num = 1; desc = 0x100; avail = 0; used = 0; ready = 1; last_avail_idx = 0 }

gathered :
    gather_chain 4096 memory vq_small 0
    ≡ some (record { hva = 0x200; seg_len = 16; writable = true } ∷ [])
unfolding gather_chain gather_from gpa2hva load
gathered = refl

gather_chain-IsGathered_example :
    IsGathered 4096 (record { hva = 0x200; seg_len = 16; writable = true } ∷ [])
gather_chain-IsGathered_example =
    gather_chain-IsGathered 4096 memory vq_small 0
      (record { hva = 0x200; seg_len = 16; writable = true } ∷ []) memory-IsBytes gathered

abbrev dev_two_queues : VirtioDev
dev_two_queues = record {
  base = 0xd0000000;
  gsi = 5;
  device_id = 3;
  status = 0;
  int_status = 0;
  dev_features = 2 ^ 32;
  drv_features = 0;
  dev_feat_sel = 0;
  drv_feat_sel = 0;
  queue_sel = 1;
  nqueues = 2;
  vq = replicate 4 vq_zero;
  config = replicate 64 0;
  config_len = 12;
  irq_line = [];
}

-- A header of 16 bytes that is cut after 10, at an offset of 4.
abbrev cut_segs : List Seg
cut_segs =
    record { hva = 0x100; seg_len = 10; writable = false }
    ∷ record { hva = 0x300; seg_len = 6; writable = false }
    ∷ []

chain_read_lem_example :
    chain_read memory cut_segs 4 12 ≡ take 12 (drop 4 (chain_bytes memory cut_segs))
chain_read_lem_example = chain_read_lem memory cut_segs 4 12

-- Two chains behind, across the wrap-around of the index.
abbrev at_wrap : Progress ℕ
at_wrap = record { mem = memory; dev = dev_two_queues; state = 0; last = 65535; did = false }

abbrev count_chain : List Seg → (ℕ → ℕ) → VirtioDev → ℕ → ℕ × (ℕ → ℕ) × VirtioDev × ℕ
count_chain segs mem dev n = (0, mem, dev, n + 1)

drain-caught_up_example :
    let p' = drain (λ dev n. true) count_chain 4096 2 vq_small 4 1 at_wrap in
    (p'.last ≡ 1) ⊎ (true ≡ false)
drain-caught_up_example =
    drain-caught_up (λ dev n. true) count_chain 4096 2 vq_small 4 1 at_wrap (omega arith)
      (omega arith) (omega arith)

-- A file of zeros that is always read whole.
abbrev zeros : ℕ → ℕ → Option (List ℕ)
zeros off len = some (replicate len 0)

zeros-IsPread : IsPread zeros
zeros-IsPread off len bs e =
    subst (λ r. length (either r) ≤ len) e
      (subst (λ n. n ≤ len) (sym (length-replicate {A = ℕ} len 0)) (omega arith))
  where
    either : Option (List ℕ) → List ℕ
    either none = []
    either (some bs) = bs

-- A header at 0x200, two segments of data and a status byte at 0x500; the address 0x500 is next
-- to the data.
abbrev read_chain : List Seg
read_chain =
    record { hva = 0x200; seg_len = 16; writable = false }
    ∷ record { hva = 0x300; seg_len = 256; writable = true }
    ∷ record { hva = 0x400; seg_len = 256; writable = true }
    ∷ record { hva = 0x600; seg_len = 1; writable = true }
    ∷ []

blk_handle-Outside_example :
    let (used_len, mem', writes') =
      blk_handle zeros (λ off bs. some (length bs)) [] read_chain memory [] in
    (mem' 0x500 ≡ memory 0x500) × (used_len ≤ 513)
blk_handle-Outside_example =
    blk_handle-Outside zeros (λ off bs. some (length bs)) zeros-IsPread [] read_chain memory []
      0x500 (inr (omega arith), (inr (omega arith), tt)) (λ e. omega (arith, e))
