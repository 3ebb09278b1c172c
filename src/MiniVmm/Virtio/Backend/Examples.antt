-- ===== src/MiniVmm/Virtio/Backend/Examples.antt =====
-- The theorems on the console of minivmm.c at concrete inputs.
use virtualization_learning.Base.{
  ℕ, ◌^◌, ◌≡◌, refl, ◌⊎◌, false, Option, none, List, [], ◌∷◌, ◌++◌, arith, ◌==◌, if◌then◌else◌,
  drop, replicate,
}
use virtualization_learning.MiniVmm.Virtio.{Vq, Seg, gpa2hva, load}
use virtualization_learning.MiniVmm.Virtio.Mmio.{VirtioDev, vq_zero}
use virtualization_learning.MiniVmm.Virtio.Chain.{IsBytes}
use virtualization_learning.MiniVmm.Virtio.ChainRead.{chain_bytes}
use virtualization_learning.MiniVmm.Virtio.Service.Outcome.{queue, IsSetUp}
use virtualization_learning.MiniVmm.Virtio.Console.{ConIn, Backend, receive, console_handle}
use virtualization_learning.MiniVmm.Virtio.Console.Fifo.{Holds}
use virtualization_learning.MiniVmm.Virtio.Console.Receive.{scatter, receive-delivers}
use virtualization_learning.MiniVmm.Virtio.Backend.{service}
use virtualization_learning.MiniVmm.Virtio.Backend.Echo.{console_handle-echoes}

-- One chain is available for receiving: the index at 0x1002 is 1.
abbrev memory : ℕ → ℕ
memory a = if a == 0x1002 then 1 else 0

memory-IsBytes : IsBytes memory
memory-IsBytes a = ground arith

abbrev receiving : Vq
receiving = record {
  num = 1;
  desc = 0x2000;
  avail = 0x1000;
  used = 0x3000;
  ready = 1;
  last_avail_idx = 0;
}

abbrev console : VirtioDev
console = record {
  base = 0xd0000000;
  gsi = 5;
  device_id = 3;
  status = 4;
  int_status = 0;
  dev_features = 2 ^ 32;
  drv_features = 2 ^ 32;
  dev_feat_sel = 0;
  drv_feat_sel = 0;
  queue_sel = 1;
  nqueues = 2;
  vq = receiving ∷ vq_zero ∷ vq_zero ∷ vq_zero ∷ [];
  config = replicate 64 0;
  config_len = 12;
  irq_line = [];
}

console-IsSetUp : IsSetUp 0x10000 console 0 0x1002 0x1004
unfolding gpa2hva
console-IsSetUp = record {
  exists = refl;
  listed = omega arith;
  enabled = refl;
  idx_mapped = refl;
  ring_mapped = refl;
  index_bound = omega arith;
}

-- Two bytes of input wait.
abbrev two_bytes : ConIn
two_bytes = record { buf = λ i. if i == 0 then 0x41 else 0x42; head = 2; tail = 0 }

two_bytes-Holds : Holds two_bytes (0x41 ∷ 0x42 ∷ [])
two_bytes-Holds = record {
  head_bound = omega arith;
  tail_bound = omega arith;
  count = refl;
  room = omega arith;
  contents = refl;
}

abbrev idle : Backend
idle = record { con_in = two_bytes; stdout = []; writes = [] }

-- A segment of three bytes.
abbrev three_bytes : List Seg
three_bytes = record { hva = 0x4000; seg_len = 3; writable = false } ∷ []

no_pread : ℕ → ℕ → Option (List ℕ)
no_pread off len = none

no_pwrite : ℕ → List ℕ → Option ℕ
no_pwrite off bs = none

console_handle-echoes_example :
    let (used_len, mem', dev', be') =
      console_handle (service no_pread no_pwrite [] 0x10000 1) 1 three_bytes memory console idle in
    (be'.stdout ≡ [] ++ chain_bytes memory three_bytes)
    × (k : ℕ) × Holds be'.con_in (drop k ((0x41 ∷ 0x42 ∷ []) ++ chain_bytes memory three_bytes))
    × (((queue dev' 0).last_avail_idx ≡ load 2 memory 0x1002)
        ⊎ (drop k ((0x41 ∷ 0x42 ∷ []) ++ chain_bytes memory three_bytes) ≡ []))
console_handle-echoes_example =
    console_handle-echoes no_pread no_pwrite [] 0x10000 0 three_bytes memory console idle
      (0x41 ∷ 0x42 ∷ []) 0x1002 0x1004 memory-IsBytes refl console-IsSetUp two_bytes-Holds
      (omega arith)

receive-delivers_example :
    let (written', mem', c') = receive three_bytes memory two_bytes 0 in
    (written' ≡ 2)
    × (mem' ≡ scatter memory three_bytes (0x41 ∷ 0x42 ∷ []))
    × Holds c' (drop 3 (0x41 ∷ 0x42 ∷ []))
receive-delivers_example =
    receive-delivers three_bytes memory two_bytes (0x41 ∷ 0x42 ∷ []) 0 two_bytes-Holds (omega arith)
