-- ===== src/MiniVmm/Virtio.antt =====
-- phase9-capstone/practice/minivmm.c: the split virtqueues of the virtio-mmio devices.
--
-- Guest memory is a function from an address to a byte; it is mapped from guest address 0, so the
-- offset of a host address in the mapping is the guest address. `mem_size` is its size.
pub mod Chain
pub mod ChainRead
pub mod Mmio
pub mod Service
pub mod Blk
pub mod Console
pub mod Backend
use virtualization_learning.Base.{
  ℕ, zero, suc, ◌+◌, ◌-◌, ◌*◌, ◌/◌, ◌%◌, min, bit_and, Bool, not, ◌||◌, Option, none, some, List,
  [], ◌∷◌, ◌++◌, arith, ltb, leb, ◌==◌, nonzero, if◌then◌else◌, length, u16, u64,
}

-- `struct vring_desc`
pub record VringDesc : Type 0 where
  pub addr : ℕ
  pub len : ℕ
  pub flags : ℕ
  pub next : ℕ

-- `struct vq`
pub record Vq : Type 0 where
  pub num : ℕ
  pub desc : ℕ
  pub avail : ℕ
  pub used : ℕ
  pub ready : ℕ
  pub last_avail_idx : ℕ

-- `struct seg`
pub record Seg : Type 0 where
  pub hva : ℕ
  pub seg_len : ℕ
  pub writable : Bool

-- `VQ_MAX_SEGS`
abbrev pub vq_max_segs : ℕ
vq_max_segs = 64

-- `gpa2hva`: the sum has 64 bits.
unfoldable pub gpa2hva : ℕ → ℕ → ℕ → Option ℕ
gpa2hva mem_size gpa len =
    if ltb (u64 (gpa + len)) gpa || ltb mem_size (u64 (gpa + len)) then none else some gpa

-- A number of this many bytes in memory, the lowest first, and its bytes.
unfoldable pub load : ℕ → (ℕ → ℕ) → ℕ → ℕ
load zero mem at = 0
load (suc n) mem at = mem at + 256 * load n mem (at + 1)

unfoldable pub store_bytes : ℕ → (ℕ → ℕ) → ℕ → ℕ → ℕ → ℕ
store_bytes zero mem at val = mem
store_bytes (suc n) mem at val =
    let mem' = store_bytes n mem (at + 1) (val / 256) in λ i. if i == at then val % 256 else mem' i

load_desc : (ℕ → ℕ) → ℕ → VringDesc
unfolding load
load_desc mem at = record {
  addr = load 8 mem at;
  len = load 4 mem (at + 8);
  flags = load 2 mem (at + 12);
  next = load 2 mem (at + 14);
}

-- A segment goes to the end of those that there is room for.
add_seg : List Seg → Seg → List Seg
add_seg segs seg = if ltb (length segs) vq_max_segs then segs ++ seg ∷ [] else segs

collect : Option ℕ → VringDesc → List Seg → Option (List Seg)
unfolding add_seg
collect none d segs = none
collect (some hva) d segs =
    some
      (add_seg segs (record { hva = hva; seg_len = d.len; writable = nonzero (bit_and d.flags 2) }))

next_desc : Option (List Seg) → VringDesc → (List Seg → Option (List Seg)) → Option (List Seg)
next_desc none d rest = none
next_desc (some segs) d rest = if not (nonzero (bit_and d.flags 1)) then some segs else rest segs

-- The loop of `gather_chain`: the first number is how often `guard++ > vq->num` is still false.
unfoldable pub gather_from : ℕ → ℕ → (ℕ → ℕ) → ℕ → ℕ → ℕ → List Seg → Option (List Seg)
unfolding load_desc collect next_desc
gather_from zero mem_size mem dt num idx segs = none
gather_from (suc guard) mem_size mem dt num idx segs =
    let d = load_desc mem (dt + 16 * idx) in
    let rest : List Seg → Option (List Seg) = λ s. gather_from guard mem_size mem dt num d.next s in
    if leb num idx then none else next_desc (collect (gpa2hva mem_size d.addr d.len) d segs) d rest

from_table : Option ℕ → ℕ → (ℕ → ℕ) → ℕ → ℕ → Option (List Seg)
unfolding gather_from
from_table none mem_size mem num head = none
from_table (some dt) mem_size mem num head = gather_from (num + 1) mem_size mem dt num head []

-- `gather_chain`
unfoldable pub gather_chain : ℕ → (ℕ → ℕ) → Vq → ℕ → Option (List Seg)
unfolding from_table
gather_chain mem_size mem vq head =
    from_table (gpa2hva mem_size vq.desc (u64 (16 * vq.num))) mem_size mem vq.num head

-- The bytes at an address.
unfoldable pub bytes : (ℕ → ℕ) → ℕ → ℕ → List ℕ
bytes mem at zero = []
bytes mem at (suc n) = mem at ∷ bytes mem (at + 1) n

-- `chain_read`, for the bytes that it puts at `dst`.
unfoldable pub chain_read : (ℕ → ℕ) → List Seg → ℕ → ℕ → List ℕ
unfolding bytes
chain_read mem [] off len = []
chain_read mem (seg ∷ segs) off len =
    let taken = min (seg.seg_len - off) len in
    let skipped = chain_read mem segs (off - seg.seg_len) len in
    let rest = chain_read mem segs 0 (len - taken) in
    if len == 0
    then []
    else if leb seg.seg_len off
    then skipped
    else bytes mem (seg.hva + off) taken ++ rest

put_used : Option ℕ → Option ℕ → ℕ → ℕ → ℕ → (ℕ → ℕ) → ℕ → ℕ
unfolding load store_bytes
put_used (some used_idx) (some uring) num head len mem =
    let u = load 2 mem used_idx in
    let at = uring + 8 * (u % num) in
    store_bytes 2 (store_bytes 4 (store_bytes 4 mem at head) (at + 4) len) used_idx (u16 (u + 1))
put_used none uring num head len mem = mem
put_used (some used_idx) none num head len mem = mem

-- `push_used`
unfoldable pub push_used : ℕ → Vq → ℕ → ℕ → (ℕ → ℕ) → ℕ → ℕ
unfolding put_used
push_used mem_size vq head len mem =
    put_used (gpa2hva mem_size (u64 (vq.used + 2)) 2)
      (gpa2hva mem_size (u64 (vq.used + 4)) (u64 (8 * vq.num))) vq.num head len mem
