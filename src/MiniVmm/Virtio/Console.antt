-- ===== src/MiniVmm/Virtio/Console.antt =====
-- phase9-capstone/practice/minivmm.c: the console backend, `con_in` and `console_handle`.
--
-- `stdout` is what the console wrote there, oldest first. The service of the receive queue, which a
-- transmission runs, is an argument.
pub mod Fifo
pub mod Receive
use virtualization_learning.Base.{
  ℕ, zero, suc, ◌+◌, ◌-◌, ◌%◌, ◌^◌, Bool, true, false, Option, none, some, List, [], ◌∷◌, ◌++◌,
  arith, ◌==◌, if◌then◌else◌, u32,
}
use virtualization_learning.MiniVmm.Virtio.{Seg, bytes}
use virtualization_learning.MiniVmm.Virtio.Mmio.{VirtioDev}
use virtualization_learning.MiniVmm.Virtio.Blk.{write_byte}

-- `CON_IN_SZ`
abbrev pub con_in_sz : ℕ
con_in_sz = 8192

-- `con_in`: the counters run free; `buf` gives the byte of an index below `CON_IN_SZ`.
pub record ConIn : Type 0 where
  pub buf : ℕ → ℕ
  pub head : ℕ
  pub tail : ℕ

-- `con_in_push`
unfoldable pub con_in_push : List ℕ → ConIn → ConIn
unfolding write_byte
con_in_push [] c = c
con_in_push (b ∷ bs) c =
    con_in_push bs
      (record c { buf = write_byte c.buf (c.head % con_in_sz) b; head = u32 (c.head + 1) })

-- `con_in_pop`: the byte, if there is one.
unfoldable pub con_in_pop : ConIn → Option (ℕ × ConIn)
con_in_pop c =
    if c.tail == c.head
    then none
    else some (c.buf (c.tail % con_in_sz), record c { tail = u32 (c.tail + 1) })

-- `con_in_count`
unfoldable pub con_in_count : ConIn → ℕ
con_in_count c = u32 (c.head + 2 ^ 32 - c.tail)

-- What the two devices keep beside their registers: the input and output of the console, and the
-- writes to the file of the block device, newest first.
pub record Backend : Type 0 where
  pub con_in : ConIn
  pub stdout : List ℕ
  pub writes : List (ℕ × List ℕ)

-- The loop over one segment: whether the input ran out, `written`, the memory and the input.
fill_segment : ℕ → ℕ → (ℕ → ℕ) → ConIn → ℕ → Bool × ℕ × (ℕ → ℕ) × ConIn
unfolding con_in_pop write_byte
fill_segment zero at mem c written = (false, written, mem, c)
fill_segment (suc n) at mem c written = elim (con_in_pop c) [
  | none ↦ (true, written, mem, c)
  | some (b, c') ↦ fill_segment n (at + 1) (write_byte mem at b) c' (u32 (written + 1))
]

-- The receive half of `console_handle`
unfoldable pub receive : List Seg → (ℕ → ℕ) → ConIn → ℕ → ℕ × (ℕ → ℕ) × ConIn
unfolding fill_segment
receive [] mem c written = (written, mem, c)
receive (seg ∷ segs) mem c written =
    let (empty, written', mem', c') = fill_segment seg.seg_len seg.hva mem c written in
    let rest = receive segs mem' c' written' in if empty then (written', mem', c') else rest

-- The loop of the transmit half: each segment goes to `stdout` and back as input.
unfoldable pub transmit : List Seg → (ℕ → ℕ) → Backend → Backend
unfolding con_in_push bytes
transmit [] mem be = be
transmit (seg ∷ segs) mem be =
    let sent = bytes mem seg.hva seg.seg_len in
    transmit segs mem
      (record be { con_in = con_in_push sent be.con_in; stdout = be.stdout ++ sent })

received : VirtioDev → Backend → ℕ × (ℕ → ℕ) × ConIn → ℕ × (ℕ → ℕ) × VirtioDev × Backend
received dev be (written, mem, c) = (written, mem, dev, record be { con_in = c })

-- `console_handle`: the length for the used ring, the memory, the device and the console.
unfoldable pub console_handle :
    (VirtioDev → ℕ → (ℕ → ℕ) → Backend → VirtioDev × (ℕ → ℕ) × Backend)
    → ℕ
    → List Seg
    → (ℕ → ℕ)
    → VirtioDev
    → Backend
    → ℕ × (ℕ → ℕ) × VirtioDev × Backend
unfolding received
console_handle service qi segs mem dev be =
    if qi == 1
    then (let (dev', mem', be') = service dev 0 mem (transmit segs mem be) in (0, mem', dev', be'))
    else received dev be (receive segs mem be.con_in 0)
