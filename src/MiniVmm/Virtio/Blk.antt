-- ===== src/MiniVmm/Virtio/Blk.antt =====
-- phase9-capstone/practice/minivmm.c: the block backend, `blk_handle`.
--
-- The file behind the device is a parameter: `pread` gives the bytes that it read at an offset,
-- at most as many as asked for, or fails; `pwrite` gives the number of bytes that it wrote, or
-- fails. `stack` is what the 16 bytes of the header hold where the chain is too short to fill
-- them.
pub mod Contained
use virtualization_learning.Base.{
  ℕ, zero, suc, ◌+◌, ◌-◌, ◌*◌, Bool, true, false, Option, none, some, List, [], ◌∷◌, ◌++◌, map,
  arith, ltb, ◌==◌, if◌then◌else◌, length, get_or, take, drop, u32, u64,
}
use virtualization_learning.MiniVmm.Virtio.{Seg, bytes, chain_read}

-- The request types and the status codes of virtio-blk
abbrev pub blk_t_in : ℕ
blk_t_in = 0

abbrev pub blk_t_out : ℕ
blk_t_out = 1

abbrev pub blk_t_flush : ℕ
blk_t_flush = 4

abbrev pub blk_s_ok : ℕ
blk_s_ok = 0

abbrev pub blk_s_ioerr : ℕ
blk_s_ioerr = 1

abbrev pub blk_s_unsupp : ℕ
blk_s_unsupp = 2

-- A store of bytes, and of one.
unfoldable pub write_bytes : (ℕ → ℕ) → ℕ → List ℕ → ℕ → ℕ
write_bytes mem at [] = mem
write_bytes mem at (b ∷ bs) = write_bytes (λ a. if a == at then b else mem a) (at + 1) bs

unfoldable pub write_byte : (ℕ → ℕ) → ℕ → ℕ → ℕ → ℕ
write_byte mem at b a = if a == at then b else mem a

-- A little-endian number of `n` bytes of the header.
number : List ℕ → ℕ → ℕ → ℕ
number hdr at zero = 0
number hdr at (suc n) = get_or hdr at 0 + number hdr (at + 1) n * 256

read_data : Option (List ℕ) → List ℕ
read_data none = []
read_data (some bs) = bs

count : Option ℕ → ℕ
count none = 0
count (some n) = n

is_none : {A : Type 0} → Option A → Bool
is_none none = true
is_none (some a) = false

module _ (pread : ℕ → ℕ → Option (List ℕ)) (pwrite : ℕ → List ℕ → Option ℕ) where
  -- The loop of VIRTIO_BLK_T_IN: the number of bytes, whether it failed, and the memory.
  read_segs : List Seg → ℕ → ℕ → (ℕ → ℕ) → ℕ × Bool × (ℕ → ℕ)
  unfolding write_bytes read_data is_none
  read_segs [] off total mem = (total, false, mem)
  read_segs (seg ∷ segs) off total mem =
      let r = pread off seg.seg_len in
      let n = length (read_data r) in
      let mem' = write_bytes mem seg.hva (read_data r) in
      let rest = read_segs segs (u64 (off + n)) (u32 (total + n)) mem' in
      if is_none r
      then (total, true, mem)
      else if ltb n seg.seg_len
      then (u32 (total + n), false, mem')
      else rest

  -- The loop of VIRTIO_BLK_T_OUT: whether it failed, and the writes to the file, newest first.
  write_segs : List Seg → ℕ → (ℕ → ℕ) → List (ℕ × List ℕ) → Bool × List (ℕ × List ℕ)
  unfolding count is_none
  write_segs [] off mem writes = (false, writes)
  write_segs (seg ∷ segs) off mem writes =
      let data_ = bytes mem seg.hva seg.seg_len in
      let w = pwrite off data_ in
      let writes' = (off, take (count w) data_) ∷ writes in
      let rest = write_segs segs (u64 (off + count w)) mem writes' in
      if is_none w
      then (true, writes)
      else if ltb (count w) seg.seg_len
      then (false, writes')
      else rest

  -- The header: what the chain holds, and what is left of the stack where it is too short.
  header : (ℕ → ℕ) → List Seg → List ℕ → List ℕ
  header mem segs stack = let got = chain_read mem segs 0 16 in got ++ drop (length got) stack

  -- `VIRTIO_BLK_S_IOERR` after a failure
  with_status : Bool → ℕ → (ℕ → ℕ) → ℕ → ℕ
  unfolding write_byte
  with_status failed status mem = if failed then write_byte mem status blk_s_ioerr else mem

  -- The request, with the status byte set to `VIRTIO_BLK_S_OK`.
  request : ℕ → ℕ → List Seg → ℕ → (ℕ → ℕ) → List (ℕ × List ℕ) → ℕ × (ℕ → ℕ) × List (ℕ × List ℕ)
  unfolding read_segs write_segs with_status write_byte
  request type off middle status mem writes =
      if type == blk_t_in
      then (let (total, failed, mem') = read_segs middle off 0 mem in
          (u32 (total + 1), with_status failed status mem', writes))
      else if type == blk_t_out
      then (let (failed, writes') = write_segs middle off mem writes in
          (1, with_status failed status mem, writes'))
      else if type == blk_t_flush
      then (1, mem, writes)
      else (1, write_byte mem status blk_s_unsupp, writes)

  -- `blk_handle`: the length for the used ring, the memory and the writes to the file.
  unfoldable pub blk_handle :
      List ℕ → List Seg → (ℕ → ℕ) → List (ℕ × List ℕ) → ℕ × (ℕ → ℕ) × List (ℕ × List ℕ)
  unfolding request header number write_byte
  blk_handle stack segs mem writes =
      if ltb (length segs) 2
      then (0, mem, writes)
      else (let hdr = header mem segs stack in
          let last = length segs - 1 in
          let status = get_or (map (λ (s : Seg). s.hva) segs) last 0 in
          request (number hdr 0 4) (u64 (number hdr 8 8 * 512)) (take (last - 1) (drop 1 segs))
            status (write_byte mem status blk_s_ok) writes)
