-- ===== src/MiniVmm/Virtio/Blk/Contained.antt =====
-- What a request to the block device changes in guest memory.
use virtualization_learning.Base.{
  ℕ, suc, ◌+◌, ◌-◌, ◌*◌, ◌≤◌, ◌<◌, ◌≡◌, refl, ap, ◌∙◌, ◌≢◌, ◌⊎◌, inl, inr, Bool, true, false,
  Option, none, some, List, [], ◌∷◌, map, arith, ltb, ◌==◌, if◌then◌else◌, if-intro, length, get_or,
  take, drop, u32, u64,
}
use virtualization_learning.MiniVmm.Virtio.{Seg}
use virtualization_learning.MiniVmm.Virtio.Blk.{
  blk_t_in, blk_t_out, blk_t_flush, blk_s_ok, blk_s_ioerr, blk_s_unsupp, write_bytes, write_byte,
  number, read_data, is_none, read_segs, write_segs, with_status, header, request, blk_handle,
}

-- An address that no segment has.
abbrev pub Outside : List Seg → ℕ → Type 0
Outside [] a = Unit
Outside (s ∷ ss) a = ((a < s.hva) ⊎ (s.hva + s.seg_len ≤ a)) × Outside ss a

abbrev pub total_len : List Seg → ℕ
total_len [] = 0
total_len (s ∷ ss) = s.seg_len + total_len ss

-- The segments between the header and the status, and the address of the status.
abbrev pub data_segs : List Seg → List Seg
data_segs segs = take (length segs - 1 - 1) (drop 1 segs)

abbrev pub status_address : List Seg → ℕ
status_address segs = get_or (map (λ (s : Seg). s.hva) segs) (length segs - 1) 0

-- `pread` gives at most as many bytes as it is asked for.
abbrev pub IsPread : (ℕ → ℕ → Option (List ℕ)) → Type 0
IsPread pread = (off len : ℕ) (bs : List ℕ) → pread off len ≡ some bs → length bs ≤ len

write_bytes-Outside :
    (bs : List ℕ) (mem : ℕ → ℕ) (at a : ℕ)
    → (a < at) ⊎ (at + length bs ≤ a)
    → write_bytes mem at bs a ≡ mem a
unfolding write_bytes
write_bytes-Outside [] mem at a h = refl
write_bytes-Outside (b ∷ bs) mem at a h =
    write_bytes-Outside bs (λ i. if i == at then b else mem i) (at + 1) a (later h)
    ∙ ap (λ c. if c then b else mem a) (other h)
  where
    later : (a < at) ⊎ (at + suc (length bs) ≤ a) → (a < at + 1) ⊎ (at + 1 + length bs ≤ a)
    later (inl l) = inl (omega (arith, l))
    later (inr r) = inr (omega (arith, r))

    other : (a < at) ⊎ (at + suc (length bs) ≤ a) → (a == at) ≡ false
    other (inl l) = ground (arith, l)
    other (inr r) = ground (arith, r)

write_byte-Outside : (mem : ℕ → ℕ) (at b a : ℕ) → a ≢ at → write_byte mem at b a ≡ mem a
unfolding write_byte
write_byte-Outside mem at b a h = ap (λ c. if c then b else mem a) other
  where
    other : (a == at) ≡ false
    other = ground (arith, h)

module _ (pread : ℕ → ℕ → Option (List ℕ)) (pwrite : ℕ → List ℕ → Option ℕ)
    (reads : IsPread pread) where
  read_data-length : (off len : ℕ) → length (read_data (pread off len)) ≤ len
  unfolding read_data
  read_data-length off len = by_result (pread off len) refl
    where
      by_result : (r : Option (List ℕ)) → pread off len ≡ r → length (read_data r) ≤ len
      by_result none e = omega arith
      by_result (some bs) e = reads off len bs e

  -- The loop changes only the segments that it reads into, and counts at most their bytes.
  read_segs-Outside :
      (segs : List Seg) (off total : ℕ) (mem : ℕ → ℕ) (a : ℕ)
      → Outside segs a
      → let (total', failed, mem') = read_segs pread pwrite segs off total mem in
        (mem' a ≡ mem a) × (total' ≤ total + total_len segs)
  unfolding read_segs
  read_segs-Outside [] off total mem a h = (refl, omega arith)
  read_segs-Outside (seg ∷ segs) off total mem a (h, hs) =
      let r = pread off seg.seg_len in
      let n = length (read_data r) in
      let few = read_data-length off seg.seg_len in
      let mem' = write_bytes mem seg.hva (read_data r) in
      let (kept, counted) = read_segs-Outside segs (u64 (off + n)) (u32 (total + n)) mem' a hs in
      let same =
        write_bytes-Outside (read_data r) mem seg.hva a
          (elim h [ inl l ↦ inl l | inr k ↦ inr (omega (arith, k, few)) ]) in
      if-intro P (is_none r) {x = (total, true, mem)} (refl, omega arith)
        (if-intro P (ltb n seg.seg_len) {x = (u32 (total + n), false, mem')}
          (same, omega (arith, few)) (kept ∙ same, omega (arith, few, counted)))
    where
      P : ℕ × Bool × (ℕ → ℕ) → Type 0
      P t = (t.2 a ≡ mem a) × (t.0 ≤ total + (seg.seg_len + total_len segs))

  with_status-Outside :
      (failed : Bool) (status : ℕ) (mem : ℕ → ℕ) (a : ℕ)
      → a ≢ status
      → with_status pread pwrite failed status mem a ≡ mem a
  unfolding with_status
  with_status-Outside true status mem a h = write_byte-Outside mem status blk_s_ioerr a h
  with_status-Outside false status mem a h = refl

  request-Outside :
      (type off : ℕ) (middle : List Seg) (status : ℕ) (mem : ℕ → ℕ) (writes : List (ℕ × List ℕ))
      (a : ℕ)
      → Outside middle a
      → a ≢ status
      → let (used_len, mem', writes') = request pread pwrite type off middle status mem writes in
        (mem' a ≡ mem a) × (used_len ≤ total_len middle + 1)
  unfolding request
  request-Outside type off middle status mem writes a h k =
      let (total, failed, mem1) = read_segs pread pwrite middle off 0 mem in
      let (failed_write, writes1) = write_segs pread pwrite middle off mem writes in
      let (kept, counted) = read_segs-Outside middle off 0 mem a h in
      if-intro P (type == blk_t_in)
        {x = (u32 (total + 1), with_status pread pwrite failed status mem1, writes)}
        (with_status-Outside failed status mem1 a k ∙ kept, omega (arith, counted))
        (if-intro P (type == blk_t_out)
          {x = (1, with_status pread pwrite failed_write status mem, writes1)}
          (with_status-Outside failed_write status mem a k, omega arith)
          (if-intro P (type == blk_t_flush) {x = (1, mem, writes)}
            {y = (1, write_byte mem status blk_s_unsupp, writes)} (refl, omega arith)
            (write_byte-Outside mem status blk_s_unsupp a k, omega arith)))
    where
      P : ℕ × (ℕ → ℕ) × List (ℕ × List ℕ) → Type 0
      P t = (t.1 a ≡ mem a) × (t.0 ≤ total_len middle + 1)

  -- A request changes guest memory only in the segments between the header and the status and at
  -- the first address of the last segment, whatever the guest asked for, and gives a length for
  -- the used ring of at most the bytes of these segments and one; a request of fewer than two
  -- segments changes nothing.
  pub blk_handle-Outside :
      (stack : List ℕ) (segs : List Seg) (mem : ℕ → ℕ) (writes : List (ℕ × List ℕ)) (a : ℕ)
      → Outside (data_segs segs) a
      → a ≢ status_address segs
      → let (used_len, mem', writes') = blk_handle pread pwrite stack segs mem writes in
        (mem' a ≡ mem a) × (used_len ≤ total_len (data_segs segs) + 1)
  unfolding blk_handle
  blk_handle-Outside stack segs mem writes a h k =
      let hdr = header pread pwrite mem segs stack in
      let status = status_address segs in
      let mem1 = write_byte mem status blk_s_ok in
      let (kept, counted) =
        request-Outside (number hdr 0 4) (u64 (number hdr 8 8 * 512)) (data_segs segs) status mem1
          writes a h k in
      if-intro P (ltb (length segs) 2) {x = (0, mem, writes)} (refl, omega arith)
        (kept ∙ write_byte-Outside mem status blk_s_ok a k, counted)
    where
      P : ℕ × (ℕ → ℕ) × List (ℕ × List ℕ) → Type 0
      P t = (t.1 a ≡ mem a) × (t.0 ≤ total_len (data_segs segs) + 1)
