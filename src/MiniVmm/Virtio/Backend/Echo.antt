-- ===== src/MiniVmm/Virtio/Backend/Echo.antt =====
-- The echo of the console (minivmm.c): what the driver transmits comes back as input.
use virtualization_learning.Base.{
  ℕ, suc, ◌+◌, ◌≤◌, ◌<◌, ◌≡◌, refl, sym, ap, ◌∙◌, subst, ◌⊎◌, inl, inr, Bool, true, false, Option,
  List, [], ◌∷◌, ◌++◌, arith, ltb, ◌==◌, ==_iff, length, drop, length-append,
}
use virtualization_learning.MiniVmm.Virtio.{Seg, load, bytes}
use virtualization_learning.MiniVmm.Virtio.Mmio.{VirtioDev}
use virtualization_learning.MiniVmm.Virtio.Chain.{IsBytes, load-lt}
use virtualization_learning.MiniVmm.Virtio.ChainRead.{chain_bytes, length-bytes}
use virtualization_learning.MiniVmm.Virtio.Blk.Contained.{total_len}
use virtualization_learning.MiniVmm.Virtio.Service.{
  Progress, drain, service_vq, finish_service, behind, drain-caught_up,
}
use virtualization_learning.MiniVmm.Virtio.Service.Outcome.{
  queue, IsSetUp, drain-keeps, start, service_vq-IsSetUp, finish_service-last, finish_service-state,
}
use virtualization_learning.MiniVmm.Virtio.Console.{
  con_in_sz, Backend, con_in_push, con_in_count, receive, transmit, console_handle,
}
use virtualization_learning.MiniVmm.Virtio.Console.Fifo.{
  Holds, con_in_push-Holds, con_in_count-Holds,
}
use virtualization_learning.MiniVmm.Virtio.Console.Receive.{drop-drop, receive-delivers}
use virtualization_learning.MiniVmm.Virtio.Backend.{
  id_console, dev_can_consume, dev_handle, service,
}

length-chain_bytes :
    (mem : ℕ → ℕ) (segs : List Seg) → length (chain_bytes mem segs) ≡ total_len segs
length-chain_bytes mem [] = refl
length-chain_bytes mem (seg ∷ segs) = omega (
  arith,
  length-append (bytes mem seg.hva seg.seg_len) (chain_bytes mem segs),
  length-bytes mem seg.hva seg.seg_len,
  length-chain_bytes mem segs,
)

append_assoc : (xs ys zs : List ℕ) → (xs ++ ys) ++ zs ≡ xs ++ (ys ++ zs)
append_assoc [] ys zs = refl
append_assoc (x ∷ xs) ys zs = ap (◌∷◌ x) (append_assoc xs ys zs)

append_nil : (xs : List ℕ) → xs ++ [] ≡ xs
append_nil [] = refl
append_nil (x ∷ xs) = ap (◌∷◌ x) (append_nil xs)

-- A transmission that fits goes to the output and to the end of the input.
transmit-Holds :
    (segs : List Seg) (mem : ℕ → ℕ) (be : Backend) (q : List ℕ)
    → Holds be.con_in q
    → length q + total_len segs ≤ con_in_sz
    → ((transmit segs mem be).stdout ≡ be.stdout ++ chain_bytes mem segs)
      × Holds (transmit segs mem be).con_in (q ++ chain_bytes mem segs)
unfolding transmit
transmit-Holds [] mem be q h fits =
    (sym (append_nil be.stdout), subst (Holds be.con_in) (sym (append_nil q)) h)
transmit-Holds (seg ∷ segs) mem be q h fits =
    let sent = bytes mem seg.hva seg.seg_len in
    let be' : Backend = record be {
      con_in = con_in_push sent be.con_in;
      stdout = be.stdout ++ sent;
    } in
    let long = length-bytes mem seg.hva seg.seg_len in
    let (out, left) =
      transmit-Holds segs mem be' (q ++ sent)
        (con_in_push-Holds sent be.con_in q h (omega (arith, long, fits)))
        (omega (arith, long, fits, length-append q sent)) in
    (
      out ∙ append_assoc be.stdout sent (chain_bytes mem segs),
      subst (Holds (transmit segs mem be').con_in) (append_assoc q sent (chain_bytes mem segs))
          left,
    )

-- The registers are as they were, nothing was written, and the input is what is left of `q`.
abbrev IsRest : VirtioDev → List ℕ → List ℕ → VirtioDev → Backend → Type 0
IsRest dev out q d be = (d ≡ dev) × (be.stdout ≡ out) × ((k : ℕ) × Holds be.con_in (drop k q))

-- The console leaves a chain alone only where there is no input.
idle-empty :
    (dev d : VirtioDev) (be : Backend) (q : List ℕ)
    → dev.device_id ≡ id_console
    → d ≡ dev
    → Holds be.con_in q
    → dev_can_consume 0 d be ≡ false
    → q ≡ []
unfolding dev_can_consume
idle-empty dev d be q console same h c = nothing q counted
  where
    is_console : (d.device_id == id_console) ≡ true
    is_console =
        (==_iff d.device_id id_console).1 (ap (λ (v : VirtioDev). v.device_id) same ∙ console)

    asked : ltb 0 (con_in_count be.con_in) ≡ false
    asked = rw is_console at c

    counted : length q ≡ 0
    counted = ground (arith, asked, con_in_count-Holds be.con_in q h)

    nothing : (xs : List ℕ) → length xs ≡ 0 → xs ≡ []
    nothing [] e = refl
    nothing (x ∷ xs) e = absurd (omega (arith, e))

module _ (pread : ℕ → ℕ → Option (List ℕ)) (pwrite : ℕ → List ℕ → Option ℕ) (stack : List ℕ)
    (mem_size : ℕ) where
  receive-IsRest :
      (depth : ℕ) (dev : VirtioDev) (out q : List ℕ)
      → dev.device_id ≡ id_console
      → (segs : List Seg) (mem : ℕ → ℕ) (d : VirtioDev) (be : Backend) → IsRest dev out q d be
      → let (used_len, mem', d', be') =
          dev_handle pread pwrite stack mem_size
            (service pread pwrite stack mem_size depth)
            0
            segs
            mem
            d
            be in
        IsRest dev out q d' be'
  unfolding dev_handle console_handle
  receive-IsRest depth dev out q console segs mem d be (same, written, (k, h)) =
      let is_console : (d.device_id == id_console) ≡ true =
        (==_iff d.device_id id_console).1 (ap (λ (v : VirtioDev). v.device_id) same ∙ console) in
      let short : length (drop k q) ≤ con_in_sz = h.room in
      let (w, m, h') = receive-delivers segs mem be.con_in (drop k q) 0 h (omega (arith, short)) in
      rw is_console (
        same,
        written,
        (
          k + total_len segs,
          subst (Holds (receive segs mem be.con_in 0).2) (drop-drop k (total_len segs) q) h',
        ),
      )

  -- The service of the receive queue takes bytes from the front of the input, and goes on while
  -- there is input and a chain that the driver has made available.
  service-IsRest :
      (depth : ℕ) (dev : VirtioDev) (mem : ℕ → ℕ) (be : Backend) (q : List ℕ) (idx_at ring : ℕ)
      → IsBytes mem
      → dev.device_id ≡ id_console
      → IsSetUp mem_size dev 0 idx_at ring
      → Holds be.con_in q
      → let (dev', mem', be') = service pread pwrite stack mem_size (suc depth) dev 0 mem be in
        (be'.stdout ≡ be.stdout)
        × (k : ℕ) × Holds be'.con_in (drop k q)
        × (((queue dev' 0).last_avail_idx ≡ load 2 mem idx_at) ⊎ (drop k q ≡ []))
  unfolding service
  service-IsRest depth dev mem be q idx_at ring byte console ready h =
      subst (λ r. Outcome r) (sym served)
        (end after
          (drain-keeps can handle mem_size (IsRest dev be.stdout q)
            (receive-IsRest depth dev be.stdout q console) 65536 (queue dev 0) ring
            (load 2 mem idx_at) begin (refl, refl, (0, h)))
          (drain-caught_up can handle mem_size 65536 (queue dev 0) ring (load 2 mem idx_at) begin
            (load-lt mem byte 2 idx_at) ready.index_bound
            (below (load 2 mem idx_at) (queue dev 0).last_avail_idx)))
    where
      can : VirtioDev → Backend → Bool
      can = dev_can_consume 0

      handle : List Seg → (ℕ → ℕ) → VirtioDev → Backend → ℕ × (ℕ → ℕ) × VirtioDev × Backend
      handle = dev_handle pread pwrite stack mem_size (service pread pwrite stack mem_size depth) 0

      begin : Progress Backend
      begin = start can handle mem_size dev 0 mem be

      after : Progress Backend
      after = drain can handle mem_size 65536 (queue dev 0) ring (load 2 mem idx_at) begin

      Outcome : VirtioDev × (ℕ → ℕ) × Backend → Type 0
      Outcome r =
          (r.2.stdout ≡ be.stdout)
          × (k : ℕ) × Holds r.2.con_in (drop k q)
          × (((queue r.0 0).last_avail_idx ≡ load 2 mem idx_at) ⊎ (drop k q ≡ []))

      served :
          service_vq can handle mem_size dev 0 mem be ≡ finish_service can handle mem_size 0 after
      served = service_vq-IsSetUp can handle mem_size dev 0 mem be idx_at ring ready

      below : (idx last : ℕ) → behind can handle mem_size idx last ≤ 65536
      below idx last = omega arith

      end :
          (p : Progress Backend)
          → IsRest dev be.stdout q p.dev p.state
          → (p.last ≡ load 2 mem idx_at) ⊎ (can p.dev p.state ≡ false)
          → Outcome (finish_service can handle mem_size 0 p)
      end p (same, written, (k, left)) caught =
          let state = finish_service-state can handle mem_size 0 p in
          let listed : 0 < length p.dev.vq =
            subst (λ (d : VirtioDev). 0 < length d.vq) (sym same) ready.listed in
          (
            ap (λ (b : Backend). b.stdout) state ∙ written,
            k,
            subst (λ (b : Backend). Holds b.con_in (drop k q)) (sym state) left,
            elim caught [
              | inl e ↦ inl (finish_service-last can handle mem_size 0 p listed ∙ e)
              | inr c ↦ inr (idle-empty dev p.dev p.state (drop k q) console same left c)
            ],
          )

  -- On a console whose receive queue is set up and whose input holds the queue `q`: a
  -- transmission of the driver that fits the input beside `q` goes to the output, and after it
  -- the input is what is left of `q` followed by the transmitted bytes; either nothing is left,
  -- or every chain that the driver had made available for receiving was looked at.
  pub console_handle-echoes :
      (depth : ℕ) (segs : List Seg) (mem : ℕ → ℕ) (dev : VirtioDev) (be : Backend) (q : List ℕ)
      (idx_at ring : ℕ)
      → IsBytes mem
      → dev.device_id ≡ id_console
      → IsSetUp mem_size dev 0 idx_at ring
      → Holds be.con_in q
      → length q + total_len segs ≤ con_in_sz
      → let (used_len, mem', dev', be') =
          console_handle (service pread pwrite stack mem_size (suc depth)) 1 segs mem dev be in
        (be'.stdout ≡ be.stdout ++ chain_bytes mem segs)
        × (k : ℕ) × Holds be'.con_in (drop k (q ++ chain_bytes mem segs))
        × (((queue dev' 0).last_avail_idx ≡ load 2 mem idx_at)
            ⊎ (drop k (q ++ chain_bytes mem segs) ≡ []))
  unfolding console_handle
  console_handle-echoes depth segs mem dev be q idx_at ring byte console ready h fits =
      let (out, sent) = transmit-Holds segs mem be q h fits in
      let (kept, k, left, caught) =
        service-IsRest depth dev mem (transmit segs mem be) (q ++ chain_bytes mem segs) idx_at ring
          byte console ready sent in
      (kept ∙ out, k, left, caught)

  -- The calls of `service_vq` within a service end: two deep are as good as any more, on each
  -- queue of each device.
  pub service-depth :
      (depth : ℕ) (dev : VirtioDev) (qi : ℕ) (mem : ℕ → ℕ) (be : Backend)
      → service pread pwrite stack mem_size (suc (suc depth)) dev qi mem be
        ≡ service pread pwrite stack mem_size 2 dev qi mem be
  unfolding service dev_handle console_handle
  service-depth depth dev qi mem be = refl
