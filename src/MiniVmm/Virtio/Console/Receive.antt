-- ===== src/MiniVmm/Virtio/Console/Receive.antt =====
-- What the receive half of console_handle (minivmm.c) delivers to the driver's buffers.
use virtualization_learning.Base.{
  ℕ, zero, suc, ◌+◌, ◌^◌, ◌≤◌, ◌<◌, min, ◌≡◌, refl, sym, ap, ◌∙◌, subst, Bool, true, false, List,
  [], ◌∷◌, arith, ltb, ltb→lt, if-cases, length, take, drop, u32, length-drop,
}
use virtualization_learning.MiniVmm.Virtio.{Seg}
use virtualization_learning.MiniVmm.Virtio.Blk.{write_byte, write_bytes}
use virtualization_learning.MiniVmm.Virtio.Blk.Contained.{total_len}
use virtualization_learning.MiniVmm.Virtio.Console.{ConIn, fill_segment, receive}
use virtualization_learning.MiniVmm.Virtio.Console.Fifo.{Holds, con_in_pop-empty, con_in_pop-Holds}

-- The bytes of `q` put into the segments, each filled before the next.
abbrev pub scatter : (ℕ → ℕ) → List Seg → List ℕ → ℕ → ℕ
scatter mem [] q = mem
scatter mem (seg ∷ segs) q =
    scatter (write_bytes mem seg.hva (take seg.seg_len q)) segs (drop seg.seg_len q)

take-nil : (n : ℕ) → take {A = ℕ} n [] ≡ []
take-nil zero = refl
take-nil (suc n) = refl

drop-nil : (n : ℕ) → drop {A = ℕ} n [] ≡ []
drop-nil zero = refl
drop-nil (suc n) = refl

drop-past : (n : ℕ) (q : List ℕ) → length q ≤ n → drop n q ≡ []
drop-past zero [] h = refl
drop-past zero (b ∷ q) h = absurd (omega arith)
drop-past (suc n) [] h = refl
drop-past (suc n) (b ∷ q) h = drop-past n q (omega arith)

pub drop-drop : (n m : ℕ) (q : List ℕ) → drop m (drop n q) ≡ drop (n + m) q
drop-drop zero m q = ap (λ k. drop k q) same
  where
    same : m ≡ 0 + m
    same = omega arith
drop-drop (suc n) m [] = drop-nil m ∙ sym (drop-nil (suc n + m))
drop-drop (suc n) m (b ∷ q) = drop-drop n m q ∙ ap (λ k. drop k (b ∷ q)) shift
  where
    shift : suc (n + m) ≡ suc n + m
    shift = omega arith

scatter-nil : (segs : List Seg) (mem : ℕ → ℕ) → scatter mem segs [] ≡ mem
unfolding write_bytes
scatter-nil [] mem = refl
scatter-nil (seg ∷ segs) mem =
    rw (take-nil seg.seg_len, drop-nil seg.seg_len) (scatter-nil segs mem)

-- The loop over one segment of `n` bytes.
abbrev Filled : ℕ → ℕ → (ℕ → ℕ) → List ℕ → ℕ → Bool × ℕ × (ℕ → ℕ) × ConIn → Type 0
Filled n at mem q written r =
    (r.0 ≡ ltb (length q) n)
    × (r.1 ≡ written + min n (length q))
    × (r.2 ≡ write_bytes mem at (take n q))
    × Holds r.3 (drop n q)

fill_segment-Filled :
    (n at : ℕ) (mem : ℕ → ℕ) (c : ConIn) (q : List ℕ) (written : ℕ)
    → Holds c q
    → written + length q < 2 ^ 32
    → Filled n at mem q written (fill_segment n at mem c written)
unfolding fill_segment write_bytes write_byte
fill_segment-Filled zero at mem c q written h few = (none_less (length q), omega arith, refl, h)
  where
    none_less : (l : ℕ) → false ≡ ltb l 0
    none_less l = ground arith
fill_segment-Filled (suc n) at mem c [] written h few =
    rw (con_in_pop-empty c h, fill_segment) (some_less n, omega arith, refl, h)
  where
    some_less : (n : ℕ) → true ≡ ltb 0 (suc n)
    some_less n = ground arith
fill_segment-Filled (suc n) at mem c (b ∷ q) written h few =
    let (popped, h') = con_in_pop-Holds c b q h in
    let next = u32 (written + 1) in
    let one_more : next ≡ written + 1 = omega (arith, few) in
    let (e0, e1, e2, e3) =
      fill_segment-Filled n (at + 1) (write_byte mem at b) (record c { tail = u32 (c.tail + 1) }) q
        next h' (omega (arith, one_more, few)) in
    rw (popped, fill_segment) (e0 ∙ shift (length q) n, omega (arith, e1, one_more), e2, e3)
  where
    shift : (l n : ℕ) → ltb l n ≡ ltb (suc l) (suc n)
    shift l n = ground arith

-- With the queue `q` of input, and a length that stays below 2^32: the driver's segments get the
-- bytes of `q` in order until they are full or it is empty, the length for the used ring grows by
-- the number of these bytes, and the input then holds the rest.
pub receive-delivers :
    (segs : List Seg) (mem : ℕ → ℕ) (c : ConIn) (q : List ℕ) (written : ℕ)
    → Holds c q
    → written + length q < 2 ^ 32
    → let (written', mem', c') = receive segs mem c written in
      (written' ≡ written + min (total_len segs) (length q))
      × (mem' ≡ scatter mem segs q)
      × Holds c' (drop (total_len segs) q)
unfolding receive
receive-delivers [] mem c q written h few = (omega arith, refl, h)
receive-delivers (seg ∷ segs) mem c q written h few =
    let (empty, written', mem', c') = fill_segment seg.seg_len seg.hva mem c written in
    let (e0, e1, e2, e3) = fill_segment-Filled seg.seg_len seg.hva mem c q written h few in
    let left = length-drop seg.seg_len q in
    let (r1, r2, r3) =
      receive-delivers segs mem' c' (drop seg.seg_len q) written' e3
        (omega (arith, e1, left, few)) in
    if-cases P empty (written', mem', c') (receive segs mem' c' written')
      (λ out.
        let short : length q < seg.seg_len = ltb→lt (length q) seg.seg_len (sym e0 ∙ out) in
        let gone : drop seg.seg_len q ≡ [] = drop-past seg.seg_len q (omega (arith, short)) in
        (
          omega (arith, e1, short),
          e2
              ∙ sym (
                  ap (scatter (write_bytes mem seg.hva (take seg.seg_len q)) segs) gone
                  ∙ scatter-nil segs (write_bytes mem seg.hva (take seg.seg_len q))),
          subst (Holds c')
              (gone ∙ sym (drop-past (seg.seg_len + total_len segs) q (omega (arith, short)))) e3,
        ))
      (λ more. (
        omega (arith, r1, e1, left),
        r2 ∙ ap (λ m. scatter m segs (drop seg.seg_len q)) e2,
        subst (Holds (receive segs mem' c' written').2) (drop-drop seg.seg_len (total_len segs) q)
            r3,
      ))
  where
    P : ℕ × (ℕ → ℕ) × ConIn → Type 0
    P t =
        (t.0 ≡ written + min (seg.seg_len + total_len segs) (length q))
        × (t.1 ≡ scatter (write_bytes mem seg.hva (take seg.seg_len q)) segs (drop seg.seg_len q))
        × Holds t.2 (drop (seg.seg_len + total_len segs) q)
