-- ===== src/MiniVmm/Virtio/ChainRead.antt =====
-- What `chain_read` of minivmm.c copies out of a descriptor chain.
use virtualization_learning.Base.{
  ℕ, zero, suc, ◌+◌, ◌-◌, min, ◌≡◌, refl, sym, ap, ◌∙◌, inl, inr, List, [], ◌∷◌, ◌++◌, arith, leb,
  ◌==◌, ==_iff, Bool-cases, length, take, drop,
}
use virtualization_learning.MiniVmm.Virtio.{Seg, bytes, chain_read}

-- The bytes of a chain, one segment after the other.
abbrev pub chain_bytes : (ℕ → ℕ) → List Seg → List ℕ
chain_bytes mem [] = []
chain_bytes mem (seg ∷ segs) = bytes mem seg.hva seg.seg_len ++ chain_bytes mem segs

pub length-bytes : (mem : ℕ → ℕ) (at n : ℕ) → length (bytes mem at n) ≡ n
unfolding bytes
length-bytes mem at zero = refl
length-bytes mem at (suc n) = omega (arith, length-bytes mem (at + 1) n)

take-bytes : (mem : ℕ → ℕ) (k at n : ℕ) → take k (bytes mem at n) ≡ bytes mem at (min n k)
unfolding bytes
take-bytes mem zero at n = ap (bytes mem at) (least n)
  where
    least : (n : ℕ) → 0 ≡ min n 0
    least n = omega arith
take-bytes mem (suc k) at zero = ap (bytes mem at) (least k)
  where
    least : (k : ℕ) → 0 ≡ min 0 (suc k)
    least k = omega arith
take-bytes mem (suc k) at (suc n) =
    ap (λ t. mem at ∷ t) (take-bytes mem k (at + 1) n) ∙ ap (bytes mem at) (least n k)
  where
    least : (n k : ℕ) → suc (min n k) ≡ min (suc n) (suc k)
    least n k = omega arith

sub-zero : (n : ℕ) → n - 0 ≡ n
sub-zero n = omega arith

zero-sub : (n : ℕ) → 0 - n ≡ 0
zero-sub n = omega arith

sub-suc : (n k : ℕ) → suc n - suc k ≡ n - k
sub-suc n k = omega arith

zero-min : (n : ℕ) → min 0 n ≡ 0
zero-min n = omega arith

drop-bytes : (mem : ℕ → ℕ) (k at n : ℕ) → drop k (bytes mem at n) ≡ bytes mem (at + k) (n - k)
unfolding bytes
drop-bytes mem zero at n = rw (add-zero at, sub-zero n) refl
  where
    add-zero : (n : ℕ) → n + 0 ≡ n
    add-zero n = omega arith
drop-bytes mem (suc k) at zero = rw (zero-sub (suc k)) refl
drop-bytes mem (suc k) at (suc n) = rw (sub-suc n k, further at k) (drop-bytes mem k (at + 1) n)
  where
    further : (at k : ℕ) → at + suc k ≡ at + 1 + k
    further at k = omega arith

take-append : (k : ℕ) (xs ys : List ℕ) → take k (xs ++ ys) ≡ take k xs ++ take (k - length xs) ys
take-append zero xs ys = rw (zero-sub (length xs)) refl
take-append (suc k) [] ys = rw (sub-zero (suc k)) refl
take-append (suc k) (x ∷ xs) ys = rw (sub-suc k (length xs)) (ap (λ t. x ∷ t) (take-append k xs ys))

drop-append : (k : ℕ) (xs ys : List ℕ) → drop k (xs ++ ys) ≡ drop k xs ++ drop (k - length xs) ys
drop-append zero xs ys = rw (zero-sub (length xs)) refl
drop-append (suc k) [] ys = rw (sub-zero (suc k)) refl
drop-append (suc k) (x ∷ xs) ys = rw (sub-suc k (length xs)) (drop-append k xs ys)

-- What `chain_read` copies is `len` bytes of the chain from `off` on, wherever the segments are
-- cut: fewer only where the chain ends.
pub chain_read_lem :
    (mem : ℕ → ℕ) (segs : List Seg) (off len : ℕ)
    → chain_read mem segs off len ≡ take len (drop off (chain_bytes mem segs))
unfolding chain_read
chain_read_lem mem [] off len = nothing len off
  where
    nothing : (len off : ℕ) → [] ≡ take {A = ℕ} len (drop off [])
    nothing zero off = refl
    nothing (suc len) zero = refl
    nothing (suc len) (suc off) = refl
chain_read_lem mem (seg ∷ segs) off len =
    let here = bytes mem seg.hva seg.seg_len in
    let later = chain_bytes mem segs in
    let split : take len (drop off (here ++ later))
        ≡ bytes mem (seg.hva + off) (min (seg.seg_len - off) len)
          ++ take (len - (seg.seg_len - off)) (drop (off - seg.seg_len) later) =
      ap (take len) (drop-append off here later)
      ∙ (take-append len (drop off here) (drop (off - length here) later)
          ∙ rw
              (
                length-bytes mem seg.hva seg.seg_len,
                drop-bytes mem off seg.hva seg.seg_len,
                length-bytes mem (seg.hva + off) (seg.seg_len - off),
                take-bytes mem len (seg.hva + off) (seg.seg_len - off),
              )
              refl) in
    let skipped = chain_read_lem mem segs (off - seg.seg_len) len in
    let rest = chain_read_lem mem segs 0 (len - min (seg.seg_len - off) len) in
    elim (Bool-cases (len == 0)) [
      | inl e ↦ let z : len ≡ 0 = (==_iff len 0).0 e in rw z refl
      | inr e ↦ elim (Bool-cases (leb seg.seg_len off)) [
        | inl past ↦
            let gone : seg.seg_len - off ≡ 0 = ground (arith, past) in
            rw (e, past, chain_read)
              (skipped ∙ sym (split ∙ rw (gone, zero-min len, sub-zero len) refl))
        | inr inside ↦
            let first : off - seg.seg_len ≡ 0 = ground (arith, inside) in
            let left : len - (seg.seg_len - off) ≡ len - min (seg.seg_len - off) len =
              omega arith in
            rw (e, inside, chain_read)
              (ap (λ t. bytes mem (seg.hva + off) (min (seg.seg_len - off) len) ++ t) rest
                ∙ sym (split ∙ rw (left, first) refl))
      ]
    ]
