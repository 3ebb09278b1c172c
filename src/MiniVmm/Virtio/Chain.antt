-- ===== src/MiniVmm/Virtio/Chain.antt =====
-- The descriptor chains of minivmm.c: what a gathered chain promises to the backends.
use virtualization_learning.Base.{
  ℕ, zero, suc, ◌+◌, ◌*◌, ◌^◌, ◌≤◌, ◌<◌, bit_and, ◌≡◌, refl, subst, inl, inr, Bool, true, false,
  not, Option, none, some, List, [], ◌∷◌, ◌++◌, arith, ltb, leb, nonzero, if◌then◌else◌, ltb→lt,
  Bool-cases, length, u64, length-append,
}
use virtualization_learning.MiniVmm.Virtio.{
  VringDesc, Vq, Seg, gpa2hva, load, load_desc, add_seg, collect, next_desc, gather_from,
  from_table, gather_chain,
}

abbrev pub IsBytes : (ℕ → ℕ) → Type 0
IsBytes mem = (at : ℕ) → mem at < 256

-- A range that `gpa2hva` lets through lies in guest memory, also where the sum wraps around.
gpa2hva_lem :
    (mem_size gpa len : ℕ)
    → gpa < 2 ^ 64
    → len < 2 ^ 64
    → (hva : ℕ) → gpa2hva mem_size gpa len ≡ some hva
    → hva + len ≤ mem_size
unfolding gpa2hva
gpa2hva_lem mem_size gpa len g l hva h = ground arith

pub load-lt : (mem : ℕ → ℕ) → IsBytes mem → (n at : ℕ) → load n mem at < 256 ^ n
unfolding load
load-lt mem b zero at = omega arith
load-lt mem b (suc n) at =
    let rest : load n mem (at + 1) < 256 ^ n = load-lt mem b n (at + 1) in
    omega (arith, rest, b at, grows n)
  where
    grows : (n : ℕ) → 256 ^ suc n ≡ 256 * 256 ^ n
    grows n = omega arith

-- The segments are at most 64, and each lies in guest memory.
abbrev pub AllWithin : ℕ → List Seg → Type 0
AllWithin mem_size [] = Unit {0}
AllWithin mem_size (seg ∷ segs) = (seg.hva + seg.seg_len ≤ mem_size) × AllWithin mem_size segs

pub record IsGathered (mem_size : ℕ) (segs : List Seg) : Type 0 where
  pub few : length segs ≤ 64
  pub within : AllWithin mem_size segs

AllWithin-snoc :
    (mem_size : ℕ) (segs : List Seg) (seg : Seg)
    → AllWithin mem_size segs
    → seg.hva + seg.seg_len ≤ mem_size
    → AllWithin mem_size (segs ++ seg ∷ [])
AllWithin-snoc mem_size [] seg w h = (h, tt)
AllWithin-snoc mem_size (s ∷ segs) seg (k, w) h = (k, AllWithin-snoc mem_size segs seg w h)

add_seg-IsGathered :
    (mem_size : ℕ) (segs : List Seg) (seg : Seg)
    → IsGathered mem_size segs
    → seg.hva + seg.seg_len ≤ mem_size
    → IsGathered mem_size (add_seg segs seg)
unfolding add_seg
add_seg-IsGathered mem_size segs seg g h = elim (Bool-cases (ltb (length segs) 64)) [
  | inl e ↦
      rw (e, add_seg)
        record {
          few = omega (arith, length-append segs (seg ∷ []), ltb→lt (length segs) 64 e);
          within = AllWithin-snoc mem_size segs seg g.within h;
        }
  | inr e ↦ rw (e, add_seg) g
]

collect-IsGathered :
    (mem_size : ℕ) (d : VringDesc) (segs : List Seg)
    → d.addr < 2 ^ 64
    → d.len < 2 ^ 64
    → IsGathered mem_size segs
    → (segs' : List Seg) → (o : Option ℕ) → gpa2hva mem_size d.addr d.len ≡ o
    → collect o d segs ≡ some segs'
    → IsGathered mem_size segs'
unfolding collect
collect-IsGathered mem_size d segs a l g segs' none e h = absurd (cc h)
collect-IsGathered mem_size d segs a l g segs' (some hva) e h =
    let seg : Seg = record { hva = hva; seg_len = d.len; writable = nonzero (bit_and d.flags 2) } in
    let same : add_seg segs seg ≡ segs' = cc h in
    subst (IsGathered mem_size) same
      (add_seg-IsGathered mem_size segs seg g (gpa2hva_lem mem_size d.addr d.len a l hva e))

desc-lt :
    (mem : ℕ → ℕ) (at : ℕ)
    → IsBytes mem
    → ((load_desc mem at).addr < 2 ^ 64) × ((load_desc mem at).len < 2 ^ 64)
unfolding load_desc
desc-lt mem at b = (omega (arith, load-lt mem b 8 at), omega (arith, load-lt mem b 4 (at + 8)))

gather_from-IsGathered :
    (guard mem_size : ℕ) (mem : ℕ → ℕ) (dt num idx : ℕ) (segs : List Seg)
    → IsBytes mem
    → IsGathered mem_size segs
    → (segs' : List Seg) → gather_from guard mem_size mem dt num idx segs ≡ some segs'
    → IsGathered mem_size segs'
unfolding gather_from
gather_from-IsGathered zero mem_size mem dt num idx segs b g segs' h = absurd (cc h)
gather_from-IsGathered (suc guard) mem_size mem dt num idx segs b g segs' h =
    inside
      (λ s k e.
        gather_from-IsGathered guard mem_size mem dt num (load_desc mem (dt + 16 * idx)).next s b k
          segs' e)
      (leb num idx) h
  where
    d : VringDesc
    d = load_desc mem (dt + 16 * idx)

    rest : List Seg → Option (List Seg)
    rest s = gather_from guard mem_size mem dt num d.next s

    Rest : Type 0
    Rest = (s : List Seg) → IsGathered mem_size s → rest s ≡ some segs' → IsGathered mem_size segs'

    follow :
        Rest
        → (s : List Seg) → IsGathered mem_size s
        → (last : Bool) → (if last then some s else rest s) ≡ some segs'
        → IsGathered mem_size segs'
    follow ih s k true e = subst (IsGathered mem_size) (cc e) k
    follow ih s k false e = ih s k e

    after :
        Rest
        → (o : Option (List Seg)) → collect (gpa2hva mem_size d.addr d.len) d segs ≡ o
        → next_desc o d rest ≡ some segs'
        → IsGathered mem_size segs'
    after ih none c e = absurd (cc e)
    after ih (some s) c e =
        let (a, l) = desc-lt mem (dt + 16 * idx) b in
        follow ih s
          (collect-IsGathered mem_size d segs a l g s (gpa2hva mem_size d.addr d.len) refl c)
          (not (nonzero (bit_and d.flags 1))) e

    inside :
        Rest
        → (out : Bool)
        → (if out then none else next_desc (collect (gpa2hva mem_size d.addr d.len) d segs) d rest)
          ≡ some segs'
        → IsGathered mem_size segs'
    inside ih true e = absurd (cc e)
    inside ih false e = after ih (collect (gpa2hva mem_size d.addr d.len) d segs) refl e

-- Whatever the guest wrote in the descriptor table, loops in the chain and addresses that wrap
-- around included: a chain that is gathered has at most 64 segments, and each lies in guest
-- memory. Memory has bytes.
pub gather_chain-IsGathered :
    (mem_size : ℕ) (mem : ℕ → ℕ) (vq : Vq) (head : ℕ) (segs : List Seg)
    → IsBytes mem
    → gather_chain mem_size mem vq head ≡ some segs
    → IsGathered mem_size segs
unfolding gather_chain from_table
gather_chain-IsGathered mem_size mem vq head segs b h =
    started (gpa2hva mem_size vq.desc (u64 (16 * vq.num))) h
  where
    started :
        (o : Option ℕ)
        → from_table o mem_size mem vq.num head ≡ some segs
        → IsGathered mem_size segs
    started none e = absurd (cc e)
    started (some dt) e =
        gather_from-IsGathered (vq.num + 1) mem_size mem dt vq.num head [] b
          record { few = omega arith; within = tt } segs e
