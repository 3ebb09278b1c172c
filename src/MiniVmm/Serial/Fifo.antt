-- ===== src/MiniVmm/Serial/Fifo.antt =====
-- The receive FIFO of the 16550A of minivmm.c as a bounded queue.
pub mod Writes
pub mod Reads
pub mod Delivery
use virtualization_learning.Base.{
  ℕ, zero, suc, ◌+◌, ◌-◌, ◌%◌, ◌^◌, ◌≤◌, ◌<◌, bit_and, bit_or, ◌≡◌, refl, sym, ap, ◌∙◌, ◌≢◌, inl,
  inr, Bool, not, List, [], ◌∷◌, ◌++◌, arith, leb, ◌==◌, if◌then◌else◌, Bool-cases, if-intro,
  length, set, get_or, u32, length-append, length-set, get_or-set_self, get_or-set_ne, set-outside,
  set-bit,
}
use virtualization_learning.MiniVmm.Serial.{
  rx_size, SerialState, serial_init, interrupt_id, same_level, kvm_irq_line, drive_irq, update_irq,
  store_rx, recv,
}

-- The `n` characters of the ring from the counter `i` on.
abbrev window : List ℕ → ℕ → ℕ → List ℕ
window ring i zero = []
window ring i (suc n) = get_or ring (i % rx_size) 0 ∷ window ring (suc i) n

-- The data ready bit of LSR.
abbrev ready_bit : List ℕ → ℕ
ready_bit [] = 0
ready_bit (c ∷ q) = 1

-- The ring between the tail and the head holds the characters of `q`, oldest first.
pub record IsRing (ring : List ℕ) (head tail lsr : ℕ) (q : List ℕ) : Type 0 where
  size : length ring ≡ rx_size
  head_bound : head < 2 ^ 32
  tail_bound : tail < 2 ^ 32
  count : u32 (head + 2 ^ 32 - tail) ≡ length q
  room : length q < rx_size
  contents : window ring tail (length q) ≡ q
  ready : bit_and lsr 1 ≡ ready_bit q

-- The port holds the characters of `q`, oldest first.
abbrev pub Holds : SerialState → List ℕ → Type 0
Holds s q = IsRing s.rx_ring s.rx_head s.rx_tail s.lsr q

cons-eq : {x y : ℕ} {xs ys : List ℕ} → x ≡ y → xs ≡ ys → x ∷ xs ≡ y ∷ ys
cons-eq {x} {ys = ys} p q = ap (◌∷◌ x) q ∙ ap (λ h. h ∷ ys) p

window-wrap :
    (ring : List ℕ) (i j n : ℕ) → i % rx_size ≡ j % rx_size → window ring i n ≡ window ring j n
window-wrap ring i j zero e = refl
window-wrap ring i j (suc n) e =
    cons-eq (ap (λ k. get_or ring k 0) e) (window-wrap ring (suc i) (suc j) n (omega (arith, e)))

window-snoc :
    (ring : List ℕ) (i n : ℕ)
    → window ring i (suc n) ≡ window ring i n ++ get_or ring ((i + n) % rx_size) 0 ∷ []
window-snoc ring i zero = ap (λ k. get_or ring (k % rx_size) 0 ∷ []) (sym add_zero)
  where
    add_zero : i + 0 ≡ i
    add_zero = omega arith
window-snoc ring i (suc n) = ap (◌∷◌ (get_or ring (i % rx_size) 0)) (
    window-snoc ring (suc i) n
    ∙ ap (λ k. window ring (suc i) n ++ get_or ring (k % rx_size) 0 ∷ []) shift)
  where
    shift : suc i + n ≡ i + suc n
    shift = omega arith

-- A write beyond the window.
window-set :
    (ring : List ℕ) (c i n m : ℕ)
    → n ≤ m
    → m < rx_size
    → window (set ring ((i + m) % rx_size) c) i n ≡ window ring i n
window-set ring c i zero m h k = refl
window-set ring c i (suc n) zero h k = absurd (omega arith)
window-set ring c i (suc n) (suc m) h k = cons-eq (get_or-set_ne ring c 0 apart) (
    ap (λ k. window (set ring (k % rx_size) c) (suc i) n) shift
    ∙ window-set ring c (suc i) n m (omega arith) (omega arith))
  where
    apart : (i + suc m) % rx_size ≢ i % rx_size
    apart e = omega (arith, e)

    shift : i + suc m ≡ suc i + m
    shift = omega arith

ready_bit-snoc : (c : ℕ) (q : List ℕ) → ready_bit (q ++ c ∷ []) ≡ 1
ready_bit-snoc c [] = refl
ready_bit-snoc c (x ∷ q) = refl

-- A bounded queue
abbrev pub push : ℕ → List ℕ → List ℕ
push c q = if leb (rx_size - 1) (length q) then q else q ++ c ∷ []

abbrev pub front : List ℕ → ℕ
front [] = 0
front (c ∷ q) = c

abbrev pub rest : List ℕ → List ℕ
rest [] = []
rest (c ∷ q) = q

-- A change of LSR that leaves the data ready bit.
relabel :
    {ring : List ℕ} {head tail lsr lsr' : ℕ} {q : List ℕ}
    → IsRing ring head tail lsr q
    → bit_and lsr' 1 ≡ bit_and lsr 1
    → IsRing ring head tail lsr' q
relabel r e = record {
  size = r.size;
  head_bound = r.head_bound;
  tail_bound = r.tail_bound;
  count = r.count;
  room = r.room;
  contents = r.contents;
  ready = e ∙ r.ready;
}

drive_irq-Holds :
    (level : Bool) (s : SerialState) (q : List ℕ) → Holds s q → Holds (drive_irq level s) q
unfolding drive_irq
drive_irq-Holds level s q r =
    if-intro (λ t. Holds t q) (same_level level s.irq_level) {x = s}
      {y = kvm_irq_line level (record s { irq_level = level })} r r

update_irq-Holds : (s : SerialState) (q : List ℕ) → Holds s q → Holds (update_irq s) q
unfolding update_irq
update_irq-Holds s q r =
    let tmp = interrupt_id s in
    drive_irq-Holds (not (tmp == 1)) (record s { iir = bit_or tmp (bit_and s.iir 0xc0) }) q r

-- The character goes to the head, where the window ends.
stored :
    (c : ℕ) (s : SerialState) (q : List ℕ)
    → Holds s q
    → length q < rx_size - 1
    → IsRing
        (set s.rx_ring (s.rx_head % rx_size) c)
        (u32 (s.rx_head + 1))
        s.rx_tail
        (bit_or s.lsr 1)
        (q ++ c ∷ [])
stored c s q r h = record {
  size = length-set s.rx_ring (s.rx_head % rx_size) c ∙ r.size;
  head_bound = omega arith;
  tail_bound = r.tail_bound;
  count = omega (arith, r.count, r.head_bound, r.tail_bound, longer);
  room = omega (arith, longer);
  contents = ap (window ring s.rx_tail) longer ∙ (window-snoc ring s.rx_tail (length q) ∙ both);
  ready = set-bit 0 s.lsr 1 1 refl refl refl ∙ sym (ready_bit-snoc c q);
}
  where
    ring : List ℕ
    ring = set s.rx_ring (s.rx_head % rx_size) c

    longer : length (q ++ c ∷ []) ≡ suc (length q)
    longer = omega (arith, length-append q (c ∷ []))

    place : s.rx_head % rx_size ≡ (s.rx_tail + length q) % rx_size
    place = omega (arith, r.count, r.head_bound, r.tail_bound)

    kept : window ring s.rx_tail (length q) ≡ q
    kept =
        ap (λ k. window (set s.rx_ring k c) s.rx_tail (length q)) place
        ∙ (window-set s.rx_ring c s.rx_tail (length q) (length q) (omega arith) r.room ∙ r.contents)

    last : get_or ring ((s.rx_tail + length q) % rx_size) 0 ≡ c
    last =
        ap (λ k. get_or ring k 0) (sym place)
        ∙ get_or-set_self s.rx_ring (s.rx_head % rx_size) c 0 (omega (arith, r.size))

    both :
        window ring s.rx_tail (length q) ++ get_or ring ((s.rx_tail + length q) % rx_size) 0 ∷ []
        ≡ q ++ c ∷ []
    both =
        ap (λ w. w ++ get_or ring ((s.rx_tail + length q) % rx_size) 0 ∷ []) kept
        ∙ ap (λ x. q ++ x ∷ []) last

store_rx-Holds :
    (c : ℕ) (s : SerialState) (q : List ℕ) → Holds s q → Holds (store_rx c s) (push c q)
unfolding store_rx
store_rx-Holds c s q r = elim (Bool-cases (leb (rx_size - 1) (length q))) [
  | inl h ↦ rw (r.count, h) (relabel r (set-outside s.lsr 2 1 refl))
  | inr h ↦ rw (r.count, h) (stored c s q r (ground arith))
]

recv-Holds : (c : ℕ) (s : SerialState) (q : List ℕ) → Holds s q → Holds (recv c s) (push c q)
unfolding recv
recv-Holds c s q r = update_irq-Holds (store_rx c s) (push c q) (store_rx-Holds c s q r)

pub serial_init-Holds : Holds serial_init []
unfolding serial_init
serial_init-Holds = record {
  size = refl;
  head_bound = omega arith;
  tail_bound = omega arith;
  count = refl;
  room = omega arith;
  contents = refl;
  ready = refl;
}
