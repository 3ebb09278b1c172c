-- ===== src/MiniVmm/Serial/Fifo/Delivery.antt =====
-- What the host sends to minivmm.c's 16550A, and what the guest reads.
use virtualization_learning.Base.{
  ℕ, zero, suc, ◌+◌, ◌-◌, ◌%◌, ◌<◌, bit_and, bit_or, ◌≡◌, refl, sym, ap, ◌∙◌, subst, Bool, false,
  not, List, [], ◌∷◌, ◌++◌, arith, leb, ◌==◌, nonzero, if-intro, length, set, get_or, u32,
  length-append,
}
use virtualization_learning.MiniVmm.Serial.{
  rx_size, SerialState, rx_count, test, clear_bits, interrupt_id, same_level, kvm_irq_line,
  drive_irq, update_irq, store_rx, recv, take_rx, read_rx, read_reg,
}
use virtualization_learning.MiniVmm.Serial.Fifo.{Holds, cons-eq, push, recv-Holds}
use mathlib.Core.List.{append-nil, append_assoc}
use virtualization_learning.MiniVmm.Serial.Fifo.Reads.{after_take, read_rx-Holds}

-- Characters from the host, in order.
abbrev pub recv_all : List ℕ → SerialState → SerialState
recv_all [] s = s
recv_all (c ∷ cs) s = recv_all cs (recv c s)

-- The values of `n` reads of RBR.
abbrev pub read_all : ℕ → SerialState → List ℕ
read_all zero s = []
read_all (suc n) s = let (val, s') = read_reg 0 s in val ∷ read_all n s'

drive_irq-lcr : (level : Bool) (s : SerialState) → (drive_irq level s).lcr ≡ s.lcr
unfolding drive_irq
drive_irq-lcr level s =
    if-intro (λ t. t.lcr ≡ s.lcr) (same_level level s.irq_level) {x = s}
      {y = kvm_irq_line level (record s { irq_level = level })} refl refl

update_irq-lcr : (s : SerialState) → (update_irq s).lcr ≡ s.lcr
unfolding update_irq
update_irq-lcr s =
    let tmp = interrupt_id s in
    drive_irq-lcr (not (tmp == 1)) (record s { iir = bit_or tmp (bit_and s.iir 0xc0) })

push-append : (c : ℕ) (q : List ℕ) → length q < rx_size - 1 → push c q ≡ q ++ c ∷ []
push-append c q h = ground arith

recv-lcr : (c : ℕ) (s : SerialState) → (recv c s).lcr ≡ s.lcr
unfolding recv store_rx
recv-lcr c s =
    update_irq-lcr (store_rx c s)
    ∙ if-intro (λ t. t.lcr ≡ s.lcr) (leb (rx_size - 1) (rx_count s))
        {x = record s { lsr = bit_or s.lsr 2 }}
        {y = record s {
          rx_ring = set s.rx_ring (s.rx_head % rx_size) c;
          rx_head = u32 (s.rx_head + 1);
          lsr = bit_or s.lsr 1;
        }}
        refl refl

read_rx-lcr : (s : SerialState) → (read_rx s).1.lcr ≡ s.lcr
unfolding read_rx take_rx after_take
read_rx-lcr s =
    update_irq-lcr (after_take (take_rx s).1)
    ∙ (if-intro (λ t. t.lcr ≡ (take_rx s).1.lcr) (not (nonzero (rx_count (take_rx s).1)))
          {x = record (take_rx s).1 { lsr = clear_bits (take_rx s).1.lsr 0x11 }} {y = (take_rx s).1}
          refl refl
        ∙ if-intro {A = ℕ × SerialState} (λ t. t.1.lcr ≡ s.lcr) (nonzero (rx_count s))
            {x = (
              get_or s.rx_ring (s.rx_tail % rx_size) 0,
              record s { rx_tail = u32 (s.rx_tail + 1) },
            )}
            {y = (0, s)} refl refl)

-- The divisor latch is closed.
abbrev pub Unlatched : SerialState → Type 0
Unlatched s = test s.lcr 0x80 ≡ false

recv_all-Holds :
    (cs : List ℕ) (s : SerialState) (q : List ℕ)
    → Holds s q
    → length q + length cs < rx_size
    → Unlatched s
    → Holds (recv_all cs s) (q ++ cs) × Unlatched (recv_all cs s)
recv_all-Holds [] s q r h u = (subst (Holds s) (sym (append-nil q)) r, u)
recv_all-Holds (c ∷ cs) s q r h u =
    let (r', u') =
      recv_all-Holds cs (recv c s) (q ++ c ∷ [])
        (subst (Holds (recv c s)) (push-append c q (omega arith)) (recv-Holds c s q r))
        (omega (arith, length-append q (c ∷ []))) (ap (λ l. test l 0x80) (recv-lcr c s) ∙ u) in
    (subst (Holds (recv_all cs (recv c s))) (append_assoc q (c ∷ []) cs) r', u')

read_all-contents :
    (q : List ℕ) (s : SerialState) → Holds s q → Unlatched s → read_all (length q) s ≡ q
unfolding read_reg
read_all-contents [] s r u = refl
read_all-contents (c ∷ q) s r u =
    let (front_read, r') = read_rx-Holds s (c ∷ q) r in
    rw u (
      cons-eq front_read
        (read_all-contents q (read_rx s).1 r' (ap (λ l. test l 0x80) (read_rx-lcr s) ∙ u)))

-- What the host sends while the divisor latch is closed, the guest reads, each character once and
-- in order: from a port that holds `q`, the characters `cs` from the host, which fit the queue
-- with `q`, and then one read of RBR for each character give `q ++ cs`.
pub read_all-recv_all :
    (s : SerialState) (q cs : List ℕ)
    → Holds s q
    → length q + length cs < rx_size
    → Unlatched s
    → read_all (length q + length cs) (recv_all cs s) ≡ q ++ cs
read_all-recv_all s q cs r h u =
    let (r', u') = recv_all-Holds cs s q r h u in
    subst (λ n. read_all n (recv_all cs s) ≡ q ++ cs) (length-append q cs)
      (read_all-contents (q ++ cs) (recv_all cs s) r' u')
