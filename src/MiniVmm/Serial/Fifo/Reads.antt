-- ===== src/MiniVmm/Serial/Fifo/Reads.antt =====
-- The registers that minivmm.c's 16550A reads, and the receive FIFO.
use virtualization_learning.Base.{
  ℕ, suc, ◌+◌, ◌-◌, bit_and, ◌≡◌, refl, sym, ap, ◌∙◌, inl, inr, Bool, true, false, not, List, [],
  ◌∷◌, arith, ◌==◌, nonzero, if◌then◌else◌, nonzero_of_ne, Bool-cases, if-intro, length, u8, u32,
  ◌>>>◌, keep-all, keep-none,
}
use virtualization_learning.MiniVmm.Serial.{
  SerialState, rx_count, test, clear_bits, update_irq, recv, write_reg, take_rx, read_rx, read_iir,
  read_lsr, loopback_msr, read_msr, read_reg,
}
use virtualization_learning.MiniVmm.Serial.Fifo.{
  window, ready_bit, IsRing, Holds, window-wrap, push, front, rest, relabel, update_irq-Holds,
  recv-Holds,
}
use virtualization_learning.MiniVmm.Serial.Fifo.Writes.{queue_write, queue_read, write_reg-Holds}

update_if-Holds :
    (b : Bool) (s s' : SerialState) (q : List ℕ)
    → Holds s q
    → Holds s' q
    → Holds (if b then update_irq s' else s) q
update_if-Holds b s s' q r r' = if-intro (λ t. Holds t q) b (update_irq-Holds s' q r') r

-- The state that `read_rx` leaves, before the interrupt is looked at.
unfoldable pub after_take : SerialState → SerialState
after_take s1 =
    if not (nonzero (rx_count s1)) then record s1 { lsr = clear_bits s1.lsr 0x11 } else s1

nonzero-suc : (n : ℕ) → nonzero (suc n) ≡ true
nonzero-suc n = nonzero_of_ne (suc n) (λ e. omega (arith, e))

advanced :
    (s : SerialState) (c : ℕ) (q : List ℕ)
    → Holds s (c ∷ q)
    → Holds (after_take (record s { rx_tail = u32 (s.rx_tail + 1) })) q
unfolding after_take
advanced s c q r = rw fewer (by_rest q refl)
  where
    s1 : SerialState
    s1 = record s { rx_tail = u32 (s.rx_tail + 1) }

    fewer : rx_count s1 ≡ length q
    fewer = omega (arith, r.count, r.head_bound, r.tail_bound)

    moved : window s.rx_ring (u32 (s.rx_tail + 1)) (length q) ≡ q
    moved =
        window-wrap s.rx_ring (u32 (s.rx_tail + 1)) (suc s.rx_tail) (length q) (omega arith)
        ∙ ap rest r.contents

    ring :
        (lsr : ℕ)
        → bit_and lsr 1 ≡ ready_bit q
        → IsRing s.rx_ring s.rx_head (u32 (s.rx_tail + 1)) lsr q
    ring lsr e = record {
      size = r.size;
      head_bound = r.head_bound;
      tail_bound = omega arith;
      count = fewer;
      room = omega (arith, r.room);
      contents = moved;
      ready = e;
    }

    by_rest :
        (q' : List ℕ)
        → q ≡ q'
        → Holds
            (if not (nonzero (length q')) then record s1 { lsr = clear_bits s1.lsr 0x11 } else s1)
            q
    by_rest [] e =
        ring (clear_bits s1.lsr 0x11) (keep-none s.lsr (255 - 0x11) 1 refl ∙ ap ready_bit (sym e))
    by_rest (d ∷ q') e = rw (nonzero-suc (length q')) (ring s.lsr (r.ready ∙ ap ready_bit (sym e)))

pub read_rx-Holds :
    (s : SerialState) (q : List ℕ)
    → Holds s q
    → ((read_rx s).0 ≡ front q) × Holds (read_rx s).1 (rest q)
unfolding read_rx take_rx after_take
read_rx-Holds s [] r =
    rw (r.count, r.count)
      (
        refl,
        update_irq-Holds (record s { lsr = clear_bits s.lsr 0x11 }) []
            (relabel r (keep-none s.lsr (255 - 0x11) 1 refl ∙ sym r.ready)),
      )
read_rx-Holds s (c ∷ q) r =
    rw (r.count, nonzero-suc (length q))
      (
        ap front r.contents,
        update_irq-Holds (after_take (record s { rx_tail = u32 (s.rx_tail + 1) })) q
            (advanced s c q r),
      )

read_msr-Holds : (s : SerialState) (q : List ℕ) → Holds s q → Holds (read_msr s).1 q
unfolding read_msr
read_msr-Holds s q r =
    if-intro {A = ℕ × SerialState} (λ t. Holds t.1 q) (test s.mcr 0x10)
      {x = (loopback_msr s.mcr, s)} r
      (update_if-Holds (test s.msr 0x0f) s (record s { msr = bit_and s.msr 0xf0 }) q r r)

read_reg-Holds :
    (reg : ℕ) (s : SerialState) (q : List ℕ)
    → Holds s q
    → Holds (read_reg reg s).1 (queue_read reg s q)
unfolding read_reg read_iir read_lsr queue_read
read_reg-Holds reg s q r = elim (Bool-cases (reg == 0)) [
  | inl h ↦ rw h (elim (Bool-cases (test s.lcr 0x80)) [
    | inl d ↦ rw d r
    | inr d ↦ rw d (read_rx-Holds s q r).1
  ])
  | inr h ↦ rw h (others (reg == 1) (reg == 2) (reg == 3) (reg == 4) (reg == 5) (reg == 6))
]
  where
    others :
        (one two three four five six : Bool)
        → Holds
            (if one
              then (if test s.lcr 0x80 then u8 (s.divider >>> 8) else s.ier, s)
              else if two
              then read_iir s
              else if three
              then (s.lcr, s)
              else if four
              then (s.mcr, s)
              else if five
              then read_lsr s
              else if six
              then read_msr s
              else (s.scr, s)).1
            q
    others true two three four five six = r
    others false true three four five six =
        update_if-Holds (bit_and s.iir 0x0e == 2) s (record s { thr_ipending = false }) q r r
    others false false true four five six = r
    others false false false true five six = r
    others false false false false true six =
        update_if-Holds (test s.lsr 0x12) s (record s { lsr = clear_bits s.lsr 0x12 }) q r
          (relabel r (keep-all s.lsr (255 - 0x12) 1 refl))
    others false false false false false true = read_msr-Holds s q r
    others false false false false false false = r

-- The port is a bounded queue of characters. While it holds the characters of `q`, oldest first:
-- a character from the host is appended unless 1023 wait already; a write to a register leaves
-- `queue_write` of `q`, which is `q` except that THR in loopback appends and that FCR empties it;
-- a read leaves `queue_read` of `q`, which is `q` without its first character for RBR; and the
-- value that RBR gives is that character, or 0 if none waits.
pub port-Holds :
    (s : SerialState) (q : List ℕ)
    → Holds s q
    → ((c : ℕ) → Holds (recv c s) (push c q))
      × ((reg val : ℕ) → Holds (write_reg reg val s) (queue_write reg val s q))
      × ((reg : ℕ) → Holds (read_reg reg s).1 (queue_read reg s q))
      × (test s.lcr 0x80 ≡ false → (read_reg 0 s).0 ≡ front q)
unfolding read_reg
port-Holds s q r = (
  λ c. recv-Holds c s q r,
  λ reg val. write_reg-Holds reg val s q r,
  λ reg. read_reg-Holds reg s q r,
  λ d. rw d (read_rx-Holds s q r).0,
)
