-- ===== src/MiniVmm/Serial/Irq/Update.antt =====
-- `serial_update_irq_locked` of minivmm.c: the line and IIR after it.
use virtualization_learning.Base.{
  ℕ, ◌-◌, ◌/◌, ◌≤◌, bit_and, bit_or, ◌≡◌, refl, ap, ◌∙◌, inl, inr, Bool, true, false, not, List, [],
  ◌∷◌, arith, leb, ◌==◌, if◌then◌else◌, Bool-cases, if-intro, bit_and_mask, bit_and_shifted,
  bit_and_bit, if-cases, ◌⊎◌, ◌*◌, ◌%◌, ◌≢◌, ◌&&◌, nonzero, bit_and-bit_or,
}
use virtualization_learning.MiniVmm.Serial.{
  rx_size, SerialState, rx_count, test, interrupt_id, same_level, update_irq, store_rx,
}

-- The level that the line was given last. It is low at the start.
abbrev pub latest : List Bool → Bool
latest [] = false
latest (level ∷ levels) = level

-- What the FIFO bits of IIR are by the FIFO enable bit of FCR.
abbrev pub fifo_bits : ℕ → ℕ
fifo_bits fcr = if test fcr 1 then 0xc0 else 0

-- What holds between the steps of an operation.
pub record IsWired (s : SerialState) : Type 0 where
  pub line : latest s.irq_line ≡ s.irq_level
  pub fifo : bit_and s.iir 0xc0 ≡ fifo_bits s.fcr

-- The interrupts whose enable bit of IER and whose cause are there: an error in LSR, data, the
-- empty transmitter that was not read from IIR, and a change of the modem's lines.
abbrev pub LineStatus : SerialState → Type 0
LineStatus s = (s.ier / 4 % 2 ≡ 1) × (s.lsr / 2 % 16 ≢ 0)

abbrev pub Received : SerialState → Type 0
Received s = (s.ier % 2 ≡ 1) × (s.lsr % 2 ≡ 1)

abbrev pub Transmitter : SerialState → Type 0
Transmitter s = (s.ier / 2 % 2 ≡ 1) × (s.thr_ipending ≡ true)

abbrev pub Modem : SerialState → Type 0
Modem s = (s.ier / 8 % 2 ≡ 1) × (s.msr % 16 ≢ 0)

-- The code of the interrupt of highest priority, by the table of the data sheet: 6, 4, 2, 0, and
-- 1 for none.
abbrev pub Names : SerialState → ℕ → Type 0
Names s id =
    ((id ≡ 6) × LineStatus s)
    ⊎ ((id ≡ 4) × ¬ LineStatus s × Received s)
    ⊎ ((id ≡ 2) × ¬ LineStatus s × ¬ Received s × Transmitter s)
    ⊎ ((id ≡ 0) × ¬ LineStatus s × ¬ Received s × ¬ Transmitter s × Modem s)
    ⊎ ((id ≡ 1) × ¬ LineStatus s × ¬ Received s × ¬ Transmitter s × ¬ Modem s)

-- The two readings of a test, as bits of a mask and as remainders.
bits_01 : (x : ℕ) → bit_and x 1 ≡ x % 2
bits_01 x = bit_and_mask 1 x

bits_02 : (x : ℕ) → bit_and x 2 ≡ x / 2 % 2 * 2
bits_02 x = bit_and_bit 1 x

bits_04 : (x : ℕ) → bit_and x 4 ≡ x / 4 % 2 * 4
bits_04 x = bit_and_bit 2 x

bits_08 : (x : ℕ) → bit_and x 8 ≡ x / 8 % 2 * 8
bits_08 x = bit_and_bit 3 x

bits_0f : (x : ℕ) → bit_and x 0x0f ≡ x % 16
bits_0f x = bit_and_mask 4 x

bits_1e : (x : ℕ) → bit_and x 0x1e ≡ x / 2 % 16 * 2
bits_1e x = bit_and_shifted 1 x 15 ∙ ap (λ t. t * 2) (bit_and_mask 4 (x / 2))

pub interrupt_id-Names : (s : SerialState) → Names s (interrupt_id s)
unfolding interrupt_id
interrupt_id-Names s =
    if-cases (Names s) line 6 rest4 (λ y. inl (refl, is_line y))
      (λ l.
        if-cases (Names s) data_ 4 rest2 (λ y. inr (inl (refl, no_line l, is_data y)))
          (λ d.
            if-cases (Names s) sent 2 rest0
              (λ y. inr (inr (inl (refl, no_line l, no_data d, is_sent y))))
              (λ t.
                if-cases (Names s) modem 0 1
                  (λ y. inr (inr (inr (inl (refl, no_line l, no_data d, no_sent t, is_modem y)))))
                  (λ m.
                    inr (inr (inr (inr (refl, no_line l, no_data d, no_sent t, no_modem m))))))))
  where
    line : Bool
    line = test s.ier 4 && nonzero (bit_and s.lsr 0x1e)

    data_ : Bool
    data_ = test s.ier 1 && test s.lsr 1

    sent : Bool
    sent = test s.ier 2 && s.thr_ipending

    modem : Bool
    modem = test s.ier 8 && test s.msr 0x0f

    rest0 : ℕ
    rest0 = if modem then 0 else 1

    rest2 : ℕ
    rest2 = if sent then 2 else rest0

    rest4 : ℕ
    rest4 = if data_ then 4 else rest2

    is_line : line ≡ true → LineStatus s
    is_line y = ground (arith, y, bits_04 s.ier, bits_1e s.lsr)

    no_line : line ≡ false → ¬ LineStatus s
    no_line n (a, b) = ground (arith, n, a, b, bits_04 s.ier, bits_1e s.lsr)

    is_data : data_ ≡ true → Received s
    is_data y = ground (arith, y, bits_01 s.ier, bits_01 s.lsr)

    no_data : data_ ≡ false → ¬ Received s
    no_data n (a, b) = ground (arith, n, a, b, bits_01 s.ier, bits_01 s.lsr)

    is_sent : sent ≡ true → Transmitter s
    is_sent y = ground (arith, y, bits_02 s.ier)

    no_sent : sent ≡ false → ¬ Transmitter s
    no_sent n (a, b) = ground (arith, n, a, b, bits_02 s.ier)

    is_modem : modem ≡ true → Modem s
    is_modem y = ground (arith, y, bits_08 s.ier, bits_0f s.msr)

    no_modem : modem ≡ false → ¬ Modem s
    no_modem n (a, b) = ground (arith, n, a, b, bits_08 s.ier, bits_0f s.msr)

-- The line has the level that was last sent to KVM, which is high exactly while an enabled
-- interrupt is pending; IIR names the one of highest priority in its low bits and the FIFO in its
-- high bits.
pub record IsDriven (s : SerialState) : Type 0 where
  pub line : latest s.irq_line ≡ s.irq_level
  pub level : s.irq_level ≡ not (interrupt_id s == 1)
  pub named : Names s (interrupt_id s)
  pub code : s.iir ≡ bit_or (interrupt_id s) (fifo_bits s.fcr)

-- The codes are those of the data sheet.
interrupt_id-small : (s : SerialState) → interrupt_id s ≤ 6
unfolding interrupt_id
interrupt_id-small s = ground arith

code-fifo : (id fcr : ℕ) → id ≤ 6 → bit_and (bit_or id (fifo_bits fcr)) 0xc0 ≡ fifo_bits fcr
code-fifo id fcr h =
    bit_and-bit_or id (fifo_bits fcr) 0xc0
    ∙ (ap (λ x. bit_or x (bit_and (fifo_bits fcr) 0xc0)) low ∙ either (test fcr 1))
  where
    low : bit_and id 0xc0 ≡ 0
    low = omega (arith, bit_and_shifted 6 id 3, bit_and_mask 2 (id / 64))

    either : (b : Bool) → bit_or 0 (bit_and (if b then 0xc0 else 0) 0xc0) ≡ (if b then 0xc0 else 0)
    either true = refl
    either false = refl

pub IsDriven→IsWired : {s : SerialState} → IsDriven s → IsWired s
IsDriven→IsWired {s} d = record {
  line = d.line;
  fifo = ap (λ x. bit_and x 0xc0) d.code ∙ code-fifo (interrupt_id s) s.fcr (interrupt_id-small s);
}

same_level-eq : (a b : Bool) → same_level a b ≡ true → b ≡ a
unfolding same_level
same_level-eq true b h = h
same_level-eq false true h = absurd (cc h)
same_level-eq false false h = refl

pub update_irq-IsDriven : (s : SerialState) → IsWired s → IsDriven (update_irq s)
unfolding update_irq interrupt_id
update_irq-IsDriven s w =
    let low = ap (bit_or (interrupt_id s)) w.fifo in
    elim (Bool-cases (same_level (not (interrupt_id s == 1)) s.irq_level)) [
      | inl h ↦
          rw (h, update_irq)
            record {
              line = w.line;
              level = same_level-eq _ _ h;
              named = interrupt_id-Names s;
              code = low;
            }
      | inr h ↦
          rw (h, update_irq)
            record { line = refl; level = refl; named = interrupt_id-Names s; code = low }
    ]

pub store_rx-IsWired : (c : ℕ) (s : SerialState) → IsWired s → IsWired (store_rx c s)
unfolding store_rx
store_rx-IsWired c s w =
    if-intro IsWired (leb (rx_size - 1) (rx_count s)) {x = record s { lsr = bit_or s.lsr 2 }}
      record { line = w.line; fifo = w.fifo } record { line = w.line; fifo = w.fifo }
