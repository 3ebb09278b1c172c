-- ===== src/MiniVmm/Serial/Irq.antt =====
-- The IRQ line and the interrupt identification register of the 16550A of minivmm.c.
pub mod Update
use virtualization_learning.Base.{
  ℕ, zero, suc, ◌+◌, ◌-◌, ◌*◌, ◌/◌, ◌%◌, ◌^◌, ◌<◌, bit_and, bit_or, bit_xor, ◌≡◌, refl, ap, ◌∙◌,
  Bool, true, false, not, ◌&&◌, ◌||◌, arith, ltb, leb, ◌==◌, nonzero, if◌then◌else◌, if-intro,
  get_or, u8, u16, u32, ◌<<<◌, ◌>>>◌, bit_and-le, bit_and_shifted, bit_and-bit_or, bit_and_assoc,
  bit_and-zero,
}
use virtualization_learning.MiniVmm.Serial.{
  rx_size, SerialState, serial_init, console_output, rx_count, test, clear_bits, interrupt_id,
  update_irq, store_rx, recv, write_thr, write_ier, clear_rcvr, clear_xmit, set_fcr, write_fcr,
  write_reg, take_rx, read_rx, read_iir, read_lsr, loopback_msr, read_msr, read_reg, serial_io,
}
pub use virtualization_learning.MiniVmm.Serial.Irq.Update.{IsDriven}
use virtualization_learning.MiniVmm.Serial.Irq.Update.{
  IsWired, IsDriven→IsWired, update_irq-IsDriven, store_rx-IsWired, interrupt_id-Names,
}

-- A character from the host leaves the line and IIR telling the truth, from a state where the line
-- has the level that was sent last and the FIFO bits of IIR are those of FCR.
recv-IsDriven : (c : ℕ) (s : SerialState) → IsWired s → IsDriven (recv c s)
unfolding recv
recv-IsDriven c s w = update_irq-IsDriven (store_rx c s) (store_rx-IsWired c s w)

write_thr-IsDriven : (val : ℕ) (s : SerialState) → IsWired s → IsDriven (write_thr val s)
unfolding write_thr console_output
write_thr-IsDriven val s w =
    let s2 = if test s.mcr 0x10 then recv val s1 else console_output val s1 in
    update_irq-IsDriven (record s2 { lsr = bit_or s2.lsr 0x60; thr_ipending = true })
      (sent s2 (
        if-intro IsWired (test s.mcr 0x10) (IsDriven→IsWired (recv-IsDriven val s1 w1))
          record { line = w1.line; fifo = w1.fifo }))
  where
    s1 : SerialState
    s1 = record s { thr_ipending = false; lsr = clear_bits s.lsr 0x60 }

    w1 : IsWired s1
    w1 = record { line = w.line; fifo = w.fifo }

    sent :
        (s2 : SerialState)
        → IsWired s2
        → IsWired (record s2 { lsr = bit_or s2.lsr 0x60; thr_ipending = true })
    sent s2 w2 = record { line = w2.line; fifo = w2.fifo }

clear_rcvr-IsWired : (val : ℕ) (s : SerialState) → IsWired s → IsWired (clear_rcvr val s)
unfolding clear_rcvr
clear_rcvr-IsWired val s w = if-intro IsWired (test val 2) record { line = w.line; fifo = w.fifo } w

clear_xmit-IsWired : (val : ℕ) (s : SerialState) → IsWired s → IsWired (clear_xmit val s)
unfolding clear_xmit
clear_xmit-IsWired val s w = if-intro IsWired (test val 4) record { line = w.line; fifo = w.fifo } w

-- Both bits set, and both clear.
fifo_set : (iir : ℕ) → bit_and (bit_or iir 0xc0) 0xc0 ≡ 0xc0
fifo_set iir =
    bit_and-bit_or iir 0xc0 0xc0
    ∙ (ap (λ x. bit_or x (bit_and 0xc0 0xc0)) (bit_and_shifted 6 iir 3)
        ∙ either (bit_and (iir / 2 ^ 6) 3) (omega (arith, bit_and-le (iir / 2 ^ 6) 3)))
  where
    either : (b : ℕ) → b < 4 → bit_or (b * 2 ^ 6) (bit_and 0xc0 0xc0) ≡ 0xc0
    either zero h = refl
    either (suc zero) h = refl
    either (suc (suc zero)) h = refl
    either (suc (suc (suc zero))) h = refl
    either (suc (suc (suc (suc b)))) h = absurd (omega arith)

fifo_clear : (iir : ℕ) → bit_and (clear_bits iir 0xc0) 0xc0 ≡ 0
fifo_clear iir = bit_and_assoc iir 0x3f 0xc0 ∙ bit_and-zero iir

set_fcr-IsWired : (val : ℕ) (s : SerialState) → IsWired s → IsWired (set_fcr val s)
unfolding set_fcr
set_fcr-IsWired val s w = record { line = w.line; fifo = either (test (bit_and val 0xc9) 1) }
  where
    either :
        (b : Bool)
        → bit_and (if b then bit_or s.iir 0xc0 else clear_bits s.iir 0xc0) 0xc0
          ≡ (if b then 0xc0 else 0)
    either true = fifo_set s.iir
    either false = fifo_clear s.iir

write_fcr-IsDriven : (val : ℕ) (s : SerialState) → IsWired s → IsDriven (write_fcr val s)
unfolding write_fcr
write_fcr-IsDriven val s w =
    let val' = if test (bit_xor val s.fcr) 1 then bit_or val 6 else val in
    let s1 = clear_rcvr val' s in
    let s2 = clear_xmit val' s1 in
    update_irq-IsDriven (set_fcr val' s2)
      (set_fcr-IsWired val' s2 (clear_xmit-IsWired val' s1 (clear_rcvr-IsWired val' s w)))

write_reg-IsDriven : (reg val : ℕ) (s : SerialState) → IsDriven s → IsDriven (write_reg reg val s)
unfolding write_reg interrupt_id
write_reg-IsDriven reg val s d =
    if-intro IsDriven (reg == 0)
      (if-intro IsDriven (test s.lcr 0x80)
        {x = record s { divider = bit_or (bit_and s.divider 0xff00) val }}
        record { line = d.line; level = d.level; named = d.named; code = d.code }
        (write_thr-IsDriven val s (IsDriven→IsWired d)))
      (if-intro IsDriven (reg == 1)
        (if-intro IsDriven (test s.lcr 0x80)
          {x = record s { divider = bit_or (bit_and s.divider 0x00ff) (u16 (val <<< 8)) }}
          record { line = d.line; level = d.level; named = d.named; code = d.code } ier)
        (if-intro IsDriven (reg == 2) (write_fcr-IsDriven val s (IsDriven→IsWired d)) (
          if-intro IsDriven (reg == 3) {x = record s { lcr = val }}
            record { line = d.line; level = d.level; named = d.named; code = d.code }
            (if-intro IsDriven (reg == 4) {x = record s { mcr = val }}
              record { line = d.line; level = d.level; named = d.named; code = d.code }
              (if-intro IsDriven (reg == 7) {x = record s { scr = val }}
                record { line = d.line; level = d.level; named = d.named; code = d.code } d)))))
  where
    w : IsWired s
    w = IsDriven→IsWired d

    ier : IsDriven (write_ier val s)
    ier =
        let s1 = record s { ier = bit_and val 0x0f } in
        update_irq-IsDriven
          (record s1 {
            thr_ipending = if test s1.ier 2 && test s1.lsr 0x20 then true else s1.thr_ipending;
          })
          record { line = w.line; fifo = w.fifo }

-- Reading
update_if-IsDriven :
    (b : Bool) {s s' : SerialState}
    → IsDriven s
    → IsWired s'
    → IsDriven (if b then update_irq s' else s)
update_if-IsDriven b {s} {s'} d w = if-intro IsDriven b (update_irq-IsDriven s' w) d

take_rx-IsWired : (s : SerialState) → IsWired s → IsWired (take_rx s).1
unfolding take_rx
take_rx-IsWired s w =
    if-intro {A = ℕ × SerialState} (λ r. IsWired r.1) (nonzero (rx_count s))
      {x = (get_or s.rx_ring (s.rx_tail % rx_size) 0, record s { rx_tail = u32 (s.rx_tail + 1) })}
      {y = (0, s)} record { line = w.line; fifo = w.fifo } w

read_rx-IsDriven : (s : SerialState) → IsWired s → IsDriven (read_rx s).1
unfolding read_rx
read_rx-IsDriven s w =
    let s1 = (take_rx s).1 in
    let w1 = take_rx-IsWired s w in
    update_irq-IsDriven
      (if not (nonzero (rx_count s1)) then record s1 { lsr = clear_bits s1.lsr 0x11 } else s1)
      (if-intro IsWired (not (nonzero (rx_count s1)))
        {x = record s1 { lsr = clear_bits s1.lsr 0x11 }} record { line = w1.line; fifo = w1.fifo }
        w1)

read_msr-IsDriven : (s : SerialState) → IsDriven s → IsDriven (read_msr s).1
unfolding read_msr
read_msr-IsDriven s d =
    let w = IsDriven→IsWired d in
    if-intro {A = ℕ × SerialState} (λ r. IsDriven r.1) (test s.mcr 0x10)
      {x = (loopback_msr s.mcr, s)} d
      (update_if-IsDriven (test s.msr 0x0f) {s' = record s { msr = bit_and s.msr 0xf0 }} d
        record { line = w.line; fifo = w.fifo })

read_reg-IsDriven : (reg : ℕ) (s : SerialState) → IsDriven s → IsDriven (read_reg reg s).1
unfolding read_reg read_iir read_lsr
read_reg-IsDriven reg s d =
    if-intro P (reg == 0)
      (if-intro P (test s.lcr 0x80) {x = (bit_and s.divider 0xff, s)} d (read_rx-IsDriven s w))
      (if-intro P (reg == 1) {x = (if test s.lcr 0x80 then u8 (s.divider >>> 8) else s.ier, s)} d (
        if-intro P (reg == 2) {x = read_iir s}
          (update_if-IsDriven (bit_and s.iir 0x0e == 2) {s' = record s { thr_ipending = false }} d
            record { line = w.line; fifo = w.fifo })
          (if-intro P (reg == 3) {x = (s.lcr, s)} d (
            if-intro P (reg == 4) {x = (s.mcr, s)} d (
              if-intro P (reg == 5) {x = read_lsr s}
                (update_if-IsDriven (test s.lsr 0x12)
                  {s' = record s { lsr = clear_bits s.lsr 0x12 }} d
                  record { line = w.line; fifo = w.fifo })
                (if-intro P (reg == 6) {x = read_msr s} {y = (s.scr, s)} (read_msr-IsDriven s d)
                  d))))))
  where
    P : ℕ × SerialState → Type 0
    P r = IsDriven r.1

    w : IsWired s
    w = IsDriven→IsWired d

-- The variable `running` is no part of it.
pub with_running-IsDriven :
    (running : Bool) {s : SerialState} → IsDriven s → IsDriven (record s { running = running })
unfolding interrupt_id
with_running-IsDriven running d = record {
  line = d.line;
  level = d.level;
  named = d.named;
  code = d.code;
}

-- Any access of the guest to an IO port, and any character from the host, leaves the IRQ line and
-- IIR telling the truth, if they did before: the line has the level last sent to KVM, which is
-- high exactly while an enabled interrupt is pending, and IIR names the one of highest priority,
-- in the order line status, received data, empty transmitter, modem status, with the FIFO bits by
-- FCR.
pub serial_io-IsDriven :
    (s : SerialState)
    → IsDriven s
    → ((port : ℕ) (is_write : Bool) (val : ℕ) → IsDriven (serial_io port is_write val s).2)
      × ((c : ℕ) → IsDriven (recv c s))
unfolding serial_io
serial_io-IsDriven s d = (
  λ port is_write val.
      if-intro P (leb 0x3f8 port && ltb port (0x3f8 + 8))
        (if-intro P is_write {x = (true, val, write_reg (port - 0x3f8) val s)}
          (write_reg-IsDriven (port - 0x3f8) val s d) (read_reg-IsDriven (port - 0x3f8) s d))
        (if-intro P
          ((leb 0x2e8 port && ltb port 0x2f0)
            || ((leb 0x2f8 port && ltb port 0x300) || (leb 0x3e8 port && ltb port 0x3f0)))
          {x = (true, if is_write then val else 0xff, s)} {y = (false, val, s)} d d),
  λ c. recv-IsDriven c s (IsDriven→IsWired d),
)
  where
    P : Bool × ℕ × SerialState → Type 0
    P r = IsDriven r.2

pub serial_init-IsDriven : IsDriven serial_init
unfolding serial_init interrupt_id
serial_init-IsDriven = record {
  line = refl;
  level = refl;
  named = interrupt_id-Names serial_init;
  code = refl;
}
