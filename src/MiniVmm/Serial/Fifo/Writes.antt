-- ===== src/MiniVmm/Serial/Fifo/Writes.antt =====
-- The registers that minivmm.c's 16550A writes, and the receive FIFO.
use virtualization_learning.Base.{
  ℕ, ◌-◌, bit_and, bit_or, bit_xor, ◌≡◌, refl, sym, ap, ◌∙◌, subst, inl, inr, Bool, true, false,
  not, ◌&&◌, ◌||◌, List, [], arith, ◌==◌, nonzero, if◌then◌else◌, Bool-cases, if-intro, u16, ◌<<<◌,
  set-outside, keep-all, keep-none, set-bit,
}
use virtualization_learning.MiniVmm.Serial.{
  SerialState, console_output, test, clear_bits, update_irq, recv, write_thr, write_ier, clear_rcvr,
  clear_xmit, set_fcr, write_fcr, write_reg,
}
use virtualization_learning.MiniVmm.Serial.Fifo.{
  IsRing, Holds, push, rest, relabel, update_irq-Holds, recv-Holds,
}

-- What a write to a register does to the queue. The divisor latch hides the data register.
thr_queue : ℕ → SerialState → List ℕ → List ℕ
thr_queue val s q = if test s.lcr 0x80 then q else if test s.mcr 0x10 then push val q else q

fcr_queue : ℕ → SerialState → List ℕ → List ℕ
fcr_queue val s q = if test val 2 || test (bit_xor val s.fcr) 1 then [] else q

unfoldable pub queue_write : ℕ → ℕ → SerialState → List ℕ → List ℕ
unfolding thr_queue fcr_queue
queue_write reg val s q =
    if reg == 0 then thr_queue val s q else if reg == 2 then fcr_queue val s q else q

unfoldable pub queue_read : ℕ → SerialState → List ℕ → List ℕ
queue_read reg s q = if reg == 0 && not (test s.lcr 0x80) then rest q else q

write_thr-Holds :
    (val : ℕ) (s : SerialState) (q : List ℕ)
    → Holds s q
    → Holds (write_thr val s) (if test s.mcr 0x10 then push val q else q)
unfolding write_thr
write_thr-Holds val s q r =
    let s2 = if test s.mcr 0x10 then recv val s1 else console_output val s1 in
    sent s2 (if test s.mcr 0x10 then push val q else q) (either (test s.mcr 0x10))
  where
    s1 : SerialState
    s1 = record s { thr_ipending = false; lsr = clear_bits s.lsr 0x60 }

    r1 : Holds s1 q
    r1 = relabel r (keep-all s.lsr (255 - 0x60) 1 refl)

    either :
        (b : Bool)
        → Holds (if b then recv val s1 else console_output val s1) (if b then push val q else q)
    either true = recv-Holds val s1 q r1
    either false = r1

    sent :
        (s2 : SerialState) (q2 : List ℕ)
        → Holds s2 q2
        → Holds (update_irq (record s2 { lsr = bit_or s2.lsr 0x60; thr_ipending = true })) q2
    sent s2 q2 r2 =
        update_irq-Holds (record s2 { lsr = bit_or s2.lsr 0x60; thr_ipending = true }) q2
          (relabel r2 (set-outside s2.lsr 0x60 1 refl))

write_ier-Holds : (val : ℕ) (s : SerialState) (q : List ℕ) → Holds s q → Holds (write_ier val s) q
unfolding write_ier
write_ier-Holds val s q r =
    let s1 = record s { ier = bit_and val 0x0f } in
    update_irq-Holds
      (record s1 {
        thr_ipending = if test s1.ier 2 && test s1.lsr 0x20 then true else s1.thr_ipending;
      })
      q r

emptied :
    {ring : List ℕ} {head tail lsr : ℕ} {q : List ℕ}
    → IsRing ring head tail lsr q
    → IsRing ring 0 0 (clear_bits lsr 0x11) []
emptied {lsr = lsr} r = record {
  size = r.size;
  head_bound = omega arith;
  tail_bound = omega arith;
  count = refl;
  room = omega arith;
  contents = refl;
  ready = keep-none lsr (255 - 0x11) 1 refl;
}

clear_rcvr-Holds :
    (val : ℕ) (s : SerialState) (q : List ℕ)
    → Holds s q
    → Holds (clear_rcvr val s) (if test val 2 then [] else q)
unfolding clear_rcvr
clear_rcvr-Holds val s q r = elim (Bool-cases (test val 2)) [
  | inl h ↦ rw h (emptied r)
  | inr h ↦ rw h r
]

clear_xmit-Holds : (val : ℕ) (s : SerialState) (q : List ℕ) → Holds s q → Holds (clear_xmit val s) q
unfolding clear_xmit
clear_xmit-Holds val s q r =
    if-intro (λ t. Holds t q) (test val 4)
      {x = record s { lsr = bit_or s.lsr 0x20; thr_ipending = true }} {y = s}
      (relabel r (set-outside s.lsr 0x20 1 refl)) r

-- Changing the FIFO enable bit clears both FIFOs.
clears : (val b : Bool) (v : ℕ) → (val ≡ test v 2) → test (if b then bit_or v 6 else v) 2 ≡ val || b
clears val true v e = ap nonzero (set-bit 1 v 6 2 refl refl refl) ∙ sym (or-true val)
  where
    or-true : (a : Bool) → a || true ≡ true
    or-true true = refl
    or-true false = refl
clears val false v e = sym e ∙ sym (or-false val)
  where
    or-false : (a : Bool) → a || false ≡ a
    or-false true = refl
    or-false false = refl

write_fcr-Holds :
    (val : ℕ) (s : SerialState) (q : List ℕ)
    → Holds s q
    → Holds (write_fcr val s) (fcr_queue val s q)
unfolding write_fcr set_fcr fcr_queue
write_fcr-Holds val s q r =
    let toggled = test (bit_xor val s.fcr) 1 in
    let val' = if toggled then bit_or val 6 else val in
    let s1 = clear_rcvr val' s in
    let s2 = clear_xmit val' s1 in
    let q' = if test val' 2 then [] else q in
    subst (λ b. Holds (update_irq (set_fcr val' s2)) (if b then [] else q))
      (clears (test val 2) toggled val refl)
      (update_irq-Holds (set_fcr val' s2) q'
        (clear_xmit-Holds val' s1 q' (clear_rcvr-Holds val' s q r)))

pub write_reg-Holds :
    (reg val : ℕ) (s : SerialState) (q : List ℕ)
    → Holds s q
    → Holds (write_reg reg val s) (queue_write reg val s q)
unfolding write_reg queue_write thr_queue
write_reg-Holds reg val s q r = elim (Bool-cases (reg == 0)) [
  | inl h ↦ rw h (elim (Bool-cases (test s.lcr 0x80)) [
    | inl d ↦ rw d r
    | inr d ↦ rw d (write_thr-Holds val s q r)
  ])
  | inr h ↦ rw h (elim (Bool-cases (reg == 2)) [
    | inl e ↦ rw (e, not_one e) (write_fcr-Holds val s q r)
    | inr e ↦ rw e (others (reg == 1) (test s.lcr 0x80) (reg == 3) (reg == 4) (reg == 7))
  ])
]
  where
    not_one : (reg == 2) ≡ true → (reg == 1) ≡ false
    not_one e = ground arith

    others :
        (one latch three four seven : Bool)
        → Holds
            (if one
              then (if latch
                  then record s { divider = bit_or (bit_and s.divider 0x00ff) (u16 (val <<< 8)) }
                  else write_ier val s)
              else if three
              then record s { lcr = val }
              else if four
              then record s { mcr = val }
              else if seven
              then record s { scr = val }
              else s)
            q
    others true true three four seven = r
    others true false three four seven = write_ier-Holds val s q r
    others false latch true four seven = r
    others false latch false true seven = r
    others false latch false false true = r
    others false latch false false false = r
