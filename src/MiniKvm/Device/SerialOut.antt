-- ===== src/MiniKvm/Device/SerialOut.antt =====
-- The serial capture of device.c: a linear buffer of 512 bytes that keeps the first 511.
use virtualization_learning.Base.{
  false, ℕ, zero, suc, ◌+◌, ◌-◌, ◌≤◌, ◌<◌, ◌≡◌, refl, sym, ap, ◌∙◌, ◌≢◌, ◌⊎◌, inl, inr, List, [],
  ◌∷◌, ◌++◌, arith, dec_lt, ltb, ◌==◌, ltb→lt, lt→ltb, tests, Bool-cases, length, set, get_or, take,
  drop, length-append, length-set, length-take, take-all, take-append_left, take-take-append,
  take-set, get_or-set_self,
}
use native.Mathlib.Numerals.{add-one}
use mathlib.Core.List.{append-nil, append_assoc}
use virtualization_learning.MiniKvm.{serial_size, Capture}
use virtualization_learning.MiniKvm.Device.{
  line_start, c_string, last_line, append_byte, serial_out,
}

pub record IsValid (kvm : Capture) : Type 0 where
  pub size : length kvm.serial ≡ serial_size
  pub len : kvm.serial_len < serial_size

-- The bytes captured so far.
abbrev pub captured : Capture → List ℕ
captured kvm = take kvm.serial_len kvm.serial

-- The guest writes these bytes to the port, in order.
unfoldable pub serial_out_all : Capture → List ℕ → Capture
serial_out_all kvm [] = kvm
serial_out_all kvm (c ∷ cs) = serial_out_all (serial_out kvm c) cs

pub serial_out-IsValid : {kvm : Capture} (c : ℕ) → IsValid kvm → IsValid (serial_out kvm c)
unfolding serial_out
serial_out-IsValid {kvm} c v = ground (arith, length-set kvm.serial kvm.serial_len c)

captured-append_byte :
    {kvm : Capture} (c : ℕ)
    → IsValid kvm
    → captured (append_byte kvm c) ≡ take 511 (captured kvm ++ c ∷ [])
unfolding append_byte
captured-append_byte {kvm} c v = elim (Bool-cases (ltb serial_len 511)) [
  | inl room ↦
      let short : length (captured kvm ++ c ∷ []) ≤ 511 = omega (
        tests,
        room,
        length-append (captured kvm) (c ∷ []),
        length-take serial_len serial,
        ltb→lt serial_len 511 room,
      ) in
      rw
        (
          room,
          add-one,
          take-set serial serial_len c (omega (arith, v.size, v.len)),
          take-all 511 _ short,
        )
        refl
  | inr full ↦
      let last : 511 ≡ length (captured kvm) =
        ground (arith, length-take serial_len serial, v.size, v.len) in
      rw
        (
          full,
          take-append_left 511 (captured kvm) (c ∷ []) (omega (arith, last)),
          take-all 511 (captured kvm) (omega (arith, last)),
        )
        refl
]
  where
    open kvm use {serial, serial_len}

-- One byte more is kept if it is among the first 511.
captured-serial_out :
    {kvm : Capture} (c : ℕ)
    → IsValid kvm
    → captured (serial_out kvm c) ≡ take 511 (captured kvm ++ c ∷ [])
unfolding serial_out
captured-serial_out {kvm} c v = ground (arith, captured-append_byte c v)

-- Whatever the guest writes to COM1, the buffer holds the first 511 bytes of the output, in order,
-- and its length stays below 512.
pub captured-serial_out_all :
    (cs : List ℕ) {kvm : Capture}
    → IsValid kvm
    → (captured (serial_out_all kvm cs) ≡ take 511 (captured kvm ++ cs))
      × IsValid (serial_out_all kvm cs)
unfolding serial_out_all
captured-serial_out_all [] {kvm} v = (
  rw append-nil
      (sym (take-all 511 (captured kvm) (omega (arith, length-take kvm.serial_len kvm.serial)))),
  v,
)
captured-serial_out_all (c ∷ cs) {kvm} v =
    let (kept, valid) = captured-serial_out_all cs (serial_out-IsValid c v) in
    (
      kept
          ∙ (rw
              (
                captured-serial_out c v,
                take-take-append 511 (captured kvm ++ c ∷ []) cs,
                append_assoc,
              )
              refl),
      valid,
    )

-- Where a line starts
line_start_lem :
    (serial : List ℕ) (n : ℕ)
    → let s = line_start serial n in
      (s ≤ n)
      × ((s ≡ 0) ⊎ (get_or serial (s - 1) 0 ≡ b'\n'))
      × ((i : ℕ) → s ≤ i → i < n → get_or serial i 0 ≢ b'\n')
unfolding line_start
line_start_lem serial zero = (omega arith, inl refl, λ i h k. absurd (omega arith))
line_start_lem serial (suc n) = elim (Bool-cases (get_or serial n 0 == b'\n')) [
  | inl hit ↦ rw (hit, line_start) (omega arith, inr (ground arith), λ i h k. absurd (omega arith))
  | inr miss ↦
      let (le, edge, clean) = line_start_lem serial n in
      rw (miss, line_start)
        (
          omega arith,
          edge,
          λ i h k e. elim (dec_lt i n) [
            | yes p ↦ clean i h p e
            | no p ↦
                let same : i ≡ n = omega arith in ground (arith, ap (λ j. get_or serial j 0) same)
          ],
        )
]

serial_out-full :
    (kvm : Capture) (c : ℕ)
    → kvm.serial_len ≡ 511
    → ((serial_out kvm c).serial ≡ kvm.serial) × ((serial_out kvm c).serial_len ≡ kvm.serial_len)
unfolding serial_out
serial_out-full kvm c e = ground arith

-- The buffer is full: it stays as it is.
serial_out_all-full :
    (cs : List ℕ) (kvm : Capture)
    → kvm.serial_len ≡ 511
    → ((serial_out_all kvm cs).serial ≡ kvm.serial)
      × ((serial_out_all kvm cs).serial_len ≡ kvm.serial_len)
unfolding serial_out_all
serial_out_all-full [] kvm e = (refl, refl)
serial_out_all-full (c ∷ cs) kvm e = ground (arith, one, serial_out_all-full cs (serial_out kvm c))
  where
    one :
        ((serial_out kvm c).serial ≡ kvm.serial) × ((serial_out kvm c).serial_len ≡ kvm.serial_len)
    one = serial_out-full kvm c e

-- Bytes without a 0 are printed whole.
c_string-nonzero : (bs : List ℕ) → ((i : ℕ) → i < length bs → get_or bs i 0 ≢ 0) → c_string bs ≡ bs
unfolding c_string
c_string-nonzero [] h = refl
c_string-nonzero (b ∷ bs) h =
    let first : (b == 0) ≡ false = ground (arith, h zero (omega arith)) in
    rw (first, c_string-nonzero bs (λ i k. h (suc i) (omega (arith, k)))) refl

-- When a newline fits into the buffer, what is logged is, up to a byte of 0 and whole where there
-- is none, a suffix of what is captured with the newline: it starts at the start of the buffer or
-- behind a newline, and no other newline is in it.
pub serial_out-logs :
    (kvm : Capture)
    → IsValid kvm
    → kvm.serial_len < 511
    → let kvm' = serial_out kvm b'\n' in
      (start : ℕ) × (kvm'.dmesg
        ≡ c_string (take (kvm'.serial_len - start) (drop start kvm'.serial)) ∷ kvm.dmesg)
      × (let line = take (kvm'.serial_len - start) (drop start kvm'.serial) in
          ((i : ℕ) → i < length line → get_or line i 0 ≢ 0) → c_string line ≡ line)
      × (start < kvm'.serial_len)
      × ((start ≡ 0) ⊎ (get_or kvm'.serial (start - 1) 0 ≡ b'\n'))
      × ((i : ℕ) → start ≤ i → i + 1 < kvm'.serial_len → get_or kvm'.serial i 0 ≢ b'\n')
      × (get_or kvm'.serial (kvm'.serial_len - 1) 0 ≡ b'\n')
unfolding serial_out last_line
serial_out-logs kvm v h =
    let s = set kvm.serial kvm.serial_len b'\n' in
    let (le, edge, clean) = line_start_lem s (kvm.serial_len + 1 - 1) in
    let last : kvm.serial_len + 1 - 1 ≡ kvm.serial_len = omega arith in
    rw (lt→ltb kvm.serial_len 511 h, append_byte)
      (
        line_start s (kvm.serial_len + 1 - 1),
        refl,
        λ nz. c_string-nonzero _ nz,
        omega arith,
        edge,
        λ i lo hi. clean i lo (omega arith),
        rw last (get_or-set_self kvm.serial kvm.serial_len b'\n' 0 (omega arith)),
      )

-- Once the buffer is full, every newline logs the same line: the end of the buffer, whatever was
-- written since.
pub serial_out-full_stale :
    (kvm : Capture) (cs : List ℕ)
    → kvm.serial_len ≡ 511
    → (serial_out (serial_out_all kvm cs) b'\n').dmesg
      ≡ last_line kvm.serial 511 ∷ (serial_out_all kvm cs).dmesg
unfolding serial_out
serial_out-full_stale kvm cs e = ground (arith, serial_out_all-full cs kvm e)
