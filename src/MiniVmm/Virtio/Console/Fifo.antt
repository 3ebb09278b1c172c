-- ===== src/MiniVmm/Virtio/Console/Fifo.antt =====
-- The input of the console (con_in of minivmm.c) as a queue.
use virtualization_learning.Base.{
  ℕ, zero, suc, ◌+◌, ◌-◌, ◌%◌, ◌^◌, ◌≤◌, ◌<◌, ◌≡◌, refl, sym, ap, ◌∙◌, subst, ◌≢◌, true, false,
  none, some, List, [], ◌∷◌, ◌++◌, arith, ◌==◌, if◌then◌else◌, ==_iff, length, u32, length-append,
}
use virtualization_learning.MiniVmm.Virtio.Blk.{write_byte}
use virtualization_learning.MiniVmm.Virtio.Console.{
  con_in_sz, ConIn, con_in_push, con_in_pop, con_in_count,
}

-- The `n` bytes of the buffer from the counter `i` on.
abbrev pub window : (ℕ → ℕ) → ℕ → ℕ → List ℕ
window buf i zero = []
window buf i (suc n) = buf (i % con_in_sz) ∷ window buf (suc i) n

-- Between the tail and the head the input holds the bytes of `q`, oldest first.
pub record Holds (c : ConIn) (q : List ℕ) : Type 0 where
  pub head_bound : c.head < 2 ^ 32
  pub tail_bound : c.tail < 2 ^ 32
  pub count : u32 (c.head + 2 ^ 32 - c.tail) ≡ length q
  pub room : length q ≤ con_in_sz
  pub contents : window c.buf c.tail (length q) ≡ q

cons-eq : {x y : ℕ} {xs ys : List ℕ} → x ≡ y → xs ≡ ys → x ∷ xs ≡ y ∷ ys
cons-eq {x} {ys = ys} p q = ap (◌∷◌ x) q ∙ ap (λ h. h ∷ ys) p

window-wrap :
    (buf : ℕ → ℕ) (i j n : ℕ) → i % con_in_sz ≡ j % con_in_sz → window buf i n ≡ window buf j n
window-wrap buf i j zero e = refl
window-wrap buf i j (suc n) e =
    cons-eq (ap buf e) (window-wrap buf (suc i) (suc j) n (omega (arith, e)))

window-snoc :
    (buf : ℕ → ℕ) (i n : ℕ)
    → window buf i (suc n) ≡ window buf i n ++ buf ((i + n) % con_in_sz) ∷ []
window-snoc buf i zero = ap (λ k. buf (k % con_in_sz) ∷ []) (sym add_zero)
  where
    add_zero : i + 0 ≡ i
    add_zero = omega arith
window-snoc buf i (suc n) =
    ap (◌∷◌ (buf (i % con_in_sz)))
      (window-snoc buf (suc i) n ∙ ap (λ k. window buf (suc i) n ++ buf (k % con_in_sz) ∷ []) shift)
  where
    shift : suc i + n ≡ i + suc n
    shift = omega arith

write_byte_self : (buf : ℕ → ℕ) (at b : ℕ) → write_byte buf at b at ≡ b
unfolding write_byte
write_byte_self buf at b = ap (λ t. if t then b else buf at) self
  where
    self : (at == at) ≡ true
    self = ground arith

write_byte_ne : (buf : ℕ → ℕ) {at a : ℕ} (b : ℕ) → a ≢ at → write_byte buf at b a ≡ buf a
unfolding write_byte
write_byte_ne buf {at = at} {a = a} b h = ap (λ t. if t then b else buf a) other
  where
    other : (a == at) ≡ false
    other = ground (arith, h)

-- A write behind the window, which is not longer than the buffer.
window-write_byte :
    (buf : ℕ → ℕ) (b i n m : ℕ)
    → n ≤ m
    → m < con_in_sz
    → window (write_byte buf ((i + m) % con_in_sz) b) i n ≡ window buf i n
window-write_byte buf b i zero m h k = refl
window-write_byte buf b i (suc n) zero h k = absurd (omega arith)
window-write_byte buf b i (suc n) (suc m) h k = cons-eq (write_byte_ne buf b apart) (
    ap (λ k. window (write_byte buf (k % con_in_sz) b) (suc i) n) shift
    ∙ window-write_byte buf b (suc i) n m (omega arith) (omega arith))
  where
    apart : i % con_in_sz ≢ (i + suc m) % con_in_sz
    apart e = omega (arith, e)

    shift : i + suc m ≡ suc i + m
    shift = omega arith

module _ (c : ConIn) (q : List ℕ) (h : Holds c q) (b : ℕ) (fits : length q < con_in_sz) where
  at_head : c.head % con_in_sz ≡ (c.tail + length q) % con_in_sz
  at_head = omega (arith, h.count, h.head_bound, h.tail_bound, fits)

  push_byte-Holds :
      Holds
        (record c { buf = write_byte c.buf (c.head % con_in_sz) b; head = u32 (c.head + 1) })
        (q ++ b ∷ [])
  push_byte-Holds = record {
    head_bound = omega arith;
    tail_bound = h.tail_bound;
    count = omega (arith, longer, h.count, h.head_bound, h.tail_bound, fits);
    room = omega (arith, longer, fits);
    contents =
        ap (window buf' c.tail) longer
        ∙ (window-snoc buf' c.tail (length q)
            ∙ (ap (λ xs. xs ++ buf' ((c.tail + length q) % con_in_sz) ∷ []) kept
                ∙ ap (λ x. q ++ x ∷ []) last));
  }
    where
      buf' : ℕ → ℕ
      buf' = write_byte c.buf (c.head % con_in_sz) b

      longer : length (q ++ b ∷ []) ≡ suc (length q)
      longer = omega (arith, length-append q (b ∷ []))

      kept : window buf' c.tail (length q) ≡ q
      kept =
          ap (λ k. window (write_byte c.buf k b) c.tail (length q)) at_head
          ∙ (window-write_byte c.buf b c.tail (length q) (length q) (omega arith) fits ∙ h.contents)

      last : buf' ((c.tail + length q) % con_in_sz) ≡ b
      last = ap buf' (sym at_head) ∙ write_byte_self c.buf (c.head % con_in_sz) b

append_one : (q bs : List ℕ) (b : ℕ) → (q ++ b ∷ []) ++ bs ≡ q ++ b ∷ bs
append_one [] bs b = refl
append_one (x ∷ q) bs b = ap (◌∷◌ x) (append_one q bs b)

-- Bytes that fit are appended.
pub con_in_push-Holds :
    (bs : List ℕ) (c : ConIn) (q : List ℕ)
    → Holds c q
    → length q + length bs ≤ con_in_sz
    → Holds (con_in_push bs c) (q ++ bs)
unfolding con_in_push
con_in_push-Holds [] c q h fits = subst (Holds c) (sym (append_nil q)) h
  where
    append_nil : (xs : List ℕ) → xs ++ [] ≡ xs
    append_nil [] = refl
    append_nil (x ∷ xs) = ap (◌∷◌ x) (append_nil xs)
con_in_push-Holds (b ∷ bs) c q h fits =
    let c' : ConIn = record c {
      buf = write_byte c.buf (c.head % con_in_sz) b;
      head = u32 (c.head + 1);
    } in
    subst (Holds (con_in_push bs c')) (append_one q bs b) (
      con_in_push-Holds bs c' (q ++ b ∷ []) (push_byte-Holds c q h b (omega (arith, fits)))
        (omega (arith, fits, length-append q (b ∷ []))))

pub con_in_count-Holds : (c : ConIn) (q : List ℕ) → Holds c q → con_in_count c ≡ length q
unfolding con_in_count
con_in_count-Holds c q h = h.count

pub con_in_pop-empty : (c : ConIn) → Holds c [] → con_in_pop c ≡ none
unfolding con_in_pop
con_in_pop-empty c h =
    let same : (c.tail == c.head) ≡ true =
      (==_iff c.tail c.head).1 (omega (arith, h.count, h.head_bound, h.tail_bound)) in
    rw same

-- The oldest byte comes first.
pub con_in_pop-Holds :
    (c : ConIn) (b : ℕ) (q : List ℕ)
    → Holds c (b ∷ q)
    → (con_in_pop c ≡ some (b, record c { tail = u32 (c.tail + 1) }))
      × Holds (record c { tail = u32 (c.tail + 1) }) q
unfolding con_in_pop
con_in_pop-Holds c b q h = (
  rw other (ap (λ x. some (x, record c { tail = u32 (c.tail + 1) })) first),
  record {
    head_bound = h.head_bound;
    tail_bound = omega arith;
    count = omega (arith, h.count, h.head_bound, h.tail_bound, h.room);
    room = omega (arith, h.room);
    contents =
        window-wrap c.buf (u32 (c.tail + 1)) (suc c.tail) (length q) (omega arith)
        ∙ ap rest h.contents;
  },
)
  where
    rest : List ℕ → List ℕ
    rest [] = []
    rest (x ∷ xs) = xs

    front : List ℕ → ℕ
    front [] = 0
    front (x ∷ xs) = x

    first : c.buf (c.tail % con_in_sz) ≡ b
    first = ap front h.contents

    differ : c.tail ≢ c.head
    differ e = omega (arith, e, h.count, h.head_bound, h.tail_bound)

    other : (c.tail == c.head) ≡ false
    other = ground (arith, differ)
