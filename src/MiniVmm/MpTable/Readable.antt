-- ===== src/MiniVmm/MpTable/Readable.antt =====
-- The MP table of build_mptable (minivmm.c) as its reader sees it.
use virtualization_learning.Base.{
  Bool, replicate, ℕ, zero, suc, ◌+◌, ◌*◌, ◌/◌, ◌%◌, ◌^◌, ◌≤◌, ◌<◌, ◌≡◌, refl, ap, ◌∙◌, ◌&&◌,
  Option, none, some, List, [], ◌∷◌, ◌++◌, arith, ◌==◌, if◌then◌else◌, ==_iff, length, set, get_or,
  take, drop, u8, u16, length-append, length-set, take-all,
}
use virtualization_learning.MiniVmm.Boot.{mp_checksum}
use virtualization_learning.MiniVmm.Boot.Checksum.{total, total-mp_checksum}
use virtualization_learning.MiniVmm.MpTable.{
  MpEntry, processor, bus, ioapic, intsrc, lintsrc, encode, encode_all, mp_header, mp_config,
}

-- An entry as an operating system reads it, by the layouts of the MultiProcessor Specification:
-- the APIC ID, version and flags of a processor, with its 16 other bytes; the ID and name of a
-- bus; the ID, version, flags and address of an IOAPIC; and of an interrupt its kind, flags, bus,
-- line, destination APIC and pin.
pub data Parsed : Type 0 where
  a_processor : ℕ → ℕ → ℕ → List ℕ → Parsed
  a_bus : ℕ → List ℕ → Parsed
  an_ioapic : ℕ → ℕ → ℕ → ℕ → Parsed
  an_interrupt : ℕ → ℕ → ℕ → ℕ → ℕ → ℕ → Parsed
  a_local_interrupt : ℕ → ℕ → ℕ → ℕ → ℕ → ℕ → Parsed

-- What each entry is to say: the enabled boot processor with APIC ID 0; a bus; the enabled IOAPIC
-- with ID 0 at its address; an ISA interrupt, which goes to the pin of the same number of IOAPIC
-- 0; and a pin of the local APIC of processor 0, for interrupts of bus 0.
abbrev pub meaning : MpEntry → Parsed
meaning processor = a_processor 0 0x14 3 (replicate 16 0)
meaning (bus id name) = a_bus id name
meaning ioapic = an_ioapic 0 0x11 1 0xfec00000
meaning (intsrc irq) = an_interrupt 0 0 0 irq 0 irq
meaning (lintsrc irqtype lint) = a_local_interrupt irqtype 0 0 0 0 lint

abbrev pub meanings : List MpEntry → List Parsed
meanings [] = []
meanings (e ∷ es) = meaning e ∷ meanings es

-- Two and four bytes, the lowest first.
abbrev read16 : List ℕ → ℕ → ℕ
read16 bs at = get_or bs at 0 + 256 * get_or bs (at + 1) 0

abbrev read32 : List ℕ → ℕ → ℕ
read32 bs at = read16 bs at + 65536 * read16 bs (at + 2)

-- The entry that starts with these bytes, by its type, and the bytes after it.
abbrev pub decode_one : List ℕ → Option (Parsed × List ℕ)
decode_one bs =
    let type = get_or bs 0 0xff in
    let after = drop 8 bs in
    if type == 0
    then some (
      a_processor (get_or bs 1 0) (get_or bs 2 0) (get_or bs 3 0) (take 16 (drop 4 bs)),
      drop 20 bs,
    )
    else if type == 1
    then some (a_bus (get_or bs 1 0) (take 6 (drop 2 bs)), after)
    else if type == 2
    then some (an_ioapic (get_or bs 1 0) (get_or bs 2 0) (get_or bs 3 0) (read32 bs 4), after)
    else if type == 3
    then some (
      an_interrupt (get_or bs 1 0) (read16 bs 2) (get_or bs 4 0) (get_or bs 5 0) (get_or bs 6 0)
          (get_or bs 7 0),
      after,
    )
    else if type == 4
    then some (
      a_local_interrupt (get_or bs 1 0) (read16 bs 2) (get_or bs 4 0) (get_or bs 5 0)
          (get_or bs 6 0) (get_or bs 7 0),
      after,
    )
    else none

abbrev cons_entry : Parsed → Option (List Parsed) → Option (List Parsed)
cons_entry e none = none
cons_entry e (some es) = some (e ∷ es)

abbrev then_entry :
    Option (Parsed × List ℕ) → (List ℕ → Option (List Parsed)) → Option (List Parsed)
then_entry none rest = none
then_entry (some (e, bs)) rest = cons_entry e (rest bs)

-- The entries that the bytes hold one after the other, at most so many.
pub decode_all : ℕ → List ℕ → Option (List Parsed)
decode_all n [] = some []
decode_all zero (b ∷ bs) = none
decode_all (suc n) (b ∷ bs) = then_entry (decode_one (b ∷ bs)) (λ rest. decode_all n rest)

-- The header that an operating system asks for: the signature PCMP, revision 4 of the
-- specification, and the address of the local APICs.
is_header : List ℕ → Bool
is_header table =
    get_or table 0 0 == b'P'
    && (get_or table 1 0 == b'C'
        && (get_or table 2 0 == b'M'
            && (get_or table 3 0 == b'P'
                && (get_or table 6 0 == 4 && read32 table 36 == 0xfee00000))))

-- The reader of a table: the header must be one, the bytes must sum to 0 modulo 256, and the
-- length must be that of the table.
pub decode_config : List ℕ → Option (List Parsed)
unfolding is_header decode_all
decode_config table =
    if is_header table && (total table % 256 == 0 && read16 table 4 == length table)
    then decode_all (length table) (drop 44 table)
    else none

-- The numbers of an entry are bytes, and the name of a bus has six.
abbrev pub IsEntry : MpEntry → Type 0
IsEntry processor = Unit
IsEntry (bus id name) = (id < 256) × (length name ≡ 6)
IsEntry ioapic = Unit
IsEntry (intsrc irq) = irq < 256
IsEntry (lintsrc irqtype lint) = (irqtype < 256) × (lint < 256)

abbrev pub AllEntries : List MpEntry → Type 0
AllEntries [] = Unit
AllEntries (e ∷ es) = IsEntry e × AllEntries es

byte : (n : ℕ) → n < 256 → n % 2 ^ 8 ≡ n
byte n h = omega (arith, h)

decode_one-encode :
    (e : MpEntry) (rest : List ℕ)
    → IsEntry e
    → decode_one (encode e ++ rest) ≡ some (meaning e, rest)
decode_one-encode processor rest h = refl
decode_one-encode (bus id name) rest (h, six) = named name six
  where
    named :
        (name : List ℕ)
        → length name ≡ 6
        → decode_one (encode (bus id name) ++ rest) ≡ some (a_bus id name, rest)
    named (a ∷ b ∷ c ∷ d ∷ e ∷ f ∷ []) six =
        ap (λ i. some (a_bus i (a ∷ b ∷ c ∷ d ∷ e ∷ f ∷ []), rest)) (byte id h)
    named [] six = absurd (omega (arith, six))
    named (a ∷ []) six = absurd (omega (arith, six))
    named (a ∷ b ∷ []) six = absurd (omega (arith, six))
    named (a ∷ b ∷ c ∷ []) six = absurd (omega (arith, six))
    named (a ∷ b ∷ c ∷ d ∷ []) six = absurd (omega (arith, six))
    named (a ∷ b ∷ c ∷ d ∷ e ∷ []) six = absurd (omega (arith, six))
    named (a ∷ b ∷ c ∷ d ∷ e ∷ f ∷ g ∷ more) six = absurd (omega (arith, six))
decode_one-encode ioapic rest h = refl
decode_one-encode (intsrc irq) rest h = ap (λ i. some (an_interrupt 0 0 0 i 0 i, rest)) (byte irq h)
decode_one-encode (lintsrc t l) rest (h, k) =
    ap (λ i. some (a_local_interrupt i 0 0 0 0 (u8 l), rest)) (byte t h)
    ∙ ap (λ i. some (a_local_interrupt t 0 0 0 0 i, rest)) (byte l k)

encode_pos : (e : MpEntry) → 0 < length (encode e)
encode_pos processor = omega arith
encode_pos (bus id name) = omega arith
encode_pos ioapic = omega arith
encode_pos (intsrc irq) = omega arith
encode_pos (lintsrc t l) = omega arith

decode_step :
    (n : ℕ) (bs rest : List ℕ) (e : Parsed)
    → 0 < length bs
    → decode_one bs ≡ some (e, rest)
    → decode_all (suc n) bs ≡ cons_entry e (decode_all n rest)
unfolding decode_all
decode_step n [] rest e some_bytes d = absurd (omega (arith, some_bytes))
decode_step n (b ∷ bs) rest e some_bytes d = ap (λ o. then_entry o (λ r. decode_all n r)) d

decode_all-encode_all :
    (es : List MpEntry) (n : ℕ)
    → AllEntries es
    → length (encode_all es) ≤ n
    → decode_all n (encode_all es) ≡ some (meanings es)
unfolding decode_all encode_all
decode_all-encode_all [] zero h enough = refl
decode_all-encode_all [] (suc n) h enough = refl
decode_all-encode_all (e ∷ es) zero (h, hs) enough =
    absurd (omega (arith, enough, encode_pos e, length-append (encode e) (encode_all es)))
decode_all-encode_all (e ∷ es) (suc n) (h, hs) enough =
    let long = length-append (encode e) (encode_all es) in
    decode_step n (encode e ++ encode_all es) (encode_all es) (meaning e)
      (omega (arith, encode_pos e, long)) (decode_one-encode e (encode_all es) h)
    ∙ ap (cons_entry (meaning e))
        (decode_all-encode_all es n hs (omega (arith, enough, encode_pos e, long)))

-- A table of any entries, whose numbers fit their bytes, that has fewer than 2^16 bytes is read
-- back: its header has the signature, the revision and the address of the local APICs, its length
-- is stored, its bytes sum to 0 modulo 256, and the walk by the types of the entries gives, in
-- order, every field that each entry is to have.
pub decode_config-mp_config :
    (es : List MpEntry)
    → AllEntries es
    → 44 + length (encode_all es) < 2 ^ 16
    → decode_config (mp_config es) ≡ some (meanings es)
unfolding decode_config mp_config
decode_config-mp_config es h small =
    let summed : total (set table 7 sum) % 256 ≡ 0 =
      ap (λ bs. total (set table 7 (mp_checksum bs)) % 256) whole
      ∙ total-mp_checksum table 7 (omega (arith, size)) refl in
    let stored : len % 256 + 256 * (len / 256 % 256) ≡ length (set table 7 sum) =
      omega (arith, size, small, length-set table 7 sum) in
    rw
      (
        (==_iff (total (set table 7 sum) % 256) 0).1 summed,
        (==_iff (len % 256 + 256 * (len / 256 % 256)) (length (set table 7 sum))).1 stored,
      )
      (decode_all-encode_all es (length (set table 7 sum)) h
        (omega (arith, size, length-set table 7 sum)))
  where
    body : List ℕ
    body = encode_all es

    len : ℕ
    len = u16 (44 + length body)

    table : List ℕ
    table = mp_header len ++ body

    sum : ℕ
    sum = mp_checksum (take len table)

    size : length table ≡ 44 + length body
    size = omega arith

    whole : take len table ≡ table
    whole = take-all len table (omega (arith, size, small))
