-- ===== src/MiniVmm/Pci/Passthrough/Safe.antt =====
-- Which accesses of the guest make handle_pt_mmio (minivmm.c) leave an array of the program.
use virtualization_learning.Base.{
  ℕ, ◌+◌, ◌-◌, ◌≡◌, refl, ap, ◌∙◌, Bool, true, false, not, ◌&&◌, Option, none, some, List, arith,
  ltb, leb, ◌==◌, if◌then◌else◌, length, u32, ◌*◌, ◌%◌, ◌^◌, ◌≤◌, ◌<◌, ◌≢◌, ◌⊎◌, inl, inr, ◌↔◌, sym,
  Bool-cases, ==_iff,
}
use virtualization_learning.MiniVmm.Virtio.Mmio.{MmioExit}
use virtualization_learning.MiniVmm.Pci.Passthrough.{
  Host, Passthrough, memcpy_to, memcpy_from, device_access, count_notify, vector_bytes,
  store_vectors, then_access, handle_bar0_legacy, write_table, read_table, table_access, find_mmio,
  in_table, taken, found_access, handle_pt_mmio,
}

abbrev pub is_fault {ℓ} : {A : Type ℓ} → Option A → Bool
is_fault none = true
is_fault (some a) = false

abbrev overruns : ℕ → ℕ → MmioExit → Passthrough → Bool
overruns b off run d =
    if b == 0
    then leb 0x14 off && (ltb off 0x18 && run.is_write) && ltb 4 (off - 0x14 + run.len)
    else in_table b off run d && ltb 512 (u32 (off - d.msix_table_off) + run.len)

-- A write in BAR 0 that starts in the two vector registers, at 0x14 to 0x17, and ends behind
-- them; or an access in another BAR that lies in the MSI-X table of the device, up to its last
-- vector, and ends beyond the 512 bytes of the shadow, counted from the start of the table.
abbrev pub Overruns : ℕ → ℕ → MmioExit → Passthrough → Type 0
Overruns b off run d =
    ((b ≡ 0) × (run.is_write ≡ true) × (0x14 ≤ off) × (off < 0x18) × (0x18 < off + run.len))
    ⊎ ((b ≢ 0)
        × (b ≡ d.msix_table_bar)
        × (d.vf.msix_cap ≢ 0)
        × (d.msix_table_off ≤ off)
        × ((off + run.len) % 2 ^ 64 ≤ d.msix_table_off + d.vf.msix_nr * 16)
        × (512 < (off - d.msix_table_off) % 2 ^ 32 + run.len))

overruns-Overruns :
    (b off : ℕ) (run : MmioExit) (d : Passthrough)
    → (overruns b off run d ≡ true) ↔ Overruns b off run d
unfolding in_table
overruns-Overruns b off run d = elim (Bool-cases (b == 0)) [
  | inl z ↦
      let at : b ≡ 0 = (==_iff b 0).0 z in
      rw z (
        λ e. inl (at, ground (arith, e), ground (arith, e), ground (arith, e), ground (arith, e)),
        λ o. elim o [
          | inl (p, w, lo, hi, over) ↦ ground (arith, w, lo, hi, over)
          | inr r ↦ absurd (r.0 at)
        ],
      )
  | inr z ↦
      let other : b ≢ 0 = ground (arith, z) in
      rw z (
        λ e. inr (
          other,
          ground (arith, e),
          ground (arith, e),
          ground (arith, e),
          ground (arith, e),
          ground (arith, e),
        ),
        λ o. elim o [
          | inl l ↦ absurd (other l.0)
          | inr (ne, bar, there, from, upto, over) ↦ ground (arith, bar, there, from, upto, over)
        ],
      )
]

copied : (a n : ℕ) → leb a n ≡ not (ltb n a)
copied a n = ground arith

memcpy_to-fault :
    (xs : List ℕ) (at len : ℕ) (bs : List ℕ)
    → is_fault (memcpy_to xs at len bs) ≡ ltb (length xs) (at + len)
unfolding memcpy_to
memcpy_to-fault xs at len bs = ground (arith, copied (at + len) (length xs))

memcpy_from-fault :
    (xs : List ℕ) (at len : ℕ) → is_fault (memcpy_from xs at len) ≡ ltb (length xs) (at + len)
unfolding memcpy_from
memcpy_from-fault xs at len = ground (arith, copied (at + len) (length xs))

bar0-fault :
    (host : Host) (off : ℕ) (run : MmioExit) (d : Passthrough)
    → is_fault (handle_bar0_legacy host off run d)
      ≡ (leb 0x14 off && (ltb off 0x18 && run.is_write) && ltb 4 (off - 0x14 + run.len))
unfolding handle_bar0_legacy
bar0-fault host off run d =
    split (leb 0x14 off && (ltb off 0x18 && run.is_write))
      (if off == 0x10 && run.is_write then count_notify run d else d)
  where
    stored :
        (d1 : Passthrough) (o : Option (List ℕ))
        → is_fault (then_access host off run (store_vectors d1 o)) ≡ is_fault o
    stored d1 none = refl
    stored d1 (some regs) = refl

    split :
        (b : Bool) (d1 : Passthrough)
        → is_fault (
            then_access host off run (
              if b
              then store_vectors d1 (memcpy_to (vector_bytes d1) (off - 0x14) run.len run.bytes)
              else some d1))
          ≡ (b && ltb 4 (off - 0x14 + run.len))
    split true d1 =
        stored d1 (memcpy_to (vector_bytes d1) (off - 0x14) run.len run.bytes)
        ∙ memcpy_to-fault (vector_bytes d1) (off - 0x14) run.len run.bytes
    split false d1 = refl

table-fault :
    (host : Host) (pos : ℕ) (run : MmioExit) (d : Passthrough)
    → length d.vf.msix_shadow ≡ 512
    → is_fault (table_access host pos run d) ≡ ltb 512 (pos + run.len)
unfolding table_access
table-fault host pos run d size = either run.is_write
  where
    written : (o : Option (List ℕ)) → is_fault (write_table host pos run d o) ≡ is_fault o
    written none = refl
    written (some shadow) = refl

    got : (o : Option (List ℕ)) → is_fault (read_table run d o) ≡ is_fault o
    got none = refl
    got (some bs) = refl

    sized : ltb (length d.vf.msix_shadow) (pos + run.len) ≡ ltb 512 (pos + run.len)
    sized = ap (λ n. ltb n (pos + run.len)) size

    either :
        (b : Bool)
        → is_fault (
            if b
            then write_table host pos run d (memcpy_to d.vf.msix_shadow pos run.len run.bytes)
            else read_table run d (memcpy_from d.vf.msix_shadow pos run.len))
          ≡ ltb 512 (pos + run.len)
    either true =
        written (memcpy_to d.vf.msix_shadow pos run.len run.bytes)
        ∙ (memcpy_to-fault d.vf.msix_shadow pos run.len run.bytes ∙ sized)
    either false =
        got (memcpy_from d.vf.msix_shadow pos run.len)
        ∙ (memcpy_from-fault d.vf.msix_shadow pos run.len ∙ sized)

handle_pt_mmio-overruns :
    (host : Host) (run : MmioExit) (d : Passthrough) (b off : ℕ)
    → d.vf.ready ≡ true
    → find_mmio run.phys_addr d.vf.bar_val d.vf.bar_size 0 ≡ some (b, off)
    → length d.vf.msix_shadow ≡ 512
    → is_fault (handle_pt_mmio host run d) ≡ overruns b off run d
unfolding handle_pt_mmio found_access
handle_pt_mmio-overruns host run d b off ready found size =
    rw (ready, found, found_access)
      (passed (
          if b == 0
          then handle_bar0_legacy host off run d
          else if in_table b off run d
          then table_access host (u32 (off - d.msix_table_off)) run d
          else some (device_access host b off run d))
        ∙ split (b == 0) (in_table b off run d))
  where
    passed : (o : Option (List ℕ × Passthrough)) → is_fault (taken o) ≡ is_fault o
    passed none = refl
    passed (some r) = refl

    pos : ℕ
    pos = u32 (off - d.msix_table_off)

    split :
        (first table : Bool)
        → is_fault (
            if first
            then handle_bar0_legacy host off run d
            else if table
            then table_access host pos run d
            else some (device_access host b off run d))
          ≡ (if first
              then leb 0x14 off && (ltb off 0x18 && run.is_write) && ltb 4 (off - 0x14 + run.len)
              else table && ltb 512 (pos + run.len))
    split true table = bar0-fault host off run d
    split false true = table-fault host pos run d size
    split false false = refl

-- An access of the guest to a BAR of a device that is ready, with a shadow of 512 bytes, leaves
-- an array of the program exactly where it writes over the end of the vector registers of BAR 0,
-- or lies in the MSI-X table in another BAR and reaches beyond its entry 32.
pub handle_pt_mmio-fault :
    (host : Host) (run : MmioExit) (d : Passthrough) (b off : ℕ)
    → d.vf.ready ≡ true
    → find_mmio run.phys_addr d.vf.bar_val d.vf.bar_size 0 ≡ some (b, off)
    → length d.vf.msix_shadow ≡ 512
    → (is_fault (handle_pt_mmio host run d) ≡ true) ↔ Overruns b off run d
handle_pt_mmio-fault host run d b off ready found size =
    let same = handle_pt_mmio-overruns host run d b off ready found size in
    let (to, from) = overruns-Overruns b off run d in (λ e. to (sym same ∙ e), λ o. same ∙ from o)
