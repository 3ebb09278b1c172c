-- ===== src/MiniVmm/Pci/Passthrough/Discovery.antt =====
-- phase9-capstone/practice/minivmm.c: what vfio_setup learns of the device.
--
-- The configuration space is a function from an offset to a byte, 0 where `pread` gives nothing,
-- and `region_size` gives the size of the region of a BAR, 0 where there is none. The system
-- calls before it open the device or end the program.
use virtualization_learning.Base.{
  ◌∙◌, ap, ℕ, zero, suc, ◌+◌, ◌*◌, ◌%◌, ◌≤◌, ◌<◌, bit_and, ◌≡◌, refl, ◌≢◌, Bool, true, false, none,
  some, List, [], ◌∷◌, arith, ◌==◌, nonzero, if◌then◌else◌, ==_iff, nonzero_of_ne, length, set,
  replicate, ◌>>>◌, not32, bit_and-le, bit_and_mask, ◌/◌, ◌^◌, bit_and_shifted,
}
use virtualization_learning.MiniVmm.Pci.Passthrough.{Passthrough}

-- The capability of MSI-X.
abbrev pub id_msix : ℕ
id_msix = 0x11

-- The loop over the capabilities, for at most this many: where MSI-X is, or 0.
find_msix : (ℕ → ℕ) → ℕ → ℕ → ℕ
find_msix cfg zero off = 0
find_msix cfg (suc n) off =
    let rest = find_msix cfg n (bit_and (cfg (off + 1)) 0xfc) in
    if off == 0 then 0 else if cfg off == id_msix then off else rest

-- A number of `n` bytes of the configuration space.
number_at : (ℕ → ℕ) → ℕ → ℕ → ℕ
number_at cfg at zero = 0
number_at cfg at (suc n) = cfg at + 256 * number_at cfg (at + 1) n

-- The loop over the BARs, from `b` on: sizes, types and widths.
bar_sizes : (ℕ → ℕ) → ℕ → ℕ → List ℕ
bar_sizes region_size b zero = []
bar_sizes region_size b (suc n) = region_size b ∷ bar_sizes region_size (suc b) n

bar_types : (ℕ → ℕ) → (ℕ → ℕ) → ℕ → ℕ → List ℕ
unfolding number_at
bar_types cfg region_size b zero = []
bar_types cfg region_size b (suc n) =
    (if region_size b == 0 then 0 else bit_and (number_at cfg (0x10 + b * 4) 4) 0xf)
    ∷ bar_types cfg region_size (suc b) n

bar_widths : (ℕ → ℕ) → (ℕ → ℕ) → ℕ → ℕ → List Bool
unfolding number_at
bar_widths cfg region_size b zero = []
bar_widths cfg region_size b (suc n) =
    (if region_size b == 0
      then false
      else bit_and (number_at cfg (0x10 + b * 4) 4 >>> 1) 0x3 == 0x2)
    ∷ bar_widths cfg region_size (suc b) n

-- The host bridge: vendor 0x8086, device 0x1237, class 06:00.
abbrev pub host_bridge : List ℕ
host_bridge =
    set
      (set (set (set (set (set (replicate 256 0) 0x00 0x86) 0x01 0x80) 0x02 0x37) 0x03 0x12) 0x04
        0x06)
      0x0b 0x06

-- The state for a capability at `cap`, or for none.
describe : (ℕ → ℕ) → (ℕ → ℕ) → ℕ → Passthrough
unfolding number_at bar_sizes bar_types bar_widths
describe cfg region_size cap =
    let msgctl = number_at cfg (cap + 2) 2 in
    let tbl = number_at cfg (cap + 4) 4 in
    record {
      vf = record {
        ready = true;
        bar_size = bar_sizes region_size 0 6;
        bar_type = bar_types cfg region_size 0 6;
        bar_is64 = bar_widths cfg region_size 0 6;
        bar_val = replicate 6 0;
        hostbridge_cfg = host_bridge;
        msix_cap = cap;
        msix_nr = if nonzero cap then bit_and msgctl 0x7ff + 1 else 0;
        msix_shadow = replicate 512 0;
        msix_msgctl = if nonzero cap then msgctl else 0;
        msix_routing_done = false;
        armed = 0;
        pci_cfg_addr = 0;
        forwarded = [];
      };
      msix_table_off = if nonzero cap then bit_and tbl (not32 0x7) else 0;
      msix_table_bar = if nonzero cap then bit_and tbl 0x7 else 0;
      msix_cfg_vec = 0;
      msix_q_vec = 0;
      pt_notifies = 0;
      pt_notify_last = 0;
      pt_ctrl_fwd = 0;
      msix_efd = replicate 32 (if nonzero cap then none else some 0);
      routes = [];
      irqfds = [];
      device_fds = [];
      region_writes = [];
    }

-- `vfio_setup`
pub discover : (ℕ → ℕ) → (ℕ → ℕ) → Passthrough
unfolding describe
discover cfg region_size = describe cfg region_size (find_msix cfg 16 (bit_and (cfg 0x34) 0xfc))

-- The offset after `k` steps along the list.
abbrev pub after_steps : (ℕ → ℕ) → ℕ → ℕ → ℕ
after_steps cfg zero off = off
after_steps cfg (suc k) off = after_steps cfg k (bit_and (cfg (off + 1)) 0xfc)

-- The first `k` capabilities of the list are others.
abbrev pub Others : (ℕ → ℕ) → ℕ → ℕ → Type 0
Others cfg zero off = Unit
Others cfg (suc k) off =
    (off ≢ 0) × (cfg off ≢ id_msix) × Others cfg k (bit_and (cfg (off + 1)) 0xfc)

find_msix-first :
    (cfg : ℕ → ℕ) (k n off : ℕ)
    → k < n
    → Others cfg k off
    → after_steps cfg k off ≢ 0
    → cfg (after_steps cfg k off) ≡ id_msix
    → find_msix cfg n off ≡ after_steps cfg k off
unfolding find_msix
find_msix-first cfg k zero off less others here id = absurd (omega arith)
find_msix-first cfg zero (suc n) off less others here id = rw (other, same) refl
  where
    other : (off == 0) ≡ false
    other = ground (arith, here)

    same : (cfg off == id_msix) ≡ true
    same = (==_iff (cfg off) id_msix).1 id
find_msix-first cfg (suc k) (suc n) off less (nonzero_off, differs, others) here id =
    rw (other, different)
      (find_msix-first cfg k n (bit_and (cfg (off + 1)) 0xfc) (omega (arith, less)) others here id)
  where
    other : (off == 0) ≡ false
    other = ground (arith, nonzero_off)

    different : (cfg off == id_msix) ≡ false
    different = ground (arith, differs)

-- Two and four bytes of the configuration space as numbers, the lowest byte first.
abbrev pub le16 : (ℕ → ℕ) → ℕ → ℕ
le16 cfg at = cfg at + 256 * cfg (at + 1)

abbrev pub le32 : (ℕ → ℕ) → ℕ → ℕ
le32 cfg at = cfg at + 256 * (cfg (at + 1) + 256 * (cfg (at + 1 + 1) + 256 * cfg (at + 1 + 1 + 1)))

number_at-le16 : (cfg : ℕ → ℕ) (at : ℕ) → number_at cfg at 2 ≡ le16 cfg at
unfolding number_at
number_at-le16 cfg at = omega arith

number_at-le32 : (cfg : ℕ → ℕ) (at : ℕ) → number_at cfg at 4 ≡ le32 cfg at
unfolding number_at
number_at-le32 cfg at = omega arith

-- The two fields of the Table Offset register.
parts : (t : ℕ) → bit_and t 0x7 + bit_and t (not32 0x7) ≡ t % 2 ^ 32
parts t = omega (arith, bit_and_mask 3 t, bit_and_shifted 3 t 536870911, bit_and_mask 29 (t / 8))

-- Where the MSI-X capability is the first of its kind and among the first 16 of the device's
-- list: the setup finds it; it takes the number of vectors, 1 to 2048, from its Message Control,
-- and the BAR of the table and its offset, a multiple of 8, from its Table Offset register; no
-- vector has an eventfd; the shadow of the table has room for 32 of the vectors, and the vectors
-- are not armed.
pub discover-finds :
    (cfg region_size : ℕ → ℕ) (k : ℕ)
    → k < 16
    → Others cfg k (bit_and (cfg 0x34) 0xfc)
    → after_steps cfg k (bit_and (cfg 0x34) 0xfc) ≢ 0
    → cfg (after_steps cfg k (bit_and (cfg 0x34) 0xfc)) ≡ id_msix
    → let d = discover cfg region_size in
      (d.vf.msix_cap ≡ after_steps cfg k (bit_and (cfg 0x34) 0xfc))
      × (d.vf.msix_nr ≡ le16 cfg (d.vf.msix_cap + 2) % 2048 + 1)
      × (d.vf.msix_nr ≤ 2048)
      × (d.msix_table_bar + d.msix_table_off ≡ le32 cfg (d.vf.msix_cap + 4) % 2 ^ 32)
      × (d.msix_table_bar < 8)
      × (d.msix_table_off % 8 ≡ 0)
      × (d.msix_efd ≡ replicate 32 none)
      × (length d.vf.msix_shadow ≡ 32 * 16)
      × (d.vf.msix_routing_done ≡ false)
unfolding discover describe
discover-finds cfg region_size k few others here id =
    let found = find_msix-first cfg k 16 (bit_and (cfg 0x34) 0xfc) few others here id in
    rw (found, nonzero_of_ne (after_steps cfg k (bit_and (cfg 0x34) 0xfc)) here)
      (
        refl,
        ap (λ n. n + 1)
            (bit_and_mask 11 msgctl ∙ ap (λ n. n % 2 ^ 11) (number_at-le16 cfg (cap + 2))),
        omega (arith, bit_and-le msgctl 0x7ff),
        parts tbl ∙ ap (λ n. n % 2 ^ 32) (number_at-le32 cfg (cap + 4)),
        omega (arith, bit_and-le tbl 0x7),
        omega (arith, bit_and_shifted 3 tbl 536870911),
        refl,
        refl,
        refl,
      )
  where
    cap : ℕ
    cap = after_steps cfg k (bit_and (cfg 0x34) 0xfc)

    msgctl : ℕ
    msgctl = number_at cfg (cap + 2) 2

    tbl : ℕ
    tbl = number_at cfg (cap + 4) 4
