-- ===== src/MiniVmm/Pci/Access/Kept.antt =====
-- What is fixed of the configuration of the passed-through device of minivmm.c, and the
-- read-only bits of Message Control.
use virtualization_learning.Base.{
  ℕ, zero, suc, ◌+◌, ◌*◌, ◌%◌, ◌^◌, bit_and, bit_or, ◌≡◌, refl, sym, ap, ◌∙◌, true, false, arith,
  ltb, length, u16, ◌<<<◌, ◌>>>◌, not32, bit_and_mask, bit_and-bit_or, bit_or-zero, keep-all,
  keep-none,
}
use virtualization_learning.MiniVmm.Pci.{Vfio, write_msgctl_byte, write_msgctl}

-- The BARs' sizes and types, the layout of MSI-X, the sizes of the lists and the read-only bits of
-- Message Control stay; the vectors are armed again only while no arming has succeeded.
pub record IsKept (vf vf' : Vfio) : Type 0 where
  pub sizes : vf'.bar_size ≡ vf.bar_size
  pub types : vf'.bar_type ≡ vf.bar_type
  pub wide : vf'.bar_is64 ≡ vf.bar_is64
  pub bars : length vf'.bar_val ≡ length vf.bar_val
  pub bridge : length vf'.hostbridge_cfg ≡ length vf.hostbridge_cfg
  pub capability : vf'.msix_cap ≡ vf.msix_cap
  pub vectors : vf'.msix_nr ≡ vf.msix_nr
  pub table : vf'.msix_shadow ≡ vf.msix_shadow
  pub read_only : vf'.msix_msgctl % 2 ^ 14 ≡ vf.msix_msgctl % 2 ^ 14
  pub once : vf.msix_routing_done ≡ true → (vf'.armed ≡ vf.armed) × (vf'.msix_routing_done ≡ true)

pub kept : (vf : Vfio) → IsKept vf vf
kept vf = record {
  sizes = refl;
  types = refl;
  wide = refl;
  bars = refl;
  bridge = refl;
  capability = refl;
  vectors = refl;
  table = refl;
  read_only = refl;
  once = λ h. (refl, h);
}

low_bits : (x : ℕ) → bit_and x 0x3fff ≡ x % 2 ^ 14
low_bits x = bit_and_mask 14 x

-- A value whose bits from 14 on are replaced.
replaced :
    (mc b mask keep : ℕ)
    → bit_and keep 0x3fff ≡ 0x3fff
    → bit_and mask 0x3fff ≡ 0
    → u16 (bit_or (bit_and mc keep) (bit_and b mask)) % 2 ^ 14 ≡ mc % 2 ^ 14
replaced mc b mask keep h k =
    omega arith
    ∙ (sym (low_bits (bit_or (bit_and mc keep) (bit_and b mask)))
        ∙ (bit_and-bit_or (bit_and mc keep) (bit_and b mask) 0x3fff
            ∙ (ap (λ x. bit_or x (bit_and (bit_and b mask) 0x3fff)) (keep-all mc keep 0x3fff h)
                ∙ (ap (bit_or (bit_and mc 0x3fff)) (keep-none b mask 0x3fff k)
                    ∙ (bit_or-zero (bit_and mc 0x3fff) ∙ low_bits mc)))))

write_msgctl_byte-low : (b m mc : ℕ) → write_msgctl_byte b (m * 8) mc % 2 ^ 14 ≡ mc % 2 ^ 14
unfolding write_msgctl_byte
write_msgctl_byte-low b zero mc = replaced mc (u16 (b <<< (0 * 8))) 0 (not32 0) refl refl
write_msgctl_byte-low b (suc zero) mc =
    replaced mc (u16 (b <<< (1 * 8))) 0xc000 (not32 0xc000) refl refl
write_msgctl_byte-low b (suc (suc m)) mc = rw beyond refl
  where
    beyond : ltb (suc (suc m) * 8) 16 ≡ false
    beyond = ground arith

pub write_msgctl-low : (val at i n mc : ℕ) → write_msgctl val at i n mc % 2 ^ 14 ≡ mc % 2 ^ 14
unfolding write_msgctl
write_msgctl-low val at i zero mc = refl
write_msgctl-low val at i (suc n) mc =
    let b = bit_and (val >>> (i * 8)) 0xff in
    write_msgctl-low val at (suc i) n (write_msgctl_byte b ((at + i) * 8) mc)
    ∙ write_msgctl_byte-low b (at + i) mc
