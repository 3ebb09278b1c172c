-- ===== src/MiniVmm/Virtio/Mmio/QueueAddress.antt =====
-- The addresses of a queue, which the driver writes to minivmm.c in halves of 32 bits.
use virtualization_learning.Base.{
  ℕ, ◌+◌, ◌*◌, ◌/◌, ◌%◌, ◌^◌, ◌<◌, bit_and, bit_or, ◌≡◌, ap, ◌∙◌, arith, length, set, get_or, u32,
  ◌<<<◌, bit_and_mask, bit_or-eq-add, bit_and_shifted, bit_and-bit_or, bit_and_assoc, bit_and-zero,
  zero-bit_or, bit_or_comm, length-set, get_or-set_self,
}
use virtualization_learning.MiniVmm.Virtio.{Vq}
use virtualization_learning.MiniVmm.Virtio.Mmio.{
  VirtioDev, vq_zero, selected, set_vq, low_half, high_half, write_register, mmio_write,
}

-- The two halves of a number of 64 bits.
abbrev pub of_halves : ℕ → ℕ → ℕ
of_halves lo hi = hi % 2 ^ 32 * 2 ^ 32 + lo % 2 ^ 32

high-low : (reg lo hi : ℕ) → high_half (low_half reg lo) hi ≡ of_halves lo hi
unfolding high_half low_half
high-low reg lo hi =
    ap (λ x. bit_or x (u32 hi <<< 32)) kept
    ∙ (bit_or_comm (u32 lo) (u32 hi <<< 32) ∙ bit_or-eq-add 32 (u32 hi) (u32 lo) (omega arith))
  where
    kept : bit_and (bit_or (bit_and reg 0xffff_ffff_0000_0000) (u32 lo)) 0xffff_ffff ≡ u32 lo
    kept =
        bit_and-bit_or (bit_and reg 0xffff_ffff_0000_0000) (u32 lo) 0xffff_ffff
        ∙ (ap (λ x. bit_or x (bit_and (u32 lo) 0xffff_ffff))
              (bit_and_assoc reg 0xffff_ffff_0000_0000 0xffff_ffff ∙ bit_and-zero reg)
            ∙ (zero-bit_or (bit_and (u32 lo) 0xffff_ffff)
                ∙ omega (arith, bit_and_mask 32 (u32 lo))))

low-high : (reg lo hi : ℕ) → low_half (high_half reg hi) lo ≡ of_halves lo hi
unfolding high_half low_half
low-high reg lo hi =
    ap (λ x. bit_or x (u32 lo)) kept ∙ bit_or-eq-add 32 (u32 hi) (u32 lo) (omega arith)
  where
    summed : bit_or (bit_and reg 0xffff_ffff) (u32 hi <<< 32) ≡ u32 hi * 2 ^ 32 + reg % 2 ^ 32
    summed =
        bit_or_comm (bit_and reg 0xffff_ffff) (u32 hi <<< 32)
        ∙ (ap (bit_or (u32 hi <<< 32)) (bit_and_mask 32 reg)
            ∙ bit_or-eq-add 32 (u32 hi) (reg % 2 ^ 32) (omega arith))

    kept :
        bit_and (bit_or (bit_and reg 0xffff_ffff) (u32 hi <<< 32)) 0xffff_ffff_0000_0000
        ≡ u32 hi * 2 ^ 32
    kept =
        bit_and_shifted 32 (bit_or (bit_and reg 0xffff_ffff) (u32 hi <<< 32)) 0xffff_ffff
        ∙ omega (
          arith,
          summed,
          bit_and_mask 32 (bit_or (bit_and reg 0xffff_ffff) (u32 hi <<< 32) / 2 ^ 32),
        )

-- The queue that the driver has selected.
abbrev pub current : VirtioDev → Vq
current dev = get_or dev.vq (selected dev) vq_zero

current-set_vq :
    (dev : VirtioDev) (vq : Vq)
    → selected dev < length dev.vq
    → get_or (set dev.vq (selected dev) vq) (selected dev) vq_zero ≡ vq
current-set_vq dev vq h = get_or-set_self dev.vq (selected dev) vq vq_zero h

-- The two writes of a queue address leave the address with these halves in the queue that is
-- selected, and its other fields as they were: in either order for the descriptor table, and low
-- half first for the available and the used ring. The selected queue exists.
pub queue_address :
    {S : Type 0} (service : VirtioDev → ℕ → S → VirtioDev × S) (s : S) (dev : VirtioDev) (lo hi : ℕ)
    → selected dev < length dev.vq
    → let write : ℕ → ℕ → VirtioDev → VirtioDev =
        λ off val d. (mmio_write service d off 4 val s).0 in
      (current (write 0x084 hi (write 0x080 lo dev))
        ≡ record (current dev) { desc = of_halves lo hi })
      × (current (write 0x080 lo (write 0x084 hi dev))
          ≡ record (current dev) { desc = of_halves lo hi })
      × (current (write 0x094 hi (write 0x090 lo dev))
          ≡ record (current dev) { avail = of_halves lo hi })
      × (current (write 0x0a4 hi (write 0x0a0 lo dev))
          ≡ record (current dev) { used = of_halves lo hi })
unfolding mmio_write write_register set_vq
queue_address service s dev lo hi h = (
  twice (λ vq. record vq { desc = low_half vq.desc lo })
        (λ vq. record vq { desc = high_half vq.desc hi })
      ∙ ap (λ x. record (current dev) { desc = x }) (high-low (current dev).desc lo hi),
  twice (λ vq. record vq { desc = high_half vq.desc hi })
        (λ vq. record vq { desc = low_half vq.desc lo })
      ∙ ap (λ x. record (current dev) { desc = x }) (low-high (current dev).desc lo hi),
  twice (λ vq. record vq { avail = low_half vq.avail lo })
        (λ vq. record vq { avail = high_half vq.avail hi })
      ∙ ap (λ x. record (current dev) { avail = x }) (high-low (current dev).avail lo hi),
  twice (λ vq. record vq { used = low_half vq.used lo })
        (λ vq. record vq { used = high_half vq.used hi })
      ∙ ap (λ x. record (current dev) { used = x }) (high-low (current dev).used lo hi),
)
  where
    twice :
        (f g : Vq → Vq)
        → let dev1 = set_vq dev (f (current dev)) in
          current (set_vq dev1 (g (current dev1))) ≡ g (f (current dev))
    twice f g =
        let once = current-set_vq dev (f (current dev)) h in
        let dev1 = set_vq dev (f (current dev)) in
        current-set_vq dev1 (g (current dev1))
          (omega (arith, h, length-set dev.vq (selected dev) (f (current dev))))
        ∙ ap g once
