-- ===== src/MiniVmm/IoPorts/PowerOff.antt =====
-- The reset ports in handle_io (minivmm.c).
use virtualization_learning.Base.{
  ℕ, ◌*◌, bit_and, ◌≡◌, refl, ◌⊎◌, inl, inr, Bool, true, false, Option, List, ◌∷◌, arith, nonzero,
}
use virtualization_learning.MiniVmm.Serial.{serial_io}
use virtualization_learning.MiniVmm.IoPorts.{
  Devices, power_io, legacy_io, is_config_port, io_element, handle_io,
}

-- The keyboard controller's reset, and the reset of the chipset's port.
abbrev pub Resets : ℕ → ℕ → Type 0
Resets port val =
    ((port ≡ 0x64) × (val ≡ 0xfe)) ⊎ ((port ≡ 0xcf9) × (nonzero (bit_and val 2) ≡ true))

-- Such a write in an IO exit of one element clears `running`.
pub handle_io-stops :
    (dev_read : ℕ → ℕ → Option ℕ) (works : Bool) (port val size : ℕ) (rest : List ℕ) (d : Devices)
    → Resets port val
    → let (bytes', d') =
        handle_io dev_read works
          (record { port = port; is_write = true; size = size })
          0
          1
          (val ∷ rest)
          d in
      d'.running ≡ false
unfolding handle_io io_element is_config_port legacy_io power_io serial_io
handle_io-stops dev_read works port val size rest d (inl (p, v)) = rw (p, v, at_zero size) refl
  where
    at_zero : (n : ℕ) → 0 * n ≡ 0
    at_zero n = omega arith
handle_io-stops dev_read works port val size rest d (inr (p, v)) = rw (p, at_zero size, v) refl
  where
    at_zero : (n : ℕ) → 0 * n ≡ 0
    at_zero n = omega arith
