-- ===== src/MiniVmm/Boot/Checksum.antt =====
-- The checksum of the MP tables.
use virtualization_learning.Base.{
  ℕ, zero, suc, ◌+◌, ◌-◌, ◌%◌, ◌<◌, ◌≡◌, ◌∙◌, List, [], ◌∷◌, arith, length, set, get_or, u8,
}
use virtualization_learning.MiniVmm.Boot.{sum_bytes, mp_checksum}

-- The sum of the bytes of a table
abbrev pub total : List ℕ → ℕ
total [] = 0
total (b ∷ bs) = b + total bs

sum_bytes-total : (bs : List ℕ) (sum : ℕ) → sum_bytes bs sum % 256 ≡ (sum + total bs) % 256
unfolding sum_bytes
sum_bytes-total [] sum = omega arith
sum_bytes-total (b ∷ bs) sum = sum_bytes-total bs (u8 (sum + b)) ∙ omega arith

sum_bytes-lt : (bs : List ℕ) (sum : ℕ) → sum < 256 → sum_bytes bs sum < 256
unfolding sum_bytes
sum_bytes-lt [] sum h = h
sum_bytes-lt (b ∷ bs) sum h = sum_bytes-lt bs (u8 (sum + b)) (omega arith)

total-set :
    (bs : List ℕ) (i v : ℕ) → i < length bs → get_or bs i 0 ≡ 0 → total (set bs i v) ≡ total bs + v
total-set [] i v h z = absurd (omega arith)
total-set (b ∷ bs) zero v h z = omega (arith, z)
total-set (b ∷ bs) (suc i) v h z = omega (arith, total-set bs i v (omega arith) z)

-- A table whose checksum byte is computed while it is 0, and is then stored, has bytes that sum to
-- 0 modulo 256, which is what the reader of the table tests.
pub total-mp_checksum :
    (bytes : List ℕ) (at : ℕ)
    → at < length bytes
    → get_or bytes at 0 ≡ 0
    → total (set bytes at (mp_checksum bytes)) % 256 ≡ 0
unfolding mp_checksum
total-mp_checksum bytes at h z = omega (
  arith,
  total-set bytes at (u8 (0x100 - sum_bytes bytes 0)) h z,
  sum_bytes-total bytes 0,
  sum_bytes-lt bytes 0 (omega arith),
)
