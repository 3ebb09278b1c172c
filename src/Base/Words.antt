-- ===== src/Base/Words.antt =====
-- Machine words as native numbers: the widths of C's unsigned types, casts and shifts.
use Prim.Native.Nat.{ℕ, ◌-◌, ◌*◌, ◌/◌, ◌%◌, ◌^◌}

abbrev pub u8 : ℕ → ℕ
u8 n = n % 2 ^ 8

abbrev pub u16 : ℕ → ℕ
u16 n = n % 2 ^ 16

abbrev pub u32 : ℕ → ℕ
u32 n = n % 2 ^ 32

abbrev pub u64 : ℕ → ℕ
u64 n = n % 2 ^ 64

infixl 75 ◌<<<◌ ◌>>>◌
abbrev pub ◌<<<◌ : ℕ → ℕ → ℕ
x <<< k = x * 2 ^ k

abbrev pub ◌>>>◌ : ℕ → ℕ → ℕ
x >>> k = x / 2 ^ k

-- `~m` of a 32-bit and of a 64-bit operand.
abbrev pub not32 : ℕ → ℕ
not32 m = 2 ^ 32 - 1 - m

abbrev pub not64 : ℕ → ℕ
not64 m = 2 ^ 64 - 1 - m
