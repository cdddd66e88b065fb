-- ===== src/Base/Words.antt =====
-- The fixed widths of C, as remainders.
use Prim.Native.Nat.{ℕ, ◌+◌, ◌-◌, ◌%◌}

abbrev pub u8 : ℕ → ℕ
u8 n = n % 256

abbrev pub u16 : ℕ → ℕ
u16 n = n % 65536

abbrev pub u32 : ℕ → ℕ
u32 n = n % 4294967296

-- `(uint8_t)(a - b)` for bytes a and b.
abbrev pub sub8 : ℕ → ℕ → ℕ
sub8 a b = (a + 256 - b) % 256
