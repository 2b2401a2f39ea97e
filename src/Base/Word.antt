-- ===== src/Base/Word.antt =====
-- The casts to fixed widths, the shifts and the masks of C on unsigned values.
use Prim.Native.Nat.{ℕ, ◌-◌, ◌*◌, ◌/◌, ◌%◌, ◌^◌, bit_and, bit_or}
use mathlib.Core.Bool.{Bool, not}
use oric2_golden_model.Base.Tests.{◌==◌}

abbrev pub u8 : ℕ → ℕ
u8 n = n % 256

abbrev pub u16 : ℕ → ℕ
u16 n = n % 65536

abbrev pub u32 : ℕ → ℕ
u32 n = n % 4294967296

abbrev pub u64 : ℕ → ℕ
u64 n = n % 18446744073709551616

abbrev pub shl : ℕ → ℕ → ℕ
shl x k = x * 2 ^ k

abbrev pub shr : ℕ → ℕ → ℕ
shr x k = x / 2 ^ k

-- `(x & m) != 0`
abbrev pub has : ℕ → ℕ → Bool
has x m = not (bit_and x m == 0)

-- `x & (uint8_t)~m`
abbrev pub clear8 : ℕ → ℕ → ℕ
clear8 x m = bit_and x (255 - m)

-- `(uint16_t)((hi << 8) | lo)`
unfoldable pub word : ℕ → ℕ → ℕ
word lo hi = u16 (bit_or (shl hi 8) lo)
