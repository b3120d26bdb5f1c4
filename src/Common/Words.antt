-- ===== src/Common/Words.antt =====
-- Words of 16, 32 and 64 bits as numbers below a power of two, and Go's conversions between them.
use Prim.Native.Nat.{ℕ, ◌+◌, ◌-◌, ◌%◌, ◌^◌}
use aquatiq_root.Common.Tests.{if◌then◌else◌, ltb}
use aquatiq_root.Common.Int.{ℤ, pos, negsuc}

-- `a + b` and `a - b` on uint64.
abbrev pub add_64 : ℕ → ℕ → ℕ
add_64 a b = (a + b) % 2 ^ 64

abbrev pub sub_64 : ℕ → ℕ → ℕ
sub_64 a b = (a + 2 ^ 64 - b) % 2 ^ 64

-- The bits of an int at a width of 64, and at 32.
abbrev pub bits_64 : ℤ → ℕ
bits_64 (pos n) = n % 2 ^ 64
bits_64 (negsuc n) = 2 ^ 64 - 1 - n % 2 ^ 64

abbrev pub bits_32 : ℤ → ℕ
bits_32 (pos n) = n % 2 ^ 32
bits_32 (negsuc n) = 2 ^ 32 - 1 - n % 2 ^ 32

-- The int64 and the int32 of these bits.
abbrev pub signed_64 : ℕ → ℤ
signed_64 u = if ltb u (2 ^ 63) then pos u else negsuc (2 ^ 64 - 1 - u)

abbrev pub signed_32 : ℕ → ℤ
signed_32 u = if ltb u (2 ^ 31) then pos u else negsuc (2 ^ 32 - 1 - u)

-- `int64(u)` for a uint64, and `int32(n)` for an int.
abbrev pub to_int64 : ℕ → ℤ
to_int64 u = signed_64 (u % 2 ^ 64)

abbrev pub to_int32 : ℤ → ℤ
to_int32 n = signed_32 (bits_32 n)
