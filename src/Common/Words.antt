-- ===== src/Common/Words.antt =====
-- Machine integers as native numbers: a byte, a uint32, a uint64, and their wrapping operations.
use Prim.Native.Nat.{ℕ, ◌+◌, ◌-◌, ◌/◌, ◌%◌, ◌^◌, ◌<◌}
use mathlib.Core.List.{List}

abbrev pub Bytes : Type 0
Bytes = List ℕ

abbrev pub IsByte : ℕ → Type 0
IsByte b = b < 256

abbrev pub IsU32 : ℕ → Type 0
IsU32 n = n < 2 ^ 32

abbrev pub IsU64 : ℕ → Type 0
IsU64 n = n < 2 ^ 64

-- The conversions `byte(n)`, `uint32(n)` and `uint64(n)` of a number that may be too large.
abbrev pub to_byte : ℕ → ℕ
to_byte n = n % 2 ^ 8

abbrev pub to_u32 : ℕ → ℕ
to_u32 n = n % 2 ^ 32

abbrev pub to_u64 : ℕ → ℕ
to_u64 n = n % 2 ^ 64

-- `n >> k`
abbrev pub shr : ℕ → ℕ → ℕ
shr n k = n / 2 ^ k

-- `a - b` on uint32 and uint64, which wrap below 0.
abbrev pub sub_u32 : ℕ → ℕ → ℕ
sub_u32 a b = (a + 2 ^ 32 - b % 2 ^ 32) % 2 ^ 32

abbrev pub sub_u64 : ℕ → ℕ → ℕ
sub_u64 a b = (a + 2 ^ 64 - b % 2 ^ 64) % 2 ^ 64
