-- ===== src/Bits.antt =====
-- Words as numbers: the bit at a place, and the C operators on unsigned integers.
pub mod Digits
pub mod Align
use proto_kernel.Prelude.{ℕ, zero, suc, ◌+◌, ◌-◌, ◌/◌, ◌%◌, ◌^◌}

-- bit `i` of `w`, as 0 or 1
abbrev pub bit : ℕ → ℕ → ℕ
bit zero w = w % 2
bit (suc i) w = bit i (w / 2)

abbrev pub u32 : ℕ → ℕ
u32 x = x % 2 ^ 32

abbrev pub u64 : ℕ → ℕ
u64 x = x % 2 ^ 64

-- `a - b` on `uint64_t`; `-` on ℕ stops at 0, so the modulus is added first
abbrev pub sub64 : ℕ → ℕ → ℕ
sub64 a b = u64 (a + 2 ^ 64 - b)

abbrev pub sub32 : ℕ → ℕ → ℕ
sub32 a b = u32 (a + 2 ^ 32 - b)

-- `1UL << k` for `k < 64`
abbrev pub one_shl : ℕ → ℕ
one_shl k = 2 ^ k

-- `~x` on `uint64_t`
abbrev pub complement : ℕ → ℕ
complement x = 2 ^ 64 - 1 - x
