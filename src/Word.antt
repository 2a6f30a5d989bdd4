-- ===== src/Word.antt =====
-- Unsigned words of C as native numbers: the shifts, masks and bit builtins that bitmap.h,
-- tcache.c, slab.c and log.c use. A word of `n` bits is a number below `2 ^ n`.
mod Step
pub mod Bit
pub mod Lowest
pub mod Bounds
use pmalloc.Prelude.{
  ℕ, zero, suc, ◌+◌, ◌-◌, ◌/◌, ◌%◌, ◌^◌, Bool, false, bit_and, bit_xor, ◌==◌, if◌then◌else◌,
}

-- Bit `i` of a word.
unfoldable pub test_bit : ℕ → ℕ → Bool
test_bit w zero = w % 2 == 1
test_bit w (suc i) = test_bit (w / 2) i

-- `~w` at a width of `n` bits.
abbrev pub complement : ℕ → ℕ → ℕ
complement n w = 2 ^ n - 1 - w

-- `__builtin_ffsl` at a width of `n` bits: one more than the place of the lowest set bit, or 0.
unfoldable pub ffs : ℕ → ℕ → ℕ
ffs zero w = 0
ffs (suc n) w = let r = ffs n (w / 2) in if w % 2 == 1 then 1 else if r == 0 then 0 else r + 1

-- `__builtin_popcountl` at a width of `n` bits.
unfoldable pub popcount : ℕ → ℕ → ℕ
popcount zero w = 0
popcount (suc n) w = w % 2 + popcount n (w / 2)

-- `-w` at a width of `n` bits.
abbrev pub negate : ℕ → ℕ → ℕ
negate n w = (2 ^ n - w) % 2 ^ n

-- `w ^ (w & -w)`: the lowest set bit is cleared.
unfoldable pub clear_lowest : ℕ → ℕ → ℕ
clear_lowest n w = bit_xor w (bit_and w (negate n w))
