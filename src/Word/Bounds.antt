-- ===== src/Word/Bounds.antt =====
-- The bitwise operations stay within the width of their arguments.
use Prim.Native.Nat.{bit_and-bitwise}
use native.Mathlib.Nat.{pow-suc}
use pmalloc.Prelude.{ℕ, zero, suc, ◌/◌, ◌^◌, ◌<◌, ◌≡◌, refl, bit_and, bit_or, bit_xor, arith}
use pmalloc.Word.{clear_lowest, negate}
use pmalloc.Word.Step.{or_digit, and_digit, xor_digit}

pub bit_or-lt : (n a b : ℕ) → a < 2 ^ n → b < 2 ^ n → bit_or a b < 2 ^ n
bit_or-lt zero a b h k =
    let x : a ≡ 0 = omega arith in let y : b ≡ 0 = omega arith in rw (x, y) (omega arith)
bit_or-lt (suc n) a b h k = omega (
  arith,
  pow-suc 2 n,
  or_digit a b,
  bit_or-lt n (a / 2) (b / 2) (omega (arith, pow-suc 2 n)) (omega (arith, pow-suc 2 n)),
)

pub bit_xor-lt : (n a b : ℕ) → a < 2 ^ n → b < 2 ^ n → bit_xor a b < 2 ^ n
bit_xor-lt zero a b h k =
    let x : a ≡ 0 = omega arith in let y : b ≡ 0 = omega arith in rw (x, y) (omega arith)
bit_xor-lt (suc n) a b h k = omega (
  arith,
  pow-suc 2 n,
  xor_digit a b,
  bit_xor-lt n (a / 2) (b / 2) (omega (arith, pow-suc 2 n)) (omega (arith, pow-suc 2 n)),
)

bit_and-lt : (n a b : ℕ) → a < 2 ^ n → bit_and a b < 2 ^ n
bit_and-lt zero a b h =
    let x : a ≡ 0 = omega arith in
    omega (arith, bit_and-bitwise 0 b, let e : bit_and a b ≡ bit_and 0 b = rw x refl in e)
bit_and-lt (suc n) a b h =
    omega
      (arith, pow-suc 2 n, and_digit a b, bit_and-lt n (a / 2) (b / 2) (omega (arith, pow-suc 2 n)))

pub clear_lowest-lt : (n w : ℕ) → w < 2 ^ n → clear_lowest n w < 2 ^ n
unfolding clear_lowest
clear_lowest-lt n w h = bit_xor-lt n w (bit_and w (negate n w)) h (bit_and-lt n w (negate n w) h)

pow_pos : (n : ℕ) → 0 < 2 ^ n
pow_pos zero = omega arith
pow_pos (suc n) = omega (arith, pow-suc 2 n, pow_pos n)

pub pow_lt : (n k : ℕ) → k < n → 2 ^ k < 2 ^ n
pow_lt zero k h = absurd (omega arith)
pow_lt (suc n) zero h = omega (arith, pow-suc 2 n, pow_pos n)
pow_lt (suc n) (suc k) h = omega (arith, pow-suc 2 n, pow-suc 2 k, pow_lt n k (omega arith))
