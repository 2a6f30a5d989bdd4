-- ===== src/Word/Lowest.antt =====
-- The lowest set bit of a word: what `ffs` finds and `clear_lowest` clears.
use native.Mathlib.Nat.{pow-suc, mod-eq_of_lt}
use pmalloc.Prelude.{
  ℕ, zero, suc, ◌-◌, ◌/◌, ◌%◌, ◌^◌, ◌<◌, ◌≡◌, ◌≢◌, refl, true, false, bit_and, arith, ◌==◌,
  if◌then◌else◌,
}
use pmalloc.Word.{test_bit, ffs, clear_lowest, complement, negate}
use pmalloc.Word.Step.{and_digit}
use pmalloc.Word.Bit.{test_bit-xor, test_bit-pow}

-- `ffs` is 0 on the word 0 alone, and else it is one more than the place of a set bit with no set
-- bit below it.
pub record IsLowest (w k : ℕ) : Type 0 where
  pub is_set : test_bit w k ≡ true
  pub below : (i : ℕ) → i < k → test_bit w i ≡ false

pub ffs-zero : (n : ℕ) → ffs n 0 ≡ 0
unfolding ffs
ffs-zero zero = refl
ffs-zero (suc n) = ground (arith, ffs-zero n)

pub ffs_pos : (n w : ℕ) → w < 2 ^ n → w ≢ 0 → 0 < ffs n w
unfolding ffs
ffs_pos zero w h ne = absurd (omega arith)
ffs_pos (suc n) w h ne = ground (arith, pow-suc 2 n, ffs_pos n (w / 2))

-- A set bit is found.
pub ffs_of_bit : (n w k : ℕ) → k < n → test_bit w k ≡ true → 0 < ffs n w
unfolding ffs test_bit
ffs_of_bit zero w k h t = absurd (omega arith)
ffs_of_bit (suc n) w zero h t = ground arith
ffs_of_bit (suc n) w (suc k) h t = ground (arith, ffs_of_bit n (w / 2) k)

pub ffs-le : (n w : ℕ) → ffs n w < suc n
unfolding ffs
ffs-le zero w = omega arith
ffs-le (suc n) w = ground (arith, ffs-le n (w / 2))

ffs-test_bit : (n w k : ℕ) → ffs n w ≡ suc k → test_bit w k ≡ true
unfolding ffs test_bit
ffs-test_bit zero w k e = absurd (omega arith)
ffs-test_bit (suc n) w zero e = ground arith
ffs-test_bit (suc n) w (suc k) e = ground (arith, ffs-test_bit n (w / 2) k)

ffs_below : (n w k i : ℕ) → ffs n w ≡ suc k → i < k → test_bit w i ≡ false
unfolding ffs test_bit
ffs_below zero w k i e h = absurd (omega arith)
ffs_below (suc n) w zero i e h = absurd (omega arith)
ffs_below (suc n) w (suc k) zero e h = ground arith
ffs_below (suc n) w (suc k) (suc i) e h = ground (arith, ffs_below n (w / 2) k i)

pub ffs-IsLowest : (n w k : ℕ) → ffs n w ≡ suc k → IsLowest w k
ffs-IsLowest n w k e = record {
  is_set = ffs-test_bit n w k e;
  below = λ i h. ffs_below n w k i e h;
}

bit_and-complement : (n w : ℕ) → w < 2 ^ n → bit_and w (complement n w) ≡ 0
bit_and-complement zero w h = let e : w ≡ 0 = omega arith in rw e refl
bit_and-complement (suc n) w h =
    let e : complement (suc n) w / 2 ≡ complement n (w / 2) = omega (arith, pow-suc 2 n) in
    rw
      (
        and_digit w (complement (suc n) w),
        e,
        bit_and-complement n (w / 2) (omega (arith, pow-suc 2 n)),
      )
      (omega (arith, pow-suc 2 n))

ffs_ne_zero : (n w k : ℕ) → ffs n w ≡ suc k → w ≢ 0
ffs_ne_zero n w k e z = absurd (omega (arith, let f : ffs n w ≡ 0 = rw z (ffs-zero n) in f))

negate_lem : (n w : ℕ) → w < 2 ^ n → w ≢ 0 → negate n w ≡ 2 ^ n - w
negate_lem n w h ne = mod-eq_of_lt (omega arith)

ffs_one_odd : (n w : ℕ) → ffs n w ≡ 1 → w % 2 ≡ 1
unfolding ffs
ffs_one_odd zero w e = absurd (omega arith)
ffs_one_odd (suc n) w e = ground arith

ffs_even : (n w k : ℕ) → ffs (suc n) w ≡ suc (suc k) → (w % 2 ≡ 0) × (ffs n (w / 2) ≡ suc k)
unfolding ffs
ffs_even n w k e = ground arith

-- `w & -w` is the lowest set bit alone.
pub bit_and-negate : (n w k : ℕ) → w < 2 ^ n → ffs n w ≡ suc k → bit_and w (negate n w) ≡ 2 ^ k
unfolding ffs
bit_and-negate zero w k h e = absurd (omega arith)
bit_and-negate (suc n) w zero h e =
    let odd : w % 2 ≡ 1 = ffs_one_odd (suc n) w e in
    let minus : negate (suc n) w ≡ 2 ^ suc n - w = negate_lem (suc n) w h (omega arith) in
    let half : (2 ^ suc n - w) / 2 ≡ complement n (w / 2) = omega (arith, pow-suc 2 n) in
    rw
      (
        minus,
        and_digit w (2 ^ suc n - w),
        half,
        bit_and-complement n (w / 2) (omega (arith, pow-suc 2 n)),
      )
      (omega (arith, pow-suc 2 n))
bit_and-negate (suc n) w (suc k) h e =
    let even : w % 2 ≡ 0 = (ffs_even n w k e).0 in
    let rest : ffs n (w / 2) ≡ suc k = (ffs_even n w k e).1 in
    let some_bit : w / 2 ≢ 0 = ffs_ne_zero n (w / 2) k rest in
    let small : w / 2 < 2 ^ n = omega (arith, pow-suc 2 n) in
    let minus : negate (suc n) w ≡ 2 ^ suc n - w = negate_lem (suc n) w h (omega arith) in
    let half : (2 ^ suc n - w) / 2 ≡ negate n (w / 2) =
      omega (arith, pow-suc 2 n, negate_lem n (w / 2) small some_bit) in
    rw (minus, and_digit w (2 ^ suc n - w), half, bit_and-negate n (w / 2) k small rest)
      (omega (arith, pow-suc 2 n, pow-suc 2 k))

pub test_bit-clear_lowest :
    (n w k i : ℕ)
    → w < 2 ^ n
    → ffs n w ≡ suc k
    → test_bit (clear_lowest n w) i ≡ (if k == i then false else test_bit w i)
unfolding clear_lowest
test_bit-clear_lowest n w k i h e =
    rw (bit_and-negate n w k h e)
      (ground (arith, test_bit-xor i w (2 ^ k), test_bit-pow k i, ffs-test_bit n w k e))
