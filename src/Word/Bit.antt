-- ===== src/Word/Bit.antt =====
-- The bits of a word after `|`, `&`, `^` and `~`, at every width.
use native.Mathlib.Nat.{pow-suc, pow-succ', div-div-eq-div-mul}
use pmalloc.Prelude.{
  ℕ, zero, suc, ◌+◌, ap, sym, ◌∙◌, ◌/◌, ◌^◌, ◌≤◌, ◌<◌, ◌≡◌, refl, false, not, ◌&&◌, ◌||◌, bit_and,
  bit_or, bit_xor, arith, ◌==◌, if◌then◌else◌,
}
use pmalloc.Word.{test_bit, complement}
use pmalloc.Word.Step.{or_digit, and_digit, xor_digit}

pub test_bit-or : (i a b : ℕ) → test_bit (bit_or a b) i ≡ (test_bit a i || test_bit b i)
unfolding test_bit
test_bit-or zero a b = ground (arith, or_digit a b)
test_bit-or (suc i) a b =
    let e : bit_or a b / 2 ≡ bit_or (a / 2) (b / 2) = omega (arith, or_digit a b) in
    rw e (test_bit-or i (a / 2) (b / 2))

pub test_bit-and : (i a b : ℕ) → test_bit (bit_and a b) i ≡ (test_bit a i && test_bit b i)
unfolding test_bit
test_bit-and zero a b = ground (arith, and_digit a b)
test_bit-and (suc i) a b =
    let e : bit_and a b / 2 ≡ bit_and (a / 2) (b / 2) = omega (arith, and_digit a b) in
    rw e (test_bit-and i (a / 2) (b / 2))

pub test_bit-xor :
    (i a b : ℕ)
    → test_bit (bit_xor a b) i ≡ (if test_bit b i then not (test_bit a i) else test_bit a i)
unfolding test_bit
test_bit-xor zero a b = ground (arith, xor_digit a b)
test_bit-xor (suc i) a b =
    let e : bit_xor a b / 2 ≡ bit_xor (a / 2) (b / 2) = omega (arith, xor_digit a b) in
    rw e (test_bit-xor i (a / 2) (b / 2))

pub test_bit-zero : (i : ℕ) → test_bit 0 i ≡ false
unfolding test_bit
test_bit-zero zero = refl
test_bit-zero (suc i) = test_bit-zero i

pub test_bit-pow : (b i : ℕ) → test_bit (2 ^ b) i ≡ (b == i)
unfolding test_bit
test_bit-pow zero zero = refl
test_bit-pow zero (suc i) = ground (arith, test_bit-zero i)
test_bit-pow (suc b) zero = ground (arith, pow-suc 2 b)
test_bit-pow (suc b) (suc i) =
    let e : 2 ^ suc b / 2 ≡ 2 ^ b = omega (arith, pow-suc 2 b) in
    rw e (ground (arith, test_bit-pow b i))

pub test_bit-complement :
    (n w i : ℕ) → w < 2 ^ n → i < n → test_bit (complement n w) i ≡ not (test_bit w i)
unfolding test_bit
test_bit-complement zero w i h k = absurd (omega arith)
test_bit-complement (suc n) w zero h k = ground (arith, pow-suc 2 n)
test_bit-complement (suc n) w (suc i) h k =
    let e : complement (suc n) w / 2 ≡ complement n (w / 2) = omega (arith, pow-suc 2 n) in
    rw e (test_bit-complement n (w / 2) i (omega (arith, pow-suc 2 n)) (omega arith))

-- A word of `n` bits has no bit from place `n` on.
pub test_bit_high : (n w i : ℕ) → w < 2 ^ n → n ≤ i → test_bit w i ≡ false
unfolding test_bit
test_bit_high zero w i h k = let e : w ≡ 0 = omega arith in rw e (test_bit-zero i)
test_bit_high (suc n) w zero h k = absurd (omega arith)
test_bit_high (suc n) w (suc i) h k =
    test_bit_high n (w / 2) i (omega (arith, pow-suc 2 n)) (omega arith)

-- The bits of a word that is shifted to the right.
pub test_bit-shift : (s w i : ℕ) → test_bit (w / 2 ^ s) i ≡ test_bit w (s + i)
unfolding test_bit
test_bit-shift zero w i =
    let e : w / 2 ^ 0 ≡ w = omega arith in let f : 0 + i ≡ i = omega arith in rw (e, f)
test_bit-shift (suc s) w i =
    let e : w / 2 ^ suc s ≡ w / 2 / 2 ^ s =
      ap (λ (t : ℕ). w / t) (pow-succ' 2 s) ∙ sym (div-div-eq-div-mul w 2 (2 ^ s)) in
    let f : suc s + i ≡ suc (s + i) = omega arith in rw (e, f) (test_bit-shift s (w / 2) i)
