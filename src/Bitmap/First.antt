-- ===== src/Bitmap/First.antt =====
-- `bitmap_sfu` finds the first free block and takes it.
use mathlib.Core.Logic.{inl, inr}
use pmalloc.Prelude.{
  ℕ, suc, ◌+◌, ◌-◌, ◌*◌, ◌/◌, ◌%◌, ◌^◌, ◌<◌, ◌≡◌, ◌≢◌, refl, ap, true, false, ◌==◌, ltb,
  if◌then◌else◌, none, some, List, [], ◌∷◌, length, arith, Bool-cases, Option-cases, ℕ-cases,
}
use pmalloc.Word.{test_bit, ffs, clear_lowest}
use pmalloc.Word.Bit.{test_bit-zero}
use pmalloc.Word.Lowest.{ffs-IsLowest, IsLowest, ffs_pos, ffs-le, test_bit-clear_lowest}
use pmalloc.Word.Bounds.{clear_lowest-lt}
use pmalloc.Bitmap.{is_free, sfu_scan, bitmap_sfu}
use pmalloc.Bitmap.Laws.{IsWords}

is_free-nil : (j : ℕ) → is_free [] j ≡ false
unfolding is_free
is_free-nil j = test_bit-zero (j % 64)

pub is_free-cons :
    (g : ℕ) (gs : List ℕ) (j : ℕ)
    → is_free (g ∷ gs) j ≡ (if ltb j 64 then test_bit g j else is_free gs (j - 64))
unfolding is_free
is_free-cons g gs j = elim (Bool-cases (ltb j 64)) [
  | inl low ↦
      let q : j / 64 ≡ 0 = ground arith in let r : j % 64 ≡ j = ground arith in rw (low, q, r) refl
  | inr high ↦
      let q : j / 64 ≡ suc ((j - 64) / 64) = ground arith in
      let r : j % 64 ≡ (j - 64) % 64 = ground arith in rw (high, q, r) refl
]

-- `k` is the first free block of `bitmap`, and `after` is `bitmap` with that block taken.
pub record TakesFirst (bitmap : List ℕ) (k : ℕ) (after : List ℕ) : Type 0 where
  pub within : k < 64 * length bitmap
  pub was_free : is_free bitmap k ≡ true
  pub below : (j : ℕ) → j < k → is_free bitmap j ≡ false
  pub update : (j : ℕ) → is_free after j ≡ (if k == j then false else is_free bitmap j)
  pub same_length : length after ≡ length bitmap

TakesFirst-here :
    (g k : ℕ) (gs : List ℕ)
    → g < 2 ^ 64
    → ffs 64 g ≡ suc k
    → TakesFirst (g ∷ gs) k (clear_lowest 64 g ∷ gs)
TakesFirst-here g k gs h e =
    let low : IsLowest g k = ffs-IsLowest 64 g k e in
    let small : k < 64 = omega (arith, ffs-le 64 g) in
    record {
      within = omega arith;
      was_free = ground (arith, is_free-cons g gs k, low.is_set);
      below = λ j p. ground (arith, is_free-cons g gs j, low.below j p);
      update = λ j. ground (
        arith,
        is_free-cons g gs j,
        is_free-cons (clear_lowest 64 g) gs j,
        test_bit-clear_lowest 64 g k j h e,
      );
      same_length = refl;
    }

zero_word : (g j : ℕ) → g < 2 ^ 64 → ffs 64 g ≡ 0 → test_bit g j ≡ false
zero_word g j h e = elim (ℕ-cases g) [
  | inl z ↦ rw z (test_bit-zero j)
  | inr (p, q) ↦ absurd (omega (arith, ffs_pos 64 g h (omega arith)))
]

TakesFirst-later :
    (g k : ℕ) (gs gs' : List ℕ)
    → g < 2 ^ 64
    → ffs 64 g ≡ 0
    → TakesFirst gs k gs'
    → TakesFirst (g ∷ gs) (k + 64) (g ∷ gs')
TakesFirst-later g k gs gs' h e t = record {
  within = omega (arith, t.within);
  was_free =
      ground (
        arith,
        is_free-cons g gs (k + 64),
        t.was_free,
        (let f : k + 64 - 64 ≡ k = omega arith in f),
      );
  below = λ j p. ground (arith, is_free-cons g gs j, zero_word g j h e, t.below (j - 64));
  update = λ j.
      ground
        (arith, is_free-cons g gs j, is_free-cons g gs' j, t.update (j - 64), zero_word g j h e);
  same_length = ap suc t.same_length;
}

sfu_scan-TakesFirst :
    (i : ℕ) (gs : List ℕ) (bit : ℕ) (gs' : List ℕ)
    → IsWords gs
    → sfu_scan i gs ≡ some (bit, gs')
    → (k : ℕ) × (bit ≡ k + i * 64) × TakesFirst gs k gs'
unfolding sfu_scan
sfu_scan-TakesFirst i [] bit gs' w e = cc
sfu_scan-TakesFirst i (g ∷ gs) bit gs' w e = elim (ℕ-cases (ffs 64 g)) [
  | inr (k, found) ↦
      let b : bit ≡ k + i * 64 = ground arith in
      let g' : gs' ≡ clear_lowest 64 g ∷ gs = ground arith in
      (k, b, rw g' (TakesFirst-here g k gs w.0 found))
  | inl empty ↦ elim (Option-cases (sfu_scan (i + 1) gs)) [
    | inl none_left ↦ absurd (ground arith)
    | inr ((bit', rest), got) ↦
        let (k, b, t) = sfu_scan-TakesFirst (i + 1) gs bit' rest w.1 got in
        let b' : bit ≡ bit' = ground arith in
        let g' : gs' ≡ g ∷ rest = ground arith in
        (k + 64, omega arith, rw g' (TakesFirst-later g k gs rest w.0 empty t))
  ]
]

-- With a free block in the array the scan finds one.
sfu_scan-ne-none :
    (i : ℕ) (gs : List ℕ) (j : ℕ) → IsWords gs → is_free gs j ≡ true → sfu_scan i gs ≢ none
unfolding sfu_scan
sfu_scan-ne-none i [] j w free = absurd (ground (arith, is_free-nil j))
sfu_scan-ne-none i (g ∷ gs) j w free = elim (ℕ-cases (ffs 64 g)) [
  | inr (k, found) ↦ ground arith
  | inl empty ↦ ground (
    arith,
    is_free-cons g gs j,
    zero_word g j w.0 empty,
    sfu_scan-ne-none (i + 1) gs (j - 64) w.1,
  )
]

-- On an array of 64-bit words with a set bit, bitmap_sfu returns the place of the first set bit
-- and clears that bit alone.
pub bitmap_sfu-TakesFirst :
    (bitmap : List ℕ) (j : ℕ)
    → IsWords bitmap
    → is_free bitmap j ≡ true
    → (r : ℕ × List ℕ) × (bitmap_sfu bitmap ≡ some r) × TakesFirst bitmap r.0 r.1
unfolding bitmap_sfu
bitmap_sfu-TakesFirst bitmap j w free = elim (Option-cases (sfu_scan 0 bitmap)) [
  | inl fails ↦ absurd (sfu_scan-ne-none 0 bitmap j w free fails)
  | inr ((bit, rest), got) ↦
      let (k, b, t) = sfu_scan-TakesFirst 0 bitmap bit rest w got in
      let b' : bit ≡ k = omega arith in ((bit, rest), got, rw b' t)
]

sfu_scan-IsWords :
    (i : ℕ) (gs : List ℕ) (bit : ℕ) (gs' : List ℕ)
    → IsWords gs
    → sfu_scan i gs ≡ some (bit, gs')
    → IsWords gs'
unfolding sfu_scan
sfu_scan-IsWords i [] bit gs' w e = cc
sfu_scan-IsWords i (g ∷ gs) bit gs' w e = elim (ℕ-cases (ffs 64 g)) [
  | inr (k, found) ↦
      let g' : gs' ≡ clear_lowest 64 g ∷ gs = ground arith in rw g' (clear_lowest-lt 64 g w.0, w.1)
  | inl empty ↦ elim (Option-cases (sfu_scan (i + 1) gs)) [
    | inl none_left ↦ absurd (ground arith)
    | inr ((bit', rest), got) ↦
        let g' : gs' ≡ g ∷ rest = ground arith in
        rw g' (w.0, sfu_scan-IsWords (i + 1) gs bit' rest w.1 got)
  ]
]

pub bitmap_sfu-IsWords :
    (bitmap : List ℕ) (bit : ℕ) (after : List ℕ)
    → IsWords bitmap
    → bitmap_sfu bitmap ≡ some (bit, after)
    → IsWords after
unfolding bitmap_sfu
bitmap_sfu-IsWords bitmap bit after w e = sfu_scan-IsWords 0 bitmap bit after w e
