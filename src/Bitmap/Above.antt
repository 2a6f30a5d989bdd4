-- ===== src/Bitmap/Above.antt =====
-- `bitmap_ffu` of bitmap.h finds the next set bit, when there is one.
use pmalloc.Prelude.{
  ℕ, suc, ◌+◌, ◌-◌, ◌/◌, ◌%◌, ◌^◌, ◌≤◌, ◌<◌, ◌≡◌, true, false, arith, leb, Bool-cases, inl, inr,
}
use pmalloc.Word.{test_bit, ffs}
use pmalloc.Word.Bit.{test_bit-shift}
use pmalloc.Word.Lowest.{ffs-IsLowest, IsLowest, ffs_of_bit, ffs-le}
use pmalloc.Bitmap.{bitmap_ffu}

-- Bit `k` is the first set bit of `w` from `from` on.
pub record IsFirstFrom (w from k : ℕ) : Type 0 where
  pub at_least : from ≤ k
  pub is_set : test_bit w k ≡ true
  pub skipped : (i : ℕ) → from ≤ i → i < k → test_bit w i ≡ false

pub bitmap_ffu-IsFirstFrom :
    (w from top : ℕ)
    → from ≤ top
    → top < 64
    → test_bit w top ≡ true
    → (bitmap_ffu w from ≤ top) × IsFirstFrom w from (bitmap_ffu w from)
unfolding bitmap_ffu
bitmap_ffu-IsFirstFrom w from top low high t =
    let tmp : ℕ = w / 2 ^ from in
    let there : from + (top - from) ≡ top = omega arith in
    let t' : test_bit tmp (top - from) ≡ true = rw (test_bit-shift from w (top - from), there) t in
    let e : ffs 64 tmp ≡ suc (ffs 64 tmp - 1) =
      omega (arith, ffs_of_bit 64 tmp (top - from) (omega arith) t') in
    let l : IsLowest tmp (ffs 64 tmp - 1) = ffs-IsLowest 64 tmp (ffs 64 tmp - 1) e in
    let size = ffs-le 64 tmp in
    let k : (ffs 64 tmp + (2 ^ 64 - 1) + from) % 2 ^ 64 ≡ from + (ffs 64 tmp - 1) = omega arith in
    rw k (
      within e t',
      record {
        at_least = omega arith;
        is_set = rw (← test_bit-shift from w (ffs 64 tmp - 1)) l.is_set;
        skipped = λ i p q. unshift i p (l.below (i - from) (omega arith));
      },
    )
  where
    within :
        ffs 64 (w / 2 ^ from) ≡ suc (ffs 64 (w / 2 ^ from) - 1)
        → test_bit (w / 2 ^ from) (top - from) ≡ true
        → from + (ffs 64 (w / 2 ^ from) - 1) ≤ top
    within e t' = elim (Bool-cases (leb (ffs 64 (w / 2 ^ from) - 1) (top - from))) [
      | inl p ↦ ground arith
      | inr p ↦
          let l : IsLowest (w / 2 ^ from) (ffs 64 (w / 2 ^ from) - 1) =
            ffs-IsLowest 64 (w / 2 ^ from) (ffs 64 (w / 2 ^ from) - 1) e in
          absurd (ground (arith, l.below (top - from), t'))
    ]

    unshift : (i : ℕ) → from ≤ i → test_bit (w / 2 ^ from) (i - from) ≡ false → test_bit w i ≡ false
    unshift i p t' =
        let there : from + (i - from) ≡ i = omega arith in
        rw (← there, ← test_bit-shift from w (i - from)) t'
