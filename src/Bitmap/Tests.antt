-- ===== src/Bitmap/Tests.antt =====
-- Runs of bitmap.h.
use pmalloc.Prelude.{ℕ, ◌≡◌, refl, some, List, [], ◌∷◌, arith}
use pmalloc.Word.{test_bit, ffs, clear_lowest}
use pmalloc.Bitmap.{is_free, bitmap_sfu}
use pmalloc.Bitmap.First.{TakesFirst, bitmap_sfu-TakesFirst}

sfu_run : bitmap_sfu (0 ∷ 40 ∷ 1 ∷ []) ≡ some (67, 0 ∷ 32 ∷ 1 ∷ [])
unfolding bitmap_sfu ffs clear_lowest
sfu_run = refl

bitmap_sfu-TakesFirst_example :
    (r : ℕ × List ℕ) × (bitmap_sfu (0 ∷ 40 ∷ []) ≡ some r) × TakesFirst (0 ∷ 40 ∷ []) r.0 r.1
unfolding is_free test_bit
bitmap_sfu-TakesFirst_example =
    bitmap_sfu-TakesFirst (0 ∷ 40 ∷ []) 69 (omega arith, (omega arith, tt)) refl
