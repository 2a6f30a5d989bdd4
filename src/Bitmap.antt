-- ===== src/Bitmap.antt =====
-- include/pmalloc/internal/bitmap.h: the allocation bitmaps, arrays of 64-bit words in which a set
-- bit marks a free block.
pub mod Laws
pub mod First
pub mod Count
pub mod Above
pub mod Tests
use pmalloc.Prelude.{
  ℕ, zero, suc, ◌+◌, ◌-◌, ◌*◌, ◌/◌, ◌%◌, ◌^◌, Bool, true, false, ◌==◌, if◌then◌else◌, Option, none,
  some, List, [], ◌∷◌, get_or, set, bit_or, bit_xor,
}
use pmalloc.Word.{test_bit, ffs, popcount, clear_lowest}

-- Bit `i` of an array of words.
unfoldable pub is_free : List ℕ → ℕ → Bool
is_free bitmap i = test_bit (get_or bitmap (i / 64) 0) (i % 64)

-- `bitmap_ffu` reads the first word alone, from bit `min_bit` up. Without a set bit there the
-- result is `min_bit - 1` as a `size_t`.
unfoldable pub bitmap_ffu : ℕ → ℕ → ℕ
bitmap_ffu bm min_bit = (ffs 64 (bm / 2 ^ min_bit) + (2 ^ 64 - 1) + min_bit) % 2 ^ 64

-- The scan of `bitmap_sfu` from word `i` on: the place of the first set bit, and the words with
-- that bit cleared. `none` is the read behind the array that the assertion guards against.
unfoldable pub sfu_scan : ℕ → List ℕ → Option (ℕ × List ℕ)
sfu_scan i [] = none
sfu_scan i (g ∷ gs) =
    let later = sfu_scan (i + 1) gs in
    elim (ffs 64 g) [
      | zero ↦ elim later [ none ↦ none | some (bit, gs') ↦ some (bit, g ∷ gs') ]
      | suc k ↦ some (k + i * 64, clear_lowest 64 g ∷ gs)
    ]

-- `bitmap_sfu` with `do_set`.
unfoldable pub bitmap_sfu : List ℕ → Option (ℕ × List ℕ)
unfolding sfu_scan
bitmap_sfu bitmap = sfu_scan 0 bitmap

-- `bitmap_unset_bits` marks a block free.
unfoldable pub bitmap_unset_bits : List ℕ → ℕ → List ℕ
bitmap_unset_bits bitmap index =
    let group_index = index / 64 in
    let mask = 2 ^ (index % 64) in
    set bitmap group_index (bit_or (get_or bitmap group_index 0) mask)

-- `bitmap_set_bits` flips a bit.
unfoldable pub bitmap_set_bits : List ℕ → ℕ → List ℕ
bitmap_set_bits bitmap index =
    let group_index = index / 64 in
    let mask = 2 ^ (index % 64) in
    set bitmap group_index (bit_xor (get_or bitmap group_index 0) mask)

sum_popcount : ℕ → List ℕ → ℕ
sum_popcount zero ws = 0
sum_popcount (suc num) [] = 0
sum_popcount (suc num) (w ∷ ws) = popcount 64 w + sum_popcount num ws

-- `get_bitmap_num`: how many bits of the first `num` words are clear.
unfoldable pub get_bitmap_num : List ℕ → ℕ → ℕ
unfolding sum_popcount
get_bitmap_num bitmap num = 64 * num - sum_popcount num bitmap
