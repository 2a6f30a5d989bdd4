-- ===== src/Bitmap/Laws.antt =====
-- Laws of bitmap.h: what each operation does to every bit.
use pmalloc.Prelude.{
  ℕ, ◌*◌, ◌/◌, ◌%◌, ◌^◌, ◌<◌, ◌≡◌, true, not, ◌==◌, if◌then◌else◌, List, [], ◌∷◌, get_or, set,
  length, arith, get_or-set_self, get_or-set_ne, bit_or, bit_xor,
}
use pmalloc.Word.Bit.{test_bit-or, test_bit-xor, test_bit-pow}
use pmalloc.Bitmap.{is_free, bitmap_unset_bits, bitmap_set_bits}

-- Every word of the array is below `2 ^ 64`.
abbrev pub IsWords : List ℕ → Type 0
IsWords [] = Unit
IsWords (w ∷ ws) = (w < 2 ^ 64) × IsWords ws

get_or-set :
    (xs : List ℕ) (i j v : ℕ)
    → i < length xs
    → get_or (set xs i v) j 0 ≡ (if i == j then v else get_or xs j 0)
get_or-set xs i j v h = ground (arith, get_or-set_self xs i v 0 h, get_or-set_ne xs i j v 0)

-- Freeing block `i` sets bit `i` and leaves every other bit as it was.
pub is_free-unset :
    (bitmap : List ℕ) (i j : ℕ)
    → i < 64 * length bitmap
    → is_free (bitmap_unset_bits bitmap i) j ≡ (if i == j then true else is_free bitmap j)
unfolding is_free bitmap_unset_bits
is_free-unset bitmap i j h = ground (
  arith,
  get_or-set bitmap (i / 64) (j / 64) (bit_or (get_or bitmap (i / 64) 0) (2 ^ (i % 64))),
  test_bit-or (j % 64) (get_or bitmap (i / 64) 0) (2 ^ (i % 64)),
  test_bit-pow (i % 64) (j % 64),
)

-- bitmap_set_bits on a bit in range flips that bit and no other.
pub is_free-flip :
    (bitmap : List ℕ) (i j : ℕ)
    → i < 64 * length bitmap
    → is_free (bitmap_set_bits bitmap i) j
      ≡ (if i == j then not (is_free bitmap j) else is_free bitmap j)
unfolding is_free bitmap_set_bits
is_free-flip bitmap i j h = ground (
  arith,
  get_or-set bitmap (i / 64) (j / 64) (bit_xor (get_or bitmap (i / 64) 0) (2 ^ (i % 64))),
  test_bit-xor (j % 64) (get_or bitmap (i / 64) 0) (2 ^ (i % 64)),
  test_bit-pow (i % 64) (j % 64),
)
