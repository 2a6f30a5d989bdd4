-- ===== src/Slab/FreeLaws.antt =====
-- What a free does to the counter of a slab, to its bitmap and to the thread cache.
use mathlib.Core.Logic.{inl, inr}
use pmalloc.Prelude.{
  ℕ, zero, suc, ◌+◌, ◌-◌, ◌*◌, ◌/◌, ◌%◌, ◌^◌, ◌≤◌, ◌<◌, ◌≡◌, refl, true, false, not, List, [], ◌∷◌,
  ◌==◌, ◌&&◌, if◌then◌else◌, arith, ==_self, Bool-cases, length, get_or, set,
}
use native.Mathlib.Nat.{mul-div_cancel}
use pmalloc.Word.Bounds.{pow_lt, bit_or-lt}
use pmalloc.Bitmap.{is_free, bitmap_unset_bits}
use pmalloc.Bitmap.Laws.{IsWords, is_free-unset}
use pmalloc.Bitmap.Count.{taken, taken-le, taken-release}
use pmalloc.Slab.{VSlab, State}
use pmalloc.Slab.Pop.{entry_of}
use pmalloc.Slab.PopLaws.{IsSlab}
use pmalloc.Slab.Free.{block_index, putback, release_slab, release_lru_slab}

-- The address in the cache entry of a block of more than 0 bytes, when it is below 2 ^ 64, leads
-- back to the number of the block.
pub block_index-entry_of :
    (v : ℕ) (vslab : VSlab) (index : ℕ)
    → 0 < vslab.sc.bitsize
    → (entry_of v vslab index).ret < 2 ^ 64
    → block_index vslab (entry_of v vslab index).ret ≡ index
unfolding entry_of block_index
block_index-entry_of v vslab index pos fits =
    let base : ℕ = vslab.slab + vslab.sc.roffset in
    let d : (base + index * vslab.sc.bitsize + 2 ^ 64 - (vslab.sc.roffset + vslab.slab)) % 2 ^ 64
        ≡ index * vslab.sc.bitsize =
      omega arith in
    rw d (mul-div_cancel index pos)

IsWords-set : (ws : List ℕ) (i w : ℕ) → IsWords ws → w < 2 ^ 64 → IsWords (set ws i w)
IsWords-set [] i w h k = tt
IsWords-set (x ∷ ws) zero w h k = (k, h.1)
IsWords-set (x ∷ ws) (suc i) w h k = (h.0, IsWords-set ws i w h.1 k)

get_or-lt : (ws : List ℕ) (i : ℕ) → IsWords ws → get_or ws i 0 < 2 ^ 64
get_or-lt [] i h = omega arith
get_or-lt (w ∷ ws) zero h = h.0
get_or-lt (w ∷ ws) (suc i) h = get_or-lt ws i h.1

unset-IsWords : (ws : List ℕ) (i : ℕ) → IsWords ws → IsWords (bitmap_unset_bits ws i)
unfolding bitmap_unset_bits
unset-IsWords ws i h = IsWords-set ws (i / 64) _ h (
    bit_or-lt 64 (get_or ws (i / 64) 0) (2 ^ (i % 64)) (get_or-lt ws (i / 64) h)
      (pow_lt 64 (i % 64) (omega arith)))

putback_vslab :
    (v index : ℕ) (s : State)
    → (putback v index s).vslabs v ≡ record (s.vslabs v) {
      bitmap = bitmap_unset_bits (s.vslabs v).bitmap index;
      nbits = ((s.vslabs v).nbits + 2 ^ 16 - 1) % 2 ^ 16;
    }
unfolding putback release_lru_slab release_slab
putback_vslab v index s =
    let n = ((s.vslabs v).nbits + 2 ^ 16 - 1) % 2 ^ 16 in
    elim (Bool-cases (n == 0 && not (s.vslabs v).r_dirty)) [
      | inl empty ↦ rw (empty, ==_self v) refl
      | inr held ↦ rw (held, ==_self v) refl
    ]

-- Putting back a block in use and in range, in a slab of fewer than 2 ^ 16 blocks whose bitmap has
-- room for them and whose header counts those in use, frees that block and no other, and the
-- header still counts the blocks in use.
pub putback-IsSlab :
    (v index : ℕ) (s : State)
    → IsSlab (s.vslabs v)
    → index < (s.vslabs v).sc.nbits
    → (s.vslabs v).sc.nbits < 2 ^ 16
    → (s.vslabs v).sc.nbits ≤ 64 * length (s.vslabs v).bitmap
    → is_free (s.vslabs v).bitmap index ≡ false
    → IsSlab ((putback v index s).vslabs v)
      × ((j : ℕ)
          → is_free ((putback v index s).vslabs v).bitmap j
            ≡ (if index == j then true else is_free (s.vslabs v).bitmap j))
putback-IsSlab v index s valid h small room used = rw (putback_vslab v index s) (
  record {
    words = unset-IsWords (s.vslabs v).bitmap index valid.words;
    count =
        omega (arith, valid.count, taken-le (s.vslabs v).bitmap (s.vslabs v).sc.nbits, released);
  },
  λ j. update j,
)
  where
    update :
        (j : ℕ)
        → is_free (bitmap_unset_bits (s.vslabs v).bitmap index) j
          ≡ (if index == j then true else is_free (s.vslabs v).bitmap j)
    update j = is_free-unset (s.vslabs v).bitmap index j (omega arith)

    released :
        suc (taken (bitmap_unset_bits (s.vslabs v).bitmap index) (s.vslabs v).sc.nbits)
        ≡ taken (s.vslabs v).bitmap (s.vslabs v).sc.nbits
    released = taken-release (s.vslabs v).bitmap _ index (s.vslabs v).sc.nbits h used update
