-- ===== src/Slab/Marks.antt =====
-- The persistent marks of the blocks of a slab: each block has a bit of its own.
use pmalloc.Prelude.{ℕ, ◌%◌, ◌^◌, ◌≡◌, Bool, true, false, ◌==◌, if◌then◌else◌, arith}
use pmalloc.Word.{test_bit, complement}
use pmalloc.Word.Bit.{test_bit-and, test_bit-or, test_bit-pow, test_bit-complement}
use pmalloc.Interleave.{bid_to_mid}
use pmalloc.Interleave.Inverse.{bid_to_mid-back}
use pmalloc.Slab.{VSlab, meta_set, meta_unset}
use pmalloc.Slab.Free.{meta_of}
use pmalloc.Word.Bounds.{pow_lt}

-- The persistent mark of block `j` of a slab.
unfoldable pub mark : (ℕ → ℕ) → VSlab → ℕ → Bool
mark mem vslab j = test_bit (mem (meta_of vslab j)) (bid_to_mid j % 8)

-- Clearing the persistent mark of one block leaves the marks of all others.
pub mark-meta_unset :
    (mem : ℕ → ℕ) (vslab : VSlab) (i j : ℕ)
    → mark (meta_unset (meta_of vslab i) (bid_to_mid i % 8) mem) vslab j
      ≡ (if i == j then false else mark mem vslab j)
unfolding mark meta_unset
mark-meta_unset mem vslab i j = ground (
  arith,
  bid_to_mid-back i,
  bid_to_mid-back j,
  test_bit-and (bid_to_mid j % 8) (mem (meta_of vslab j)) (complement 8 (2 ^ (bid_to_mid i % 8))),
  test_bit-complement 8 (2 ^ (bid_to_mid i % 8)) (bid_to_mid j % 8)
      (pow_lt 8 (bid_to_mid i % 8) (omega arith)) (omega arith),
  test_bit-pow (bid_to_mid i % 8) (bid_to_mid j % 8),
)

-- Setting the persistent mark of one block leaves the marks of all others.
pub mark-meta_set :
    (mem : ℕ → ℕ) (vslab : VSlab) (i j : ℕ)
    → mark (meta_set (meta_of vslab i) (bid_to_mid i % 8) mem) vslab j
      ≡ (if i == j then true else mark mem vslab j)
unfolding mark meta_set
mark-meta_set mem vslab i j = ground (
  arith,
  bid_to_mid-back i,
  bid_to_mid-back j,
  test_bit-or (bid_to_mid j % 8) (mem (meta_of vslab j)) (2 ^ (bid_to_mid i % 8)),
  test_bit-pow (bid_to_mid i % 8) (bid_to_mid j % 8),
)
