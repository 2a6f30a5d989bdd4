-- ===== src/Slab/Shape.antt =====
-- Where the blocks of a slab and their persistent marks lie.
use mathlib.Core.Logic.{inl, inr}
use pmalloc.Prelude.{ℕ, ◌+◌, ◌*◌, ◌/◌, ◌%◌, ◌≤◌, ◌<◌, ◌≡◌, ◌≢◌, ◌⊎◌, arith, ap, leb, Bool-cases}
use pmalloc.Interleave.{bid_to_mid}
use pmalloc.Interleave.Inverse.{back, bid_to_mid-back}
use pmalloc.Slab.{VSlab}
use pmalloc.Slab.Pop.{entry_of}

apart_lt : (i j b : ℕ) → i < j → i * b + b ≤ j * b
apart_lt i j b h = grind arith

-- Two different blocks of a slab share no byte, and have different marks.
pub entries_apart :
    (v : ℕ) (vslab : VSlab) (i j : ℕ)
    → i ≢ j
    → let a = entry_of v vslab i in
      let b = entry_of v vslab j in
      ((a.ret + vslab.sc.bitsize ≤ b.ret) ⊎ (b.ret + vslab.sc.bitsize ≤ a.ret))
      × (a.metas ≡ b.metas → a.index ≢ b.index)
unfolding entry_of
entries_apart v vslab i j ne = (blocks, λ m e. ne (same_mark m e))
  where
    same_mark :
        vslab.slab + vslab.sc.moffset + bid_to_mid i / 8
          ≡ vslab.slab + vslab.sc.moffset + bid_to_mid j / 8
        → bid_to_mid i % 8 ≡ bid_to_mid j % 8
        → i ≡ j
    same_mark m e =
        let mid : bid_to_mid i ≡ bid_to_mid j = omega arith in
        omega (arith, ap (back 512) mid, bid_to_mid-back i, bid_to_mid-back j)

    blocks :
        (vslab.slab + vslab.sc.roffset + i * vslab.sc.bitsize + vslab.sc.bitsize
          ≤ vslab.slab + vslab.sc.roffset + j * vslab.sc.bitsize)
        ⊎ (vslab.slab + vslab.sc.roffset + j * vslab.sc.bitsize + vslab.sc.bitsize
            ≤ vslab.slab + vslab.sc.roffset + i * vslab.sc.bitsize)
    blocks = elim (Bool-cases (leb i j)) [
      | inl le ↦ inl (omega (arith, apart_lt i j vslab.sc.bitsize (ground arith)))
      | inr gt ↦ inr (omega (arith, apart_lt j i vslab.sc.bitsize (ground arith)))
    ]
