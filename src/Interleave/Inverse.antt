-- ===== src/Interleave/Inverse.antt =====
-- The mappings lose nothing: each has an inverse on its whole range.
use pmalloc.Prelude.{ℕ, ◌+◌, ◌*◌, ◌/◌, ◌%◌, ◌<◌, ◌≡◌, arith}
use pmalloc.Interleave.{bid_to_mid, count_to_index, numa_bid_to_mid, minilog_count_to_index}

-- The inverse of a mapping by lines of `n` entries in groups of six lines.
abbrev pub back : ℕ → ℕ → ℕ
back n mid = mid / (n * 6) * (n * 6) + mid % n * 6 + mid % (n * 6) / n

-- bid_to_mid is a bijection: reading the line and the place in it gives the block back, and every
-- position is the image of a block.
pub bid_to_mid-back : (k : ℕ) → (back 512 (bid_to_mid k) ≡ k) × (bid_to_mid (back 512 k) ≡ k)
unfolding bid_to_mid
bid_to_mid-back k = omega arith

-- count_to_index is a bijection with the same inverse on lines of 8 items.
pub count_to_index-back :
    (k : ℕ) → (back 8 (count_to_index k) ≡ k) × (count_to_index (back 8 k) ≡ k)
unfolding count_to_index
count_to_index-back k = omega arith

pub numa_bid_to_mid-back :
    (k : ℕ) → (back 4 (numa_bid_to_mid k) ≡ k) × (numa_bid_to_mid (back 4 k) ≡ k)
unfolding numa_bid_to_mid
numa_bid_to_mid-back k = omega arith

-- minilog_count_to_index maps the requests below MINILOG_NUM to slots below MINILOG_NUM, and two
-- different ones to different slots.
pub minilog_slots :
    (a b : ℕ)
    → a < 96
    → b < 96
    → (minilog_count_to_index a < 96)
      × (minilog_count_to_index a ≡ minilog_count_to_index b → a ≡ b)
unfolding minilog_count_to_index
minilog_slots a b h k = (omega arith, λ e. omega arith)
