-- ===== src/Interleave/Lines.antt =====
-- What interleaving is for: neighbours lie in different cache lines, and groups stay together.
use pmalloc.Prelude.{ℕ, ◌+◌, ◌*◌, ◌%◌, ◌/◌, ◌<◌, ◌≡◌, arith, ◌≢◌}
use pmalloc.Interleave.{bid_to_mid, count_to_index, numa_bid_to_mid}

-- Any two of the marks of six consecutive blocks, in a bitmap that begins at a cache line, lie in
-- different cache lines, and so do any two of six consecutive NUMA entries behind a base that is
-- at a cache line.
pub neighbours_apart :
    (base k i j : ℕ)
    → base % 64 ≡ 0
    → i < 6
    → j < 6
    → i ≢ j
    → ((base + bid_to_mid (k + i) / 8) / 64 ≢ (base + bid_to_mid (k + j) / 8) / 64)
      × ((base + numa_bid_to_mid (k + i) * 16) / 64 ≢ (base + numa_bid_to_mid (k + j) * 16) / 64)
unfolding bid_to_mid numa_bid_to_mid
neighbours_apart base k i j whole hi hj ne = omega arith

-- The items of a log chunk begin 16 bytes behind its begin, which is aligned: two of six
-- consecutive ones can lie in the same line.
pub items_31_36 :
    (c : ℕ)
    → c % 64 ≡ 0
    → (c + 16 + count_to_index 31 * 8) / 64 ≡ (c + 16 + count_to_index 36 * 8) / 64
unfolding count_to_index
items_31_36 c whole = omega arith

-- The mapping keeps each group of 3072 blocks in place.
pub bid_to_mid_group : (k : ℕ) → bid_to_mid k / 3072 ≡ k / 3072
unfolding bid_to_mid
bid_to_mid_group k = omega arith
