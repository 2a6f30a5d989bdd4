-- ===== src/Interleave/Tests.antt =====
-- Runs of the interleaved mappings.
use pmalloc.Prelude.{◌+◌, ◌*◌, ◌/◌, ◌≢◌, arith, refl}
use pmalloc.Interleave.{bid_to_mid, numa_bid_to_mid}
use pmalloc.Interleave.Lines.{neighbours_apart}

neighbours_apart_example :
    ((4160 + bid_to_mid (10 + 1) / 8) / 64 ≢ (4160 + bid_to_mid (10 + 4) / 8) / 64)
    × ((4160 + numa_bid_to_mid (10 + 1) * 16) / 64 ≢ (4160 + numa_bid_to_mid (10 + 4) * 16) / 64)
neighbours_apart_example =
    neighbours_apart 4160 10 1 4 refl (omega arith) (omega arith) (omega arith)
