-- ===== src/Interleave.antt =====
-- Interleaved mapping: the four functions that spread neighbouring entries of a persistent array
-- over NBANKS groups of cache lines, so that consecutive writes hit different lines.
-- `bid_to_mid` of include/pmalloc/internal/slab.h, `count_to_index` of src/log.c,
-- `numa_bid_to_mid` of src/numa_log.c and `minilog_count_to_index` of src/minilog.c.
pub mod Inverse
pub mod Lines
mod Tests
use pmalloc.Prelude.{ℕ, ◌+◌, ◌*◌, ◌/◌, ◌%◌}

-- `NBANKS` of pmalloc_internal.h.
abbrev pub nbanks : ℕ
nbanks = 6

abbrev pub cache_line_size : ℕ
cache_line_size = 64

-- Where the bit of slab block `bid` stands in the persistent bitmap of the slab.
unfoldable pub bid_to_mid : ℕ → ℕ
bid_to_mid bid =
    let n : ℕ = 512 in
    let nn = n * nbanks in let i = bid % nn in bid / nn * nn + bid % nbanks * n + i / nbanks

-- Where the `bid`-th item of a log chunk stands. `n` is CACHE_LINE_SIZE / sizeof(ITEM_SIZE), and
-- ITEM_SIZE is a `sizeof`, itself a `size_t` of 8 bytes.
unfoldable pub count_to_index : ℕ → ℕ
count_to_index bid =
    let n = cache_line_size / 8 in
    let nn = n * nbanks in let i = bid % nn in bid / nn * nn + bid % nbanks * n + i / nbanks

-- Where entry `bid` of a NUMA log stands; an entry has 16 bytes.
unfoldable pub numa_bid_to_mid : ℕ → ℕ
numa_bid_to_mid bid =
    let n = cache_line_size / 16 in
    let nn = n * nbanks in let i = bid % nn in bid / nn * nn + bid % nbanks * n + i / nbanks

-- MINILOG_NUM items of 8 bytes: two halves, one for each DIMM.
abbrev pub minilog_num : ℕ
minilog_num = nbanks * 2 * (cache_line_size / 8)

-- Which slot of the mini log request `bid` takes.
unfoldable pub minilog_count_to_index : ℕ → ℕ
minilog_count_to_index bid =
    let alt = bid % 2 in
    let bid2 = bid / 2 in
    let n = cache_line_size / 8 in
    let groups = minilog_num / 2 / n in bid2 % groups * n + bid2 / groups + alt * minilog_num / 2
