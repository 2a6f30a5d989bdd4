-- ===== src/Cache.antt =====
-- The thread cache of one size class: `cache_s` of include/pmalloc/internal/tcache.h, with
-- `cache_bitmap_findnxt` and `cache_bitmap_flip` of src/tcache.c. A cache has a stack of entries
-- for each of the NBANKS banks and a word `bm` with a bit for each bank that is not empty.
pub mod Next
pub mod Stack
mod Tests
use pmalloc.Prelude.{
  leb, ℕ, zero, suc, ◌+◌, ◌-◌, ◌*◌, ◌/◌, ◌%◌, ◌^◌, Bool, ◌==◌, if◌then◌else◌, Option, none, some,
  bit_xor,
}
use pmalloc.Word.{ffs}
use pmalloc.Interleave.{nbanks}

-- `cache_entry_t`: the block, the byte and the bit of its persistent mark, its `dmeta` (the slab
-- and the block number) and whether a morphing has taken it back.
pub record CacheEntry : Type 0 where
  pub ret : ℕ
  pub metas : ℕ
  pub index : ℕ
  pub dmeta_slab : ℕ
  pub dmeta_bid : ℕ
  pub is_sb : Bool

abbrev pub num_max_cache : ℕ
num_max_cache = 32

-- `avail` is the flat view of the array `avail[NBANKS][NUM_MAX_CACHE]`: entry `i` of bank `c` is
-- number `c * 32 + i`, and index 32 of a bank is the first entry of the next. Index 32 of the last
-- bank is behind the array: `beyond` is what the allocation loop reads there as `is_sb`.
pub record Cache : Type 0 where
  pub ncached : ℕ → ℕ
  pub avail : ℕ → CacheEntry
  pub bm : ℕ
  pub now : ℕ

abbrev pub slot : ℕ → ℕ → ℕ
slot c i = c * num_max_cache + i

abbrev pub update {ℓ} : {A : Type ℓ} → (ℕ → A) → ℕ → A → ℕ → A
update f i v j = if i == j then v else f j

-- `cache_bitmap_findnxt`: the next bank after `now` that is not empty, else the first one.
-- `__builtin_ctzl` is `ffs - 1` on a word that is not 0.
unfoldable pub cache_bitmap_findnxt : ℕ → ℕ → ℕ
cache_bitmap_findnxt bm now =
    let tmp = bm / 2 ^ (now + 1) in if tmp == 0 then ffs 64 bm - 1 else ffs 64 tmp + now

-- `cache_bitmap_flip`, on 32 bits.
unfoldable pub cache_bitmap_flip : ℕ → ℕ → ℕ
cache_bitmap_flip bm pos = bit_xor (bm % 2 ^ 32) (2 ^ pos)

-- The push of `slab_pop_one_cache` and of `slab_free_small`: a first entry flips the bit of its
-- bank, the entry goes on top.
unfoldable pub cache_push : ℕ → CacheEntry → Cache → Cache
cache_push cid entry cache =
    let n = cache.ncached cid in
    record cache {
      bm = if n == 0 then cache_bitmap_flip cache.bm cid else cache.bm;
      avail = update cache.avail (slot cid n) entry;
      ncached = update cache.ncached cid (n + 1);
    }

-- What the small path of `pmalloc_malloc_to` gets from the cache: an entry; no entry of the bank
-- that it looked at (the loop goes on); or an access below the bank's array.
pub data Taken : Type 0 where
  took : CacheEntry → Cache → Taken
  retry : Cache → Taken
  fault : Taken

-- `is_sb` of entry `i` of the flat array.
abbrev pub reads_sb : (beyond : Bool) → Cache → ℕ → Bool
reads_sb beyond cache i = if leb (nbanks * num_max_cache) i then beyond else (cache.avail i).is_sb

-- `while (ncached[now] >= 0 && avail[now][ncached[now]].is_sb) ncached[now]--;` from count `n`:
-- the count at which it stops, `none` for -1.
unfoldable pub skip_sb : (beyond : Bool) → Cache → ℕ → ℕ → Option ℕ
skip_sb beyond cache c zero = if reads_sb beyond cache (slot c 0) then none else some 0
skip_sb beyond cache c (suc n) =
    let rest = skip_sb beyond cache c n in
    if reads_sb beyond cache (slot c (suc n)) then rest else some (suc n)

-- `ncached[now]--`, the block below, and the bank's bit if that was the last one.
take_below : Cache → ℕ → Option ℕ → Taken
take_below cache c none =
    retry (record cache { ncached = update cache.ncached c 0; bm = cache_bitmap_flip cache.bm c })
take_below cache c (some zero) = fault
take_below cache c (some (suc k)) = took (cache.avail (slot c k)) (record cache {
  ncached = update cache.ncached c k;
  bm = if k == 0 then cache_bitmap_flip cache.bm c else cache.bm;
  now = c;
})

-- One round of the loop of `pmalloc_malloc_to`, on a cache with `bm` not 0.
unfoldable pub cache_take : (beyond : Bool) → Cache → Taken
unfolding take_below
cache_take beyond cache =
    let now = cache_bitmap_findnxt cache.bm cache.now in
    take_below cache now (skip_sb beyond cache now (cache.ncached now))
