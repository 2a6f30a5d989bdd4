-- ===== src/Malloc/Migrate.antt =====
-- A thread that runs on another processor than its arena's gives the blocks in its caches back to
-- their slabs: the loops of `numa_migrate_check` of src/pmalloc.c.
use pmalloc.Prelude.{ℕ, zero, suc, ◌+◌, true, false, ◌==◌, Option, none, some}
use pmalloc.Interleave.{nbanks}
use pmalloc.Cache.{CacheEntry, Cache, slot, update}
use pmalloc.Slab.{State}
use pmalloc.Slab.Free.{migrate_putback}

-- MAX_SZ_IDX.
abbrev pub max_sz_idx : ℕ
max_sz_idx = 40

-- What the radix tree names for a block is the argument `vslab_of`.
module _ (vslab_of : ℕ → ℕ) where
  -- The next `n` entries, from entry `i` on.
  unfoldable pub put_entries : (n i : ℕ) → (ℕ → CacheEntry) → State → Option State
  put_entries zero i avail s = some s
  put_entries (suc n) i avail s = elim (migrate_putback (vslab_of (avail i).ret) (avail i).ret s) [
    | none ↦ none
    | some s' ↦ put_entries n (i + 1) avail s'
  ]

  -- The next `n` banks, from bank `cid` on.
  unfoldable pub put_banks : (n cid : ℕ) → Cache → State → Option (Cache × State)
  unfolding put_entries
  put_banks zero cid cache s = some (cache, s)
  put_banks (suc n) cid cache s =
      elim (put_entries (cache.ncached cid) (slot cid 0) cache.avail s) [
        | none ↦ none
        | some s' ↦ put_banks n (cid + 1) (record cache { ncached = update cache.ncached cid 0 }) s'
      ]

  unfoldable pub put_cache_back : Cache → State → Option (Cache × State)
  unfolding put_banks
  put_cache_back cache s = elim (cache.bm == 0) [
    | true ↦ some (cache, s)
    | false ↦ elim (put_banks nbanks 0 cache s) [
      | none ↦ none
      | some (cache', s') ↦ some (record cache' { bm = 0 }, s')
    ]
  ]

  -- The next `n` size classes, from class `sc` on.
  unfoldable pub put_caches : (n sc : ℕ) → (ℕ → Cache) → State → Option ((ℕ → Cache) × State)
  unfolding put_cache_back
  put_caches zero sc caches s = some (caches, s)
  put_caches (suc n) sc caches s = elim (put_cache_back (caches sc) s) [
    | none ↦ none
    | some (cache, s') ↦ put_caches n (sc + 1) (update caches sc cache) s'
  ]

  -- The loop over all size classes.
  unfoldable pub migrate_caches : (ℕ → Cache) → State → Option ((ℕ → Cache) × State)
  unfolding put_caches
  migrate_caches caches s = put_caches max_sz_idx 0 caches s
