-- ===== src/Lib.antt =====
-- PMAlloc, a persistent-memory allocator for machines with several NUMA nodes, whose sources are
-- src/*.c and include/pmalloc/internal/*.h.
--
-- How the program works. A small request is served from the thread's cache of its size class
-- (pmalloc.c, tcache.c): a cache has six banks of entries, and neighbouring blocks go to different
-- banks. An empty cache is filled from a slab of 64 KB (slab.c), whose free blocks are the set bits
-- of a volatile bitmap and whose blocks in use have a persistent mark each. Marks, log items and
-- log entries are interleaved over cache lines. A free returns the block to the cache, or to the
-- bitmap, or, from another NUMA node, to a second bitmap that is drained later (numa_log.c). A
-- large request gets an extent (extent.c) of memory that the arena maps in chunks (arena.c). Each
-- extent and file has an item in the arena's log (log.c), a chain of chunks in persistent memory;
-- freeing it appends a tombstone, and chunks without a live item are collected.
--
-- Files and the code they model:
--   Prelude, Word    numbers, lists, Boolean tests; words of C as natural numbers with `% 2 ^ w`
--                    written out, and the laws of the bit operations
--   Bitmap           bitmap.h, on lists of 64-bit words
--   Interleave       bid_to_mid, count_to_index, numa_bid_to_mid, minilog_count_to_index
--   SizeClass        sizeclass.c, sizeclass.h and roundUp: tables, lookup, layout of a slab
--   Cache            cache_s, its banks and the loop of pmalloc_malloc_to that takes an entry
--   Slab             slab.c and slab.h: slab_create, slab_pop_one_cache, slab_free_small,
--                    migrate_putback, and the draining that numa_log.c also does
--   Log              log.c, log.h, simple_list.h: add_log, add_log_for_GC, flush_tomb, fast_GC; the
--                    pending tombstones of add_tomb and of the flusher in numa_log.c (Tomb);
--                    slow_GC, which copies the live items to a new log (Slow)
--   NumaLog, MiniLog numa_log.c and minilog.c
--   Decay            the decay arithmetic of arena.c
--   Purge            arena_decay_to_limit of arena.c, what it calls, extents_dalloc of extent.c
--   LinkedList       dl.c, on an explicit memory: its operations are those of sequences of nodes
--   ArenaMemory      arena_activate_new_memory of arena.c and what it calls
--   Extents          extent.c and extent.h: a pool of extents (Pool), the search of it (Fit: best
--                    fit, as PMALLOC_BESTFIT is defined, and the first fit that it replaces),
--                    splitting and extent_recycle (Split), registering new extents (Alloc), merging
--                    (Coalesce), extent_record and deregistering (Record), extents_evict (Evict)
--   Malloc           the rounding and the choice that pmalloc_malloc_to of pmalloc.c begins with;
--                    the loops of numa_migrate_check (Migrate)
--
-- How state is modelled. A component's state is a record and an operation a function from it; what
-- the caller gets besides is paired with it. Slabs and log chunks are kept in stores by name, so
-- that a change of one is seen wherever its name is held. A place where the program stops or reads
-- out of bounds is a result of its own (`none`, `fault`). Locks are not modelled: an operation is
-- what happens while its locks are held, and the answer of a `trylock` is an argument. Flushes and
-- fences (persistent.h) do not change the values of memory and are left out. Counters of 64 bits
-- that only count operations up are taken not to wrap, except where the code subtracts from them.
-- A floating-point comparison with a threshold is the comparison of whole numbers that it stands
-- for. Assertions are not checks of the program: they are compiled out of release builds.
--
-- Fuel. `ffs` and the bit loops have one step for each of the 64 bits of a word; `fill_while` has
-- one for each size up to the limit, which its lemmas show to be enough; `uncover` has one for each
-- byte of an old block, since a new block has at least one. The search for an extent has a round
-- for each page class; the loops that merge have one more than the pool has extents, since each
-- round that goes on takes an extent out of the pool, and so does stashing. The search of a list
-- and the walk over the chain of a log take one more than there are nodes or chunks; `muzzy_scan`
-- has one for each chunk that can lie in the extent and one more.
--
-- Arguments that stand for other code. The red-black tree that rb.h generates for the chunks of a
-- log is the record `ChunkTree`, with the laws of a set as the hypothesis `IsChunkTree`; a list
-- with those laws is in Log/Tests. The heap of ph.h and the radix tree of rtree.h are the records
-- `PairingHeap` and `Rtree`, with `IsPairingHeap` and `IsRtree` as hypotheses; a list and a
-- function with those laws are in Extents/Example. Whether the allocation of an `extent_t`
-- succeeds is an argument too, and so is `beyond`, what is read behind the banks of a cache. What
-- the radix tree or the tree of files names for a log item is the argument `owner`, the slab that
-- the tree names for a block is `vslab_of`, and the word that add_tomb writes to the NUMA log is
-- an argument. The clock, the jitter of prng.h, the table of smoothstep.h and the address of a
-- mapped chunk are plain arguments.
--
-- Not modelled: the rest of the entry points of pmalloc.c, what a hole in a file and its unmapping
-- do (they are calls in order), morphing a slab to another class, recovery, the mapping of files,
-- thread-local data, and the containers, clocks and atomics copied from jemalloc.
pub mod Prelude
pub mod Word
pub mod Bitmap
pub mod Interleave
pub mod SizeClass
pub mod Cache
pub mod Slab
pub mod Log
pub mod MiniLog
pub mod NumaLog
pub mod Decay
pub mod ArenaMemory
pub mod Extents
pub mod Malloc
pub mod LinkedList
pub mod Purge
