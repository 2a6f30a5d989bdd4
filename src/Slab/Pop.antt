-- ===== src/Slab/Pop.antt =====
-- `slab_pop_one_cache` of src/slab.c: one free block of a slab goes to the thread cache.
use pmalloc.Prelude.{
  ℕ, ◌+◌, ◌-◌, ◌*◌, ◌/◌, ◌%◌, ◌^◌, Bool, false, not, none, some, List, ◌==◌, if◌then◌else◌,
}
use pmalloc.SizeClass.{get_sizeclass_id_by_size}
use pmalloc.Bitmap.{bitmap_sfu}
use pmalloc.Interleave.{bid_to_mid, nbanks}
use pmalloc.Cache.{CacheEntry, cache_push, num_max_cache, update}
use pmalloc.Slab.{VSlab, State}
use pmalloc.Slab.Lru.{dl_delete, node_last, dl_move_to_tail, update_arena_lru_morphing_slab}
use pmalloc.Slab.Drain.{drain}

-- The results -1, 0 (the bank is full) and 1 (there is room for more), and the read behind the
-- bitmap of a slab with no free block.
pub data Popped : Type 0 where
  unusable : State → Popped
  bank_full : State → Popped
  popped : State → Popped
  fault : Popped

-- The cache entry of block `index` of slab `v`.
unfoldable pub entry_of : ℕ → VSlab → ℕ → CacheEntry
entry_of v vslab index =
    let mid = bid_to_mid index in
    record {
      ret = vslab.slab + vslab.sc.roffset + index * vslab.sc.bitsize;
      metas = vslab.slab + vslab.sc.moffset + mid / 8;
      index = mid % 8;
      dmeta_slab = v;
      dmeta_bid = index;
      is_sb = false;
    }

-- The part behind `bitmap_sfu`, with the block and the words that it gave.
unfoldable pub take_block : ℕ → ℕ → List ℕ → State → State
unfolding update_arena_lru_morphing_slab entry_of cache_push
take_block v index words s =
    let vslab = s.vslabs v in
    let n = (vslab.nbits + 1) % 2 ^ 16 in
    record s {
      vslabs = update s.vslabs v (record vslab { bitmap = words; nbits = n });
      arena =
          if vslab.num_b == 0
          then update_arena_lru_morphing_slab ((n + 2 ^ 64 - 1) % 2 ^ 64) n vslab.sc.nbits s.arena
          else s.arena;
      cache = cache_push (index % nbanks) (entry_of v vslab index) s.cache;
    }

-- The last part: an unmixed slab moves to the end of the LRU list.
unfoldable pub touch_lru : ℕ → State → State
unfolding node_last dl_move_to_tail
touch_lru v s =
    if (s.vslabs v).num_b == 0
    then record s {
      arena = record (s.arena) {
        lru = if node_last s.arena.lru == v then s.arena.lru else dl_move_to_tail v s.arena.lru;
      };
      vslabs = update s.vslabs v (record (s.vslabs v) { timestamp = s.arena.timestamp });
    }
    else s

unfoldable pub pop_block : ℕ → State → Popped
unfolding take_block touch_lru
pop_block v s = elim (bitmap_sfu (s.vslabs v).bitmap) [
  | none ↦ fault
  | some (index, words) ↦
      let s' = take_block v index words s in
      if s'.cache.ncached (index % nbanks) == num_max_cache
      then bank_full s'
      else popped (touch_lru v s')
]

unfoldable pub drain_slab : ℕ → State → State
unfolding dl_delete drain
drain_slab v s =
    let (vslab, mem) = drain (s.vslabs v) s.mem in
    record s {
      vslabs = update s.vslabs v vslab;
      mem = mem;
      arena = record (s.arena) { numa_list = dl_delete v s.arena.numa_list };
    }

-- `busy` is the answer of `pthread_mutex_trylock(&arena->numa_lock)`.
unfoldable pub slab_pop_one_cache : (busy : Bool) → (v sc_idx : ℕ) → State → Popped
unfolding pop_block drain_slab
slab_pop_one_cache busy v sc_idx s =
    let vslab = s.vslabs v in
    if not (get_sizeclass_id_by_size vslab.sc.bitsize == sc_idx)
    then unusable s
    else if vslab.nbits == vslab.sc.nbits + 1
    then unusable s
    else if vslab.nbits == vslab.sc.nbits
    then (if vslab.r_dirty
        then (if busy then unusable s else pop_block v (drain_slab v s))
        else unusable s)
    else pop_block v s
