-- ===== src/Slab/Free.antt =====
-- `slab_free_small` and `migrate_putback` of src/slab.c: a block goes back to its slab or to the
-- thread cache. `s.cache` is the freeing thread's cache of the slab's class.
use pmalloc.Prelude.{
  ℕ, zero, suc, ◌+◌, ◌-◌, ◌*◌, ◌/◌, ◌%◌, ◌^◌, Bool, true, false, not, ◌&&◌, Option, none, some,
  List, [], ◌∷◌, ◌++◌, ◌==◌, ltb, if◌then◌else◌,
}
use pmalloc.Prelude.Int.{pos, ◌+ℤ◌, ◌-ℤ◌}
use pmalloc.SizeClass.{get_sizeclass_id_by_size}
use pmalloc.Bitmap.{bitmap_unset_bits, bitmap_set_bits}
use pmalloc.Interleave.{bid_to_mid, nbanks}
use pmalloc.Cache.{CacheEntry, cache_push, num_max_cache, update}
use pmalloc.Slab.{VSlab, SbEntry, State, numa_log_alloc, arena_slab_dalloc, meta_unset}
use pmalloc.Slab.Lru.{dl_delete, dl_delete_vslab, is_low, update_arena_lru_morphing_slab}

-- `a - b` on `uintptr_t`.
abbrev pub sub64 : ℕ → ℕ → ℕ
sub64 a b = (a + 2 ^ 64 - b) % 2 ^ 64

-- The number of the block at `ptr`.
unfoldable pub block_index : VSlab → ℕ → ℕ
block_index vslab ptr = sub64 ptr (vslab.sc.roffset + vslab.slab) / vslab.sc.bitsize

-- The byte that holds the persistent mark of block `bid`.
abbrev pub meta_of : VSlab → ℕ → ℕ
meta_of vslab bid = vslab.slab + vslab.sc.moffset + bid_to_mid bid / 8

-- A free by a thread of another NUMA node: logged, and noted in `rbitmap`.
unfoldable pub free_far : (v ptr : ℕ) → State → State
free_far v ptr s =
    let vslab = s.vslabs v in
    record s {
      calls = s.calls ++ numa_log_alloc ptr ∷ [];
      vslabs = update s.vslabs v (record vslab {
        rbitmap = bitmap_set_bits vslab.rbitmap (block_index vslab ptr);
        r_dirty = true;
      });
      arena =
          if vslab.r_dirty
          then s.arena
          else record (s.arena) { numa_list = s.arena.numa_list ++ v ∷ [] };
    }

-- The slab leaves its bin and its extent is given back.
unfoldable pub release_slab : ℕ → State → State
unfolding dl_delete_vslab
release_slab v s =
    let vslab = s.vslabs v in
    record s {
      arena = dl_delete_vslab v (get_sizeclass_id_by_size vslab.sc.bitsize) s.arena;
      calls = s.calls ++ arena_slab_dalloc vslab.eslab ∷ [];
    }

-- The slab leaves the LRU list too.
unfoldable pub release_lru_slab : ℕ → State → State
unfolding release_slab dl_delete
release_lru_slab v s =
    let s' = release_slab v s in
    record s' {
      arena = record (s'.arena) {
        lru = dl_delete v s'.arena.lru;
        lru_len = s'.arena.lru_len -ℤ pos 1;
        morphing_len = s'.arena.morphing_len -ℤ pos 1;
      };
    }

-- The persistent mark of block `index` is cleared, and its `dmeta` says free.
unfoldable pub unmark : (v index : ℕ) → State → State
unmark v index s =
    let vslab = s.vslabs v in
    record s {
      mem = meta_unset (meta_of vslab index) (bid_to_mid index % 8) s.mem;
      vslabs = update s.vslabs v (record vslab {
        dmeta = update vslab.dmeta index (record (vslab.dmeta index) { alloced = false });
      });
    }

-- The block goes back to the bitmap, and a slab with no block in use goes back to its arena.
unfoldable pub putback : (v index : ℕ) → State → State
unfolding release_lru_slab update_arena_lru_morphing_slab
putback v index s =
    let vslab = s.vslabs v in
    let n = (vslab.nbits + 2 ^ 16 - 1) % 2 ^ 16 in
    let s' = record s {
      vslabs =
          update s.vslabs v
            (record vslab { bitmap = bitmap_unset_bits vslab.bitmap index; nbits = n });
      arena =
          if vslab.num_b == 0
          then update_arena_lru_morphing_slab (n + 1) n vslab.sc.nbits s.arena
          else s.arena;
    } in
    if n == 0 && not vslab.r_dirty then release_lru_slab v s' else s'

-- The block goes on the thread cache.
unfoldable pub put_cache : ℕ → CacheEntry → State → State
put_cache cid entry s = record s { cache = cache_push cid entry s.cache }

-- The branch for a block of the slab's own class.
unfoldable pub free_block : (cross : Bool) → (v ptr : ℕ) → State → State
free_block cross v ptr s =
    let vslab = s.vslabs v in
    let index = block_index vslab ptr in
    let s' = unmark v index s in
    let cid = index % nbanks in
    if not cross && ltb (s'.cache.ncached cid) num_max_cache
    then put_cache cid
        (record {
          ret = ptr;
          metas = meta_of vslab index;
          index = bid_to_mid index % 8;
          dmeta_slab = v;
          dmeta_bid = index;
          is_sb = false;
        })
        s'
    else putback v index s'

-- `table->is_freed += 1` on the entry of old block `bid_b`, on 2 bits; `none` when the search runs
-- out of the table.
unfoldable pub count_freed : ℕ → List SbEntry → Option (List SbEntry)
count_freed bid_b [] = none
count_freed bid_b (e ∷ es) =
    let later = count_freed bid_b es in
    if e.bid_b == bid_b
    then some (record e { is_freed = (e.is_freed + 1) % 4 } ∷ es)
    else elim later [ none ↦ none | some es' ↦ some (e ∷ es') ]

-- The loop over the new blocks that the old block at `ptr` lies in, from block `bid` on; `none`
-- when the fuel is too little. `num_b` of a `dmeta` has 15 bits.
unfoldable pub uncover : (fuel v ptr bid : ℕ) → State → Option State
uncover zero v ptr bid s = none
uncover (suc fuel) v ptr bid s =
    let vslab = s.vslabs v in
    let d = vslab.dmeta bid in
    let n = (d.num_b + 2 ^ 15 - 1) % 2 ^ 15 in
    let fewer = record vslab { dmeta = update vslab.dmeta bid (record d { num_b = n }) } in
    let gone = record fewer {
      bitmap = bitmap_unset_bits vslab.bitmap bid;
      dmeta = update vslab.dmeta bid (record { alloced = false; num_b = n });
      nbits = (vslab.nbits + 2 ^ 16 - 1) % 2 ^ 16;
    } in
    let s' =
      if n == 0
      then record s {
        vslabs = update s.vslabs v gone;
        mem = meta_unset (meta_of vslab bid) (bid_to_mid bid % 8) s.mem;
      }
      else record s { vslabs = update s.vslabs v fewer } in
    let rest = uncover fuel v ptr (bid + 1) s' in
    if ltb (vslab.slab + vslab.sc.roffset + bid * vslab.sc.bitsize) (ptr + vslab.sc_b.bitsize)
    then rest
    else some s

-- Behind the loop: the slab is released, or it is of one class again and may morph, or neither.
unfoldable pub settle : ℕ → State → State
unfolding release_slab
settle v s =
    let vslab = s.vslabs v in
    if vslab.nbits == 0
    then release_slab v s
    else if vslab.num_b == 0
    then record s {
      vslabs = update s.vslabs v (record vslab { timestamp = s.arena.timestamp });
      arena = record (s.arena) {
        lru = s.arena.lru ++ v ∷ [];
        lru_len = s.arena.lru_len +ℤ pos 1;
        morphing_len =
            if is_low vslab.nbits vslab.sc.nbits
            then s.arena.morphing_len +ℤ pos 1
            else s.arena.morphing_len;
      };
    }
    else s

-- The branch for a block of the class that the slab had before it was morphed. The table entry is
-- counted up before and after the loop.
unfoldable pub free_old_block : (v ptr : ℕ) → State → Option State
unfolding count_freed uncover settle
free_old_block v ptr s =
    let vslab = s.vslabs v in
    let bid_b = sub64 ptr (vslab.slab + vslab.sc_b.roffset) / vslab.sc_b.bitsize in
    elim (count_freed bid_b vslab.sb_table) [
      | none ↦ none
      | some once ↦ elim (count_freed bid_b once) [
        | none ↦ none
        | some twice ↦
            let s' = record s {
              vslabs =
                  update s.vslabs v
                    (record vslab { num_b = (vslab.num_b + 2 ^ 8 - 1) % 2 ^ 8; sb_table = twice });
            } in
            elim (uncover (vslab.sc_b.bitsize + 2) v ptr (block_index vslab ptr) s') [
              | none ↦ none
              | some s'' ↦ some (settle v s'')
            ]
      ]
    ]

-- Whether the block at `ptr` is one of the old class.
abbrev pub is_old : VSlab → ℕ → Bool
is_old vslab ptr = not (vslab.num_b == 0) && not ((vslab.dmeta (block_index vslab ptr)).num_b == 0)

-- `slab_free_small`. `cross`: the extent is another arena's; `far`: that arena is of another NUMA
-- node. `none` is a run out of the table of old blocks.
unfoldable pub slab_free_small : (cross far : Bool) → (v ptr : ℕ) → State → Option State
unfolding free_far free_block free_old_block
slab_free_small cross far v ptr s =
    if cross && far
    then some (free_far v ptr s)
    else if is_old (s.vslabs v) ptr
    then free_old_block v ptr s
    else some (free_block cross v ptr s)

-- `migrate_putback`: as for a thread with no cache.
unfoldable pub migrate_putback : (v ptr : ℕ) → State → Option State
unfolding unmark putback free_old_block
migrate_putback v ptr s =
    let vslab = s.vslabs v in
    if is_old vslab ptr
    then free_old_block v ptr s
    else (let index = block_index vslab ptr in some (putback v index (unmark v index s)))
