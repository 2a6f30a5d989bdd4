-- ===== src/Purge.antt =====
-- Purging the extents of an arena down to a limit: `arena_stash_decayed`, `arena_decay_stashed` and
-- `arena_decay_to_limit` of src/arena.c, with `arena_file_unmap_locked` there and `extents_dalloc`
-- and `extent_dalloc_wrapper` of src/extent.c.
--
-- An arena has two pools over the same extents: dirty ones, and muzzy ones, whose memory a hole in
-- the file has given back. What the operations ask of the log and of the files is a list of calls,
-- in order. `none` is a NULL that is read, or a loop that has not ended.
pub mod Limit
mod Tests
use pmalloc.Prelude.{
  ℕ, zero, suc, ◌+◌, ◌-◌, ◌*◌, ◌/◌, ◌%◌, ◌^◌, Bool, true, false, ◌==◌, ltb, if◌then◌else◌, Option,
  none, some, List, [], ◌∷◌, ◌++◌,
}
use pmalloc.SizeClass.{page_size}
use pmalloc.Cache.{update}
use pmalloc.Extents.{Extent, Extents, Store, Rtree, PairingHeap}
use pmalloc.Extents.Evict.{chunk_size, nothing, evicted, aborted, unfinished, extents_evict}
use pmalloc.Extents.Record.{extent_deregister_impl, extent_record}

-- `file_t`, by the address at which it is mapped: the number in its name and its item in the log.
pub record File : Type 0 where
  pub id : ℕ
  pub log : ℕ

-- `add_log` with FREE_LOG, `fallocate` of a hole, and `munmap`, `close` and `remove` of a chunk.
pub data Call : Type 0 where
  log_free : (item : ℕ) → Call
  punch_hole : (addr size : ℕ) → Call
  unmap : (addr id : ℕ) → Call

pub record ArenaExtents (H M : Type 0) : Type 0 where
  pub extents : ℕ → Extent
  pub tree : M
  pub freed : List ℕ
  pub dirty : Extents H
  pub muzzy : Extents H
  pub files : ℕ → Option File
  pub calls : List Call

module _ {H M : Type 0} where
  abbrev pub pool_store : (is_muzzy : Bool) → ArenaExtents H M → Store H M
  pool_store is_muzzy a = record {
    extents = a.extents;
    tree = a.tree;
    pool = if is_muzzy then a.muzzy else a.dirty;
    freed = a.freed;
  }

  abbrev pub with_store : (is_muzzy : Bool) → Store H M → ArenaExtents H M → ArenaExtents H M
  with_store is_muzzy s a = record a {
    extents = s.extents;
    tree = s.tree;
    freed = s.freed;
    dirty = if is_muzzy then a.dirty else s.pool;
    muzzy = if is_muzzy then s.pool else a.muzzy;
  }

  -- The loop of `arena_file_unmap_locked` over the next `n` chunks, from chunk `i` on.
  unfoldable pub unmap_chunks : (n i e_addr : ℕ) → ArenaExtents H M → Option (ArenaExtents H M)
  unmap_chunks zero i e_addr a = some a
  unmap_chunks (suc n) i e_addr a =
      let addr = e_addr + i * chunk_size in
      elim (a.files addr) [
        | none ↦ none
        | some file ↦ unmap_chunks n (i + 1) e_addr (record a {
          files = update a.files addr none;
          calls = a.calls ++ unmap addr file.id ∷ log_free file.log ∷ [];
        })
      ]

  -- `arena_file_unmap`.
  unfoldable pub arena_file_unmap : ℕ → ArenaExtents H M → Option (ArenaExtents H M)
  unfolding unmap_chunks
  arena_file_unmap x a = unmap_chunks ((a.extents x).size / chunk_size) 0 (a.extents x).e_addr a

module _ {H M : Type 0} (heap : PairingHeap H) (rtree : Rtree M) (arena : ℕ) where
  -- `extent_dalloc_wrapper`, with the `extent_dalloc` of the `extent_t`.
  unfoldable pub extent_dalloc_wrapper : ℕ → ArenaExtents H M → Option (ArenaExtents H M)
  unfolding extent_deregister_impl arena_file_unmap
  extent_dalloc_wrapper x a =
      elim (arena_file_unmap x
        (with_store true (extent_deregister_impl rtree x (pool_store true a)) a)) [
          | none ↦ none
          | some a' ↦ some (record a' { freed = x ∷ a'.freed })
        ]

  -- `extents_dalloc`. An extent that gets muzzy is given back to the file first.
  unfoldable pub extents_dalloc :
      (is_muzzy : Bool) → ℕ → ArenaExtents H M → Option (ArenaExtents H M)
  unfolding extent_record
  extents_dalloc is_muzzy x a =
      let e = a.extents x in
      let recorded : Option (ArenaExtents H M) =
        elim (extent_record heap rtree arena x (pool_store is_muzzy a)) [
          | none ↦ none
          | some s ↦ some (with_store is_muzzy s a)
        ] in
      if is_muzzy
      then elim (a.files (e.e_addr - e.e_addr % chunk_size)) [
        | none ↦ none
        | some file ↦ elim recorded [
          | none ↦ none
          | some a' ↦
              some
                (record a' { calls = a'.calls ++ punch_hole (e.e_addr % chunk_size) e.size ∷ [] })
        ]
      ]
      else recorded

  -- `arena_stash_decayed`, after `nstashed` pages. The allocations of a round are an argument; a
  -- round takes an extent out of the pool, so a round more than there are is enough.
  unfoldable pub arena_stash_decayed :
      (fuel : ℕ)
      → (ℕ → Option ℕ × Option ℕ)
      → (npages_limit npages_decay_max nstashed : ℕ) → List ℕ
      → Store H M
      → Option (ℕ × List ℕ × Store H M)
  unfolding extents_evict
  arena_stash_decayed zero new limit npages_decay_max nstashed stash s = none
  arena_stash_decayed (suc fuel) new limit npages_decay_max nstashed stash s =
      elim (ltb nstashed npages_decay_max) [
        | false ↦ some (nstashed, stash, s)
        | true ↦ elim (extents_evict heap rtree arena (new fuel).0 (new fuel).1 limit s) [
          | nothing s' ↦ some (nstashed, stash, s')
          | evicted x s' ↦
              arena_stash_decayed fuel new limit npages_decay_max
                ((nstashed + (s'.extents x).size / page_size) % 2 ^ 64) (stash ++ x ∷ []) s'
          | aborted ↦ none
          | unfinished ↦ none
        ]
      ]

  -- `arena_decay_stashed`: dirty extents get muzzy, muzzy ones are unmapped. `not_reached` does
  -- nothing.
  unfoldable pub arena_decay_stashed :
      (is_muzzy : Bool) → (npurged : ℕ) → List ℕ → ArenaExtents H M → Option (ℕ × ArenaExtents H M)
  unfolding extents_dalloc extent_dalloc_wrapper
  arena_decay_stashed is_muzzy npurged [] a = some (npurged, a)
  arena_decay_stashed is_muzzy npurged (x ∷ stash) a =
      elim (if is_muzzy then extent_dalloc_wrapper x a else extents_dalloc true x a) [
        | none ↦ none
        | some a' ↦
            arena_decay_stashed is_muzzy ((npurged + (a.extents x).size / page_size) % 2 ^ 64) stash
              a'
      ]

  -- `arena_decay_to_limit`; `purging` is `decay->purging`, false again at the end.
  unfoldable pub arena_decay_to_limit :
      (is_muzzy purging : Bool)
      → (fuel : ℕ) → (ℕ → Option ℕ × Option ℕ)
      → (npages_limit npages_decay_max : ℕ) → ArenaExtents H M
      → Option (ArenaExtents H M)
  unfolding arena_stash_decayed arena_decay_stashed
  arena_decay_to_limit is_muzzy purging fuel new limit npages_decay_max a =
      if purging
      then some a
      else elim (arena_stash_decayed fuel new limit npages_decay_max 0 [] (pool_store is_muzzy a)) [
        | none ↦ none
        | some (npurge, stash, s) ↦
            if npurge == 0
            then some (with_store is_muzzy s a)
            else elim (arena_decay_stashed is_muzzy 0 stash (with_store is_muzzy s a)) [
              | none ↦ none
              | some (npurged, a') ↦ some a'
            ]
      ]
