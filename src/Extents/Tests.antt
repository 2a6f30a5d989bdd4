-- ===== src/Extents/Tests.antt =====
-- The properties of the extents at concrete pools.
use pmalloc.Prelude.{
  ℕ, ◌+◌, ◌*◌, ◌<◌, ◌≡◌, refl, arith, true, false, ◌&&◌, ◌==◌, Option, some, List, if◌then◌else◌,
}
use pmalloc.Extents.{Leaf, no_leaf, Store}
use pmalloc.Extents.Fit.{done, extents_first_fit_locked}
use pmalloc.Extents.Fit.Lowest.{IsLowestFit}
use pmalloc.Extents.Fit.Found.{extents_first_fit_locked-IsLowestFit}
use pmalloc.Extents.Idle.{IsWorking-IsIdle}
use pmalloc.Extents.Evict.Late.{Late, evict_late-Late}
use pmalloc.Extents.Evict.{evict_late, chunk_size, n_muzzy_extent_can_evict}
use pmalloc.Extents.Evict.Chunks.{count_chunks, first_chunk, n_muzzy_extent_can_evict_lem}
use pmalloc.Extents.Coalesce.{Coalesced, extent_try_coalesce_impl}
use pmalloc.Extents.Coalesce.Loop.{Ends, extent_try_coalesce_impl-Ends}
use pmalloc.Extents.Record.{extent_record, extent_deregister_impl}
use pmalloc.Extents.Record.Kept.{Recorded, extent_record-Recorded}
use pmalloc.Extents.Alloc.{extent_register}
use pmalloc.Extents.Alloc.Registered.{extent_register-read, extent_deregister_impl-extent_register}
use pmalloc.Extents.Record.Register.{on_extent, at_end, extent_deregister_impl-read}
use pmalloc.Extents.Split.{extent_recycle}
use pmalloc.Extents.Split.Serve.{Outcome, extent_recycle-Outcome}
use pmalloc.Extents.Example.{
  list_heap, list_heap_law, map_tree, map_tree_law, extents_ex, pool_ex, pool_ex-IsPool, npages_ex,
  listed_ex, tree_ex, store_ex, IsRegion-1, store_ex-IsWorking, one_extent, ends_ex, slab_ex,
  IsRegion-slab, slab_store, bare_store,
}

extents_first_fit_locked-IsLowestFit_example :
    (r : Option ℕ) × (extents_first_fit_locked list_heap extents_ex pool_ex 1 ≡ done r)
    × IsLowestFit extents_ex pool_ex 1 r
extents_first_fit_locked-IsLowestFit_example =
    extents_first_fit_locked-IsLowestFit list_heap list_heap_law extents_ex pool_ex pool_ex-IsPool 1
      (omega arith)

n_muzzy_extent_can_evict_lem_example :
    let e = record (extents_ex 1) { e_addr = 2097152; size = 4194304 } in
    let start' = if count_chunks e == 0 then 0 else first_chunk e + chunk_size in
    (n_muzzy_extent_can_evict e 0 ≡ some (count_chunks e, start'))
    × (0 < count_chunks e → e.e_addr + e.size < start' + count_chunks e * chunk_size)
n_muzzy_extent_can_evict_lem_example =
    n_muzzy_extent_can_evict_lem (record (extents_ex 1) { e_addr = 2097152; size = 4194304 }) 0
      (omega arith)

extent_try_coalesce_impl-Ends_example :
    (r : Coalesced (Store (List (ℕ × ℕ)) (ℕ → Leaf))) × (extent_try_coalesce_impl list_heap map_tree
        7 true 2 3 store_ex
      ≡ some r)
    × Ends list_heap map_tree 7 list_heap_law map_tree_law true 3 store_ex r
extent_try_coalesce_impl-Ends_example =
    extent_try_coalesce_impl-Ends list_heap map_tree 7 list_heap_law map_tree_law true 2 3 store_ex
      store_ex-IsWorking one_extent

extent_record-Recorded_example :
    (s' : Store (List (ℕ × ℕ)) (ℕ → Leaf)) × (extent_record list_heap map_tree 7 3 store_ex
      ≡ some s')
    × Recorded list_heap map_tree 7 list_heap_law map_tree_law 3 store_ex s'
extent_record-Recorded_example =
    extent_record-Recorded list_heap map_tree 7 list_heap_law map_tree_law 3 store_ex
      store_ex-IsWorking (omega (arith, npages_ex))

extent_recycle-Outcome_example :
    Outcome list_heap map_tree list_heap_law 7 1 5 false store_ex
      (extent_recycle list_heap map_tree (some 4) 7 1 5 0 false store_ex)
extent_recycle-Outcome_example =
    extent_recycle-Outcome list_heap map_tree list_heap_law 7 1 5 false store_ex 4 0 (λ m a. refl)
      pool_ex-IsPool ends_ex (omega (arith, npages_ex)) (listed_ex 4) (omega arith)

extent_register-read_example :
    let r = extent_register map_tree 5 9 slab_store in
    (r.0 ≡ false)
    × (map_tree.read (r.1).tree 1052673 ≡ (
        if (if slab_ex.slab then on_extent slab_ex 1052673 else at_end slab_ex 1052673)
        then record { extent = if slab_ex.slab then 9 else 5; szind = 65; slab = slab_ex.slab }
        else map_tree.read tree_ex 1052673))
extent_register-read_example =
    extent_register-read map_tree map_tree_law 5 9 slab_store 1052673 (λ m a. refl) IsRegion-slab

extent_deregister_impl-extent_register_example :
    map_tree.read
      (extent_deregister_impl map_tree 1 (extent_register map_tree 1 0 bare_store).1).tree
      1052672
    ≡ map_tree.read bare_store.tree 1052672
extent_deregister_impl-extent_register_example =
    extent_deregister_impl-extent_register map_tree map_tree_law 1 0 bare_store 1052672
      (λ m a. refl) IsRegion-1 refl (λ _. refl)

extent_deregister_impl-read_example :
    map_tree.read (extent_deregister_impl map_tree 1 store_ex).tree 1052672 ≡ (
      if at_end (extents_ex 1) 1052672
      then (if (extents_ex 1).slab then record { extent = 1; szind = 63; slab = true } else no_leaf)
      else if (extents_ex 1).slab && on_extent (extents_ex 1) 1052672
      then no_leaf
      else map_tree.read tree_ex 1052672)
extent_deregister_impl-read_example =
    extent_deregister_impl-read map_tree map_tree_law 1 store_ex 1052672 IsRegion-1

evict_late-Late_example :
    Late list_heap map_tree 7 0 store_ex (evict_late list_heap map_tree 7 2 0 store_ex)
evict_late-Late_example =
    evict_late-Late list_heap map_tree 7 0 list_heap_law map_tree_law 2 store_ex
      (IsWorking-IsIdle list_heap map_tree 7 3 store_ex store_ex-IsWorking)
      (omega (arith, npages_ex)) one_extent
