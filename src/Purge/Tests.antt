-- ===== src/Purge/Tests.antt =====
-- Stashing from a pool of one extent of two pages, and giving a chunk back.
use pmalloc.Prelude.{
  ℕ, ◌+◌, ◌≤◌, ◌≡◌, ◌==◌, refl, arith, true, Option, none, some, List, [], ◌∷◌, if◌then◌else◌,
}
use pmalloc.Extents.{Store, Leaf, pool_insert, extents_init}
use pmalloc.Extents.Idle.{IsIdle, IsWorking-IsIdle}
use pmalloc.Extents.Example.{
  list_heap, list_heap_law, map_tree, map_tree_law, store_ex, pool_ex, store_ex-IsWorking,
  one_extent, npages_ex, extents_ex, tree_ex,
}
use pmalloc.Purge.{Call, log_free, unmap, ArenaExtents, arena_file_unmap, arena_stash_decayed}
use pmalloc.Purge.Limit.{arena_stash_decayed_limit}

late_ex : pool_ex.delay_coalesce ≡ true
unfolding pool_insert extents_init
late_ex = refl

arena_stash_decayed_limit_example :
    (n : ℕ) × (stash : List ℕ) × (s' : Store (List (ℕ × ℕ)) (ℕ → Leaf)) × (arena_stash_decayed
        list_heap map_tree 7 2
        (λ _. (some 4, some 5))
        0
        2
        0
        []
        store_ex
      ≡ some (n, stash, s'))
    × IsIdle list_heap map_tree 7 s'
    × (s'.pool.npages ≤ 0)
    × (n + s'.pool.npages ≡ pool_ex.npages)
arena_stash_decayed_limit_example =
    arena_stash_decayed_limit list_heap map_tree 7 list_heap_law map_tree_law
      (λ _. (some 4, some 5)) 0 2 2 store_ex late_ex
      (IsWorking-IsIdle list_heap map_tree 7 3 store_ex store_ex-IsWorking)
      (omega (arith, npages_ex)) one_extent npages_ex

-- An extent of two chunks, each in a file of its own.
abbrev two_chunks : ArenaExtents (List (ℕ × ℕ)) (ℕ → Leaf)
two_chunks = record {
  extents = λ x. record (extents_ex x) { e_addr = 2097152; size = 4194304 };
  tree = tree_ex;
  freed = [];
  dirty = pool_ex;
  muzzy = pool_ex;
  files = λ a.
      if a == 2097152
      then some (record { id = 0; log = 64 })
      else if a == 4194304
      then some (record { id = 1; log = 128 })
      else none;
  calls = [];
}

calls_of : Option (ArenaExtents (List (ℕ × ℕ)) (ℕ → Leaf)) → List Call
calls_of none = []
calls_of (some a) = a.calls

arena_file_unmap_calls :
    calls_of (arena_file_unmap 3 two_chunks)
    ≡ unmap 2097152 0 ∷ log_free 64 ∷ unmap 4194304 1 ∷ log_free 128 ∷ []
unfolding arena_file_unmap calls_of
arena_file_unmap_calls = refl
