-- ===== src/Extents/Record.antt =====
-- An extent goes back to a pool: `extent_interior_deregister`, `extent_record` and
-- `extent_deregister_impl` of src/extent.c.
pub mod Drop
pub mod Kept
pub mod Register
use pmalloc.Prelude.{
  ℕ, zero, suc, ◌+◌, ◌-◌, ◌*◌, ◌/◌, ◌%◌, ◌^◌, Bool, true, false, if◌then◌else◌, Option, none, some,
  length,
}
use pmalloc.Cache.{update}
use pmalloc.SizeClass.{page_size}
use pmalloc.Extents.{
  Extent, Store, Leaf, Rtree, PairingHeap, max_psz_idx, no_leaf, extent_deactivate_locked,
}
use pmalloc.Extents.Split.{extent_rtree_write_acquired}
use pmalloc.Extents.Coalesce.{Coalesced, extent_try_coalesce_impl}

module _ {M : Type 0} (rtree : Rtree M) where
  -- The loop of `extent_interior_deregister` over the next `n` pages, from page `i` on.
  unfoldable pub deregister_pages : (n i addr : ℕ) → M → M
  deregister_pages zero i addr m = m
  deregister_pages (suc n) i addr m =
      deregister_pages n (i + 1) addr (rtree.write m (addr + i * page_size) no_leaf)

  -- `extent_interior_deregister`: the inner pages are cleared, and by `extent_replace_vslab` the
  -- first and the last one name the extent.
  unfoldable pub extent_interior_deregister : (x : ℕ) → Extent → M → M
  unfolding deregister_pages extent_rtree_write_acquired
  extent_interior_deregister x e m =
      extent_rtree_write_acquired rtree
        (deregister_pages ((e.size / page_size + 2 ^ 64 - 1) % 2 ^ 64 - 1) 1 e.e_addr m) e
        (record { extent = x; szind = e.szind; slab = e.slab })

module _ {H M : Type 0} (rtree : Rtree M) where
  -- `extent_deregister_impl`.
  unfoldable pub extent_deregister_impl : ℕ → Store H M → Store H M
  unfolding extent_interior_deregister extent_rtree_write_acquired
  extent_deregister_impl x s =
      let e = s.extents x in
      let cleared = extent_rtree_write_acquired rtree s.tree e no_leaf in
      if e.slab
      then record s {
        tree = extent_interior_deregister rtree x e cleared;
        extents = update s.extents x (record e { slab = false });
      }
      else record s { tree = cleared }

  -- The start of `extent_record`: the extent is no slab any more. An assertion that stands here
  -- assigns to the state of the pool when assertions are compiled in; they are not.
  unfoldable pub drop_slab : ℕ → Store H M → Store H M
  unfolding extent_interior_deregister
  drop_slab x s =
      let e = record (s.extents x) { szind = max_psz_idx } in
      if e.slab
      then record s {
        tree = extent_interior_deregister rtree x e s.tree;
        extents = update s.extents x (record e { slab = false });
      }
      else record s { extents = update s.extents x e }

module _ {H M : Type 0} (heap : PairingHeap H) (rtree : Rtree M) (arena : ℕ) where
  -- The loop on `coalesced` around `extent_try_coalesce_large`. Each round that merges leaves an
  -- extent fewer in the pool, so a round more than there are is enough.
  unfoldable pub coalesce_large : ℕ → ℕ → Store H M → Option (Coalesced (Store H M))
  unfolding extent_try_coalesce_impl
  coalesce_large zero x s = none
  coalesce_large (suc fuel) x s =
      elim (extent_try_coalesce_impl heap rtree arena true (length s.pool.lru + 1) x s) [
        | none ↦ none
        | some r ↦ elim r.coalesced [ true ↦ coalesce_large fuel r.extent r.store | false ↦ some r ]
      ]

  -- Both ways of `extent_record` to merge.
  unfoldable pub coalesce_record : ℕ → Store H M → Option (Coalesced (Store H M))
  unfolding coalesce_large extent_try_coalesce_impl
  coalesce_record x s =
      let rounds = length s.pool.lru + 1 in
      if s.pool.delay_coalesce
      then coalesce_large rounds x s
      else extent_try_coalesce_impl heap rtree arena false rounds x s

  -- `extent_record`; `none` would be a loop that has not ended.
  unfoldable pub extent_record : ℕ → Store H M → Option (Store H M)
  unfolding coalesce_record drop_slab extent_deactivate_locked
  extent_record x s = elim (coalesce_record x (drop_slab rtree x s)) [
    | none ↦ none
    | some r ↦ some (extent_deactivate_locked heap r.extent r.store)
  ]
