-- ===== src/Extents/Alloc.antt =====
-- Making an extent of memory at a known address: `extent_register` and
-- `extent_alloc_with_old_addr` of src/extent.c.
pub mod Registered
use pmalloc.Prelude.{ℕ, ◌*◌, ◌%◌, ◌^◌, Bool, true, false, Option, none, some, ◌∷◌, if◌then◌else◌}
use pmalloc.Cache.{update}
use pmalloc.SizeClass.{page_size}
use pmalloc.Extents.{Extent, Store, Rtree, extent_state_active}
use pmalloc.Extents.Split.{
  extent_init, extent_rtree_leaf_elms_lookup, extent_rtree_write_acquired, extent_interior_register,
}

module _ {H M : Type 0} (rtree : Rtree M) where
  -- `extent_register` and `extent_register_impl`: true on failure.
  unfoldable pub extent_register : (x vslab : ℕ) → Store H M → Bool × Store H M
  extent_register x vslab s =
      let e = s.extents x in
      let look = extent_rtree_leaf_elms_lookup rtree s.tree e in
      if look.1
      then (
        false,
        record s {
          tree =
              if e.slab
              then extent_interior_register rtree e e.szind vslab (
                  extent_rtree_write_acquired rtree look.0 e
                    (record { extent = vslab; szind = e.szind; slab = true }))
              else extent_rtree_write_acquired rtree look.0 e
                  (record { extent = x; szind = e.szind; slab = false });
        },
      )
      else (true, record s { tree = look.0 })

  -- `extent_alloc_with_old_addr`; `none` is NULL.
  unfoldable pub extent_alloc_with_old_addr :
      (new : Option ℕ)
      → (arena new_addr npages : ℕ) → (slab : Bool) → (szind : ℕ) → Store H M
      → Option ℕ × Store H M
  extent_alloc_with_old_addr none arena new_addr npages slab szind s = (none, s)
  extent_alloc_with_old_addr (some x) arena new_addr npages slab szind s =
      let e =
        extent_init arena new_addr (npages * page_size % 2 ^ 64) slab szind extent_state_active in
      let (failed, s') = extent_register x 0 (record s { extents = update s.extents x e }) in
      if failed then (none, record s' { freed = x ∷ s'.freed }) else (some x, s')
