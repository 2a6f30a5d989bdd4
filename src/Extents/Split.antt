-- ===== src/Extents/Split.antt =====
-- Handing out an extent: `extent_split_impl`, `extent_recycle` and what they call, of src/extent.c.
-- The allocation of an `extent_t` is an argument, `none` when there is no memory.
pub mod Recycle
pub mod Serve
use pmalloc.Prelude.{
  ℕ, zero, suc, ◌+◌, ◌-◌, ◌*◌, ◌/◌, ◌%◌, ◌^◌, Bool, true, false, ◌&&◌, not, ◌==◌, ltb,
  if◌then◌else◌, Option, none, some, List, ◌∷◌,
}
use pmalloc.Cache.{update}
use pmalloc.SizeClass.{page_size}
use pmalloc.Extents.{
  Extent, Extents, Store, Leaf, Rtree, PairingHeap, max_psz_idx, extent_last_get, extent_past_get,
  extent_activate_locked, extent_deactivate_locked,
}
use pmalloc.Extents.Fit.{extents_fit_locked}

-- One side of a split, as `extent_split_impl` gets it.
pub record Part : Type 0 where
  pub size : ℕ
  pub szind : ℕ
  pub slab : Bool
  pub vslab : ℕ

-- `extent_init`.
unfoldable pub extent_init : (arena addr size : ℕ) → (slab : Bool) → (szind state : ℕ) → Extent
extent_init arena addr size slab szind state = record {
  e_addr = addr;
  size = size;
  szind = szind;
  state = state;
  arena = arena;
  slab = slab;
}

-- What the tree gets for one side: the slab or the extent.
abbrev pub part_leaf : ℕ → Part → Leaf
part_leaf x part = record {
  extent = if part.slab then part.vslab else x;
  szind = part.szind;
  slab = part.slab;
}

module _ {M : Type 0} (rtree : Rtree M) where
  -- `extent_rtree_leaf_elms_lookup` with `init_missing`, and whether both elements are there.
  unfoldable pub extent_rtree_leaf_elms_lookup : M → Extent → M × Bool
  extent_rtree_leaf_elms_lookup m e =
      let first = rtree.grow m e.e_addr in
      if first.1 then rtree.grow first.0 (extent_last_get e) else (first.0, false)

  -- `extent_rtree_write_acquired` on the first and the last page of an extent.
  unfoldable pub extent_rtree_write_acquired : M → Extent → Leaf → M
  extent_rtree_write_acquired m e leaf =
      rtree.write (rtree.write m e.e_addr leaf) (extent_last_get e) leaf

  -- `rtree_szind_slab_update` on one page.
  unfoldable pub rtree_szind_slab_update : M → (addr szind : ℕ) → Bool → M
  rtree_szind_slab_update m addr szind slab =
      rtree.write m addr (record (rtree.read m addr) { szind = szind; slab = slab })

  -- The loop of `extent_interior_register` over the next `n` pages, from page `i` on.
  unfoldable pub register_pages : (n i addr : ℕ) → Leaf → M → M
  register_pages zero i addr leaf m = m
  register_pages (suc n) i addr leaf m =
      register_pages n (i + 1) addr leaf (rtree.write m (addr + i * page_size) leaf)

  -- `extent_interior_register`: the pages between the first and the last one, then by
  -- `extent_replace_to_vslab` these two. The bound of the loop is a `size_t`.
  unfoldable pub extent_interior_register : Extent → (szind vslab : ℕ) → M → M
  unfolding register_pages extent_rtree_write_acquired
  extent_interior_register e szind vslab m =
      extent_rtree_write_acquired
        (register_pages ((e.size / page_size + 2 ^ 64 - 1) % 2 ^ 64 - 1) 1 e.e_addr
          (record { extent = vslab; szind = szind; slab = true }) m)
        e (record { extent = vslab; szind = e.szind; slab = e.slab })

  module _ {H : Type 0} where
    -- `extent_split_impl`: the trail, or NULL.
    unfoldable pub extent_split_impl :
        (new : Option ℕ) → (arena x : ℕ) → (a b : Part) → Store H M → Option ℕ × Store H M
    unfolding extent_init extent_rtree_leaf_elms_lookup extent_rtree_write_acquired
    extent_split_impl none arena x a b s = (none, s)
    extent_split_impl (some trail) arena x a b s =
        let e = s.extents x in
        let lead_e = extent_init arena e.e_addr a.size a.slab a.szind e.state in
        let trail_e =
          extent_init arena ((e.e_addr + a.size) % 2 ^ 64) b.size b.slab b.szind e.state in
        let lead_elms = extent_rtree_leaf_elms_lookup s.tree lead_e in
        let trail_elms = extent_rtree_leaf_elms_lookup lead_elms.0 trail_e in
        let extents = update s.extents trail trail_e in
        if lead_elms.1 && trail_elms.1
        then (
          some trail,
          record s {
            extents = update extents x (record e { size = a.size; szind = a.szind });
            tree =
                extent_rtree_write_acquired
                  (extent_rtree_write_acquired trail_elms.0 lead_e (part_leaf x a)) trail_e
                  (part_leaf trail b);
          },
        )
        else (none, record s { extents = extents; tree = trail_elms.0; freed = trail ∷ s.freed })

-- What `extent_recycle` comes to: NULL and no change; an extent; or, when the memory for the
-- trail is missing, the end of `extent_recycle_split` without a value.
pub data Recycled (S : Type 0) : Type 0 where
  no_fit : Recycled S
  given : ℕ → S → Recycled S
  undefined : Recycled S

module _ {H M : Type 0} (heap : PairingHeap H) (rtree : Rtree M) where
  -- The last part of `extent_split_interior`, where nothing is left over.
  unfoldable pub whole_extent : (x szind : ℕ) → Bool → Store H M → Store H M
  unfolding rtree_szind_slab_update
  whole_extent x szind slab s =
      let e = s.extents x in
      let first = rtree_szind_slab_update rtree s.tree e.e_addr szind slab in
      record s {
        extents = update s.extents x (record e { szind = szind });
        tree =
            if szind == max_psz_idx
            then s.tree
            else if slab && ltb page_size e.size
            then rtree_szind_slab_update rtree first
                ((extent_past_get e + 2 ^ 64 - page_size) % 2 ^ 64) szind slab
            else first;
      }

  -- `extent_split_interior` and what `extent_recycle_split` does with its result. The lead is
  -- empty.
  unfoldable pub split_interior :
      (new : Option ℕ)
      → (arena x psize trailsize szind vslab : ℕ) → (slab : Bool) → Store H M
      → Recycled (Store H M)
  unfolding whole_extent extent_split_impl extent_deactivate_locked
  split_interior new arena x psize trailsize szind vslab slab s =
      if trailsize == 0
      then given x (whole_extent x szind slab s)
      else (let (t, s') =
            extent_split_impl rtree new arena x
              (record { size = psize; szind = szind; slab = slab; vslab = vslab })
              (record { size = trailsize; szind = max_psz_idx; slab = false; vslab = 0 }) s in
          elim t [
            | none ↦ undefined
            | some trail ↦ given x (extent_deactivate_locked heap trail s')
          ])

  -- `extent_recycle_split`, with the sizes that `extent_split_interior` computes.
  unfoldable pub extent_recycle_split :
      (new : Option ℕ)
      → (arena x npages szind vslab : ℕ) → (slab : Bool) → Store H M
      → Recycled (Store H M)
  extent_recycle_split new arena x npages szind vslab slab s =
      let psize = npages * page_size % 2 ^ 64 in
      split_interior new arena x psize (((s.extents x).size + 2 ^ 64 - psize) % 2 ^ 64) szind vslab
        slab s

  -- The end of `extent_recycle`.
  unfoldable pub finish_slab : (x szind vslab : ℕ) → Bool → Store H M → Store H M
  unfolding extent_interior_register
  finish_slab x szind vslab slab s =
      if slab
      then (let e = record (s.extents x) { slab = slab } in
          record s {
            extents = update s.extents x e;
            tree = extent_interior_register rtree e szind vslab s.tree;
          })
      else s

  -- `extent_recycle`, with `extent_recycle_extract`; `extents_alloc` calls it alone.
  unfoldable pub extent_recycle :
      (new : Option ℕ)
      → (arena npages szind vslab : ℕ) → (slab : Bool) → Store H M
      → Recycled (Store H M)
  unfolding extent_recycle_split finish_slab extent_activate_locked extents_fit_locked
  extent_recycle new arena npages szind vslab slab s =
      elim (extents_fit_locked heap s.extents s.pool npages) [
        | none ↦ no_fit
        | some x ↦
            elim (extent_recycle_split new arena x npages szind vslab slab
              (extent_activate_locked heap x s)) [
                | no_fit ↦ no_fit
                | undefined ↦ undefined
                | given y s' ↦ given y (finish_slab y szind vslab slab s')
              ]
      ]
