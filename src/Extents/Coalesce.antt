-- ===== src/Extents/Coalesce.antt =====
-- Taking an extent back: `extent_try_coalesce_impl`, `extent_record` and what they call, of
-- src/extent.c.
pub mod Merge
pub mod Sides
pub mod Loop
use pmalloc.Prelude.{
  ℕ, zero, suc, ◌+◌, ◌-◌, ◌*◌, ◌/◌, ◌%◌, ◌^◌, Bool, true, false, ◌&&◌, ◌||◌, ◌==◌, if◌then◌else◌,
  Option, none, some, List, [], ◌∷◌,
}
use pmalloc.Cache.{update}
use pmalloc.SizeClass.{page_size}
use pmalloc.Extents.{
  Extent, Extents, Store, Leaf, Rtree, PairingHeap, max_psz_idx, no_leaf, extent_last_get,
  extent_past_get, extent_before_get, extent_activate_locked, extent_deactivate_locked,
}
use pmalloc.Extents.Split.{extent_rtree_write_acquired}

module _ {M : Type 0} (rtree : Rtree M) where
  -- `extent_lock_from_addr`: the extent that the tree has for a page, 0 for none. A page of a slab
  -- gives the address of its `vslab_t`, unless `inactive_only`.
  unfoldable pub extent_lock_from_addr : M → ℕ → Bool → ℕ
  extent_lock_from_addr m addr inactive_only =
      let leaf = rtree.read m addr in if inactive_only && leaf.slab then 0 else leaf.extent

-- The `inner` extent plays no part.
unfoldable pub extent_can_coalesce : {H M : Type 0} → (arena outer : ℕ) → Store H M → Bool
extent_can_coalesce arena outer s =
    (s.extents outer).arena == arena && (s.extents outer).state == s.pool.state

module _ {H M : Type 0} (rtree : Rtree M) where
  -- `extent_merge_impl`: `b` becomes part of `a`, and its memory goes back.
  unfoldable pub extent_merge_impl : (a b : ℕ) → Store H M → Store H M
  extent_merge_impl a b s =
      let ea = s.extents a in
      let eb = s.extents b in
      let leaf : Leaf = record { extent = a; szind = max_psz_idx; slab = false } in
      let cut = rtree.write (rtree.write s.tree (extent_last_get ea) no_leaf) eb.e_addr no_leaf in
      record s {
        extents =
            update s.extents a
              (record ea { size = (ea.size + eb.size) % 2 ^ 64; szind = max_psz_idx });
        tree = rtree.write (rtree.write cut ea.e_addr leaf) (extent_last_get eb) leaf;
        freed = b ∷ s.freed;
      }

-- What one round of the loop of `extent_try_coalesce_impl` comes to: it returns at once with
-- `coalesced` set, it goes round again, or it is done.
pub data Round (S : Type 0) : Type 0 where
  early : ℕ → S → Round S
  again : ℕ → S → Round S
  settled : ℕ → S → Round S

-- The extent, `*coalesced` (false where it is not written) and the store.
pub record Coalesced (S : Type 0) : Type 0 where
  pub coalesced : Bool
  pub extent : ℕ
  pub store : S

module _ {H M : Type 0} (heap : PairingHeap H) (rtree : Rtree M) (arena : ℕ)
    (inactive_only : Bool) where
  -- `extent_coalesce`, which cannot fail, and the test before it. `none` when there is no
  -- neighbour on that side that can be merged.
  unfoldable pub merge_next : ℕ → Store H M → Option (Store H M)
  unfolding extent_lock_from_addr extent_can_coalesce extent_merge_impl extent_activate_locked
  merge_next x s =
      let next = extent_lock_from_addr rtree s.tree (extent_past_get (s.extents x)) inactive_only in
      if next == 0
      then none
      else if extent_can_coalesce arena next s
      then some (extent_merge_impl rtree x next (extent_activate_locked heap next s))
      else none

  unfoldable pub merge_prev : ℕ → Store H M → Option (ℕ × Store H M)
  unfolding extent_lock_from_addr extent_can_coalesce extent_merge_impl extent_activate_locked
  merge_prev x s =
      let prev =
        extent_lock_from_addr rtree s.tree (extent_before_get (s.extents x)) inactive_only in
      if prev == 0
      then none
      else if extent_can_coalesce arena prev s
      then some (prev, extent_merge_impl rtree prev x (extent_activate_locked heap prev s))
      else none

  -- The second half of the body; `next` says whether the first half merged.
  unfoldable pub coalesce_back : (next : Bool) → ℕ → Store H M → Round (Store H M)
  unfolding merge_prev
  coalesce_back next x s = elim (merge_prev x s) [
    | none ↦ if next then again x s else settled x s
    | some (prev, s') ↦ if s.pool.delay_coalesce then early prev s' else again prev s'
  ]

  unfoldable pub coalesce_round : ℕ → Store H M → Round (Store H M)
  unfolding merge_next coalesce_back
  coalesce_round x s = elim (merge_next x s) [
    | none ↦ coalesce_back false x s
    | some s' ↦ if s.pool.delay_coalesce then early x s' else coalesce_back true x s'
  ]

  -- `extent_try_coalesce_impl`; `none` when it is still running after `fuel` rounds.
  unfoldable pub extent_try_coalesce_impl : ℕ → ℕ → Store H M → Option (Coalesced (Store H M))
  unfolding coalesce_round
  extent_try_coalesce_impl zero x s = none
  extent_try_coalesce_impl (suc fuel) x s = elim (coalesce_round x s) [
    | early y s' ↦ some (record { coalesced = true; extent = y; store = s' })
    | again y s' ↦ extent_try_coalesce_impl fuel y s'
    | settled y s' ↦ some (record { coalesced = false; extent = y; store = s' })
  ]
