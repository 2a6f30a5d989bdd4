-- ===== src/Extents/Activate.antt =====
-- `extent_activate_locked` takes an extent out of the pool with all its bytes and pages.
use pmalloc.Prelude.{
  ℕ, ◌+◌, ◌/◌, ◌^◌, ◌<◌, ◌≡◌, refl, sym, arith, true, false, not, ◌&&◌, ◌||◌, ◌==◌,
}
use pmalloc.Cache.{update}
use pmalloc.SizeClass.{page_size}
use pmalloc.Log.{listed}
use pmalloc.Extents.{
  Extent, Store, PairingHeap, IsPairingHeap, pool_remove, extent_activate_locked,
  extents_remove_locked, extent_list_remove, extent_state_active,
}
use pmalloc.Extents.Pool.{IsPool, IsPool-same, pool_remove-IsPool, listed-remove, sum_pages-remove}
use pmalloc.Extents.Region.{in_extent, covers, covers-remove, covers-same}

-- `s'` is `s` with `x` taken out of the pool and made active.
pub record TakenOut {H M : Type 0} (heap : PairingHeap H) (x : ℕ) (s s' : Store H M) : Type 0 where
  pub pool : IsPool heap s'.extents s'.pool
  pub pages : s'.pool.npages + (s.extents x).size / page_size ≡ s.pool.npages
  pub bytes :
      (b : ℕ)
      → (in_extent (s.extents x) b || covers s'.extents s'.pool.lru b)
        ≡ covers s.extents s.pool.lru b
  pub listed_lem : (z : ℕ) → listed z s'.pool.lru ≡ (not (z == x) && listed z s.pool.lru)
  pub self : s'.extents x ≡ record (s.extents x) { state = extent_state_active }
  pub others : (z : ℕ) → (x == z) ≡ false → s'.extents z ≡ s.extents z
  pub state : s'.pool.state ≡ s.pool.state
  pub policy : s'.pool.delay_coalesce ≡ s.pool.delay_coalesce
  pub tree : s'.tree ≡ s.tree

module _ {H M : Type 0} (heap : PairingHeap H) (law : IsPairingHeap heap) (x : ℕ)
    (s : Store H M) where
  pub extent_activate_locked-TakenOut :
      IsPool heap s.extents s.pool
      → listed x s.pool.lru ≡ true
      → s.pool.npages < 2 ^ 64
      → TakenOut heap x s (extent_activate_locked heap x s)
  unfolding extent_activate_locked extents_remove_locked
  extent_activate_locked-TakenOut inv present room = record {
    pool =
        IsPool-same heap law s.extents ext' (pool_remove heap x (s.extents x) s.pool)
          (λ z l. same z (unfold pool_remove in l))
          (pool_remove-IsPool heap law s.extents x s.pool inv present room);
    pages =
        let sum = sum_pages-remove s.extents x s.pool.lru present in
        let all = inv.pages in unfold pool_remove in omega arith;
    bytes = λ b.
        unfold pool_remove in
        rw (covers-same s.extents ext' (extent_list_remove x s.pool.lru) b same)
          (sym (covers-remove s.extents x s.pool.lru b present));
    listed_lem = λ z. unfold pool_remove in listed-remove z x s.pool.lru inv.distinct;
    self = ground arith;
    others = λ z ne. rw ne refl;
    state = unfold pool_remove in refl;
    policy = unfold pool_remove in refl;
    tree = refl;
  }
    where
      ext' : ℕ → Extent
      ext' = update s.extents x (record (s.extents x) { state = extent_state_active })

      same : (z : ℕ) → listed z (extent_list_remove x s.pool.lru) ≡ true → ext' z ≡ s.extents z
      same z l =
          let gone = listed-remove z x s.pool.lru inv.distinct in
          let ne : (x == z) ≡ false = ground arith in rw ne refl
