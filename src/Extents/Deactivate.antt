-- ===== src/Extents/Deactivate.antt =====
-- `extent_deactivate_locked` puts an extent into the pool with all its bytes and pages.
use mathlib.Core.Logic.{inl, inr}
use pmalloc.Prelude.{
  ℕ, ◌+◌, ◌/◌, ◌%◌, ◌^◌, ◌≤◌, ◌<◌, ◌≡◌, refl, arith, true, false, ◌||◌, ◌==◌, Bool-cases, [], ◌∷◌,
}
use pmalloc.Cache.{update}
use pmalloc.SizeClass.{page_size}
use pmalloc.Log.{listed}
use pmalloc.Log.Collect.{listed-append}
use pmalloc.Extents.{
  Extent, Store, PairingHeap, IsPairingHeap, pool_insert, extent_deactivate_locked,
  extents_insert_locked,
}
use pmalloc.Extents.Pool.{IsPool, IsFree, IsPool-same, pool_insert-IsPool}
use pmalloc.Extents.Region.{in_extent, covers, covers-append, covers-same}

-- `s'` is `s` with `y` put into the pool.
pub record PutIn {H M : Type 0} (heap : PairingHeap H) (y : ℕ) (s s' : Store H M) : Type 0 where
  pub pool : IsPool heap s'.extents s'.pool
  pub pages : s'.pool.npages ≡ s.pool.npages + (s.extents y).size / page_size
  pub bytes :
      (b : ℕ)
      → covers s'.extents s'.pool.lru b
        ≡ (covers s.extents s.pool.lru b || in_extent (s.extents y) b)
  pub listed_lem : (z : ℕ) → listed z s'.pool.lru ≡ (listed z s.pool.lru || y == z)
  pub self : s'.extents y ≡ record (s.extents y) { state = s.pool.state }
  pub state : s'.pool.state ≡ s.pool.state
  pub others : (z : ℕ) → (y == z) ≡ false → s'.extents z ≡ s.extents z
  pub same_policy : s'.pool.delay_coalesce ≡ s.pool.delay_coalesce
  pub tree : s'.tree ≡ s.tree

module _ {H M : Type 0} (heap : PairingHeap H) (law : IsPairingHeap heap) (y : ℕ)
    (s : Store H M) where
  -- On an extent of 1 to 98304 whole pages that is not in the pool.
  pub extent_deactivate_locked-PutIn :
      IsPool heap s.extents s.pool
      → listed y s.pool.lru ≡ false
      → (s.extents y).size % page_size ≡ 0
      → 1 ≤ (s.extents y).size / page_size
      → (s.extents y).size / page_size ≤ 98304
      → s.pool.npages + (s.extents y).size / page_size < 2 ^ 64
      → PutIn heap y s (extent_deactivate_locked heap y s)
  unfolding extent_deactivate_locked extents_insert_locked
  extent_deactivate_locked-PutIn inv absent whole some_pages few_pages room = record {
    pool =
        pool_insert-IsPool heap law ext' y s.pool
          (IsPool-same heap law s.extents ext' s.pool same inv) absent ok (rw self room);
    pages = unfold pool_insert in ground arith;
    bytes = λ b.
        unfold pool_insert in
        rw (covers-append ext' s.pool.lru y b, covers-same s.extents ext' s.pool.lru b same, self)
          refl;
    listed_lem = λ z.
        unfold pool_insert in unfold listed in ground (arith, listed-append z s.pool.lru (y ∷ []));
    self = self;
    state = unfold pool_insert in refl;
    others = λ z ne. rw ne refl;
    same_policy = unfold pool_insert in refl;
    tree = refl;
  }
    where
      ext' : ℕ → Extent
      ext' = update s.extents y (record (s.extents y) { state = s.pool.state })

      self : ext' y ≡ record (s.extents y) { state = s.pool.state }
      self = ground arith

      same : (z : ℕ) → listed z s.pool.lru ≡ true → ext' z ≡ s.extents z
      same z l = elim (Bool-cases (y == z)) [
        | inl e ↦
            let e' : y ≡ z = ground arith in
            let l' : listed y s.pool.lru ≡ true = rw e' l in absurd (cc)
        | inr e ↦ rw e refl
      ]

      ok : IsFree (ext' y) s.pool.state
      ok = rw self (record {
        whole = whole;
        some_pages = some_pages;
        few_pages = few_pages;
        in_state = refl;
      })
