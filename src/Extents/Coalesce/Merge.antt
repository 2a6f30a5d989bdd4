-- ===== src/Extents/Coalesce/Merge.antt =====
-- One merge of `extent_try_coalesce_impl`: it keeps what the loop relies on, and every free byte.
use mathlib.Core.Logic.{inl, inr}
use pmalloc.Prelude.{
  ℕ, ◌+◌, ◌/◌, ◌^◌, ◌<◌, ◌≡◌, ◌≢◌, ◌⊎◌, refl, sym, ◌∙◌, arith, Bool, true, false, not, ◌&&◌, ◌||◌,
  ◌==◌, Bool-cases, subst,
}
use pmalloc.SizeClass.{page_size}
use pmalloc.Log.{listed}
use pmalloc.Extents.{
  Extent, Store, Rtree, PairingHeap, IsPairingHeap, extent_last_get, extent_list_remove,
  pool_remove, extent_state_active,
}
use pmalloc.Extents.Pool.{
  IsPool, IsPool-same, pool_remove-IsPool, listed-remove, sum_pages, sum_pages-remove,
  sum_pages-same,
}
use pmalloc.Extents.Region.{
  in_extent, covers, IsRegion, apart, Joins, Joins-in_extent, Joins-apart, Joins-IsRegion,
  covers-remove, covers-same,
}

-- The page of `p` is the first or the last one of the extent.
abbrev pub at_ends : Extent → ℕ → Bool
at_ends e p =
    p / page_size == e.e_addr / page_size || p / page_size == extent_last_get e / page_size

module _ {H M : Type 0} (heap : PairingHeap H) (rtree : Rtree M) (arena : ℕ) where
  -- What holds while `x`, an active extent, is being merged: the extents of the pool are disjoint
  -- runs of pages, apart from `x`; where the tree names an extent of this arena and in the state of
  -- the pool, that extent is in the pool; and it names an extent of the pool, or `x`, on the first
  -- and the last page of that extent alone.
  pub record IsWorking (x : ℕ) (s : Store H M) : Type 0 where
    pub pool : IsPool heap s.extents s.pool
    pub counter : s.pool.npages < 2 ^ 64
    pub pool_state : 0 < s.pool.state
    pub active : (s.extents x).state ≡ extent_state_active
    pub region : IsRegion (s.extents x)
    pub regions : (y : ℕ) → listed y s.pool.lru ≡ true → IsRegion (s.extents y)
    pub apart_x : (y : ℕ) → listed y s.pool.lru ≡ true → apart (s.extents x) (s.extents y) ≡ true
    pub apart_pool :
        (y z : ℕ)
        → listed y s.pool.lru ≡ true
        → listed z s.pool.lru ≡ true
        → y ≢ z
        → apart (s.extents y) (s.extents z) ≡ true
    pub known :
        (p y : ℕ)
        → (rtree.read s.tree p).extent ≡ y
        → y ≢ 0
        → (s.extents y).arena ≡ arena
        → (s.extents y).state ≡ s.pool.state
        → (listed y s.pool.lru ≡ true)
          × ((p / page_size == (s.extents y).e_addr / page_size
                || p / page_size == extent_last_get (s.extents y) / page_size)
              ≡ true)
    pub place :
        (p y : ℕ)
        → (rtree.read s.tree p).extent ≡ y
        → y ≢ 0
        → listed y s.pool.lru ≡ true
        → at_ends (s.extents y) p ≡ true
    pub own : (p : ℕ) → (rtree.read s.tree p).extent ≡ x → x ≢ 0 → at_ends (s.extents x) p ≡ true

  -- `s'` is `s` after `x` and the pool's extent `y`, its neighbour, have become `a`.
  pub record Absorbed (x y a : ℕ) (s s' : Store H M) : Type 0 where
    pub y_in_pool : listed y s.pool.lru ≡ true
    pub pool_lem : s'.pool ≡ pool_remove heap y (s.extents y) s.pool
    pub others : (z : ℕ) → z ≢ x → z ≢ y → s'.extents z ≡ s.extents z
    pub idle_x : (s'.extents x).state ≡ extent_state_active
    pub idle_y : (s'.extents y).state ≡ extent_state_active
    pub one_of : (a ≡ x) ⊎ (a ≡ y)
    pub joins :
        Joins (s.extents x) (s.extents y) (s'.extents a)
        ⊎ Joins (s.extents y) (s.extents x) (s'.extents a)
    pub leaf :
        (p : ℕ)
        → (let z = (rtree.read s'.tree p).extent in
            z == 0 || (z == a || z == (rtree.read s.tree p).extent))
          ≡ true
    pub own : (p : ℕ) → (rtree.read s'.tree p).extent ≡ a → a ≢ 0 → at_ends (s'.extents a) p ≡ true

  module _ (law : IsPairingHeap heap) (x y a : ℕ) (s s' : Store H M) (w : IsWorking x s)
      (m : Absorbed x y a s s') where
    x_not_in_pool : listed x s.pool.lru ≡ false
    x_not_in_pool = elim (Bool-cases (listed x s.pool.lru)) [
      | inl l ↦ absurd (omega (arith, (w.pool.free x l).in_state, w.active, w.pool_state))
      | inr l ↦ l
    ]

    lru_lem : s'.pool.lru ≡ extent_list_remove y s.pool.lru
    unfolding pool_remove
    lru_lem = rw m.pool_lem refl

    state_lem : s'.pool.state ≡ s.pool.state
    unfolding pool_remove
    state_lem = rw m.pool_lem refl

    still : (z : ℕ) → listed z s'.pool.lru ≡ (not (z == y) && listed z s.pool.lru)
    still z = rw lru_lem (listed-remove z y s.pool.lru w.pool.distinct)

    same : (z : ℕ) → listed z s'.pool.lru ≡ true → s'.extents z ≡ s.extents z
    same z l =
        m.others z
          (λ e. ground (
            arith,
            still z,
            x_not_in_pool,
            subst (λ t. listed t s.pool.lru ≡ false) (sym e) x_not_in_pool,
          ))
          (λ e. ground (arith, still z))

    old : (z : ℕ) → listed z s'.pool.lru ≡ true → (listed z s.pool.lru ≡ true) × (z ≢ y)
    old z l = (ground (arith, still z), λ e. ground (arith, still z))

    IsRegion-y : IsRegion (s.extents y)
    IsRegion-y = w.regions y m.y_in_pool

    bytes_a :
        (b : ℕ)
        → in_extent (s'.extents a) b ≡ (in_extent (s.extents x) b || in_extent (s.extents y) b)
    bytes_a b = elim m.joins [
      | inl j ↦ Joins-in_extent (s.extents x) (s.extents y) (s'.extents a) b j
      | inr j ↦ ground (arith, Joins-in_extent (s.extents y) (s.extents x) (s'.extents a) b j)
    ]

    IsRegion-a : IsRegion (s'.extents a)
    IsRegion-a = elim m.joins [
      | inl j ↦ Joins-IsRegion (s.extents x) (s.extents y) (s'.extents a) j w.region IsRegion-y
      | inr j ↦ Joins-IsRegion (s.extents y) (s.extents x) (s'.extents a) j IsRegion-y w.region
    ]

    apart_a :
        (e : Extent)
        → IsRegion e
        → apart (s.extents x) e ≡ true
        → apart (s.extents y) e ≡ true
        → apart (s'.extents a) e ≡ true
    apart_a e r p q = elim m.joins [
      | inl j ↦ Joins-apart (s.extents x) (s.extents y) (s'.extents a) e j r p q
      | inr j ↦ Joins-apart (s.extents y) (s.extents x) (s'.extents a) e j r q p
    ]

    idle_a : (s'.extents a).state ≡ extent_state_active
    idle_a = elim m.one_of [ inl e ↦ rw e m.idle_x | inr e ↦ rw e m.idle_y ]

    -- An extent in the state of the pool is none of those that were merged.
    untouched :
        (z : ℕ)
        → (s'.extents z).state ≡ s'.pool.state
        → (z ≢ a) × (s'.extents z ≡ s.extents z) × (z ≢ y)
    untouched z st = (
      λ e. not_idle (subst (λ t. (s'.extents t).state ≡ extent_state_active) (sym e) idle_a),
      m.others z not_x not_y,
      not_y,
    )
      where
        not_idle : (s'.extents z).state ≢ extent_state_active
        not_idle e = omega (arith, st, state_lem, w.pool_state, e)

        not_x : z ≢ x
        not_x e =
            not_idle (subst (λ t. (s'.extents t).state ≡ extent_state_active) (sym e) m.idle_x)

        not_y : z ≢ y
        not_y e =
            not_idle (subst (λ t. (s'.extents t).state ≡ extent_state_active) (sym e) m.idle_y)

    pub Absorbed-IsWorking : IsWorking a s'
    Absorbed-IsWorking = record {
      pool = rw m.pool_lem (
          IsPool-same heap law s.extents s'.extents (pool_remove heap y (s.extents y) s.pool)
            (λ z l. same z (rw m.pool_lem l))
            (pool_remove-IsPool heap law s.extents y s.pool w.pool m.y_in_pool w.counter));
      counter = rw m.pool_lem (unfold pool_remove in omega arith);
      pool_state = rw state_lem w.pool_state;
      active = idle_a;
      region = IsRegion-a;
      regions = λ z l. rw (same z l) (w.regions z (old z l).0);
      apart_x = λ z l. rw (same z l) (
          apart_a (s.extents z) (w.regions z (old z l).0) (w.apart_x z (old z l).0)
            (w.apart_pool y z m.y_in_pool (old z l).0 (λ e. (old z l).1 (sym e))));
      apart_pool = λ z z' l l' ne.
          rw (same z l, same z' l') (w.apart_pool z z' (old z l).0 (old z' l').0 ne);
      known = known;
      place = place;
      own = m.own;
    }
      where
        place :
            (p z : ℕ)
            → (rtree.read s'.tree p).extent ≡ z
            → z ≢ 0
            → listed z s'.pool.lru ≡ true
            → at_ends (s'.extents z) p ≡ true
        place p z e ne l =
            let (not_a, same_z, not_y) =
              untouched z ((rw (same z l) (w.pool.free z (old z l).0).in_state) ∙ sym state_lem) in
            let before : (rtree.read s.tree p).extent ≡ z = ground (arith, m.leaf p) in
            rw (same z l) (w.place p z before ne (old z l).0)

        known :
            (p z : ℕ)
            → (rtree.read s'.tree p).extent ≡ z
            → z ≢ 0
            → (s'.extents z).arena ≡ arena
            → (s'.extents z).state ≡ s'.pool.state
            → (listed z s'.pool.lru ≡ true)
              × ((p / page_size == (s'.extents z).e_addr / page_size
                    || p / page_size == extent_last_get (s'.extents z) / page_size)
                  ≡ true)
        known p z e ne ar st =
            let (not_a, same_z, not_y) = untouched z st in
            let before : (rtree.read s.tree p).extent ≡ z = ground (arith, m.leaf p) in
            let (l, place) =
              w.known p z before ne (rw same_z at ar) (rw (same_z, state_lem) at st) in
            (ground (arith, still z, l), rw same_z place)

    -- The extent and the pool together have the same bytes as before.
    pub Absorbed-covers :
        (b : ℕ)
        → (in_extent (s'.extents a) b || covers s'.extents s'.pool.lru b)
          ≡ (in_extent (s.extents x) b || covers s.extents s.pool.lru b)
    Absorbed-covers b =
        let list = covers-remove s.extents y s.pool.lru b m.y_in_pool in
        let after : covers s'.extents s'.pool.lru b
            ≡ covers s.extents (extent_list_remove y s.pool.lru) b =
          covers-same s.extents s'.extents s'.pool.lru b same ∙ rw lru_lem refl in
        rw (after, bytes_a b, list) (ground arith)

    -- And as many pages.
    pub Absorbed-pages :
        sum_pages s'.extents s'.pool.lru + (s'.extents a).size / page_size
        ≡ sum_pages s.extents s.pool.lru + (s.extents x).size / page_size
    Absorbed-pages =
        let list = sum_pages-remove s.extents y s.pool.lru m.y_in_pool in
        let after : sum_pages s'.extents s'.pool.lru
            ≡ sum_pages s.extents (extent_list_remove y s.pool.lru) =
          sum_pages-same heap law s.extents s'.extents s'.pool.lru same ∙ rw lru_lem refl in
        let length : (s'.extents a).size ≡ (s.extents x).size + (s.extents y).size = elim m.joins [
          | inl j ↦ j.length
          | inr j ↦ omega (arith, j.length)
        ] in
        omega (arith, list, after, length, w.region.whole, IsRegion-y.whole)
