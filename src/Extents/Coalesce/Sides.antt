-- ===== src/Extents/Coalesce/Sides.antt =====
-- Both sides of `extent_try_coalesce_impl`: what is merged is the neighbour of the extent.
use mathlib.Core.Logic.{inl, inr}
use pmalloc.Prelude.{
  ℕ, ◌+◌, ◌/◌, ◌≡◌, ◌≢◌, refl, arith, Bool, true, false, ◌||◌, ◌==◌, Bool-cases, some, subst,
}
use pmalloc.SizeClass.{page_size}
use pmalloc.Log.{listed}
use pmalloc.Extents.{
  Extent, Store, Leaf, Rtree, IsRtree, PairingHeap, no_leaf, max_psz_idx, extent_last_get,
  extent_past_get, extent_before_get, extent_activate_locked, extents_remove_locked,
  extent_state_active,
}
use pmalloc.Extents.Coalesce.{
  extent_merge_impl, extent_lock_from_addr, extent_can_coalesce, merge_next, merge_prev,
}
use pmalloc.Extents.Region.{IsRegion, apart}
use pmalloc.Extents.Coalesce.Merge.{IsWorking, Absorbed}

-- The page behind `e` is the first or the last one of `f`: then `f` begins there.
next_meets :
    (e f : Extent)
    → IsRegion e
    → IsRegion f
    → apart e f ≡ true
    → (extent_past_get e / page_size == f.e_addr / page_size
        || extent_past_get e / page_size == extent_last_get f / page_size)
      ≡ true
    → e.e_addr + e.size ≡ f.e_addr
next_meets e f re rf p q = ground arith

-- The page before `e` is the first or the last one of `f`: then `f` ends there.
prev_meets :
    (e f : Extent)
    → IsRegion e
    → IsRegion f
    → apart e f ≡ true
    → (extent_before_get e / page_size == f.e_addr / page_size
        || extent_before_get e / page_size == extent_last_get f / page_size)
      ≡ true
    → f.e_addr + f.size ≡ e.e_addr
prev_meets e f re rf p q = ground arith

module _ {M : Type 0} (rtree : Rtree M) where
  -- In `t'` a page names `a`, nothing, or what it names in `t`.
  abbrev pub named : (a : ℕ) → (t t' : M) → (p : ℕ) → Bool
  named a t t' p =
      let z = (rtree.read t' p).extent in z == 0 || (z == a || z == (rtree.read t p).extent)

module _ {M : Type 0} (rtree : Rtree M) (tree_law : IsRtree rtree) where
  pub named-write :
      (a : ℕ) (t t' : M) (q p : ℕ) (leaf : Leaf)
      → (leaf.extent == 0 || leaf.extent == a) ≡ true
      → named rtree a t t' p ≡ true
      → named rtree a t (rtree.write t' q leaf) p ≡ true
  named-write a t t' q p leaf h k = elim (Bool-cases (q / page_size == p / page_size)) [
    | inl e ↦ rw (tree_law.read-write t' q p leaf, e) (ground arith)
    | inr e ↦ rw (tree_law.read-write t' q p leaf, e) k
  ]

  -- The four writes of a merge.
  merge-named :
      (t : M) (p1 p2 p3 p4 a p : ℕ)
      → let leaf : Leaf = record { extent = a; szind = max_psz_idx; slab = false } in
        named rtree a t
          (rtree.write
            (rtree.write (rtree.write (rtree.write t p1 no_leaf) p2 no_leaf) p3 leaf)
            p4
            leaf)
          p
        ≡ true
  merge-named t p1 p2 p3 p4 a p =
      let leaf : Leaf = record { extent = a; szind = max_psz_idx; slab = false } in
      let t1 = rtree.write t p1 no_leaf in
      let t2 = rtree.write t1 p2 no_leaf in
      let t3 = rtree.write t2 p3 leaf in
      let self : (leaf.extent == 0 || leaf.extent == a) ≡ true = ground arith in
      named-write a t t3 p4 p leaf self (
        named-write a t t2 p3 p leaf self (
          named-write a t t1 p2 p no_leaf refl
            (named-write a t t p1 p no_leaf refl (ground arith))))

  -- After them a page names `a` where two of them wrote it, or where it did so before and none of
  -- them wrote.
  merge-own :
      (t : M) (last_a first_b first_a last_b a p : ℕ)
      → let leaf : Leaf = record { extent = a; szind = max_psz_idx; slab = false } in
        (rtree.read
            (rtree.write
              (rtree.write
                (rtree.write (rtree.write t last_a no_leaf) first_b no_leaf)
                first_a
                leaf)
              last_b
              leaf)
            p).extent
          ≡ a
        → a ≢ 0
        → ((rtree.read t p).extent ≡ a
            → (p / page_size == first_a / page_size || p / page_size == last_a / page_size) ≡ true)
        → (p / page_size == first_a / page_size || p / page_size == last_b / page_size) ≡ true
  merge-own t last_a first_b first_a last_b a p e ne before =
      let leaf : Leaf = record { extent = a; szind = max_psz_idx; slab = false } in
      let t1 = rtree.write t last_a no_leaf in
      let t2 = rtree.write t1 first_b no_leaf in
      let t3 = rtree.write t2 first_a leaf in
      ground (
        arith,
        tree_law.read-write t3 last_b p leaf,
        tree_law.read-write t2 first_a p leaf,
        tree_law.read-write t1 first_b p no_leaf,
        tree_law.read-write t last_a p no_leaf,
        before,
      )

module _ {H M : Type 0} (heap : PairingHeap H) (rtree : Rtree M) (tree_law : IsRtree rtree)
    (arena : ℕ) (x y : ℕ) (s : Store H M) (w : IsWorking heap rtree arena x s)
    (l : listed y s.pool.lru ≡ true) where
  x_ne_y : x ≢ y
  x_ne_y e =
      let st = (w.pool.free y l).in_state in
      let idle : (s.extents y).state ≡ extent_state_active =
        subst (λ t. (s.extents t).state ≡ extent_state_active) e w.active in
      absurd (omega (arith, st, idle, w.pool_state))

  x_y : (x == y) ≡ false
  x_y = ground (arith, x_ne_y)

  y_x : (y == x) ≡ false
  y_x = ground (arith, x_ne_y)

  IsRegion-y : IsRegion (s.extents y)
  IsRegion-y = w.regions y l

  next-Absorbed :
      (s.extents x).e_addr + (s.extents x).size ≡ (s.extents y).e_addr
      → Absorbed heap rtree arena x y x s
          (extent_merge_impl rtree x y (extent_activate_locked heap y s))
  unfolding extent_merge_impl extent_activate_locked extents_remove_locked
  next-Absorbed meet = record {
    y_in_pool = l;
    pool_lem = refl;
    others = λ z a b. ground arith;
    idle_x = ground (arith, x_ne_y, w.active);
    idle_y = ground (arith, x_ne_y);
    one_of = inl refl;
    joins = inl (record {
      meet = meet;
      start = ground (arith, x_ne_y);
      length = ground (arith, x_ne_y, w.region.end, IsRegion-y.end);
    });
    leaf = λ p. merge-named rtree tree_law s.tree _ _ _ _ x p;
    own = λ p e ne.
        let k =
          merge-own rtree tree_law s.tree _ _ _ _ x p e ne
            (λ o. ground (arith, w.own p o ne, x_ne_y)) in
        ground (
          arith, k, x_ne_y, meet, w.region.end, w.region.some_pages, IsRegion-y.end,
          IsRegion-y.some_pages,
        );
  }

  prev-Absorbed :
      (s.extents y).e_addr + (s.extents y).size ≡ (s.extents x).e_addr
      → Absorbed heap rtree arena x y y s
          (extent_merge_impl rtree y x (extent_activate_locked heap y s))
  unfolding extent_merge_impl extent_activate_locked extents_remove_locked
  prev-Absorbed meet = record {
    y_in_pool = l;
    pool_lem = refl;
    others = λ z a b. ground arith;
    idle_x = ground (arith, x_ne_y, w.active);
    idle_y = ground (arith, x_ne_y);
    one_of = inr refl;
    joins = inr (record {
      meet = meet;
      start = ground (arith, x_ne_y);
      length = ground (arith, x_ne_y, w.region.end, IsRegion-y.end);
    });
    leaf = λ p. merge-named rtree tree_law s.tree _ _ _ _ y p;
    own = λ p e ne.
        let k =
          merge-own rtree tree_law s.tree _ _ _ _ y p e ne
            (λ o. ground (arith, w.place p y o ne l, x_ne_y)) in
        ground (
          arith, k, x_ne_y, meet, w.region.end, w.region.some_pages, IsRegion-y.end,
          IsRegion-y.some_pages,
        );
  }

module _ {H M : Type 0} (heap : PairingHeap H) (rtree : Rtree M) (tree_law : IsRtree rtree)
    (arena : ℕ) (inactive_only : Bool) (x : ℕ) (s : Store H M)
    (w : IsWorking heap rtree arena x s) where
  -- What the tree gives for a page, when it can be merged.
  candidate :
      (p y : ℕ)
      → extent_lock_from_addr rtree s.tree p inactive_only ≡ y
      → (y == 0) ≡ false
      → extent_can_coalesce arena y s ≡ true
      → (listed y s.pool.lru ≡ true)
        × ((p / page_size == (s.extents y).e_addr / page_size
              || p / page_size == extent_last_get (s.extents y) / page_size)
            ≡ true)
  unfolding extent_lock_from_addr extent_can_coalesce
  candidate p y e ne can = w.known p y (ground arith) (ground arith) (ground arith) (ground arith)

  -- The merge forward takes an extent of the pool that begins where `x` ends.
  pub merge_next-Absorbed :
      (s' : Store H M)
      → merge_next heap rtree arena inactive_only x s ≡ some s'
      → (y : ℕ) × Absorbed heap rtree arena x y x s s'
  unfolding merge_next
  merge_next-Absorbed s' e =
      let y : ℕ =
        extent_lock_from_addr rtree s.tree (extent_past_get (s.extents x)) inactive_only in
      elim (Bool-cases (y == 0)) [
        | inl z ↦ absurd (ground arith)
        | inr z ↦ elim (Bool-cases (extent_can_coalesce arena y s)) [
          | inl c ↦
              let (l, place) = candidate (extent_past_get (s.extents x)) y refl z c in
              let meet =
                next_meets (s.extents x) (s.extents y) w.region (w.regions y l) (w.apart_x y l)
                  place in
              let same : extent_merge_impl rtree x y (extent_activate_locked heap y s) ≡ s' =
                ground arith in
              (
                y,
                subst (λ t. Absorbed heap rtree arena x y x s t) same
                    (next-Absorbed heap rtree tree_law arena x y s w l meet),
              )
          | inr c ↦ absurd (ground arith)
        ]
      ]

  -- The merge backward takes an extent of the pool that ends where `x` begins.
  pub merge_prev-Absorbed :
      (a : ℕ) (s' : Store H M)
      → merge_prev heap rtree arena inactive_only x s ≡ some (a, s')
      → Absorbed heap rtree arena x a a s s'
  unfolding merge_prev
  merge_prev-Absorbed a s' e =
      let y : ℕ =
        extent_lock_from_addr rtree s.tree (extent_before_get (s.extents x)) inactive_only in
      elim (Bool-cases (y == 0)) [
        | inl z ↦ absurd (ground arith)
        | inr z ↦ elim (Bool-cases (extent_can_coalesce arena y s)) [
          | inl c ↦
              let (l, place) = candidate (extent_before_get (s.extents x)) y refl z c in
              let meet =
                prev_meets (s.extents x) (s.extents y) w.region (w.regions y l) (w.apart_x y l)
                  place in
              let same : extent_merge_impl rtree y x (extent_activate_locked heap y s) ≡ s' =
                ground arith in
              let here : y ≡ a = ground arith in
              subst (λ t. Absorbed heap rtree arena x t t s s') here
                (subst (λ t. Absorbed heap rtree arena x y y s t) same
                  (prev-Absorbed heap rtree tree_law arena x y s w l meet))
          | inr c ↦ absurd (ground arith)
        ]
      ]
