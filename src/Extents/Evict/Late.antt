-- ===== src/Extents/Evict/Late.antt =====
-- `extents_evict` of a pool that coalesces late: the loop ends, and leaves the pool ready.
use mathlib.Core.Logic.{inl, inr}
use pmalloc.Prelude.{
  ℕ, zero, suc, ◌+◌, ◌/◌, ◌≤◌, ◌<◌, ◌≡◌, ◌⊎◌, refl, sym, ◌∙◌, arith, Bool, true, false, ◌||◌, leb,
  Bool-cases, some, List, [], ◌∷◌, ◌++◌, length, length-append, ap, subst,
}
use pmalloc.SizeClass.{page_size}
use pmalloc.Log.{listed}
use pmalloc.Extents.{
  Extent, Store, Rtree, IsRtree, PairingHeap, IsPairingHeap, extent_activate_locked,
  extent_deactivate_locked, extent_state_active, set_state, extents_insert_locked,
  extents_remove_locked, pool_remove, extent_list_remove, pool_insert,
}
use pmalloc.Extents.Pool.{sum_pages}
use pmalloc.Extents.Region.{in_extent, covers}
use pmalloc.Extents.Activate.{TakenOut, extent_activate_locked-TakenOut}
use pmalloc.Extents.Deactivate.{PutIn, extent_deactivate_locked-PutIn}
use pmalloc.Extents.Record.Drop.{working-unlisted}
use pmalloc.Extents.Coalesce.{Coalesced, extent_try_coalesce_impl}
use pmalloc.Extents.Coalesce.Merge.{IsWorking}
use pmalloc.Extents.Coalesce.Loop.{Ends, extent_try_coalesce_impl-Ends}
use pmalloc.Extents.Idle.{IsIdle, IsIdle-take_out, IsWorking-put_in, set_state_active}
use pmalloc.Extents.Evict.{Eviction, nothing, evicted, aborted, unfinished, evict_late}

module _ {H M : Type 0} (heap : PairingHeap H) (rtree : Rtree M) (arena npages_min : ℕ) where
  -- NULL: the pool is within the limit, and has the bytes and pages that it had.
  pub record Within (s s' : Store H M) : Type 0 where
    pub idle : IsIdle heap rtree arena s'
    pub limit : s'.pool.npages ≤ npages_min
    pub pages : s'.pool.npages ≡ s.pool.npages
    pub bytes : (b : ℕ) → covers s'.extents s'.pool.lru b ≡ covers s.extents s.pool.lru b

  -- An extent: it was part of the pool, which is smaller by it.
  pub record Evicts (x : ℕ) (s s' : Store H M) : Type 0 where
    pub working : IsWorking heap rtree arena x s'
    pub above : npages_min < s.pool.npages
    pub fewer : length s'.pool.lru < length s.pool.lru
    pub policy : s'.pool.delay_coalesce ≡ s.pool.delay_coalesce
    pub pages : s'.pool.npages + (s'.extents x).size / page_size ≡ s.pool.npages
    pub bytes :
        (b : ℕ)
        → (in_extent (s'.extents x) b || covers s'.extents s'.pool.lru b)
          ≡ covers s.extents s.pool.lru b

  abbrev pub Late : Store H M → Eviction (Store H M) → Type 0
  Late s (nothing s') = Within s s'
  Late s (evicted x s') = Evicts x s s'
  Late s aborted = ⊥
  Late s unfinished = ⊥

pub List-cases : (xs : List ℕ) → (xs ≡ []) ⊎ ((y : ℕ) × (ys : List ℕ) × (xs ≡ y ∷ ys))
List-cases [] = inl refl
List-cases (y ∷ ys) = inr (y, ys, refl)

module _ {H M : Type 0} (heap : PairingHeap H) (rtree : Rtree M) (arena npages_min : ℕ)
    (law : IsPairingHeap heap) (tree_law : IsRtree rtree) where
  -- A round that only put bytes of the pool together.
  Late-after :
      (s t : Store H M) (r : Eviction (Store H M))
      → t.pool.npages ≡ s.pool.npages
      → ((b : ℕ) → covers t.extents t.pool.lru b ≡ covers s.extents s.pool.lru b)
      → length t.pool.lru < length s.pool.lru
      → t.pool.delay_coalesce ≡ s.pool.delay_coalesce
      → Late heap rtree arena npages_min t r
      → Late heap rtree arena npages_min s r
  Late-after s t (nothing s') pages bytes fewer policy l = record {
    idle = l.idle;
    limit = l.limit;
    pages = l.pages ∙ pages;
    bytes = λ b. l.bytes b ∙ bytes b;
  }
  Late-after s t (evicted x s') pages bytes fewer policy l = record {
    working = l.working;
    above = omega (arith, l.above, pages);
    fewer = omega (arith, l.fewer, fewer);
    policy = l.policy ∙ policy;
    pages = l.pages ∙ pages;
    bytes = λ b. l.bytes b ∙ bytes b;
  }
  Late-after s t aborted pages bytes fewer policy l = l
  Late-after s t unfinished pages bytes fewer policy l = l

  module _ (s : Store H M) (i : IsIdle heap rtree arena s) (few : s.pool.npages ≤ 98304) (x : ℕ)
      (xs : List ℕ) (lru : s.pool.lru ≡ x ∷ xs) where
    abbrev taken : Store H M
    taken = extent_activate_locked heap x s

    here : listed x s.pool.lru ≡ true
    unfolding listed
    here = rw lru (ground arith)

    t : TakenOut heap x s taken
    t = extent_activate_locked-TakenOut heap law x s i.pool here (omega arith)

    working : IsWorking heap rtree arena x taken
    working = IsIdle-take_out heap rtree arena x s law i (omega arith) here

    rest_lru : taken.pool.lru ≡ xs
    unfolding extent_activate_locked extents_remove_locked pool_remove extent_list_remove
    rest_lru = rw lru (ground arith)

    -- What the merged extent and the pool have is what the pool had.
    module _ (r : Coalesced (Store H M))
        (ends : Ends heap rtree arena law tree_law false x taken r) where
      all_pages : r.store.pool.npages + (r.store.extents r.extent).size / page_size ≡ s.pool.npages
      all_pages = omega (
        arith,
        ends.progress.pages,
        ends.progress.working.pool.pages,
        t.pool.pages,
        t.pages,
        ap (λ (e : Extent). e.size) t.self,
      )

      all_bytes :
          (b : ℕ)
          → (in_extent (r.store.extents r.extent) b || covers r.store.extents r.store.pool.lru b)
            ≡ covers s.extents s.pool.lru b
      all_bytes b = ends.progress.bytes b ∙ rw t.self (t.bytes b)

      -- It goes back into the pool.
      abbrev put_back : Store H M
      put_back = extent_deactivate_locked heap r.extent r.store

      put : PutIn heap r.extent r.store put_back
      put =
          let w = ends.progress.working in
          extent_deactivate_locked-PutIn heap law r.extent r.store w.pool
            (working-unlisted heap rtree arena r.extent r.store w) w.region.whole
            (omega (arith, w.region.whole, w.region.some_pages)) (omega (arith, all_pages))
            (omega (arith, all_pages))

      put_back-IsIdle : IsIdle heap rtree arena put_back
      put_back-IsIdle =
          IsWorking-put_in heap rtree arena r.extent r.store law ends.progress.working
            (omega (arith, all_pages))

      put_back-lru : put_back.pool.lru ≡ r.store.pool.lru ++ r.extent ∷ []
      unfolding extent_deactivate_locked extents_insert_locked pool_insert
      put_back-lru = refl

      one_fewer : r.coalesced ≡ true → length put_back.pool.lru < length s.pool.lru
      one_fewer c =
          let sum = length-append r.store.pool.lru (r.extent ∷ []) in
          rw (put_back-lru, lru) (omega (arith, sum, ends.one_fewer c, ap {B = ℕ} length rest_lru))

      -- Or it is handed out.
      hand_out : npages_min < s.pool.npages → Evicts heap rtree arena npages_min r.extent s r.store
      hand_out above = record {
        working = ends.progress.working;
        above = above;
        fewer = rw lru (omega (arith, ends.progress.fewer, ap {B = ℕ} length rest_lru));
        policy = ends.progress.policy ∙ t.policy;
        pages = all_pages;
        bytes = all_bytes;
      }

  within :
      (s : Store H M)
      → IsIdle heap rtree arena s
      → s.pool.npages ≤ npages_min
      → Within heap rtree arena npages_min s s
  within s i h = record { idle = i; limit = h; pages = refl; bytes = λ b. refl }

  next_round :
      (fuel : ℕ) (s : Store H M)
      → IsIdle heap rtree arena s
      → s.pool.npages ≤ 98304
      → length s.pool.lru < suc fuel
      → ((s' : Store H M)
          → IsIdle heap rtree arena s'
          → s'.pool.npages ≤ 98304
          → length s'.pool.lru < fuel
          → Late heap rtree arena npages_min s' (evict_late heap rtree arena fuel npages_min s'))
      → (x : ℕ) (xs : List ℕ) → s.pool.lru ≡ x ∷ xs
      → npages_min < s.pool.npages
      → (r : Coalesced (Store H M))
      → Ends heap rtree arena law tree_law false x (extent_activate_locked heap x s) r
      → (c : Bool) → r.coalesced ≡ c
      → Late heap rtree arena npages_min s (elim c [
        | true ↦
            evict_late heap rtree arena fuel npages_min
              (extents_insert_locked heap r.extent (set_state r.extent s.pool.state r.store))
        | false ↦ evicted r.extent (set_state r.extent extent_state_active r.store)
      ])
  next_round fuel s i few h rest x xs lru above r ends true c =
      let back = put_back s i few x xs lru r ends in
      let p = put s i few x xs lru r ends in
      let all = all_pages s i few x xs lru r ends in
      let state : r.store.pool.state ≡ s.pool.state =
        ends.progress.state ∙ (t s i few x xs lru).state in
      let fewer = one_fewer s i few x xs lru r ends c in
      let pages : back.pool.npages ≡ s.pool.npages = p.pages ∙ all in
      let l : Late heap rtree arena npages_min s
          (evict_late heap rtree arena fuel npages_min back) =
        Late-after s back (evict_late heap rtree arena fuel npages_min back) pages
          (λ b. ground (arith, p.bytes b, all_bytes s i few x xs lru r ends b)) fewer
          (p.same_policy ∙ ends.progress.policy ∙ (t s i few x xs lru).policy)
          (rest back (put_back-IsIdle s i few x xs lru r ends) (omega arith) (omega arith)) in
      subst
        (λ st. Late heap rtree arena npages_min s (
          evict_late heap rtree arena fuel npages_min
            (extents_insert_locked heap r.extent (set_state r.extent st r.store))))
        state (unfold extent_deactivate_locked in l)
  next_round fuel s i few h rest x xs lru above r ends false c =
      rw (set_state_active heap rtree arena r.extent r.store ends.progress.working.active)
        (hand_out s i few x xs lru r ends above)

  no_pages :
      (s : Store H M) → IsIdle heap rtree arena s → s.pool.lru ≡ [] → s.pool.npages ≤ npages_min
  unfolding sum_pages
  no_pages s i e =
      let sum : sum_pages s.extents s.pool.lru ≡ 0 =
        subst (λ l. sum_pages s.extents l ≡ 0) (sym e) refl in
      omega (arith, i.pool.pages)

  late_empty :
      (fuel : ℕ) (s : Store H M)
      → s.pool.lru ≡ []
      → evict_late heap rtree arena (suc fuel) npages_min s ≡ nothing s
  unfolding evict_late
  late_empty fuel s e = ground (arith, e)

  late_low :
      (fuel : ℕ) (s : Store H M) (x : ℕ) (xs : List ℕ)
      → s.pool.lru ≡ x ∷ xs
      → leb s.pool.npages npages_min ≡ true
      → evict_late heap rtree arena (suc fuel) npages_min s ≡ nothing s
  unfolding evict_late
  late_low fuel s x xs e low = ground (arith, e, low)

  late_step :
      (fuel : ℕ) (s : Store H M) (x : ℕ) (xs : List ℕ)
      → s.pool.lru ≡ x ∷ xs
      → leb s.pool.npages npages_min ≡ false
      → (r : Coalesced (Store H M))
      → extent_try_coalesce_impl heap rtree arena false
          (length xs + 1)
          x
          (extent_activate_locked heap x s)
        ≡ some r
      → evict_late heap rtree arena (suc fuel) npages_min s ≡ elim r.coalesced [
        | true ↦
            evict_late heap rtree arena fuel npages_min
              (extents_insert_locked heap r.extent (set_state r.extent s.pool.state r.store))
        | false ↦ evicted r.extent (set_state r.extent extent_state_active r.store)
      ]
  unfolding evict_late extent_activate_locked
  late_step fuel s x xs e above r run = ground (arith, e, above, run)

  -- A pool of at most 98304 pages that is ready, when evicting coalesces late: the loop ends
  -- within a round more than the pool has extents. It gives NULL when the pool is within the
  -- limit, with the bytes that it had; else an extent of a pool that was above the limit, merged
  -- with neighbours, and the pool is smaller by it.
  pub evict_late-Late :
      (fuel : ℕ) (s : Store H M)
      → IsIdle heap rtree arena s
      → s.pool.npages ≤ 98304
      → length s.pool.lru < fuel
      → Late heap rtree arena npages_min s (evict_late heap rtree arena fuel npages_min s)
  evict_late-Late zero s i few h = absurd (omega arith)
  evict_late-Late (suc fuel) s i few h = elim (List-cases s.pool.lru) [
    | inl e ↦ rw (late_empty fuel s e) (within s i (no_pages s i e))
    | inr (x, xs, e) ↦ elim (Bool-cases (leb s.pool.npages npages_min)) [
      | inl low ↦ rw (late_low fuel s x xs e low) (within s i (ground arith))
      | inr above ↦
          let w = working s i few x xs e in
          let (r, run, ends) =
            extent_try_coalesce_impl-Ends heap rtree arena law tree_law false (length xs + 1) x
              (taken s i few x xs e) w (rw (rest_lru s i few x xs e) (omega arith)) in
          rw (late_step fuel s x xs e above r run) (
            next_round fuel s i few h (evict_late-Late fuel) x xs e (ground arith) r ends
              r.coalesced refl)
    ]
  ]
