-- ===== src/Extents/Record/Kept.antt =====
-- What `extent_record` keeps: the extent ends up in the pool with all its bytes, merged with all
-- its neighbours.
use mathlib.Core.Logic.{inl, inr}
use pmalloc.Prelude.{
  ℕ, zero, suc, ◌+◌, ◌/◌, ◌≤◌, ◌<◌, ◌≡◌, refl, arith, Bool, true, false, ◌||◌, Bool-cases, some,
  length, subst, if◌then◌else◌,
}
use pmalloc.SizeClass.{page_size}
use pmalloc.Extents.{Store, Rtree, IsRtree, PairingHeap, IsPairingHeap, extent_deactivate_locked}
use pmalloc.Extents.Idle.{IsIdle, IsWorking-put_in}
use pmalloc.Extents.Region.{in_extent, covers}
use pmalloc.Extents.Deactivate.{extent_deactivate_locked-PutIn}
use pmalloc.Extents.Coalesce.{Coalesced, extent_try_coalesce_impl}
use pmalloc.Extents.Coalesce.Merge.{IsWorking}
use pmalloc.Extents.Coalesce.Loop.{
  Progress, Progress-trans, IsSettled, Ends, extent_try_coalesce_impl-Ends,
}
use pmalloc.Extents.Record.{drop_slab, coalesce_large, coalesce_record, extent_record}
use pmalloc.Extents.Record.Drop.{drop_slab-Progress, working-unlisted}

module _ {H M : Type 0} (heap : PairingHeap H) (rtree : Rtree M) (arena : ℕ)
    (law : IsPairingHeap heap) (tree_law : IsRtree rtree) where
  -- The merging is over and has left nothing to merge.
  record Merged (inactive_only : Bool) (x : ℕ) (s : Store H M) (r : Coalesced (Store H M))
      : Type 0 where
    progress : Progress heap rtree arena 0 x s r.extent r.store
    nothing_left : IsSettled heap rtree arena law tree_law inactive_only r.extent r.store

  large_stop :
      (fuel x : ℕ) (s : Store H M) (r : Coalesced (Store H M))
      → extent_try_coalesce_impl heap rtree arena true (length s.pool.lru + 1) x s ≡ some r
      → r.coalesced ≡ false
      → coalesce_large heap rtree arena (suc fuel) x s ≡ some r
  unfolding coalesce_large
  large_stop fuel x s r e c = ground (arith, e, c)

  after_large :
      (fuel x : ℕ) (s : Store H M) (r : Coalesced (Store H M)) (c : Bool)
      → extent_try_coalesce_impl heap rtree arena true (length s.pool.lru + 1) x s ≡ some r
      → r.coalesced ≡ c
      → Ends heap rtree arena law tree_law true x s r
      → (c ≡ true
          → (r' : Coalesced (Store H M)) × (coalesce_large heap rtree arena fuel r.extent r.store
              ≡ some r')
            × Merged true r.extent r.store r')
      → (r' : Coalesced (Store H M)) × (coalesce_large heap rtree arena (suc fuel) x s ≡ some r')
        × Merged true x s r'
  unfolding coalesce_large
  after_large fuel x s r true e c ends rest =
      let (r', run, m) = rest refl in
      (
        r',
        rw (e, c, coalesce_large) run,
        record {
          progress =
              Progress-trans heap rtree arena 0 0 x r.extent r'.extent s r.store r'.store
                ends.progress m.progress;
          nothing_left = m.nothing_left;
        },
      )
  after_large fuel x s r false e c ends rest = (
    r,
    large_stop fuel x s r e c,
    record { progress = ends.progress; nothing_left = ends.nothing_left c },
  )

  coalesce_large-Merged :
      (fuel x : ℕ) (s : Store H M)
      → IsWorking heap rtree arena x s
      → length s.pool.lru < fuel
      → (r : Coalesced (Store H M)) × (coalesce_large heap rtree arena fuel x s ≡ some r)
        × Merged true x s r
  coalesce_large-Merged zero x s w h = absurd (omega arith)
  coalesce_large-Merged (suc fuel) x s w h =
      let (r, e, ends) =
        extent_try_coalesce_impl-Ends heap rtree arena law tree_law true (length s.pool.lru + 1) x s
          w (omega arith) in
      after_large fuel x s r r.coalesced e refl ends (λ c.
        coalesce_large-Merged fuel r.extent r.store ends.progress.working
          (omega (arith, ends.one_fewer c)))

  -- A pool that does not coalesce late has no merge to report.
  no_report :
      (x : ℕ) (s : Store H M) (r : Coalesced (Store H M))
      → s.pool.delay_coalesce ≡ false
      → Ends heap rtree arena law tree_law false x s r
      → r.coalesced ≡ false
  no_report x s r e ends = elim (Bool-cases r.coalesced) [
    | inl c ↦ let late = ends.one_merge c in absurd (cc)
    | inr c ↦ c
  ]

  coalesce_record-Merged :
      (x : ℕ) (s : Store H M)
      → IsWorking heap rtree arena x s
      → (r : Coalesced (Store H M)) × (coalesce_record heap rtree arena x s ≡ some r)
        × Merged s.pool.delay_coalesce x s r
  unfolding coalesce_record
  coalesce_record-Merged x s w = on_policy s.pool.delay_coalesce refl
    where
      rounds : ℕ
      rounds = length s.pool.lru + 1

      on_policy :
          (d : Bool)
          → s.pool.delay_coalesce ≡ d
          → (r : Coalesced (Store H M)) × ((if d
                then coalesce_large heap rtree arena rounds x s
                else extent_try_coalesce_impl heap rtree arena false rounds x s)
              ≡ some r)
            × Merged d x s r
      on_policy true e = coalesce_large-Merged rounds x s w (omega arith)
      on_policy false e =
          let (r, run, ends) =
            extent_try_coalesce_impl-Ends heap rtree arena law tree_law false rounds x s w
              (omega arith) in
          (
            r,
            run,
            record {
              progress = ends.progress;
              nothing_left = ends.nothing_left (no_report x s r e ends);
            },
          )

  -- `s'` is what recording `x` makes of `s`: `extent` is what `x` has become in the store `before`,
  -- and no neighbour of it can be merged there; putting it into the pool gives `s'`.
  pub record Recorded (x : ℕ) (s s' : Store H M) : Type 0 where
    pub extent : ℕ
    pub before : Store H M
    pub settled : IsSettled heap rtree arena law tree_law s.pool.delay_coalesce extent before
    pub put_in : s' ≡ extent_deactivate_locked heap extent before
    pub idle : IsIdle heap rtree arena s'
    pub pages : s'.pool.npages ≡ s.pool.npages + (s.extents x).size / page_size
    pub bytes :
        (b : ℕ)
        → covers s'.extents s'.pool.lru b
          ≡ (in_extent (s.extents x) b || covers s.extents s.pool.lru b)

  -- When the extent and the pool have together at most 98304 pages, and what merging relies on
  -- holds, extent_record ends. The extent, merged with its neighbours until none can be merged, is
  -- then in the pool, which is ready for the next operation and has exactly the bytes and the
  -- pages that both had.
  pub extent_record-Recorded :
      (x : ℕ) (s : Store H M)
      → IsWorking heap rtree arena x s
      → s.pool.npages + (s.extents x).size / page_size ≤ 98304
      → (s' : Store H M) × (extent_record heap rtree arena x s ≡ some s') × Recorded x s s'
  unfolding extent_record
  extent_record-Recorded x s w room =
      let start = drop_slab-Progress heap rtree arena law tree_law x s w in
      let (r, run, m) = coalesce_record-Merged x (drop_slab rtree x s) start.working in
      let p =
        Progress-trans heap rtree arena 0 0 x x r.extent s (drop_slab rtree x s) r.store start
          m.progress in
      let before = p.working in
      let sum = p.pages in
      let counted = before.pool.pages in
      let had = w.pool.pages in
      let put =
        extent_deactivate_locked-PutIn heap law r.extent r.store before.pool
          (working-unlisted heap rtree arena r.extent r.store before) before.region.whole
          (omega (arith, before.region.whole, before.region.some_pages)) (omega arith)
          (omega arith) in
      (
        extent_deactivate_locked heap r.extent r.store,
        rw (run, extent_record) refl,
        record {
          extent = r.extent;
          before = r.store;
          settled =
              subst (λ d. IsSettled heap rtree arena law tree_law d r.extent r.store) start.policy
                m.nothing_left;
          put_in = refl;
          idle = IsWorking-put_in heap rtree arena r.extent r.store law before (omega arith);
          pages = omega (arith, put.pages);
          bytes = λ b. ground (arith, put.bytes b, p.bytes b);
        },
      )
