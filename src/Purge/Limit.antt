-- ===== src/Purge/Limit.antt =====
-- Purging the dirty extents reaches its limit.
use mathlib.Core.Logic.{inl, inr}
use pmalloc.Prelude.{
  ℕ, zero, suc, ◌+◌, ◌/◌, ◌%◌, ◌^◌, ◌≤◌, ◌<◌, ◌≡◌, ◌⊎◌, refl, ap, ◌∙◌, arith, true, false, ltb,
  Bool-cases, Option, some, List, [], ◌∷◌, ◌++◌, length,
}
use pmalloc.SizeClass.{page_size}
use pmalloc.Extents.{Store, Rtree, IsRtree, PairingHeap, IsPairingHeap}
use pmalloc.Extents.Idle.{IsIdle, IsWorking-IsIdle}
use pmalloc.Extents.Evict.{
  Eviction, nothing, evicted, aborted, unfinished, evict_late, extents_evict,
}
use pmalloc.Extents.Evict.Late.{Late, evict_late-Late}
use pmalloc.Purge.{arena_stash_decayed}

module _ {H M : Type 0} (heap : PairingHeap H) (rtree : Rtree M) (arena : ℕ)
    (law : IsPairingHeap heap) (tree_law : IsRtree rtree) (new : ℕ → Option ℕ × Option ℕ)
    (npages_limit npages_decay_max : ℕ) where
  -- A pool that coalesces late is evicted from by the loop on `coalesced`.
  as_loop :
      (fuel : ℕ) (s : Store H M)
      → s.pool.delay_coalesce ≡ true
      → extents_evict heap rtree arena (new fuel).0 (new fuel).1 npages_limit s
        ≡ evict_late heap rtree arena (length s.pool.lru + 1) npages_limit s
  unfolding extents_evict
  as_loop fuel s late = ground (arith, late)

  extents_evict-Late :
      (fuel : ℕ) (s : Store H M)
      → s.pool.delay_coalesce ≡ true
      → IsIdle heap rtree arena s
      → s.pool.npages ≤ 98304
      → Late heap rtree arena npages_limit s
          (extents_evict heap rtree arena (new fuel).0 (new fuel).1 npages_limit s)
  extents_evict-Late fuel s late i few = rw (as_loop fuel s late) (
      evict_late-Late heap rtree arena npages_limit law tree_law (length s.pool.lru + 1) s i few
        (omega arith))

  -- What stashing leaves.
  pub record Stashed (nstashed : ℕ) (s : Store H M) (n : ℕ) (s' : Store H M) : Type 0 where
    pub idle : IsIdle heap rtree arena s'
    pub pages : n + s'.pool.npages ≡ nstashed + s.pool.npages
    pub stop : (npages_decay_max ≤ n) ⊎ (s'.pool.npages ≤ npages_limit)

  -- The loop ends, with some pages, a list of extents and a store as `Stashed` says.
  abbrev Stashes : (fuel nstashed : ℕ) → List ℕ → Store H M → Type 0
  Stashes fuel nstashed stash s =
      (n : ℕ) × (stash' : List ℕ) × (s' : Store H M) × (arena_stash_decayed heap rtree arena fuel
          new npages_limit npages_decay_max nstashed stash s
        ≡ some (n, stash', s'))
      × Stashed nstashed s n s'

  stash_more :
      (fuel nstashed : ℕ) (stash : List ℕ) (s : Store H M)
      → nstashed + s.pool.npages ≤ 98304
      → length s.pool.lru < suc fuel
      → s.pool.delay_coalesce ≡ true
      → ltb nstashed npages_decay_max ≡ true
      → ((nstashed' : ℕ) (stash' : List ℕ) (t : Store H M)
          → t.pool.delay_coalesce ≡ true
          → IsIdle heap rtree arena t
          → nstashed' + t.pool.npages ≤ 98304
          → length t.pool.lru < fuel
          → Stashes fuel nstashed' stash' t)
      → (r : Eviction (Store H M))
      → extents_evict heap rtree arena (new fuel).0 (new fuel).1 npages_limit s ≡ r
      → Late heap rtree arena npages_limit s r
      → Stashes (suc fuel) nstashed stash s
  unfolding arena_stash_decayed
  stash_more fuel nstashed stash s few h late more rest (nothing s') e l = (
    nstashed,
    stash,
    s',
    ground (arith, e, more),
    record { idle = l.idle; pages = ap (λ p. nstashed + p) l.pages; stop = inr l.limit },
  )
  stash_more fuel nstashed stash s few h late more rest (evicted x s') e l =
      let sum : (nstashed + (s'.extents x).size / page_size) % 2 ^ 64
          ≡ nstashed + (s'.extents x).size / page_size =
        omega (arith, l.pages) in
      let (n, stash', t, run, q) =
        rest ((nstashed + (s'.extents x).size / page_size) % 2 ^ 64) (stash ++ x ∷ []) s'
          (l.policy ∙ late) (IsWorking-IsIdle heap rtree arena x s' l.working)
          (omega (arith, sum, l.pages)) (omega (arith, l.fewer)) in
      (
        n,
        stash',
        t,
        ground (arith, e, more, run),
        record { idle = q.idle; pages = omega (arith, q.pages, sum, l.pages); stop = q.stop },
      )
  stash_more fuel nstashed stash s few h late more rest aborted e l = absurd l
  stash_more fuel nstashed stash s few h late more rest unfinished e l = absurd l

  stash_enough :
      (fuel nstashed : ℕ) (stash : List ℕ) (s : Store H M)
      → IsIdle heap rtree arena s
      → ltb nstashed npages_decay_max ≡ false
      → Stashes (suc fuel) nstashed stash s
  unfolding arena_stash_decayed
  stash_enough fuel nstashed stash s i enough = (
    nstashed,
    stash,
    s,
    ground (arith, enough),
    record { idle = i; pages = refl; stop = inl (ground arith) },
  )

  arena_stash_decayed-Stashes :
      (fuel nstashed : ℕ) (stash : List ℕ) (s : Store H M)
      → s.pool.delay_coalesce ≡ true
      → IsIdle heap rtree arena s
      → nstashed + s.pool.npages ≤ 98304
      → length s.pool.lru < fuel
      → Stashes fuel nstashed stash s
  arena_stash_decayed-Stashes zero nstashed stash s late i few h = absurd (omega arith)
  arena_stash_decayed-Stashes (suc fuel) nstashed stash s late i few h =
      elim (Bool-cases (ltb nstashed npages_decay_max)) [
        | inl more ↦
            stash_more fuel nstashed stash s few h late more (arena_stash_decayed-Stashes fuel)
              (extents_evict heap rtree arena (new fuel).0 (new fuel).1 npages_limit s) refl
              (extents_evict-Late fuel s late i (omega arith))
        | inr enough ↦ stash_enough fuel nstashed stash s i enough
      ]

  -- A pool of at most 98304 pages that coalesces late and is ready, with as many pages as the
  -- limit and the number asked for together: stashing ends within a round more than it has
  -- extents. Then the pool is ready again and has no more pages than the limit, and the pages that
  -- are gone from it were counted.
  pub arena_stash_decayed_limit :
      (fuel : ℕ) (s : Store H M)
      → s.pool.delay_coalesce ≡ true
      → IsIdle heap rtree arena s
      → s.pool.npages ≤ 98304
      → length s.pool.lru < fuel
      → s.pool.npages ≡ npages_limit + npages_decay_max
      → (n : ℕ) × (stash : List ℕ) × (s' : Store H M) × (arena_stash_decayed heap rtree arena fuel
            new npages_limit npages_decay_max 0 [] s
          ≡ some (n, stash, s'))
        × IsIdle heap rtree arena s'
        × (s'.pool.npages ≤ npages_limit)
        × (n + s'.pool.npages ≡ s.pool.npages)
  arena_stash_decayed_limit fuel s late i few h total =
      let (n, stash, s', run, q) = arena_stash_decayed-Stashes fuel 0 [] s late i (omega arith) h in
      (n, stash, s', run, q.idle, low n s' q, omega (arith, q.pages))
    where
      low : (n : ℕ) (s' : Store H M) → Stashed 0 s n s' → s'.pool.npages ≤ npages_limit
      low n s' q = elim q.stop [ inl enough ↦ omega (arith, q.pages, total) | inr limit ↦ limit ]
