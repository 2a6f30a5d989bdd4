-- ===== src/Extents/Coalesce/Loop.antt =====
-- The loop of `extent_try_coalesce_impl` ends, keeps every free byte, and leaves nothing to merge.
use mathlib.Core.Logic.{inl, inr}
use pmalloc.Prelude.{
  ℕ, zero, suc, ◌+◌, ◌/◌, ◌≤◌, ◌<◌, ◌≡◌, refl, sym, ◌∙◌, arith, Bool, true, false, ◌||◌,
  Option-cases, none, some, List, [], ◌∷◌, length, if◌then◌else◌,
}
use pmalloc.Log.{listed}
use pmalloc.Extents.{
  Store, Rtree, IsRtree, PairingHeap, IsPairingHeap, extent_list_remove, pool_remove,
}
use pmalloc.Extents.Coalesce.{
  Round, early, again, settled, Coalesced, merge_next, merge_prev, coalesce_back, coalesce_round,
  extent_try_coalesce_impl,
}
use pmalloc.Extents.Region.{in_extent, covers}
use pmalloc.Extents.Coalesce.Merge.{
  IsWorking, Absorbed, Absorbed-IsWorking, Absorbed-covers, Absorbed-pages,
}
use pmalloc.SizeClass.{page_size}
use pmalloc.Extents.Pool.{sum_pages}
use pmalloc.Extents.Coalesce.Sides.{merge_next-Absorbed, merge_prev-Absorbed}

length-remove :
    (y : ℕ) (xs : List ℕ) → listed y xs ≡ true → length (extent_list_remove y xs) + 1 ≡ length xs
unfolding listed extent_list_remove
length-remove y [] h = absurd (cc)
length-remove y (x ∷ xs) h = ground (arith, length-remove y xs)

module _ {H M : Type 0} (heap : PairingHeap H) (rtree : Rtree M) (arena : ℕ) where
  -- From working on `x` in `s` to working on `y` in `s'`: what the loop relies on holds, the pool
  -- has at least `n` extents fewer, and the bytes and the number of pages of the extent and the pool are the same.
  pub record Progress (n x : ℕ) (s : Store H M) (y : ℕ) (s' : Store H M) : Type 0 where
    pub working : IsWorking heap rtree arena y s'
    pub fewer : length s'.pool.lru + n ≤ length s.pool.lru
    pub policy : s'.pool.delay_coalesce ≡ s.pool.delay_coalesce
    pub state : s'.pool.state ≡ s.pool.state
    pub pages :
        sum_pages s'.extents s'.pool.lru + (s'.extents y).size / page_size
        ≡ sum_pages s.extents s.pool.lru + (s.extents x).size / page_size
    pub bytes :
        (b : ℕ)
        → (in_extent (s'.extents y) b || covers s'.extents s'.pool.lru b)
          ≡ (in_extent (s.extents x) b || covers s.extents s.pool.lru b)

  pub Progress-trans :
      (m n x y z : ℕ) (s t u : Store H M)
      → Progress m x s y t
      → Progress n y t z u
      → Progress (m + n) x s z u
  Progress-trans m n x y z s t u p q = record {
    working = q.working;
    fewer = omega (arith, p.fewer, q.fewer);
    policy = q.policy ∙ p.policy;
    state = q.state ∙ p.state;
    pages = q.pages ∙ p.pages;
    bytes = λ b. q.bytes b ∙ p.bytes b;
  }

  module _ (law : IsPairingHeap heap) (tree_law : IsRtree rtree) (inactive_only : Bool) where
    absorbed :
        (x y a : ℕ) (s s' : Store H M)
        → IsWorking heap rtree arena x s
        → Absorbed heap rtree arena x y a s s'
        → Progress 1 x s a s'
    absorbed x y a s s' w m = record {
      working = Absorbed-IsWorking heap rtree arena law x y a s s' w m;
      fewer =
          rw m.pool_lem
            (unfold pool_remove in omega (arith, length-remove y s.pool.lru m.y_in_pool));
      policy = rw m.pool_lem (unfold pool_remove in refl);
      state = rw m.pool_lem (unfold pool_remove in refl);
      pages = Absorbed-pages heap rtree arena law x y a s s' w m;
      bytes = Absorbed-covers heap rtree arena law x y a s s' w m;
    }

    -- No neighbour can be merged.
    abbrev pub IsSettled : ℕ → Store H M → Type 0
    IsSettled y s =
        (merge_next heap rtree arena inactive_only y s ≡ none)
        × (merge_prev heap rtree arena inactive_only y s ≡ none)

    abbrev RoundFrom : ℕ → Store H M → Round (Store H M) → Type 0
    RoundFrom x s (early y s') = Progress 1 x s y s' × (s.pool.delay_coalesce ≡ true)
    RoundFrom x s (again y s') = Progress 1 x s y s'
    RoundFrom x s (settled y s') = Progress 0 x s y s' × IsSettled y s'

    here : (x : ℕ) (s : Store H M) → IsWorking heap rtree arena x s → Progress 0 x s x s
    here x s w = record {
      working = w;
      fewer = omega arith;
      policy = refl;
      state = refl;
      pages = refl;
      bytes = λ b. refl;
    }

    on_policy :
        (x : ℕ) (s : Store H M) (d : Bool) (r t : Round (Store H M))
        → (d ≡ true → RoundFrom x s r)
        → (d ≡ false → RoundFrom x s t)
        → RoundFrom x s (if d then r else t)
    on_policy x s true r t p q = p refl
    on_policy x s false r t p q = q refl

    some_fewer : (x y : ℕ) (s t : Store H M) → Progress 1 x s y t → Progress 0 x s y t
    some_fewer x y s t p = record {
      working = p.working;
      fewer = omega (arith, p.fewer);
      policy = p.policy;
      state = p.state;
      pages = p.pages;
      bytes = p.bytes;
    }

    weaken : (x y : ℕ) (s t : Store H M) → Progress 2 x s y t → Progress 1 x s y t
    weaken x y s t p = record {
      working = p.working;
      fewer = omega (arith, p.fewer);
      policy = p.policy;
      state = p.state;
      pages = p.pages;
      bytes = p.bytes;
    }

    prev-Progress :
        (x y : ℕ) (s t : Store H M)
        → IsWorking heap rtree arena x s
        → merge_prev heap rtree arena inactive_only x s ≡ some (y, t)
        → Progress 1 x s y t
    prev-Progress x y s t w e =
        absorbed x y y s t w
          (merge_prev-Absorbed heap rtree tree_law arena inactive_only x s w y t e)

    -- The second half of a round after a merge in the first half.
    back_merged :
        (x y : ℕ) (s t : Store H M)
        → Progress 1 x s y t
        → RoundFrom x s (coalesce_back heap rtree arena inactive_only true y t)
    unfolding coalesce_back
    back_merged x y s t p = elim (Option-cases (merge_prev heap rtree arena inactive_only y t)) [
      | inl e ↦ rw (e, coalesce_back) p
      | inr ((z, u), e) ↦
          let q =
            weaken x z s u (Progress-trans 1 1 x y z s t u p (prev-Progress y z t u p.working e)) in
          rw (e, coalesce_back)
            (on_policy x s t.pool.delay_coalesce (early z u) (again z u)
              (λ d. (q, sym p.policy ∙ d)) (λ d. q))
    ]

    -- And without one.
    back_alone :
        (x : ℕ) (s : Store H M)
        → IsWorking heap rtree arena x s
        → merge_next heap rtree arena inactive_only x s ≡ none
        → RoundFrom x s (coalesce_back heap rtree arena inactive_only false x s)
    unfolding coalesce_back
    back_alone x s w ne = elim (Option-cases (merge_prev heap rtree arena inactive_only x s)) [
      | inl e ↦ rw (e, coalesce_back) (here x s w, (ne, e))
      | inr ((z, u), e) ↦
          let q = prev-Progress x z s u w e in
          rw (e, coalesce_back)
            (on_policy x s s.pool.delay_coalesce (early z u) (again z u) (λ d. (q, d)) (λ d. q))
    ]

    coalesce_round-RoundFrom :
        (x : ℕ) (s : Store H M)
        → IsWorking heap rtree arena x s
        → RoundFrom x s (coalesce_round heap rtree arena inactive_only x s)
    unfolding coalesce_round
    coalesce_round-RoundFrom x s w =
        elim (Option-cases (merge_next heap rtree arena inactive_only x s)) [
          | inl e ↦ rw (e, coalesce_round) (back_alone x s w e)
          | inr (t, e) ↦
              let (y, m) = merge_next-Absorbed heap rtree tree_law arena inactive_only x s w t e in
              let p = absorbed x y x s t w m in
              rw (e, coalesce_round)
                (on_policy x s s.pool.delay_coalesce (early x t)
                  (coalesce_back heap rtree arena inactive_only true x t) (λ d. (p, d))
                  (λ d. back_merged x x s t p))
        ]

    -- How the loop ends.
    pub record Ends (x : ℕ) (s : Store H M) (r : Coalesced (Store H M)) : Type 0 where
      pub progress : Progress 0 x s r.extent r.store
      pub one_merge : r.coalesced ≡ true → s.pool.delay_coalesce ≡ true
      pub one_fewer : r.coalesced ≡ true → length r.store.pool.lru + 1 ≤ length s.pool.lru
      pub nothing_left : r.coalesced ≡ false → IsSettled r.extent r.store

    after_round :
        (fuel x : ℕ) (s : Store H M)
        → length s.pool.lru < suc fuel
        → ((y : ℕ) (t : Store H M)
            → IsWorking heap rtree arena y t
            → length t.pool.lru < fuel
            → (r : Coalesced (Store H M)) × (extent_try_coalesce_impl heap rtree arena inactive_only
                  fuel y t
                ≡ some r)
              × Ends y t r)
        → (round : Round (Store H M)) → coalesce_round heap rtree arena inactive_only x s ≡ round
        → RoundFrom x s round
        → (r : Coalesced (Store H M)) × (extent_try_coalesce_impl heap rtree arena inactive_only
              (suc fuel)
              x
              s
            ≡ some r)
          × Ends x s r
    unfolding extent_try_coalesce_impl
    after_round fuel x s h rest (early y t) e (p, d) = (
      record { coalesced = true; extent = y; store = t },
      rw (e, extent_try_coalesce_impl) refl,
      record {
        progress = Progress-trans 0 0 x y y s t t (some_fewer x y s t p) (here y t p.working);
        one_merge = λ _. d;
        one_fewer = λ _. p.fewer;
        nothing_left = λ c. absurd (cc);
      },
    )
    after_round fuel x s h rest (again y t) e p =
        let (r, run, done) = rest y t p.working (omega (arith, p.fewer)) in
        (
          r,
          rw (e, extent_try_coalesce_impl) run,
          record {
            progress =
                Progress-trans 0 0 x y r.extent s t r.store (some_fewer x y s t p) done.progress;
            one_merge = λ c. sym p.policy ∙ done.one_merge c;
            one_fewer = λ c. omega (arith, p.fewer, done.one_fewer c);
            nothing_left = done.nothing_left;
          },
        )
    after_round fuel x s h rest (settled y t) e (p, q) = (
      record { coalesced = false; extent = y; store = t },
      rw (e, extent_try_coalesce_impl) refl,
      record {
        progress = p;
        one_merge = λ c. absurd (cc);
        one_fewer = λ c. absurd (cc);
        nothing_left = λ _. q;
      },
    )

    -- While what it relies on holds, the loop ends within a round more than the pool has extents.
    -- Then that still holds, and the extent that it returns and the pool have together the bytes
    -- and the pages that the given extent and the pool had. It reports a merge only when the pool
    -- coalesces late, and then the pool has an extent fewer; otherwise no neighbour of the extent
    -- can be merged any more.
    pub extent_try_coalesce_impl-Ends :
        (fuel x : ℕ) (s : Store H M)
        → IsWorking heap rtree arena x s
        → length s.pool.lru < fuel
        → (r : Coalesced (Store H M)) × (extent_try_coalesce_impl heap rtree arena inactive_only
              fuel x s
            ≡ some r)
          × Ends x s r
    extent_try_coalesce_impl-Ends zero x s w h = absurd (omega arith)
    extent_try_coalesce_impl-Ends (suc fuel) x s w h =
        after_round fuel x s h (extent_try_coalesce_impl-Ends fuel)
          (coalesce_round heap rtree arena inactive_only x s) refl (coalesce_round-RoundFrom x s w)
