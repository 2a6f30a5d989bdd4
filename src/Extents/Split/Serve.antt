-- ===== src/Extents/Split/Serve.antt =====
-- `extent_recycle` as its caller sees it.
use mathlib.Core.Logic.{inl, inr}
use pmalloc.Prelude.{
  ℕ, ◌+◌, ◌*◌, ◌^◌, ◌≤◌, ◌<◌, ◌≡◌, refl, ◌∙◌, arith, Bool, true, false, ◌||◌, ◌==◌, Bool-cases,
  Option, none, some,
}
use pmalloc.Cache.{update}
use pmalloc.SizeClass.{page_size}
use pmalloc.Log.{listed}
use pmalloc.Extents.{
  Store, Rtree, PairingHeap, IsPairingHeap, extent_state_active, extent_activate_locked,
}
use pmalloc.Extents.Pool.{IsPool, IsPool-same}
use pmalloc.Extents.Region.{in_extent, covers, covers-same}
use pmalloc.Extents.Activate.{extent_activate_locked-TakenOut}
use pmalloc.Extents.Fit.{extents_fit_locked}
use pmalloc.Extents.Fit.Lowest.{IsBestFit}
use pmalloc.Extents.Fit.Found.{extents_fit_locked-IsBestFit}
use pmalloc.Extents.Split.{
  finish_slab, extent_recycle_split, extent_recycle, Recycled, no_fit, given, undefined,
}
use pmalloc.Extents.Split.Recycle.{IsTaken, extent_recycle_split-Piece}

module _ {H M : Type 0} (heap : PairingHeap H) (rtree : Rtree M) (law : IsPairingHeap heap)
    (arena npages szind : ℕ) (slab : Bool) (s : Store H M) where
  -- `x` is handed out, and `s'` is left: `x` was in the pool, of the smallest class that fits;
  -- it is now active, has exactly the pages that were asked for, and is in the pool no more; `x`
  -- and the pool have together the bytes and the pages that the pool had.
  pub record Serves (x : ℕ) (s' : Store H M) : Type 0 where
    pub best : IsBestFit s.extents s.pool npages (some x)
    pub pool : IsPool heap s'.extents s'.pool
    pub not_in_pool : listed x s'.pool.lru ≡ false
    pub e_addr : (s'.extents x).e_addr ≡ (s.extents x).e_addr
    pub size : (s'.extents x).size ≡ npages * page_size
    pub szind_lem : (s'.extents x).szind ≡ szind
    pub state : (s'.extents x).state ≡ extent_state_active
    pub pages : s'.pool.npages + npages ≡ s.pool.npages
    pub bytes :
        (b : ℕ)
        → (in_extent (s'.extents x) b || covers s'.extents s'.pool.lru b)
          ≡ covers s.extents s.pool.lru b

  abbrev pub Outcome : Recycled (Store H M) → Type 0
  Outcome no_fit = IsBestFit s.extents s.pool npages none
  Outcome (given x s') = Serves x s'
  Outcome undefined = ⊥

  other_than :
      (x z : ℕ) (t : Store H M)
      → listed x t.pool.lru ≡ false
      → listed z t.pool.lru ≡ true
      → (x == z) ≡ false
  other_than x z t p l = elim (Bool-cases (x == z)) [
    | inl e ↦
        let e' : x ≡ z = ground arith in
        let l' : listed x t.pool.lru ≡ true = rw e' l in absurd (ground (arith, p))
    | inr e ↦ e
  ]

  other_trail :
      (x trail : ℕ)
      → listed x s.pool.lru ≡ true
      → listed trail s.pool.lru ≡ false
      → (x == trail) ≡ false
  other_trail x trail l p = ground (arith, other_than trail x s p l)

  finish-Serves :
      (b : Bool) (x vslab : ℕ) (t : Store H M)
      → Serves x t
      → Serves x (finish_slab heap rtree x szind vslab b t)
  unfolding finish_slab
  finish-Serves false x vslab t v = v
  finish-Serves true x vslab t v =
      let ext' = update t.extents x (record (t.extents x) { slab = true }) in
      let self : ext' x ≡ record (t.extents x) { slab = true } = ground arith in
      let same = λ (z : ℕ) (l : listed z t.pool.lru ≡ true).
        let same_z : ext' z ≡ t.extents z = rw (other_than x z t v.not_in_pool l) refl in same_z in
      record {
        best = v.best;
        pool = IsPool-same heap law t.extents ext' t.pool same v.pool;
        not_in_pool = v.not_in_pool;
        e_addr = rw self v.e_addr;
        size = rw self v.size;
        szind_lem = rw self v.szind_lem;
        state = rw self v.state;
        pages = v.pages;
        bytes = λ b. rw (self, covers-same t.extents ext' t.pool.lru b same) (v.bytes b);
      }

  -- The pieces put together, once the search has its answer.
  taken :
      (x trail vslab : ℕ)
      → ((m : M) (a : ℕ) → (rtree.grow m a).1 ≡ true)
      → IsPool heap s.extents s.pool
      → (s.extents x).e_addr + (s.extents x).size < 2 ^ 63
      → s.pool.npages < 2 ^ 63
      → listed trail s.pool.lru ≡ false
      → IsBestFit s.extents s.pool npages (some x)
      → (s' : Store H M) × (extent_recycle_split heap rtree
            (some trail)
            arena
            x
            npages
            szind
            vslab
            slab
            (extent_activate_locked heap x s)
          ≡ given x s')
        × Serves x s'
  taken x trail vslab grows inv end room unused best =
      let present : listed x s.pool.lru ≡ true = ground arith in
      let free = inv.free x present in
      let out = extent_activate_locked-TakenOut heap law x s inv present (omega arith) in
      let t = extent_activate_locked heap x s in
      let pages = out.pages in
      let is_taken : IsTaken heap rtree law arena npages szind slab x t = record {
        pool = out.pool;
        not_in_pool = ground (arith, out.listed_lem x);
        end = rw out.self end;
        whole = rw out.self free.whole;
        enough = rw out.self best.1;
        few_pages = rw out.self free.few_pages;
        counter = rw out.self (omega arith);
      } in
      let apart : (x == trail) ≡ false = other_trail x trail present unused in
      let (s', run, p) =
        extent_recycle_split-Piece heap rtree law arena npages szind slab x t is_taken grows trail
          vslab apart (ground (arith, out.listed_lem trail)) in
      let pages' = p.pages in
      (
        s',
        run,
        record {
          best = best;
          pool = p.pool;
          not_in_pool = p.not_in_pool;
          e_addr = p.e_addr ∙ rw out.self refl;
          size = p.size;
          szind_lem = p.szind_lem;
          state = p.state ∙ rw out.self refl;
          pages = let size = rw out.self at pages' in omega arith;
          bytes = λ b. p.bytes b ∙ rw out.self (out.bytes b);
        },
      )

  found :
      (trail vslab : ℕ)
      → ((m : M) (a : ℕ) → (rtree.grow m a).1 ≡ true)
      → IsPool heap s.extents s.pool
      → ((y : ℕ) → listed y s.pool.lru ≡ true → (s.extents y).e_addr + (s.extents y).size < 2 ^ 63)
      → s.pool.npages < 2 ^ 63
      → listed trail s.pool.lru ≡ false
      → (r : Option ℕ) → extents_fit_locked heap s.extents s.pool npages ≡ r
      → IsBestFit s.extents s.pool npages r
      → Outcome (extent_recycle heap rtree (some trail) arena npages szind vslab slab s)
  unfolding extent_recycle
  found trail vslab grows inv ends room unused none run best = rw (run, extent_recycle) best
  found trail vslab grows inv ends room unused (some x) run best =
      let (s', split, v) = taken x trail vslab grows inv (ends x (ground arith)) room unused best in
      rw (run, split, extent_recycle) (finish-Serves slab x vslab s' v)

  -- On a well-formed pool below 2 ^ 63, for a request of at most 98304 pages, and with memory for
  -- the trail and the tree, extent_recycle has a defined result: NULL when no extent of the pool
  -- fits; else one of the smallest class that fits, at the lowest address in that class, active
  -- and cut to the pages of the request, while the rest of it is in the pool, which stays well-
  -- formed, and no byte or page is lost.
  pub extent_recycle-Outcome :
      (trail vslab : ℕ)
      → ((m : M) (a : ℕ) → (rtree.grow m a).1 ≡ true)
      → IsPool heap s.extents s.pool
      → ((y : ℕ) → listed y s.pool.lru ≡ true → (s.extents y).e_addr + (s.extents y).size < 2 ^ 63)
      → s.pool.npages < 2 ^ 63
      → listed trail s.pool.lru ≡ false
      → npages ≤ 98304
      → Outcome (extent_recycle heap rtree (some trail) arena npages szind vslab slab s)
  extent_recycle-Outcome trail vslab grows inv ends room unused few =
      found trail vslab grows inv ends room unused (extents_fit_locked heap s.extents s.pool npages)
        refl (extents_fit_locked-IsBestFit heap law s.extents s.pool inv npages few)
