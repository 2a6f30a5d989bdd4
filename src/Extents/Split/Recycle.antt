-- ===== src/Extents/Split/Recycle.antt =====
-- What `extent_recycle` gives: exactly the pages that were asked for, and the rest of the extent
-- goes back to the pool.
use mathlib.Core.Logic.{inl, inr}
use pmalloc.Prelude.{
  ℕ, ◌+◌, ◌-◌, ◌*◌, ◌/◌, ◌%◌, ◌^◌, ◌≤◌, ◌<◌, ◌≡◌, refl, ◌∙◌, arith, Bool, true, false, ◌||◌, ◌==◌,
  Bool-cases, ==_self, some,
}
use pmalloc.Cache.{update}
use pmalloc.SizeClass.{page_size}
use pmalloc.Log.{listed}
use pmalloc.Extents.{
  Extent, Store, Rtree, PairingHeap, IsPairingHeap, max_psz_idx, extent_deactivate_locked,
  extent_last_get,
}
use pmalloc.Extents.Pool.{IsPool, IsPool-same}
use pmalloc.Extents.Region.{in_extent, covers, covers-same, Joins, Joins-in_extent}
use pmalloc.Extents.Deactivate.{PutIn, extent_deactivate_locked-PutIn}
use pmalloc.Extents.Split.{
  Part, extent_init, extent_split_impl, extent_rtree_leaf_elms_lookup, whole_extent, split_interior,
  extent_recycle_split, given,
}

module _ {M : Type 0} (rtree : Rtree M) (grows : (m : M) (a : ℕ) → (rtree.grow m a).1 ≡ true) where
  lookup-grows : (m : M) (e : Extent) → (extent_rtree_leaf_elms_lookup rtree m e).1 ≡ true
  unfolding extent_rtree_leaf_elms_lookup
  lookup-grows m e = rw (grows m e.e_addr) (grows (rtree.grow m e.e_addr).0 (extent_last_get e))

  -- `s'` is `s` with `x` cut to the size of `a`; `trail` is the rest.
  record Cut {H : Type 0} (arena x trail : ℕ) (a b : Part) (s s' : Store H M) : Type 0 where
    pool : s'.pool ≡ s.pool
    lead : s'.extents x ≡ record (s.extents x) { size = a.size; szind = a.szind }
    rest : s'.extents trail ≡ record {
      e_addr = ((s.extents x).e_addr + a.size) % 2 ^ 64;
      size = b.size;
      szind = b.szind;
      state = (s.extents x).state;
      arena = arena;
      slab = b.slab;
    }
    others : (z : ℕ) → (x == z) ≡ false → (trail == z) ≡ false → s'.extents z ≡ s.extents z

  extent_split_impl-Cut :
      {H : Type 0} (arena x trail : ℕ) (a b : Part) (s : Store H M)
      → (x == trail) ≡ false
      → ((extent_split_impl rtree (some trail) arena x a b s).0 ≡ some trail)
        × Cut arena x trail a b s (extent_split_impl rtree (some trail) arena x a b s).1
  unfolding extent_split_impl
  extent_split_impl-Cut arena x trail a b s ne =
      let e = s.extents x in
      let lead_e = extent_init arena e.e_addr a.size a.slab a.szind e.state in
      let trail_e =
        extent_init arena ((e.e_addr + a.size) % 2 ^ 64) b.size b.slab b.szind e.state in
      let m = (extent_rtree_leaf_elms_lookup rtree s.tree lead_e).0 in
      rw (lookup-grows s.tree lead_e, lookup-grows m trail_e)
        (
          refl,
          record {
            pool = refl;
            lead = ground arith;
            rest = unfold extent_init in rw (ne, ==_self trail) refl;
            others = λ z p q. rw (p, q) refl;
          },
        )

module _ {H M : Type 0} (heap : PairingHeap H) (rtree : Rtree M) (law : IsPairingHeap heap)
    (arena npages szind : ℕ) (slab : Bool) where
  -- `s'` is `s` with `x` cut to `npages` pages, and the rest of it in the pool.
  pub record Piece (x : ℕ) (s s' : Store H M) : Type 0 where
    pub pool : IsPool heap s'.extents s'.pool
    pub not_in_pool : listed x s'.pool.lru ≡ false
    pub e_addr : (s'.extents x).e_addr ≡ (s.extents x).e_addr
    pub size : (s'.extents x).size ≡ npages * page_size
    pub szind_lem : (s'.extents x).szind ≡ szind
    pub state : (s'.extents x).state ≡ (s.extents x).state
    pub pages : s'.pool.npages + npages ≡ s.pool.npages + (s.extents x).size / page_size
    pub bytes :
        (b : ℕ)
        → (in_extent (s'.extents x) b || covers s'.extents s'.pool.lru b)
          ≡ (in_extent (s.extents x) b || covers s.extents s.pool.lru b)

  -- An extent that was just taken out of the pool, with at least `npages` pages.
  pub record IsTaken (x : ℕ) (s : Store H M) : Type 0 where
    pub pool : IsPool heap s.extents s.pool
    pub not_in_pool : listed x s.pool.lru ≡ false
    pub end : (s.extents x).e_addr + (s.extents x).size < 2 ^ 63
    pub whole : (s.extents x).size % page_size ≡ 0
    pub enough : npages ≤ (s.extents x).size / page_size
    pub few_pages : (s.extents x).size / page_size ≤ 98304
    pub counter : s.pool.npages + (s.extents x).size / page_size < 2 ^ 64

  module _ (x : ℕ) (s : Store H M) (t : IsTaken x s) where
    same_of_listed :
        (ext' : ℕ → Extent)
        → ((z : ℕ) → (x == z) ≡ false → ext' z ≡ s.extents z)
        → (z : ℕ) → listed z s.pool.lru ≡ true
        → ext' z ≡ s.extents z
    same_of_listed ext' others z l = others z (elim (Bool-cases (x == z)) [
      | inl e ↦
          let e' : x ≡ z = ground arith in
          let l' : listed x s.pool.lru ≡ true = rw e' l in absurd (ground (arith, t.not_in_pool))
      | inr e ↦ e
    ])

    whole-Piece :
        (s.extents x).size ≡ npages * page_size → Piece x s (whole_extent heap rtree x szind slab s)
    unfolding whole_extent
    whole-Piece exact =
        let ext' = update s.extents x (record (s.extents x) { szind = szind }) in
        let self : ext' x ≡ record (s.extents x) { szind = szind } = ground arith in
        let same = same_of_listed ext' (λ z ne. rw ne refl) in
        record {
          pool = IsPool-same heap law s.extents ext' s.pool same t.pool;
          not_in_pool = t.not_in_pool;
          e_addr = rw self refl;
          size = rw self exact;
          szind_lem = rw self refl;
          state = rw self refl;
          pages = omega (arith, exact);
          bytes = λ b. rw (self, covers-same s.extents ext' s.pool.lru b same) refl;
        }

    -- The two parts that `extent_split_interior` makes.
    abbrev lead_part : ℕ → Part
    lead_part vslab = record {
      size = npages * page_size;
      szind = szind;
      slab = slab;
      vslab = vslab;
    }

    abbrev trail_part : Part
    trail_part = record {
      size = (s.extents x).size - npages * page_size;
      szind = max_psz_idx;
      slab = false;
      vslab = 0;
    }

    parted-Piece :
        (grows : (m : M) (a : ℕ) → (rtree.grow m a).1 ≡ true) (trail vslab : ℕ) (s' : Store H M)
        → Cut rtree grows arena x trail (lead_part vslab) trail_part s s'
        → (x == trail) ≡ false
        → listed trail s.pool.lru ≡ false
        → npages < (s.extents x).size / page_size
        → Piece x s (extent_deactivate_locked heap trail s')
    parted-Piece grows trail vslab s' c apart unused more = record {
      pool = put.pool;
      not_in_pool = ground (arith, put.listed_lem x, t.not_in_pool, c.pool);
      e_addr = rw lead refl;
      size = rw lead refl;
      szind_lem = rw lead refl;
      state = rw lead refl;
      pages =
          let sum = put.pages in
          let size : (s'.extents trail).size ≡ (s.extents x).size - npages * page_size =
            rw c.rest refl in
          let before : s'.pool.npages ≡ s.pool.npages = rw c.pool refl in
          let whole = t.whole in omega arith;
      bytes = λ b.
          let joined = Joins-in_extent (s'.extents x) (s'.extents trail) (s.extents x) b joins in
          let lead_same : in_extent (s''.extents x) b ≡ in_extent (s'.extents x) b =
            rw (put.others x trail_x) refl in
          rw (lead_same, put.bytes b, joined, covers_s' b) (ground arith);
    }
      where
        s'' : Store H M
        s'' = extent_deactivate_locked heap trail s'

        same : (z : ℕ) → listed z s.pool.lru ≡ true → s'.extents z ≡ s.extents z
        same z l =
            c.others z
              (elim (Bool-cases (x == z)) [
                | inl e ↦
                    let e' : x ≡ z = ground arith in
                    let l' : listed x s.pool.lru ≡ true = rw e' l in
                    absurd (ground (arith, t.not_in_pool))
                | inr e ↦ e
              ])
              (elim (Bool-cases (trail == z)) [
                | inl e ↦
                    let e' : trail ≡ z = ground arith in
                    let l' : listed trail s.pool.lru ≡ true = rw e' l in
                    absurd (ground (arith, unused))
                | inr e ↦ e
              ])

        trail_x : (trail == x) ≡ false
        trail_x = ground (arith, apart)

        covers_s' : (b : ℕ) → covers s'.extents s'.pool.lru b ≡ covers s.extents s.pool.lru b
        covers_s' b = rw c.pool (covers-same s.extents s'.extents s.pool.lru b same)

        put : PutIn heap trail s' s''
        put =
            extent_deactivate_locked-PutIn heap law trail s'
              (rw c.pool (IsPool-same heap law s.extents s'.extents s.pool same t.pool))
              (rw c.pool unused) (rw c.rest (omega (arith, t.whole)))
              (rw c.rest (omega (arith, t.whole, more)))
              (rw c.rest (omega (arith, t.whole, t.few_pages)))
              (rw (c.rest, c.pool) (omega (arith, t.whole, t.counter)))

        lead : s''.extents x ≡ record (s.extents x) { size = npages * page_size; szind = szind }
        lead = put.others x trail_x ∙ c.lead

        joins : Joins (s'.extents x) (s'.extents trail) (s.extents x)
        joins = record {
          meet = rw (c.lead, c.rest) (omega (arith, t.end, t.enough));
          start = rw c.lead refl;
          length = rw (c.lead, c.rest) (omega (arith, t.enough));
        }

    split_interior-Piece :
        (grows : (m : M) (a : ℕ) → (rtree.grow m a).1 ≡ true) (trail vslab : ℕ)
        → (x == trail) ≡ false
        → listed trail s.pool.lru ≡ false
        → (s' : Store H M) × (split_interior heap rtree
              (some trail)
              arena
              x
              (npages * page_size)
              ((s.extents x).size - npages * page_size)
              szind
              vslab
              slab
              s
            ≡ given x s')
          × Piece x s s'
    unfolding split_interior
    split_interior-Piece grows trail vslab apart unused =
        elim (Bool-cases ((s.extents x).size - npages * page_size == 0)) [
          | inl exact ↦ (
            whole_extent heap rtree x szind slab s,
            rw (exact, split_interior) refl,
            whole-Piece (ground (arith, t.enough, t.whole)),
          )
          | inr more ↦
              let (found, c) =
                extent_split_impl-Cut rtree grows arena x trail (lead_part vslab) trail_part s
                  apart in
              let s' =
                (extent_split_impl rtree (some trail) arena x (lead_part vslab) trail_part s).1 in
              (
                extent_deactivate_locked heap trail s',
                rw (more, found, split_interior) refl,
                parted-Piece grows trail vslab s' c apart unused
                    (ground (arith, t.enough, t.whole)),
              )
        ]

    -- `extent_recycle_split` on such an extent, with the memory that it needs.
    pub extent_recycle_split-Piece :
        (grows : (m : M) (a : ℕ) → (rtree.grow m a).1 ≡ true) (trail vslab : ℕ)
        → (x == trail) ≡ false
        → listed trail s.pool.lru ≡ false
        → (s' : Store H M) × (extent_recycle_split heap rtree
              (some trail)
              arena
              x
              npages
              szind
              vslab
              slab
              s
            ≡ given x s')
          × Piece x s s'
    unfolding extent_recycle_split
    extent_recycle_split-Piece grows trail vslab apart unused =
        let psize : npages * page_size % 2 ^ 64 ≡ npages * page_size =
          omega (arith, t.enough, t.few_pages) in
        let trailsize : ((s.extents x).size + 2 ^ 64 - npages * page_size) % 2 ^ 64
            ≡ (s.extents x).size - npages * page_size =
          omega (arith, t.enough, t.few_pages, t.whole) in
        rw (psize, trailsize) (split_interior-Piece grows trail vslab apart unused)
