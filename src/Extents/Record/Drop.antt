-- ===== src/Extents/Record/Drop.antt =====
-- The start of `extent_record`: dropping the slab of the working extent changes nothing that merging
-- relies on.
use mathlib.Core.Logic.{inl, inr}
use pmalloc.Prelude.{
  ℕ, zero, suc, ◌+◌, ◌-◌, ◌*◌, ◌/◌, ◌%◌, ◌^◌, ◌≡◌, ◌≢◌, refl, ◌∙◌, arith, true, false, ◌||◌, ◌==◌,
  Bool-cases, subst, List,
}
use pmalloc.SizeClass.{page_size}
use pmalloc.Log.{listed}
use pmalloc.Extents.{
  Extent, Store, Leaf, Rtree, IsRtree, PairingHeap, IsPairingHeap, no_leaf, max_psz_idx,
  extent_state_active, extent_last_get,
}
use pmalloc.Extents.Split.{extent_rtree_write_acquired}
use pmalloc.Extents.Pool.{IsPool-same, sum_pages, sum_pages-same}
use pmalloc.Extents.Region.{covers-same, IsRegion}
use pmalloc.Extents.Record.Register.{extent_interior_deregister-read}
use pmalloc.Extents.Coalesce.Merge.{IsWorking, at_ends}
use pmalloc.Extents.Coalesce.Sides.{named, named-write}
use pmalloc.Extents.Coalesce.Loop.{Progress}
use pmalloc.Extents.Record.{deregister_pages, extent_interior_deregister, drop_slab}

-- What is on a list is none of what is not.
pub unlisted-ne :
    (x y : ℕ) (xs : List ℕ) → listed x xs ≡ false → listed y xs ≡ true → (x == y) ≡ false
unlisted-ne x y xs out here = elim (Bool-cases (x == y)) [
  | inl e ↦
      let same : x ≡ y = ground arith in
      let there : listed y xs ≡ false = subst (λ z. listed z xs ≡ false) same out in absurd (cc)
  | inr e ↦ e
]

module _ {H M : Type 0} (heap : PairingHeap H) (rtree : Rtree M) (arena : ℕ) where
  -- The working extent is not in the pool.
  pub working-unlisted :
      (x : ℕ) (s : Store H M) → IsWorking heap rtree arena x s → listed x s.pool.lru ≡ false
  working-unlisted x s w = elim (Bool-cases (listed x s.pool.lru)) [
    | inl l ↦ absurd (omega (arith, (w.pool.free x l).in_state, w.active, w.pool_state))
    | inr l ↦ l
  ]

  -- `s'` is `s` up to the class and the flag of `x`, and pages that now name `x` or nothing.
  record Retagged (x : ℕ) (s s' : Store H M) : Type 0 where
    pool : s'.pool ≡ s.pool
    others : (z : ℕ) → (x == z) ≡ false → s'.extents z ≡ s.extents z
    e_addr : (s'.extents x).e_addr ≡ (s.extents x).e_addr
    size : (s'.extents x).size ≡ (s.extents x).size
    state : (s'.extents x).state ≡ (s.extents x).state
    pages : (p : ℕ) → named rtree x s.tree s'.tree p ≡ true
    own : (p : ℕ) → (rtree.read s'.tree p).extent ≡ x → x ≢ 0 → at_ends (s.extents x) p ≡ true

  module _ (law : IsPairingHeap heap) (x : ℕ) (s s' : Store H M)
      (w : IsWorking heap rtree arena x s) (t : Retagged x s s') where
    listed-same : (z : ℕ) → listed z s'.pool.lru ≡ true → s'.extents z ≡ s.extents z
    listed-same z l = t.others z (elim (Bool-cases (x == z)) [
      | inl e ↦
          let e' : x ≡ z = ground arith in
          let l' : listed x s.pool.lru ≡ true = rw (← t.pool, e') l in
          absurd (ground (arith, working-unlisted x s w))
      | inr e ↦ e
    ])

    Retagged-IsWorking : IsWorking heap rtree arena x s'
    Retagged-IsWorking = record {
      pool = rw t.pool (
          IsPool-same heap law s.extents s'.extents s.pool (λ z l. listed-same z (rw t.pool l))
            w.pool);
      counter = rw t.pool w.counter;
      pool_state = rw t.pool w.pool_state;
      active = t.state ∙ w.active;
      region = record {
        aligned = rw t.e_addr w.region.aligned;
        not_null = rw t.e_addr w.region.not_null;
        whole = rw t.size w.region.whole;
        some_pages = rw t.size w.region.some_pages;
        end = rw (t.e_addr, t.size) w.region.end;
      };
      regions = λ z l. rw (listed-same z l) (w.regions z (rw t.pool at l));
      apart_x = λ z l. rw (listed-same z l, t.e_addr, t.size) (w.apart_x z (rw t.pool at l));
      apart_pool = λ z z' l l' ne.
          rw (listed-same z l, listed-same z' l')
            (w.apart_pool z z' (rw t.pool at l) (rw t.pool at l') ne);
      known = known;
      place = place;
      own = λ p e ne. rw (t.e_addr, t.size) (t.own p e ne);
    }
      where
        place :
            (p z : ℕ)
            → (rtree.read s'.tree p).extent ≡ z
            → z ≢ 0
            → listed z s'.pool.lru ≡ true
            → at_ends (s'.extents z) p ≡ true
        place p z e ne l =
            let l' : listed z s.pool.lru ≡ true = rw t.pool at l in
            let other = unlisted-ne x z s.pool.lru (working-unlisted x s w) l' in
            let before : (rtree.read s.tree p).extent ≡ z = ground (arith, t.pages p) in
            rw (listed-same z l) (w.place p z before ne l')

        known :
            (p z : ℕ)
            → (rtree.read s'.tree p).extent ≡ z
            → z ≢ 0
            → (s'.extents z).arena ≡ arena
            → (s'.extents z).state ≡ s'.pool.state
            → (listed z s'.pool.lru ≡ true)
              × ((p / page_size == (s'.extents z).e_addr / page_size
                    || p / page_size == extent_last_get (s'.extents z) / page_size)
                  ≡ true)
        known p z e ne ar st = elim (Bool-cases (x == z)) [
          | inl same ↦
              let same' : x ≡ z = ground arith in
              let idle : (s'.extents z).state ≡ extent_state_active =
                subst (λ k. (s'.extents k).state ≡ extent_state_active) same'
                  (t.state ∙ w.active) in
              let st' : (s'.extents z).state ≡ s.pool.state = rw t.pool at st in
              absurd (omega (arith, st', idle, w.pool_state))
          | inr other ↦
              let before : (rtree.read s.tree p).extent ≡ z = ground (arith, t.pages p) in
              let same_z = t.others z other in
              let found = w.known p z before ne (rw same_z at ar) (rw (same_z, t.pool) at st) in
              (rw t.pool found.0, rw same_z found.1)
        ]

    Retagged-Progress : Progress heap rtree arena 0 x s x s'
    Retagged-Progress = record {
      working = Retagged-IsWorking;
      fewer = rw t.pool (omega arith);
      policy = rw t.pool refl;
      state = rw t.pool refl;
      pages = sum_same ∙ rw (t.size, t.pool) refl;
      bytes = λ b.
          rw (covers-same s.extents s'.extents s'.pool.lru b listed-same, t.e_addr, t.size, t.pool)
            refl;
    }
      where
        sum_same :
            sum_pages s'.extents s'.pool.lru + (s'.extents x).size / page_size
            ≡ sum_pages s.extents s'.pool.lru + (s'.extents x).size / page_size
        sum_same = rw (sum_pages-same heap law s.extents s'.extents s'.pool.lru listed-same) refl

retagged-IsRegion :
    (e : Extent) → IsRegion e → IsRegion (record e { szind = max_psz_idx; slab = true })
retagged-IsRegion e r = record {
  aligned = r.aligned;
  not_null = r.not_null;
  whole = r.whole;
  some_pages = r.some_pages;
  end = r.end;
}

module _ {M : Type 0} (rtree : Rtree M) (tree_law : IsRtree rtree) where
  deregister-named :
      (x : ℕ) (t : M) (n i addr : ℕ) (m : M) (p : ℕ)
      → named rtree x t m p ≡ true
      → named rtree x t (deregister_pages rtree n i addr m) p ≡ true
  unfolding deregister_pages
  deregister-named x t zero i addr m p h = h
  deregister-named x t (suc n) i addr m p h =
      deregister-named x t n (i + 1) addr (rtree.write m (addr + i * page_size) no_leaf) p
        (named-write rtree tree_law x t m (addr + i * page_size) p no_leaf refl h)

  extent_interior_deregister-named :
      (x : ℕ) (e : Extent) (t : M) (p : ℕ)
      → named rtree x t (extent_interior_deregister rtree x e t) p ≡ true
  unfolding extent_interior_deregister extent_rtree_write_acquired
  extent_interior_deregister-named x e t p =
      let n : ℕ = (e.size / page_size + 2 ^ 64 - 1) % 2 ^ 64 - 1 in
      let leaf : Leaf = record { extent = x; szind = e.szind; slab = e.slab } in
      let m = deregister_pages rtree n 1 e.e_addr t in
      let self : (leaf.extent == 0 || leaf.extent == x) ≡ true = ground arith in
      named-write rtree tree_law x t (rtree.write m e.e_addr leaf) (extent_last_get e) p leaf self (
        named-write rtree tree_law x t m e.e_addr p leaf self
          (deregister-named x t n 1 e.e_addr t p (ground arith)))

module _ {H M : Type 0} (heap : PairingHeap H) (rtree : Rtree M) (arena : ℕ)
    (law : IsPairingHeap heap) (tree_law : IsRtree rtree) (x : ℕ) (s : Store H M) where
  drop_slab-Retagged :
      IsWorking heap rtree arena x s → Retagged heap rtree arena x s (drop_slab rtree x s)
  unfolding drop_slab
  drop_slab-Retagged w = elim (Bool-cases (s.extents x).slab) [
    | inl e ↦ simp (e) (record {
      pool = refl;
      others = λ z ne. rw ne refl;
      e_addr = ground arith;
      size = ground arith;
      state = ground arith;
      pages = λ p.
          extent_interior_deregister-named rtree tree_law x
            (record (s.extents x) { szind = max_psz_idx; slab = true }) s.tree p;
      own = λ p o ne.
          let k =
            extent_interior_deregister-read rtree tree_law x
              (record (s.extents x) { szind = max_psz_idx; slab = true }) s.tree p
              (retagged-IsRegion (s.extents x) w.region) in
          let e' : Extent = record (s.extents x) { szind = max_psz_idx; slab = true } in
          let o' : (rtree.read (extent_interior_deregister rtree x e' s.tree) p).extent ≡ x =
            unfold extent_interior_deregister in o in
          ground (
            arith,
            k,
            o',
            w.own p,
            w.region.aligned,
            w.region.whole,
            w.region.some_pages,
            w.region.end,
          );
    })
    | inr e ↦ simp (e) (record {
      pool = refl;
      others = λ z ne. rw ne refl;
      e_addr = ground arith;
      size = ground arith;
      state = ground arith;
      pages = λ p. ground arith;
      own = λ p o ne. w.own p o ne;
    })
  ]

  pub drop_slab-Progress :
      IsWorking heap rtree arena x s → Progress heap rtree arena 0 x s x (drop_slab rtree x s)
  drop_slab-Progress w =
      Retagged-Progress heap rtree arena law x s (drop_slab rtree x s) w (drop_slab-Retagged w)
