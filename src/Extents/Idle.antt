-- ===== src/Extents/Idle.antt =====
-- What holds of a pool of extents between two operations, and how it turns into what holds while an
-- extent is being merged.
use mathlib.Core.Logic.{inl, inr}
use mathlib.Core.Path.{fun_ext}
use pmalloc.Prelude.{
  ℕ, ◌+◌, ◌/◌, ◌^◌, ◌≤◌, ◌<◌, ◌≡◌, ◌≢◌, ◌⊎◌, refl, sym, ap, ◌∙◌, arith, true, false, ◌==◌,
  Bool-cases, subst,
}
use pmalloc.SizeClass.{page_size}
use pmalloc.Log.{listed}
use pmalloc.Extents.{
  Extent, Store, Rtree, PairingHeap, IsPairingHeap, extent_activate_locked,
  extent_deactivate_locked, extent_state_active, set_state,
}
use pmalloc.Extents.Pool.{IsPool}
use pmalloc.Extents.Region.{IsRegion, apart, apart_comm}
use pmalloc.Extents.Activate.{extent_activate_locked-TakenOut}
use pmalloc.Extents.Deactivate.{PutIn, extent_deactivate_locked-PutIn}
use pmalloc.Extents.Coalesce.Merge.{IsWorking, at_ends}
use pmalloc.Extents.Record.Drop.{working-unlisted}

IsRegion-state : (e : Extent) (st : ℕ) → IsRegion e → IsRegion (record e { state = st })
IsRegion-state e st r = record {
  aligned = r.aligned;
  not_null = r.not_null;
  whole = r.whole;
  some_pages = r.some_pages;
  end = r.end;
}

module _ {H M : Type 0} (heap : PairingHeap H) (rtree : Rtree M) (arena : ℕ) where
  -- The extents of the pool are disjoint runs of pages; where the tree names an extent of this arena
  -- and in the state of the pool, that extent is in the pool; and it names an extent of the pool on
  -- its first and its last page alone.
  pub record IsIdle (s : Store H M) : Type 0 where
    pub pool : IsPool heap s.extents s.pool
    pub pool_state : 0 < s.pool.state
    pub regions : (y : ℕ) → listed y s.pool.lru ≡ true → IsRegion (s.extents y)
    pub apart_pool :
        (y z : ℕ)
        → listed y s.pool.lru ≡ true
        → listed z s.pool.lru ≡ true
        → y ≢ z
        → apart (s.extents y) (s.extents z) ≡ true
    pub found :
        (p y : ℕ)
        → (rtree.read s.tree p).extent ≡ y
        → y ≢ 0
        → (s.extents y).arena ≡ arena
        → (s.extents y).state ≡ s.pool.state
        → listed y s.pool.lru ≡ true
    pub place :
        (p y : ℕ)
        → (rtree.read s.tree p).extent ≡ y
        → y ≢ 0
        → listed y s.pool.lru ≡ true
        → at_ends (s.extents y) p ≡ true

  pub IsWorking-IsIdle : (x : ℕ) (s : Store H M) → IsWorking heap rtree arena x s → IsIdle s
  IsWorking-IsIdle x s w = record {
    pool = w.pool;
    pool_state = w.pool_state;
    regions = w.regions;
    apart_pool = w.apart_pool;
    found = λ p y e ne a st. (w.known p y e ne a st).0;
    place = w.place;
  }

  -- Taking out an extent of the pool leaves it as the extent to work on.
  pub IsIdle-take_out :
      (x : ℕ) (s : Store H M)
      → IsPairingHeap heap
      → IsIdle s
      → s.pool.npages < 2 ^ 64
      → listed x s.pool.lru ≡ true
      → IsWorking heap rtree arena x (extent_activate_locked heap x s)
  IsIdle-take_out x s law i room here =
      let s' = extent_activate_locked heap x s in
      let t = extent_activate_locked-TakenOut heap law x s i.pool here room in
      let other : (z : ℕ) → listed z s'.pool.lru ≡ true → (x == z) ≡ false =
        λ z l. ground (arith, t.listed_lem z) in
      let old : (z : ℕ) → listed z s'.pool.lru ≡ true → listed z s.pool.lru ≡ true =
        λ z l. ground (arith, t.listed_lem z) in
      let same : (z : ℕ) → listed z s'.pool.lru ≡ true → s'.extents z ≡ s.extents z =
        λ z l. t.others z (other z l) in
      record {
        pool = t.pool;
        counter = omega (arith, t.pages);
        pool_state = rw t.state i.pool_state;
        active = rw t.self refl;
        region = rw t.self (IsRegion-state (s.extents x) extent_state_active (i.regions x here));
        regions = λ z l. rw (same z l) (i.regions z (old z l));
        apart_x = λ z l.
            rw (same z l, t.self)
              (i.apart_pool x z here (old z l) (λ e. ground (arith, other z l)));
        apart_pool =
            λ y z l k ne. rw (same y l, same z k) (i.apart_pool y z (old y l) (old z k) ne);
        known = λ p z e ne a st. elim (Bool-cases (x == z)) [
          | inl same_name ↦
              let x_z : x ≡ z = ground arith in
              let idle : (s'.extents z).state ≡ extent_state_active =
                subst (λ k. (s'.extents k).state ≡ extent_state_active) x_z (rw t.self refl) in
              absurd (omega (arith, st, idle, i.pool_state, t.state))
          | inr differs ↦
              let same_z = t.others z differs in
              let e' : (rtree.read s.tree p).extent ≡ z = rw t.tree at e in
              let l = i.found p z e' ne (rw same_z at a) (rw (same_z, t.state) at st) in
              (ground (arith, t.listed_lem z, l), rw same_z (i.place p z e' ne l))
        ];
        place = λ p z e ne l. rw (same z l) (i.place p z (rw t.tree at e) ne (old z l));
        own = λ p e ne. rw t.self (i.place p x (rw t.tree at e) ne here);
      }

  -- Putting the extent into the pool ends the work.
  pub IsWorking-put_in :
      (x : ℕ) (s : Store H M)
      → IsPairingHeap heap
      → IsWorking heap rtree arena x s
      → s.pool.npages + (s.extents x).size / page_size ≤ 98304
      → IsIdle (extent_deactivate_locked heap x s)
  IsWorking-put_in x s law w room = record {
    pool = t.pool;
    pool_state = rw t.state w.pool_state;
    regions = λ z l. region z l;
    apart_pool = λ y z l k ne. apart_both y z l k ne;
    found = λ p z e ne a st. elim (Bool-cases (x == z)) [
      | inl same_name ↦ ground (arith, t.listed_lem z)
      | inr differs ↦
          let same_z = t.others z differs in
          let e' : (rtree.read s.tree p).extent ≡ z = rw t.tree at e in
          let l = (w.known p z e' ne (rw same_z at a) (rw (same_z, t.state) at st)).0 in
          ground (arith, t.listed_lem z, l)
    ];
    place = λ p z e ne l. elim (which z l) [
      | inl x_z ↦
          subst (λ k. (rtree.read s.tree p).extent ≡ k → k ≢ 0 → at_ends (s'.extents k) p ≡ true)
            x_z (λ e' ne'. rw t.self (w.own p e' ne')) (rw t.tree at e) ne
      | inr (differs, l') ↦ rw (t.others z differs) (w.place p z (rw t.tree at e) ne l')
    ];
  }
    where
      s' : Store H M
      s' = extent_deactivate_locked heap x s

      t : PutIn heap x s s'
      t =
          extent_deactivate_locked-PutIn heap law x s w.pool
            (working-unlisted heap rtree arena x s w) w.region.whole
            (omega (arith, w.region.whole, w.region.some_pages)) (omega arith) (omega arith)

      which :
          (z : ℕ)
          → listed z s'.pool.lru ≡ true
          → (x ≡ z) ⊎ (((x == z) ≡ false) × (listed z s.pool.lru ≡ true))
      which z l = elim (Bool-cases (x == z)) [
        | inl e ↦ inl (ground arith)
        | inr e ↦ inr (e, ground (arith, t.listed_lem z))
      ]

      region : (z : ℕ) → listed z s'.pool.lru ≡ true → IsRegion (s'.extents z)
      region z l = elim (which z l) [
        | inl e ↦
            subst (λ k. IsRegion (s'.extents k)) e
              (rw t.self (IsRegion-state (s.extents x) s.pool.state w.region))
        | inr (differs, l') ↦ rw (t.others z differs) (w.regions z l')
      ]

      apart_new :
          (z : ℕ)
          → (x == z) ≡ false
          → listed z s.pool.lru ≡ true
          → apart (s'.extents x) (s'.extents z) ≡ true
      apart_new z differs l = rw (t.self, t.others z differs) (w.apart_x z l)

      apart_both :
          (y z : ℕ)
          → listed y s'.pool.lru ≡ true
          → listed z s'.pool.lru ≡ true
          → y ≢ z
          → apart (s'.extents y) (s'.extents z) ≡ true
      apart_both y z l k ne = elim (which y l) [
        | inl e ↦ elim (which z k) [
          | inl f ↦ absurd (ne (sym e ∙ f))
          | inr (differs, k') ↦
              subst (λ v. apart (s'.extents v) (s'.extents z) ≡ true) e (apart_new z differs k')
        ]
        | inr (differs, l') ↦ elim (which z k) [
          | inl f ↦
              apart_comm (s'.extents y) (s'.extents z)
              ∙ subst (λ v. apart (s'.extents v) (s'.extents y) ≡ true) f (apart_new y differs l')
          | inr (differs', k') ↦
              rw (t.others y differs, t.others z differs') (w.apart_pool y z l' k' ne)
        ]
      ]

  -- Making an active extent active changes nothing.
  pub set_state_active :
      (x : ℕ) (s : Store H M)
      → (s.extents x).state ≡ extent_state_active
      → set_state x extent_state_active s ≡ s
  set_state_active x s e = ap (λ f. record s { extents = f }) (fun_ext same)
    where
      same : (z : ℕ) → (set_state x extent_state_active s).extents z ≡ s.extents z
      same z =
          let whole : record (s.extents x) { state = extent_state_active } ≡ s.extents x =
            ap (λ st. record (s.extents x) { state = st }) (sym e) in
          rw whole (ground arith)
