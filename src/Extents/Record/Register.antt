-- ===== src/Extents/Record/Register.antt =====
-- Which pages name what in the tree after an extent is registered as a slab, and after it is
-- deregistered.
use mathlib.Core.Logic.{inl, inr}
use pmalloc.Prelude.{
  ℕ, zero, suc, ◌+◌, ◌-◌, ◌*◌, ◌/◌, ◌%◌, ◌^◌, ◌≡◌, refl, arith, Bool, true, ◌&&◌, ◌||◌, ◌==◌, leb,
  ltb, Bool-cases, if◌then◌else◌,
}
use pmalloc.SizeClass.{page_size}
use pmalloc.Extents.{Extent, Store, Leaf, Rtree, IsRtree, no_leaf, extent_last_get}
use pmalloc.Extents.Region.{IsRegion}
use pmalloc.Extents.Split.{register_pages, extent_interior_register, extent_rtree_write_acquired}
use pmalloc.Extents.Record.{deregister_pages, extent_interior_deregister, extent_deregister_impl}

-- Page `p / PAGE_SIZE` is one of the `n` pages from page `first` on.
abbrev among : (first n p : ℕ) → Bool
among first n p = leb first (p / page_size) && ltb (p / page_size) (first + n)

-- Page `p / PAGE_SIZE` is a page of the extent; its first or last one.
abbrev pub on_extent : Extent → ℕ → Bool
on_extent e p = among (e.e_addr / page_size) (e.size / page_size) p

abbrev pub at_end : Extent → ℕ → Bool
at_end e p =
    p / page_size == e.e_addr / page_size
    || p / page_size + 1 == e.e_addr / page_size + e.size / page_size

module _ {M : Type 0} (rtree : Rtree M) (tree_law : IsRtree rtree) where
  register_pages-read :
      (n i addr : ℕ) (leaf : Leaf) (m : M) (p : ℕ)
      → rtree.read (register_pages rtree n i addr leaf m) p
        ≡ (if among (addr / page_size + i) n p then leaf else rtree.read m p)
  unfolding register_pages
  register_pages-read zero i addr leaf m p = ground arith
  register_pages-read (suc n) i addr leaf m p = ground (
    arith,
    register_pages-read n (i + 1) addr leaf (rtree.write m (addr + i * page_size) leaf) p,
    tree_law.read-write m (addr + i * page_size) p leaf,
  )

  pub write_ends-read :
      (e : Extent) (leaf : Leaf) (m : M) (p : ℕ)
      → IsRegion e
      → rtree.read (extent_rtree_write_acquired rtree m e leaf) p
        ≡ (if at_end e p then leaf else rtree.read m p)
  unfolding extent_rtree_write_acquired
  write_ends-read e leaf m p r =
      let last : extent_last_get e / page_size + 1 ≡ e.e_addr / page_size + e.size / page_size =
        omega (arith, r.aligned, r.whole, r.some_pages, r.end) in
      ground (
        arith,
        tree_law.read-write (rtree.write m e.e_addr leaf) (extent_last_get e) p leaf,
        tree_law.read-write m e.e_addr p leaf,
      )

  -- Registering an extent as a slab of its class lets each of its pages, and no other one, name
  -- the slab.
  pub extent_interior_register-read :
      (e : Extent) (szind vslab : ℕ) (m : M) (p : ℕ)
      → IsRegion e
      → e.slab ≡ true
      → e.szind ≡ szind
      → rtree.read (extent_interior_register rtree e szind vslab m) p ≡ (
          if on_extent e p
          then record { extent = vslab; szind = szind; slab = true }
          else rtree.read m p)
  unfolding extent_interior_register
  extent_interior_register-read e szind vslab m p r is_slab class =
      let n : ℕ = (e.size / page_size + 2 ^ 64 - 1) % 2 ^ 64 - 1 in
      let leaf : Leaf = record { extent = vslab; szind = szind; slab = true } in
      let ends : Leaf = record { extent = vslab; szind = e.szind; slab = e.slab } in
      let same : ends ≡ leaf = rw (class, is_slab) refl in
      let inner = register_pages rtree n 1 e.e_addr leaf m in
      let count : n ≡ e.size / page_size - 2 = omega (arith, r.whole, r.some_pages, r.end) in
      ground (
        arith,
        same,
        count,
        r.some_pages,
        r.whole,
        write_ends-read e ends inner p r,
        register_pages-read n 1 e.e_addr leaf m p,
      )

  deregister_pages-register :
      (n i addr : ℕ) (m : M)
      → deregister_pages rtree n i addr m ≡ register_pages rtree n i addr no_leaf m
  unfolding deregister_pages register_pages
  deregister_pages-register zero i addr m = refl
  deregister_pages-register (suc n) i addr m =
      deregister_pages-register n (i + 1) addr (rtree.write m (addr + i * page_size) no_leaf)

  pub extent_interior_deregister-read :
      (x : ℕ) (e : Extent) (m : M) (p : ℕ)
      → IsRegion e
      → rtree.read (extent_interior_deregister rtree x e m) p ≡ (
          if at_end e p
          then record { extent = x; szind = e.szind; slab = e.slab }
          else if on_extent e p
          then no_leaf
          else rtree.read m p)
  unfolding extent_interior_deregister
  extent_interior_deregister-read x e m p r =
      let n : ℕ = (e.size / page_size + 2 ^ 64 - 1) % 2 ^ 64 - 1 in
      let leaf : Leaf = record { extent = x; szind = e.szind; slab = e.slab } in
      let inner = deregister_pages rtree n 1 e.e_addr m in
      let count : n ≡ e.size / page_size - 2 = omega (arith, r.whole, r.some_pages, r.end) in
      let cleared : rtree.read inner p
          ≡ (if among (e.e_addr / page_size + 1) n p then no_leaf else rtree.read m p) =
        rw (deregister_pages-register n 1 e.e_addr m)
          (register_pages-read n 1 e.e_addr no_leaf m p) in
      ground (arith, count, cleared, r.some_pages, r.whole, write_ends-read e leaf inner p r)

module _ {H M : Type 0} (rtree : Rtree M) (tree_law : IsRtree rtree) where
  -- Deregistering an extent clears its first and its last page when it is no slab. For a slab it
  -- clears the pages between, while the first and the last one name the extent. No other page
  -- changes.
  pub extent_deregister_impl-read :
      (x : ℕ) (s : Store H M) (p : ℕ)
      → IsRegion (s.extents x)
      → rtree.read (extent_deregister_impl rtree x s).tree p ≡ (
          if at_end (s.extents x) p
          then (if (s.extents x).slab
              then record { extent = x; szind = (s.extents x).szind; slab = true }
              else no_leaf)
          else if (s.extents x).slab && on_extent (s.extents x) p
          then no_leaf
          else rtree.read s.tree p)
  unfolding extent_deregister_impl
  extent_deregister_impl-read x s p r =
      let e = s.extents x in
      let cleared = extent_rtree_write_acquired rtree s.tree e no_leaf in
      let ends = write_ends-read rtree tree_law e no_leaf s.tree p r in
      elim (Bool-cases e.slab) [
        | inl slab ↦
            let inner = extent_interior_deregister-read rtree tree_law x e cleared p r in
            let leaf : rtree.read (extent_interior_deregister rtree x e cleared) p ≡ (
                if at_end e p
                then record { extent = x; szind = e.szind; slab = true }
                else if on_extent e p
                then no_leaf
                else rtree.read cleared p) =
              ground (arith, inner, slab) in
            simp (slab) (ground (arith, leaf, ends))
        | inr plain ↦ simp (plain) ends
      ]
