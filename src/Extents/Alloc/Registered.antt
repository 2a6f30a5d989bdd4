-- ===== src/Extents/Alloc/Registered.antt =====
-- What the tree says of an extent that was registered, and after it is deregistered again.
use mathlib.Core.Logic.{inl, inr}
use pmalloc.Prelude.{ℕ, ◌≡◌, refl, ap, arith, true, false, Bool-cases, if◌then◌else◌}
use pmalloc.Extents.{Extent, Store, Leaf, Rtree, IsRtree, extent_last_get, no_leaf}
use pmalloc.Extents.Region.{IsRegion}
use pmalloc.Extents.Split.{
  extent_rtree_leaf_elms_lookup, extent_rtree_write_acquired, extent_interior_register,
}
use pmalloc.Extents.Record.{extent_deregister_impl}
use pmalloc.Extents.Record.Register.{
  on_extent, at_end, write_ends-read, extent_interior_register-read, extent_deregister_impl-read,
}
use pmalloc.Extents.Alloc.{extent_register}

module _ {M : Type 0} (rtree : Rtree M) where
  lookup-found :
      (m : M) (e : Extent)
      → ((m : M) (a : ℕ) → (rtree.grow m a).1 ≡ true)
      → (extent_rtree_leaf_elms_lookup rtree m e).1 ≡ true
  unfolding extent_rtree_leaf_elms_lookup
  lookup-found m e grows =
      rw (grows m e.e_addr) (grows (rtree.grow m e.e_addr).0 (extent_last_get e))

  lookup-read :
      (m : M) (e : Extent) (p : ℕ)
      → IsRtree rtree
      → rtree.read (extent_rtree_leaf_elms_lookup rtree m e).0 p ≡ rtree.read m p
  unfolding extent_rtree_leaf_elms_lookup
  lookup-read m e p law =
      let first = rtree.grow m e.e_addr in
      elim (Bool-cases first.1) [
        | inl more ↦
            rw (more, law.read-grow first.0 (extent_last_get e) p) (law.read-grow m e.e_addr p)
        | inr stop ↦ rw stop (law.read-grow m e.e_addr p)
      ]

module _ {H M : Type 0} (rtree : Rtree M) (tree_law : IsRtree rtree) where
  -- With memory for the tree extent_register succeeds. Then each page of a slab names the slab; of
  -- another extent the first and the last page name the extent. No other page changes.
  pub extent_register-read :
      (x vslab : ℕ) (s : Store H M) (p : ℕ)
      → ((m : M) (a : ℕ) → (rtree.grow m a).1 ≡ true)
      → IsRegion (s.extents x)
      → let r = extent_register rtree x vslab s in
        (r.0 ≡ false)
        × (rtree.read (r.1).tree p ≡ (
            if (if (s.extents x).slab then on_extent (s.extents x) p else at_end (s.extents x) p)
            then record {
              extent = if (s.extents x).slab then vslab else x;
              szind = (s.extents x).szind;
              slab = (s.extents x).slab;
            }
            else rtree.read s.tree p))
  unfolding extent_register
  extent_register-read x vslab s p grows r =
      let e = s.extents x in
      let look = extent_rtree_leaf_elms_lookup rtree s.tree e in
      let found : look.1 ≡ true = lookup-found rtree s.tree e grows in
      let before : rtree.read look.0 p ≡ rtree.read s.tree p =
        lookup-read rtree s.tree e p tree_law in
      elim (Bool-cases e.slab) [
        | inl slab ↦
            let leaf : Leaf = record { extent = vslab; szind = e.szind; slab = true } in
            let ends = write_ends-read rtree tree_law e leaf look.0 p r in
            let all =
              extent_interior_register-read rtree tree_law e e.szind vslab
                (extent_rtree_write_acquired rtree look.0 e leaf) p r slab refl in
            let after : rtree.read
                  (extent_interior_register rtree e e.szind vslab
                    (extent_rtree_write_acquired rtree look.0 e leaf))
                  p
                ≡ (if on_extent e p then leaf else rtree.read s.tree p) =
              ground (arith, all, ends, before, r.some_pages, r.whole) in
            (simp (found) refl, simp (found, slab) after)
        | inr plain ↦
            let leaf : Leaf = record { extent = x; szind = e.szind; slab = false } in
            let after : rtree.read (extent_rtree_write_acquired rtree look.0 e leaf) p
                ≡ (if at_end e p then leaf else rtree.read s.tree p) =
              ground (arith, write_ends-read rtree tree_law e leaf look.0 p r, before) in
            (simp (found) refl, simp (found, plain) after)
      ]

  register-extents :
      (x vslab : ℕ) (s : Store H M) → (extent_register rtree x vslab s).1.extents ≡ s.extents
  unfolding extent_register
  register-extents x vslab s =
      elim (Bool-cases (extent_rtree_leaf_elms_lookup rtree s.tree (s.extents x)).1) [
        | inl found ↦ rw found refl
        | inr missing ↦ rw missing refl
      ]

  -- With memory for the tree, deregistering a registered extent that is no slab gives a page what
  -- it named before, where the ends of the extent named nothing.
  pub extent_deregister_impl-extent_register :
      (x vslab : ℕ) (s : Store H M) (p : ℕ)
      → ((m : M) (a : ℕ) → (rtree.grow m a).1 ≡ true)
      → IsRegion (s.extents x)
      → (s.extents x).slab ≡ false
      → (at_end (s.extents x) p ≡ true → rtree.read s.tree p ≡ no_leaf)
      → rtree.read (extent_deregister_impl rtree x (extent_register rtree x vslab s).1).tree p
        ≡ rtree.read s.tree p
  extent_deregister_impl-extent_register x vslab s p grows r plain unnamed =
      let s' = (extent_register rtree x vslab s).1 in
      let same : s'.extents x ≡ s.extents x = ap (λ f. f x) (register-extents x vslab s) in
      let r' : IsRegion (s'.extents x) = rw same r in
      let put = (extent_register-read x vslab s p grows r).1 in
      let taken = extent_deregister_impl-read rtree tree_law x s' p r' in
      let plain' : (s'.extents x).slab ≡ false = rw same plain in
      let ends : at_end (s'.extents x) p ≡ at_end (s.extents x) p = ap (λ e. at_end e p) same in
      elim (Bool-cases (at_end (s.extents x) p)) [
        | inl e ↦ ground (arith, taken, plain', ends, e, unnamed e)
        | inr e ↦ ground (arith, taken, plain', ends, e, put, plain)
      ]
