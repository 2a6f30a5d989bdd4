-- ===== src/Extents/Fit/Found.antt =====
-- The two searches end with the extent that they promise.
use mathlib.Core.Logic.{inl, inr}
use pmalloc.Prelude.{
  ℕ, zero, suc, ◌+◌, ◌≤◌, ◌<◌, ◌≡◌, refl, ◌∙◌, arith, true, false, ◌==◌, ltb, leb, Bool-cases,
  Option, none, some,
}
use pmalloc.Word.{test_bit}
use pmalloc.SizeClass.{get_psizeclass}
use pmalloc.SizeClass.Pages.{get_psizeclass_smallest}
use pmalloc.Extents.{Extent, Extents, PairingHeap, IsPairingHeap}
use pmalloc.Extents.Pool.{IsPool, floor_class}
use pmalloc.Extents.Fit.{
  done, lower, too_large, next_class, first_fit_loop, extents_first_fit_locked,
  extents_best_fit_locked, extents_fit_locked,
}
use pmalloc.Extents.Fit.Lowest.{
  fits, IsLowestFit, IsBestFit, Covers, Covers-skip, Looks, looks, next_class-IsFirstFrom, skipped,
  fits_here, none_above, Covers-IsLowestFit, below_63, word, fits-pages,
}

module _ {H : Type 0} (heap : PairingHeap H) (law : IsPairingHeap heap) (ext : ℕ → Extent)
    (pool : Extents H) (inv : IsPool heap ext pool) (npages : ℕ) (few : npages ≤ 98304) where
  -- One round keeps the lower of two extents.
  lower-Covers :
      (i x : ℕ) (ret : Option ℕ)
      → Looks heap law ext pool inv npages few i x
      → fits ext pool npages x ≡ true
      → Covers ext pool npages i ret
      → (r : Option ℕ) × (lower ext (heap.first (pool.heaps i)) ret ≡ some r)
        × Covers ext pool npages (i + 1) r
  unfolding lower
  lower-Covers i x none l f c =
      (some x, rw l.is_first refl, (f, λ y g p. l.lowest y (ground arith) (omega (arith, c y g))))
  lower-Covers i x (some r) l f c = elim (Bool-cases (ltb (ext x).e_addr (ext r).e_addr)) [
    | inl lt ↦ (some x, rw (l.is_first, lt) refl, (f, λ y g p. ground (arith, l.lowest y, c.1 y g)))
    | inr ge ↦
        (some r, rw (l.is_first, ge) refl, (c.0, λ y g p. ground (arith, l.lowest y, c.1 y g)))
  ]

  seen :
      (i : ℕ) (r : Option ℕ)
      → ((y : ℕ) → fits ext pool npages y ≡ true → floor_class (ext y) < i)
      → Covers ext pool npages i r
      → IsLowestFit ext pool npages r
  seen = Covers-IsLowestFit heap law ext pool inv npages few

  below : (y : ℕ) → fits ext pool npages y ≡ true → floor_class (ext y) < 62
  below = below_63 heap law ext pool inv npages few

  first_fit_loop-IsLowestFit :
      (fuel i : ℕ) (ret : Option ℕ)
      → 63 < i + fuel
      → i ≤ 63
      → test_bit (word heap law ext pool inv npages few) i ≡ true
      → get_psizeclass npages ≤ i
      → Covers ext pool npages i ret
      → (r : Option ℕ) × (first_fit_loop heap ext pool npages fuel i ret ≡ done r)
        × IsLowestFit ext pool npages r
  unfolding first_fit_loop
  first_fit_loop-IsLowestFit zero i ret enough low bit p c = absurd (omega arith)
  first_fit_loop-IsLowestFit (suc fuel) i ret enough low bit p c = elim (Bool-cases (leb 63 i)) [
    | inl last ↦
        (ret, rw (last, first_fit_loop) refl, seen i ret (λ y f. ground (arith, below y f)) c)
    | inr more ↦ elim (Bool-cases (too_large pool.delay_coalesce npages i)) [
      | inl stop ↦ (
        ret,
        rw (more, stop, first_fit_loop) refl,
        seen i ret (λ y f. none_above heap law ext pool inv npages few i y (ground arith) stop f) c,
      )
      | inr go ↦
          let (x, l) = looks heap law ext pool inv npages few i (ground arith) bit in
          let f = fits_here heap law ext pool inv npages few i x l.in_pool l.in_class p go in
          let (r, e, c') = lower-Covers i x ret l f c in
          elim (Bool-cases (i == 62)) [
            | inl top ↦ (
              r,
              rw (more, go, e, top, first_fit_loop) refl,
              seen (i + 1) r (λ y g. ground (arith, below y g)) c',
            )
            | inr next ↦
                let (low', found) =
                  next_class-IsFirstFrom heap law ext pool inv npages few (i + 1) (ground arith) in
                let at_least = found.at_least in
                let rest =
                  first_fit_loop-IsLowestFit fuel (next_class heap ext pool (i + 1)) r (omega arith)
                    low' found.is_set (omega arith)
                    (Covers-skip ext pool npages (i + 1) (next_class heap ext pool (i + 1)) r
                      (skipped heap law ext pool inv npages few (i + 1) (ground arith)) c') in
                (rest.0, rw (more, go, e, next, first_fit_loop) rest.1, rest.2)
          ]
    ]
  ]

  -- On a well-formed pool and a request of at most 98304 pages the search ends, within a round per
  -- class. It gives NULL when no extent of the pool fits; else an extent that fits and has the
  -- pages, at the lowest address of all that fit.
  pub extents_first_fit_locked-IsLowestFit :
      (r : Option ℕ) × (extents_first_fit_locked heap ext pool npages ≡ done r)
      × IsLowestFit ext pool npages r
  unfolding extents_first_fit_locked
  extents_first_fit_locked-IsLowestFit =
      let small = get_psizeclass_smallest npages few in
      let i = get_psizeclass npages in
      let (low, found) =
        next_class-IsFirstFrom heap law ext pool inv npages few i (omega (arith, small.0)) in
      first_fit_loop-IsLowestFit 64 (next_class heap ext pool i) none (omega arith) low found.is_set
        found.at_least
        (Covers-skip ext pool npages i (next_class heap ext pool i) none
          (skipped heap law ext pool inv npages few i (omega (arith, small.0)))
          (λ y f. ground arith))

  none_fit :
      (i : ℕ)
      → ((y : ℕ) → fits ext pool npages y ≡ true → floor_class (ext y) < i)
      → ((y : ℕ) → fits ext pool npages y ≡ true → i ≤ floor_class (ext y))
      → (y : ℕ) → fits ext pool npages y ≡ false
  none_fit i below above y = elim (Bool-cases (fits ext pool npages y)) [
    | inl f ↦ absurd (omega (arith, below y f, above y f))
    | inr f ↦ f
  ]

  -- On a well-formed pool and a request of at most 98304 pages best fit gives NULL when no extent
  -- of the pool fits; else an extent that fits and has the pages, of the smallest class of all
  -- that fit, at the lowest address in that class.
  pub extents_best_fit_locked-IsBestFit :
      IsBestFit ext pool npages (extents_best_fit_locked heap ext pool npages)
  unfolding extents_best_fit_locked
  extents_best_fit_locked-IsBestFit =
      let small = get_psizeclass_smallest npages few in
      let i = next_class heap ext pool (get_psizeclass npages) in
      let (low, found) =
        next_class-IsFirstFrom heap law ext pool inv npages few (get_psizeclass npages)
          (omega (arith, small.0)) in
      let above = λ (y : ℕ) (f : fits ext pool npages y ≡ true).
        skipped heap law ext pool inv npages few (get_psizeclass npages) (omega (arith, small.0)) y
          (ground arith) (ground arith) in
      elim (Bool-cases (leb 63 i)) [
        | inl last ↦ rw last (none_fit i (λ y f. ground (arith, below y f)) above)
        | inr more ↦ elim (Bool-cases (too_large pool.delay_coalesce npages i)) [
          | inl stop ↦
              rw (more, stop)
                (none_fit i
                  (λ y f. none_above heap law ext pool inv npages few i y (ground arith) stop f)
                  above)
          | inr go ↦
              let (x, l) = looks heap law ext pool inv npages few i (ground arith) found.is_set in
              let f =
                fits_here heap law ext pool inv npages few i x l.in_pool l.in_class found.at_least
                  go in
              rw (more, go, l.is_first)
                (
                  f,
                  fits-pages heap law ext pool inv npages few x f,
                  λ y g. omega (arith, l.in_class, above y g),
                  λ y g e. l.lowest y (ground arith) (l.in_class ∙ e),
                )
        ]
      ]

  pub extents_fit_locked-IsBestFit :
      IsBestFit ext pool npages (extents_fit_locked heap ext pool npages)
  unfolding extents_fit_locked
  extents_fit_locked-IsBestFit = extents_best_fit_locked-IsBestFit
