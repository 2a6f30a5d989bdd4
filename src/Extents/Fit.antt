-- ===== src/Extents/Fit.antt =====
-- Which extent of a pool serves a request: `extents_fit_locked` of src/extent.c, which is best fit,
-- as pmalloc_internal.h defines PMALLOC_BESTFIT; and first fit, which it is without.
pub mod Lowest
pub mod Found
use pmalloc.Prelude.{
  ℕ, zero, suc, ◌+◌, ◌*◌, ◌%◌, ◌^◌, Bool, true, false, ◌&&◌, ◌==◌, ltb, leb, if◌then◌else◌, Option,
  none, some, get_or,
}
use pmalloc.SizeClass.{get_psizeclass, class_npages}
use pmalloc.Bitmap.{bitmap_ffu}
use pmalloc.Extents.{Extent, Extents, PairingHeap, max_psz_idx}

-- What the search comes to: an extent or NULL; a read of a NULL extent; or it still runs.
pub data Search : Type 0 where
  done : Option ℕ → Search
  null_read : Search
  running : Search

-- `get_psizeclass_by_idx(i)->npages > npages * 32`, for a pool that coalesces late.
unfoldable pub too_large : Bool → (npages i : ℕ) → Bool
too_large delay_coalesce npages i = delay_coalesce && ltb (npages * 32 % 2 ^ 64) (class_npages i)

-- The body's choice between the extent that it looks at and the one kept so far, by
-- `extent_ad_comp`; `none` is the comparison with a NULL extent.
unfoldable pub lower : (ℕ → Extent) → (extent ret : Option ℕ) → Option (Option ℕ)
lower ext extent none = some extent
lower ext none (some r) = none
lower ext (some x) (some r) = some (if ltb (ext x).e_addr (ext r).e_addr then some x else some r)

module _ {H : Type 0} (heap : PairingHeap H) (ext : ℕ → Extent) (pool : Extents H) where
  -- `bitmap_ffu(extents->bitmap, i)`.
  abbrev pub next_class : ℕ → ℕ
  next_class i = bitmap_ffu (get_or pool.bitmap 0 0) i

  unfoldable pub first_fit_loop : (npages fuel i : ℕ) → (ret : Option ℕ) → Search
  unfolding lower too_large
  first_fit_loop npages zero i ret = running
  first_fit_loop npages (suc fuel) i ret = elim (leb max_psz_idx i) [
    | true ↦ done ret
    | false ↦ elim (too_large pool.delay_coalesce npages i) [
      | true ↦ done ret
      | false ↦ elim (lower ext (heap.first (pool.heaps i)) ret) [
        | none ↦ null_read
        | some ret' ↦ elim (i == 62) [
          | true ↦ done ret'
          | false ↦ first_fit_loop npages fuel (next_class (i + 1)) ret'
        ]
      ]
    ]
  ]

  -- A round per class is enough: the fuel is MAX_PSZ_IDX + 1.
  unfoldable pub extents_first_fit_locked : ℕ → Search
  unfolding first_fit_loop
  extents_first_fit_locked npages =
      first_fit_loop npages 64 (next_class (get_psizeclass npages)) none

  -- The loop leaves in its first round: an extent of the first class that has one.
  unfoldable pub extents_best_fit_locked : ℕ → Option ℕ
  unfolding too_large
  extents_best_fit_locked npages =
      let i = next_class (get_psizeclass npages) in
      if leb max_psz_idx i
      then none
      else if too_large pool.delay_coalesce npages i
      then none
      else heap.first (pool.heaps i)

  -- `extents_fit_locked`, with PMALLOC_BESTFIT.
  unfoldable pub extents_fit_locked : ℕ → Option ℕ
  unfolding extents_best_fit_locked
  extents_fit_locked npages = extents_best_fit_locked npages
