-- ===== src/Malloc/Rounding.antt =====
-- What a request is rounded to.
use mathlib.Core.Logic.{inl, inr}
use pmalloc.Prelude.{
  ℕ, ◌+◌, ◌*◌, ◌/◌, ◌%◌, ◌^◌, ◌≤◌, ◌<◌, ◌≡◌, refl, ap, arith, ◌||◌, ◌==◌, ltb, Bool-cases, ◌⊎◌,
  none, some, if◌then◌else◌,
}
use pmalloc.SizeClass.{
  page_size, max_sz, get_sizeclass_id_by_size, get_psizeclass, class_npages, class_bitsize,
  pages_of,
}
use pmalloc.SizeClass.Pages.{get_sizeclass_smallest, get_psizeclass_smallest, get_psizeclass_above}
use pmalloc.Extents.Classes.{class_npages-le, class_npages-lt}
use pmalloc.Malloc.{
  alignment_ceiling, is_small_size, large_npages, Request, small, large, request, cache_line_size,
}

-- The request gets at least its size, and no smaller class holds it with its rounding.
abbrev pub Holds : ℕ → Request → Type 0
Holds size (small idx) =
    (1 ≤ idx)
    × (idx < 40)
    × (size ≤ class_bitsize idx)
    × ((j : ℕ) → 1 ≤ j → j < idx → class_bitsize j < size + 64)
Holds size (large npages) =
    (npages ≤ 98304)
    × (size ≤ npages * page_size)
    × ((j : ℕ) → j < 62 → class_npages j < npages → class_npages j * page_size < size + 64)

alignment_ceiling_lem :
    (size : ℕ)
    → size + 64 ≤ 2 ^ 64
    → (size ≤ alignment_ceiling size cache_line_size)
      × (alignment_ceiling size cache_line_size < size + 64)
      × (alignment_ceiling size cache_line_size % 64 ≡ 0)
unfolding alignment_ceiling
alignment_ceiling_lem size h = (omega arith, omega arith, omega arith)

is_small_size-cases :
    (size : ℕ)
    → (is_small_size size ≡ none)
      ⊎ ((is_small_size size ≡ some (get_sizeclass_id_by_size size)) × (size ≤ 14336))
unfolding is_small_size
is_small_size-cases size = elim (Bool-cases (ltb max_sz size)) [
  | inl p ↦ inl (rw p refl)
  | inr p ↦
      let idx = get_sizeclass_id_by_size size in
      elim (Bool-cases (idx == 32 || (idx == 36 || idx == 38))) [
        | inl q ↦ inl (rw (p, q) refl)
        | inr q ↦ inr (rw (p, q) refl, ground arith)
      ]
]

class_npages-reflects : (i j : ℕ) → i < 62 → j < 62 → class_npages j < class_npages i → j < i
class_npages-reflects i j p q less = elim (Bool-cases (ltb i j)) [
  | inl above ↦ let more = class_npages-lt i j (ground arith) q in absurd (omega arith)
  | inr above ↦ elim (Bool-cases (i == j)) [
    | inl e ↦
        let same : i ≡ j = ground arith in
        let alike : class_npages i ≡ class_npages j = ap class_npages same in absurd (omega arith)
    | inr e ↦ ground arith
  ]
]

large_npages-Holds :
    (size aligned : ℕ)
    → size ≤ aligned
    → aligned < size + 64
    → aligned ≤ 98304 * page_size
    → Holds size (large (large_npages aligned))
unfolding large_npages
large_npages-Holds size aligned low high h =
    let n : ℕ = if aligned % page_size == 0 then aligned / page_size else aligned / page_size + 1 in
    let few : n ≤ 98304 = ground arith in
    let enough : aligned ≤ n * page_size = ground arith in
    let tight : n * page_size < aligned + page_size = ground arith in
    let class = get_psizeclass_smallest n few in
    (
      class_npages-le (get_psizeclass n) class.0,
      omega (arith, class.1, enough),
      λ j within less. omega (
        arith,
        class.2 j (class_npages-reflects (get_psizeclass n) j class.0 within less),
        tight,
      ),
    )

request-small :
    (size idx : ℕ)
    → is_small_size (alignment_ceiling size cache_line_size) ≡ some idx
    → request size ≡ small idx
unfolding request
request-small size idx e = rw (e, request) refl

request-large :
    (size : ℕ)
    → is_small_size (alignment_ceiling size cache_line_size) ≡ none
    → request size ≡ large (large_npages (alignment_ceiling size cache_line_size))
unfolding request large_npages
request-large size e = rw (e, request) refl

-- A request of at most 98304 pages gets one of the size classes 1 to 39 or at most 98304 pages,
-- which hold its size, while any smaller class holds fewer than the size and 64 bytes.
pub request-Holds : (size : ℕ) → size ≤ 98304 * page_size → Holds size (request size)
request-Holds size h =
    let aligned = alignment_ceiling size cache_line_size in
    let (low, high, whole) = alignment_ceiling_lem size (omega arith) in
    elim (is_small_size-cases aligned) [
      | inl e ↦
          rw (request-large size e)
            (large_npages-Holds size aligned low high (omega (arith, h, high, whole)))
      | inr (e, fits) ↦
          let class = get_sizeclass_smallest aligned fits in
          rw (request-small size (get_sizeclass_id_by_size aligned) e)
            (class.0, class.1, omega (arith, class.2), λ j p q. omega (arith, class.3 j p q))
    ]

is_small_size-nothing : is_small_size 0 ≡ some 1
unfolding is_small_size
is_small_size-nothing =
    let class = get_sizeclass_smallest 0 (omega arith) in
    let first : get_sizeclass_id_by_size 0 ≡ 1 = ground (arith, class.3 1) in rw first refl

-- A request within 63 bytes of 2 ^ 64 is rounded to 0 and is served from the size class 1.
pub request_wraps : (size : ℕ) → 2 ^ 64 < size + 64 → size < 2 ^ 64 → request size ≡ small 1
request_wraps size h k =
    let e : alignment_ceiling size cache_line_size ≡ 0 = unfold alignment_ceiling in omega arith in
    request-small size 1 (rw e is_small_size-nothing)

large_npages-beyond : (size : ℕ) → 98304 * page_size < size → size % 64 ≡ 0 → large_npages size ≡ 1
unfolding large_npages class_npages pages_of
large_npages-beyond size h whole =
    let n : ℕ = if size % page_size == 0 then size / page_size else size / page_size + 1 in
    let many : 98304 < n = ground arith in rw (get_psizeclass_above n many) refl

-- A request above 98304 pages, as far as it is rounded without a wrap, gets one page.
pub request_beyond :
    (size : ℕ) → 98304 * page_size < size → size + 64 ≤ 2 ^ 64 → request size ≡ large 1
request_beyond size h k =
    let aligned = alignment_ceiling size cache_line_size in
    let (low, high, whole) = alignment_ceiling_lem size k in
    elim (is_small_size-cases aligned) [
      | inl e ↦ rw (request-large size e, large_npages-beyond aligned (omega arith) whole) refl
      | inr (e, fits) ↦ absurd (omega (arith, fits, low, h))
    ]
