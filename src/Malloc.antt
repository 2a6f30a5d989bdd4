-- ===== src/Malloc.antt =====
-- How `pmalloc_malloc_to` of src/pmalloc.c rounds a request, and what it then asks for: a block of
-- a size class or whole pages.
pub mod Rounding
pub mod Migrate
pub mod Emptied
pub mod Moved
mod Tests
use pmalloc.Prelude.{ℕ, ◌+◌, ◌-◌, ◌/◌, ◌%◌, ◌^◌, ◌||◌, ◌==◌, ltb, if◌then◌else◌, Option, none, some}
use pmalloc.SizeClass.{page_size, max_sz, get_sizeclass_id_by_size, get_psizeclass, class_npages}

abbrev pub cache_line_size : ℕ
cache_line_size = 64

-- ALIGNMENT_CEILING on a `size_t`, for a power of two: `& (~alignment + 1)` clears the bits below.
unfoldable pub alignment_ceiling : (s alignment : ℕ) → ℕ
alignment_ceiling s alignment = let t = (s + (alignment - 1)) % 2 ^ 64 in t - t % alignment

-- `is_small_size`, with the class.
unfoldable pub is_small_size : ℕ → Option ℕ
is_small_size size =
    let idx = get_sizeclass_id_by_size size in
    if ltb max_sz size
    then none
    else if idx == 32 || (idx == 36 || idx == 38)
    then none
    else some idx

-- The pages that the large path asks for.
unfoldable pub large_npages : ℕ → ℕ
large_npages size =
    let npages = if size % page_size == 0 then size / page_size else size / page_size + 1 in
    class_npages (get_psizeclass npages)

-- A request as `pmalloc_malloc_to` sees it: of a size class, or of so many pages.
pub data Request : Type 0 where
  small : ℕ → Request
  large : ℕ → Request

-- The rounding and the branch of `pmalloc_malloc_to`.
unfoldable pub request : ℕ → Request
request size =
    let aligned = alignment_ceiling size cache_line_size in
    elim (is_small_size aligned) [ some idx ↦ small idx | none ↦ large (large_npages aligned) ]
