-- ===== src/ArenaMemory.antt =====
-- Fresh memory of an arena: `arena_activate_new_memory` of src/arena.c and the two functions that
-- it calls. An arena cuts its memory from a chunk of CHUNK_SIZE bytes that it has mapped. Whether
-- a file can be mapped, and where, is an argument (`none` is a failed mapping).
pub mod Bump
mod Tests
use pmalloc.Prelude.{
  ℕ, ◌+◌, ◌-◌, ◌*◌, ◌/◌, ◌%◌, ◌^◌, Bool, true, false, not, ◌||◌, Option, none, some, List, [], ◌∷◌,
  ◌++◌, ◌==◌, ltb, if◌then◌else◌,
}
use pmalloc.SizeClass.{page_size, get_psizeclass, class_npages}

-- An extent that was made of memory that is left over: its address, pages and class.
pub record Evicted : Type 0 where
  pub addr : ℕ
  pub npages : ℕ
  pub szind : ℕ

-- `memory_new` (0 for NULL) and `npage_new` of `arena_t`, and what went to the dirty extents.
pub record Fresh : Type 0 where
  pub memory_new : ℕ
  pub npage_new : ℕ
  pub evicted : List Evicted

-- CHUNK_SIZE is 2 MB.
abbrev pub chunk_pages : ℕ
chunk_pages = 512

-- `arena_evict_new_memory_locked`: what is left becomes an extent when its size is that of a page
-- class, and is dropped when not.
unfoldable pub arena_evict_new_memory_locked : Fresh → Fresh
arena_evict_new_memory_locked fresh =
    let class = get_psizeclass fresh.npage_new in
    record {
      memory_new = 0;
      npage_new = 0;
      evicted =
          if fresh.npage_new == 0 || not (fresh.npage_new == class_npages class)
          then fresh.evicted
          else fresh.evicted
            ++ record { addr = fresh.memory_new; npages = fresh.npage_new; szind = class } ∷ [];
    }

-- `arena_get_new_memory_locked`.
unfoldable pub arena_get_new_memory_locked : Option ℕ → Fresh → Option Fresh
arena_get_new_memory_locked none fresh = none
arena_get_new_memory_locked (some addr) fresh =
    some (record fresh { memory_new = addr; npage_new = chunk_pages })

-- The last part of `arena_activate_new_memory`. `npage_new` is a `size_t`.
unfoldable pub cut : (npages : ℕ) → Fresh → ℕ × Fresh
cut npages fresh = (
  fresh.memory_new,
  record fresh {
    memory_new = fresh.memory_new + npages * page_size;
    npage_new = (fresh.npage_new + 2 ^ 64 - npages) % 2 ^ 64;
  },
)

-- `arena_activate_new_memory`; `none` is NULL.
unfoldable pub arena_activate_new_memory :
    (mapped : Option ℕ) → (npages : ℕ) → Fresh → Option (ℕ × Fresh)
arena_activate_new_memory mapped npages fresh =
    if ltb fresh.npage_new npages
    then elim (arena_get_new_memory_locked mapped (arena_evict_new_memory_locked fresh)) [
      | none ↦ none
      | some fresh' ↦ some (cut npages fresh')
    ]
    else some (cut npages fresh)
