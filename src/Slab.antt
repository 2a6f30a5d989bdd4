-- ===== src/Slab.antt =====
-- Slabs: src/slab.c and include/pmalloc/internal/slab.h. The types that the operations share; the
-- operations are in the child modules.
--
-- A `vslab_t` is named by a number and kept in a store; its `dlnode` and `LRU_dlnode` are its
-- places in the bin's list and in the arena's LRU list, which are lists of such numbers (dl.c).
-- The persistent bytes are a function from addresses. What the operations ask of other components
-- (the NUMA log, the extent allocator) is a list of calls, in the order in which they are made.
pub mod Lru
pub mod Init
pub mod Drain
pub mod Pop
pub mod Free
pub mod Shape
pub mod PopLaws
pub mod FreeLaws
pub mod Marks
pub mod Freed
mod Tests
use pmalloc.Prelude.{
  ℕ, ◌+◌, ◌-◌, ◌*◌, ◌/◌, ◌%◌, ◌^◌, Bool, List, ◌==◌, if◌then◌else◌, bit_and, bit_or,
}
use pmalloc.Prelude.Int.{ℤ}
use pmalloc.Word.{complement}
use pmalloc.SizeClass.{SizeClass}
use pmalloc.Cache.{Cache, update}

-- `dmeta_t`: META_ALLOCED or META_FREE, and how many blocks of the old class lie in the block.
pub record DMeta : Type 0 where
  pub alloced : Bool
  pub num_b : ℕ

-- `sb_table_t`: an old block and how often its `is_freed` was counted up.
pub record SbEntry : Type 0 where
  pub bid_b : ℕ
  pub is_freed : ℕ

pub record VSlab : Type 0 where
  pub eslab : ℕ
  pub slab : ℕ
  pub nbits : ℕ
  pub bitmap : List ℕ
  pub sc : SizeClass
  pub rbitmap : List ℕ
  pub r_dirty : Bool
  pub dmeta : ℕ → DMeta
  pub timestamp : ℕ
  pub num_b : ℕ
  pub sc_b : SizeClass
  pub sb_table : List SbEntry

-- `bin_t`: the slabs of a class, and `now_vslab`, 0 for the head of the list.
pub record Bin : Type 0 where
  pub vslabs : List ℕ
  pub now_vslab : ℕ

-- The fields of `arena_t` that slabs use.
pub record Arena : Type 0 where
  pub bins : ℕ → Bin
  pub numa_list : List ℕ
  pub lru : List ℕ
  pub timestamp : ℕ
  pub lru_len : ℤ
  pub morphing_len : ℤ

pub data Call : Type 0 where
  numa_log_alloc : (info : ℕ) → Call
  arena_slab_dalloc : (extent : ℕ) → Call

pub record State : Type 0 where
  pub mem : ℕ → ℕ
  pub vslabs : ℕ → VSlab
  pub arena : Arena
  pub cache : Cache
  pub calls : List Call

-- `meta_set` and `meta_unset` on the byte at an address.
unfoldable pub meta_set : ℕ → ℕ → (ℕ → ℕ) → ℕ → ℕ
meta_set meta index mem = update mem meta (bit_or (mem meta) (2 ^ index))

unfoldable pub meta_unset : ℕ → ℕ → (ℕ → ℕ) → ℕ → ℕ
meta_unset meta index mem = update mem meta (bit_and (mem meta) (complement 8 (2 ^ index)))
