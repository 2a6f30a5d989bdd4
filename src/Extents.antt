-- ===== src/Extents.antt =====
-- The extents of an arena, runs of pages that are free or handed out: src/extent.c and
-- include/pmalloc/internal/extent.h. The child modules hold the operations that search, split and
-- merge.
--
-- An `extent_t` is named by its address, 0 for NULL; `Store` gives what stands at each. The pairing
-- heap of ph.h, which orders the extents of a page class by address, is the record `PairingHeap`.
-- The radix tree of rtree.h, which maps a page to the extent that it belongs to, is the record
-- `Rtree`. The list `lru` of ql.h is a list of names. Locks are left out: every operation runs
-- under the lock of its pool.
pub mod Classes
pub mod Pool
pub mod Region
pub mod Fit
pub mod Idle
pub mod Deactivate
pub mod Activate
pub mod Alloc
pub mod Split
pub mod Coalesce
pub mod Record
pub mod Evict
pub mod Example
mod Tests
use pmalloc.Prelude.{
  ℕ, ◌+◌, ◌-◌, ◌/◌, ◌%◌, ◌^◌, ◌≤◌, ◌≡◌, Bool, true, false, not, ◌&&◌, ◌||◌, ◌==◌, if◌then◌else◌,
  Option, none, some, List, [], ◌∷◌, ◌++◌,
}
use pmalloc.Cache.{update}
use pmalloc.SizeClass.{page_size, get_psizeclass}
use pmalloc.Bitmap.{bitmap_unset_bits, bitmap_set_bits}

-- MAX_PSZ_IDX, also the class of an extent that is not handed out.
abbrev pub max_psz_idx : ℕ
max_psz_idx = 63

-- `extent_state_t`.
abbrev pub extent_state_active : ℕ
extent_state_active = 0

abbrev pub extent_state_dirty : ℕ
extent_state_dirty = 1

abbrev pub extent_state_muzzy : ℕ
extent_state_muzzy = 2

-- `extent_t`, without its links and its `log`.
pub record Extent : Type 0 where
  pub e_addr : ℕ
  pub size : ℕ
  pub szind : ℕ
  pub state : ℕ
  pub arena : ℕ
  pub slab : Bool

-- What the extents use of `ph_gen`: an element goes in with the address that it is ordered by.
-- `holds` says what is inside.
pub record PairingHeap (H : Type 0) : Type 0 where
  pub new : H
  pub empty : H → Bool
  pub first : H → Option ℕ
  pub insert : (addr x : ℕ) → H → H
  pub remove : (x : ℕ) → H → H
  pub holds : (addr x : ℕ) → H → Bool

-- What the heap documents: it holds what was put in and not removed, and `first` is an element of
-- the lowest address.
pub record IsPairingHeap {H : Type 0} (heap : PairingHeap H) : Type 0 where
  pub holds-new : (a x : ℕ) → heap.holds a x heap.new ≡ false
  pub holds-insert :
      (a x b y : ℕ) (h : H)
      → heap.holds a x (heap.insert b y h) ≡ (a == b && x == y || heap.holds a x h)
  pub holds-remove :
      (a x y : ℕ) (h : H) → heap.holds a x (heap.remove y h) ≡ (not (x == y) && heap.holds a x h)
  pub empty-holds : (a x : ℕ) (h : H) → heap.empty h ≡ true → heap.holds a x h ≡ false
  pub empty-first : (h : H) → heap.empty h ≡ true → heap.first h ≡ none
  pub first-some : (h : H) → heap.empty h ≡ false → (x : ℕ) × (heap.first h ≡ some x)
  pub first-le :
      (h : H) (x : ℕ)
      → heap.first h ≡ some x
      → (a : ℕ) × (heap.holds a x h ≡ true) × ((b y : ℕ) → heap.holds b y h ≡ true → a ≤ b)

-- What the radix tree keeps for a page: `extent` is an extent or, with `slab`, the `vslab_t` of a
-- slab; 0 is NULL.
pub record Leaf : Type 0 where
  pub extent : ℕ
  pub szind : ℕ
  pub slab : Bool

-- What `rtree_clear` leaves.
abbrev pub no_leaf : Leaf
no_leaf = record { extent = 0; szind = max_psz_idx; slab = false }

-- What the extents use of the tree. `grow` is `rtree_leaf_elm_lookup` with `init_missing`: the
-- tree after it, and whether there was memory for the nodes on the way. A page that was never
-- written reads as `no_leaf`.
pub record Rtree (M : Type 0) : Type 0 where
  pub read : M → ℕ → Leaf
  pub write : M → ℕ → Leaf → M
  pub grow : M → ℕ → M × Bool

-- What the tree documents: a map on pages, and growing it changes no page.
pub record IsRtree {M : Type 0} (rtree : Rtree M) : Type 0 where
  pub read-write :
      (m : M) (a b : ℕ) (leaf : Leaf)
      → rtree.read (rtree.write m a leaf) b
        ≡ (if a / page_size == b / page_size then leaf else rtree.read m b)
  pub read-grow : (m : M) (a b : ℕ) → rtree.read (rtree.grow m a).0 b ≡ rtree.read m b

-- `extents_t`.
pub record Extents (H : Type 0) : Type 0 where
  pub heaps : ℕ → H
  pub bitmap : List ℕ
  pub lru : List ℕ
  pub npages : ℕ
  pub state : ℕ
  pub delay_coalesce : Bool

-- The memory of the extents, `extents_rtree`, the pool that an operation works on, and the extents
-- whose memory went back by `extent_dalloc`.
pub record Store (H M : Type 0) : Type 0 where
  pub extents : ℕ → Extent
  pub tree : M
  pub pool : Extents H
  pub freed : List ℕ

-- `extent_last_get`, `extent_before_get` and `extent_past_get`: a `uintptr_t` each.
abbrev pub extent_last_get : Extent → ℕ
extent_last_get e = (e.e_addr + e.size + 2 ^ 64 - page_size) % 2 ^ 64

abbrev pub extent_before_get : Extent → ℕ
extent_before_get e = (e.e_addr + 2 ^ 64 - page_size) % 2 ^ 64

abbrev pub extent_past_get : Extent → ℕ
extent_past_get e = (e.e_addr + e.size) % 2 ^ 64

-- The class of the largest page size that `npages` pages can serve. `pszind_t` is unsigned.
unfoldable pub get_psizeclass_floor : ℕ → ℕ
get_psizeclass_floor npages =
    let pind = get_psizeclass npages in
    let ppind = get_psizeclass (npages + 1) in
    if pind == ppind then (pind + 2 ^ 32 - 1) % 2 ^ 32 else pind

-- `extent_list_remove`.
unfoldable pub extent_list_remove : ℕ → List ℕ → List ℕ
extent_list_remove x [] = []
extent_list_remove x (y ∷ ys) = if y == x then ys else y ∷ extent_list_remove x ys

module _ {H : Type 0} (heap : PairingHeap H) where
  unfoldable pub extents_init : (state : ℕ) → (delay_coalesce : Bool) → Extents H
  extents_init state delay_coalesce = record {
    heaps = λ _. heap.new;
    bitmap = bitmap_unset_bits (0 ∷ []) max_psz_idx;
    lru = [];
    npages = 0;
    state = state;
    delay_coalesce = delay_coalesce;
  }

  -- The part of `extents_insert_locked` behind its assertions.
  unfoldable pub pool_insert : (x : ℕ) → Extent → Extents H → Extents H
  pool_insert x e pool =
      let pind = get_psizeclass_floor (e.size / page_size) in
      record pool {
        bitmap =
            if heap.empty (pool.heaps pind)
            then bitmap_unset_bits pool.bitmap pind
            else pool.bitmap;
        heaps = update pool.heaps pind (heap.insert e.e_addr x (pool.heaps pind));
        lru = pool.lru ++ x ∷ [];
        npages = (pool.npages + e.size / page_size) % 2 ^ 64;
      }

  -- `size >> LG_PAGE` is `size / 4096`.
  unfoldable pub pool_remove : (x : ℕ) → Extent → Extents H → Extents H
  unfolding extent_list_remove
  pool_remove x e pool =
      let pind = get_psizeclass_floor (e.size / page_size) in
      let rest = heap.remove x (pool.heaps pind) in
      record pool {
        heaps = update pool.heaps pind rest;
        bitmap = if heap.empty rest then bitmap_set_bits pool.bitmap pind else pool.bitmap;
        lru = extent_list_remove x pool.lru;
        npages = (pool.npages + 2 ^ 64 - e.size / page_size) % 2 ^ 64;
      }

  module _ {M : Type 0} where
    unfoldable pub extents_insert_locked : ℕ → Store H M → Store H M
    unfolding pool_insert
    extents_insert_locked x s = record s { pool = pool_insert x (s.extents x) s.pool }

    unfoldable pub extents_remove_locked : ℕ → Store H M → Store H M
    unfolding pool_remove
    extents_remove_locked x s = record s { pool = pool_remove x (s.extents x) s.pool }

-- `extent_state_set`.
abbrev pub set_state : {H M : Type 0} → ℕ → ℕ → Store H M → Store H M
set_state x state s = record s {
  extents = update s.extents x (record (s.extents x) { state = state });
}

module _ {H M : Type 0} (heap : PairingHeap H) where
  unfoldable pub extent_activate_locked : ℕ → Store H M → Store H M
  unfolding extents_remove_locked
  extent_activate_locked x s = set_state x extent_state_active (extents_remove_locked heap x s)

  unfoldable pub extent_deactivate_locked : ℕ → Store H M → Store H M
  unfolding extents_insert_locked
  extent_deactivate_locked x s = extents_insert_locked heap x (set_state x s.pool.state s)
