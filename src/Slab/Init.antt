-- ===== src/Slab/Init.antt =====
-- `slab_init`, `vslab_init` and `slab_create` of src/slab.c.
use pmalloc.Prelude.{
  ℕ, ◌+◌, ◌-◌, ◌*◌, ◌%◌, ◌^◌, false, [], ◌∷◌, ◌++◌, ◌&&◌, leb, ltb, if◌then◌else◌, replicate,
}
use pmalloc.Prelude.Int.{pos, ◌+ℤ◌}
use pmalloc.SizeClass.{SizeClass, page_size}
use pmalloc.Cache.{update}
use pmalloc.Slab.{VSlab, State}

-- `memset(lo, 0, len)`.
unfoldable pub mem_zero : ℕ → ℕ → (ℕ → ℕ) → ℕ → ℕ
mem_zero lo len mem a = if leb lo a && ltb a (lo + len) then 0 else mem a

-- `slab_init`: the persistent bitmap is cleared. The header fields that it also writes (`sc`,
-- `numa_timestamp`, `is_mixed`) are read by recovery alone and are not kept here.
unfoldable pub slab_init : ℕ → SizeClass → (ℕ → ℕ) → ℕ → ℕ
slab_init slab sc mem = mem_zero (slab + sc.moffset) (sc.roffset - sc.moffset) mem

-- A word with every bit set.
abbrev pub all_ones : ℕ
all_ones = 2 ^ 64 - 1

unfoldable pub vslab_init : SizeClass → VSlab → VSlab
vslab_init sc vslab = record vslab {
  nbits = 0;
  bitmap = replicate sc.n_bitmaps all_ones;
  r_dirty = false;
  rbitmap = replicate sc.n_bitmaps all_ones;
  sc = sc;
  dmeta = λ _. record { alloced = false; num_b = 0 };
  timestamp = 0;
  num_b = 0;
}

-- `slab_create`: the new slab `v` in an extent at `addr` that `arena_slab_alloc` gave, its header
-- on the first or the second page by the random number `rand`. It goes to the end of the LRU list
-- and to the front of the bin.
unfoldable pub slab_create : (v extent addr rand sc_idx : ℕ) → SizeClass → State → State
slab_create v extent addr rand sc_idx sc s =
    let slab = addr + rand % 2 * page_size in
    let vslab = vslab_init sc (record (s.vslabs v) { eslab = extent; slab = slab }) in
    let bin = s.arena.bins sc_idx in
    record s {
      mem = slab_init slab sc s.mem;
      vslabs = update s.vslabs v vslab;
      arena = record (s.arena) {
        lru = s.arena.lru ++ v ∷ [];
        lru_len = s.arena.lru_len +ℤ pos 1;
        morphing_len = s.arena.morphing_len +ℤ pos 1;
        bins = update s.arena.bins sc_idx (record bin { vslabs = v ∷ bin.vslabs });
      };
    }
