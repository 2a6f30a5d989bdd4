-- ===== src/Slab/Tests.antt =====
-- Runs of the slab code on a small slab, at address 4096: three blocks of 64 bytes, the second in
-- use.
use pmalloc.Prelude.{◌+◌, ◌≤◌, ◌≡◌, ◌≢◌, ◌⊎◌, refl, true, false, [], ◌∷◌, arith, some}
use pmalloc.Prelude.Int.{pos}
use pmalloc.Word.{test_bit}
use pmalloc.Bitmap.{is_free}
use pmalloc.Bitmap.Count.{taken}
use pmalloc.SizeClass.{SizeClass}
use pmalloc.Cache.{CacheEntry}
use pmalloc.Slab.{VSlab, State, Arena}
use pmalloc.Slab.Pop.{entry_of}
use pmalloc.Slab.PopLaws.{IsSlab}
use pmalloc.Slab.Free.{slab_free_small}
use pmalloc.Slab.Freed.{Frees, slab_free-Frees}
use pmalloc.Slab.Shape.{entries_apart}

abbrev small_class : SizeClass
small_class = record {
  moffset = 64;
  roffset = 448;
  nbits = 3;
  n_bitmaps = 1;
  bitsize = 64;
  toffset = 0;
}

abbrev small_slab : VSlab
small_slab = record {
  eslab = 1;
  slab = 4096;
  nbits = 1;
  bitmap = 5 ∷ [];
  sc = small_class;
  rbitmap = 15 ∷ [];
  r_dirty = false;
  dmeta = λ _. record { alloced = true; num_b = 0 };
  timestamp = 0;
  num_b = 0;
  sc_b = small_class;
  sb_table = [];
}

-- The same slab with all its blocks in use.
abbrev full_slab : VSlab
full_slab = record small_slab { nbits = 3; bitmap = 0 ∷ [] }

abbrev no_entry : CacheEntry
no_entry = record { ret = 0; metas = 0; index = 0; dmeta_slab = 0; dmeta_bid = 0; is_sb = false }

abbrev arena : Arena
arena = record {
  bins = λ _. record { vslabs = 1 ∷ []; now_vslab = 1 };
  numa_list = [];
  lru = 1 ∷ [];
  timestamp = 5;
  lru_len = pos 1;
  morphing_len = pos 0;
}

abbrev state : VSlab → State
state vslab = record {
  mem = λ _. 2;
  vslabs = λ _. vslab;
  arena = arena;
  cache = record { ncached = λ _. 0; avail = λ _. no_entry; bm = 0; now = 0 };
  calls = [];
}

small_slab-IsSlab : IsSlab small_slab
unfolding taken is_free test_bit
small_slab-IsSlab = record { words = (omega arith, tt); count = refl }

slab_free-Frees_example :
    (after : State) × (slab_free_small false false 1
        (entry_of 1 small_slab 1).ret
        (state small_slab)
      ≡ some after)
    × Frees 1 1 (state small_slab) after
unfolding is_free test_bit entry_of
slab_free-Frees_example =
    slab_free-Frees 1 1 (state small_slab) small_slab-IsSlab (omega arith) (omega arith)
      (omega arith) refl (omega arith) (omega arith) refl false

entries_apart_example :
    (((entry_of 1 small_slab 0).ret + 64 ≤ (entry_of 1 small_slab 2).ret)
      ⊎ ((entry_of 1 small_slab 2).ret + 64 ≤ (entry_of 1 small_slab 0).ret))
    × ((entry_of 1 small_slab 0).metas ≡ (entry_of 1 small_slab 2).metas
        → (entry_of 1 small_slab 0).index ≢ (entry_of 1 small_slab 2).index)
entries_apart_example = entries_apart 1 small_slab 0 2 (omega arith)
