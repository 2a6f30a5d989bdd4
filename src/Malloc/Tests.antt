-- ===== src/Malloc/Tests.antt =====
-- The rounding of a request at fixed sizes, and the migration of a thread with one cached block
-- for each class.
use pmalloc.Prelude.{
  ℕ, ◌-◌, ◌^◌, ◌≡◌, ◌<◌, arith, refl, true, false, [], ◌∷◌, ◌==◌, if◌then◌else◌, some,
}
use pmalloc.Prelude.Int.{pos}
use pmalloc.Word.Bit.{test_bit-pow}
use pmalloc.SizeClass.{SizeClass}
use pmalloc.Cache.{CacheEntry, Cache}
use pmalloc.Cache.Stack.{IsCache}
use pmalloc.Slab.{VSlab, State}
use pmalloc.Slab.Free.{block_index}
use pmalloc.Malloc.Migrate.{migrate_caches}
use pmalloc.Malloc.Emptied.{Keeps, Freed}
use pmalloc.Malloc.Moved.{IsEmpty, block, migrate_caches-Freed}
use pmalloc.Malloc.{small, request}
use pmalloc.Malloc.Rounding.{Holds, request-Holds, request_wraps}

-- 20000 bytes are 5 pages.
request-Holds_example : Holds 20000 (request 20000)
request-Holds_example = request-Holds 20000 (omega arith)

request_wraps_example : request (2 ^ 64 - 1) ≡ small 1
request_wraps_example = request_wraps (2 ^ 64 - 1) (omega arith) (omega arith)

-- A block of the slab 1.
abbrev cached : CacheEntry
cached = record {
  ret = 4608;
  metas = 4160;
  index = 1;
  dmeta_slab = 1;
  dmeta_bid = 1;
  is_sb = false;
}

abbrev cache_ex : Cache
cache_ex = record { ncached = λ c. if 0 == c then 1 else 0; avail = λ _. cached; bm = 1; now = 0 }

abbrev class_ex : SizeClass
class_ex = record {
  moffset = 64;
  roffset = 448;
  nbits = 3;
  n_bitmaps = 1;
  bitsize = 64;
  toffset = 0;
}

abbrev vslab_ex : VSlab
vslab_ex = record {
  eslab = 1;
  slab = 4096;
  nbits = 1;
  bitmap = 5 ∷ [];
  sc = class_ex;
  rbitmap = 15 ∷ [];
  r_dirty = false;
  dmeta = λ _. record { alloced = true; num_b = 0 };
  timestamp = 0;
  num_b = 0;
  sc_b = class_ex;
  sb_table = [];
}

abbrev state_ex : State
state_ex = record {
  mem = λ _. 2;
  vslabs = λ _. vslab_ex;
  arena = record {
    bins = λ _. record { vslabs = 1 ∷ []; now_vslab = 1 };
    numa_list = [];
    lru = 1 ∷ [];
    timestamp = 5;
    lru_len = pos 1;
    morphing_len = pos 0;
  };
  cache = cache_ex;
  calls = [];
}

cache_ex-IsCache : IsCache cache_ex
cache_ex-IsCache = record {
  width = omega arith;
  bits = λ c. ground (arith, test_bit-pow 0 c);
  cap = λ c. ground arith;
}

migrate_caches-Freed_example :
    (caches' : ℕ → Cache) × (s' : State) × (migrate_caches (λ _. 1) (λ _. cache_ex) state_ex
      ≡ some (caches', s'))
    × Keeps state_ex s'
    × ((x : ℕ) → x < 40 → IsEmpty (caches' x))
    × ((x c k : ℕ)
        → x < 40
        → c < 6
        → k < cache_ex.ncached c
        → Freed (λ _. 1) s' (block cache_ex c k))
unfolding block_index
migrate_caches-Freed_example =
    migrate_caches-Freed (λ _. 1) (λ _. cache_ex) state_ex (λ x h. cache_ex-IsCache) (λ v. refl)
      (λ x c k h m b. omega arith)
