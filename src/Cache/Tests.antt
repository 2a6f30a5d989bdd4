-- ===== src/Cache/Tests.antt =====
-- Runs of the thread cache: bank 2 holds one entry.
use pmalloc.Prelude.{ℕ, refl, true, false, ◌==◌, if◌then◌else◌, arith}
use pmalloc.Word.Bit.{test_bit-pow}
use pmalloc.Cache.{CacheEntry, Cache}
use pmalloc.Cache.Stack.{IsCache, TakesTop, cache_take-TakesTop}

abbrev entry : CacheEntry
entry = record { ret = 4544; metas = 4160; index = 0; dmeta_slab = 1; dmeta_bid = 0; is_sb = false }

-- The cache with one entry in bank 2, the entries of its array being `f`.
abbrev one_entry : (ℕ → CacheEntry) → Cache
one_entry f = record { ncached = λ c. if 2 == c then 1 else 0; avail = f; bm = 4; now = 0 }

one_entry-IsCache : IsCache (one_entry (λ _. entry))
one_entry-IsCache = record {
  width = omega arith;
  bits = λ c. ground (arith, test_bit-pow 2 c);
  cap = λ c. ground arith;
}

cache_take-TakesTop_example :
    (c : ℕ) × ((after : Cache) × TakesTop true (one_entry (λ _. entry)) c after)
cache_take-TakesTop_example =
    cache_take-TakesTop true (one_entry (λ _. entry)) one_entry-IsCache (λ i h. refl) refl
      (omega arith)
