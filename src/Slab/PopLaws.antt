-- ===== src/Slab/PopLaws.antt =====
-- What `slab_pop_one_cache` does to a slab whose counter is right.
use pmalloc.Prelude.{ℕ, ◌+◌, ◌%◌, ◌<◌, ◌≡◌, true, false, ◌==◌, if◌then◌else◌}
use pmalloc.Bitmap.{is_free}
use pmalloc.Bitmap.Laws.{IsWords}
use pmalloc.Bitmap.Count.{taken}
use pmalloc.Cache.{num_max_cache, cache_push}
use pmalloc.Slab.{VSlab, State}
use pmalloc.Slab.Pop.{Popped, bank_full, popped, entry_of}

-- The words are words, and the header counts the blocks in use.
pub record IsSlab (vslab : VSlab) : Type 0 where
  pub words : IsWords vslab.bitmap
  pub count : vslab.nbits ≡ taken vslab.bitmap vslab.sc.nbits

-- A run that takes block `index`, the first free one: what it returns, and the state after it.
pub record PopsFirst (v : ℕ) (s : State) (result : Popped) : Type 0 where
  pub index : ℕ
  pub after : State
  pub in_range : index < (s.vslabs v).sc.nbits
  pub was_free : is_free (s.vslabs v).bitmap index ≡ true
  pub first : (j : ℕ) → j < index → is_free (s.vslabs v).bitmap j ≡ false
  pub outcome :
      result
      ≡ (if after.cache.ncached (index % 6) == num_max_cache then bank_full after else popped after)
  pub bitmap :
      (j : ℕ)
      → is_free (after.vslabs v).bitmap j
        ≡ (if index == j then false else is_free (s.vslabs v).bitmap j)
  pub counter : (after.vslabs v).nbits ≡ (s.vslabs v).nbits + 1
  pub keeps : IsSlab (after.vslabs v)
  pub cached : after.cache ≡ cache_push (index % 6) (entry_of v (s.vslabs v) index) s.cache
  pub mem : after.mem ≡ s.mem
  pub others : (w : ℕ) → (v == w) ≡ false → after.vslabs w ≡ s.vslabs w

-- Touching the LRU list leaves the slabs but for their time stamps.
record SameSlabs (v : ℕ) (s s' : State) : Type 0 where
  words : (s'.vslabs v).bitmap ≡ (s.vslabs v).bitmap
  nbits : (s'.vslabs v).nbits ≡ (s.vslabs v).nbits
  sc : (s'.vslabs v).sc ≡ (s.vslabs v).sc
  others : (w : ℕ) → (v == w) ≡ false → s'.vslabs w ≡ s.vslabs w
  cache : s'.cache ≡ s.cache
  mem : s'.mem ≡ s.mem
