-- ===== src/Slab/Freed.antt =====
-- `slab_free_small` on a block of the slab's own class, by a thread of the slab's own arena.
use mathlib.Core.Logic.{inl, inr}
use pmalloc.Prelude.{
  ℕ, ◌+◌, ◌-◌, ◌*◌, ◌%◌, ◌^◌, ◌≤◌, ◌<◌, ◌≡◌, refl, ◌∙◌, Bool, true, false, not, ◌&&◌, some, ◌==◌,
  ltb, if◌then◌else◌, arith, ==_self, Bool-cases, length,
}
use pmalloc.Bitmap.{is_free}
use pmalloc.Cache.{cache_push}
use pmalloc.Slab.{State}
use pmalloc.Slab.Pop.{entry_of}
use pmalloc.Slab.PopLaws.{IsSlab}
use pmalloc.Slab.Free.{
  put_cache, putback, unmark, free_block, slab_free_small, release_slab, release_lru_slab,
}
use pmalloc.Slab.FreeLaws.{block_index-entry_of, putback-IsSlab}
use pmalloc.Slab.Marks.{mark, mark-meta_unset}

-- What a free of block `index` of slab `v` leaves behind: the persistent mark of that block alone
-- is cleared; a bank with room gets the entry that the allocator would make for the block, and the
-- bitmap stays; with a full bank that block alone is free again and the cache stays.
pub record Frees (v index : ℕ) (s after : State) : Type 0 where
  pub valid : IsSlab (after.vslabs v)
  pub marks :
      (j : ℕ)
      → mark after.mem (after.vslabs v) j
        ≡ (if index == j then false else mark s.mem (s.vslabs v) j)
  pub cached :
      s.cache.ncached (index % 6) < 32
      → (after.cache ≡ cache_push (index % 6) (entry_of v (s.vslabs v) index) s.cache)
        × ((after.vslabs v).bitmap ≡ (s.vslabs v).bitmap)
  pub put_back :
      32 ≤ s.cache.ncached (index % 6)
      → (after.cache ≡ s.cache)
        × ((j : ℕ)
            → is_free (after.vslabs v).bitmap j
              ≡ (if index == j then true else is_free (s.vslabs v).bitmap j))

mark-unmark :
    (v index j : ℕ) (s : State)
    → mark (unmark v index s).mem ((unmark v index s).vslabs v) j
      ≡ (if index == j then false else mark s.mem (s.vslabs v) j)
unfolding unmark mark
mark-unmark v index j s = rw (==_self v) (mark-meta_unset s.mem (s.vslabs v) index j)

mark-putback :
    (v index j : ℕ) (s : State)
    → mark (putback v index s).mem ((putback v index s).vslabs v) j ≡ mark s.mem (s.vslabs v) j
unfolding putback release_lru_slab release_slab mark
mark-putback v index j s =
    let n = ((s.vslabs v).nbits + 2 ^ 16 - 1) % 2 ^ 16 in
    elim (Bool-cases (n == 0 && not (s.vslabs v).r_dirty)) [
      | inl empty ↦ rw (empty, ==_self v) refl
      | inr held ↦ rw (held, ==_self v) refl
    ]

putback_cache : (v index : ℕ) (s : State) → (putback v index s).cache ≡ s.cache
unfolding putback release_lru_slab release_slab
putback_cache v index s =
    let n = ((s.vslabs v).nbits + 2 ^ 16 - 1) % 2 ^ 16 in
    elim (Bool-cases (n == 0 && not (s.vslabs v).r_dirty)) [
      | inl empty ↦ rw empty refl
      | inr held ↦ rw held refl
    ]

unmark_cache : (v index : ℕ) (s : State) → (unmark v index s).cache ≡ s.cache
unfolding unmark
unmark_cache v index s = refl

unmark_sc : (v index : ℕ) (s : State) → ((unmark v index s).vslabs v).sc ≡ (s.vslabs v).sc
unfolding unmark
unmark_sc v index s = rw (==_self v) refl

unmark_bitmap :
    (v index : ℕ) (s : State) → ((unmark v index s).vslabs v).bitmap ≡ (s.vslabs v).bitmap
unfolding unmark
unmark_bitmap v index s = rw (==_self v) refl

unmark-IsSlab :
    (v index : ℕ) (s : State) → IsSlab (s.vslabs v) → IsSlab ((unmark v index s).vslabs v)
unfolding unmark
unmark-IsSlab v index s valid = rw (==_self v) (record { words = valid.words; count = valid.count })

-- A free of a block in use, in a slab that is not mixed, by its address.
module _ (v index : ℕ) (s : State) (valid : IsSlab (s.vslabs v))
    (in_range : index < (s.vslabs v).sc.nbits) (small : (s.vslabs v).sc.nbits < 2 ^ 16)
    (room : (s.vslabs v).sc.nbits ≤ 64 * length (s.vslabs v).bitmap)
    (used : is_free (s.vslabs v).bitmap index ≡ false) (pos : 0 < (s.vslabs v).sc.bitsize)
    (fits : (entry_of v (s.vslabs v) index).ret < 2 ^ 64) (unmixed : (s.vslabs v).num_b ≡ 0) where
  cached_Frees :
      s.cache.ncached (index % 6) < 32
      → Frees v index s (put_cache (index % 6) (entry_of v (s.vslabs v) index) (unmark v index s))
  unfolding put_cache
  cached_Frees h = record {
    valid = unmark-IsSlab v index s valid;
    marks = λ j. mark-unmark v index j s;
    cached = λ _. (rw (unmark_cache v index s) refl, unmark_bitmap v index s);
    put_back = λ k. absurd (omega arith);
  }

  put_back_Frees :
      32 ≤ s.cache.ncached (index % 6) → Frees v index s (putback v index (unmark v index s))
  put_back_Frees h =
      let (after, frees) =
        putback-IsSlab v index (unmark v index s) (unmark-IsSlab v index s valid)
          (rw (unmark_sc v index s) in_range) (rw (unmark_sc v index s) small)
          (rw (unmark_sc v index s, unmark_bitmap v index s) room)
          (rw (unmark_bitmap v index s) used) in
      record {
        valid = after;
        marks = λ j. mark-putback v index j (unmark v index s) ∙ mark-unmark v index j s;
        cached = λ k. absurd (omega arith);
        put_back = λ _. (
          putback_cache v index (unmark v index s) ∙ unmark_cache v index s,
          λ j. rw (frees j, unmark_bitmap v index s) refl,
        );
      }

  free_block-Frees : Frees v index s (free_block false v (entry_of v (s.vslabs v) index).ret s)
  unfolding free_block entry_of
  free_block-Frees =
      let e = block_index-entry_of v (s.vslabs v) index pos fits in
      elim (Bool-cases (ltb ((unmark v index s).cache.ncached (index % 6)) 32)) [
        | inl h ↦ rw (e, h) (cached_Frees (ground (arith, unmark_cache v index s)))
        | inr h ↦ rw (e, h) (put_back_Frees (ground (arith, unmark_cache v index s)))
      ]

  -- A free, by the own arena, of a block in use and in range, at an address below 2 ^ 64, in an
  -- unmixed slab of fewer than 2 ^ 16 blocks of more than 0 bytes whose bitmap has room for them
  -- and whose header counts those in use, returns: the header still counts, the persistent mark of
  -- that block alone is cleared, and the block goes to the cache when its bank has room, else that
  -- block alone is free in the bitmap.
  pub slab_free-Frees :
      (far : Bool)
      → (after : State) × (slab_free_small false far v (entry_of v (s.vslabs v) index).ret s
          ≡ some after)
        × Frees v index s after
  unfolding slab_free_small
  slab_free-Frees far =
      (free_block false v (entry_of v (s.vslabs v) index).ret s, rw unmixed refl, free_block-Frees)
