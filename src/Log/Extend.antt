-- ===== src/Log/Extend.antt =====
-- What `extend` does: the live items stay, the log stays well formed, and the tail has room.
use mathlib.Core.Logic.{inl, inr}
use pmalloc.Prelude.{
  ℕ, zero, suc, ◌+◌, ◌/◌, ◌%◌, ◌<◌, ◌≤◌, ◌≡◌, refl, true, false, ◌==◌, ==_self, ==_iff, leb, some,
  [], ◌∷◌, get_or, arith, Bool-cases, subst,
}
use pmalloc.Word.Bit.{test_bit-zero}
use pmalloc.Bitmap.{is_free}
use pmalloc.Interleave.{count_to_index}
use pmalloc.Log.{Vlog, ChunkTree, IsChunkTree, vlchunk_alloc, init_chunk, log_file_size}
use pmalloc.Log.Append.{extend, link_chunk}
use pmalloc.Log.Live.{SameItems, IsChunk, IsLog}
use pmalloc.Log.Supply.{IsForeign, Spares, NextChunk, IsLog-IsSupply, next_chunk_lem}

zero_words : (k : ℕ) → get_or {A = ℕ} (0 ∷ 0 ∷ []) k 0 ≡ 0
zero_words zero = refl
zero_words (suc zero) = refl
zero_words (suc (suc k)) = refl

pub empty_bits : (i : ℕ) → is_free (0 ∷ 0 ∷ []) i ≡ false
unfolding is_free
empty_bits i = rw (zero_words (i / 64)) (test_bit-zero (i % 64))

module _ {T : Type 0} (tree : ChunkTree T) where
  -- A log to which an item can be put, with the same live items.
  pub record Extends (before after : Vlog T) : Type 0 where
    pub same : SameItems tree before after
    pub valid : IsLog tree after
    pub counter : after.num_of_items ≡ before.num_of_items
    pub timer : after.gc_timer ≡ before.gc_timer
    pub used : after.log_file_used ≤ before.log_file_used + 1024
    pub spares : Spares tree before after
    pub room : count_to_index (after.vlchunks after.tail_vlchunk).count < 126

module _ {T : Type 0} (tree : ChunkTree T) (laws : IsChunkTree tree) where
  link-Extends :
      (vlog : Vlog T)
      → IsLog tree vlog
      → (n : NextChunk tree vlog)
      → Extends tree vlog (
          link_chunk tree n.chunk (
            init_chunk n.chunk
              (record vlog { global_free_list = n.free_list; log_file_used = n.used })))
  unfolding init_chunk link_chunk
  link-Extends vlog v n = record {
    same = record {
      lives = λ d j.
          ground (arith, laws.search-insert d n.chunk vlog.vlchunk_tree, n.is_new, empty_bits j);
      items = λ d j e. ground (arith, n.is_new);
    };
    valid = record {
      tail_in = ground (arith, laws.search-insert n.chunk n.chunk vlog.vlchunk_tree);
      in_tree = λ d e. elim (Bool-cases (n.chunk == d)) [
        | inl here ↦
            rw (here, ==_self n.chunk) (new_chunk d vlog.tail_vlchunk ((==_iff _ _).0 here))
        | inr other ↦
            rw other
              (old_chunk d (ground (arith, laws.search-insert d n.chunk vlog.vlchunk_tree, e)))
      ];
      in_free = λ d e. ground (
        arith,
        laws.search-insert d n.chunk vlog.vlchunk_tree,
        n.still_free d,
        n.not_free,
        v.in_free d,
      );
      distinct = n.distinct;
      addr_aligned = v.addr_aligned;
      used_aligned = n.used_aligned;
    };
    counter = refl;
    timer = refl;
    used = n.bound;
    spares = λ d f.
        let new_ne = n.apart d f.not_free f.below in
        let old_ne = tail_ne d f in
        (
          record {
            out = ground (arith, laws.search-insert d n.chunk vlog.vlchunk_tree, f.out, new_ne);
            not_free = ground (arith, f.not_free, n.still_free d);
            below = omega (arith, f.below, n.grows);
          },
          rw (new_ne, old_ne) refl,
          rw new_ne refl,
        );
    room = rw (==_self n.chunk) (unfold count_to_index in omega arith);
  }
    where
      tail_ne : (d : ℕ) → IsForeign tree vlog d → (vlog.tail_vlchunk == d) ≡ false
      tail_ne d f = elim (Bool-cases (vlog.tail_vlchunk == d)) [
        | inl same ↦ absurd (
            ground (
              arith,
              f.out,
              subst (λ x. tree.search x vlog.vlchunk_tree ≡ true) ((==_iff _ _).0 same) v.tail_in,
            ))
        | inr other ↦ other
      ]

      new_chunk :
          (d pre : ℕ)
          → n.chunk ≡ d
          → IsChunk d (record {
            count = 0;
            bitmap = 0 ∷ 0 ∷ [];
            id = vlog.global_lchunk_id;
            pre_lchunk = pre;
          })
            × (d < vlog.log_file_addr + n.used)
      new_chunk d pre e = (
        record {
          words = refl;
          slots = λ i h. absurd (ground (arith, empty_bits i, h));
          cap = omega arith;
          aligned = omega (arith, n.aligned);
        },
        omega (arith, n.below),
      )

      old_chunk :
          (d : ℕ)
          → tree.search d vlog.vlchunk_tree ≡ true
          → IsChunk d (vlog.vlchunks d) × (d < vlog.log_file_addr + n.used)
      old_chunk d e = let (chunk, below) = v.in_tree d e in (chunk, omega (arith, n.grows))

  -- With room in the log file, `extend` makes room in the tail and keeps the live items.
  pub extend-Extends :
      (vlog : Vlog T)
      → IsLog tree vlog
      → vlog.log_file_used + 1024 < log_file_size
      → (after : Vlog T) × (extend tree vlog ≡ some after) × Extends tree vlog after
  unfolding extend vlchunk_alloc link_chunk
  extend-Extends vlog v room =
      elim (Bool-cases (leb 126 (count_to_index (vlog.vlchunks vlog.tail_vlchunk).count))) [
        | inl full ↦
            let n = next_chunk_lem tree vlog (IsLog-IsSupply tree vlog v) room in
            (_, rw (full, vlchunk_alloc, n.result) refl, link-Extends vlog v n)
        | inr partial ↦ (
          vlog,
          rw partial refl,
          record {
            same = record { lives = λ c i. refl; items = λ c i e. refl };
            valid = v;
            counter = refl;
            timer = refl;
            used = omega arith;
            spares = λ d f. (f, refl, refl);
            room = ground arith;
          },
        )
      ]
