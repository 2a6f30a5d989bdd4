-- ===== src/Log/Created.antt =====
-- The log that slow_GC starts with: it has no live item, and leaves the chunks in use alone.
use pmalloc.Prelude.{
  ℕ, ◌+◌, ◌<◌, ◌≤◌, ◌≡◌, refl, sym, true, false, ◌==◌, ==_iff, ==_self, Bool-cases, inl, inr, some,
  List, [], ◌∷◌, subst, arith,
}
use pmalloc.Log.{Vlog, ChunkTree, IsChunkTree, listed, log_file_size, init_chunk, vlchunk_alloc}
use pmalloc.Log.Append.{link_chunk, first_chunks}
use pmalloc.Log.Live.{live, IsChunk, IsLog}
use pmalloc.Log.Supply.{IsSupply, IsForeign, NextChunk, next_chunk_lem}
use pmalloc.Log.Extend.{empty_bits}
use pmalloc.Log.Slow.{log_create_for_gc}

module _ {T : Type 0} (tree : ChunkTree T) (laws : IsChunkTree tree) where
  -- The log with a chunk from `next_chunk`.
  abbrev with_chunk : (vlog : Vlog T) → NextChunk tree vlog → Vlog T
  with_chunk vlog n =
      init_chunk n.chunk (record vlog { global_free_list = n.free_list; log_file_used = n.used })

  init-IsSupply :
      (vlog : Vlog T)
      → IsSupply tree vlog
      → (n : NextChunk tree vlog) → IsSupply tree (with_chunk vlog n)
  unfolding init_chunk
  init-IsSupply vlog v n = record {
    in_tree = λ c e. omega (arith, v.in_tree c e, n.grows);
    in_free = λ c e.
        let (out, aligned, below) = v.in_free c (n.still_free c e) in
        (out, aligned, omega (arith, below, n.grows));
    distinct = n.distinct;
    addr_aligned = v.addr_aligned;
    used_aligned = n.used_aligned;
  }

  -- What a new log for the old one promises.
  pub record Created (old vlog : Vlog T) : Type 0 where
    pub valid : IsLog tree vlog
    pub none_live : (c i : ℕ) → live tree vlog c i ≡ false
    pub used : vlog.log_file_used ≤ old.log_file_used + 2048
    pub spares :
        (d : ℕ)
        → listed d old.global_free_list ≡ false
        → d < old.log_file_addr + old.log_file_used
        → IsForeign tree vlog d
          × (vlog.lchunks d ≡ old.lchunks d)
          × (vlog.vlchunks d ≡ old.vlchunks d)

  -- The log before its first chunk.
  abbrev blank : (gc_timer : ℕ) → Vlog T → Vlog T
  blank gc_timer old = record old {
    vlchunk_tree = tree.empty;
    tail_vlchunk = 0;
    root_lchunk = 0;
    gc_timer = gc_timer;
    global_lchunk_id = 0;
    num_of_chunks = 0;
    num_of_items = 0;
  }

  blank-IsSupply :
      (gc_timer : ℕ) (old : Vlog T) → IsLog tree old → IsSupply tree (blank gc_timer old)
  blank-IsSupply gc_timer old v = record {
    in_tree = λ c e. absurd (ground (arith, laws.search-empty c, e));
    in_free = λ c e. (laws.search-empty c, (v.in_free c e).1, (v.in_free c e).2);
    distinct = v.distinct;
    addr_aligned = v.addr_aligned;
    used_aligned = v.used_aligned;
  }

  two_chunks-Created :
      (gc_timer : ℕ) (old : Vlog T)
      → (n : NextChunk tree (blank gc_timer old))
      → IsSupply tree (with_chunk (blank gc_timer old) n)
      → (m : NextChunk tree (with_chunk (blank gc_timer old) n))
      → Created old
          (record (link_chunk tree m.chunk
            (record (with_chunk (with_chunk (blank gc_timer old) n) m) {
              tail_vlchunk = n.chunk;
              vlchunk_tree = tree.empty;
            })) { root_lchunk = n.chunk })
  unfolding init_chunk link_chunk
  two_chunks-Created gc_timer old n v m = record {
    valid = record {
      tail_in = ground (arith, laws.search-insert m.chunk m.chunk tree.empty);
      in_tree = λ d e.
          let here : (m.chunk == d) ≡ true =
            ground (arith, e, laws.search-insert d m.chunk tree.empty, laws.search-empty d) in
          rw (here, ==_self m.chunk) (new_chunk d ((==_iff m.chunk d).0 here));
      in_free = λ d e.
          let (out, aligned, below) = v.in_free d (m.still_free d e) in
          (
            ground (
              arith,
              laws.search-insert d m.chunk tree.empty,
              laws.search-empty d,
              listed_ne d m.chunk m.free_list e m.not_free,
            ),
            aligned,
            omega (arith, below, m.grows),
          );
      distinct = m.distinct;
      addr_aligned = v.addr_aligned;
      used_aligned = m.used_aligned;
    };
    none_live = λ c i.
        ground (arith, laws.search-insert c m.chunk tree.empty, laws.search-empty c, empty_bits i);
    used = omega (arith, n.bound, m.bound);
    spares = λ d f b.
        let ne = n.apart d f b in
        let not_free : listed d n.free_list ≡ false = ground (arith, f, n.still_free d) in
        let ne' = m.apart d not_free (omega (arith, b, n.grows)) in
        (
          record {
            out = ground (arith, laws.search-insert d m.chunk tree.empty, laws.search-empty d, ne');
            not_free = ground (arith, not_free, m.still_free d);
            below = omega (arith, b, n.grows, m.grows);
          },
          rw (ne, ne') refl,
          rw (ne, ne') refl,
        );
  }
    where
      listed_ne :
          (d c : ℕ) (xs : List ℕ) → listed d xs ≡ true → listed c xs ≡ false → (c == d) ≡ false
      listed_ne d c xs e f = elim (Bool-cases (c == d)) [
        | inl same ↦
            absurd
              (ground (arith, f, subst (λ x. listed x xs ≡ true) (sym ((==_iff c d).0 same)) e))
        | inr other ↦ other
      ]

      new_chunk :
          (d : ℕ)
          → m.chunk ≡ d
          → IsChunk d (record { count = 0; bitmap = 0 ∷ 0 ∷ []; id = 1; pre_lchunk = n.chunk })
            × (d < old.log_file_addr + m.used)
      new_chunk d e = (
        record {
          words = refl;
          slots = λ i h. absurd (ground (arith, empty_bits i, h));
          cap = omega arith;
          aligned = omega (arith, m.aligned);
        },
        omega (arith, m.below),
      )

  pub log_create_for_gc-Created :
      (gc_timer : ℕ) (old : Vlog T)
      → IsLog tree old
      → old.log_file_used + 2048 < log_file_size
      → (vlog : Vlog T) × (log_create_for_gc tree gc_timer old ≡ some vlog) × Created old vlog
  unfolding log_create_for_gc first_chunks vlchunk_alloc init_chunk
  log_create_for_gc-Created gc_timer old v room =
      let s = blank-IsSupply gc_timer old v in
      let n = next_chunk_lem tree (blank gc_timer old) s (omega arith) in
      let s' = init-IsSupply (blank gc_timer old) s n in
      let m = next_chunk_lem tree (with_chunk (blank gc_timer old) n) s' (omega (arith, n.bound)) in
      (
        _,
        rw (log_create_for_gc, first_chunks, vlchunk_alloc, n.result, m.result) refl,
        two_chunks-Created gc_timer old n s' m,
      )
