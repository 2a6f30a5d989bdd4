-- ===== src/Log/Start.antt =====
-- A new log, and the tombstones that a flusher moves to it.
use pmalloc.Prelude.{
  ℕ, ◌+◌, ◌%◌, ◌<◌, ◌≡◌, ◌≢◌, refl, sym, ◌∙◌, Bool, true, false, ◌&&◌, ◌==◌, ==_self, ==_iff, some,
  [], ◌∷◌, arith,
}
use pmalloc.Interleave.{count_to_index}
use pmalloc.Log.{
  Vlog, Lchunk, Vlchunk, LogItem, ChunkTree, IsChunkTree, listed, log_file_size, next_chunk,
  init_chunk, vlchunk_alloc,
}
use pmalloc.Log.Append.{put_item, link_chunk, first_chunks, log_create, flush_tomb}
use pmalloc.Log.Live.{has_item, live, SameItems, Adds, IsChunk, IsLog}
use pmalloc.Log.Keep.{put_item-Adds, put_item-IsLog}
use pmalloc.Log.Extend.{extend-Extends, empty_bits}
use pmalloc.Log.Appends.{Adds-after, tick_gc-SameItems}

no_free : (c : ℕ) → listed c [] ≡ true → ⊥
unfolding listed
no_free c e = ground (arith, e)

-- The chain of a log that is new: the root chunk, and behind it the tail, the only chunk of the
-- tree.
pub record IsTwoChunks {T : Type 0} (tree : ChunkTree T) (vlog : Vlog T) : Type 0 where
  pub root_next : (vlog.lchunks vlog.root_lchunk).next ≡ vlog.tail_vlchunk
  pub first_next : (vlog.lchunks vlog.tail_vlchunk).next ≡ 0
  pub first_pre : (vlog.vlchunks vlog.tail_vlchunk).pre_lchunk ≡ vlog.root_lchunk
  pub chunks : (c : ℕ) → tree.search c vlog.vlchunk_tree ≡ (vlog.tail_vlchunk == c)
  pub no_items : vlog.num_of_items ≡ 0

module _ {T : Type 0} (tree : ChunkTree T) (laws : IsChunkTree tree) where
  -- On a log file at an aligned address log_create returns a well-formed log without a live item,
  -- whose root chunk leads to its first chunk, which is the tail and leads no further; these two
  -- chunks are all of the log.
  pub log_create-IsLog :
      (addr : ℕ) (lchunks : ℕ → Lchunk) (vlchunks : ℕ → Vlchunk)
      → addr % 1024 ≡ 0
      → (vlog : Vlog T) × (log_create tree addr lchunks vlchunks ≡ some vlog)
        × IsLog tree vlog
        × ((c i : ℕ) → live tree vlog c i ≡ false)
        × IsTwoChunks tree vlog
  unfolding log_create first_chunks vlchunk_alloc next_chunk init_chunk link_chunk
  log_create-IsLog addr lchunks vlchunks aligned = (
    _,
    refl,
    record {
      tail_in = ground (arith, laws.search-insert (addr + 2048) (addr + 2048) tree.empty);
      in_tree = λ c e.
          let here : (addr + 2048 == c) ≡ true =
            ground (arith, e, laws.search-insert c (addr + 2048) tree.empty, laws.search-empty c) in
          rw (here, ==_self (addr + 2048)) (new_chunk c ((==_iff (addr + 2048) c).0 here));
      in_free = λ c e. absurd (no_free c e);
      distinct = tt;
      addr_aligned = aligned;
      used_aligned = refl;
    },
    λ c i.
        ground
          (arith, laws.search-insert c (addr + 2048) tree.empty, laws.search-empty c, empty_bits i),
    record {
      root_next = ground arith;
      first_next = ground arith;
      first_pre = ground arith;
      chunks =
          λ c. ground (arith, laws.search-insert c (addr + 2048) tree.empty, laws.search-empty c);
      no_items = refl;
    },
  )
    where
      new_chunk :
          (c : ℕ)
          → addr + 2048 ≡ c
          → IsChunk c (record { count = 0; bitmap = 0 ∷ 0 ∷ []; id = 2; pre_lchunk = addr + 1024 })
            × (c < addr + 3072)
      new_chunk c e = (
        record {
          words = refl;
          slots = λ i h. absurd (ground (arith, empty_bits i, h));
          cap = omega arith;
          aligned = omega (arith, aligned);
        },
        omega arith,
      )

  -- A tombstone that the flusher takes over, on a well-formed log with room in the log file and
  -- num_of_items not 0: the log returns, the tombstone is in a slot that was not live, and the
  -- live items stay as they were, whether or not chunks are collected.
  pub flush_tomb-Adds :
      (tomb : LogItem) (vlog : Vlog T)
      → IsLog tree vlog
      → vlog.num_of_items ≢ 0
      → vlog.log_file_used + 1024 < log_file_size
      → (after : Vlog T) × (flush_tomb tree tomb vlog ≡ some after)
        × IsLog tree after
        × (c : ℕ) × (i : ℕ) × Adds tree c i tomb vlog after
  unfolding flush_tomb put_item
  flush_tomb-Adds tomb vlog v ne room =
      let (open_log, e, x) = extend-Extends tree laws vlog v room in
      let tail = open_log.tail_vlchunk in
      let index = count_to_index (open_log.vlchunks tail).count in
      let a = put_item-Adds tree tomb open_log x.valid x.room in
      let there : has_item ((put_item tree tomb open_log).vlchunks tail) index ≡ true =
        bit_of _ _ (a.lives tail index ∙ ground arith) in
      let (after, t, s, w) =
        tick_gc-SameItems tree laws (put_item tree tomb open_log) index
          (put_item-IsLog tree tomb open_log x.valid x.room) there (λ z. ne (sym x.counter ∙ z)) in
      (
        after,
        rw (flush_tomb, e, t) refl,
        w,
        tail,
        index,
        Adds-before tail index (put_item tree tomb open_log) after s
            (Adds-after tree laws tail index tomb vlog open_log _ x.same a),
      )
    where
      bit_of : (x y : Bool) → (x && y) ≡ true → y ≡ true
      bit_of x y e = ground arith

      Adds-before :
          (c i : ℕ) (put after : Vlog T)
          → SameItems tree put after
          → Adds tree c i tomb vlog put
          → Adds tree c i tomb vlog after
      Adds-before c i put after s a = record {
        was_dead = a.was_dead;
        lives = λ d j. s.lives d j ∙ a.lives d j;
        stored = s.items c i (a.lives c i ∙ ground arith) ∙ a.stored;
        items = λ d j h. s.items d j (a.lives d j ∙ ground (arith, h)) ∙ a.items d j h;
      }
