-- ===== src/Log/Free.antt =====
-- What freeing a logged item promises: the item dies, and a tombstone lives in its place.
use mathlib.Core.Logic.{inl, inr}
use pmalloc.Prelude.{
  ℕ, ◌+◌, ◌%◌, ◌^◌, ◌<◌, ◌≤◌, ◌≡◌, ◌≢◌, refl, ap, sym, ◌∙◌, Bool, true, false, ◌&&◌, ◌==◌, ==_iff,
  if◌then◌else◌, Option, some, arith, Bool-cases, subst,
}
use native.Mathlib.Nat.{mod-eq_of_lt}
use pmalloc.Interleave.{count_to_index}
use pmalloc.Log.{
  Vlog, Vlchunk, LogItem, ChunkTree, IsChunkTree, set_bitmap, set_vlchunk, item_addr, log_file_size,
}
use pmalloc.Log.Gc.{tick_gc}
use pmalloc.Log.Append.{put_item, next_addr, bury, add_log}
use pmalloc.Log.Live.{
  has_item, has_item-clear, live, item_at, SameItems, Adds, IsChunk, IsLog, ptr2lindex-item,
}
use pmalloc.Log.Keep.{
  next_slot_dead, put_item-Adds, put_item-IsLog, set_bitmap-length, set_bitmap_count,
}
use pmalloc.Log.Extend.{extend-Extends}
use pmalloc.Log.Appends.{tick_gc-SameItems}

module _ {T : Type 0} (tree : ChunkTree T) (laws : IsChunkTree tree) where
  -- The item at `c`, `i` is no longer live.
  pub record Buries (c i : ℕ) (before after : Vlog T) : Type 0 where
    pub lives :
        (d j : ℕ) → live tree after d j ≡ (if c == d && i == j then false else live tree before d j)
    pub items : (d j : ℕ) → item_at tree after d j ≡ item_at tree before d j
    pub valid : IsLog tree after
    pub room :
        (after.vlchunks after.tail_vlchunk).count ≡ (before.vlchunks before.tail_vlchunk).count
    pub tail : after.tail_vlchunk ≡ before.tail_vlchunk

  clear-IsChunk :
      (c i : ℕ) (vlchunk : Vlchunk)
      → IsChunk c vlchunk
      → i < 126
      → IsChunk c (set_bitmap vlchunk i false)
  clear-IsChunk c i vlchunk v h = record {
    words = set_bitmap-length vlchunk i false ∙ v.words;
    slots = λ j e. ground (
      arith,
      set_bitmap_count vlchunk i false,
      v.slots j,
      e,
      has_item-clear vlchunk i j (omega (arith, v.words)),
    );
    cap = rw (set_bitmap_count vlchunk i false) v.cap;
    aligned = v.aligned;
  }

  unfoldable pub cleared : ℕ → ℕ → Vlog T → Vlog T
  cleared c i vlog = set_vlchunk c (set_bitmap (vlog.vlchunks c) i false) vlog

  pub cleared-Buries :
      (c i : ℕ) (vlog : Vlog T)
      → IsLog tree vlog
      → live tree vlog c i ≡ true
      → i < 126
      → Buries c i vlog (cleared c i vlog)
  unfolding cleared
  cleared-Buries c i vlog v held h = record {
    lives =
        λ d j. ground (arith, has_item-clear (vlog.vlchunks c) i j (omega (arith, chunk.words)));
    items = λ d j. refl;
    valid = record {
      tail_in = v.tail_in;
      in_tree = λ d e. elim (Bool-cases (c == d)) [
        | inl here ↦ rw here (
            subst
              (λ x.
                IsChunk x (set_bitmap (vlog.vlchunks c) i false)
                × (x < vlog.log_file_addr + vlog.log_file_used))
              ((==_iff c d).0 here)
              (clear-IsChunk c i (vlog.vlchunks c) chunk h, (v.in_tree c in_tree).1))
        | inr other ↦ rw other (v.in_tree d e)
      ];
      in_free = v.in_free;
      distinct = v.distinct;
      addr_aligned = v.addr_aligned;
      used_aligned = v.used_aligned;
    };
    room = ground (arith, set_bitmap_count (vlog.vlchunks c) i false);
    tail = refl;
  }
    where
      in_tree : tree.search c vlog.vlchunk_tree ≡ true
      in_tree = ground arith

      chunk : IsChunk c (vlog.vlchunks c)
      chunk = (v.in_tree c in_tree).0

  pub bury_lem :
      (c i : ℕ) (vlog : Vlog T)
      → IsLog tree vlog
      → live tree vlog c i ≡ true
      → i < 126
      → c + 1024 ≤ 2 ^ 48
      → bury tree (item_addr c i) vlog ≡ some ((vlog.vlchunks c).id, cleared c i vlog)
  unfolding bury cleared
  bury_lem c i vlog v held h top =
      let in_tree : tree.search c vlog.vlchunk_tree ≡ true = ground arith in
      let (to_chunk, to_index) = ptr2lindex-item c i (v.in_tree c in_tree).0.aligned h top in
      rw (bury, to_chunk, in_tree, to_index) refl

  -- A tombstone for the item at `dead`, `slot`, whose address it holds.
  pub record FreesItem (dead slot : ℕ) (before : Vlog T) (result : Option (ℕ × Vlog T))
      : Type 0 where
    pub chunk : ℕ
    pub index : ℕ
    pub after : Vlog T
    pub returns : result ≡ some (item_addr chunk index, after)
    pub was_dead : live tree before chunk index ≡ false
    pub lives :
        (d j : ℕ)
        → live tree after d j ≡ (
            if chunk == d && index == j
            then true
            else if dead == d && slot == j
            then false
            else live tree before d j)
    pub type : (item_at tree after chunk index).type ≡ 1
    pub ptr : (item_at tree after chunk index).ptr ≡ item_addr dead slot
    pub items :
        (d j : ℕ)
        → live tree after d j ≡ true
        → live tree before d j ≡ true
        → item_at tree after d j ≡ item_at tree before d j
    pub valid : IsLog tree after

  -- The steps behind `extend`, on a log with room in its tail.
  bury_and_put :
      (c i : ℕ) (item : LogItem) (vlog open_log : Vlog T)
      → SameItems tree vlog open_log
      → IsLog tree open_log
      → count_to_index (open_log.vlchunks open_log.tail_vlchunk).count < 126
      → live tree open_log c i ≡ true
      → i < 126
      → open_log.num_of_items ≢ 0
      → item.type ≡ 1
      → item.ptr ≡ item_addr c i
      → (after : Vlog T) × (tick_gc tree (put_item tree item (cleared c i open_log)) ≡ some after)
        × FreesItem c i vlog (some (next_addr tree open_log, after))
  unfolding cleared put_item
  bury_and_put c i item vlog open_log same v room held h ne kind to =
      let b = cleared-Buries c i open_log v held h in
      let buried = cleared c i open_log in
      let tail = open_log.tail_vlchunk in
      let index = count_to_index (open_log.vlchunks tail).count in
      let room' : count_to_index (buried.vlchunks tail).count < 126 = rw b.room room in
      let a : Adds tree tail index item buried (put_item tree item buried) =
        subst (λ k. Adds tree tail (count_to_index k) item buried (put_item tree item buried))
          b.room (put_item-Adds tree item buried b.valid room') in
      let dead = next_slot_dead tail (open_log.vlchunks tail) (v.in_tree tail v.tail_in).0 in
      let there : has_item ((put_item tree item buried).vlchunks tail) index ≡ true =
        has_item_of _ _ (a.lives tail index ∙ ground arith) in
      let (after, t, s, w) =
        tick_gc-SameItems tree laws (put_item tree item buried) index
          (put_item-IsLog tree item buried b.valid room') there ne in
      (
        after,
        t,
        record {
          chunk = tail;
          index = index;
          after = after;
          returns = refl;
          was_dead = ground (arith, same.lives tail index, dead);
          lives = λ d j. ground (arith, s.lives d j, a.lives d j, b.lives d j, same.lives d j);
          type =
              ap (λ x. x.type) (s.items tail index (a.lives tail index ∙ ground arith) ∙ a.stored)
              ∙ kind;
          ptr =
              ap (λ x. x.ptr) (s.items tail index (a.lives tail index ∙ ground arith) ∙ a.stored)
              ∙ to;
          items = λ d j e k.
              let put_live : live tree (put_item tree item buried) d j ≡ true =
                sym (s.lives d j) ∙ e in
              let still : live tree buried d j ≡ true =
                still_live tail index d j (a.lives d j) put_live (same.lives d j ∙ k) dead in
              s.items d j put_live ∙ a.items d j still ∙ b.items d j ∙ same.items d j k;
          valid = w;
        },
      )
    where
      still_live :
          (t k d j : ℕ)
          → live tree (put_item tree item (cleared c i open_log)) d j
            ≡ (if t == d && k == j then true else live tree (cleared c i open_log) d j)
          → live tree (put_item tree item (cleared c i open_log)) d j ≡ true
          → live tree open_log d j ≡ true
          → has_item (open_log.vlchunks t) k ≡ false
          → live tree (cleared c i open_log) d j ≡ true
      still_live t k d j e p q r = elim (Bool-cases (t == d && k == j)) [
        | inl here ↦
            let to_d : t ≡ d = ground (arith, here) in
            let to_j : k ≡ j = ground (arith, here) in
            absurd (
              ground (
                arith,
                q,
                subst (λ x. has_item (open_log.vlchunks x) j ≡ false) to_d
                    (subst (λ x. has_item (open_log.vlchunks t) x ≡ false) to_j r),
              ))
        | inr other ↦
            sym (
              subst
                (λ b.
                  live tree (put_item tree item (cleared c i open_log)) d j
                  ≡ (if b then true else live tree (cleared c i open_log) d j))
                other e)
            ∙ p
      ]

      has_item_of : (x y : Bool) → (x && y) ≡ true → y ≡ true
      has_item_of x y e = ground arith

  -- Logging the free of a live item, on a well-formed log in the 48-bit address space with room in
  -- the log file and num_of_items not 0, returns: that item is no longer live, a FREE item that
  -- holds its address is, in a slot that was not live, and the other live items stay as they were,
  -- whether or not chunks are collected.
  pub add_log-FreesItem :
      (c i size : ℕ) (slab : Bool) (vlog : Vlog T)
      → IsLog tree vlog
      → live tree vlog c i ≡ true
      → i < 126
      → c + 1024 ≤ 2 ^ 48
      → vlog.num_of_items ≢ 0
      → vlog.log_file_used + 1024 < log_file_size
      → FreesItem c i vlog (add_log tree 1 (item_addr c i) size slab vlog)
  unfolding add_log
  add_log-FreesItem c i size slab vlog v held h top ne room =
      let (open_log, e, x) = extend-Extends tree laws vlog v room in
      let held' : live tree open_log c i ≡ true = x.same.lives c i ∙ held in
      let in_tree : tree.search c open_log.vlchunk_tree ≡ true = ground (arith, held') in
      let small : item_addr c i % 2 ^ 48 ≡ item_addr c i = mod-eq_of_lt (omega arith) in
      let found = bury_lem c i open_log x.valid held' h top in
      let (after, t, f) =
        bury_and_put c i
          (record {
            type = 1;
            ptr = item_addr c i % 2 ^ 48;
            size_version_id = (open_log.vlchunks c).id % 2 ^ 14;
          })
          vlog open_log x.same x.valid x.room held' h (λ z. ne (sym x.counter ∙ z)) refl small in
      rw (add_log, e, small, found, t) f
