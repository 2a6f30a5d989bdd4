-- ===== src/Log/Flush.antt =====
-- The flusher's round: every pending tombstone gets into the log.
use pmalloc.Prelude.{
  ℕ, zero, suc, ◌+◌, ◌*◌, ◌<◌, ◌≤◌, ◌≡◌, refl, sym, ◌∙◌, ap, false, ◌==◌, ◌⊎◌, inl, inr, Option,
  none, some, List, [], ◌∷◌, ◌++◌, length, arith,
}
use pmalloc.Interleave.{count_to_index}
use pmalloc.Log.{Vlog, LogItem, ChunkTree, IsChunkTree, log_file_size}
use pmalloc.Log.Gc.{tick_gc}
use pmalloc.Log.Append.{put_item, flush_tomb}
use pmalloc.Log.Live.{SameItems, Adds, IsLog}
use pmalloc.Log.Keep.{put_item-Adds, put_item-IsLog}
use pmalloc.Log.Extend.{extend-Extends}
use pmalloc.Log.Appends.{Adds-after, retimed}
use pmalloc.Log.Tomb.{ShadowChunk, Tombs, flush_items, flush_chunks, numa_log_extent_flusher}
use pmalloc.Log.Pending.{items_of, pending_in, pending}

Option-cases : {A : Type 0} (r : Option A) → (r ≡ none) ⊎ ((x : A) × (r ≡ some x))
Option-cases none = inl refl
Option-cases (some x) = inr (x, refl)

module _ {T : Type 0} (tree : ChunkTree T) (laws : IsChunkTree tree) where
  -- The second log has the items too, each in a slot of its own.
  abbrev pub AddsAll : List LogItem → Vlog T → Vlog T → Type 0
  AddsAll [] before after = SameItems tree before after
  AddsAll (item ∷ items) before after =
      (mid : Vlog T) × (c : ℕ) × (i : ℕ) × Adds tree c i item before mid × AddsAll items mid after

  -- A tombstone behind which the collector does not run.
  record Flushed (tomb : LogItem) (before after : Vlog T) : Type 0 where
    chunk : ℕ
    index : ℕ
    adds : Adds tree chunk index tomb before after
    valid : IsLog tree after
    timer : after.gc_timer ≡ before.gc_timer + 1
    items : after.num_of_items ≡ before.num_of_items
    used : after.log_file_used ≤ before.log_file_used + 1024

  flush_tomb-Flushed :
      (tomb : LogItem) (vlog : Vlog T)
      → IsLog tree vlog
      → vlog.gc_timer + 1 < 10000
      → vlog.log_file_used + 1024 < log_file_size
      → (after : Vlog T) × (flush_tomb tree tomb vlog ≡ some after) × Flushed tomb vlog after
  unfolding flush_tomb put_item tick_gc
  flush_tomb-Flushed tomb vlog v early room =
      let (open_log, e, x) = extend-Extends tree laws vlog v room in
      let put = put_item tree tomb open_log in
      let later : (open_log.gc_timer + 1 == 10000) ≡ false = ground (arith, x.timer) in
      let (s, w) =
        retimed tree laws put (open_log.gc_timer + 1) put.gc_posts
          (put_item-IsLog tree tomb open_log x.valid x.room) in
      let a =
        Adds-after tree laws open_log.tail_vlchunk
          (count_to_index (open_log.vlchunks open_log.tail_vlchunk).count) tomb vlog open_log put
          x.same (put_item-Adds tree tomb open_log x.valid x.room) in
      (
        record put { gc_timer = open_log.gc_timer + 1 },
        rw (flush_tomb, e, tick_gc, later) refl,
        record {
          chunk = open_log.tail_vlchunk;
          index = count_to_index (open_log.vlchunks open_log.tail_vlchunk).count;
          adds = record {
            was_dead = a.was_dead;
            lives = λ d j. a.lives d j;
            stored = a.stored;
            items = λ d j h. a.items d j h;
          };
          valid = w;
          timer = ap (λ n. n + 1) x.timer;
          items = x.counter;
          used = x.used;
        },
      )

  -- The tombstones of a list, in order.
  flush_all : List LogItem → Vlog T → Option (Vlog T)
  flush_all [] vlog = some vlog
  flush_all (tomb ∷ tombs) vlog = elim (flush_tomb tree tomb vlog) [
    | none ↦ none
    | some vlog' ↦ flush_all tombs vlog'
  ]

  then_all : List LogItem → Option (Vlog T) → Option (Vlog T)
  then_all tombs none = none
  then_all tombs (some vlog) = flush_all tombs vlog

  flush_all-append :
      (xs ys : List LogItem) (vlog : Vlog T)
      → flush_all (xs ++ ys) vlog ≡ then_all ys (flush_all xs vlog)
  unfolding flush_all then_all
  flush_all-append [] ys vlog = refl
  flush_all-append (x ∷ xs) ys vlog = elim (Option-cases (flush_tomb tree x vlog)) [
    | inl e ↦ rw (e, flush_all) refl
    | inr (vlog', e) ↦ rw (e, flush_all) (flush_all-append xs ys vlog')
  ]

  flush_items-all :
      (n i : ℕ) (items : ℕ → LogItem) (vlog : Vlog T)
      → flush_items tree n i items vlog ≡ flush_all (items_of n i items) vlog
  unfolding flush_items flush_all items_of
  flush_items-all zero i items vlog = refl
  flush_items-all (suc n) i items vlog = elim (Option-cases (flush_tomb tree (items i) vlog)) [
    | inl e ↦ rw (e, flush_items, flush_all) refl
    | inr (vlog', e) ↦ rw (e, flush_items, flush_all) (flush_items-all n (i + 1) items vlog')
  ]

  flush_chunks-all :
      (chunks : List ShadowChunk) (vlog : Vlog T)
      → flush_chunks tree chunks vlog ≡ flush_all (pending_in chunks) vlog
  unfolding flush_chunks flush_all then_all pending_in
  flush_chunks-all [] vlog = refl
  flush_chunks-all (chunk ∷ rest) vlog =
      rw (flush_items-all chunk.cnt 0 chunk.items vlog, flush_chunks)
        (by_first (flush_chunks-all rest) (flush_all (items_of chunk.cnt 0 chunk.items) vlog)
          ∙ sym (flush_all-append (items_of chunk.cnt 0 chunk.items) (pending_in rest) vlog))
    where
      by_first :
          ((vlog' : Vlog T) → flush_chunks tree rest vlog' ≡ flush_all (pending_in rest) vlog')
          → (r : Option (Vlog T))
          → elim r [ none ↦ none | some vlog' ↦ flush_chunks tree rest vlog' ]
            ≡ then_all (pending_in rest) r
      by_first more none = refl
      by_first more (some vlog') = more vlog'

  flush_all-AddsAll :
      (tombs : List LogItem) (vlog : Vlog T)
      → IsLog tree vlog
      → vlog.gc_timer + length tombs < 10000
      → vlog.log_file_used + 1024 * length tombs < log_file_size
      → (after : Vlog T) × (flush_all tombs vlog ≡ some after)
        × IsLog tree after
        × AddsAll tombs vlog after
  unfolding flush_all
  flush_all-AddsAll [] vlog v early room =
      (vlog, refl, v, record { lives = λ c i. refl; items = λ c i e. refl })
  flush_all-AddsAll (tomb ∷ tombs) vlog v early room =
      let (mid, e, f) = flush_tomb-Flushed tomb vlog v (omega arith) (omega arith) in
      let (after, r, w, a) =
        flush_all-AddsAll tombs mid f.valid (omega (arith, f.timer)) (omega (arith, f.used)) in
      (after, rw (e, flush_all) r, w, (mid, f.chunk, f.index, f.adds, a))

  abbrev emptied : Tombs → Tombs
  emptied tombs = record { head = record tombs.head { cnt = 0 }; next = [] }

  -- On a well-formed log, when no collection is due for as many tombstones as are pending and the
  -- log file has room for a chunk for each, a round of the flusher ends: no tombstone is pending
  -- then, and each one that was is an item of the log, in a slot that was not live, while the live
  -- items stay as they were.
  pub numa_log_extent_flusher-AddsAll :
      (tombs : Tombs) (vlog : Vlog T)
      → IsLog tree vlog
      → vlog.gc_timer + length (pending tombs) < 10000
      → vlog.log_file_used + 1024 * length (pending tombs) < log_file_size
      → (tombs' : Tombs) × (after : Vlog T) × (numa_log_extent_flusher tree tombs vlog
          ≡ some (tombs', after))
        × (pending tombs' ≡ [])
        × IsLog tree after
        × AddsAll (pending tombs) vlog after
  unfolding numa_log_extent_flusher pending pending_in items_of then_all
  numa_log_extent_flusher-AddsAll tombs vlog v early room =
      let (after, run, w, a) = flush_all-AddsAll (pending tombs) vlog v early room in
      let last = items_of tombs.head.cnt 0 tombs.head.items in
      let whole = sym (flush_all-append (pending_in tombs.next) last vlog) ∙ run in
      (
        emptied tombs,
        after,
        rw (flush_chunks-all tombs.next vlog, numa_log_extent_flusher)
            (by_next after last (flush_items-all tombs.head.cnt 0 tombs.head.items)
              (flush_all (pending_in tombs.next) vlog) whole),
        refl,
        w,
        a,
      )
    where
      by_next :
          (after : Vlog T) (last : List LogItem)
          → ((vlog' : Vlog T)
              → flush_items tree tombs.head.cnt 0 tombs.head.items vlog' ≡ flush_all last vlog')
          → (r : Option (Vlog T)) → then_all last r ≡ some after
          → ◌≡◌ {A = Option (Tombs × Vlog T)}
              (elim r [
                | none ↦ none
                | some vlog' ↦ elim (flush_items tree tombs.head.cnt 0 tombs.head.items vlog') [
                  | none ↦ none
                  | some vlog'' ↦ some (emptied tombs, vlog'')
                ]
              ])
              (some (emptied tombs, after))
      by_next after last all none e = absurd (cc)
      by_next after last all (some vlog') e = rw (all vlog' ∙ e) refl
