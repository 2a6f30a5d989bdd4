-- ===== src/Log/Appends.antt =====
-- What the appends to the log promise, over the live items.
use mathlib.Core.Logic.{inl, inr}
use pmalloc.Prelude.{
  ℕ, ◌+◌, ◌*◌, ◌/◌, ◌%◌, ◌^◌, ◌<◌, ◌≡◌, ◌≢◌, refl, sym, ◌∙◌, Bool, true, false, ◌==◌, leb,
  if◌then◌else◌, Option, some, arith, Bool-cases,
}
use pmalloc.Interleave.{count_to_index}
use pmalloc.Log.{Vlog, LogItem, ChunkTree, IsChunkTree, item_addr, log_file_size}
use pmalloc.Log.Gc.{tick_gc}
use pmalloc.Log.Append.{put_item, next_addr, add_log, add_log_for_gc}
use pmalloc.Log.Live.{has_item, SameItems, Adds, IsLog}
use pmalloc.Log.Keep.{put_item-Adds, put_item-IsLog}
use pmalloc.Log.Extend.{extend-Extends}
use pmalloc.Log.Collect.{fast_gc-SameItems}

-- An append that returns the address of a slot of chunk `chunk`.
pub record Appends {T : Type 0} (tree : ChunkTree T) (item : LogItem) (before : Vlog T)
    (result : Option (ℕ × Vlog T)) : Type 0 where
  pub chunk : ℕ
  pub index : ℕ
  pub after : Vlog T
  pub returns : result ≡ some (item_addr chunk index, after)
  pub adds : Adds tree chunk index item before after
  pub valid : IsLog tree after

module _ {T : Type 0} (tree : ChunkTree T) (laws : IsChunkTree tree) where
  pub Adds-after :
      (c i : ℕ) (item : LogItem) (x y z : Vlog T)
      → SameItems tree x y
      → Adds tree c i item y z
      → Adds tree c i item x z
  Adds-after c i item x y z s a = record {
    was_dead = sym (s.lives c i) ∙ a.was_dead;
    lives = λ d j. ground (arith, a.lives d j, s.lives d j);
    stored = a.stored;
    items = λ d j e. a.items d j (s.lives d j ∙ e) ∙ s.items d j e;
  }

  pub put-Appends :
      (item : LogItem) (vlog : Vlog T)
      → IsLog tree vlog
      → count_to_index (vlog.vlchunks vlog.tail_vlchunk).count < 126
      → (before : Vlog T) → SameItems tree before vlog
      → Appends tree item before (some (next_addr tree vlog, put_item tree item vlog))
  put-Appends item vlog v room before same = record {
    chunk = vlog.tail_vlchunk;
    index = count_to_index (vlog.vlchunks vlog.tail_vlchunk).count;
    after = put_item tree item vlog;
    returns = refl;
    adds = Adds-after _ _ item before vlog _ same (put_item-Adds tree item vlog v room);
    valid = put_item-IsLog tree item vlog v room;
  }

  pub counted :
      (vlog : Vlog T) → IsLog tree vlog → (n : ℕ) → IsLog tree (record vlog { num_of_items = n })
  counted vlog v n = record {
    tail_in = v.tail_in;
    in_tree = v.in_tree;
    in_free = v.in_free;
    distinct = v.distinct;
    addr_aligned = v.addr_aligned;
    used_aligned = v.used_aligned;
  }

  -- Logging an allocation or a file (a type other than FREE_LOG), on a well-formed log with room
  -- in the log file, returns the address of a slot that was not live; the item is in that slot, no
  -- other slot changes its liveness, every live item stays as it was, and the log stays well
  -- formed.
  pub add_log-Appends :
      (type ptr size : ℕ) (slab : Bool) (vlog : Vlog T)
      → IsLog tree vlog
      → type % 4 ≢ 1
      → vlog.log_file_used + 1024 < log_file_size
      → Appends tree
          (record {
            type = type % 4;
            ptr = ptr % 2 ^ 48;
            size_version_id = (if slab then size + 1 else size) % 2 ^ 14;
          })
          vlog
          (add_log tree type ptr size slab vlog)
  unfolding add_log
  add_log-Appends type ptr size slab vlog v kind room =
      let (open_log, e, x) = extend-Extends tree laws vlog v room in
      let other : (type % 4 == 1) ≡ false = ground arith in
      rw (add_log, e, other)
        (put-Appends _ (record open_log { num_of_items = (open_log.num_of_items + 1) % 2 ^ 64 })
          (counted open_log x.valid _) x.room vlog
          (record { lives = λ c i. x.same.lives c i; items = λ c i h. x.same.items c i h }))

  -- The copy of an item into the log that slow_GC builds, when that is well formed and has room in
  -- the log file, returns and goes to a slot that was not live and leaves every live item as it
  -- was.
  pub add_log_for_gc-Appends :
      (item : LogItem) (vlog : Vlog T)
      → IsLog tree vlog
      → vlog.log_file_used + 1024 < log_file_size
      → Appends tree item vlog (add_log_for_gc tree item vlog)
  unfolding add_log_for_gc
  add_log_for_gc-Appends item vlog v room =
      let (open_log, e, x) = extend-Extends tree laws vlog v room in
      rw (add_log_for_gc, e)
        (put-Appends item (record open_log { num_of_items = (open_log.num_of_items + 1) % 2 ^ 64 })
          (counted open_log x.valid _) x.room vlog
          (record { lives = λ c i. x.same.lives c i; items = λ c i h. x.same.items c i h }))

  pub retimed :
      (vlog : Vlog T) (timer posts : ℕ)
      → IsLog tree vlog
      → let after = record vlog { gc_timer = timer; gc_posts = posts } in
        SameItems tree vlog after × IsLog tree after
  retimed vlog timer posts v = (
    record { lives = λ c i. refl; items = λ c i e. refl },
    record {
      tail_in = v.tail_in;
      in_tree = v.in_tree;
      in_free = v.in_free;
      distinct = v.distinct;
      addr_aligned = v.addr_aligned;
      used_aligned = v.used_aligned;
    },
  )

  -- A tick of the collector with `num_of_items` not 0 and an item in the tail keeps the live items
  -- and the log's form, whether it collects or not.
  pub tick_gc-SameItems :
      (vlog : Vlog T) (i : ℕ)
      → IsLog tree vlog
      → has_item (vlog.vlchunks vlog.tail_vlchunk) i ≡ true
      → vlog.num_of_items ≢ 0
      → (after : Vlog T) × (tick_gc tree vlog ≡ some after)
        × SameItems tree vlog after
        × IsLog tree after
  unfolding tick_gc
  tick_gc-SameItems vlog i v held ne =
      let some_left : (vlog.num_of_items == 0) ≡ false = ground arith in
      elim (Bool-cases (vlog.gc_timer + 1 == 10000)) [
        | inl due ↦ elim (Bool-cases (leb 10 ratio)) [
          | inl slow ↦
              let (a, b) = retimed vlog 0 (vlog.gc_posts + 1) v in
              (_, rw (tick_gc, due, some_left, slow) refl, a, b)
          | inr less ↦ elim (Bool-cases (leb 2 ratio)) [
            | inl fast ↦
                let (same, valid_log) =
                  fast_gc-SameItems tree laws (record vlog { gc_timer = 0 }) i
                    (retimed vlog 0 vlog.gc_posts v).1 held in
                (
                  _,
                  rw (tick_gc, due, some_left, less, fast) refl,
                  record { lives = λ c j. same.lives c j; items = λ c j h. same.items c j h },
                  valid_log,
                )
            | inr fresh ↦
                let (a, b) = retimed vlog 0 vlog.gc_posts v in
                (_, rw (tick_gc, due, some_left, less, fresh) refl, a, b)
          ]
        ]
        | inr later ↦
            let (a, b) = retimed vlog (vlog.gc_timer + 1) vlog.gc_posts v in
            (_, rw (tick_gc, later) refl, a, b)
      ]
    where
      ratio : ℕ
      ratio = vlog.num_of_chunks * 126 / vlog.num_of_items
