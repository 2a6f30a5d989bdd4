-- ===== src/Log/Keep.antt =====
-- The two steps that every append to the log makes: a full tail gets a successor, and the item
-- goes into the next slot of the tail.
use mathlib.Core.Logic.{inl, inr}
use pmalloc.Prelude.{
  ℕ, ◌+◌, ◌/◌, ◌<◌, ◌≤◌, ◌≡◌, refl, ◌∙◌, Bool, true, false, ◌==◌, ==_iff, if◌then◌else◌, length,
  arith, Bool-cases, length-set,
}
use pmalloc.Interleave.{count_to_index}
use pmalloc.Interleave.Inverse.{count_to_index-back}
use pmalloc.Log.{Vlog, Vlchunk, LogItem, ChunkTree, set_bitmap}
use pmalloc.Log.Append.{put_item}
use pmalloc.Log.Live.{has_item, has_item-set, item_at, Adds, IsChunk, IsLog}

-- Below 100 items there is a slot for the next.
pub index_room :
    (k : ℕ) → k ≤ 100 → (126 ≤ count_to_index k → k ≡ 100) × (count_to_index k < 126 → k < 100)
unfolding count_to_index
index_room k h = (λ e. omega arith, λ e. omega arith)

pub set_bitmap-length :
    (vlchunk : Vlchunk) (i : ℕ) (b : Bool)
    → length (set_bitmap vlchunk i b).bitmap ≡ length vlchunk.bitmap
unfolding set_bitmap
set_bitmap-length vlchunk i true = length-set vlchunk.bitmap (i / 64) _
set_bitmap-length vlchunk i false = length-set vlchunk.bitmap (i / 64) _

pub set_bitmap_count :
    (vlchunk : Vlchunk) (i : ℕ) (b : Bool) → (set_bitmap vlchunk i b).count ≡ vlchunk.count
unfolding set_bitmap
set_bitmap_count vlchunk i true = refl
set_bitmap_count vlchunk i false = refl

-- An item more: the next slot in the order of `count_to_index`.
put-IsChunk :
    (c : ℕ) (vlchunk : Vlchunk)
    → IsChunk c vlchunk
    → count_to_index vlchunk.count < 126
    → IsChunk c (
        set_bitmap
          (record vlchunk { count = vlchunk.count + 1 })
          (count_to_index vlchunk.count)
          true)
put-IsChunk c vlchunk v h = record {
  words =
      set_bitmap-length (record vlchunk { count = vlchunk.count + 1 })
        (count_to_index vlchunk.count) true
      ∙ v.words;
  slots = λ i e. ground (arith, v.slots i, count_to_index-back vlchunk.count, slot i, more);
  cap = omega (arith, more, v.cap, (index_room vlchunk.count v.cap).1 h);
  aligned = v.aligned;
}
  where
    more :
        (set_bitmap
          (record vlchunk { count = vlchunk.count + 1 })
          (count_to_index vlchunk.count)
          true).count
        ≡ vlchunk.count + 1
    more =
        set_bitmap_count (record vlchunk { count = vlchunk.count + 1 })
          (count_to_index vlchunk.count) true

    slot :
        (i : ℕ)
        → has_item
            (set_bitmap
              (record vlchunk { count = vlchunk.count + 1 })
              (count_to_index vlchunk.count)
              true)
            i
          ≡ (if count_to_index vlchunk.count == i then true else has_item vlchunk i)
    slot i =
        has_item-set (record vlchunk { count = vlchunk.count + 1 }) (count_to_index vlchunk.count) i
          (omega (arith, v.words))

-- The next slot of a chunk is not in use.
pub next_slot_dead :
    (c : ℕ) (vlchunk : Vlchunk)
    → IsChunk c vlchunk
    → has_item vlchunk (count_to_index vlchunk.count) ≡ false
next_slot_dead c vlchunk v = elim (Bool-cases (has_item vlchunk (count_to_index vlchunk.count))) [
  | inl used ↦ absurd (omega (arith, v.slots _ used, count_to_index-back vlchunk.count))
  | inr free ↦ free
]

module _ {T : Type 0} (tree : ChunkTree T) where
  -- With room in the tail, the item goes into a slot that was not live.
  pub put_item-Adds :
      (item : LogItem) (vlog : Vlog T)
      → IsLog tree vlog
      → count_to_index (vlog.vlchunks vlog.tail_vlchunk).count < 126
      → Adds tree vlog.tail_vlchunk
          (count_to_index (vlog.vlchunks vlog.tail_vlchunk).count)
          item
          vlog
          (put_item tree item vlog)
  unfolding put_item
  put_item-Adds item vlog v h =
      let tail = vlog.tail_vlchunk in
      let vlchunk = vlog.vlchunks tail in
      let (chunk, low) = v.in_tree tail v.tail_in in
      let dead = next_slot_dead tail vlchunk chunk in
      record {
        was_dead = ground (arith, dead);
        lives = λ d j. ground (arith, slot j, dead, v.tail_in);
        stored = stored;
        items = λ d j e. ground (arith, dead);
      }
    where
      stored :
          item_at tree
            (put_item tree item vlog)
            vlog.tail_vlchunk
            (count_to_index (vlog.vlchunks vlog.tail_vlchunk).count)
          ≡ item
      stored = ground arith

      slot :
          (i : ℕ)
          → has_item
              (set_bitmap
                (record (vlog.vlchunks vlog.tail_vlchunk) {
                  count = (vlog.vlchunks vlog.tail_vlchunk).count + 1;
                })
                (count_to_index (vlog.vlchunks vlog.tail_vlchunk).count)
                true)
              i
            ≡ (if count_to_index (vlog.vlchunks vlog.tail_vlchunk).count == i
                then true
                else has_item (vlog.vlchunks vlog.tail_vlchunk) i)
      slot i =
          has_item-set
            (record (vlog.vlchunks vlog.tail_vlchunk) {
              count = (vlog.vlchunks vlog.tail_vlchunk).count + 1;
            })
            (count_to_index (vlog.vlchunks vlog.tail_vlchunk).count) i
            (omega (arith, (v.in_tree vlog.tail_vlchunk v.tail_in).0.words))

  pub put_item-IsLog :
      (item : LogItem) (vlog : Vlog T)
      → IsLog tree vlog
      → count_to_index (vlog.vlchunks vlog.tail_vlchunk).count < 126
      → IsLog tree (put_item tree item vlog)
  unfolding put_item
  put_item-IsLog item vlog v h = record {
    tail_in = v.tail_in;
    in_tree = λ c e. elim (Bool-cases (vlog.tail_vlchunk == c)) [
      | inl here ↦ rw here (at_tail c ((==_iff _ _).0 here))
      | inr other ↦ rw other (v.in_tree c e)
    ];
    in_free = v.in_free;
    distinct = v.distinct;
    addr_aligned = v.addr_aligned;
    used_aligned = v.used_aligned;
  }
    where
      at_tail :
          (c : ℕ)
          → vlog.tail_vlchunk ≡ c
          → IsChunk c (
              set_bitmap
                (record (vlog.vlchunks vlog.tail_vlchunk) {
                  count = (vlog.vlchunks vlog.tail_vlchunk).count + 1;
                })
                (count_to_index (vlog.vlchunks vlog.tail_vlchunk).count)
                true)
            × (c < vlog.log_file_addr + vlog.log_file_used)
      at_tail c e = rw⁻¹ e (
        put-IsChunk vlog.tail_vlchunk (vlog.vlchunks vlog.tail_vlchunk)
            (v.in_tree vlog.tail_vlchunk v.tail_in).0 h,
        (v.in_tree vlog.tail_vlchunk v.tail_in).1,
      )
