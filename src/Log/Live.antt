-- ===== src/Log/Live.antt =====
-- What a log stands for: the items that are live, by chunk and index, and what they say.
use pmalloc.Prelude.{
  ℕ, ◌+◌, ◌*◌, ◌/◌, ◌%◌, ◌^◌, ◌<◌, ◌≤◌, ◌≡◌, Bool, true, false, ◌&&◌, ◌==◌, if◌then◌else◌, List,
  get_or, set, length, arith, get_or-set_self, get_or-set_ne, bit_and,
}
use pmalloc.Word.{complement}
use pmalloc.Word.Bit.{test_bit-and, test_bit-pow, test_bit-complement}
use pmalloc.Bitmap.{is_free, bitmap_unset_bits}
use pmalloc.Bitmap.Laws.{is_free-unset}
use pmalloc.Interleave.Inverse.{back}
use pmalloc.Word.Bounds.{pow_lt}
use pmalloc.Log.{
  Vlog, Vlchunk, LogItem, ChunkTree, set_bitmap, listed, Distinct, ptr2lchunk, ptr2lindex,
  item_addr,
}

-- Whether the bit of slot `i` is set.
abbrev pub has_item : Vlchunk → ℕ → Bool
has_item vlchunk i = is_free vlchunk.bitmap i

pub has_item-set :
    (vlchunk : Vlchunk) (i j : ℕ)
    → i < 64 * length vlchunk.bitmap
    → has_item (set_bitmap vlchunk i true) j ≡ (if i == j then true else has_item vlchunk j)
unfolding set_bitmap bitmap_unset_bits
has_item-set vlchunk i j h = is_free-unset vlchunk.bitmap i j h

get_or-set :
    (xs : List ℕ) (i j v : ℕ)
    → i < length xs
    → get_or (set xs i v) j 0 ≡ (if i == j then v else get_or xs j 0)
get_or-set xs i j v h = ground (arith, get_or-set_self xs i v 0 h, get_or-set_ne xs i j v 0)

pub has_item-clear :
    (vlchunk : Vlchunk) (i j : ℕ)
    → i < 64 * length vlchunk.bitmap
    → has_item (set_bitmap vlchunk i false) j ≡ (if i == j then false else has_item vlchunk j)
unfolding set_bitmap is_free
has_item-clear vlchunk i j h = ground (
  arith,
  get_or-set vlchunk.bitmap (i / 64) (j / 64)
      (bit_and (get_or vlchunk.bitmap (i / 64) 0) (complement 64 (2 ^ (i % 64)))),
  test_bit-and (j % 64) (get_or vlchunk.bitmap (i / 64) 0) (complement 64 (2 ^ (i % 64))),
  test_bit-complement 64 (2 ^ (i % 64)) (j % 64) (pow_lt 64 (i % 64) (omega arith)) (omega arith),
  test_bit-pow (i % 64) (j % 64),
)

-- The address of one of the 126 items of an aligned chunk in the 48-bit address space leads back
-- to its chunk and to its index.
pub ptr2lindex-item :
    (c i : ℕ)
    → c % 1024 ≡ 0
    → i < 126
    → c + 1024 ≤ 2 ^ 48
    → (ptr2lchunk (item_addr c i) ≡ c) × (ptr2lindex (item_addr c i) c ≡ i)
ptr2lindex-item c i h k top = omega arith

module _ {T : Type 0} (tree : ChunkTree T) where
  -- Slot `i` of chunk `c` holds a live item.
  abbrev pub live : Vlog T → ℕ → ℕ → Bool
  live vlog c i = tree.search c vlog.vlchunk_tree && has_item (vlog.vlchunks c) i

  abbrev pub item_at : Vlog T → ℕ → ℕ → LogItem
  item_at vlog c i = (vlog.lchunks c).items i

  -- The two logs have the same live items.
  pub record SameItems (before after : Vlog T) : Type 0 where
    pub lives : (c i : ℕ) → live after c i ≡ live before c i
    pub items : (c i : ℕ) → live before c i ≡ true → item_at after c i ≡ item_at before c i

  -- The second log has `item` too, in a slot that was not live.
  pub record Adds (c i : ℕ) (item : LogItem) (before after : Vlog T) : Type 0 where
    pub was_dead : live before c i ≡ false
    pub lives : (d j : ℕ) → live after d j ≡ (if c == d && i == j then true else live before d j)
    pub stored : item_at after c i ≡ item
    pub items : (d j : ℕ) → live before d j ≡ true → item_at after d j ≡ item_at before d j

-- No item stands behind the `count` first ones, in the order of `count_to_index`.
pub record IsChunk (c : ℕ) (vlchunk : Vlchunk) : Type 0 where
  pub words : length vlchunk.bitmap ≡ 2
  pub slots : (i : ℕ) → has_item vlchunk i ≡ true → back 8 i < vlchunk.count
  pub cap : vlchunk.count ≤ 100
  pub aligned : c % 1024 ≡ 0

-- What holds of the chunks, the tree and the free list of a log between two operations. It says
-- nothing of the chain of chunks (`next`, `pre_lchunk`), which `fast_GC` does not keep whole.
pub record IsLog {T : Type 0} (tree : ChunkTree T) (vlog : Vlog T) : Type 0 where
  pub tail_in : tree.search vlog.tail_vlchunk vlog.vlchunk_tree ≡ true
  pub in_tree :
      (c : ℕ)
      → tree.search c vlog.vlchunk_tree ≡ true
      → IsChunk c (vlog.vlchunks c) × (c < vlog.log_file_addr + vlog.log_file_used)
  pub in_free :
      (c : ℕ)
      → listed c vlog.global_free_list ≡ true
      → (tree.search c vlog.vlchunk_tree ≡ false)
        × (c % 1024 ≡ 0)
        × (c < vlog.log_file_addr + vlog.log_file_used)
  pub distinct : Distinct vlog.global_free_list
  pub addr_aligned : vlog.log_file_addr % 1024 ≡ 0
  pub used_aligned : vlog.log_file_used % 1024 ≡ 0
