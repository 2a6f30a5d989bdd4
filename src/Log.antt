-- ===== src/Log.antt =====
-- The allocation log of an arena: src/log.c, include/pmalloc/internal/log.h, and the list of free
-- chunks of simple_list.h. The operations that move between chunks are in the child modules.
--
-- A log chunk is named by its address. The `vlchunk_t` that describes it keeps that chunk for
-- life, so it goes by the same name, and `vlchunk_tree` is a set of such names. The red-black
-- tree is generated by rb.h; what log.c asks of it is the record `ChunkTree`.
pub mod Append
pub mod Gc
pub mod Live
pub mod Keep
pub mod Supply
pub mod Extend
pub mod Appends
pub mod Free
pub mod Start
pub mod Collect
pub mod Tomb
pub mod Pending
pub mod Flush
pub mod Slow
pub mod Created
pub mod Copied
pub mod Step
pub mod Rebuilt
pub mod Round
mod Tests
use pmalloc.Prelude.{
  ℕ, zero, suc, ◌+◌, ◌-◌, ◌*◌, ◌/◌, ◌%◌, ◌^◌, ◌<◌, Bool, true, false, ◌&&◌, ◌||◌, Option, none,
  some, List, [], ◌∷◌, ◌++◌, ◌==◌, leb, if◌then◌else◌, get_or, set, replicate, bit_and, bit_or, ◌≡◌,
  ◌≢◌,
}
use pmalloc.Word.{complement}
use pmalloc.Cache.{update}

-- `log_item_t`: a type on 2 bits, an address on 48 and a size, version or file number on 14.
pub record LogItem : Type 0 where
  pub type : ℕ
  pub ptr : ℕ
  pub size_version_id : ℕ

abbrev pub normal_log : ℕ
normal_log = 0

abbrev pub free_log : ℕ
free_log = 1

abbrev pub file_log : ℕ
file_log = 2

-- `lchunk_t`, in the log file. `next` is 0 at the end of the chain.
pub record Lchunk : Type 0 where
  pub next : ℕ
  pub id : ℕ
  pub items : ℕ → LogItem

-- `vlchunk_t`, its description in volatile memory. `pre_lchunk` is 0 for none.
pub record Vlchunk : Type 0 where
  pub count : ℕ
  pub bitmap : List ℕ
  pub id : ℕ
  pub pre_lchunk : ℕ

abbrev pub lchunk_size : ℕ
lchunk_size = 1024

abbrev pub log_file_size : ℕ
log_file_size = 10737418240

-- `sizeof(lchunk_t)` is 16 and ITEM_SIZE is 8, so BITMAP_ARRAY_SIZE is 2.
abbrev pub n_items_per_lchunk : ℕ
n_items_per_lchunk = 126

-- What the log uses of the tree that rb.h generates. `to_list` is the order of
-- `vlchunk_tree_first` and `vlchunk_tree_next`.
pub record ChunkTree (T : Type 0) : Type 0 where
  pub empty : T
  pub search : ℕ → T → Bool
  pub insert : ℕ → T → T
  pub remove : ℕ → T → T
  pub to_list : T → List ℕ

-- Whether an address is in a list of addresses.
unfoldable pub listed : ℕ → List ℕ → Bool
listed c [] = false
listed c (x ∷ xs) = x == c || listed c xs

-- No address occurs twice.
abbrev pub Distinct : List ℕ → Type 0
Distinct [] = Unit
Distinct (x ∷ xs) = (listed x xs ≡ false) × Distinct xs

-- What the tree documents: it is a set of the keys that were put in and not removed.
pub record IsChunkTree {T : Type 0} (tree : ChunkTree T) : Type 0 where
  pub search-empty : (c : ℕ) → tree.search c tree.empty ≡ false
  pub search-insert :
      (c d : ℕ) (t : T) → tree.search c (tree.insert d t) ≡ (d == c || tree.search c t)
  pub search-remove :
      (c d : ℕ) (t : T)
      → tree.search c (tree.remove d t) ≡ (if d == c then false else tree.search c t)
  pub search-to_list : (c : ℕ) (t : T) → tree.search c t ≡ listed c (tree.to_list t)
  pub distinct : (t : T) → Distinct (tree.to_list t)

-- `vlog_t`, the two kinds of chunks that it reaches, and the posts to `arena->GC_sem`.
pub record Vlog (T : Type 0) : Type 0 where
  pub lchunks : ℕ → Lchunk
  pub vlchunks : ℕ → Vlchunk
  pub vlchunk_tree : T
  pub tail_vlchunk : ℕ
  pub root_lchunk : ℕ
  pub gc_timer : ℕ
  pub global_lchunk_id : ℕ
  pub global_free_list : List ℕ
  pub log_file_addr : ℕ
  pub log_file_used : ℕ
  pub num_of_chunks : ℕ
  pub num_of_items : ℕ
  pub gc_posts : ℕ

-- `ptr2lchunk` and `ptr2lindex`, with the address of an item.
abbrev pub ptr2lchunk : ℕ → ℕ
ptr2lchunk ptr = ptr - ptr % lchunk_size

abbrev pub ptr2lindex : ℕ → ℕ → ℕ
ptr2lindex ptr lchunk = (ptr + 2 ^ 64 - lchunk - 16) % 2 ^ 64 / 8

abbrev pub item_addr : ℕ → ℕ → ℕ
item_addr lchunk index = lchunk + 16 + index * 8

-- `set_bitmap`. The index is below N_ITEMS_PER_LCHUNK, as the function asserts.
unfoldable pub set_bitmap : Vlchunk → ℕ → Bool → Vlchunk
set_bitmap vlchunk index true = record vlchunk {
  bitmap =
      set vlchunk.bitmap (index / 64)
        (bit_or (get_or vlchunk.bitmap (index / 64) 0) (2 ^ (index % 64)));
}
set_bitmap vlchunk index false = record vlchunk {
  bitmap =
      set vlchunk.bitmap (index / 64)
        (bit_and (get_or vlchunk.bitmap (index / 64) 0) (complement 64 (2 ^ (index % 64))));
}

all_zero : List ℕ → Bool
all_zero [] = true
all_zero (w ∷ ws) = w == 0 && all_zero ws

-- `bitmap_empty`.
unfoldable pub bitmap_empty : Vlchunk → Bool
unfolding all_zero
bitmap_empty vlchunk = all_zero vlchunk.bitmap

module _ {T : Type 0} where
  -- The chunk that `vlchunk_alloc` takes: the first of the free list, else the next of the file;
  -- `none` when the file is full, where the program stops.
  unfoldable pub next_chunk : Vlog T → Option (ℕ × Vlog T)
  next_chunk vlog = elim vlog.global_free_list [
    | [] ↦
        if leb log_file_size (vlog.log_file_used + lchunk_size)
        then none
        else some (
          vlog.log_file_addr + vlog.log_file_used,
          record vlog { log_file_used = vlog.log_file_used + lchunk_size },
        )
    | c ∷ rest ↦ some (c, record vlog { global_free_list = rest })
  ]

  -- The rest of `vlchunk_alloc`: both descriptions of chunk `c` start afresh.
  unfoldable pub init_chunk : ℕ → Vlog T → Vlog T
  init_chunk c vlog = record vlog {
    lchunks = update vlog.lchunks c (record {
      next = 0;
      id = vlog.global_lchunk_id;
      items = λ _. record { type = 0; ptr = 0; size_version_id = 0 };
    });
    vlchunks =
        update vlog.vlchunks c
          (record { count = 0; bitmap = 0 ∷ 0 ∷ []; id = vlog.global_lchunk_id; pre_lchunk = 0 });
    global_lchunk_id = vlog.global_lchunk_id + 1;
    num_of_chunks = vlog.num_of_chunks + 1;
  }

  unfoldable pub vlchunk_alloc : Vlog T → Option (ℕ × Vlog T)
  vlchunk_alloc vlog = elim (next_chunk vlog) [
    | none ↦ none
    | some (c, vlog') ↦ some (c, init_chunk c vlog')
  ]

  -- `lchunk->next = next`, and a change of a `vlchunk_t`.
  abbrev pub set_next : ℕ → ℕ → Vlog T → Vlog T
  set_next c next vlog = record vlog {
    lchunks = update vlog.lchunks c (record (vlog.lchunks c) { next = next });
  }

  abbrev pub set_vlchunk : ℕ → Vlchunk → Vlog T → Vlog T
  set_vlchunk c vlchunk vlog = record vlog { vlchunks = update vlog.vlchunks c vlchunk }
