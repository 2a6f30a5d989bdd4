-- ===== src/Log/Append.antt =====
-- `log_create`, `add_log`, `add_log_for_GC` and `flush_tomb` of src/log.c. `none` stands for the
-- places where the program stops: the log file is full, a chunk is not in the tree, or
-- `num_of_items` is 0 where it divides.
use pmalloc.Prelude.{
  ℕ, ◌+◌, ◌%◌, ◌^◌, Bool, true, false, Option, none, some, [], ◌==◌, leb, if◌then◌else◌,
}
use pmalloc.Interleave.{count_to_index}
use pmalloc.Cache.{update}
use pmalloc.Log.{
  Vlog, Lchunk, Vlchunk, LogItem, ChunkTree, vlchunk_alloc, set_next, set_vlchunk, set_bitmap,
  ptr2lchunk, ptr2lindex, item_addr, n_items_per_lchunk, free_log, lchunk_size,
}
use pmalloc.Log.Gc.{tick_gc}

module _ {T : Type 0} (tree : ChunkTree T) where
  -- The new chunk is linked behind the tail.
  unfoldable pub link_chunk : ℕ → Vlog T → Vlog T
  link_chunk new vlog =
      let tail = vlog.tail_vlchunk in
      let vlog' = set_vlchunk new (record (vlog.vlchunks new) { pre_lchunk = tail }) vlog in
      record (set_next tail new vlog') {
        vlchunk_tree = tree.insert new vlog.vlchunk_tree;
        tail_vlchunk = new;
      }

  -- `if (index >= N_ITEMS_PER_LCHUNK) { ... }`, which `add_log`, `add_log_for_GC` and `flush_tomb`
  -- share: a full tail chunk gets a successor.
  unfoldable pub extend : Vlog T → Option (Vlog T)
  extend vlog =
      if leb n_items_per_lchunk (count_to_index (vlog.vlchunks vlog.tail_vlchunk).count)
      then elim (vlchunk_alloc vlog) [
        | none ↦ none
        | some (new, vlog') ↦ some (link_chunk new vlog')
      ]
      else some vlog

  -- `items[index] = item` and `set_bitmap(vlchunk, index, true)` with `count++`, on the tail.
  unfoldable pub put_item : LogItem → Vlog T → Vlog T
  put_item item vlog =
      let tail = vlog.tail_vlchunk in
      let vlchunk = vlog.vlchunks tail in
      let index = count_to_index vlchunk.count in
      let lchunk = vlog.lchunks tail in
      record vlog {
        lchunks =
            update vlog.lchunks tail (record lchunk { items = update lchunk.items index item });
        vlchunks =
            update vlog.vlchunks tail
              (set_bitmap (record vlchunk { count = vlchunk.count + 1 }) index true);
      }

  -- Where the next item of the tail goes.
  abbrev pub next_addr : Vlog T → ℕ
  next_addr vlog =
      item_addr vlog.tail_vlchunk (count_to_index (vlog.vlchunks vlog.tail_vlchunk).count)

  -- The item at `ptr` is dead; with the id of its chunk.
  unfoldable pub bury : ℕ → Vlog T → Option (ℕ × Vlog T)
  bury ptr vlog =
      let c = ptr2lchunk ptr in
      if tree.search c vlog.vlchunk_tree
      then some (
        (vlog.vlchunks c).id,
        set_vlchunk c (set_bitmap (vlog.vlchunks c) (ptr2lindex ptr c) false) vlog,
      )
      else none

  -- `add_log`, with the address of the item.
  unfoldable pub add_log :
      (type ptr size_version_id : ℕ) → (slab : Bool) → Vlog T → Option (ℕ × Vlog T)
  add_log type ptr size_version_id slab vlog = elim (extend vlog) [
    | none ↦ none
    | some vlog' ↦
        let item : LogItem = record {
          type = type % 4;
          ptr = ptr % 2 ^ 48;
          size_version_id = (if slab then size_version_id + 1 else size_version_id) % 2 ^ 14;
        } in
        if item.type == free_log
        then elim (bury item.ptr vlog') [
          | none ↦ none
          | some (id, buried) ↦
              elim (tick_gc tree
                (put_item (record item { size_version_id = id % 2 ^ 14 }) buried)) [
                  | none ↦ none
                  | some after ↦ some (next_addr vlog', after)
                ]
        ]
        else some (
          next_addr vlog',
          put_item item (record vlog' { num_of_items = (vlog'.num_of_items + 1) % 2 ^ 64 }),
        )
  ]

  unfoldable pub add_log_for_gc : LogItem → Vlog T → Option (ℕ × Vlog T)
  add_log_for_gc item vlog = elim (extend vlog) [
    | none ↦ none
    | some vlog' ↦ some (
      next_addr vlog',
      put_item item (record vlog' { num_of_items = (vlog'.num_of_items + 1) % 2 ^ 64 }),
    )
  ]

  unfoldable pub flush_tomb : LogItem → Vlog T → Option (Vlog T)
  flush_tomb tomb vlog = elim (extend vlog) [
    | none ↦ none
    | some vlog' ↦ tick_gc tree (put_item tomb vlog')
  ]

  -- The part of `log_create` and `log_create_for_GC` that makes the root chunk, which holds no
  -- items, and the first chunk behind it. The first chunk's `vlchunk_t` alone enters the tree.
  unfoldable pub first_chunks : Vlog T → Option (Vlog T)
  first_chunks vlog = elim (vlchunk_alloc vlog) [
    | none ↦ none
    | some (root, vlog') ↦ elim (vlchunk_alloc vlog') [
      | none ↦ none
      | some (first, vlog'') ↦
          some
            (record (link_chunk first
              (record vlog'' { tail_vlchunk = root; vlchunk_tree = tree.empty })) {
                root_lchunk = root;
              })
    ]
  ]

  -- `log_create`, on a log file that is mapped at `addr`.
  unfoldable pub log_create : (addr : ℕ) → (ℕ → Lchunk) → (ℕ → Vlchunk) → Option (Vlog T)
  log_create addr lchunks vlchunks = first_chunks (record {
    lchunks = lchunks;
    vlchunks = vlchunks;
    vlchunk_tree = tree.empty;
    tail_vlchunk = 0;
    root_lchunk = 0;
    gc_timer = 0;
    global_lchunk_id = 1;
    global_free_list = [];
    log_file_addr = addr;
    log_file_used = lchunk_size;
    num_of_chunks = 0;
    num_of_items = 0;
    gc_posts = 0;
  })
