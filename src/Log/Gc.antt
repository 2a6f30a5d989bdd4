-- ===== src/Log/Gc.antt =====
-- `fast_GC` of src/log.c: chunks without a live item go to the free list.
use pmalloc.Prelude.{
  ℕ, ◌+◌, ◌-◌, ◌*◌, ◌/◌, ◌%◌, ◌^◌, List, [], ◌∷◌, ◌++◌, ◌==◌, leb, if◌then◌else◌, Option, none,
  some,
}
use pmalloc.Cache.{update}
use pmalloc.Log.{Vlog, ChunkTree, bitmap_empty, set_next, n_items_per_lchunk}

-- The body of the first loop on an empty chunk: it gets the id 0 and leaves the chain.
unfoldable pub unlink : {T : Type 0} → ℕ → Vlog T → Vlog T
unlink c vlog =
    let vlog' = record vlog {
      vlchunks = update vlog.vlchunks c (record (vlog.vlchunks c) { id = 0 });
      lchunks = update vlog.lchunks c (record (vlog.lchunks c) { id = 0 });
    } in
    let pre = (vlog.vlchunks c).pre_lchunk in
    if pre == 0 then vlog' else set_next pre (vlog'.lchunks c).next vlog'

-- The first loop, with the chunks that it puts on `free_vlchunk_list`.
unfoldable pub unlink_all : {T : Type 0} → List ℕ → Vlog T → List ℕ × Vlog T
unlink_all [] vlog = ([], vlog)
unlink_all (c ∷ cs) vlog =
    let empty = bitmap_empty (vlog.vlchunks c) in
    let rest = unlink_all cs (if empty then unlink c vlog else vlog) in
    (if empty then c ∷ rest.0 else rest.0, rest.1)

-- The second loop. `num_of_items` is an `uint64_t`.
unfoldable pub release_all : {T : Type 0} → ChunkTree T → List ℕ → Vlog T → Vlog T
release_all tree [] vlog = vlog
release_all tree (c ∷ cs) vlog = release_all tree cs (record vlog {
  num_of_chunks = (vlog.num_of_chunks + 2 ^ 64 - 1) % 2 ^ 64;
  num_of_items = (vlog.num_of_items + 2 ^ 64 - n_items_per_lchunk) % 2 ^ 64;
  vlchunk_tree = tree.remove c vlog.vlchunk_tree;
  global_free_list = vlog.global_free_list ++ c ∷ [];
})

unfoldable pub fast_gc : {T : Type 0} → ChunkTree T → Vlog T → Vlog T
fast_gc tree vlog =
    let found = unlink_all (tree.to_list vlog.vlchunk_tree) vlog in release_all tree found.0 found.1

-- The end of `add_log` and `flush_tomb` on a FREE item: every 10000 of them look whether the log
-- is mostly dead. `none` is the division by `num_of_items` when that is 0.
unfoldable pub tick_gc : {T : Type 0} → ChunkTree T → Vlog T → Option (Vlog T)
tick_gc tree vlog =
    let timer = vlog.gc_timer + 1 in
    let vlog' = record vlog { gc_timer = if timer == 10000 then 0 else timer } in
    let ratio = vlog.num_of_chunks * n_items_per_lchunk / vlog.num_of_items in
    if timer == 10000
    then (if vlog.num_of_items == 0
        then none
        else if leb 10 ratio
        then some (record vlog' { gc_posts = vlog.gc_posts + 1 })
        else if leb 2 ratio
        then some (fast_gc tree vlog')
        else some vlog')
    else some vlog'
