-- ===== src/Log/Slow.antt =====
-- The round of the collecting thread: `slow_GC`, `log_create_for_GC` and `log_destroy` of
-- src/log.c. The live items other than tombstones are copied into a new log.
--
-- Both logs lie in one file, so the new one goes on with the memory of the old one. The time and
-- the number of the log in use, in the head of the file, are not modelled. `none` is also a chunk
-- of the chain that is not in the tree, and an item that its extent or file does not point to,
-- where the program stops.
use pmalloc.Prelude.{
  ℕ, zero, suc, ◌+◌, ◌*◌, ◌/◌, Bool, true, false, ◌&&◌, ◌||◌, ◌==◌, leb, if◌then◌else◌, Option,
  none, some, [], ◌∷◌, ◌++◌,
}
use pmalloc.Cache.{update}
use pmalloc.Bitmap.{is_free}
use pmalloc.Log.{Vlog, LogItem, ChunkTree, normal_log, file_log, item_addr, n_items_per_lchunk}
use pmalloc.Log.Append.{first_chunks, add_log_for_gc}
use pmalloc.Log.Tomb.{Tombs}

-- The new log, and the field `log` of each `extent_t` and each `file_t`.
pub record Copying (T : Type 0) : Type 0 where
  pub vlog : Vlog T
  pub log_of : ℕ → ℕ

module _ {T : Type 0} (tree : ChunkTree T) where
  -- `log_create_for_GC`, which leaves `gc_timer` as `malloc` gives it.
  unfoldable pub log_create_for_gc : (gc_timer : ℕ) → Vlog T → Option (Vlog T)
  unfolding first_chunks
  log_create_for_gc gc_timer old = first_chunks tree (record old {
    vlchunk_tree = tree.empty;
    tail_vlchunk = 0;
    root_lchunk = 0;
    gc_timer = gc_timer;
    global_lchunk_id = 0;
    num_of_chunks = 0;
    num_of_items = 0;
  })

  -- `log_destroy`: the chunks of the old log and its root chunk go to the list that both share.
  unfoldable pub log_destroy : (old vlog : Vlog T) → Vlog T
  log_destroy old vlog = record vlog {
    global_free_list =
        (vlog.global_free_list ++ tree.to_list old.vlchunk_tree) ++ old.root_lchunk ∷ [];
  }

  -- Items of an allocation or of a file are copied.
  abbrev pub is_copied : LogItem → Bool
  is_copied item = item.type == normal_log || item.type == file_log

  -- The body of the loops over the bits of a chunk. `owner` is the extent or the file that the
  -- radix tree or the tree of files names for the address in an item.
  unfoldable pub copy_slot : (owner : LogItem → ℕ) → (c j : ℕ) → Copying T → Option (Copying T)
  copy_slot owner c j s =
      let item = (s.vlog.lchunks c).items j in
      elim (is_free (s.vlog.vlchunks c).bitmap j && is_copied item) [
        | false ↦ some s
        | true ↦ elim (s.log_of (owner item) == item_addr c j) [
          | false ↦ none
          | true ↦ elim (add_log_for_gc tree item s.vlog) [
            | none ↦ none
            | some (addr, vlog') ↦
                some (record { vlog = vlog'; log_of = update s.log_of (owner item) addr })
          ]
        ]
      ]

  -- The next `n` bits of chunk `c`, from bit `j` on.
  unfoldable pub copy_slots : (owner : LogItem → ℕ) → (n j c : ℕ) → Copying T → Option (Copying T)
  unfolding copy_slot
  copy_slots owner zero j c s = some s
  copy_slots owner (suc n) j c s = elim (copy_slot owner c j s) [
    | none ↦ none
    | some s' ↦ copy_slots owner n (j + 1) c s'
  ]

  -- The loop over the chain of the old log from a chunk on; `none` when the fuel runs out.
  unfoldable pub copy_chunks :
      (owner : LogItem → ℕ) → (fuel cursor : ℕ) → (old : Vlog T) → Copying T → Option (Copying T)
  unfolding copy_slots
  copy_chunks owner zero cursor old s = none
  copy_chunks owner (suc fuel) cursor old s = elim (cursor == 0) [
    | true ↦ some s
    | false ↦ elim (tree.search cursor old.vlchunk_tree) [
      | false ↦ none
      | true ↦ elim (copy_slots owner 128 0 cursor s) [
        | none ↦ none
        | some s' ↦ copy_chunks owner fuel (s'.vlog.lchunks cursor).next old s'
      ]
    ]
  ]

  -- The part of `slow_GC` that builds the new log and copies the items.
  unfoldable pub copy_log :
      (owner : LogItem → ℕ) → (fuel gc_timer : ℕ) → (log_of : ℕ → ℕ) → Vlog T → Option (Copying T)
  unfolding log_create_for_gc copy_chunks
  copy_log owner fuel gc_timer log_of old = elim (log_create_for_gc gc_timer old) [
    | none ↦ none
    | some vlog ↦
        copy_chunks owner fuel (vlog.lchunks old.root_lchunk).next old
          (record { vlog = vlog; log_of = log_of })
  ]

  -- A round of `slow_GC`: the test is made again under the lock, and stands here once. The pending
  -- tombstones are dropped.
  unfoldable pub slow_gc :
      (owner : LogItem → ℕ)
      → (fuel gc_timer : ℕ) → (log_of : ℕ → ℕ) → Tombs
      → Vlog T
      → Option (Copying T × Tombs)
  unfolding copy_log log_destroy
  slow_gc owner fuel gc_timer log_of tombs old =
      if old.num_of_items == 0
      then none
      else if leb 10 (old.num_of_chunks * n_items_per_lchunk / old.num_of_items)
      then elim (copy_log owner fuel gc_timer log_of old) [
        | none ↦ none
        | some s ↦ some (
          record s { vlog = log_destroy old s.vlog },
          record { head = record tombs.head { cnt = 0 }; next = [] },
        )
      ]
      else some (record { vlog = old; log_of = log_of }, tombs)
