-- ===== src/Log/Tomb.antt =====
-- The tombstones that another NUMA node adds, and the flusher that moves them to the log:
-- `add_tomb` of src/log.c and `numa_log_extent_flusher` of src/numa_log.c.
--
-- The flusher also writes the time to the head of the log file. `none` is what it is for
-- `flush_tomb`.
use pmalloc.Prelude.{
  ℕ, zero, suc, ◌+◌, ◌%◌, ◌^◌, ◌==◌, if◌then◌else◌, Option, none, some, List, [], ◌∷◌,
}
use pmalloc.Cache.{update}
use pmalloc.Log.{Vlog, LogItem, ChunkTree, free_log}
use pmalloc.Log.Append.{bury, flush_tomb}
use pmalloc.NumaLog.{NumaLog, numa_log_alloc}

-- `shadow_chunk_t`, and the chain at `arena->shadow_tomb`, which has at least one.
pub record ShadowChunk : Type 0 where
  pub cnt : ℕ
  pub items : ℕ → LogItem

pub record Tombs : Type 0 where
  pub head : ShadowChunk
  pub next : List ShadowChunk

abbrev pub shadow_chunk_size : ℕ
shadow_chunk_size = 1024

-- A full chunk gets a new one before it.
unfoldable pub make_room : Tombs → Tombs
make_room tombs =
    if tombs.head.cnt == shadow_chunk_size
    then record {
      head = record { cnt = 0; items = λ _. record { type = 0; ptr = 0; size_version_id = 0 } };
      next = tombs.head ∷ tombs.next;
    }
    else tombs

unfoldable pub pend : LogItem → Tombs → Tombs
pend item tombs = record tombs {
  head = record { cnt = tombs.head.cnt + 1; items = update tombs.head.items tombs.head.cnt item };
}

-- The tombstone of the item at `ptr`, in the chunk with this id.
abbrev pub tomb_of : (ptr id : ℕ) → LogItem
tomb_of ptr id = record { type = free_log; ptr = ptr % 2 ^ 48; size_version_id = id % 2 ^ 14 }

module _ {T : Type 0} (tree : ChunkTree T) where
  -- `add_tomb`. The word of the entry in the NUMA log is an argument: the code shifts a bit-field
  -- of two bits by 62.
  unfoldable pub add_tomb :
      (LogItem → ℕ)
      → (timestamp ind ptr : ℕ) → Vlog T
      → Tombs
      → NumaLog
      → Option (Vlog T × Tombs × NumaLog)
  unfolding make_room pend
  add_tomb info timestamp ind ptr vlog tombs nl =
      let room = make_room tombs in
      elim (bury tree ptr vlog) [
        | none ↦ none
        | some (id, vlog') ↦ some (
          vlog',
          pend (tomb_of ptr id) room,
          numa_log_alloc (info (tomb_of ptr id)) timestamp ind nl,
        )
      ]

  -- The next `n` items of a chunk, from item `i` on.
  unfoldable pub flush_items : (n i : ℕ) → (ℕ → LogItem) → Vlog T → Option (Vlog T)
  flush_items zero i items vlog = some vlog
  flush_items (suc n) i items vlog = elim (flush_tomb tree (items i) vlog) [
    | none ↦ none
    | some vlog' ↦ flush_items n (i + 1) items vlog'
  ]

  unfoldable pub flush_chunks : List ShadowChunk → Vlog T → Option (Vlog T)
  unfolding flush_items
  flush_chunks [] vlog = some vlog
  flush_chunks (chunk ∷ rest) vlog = elim (flush_items chunk.cnt 0 chunk.items vlog) [
    | none ↦ none
    | some vlog' ↦ flush_chunks rest vlog'
  ]

  -- A round of `numa_log_extent_flusher`: the chunks behind the first, then the first, which stays.
  unfoldable pub numa_log_extent_flusher : Tombs → Vlog T → Option (Tombs × Vlog T)
  unfolding flush_chunks flush_items
  numa_log_extent_flusher tombs vlog = elim (flush_chunks tombs.next vlog) [
    | none ↦ none
    | some vlog' ↦ elim (flush_items tombs.head.cnt 0 tombs.head.items vlog') [
      | none ↦ none
      | some vlog'' ↦ some (record { head = record tombs.head { cnt = 0 }; next = [] }, vlog'')
    ]
  ]
