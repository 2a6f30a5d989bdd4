-- ===== src/Log/Pending.antt =====
-- What another node's free leaves: the item is dead, and its tombstone waits for the flusher.
use pmalloc.Prelude.{
  ℕ, zero, suc, ◌+◌, ◌^◌, ◌<◌, ◌≤◌, ◌≡◌, refl, ◌∙◌, Bool, true, ◌==◌, if◌then◌else◌, Bool-cases,
  inl, inr, some, List, [], ◌∷◌, ◌++◌, arith,
}
use pmalloc.NumaLog.{NumaLog, numa_log_alloc}
use pmalloc.Cache.{update}
use pmalloc.Log.{Vlog, LogItem, ChunkTree, IsChunkTree, item_addr}
use pmalloc.Log.Live.{live, IsLog}
use pmalloc.Log.Free.{Buries, cleared, cleared-Buries, bury_lem}
use pmalloc.Log.Tomb.{ShadowChunk, Tombs, shadow_chunk_size, make_room, pend, tomb_of, add_tomb}

-- The items from `i` to `i + n`.
unfoldable pub items_of : (n i : ℕ) → (ℕ → LogItem) → List LogItem
items_of zero i items = []
items_of (suc n) i items = items i ∷ items_of n (i + 1) items

unfoldable pub pending_in : List ShadowChunk → List LogItem
unfolding items_of
pending_in [] = []
pending_in (chunk ∷ rest) = items_of chunk.cnt 0 chunk.items ++ pending_in rest

-- The tombstones that wait, in the order in which the flusher takes them.
unfoldable pub pending : Tombs → List LogItem
unfolding pending_in items_of
pending tombs = pending_in tombs.next ++ items_of tombs.head.cnt 0 tombs.head.items

-- How many of the items pass a test.
unfoldable pub count : (LogItem → Bool) → List LogItem → ℕ
count test [] = 0
count test (x ∷ xs) = if test x then 1 + count test xs else count test xs

count-append :
    (test : LogItem → Bool) (xs ys : List LogItem)
    → count test (xs ++ ys) ≡ count test xs + count test ys
unfolding count
count-append test [] ys = ground arith
count-append test (x ∷ xs) ys = ground (arith, count-append test xs ys)

-- Writing the item behind the last adds it at the end.
items_of-update :
    (n i k : ℕ) (items : ℕ → LogItem) (item : LogItem)
    → i + n ≡ k
    → items_of (n + 1) i (update items k item) ≡ items_of n i items ++ item ∷ []
unfolding items_of
items_of-update zero i k items item e = ground arith
items_of-update (suc n) i k items item e =
    ground (arith, items_of-update n (i + 1) k items item (omega arith))

make_room-count :
    (test : LogItem → Bool) (tombs : Tombs)
    → count test (pending (make_room tombs)) ≡ count test (pending tombs)
unfolding make_room pending pending_in items_of count
make_room-count test tombs = elim (Bool-cases (tombs.head.cnt == shadow_chunk_size)) [
  | inl full ↦ rw full (
      let old = items_of tombs.head.cnt 0 tombs.head.items in
      let rest = pending_in tombs.next in
      ground (
        arith,
        count-append test (old ++ rest) [],
        count-append test old rest,
        count-append test rest old,
      ))
  | inr partial ↦ rw partial refl
]

pend-count :
    (test : LogItem → Bool) (item : LogItem) (tombs : Tombs)
    → count test (pending (pend item tombs)) ≡ count test (item ∷ pending tombs)
unfolding pend pending count
pend-count test item tombs =
    let old = items_of tombs.head.cnt 0 tombs.head.items in
    let rest = pending_in tombs.next in
    rw (items_of-update tombs.head.cnt 0 tombs.head.cnt tombs.head.items item (omega arith)) (
      ground (
        arith,
        count-append test rest (old ++ item ∷ []),
        count-append test old (item ∷ []),
        count-append test rest old,
      ))

module _ {T : Type 0} (tree : ChunkTree T) (laws : IsChunkTree tree) where
  -- A tombstone that another node adds for a live item, on a well-formed log in the 48-bit address
  -- space: that item alone is no longer live, the tombstone with the address of the item and the
  -- id of its chunk is pending besides those that were, and the NUMA log gets an entry.
  pub add_tomb-Pends :
      (info : LogItem → ℕ) (timestamp ind c i : ℕ) (vlog : Vlog T) (tombs : Tombs) (nl : NumaLog)
      → IsLog tree vlog
      → live tree vlog c i ≡ true
      → i < 126
      → c + 1024 ≤ 2 ^ 48
      → let tomb = tomb_of (item_addr c i) (vlog.vlchunks c).id in
        (after : Vlog T) × (tombs' : Tombs) × (add_tomb tree info timestamp ind
            (item_addr c i)
            vlog
            tombs
            nl
          ≡ some (after, tombs', numa_log_alloc (info tomb) timestamp ind nl))
        × Buries tree laws c i vlog after
        × ((test : LogItem → Bool)
            → count test (pending tombs') ≡ count test (tomb ∷ pending tombs))
  unfolding add_tomb
  add_tomb-Pends info timestamp ind c i vlog tombs nl v held h top =
      let tomb = tomb_of (item_addr c i) (vlog.vlchunks c).id in
      (
        cleared tree laws c i vlog,
        pend tomb (make_room tombs),
        rw (add_tomb, bury_lem tree laws c i vlog v held h top) refl,
        cleared-Buries tree laws c i vlog v held h,
        λ test.
            pend-count test tomb (make_room tombs)
            ∙ unfold count in ground (arith, make_room-count test tombs),
      )
