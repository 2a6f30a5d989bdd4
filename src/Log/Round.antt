-- ===== src/Log/Round.antt =====
-- A round of slow_GC: the new log takes the place of the old one, whose chunks get free.
use pmalloc.Prelude.{
  ℕ, ◌+◌, ◌*◌, ◌/◌, ◌<◌, ◌≤◌, ◌≡◌, ◌≢◌, refl, sym, true, false, ◌==◌, ==_iff, ==_self, ◌||◌, leb,
  Bool-cases, inl, inr, some, List, [], ◌∷◌, ◌++◌, length, subst, arith,
}
use pmalloc.Log.{Vlog, LogItem, ChunkTree, IsChunkTree, listed, log_file_size, Distinct}
use pmalloc.Log.Collect.{listed-append, Distinct-append}
use pmalloc.Log.Supply.{IsForeign}
use pmalloc.Log.Live.{live, SameItems, IsLog}
use pmalloc.Log.Tomb.{Tombs}
use pmalloc.Log.Pending.{items_of, pending_in, pending}
use pmalloc.Log.Slow.{Copying, log_destroy, slow_gc}
use pmalloc.Log.Copied.{Copies}
use pmalloc.Log.Rebuilt.{
  all_kept, IsCopyable, in_use, listed-in_use, in_use-IsUsed, copy_log-Copies,
}

module _ {T : Type 0} (tree : ChunkTree T) (laws : IsChunkTree tree) (owner : LogItem → ℕ)
    (old : Vlog T) where
  -- A log with copies of the items that the old one had to keep, in the place of the old one.
  pub record Replaces (cs : List ℕ) (log_of : ℕ → ℕ) (after : Copying T) : Type 0 where
    pub created : Vlog T
    pub copied : Copying T
    pub none_live : (c i : ℕ) → live tree created c i ≡ false
    pub copies :
        Copies tree laws owner
          (all_kept tree laws owner old cs)
          (record { vlog = created; log_of = log_of })
          copied
    pub same : SameItems tree copied.vlog after.vlog
    pub owners : after.log_of ≡ copied.log_of
    pub valid : IsLog tree after.vlog
    pub released :
        (d : ℕ)
        → tree.search d old.vlchunk_tree ≡ true
        → listed d after.vlog.global_free_list ≡ true

  listed-released :
      (vlog : Vlog T) (d : ℕ)
      → listed d (log_destroy tree old vlog).global_free_list
        ≡ (listed d vlog.global_free_list || listed d (in_use tree laws owner old))
  unfolding log_destroy
  listed-released vlog d =
      let held = tree.to_list old.vlchunk_tree in
      ground (
        arith,
        listed-append d (vlog.global_free_list ++ held) (old.root_lchunk ∷ []),
        listed-append d vlog.global_free_list held,
        listed-append d held (old.root_lchunk ∷ []),
      )

  module _ (log_of : ℕ → ℕ) (cs : List ℕ) (k : IsCopyable tree laws owner old cs log_of)
      (vlog : Vlog T) (v : IsLog tree vlog)
      (apart : (d : ℕ) → listed d (in_use tree laws owner old) ≡ true → IsForeign tree vlog d) where
    root_in : listed old.root_lchunk (in_use tree laws owner old) ≡ true
    root_in =
        ground (arith, listed-in_use tree laws owner old old.root_lchunk, ==_self old.root_lchunk)

    released-Distinct : Distinct (log_destroy tree old vlog).global_free_list
    unfolding log_destroy listed
    released-Distinct =
        let held = tree.to_list old.vlchunk_tree in
        Distinct-append (vlog.global_free_list ++ held) (old.root_lchunk ∷ [])
          (Distinct-append vlog.global_free_list held v.distinct (laws.distinct old.vlchunk_tree)
            free_apart)
          (refl, tt) root_apart
      where
        held_in :
            (d : ℕ)
            → listed d (tree.to_list old.vlchunk_tree) ≡ true
            → listed d (in_use tree laws owner old) ≡ true
        held_in d e =
            ground (
              arith,
              listed-in_use tree laws owner old d,
              laws.search-to_list d old.vlchunk_tree,
              e,
            )

        free_apart :
            (d : ℕ)
            → listed d vlog.global_free_list ≡ true
            → listed d (tree.to_list old.vlchunk_tree) ≡ false
        free_apart d e = elim (Bool-cases (listed d (tree.to_list old.vlchunk_tree))) [
          | inl i ↦ absurd (ground (arith, (apart d (held_in d i)).not_free, e))
          | inr o ↦ o
        ]

        root_apart :
            (d : ℕ)
            → listed d (vlog.global_free_list ++ tree.to_list old.vlchunk_tree) ≡ true
            → listed d (old.root_lchunk ∷ []) ≡ false
        root_apart d e = elim (Bool-cases (old.root_lchunk == d)) [
          | inl same ↦
              let there =
                subst
                  (λ x. listed x (vlog.global_free_list ++ tree.to_list old.vlchunk_tree) ≡ true)
                  (sym ((==_iff _ _).0 same)) e in
              absurd (
                ground (
                  arith,
                  there,
                  listed-append old.root_lchunk vlog.global_free_list
                      (tree.to_list old.vlchunk_tree),
                  (apart old.root_lchunk root_in).not_free,
                  laws.search-to_list old.root_lchunk old.vlchunk_tree,
                  k.root_out,
                ))
          | inr other ↦ unfold listed in ground (arith, other)
        ]

    log_destroy-IsLog : IsLog tree (log_destroy tree old vlog)
    unfolding log_destroy
    log_destroy-IsLog = record {
      tail_in = v.tail_in;
      in_tree = v.in_tree;
      in_free = λ d e. elim (Bool-cases (listed d vlog.global_free_list)) [
        | inl free ↦ v.in_free d free
        | inr other ↦
            let i : listed d (in_use tree laws owner old) ≡ true =
              ground (arith, listed-released vlog d, e, other) in
            let f = apart d i in
            (f.out, (in_use-IsUsed tree laws owner old log_of cs k d i).2, f.below)
      ];
      distinct = released-Distinct;
      addr_aligned = v.addr_aligned;
      used_aligned = v.used_aligned;
    }

  -- On a copyable log that is due for it, with room for two chunks and one for each item to copy,
  -- a round of slow_GC ends, within a round more than the chain has chunks, and no tombstone is
  -- pending then. The new log is created without a live item; in order, each live item of an
  -- allocation or a file is added to it in a slot that was not live, and its owner then points to
  -- the copy. The new log is well formed, and the chunks of the old one are free.
  pub slow_gc-Replaces :
      (fuel gc_timer : ℕ) (log_of : ℕ → ℕ) (tombs : Tombs) (cs : List ℕ)
      → IsCopyable tree laws owner old cs log_of
      → length cs < fuel
      → old.log_file_used + 2048 + 1024 * length (all_kept tree laws owner old cs) < log_file_size
      → old.num_of_items ≢ 0
      → 10 ≤ old.num_of_chunks * 126 / old.num_of_items
      → (after : Copying T) × (tombs' : Tombs) × (slow_gc tree owner fuel gc_timer log_of tombs old
          ≡ some (after, tombs'))
        × (pending tombs' ≡ [])
        × Replaces cs log_of after
  unfolding slow_gc pending pending_in items_of
  slow_gc-Replaces fuel gc_timer log_of tombs cs k h room ne many =
      let (vlog, s, none_live, run, v, apart, q) =
        copy_log-Copies tree laws owner old log_of cs k fuel gc_timer h room in
      let some_items : (old.num_of_items == 0) ≡ false = ground arith in
      let due : leb 10 (old.num_of_chunks * 126 / old.num_of_items) ≡ true = ground arith in
      (
        record s { vlog = log_destroy tree old s.vlog },
        record { head = record tombs.head { cnt = 0 }; next = [] },
        rw (some_items, due, run, slow_gc) refl,
        refl,
        record {
          created = vlog;
          copied = s;
          none_live = none_live;
          copies = q;
          same = unfold log_destroy in record { lives = λ c i. refl; items = λ c i e. refl };
          owners = refl;
          valid = log_destroy-IsLog log_of cs k s.vlog v apart;
          released = λ d e.
              ground (arith, listed-released s.vlog d, listed-in_use tree laws owner old d, e);
        },
      )
