-- ===== src/Log/Copied.antt =====
-- Copying the items of a chunk to the log that slow_GC builds.
use pmalloc.Prelude.{
  ℕ, zero, suc, ◌+◌, ◌%◌, ◌^◌, ◌<◌, ◌≤◌, ◌≡◌, refl, sym, ◌∙◌, Bool, true, false, ◌&&◌, ◌||◌, ◌==◌,
  ==_iff, leb, ltb, if◌then◌else◌, Bool-cases, inl, inr, Option, some, List, [], ◌∷◌, ◌++◌, length,
  subst, arith,
}
use pmalloc.Interleave.{count_to_index}
use pmalloc.Cache.{update}
use pmalloc.Bitmap.{is_free}
use pmalloc.Log.{Vlog, LogItem, ChunkTree, IsChunkTree, listed, item_addr, log_file_size}
use pmalloc.Log.Append.{put_item, add_log_for_gc}
use pmalloc.Log.Live.{SameItems, Adds, IsLog}
use pmalloc.Log.Supply.{IsForeign, Spares}
use pmalloc.Log.Extend.{extend-Extends}
use pmalloc.Log.Keep.{put_item-Adds, put_item-IsLog}
use pmalloc.Log.Appends.{Adds-after, counted}
use pmalloc.Log.Slow.{Copying, is_copied}

module _ {T : Type 0} (tree : ChunkTree T) (laws : IsChunkTree tree) where
  -- A copy that leaves the chunks of other logs alone.
  pub record Copied (item : LogItem) (vlog : Vlog T) (result : Option (ℕ × Vlog T)) : Type 0 where
    pub chunk : ℕ
    pub index : ℕ
    pub after : Vlog T
    pub returns : result ≡ some (item_addr chunk index, after)
    pub adds : Adds tree chunk index item vlog after
    pub valid : IsLog tree after
    pub used : after.log_file_used ≤ vlog.log_file_used + 1024
    pub spares : Spares tree vlog after

  tail_ne :
      (vlog : Vlog T)
      → IsLog tree vlog
      → (d : ℕ) → IsForeign tree vlog d
      → (vlog.tail_vlchunk == d) ≡ false
  tail_ne vlog v d f = elim (Bool-cases (vlog.tail_vlchunk == d)) [
    | inl same ↦ absurd (
        ground (
          arith,
          f.out,
          subst (λ x. tree.search x vlog.vlchunk_tree ≡ true) ((==_iff _ _).0 same) v.tail_in,
        ))
    | inr other ↦ other
  ]

  put_item-Spares :
      (item : LogItem) (vlog : Vlog T)
      → IsLog tree vlog
      → Spares tree vlog (put_item tree item vlog)
  unfolding put_item
  put_item-Spares item vlog v d f =
      let ne = tail_ne vlog v d f in
      (record { out = f.out; not_free = f.not_free; below = f.below }, rw ne refl, rw ne refl)

  pub add_log_for_gc-Copied :
      (item : LogItem) (vlog : Vlog T)
      → IsLog tree vlog
      → vlog.log_file_used + 1024 < log_file_size
      → Copied item vlog (add_log_for_gc tree item vlog)
  unfolding add_log_for_gc put_item
  add_log_for_gc-Copied item vlog v room =
      let (open_log, e, x) = extend-Extends tree laws vlog v room in
      let open_log' = record open_log { num_of_items = (open_log.num_of_items + 1) % 2 ^ 64 } in
      let valid = counted tree laws open_log x.valid ((open_log.num_of_items + 1) % 2 ^ 64) in
      let index = count_to_index (open_log.vlchunks open_log.tail_vlchunk).count in
      let same : SameItems tree vlog open_log' = record {
        lives = λ c i. x.same.lives c i;
        items = λ c i h. x.same.items c i h;
      } in
      record {
        chunk = open_log.tail_vlchunk;
        index = index;
        after = put_item tree item open_log';
        returns = rw (add_log_for_gc, e) refl;
        adds =
            Adds-after tree laws open_log.tail_vlchunk index item vlog open_log'
              (put_item tree item open_log') same (put_item-Adds tree item open_log' valid x.room);
        valid = put_item-IsLog tree item open_log' valid x.room;
        used = x.used;
        spares = λ d f.
            let (g, l, w) = x.spares d f in
            let (h, m, u) =
              put_item-Spares item open_log' valid d
                (record { out = g.out; not_free = g.not_free; below = g.below }) in
            (h, m ∙ l, u ∙ w);
      }

module _ {T : Type 0} (tree : ChunkTree T) (laws : IsChunkTree tree) (owner : LogItem → ℕ) where
  -- The items are copied one by one, each to a slot that was not live, and what owned an item
  -- points to its copy.
  abbrev pub Copies : List LogItem → Copying T → Copying T → Type 0
  Copies [] s s' = s ≡ s'
  Copies (item ∷ items) s s' =
      (c : ℕ) × (i : ℕ) × (mid : Copying T) × Adds tree c i item s.vlog mid.vlog
      × (mid.log_of ≡ update s.log_of (owner item) (item_addr c i))
      × Copies items mid s'

  pub Copies-append :
      (xs ys : List LogItem) (s t u : Copying T)
      → Copies xs s t
      → Copies ys t u
      → Copies (xs ++ ys) s u
  Copies-append [] ys s t u e r = subst (λ k. Copies ys k u) (sym e) r
  Copies-append (x ∷ xs) ys s t u (c, i, mid, a, p, q) r =
      (c, i, mid, a, p, Copies-append xs ys mid t u q r)

  abbrev pub old_item : Vlog T → ℕ → ℕ → LogItem
  old_item old c j = (old.lchunks c).items j

  -- Slot `j` of chunk `c` is to be copied.
  abbrev pub is_kept : Vlog T → ℕ → ℕ → Bool
  is_kept old c j = is_free (old.vlchunks c).bitmap j && is_copied tree (old_item old c j)

  -- The items to copy from the next `n` slots of chunk `c`, from slot `j` on.
  unfoldable pub kept : (n j c : ℕ) → Vlog T → List LogItem
  kept zero j c old = []
  kept (suc n) j c old =
      if is_kept old c j then old_item old c j ∷ kept n (j + 1) c old else kept n (j + 1) c old

  pub length_kept : (n j c : ℕ) (old : Vlog T) → length (kept n j c old) ≤ n
  unfolding kept
  length_kept zero j c old = omega arith
  length_kept (suc n) j c old =
      let rest = length_kept n (j + 1) c old in
      elim (Bool-cases (is_kept old c j)) [
        | inl keep ↦ rw keep (omega (arith, rest))
        | inr skip ↦ rw skip (omega (arith, rest))
      ]

  -- What is left to copy, from slot `j` of chunk `c` on and in the chunks `rest`.
  abbrev pub remaining : (c j : ℕ) → List ℕ → (d k : ℕ) → Bool
  remaining c j rest d k = (c == d && leb j k || listed d rest) && ltb k 128

  -- What holds on the way, over the chunks `chunks` of the old log.
  pub record Going (old : Vlog T) (chunks : List ℕ) (c j : ℕ) (rest : List ℕ) (s : Copying T)
      : Type 0 where
    pub valid : IsLog tree s.vlog
    pub same :
        (d : ℕ)
        → listed d chunks ≡ true
        → IsForeign tree s.vlog d
          × (s.vlog.lchunks d ≡ old.lchunks d)
          × (s.vlog.vlchunks d ≡ old.vlchunks d)
    pub owned :
        (d k : ℕ)
        → remaining c j rest d k ≡ true
        → is_kept old d k ≡ true
        → s.log_of (owner (old_item old d k)) ≡ item_addr d k

  pub Going-weaken :
      (old : Vlog T) (chunks : List ℕ) (c j : ℕ) (rest : List ℕ) (c' j' : ℕ) (rest' : List ℕ)
      (s : Copying T)
      → Going old chunks c j rest s
      → ((d k : ℕ) → remaining c' j' rest' d k ≡ true → remaining c j rest d k ≡ true)
      → Going old chunks c' j' rest' s
  Going-weaken old chunks c j rest c' j' rest' s g less = record {
    valid = g.valid;
    same = g.same;
    owned = λ d k r l. g.owned d k (less d k r) l;
  }

  -- The slots have different addresses.
  pub other_slot :
      (c j d k : ℕ)
      → c % 1024 ≡ 0
      → d % 1024 ≡ 0
      → j < 128
      → k < 128
      → item_addr c j ≡ item_addr d k
      → (c ≡ d) × (j ≡ k)
  other_slot c j d k p q h l e = (omega arith, omega arith)
