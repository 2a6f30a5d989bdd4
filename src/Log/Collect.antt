-- ===== src/Log/Collect.antt =====
-- What `fast_GC` does: it frees chunks without losing a live item.
use mathlib.Core.Logic.{inl, inr}
use pmalloc.Prelude.{
  ℕ, zero, suc, ◌+◌, ◌-◌, ◌/◌, ◌%◌, ◌^◌, ◌<◌, ◌≡◌, refl, ap, sym, ◌∙◌, true, false, ◌||◌, ◌==◌,
  ==_iff, if◌then◌else◌, List, [], ◌∷◌, ◌++◌, get_or, arith, Bool-cases, subst,
}
use pmalloc.Word.Bit.{test_bit-zero}
use pmalloc.Bitmap.{is_free}
use pmalloc.Log.{Vlog, Vlchunk, ChunkTree, IsChunkTree, listed, Distinct, all_zero, bitmap_empty}
use pmalloc.Log.Gc.{unlink, unlink_all, release_all, fast_gc}
use pmalloc.Log.Live.{has_item, live, SameItems, IsChunk, IsLog}

all_zero-get_or : (ws : List ℕ) (k : ℕ) → all_zero ws ≡ true → get_or ws k 0 ≡ 0
unfolding all_zero
all_zero-get_or [] k h = refl
all_zero-get_or (w ∷ ws) zero h = ground arith
all_zero-get_or (w ∷ ws) (suc k) h = all_zero-get_or ws k (ground arith)

bitmap_empty-has_item :
    (vlchunk : Vlchunk) (i : ℕ) → bitmap_empty vlchunk ≡ true → has_item vlchunk i ≡ false
unfolding bitmap_empty is_free
bitmap_empty-has_item vlchunk i h =
    rw (all_zero-get_or vlchunk.bitmap (i / 64) h) (test_bit-zero (i % 64))

pub listed-append : (c : ℕ) (xs ys : List ℕ) → listed c (xs ++ ys) ≡ (listed c xs || listed c ys)
unfolding listed
listed-append c [] ys = refl
listed-append c (x ∷ xs) ys = ground (arith, listed-append c xs ys)

pub Distinct-append :
    (xs ys : List ℕ)
    → Distinct xs
    → Distinct ys
    → ((c : ℕ) → listed c xs ≡ true → listed c ys ≡ false)
    → Distinct (xs ++ ys)
unfolding listed
Distinct-append [] ys h k apart = k
Distinct-append (x ∷ xs) ys h k apart = (
  ground (arith, h.0, listed-append x xs ys, apart x),
  Distinct-append xs ys h.1 k (λ c e. apart c (ground (arith, e))),
)

-- What unlinking leaves alone.
record SameChunks {T : Type 0} (before after : Vlog T) : Type 0 where
  bitmaps : (c : ℕ) → (after.vlchunks c).bitmap ≡ (before.vlchunks c).bitmap
  counts : (c : ℕ) → (after.vlchunks c).count ≡ (before.vlchunks c).count
  items : (c i : ℕ) → (after.lchunks c).items i ≡ (before.lchunks c).items i
  tree : after.vlchunk_tree ≡ before.vlchunk_tree
  tail : after.tail_vlchunk ≡ before.tail_vlchunk
  free_list : after.global_free_list ≡ before.global_free_list
  file : (after.log_file_addr ≡ before.log_file_addr) × (after.log_file_used ≡ before.log_file_used)

module _ {T : Type 0} where
  unlink-SameChunks : (c : ℕ) (vlog : Vlog T) → SameChunks vlog (unlink c vlog)
  unfolding unlink
  unlink-SameChunks c vlog = elim (Bool-cases ((vlog.vlchunks c).pre_lchunk == 0)) [
    | inl root ↦ rw root (record {
      bitmaps = λ d. ground arith;
      counts = λ d. ground arith;
      items = λ d i. ground arith;
      tree = refl;
      tail = refl;
      free_list = refl;
      file = (refl, refl);
    })
    | inr linked ↦ rw linked (record {
      bitmaps = λ d. ground arith;
      counts = λ d. ground arith;
      items = λ d i. ground arith;
      tree = refl;
      tail = refl;
      free_list = refl;
      file = (refl, refl);
    })
  ]

  SameChunks-refl : (vlog : Vlog T) → SameChunks vlog vlog
  SameChunks-refl vlog = record {
    bitmaps = λ c. refl;
    counts = λ c. refl;
    items = λ c i. refl;
    tree = refl;
    tail = refl;
    free_list = refl;
    file = (refl, refl);
  }

  SameChunks-trans : (a b c : Vlog T) → SameChunks a b → SameChunks b c → SameChunks a c
  SameChunks-trans a b c s t = record {
    bitmaps = λ d. t.bitmaps d ∙ s.bitmaps d;
    counts = λ d. t.counts d ∙ s.counts d;
    items = λ d i. t.items d i ∙ s.items d i;
    tree = t.tree ∙ s.tree;
    tail = t.tail ∙ s.tail;
    free_list = t.free_list ∙ s.free_list;
    file = (t.file.0 ∙ s.file.0, t.file.1 ∙ s.file.1);
  }

  -- The chunks that the first loop finds, among `cs`.
  record Unlinks (cs : List ℕ) (vlog : Vlog T) (found : List ℕ) (after : Vlog T) : Type 0 where
    same : SameChunks vlog after
    among :
        (c : ℕ)
        → listed c found ≡ true
        → (listed c cs ≡ true) × (bitmap_empty (vlog.vlchunks c) ≡ true)
    distinct : Distinct cs → Distinct found

  unlink_all-Unlinks :
      (cs : List ℕ) (vlog : Vlog T) → Unlinks cs vlog (unlink_all cs vlog).0 (unlink_all cs vlog).1
  unfolding unlink_all listed bitmap_empty
  unlink_all-Unlinks [] vlog = record {
    same = SameChunks-refl vlog;
    among = λ c e. absurd (ground (arith, e));
    distinct = λ h. tt;
  }
  unlink_all-Unlinks (c ∷ cs) vlog = elim (Bool-cases (bitmap_empty (vlog.vlchunks c))) [
    | inl empty ↦
        let one = unlink-SameChunks c vlog in
        let u = unlink_all-Unlinks cs (unlink c vlog) in
        rw empty (record {
          same = SameChunks-trans vlog (unlink c vlog) _ one u.same;
          among = λ d e. elim (Bool-cases (c == d)) [
            | inl here ↦ (rw here refl, rw⁻¹ ((==_iff c d).0 here) empty)
            | inr other ↦
                let (old, dead) = u.among d (ground (arith, e)) in
                (ground (arith, old), sym (ap all_zero (one.bitmaps d)) ∙ dead)
          ];
          distinct = λ h. (ground (arith, h.0, u.among c), u.distinct h.1);
        })
    | inr full ↦
        let u = unlink_all-Unlinks cs vlog in
        rw full (record {
          same = u.same;
          among = λ d e. (ground (arith, u.among d), (u.among d e).1);
          distinct = λ h. u.distinct h.1;
        })
  ]

module _ {T : Type 0} (tree : ChunkTree T) (laws : IsChunkTree tree) where
  -- The second loop: the chunks go from the tree to the free list.
  record Releases (cs : List ℕ) (vlog after : Vlog T) : Type 0 where
    search :
        (c : ℕ)
        → tree.search c after.vlchunk_tree
          ≡ (if listed c cs then false else tree.search c vlog.vlchunk_tree)
    free_list : after.global_free_list ≡ vlog.global_free_list ++ cs
    vlchunks : after.vlchunks ≡ vlog.vlchunks
    lchunks : after.lchunks ≡ vlog.lchunks
    tail : after.tail_vlchunk ≡ vlog.tail_vlchunk
    file : (after.log_file_addr ≡ vlog.log_file_addr) × (after.log_file_used ≡ vlog.log_file_used)

  append_nil : (xs : List ℕ) → xs ≡ xs ++ []
  append_nil [] = refl
  append_nil (x ∷ xs) = ap (λ ys. x ∷ ys) (append_nil xs)

  append_assoc : (xs : List ℕ) (y : ℕ) (ys : List ℕ) → (xs ++ y ∷ []) ++ ys ≡ xs ++ y ∷ ys
  append_assoc [] y ys = refl
  append_assoc (x ∷ xs) y ys = ap (λ zs. x ∷ zs) (append_assoc xs y ys)

  release_all-Releases : (cs : List ℕ) (vlog : Vlog T) → Releases cs vlog (release_all tree cs vlog)
  unfolding release_all listed
  release_all-Releases [] vlog = record {
    search = λ c. refl;
    free_list = append_nil vlog.global_free_list;
    vlchunks = refl;
    lchunks = refl;
    tail = refl;
    file = (refl, refl);
  }
  release_all-Releases (c ∷ cs) vlog =
      let r = release_all-Releases cs (record vlog {
        num_of_chunks = (vlog.num_of_chunks + 2 ^ 64 - 1) % 2 ^ 64;
        num_of_items = (vlog.num_of_items + 2 ^ 64 - 126) % 2 ^ 64;
        vlchunk_tree = tree.remove c vlog.vlchunk_tree;
        global_free_list = vlog.global_free_list ++ c ∷ [];
      }) in
      record {
        search = λ d. ground (arith, r.search d, laws.search-remove d c vlog.vlchunk_tree);
        free_list = r.free_list ∙ append_assoc vlog.global_free_list c cs;
        vlchunks = r.vlchunks;
        lchunks = r.lchunks;
        tail = r.tail;
        file = r.file;
      }

  -- On a well-formed log whose tail has a live item, fast_GC keeps all live items as they were and
  -- keeps the log well formed.
  pub fast_gc-SameItems :
      (vlog : Vlog T) (i : ℕ)
      → IsLog tree vlog
      → has_item (vlog.vlchunks vlog.tail_vlchunk) i ≡ true
      → SameItems tree vlog (fast_gc tree vlog) × IsLog tree (fast_gc tree vlog)
  unfolding fast_gc
  fast_gc-SameItems vlog i v held = (
    record {
      lives = λ c j. lives c j;
      items = λ c j e. ap (λ f. (f c).items j) r.lchunks ∙ u.same.items c j;
    },
    record {
      tail_in =
          rw (r.tail, u.same.tail, search vlog.tail_vlchunk, kept vlog.tail_vlchunk i held)
            v.tail_in;
      in_tree = λ c e.
          let (chunk, below) = v.in_tree c (ground (arith, search c, e)) in
          (same_chunk c chunk, rw (r.file.0, r.file.1, u.same.file.0, u.same.file.1) below);
      in_free = λ c e.
          rw (r.file.0, r.file.1, u.same.file.0, u.same.file.1, search c)
            (in_free c (
              subst (λ xs. listed c xs ≡ true)
                (r.free_list ∙ ap (λ xs. xs ++ found) u.same.free_list) e));
      distinct =
          rw (r.free_list, u.same.free_list)
            (Distinct-append vlog.global_free_list found v.distinct
              (u.distinct (laws.distinct vlog.vlchunk_tree)) apart);
      addr_aligned = rw (r.file.0, u.same.file.0) v.addr_aligned;
      used_aligned = rw (r.file.1, u.same.file.1) v.used_aligned;
    },
  )
    where
      found : List ℕ
      found = (unlink_all (tree.to_list vlog.vlchunk_tree) vlog).0

      middle : Vlog T
      middle = (unlink_all (tree.to_list vlog.vlchunk_tree) vlog).1

      after : Vlog T
      after = release_all tree found middle

      u : Unlinks (tree.to_list vlog.vlchunk_tree) vlog found middle
      u = unlink_all-Unlinks (tree.to_list vlog.vlchunk_tree) vlog

      r : Releases found middle after
      r = release_all-Releases found middle

      search :
          (c : ℕ)
          → tree.search c after.vlchunk_tree
            ≡ (if listed c found then false else tree.search c vlog.vlchunk_tree)
      search c =
          r.search c ∙ ap (λ t. if listed c found then false else tree.search c t) u.same.tree

      bitmaps : (c : ℕ) → (after.vlchunks c).bitmap ≡ (vlog.vlchunks c).bitmap
      bitmaps c = ap (λ f. (f c).bitmap) r.vlchunks ∙ u.same.bitmaps c

      counts : (c : ℕ) → (after.vlchunks c).count ≡ (vlog.vlchunks c).count
      counts c = ap (λ f. (f c).count) r.vlchunks ∙ u.same.counts c

      kept : (c j : ℕ) → has_item (vlog.vlchunks c) j ≡ true → listed c found ≡ false
      kept c j e = elim (Bool-cases (listed c found)) [
        | inl l ↦
            absurd (ground (arith, e, bitmap_empty-has_item (vlog.vlchunks c) j (u.among c l).1))
        | inr o ↦ o
      ]

      lives : (c j : ℕ) → live tree after c j ≡ live tree vlog c j
      lives c j =
          rw (search c, bitmaps c)
            (elim (Bool-cases (listed c found)) [
              | inl l ↦ ground (arith, l, bitmap_empty-has_item (vlog.vlchunks c) j (u.among c l).1)
              | inr o ↦ ground (arith, o)
            ])

      same_chunk : (c : ℕ) → IsChunk c (vlog.vlchunks c) → IsChunk c (after.vlchunks c)
      same_chunk c v' = record {
        words = rw (bitmaps c) v'.words;
        slots = λ j e. rw (counts c) (v'.slots j (subst (λ b. is_free b j ≡ true) (bitmaps c) e));
        cap = rw (counts c) v'.cap;
        aligned = v'.aligned;
      }

      in_free :
          (c : ℕ)
          → listed c (vlog.global_free_list ++ found) ≡ true
          → ((if listed c found then false else tree.search c vlog.vlchunk_tree) ≡ false)
            × (c % 1024 ≡ 0)
            × (c < vlog.log_file_addr + vlog.log_file_used)
      in_free c e = elim (Bool-cases (listed c found)) [
        | inl l ↦
            let (chunk, below) =
              v.in_tree c (laws.search-to_list c vlog.vlchunk_tree ∙ (u.among c l).0) in
            (rw l refl, chunk.aligned, below)
        | inr o ↦
            let (out, aligned, below) =
              v.in_free c (ground (arith, listed-append c vlog.global_free_list found, o, e)) in
            (rw o out, aligned, below)
      ]

      apart : (c : ℕ) → listed c vlog.global_free_list ≡ true → listed c found ≡ false
      apart c e = elim (Bool-cases (listed c found)) [
        | inl l ↦ absurd (
            ground
              (arith, (v.in_free c e).0, laws.search-to_list c vlog.vlchunk_tree, (u.among c l).0))
        | inr o ↦ o
      ]
