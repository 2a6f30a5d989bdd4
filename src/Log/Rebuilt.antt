-- ===== src/Log/Rebuilt.antt =====
-- The log that slow_GC builds has a copy of each live item of the old one, tombstones excepted.
use pmalloc.Prelude.{
  ℕ, zero, suc, ◌+◌, ◌*◌, ◌%◌, ◌<◌, ◌≤◌, ◌≡◌, ◌≢◌, refl, sym, true, false, ◌==◌, ==_self,
  Bool-cases, inl, inr, some, List, [], ◌∷◌, ◌++◌, length, subst, arith, ◌||◌, ==_iff,
}
use pmalloc.Log.{
  Vlog, LogItem, ChunkTree, IsChunkTree, listed, item_addr, log_file_size, Lchunk, Distinct,
}
use pmalloc.Log.Collect.{listed-append}
use pmalloc.Log.Supply.{IsForeign}
use pmalloc.Log.Live.{live, IsLog}
use pmalloc.Log.Slow.{Copying, copy_slots, copy_chunks, copy_log}
use pmalloc.Log.Created.{Created, log_create_for_gc-Created}
use pmalloc.Log.Copied.{Copies, Copies-append, old_item, is_kept, kept, Going, Going-weaken}
use pmalloc.Log.Step.{copy_slot_skips, copy_slot-Step}

-- The chain of chunks from an address on.
abbrev pub Chain : (ℕ → Lchunk) → ℕ → List ℕ → Type 0
Chain lchunks a [] = a ≡ 0
Chain lchunks a (c ∷ cs) = (a ≡ c) × (c ≢ 0) × Chain lchunks (lchunks c).next cs

length-append : (xs ys : List LogItem) → length (xs ++ ys) ≡ length xs + length ys
length-append [] ys = ground arith
length-append (x ∷ xs) ys = omega (arith, length-append xs ys)

module _ {T : Type 0} (tree : ChunkTree T) (laws : IsChunkTree tree) (owner : LogItem → ℕ)
    (old : Vlog T) where
  kept_keep :
      (n j c : ℕ)
      → is_kept tree laws owner old c j ≡ true
      → kept tree laws owner (suc n) j c old
        ≡ old_item tree laws owner old c j ∷ kept tree laws owner n (j + 1) c old
  unfolding kept
  kept_keep n j c e = rw (e, kept) refl

  kept_skip :
      (n j c : ℕ)
      → is_kept tree laws owner old c j ≡ false
      → kept tree laws owner (suc n) j c old ≡ kept tree laws owner n (j + 1) c old
  unfolding kept
  kept_skip n j c e = rw (e, kept) refl

  -- All items to copy from these chunks.
  unfoldable pub all_kept : List ℕ → List LogItem
  all_kept [] = []
  all_kept (c ∷ cs) = kept tree laws owner 128 0 c old ++ all_kept cs

  module _ (chunks : List ℕ) (aligned : (d : ℕ) → listed d chunks ≡ true → d % 1024 ≡ 0) where
    -- What copying `items` makes of a state.
    record Done (c : ℕ) (rest : List ℕ) (items : List LogItem) (s s' : Copying T) : Type 0 where
      going : Going tree laws owner old chunks c 128 rest s'
      used : s'.vlog.log_file_used ≤ s.vlog.log_file_used + 1024 * length items
      copies : Copies tree laws owner items s s'

    copy_slots-Copies :
        (n j c : ℕ) (rest : List ℕ) (s : Copying T)
        → j + n ≡ 128
        → Going tree laws owner old chunks c j rest s
        → listed c chunks ≡ true
        → ((d : ℕ) → listed d rest ≡ true → listed d chunks ≡ true)
        → listed c rest ≡ false
        → s.vlog.log_file_used + 1024 * length (kept tree laws owner n j c old) < log_file_size
        → (s' : Copying T) × (copy_slots tree owner n j c s ≡ some s')
          × Done c rest (kept tree laws owner n j c old) s s'
    unfolding copy_slots
    copy_slots-Copies zero j c rest s e g c_in rest_in c_out room =
        let to_end : j ≡ 128 = omega (arith, e) in
        (
          s,
          refl,
          record {
            going = subst (λ k. Going tree laws owner old chunks c k rest s) to_end g;
            used = unfold kept in omega arith;
            copies = unfold kept in refl;
          },
        )
    copy_slots-Copies (suc n) j c rest s e g c_in rest_in c_out room =
        elim (Bool-cases (is_kept tree laws owner old c j)) [
          | inl keep ↦
              let room' : s.vlog.log_file_used
                    + 1024 * suc (length (kept tree laws owner n (j + 1) c old))
                  < log_file_size =
                subst (λ xs. s.vlog.log_file_used + 1024 * length xs < log_file_size)
                  (kept_keep n j c keep) room in
              let (mid, run, t) =
                copy_slot-Step tree laws owner old chunks aligned c j rest s g c_in rest_in c_out
                  (omega (arith, e)) keep (omega (arith, room')) in
              let (s', runs, d) =
                copy_slots-Copies n (j + 1) c rest mid (omega (arith, e)) t.going c_in rest_in c_out
                  (omega (arith, room', t.used)) in
              rw (kept_keep n j c keep) (
                s',
                rw (run, copy_slots) runs,
                record {
                  going = d.going;
                  used = omega (arith, d.used, t.used);
                  copies = (t.chunk, t.index, mid, t.adds, t.points, d.copies);
                },
              )
          | inr skip ↦
              let (f, l, w) = g.same c c_in in
              let room' : s.vlog.log_file_used
                    + 1024 * length (kept tree laws owner n (j + 1) c old)
                  < log_file_size =
                subst (λ xs. s.vlog.log_file_used + 1024 * length xs < log_file_size)
                  (kept_skip n j c skip) room in
              let (s', runs, d) =
                copy_slots-Copies n (j + 1) c rest s (omega (arith, e))
                  (Going-weaken tree laws owner old chunks c j rest c (j + 1) rest s g
                    (λ d k r. ground (arith, r)))
                  c_in rest_in c_out room' in
              rw (kept_skip n j c skip) (
                s',
                rw (copy_slot_skips tree owner c j s (rw (l, w) skip), copy_slots) runs,
                record { going = d.going; used = d.used; copies = d.copies },
              )
        ]

    chunk_runs :
        (fuel cursor d : ℕ) (s mid s' : Copying T)
        → cursor ≡ d
        → (d == 0) ≡ false
        → tree.search d old.vlchunk_tree ≡ true
        → copy_slots tree owner 128 0 d s ≡ some mid
        → mid.vlog.lchunks d ≡ old.lchunks d
        → copy_chunks tree owner fuel (old.lchunks d).next old mid ≡ some s'
        → copy_chunks tree owner (suc fuel) cursor old s ≡ some s'
    unfolding copy_chunks
    chunk_runs fuel cursor d s mid s' at ne in_tree run l runs =
        subst (λ x. copy_chunks tree owner (suc fuel) x old s ≡ some s') (sym at)
          (rw (ne, in_tree, run, l, copy_chunks) runs)

    -- The whole chain.
    copy_chunks-Copies :
        (cs : List ℕ) (fuel cursor c : ℕ) (s : Copying T)
        → Chain old.lchunks cursor cs
        → Distinct cs
        → ((d : ℕ) → listed d cs ≡ true → listed d chunks ≡ true)
        → ((d : ℕ) → listed d cs ≡ true → tree.search d old.vlchunk_tree ≡ true)
        → length cs < fuel
        → Going tree laws owner old chunks c 128 cs s
        → s.vlog.log_file_used + 1024 * length (all_kept cs) < log_file_size
        → (s' : Copying T) × (copy_chunks tree owner fuel cursor old s ≡ some s')
          × IsLog tree s'.vlog
          × ((d : ℕ) → listed d chunks ≡ true → IsForeign tree s'.vlog d)
          × Copies tree laws owner (all_kept cs) s s'
    unfolding copy_chunks all_kept listed
    copy_chunks-Copies cs zero cursor c s chain ds inside in_tree h g room = absurd (omega arith)
    copy_chunks-Copies [] (suc fuel) cursor c s chain ds inside in_tree h g room =
        (s, rw (chain, copy_chunks) refl, g.valid, λ d i. (g.same d i).0, refl)
    copy_chunks-Copies (d ∷ cs) (suc fuel) cursor c s (at, ne, chain) (out, ds) inside in_tree h g
          room =
        let d_in = inside d (ground (arith, ==_self d)) in
        let cs_in : (e : ℕ) → listed e cs ≡ true → listed e chunks ≡ true =
          λ e l. inside e (ground (arith, l)) in
        let here = kept tree laws owner 128 0 d old in
        let room' : s.vlog.log_file_used + 1024 * (length here + length (all_kept cs))
            < log_file_size =
          subst (λ k. s.vlog.log_file_used + 1024 * k < log_file_size)
            (length-append here (all_kept cs)) (room) in
        let (mid, run, q) =
          copy_slots-Copies 128 0 d cs s refl
            (Going-weaken tree laws owner old chunks c 128 (d ∷ cs) d 0 cs s g
              (λ e k r. ground (arith, r)))
            d_in cs_in out (omega (arith, room')) in
        let (f, l, w) = q.going.same d d_in in
        let (s', runs, v, apart, r) =
          copy_chunks-Copies cs fuel (old.lchunks d).next d mid chain ds cs_in
            (λ e l. in_tree e (ground (arith, l))) (omega arith) q.going
            (omega (arith, room', q.used)) in
        let some_chunk : (d == 0) ≡ false = ground (arith, ne) in
        (
          s',
          chunk_runs fuel cursor d s mid s' at some_chunk (in_tree d (ground (arith, ==_self d)))
              run l runs,
          v,
          apart,
          Copies-append tree laws owner here (all_kept cs) s mid s' q.copies r,
        )

  -- What slow_GC relies on: the chunks `cs` of the chain are those of the tree, the root chunk is
  -- in use, and the owner of each item to copy points to the item.
  pub record IsCopyable (cs : List ℕ) (log_of : ℕ → ℕ) : Type 0 where
    pub valid : IsLog tree old
    pub chain : Chain old.lchunks (old.lchunks old.root_lchunk).next cs
    pub distinct : Distinct cs
    pub in_tree : (d : ℕ) → listed d cs ≡ true → tree.search d old.vlchunk_tree ≡ true
    pub in_chain : (d : ℕ) → tree.search d old.vlchunk_tree ≡ true → listed d cs ≡ true
    pub root_out : tree.search old.root_lchunk old.vlchunk_tree ≡ false
    pub root_aligned : old.root_lchunk % 1024 ≡ 0
    pub root_not_free : listed old.root_lchunk old.global_free_list ≡ false
    pub root_below : old.root_lchunk < old.log_file_addr + old.log_file_used
    pub owned :
        (d k : ℕ)
        → listed d cs ≡ true
        → k < 128
        → is_kept tree laws owner old d k ≡ true
        → log_of (owner (old_item tree laws owner old d k)) ≡ item_addr d k

  -- The chunks in use.
  abbrev pub in_use : List ℕ
  in_use = tree.to_list old.vlchunk_tree ++ old.root_lchunk ∷ []

  pub listed-in_use :
      (d : ℕ) → listed d in_use ≡ (tree.search d old.vlchunk_tree || old.root_lchunk == d)
  unfolding listed
  listed-in_use d = ground (
    arith,
    listed-append d (tree.to_list old.vlchunk_tree) (old.root_lchunk ∷ []),
    laws.search-to_list d old.vlchunk_tree,
  )

  -- A chunk in use is that of an item or the root chunk.
  in_use-cases :
      (A : ℕ → Type 0) (d : ℕ)
      → listed d in_use ≡ true
      → (tree.search d old.vlchunk_tree ≡ true → A d)
      → A old.root_lchunk
      → A d
  in_use-cases A d i items root = elim (Bool-cases (old.root_lchunk == d)) [
    | inl same ↦ subst A ((==_iff _ _).0 same) root
    | inr other ↦ items (ground (arith, i, other, listed-in_use d))
  ]

  module _ (log_of : ℕ → ℕ) (cs : List ℕ) (k : IsCopyable cs log_of) where
    pub in_use-IsUsed :
        (d : ℕ)
        → listed d in_use ≡ true
        → (listed d old.global_free_list ≡ false)
          × (d < old.log_file_addr + old.log_file_used)
          × (d % 1024 ≡ 0)
    in_use-IsUsed d i =
        in_use-cases
          (λ d.
            (listed d old.global_free_list ≡ false)
            × (d < old.log_file_addr + old.log_file_used)
            × (d % 1024 ≡ 0))
          d i
          (λ here. (
            elim (Bool-cases (listed d old.global_free_list)) [
              | inl free ↦ absurd (ground (arith, (k.valid.in_free d free).0, here))
              | inr used ↦ used
            ],
            (k.valid.in_tree d here).1,
            (k.valid.in_tree d here).0.aligned,
          ))
          (k.root_not_free, k.root_below, k.root_aligned)

    start-Going :
        (vlog : Vlog T)
        → Created tree laws old vlog
        → Going tree laws owner old in_use 0 128 cs (record { vlog = vlog; log_of = log_of })
    start-Going vlog new = record {
      valid = new.valid;
      same = λ d i. let (f, b, a) = in_use-IsUsed d i in new.spares d f b;
      owned = λ d j r kp. k.owned d j (ground (arith, r)) (ground (arith, r)) kp;
    }

    -- The new log before and after copying.
    pub copy_log-Copies :
        (fuel gc_timer : ℕ)
        → length cs < fuel
        → old.log_file_used + 2048 + 1024 * length (all_kept cs) < log_file_size
        → (vlog : Vlog T) × (s' : Copying T) × ((c i : ℕ) → live tree vlog c i ≡ false)
          × (copy_log tree owner fuel gc_timer log_of old ≡ some s')
          × IsLog tree s'.vlog
          × ((d : ℕ) → listed d in_use ≡ true → IsForeign tree s'.vlog d)
          × Copies tree laws owner (all_kept cs) (record { vlog = vlog; log_of = log_of }) s'
    unfolding copy_log
    copy_log-Copies fuel gc_timer h room =
        let (vlog, e, new) =
          log_create_for_gc-Created tree laws gc_timer old k.valid (omega (arith, room)) in
        let (f, l, w) = new.spares old.root_lchunk k.root_not_free k.root_below in
        let (s', run, v, apart, q) =
          copy_chunks-Copies in_use (λ d i. (in_use-IsUsed d i).2) cs fuel
            (old.lchunks old.root_lchunk).next 0 (record { vlog = vlog; log_of = log_of }) k.chain
            k.distinct (λ d i. ground (arith, listed-in_use d, k.in_tree d i)) k.in_tree h
            (start-Going vlog new) (omega (arith, room, new.used)) in
        (vlog, s', new.none_live, rw (e, l, copy_log) run, v, apart, q)
