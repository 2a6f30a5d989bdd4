-- ===== src/Log/Step.antt =====
-- One slot of the old log: its item is copied, or is not to be copied.
use pmalloc.Prelude.{
  ℕ, ◌+◌, ◌%◌, ◌<◌, ◌≤◌, ◌≡◌, refl, sym, ◌∙◌, ap, true, false, ◌&&◌, ◌==◌, ==_iff, ==_self,
  Bool-cases, inl, inr, some, List, subst, arith,
}
use pmalloc.Cache.{update}
use pmalloc.Bitmap.{is_free}
use pmalloc.Log.{Vlog, LogItem, ChunkTree, IsChunkTree, listed, item_addr, log_file_size}
use pmalloc.Log.Append.{add_log_for_gc}
use pmalloc.Log.Live.{Adds}
use pmalloc.Log.Slow.{Copying, is_copied, copy_slot}
use pmalloc.Log.Copied.{add_log_for_gc-Copied, old_item, is_kept, remaining, Going, other_slot}

copy_slot_runs :
    {T : Type 0} (tree : ChunkTree T) (owner : LogItem → ℕ) (c j addr : ℕ) (item : LogItem)
    (s : Copying T) (vlog' : Vlog T)
    → (s.vlog.lchunks c).items j ≡ item
    → (is_free (s.vlog.vlchunks c).bitmap j && is_copied tree ((s.vlog.lchunks c).items j)) ≡ true
    → (s.log_of (owner item) == item_addr c j) ≡ true
    → add_log_for_gc tree item s.vlog ≡ some (addr, vlog')
    → copy_slot tree owner c j s
      ≡ some (record { vlog = vlog'; log_of = update s.log_of (owner item) addr })
unfolding copy_slot
copy_slot_runs tree owner c j addr item s vlog' e k o r = rw (k, e, o, e, r, e, copy_slot) refl

pub copy_slot_skips :
    {T : Type 0} (tree : ChunkTree T) (owner : LogItem → ℕ) (c j : ℕ) (s : Copying T)
    → (is_free (s.vlog.vlchunks c).bitmap j && is_copied tree ((s.vlog.lchunks c).items j)) ≡ false
    → copy_slot tree owner c j s ≡ some s
unfolding copy_slot
copy_slot_skips tree owner c j s k = rw (k, copy_slot) refl

module _ {T : Type 0} (tree : ChunkTree T) (laws : IsChunkTree tree) (owner : LogItem → ℕ)
    (old : Vlog T) (chunks : List ℕ)
    (aligned : (d : ℕ) → listed d chunks ≡ true → d % 1024 ≡ 0) where
  -- One item more.
  pub record Step (c j : ℕ) (rest : List ℕ) (s s' : Copying T) : Type 0 where
    pub going : Going tree laws owner old chunks c (j + 1) rest s'
    pub used : s'.vlog.log_file_used ≤ s.vlog.log_file_used + 1024
    pub chunk : ℕ
    pub index : ℕ
    pub adds : Adds tree chunk index (old_item tree laws owner old c j) s.vlog s'.vlog
    pub points :
        s'.log_of
        ≡ update s.log_of (owner (old_item tree laws owner old c j)) (item_addr chunk index)

  pub copy_slot-Step :
      (c j : ℕ) (rest : List ℕ) (s : Copying T)
      → Going tree laws owner old chunks c j rest s
      → listed c chunks ≡ true
      → ((d : ℕ) → listed d rest ≡ true → listed d chunks ≡ true)
      → listed c rest ≡ false
      → j < 128
      → is_kept tree laws owner old c j ≡ true
      → s.vlog.log_file_used + 1024 < log_file_size
      → (s' : Copying T) × (copy_slot tree owner c j s ≡ some s') × Step c j rest s s'
  copy_slot-Step c j rest s g c_in rest_in c_out h keep room =
      let (f, l, w) = g.same c c_in in
      let item = old_item tree laws owner old c j in
      let here : remaining tree laws owner c j rest c j ≡ true = ground (arith, ==_self c) in
      let mine = g.owned c j here keep in
      let a = add_log_for_gc-Copied tree laws item s.vlog g.valid room in
      let addr = item_addr a.chunk a.index in
      (
        record { vlog = a.after; log_of = update s.log_of (owner item) addr },
        copy_slot_runs tree owner c j addr item s a.after (ap (λ x. x.items j) l) (rw (l, w) keep)
            (rw mine (==_self (item_addr c j))) a.returns,
        record {
          going = record {
            valid = a.valid;
            same = λ d i.
                let (f', l', w') = g.same d i in
                let (f'', l'', w'') = a.spares d f' in (f'', l'' ∙ l', w'' ∙ w');
            owned = λ d k r kp.
                let before = g.owned d k (ground (arith, r)) kp in
                elim (Bool-cases (owner item == owner (old_item tree laws owner old d k))) [
                  | inl same ↦
                      absurd (clash d k r (sym mine ∙ ap s.log_of ((==_iff _ _).0 same) ∙ before))
                  | inr other ↦ rw other before
                ];
          };
          used = a.used;
          chunk = a.chunk;
          index = a.index;
          adds = a.adds;
          points = refl;
        },
      )
    where
      clash :
          (d k : ℕ)
          → remaining tree laws owner c (j + 1) rest d k ≡ true
          → item_addr c j ≡ item_addr d k
          → ⊥
      clash d k r e = elim (Bool-cases (c == d)) [
        | inl same ↦
            let to_d = (==_iff c d).0 same in
            let (p, q) =
              other_slot tree laws owner c j d k (aligned c c_in)
                (subst (λ x. x % 1024 ≡ 0) to_d (aligned c c_in)) h (ground (arith, r)) e in
            let out : listed d rest ≡ false = subst (λ x. listed x rest ≡ false) to_d c_out in
            ground (arith, r, out, q)
        | inr other ↦
            let inside : listed d rest ≡ true = ground (arith, r, other) in
            let (p, q) =
              other_slot tree laws owner c j d k (aligned c c_in) (aligned d (rest_in d inside)) h
                (ground (arith, r)) e in
            ground (arith, p, other, ==_self c)
      ]
