-- ===== src/Malloc/Emptied.antt =====
-- Giving the entries of a bank back: their blocks are free in their slabs.
use pmalloc.Prelude.{
  ℕ, zero, suc, ◌+◌, ◌-◌, ◌*◌, ◌/◌, ◌%◌, ◌^◌, ◌≤◌, ◌<◌, ◌≡◌, refl, sym, ◌∙◌, ap, true, false, not,
  ◌&&◌, ◌==◌, ==_iff, ==_self, if◌then◌else◌, Bool-cases, inl, inr, some, length, subst, arith,
  length-set,
}
use pmalloc.Bitmap.{is_free, bitmap_unset_bits}
use pmalloc.Bitmap.Laws.{is_free-unset}
use pmalloc.Cache.{CacheEntry, update}
use pmalloc.Slab.{VSlab, State}
use pmalloc.Slab.Free.{
  block_index, is_old, unmark, putback, release_slab, release_lru_slab, migrate_putback,
}
use pmalloc.Malloc.Migrate.{put_entries}

-- Blocks stay where they are and what is free stays free.
pub record Keeps (s s' : State) : Type 0 where
  pub blocks : (v ptr : ℕ) → block_index (s'.vslabs v) ptr ≡ block_index (s.vslabs v) ptr
  pub num_b : (v : ℕ) → (s'.vslabs v).num_b ≡ (s.vslabs v).num_b
  pub size : (v : ℕ) → length (s'.vslabs v).bitmap ≡ length (s.vslabs v).bitmap
  pub free :
      (v j : ℕ) → is_free (s.vslabs v).bitmap j ≡ true → is_free (s'.vslabs v).bitmap j ≡ true

pub Keeps-refl : (s : State) → Keeps s s
Keeps-refl s = record {
  blocks = λ v ptr. refl;
  num_b = λ v. refl;
  size = λ v. refl;
  free = λ v j h. h;
}

pub Keeps-trans : (s t u : State) → Keeps s t → Keeps t u → Keeps s u
Keeps-trans s t u a b = record {
  blocks = λ v ptr. b.blocks v ptr ∙ a.blocks v ptr;
  num_b = λ v. b.num_b v ∙ a.num_b v;
  size = λ v. b.size v ∙ a.size v;
  free = λ v j h. b.free v j (a.free v j h);
}

-- What `putback` after `unmark` makes of slab `w`.
given_back : (v index : ℕ) → VSlab → VSlab
given_back v index vslab = record vslab {
  bitmap = bitmap_unset_bits vslab.bitmap index;
  nbits = (vslab.nbits + 2 ^ 16 - 1) % 2 ^ 16;
  dmeta = update vslab.dmeta index (record (vslab.dmeta index) { alloced = false });
}

putback-vslabs :
    (v index w : ℕ) (s : State)
    → (putback v index (unmark v index s)).vslabs w
      ≡ (if v == w then given_back v index (s.vslabs v) else s.vslabs w)
unfolding putback unmark release_lru_slab release_slab given_back
putback-vslabs v index w s =
    let n = ((s.vslabs v).nbits + 2 ^ 16 - 1) % 2 ^ 16 in
    elim (Bool-cases (n == 0 && not (s.vslabs v).r_dirty)) [
      | inl empty ↦ elim (Bool-cases (v == w)) [
        | inl same ↦ rw (==_self v, empty, same) refl
        | inr other ↦ rw (==_self v, empty, other) refl
      ]
      | inr held ↦ elim (Bool-cases (v == w)) [
        | inl same ↦ rw (==_self v, held, same) refl
        | inr other ↦ rw (==_self v, held, other) refl
      ]
    ]

module _ (vslab_of : ℕ → ℕ) where
  -- The block at `ptr` has a bit in the bitmap of its slab.
  abbrev pub Fits : State → ℕ → Type 0
  Fits s ptr =
      block_index (s.vslabs (vslab_of ptr)) ptr < 64 * length (s.vslabs (vslab_of ptr)).bitmap

  -- It is free.
  abbrev pub Freed : State → ℕ → Type 0
  Freed s ptr =
      is_free (s.vslabs (vslab_of ptr)).bitmap (block_index (s.vslabs (vslab_of ptr)) ptr) ≡ true

  -- No slab has blocks of an old class.
  abbrev pub Calm : State → Type 0
  Calm s = (v : ℕ) → (s.vslabs v).num_b ≡ 0

  pub Keeps-Fits : (s s' : State) (ptr : ℕ) → Keeps s s' → Fits s ptr → Fits s' ptr
  Keeps-Fits s s' ptr k f = rw (k.blocks (vslab_of ptr) ptr, k.size (vslab_of ptr)) f

  pub Keeps-Freed : (s s' : State) (ptr : ℕ) → Keeps s s' → Freed s ptr → Freed s' ptr
  Keeps-Freed s s' ptr k f = rw (k.blocks (vslab_of ptr) ptr) (k.free (vslab_of ptr) _ f)

  pub Keeps-Calm : (s s' : State) → Keeps s s' → Calm s → Calm s'
  Keeps-Calm s s' k c v = k.num_b v ∙ c v

  putback-Keeps :
      (v index : ℕ) (s : State)
      → index < 64 * length (s.vslabs v).bitmap
      → Keeps s (putback v index (unmark v index s))
        × (is_free ((putback v index (unmark v index s)).vslabs v).bitmap index ≡ true)
  unfolding given_back block_index bitmap_unset_bits
  putback-Keeps v index s h = (
    record {
      blocks = λ w ptr. elim (Bool-cases (v == w)) [
        | inl same ↦
            rw (putback-vslabs v index w s, same)
              (ap (λ x. block_index (s.vslabs x) ptr) ((==_iff v w).0 same))
        | inr other ↦ rw (putback-vslabs v index w s, other) refl
      ];
      num_b = λ w. elim (Bool-cases (v == w)) [
        | inl same ↦
            rw (putback-vslabs v index w s, same)
              (ap (λ x. (s.vslabs x).num_b) ((==_iff v w).0 same))
        | inr other ↦ rw (putback-vslabs v index w s, other) refl
      ];
      size = λ w. elim (Bool-cases (v == w)) [
        | inl same ↦
            rw (putback-vslabs v index w s, same)
              (length-set (s.vslabs v).bitmap (index / 64) _
                ∙ ap (λ x. length (s.vslabs x).bitmap) ((==_iff v w).0 same))
        | inr other ↦ rw (putback-vslabs v index w s, other) refl
      ];
      free = λ w j f. elim (Bool-cases (v == w)) [
        | inl same ↦
            let mine =
              subst (λ x. is_free (s.vslabs x).bitmap j ≡ true) (sym ((==_iff v w).0 same)) f in
            rw (putback-vslabs v index w s, same)
              (is_free-unset (s.vslabs v).bitmap index j h ∙ ground (arith, mine))
        | inr other ↦ rw (putback-vslabs v index w s, other) f
      ];
    },
    rw (putback-vslabs v index v s, ==_self v)
        (is_free-unset (s.vslabs v).bitmap index index h ∙ ground (arith, ==_self index)),
  )

  migrate_putback-Freed :
      (ptr : ℕ) (s : State)
      → Calm s
      → Fits s ptr
      → (s' : State) × (migrate_putback (vslab_of ptr) ptr s ≡ some s') × Keeps s s' × Freed s' ptr
  unfolding migrate_putback
  migrate_putback-Freed ptr s calm fits =
      let v = vslab_of ptr in
      let index = block_index (s.vslabs v) ptr in
      let (k, f) = putback-Keeps v index s fits in
      let own : is_old (s.vslabs v) ptr ≡ false = ground (arith, calm v) in
      (putback v index (unmark v index s), rw (own, migrate_putback) refl, k, rw (k.blocks v ptr) f)

  pub put_entries-Freed :
      (n i : ℕ) (avail : ℕ → CacheEntry) (s : State)
      → Calm s
      → ((k : ℕ) → i ≤ k → k < i + n → Fits s (avail k).ret)
      → (s' : State) × (put_entries vslab_of n i avail s ≡ some s')
        × Keeps s s'
        × ((k : ℕ) → i ≤ k → k < i + n → Freed s' (avail k).ret)
  unfolding put_entries
  put_entries-Freed zero i avail s calm fits =
      (s, refl, Keeps-refl s, λ k l h. absurd (omega arith))
  put_entries-Freed (suc n) i avail s calm fits =
      let (mid, run, keep, freed) =
        migrate_putback-Freed (avail i).ret s calm (fits i (omega arith) (omega arith)) in
      let (s', runs, keeps, rest) =
        put_entries-Freed n (i + 1) avail mid (Keeps-Calm s mid keep calm)
          (λ k l h. Keeps-Fits s mid (avail k).ret keep (fits k (omega arith) (omega arith))) in
      (
        s',
        rw (run, put_entries) runs,
        Keeps-trans s mid s' keep keeps,
        λ k l h. elim (Bool-cases (i == k)) [
          | inl same ↦
              subst (λ x. Freed s' (avail x).ret) ((==_iff i k).0 same)
                (Keeps-Freed mid s' (avail i).ret keeps freed)
          | inr other ↦ rest k (ground (arith, other)) (omega arith)
        ],
      )
