-- ===== src/Malloc/Moved.antt =====
-- After a migration the caches are empty, and the blocks that were in them are free.
use pmalloc.Prelude.{
  ℕ, zero, suc, ◌+◌, ◌-◌, ◌≤◌, ◌<◌, ◌≡◌, refl, sym, false, not, ◌&&◌, ◌==◌, ==_iff, ==_self,
  if◌then◌else◌, Bool-cases, inl, inr, some, subst, arith, ltb, leb,
}
use pmalloc.Word.{test_bit}
use pmalloc.Word.Bit.{test_bit-zero}
use pmalloc.Cache.{Cache, slot, update}
use pmalloc.Cache.Stack.{IsCache}
use pmalloc.Slab.{State}
use pmalloc.Malloc.Migrate.{put_entries, put_banks, put_cache_back, put_caches, migrate_caches}
use pmalloc.Malloc.Emptied.{
  Keeps, Keeps-refl, Keeps-trans, Fits, Freed, Calm, Keeps-Fits, Keeps-Freed, Keeps-Calm,
  put_entries-Freed,
}

-- The `k`-th block of bank `c`.
abbrev pub block : Cache → ℕ → ℕ → ℕ
block cache c k = (cache.avail (slot c k)).ret

-- No bank has an entry.
pub record IsEmpty (cache : Cache) : Type 0 where
  pub bm : cache.bm ≡ 0
  pub banks : (c : ℕ) → c < 6 → cache.ncached c ≡ 0

module _ (vslab_of : ℕ → ℕ) where
  put_bank-Freed :
      (cid : ℕ) (cache : Cache) (s : State)
      → Calm vslab_of s
      → ((k : ℕ) → k < cache.ncached cid → Fits vslab_of s (block cache cid k))
      → (s' : State) × (put_entries vslab_of (cache.ncached cid) (slot cid 0) cache.avail s
          ≡ some s')
        × Keeps s s'
        × ((k : ℕ) → k < cache.ncached cid → Freed vslab_of s' (block cache cid k))
  put_bank-Freed cid cache s calm fits =
      let (s', run, keep, freed) =
        put_entries-Freed vslab_of (cache.ncached cid) (slot cid 0) cache.avail s calm (λ j l h.
          let at : slot cid (j - slot cid 0) ≡ j = omega arith in
          subst (λ x. Fits vslab_of s (cache.avail x).ret) at
            (fits (j - slot cid 0) (omega arith))) in
      (s', run, keep, λ k h. freed (slot cid k) (omega arith) (omega arith))

  put_banks-Freed :
      (n cid : ℕ) (cache : Cache) (s : State)
      → Calm vslab_of s
      → ((c k : ℕ)
          → cid ≤ c
          → c < cid + n
          → k < cache.ncached c
          → Fits vslab_of s (block cache c k))
      → (cache' : Cache) × (s' : State) × (put_banks vslab_of n cid cache s ≡ some (cache', s'))
        × Keeps s s'
        × ((c : ℕ)
            → cache'.ncached c ≡ (if leb cid c && ltb c (cid + n) then 0 else cache.ncached c))
        × ((c k : ℕ)
            → cid ≤ c
            → c < cid + n
            → k < cache.ncached c
            → Freed vslab_of s' (block cache c k))
  unfolding put_banks
  put_banks-Freed zero cid cache s calm fits =
      (cache, s, refl, Keeps-refl s, λ c. ground arith, λ c k l h b. absurd (omega arith))
  put_banks-Freed (suc n) cid cache s calm fits =
      let (mid, run, keep, freed) =
        put_bank-Freed cid cache s calm (λ k b. fits cid k (omega arith) (omega arith) b) in
      let cleared = record cache { ncached = update cache.ncached cid 0 } in
      let same : (c : ℕ) → cid + 1 ≤ c → cleared.ncached c ≡ cache.ncached c =
        λ c l. ground arith in
      let (cache', s', runs, keeps, counts, rest) =
        put_banks-Freed n (cid + 1) cleared mid (Keeps-Calm vslab_of s mid keep calm) (λ c k l h b.
          Keeps-Fits vslab_of s mid (block cache c k) keep
            (fits c k (omega arith) (omega arith) (omega (arith, b, same c l)))) in
      (
        cache',
        s',
        rw (run, put_banks) runs,
        Keeps-trans s mid s' keep keeps,
        λ c. ground (arith, counts c),
        λ c k l h b. elim (Bool-cases (cid == c)) [
          | inl here ↦
              let e = (==_iff cid c).0 here in
              subst (λ x. Freed vslab_of s' (block cache x k)) e
                (Keeps-Freed vslab_of mid s' (block cache cid k) keeps
                  (freed k (subst (λ x. k < cache.ncached x) (sym e) b)))
          | inr other ↦
              let above : cid + 1 ≤ c = ground (arith, other) in
              rest c k above (omega arith) (omega (arith, b, same c above))
        ],
      )

  put_cache_back-Freed :
      (cache : Cache) (s : State)
      → IsCache cache
      → Calm vslab_of s
      → ((c k : ℕ) → c < 6 → k < cache.ncached c → Fits vslab_of s (block cache c k))
      → (cache' : Cache) × (s' : State) × (put_cache_back vslab_of cache s ≡ some (cache', s'))
        × Keeps s s'
        × IsEmpty cache'
        × ((c k : ℕ) → c < 6 → k < cache.ncached c → Freed vslab_of s' (block cache c k))
  unfolding put_cache_back
  put_cache_back-Freed cache s v calm fits = elim (Bool-cases (cache.bm == 0)) [
    | inl none_left ↦
        let nothing : (c : ℕ) → cache.ncached c ≡ 0 = λ c.
          let bit =
            subst (λ x. test_bit x c ≡ not (cache.ncached c == 0)) ((==_iff cache.bm 0).0 none_left)
              (v.bits c) in
          ground (arith, bit, test_bit-zero c) in
        (
          cache,
          s,
          rw (none_left, put_cache_back) refl,
          Keeps-refl s,
          record { bm = (==_iff cache.bm 0).0 none_left; banks = λ c h. nothing c },
          λ c k h b. absurd (omega (arith, b, nothing c)),
        )
    | inr some_left ↦
        let (cache', s', run, keep, counts, freed) =
          put_banks-Freed 6 0 cache s calm (λ c k l h b. fits c k (omega arith) b) in
        (
          record cache' { bm = 0 },
          s',
          rw (some_left, run, put_cache_back) refl,
          keep,
          record { bm = refl; banks = λ c h. ground (arith, counts c) },
          λ c k h b. freed c k (omega arith) (omega arith) b,
        )
  ]

  put_caches-Freed :
      (n sc : ℕ) (caches : ℕ → Cache) (s : State)
      → ((x : ℕ) → sc ≤ x → x < sc + n → IsCache (caches x))
      → Calm vslab_of s
      → ((x c k : ℕ)
          → sc ≤ x
          → x < sc + n
          → c < 6
          → k < (caches x).ncached c
          → Fits vslab_of s (block (caches x) c k))
      → (caches' : ℕ → Cache) × (s' : State) × (put_caches vslab_of n sc caches s
          ≡ some (caches', s'))
        × Keeps s s'
        × ((x : ℕ) → x < sc → caches' x ≡ caches x)
        × ((x : ℕ) → sc ≤ x → x < sc + n → IsEmpty (caches' x))
        × ((x c k : ℕ)
            → sc ≤ x
            → x < sc + n
            → c < 6
            → k < (caches x).ncached c
            → Freed vslab_of s' (block (caches x) c k))
  unfolding put_caches
  put_caches-Freed zero sc caches s v calm fits = (
    caches,
    s,
    refl,
    Keeps-refl s,
    λ x l. refl,
    λ x l h. absurd (omega arith),
    λ x c k l h m b. absurd (omega arith),
  )
  put_caches-Freed (suc n) sc caches s v calm fits =
      let (cache, mid, run, keep, empty, freed) =
        put_cache_back-Freed (caches sc) s (v sc (omega arith) (omega arith)) calm
          (λ c k h b. fits sc c k (omega arith) (omega arith) h b) in
      let next = update caches sc cache in
      let same : (x : ℕ) → sc + 1 ≤ x → next x ≡ caches x =
        λ x l. let ne : (sc == x) ≡ false = ground arith in rw ne refl in
      let (caches', s', runs, keeps, before, emptied, rest) =
        put_caches-Freed n (sc + 1) next mid
          (λ x l h. rw (same x l) (v x (omega arith) (omega arith)))
          (Keeps-Calm vslab_of s mid keep calm)
          (λ x c k l h m b. rw (same x l) (
            Keeps-Fits vslab_of s mid (block (caches x) c k) keep (
              fits x c k (omega arith) (omega arith) m
                (subst (λ y. k < y.ncached c) (same x l) b)))) in
      let at_sc : caches' sc ≡ cache = rw (before sc (omega arith), ==_self sc) refl in
      (
        caches',
        s',
        rw (run, put_caches) runs,
        Keeps-trans s mid s' keep keeps,
        λ x l. let ne : (sc == x) ≡ false = ground arith in rw (before x (omega arith), ne) refl,
        λ x l h. elim (Bool-cases (sc == x)) [
          | inl here ↦ subst (λ y. IsEmpty (caches' y)) ((==_iff sc x).0 here) (rw at_sc empty)
          | inr other ↦ emptied x (ground (arith, other)) (omega arith)
        ],
        λ x c k l h m b. elim (Bool-cases (sc == x)) [
          | inl here ↦
              let e = (==_iff sc x).0 here in
              subst (λ y. Freed vslab_of s' (block (caches y) c k)) e
                (Keeps-Freed vslab_of mid s' (block (caches sc) c k) keeps
                  (freed c k m (subst (λ y. k < (caches y).ncached c) (sym e) b)))
          | inr other ↦
              let above : sc + 1 ≤ x = ground (arith, other) in
              subst (λ y. Freed vslab_of s' (block y c k)) (same x above)
                (rest x c k above (omega arith) m
                  (subst (λ y. k < y.ncached c) (sym (same x above)) b))
        ],
      )

  -- For well-formed caches, when no slab has blocks of an old class and each cached block has a
  -- bit in the bitmap of its slab, the loops of numa_migrate_check return: every cache is empty,
  -- each block that was in one is free in its slab, and what was free stays free.
  pub migrate_caches-Freed :
      (caches : ℕ → Cache) (s : State)
      → ((x : ℕ) → x < 40 → IsCache (caches x))
      → Calm vslab_of s
      → ((x c k : ℕ)
          → x < 40
          → c < 6
          → k < (caches x).ncached c
          → Fits vslab_of s (block (caches x) c k))
      → (caches' : ℕ → Cache) × (s' : State) × (migrate_caches vslab_of caches s
          ≡ some (caches', s'))
        × Keeps s s'
        × ((x : ℕ) → x < 40 → IsEmpty (caches' x))
        × ((x c k : ℕ)
            → x < 40
            → c < 6
            → k < (caches x).ncached c
            → Freed vslab_of s' (block (caches x) c k))
  unfolding migrate_caches
  migrate_caches-Freed caches s v calm fits =
      let (caches', s', run, keep, before, empty, freed) =
        put_caches-Freed 40 0 caches s (λ x l h. v x (omega (arith, h))) calm
          (λ x c k l h m b. fits x c k (omega (arith, h)) m b) in
      (
        caches',
        s',
        run,
        keep,
        λ x h. empty x (omega arith) (omega (arith, h)),
        λ x c k h m b. freed x c k (omega arith) (omega (arith, h)) m b,
      )
