-- ===== src/Cache/Next.antt =====
-- `cache_bitmap_findnxt` goes round the banks.
use pmalloc.Prelude.{
  ℕ, suc, ◌+◌, ◌-◌, ◌/◌, ◌^◌, ◌≤◌, ◌<◌, ◌≡◌, ◌≢◌, ◌⊎◌, inl, inr, true, false, ◌==◌, arith,
  Bool-cases, leb, ==_iff,
}
use pmalloc.Word.{test_bit, ffs}
use pmalloc.Word.Bit.{test_bit-zero, test_bit-shift}
use pmalloc.Word.Lowest.{ffs-IsLowest, IsLowest, ffs_pos}
use pmalloc.Cache.{cache_bitmap_findnxt}

-- Bank `k` is the first one in the cyclic order after `now` whose bit is set.
pub record IsNext (bm now k : ℕ) : Type 0 where
  pub is_set : test_bit bm k ≡ true
  pub first :
      ((now < k) × ((i : ℕ) → now < i → i < k → test_bit bm i ≡ false))
      ⊎ ((k ≤ now)
          × ((i : ℕ) → now < i → test_bit bm i ≡ false)
          × ((i : ℕ) → i < k → test_bit bm i ≡ false))

-- The word has no set bit above `now` when the shifted word is 0.
none_above : (bm now i : ℕ) → bm / 2 ^ (now + 1) ≡ 0 → now < i → test_bit bm i ≡ false
none_above bm now i z h =
    let e : now + 1 + (i - (now + 1)) ≡ i = omega arith in
    let t : test_bit (bm / 2 ^ (now + 1)) (i - (now + 1)) ≡ false = rw z (test_bit-zero _) in
    rw (← e, ← test_bit-shift (now + 1) bm (i - (now + 1))) t

shift_lt : (bm s : ℕ) → bm < 2 ^ 64 → bm / 2 ^ s < 2 ^ 64
shift_lt bm s h = grind arith

-- On a 64-bit bank word that is not 0 cache_bitmap_findnxt gives the next set bit after the
-- current bank in cyclic order.
pub findnxt-IsNext :
    (bm now : ℕ) → bm < 2 ^ 64 → bm ≢ 0 → IsNext bm now (cache_bitmap_findnxt bm now)
unfolding cache_bitmap_findnxt
findnxt-IsNext bm now h ne = elim (Bool-cases (bm / 2 ^ (now + 1) == 0)) [
  | inl wraps ↦
      let z : bm / 2 ^ (now + 1) ≡ 0 = (==_iff _ _).0 wraps in
      let e : ffs 64 bm ≡ suc (ffs 64 bm - 1) = omega (arith, ffs_pos 64 bm h ne) in
      let l : IsLowest bm (ffs 64 bm - 1) = ffs-IsLowest 64 bm (ffs 64 bm - 1) e in
      rw wraps (record {
        is_set = l.is_set;
        first = inr (wrapped z l.is_set, (λ i p. none_above bm now i z p), l.below);
      })
  | inr ahead ↦
      let tmp : ℕ = bm / 2 ^ (now + 1) in
      let some_bit : tmp ≢ 0 = ground arith in
      let e : ffs 64 tmp ≡ suc (ffs 64 tmp - 1) =
        omega (arith, ffs_pos 64 tmp (shift_lt bm (now + 1) h) some_bit) in
      let l : IsLowest tmp (ffs 64 tmp - 1) = ffs-IsLowest 64 tmp (ffs 64 tmp - 1) e in
      let k : now + 1 + (ffs 64 tmp - 1) ≡ ffs 64 tmp + now = omega arith in
      rw ahead (record {
        is_set = rw (← k, ← test_bit-shift (now + 1) bm (ffs 64 tmp - 1)) l.is_set;
        first = inl (omega arith, λ i p q. skipped i p (l.below (i - (now + 1)) (omega arith)));
      })
]
  where
    wrapped : bm / 2 ^ (now + 1) ≡ 0 → test_bit bm (ffs 64 bm - 1) ≡ true → ffs 64 bm - 1 ≤ now
    wrapped z is_set = elim (Bool-cases (leb (ffs 64 bm - 1) now)) [
      | inl low ↦ ground arith
      | inr high ↦ absurd (ground (arith, none_above bm now (ffs 64 bm - 1) z))
    ]

    skipped :
        (i : ℕ)
        → now < i
        → test_bit (bm / 2 ^ (now + 1)) (i - (now + 1)) ≡ false
        → test_bit bm i ≡ false
    skipped i p t =
        let e : now + 1 + (i - (now + 1)) ≡ i = omega arith in
        rw (← e, ← test_bit-shift (now + 1) bm (i - (now + 1))) t
