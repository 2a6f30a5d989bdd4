-- ===== src/Cache/Stack.antt =====
-- The banks of a cache as stacks: what a push and a take do, and that the bank word keeps track.
use mathlib.Core.Logic.{inl, inr}
use pmalloc.Prelude.{
  ℕ, zero, suc, ◌-◌, ◌%◌, ◌^◌, ◌≤◌, ◌<◌, ◌≡◌, ◌≢◌, refl, false, not, ◌==◌, if◌then◌else◌, arith,
  Bool-cases, ℕ-cases, some, leb, Bool, ◌&&◌, ==_iff, subst, sym,
}
use native.Mathlib.Nat.{mod-eq_of_lt}
use pmalloc.Word.{test_bit}
use pmalloc.Word.Bit.{test_bit_high, test_bit-xor, test_bit-pow}
use pmalloc.Word.Bounds.{bit_xor-lt}
use pmalloc.Cache.{
  CacheEntry, Cache, slot, update, cache_bitmap_findnxt, cache_bitmap_flip, cache_push, cache_take,
  skip_sb, took,
}
use pmalloc.Cache.Next.{IsNext, findnxt-IsNext}

-- The bank word has a bit for each bank with an entry and no other, and no bank is over-full.
pub record IsCache (cache : Cache) : Type 0 where
  pub width : cache.bm < 2 ^ 6
  pub bits : (c : ℕ) → test_bit cache.bm c ≡ not (cache.ncached c == 0)
  pub cap : (c : ℕ) → cache.ncached c ≤ 32

pow_six : (c : ℕ) → c < 6 → 2 ^ c < 2 ^ 6
pow_six zero h = omega arith
pow_six (suc zero) h = omega arith
pow_six (suc (suc zero)) h = omega arith
pow_six (suc (suc (suc zero))) h = omega arith
pow_six (suc (suc (suc (suc zero)))) h = omega arith
pow_six (suc (suc (suc (suc (suc zero))))) h = omega arith
pow_six (suc (suc (suc (suc (suc (suc c)))))) h = absurd (omega arith)

flip-lt : (bm c : ℕ) → bm < 2 ^ 6 → c < 6 → cache_bitmap_flip bm c < 2 ^ 6
unfolding cache_bitmap_flip
flip-lt bm c h k =
    let e : bm % 2 ^ 32 ≡ bm = mod-eq_of_lt (omega arith) in
    rw e (bit_xor-lt 6 bm (2 ^ c) h (pow_six c k))

flip_bit :
    (bm c i : ℕ)
    → bm < 2 ^ 6
    → test_bit (cache_bitmap_flip bm c) i ≡ (if c == i then not (test_bit bm i) else test_bit bm i)
unfolding cache_bitmap_flip
flip_bit bm c i h =
    let e : bm % 2 ^ 32 ≡ bm = mod-eq_of_lt (omega arith) in
    rw (e, test_bit-xor i bm (2 ^ c), test_bit-pow c i) refl

-- A push on one of the six banks, when it has room, keeps the cache well formed: the bank word has
-- a bit for each bank with an entry and no other.
pub cache_push-IsCache :
    (c : ℕ) (entry : CacheEntry) (cache : Cache)
    → c < 6
    → cache.ncached c < 32
    → IsCache cache
    → IsCache (cache_push c entry cache)
unfolding cache_push
cache_push-IsCache c entry cache h room v = record {
  width = ground (arith, flip-lt cache.bm c);
  bits = λ i. ground (arith, flip_bit cache.bm c i, v.bits i, v.bits c);
  cap = λ i. ground (arith, v.cap i);
}

-- No entry of the array is marked as taken back.
abbrev pub NoSb : Cache → Type 0
NoSb cache = (i : ℕ) → i < 192 → (cache.avail i).is_sb ≡ false

-- A count of a bank at which nothing marked is read.
skip_sb-NoSb :
    (beyond : Bool) (cache : Cache) (c n : ℕ)
    → NoSb cache
    → (leb 192 (slot c n) && beyond) ≡ false
    → skip_sb beyond cache c n ≡ some n
unfolding skip_sb
skip_sb-NoSb beyond cache c zero h clear = ground (arith, h (slot c 0), clear)
skip_sb-NoSb beyond cache c (suc n) h clear = ground (arith, h (slot c (suc n)), clear)

-- A take from bank `c`: the entry, and the cache after it.
pub record TakesTop (beyond : Bool) (cache : Cache) (c : ℕ) (after : Cache) : Type 0 where
  pub next : IsNext cache.bm cache.now c
  pub nonempty : 0 < cache.ncached c
  pub taken : cache_take beyond cache ≡ took (cache.avail (slot c (cache.ncached c - 1))) after
  pub counts : (i : ℕ) → after.ncached i ≡ (if c == i then cache.ncached c - 1 else cache.ncached i)
  pub entries : after.avail ≡ cache.avail
  pub position : after.now ≡ c
  pub well_formed : IsCache after

TakesTop-of :
    (beyond : Bool) (cache : Cache) (c k : ℕ)
    → IsCache cache
    → NoSb cache
    → (leb 32 (cache.ncached 5) && beyond) ≡ false
    → c ≡ cache_bitmap_findnxt cache.bm cache.now
    → IsNext cache.bm cache.now c
    → c < 6
    → cache.ncached c ≡ suc k
    → (after : Cache) × TakesTop beyond cache c after
unfolding cache_take
TakesTop-of beyond cache c k v no_sb clear e next small count = (
  record cache {
    ncached = update cache.ncached c k;
    bm = if k == 0 then cache_bitmap_flip cache.bm c else cache.bm;
    now = c;
  },
  record {
    next = next;
    nonempty = omega arith;
    taken = rw (← e, skip_sb-NoSb beyond cache c (cache.ncached c) no_sb within, count, top) refl;
    counts = λ i. rw (count, top) refl;
    entries = refl;
    position = refl;
    well_formed = record {
      width = ground (arith, flip-lt cache.bm c);
      bits = λ i. ground (arith, flip_bit cache.bm c i, v.bits i, v.bits c);
      cap = λ i. ground (arith, v.cap i, v.cap c);
    };
  },
)
  where
    within : (leb 192 (slot c (cache.ncached c)) && beyond) ≡ false
    within = elim (Bool-cases (c == 5)) [
      | inl last ↦
          let e5 : c ≡ 5 = (==_iff c 5).0 last in
          subst (λ x. (leb 192 (slot x (cache.ncached x)) && beyond) ≡ false) (sym e5)
            (ground (arith, clear))
      | inr other ↦ ground (arith, other, v.cap c)
    ]

    top : suc k - 1 ≡ k
    top = omega arith

-- On a well-formed cache that is not empty and in which no entry is marked, and when the last bank
-- has room or the byte behind the array reads as unmarked, the allocator takes the top entry of
-- the next bank in cyclic order, that bank gets one entry shorter, and the cache stays well
-- formed.
pub cache_take-TakesTop :
    (beyond : Bool) (cache : Cache)
    → IsCache cache
    → NoSb cache
    → (leb 32 (cache.ncached 5) && beyond) ≡ false
    → cache.bm ≢ 0
    → (c : ℕ) × ((after : Cache) × TakesTop beyond cache c after)
cache_take-TakesTop beyond cache v no_sb clear ne =
    let c : ℕ = cache_bitmap_findnxt cache.bm cache.now in
    let next : IsNext cache.bm cache.now c =
      findnxt-IsNext cache.bm cache.now (omega (arith, v.width)) ne in
    let small : c < 6 = elim (Bool-cases (leb 6 c)) [
      | inl high ↦ absurd (ground (arith, test_bit_high 6 cache.bm c, next.is_set))
      | inr low ↦ ground arith
    ] in
    elim (ℕ-cases (cache.ncached c)) [
      | inl none_left ↦ absurd (ground (arith, v.bits c, next.is_set))
      | inr (k, count) ↦ (c, TakesTop-of beyond cache c k v no_sb clear refl next small count)
    ]
