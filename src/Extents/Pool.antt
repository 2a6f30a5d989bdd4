-- ===== src/Extents/Pool.antt =====
-- A pool of extents: what its heaps, bitmap, list and counter have in common, and that
-- `extents_insert_locked` and `extents_remove_locked` of src/extent.c keep it.
use mathlib.Core.Logic.{inl, inr}
use pmalloc.Prelude.{
  ℕ, ◌+◌, ◌*◌, ◌/◌, ◌%◌, ◌^◌, ◌≤◌, ◌<◌, ◌≡◌, refl, sym, ◌∙◌, arith, ◌==◌, Bool, true, false, not,
  ◌&&◌, Bool-cases, List, [], ◌∷◌, ◌++◌, length, length-set,
}
use pmalloc.SizeClass.{page_size}
use pmalloc.Word.Bit.{test_bit-zero}
use pmalloc.Bitmap.{is_free, bitmap_unset_bits, bitmap_set_bits}
use pmalloc.Bitmap.Laws.{is_free-unset, is_free-flip}
use pmalloc.Log.{listed, Distinct}
use pmalloc.Log.Collect.{listed-append}
use pmalloc.Extents.{
  Extent, Extents, PairingHeap, IsPairingHeap, extents_init, pool_insert, pool_remove,
  extent_list_remove, get_psizeclass_floor,
}
use pmalloc.Extents.Classes.{IsFloor, get_psizeclass_floor-IsFloor}

-- The pages of the extents on a list.
unfoldable pub sum_pages : (ℕ → Extent) → List ℕ → ℕ
sum_pages ext [] = 0
sum_pages ext (x ∷ xs) = (ext x).size / page_size + sum_pages ext xs

abbrev pub floor_class : Extent → ℕ
floor_class e = get_psizeclass_floor (e.size / page_size)

-- An extent that may lie in a pool of this state: whole pages, one at least and no more than the
-- largest page class.
pub record IsFree (e : Extent) (state : ℕ) : Type 0 where
  pub whole : e.size % page_size ≡ 0
  pub some_pages : 1 ≤ e.size / page_size
  pub few_pages : e.size / page_size ≤ 98304
  pub in_state : e.state ≡ state

-- Each heap holds the listed extents of its class, by address; a bit of the bitmap is set when the
-- heap of that class has an extent, and bit 63 always; the counter is the number of pages.
pub record IsPool {H : Type 0} (heap : PairingHeap H) (ext : ℕ → Extent) (pool : Extents H)
    : Type 0 where
  pub distinct : Distinct pool.lru
  pub free : (x : ℕ) → listed x pool.lru ≡ true → IsFree (ext x) pool.state
  pub holds :
      (i a x : ℕ)
      → heap.holds a x (pool.heaps i)
        ≡ (listed x pool.lru && (a == (ext x).e_addr && i == floor_class (ext x)))
  pub one_word : length pool.bitmap ≡ 1
  pub bits : (i : ℕ) → i < 63 → is_free pool.bitmap i ≡ not (heap.empty (pool.heaps i))
  pub sentinel : is_free pool.bitmap 63 ≡ true
  pub pages : pool.npages ≡ sum_pages ext pool.lru

pub listed-remove :
    (x y : ℕ) (xs : List ℕ)
    → Distinct xs
    → listed x (extent_list_remove y xs) ≡ (not (x == y) && listed x xs)
unfolding listed extent_list_remove
listed-remove x y [] d = ground arith
listed-remove x y (z ∷ zs) d = elim (Bool-cases (z == y)) [
  | inl e ↦
      let e' : z ≡ y = ground arith in
      let gone : listed y zs ≡ false = rw e' at d.0 in
      elim (Bool-cases (x == y)) [
        | inl f ↦ let f' : x ≡ y = ground arith in rw (f', e') (ground (arith, gone))
        | inr f ↦ ground arith
      ]
  | inr e ↦ ground (arith, listed-remove x y zs d.1)
]

Distinct-remove : (y : ℕ) (xs : List ℕ) → Distinct xs → Distinct (extent_list_remove y xs)
unfolding listed extent_list_remove
Distinct-remove y [] d = d
Distinct-remove y (z ∷ zs) d = elim (Bool-cases (z == y)) [
  | inl e ↦ rw e d.1
  | inr e ↦ rw e (ground (arith, d.0, listed-remove z y zs d.1), Distinct-remove y zs d.1)
]

pub sum_pages-remove :
    (ext : ℕ → Extent) (y : ℕ) (xs : List ℕ)
    → listed y xs ≡ true
    → sum_pages ext xs ≡ (ext y).size / page_size + sum_pages ext (extent_list_remove y xs)
unfolding sum_pages listed extent_list_remove
sum_pages-remove ext y [] h = absurd (cc)
sum_pages-remove ext y (z ∷ zs) h = elim (Bool-cases (z == y)) [
  | inl e ↦ let e' : z ≡ y = ground arith in rw (e, e') refl
  | inr e ↦ ground (arith, sum_pages-remove ext y zs)
]

pub sum_pages-append :
    (ext : ℕ → Extent) (xs : List ℕ) (y : ℕ)
    → sum_pages ext (xs ++ y ∷ []) ≡ sum_pages ext xs + (ext y).size / page_size
unfolding sum_pages
sum_pages-append ext [] y = omega arith
sum_pages-append ext (x ∷ xs) y = omega (arith, sum_pages-append ext xs y)

Distinct-append_one :
    (xs : List ℕ) (y : ℕ) → Distinct xs → listed y xs ≡ false → Distinct (xs ++ y ∷ [])
unfolding listed
Distinct-append_one [] y d h = (refl, tt)
Distinct-append_one (x ∷ xs) y d h = (
  ground (arith, d.0, h, listed-append x xs (y ∷ [])),
  Distinct-append_one xs y d.1 (ground arith),
)

unset-length : (bitmap : List ℕ) (i : ℕ) → length (bitmap_unset_bits bitmap i) ≡ length bitmap
unfolding bitmap_unset_bits
unset-length bitmap i = length-set bitmap (i / 64) _

flip-length : (bitmap : List ℕ) (i : ℕ) → length (bitmap_set_bits bitmap i) ≡ length bitmap
unfolding bitmap_set_bits
flip-length bitmap i = length-set bitmap (i / 64) _

module _ {H : Type 0} (heap : PairingHeap H) (law : IsPairingHeap heap) (ext : ℕ → Extent) where
  pub sum_pages-same :
      (ext' : ℕ → Extent) (xs : List ℕ)
      → ((y : ℕ) → listed y xs ≡ true → ext' y ≡ ext y)
      → sum_pages ext' xs ≡ sum_pages ext xs
  unfolding sum_pages listed
  sum_pages-same ext' [] same = refl
  sum_pages-same ext' (x ∷ xs) same =
      rw (same x (ground arith), sum_pages-same ext' xs (λ y l. same y (ground (arith, l)))) refl

  -- A heap that holds something is not empty.
  not_empty : (a x : ℕ) (h : H) → heap.holds a x h ≡ true → heap.empty h ≡ false
  not_empty a x h p = ground (arith, law.empty-holds a x h)

  -- Putting an extent that was not listed into a well-formed pool keeps the pool well-formed,
  -- provided that the extent is one that may lie there and the counter does not overflow.
  pub pool_insert-IsPool :
      (x : ℕ) (pool : Extents H)
      → IsPool heap ext pool
      → listed x pool.lru ≡ false
      → IsFree (ext x) pool.state
      → pool.npages + (ext x).size / page_size < 2 ^ 64
      → IsPool heap ext (pool_insert heap x (ext x) pool)
  unfolding pool_insert
  pool_insert-IsPool x pool inv absent ok room = record {
    distinct = Distinct-append_one pool.lru x inv.distinct absent;
    free = λ y l. elim (Bool-cases (x == y)) [
      | inl e ↦ let e' : x ≡ y = ground arith in rw (← e') ok
      | inr e ↦ inv.free y (unfold listed in ground (arith, listed-append y pool.lru (x ∷ []), l))
    ];
    holds = λ i a y.
        unfold listed in
        ground (
          arith,
          law.holds-insert a y (ext x).e_addr x (pool.heaps pind),
          inv.holds i a y,
          listed-append y pool.lru (x ∷ []),
        );
    one_word = ground (arith, inv.one_word, unset_length);
    bits = λ i h. ground (
      arith,
      inv.bits i h,
      is_free-unset pool.bitmap pind i in_word,
      not_empty (ext x).e_addr x (heap.insert (ext x).e_addr x (pool.heaps pind)),
      law.holds-insert (ext x).e_addr x (ext x).e_addr x (pool.heaps pind),
    );
    sentinel = ground (arith, inv.sentinel, is_free-unset pool.bitmap pind 63 in_word);
    pages = ground (arith, inv.pages, sum_pages-append ext pool.lru x);
  }
    where
      pind : ℕ
      pind = floor_class (ext x)

      low : IsFloor ((ext x).size / page_size) pind
      low = get_psizeclass_floor-IsFloor ((ext x).size / page_size) ok.some_pages ok.few_pages

      in_word : pind < 64 * length pool.bitmap
      in_word = omega (arith, inv.one_word, low.class)

      unset_length : length (bitmap_unset_bits pool.bitmap pind) ≡ length pool.bitmap
      unset_length = unset-length pool.bitmap pind

  -- Taking a listed extent out of a well-formed pool, whose counter is a 64-bit word, keeps the
  -- pool well-formed.
  pub pool_remove-IsPool :
      (x : ℕ) (pool : Extents H)
      → IsPool heap ext pool
      → listed x pool.lru ≡ true
      → pool.npages < 2 ^ 64
      → IsPool heap ext (pool_remove heap x (ext x) pool)
  unfolding pool_remove
  pool_remove-IsPool x pool inv present room = record {
    distinct = Distinct-remove x pool.lru inv.distinct;
    free = λ y l. inv.free y (ground (arith, listed-remove y x pool.lru inv.distinct, l));
    holds = λ i a y. ground (
      arith,
      law.holds-remove a y x (pool.heaps pind),
      inv.holds i a y,
      listed-remove y x pool.lru inv.distinct,
    );
    one_word = ground (arith, inv.one_word, flip-length pool.bitmap pind);
    bits = λ i h. ground (
      arith,
      inv.bits i h,
      is_free-flip pool.bitmap pind i in_word,
      not_empty (ext x).e_addr x (pool.heaps pind),
      inv.holds pind (ext x).e_addr x,
    );
    sentinel = ground (arith, inv.sentinel, low.class, is_free-flip pool.bitmap pind 63 in_word);
    pages = omega (arith, inv.pages, room, sum_pages-remove ext x pool.lru present);
  }
    where
      pind : ℕ
      pind = floor_class (ext x)

      low : IsFloor ((ext x).size / page_size) pind
      low =
          get_psizeclass_floor-IsFloor ((ext x).size / page_size) (inv.free x present).some_pages
            (inv.free x present).few_pages

      in_word : pind < 64 * length pool.bitmap
      in_word = omega (arith, inv.one_word, low.class)

  -- What happens to extents outside the pool does not matter to it.
  pub IsPool-same :
      (ext' : ℕ → Extent) (pool : Extents H)
      → ((y : ℕ) → listed y pool.lru ≡ true → ext' y ≡ ext y)
      → IsPool heap ext pool
      → IsPool heap ext' pool
  IsPool-same ext' pool same inv = record {
    distinct = inv.distinct;
    free = λ y l. rw (same y l) (inv.free y l);
    holds = λ i a y. elim (Bool-cases (listed y pool.lru)) [
      | inl l ↦ rw (same y l) (inv.holds i a y)
      | inr l ↦ ground (arith, inv.holds i a y)
    ];
    one_word = inv.one_word;
    bits = inv.bits;
    sentinel = inv.sentinel;
    pages = inv.pages ∙ sym (sum_pages-same ext' pool.lru same);
  }

-- A pool that `extents_init` has set up is well-formed and empty.
pub extents_init-IsPool :
    {H : Type 0} (heap : PairingHeap H)
    → IsPairingHeap heap
    → (ext : ℕ → Extent) (state : ℕ) (delay_coalesce : Bool)
    → IsPool heap ext (extents_init heap state delay_coalesce)
unfolding extents_init
extents_init-IsPool heap law ext state delay_coalesce = record {
  distinct = tt;
  free = λ x l. absurd (unfold listed in cc);
  holds = λ i a x. unfold listed in law.holds-new a x;
  one_word = unset-length (0 ∷ []) 63;
  bits = λ i h.
      ground (arith, is_free-unset (0 ∷ []) 63 i (omega arith), no_bit i (omega arith), empty_new);
  sentinel = ground (arith, is_free-unset (0 ∷ []) 63 63 (omega arith));
  pages = unfold sum_pages in refl;
}
  where
    no_bit : (i : ℕ) → i < 64 → is_free (0 ∷ []) i ≡ false
    no_bit i h = let e : i / 64 ≡ 0 = omega arith in unfold is_free in rw e (test_bit-zero (i % 64))

    empty_new : heap.empty heap.new ≡ true
    empty_new = elim (Bool-cases (heap.empty heap.new)) [
      | inl e ↦ e
      | inr e ↦
          let (x, first) = law.first-some heap.new e in
          let (a, there, _) = law.first-le heap.new x first in
          absurd (ground (arith, there, law.holds-new a x))
    ]
