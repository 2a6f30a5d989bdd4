-- ===== src/Extents/Fit/Lowest.antt =====
-- What the search for an extent finds: the lowest address for first fit, the smallest class for
-- best fit.
use mathlib.Core.Logic.{inl, inr}
use pmalloc.Prelude.{
  ℕ, ◌*◌, ◌/◌, ◌%◌, ◌≤◌, ◌<◌, ◌≡◌, arith, Bool, true, false, not, ◌&&◌, ◌||◌, ◌==◌, ltb, leb,
  Bool-cases, Option, none, some, get_or,
}
use pmalloc.Word.{test_bit}
use pmalloc.SizeClass.{page_size, get_psizeclass, class_npages}
use pmalloc.SizeClass.Pages.{get_psizeclass_smallest}
use pmalloc.Bitmap.{is_free}
use pmalloc.Bitmap.Above.{IsFirstFrom, bitmap_ffu-IsFirstFrom}
use pmalloc.Log.{listed}
use pmalloc.Extents.{Extent, Extents, PairingHeap, IsPairingHeap}
use pmalloc.Extents.Classes.{IsFloor, get_psizeclass_floor-IsFloor, class_npages-lt}
use pmalloc.Extents.Pool.{IsPool, floor_class}
use pmalloc.Extents.Fit.{too_large, next_class}

module _ {H : Type 0} (ext : ℕ → Extent) (pool : Extents H) (npages : ℕ) where
  -- The extents that a request may get: those of the pool in the class of the request or a higher
  -- one and, when the pool coalesces late, in a class of at most 32 times the pages.
  abbrev pub fits : ℕ → Bool
  fits y =
      listed y pool.lru
      && (leb (get_psizeclass npages) (floor_class (ext y))
          && (not pool.delay_coalesce || leb (class_npages (floor_class (ext y))) (npages * 32)))

  -- NULL when no extent fits; else one that fits, has the pages, and has the lowest address.
  abbrev pub IsLowestFit : Option ℕ → Type 0
  IsLowestFit none = (y : ℕ) → fits y ≡ false
  IsLowestFit (some x) =
      (fits x ≡ true)
      × (npages ≤ (ext x).size / page_size)
      × ((y : ℕ) → fits y ≡ true → (ext x).e_addr ≤ (ext y).e_addr)

  -- NULL when no extent fits; else one that fits, has the pages, is of the smallest class, and has
  -- the lowest address in that class.
  abbrev pub IsBestFit : Option ℕ → Type 0
  IsBestFit none = (y : ℕ) → fits y ≡ false
  IsBestFit (some x) =
      (fits x ≡ true)
      × (npages ≤ (ext x).size / page_size)
      × ((y : ℕ) → fits y ≡ true → floor_class (ext x) ≤ floor_class (ext y))
      × ((y : ℕ)
          → fits y ≡ true
          → floor_class (ext x) ≡ floor_class (ext y)
          → (ext x).e_addr ≤ (ext y).e_addr)

  -- The search has seen every extent that fits below class `i`.
  abbrev pub Covers : ℕ → Option ℕ → Type 0
  Covers i none = (y : ℕ) → fits y ≡ true → i ≤ floor_class (ext y)
  Covers i (some x) =
      (fits x ≡ true)
      × ((y : ℕ) → fits y ≡ true → floor_class (ext y) < i → (ext x).e_addr ≤ (ext y).e_addr)

  pub Covers-skip :
      (i k : ℕ) (r : Option ℕ)
      → ((y : ℕ) → listed y pool.lru ≡ true → i ≤ floor_class (ext y) → k ≤ floor_class (ext y))
      → Covers i r
      → Covers k r
  Covers-skip i k none empty c = λ y f. empty y (ground arith) (c y f)
  Covers-skip i k (some x) empty c = (c.0, λ y f p. c.1 y f (ground (arith, empty y)))

module _ {H : Type 0} (heap : PairingHeap H) (law : IsPairingHeap heap) (ext : ℕ → Extent)
    (pool : Extents H) (inv : IsPool heap ext pool) (npages : ℕ) (few : npages ≤ 98304) where
  pub IsFloor-listed :
      (y : ℕ) → listed y pool.lru ≡ true → IsFloor ((ext y).size / page_size) (floor_class (ext y))
  IsFloor-listed y l =
      get_psizeclass_floor-IsFloor ((ext y).size / page_size) (inv.free y l).some_pages
        (inv.free y l).few_pages

  abbrev pub word : ℕ
  word = get_or pool.bitmap 0 0

  bit_lem : (i : ℕ) → i < 63 → test_bit word i ≡ not (heap.empty (pool.heaps i))
  unfolding is_free
  bit_lem i h =
      let e : i / 64 ≡ 0 = omega arith in
      let f : i % 64 ≡ i = omega arith in rw (e, f) at (inv.bits i h)

  pub next_class-IsFirstFrom :
      (i : ℕ)
      → i ≤ 63
      → (next_class heap ext pool i ≤ 63) × IsFirstFrom word i (next_class heap ext pool i)
  unfolding is_free
  next_class-IsFirstFrom i h = bitmap_ffu-IsFirstFrom word i 63 h (omega arith) inv.sentinel

  -- An extent of the pool is in a heap that is not empty.
  pub bit_of_listed :
      (y : ℕ) → listed y pool.lru ≡ true → test_bit word (floor_class (ext y)) ≡ true
  bit_of_listed y l =
      let c : ℕ = floor_class (ext y) in
      let f = IsFloor-listed y l in
      ground (
        arith,
        f.class,
        bit_lem c,
        inv.holds c (ext y).e_addr y,
        law.empty-holds (ext y).e_addr y (pool.heaps c),
      )

  -- No extent lies in the classes that `bitmap_ffu` skips.
  pub skipped :
      (i : ℕ)
      → i ≤ 63
      → (y : ℕ) → listed y pool.lru ≡ true
      → i ≤ floor_class (ext y)
      → next_class heap ext pool i ≤ floor_class (ext y)
  skipped i h y l p = elim (Bool-cases (leb (next_class heap ext pool i) (floor_class (ext y)))) [
    | inl q ↦ ground arith
    | inr q ↦
        let found = next_class-IsFirstFrom i h in
        absurd (
          ground (arith, bit_of_listed y l, found.1.skipped (floor_class (ext y)) p (ground arith)))
  ]

  -- The extent that the body looks at.
  pub record Looks (i x : ℕ) : Type 0 where
    pub is_first : heap.first (pool.heaps i) ≡ some x
    pub in_pool : listed x pool.lru ≡ true
    pub in_class : i ≡ floor_class (ext x)
    pub lowest :
        (y : ℕ)
        → listed y pool.lru ≡ true
        → i ≡ floor_class (ext y)
        → (ext x).e_addr ≤ (ext y).e_addr

  pub looks : (i : ℕ) → i < 63 → test_bit word i ≡ true → (x : ℕ) × Looks i x
  looks i h t =
      let (x, e) = law.first-some (pool.heaps i) (ground (arith, bit_lem i h)) in
      let (a, held, least) = law.first-le (pool.heaps i) x e in
      let here = inv.holds i a x in
      let e_a : a ≡ (ext x).e_addr = ground arith in
      (
        x,
        record {
          is_first = e;
          in_pool = ground arith;
          in_class = ground arith;
          lowest = λ y l c.
              rw e_a at (least (ext y).e_addr y (ground (arith, inv.holds i (ext y).e_addr y)));
        },
      )

  -- A class that the loop does not break at keeps extents that fit.
  pub fits_here :
      (i x : ℕ)
      → listed x pool.lru ≡ true
      → i ≡ floor_class (ext x)
      → get_psizeclass npages ≤ i
      → too_large pool.delay_coalesce npages i ≡ false
      → fits ext pool npages x ≡ true
  unfolding too_large
  fits_here i x l e p t = ground arith

  -- A class that the loop breaks at, and those above it, have none.
  pub none_above :
      (i y : ℕ)
      → i < 63
      → too_large pool.delay_coalesce npages i ≡ true
      → fits ext pool npages y ≡ true
      → floor_class (ext y) < i
  unfolding too_large
  none_above i y h t f =
      let c : ℕ = floor_class (ext y) in
      let l : listed y pool.lru ≡ true = ground arith in
      let class = (IsFloor-listed y l).class in
      elim (Bool-cases (ltb c i)) [
        | inl p ↦ ground arith
        | inr p ↦ elim (Bool-cases (c == i)) [
          | inl e ↦ absurd (ground arith)
          | inr e ↦ absurd (ground (arith, class_npages-lt i c))
        ]
      ]

  pub fits-pages : (y : ℕ) → fits ext pool npages y ≡ true → npages ≤ (ext y).size / page_size
  fits-pages y f =
      let c : ℕ = floor_class (ext y) in
      let l : listed y pool.lru ≡ true = ground arith in
      let floor = IsFloor-listed y l in
      let small = get_psizeclass_smallest npages few in
      let le : get_psizeclass npages ≤ c = ground arith in
      elim (Bool-cases (get_psizeclass npages == c)) [
        | inl e ↦
            let e' : get_psizeclass npages ≡ c = ground arith in
            let p : npages ≤ class_npages c = rw e' at small.1 in omega (arith, floor.serves)
        | inr e ↦ omega (
          arith,
          small.1,
          floor.serves,
          class_npages-lt (get_psizeclass npages) c (ground arith) floor.class,
        )
      ]

  -- A search that has seen every class has its answer.
  pub Covers-IsLowestFit :
      (i : ℕ) (r : Option ℕ)
      → ((y : ℕ) → fits ext pool npages y ≡ true → floor_class (ext y) < i)
      → Covers ext pool npages i r
      → IsLowestFit ext pool npages r
  Covers-IsLowestFit i none all c = λ y. elim (Bool-cases (fits ext pool npages y)) [
    | inl f ↦ absurd (omega (arith, all y f, c y f))
    | inr f ↦ f
  ]
  Covers-IsLowestFit i (some x) all c = (c.0, fits-pages x c.0, λ y f. c.1 y f (all y f))

  pub below_63 : (y : ℕ) → fits ext pool npages y ≡ true → floor_class (ext y) < 62
  below_63 y f = let l : listed y pool.lru ≡ true = ground arith in (IsFloor-listed y l).class
