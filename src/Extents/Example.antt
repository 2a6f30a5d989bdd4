-- ===== src/Extents/Example.antt =====
-- Instances of the heap and of the tree, and a small pool over them.
use mathlib.Core.Logic.{inl, inr}
use pmalloc.Prelude.{
  ℕ, ◌+◌, ◌/◌, ◌^◌, ◌≤◌, ◌<◌, ◌≡◌, ◌≢◌, refl, sym, arith, Bool, true, false, not, ◌&&◌, ◌||◌, ◌==◌,
  ltb, Bool-cases, Option, none, some, List, [], ◌∷◌, if◌then◌else◌, length, subst,
}
use pmalloc.Cache.{update}
use pmalloc.SizeClass.{page_size}
use pmalloc.Extents.{
  PairingHeap, IsPairingHeap, Rtree, IsRtree, Leaf, no_leaf, Extent, Extents, Store, extents_init,
  pool_insert,
}
use pmalloc.Log.{listed}
use pmalloc.Extents.{extent_last_get}
use pmalloc.Extents.Region.{IsRegion}
use pmalloc.Extents.Coalesce.Merge.{IsWorking, at_ends}
use pmalloc.Extents.Pool.{IsPool, extents_init-IsPool, pool_insert-IsPool}

pub held : ℕ → ℕ → List (ℕ × ℕ) → Bool
held a x [] = false
held a x ((b, y) ∷ h) = a == b && x == y || held a x h

pub dropped : ℕ → List (ℕ × ℕ) → List (ℕ × ℕ)
dropped y [] = []
dropped y ((b, z) ∷ h) = if z == y then dropped y h else (b, z) ∷ dropped y h

-- The element of the lowest address of a heap and one more element.
pub least : ℕ → ℕ → List (ℕ × ℕ) → ℕ
least a x [] = x
least a x ((b, y) ∷ h) = least (if ltb b a then b else a) (if ltb b a then y else x) h

pub first_of : List (ℕ × ℕ) → Option ℕ
unfolding least
first_of [] = none
first_of ((a, x) ∷ h) = some (least a x h)

pub is_nil : List (ℕ × ℕ) → Bool
is_nil [] = true
is_nil (p ∷ h) = false

abbrev pub list_heap : PairingHeap (List (ℕ × ℕ))
list_heap = record {
  new = [];
  empty = is_nil;
  first = first_of;
  insert = λ a x h. (a, x) ∷ h;
  remove = dropped;
  holds = held;
}

pub held-dropped :
    (a x y : ℕ) (h : List (ℕ × ℕ)) → held a x (dropped y h) ≡ (not (x == y) && held a x h)
unfolding held dropped
held-dropped a x y [] = ground arith
held-dropped a x y ((b, z) ∷ h) = elim (Bool-cases (z == y)) [
  | inl e ↦ rw e (ground (arith, held-dropped a x y h))
  | inr e ↦ rw e (ground (arith, held-dropped a x y h))
]

pub least-le :
    (a x : ℕ) (h : List (ℕ × ℕ))
    → (c : ℕ) × (held c (least a x h) ((a, x) ∷ h) ≡ true)
      × ((b y : ℕ) → held b y ((a, x) ∷ h) ≡ true → c ≤ b)
unfolding held least
least-le a x [] = (a, ground arith, λ b y p. ground arith)
least-le a x ((b, y) ∷ h) = elim (Bool-cases (ltb b a)) [
  | inl lt ↦
      let (c, there, low) = least-le b y h in
      let mine = low b y (ground arith) in
      let step : least a x ((b, y) ∷ h) ≡ least b y h = rw (lt, least) refl in
      let here =
        subst (λ k. held c k ((a, x) ∷ (b, y) ∷ h) ≡ true) (sym step) (ground (arith, there)) in
      (c, here, λ d z p. ground (arith, low d z))
  | inr ge ↦
      let (c, there, low) = least-le a x h in
      let mine = low a x (ground arith) in
      let step : least a x ((b, y) ∷ h) ≡ least a x h = rw (ge, least) refl in
      let here =
        subst (λ k. held c k ((a, x) ∷ (b, y) ∷ h) ≡ true) (sym step) (ground (arith, there)) in
      (c, here, λ d z p. ground (arith, low d z))
]

pub list_heap_law : IsPairingHeap list_heap
unfolding held is_nil first_of
list_heap_law = record {
  holds-new = λ a x. refl;
  holds-insert = λ a x b y h. refl;
  holds-remove = held-dropped;
  empty-holds = nil_holds;
  empty-first = nil_first;
  first-some = some_first;
  first-le = first_le;
}
  where
    nil_holds : (a x : ℕ) (h : List (ℕ × ℕ)) → is_nil h ≡ true → held a x h ≡ false
    nil_holds a x [] e = refl
    nil_holds a x (p ∷ h) e = absurd (cc)

    nil_first : (h : List (ℕ × ℕ)) → is_nil h ≡ true → first_of h ≡ none
    nil_first [] e = refl
    nil_first (p ∷ h) e = absurd (cc)

    some_first : (h : List (ℕ × ℕ)) → is_nil h ≡ false → (x : ℕ) × (first_of h ≡ some x)
    some_first [] e = absurd (cc)
    some_first ((a, x) ∷ h) e = (least a x h, refl)

    first_le :
        (h : List (ℕ × ℕ)) (x : ℕ)
        → first_of h ≡ some x
        → (a : ℕ) × (held a x h ≡ true) × ((b y : ℕ) → held b y h ≡ true → a ≤ b)
    first_le [] x e = absurd (cc)
    first_le ((a, y) ∷ h) x e =
        let same : least a y h ≡ x = cc in
        subst
          (λ (z : ℕ).
            (c : ℕ) × (held c z ((a, y) ∷ h) ≡ true)
            × ((b w : ℕ) → held b w ((a, y) ∷ h) ≡ true → c ≤ b))
          same (least-le a y h)

abbrev pub map_tree : Rtree (ℕ → Leaf)
map_tree = record {
  read = λ m a. m (a / page_size);
  write = λ m a leaf. update m (a / page_size) leaf;
  grow = λ m a. (m, true);
}

pub map_tree_law : IsRtree map_tree
map_tree_law = record { read-write = λ m a b leaf. refl; read-grow = λ m a b. refl }

-- Extent 1 has two pages and is dirty; extent 3 is the page behind it and active.
abbrev pub extents_ex : ℕ → Extent
extents_ex x =
    if x == 1
    then record { e_addr = 1048576; size = 8192; szind = 63; state = 1; arena = 7; slab = false }
    else record { e_addr = 1056768; size = 4096; szind = 0; state = 0; arena = 7; slab = false }

abbrev pub empty_pool : Extents (List (ℕ × ℕ))
empty_pool = extents_init list_heap 1 true

abbrev pub pool_ex : Extents (List (ℕ × ℕ))
pool_ex = pool_insert list_heap 1 (extents_ex 1) empty_pool

pub pool_ex-IsPool : IsPool list_heap extents_ex pool_ex
unfolding extents_init listed
pool_ex-IsPool =
    pool_insert-IsPool list_heap list_heap_law extents_ex 1 empty_pool
      (extents_init-IsPool list_heap list_heap_law extents_ex 1 true) refl
      (record { whole = refl; some_pages = omega arith; few_pages = omega arith; in_state = refl })
      (omega arith)

pub lru_ex : pool_ex.lru ≡ 1 ∷ []
unfolding pool_insert extents_init
lru_ex = refl

pub npages_ex : pool_ex.npages ≡ 2
unfolding pool_insert extents_init
npages_ex = refl

pub listed_ex : (y : ℕ) → listed y pool_ex.lru ≡ (1 == y)
unfolding listed
listed_ex y = rw lru_ex (ground arith)

-- The two pages of extent 1 name it, and so does the page of extent 3.
abbrev pub tree_ex : ℕ → Leaf
tree_ex p =
    if p == 256 || p == 257
    then record { extent = 1; szind = 63; slab = false }
    else if p == 258
    then record { extent = 3; szind = 0; slab = false }
    else no_leaf

abbrev pub store_ex : Store (List (ℕ × ℕ)) (ℕ → Leaf)
store_ex = record { extents = extents_ex; tree = tree_ex; pool = pool_ex; freed = [] }

pub IsRegion-1 : IsRegion (extents_ex 1)
IsRegion-1 = record {
  aligned = refl;
  not_null = omega arith;
  whole = refl;
  some_pages = omega arith;
  end = omega arith;
}

pub state_ex : pool_ex.state ≡ 1
unfolding pool_insert extents_init
state_ex = refl

pub known_ex :
    (p y : ℕ)
    → (map_tree.read store_ex.tree p).extent ≡ y
    → y ≢ 0
    → (extents_ex y).arena ≡ 7
    → (extents_ex y).state ≡ pool_ex.state
    → (listed y pool_ex.lru ≡ true)
      × ((p / page_size == (extents_ex y).e_addr / page_size
            || p / page_size == extent_last_get (extents_ex y) / page_size)
          ≡ true)
known_ex p y e ne ar st = elim (Bool-cases (y == 1)) [
  | inl one ↦
      let y_1 : y ≡ 1 = ground arith in
      let page : (p / page_size == 256 || p / page_size == 257) ≡ true =
        elim (Bool-cases (p / page_size == 256 || p / page_size == 257)) [
          | inl here ↦ here
          | inr other ↦ absurd (ground arith)
        ] in
      (ground (arith, listed_ex y), rw y_1 page)
  | inr other ↦ absurd (ground (arith, state_ex))
]

pub place_ex :
    (p y : ℕ)
    → (map_tree.read store_ex.tree p).extent ≡ y
    → y ≢ 0
    → listed y pool_ex.lru ≡ true
    → at_ends (extents_ex y) p ≡ true
place_ex p y e ne l =
    let y_1 : y ≡ 1 = ground (arith, listed_ex y) in
    let page : (p / page_size == 256 || p / page_size == 257) ≡ true = ground arith in rw y_1 page

pub own_ex : (p : ℕ) → (map_tree.read store_ex.tree p).extent ≡ 3 → at_ends (extents_ex 3) p ≡ true
own_ex p e = ground arith

pub store_ex-IsWorking : IsWorking list_heap map_tree 7 3 store_ex
store_ex-IsWorking = record {
  pool = pool_ex-IsPool;
  counter = omega (arith, npages_ex);
  pool_state = unfold pool_insert in unfold extents_init in omega arith;
  active = refl;
  region = record {
    aligned = refl;
    not_null = omega arith;
    whole = refl;
    some_pages = omega arith;
    end = omega arith;
  };
  regions = λ y l. let e : y ≡ 1 = ground (arith, listed_ex y) in rw e IsRegion-1;
  apart_x = λ y l. let e : y ≡ 1 = ground (arith, listed_ex y) in rw e refl;
  apart_pool = λ y z l k ne. absurd (ground (arith, listed_ex y, listed_ex z));
  known = known_ex;
  place = place_ex;
  own = λ p e ne. own_ex p e;
}

pub one_extent : length pool_ex.lru < 2
one_extent = rw lru_ex (omega arith)

pub ends_ex :
    (y : ℕ) → listed y pool_ex.lru ≡ true → (extents_ex y).e_addr + (extents_ex y).size < 2 ^ 63
ends_ex y l = let e : y ≡ 1 = ground (arith, listed_ex y) in rw e (omega arith)

abbrev pub slab_ex : Extent
slab_ex = record { e_addr = 1048576; size = 65536; szind = 65; state = 0; arena = 7; slab = true }

pub IsRegion-slab : IsRegion slab_ex
IsRegion-slab = record {
  aligned = refl;
  not_null = omega arith;
  whole = refl;
  some_pages = omega arith;
  end = omega arith;
}

abbrev pub slab_store : Store (List (ℕ × ℕ)) (ℕ → Leaf)
slab_store = record store_ex { extents = λ _. slab_ex }

abbrev pub bare_store : Store (List (ℕ × ℕ)) (ℕ → Leaf)
bare_store = record store_ex { tree = λ _. no_leaf }
