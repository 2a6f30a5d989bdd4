-- ===== src/Extents/Region.antt =====
-- The bytes of extents, as intervals of addresses.
use pmalloc.Prelude.{
  ℕ, ◌+◌, ◌%◌, ◌^◌, ◌<◌, ◌≡◌, refl, arith, Bool, true, false, ◌&&◌, ◌||◌, ◌==◌, leb, ltb, List, [],
  ◌∷◌, ◌++◌, Bool-cases, inl, inr,
}
use pmalloc.SizeClass.{page_size}
use pmalloc.Log.{listed}
use pmalloc.Extents.{Extent, extent_list_remove}

-- Whether an address is one of the bytes of an extent, and of an extent on a list.
abbrev pub in_extent : Extent → ℕ → Bool
in_extent e b = leb e.e_addr b && ltb b (e.e_addr + e.size)

unfoldable pub covers : (ℕ → Extent) → List ℕ → ℕ → Bool
covers ext [] b = false
covers ext (x ∷ xs) b = in_extent (ext x) b || covers ext xs b

-- Whole pages of the user's address space.
pub record IsRegion (e : Extent) : Type 0 where
  pub aligned : e.e_addr % page_size ≡ 0
  pub not_null : 0 < e.e_addr
  pub whole : e.size % page_size ≡ 0
  pub some_pages : 0 < e.size
  pub end : e.e_addr + e.size < 2 ^ 63

-- One extent ends before the other begins.
abbrev pub apart : Extent → Extent → Bool
apart e f = leb (e.e_addr + e.size) f.e_addr || leb (f.e_addr + f.size) e.e_addr

-- The extent `m` is `f` and, right behind it, `l`.
pub record Joins (f l m : Extent) : Type 0 where
  pub meet : f.e_addr + f.size ≡ l.e_addr
  pub start : m.e_addr ≡ f.e_addr
  pub length : m.size ≡ f.size + l.size

pub Joins-in_extent :
    (f l m : Extent) (b : ℕ) → Joins f l m → in_extent m b ≡ (in_extent f b || in_extent l b)
Joins-in_extent f l m b j = ground arith

pub Joins-apart :
    (f l m e : Extent)
    → Joins f l m
    → IsRegion e
    → apart f e ≡ true
    → apart l e ≡ true
    → apart m e ≡ true
Joins-apart f l m e j re p q = ground arith

pub Joins-IsRegion : (f l m : Extent) → Joins f l m → IsRegion f → IsRegion l → IsRegion m
Joins-IsRegion f l m j rf rl = record {
  aligned = omega (arith, j.start, rf.aligned);
  not_null = omega (arith, j.start, rf.not_null);
  whole = omega (arith, j.length, rf.whole, rl.whole);
  some_pages = omega (arith, j.length, rf.some_pages);
  end = omega (arith, j.start, j.length, j.meet, rl.end);
}

pub apart_comm : (e f : Extent) → apart e f ≡ apart f e
apart_comm e f = ground arith

pub covers-remove :
    (ext : ℕ → Extent) (y : ℕ) (xs : List ℕ) (b : ℕ)
    → listed y xs ≡ true
    → covers ext xs b ≡ (in_extent (ext y) b || covers ext (extent_list_remove y xs) b)
unfolding covers listed extent_list_remove
covers-remove ext y [] b h = absurd (cc)
covers-remove ext y (z ∷ zs) b h = elim (Bool-cases (z == y)) [
  | inl e ↦ let e' : z ≡ y = ground arith in rw (e, e') refl
  | inr e ↦ ground (arith, covers-remove ext y zs b)
]

pub covers-append :
    (ext : ℕ → Extent) (xs : List ℕ) (y b : ℕ)
    → covers ext (xs ++ y ∷ []) b ≡ (covers ext xs b || in_extent (ext y) b)
unfolding covers
covers-append ext [] y b = ground arith
covers-append ext (x ∷ xs) y b = ground (arith, covers-append ext xs y b)

-- What stands outside the list does not matter.
pub covers-same :
    (ext ext' : ℕ → Extent) (xs : List ℕ) (b : ℕ)
    → ((z : ℕ) → listed z xs ≡ true → ext' z ≡ ext z)
    → covers ext' xs b ≡ covers ext xs b
unfolding covers listed
covers-same ext ext' [] b h = refl
covers-same ext ext' (x ∷ xs) b h =
    rw (h x (ground arith), covers-same ext ext' xs b (λ z l. h z (ground (arith, l)))) refl
