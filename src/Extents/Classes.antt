-- ===== src/Extents/Classes.antt =====
-- `get_psizeclass_floor` of src/extent.c against the page classes.
use mathlib.Core.Logic.{inl, inr}
use pmalloc.Prelude.{
  ℕ, zero, suc, ◌+◌, ◌-◌, ◌%◌, ◌^◌, ◌≤◌, ◌<◌, ◌≡◌, ◌≢◌, refl, ap, arith, ltb, leb, ◌==◌, Bool, true,
  false, Bool-cases, List, [], ◌∷◌, ◌&&◌, get_or,
}
use pmalloc.SizeClass.{psize_classes, pages_of, class_npages, get_psizeclass}
use pmalloc.SizeClass.Pages.{get_psizeclass_smallest, get_psizeclass_above}
use pmalloc.Extents.{get_psizeclass_floor}

-- `n` entries that grow, from above `x`.
grows : ℕ → ℕ → List ℕ → Bool
grows x zero ys = true
grows x (suc n) [] = false
grows x (suc n) (y ∷ ys) = ltb x y && grows y n ys

grows-head : (x n : ℕ) (ys : List ℕ) (j : ℕ) → grows x n ys ≡ true → j < n → x < get_or ys j 0
unfolding grows
grows-head x zero ys j g h = absurd (omega arith)
grows-head x (suc n) [] j g h = absurd (cc)
grows-head x (suc n) (y ∷ ys) zero g h = ground arith
grows-head x (suc n) (y ∷ ys) (suc j) g h = ground (arith, grows-head y n ys j)

grows-lt :
    (x n : ℕ) (ys : List ℕ) (i j : ℕ)
    → grows x n ys ≡ true
    → i < j
    → j < n
    → get_or ys i 0 < get_or ys j 0
unfolding grows
grows-lt x zero ys i j g p h = absurd (omega arith)
grows-lt x (suc n) [] i j g p h = absurd (cc)
grows-lt x (suc n) (y ∷ ys) i zero g p h = absurd (omega arith)
grows-lt x (suc n) (y ∷ ys) zero (suc j) g p h = ground (arith, grows-head y n ys j)
grows-lt x (suc n) (y ∷ ys) (suc i) (suc j) g p h = ground (arith, grows-lt y n ys i j)

psize_classes-grows : grows 0 62 (pages_of psize_classes) ≡ true
unfolding grows pages_of
psize_classes-grows = refl

pub class_npages-lt : (i j : ℕ) → i < j → j < 62 → class_npages i < class_npages j
unfolding class_npages
class_npages-lt i j p h = grows-lt 0 62 (pages_of psize_classes) i j psize_classes-grows p h

class_npages-last : class_npages 61 ≡ 98304
unfolding class_npages pages_of
class_npages-last = refl

class_npages-first : class_npages 0 ≡ 1
unfolding class_npages pages_of
class_npages-first = refl

pub class_npages_pos : (i : ℕ) → i < 62 → 1 ≤ class_npages i
unfolding class_npages
class_npages_pos i h =
    omega (arith, grows-head 0 62 (pages_of psize_classes) i psize_classes-grows h)

pub class_npages-le : (i : ℕ) → i < 62 → class_npages i ≤ 98304
class_npages-le i h = elim (Bool-cases (ltb i 61)) [
  | inl p ↦ ground (arith, class_npages-lt i 61, class_npages-last)
  | inr p ↦ let e : i ≡ 61 = ground arith in rw (e, class_npages-last) (omega arith)
]

-- The class of `n` pages is the first that has `n` pages.
pub get_psizeclass-le : (n i : ℕ) → n ≤ 98304 → i < 62 → n ≤ class_npages i → get_psizeclass n ≤ i
get_psizeclass-le n i h k p = let found = get_psizeclass_smallest n h in ground (arith, found.2 i)

-- The class `i` is the floor class of `n` pages.
pub record IsFloor (n i : ℕ) : Type 0 where
  pub class : i < 62
  pub serves : class_npages i ≤ n
  pub last : (j : ℕ) → i < j → j < 62 → n < class_npages j

below_top : (n : ℕ) → n ≤ 98304 → get_psizeclass n ≡ get_psizeclass (n + 1) → n < 98304
below_top n high same = elim (Bool-cases (ltb n 98304)) [
  | inl p ↦ ground arith
  | inr p ↦
      let here = get_psizeclass_smallest n high in
      let zero_class = get_psizeclass_above (n + 1) (ground arith) in
      let e : get_psizeclass n ≡ 0 = omega arith in
      let few : n ≤ 1 = omega (arith, here.1, ap class_npages e, class_npages-first) in
      absurd (ground arith)
]

-- When `n` and `n + 1` pages have one class, the floor is the class before it.
below_next :
    (n : ℕ)
    → 1 ≤ n
    → n < 98304
    → get_psizeclass n ≡ get_psizeclass (n + 1)
    → (0 < get_psizeclass n) × IsFloor n (get_psizeclass n - 1)
below_next n low high same =
    let here = get_psizeclass_smallest n (omega arith) in
    let next = get_psizeclass_smallest (n + 1) (omega arith) in
    let enough : n + 1 ≤ class_npages (get_psizeclass n) = rw (← same) at next.1 in
    let p : 0 < get_psizeclass n = elim (Bool-cases (get_psizeclass n == 0)) [
      | inl z ↦
          let e : get_psizeclass n ≡ 0 = ground arith in
          let one : class_npages (get_psizeclass n) ≡ 1 = rw e class_npages-first in
          absurd (omega arith)
      | inr z ↦ ground arith
    ] in
    (
      p,
      record {
        class = omega (arith, here.0);
        serves = omega (arith, here.2 (get_psizeclass n - 1) (omega arith));
        last = λ j q h. elim (Bool-cases (j == get_psizeclass n)) [
          | inl e ↦ let e' : j ≡ get_psizeclass n = ground arith in rw e' (omega arith)
          | inr e ↦ ground (arith, class_npages-lt (get_psizeclass n) j)
        ];
      },
    )

-- Else `n` is the size of its class.
exact_class :
    (n : ℕ)
    → 1 ≤ n
    → n ≤ 98304
    → get_psizeclass n ≢ get_psizeclass (n + 1)
    → IsFloor n (get_psizeclass n)
exact_class n low high differ =
    let here = get_psizeclass_smallest n high in
    let serves : class_npages (get_psizeclass n) ≤ n =
      elim (Bool-cases (leb (class_npages (get_psizeclass n)) n)) [
        | inl e ↦ ground arith
        | inr e ↦
            let wide : n + 1 ≤ class_npages (get_psizeclass n) = ground arith in
            let top = class_npages-le (get_psizeclass n) here.0 in
            let next = get_psizeclass_smallest (n + 1) (omega arith) in
            let back = get_psizeclass-le (n + 1) (get_psizeclass n) (omega arith) here.0 wide in
            let on =
              get_psizeclass-le n (get_psizeclass (n + 1)) high next.0 (omega (arith, next.1)) in
            absurd (differ (omega arith))
      ] in
    record {
      class = here.0;
      serves = serves;
      last = λ j q h. omega (arith, here.1, class_npages-lt (get_psizeclass n) j q h);
    }

-- The floor class of 1 to 98304 pages is one of the 62 classes, and the number of pages lies
-- between the pages of that class and those of the next one, which it does not reach.
pub get_psizeclass_floor-IsFloor : (n : ℕ) → 1 ≤ n → n ≤ 98304 → IsFloor n (get_psizeclass_floor n)
unfolding get_psizeclass_floor
get_psizeclass_floor-IsFloor n low high =
    elim (Bool-cases (get_psizeclass n == get_psizeclass (n + 1))) [
      | inl e ↦
          let e' : get_psizeclass n ≡ get_psizeclass (n + 1) = ground arith in
          let found = below_next n low (below_top n high e') e' in
          let first = get_psizeclass_smallest n high in
          let same : (get_psizeclass n + 2 ^ 32 - 1) % 2 ^ 32 ≡ get_psizeclass n - 1 =
            omega (arith, found.0, first.0) in
          rw (e, same) found.1
      | inr e ↦ rw e (exact_class n low high (λ e'. ground (arith, e')))
    ]
