-- ===== src/SizeClass/Pages.antt =====
-- What `get_sizeclass_id_by_size` and `get_psizeclass` return, and where the page table ends.
use mathlib.Core.Logic.{inl, inr}
use pmalloc.Prelude.{
  ℕ, zero, suc, ◌-◌, ◌≤◌, ◌<◌, ◌≡◌, refl, leb, arith, Bool-cases, get_or, Bool, true, ◌&&◌, List,
  [], ◌∷◌,
}
use pmalloc.SizeClass.{
  size_classes, psize_classes, pages_of, class_npages, class_bitsize, sizeclass_lookup,
  psizeclass_lookup, get_sizeclass_id_by_size, get_psizeclass,
}
use pmalloc.SizeClass.Lookup.{
  first_fit, boot_lookup-first_fit, IsFirstFit, first_fit-IsFirstFit, first_fit-none,
}

get_or-pred : (x : ℕ) (xs : List ℕ) (i : ℕ) → 1 ≤ i → get_or (x ∷ xs) i 0 ≡ get_or xs (i - 1) 0
get_or-pred x xs zero h = absurd (omega arith)
get_or-pred x xs (suc i) h = let e : suc i - 1 ≡ i = omega arith in rw e refl

pub get_sizeclass-first_fit : (s : ℕ) → get_sizeclass_id_by_size s ≡ first_fit 1 size_classes s 0
unfolding get_sizeclass_id_by_size sizeclass_lookup
get_sizeclass-first_fit s = ground (arith, boot_lookup-first_fit 1 size_classes 0 (λ _. 0) s)

pub get_psizeclass-first_fit : (n : ℕ) → get_psizeclass n ≡ first_fit 0 (pages_of psize_classes) n 0
unfolding get_psizeclass psizeclass_lookup
get_psizeclass-first_fit n =
    ground (arith, boot_lookup-first_fit 0 (pages_of psize_classes) 0 (λ _. 0) n)

-- For every size of at most 14336 bytes the table names the smallest class that holds it, one of
-- the classes 1 to 39.
pub get_sizeclass_smallest :
    (s : ℕ)
    → s ≤ 14336
    → let i = get_sizeclass_id_by_size s in
      (1 ≤ i) × (i < 40) × (s ≤ class_bitsize i) × ((j : ℕ) → 1 ≤ j → j < i → class_bitsize j < s)
unfolding class_bitsize
get_sizeclass_smallest s h =
    let f : IsFirstFit 1 size_classes s (get_sizeclass_id_by_size s) =
      rw (get_sizeclass-first_fit s) (first_fit-IsFirstFit 1 size_classes s 0 38 (omega arith) h) in
    (
      f.from,
      omega (arith, f.within),
      rw (get_or-pred 0 size_classes (get_sizeclass_id_by_size s) f.from) f.enough,
      λ j p q. rw (get_or-pred 0 size_classes j p) (f.earlier (j - 1) (omega arith)),
    )

-- For every number of at most 98304 pages the table names the smallest page class that holds it.
pub get_psizeclass_smallest :
    (n : ℕ)
    → n ≤ 98304
    → let i = get_psizeclass n in
      (i < 62) × (n ≤ class_npages i) × ((j : ℕ) → j < i → class_npages j < n)
unfolding class_npages
get_psizeclass_smallest n h =
    let f : IsFirstFit 0 (pages_of psize_classes) n (get_psizeclass n) =
      rw (get_psizeclass-first_fit n) (
        first_fit-IsFirstFit 0 (pages_of psize_classes) n 0 61 (unfold pages_of in omega arith)
          (unfold pages_of in omega (arith, h))) in
    let same : get_psizeclass n - 0 ≡ get_psizeclass n = omega arith in
    (last_index f, rw same at f.enough, λ j q. f.earlier j (omega arith))
  where
    last_index : IsFirstFit 0 (pages_of psize_classes) n (get_psizeclass n) → get_psizeclass n < 62
    last_index f = elim (Bool-cases (leb 62 (get_psizeclass n))) [
      | inl beyond ↦
          let p : 61 < get_psizeclass n - 0 = ground arith in
          let q : 98304 < n = unfold pages_of in f.earlier 61 p in absurd (omega arith)
      | inr within ↦ ground arith
    ]

bounded : ℕ → List ℕ → Bool
bounded b [] = true
bounded b (x ∷ xs) = leb x b && bounded b xs

get_or-le : (b : ℕ) (xs : List ℕ) (j : ℕ) → bounded b xs ≡ true → get_or xs j 0 ≤ b
unfolding bounded
get_or-le b [] j h = omega arith
get_or-le b (x ∷ xs) zero h = ground arith
get_or-le b (x ∷ xs) (suc j) h = ground (arith, get_or-le b xs j)

psize_classes-bounded : bounded 98304 (pages_of psize_classes) ≡ true
unfolding bounded pages_of
psize_classes-bounded = refl

-- For more than 98304 pages the table was never filled, and names class 0, of one page.
pub get_psizeclass_above : (n : ℕ) → 98304 < n → get_psizeclass n ≡ 0
get_psizeclass_above n h = rw (get_psizeclass-first_fit n) (
    first_fit-none 0 (pages_of psize_classes) n 0
      (λ j. omega (arith, get_or-le 98304 (pages_of psize_classes) j psize_classes-bounded)))
