-- ===== src/Bitmap/Count.antt =====
-- How many of the first blocks of a bitmap are taken.
use mathlib.Core.Logic.{inl, inr}
use pmalloc.Prelude.{
  ℕ, zero, suc, ◌+◌, ◌≤◌, ◌<◌, ◌≡◌, refl, Bool, true, false, ◌==◌, if◌then◌else◌, List, arith,
  Bool-cases, ==_iff,
}
use pmalloc.Bitmap.{is_free}

unfoldable pub taken : List ℕ → ℕ → ℕ
taken bitmap zero = 0
taken bitmap (suc n) = (if is_free bitmap n then 0 else 1) + taken bitmap n

pub taken-le : (bitmap : List ℕ) (n : ℕ) → taken bitmap n ≤ n
unfolding taken
taken-le bitmap zero = omega arith
taken-le bitmap (suc n) = ground (arith, taken-le bitmap n)

pub exists_free :
    (bitmap : List ℕ) (n : ℕ) → taken bitmap n < n → (j : ℕ) × (j < n) × (is_free bitmap j ≡ true)
unfolding taken
exists_free bitmap zero h = absurd (omega arith)
exists_free bitmap (suc n) h = elim (Bool-cases (is_free bitmap n)) [
  | inl free ↦ (n, omega arith, free)
  | inr used ↦ let (j, below, free) = exists_free bitmap n (ground arith) in (j, omega arith, free)
]

module _ (bitmap after : List ℕ) (i : ℕ) (b : Bool)
    (update : (j : ℕ) → is_free after j ≡ (if i == j then b else is_free bitmap j)) where
  pub taken-same : (n : ℕ) → n ≤ i → taken after n ≡ taken bitmap n
  unfolding taken
  taken-same zero h = refl
  taken-same (suc n) h = ground (arith, update n, taken-same n)

module _ (bitmap after : List ℕ) (i : ℕ) where
  pub taken-take :
      (n : ℕ)
      → i < n
      → is_free bitmap i ≡ true
      → ((j : ℕ) → is_free after j ≡ (if i == j then false else is_free bitmap j))
      → taken after n ≡ suc (taken bitmap n)
  unfolding taken
  taken-take zero h free update = absurd (omega arith)
  taken-take (suc n) h free update = elim (Bool-cases (i == n)) [
    | inl here ↦
        let e : i ≡ n = (==_iff i n).0 here in
        let free_n : is_free bitmap n ≡ true = rw (← e) free in
        ground (arith, update n, taken-same bitmap after i false update n (omega arith))
    | inr other ↦ ground (arith, update n, taken-take n (ground arith) free update)
  ]

  pub taken-release :
      (n : ℕ)
      → i < n
      → is_free bitmap i ≡ false
      → ((j : ℕ) → is_free after j ≡ (if i == j then true else is_free bitmap j))
      → suc (taken after n) ≡ taken bitmap n
  unfolding taken
  taken-release zero h used update = absurd (omega arith)
  taken-release (suc n) h used update = elim (Bool-cases (i == n)) [
    | inl here ↦
        let e : i ≡ n = (==_iff i n).0 here in
        let used_n : is_free bitmap n ≡ false = rw (← e) used in
        ground (arith, update n, taken-same bitmap after i true update n (omega arith))
    | inr other ↦ ground (arith, update n, taken-release n (ground arith) used update)
  ]
