-- ===== src/SizeClass/Lookup.antt =====
-- The lookup tables that `sizeclass_boot` fills: an entry is the first class that is large enough.
use mathlib.Core.Logic.{inl, inr}
use pmalloc.Prelude.{
  ℕ, zero, suc, ◌+◌, ◌-◌, ◌≤◌, ◌<◌, ◌≡◌, refl, ◌&&◌, ltb, leb, ◌==◌, if◌then◌else◌, List, [], ◌∷◌,
  get_or, length, max, arith, Bool-cases, leb→le, le→leb,
}
use pmalloc.SizeClass.{Table, fill_while, boot_lookup}

-- The specification: the first class, counted from `i`, whose size is at least `s`, or `other`.
unfoldable pub first_fit : ℕ → List ℕ → ℕ → ℕ → ℕ
first_fit i [] s other = other
first_fit i (size ∷ sizes) s other = if leb s size then i else first_fit (i + 1) sizes s other

fill_while_lem :
    (fuel limit i next : ℕ) (table : Table) (s : ℕ)
    → limit < next + fuel
    → ((fill_while fuel limit i next table).0 ≡ max next (limit + 1))
      × ((fill_while fuel limit i next table).1 s
          ≡ (if leb next s && leb s limit then i else table s))
unfolding fill_while
fill_while_lem zero limit i next table s h = ground arith
fill_while_lem (suc fuel) limit i next table s h =
    ground (arith, fill_while_lem fuel limit i (next + 1) (λ t. if t == next then i else table t) s)

pub boot_lookup-first_fit :
    (i : ℕ) (limits : List ℕ) (next : ℕ) (table : Table) (s : ℕ)
    → boot_lookup i limits next table s
      ≡ (if ltb s next then table s else first_fit i limits s (table s))
unfolding boot_lookup first_fit
boot_lookup-first_fit i [] next table s = ground arith
boot_lookup-first_fit i (limit ∷ limits) next table s =
    let (index, entry) = fill_while_lem (limit + 1) limit i next table s (omega arith) in
    rw
      (
        boot_lookup-first_fit (i + 1) limits (fill_while (limit + 1) limit i next table).0
            (fill_while (limit + 1) limit i next table).1 s,
        index,
        entry,
      )
      (ground arith)

-- What an entry of the table promises: class `k` (counted from `i`) is large enough for `s`, and
-- every class before it is too small.
pub record IsFirstFit (i : ℕ) (sizes : List ℕ) (s k : ℕ) : Type 0 where
  pub from : i ≤ k
  pub within : k < i + length sizes
  pub enough : s ≤ get_or sizes (k - i) 0
  pub earlier : (j : ℕ) → j < k - i → get_or sizes j 0 < s

IsFirstFit-later :
    (i size : ℕ) (sizes : List ℕ) (s k : ℕ)
    → size < s
    → IsFirstFit (i + 1) sizes s k
    → IsFirstFit i (size ∷ sizes) s k
IsFirstFit-later i size sizes s k small f =
    let shift : k - i ≡ suc (k - (i + 1)) = omega (arith, f.from) in
    record {
      from = omega (arith, f.from);
      within = omega (arith, f.within);
      enough = rw shift f.enough;
      earlier = earlier_size shift;
    }
  where
    earlier_size : k - i ≡ suc (k - (i + 1)) → (j : ℕ) → j < k - i → get_or (size ∷ sizes) j 0 < s
    earlier_size shift zero h = small
    earlier_size shift (suc j) h = f.earlier j (omega arith)

IsFirstFit-first :
    (i size : ℕ) (sizes : List ℕ) (s : ℕ) → s ≤ size → IsFirstFit i (size ∷ sizes) s i
IsFirstFit-first i size sizes s h =
    let z : i - i ≡ 0 = omega arith in
    record {
      from = omega arith;
      within = omega arith;
      enough = rw z h;
      earlier = λ m p. absurd (omega arith);
    }

-- The search succeeds on a table that holds a size of at least `s`.
pub first_fit-IsFirstFit :
    (i : ℕ) (sizes : List ℕ) (s other j : ℕ)
    → j < length sizes
    → s ≤ get_or sizes j 0
    → IsFirstFit i sizes s (first_fit i sizes s other)
unfolding first_fit
first_fit-IsFirstFit i [] s other j h k = absurd (omega arith)
first_fit-IsFirstFit i (size ∷ sizes) s other zero h k =
    rw (le→leb s size k) (IsFirstFit-first i size sizes s k)
first_fit-IsFirstFit i (size ∷ sizes) s other (suc j) h k = elim (Bool-cases (leb s size)) [
  | inl fits ↦ rw fits (IsFirstFit-first i size sizes s (leb→le s size fits))
  | inr small ↦ rw small (
      IsFirstFit-later i size sizes s (first_fit (i + 1) sizes s other) (ground arith)
        (first_fit-IsFirstFit (i + 1) sizes s other j (omega arith) k))
]

-- A search that no size meets gives the default.
pub first_fit-none :
    (i : ℕ) (sizes : List ℕ) (s other : ℕ)
    → ((j : ℕ) → get_or sizes j 0 < s)
    → first_fit i sizes s other ≡ other
unfolding first_fit
first_fit-none i [] s other h = refl
first_fit-none i (size ∷ sizes) s other h =
    ground (arith, h 0, first_fit-none (i + 1) sizes s other (λ j. h (suc j)))
