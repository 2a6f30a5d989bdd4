-- ===== src/LinkedList/Ring.antt =====
-- What a linked list stands for: the nodes that its pointers lead through, both ways.
use pmalloc.Prelude.{
  ℕ, ◌≡◌, refl, arith, true, false, ◌==◌, List, [], ◌∷◌, ◌++◌, Bool-cases, inl, inr, ◌∙◌, subst,
}
use pmalloc.Log.{listed, Distinct}
use pmalloc.Log.Collect.{listed-append}
use pmalloc.LinkedList.{Nodes}

-- `q` is the node behind `p`, by both pointers.
abbrev pub Link : Nodes → ℕ → ℕ → Type 0
Link m p q = (m.nxt p ≡ q) × (m.pre q ≡ p)

-- The nodes `xs` stand in this order behind `a`.
abbrev pub Seg : Nodes → ℕ → List ℕ → Type 0
Seg m a [] = Unit {0}
Seg m a (x ∷ xs) = Link m a x × Seg m x xs

-- The last of `a` and `xs`, and all but the last.
abbrev pub last : ℕ → List ℕ → ℕ
last a [] = a
last a (x ∷ xs) = last x xs

abbrev pub front : ℕ → List ℕ → List ℕ
front a [] = []
front a (x ∷ xs) = a ∷ front x xs

abbrev pub Live : Nodes → List ℕ → Type 0
Live m xs = (y : ℕ) → listed y xs ≡ true → m.live y ≡ true

-- The list at `head` has the nodes `xs`.
pub record IsRing (m : Nodes) (head : ℕ) (xs : List ℕ) : Type 0 where
  pub seg : Seg m head xs
  pub close : Link m (last head xs) head
  pub fresh : listed head xs ≡ false
  pub distinct : Distinct xs
  pub live : Live m (head ∷ xs)

-- Two memories agree outside some nodes.
pub record SameOutside (xs : List ℕ) (m m' : Nodes) : Type 0 where
  pub nxt : (y : ℕ) → listed y xs ≡ false → m'.nxt y ≡ m.nxt y
  pub pre : (y : ℕ) → listed y xs ≡ false → m'.pre y ≡ m.pre y
  pub item : (y : ℕ) → listed y xs ≡ false → m'.item y ≡ m.item y
  pub live : (y : ℕ) → listed y xs ≡ false → m'.live y ≡ m.live y

pub Seg-frame :
    (m m' : Nodes) (a : ℕ) (xs : List ℕ)
    → ((y : ℕ) → listed y (front a xs) ≡ true → m'.nxt y ≡ m.nxt y)
    → ((y : ℕ) → listed y xs ≡ true → m'.pre y ≡ m.pre y)
    → Seg m a xs
    → Seg m' a xs
unfolding listed
Seg-frame m m' a [] n p s = s
Seg-frame m m' a (x ∷ xs) n p ((f, b), s) = (
  (ground (arith, n a), ground (arith, p x)),
  Seg-frame m m' x xs (λ y l. ground (arith, n y)) (λ y l. ground (arith, p y)) s,
)

pub Seg-append :
    (m : Nodes) (a x : ℕ) (xs ys : List ℕ)
    → Seg m a xs
    → Link m (last a xs) x
    → Seg m x ys
    → Seg m a (xs ++ x ∷ ys)
Seg-append m a x [] ys s l t = (l, t)
Seg-append m a x (z ∷ zs) ys (k, s) l t = (k, Seg-append m z x zs ys s l t)

pub Seg-split :
    (m : Nodes) (a x : ℕ) (xs ys : List ℕ)
    → Seg m a (xs ++ x ∷ ys)
    → Seg m a xs × Link m (last a xs) x × Seg m x ys
Seg-split m a x [] ys (l, t) = (tt, l, t)
Seg-split m a x (z ∷ zs) ys (k, s) = let (s', l, t) = Seg-split m z x zs ys s in ((k, s'), l, t)

pub last-append : (a x : ℕ) (xs ys : List ℕ) → last a (xs ++ x ∷ ys) ≡ last x ys
last-append a x [] ys = refl
last-append a x (z ∷ zs) ys = last-append z x zs ys

pub listed-ne :
    (x y : ℕ) (xs : List ℕ) → listed x xs ≡ false → listed y xs ≡ true → (x == y) ≡ false
listed-ne x y xs out here = elim (Bool-cases (x == y)) [
  | inl e ↦
      let same : x ≡ y = ground arith in
      let there : listed y xs ≡ false = subst (λ z. listed z xs ≡ false) same out in cc
  | inr e ↦ e
]

pub listed-last : (a : ℕ) (xs : List ℕ) → listed (last a xs) (a ∷ xs) ≡ true
unfolding listed
listed-last a [] = ground arith
listed-last a (x ∷ xs) = ground (arith, listed-last x xs)

pub listed-front : (a y : ℕ) (xs : List ℕ) → listed y (front a xs) ≡ true → listed y (a ∷ xs) ≡ true
unfolding listed
listed-front a y [] h = cc
listed-front a y (x ∷ xs) h = ground (arith, listed-front x y xs)

-- The last node is none of the nodes before it.
pub front-last :
    (a : ℕ) (xs : List ℕ)
    → listed a xs ≡ false
    → Distinct xs
    → listed (last a xs) (front a xs) ≡ false
unfolding listed
front-last a [] f d = refl
front-last a (x ∷ xs) f (g, d) = ground (arith, front-last x xs g d, listed-last x xs)

pub Distinct-split :
    (x : ℕ) (xs ys : List ℕ)
    → Distinct (xs ++ x ∷ ys)
    → Distinct (xs ++ ys)
      × (listed x (xs ++ ys) ≡ false)
      × Distinct xs
      × Distinct ys
      × ((y : ℕ) → listed y xs ≡ true → listed y ys ≡ false)
unfolding listed
Distinct-split x [] ys (f, d) = (d, f, tt, d, λ y l. cc)
Distinct-split x (z ∷ zs) ys (f, d) =
    let (rest, out, d_xs, d_ys, apart) = Distinct-split x zs ys d in
    (
      (ground (arith, f, listed-append z zs (x ∷ ys), listed-append z zs ys), rest),
      ground (arith, f, listed-append z zs (x ∷ ys), out),
      (ground (arith, f, listed-append z zs (x ∷ ys)), d_xs),
      d_ys,
      λ y l. ground (arith, f, listed-append z zs (x ∷ ys), apart y),
    )

pub Distinct-snoc :
    (x : ℕ) (xs : List ℕ) → Distinct xs → listed x xs ≡ false → Distinct (xs ++ x ∷ [])
unfolding listed
Distinct-snoc x [] d f = (refl, tt)
Distinct-snoc x (z ∷ zs) (g, d) f =
    (ground (arith, listed-append z zs (x ∷ [])), Distinct-snoc x zs d (ground arith))

-- A list survives every change outside its nodes.
pub IsRing-frame :
    (m m' : Nodes) (head : ℕ) (xs changed : List ℕ)
    → SameOutside changed m m'
    → ((y : ℕ) → listed y (head ∷ xs) ≡ true → listed y changed ≡ false)
    → IsRing m head xs
    → IsRing m' head xs
unfolding listed
IsRing-frame m m' head xs changed same apart r =
    let end_in = listed-last head xs in
    record {
      seg =
          Seg-frame m m' head xs (λ y l. same.nxt y (apart y (listed-front head y xs l)))
            (λ y l. same.pre y (apart y (ground arith))) r.seg;
      close = (
        same.nxt (last head xs) (apart (last head xs) end_in) ∙ r.close.0,
        same.pre head (apart head (ground arith)) ∙ r.close.1,
      );
      fresh = r.fresh;
      distinct = r.distinct;
      live = λ y l. same.live y (apart y l) ∙ r.live y l;
    }
