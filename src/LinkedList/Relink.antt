-- ===== src/LinkedList/Relink.antt =====
-- What putting a node into a list comes to.
use pmalloc.Prelude.{
  ℕ, ◌≡◌, refl, arith, true, false, ◌==◌, List, [], ◌∷◌, ◌++◌, Bool-cases, inl, inr, subst,
  if◌then◌else◌,
}
use pmalloc.Log.{listed}
use pmalloc.Log.Collect.{listed-append}
use pmalloc.LinkedList.{Nodes, link_front, link_tail}
use pmalloc.LinkedList.Ring.{
  Seg, last, IsRing, Seg-frame, Seg-append, last-append, listed-last, listed-front, front-last,
  Distinct-snoc,
}

pub link_tail-nxt :
    (m : Nodes) (head x z : ℕ)
    → (link_tail head x m).nxt z ≡ (if m.pre head == z then x else if x == z then head else m.nxt z)
unfolding link_tail
link_tail-nxt m head x z = ground arith

pub link_tail-pre :
    (m : Nodes) (head x z : ℕ)
    → (link_tail head x m).pre z ≡ (if head == z then x else if x == z then m.pre head else m.pre z)
unfolding link_tail
link_tail-pre m head x z = ground arith

pub link_front-nxt :
    (m : Nodes) (head x z : ℕ)
    → (link_front head x m).nxt z
      ≡ (if head == z then x else if x == z then m.nxt head else m.nxt z)
unfolding link_front
link_front-nxt m head x z = ground arith

pub link_front-pre :
    (m : Nodes) (head x z : ℕ)
    → (link_front head x m).pre z
      ≡ (if m.nxt head == z then x else if x == z then head else m.pre z)
unfolding link_front
link_front-pre m head x z = ground arith

module _ (m : Nodes) (head x : ℕ) where
  -- A node that is in no list goes to the end.
  pub link_tail-IsRing :
      (xs : List ℕ)
      → IsRing m head xs
      → listed x (head ∷ xs) ≡ false
      → m.live x ≡ true
      → IsRing (link_tail head x m) head (xs ++ x ∷ [])
  unfolding listed link_tail
  link_tail-IsRing xs r out is_live =
      let m' = link_tail head x m in
      let p = last head xs in
      let at_end : m.pre head ≡ p = r.close.1 in
      let old = listed-last head xs in
      let before = front-last head xs r.fresh r.distinct in
      let seg' : Seg m' head xs =
        Seg-frame m m' head xs
          (λ y l.
            ground (arith, link_tail-nxt m head x y, at_end, before, listed-front head y xs l))
          (λ y l. ground (arith, link_tail-pre m head x y, r.fresh)) r.seg in
      record {
        seg =
            Seg-append m' head x xs [] seg'
              (
                ground (arith, link_tail-nxt m head x p, at_end),
                ground (arith, link_tail-pre m head x x),
              )
              tt;
        close = rw (last-append head x xs []) (
          ground (arith, link_tail-nxt m head x x, at_end),
          ground (arith, link_tail-pre m head x head),
        );
        fresh = ground (arith, listed-append head xs (x ∷ []), r.fresh);
        distinct = Distinct-snoc x xs r.distinct (ground arith);
        live = λ y l. elim (Bool-cases (x == y)) [
          | inl e ↦ let same : x ≡ y = ground arith in subst (λ z. m.live z ≡ true) same is_live
          | inr e ↦ r.live y (ground (arith, listed-append y xs (x ∷ [])))
        ];
      }

  -- A node that is in no list goes to the front.
  pub link_front-IsRing :
      (xs : List ℕ)
      → IsRing m head xs
      → listed x (head ∷ xs) ≡ false
      → m.live x ≡ true
      → IsRing (link_front head x m) head (x ∷ xs)
  unfolding listed link_front
  link_front-IsRing [] r out is_live =
      let first : m.nxt head ≡ head = r.close.0 in
      let m' = link_front head x m in
      record {
        seg = (
          (
            ground (arith, link_front-nxt m head x head),
            ground (arith, link_front-pre m head x x, first),
          ),
          tt,
        );
        close = (
          ground (arith, link_front-nxt m head x x, first),
          ground (arith, link_front-pre m head x head, first),
        );
        fresh = ground arith;
        distinct = (refl, tt);
        live = λ y l. elim (Bool-cases (x == y)) [
          | inl e ↦ let same : x ≡ y = ground arith in subst (λ z. m.live z ≡ true) same is_live
          | inr e ↦ r.live y (ground arith)
        ];
      }
  link_front-IsRing (y ∷ ys) r out is_live =
      let m' = link_front head x m in
      let ((first, back), seg) = r.seg in
      let (apart, distinct) = r.distinct in
      let seg' : Seg m' y ys =
        Seg-frame m m' y ys
          (λ z l. ground (arith, link_front-nxt m head x z, r.fresh, listed-front y z ys l))
          (λ z l. ground (arith, link_front-pre m head x z, first, apart)) seg in
      let end_in = listed-last y ys in
      record {
        seg = (
          (
            ground (arith, link_front-nxt m head x head),
            ground (arith, link_front-pre m head x x, first),
          ),
          (
            (
              ground (arith, link_front-nxt m head x x, first),
              ground (arith, link_front-pre m head x y, first),
            ),
            seg',
          ),
        );
        close = (
          ground (arith, link_front-nxt m head x (last y ys), r.close, r.fresh, end_in),
          ground (arith, link_front-pre m head x head, r.close, first, r.fresh),
        );
        fresh = ground (arith, r.fresh);
        distinct = (ground arith, r.distinct);
        live = λ z l. elim (Bool-cases (x == z)) [
          | inl e ↦ let same : x ≡ z = ground arith in subst (λ z. m.live z ≡ true) same is_live
          | inr e ↦ r.live z (ground arith)
        ];
      }
