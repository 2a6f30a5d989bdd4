-- ===== src/LinkedList/Unlink.antt =====
-- What taking a node out of a list comes to.
use pmalloc.Prelude.{
  ℕ, ◌≡◌, refl, arith, true, false, ◌==◌, List, [], ◌∷◌, ◌++◌, subst, if◌then◌else◌,
}
use mathlib.Core.List.{append-nil}
use pmalloc.Log.{listed, Distinct}
use pmalloc.Log.Collect.{listed-append}
use pmalloc.LinkedList.{Nodes, unlink}
use pmalloc.LinkedList.Ring.{
  Link, Seg, last, IsRing, Seg-frame, Seg-append, Seg-split, last-append, listed-last, listed-front,
  front-last, Distinct-split,
}

pub unlink-nxt :
    (m : Nodes) (x z : ℕ) → (unlink x m).nxt z ≡ (if m.pre x == z then m.nxt x else m.nxt z)
unfolding unlink
unlink-nxt m x z = refl

pub unlink-pre :
    (m : Nodes) (x z : ℕ) → (unlink x m).pre z ≡ (if m.nxt x == z then m.pre x else m.pre z)
unfolding unlink
unlink-pre m x z = ground arith

module _ (m : Nodes) (head x : ℕ) where
  pub unlink-apart :
      (xs ys : List ℕ)
      → IsRing m head (xs ++ x ∷ ys)
      → (listed x (head ∷ xs) ≡ false)
        × (listed x ys ≡ false)
        × (listed head xs ≡ false)
        × (listed head ys ≡ false)
        × Distinct xs
        × Distinct ys
        × ((y : ℕ) → listed y (head ∷ xs) ≡ true → listed y ys ≡ false)
        × Seg m head xs
        × Link m (last head xs) x
        × Seg m x ys
        × Link m (last x ys) head
  unfolding listed
  unlink-apart xs ys r =
      let (rest, out, d_xs, d_ys, apart) = Distinct-split x xs ys r.distinct in
      let (seg, link, seg') = Seg-split m head x xs ys r.seg in
      let parts = listed-append head xs (x ∷ ys) in
      let both = listed-append x xs ys in
      (
        ground (arith, r.fresh),
        ground arith,
        ground (arith, r.fresh),
        ground (arith, r.fresh),
        d_xs,
        d_ys,
        λ y l. ground (arith, apart y, r.fresh),
        seg,
        link,
        seg',
        subst (λ z. Link m z head) (last-append head x xs ys) r.close,
      )

  -- A node of the list is taken out.
  pub unlink-IsRing :
      (xs ys : List ℕ) → IsRing m head (xs ++ x ∷ ys) → IsRing (unlink x m) head (xs ++ ys)
  unfolding listed unlink
  unlink-IsRing xs [] r =
      let (out, out', fresh, fresh', d_xs, d_ys, apart, seg, link, seg', close) =
        unlink-apart xs [] r in
      let m' = unlink x m in
      let p = last head xs in
      let before = front-last head xs fresh d_xs in
      record {
        seg = rw append-nil (
            Seg-frame m m' head xs (λ y l. ground (arith, unlink-nxt m x y, link, before))
              (λ y l. ground (arith, unlink-pre m x y, close, fresh)) seg);
        close = rw append-nil (
          ground (arith, unlink-nxt m x p, link, close),
          ground (arith, unlink-pre m x head, link, close),
        );
        fresh = rw append-nil fresh;
        distinct = rw append-nil d_xs;
        live = λ y l. r.live y (ground (arith, listed-append y xs (x ∷ []), listed-append y xs []));
      }
  unlink-IsRing xs (y ∷ ys) r =
      let (out, out', fresh, fresh', d_xs, (far, d_ys), apart, seg, link, (next, seg'), close) =
        unlink-apart xs (y ∷ ys) r in
      let m' = unlink x m in
      let p = last head xs in
      let before = front-last head xs fresh d_xs in
      let p_in = listed-last head xs in
      let q_in = listed-last y ys in
      let p_out = apart p p_in in
      record {
        seg =
            Seg-append m' head y xs ys
              (Seg-frame m m' head xs (λ z l. ground (arith, unlink-nxt m x z, link, before))
                (λ z l. ground (arith, unlink-pre m x z, next, apart z)) seg)
              (
                ground (arith, unlink-nxt m x p, link, next),
                ground (arith, unlink-pre m x y, link, next),
              )
              (Seg-frame m m' y ys
                (λ z l. ground (arith, unlink-nxt m x z, link, p_out, listed-front y z ys l))
                (λ z l. ground (arith, unlink-pre m x z, next, far)) seg');
        close = rw (last-append head y xs ys) (
          ground (arith, unlink-nxt m x (last y ys), link, p_out, q_in, close),
          ground (arith, unlink-pre m x head, next, close, fresh'),
        );
        fresh = ground (arith, listed-append head xs (y ∷ ys), fresh, fresh');
        distinct = (Distinct-split x xs (y ∷ ys) r.distinct).0;
        live = λ z l.
            r.live z (ground (arith, listed-append z xs (x ∷ y ∷ ys), listed-append z xs (y ∷ ys)));
      }
