-- ===== src/LinkedList/Change.antt =====
-- The operations of dl.c as operations on sequences of nodes.
use pmalloc.Prelude.{ℕ, ◌≡◌, ◌≢◌, refl, arith, true, false, ◌==◌, List, [], ◌∷◌, ◌++◌, ◌∙◌}
use pmalloc.Log.{listed}
use pmalloc.Log.Collect.{listed-append}
use pmalloc.LinkedList.{
  Nodes, malloc_node, link_front, link_tail, unlink, dl_new, dl_insert, dl_insert_tail, dl_delete,
  dl_move_to_tail,
}
use pmalloc.LinkedList.Ring.{
  Link, Seg, last, IsRing, SameOutside, listed-last, listed-ne, Seg-frame, IsRing-frame,
}
use pmalloc.LinkedList.Relink.{
  link_front-IsRing, link_tail-IsRing, link_front-nxt, link_front-pre, link_tail-nxt, link_tail-pre,
}
use pmalloc.LinkedList.Unlink.{unlink-IsRing, unlink-apart, unlink-nxt, unlink-pre}

-- From `m` to `m'` the list at `head` becomes the nodes `ys`, and nothing changes outside it and
-- the nodes `zs`.
pub record Becomes (m m' : Nodes) (head : ℕ) (zs ys : List ℕ) : Type 0 where
  pub ring : IsRing m' head ys
  pub outside : SameOutside (head ∷ zs) m m'

-- Every node but `x` holds what it held.
abbrev pub KeepsItems : ℕ → Nodes → Nodes → Type 0
KeepsItems x m m' = (y : ℕ) → y ≢ x → m'.item y ≡ m.item y

malloc_node-IsRing :
    (m : Nodes) (head node ptr : ℕ) (xs : List ℕ)
    → IsRing m head xs
    → listed node (head ∷ xs) ≡ false
    → IsRing (malloc_node node ptr m) head xs
unfolding listed
malloc_node-IsRing m head node ptr xs r out =
    let other : (y : ℕ) → listed y (node ∷ []) ≡ false → (node == y) ≡ false =
      λ y l. ground arith in
    IsRing-frame m (malloc_node node ptr m) head xs (node ∷ [])
      (record {
        nxt = λ y l. refl;
        pre = λ y l. refl;
        item = λ y l. rw (other y l) refl;
        live = λ y l. rw (other y l) refl;
      })
      (λ y l. ground (arith, listed-ne node y (head ∷ xs) out l)) r

first-listed :
    (m : Nodes) (head : ℕ) (xs : List ℕ) → IsRing m head xs → listed (m.nxt head) (head ∷ xs) ≡ true
unfolding listed
first-listed m head [] r = ground (arith, r.close)
first-listed m head (x ∷ xs) r = ground (arith, r.seg.0)

link_front-Becomes :
    (m : Nodes) (head x : ℕ) (xs : List ℕ)
    → IsRing m head xs
    → listed x (head ∷ xs) ≡ false
    → m.live x ≡ true
    → Becomes m (link_front head x m) head (x ∷ xs) (x ∷ xs)
unfolding listed link_front
link_front-Becomes m head x xs r out is_live = record {
  ring = link_front-IsRing m head x xs r out is_live;
  outside = record {
    nxt = λ y l. ground (arith, link_front-nxt m head x y);
    pre = λ y l. ground (arith, link_front-pre m head x y, first-listed m head xs r);
    item = λ y l. refl;
    live = λ y l. refl;
  };
}

link_tail-Becomes :
    (m : Nodes) (head x : ℕ) (xs : List ℕ)
    → IsRing m head xs
    → listed x (head ∷ xs) ≡ false
    → m.live x ≡ true
    → Becomes m (link_tail head x m) head (x ∷ xs) (xs ++ x ∷ [])
unfolding listed link_tail
link_tail-Becomes m head x xs r out is_live = record {
  ring = link_tail-IsRing m head x xs r out is_live;
  outside = record {
    nxt = λ y l. ground (arith, link_tail-nxt m head x y, r.close.1, listed-last head xs);
    pre = λ y l. ground (arith, link_tail-pre m head x y);
    item = λ y l. refl;
    live = λ y l. refl;
  };
}

unlink-Becomes :
    (m : Nodes) (head x : ℕ) (xs ys : List ℕ)
    → IsRing m head (xs ++ x ∷ ys)
    → Becomes m (unlink x m) head (xs ++ x ∷ ys) (xs ++ ys)
unfolding listed unlink
unlink-Becomes m head x xs ys r =
    let parts = unlink-apart m head x xs ys r in
    let link = parts.8 in
    record {
      ring = unlink-IsRing m head x xs ys r;
      outside = record {
        nxt = λ y l.
            ground
              (arith, unlink-nxt m x y, link, listed-last head xs, listed-append y xs (x ∷ ys));
        pre = λ y l.
            ground (
              arith,
              unlink-pre m x y,
              next-listed ys parts.9 parts.10,
              listed-append y xs (x ∷ ys),
            );
        item = λ y l. refl;
        live = λ y l. refl;
      };
    }
  where
    next-listed :
        (ys : List ℕ) → Seg m x ys → Link m (last x ys) head → listed (m.nxt x) (head ∷ ys) ≡ true
    next-listed [] seg close = ground (arith, close)
    next-listed (y ∷ ys) seg close = ground (arith, seg.0)

Becomes-malloc :
    (m m' : Nodes) (head node ptr : ℕ) (xs ys : List ℕ)
    → Becomes (malloc_node node ptr m) m' head (node ∷ xs) ys
    → Becomes m m' head (node ∷ xs) ys
unfolding listed
Becomes-malloc m m' head node ptr xs ys b = record {
  ring = b.ring;
  outside = record {
    nxt = b.outside.nxt;
    pre = b.outside.pre;
    item = λ y l. ground (arith, b.outside.item y l);
    live = λ y l. ground (arith, b.outside.live y l);
  };
}

-- dl_insert puts a new node that holds the pointer in front of the others, which hold what they
-- held.
pub dl_insert-Becomes :
    (m : Nodes) (head node ptr : ℕ) (xs : List ℕ)
    → IsRing m head xs
    → listed node (head ∷ xs) ≡ false
    → let m' = dl_insert head node ptr m in
      Becomes m m' head (node ∷ xs) (node ∷ xs) × (m'.item node ≡ ptr) × KeepsItems node m m'
unfolding dl_insert link_front
dl_insert-Becomes m head node ptr xs r out = (
  Becomes-malloc m (dl_insert head node ptr m) head node ptr xs (node ∷ xs) (
      link_front-Becomes (malloc_node node ptr m) head node xs
        (malloc_node-IsRing m head node ptr xs r out) out (ground arith)),
  ground arith,
  λ y ne. ground arith,
)

-- dl_insert_tail puts it behind the others.
pub dl_insert_tail-Becomes :
    (m : Nodes) (head node ptr : ℕ) (xs : List ℕ)
    → IsRing m head xs
    → listed node (head ∷ xs) ≡ false
    → let m' = dl_insert_tail head node ptr m in
      Becomes m m' head (node ∷ xs) (xs ++ node ∷ []) × (m'.item node ≡ ptr) × KeepsItems node m m'
unfolding dl_insert_tail link_tail
dl_insert_tail-Becomes m head node ptr xs r out = (
  Becomes-malloc m (dl_insert_tail head node ptr m) head node ptr xs (xs ++ node ∷ []) (
      link_tail-Becomes (malloc_node node ptr m) head node xs
        (malloc_node-IsRing m head node ptr xs r out) out (ground arith)),
  ground arith,
  λ y ne. ground arith,
)

-- On a well-formed list dl_delete takes a node of it out and frees it; the others keep their
-- order, every node holds what it held, and no other node changes.
pub dl_delete-Becomes :
    (m : Nodes) (head node : ℕ) (xs ys : List ℕ)
    → IsRing m head (xs ++ node ∷ ys)
    → let m' = dl_delete node m in
      Becomes m m' head (xs ++ node ∷ ys) (xs ++ ys) × (m'.live node ≡ false) × (m'.item ≡ m.item)
unfolding dl_delete unlink listed
dl_delete-Becomes m head node xs ys r =
    let b = unlink-Becomes m head node xs ys r in
    let parts = unlink-apart m head node xs ys r in
    (
      record {
        ring = record {
          seg =
              Seg-frame (unlink node m) (dl_delete node m) head (xs ++ ys) (λ y l. refl)
                (λ y l. refl) b.ring.seg;
          close = b.ring.close;
          fresh = b.ring.fresh;
          distinct = b.ring.distinct;
          live = λ y l. ground (
            arith,
            b.ring.live y l,
            listed-ne node y (head ∷ (xs ++ ys))
                (ground (arith, listed-append node xs ys, parts.0, parts.1)) l,
          );
        };
        outside = record {
          nxt = b.outside.nxt;
          pre = b.outside.pre;
          item = b.outside.item;
          live = λ y l. ground (arith, listed-append y xs (node ∷ ys));
        };
      },
      ground arith,
      refl,
    )

-- On a well-formed list dl_move_to_tail moves a node of it behind the others, which keep their
-- order; every node holds what it held, and no other node changes.
pub dl_move_to_tail-Becomes :
    (m : Nodes) (head node : ℕ) (xs ys : List ℕ)
    → IsRing m head (xs ++ node ∷ ys)
    → let m' = dl_move_to_tail head node m in
      Becomes m m' head (xs ++ node ∷ ys) ((xs ++ ys) ++ node ∷ []) × (m'.item ≡ m.item)
unfolding dl_move_to_tail unlink link_tail listed
dl_move_to_tail-Becomes m head node xs ys r =
    let m1 = unlink node m in
    let parts = unlink-apart m head node xs ys r in
    let b = unlink-Becomes m head node xs ys r in
    let b' =
      link_tail-Becomes m1 head node (xs ++ ys) b.ring
        (ground (arith, listed-append node xs ys, parts.0, parts.1))
        (r.live node (ground (arith, listed-append node xs (node ∷ ys)))) in
    let outer : (y : ℕ)
        → listed y (head ∷ (xs ++ node ∷ ys)) ≡ false
        → listed y (head ∷ node ∷ (xs ++ ys)) ≡ false =
      λ y l. ground (arith, listed-append y xs (node ∷ ys), listed-append y xs ys) in
    (
      record {
        ring = b'.ring;
        outside = record {
          nxt = λ y l. b'.outside.nxt y (outer y l) ∙ b.outside.nxt y l;
          pre = λ y l. b'.outside.pre y (outer y l) ∙ b.outside.pre y l;
          item = λ y l. refl;
          live = λ y l. refl;
        };
      },
      refl,
    )

-- dl_new makes an empty list.
pub dl_new-IsRing : (m : Nodes) (head : ℕ) → IsRing (dl_new head m) head []
unfolding dl_new listed
dl_new-IsRing m head = record {
  seg = tt;
  close = (ground arith, ground arith);
  fresh = refl;
  distinct = tt;
  live = λ y l. ground arith;
}

-- A change of one list keeps every list whose nodes are apart from it.
pub Becomes-other :
    (m m' : Nodes) (head other : ℕ) (zs ys xs : List ℕ)
    → Becomes m m' head zs ys
    → ((y : ℕ) → listed y (other ∷ xs) ≡ true → listed y (head ∷ zs) ≡ false)
    → IsRing m other xs
    → IsRing m' other xs
Becomes-other m m' head other zs ys xs b apart r =
    IsRing-frame m m' other xs (head ∷ zs) b.outside apart r
