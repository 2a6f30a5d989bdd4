-- ===== src/LinkedList/Search.antt =====
-- The search of dl.c: the first node that holds a pointer.
use pmalloc.Prelude.{
  ℕ, zero, suc, ◌<◌, ◌≡◌, arith, false, ◌==◌, List, [], ◌∷◌, if◌then◌else◌, some, length,
}
use pmalloc.Log.{listed}
use pmalloc.LinkedList.{Nodes, search_loop, dl_search}
use pmalloc.LinkedList.Ring.{Seg, last, IsRing}

-- The first node that holds `ptr`, else `head`.
abbrev pub first_holding : (ℕ → ℕ) → (head ptr : ℕ) → List ℕ → ℕ
first_holding item head ptr [] = head
first_holding item head ptr (x ∷ xs) = if item x == ptr then x else first_holding item head ptr xs

search_loop-finds :
    (m : Nodes) (fuel head a ptr : ℕ) (xs : List ℕ)
    → Seg m a xs
    → m.nxt (last a xs) ≡ head
    → listed head xs ≡ false
    → length xs < fuel
    → search_loop fuel head (m.nxt a) ptr m ≡ some (first_holding m.item head ptr xs)
unfolding search_loop listed
search_loop-finds m zero head a ptr xs s close out h = absurd (omega arith)
search_loop-finds m (suc fuel) head a ptr [] s close out h = ground (arith, close)
search_loop-finds m (suc fuel) head a ptr (x ∷ xs) ((f, b), s) close out h =
    let rest = search_loop-finds m fuel head x ptr xs s close (ground arith) (omega arith) in
    ground (arith, f, rest)

-- On a well-formed list dl_search ends, within a round more than the list has nodes, and returns
-- the first node of the list that holds the pointer, or the head when none does.
pub dl_search_lem :
    (m : Nodes) (head ptr : ℕ) (xs : List ℕ) (fuel : ℕ)
    → IsRing m head xs
    → length xs < fuel
    → dl_search fuel head ptr m ≡ some (first_holding m.item head ptr xs)
unfolding dl_search
dl_search_lem m head ptr xs fuel r h =
    search_loop-finds m fuel head head ptr xs r.seg r.close.0 r.fresh h
