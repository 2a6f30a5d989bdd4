-- ===== src/Slab/Lru.antt =====
-- The bookkeeping of an arena over its slabs: the lists of dl.h as lists of slab numbers,
-- `dl_delete_vslab` of src/slab.c and `update_arena_LRU_morphing_slab` of slab.h.
use pmalloc.Prelude.{
  ℕ, ◌*◌, ◌≡◌, Bool, not, ◌&&◌, List, [], ◌∷◌, ◌++◌, ◌==◌, leb, if◌then◌else◌, arith,
}
use pmalloc.Prelude.Int.{ℤ, pos, ◌+ℤ◌, ◌-ℤ◌}
use pmalloc.Cache.{update}
use pmalloc.Slab.{Arena}

-- `dl_delete` of the node that holds `v`.
unfoldable pub dl_delete : ℕ → List ℕ → List ℕ
dl_delete v [] = []
dl_delete v (x ∷ xs) = if x == v then xs else x ∷ dl_delete v xs

-- The node behind the one that holds `v`; 0 stands for the head.
unfoldable pub node_nxt : ℕ → List ℕ → ℕ
node_nxt v [] = 0
node_nxt v (x ∷ []) = 0
node_nxt v (x ∷ y ∷ xs) = if x == v then y else node_nxt v (y ∷ xs)

-- The last node, `head->pre`; 0 for the head itself.
unfoldable pub node_last : List ℕ → ℕ
node_last [] = 0
node_last (x ∷ []) = x
node_last (x ∷ y ∷ xs) = node_last (y ∷ xs)

-- `dl_move_to_tail`.
unfoldable pub dl_move_to_tail : ℕ → List ℕ → List ℕ
unfolding dl_delete
dl_move_to_tail v xs = dl_delete v xs ++ v ∷ []

unfoldable pub dl_delete_vslab : ℕ → ℕ → Arena → Arena
unfolding dl_delete node_nxt
dl_delete_vslab v sc_idx arena =
    let bin = arena.bins sc_idx in
    record arena {
      bins = update arena.bins sc_idx (record {
        vslabs = dl_delete v bin.vslabs;
        now_vslab = if bin.now_vslab == v then node_nxt v bin.vslabs else bin.now_vslab;
      });
    }

-- A slab is low when `n` of its `num` blocks are in use with `n <= 1.0 * num * 0.2 + 0.00001`:
-- for whole numbers that is `5 * n <= num`.
abbrev pub is_low : ℕ → ℕ → Bool
is_low n num = leb (5 * n) num

unfoldable pub update_arena_lru_morphing_slab : (num_a num_b num : ℕ) → Arena → Arena
update_arena_lru_morphing_slab num_a num_b num arena =
    if is_low num_a num && not (is_low num_b num)
    then record arena { morphing_len = arena.morphing_len -ℤ pos 1 }
    else if not (is_low num_a num) && is_low num_b num
    then record arena { morphing_len = arena.morphing_len +ℤ pos 1 }
    else arena

abbrev pub low_count : ℕ → ℕ → ℤ
low_count n num = if is_low n num then pos 1 else pos 0

-- The counter of low slabs follows a slab whose use goes from one count to another: it changes by
-- exactly the difference that the slab makes, and the rest of the arena stays.
pub morphing_len-follows :
    (a b num : ℕ) (arena : Arena)
    → let after = update_arena_lru_morphing_slab a b num arena in
      (after.morphing_len +ℤ low_count a num ≡ arena.morphing_len +ℤ low_count b num)
      × (after.lru_len ≡ arena.lru_len)
      × (after.lru ≡ arena.lru)
      × (after.bins ≡ arena.bins)
unfolding update_arena_lru_morphing_slab ◌+ℤ◌ ◌-ℤ◌
morphing_len-follows a b num arena = ground arith
