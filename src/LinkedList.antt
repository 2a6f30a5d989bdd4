-- ===== src/LinkedList.antt =====
-- The doubly linked lists of src/dl.c and include/pmalloc/internal/dl.h, on an explicit memory.
--
-- A `dlnode_t` is named by its address. A `dl_t` only holds the address of its head, so a list goes
-- by that. `_malloc` is not checked for NULL: the address that it gives is an argument.
pub mod Ring
pub mod Relink
pub mod Unlink
pub mod Change
pub mod Search
mod Tests
use pmalloc.Prelude.{ℕ, zero, suc, Bool, true, false, Option, none, some, ◌==◌, if◌then◌else◌}
use pmalloc.Cache.{update}

-- The fields of `dlnode_t` at each address, and whether there is a node.
pub record Nodes : Type 0 where
  pub item : ℕ → ℕ
  pub pre : ℕ → ℕ
  pub nxt : ℕ → ℕ
  pub live : ℕ → Bool

abbrev pub set_nxt : (node value : ℕ) → Nodes → Nodes
set_nxt node value m = record m { nxt = update m.nxt node value }

abbrev pub set_pre : (node value : ℕ) → Nodes → Nodes
set_pre node value m = record m { pre = update m.pre node value }

-- `_malloc` of a node that holds `ptr`; `_free`.
abbrev pub malloc_node : (node ptr : ℕ) → Nodes → Nodes
malloc_node node ptr m = record m { item = update m.item node ptr; live = update m.live node true }

abbrev pub free_node : ℕ → Nodes → Nodes
free_node node m = record m { live = update m.live node false }

-- `dl_new`, with the address of its head.
unfoldable pub dl_new : (head : ℕ) → Nodes → Nodes
dl_new head m = set_nxt head head (set_pre head head (record m { live = update m.live head true }))

-- The four assignments that put a node behind the head, and before it.
unfoldable pub link_front : (head node : ℕ) → Nodes → Nodes
link_front head node m =
    let m1 = set_nxt node (m.nxt head) m in
    let m2 = set_pre node head m1 in let m3 = set_pre (m2.nxt head) node m2 in set_nxt head node m3

unfoldable pub link_tail : (head node : ℕ) → Nodes → Nodes
link_tail head node m =
    let m1 = set_nxt node head m in
    let m2 = set_pre node (m1.pre head) m1 in
    let m3 = set_nxt (m2.pre head) node m2 in set_pre head node m3

-- The two assignments that take a node out.
unfoldable pub unlink : ℕ → Nodes → Nodes
unlink node m =
    let m1 = set_nxt (m.pre node) (m.nxt node) m in set_pre (m1.nxt node) (m1.pre node) m1

unfoldable pub dl_insert : (head node ptr : ℕ) → Nodes → Nodes
unfolding link_front
dl_insert head node ptr m = link_front head node (malloc_node node ptr m)

unfoldable pub dl_insert_tail : (head node ptr : ℕ) → Nodes → Nodes
unfolding link_tail
dl_insert_tail head node ptr m = link_tail head node (malloc_node node ptr m)

unfoldable pub dl_delete : ℕ → Nodes → Nodes
unfolding unlink
dl_delete node m = free_node node (unlink node m)

unfoldable pub dl_move_to_tail : (head node : ℕ) → Nodes → Nodes
unfolding unlink link_tail
dl_move_to_tail head node m = link_tail head node (unlink node m)

-- The loop of `dl_search` from a node on; `none` when the fuel runs out.
unfoldable pub search_loop : (fuel head node ptr : ℕ) → Nodes → Option ℕ
search_loop zero head node ptr m = none
search_loop (suc fuel) head node ptr m =
    let rest = search_loop fuel head (m.nxt node) ptr m in
    if node == head then some node else if m.item node == ptr then some node else rest

unfoldable pub dl_search : (fuel head ptr : ℕ) → Nodes → Option ℕ
unfolding search_loop
dl_search fuel head ptr m = search_loop fuel head (m.nxt head) ptr m
