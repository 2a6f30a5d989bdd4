-- ===== src/LinkedList/Tests.antt =====
-- A list of three nodes, and the operations on it.
use pmalloc.Prelude.{◌≡◌, refl, arith, false, [], ◌∷◌, some}
use pmalloc.Log.{listed}
use pmalloc.LinkedList.{Nodes, dl_new, dl_insert, dl_insert_tail, dl_move_to_tail, dl_search}
use pmalloc.LinkedList.Ring.{IsRing}
use pmalloc.LinkedList.Change.{
  Becomes, dl_new-IsRing, dl_insert-Becomes, dl_insert_tail-Becomes, dl_move_to_tail-Becomes,
}
use pmalloc.LinkedList.Search.{first_holding, dl_search_lem}

abbrev blank : Nodes
blank = record { item = λ _. 0; pre = λ _. 0; nxt = λ _. 0; live = λ _. false }

-- The nodes 20, 30 and 40 hold 7, 8 and 9.
one : Nodes
one = dl_insert_tail 10 30 8 (dl_new 10 blank)

two : Nodes
unfolding one
two = dl_insert_tail 10 40 9 one

three : Nodes
unfolding two
three = dl_insert 10 20 7 two

one-IsRing : IsRing one 10 (30 ∷ [])
unfolding one listed
one-IsRing =
    (dl_insert_tail-Becomes (dl_new 10 blank) 10 30 8 [] (dl_new-IsRing blank 10) refl).0.ring

two-IsRing : IsRing two 10 (30 ∷ 40 ∷ [])
unfolding two listed
two-IsRing = (dl_insert_tail-Becomes one 10 40 9 (30 ∷ []) one-IsRing refl).0.ring

three-IsRing : IsRing three 10 (20 ∷ 30 ∷ 40 ∷ [])
unfolding three listed
three-IsRing = (dl_insert-Becomes two 10 20 7 (30 ∷ 40 ∷ []) two-IsRing refl).0.ring

dl_move_to_tail-Becomes_example :
    let m' = dl_move_to_tail 10 20 three in
    Becomes three m' 10 (20 ∷ 30 ∷ 40 ∷ []) (30 ∷ 40 ∷ 20 ∷ []) × (m'.item ≡ three.item)
dl_move_to_tail-Becomes_example = dl_move_to_tail-Becomes three 10 20 [] (30 ∷ 40 ∷ []) three-IsRing

dl_search_lem_example :
    dl_search 4 10 8 three ≡ some (first_holding three.item 10 8 (20 ∷ 30 ∷ 40 ∷ []))
dl_search_lem_example = dl_search_lem three 10 8 (20 ∷ 30 ∷ 40 ∷ []) 4 three-IsRing (omega arith)
