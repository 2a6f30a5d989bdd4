-- ===== src/MiniLog/Tests.antt =====
-- A run of the mini log across the end of its ring.
use pmalloc.Prelude.{◌+◌, ◌≡◌, [], ◌∷◌, get_or, arith}
use pmalloc.MiniLog.{MiniLog, get_slot_in_minilog, add_all}
use pmalloc.MiniLog.Ring.{add_all-holds}

abbrev near_end : MiniLog
near_end = record { log_item = λ _. 0; global_index = 95 }

add_all-holds_example :
    (add_all (16 ∷ 32 ∷ 48 ∷ []) near_end).log_item (get_slot_in_minilog (95 + 2))
    ≡ get_or (16 ∷ 32 ∷ 48 ∷ []) 2 0
add_all-holds_example =
    add_all-holds (16 ∷ 32 ∷ 48 ∷ []) near_end 2 (omega arith) (omega arith) (omega arith)
