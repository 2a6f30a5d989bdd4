-- ===== src/MiniLog/Ring.antt =====
-- The mini log holds the last MINILOG_NUM requests.
use pmalloc.Prelude.{
  ℕ, zero, suc, ◌+◌, ◌%◌, ◌^◌, ◌<◌, ◌≤◌, ◌≡◌, ◌≢◌, refl, ◌∙◌, false, ◌==◌, ==_self, ==_ne, List, [],
  ◌∷◌, length, get_or, arith,
}
use pmalloc.Interleave.Inverse.{minilog_slots}
use pmalloc.MiniLog.{MiniLog, get_slot_in_minilog, add_minilog, add_all}

slots_apart : (a b : ℕ) → a % 96 ≢ b % 96 → get_slot_in_minilog a ≢ get_slot_in_minilog b
unfolding get_slot_in_minilog
slots_apart a b ne e = ne ((minilog_slots (a % 96) (b % 96) (omega arith) (omega arith)).1 e)

next_index :
    (log : MiniLog) (ptr : ℕ)
    → log.global_index + 1 < 2 ^ 64
    → (add_minilog ptr log).global_index ≡ log.global_index + 1
unfolding add_minilog
next_index log ptr h = omega arith

add_all_keeps :
    (ptrs : List ℕ) (log : MiniLog) (j : ℕ)
    → log.global_index + length ptrs < 2 ^ 64
    → ((i : ℕ) → i < length ptrs → (log.global_index + i) % 96 ≢ j % 96)
    → (add_all ptrs log).log_item (get_slot_in_minilog j) ≡ log.log_item (get_slot_in_minilog j)
unfolding add_all
add_all_keeps [] log j h apart = refl
add_all_keeps (ptr ∷ ptrs) log j h apart =
    add_all_keeps ptrs (add_minilog ptr log) j (omega (arith, next)) later
    ∙ unfold add_minilog in rw here refl
  where
    next : (add_minilog ptr log).global_index ≡ log.global_index + 1
    next = next_index log ptr (omega arith)

    later : (i : ℕ) → i < length ptrs → ((add_minilog ptr log).global_index + i) % 96 ≢ j % 96
    later i k e = apart (suc i) (omega arith) (omega (arith, next, e))

    here : (get_slot_in_minilog log.global_index == get_slot_in_minilog j) ≡ false
    here =
        ==_ne _ _ (slots_apart log.global_index j (λ e. apart 0 (omega arith) (omega (arith, e))))

-- After at most MINILOG_NUM requests in a row, while the counter of requests does not wrap, the
-- mini log holds each of them, the i-th in the slot of its number.
pub add_all-holds :
    (ptrs : List ℕ) (log : MiniLog) (i : ℕ)
    → length ptrs ≤ 96
    → log.global_index + length ptrs < 2 ^ 64
    → i < length ptrs
    → (add_all ptrs log).log_item (get_slot_in_minilog (log.global_index + i)) ≡ get_or ptrs i 0
unfolding add_all
add_all-holds [] log i few h k = absurd (omega arith)
add_all-holds (ptr ∷ ptrs) log zero few h k =
    let start : log.global_index + 0 ≡ log.global_index = omega arith in
    let next = next_index log ptr (omega arith) in
    rw start (
      add_all_keeps ptrs (add_minilog ptr log) log.global_index (omega (arith, next))
        (λ i l e. omega (arith, next, e))
      ∙ unfold add_minilog in rw (==_self (get_slot_in_minilog log.global_index)) refl)
add_all-holds (ptr ∷ ptrs) log (suc i) few h k =
    let next = next_index log ptr (omega arith) in
    let e : log.global_index + suc i ≡ (add_minilog ptr log).global_index + i =
      omega (arith, next) in
    rw e
      (add_all-holds ptrs (add_minilog ptr log) i (omega arith) (omega (arith, next)) (omega arith))
