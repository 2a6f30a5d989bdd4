-- ===== src/MiniLog.antt =====
-- The mini log of a NUMA node: src/minilog.c. A ring of MINILOG_NUM addresses of requests, written
-- in the order of `minilog_count_to_index`.
pub mod Ring
mod Tests
use pmalloc.Prelude.{ℕ, ◌+◌, ◌%◌, ◌^◌, ◌==◌, if◌then◌else◌, List, [], ◌∷◌}
use pmalloc.Interleave.{minilog_count_to_index, minilog_num}
use pmalloc.Cache.{update}

pub record MiniLog : Type 0 where
  pub log_item : ℕ → ℕ
  pub global_index : ℕ

-- `get_slot_in_minilog`, of a request that finds `global_index`.
unfoldable pub get_slot_in_minilog : ℕ → ℕ
get_slot_in_minilog global_index = minilog_count_to_index (global_index % minilog_num)

-- `add_minilog`: the slot is taken by an atomic increment of an `uint64_t`.
unfoldable pub add_minilog : ℕ → MiniLog → MiniLog
unfolding get_slot_in_minilog
add_minilog ptr log = record {
  log_item = update log.log_item (get_slot_in_minilog log.global_index) ptr;
  global_index = (log.global_index + 1) % 2 ^ 64;
}

-- Several requests, one after the other.
unfoldable pub add_all : List ℕ → MiniLog → MiniLog
add_all [] log = log
add_all (ptr ∷ ptrs) log = add_all ptrs (add_minilog ptr log)
