-- ===== src/NumaLog/Tests.antt =====
-- Runs of the NUMA log: its first file is full, and arenas 1 and 66 are to be woken.
use pmalloc.Prelude.{ℕ, ◌≡◌, false, ◌==◌, if◌then◌else◌, List, [], ◌∷◌, ◌++◌, arith}
use pmalloc.Bitmap.{is_free}
use pmalloc.Log.{listed}
use pmalloc.NumaLog.{NumaLog, numa_log_entries, numa_log_flush, numa_log_alloc}
use pmalloc.NumaLog.Flush.{numa_log_flush-posts}
use pmalloc.NumaLog.Record.{Enters, numa_log_alloc-Enters}

abbrev full_log : NumaLog
full_log = record {
  nle_id = λ _. 786432;
  files = λ _ _. record { info = 4096; timestamp = 1 };
  turn = 0;
  arenas_used = 2 ∷ 4 ∷ [];
  posts = [];
}

numa_log_flush-posts_example :
    (posted : List ℕ) × ((numa_log_flush full_log).posts ≡ [] ++ posted)
    × ((a : ℕ) → listed a posted ≡ is_free (2 ∷ 4 ∷ []) a)
    × ((a : ℕ) → is_free (numa_log_flush full_log).arenas_used a ≡ false)
numa_log_flush-posts_example = numa_log_flush-posts full_log (omega arith, (omega arith, tt))

numa_log_alloc-Enters_example :
    Enters
      (record { info = 8192; timestamp = 7 })
      (if 786432 == numa_log_entries then 1 else 0)
      (if 786432 == numa_log_entries then 0 else 786432)
      full_log
      (numa_log_alloc 8192 7 3 full_log)
numa_log_alloc-Enters_example = numa_log_alloc-Enters 8192 7 3 full_log (omega arith) (omega arith)
