-- ===== src/NumaLog.antt =====
-- The log of frees by other NUMA nodes: src/numa_log.c. A thread fills one of two files; when that
-- is full it goes on in the other and wakes the flushers of the arenas that the entries are about.
pub mod Flush
pub mod Record
mod Tests
use pmalloc.Prelude.{
  ℕ, zero, suc, ◌+◌, ◌*◌, ◌/◌, ◌%◌, ◌^◌, ◌==◌, if◌then◌else◌, List, [], ◌∷◌, ◌++◌, bit_xor,
}
use pmalloc.Word.{ffs, clear_lowest}
use pmalloc.Bitmap.{bitmap_unset_bits}
use pmalloc.Interleave.{numa_bid_to_mid}
use pmalloc.Cache.{update}

-- `numa_log_entry_t`. The time stamp is `rdtsc`, an argument of the operations.
pub record NumaLogEntry : Type 0 where
  pub info : ℕ
  pub timestamp : ℕ

-- `numa_log_t`, the contents of its two files, and the arenas whose semaphores were posted, in
-- order.
pub record NumaLog : Type 0 where
  pub nle_id : ℕ → ℕ
  pub files : ℕ → ℕ → NumaLogEntry
  pub turn : ℕ
  pub arenas_used : List ℕ
  pub posts : List ℕ

-- NUMA_LOG_FILE_SIZE / sizeof(numa_log_entry_t).
abbrev pub numa_log_entries : ℕ
numa_log_entries = 6 * 512 * 4096 / 16

-- `while (nl->arenas_used[i]) { ... }` on word `i`: the arenas posted. A word has at most 64 rounds.
unfoldable pub post_word : ℕ → (i w : ℕ) → List ℕ
post_word zero i w = []
post_word (suc fuel) i w = elim (ffs 64 w) [
  | zero ↦ []
  | suc k ↦ (k + i * 64) ∷ post_word fuel i (clear_lowest 64 w)
]

unfoldable pub post_words : ℕ → List ℕ → List ℕ
post_words i [] = []
post_words i (w ∷ ws) = post_word 64 i w ++ post_words (i + 1) ws

unfoldable pub all_clear : List ℕ → List ℕ
all_clear [] = []
all_clear (w ∷ ws) = 0 ∷ all_clear ws

-- `numa_log_flush`.
unfoldable pub numa_log_flush : NumaLog → NumaLog
unfolding post_words all_clear
numa_log_flush nl =
    let turn = bit_xor nl.turn 1 in
    record nl {
      turn = turn;
      nle_id = update nl.nle_id turn 0;
      posts = nl.posts ++ post_words 0 nl.arenas_used;
      arenas_used = all_clear nl.arenas_used;
    }

-- The part of `numa_log_alloc` behind the test for a full file.
unfoldable pub write_entry : (info timestamp ind : ℕ) → NumaLog → NumaLog
write_entry info timestamp ind nl =
    let id = nl.nle_id nl.turn in
    let entry : NumaLogEntry = record { info = info; timestamp = timestamp } in
    record nl {
      files = update nl.files nl.turn (update (nl.files nl.turn) (numa_bid_to_mid id) entry);
      arenas_used = bitmap_unset_bits nl.arenas_used ind;
      nle_id = update nl.nle_id nl.turn (id + 1);
    }

unfoldable pub numa_log_alloc : (info timestamp ind : ℕ) → NumaLog → NumaLog
numa_log_alloc info timestamp ind nl =
    write_entry info timestamp ind
      (if nl.nle_id nl.turn == numa_log_entries then numa_log_flush nl else nl)
