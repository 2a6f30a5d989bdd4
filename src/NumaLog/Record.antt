-- ===== src/NumaLog/Record.antt =====
-- Where the entries of a NUMA log go, and that none is overwritten before its file is reused.
use mathlib.Core.Logic.{inl, inr}
use pmalloc.Prelude.{
  ℕ, zero, suc, ◌+◌, ◌-◌, ◌<◌, ◌≤◌, ◌≡◌, ◌≢◌, refl, ap, sym, ◌==◌, ==_self, ==_ne, if◌then◌else◌,
  arith, bit_xor, subst, Bool-cases,
}
use pmalloc.Interleave.{numa_bid_to_mid}
use pmalloc.Interleave.Inverse.{back, numa_bid_to_mid-back}
use pmalloc.NumaLog.{
  NumaLog, NumaLogEntry, numa_log_entries, numa_log_flush, write_entry, numa_log_alloc,
}

-- Entry number `k` of file `turn`.
abbrev pub entry_at : NumaLog → ℕ → ℕ → NumaLogEntry
entry_at nl turn k = nl.files turn (numa_bid_to_mid k)

slots_apart : (j k : ℕ) → j ≢ k → numa_bid_to_mid j ≢ numa_bid_to_mid k
slots_apart j k ne e =
    ne (omega (arith, numa_bid_to_mid-back j, numa_bid_to_mid-back k, ap (back 4) e))

-- The entry is number `id` of file `turn`, all other entries of both files are as before, and the
-- place for it lies in the file.
pub record Enters (entry : NumaLogEntry) (turn id : ℕ) (before after : NumaLog) : Type 0 where
  pub turns : after.turn ≡ turn
  pub counts : after.nle_id turn ≡ id + 1
  pub stored : entry_at after turn id ≡ entry
  pub same_file : (k : ℕ) → k ≢ id → entry_at after turn k ≡ entry_at before turn k
  pub other_file : (t k : ℕ) → t ≢ turn → entry_at after t k ≡ entry_at before t k
  pub within : numa_bid_to_mid id < numa_log_entries

write_entry-Enters :
    (info timestamp ind : ℕ) (nl : NumaLog)
    → nl.nle_id nl.turn < numa_log_entries
    → Enters
        (record { info = info; timestamp = timestamp })
        nl.turn
        (nl.nle_id nl.turn)
        nl
        (write_entry info timestamp ind nl)
unfolding write_entry
write_entry-Enters info timestamp ind nl h = record {
  turns = refl;
  counts = rw (==_self nl.turn) refl;
  stored = rw (==_self nl.turn, ==_self (numa_bid_to_mid (nl.nle_id nl.turn))) refl;
  same_file = λ k ne.
      rw (==_self nl.turn, ==_ne _ _ (slots_apart (nl.nle_id nl.turn) k (λ e. ne (sym e)))) refl;
  other_file = λ t k ne. rw (==_ne nl.turn t (λ e. ne (sym e))) refl;
  within = unfold numa_bid_to_mid in omega arith;
}

other_turn : (t : ℕ) → t < 2 → bit_xor t 1 ≡ 1 - t
other_turn zero h = refl
other_turn (suc zero) h = refl
other_turn (suc (suc t)) h = absurd (omega arith)

-- An entry goes behind the others of the current file while that has room; when it is full, to the
-- start of the other file, and the full file keeps all its entries.
pub numa_log_alloc-Enters :
    (info timestamp ind : ℕ) (nl : NumaLog)
    → nl.turn < 2
    → nl.nle_id nl.turn ≤ numa_log_entries
    → let full = nl.nle_id nl.turn == numa_log_entries in
      Enters
        (record { info = info; timestamp = timestamp })
        (if full then 1 - nl.turn else nl.turn)
        (if full then 0 else nl.nle_id nl.turn)
        nl
        (numa_log_alloc info timestamp ind nl)
unfolding numa_log_alloc numa_log_flush
numa_log_alloc-Enters info timestamp ind nl h k =
    elim (Bool-cases (nl.nle_id nl.turn == numa_log_entries)) [
      | inl full ↦ rw (full, numa_log_alloc) switched
      | inr partial ↦
          rw (partial, numa_log_alloc) (write_entry-Enters info timestamp ind nl (ground arith))
    ]
  where
    switched :
        Enters
          (record { info = info; timestamp = timestamp })
          (1 - nl.turn)
          0
          nl
          (write_entry info timestamp ind (numa_log_flush nl))
    switched =
        let zero_id : (numa_log_flush nl).nle_id (numa_log_flush nl).turn ≡ 0 =
          rw (==_self (bit_xor nl.turn 1)) refl in
        let e =
          write_entry-Enters info timestamp ind (numa_log_flush nl) (omega (arith, zero_id)) in
        let e' =
          subst
            (λ n.
              Enters (record { info = info; timestamp = timestamp }) (numa_log_flush nl).turn n
                (numa_log_flush nl) (write_entry info timestamp ind (numa_log_flush nl)))
            zero_id e in
        let e'' =
          subst
            (λ t.
              Enters (record { info = info; timestamp = timestamp }) t 0 (numa_log_flush nl)
                (write_entry info timestamp ind (numa_log_flush nl)))
            (other_turn nl.turn h) e' in
        record {
          turns = e''.turns;
          counts = e''.counts;
          stored = e''.stored;
          same_file = e''.same_file;
          other_file = e''.other_file;
          within = e''.within;
        }
