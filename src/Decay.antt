-- ===== src/Decay.antt =====
-- When an arena gives unused pages back: the decay code of src/arena.c. Times are nanoseconds, as
-- in nstime.c, on 64 bits. The table `h_steps` of smoothstep.h and the random jitter are arguments.
pub mod Window
pub mod Deadline
mod Tests
use pmalloc.Prelude.{
  ℕ, zero, suc, ◌+◌, ◌-◌, ◌*◌, ◌/◌, ◌%◌, ◌^◌, Bool, true, false, not, ◌&&◌, Option, none, some,
  ◌==◌, ltb, leb, if◌then◌else◌, max,
}
use pmalloc.Prelude.Int.{ℤ, pos, negsuc}
use pmalloc.Cache.{update}

-- The fields of `arena_decay_t` that the code reads. `backlog` has SMOOTHSTEP_NSTEPS entries.
pub record Decay : Type 0 where
  pub time_ms : ℤ
  pub interval : ℕ
  pub epoch : ℕ
  pub deadline : ℕ
  pub nunpurged : ℕ
  pub backlog : ℕ → ℕ

abbrev pub smoothstep_nsteps : ℕ
smoothstep_nsteps = 200

-- `time_ms > 0`.
abbrev pub is_positive : ℤ → Bool
is_positive (pos n) = ltb 0 n
is_positive (negsuc n) = false

-- `arena_decay_deadline_init`. `jitter` is what `prng_range_u64` gives.
unfoldable pub arena_decay_deadline_init : (jitter : ℕ) → Decay → Decay
arena_decay_deadline_init jitter decay = record decay {
  deadline =
      ((decay.epoch + decay.interval) % 2 ^ 64 + (if is_positive decay.time_ms then jitter else 0))
      % 2 ^ 64;
}

-- `arena_decay_reinit` at time `now`.
unfoldable pub arena_decay_reinit : (now jitter : ℕ) → ℤ → Decay → Decay
unfolding arena_decay_deadline_init
arena_decay_reinit now jitter decay_ms decay =
    let d = arena_decay_deadline_init jitter (record decay {
      time_ms = decay_ms;
      interval = elim decay_ms [
        | pos n ↦ if ltb 0 n then n * 1000000 % 2 ^ 64 / smoothstep_nsteps else decay.interval
        | negsuc n ↦ decay.interval
      ];
      epoch = now;
    }) in
    record d { nunpurged = 0; backlog = λ _. 0 }

unfoldable pub arena_decay_deadline_reached : Decay → ℕ → Bool
arena_decay_deadline_reached decay time = leb decay.deadline time

unfoldable pub arena_decay_backlog_update_last : ℕ → Decay → Decay
arena_decay_backlog_update_last current_npages decay = record decay {
  backlog =
      update decay.backlog (smoothstep_nsteps - 1)
        (if ltb decay.nunpurged current_npages then current_npages - decay.nunpurged else 0);
}

-- `memset` and `memmove` on the entries of an array.
abbrev pub fill_zero : (from count : ℕ) → (ℕ → ℕ) → ℕ → ℕ
fill_zero from count a i = if leb from i && ltb i (from + count) then 0 else a i

abbrev pub move_down : (by count : ℕ) → (ℕ → ℕ) → ℕ → ℕ
move_down by count a i = if ltb i count then a (i + by) else a i

unfoldable pub arena_decay_backlog_update : (nadvance current_npages : ℕ) → Decay → Decay
unfolding arena_decay_backlog_update_last
arena_decay_backlog_update nadvance current_npages decay =
    let moved = move_down nadvance (smoothstep_nsteps - nadvance) decay.backlog in
    arena_decay_backlog_update_last current_npages (record decay {
      backlog =
          if leb smoothstep_nsteps nadvance
          then fill_zero 0 (smoothstep_nsteps - 1) decay.backlog
          else if ltb 1 nadvance
          then fill_zero (smoothstep_nsteps - nadvance) (nadvance - 1) moved
          else moved;
    })

-- `arena_decay_epoch_advance_helper`.
unfoldable pub arena_decay_epoch_advance_helper : (jitter time current_npages : ℕ) → Decay → Decay
arena_decay_epoch_advance_helper jitter time current_npages decay =
    let nadvance = (time + 2 ^ 64 - decay.epoch) % 2 ^ 64 / decay.interval in
    arena_decay_backlog_update nadvance current_npages (
      arena_decay_deadline_init jitter
        (record decay { epoch = (decay.epoch + decay.interval * nadvance % 2 ^ 64) % 2 ^ 64 }))

-- The sum over the first `n` entries, as an `uint64_t`.
unfoldable pub weighted : (h_steps backlog : ℕ → ℕ) → ℕ → ℕ
weighted h_steps backlog zero = 0
weighted h_steps backlog (suc n) = (weighted h_steps backlog n + backlog n * h_steps n) % 2 ^ 64

unfoldable pub arena_decay_backlog_npages_limit : (ℕ → ℕ) → Decay → ℕ
arena_decay_backlog_npages_limit h_steps decay =
    weighted h_steps decay.backlog smoothstep_nsteps / 2 ^ 24

-- What is asked of the extents: to purge down to a limit, and how many pages at most.
pub record Purge : Type 0 where
  pub npages_limit : ℕ
  pub npages_decay_max : ℕ

-- `arena_decay_epoch_advance` with `arena_decay_try_purge`.
unfoldable pub arena_decay_epoch_advance :
    (ℕ → ℕ) → (jitter time current_npages : ℕ) → Decay → Decay × Option Purge
arena_decay_epoch_advance h_steps jitter time current_npages decay =
    let d = arena_decay_epoch_advance_helper jitter time current_npages decay in
    let limit = arena_decay_backlog_npages_limit h_steps d in
    (
      record d { nunpurged = if ltb current_npages limit then limit else current_npages },
      if ltb limit current_npages
          then some (record { npages_limit = limit; npages_decay_max = current_npages - limit })
          else none,
    )

-- `arena_maybe_decay` behind the test of `decay_ms`, at a positive one. `monotonic` is
-- `nstime_monotonic()`.
unfoldable pub arena_maybe_decay_at :
    (monotonic : Bool)
    → (ℕ → ℕ)
    → (jitter time current_npages : ℕ) → Decay
    → Decay × Option Purge × Bool
arena_maybe_decay_at monotonic h_steps jitter time current_npages decay =
    let d =
      if not monotonic && ltb time decay.epoch
      then arena_decay_deadline_init jitter (record decay { epoch = time })
      else decay in
    let advanced = arena_decay_epoch_advance h_steps jitter time current_npages d in
    if arena_decay_deadline_reached d time then (advanced.0, advanced.1, true) else (d, none, false)

-- `arena_maybe_decay`: at 0 all pages are purged at once, at a negative time none.
unfoldable pub arena_maybe_decay :
    (monotonic : Bool)
    → (ℕ → ℕ)
    → (jitter time current_npages : ℕ) → Decay
    → Decay × Option Purge × Bool
arena_maybe_decay monotonic h_steps jitter time current_npages decay = elim decay.time_ms [
  | pos n ↦
      if n == 0
      then (decay, some (record { npages_limit = 0; npages_decay_max = current_npages }), false)
      else arena_maybe_decay_at monotonic h_steps jitter time current_npages decay
  | negsuc n ↦ (decay, none, false)
]
