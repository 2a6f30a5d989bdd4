-- ===== src/Decay/Deadline.antt =====
-- The deadline of an arena moves past the present.
use mathlib.Core.Logic.{inl, inr}
use native.Mathlib.Nat.{div-add-mod', mod-lt}
use pmalloc.Prelude.{
  ℕ, suc, ◌+◌, ◌-◌, ◌*◌, ◌/◌, ◌%◌, ◌^◌, ◌<◌, ◌≤◌, ◌≡◌, Bool, false, not, ◌&&◌, some, none, ◌==◌,
  ltb, leb, if◌then◌else◌, arith, Bool-cases,
}
use pmalloc.Prelude.Int.{pos}
use pmalloc.Decay.{
  Decay, Purge, is_positive, arena_decay_deadline_init, arena_decay_deadline_reached,
  arena_decay_epoch_advance_helper, arena_decay_backlog_update, arena_decay_backlog_update_last,
  arena_decay_epoch_advance, arena_maybe_decay_at, arena_maybe_decay,
}

next_epoch :
    (time epoch interval : ℕ)
    → epoch ≤ time
    → 0 < interval
    → (epoch + interval * ((time - epoch) / interval) ≤ time)
      × (time < epoch + interval * ((time - epoch) / interval) + interval)
next_epoch time epoch interval h p =
    let split = div-add-mod' (time - epoch) interval in
    let low = mod-lt (time - epoch) p in
    let swap : interval * ((time - epoch) / interval) ≡ (time - epoch) / interval * interval =
      grind arith in
    (omega (arith, split, low, swap), omega (arith, split, low, swap))

-- The same on 64 bits.
next_epoch_64 :
    (time epoch interval : ℕ)
    → epoch ≤ time
    → 0 < interval
    → time < 2 ^ 64
    → (epoch + interval * ((time + 2 ^ 64 - epoch) % 2 ^ 64 / interval) % 2 ^ 64) % 2 ^ 64
      ≡ epoch + interval * ((time - epoch) / interval)
next_epoch_64 time epoch interval h p small =
    let delta : (time + 2 ^ 64 - epoch) % 2 ^ 64 ≡ time - epoch = omega arith in
    let (low, high) = next_epoch time epoch interval h p in rw delta (omega (arith, low))

-- Advancing the epoch, from an epoch that is not in the future, puts the present into the epoch
-- that begins then, and the deadline behind the present.
pub epoch_advance-contains :
    (jitter time current : ℕ) (decay : Decay)
    → decay.epoch ≤ time
    → 0 < decay.interval
    → time + decay.interval + jitter < 2 ^ 64
    → let after = arena_decay_epoch_advance_helper jitter time current decay in
      (after.epoch ≤ time) × (time < after.epoch + after.interval) × (time < after.deadline)
unfolding arena_decay_epoch_advance_helper arena_decay_backlog_update
    arena_decay_backlog_update_last arena_decay_deadline_init
epoch_advance-contains jitter time current decay h p room =
    let (low, high) = next_epoch time decay.epoch decay.interval h p in
    rw (next_epoch_64 time decay.epoch decay.interval h p (omega (arith, room))) (
      low,
      high,
      elim (Bool-cases (is_positive decay.time_ms)) [
        | inl on ↦ rw on (omega (arith, high, low, room))
        | inr off ↦ rw off (omega (arith, high, low, room))
      ],
    )

purge_sum :
    (limit current : ℕ) (purge : Purge)
    → (if ltb limit current
        then some (record { npages_limit = limit; npages_decay_max = current - limit })
        else none)
      ≡ some purge
    → (purge.npages_limit < current) × (purge.npages_limit + purge.npages_decay_max ≡ current)
purge_sum limit current purge e = elim (Bool-cases (ltb limit current)) [
  | inl below ↦ (ground (arith, e, below), ground (arith, e, below))
  | inr enough ↦ absurd (ground (arith, e, enough))
]

-- A decay step at a positive rate, from an epoch that is not in the future, with an interval that
-- is not 0, and while the time, the interval and the jitter stay together below 2 ^ 64, leaves a
-- deadline behind the present, whether or not it advanced; a purge that it asks for is down to a
-- limit below the pages that there are, by exactly the difference.
pub maybe_decay-later :
    (monotonic : Bool) (h : ℕ → ℕ) (jitter time current n : ℕ) (decay : Decay)
    → decay.time_ms ≡ pos (suc n)
    → decay.epoch ≤ time
    → 0 < decay.interval
    → time + decay.interval + jitter < 2 ^ 64
    → let result = arena_maybe_decay monotonic h jitter time current decay in
      (time < result.0.deadline)
      × ((p : Purge)
          → result.1 ≡ some p
          → (p.npages_limit < current) × (p.npages_limit + p.npages_decay_max ≡ current))
unfolding arena_maybe_decay arena_maybe_decay_at arena_decay_epoch_advance
    arena_decay_deadline_reached
maybe_decay-later monotonic h jitter time current n decay rate past p room =
    let present : ltb time decay.epoch ≡ false = ground arith in
    let settled : (not monotonic && ltb time decay.epoch) ≡ false = ground (arith, present) in
    let positive : (suc n == 0) ≡ false = ground arith in
    elim (Bool-cases (leb decay.deadline time)) [
      | inl reached ↦
          rw (arena_maybe_decay, rate, positive, settled, reached)
            (
              (epoch_advance-contains jitter time current decay past p room).2,
              λ purge e. purge_sum _ current purge e,
            )
      | inr ahead ↦
          rw (arena_maybe_decay, rate, positive, settled, ahead)
            (ground arith, λ purge e. absurd (ground (arith, e)))
    ]
