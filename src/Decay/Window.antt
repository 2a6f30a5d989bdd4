-- ===== src/Decay/Window.antt =====
-- The backlog is a window that slides with the epochs, and its weighted sum a bound on pages.
use pmalloc.Prelude.{
  ℕ, zero, suc, ◌+◌, ◌-◌, ◌*◌, ◌/◌, ◌^◌, ◌<◌, ◌≤◌, ◌≡◌, ◌==◌, ltb, if◌then◌else◌, arith,
}
use pmalloc.Decay.{
  Decay, arena_decay_backlog_update, arena_decay_backlog_update_last, weighted,
  arena_decay_backlog_npages_limit,
}

-- After n epochs (at least one) an entry of the backlog is what stood n places above it, the last
-- entry is the number of new pages, and what slid in is 0.
pub backlog_update-slides :
    (n current i : ℕ) (decay : Decay)
    → 1 ≤ n
    → i < 200
    → (arena_decay_backlog_update n current decay).backlog i ≡ (
        if i == 199
        then current - decay.nunpurged
        else if ltb (i + n) 200
        then decay.backlog (i + n)
        else 0)
unfolding arena_decay_backlog_update arena_decay_backlog_update_last
backlog_update-slides n current i decay pos in_range = ground arith

unfoldable pub total : (ℕ → ℕ) → ℕ → ℕ
total backlog zero = 0
total backlog (suc n) = total backlog n + backlog n

weighted-le :
    (h backlog : ℕ → ℕ) (n : ℕ)
    → ((i : ℕ) → h i ≤ 2 ^ 24)
    → weighted h backlog n ≤ total backlog n * 2 ^ 24
unfolding weighted total
weighted-le h backlog zero bound = omega arith
weighted-le h backlog (suc n) bound =
    let step : backlog n * h n ≤ backlog n * 2 ^ 24 = scaled (backlog n) (h n) (bound n) in
    omega (arith, weighted-le h backlog n bound, step)
  where
    scaled : (b k : ℕ) → k ≤ 2 ^ 24 → b * k ≤ b * 2 ^ 24
    scaled b k le = grind arith

shifted : (w t : ℕ) → w ≤ t * 2 ^ 24 → w / 2 ^ 24 ≤ t
shifted w t le = omega arith

-- With weights of at most 1 (2 ^ 24 in fixed point) the limit is at most the sum of the backlog.
pub npages_limit-le :
    (h : ℕ → ℕ) (decay : Decay)
    → ((i : ℕ) → h i ≤ 2 ^ 24)
    → arena_decay_backlog_npages_limit h decay ≤ total decay.backlog 200
unfolding arena_decay_backlog_npages_limit
npages_limit-le h decay bound = shifted _ _ (weighted-le h decay.backlog 200 bound)
