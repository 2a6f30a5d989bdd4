-- ===== src/Decay/Tests.antt =====
-- Runs of the decay code: epochs of 10 ns, from 0 on.
use pmalloc.Prelude.{◌+◌, ◌-◌, ◌<◌, ◌≡◌, refl, true, some, ◌==◌, ltb, if◌then◌else◌, arith}
use pmalloc.Prelude.Int.{pos}
use pmalloc.Decay.{Decay, Purge, arena_decay_backlog_update, arena_maybe_decay}
use pmalloc.Decay.Window.{backlog_update-slides}
use pmalloc.Decay.Deadline.{maybe_decay-later}

abbrev decay : Decay
decay = record {
  time_ms = pos 5;
  interval = 10;
  epoch = 0;
  deadline = 12;
  nunpurged = 3;
  backlog = λ i. i;
}

backlog_update-slides_example :
    (arena_decay_backlog_update 2 7 decay).backlog 198
    ≡ (if 198 == 199 then 7 - 3 else if ltb (198 + 2) 200 then 198 + 2 else 0)
backlog_update-slides_example = backlog_update-slides 2 7 198 decay (omega arith) (omega arith)

maybe_decay-later_example :
    let result = arena_maybe_decay true (λ _. 1000) 1 35 7 decay in
    (35 < result.0.deadline)
    × ((p : Purge)
        → result.1 ≡ some p
        → (p.npages_limit < 7) × (p.npages_limit + p.npages_decay_max ≡ 7))
maybe_decay-later_example =
    maybe_decay-later true (λ _. 1000) 1 35 7 4 decay refl (omega arith) (omega arith) (omega arith)
