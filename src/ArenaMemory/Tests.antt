-- ===== src/ArenaMemory/Tests.antt =====
-- Runs of the memory of an arena with 8 pages left.
use pmalloc.Prelude.{ℕ, ◌+◌, ◌*◌, ◌^◌, ◌≡◌, some, leb, if◌then◌else◌, [], arith}
use pmalloc.ArenaMemory.{Fresh, arena_activate_new_memory}
use pmalloc.ArenaMemory.Bump.{Cuts, activate-Cuts, activate-wraps}

abbrev fresh : Fresh
fresh = record { memory_new = 65536; npage_new = 8; evicted = [] }

activate-Cuts_example :
    let enough = leb 20 8 in
    let from : ℕ = if enough then 65536 else 2097152 in
    let size : ℕ = if enough then 8 else 512 in
    (after : Fresh) × (arena_activate_new_memory (some 2097152) 20 fresh ≡ some (from, after))
    × Cuts 20 from (from + size * 4096) after
activate-Cuts_example = activate-Cuts 2097152 20 fresh (omega arith) (omega arith)

activate-wraps_example :
    (after : Fresh) × (arena_activate_new_memory (some 2097152) 1000 fresh ≡ some (2097152, after))
    × (after.npage_new + 1000 ≡ 2 ^ 64 + 512)
activate-wraps_example = activate-wraps 2097152 1000 fresh (omega arith) (omega arith) (omega arith)
