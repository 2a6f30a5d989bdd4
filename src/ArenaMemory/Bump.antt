-- ===== src/ArenaMemory/Bump.antt =====
-- Pieces of a chunk are cut off one after the other, while the request fits a chunk.
use mathlib.Core.Logic.{inl, inr}
use pmalloc.Prelude.{
  ℕ, ◌+◌, ◌*◌, ◌^◌, ◌<◌, ◌≤◌, ◌≡◌, refl, true, false, some, ltb, leb, if◌then◌else◌, arith,
  Bool-cases, leb→le,
}
use pmalloc.ArenaMemory.{Fresh, arena_get_new_memory_locked, cut, arena_activate_new_memory}

-- A piece of `npages` pages at `addr`, cut from memory that ends at `last`: it lies below the memory
-- that is left, which begins where the piece ends and goes up to `last`.
pub record Cuts (npages addr last : ℕ) (after : Fresh) : Type 0 where
  pub from : addr + npages * 4096 ≡ after.memory_new
  pub to : after.memory_new + after.npage_new * 4096 ≡ last

-- A request of at most 512 pages, while the arena holds at most a chunk, returns a piece of what
-- the arena holds when that is enough, else of the new chunk, which can be mapped; what is left
-- begins where the piece ends.
pub activate-Cuts :
    (chunk npages : ℕ) (fresh : Fresh)
    → npages ≤ 512
    → fresh.npage_new ≤ 512
    → let enough = leb npages fresh.npage_new in
      let from = if enough then fresh.memory_new else chunk in
      let size = if enough then fresh.npage_new else 512 in
      (after : Fresh) × (arena_activate_new_memory (some chunk) npages fresh ≡ some (from, after))
      × Cuts npages from (from + size * 4096) after
unfolding arena_activate_new_memory arena_get_new_memory_locked cut
activate-Cuts chunk npages fresh h k = elim (Bool-cases (ltb fresh.npage_new npages)) [
  | inl short ↦
      let held : leb npages fresh.npage_new ≡ false = ground arith in
      rw (held, short) (_, refl, record { from = refl; to = omega arith })
  | inr enough ↦
      let held : leb npages fresh.npage_new ≡ true = ground arith in
      rw (held, enough)
        (_, refl, record { from = refl; to = omega (arith, leb→le npages fresh.npage_new held) })
]

-- A request of more than 512 pages that the arena does not hold is cut from a chunk of 512 pages
-- all the same, and the count of pages left wraps round to nearly 2 ^ 64.
pub activate-wraps :
    (chunk npages : ℕ) (fresh : Fresh)
    → 512 < npages
    → npages ≤ 2 ^ 64
    → fresh.npage_new < npages
    → (after : Fresh) × (arena_activate_new_memory (some chunk) npages fresh ≡ some (chunk, after))
      × (after.npage_new + npages ≡ 2 ^ 64 + 512)
unfolding arena_activate_new_memory arena_get_new_memory_locked cut
activate-wraps chunk npages fresh h k less =
    let short : ltb fresh.npage_new npages ≡ true = ground arith in rw short (_, refl, omega arith)
