-- ===== src/Extents/Evict.antt =====
-- Taking an extent out of a pool that is too large: `n_muzzy_extent_can_evict` and `extents_evict`
-- of src/extent.c. The allocations of the two splits are arguments.
pub mod Chunks
pub mod Late
use pmalloc.Prelude.{
  ℕ, zero, suc, ◌+◌, ◌-◌, ◌*◌, ◌/◌, ◌%◌, ◌^◌, Bool, true, false, ◌==◌, leb, ltb, if◌then◌else◌,
  Option, none, some, List, [], ◌∷◌, length,
}
use pmalloc.SizeClass.{round_up}
use pmalloc.Extents.{
  Extent, Store, Rtree, PairingHeap, set_state, extent_state_active, extents_insert_locked,
  extents_remove_locked,
}
use pmalloc.Extents.Split.{Part, extent_split_impl}
use pmalloc.Extents.Coalesce.{Coalesced, extent_try_coalesce_impl}

abbrev pub chunk_size : ℕ
chunk_size = 2097152

-- The loop of `n_muzzy_extent_can_evict`: the count and `*start`; `none` while it runs. The count
-- is an `int`: an extent in the 47 bits of user addresses has at most 2 ^ 26 chunks.
unfoldable pub muzzy_scan : (fuel tempaddr maxaddr start ret : ℕ) → Option (ℕ × ℕ)
muzzy_scan zero tempaddr maxaddr start ret = none
muzzy_scan (suc fuel) tempaddr maxaddr start ret =
    let next = (tempaddr + chunk_size) % 2 ^ 64 in
    elim (leb next maxaddr) [
      | true ↦ muzzy_scan fuel next maxaddr (if ret == 0 then next else start) (ret + 1)
      | false ↦ some (ret, start)
    ]

-- How many chunks an extent holds, and `*start`, which is left as it is when there are none. A
-- round per chunk and one more are enough.
unfoldable pub n_muzzy_extent_can_evict : Extent → ℕ → Option (ℕ × ℕ)
unfolding muzzy_scan round_up
n_muzzy_extent_can_evict e start =
    if ltb e.size chunk_size
    then some (0, start)
    else muzzy_scan (e.size / chunk_size + 1) (round_up e.e_addr chunk_size)
        ((e.e_addr + e.size) % 2 ^ 64) start 0

-- What `extents_evict` comes to: NULL; an extent; `abort`; or a loop that has not ended.
pub data Eviction (S : Type 0) : Type 0 where
  nothing : S → Eviction S
  evicted : ℕ → S → Eviction S
  aborted : Eviction S
  unfinished : Eviction S

module _ {H M : Type 0} (heap : PairingHeap H) (rtree : Rtree M) (arena : ℕ) where
  -- The chunks at the end of an extent are cut off when its size is no multiple of a chunk.
  unfoldable pub cut_tail : (new : Option ℕ) → (x nevict : ℕ) → Store H M → Eviction (Store H M)
  unfolding extent_split_impl extents_insert_locked
  cut_tail new x nevict s =
      let e = s.extents x in
      let (t, s') =
        extent_split_impl rtree new arena x
          (record {
            size = chunk_size * nevict % 2 ^ 64;
            szind = e.szind;
            slab = e.slab;
            vslab = 0;
          })
          (record { size = e.size % chunk_size; szind = e.szind; slab = e.slab; vslab = 0 }) s in
      if e.size % chunk_size == 0 then evicted x (set_state x extent_state_active s) else elim t [
        | none ↦ aborted
        | some c ↦ evicted x (set_state x extent_state_active (extents_insert_locked heap c s'))
      ]

  -- The body of the search for a muzzy extent, on one with chunks.
  unfoldable pub cut_chunks :
      (new_b new_c : Option ℕ) → (x nevict start : ℕ) → Store H M → Eviction (Store H M)
  unfolding cut_tail extent_split_impl extents_insert_locked extents_remove_locked
  cut_chunks new_b new_c x nevict start s =
      let removed = extents_remove_locked heap x s in
      let e = removed.extents x in
      let before = (start + 2 ^ 64 - e.e_addr) % 2 ^ 64 in
      let (t, s') =
        extent_split_impl rtree new_b arena x
          (record { size = before; szind = e.szind; slab = e.slab; vslab = 0 })
          (record {
            size = (e.size + 2 ^ 64 - before) % 2 ^ 64;
            szind = e.szind;
            slab = e.slab;
            vslab = 0;
          })
          removed in
      if start == e.e_addr then cut_tail new_c x nevict removed else elim t [
        | none ↦ aborted
        | some b ↦ cut_tail new_c b nevict (extents_insert_locked heap x s')
      ]

  -- The search along the list.
  unfoldable pub find_muzzy : (new_b new_c : Option ℕ) → List ℕ → Store H M → Eviction (Store H M)
  unfolding cut_chunks n_muzzy_extent_can_evict
  find_muzzy new_b new_c [] s = nothing s
  find_muzzy new_b new_c (x ∷ xs) s = elim (n_muzzy_extent_can_evict (s.extents x) 0) [
    | none ↦ unfinished
    | some (zero, start) ↦ find_muzzy new_b new_c xs s
    | some (suc n, start) ↦ cut_chunks new_b new_c x (suc n) start s
  ]

  -- The loop for a pool that coalesces late, with `extent_try_delayed_coalesce`.
  unfoldable pub evict_late : (fuel npages_min : ℕ) → Store H M → Eviction (Store H M)
  unfolding extents_remove_locked extents_insert_locked extent_try_coalesce_impl
  evict_late zero npages_min s = unfinished
  evict_late (suc fuel) npages_min s = elim s.pool.lru [
    | [] ↦ nothing s
    | x ∷ xs ↦ elim (leb s.pool.npages npages_min) [
      | true ↦ nothing s
      | false ↦
          elim (extent_try_coalesce_impl heap rtree arena false (length xs + 1) x
            (set_state x extent_state_active (extents_remove_locked heap x s))) [
              | none ↦ unfinished
              | some r ↦ elim r.coalesced [
                | true ↦
                    evict_late fuel npages_min (
                      extents_insert_locked heap r.extent (set_state r.extent s.pool.state r.store))
                | false ↦ evicted r.extent (set_state r.extent extent_state_active r.store)
              ]
            ]
    ]
  ]

  -- `extents_evict`. The test of `npages` against CHUNK_SIZE compares pages with bytes.
  unfoldable pub extents_evict :
      (new_b new_c : Option ℕ) → (npages_min : ℕ) → Store H M → Eviction (Store H M)
  unfolding evict_late find_muzzy
  extents_evict new_b new_c npages_min s =
      if s.pool.delay_coalesce
      then evict_late (length s.pool.lru + 1) npages_min s
      else if length s.pool.lru == 0
      then nothing s
      else if leb s.pool.npages npages_min
      then nothing s
      else if ltb s.pool.npages chunk_size
      then nothing s
      else find_muzzy new_b new_c s.pool.lru s
