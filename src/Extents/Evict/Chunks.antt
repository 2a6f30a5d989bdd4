-- ===== src/Extents/Evict/Chunks.antt =====
-- What `n_muzzy_extent_can_evict` counts, and where its `*start` lies.
use mathlib.Core.Logic.{inl, inr}
use pmalloc.Prelude.{
  ℕ, zero, suc, ◌+◌, ◌-◌, ◌*◌, ◌/◌, ◌%◌, ◌^◌, ◌≤◌, ◌<◌, ◌≡◌, refl, ◌∙◌, arith, ◌&&◌, ◌==◌, leb, ltb,
  Bool-cases, Option, some, if◌then◌else◌,
}
use pmalloc.SizeClass.{round_up}
use pmalloc.Extents.{Extent}
use pmalloc.Extents.Evict.{chunk_size, muzzy_scan, n_muzzy_extent_can_evict}

scan_end :
    (ret a b temp start next : ℕ)
    → a / chunk_size ≡ b / chunk_size + 1
    → next ≡ temp + chunk_size
    → ◌≡◌ {A = Option (ℕ × ℕ)}
        (some (
          ret + 1 + b / chunk_size,
          (if ret + 1 == 0 && ltb 0 (b / chunk_size)
              then next + chunk_size
              else if ret == 0
              then next
              else start),
        ))
        (some (
          ret + a / chunk_size,
          (if ret == 0 && ltb 0 (a / chunk_size) then temp + chunk_size else start),
        ))
scan_end ret a b temp start next e f = ground arith

-- From `temp` on the loop counts the whole chunks up to the end.
muzzy_scan_lem :
    (fuel temp max start ret : ℕ)
    → temp ≤ max + chunk_size
    → max < 2 ^ 63
    → (max - temp) / chunk_size < fuel
    → muzzy_scan fuel temp max start ret
      ≡ some (
        ret + (max - temp) / chunk_size,
        (if ret == 0 && ltb 0 ((max - temp) / chunk_size) then temp + chunk_size else start),
      )
unfolding muzzy_scan
muzzy_scan_lem zero temp max start ret low high enough = absurd (omega arith)
muzzy_scan_lem (suc fuel) temp max start ret low high enough =
    let next : (temp + chunk_size) % 2 ^ 64 ≡ temp + chunk_size = omega arith in
    let next' : ℕ = (temp + chunk_size) % 2 ^ 64 in
    elim (Bool-cases (leb next' max)) [
      | inl more ↦
          let count : (max - temp) / chunk_size ≡ (max - next') / chunk_size + 1 = ground arith in
          let rest =
            muzzy_scan_lem fuel next' max (if ret == 0 then next' else start) (ret + 1)
              (ground arith) high (omega arith) in
          rw (more, muzzy_scan)
            (rest ∙ scan_end ret (max - temp) (max - next') temp start next' count next)
      | inr over ↦
          let count : (max - temp) / chunk_size ≡ 0 = ground arith in
          rw (over, count, muzzy_scan) (ground arith)
    ]

-- The first multiple of CHUNK_SIZE in an extent, and how many whole chunks follow there.
abbrev pub first_chunk : Extent → ℕ
first_chunk e = (e.e_addr + (chunk_size - 1)) / chunk_size * chunk_size

abbrev pub count_chunks : Extent → ℕ
count_chunks e = (e.e_addr + e.size - first_chunk e) / chunk_size

round_up_chunk : (n : ℕ) → round_up n chunk_size ≡ (n + (chunk_size - 1)) / chunk_size * chunk_size
unfolding round_up
round_up_chunk n = ground arith

-- On an extent below 2 ^ 63 the loop ends with the number of whole aligned chunks of the extent.
-- When there is one, the start that it reports is the end of the first of them, so that as many
-- chunks from there on run past the end of the extent.
pub n_muzzy_extent_can_evict_lem :
    (e : Extent) (start : ℕ)
    → e.e_addr + e.size < 2 ^ 63
    → let start' = if count_chunks e == 0 then start else first_chunk e + chunk_size in
      (n_muzzy_extent_can_evict e start ≡ some (count_chunks e, start'))
      × (0 < count_chunks e → e.e_addr + e.size < start' + count_chunks e * chunk_size)
unfolding n_muzzy_extent_can_evict
n_muzzy_extent_can_evict_lem e start h = (
  elim (Bool-cases (ltb e.size chunk_size)) [
    | inl small ↦ let none_fits : count_chunks e ≡ 0 = ground arith in rw (small, none_fits) refl
    | inr large ↦
        let first = round_up_chunk e.e_addr in
        let wraps : (e.e_addr + e.size) % 2 ^ 64 ≡ e.e_addr + e.size = omega arith in
        let scan =
          muzzy_scan_lem (e.size / chunk_size + 1) (first_chunk e) (e.e_addr + e.size) start 0
            (omega arith) h (omega arith) in
        rw (large, first, wraps) (ground (arith, scan))
  ],
  λ p. ground arith,
)
