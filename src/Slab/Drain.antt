-- ===== src/Slab/Drain.antt =====
-- The blocks that other NUMA nodes freed: `rbitmap` of a slab has their bits cleared. The code
-- that moves them over to `bitmap` and clears their persistent marks stands twice in the source,
-- in `slab_pop_one_cache` of src/slab.c and in `numa_log_slab_flusher` of src/numa_log.c.
use pmalloc.Prelude.{
  ℕ, zero, suc, ◌+◌, ◌-◌, ◌*◌, ◌/◌, ◌%◌, ◌^◌, false, List, [], ◌∷◌, ◌==◌, ltb, if◌then◌else◌,
  bit_or, bit_and,
}
use pmalloc.Word.{ffs, complement}
use pmalloc.Interleave.{bid_to_mid}
use pmalloc.Cache.{update}
use pmalloc.Slab.{VSlab}
use pmalloc.Slab.Init.{all_ones}

-- What the loops change: the marks to clear, and the number of blocks in use, an `uint16_t`.
pub record Marks : Type 0 where
  pub temp_meta : ℕ → ℕ
  pub nbits : ℕ

-- `while (bit = __builtin_ffsl(rev)) { ... }` for word `i`; a word has at most 64 rounds.
unfoldable pub drain_bits : ℕ → (i rev : ℕ) → Marks → Marks
drain_bits zero i rev m = m
drain_bits (suc fuel) i rev m = elim (ffs 64 rev) [
  | zero ↦ m
  | suc k ↦
      let mid = bid_to_mid (k + 64 * i) in
      drain_bits fuel i (rev - 2 ^ k) (record {
        temp_meta = update m.temp_meta (mid / 8) (bit_or (m.temp_meta (mid / 8)) (2 ^ (mid % 8)));
        nbits = (m.nbits + 2 ^ 16 - 1) % 2 ^ 16;
      })
]

-- The words of the two bitmaps and the marks.
pub record Drained : Type 0 where
  pub bitmap : List ℕ
  pub rbitmap : List ℕ
  pub marks : Marks

-- The `for` loop over the words, from word `i` on.
unfoldable pub drain_words : (i : ℕ) → (bitmap rbitmap : List ℕ) → Marks → Drained
drain_words i [] rbitmap m = record { bitmap = []; rbitmap = rbitmap; marks = m }
drain_words i (w ∷ ws) [] m = record { bitmap = w ∷ ws; rbitmap = []; marks = m }
drain_words i (w ∷ ws) (r ∷ rs) m =
    let rev = complement 64 r in
    let rest = drain_words (i + 1) ws rs (if ltb r all_ones then drain_bits 64 i rev m else m) in
    record {
      bitmap = (if ltb r all_ones then bit_or w rev else w) ∷ rest.bitmap;
      rbitmap = (if ltb r all_ones then all_ones else r) ∷ rest.rbitmap;
      marks = rest.marks;
    }

-- `for (i = 0; i < roffset - moffset; i++) if (temp_meta[i]) ...` with `left` rounds to go.
unfoldable pub clear_metas : (left i base : ℕ) → (temp_meta mem : ℕ → ℕ) → ℕ → ℕ
clear_metas zero i base temp_meta mem = mem
clear_metas (suc left) i base temp_meta mem = clear_metas left (i + 1) base temp_meta (
    if temp_meta i == 0
    then mem
    else update mem (base + i) (bit_and (mem (base + i)) (complement 8 (temp_meta i))))

-- The whole of it for one slab, with the persistent bytes.
unfoldable pub drain : VSlab → (ℕ → ℕ) → VSlab × (ℕ → ℕ)
drain vslab mem =
    let d =
      drain_words 0 vslab.bitmap vslab.rbitmap
        (record { temp_meta = λ _. 0; nbits = vslab.nbits }) in
    (
      record vslab {
        bitmap = d.bitmap;
        rbitmap = d.rbitmap;
        nbits = d.marks.nbits;
        r_dirty = false;
      },
      clear_metas (vslab.sc.roffset - vslab.sc.moffset) 0 (vslab.slab + vslab.sc.moffset)
          d.marks.temp_meta mem,
    )
