-- ===== src/SizeClass.antt =====
-- The size classes: src/sizeclass.c and include/pmalloc/internal/sizeclass.h, with `roundUp` of
-- pmalloc_internal_types.h. `sizeclass_boot` fills the two lookup tables and lays out a slab of
-- each class; the tables of the header are the lists below, row by row.
pub mod Lookup
pub mod Layout
pub mod Pages
pub mod Tests
use pmalloc.Prelude.{
  ℕ, zero, suc, ◌+◌, ◌-◌, ◌*◌, ◌/◌, ◌%◌, ◌^◌, leb, ◌==◌, if◌then◌else◌, Option, none, some, List,
  [], ◌∷◌, get_or, max, true, false,
}

-- `SC(index, lg_grp, lg_delta, ndelta, ...)` as a number of bytes.
abbrev pub sc_bytes : ℕ → ℕ → ℕ → ℕ
sc_bytes lg_grp lg_delta ndelta = 2 ^ lg_grp + ndelta * 2 ^ lg_delta

-- The sizes of SIZE_CLASSES. The C array `sizeclasses` has a zero entry in front of them.
abbrev pub size_classes : List ℕ
size_classes =
    sc_bytes 3 3 0
    ∷ sc_bytes 3 3 1
    ∷ sc_bytes 3 3 2
    ∷ sc_bytes 3 3 3
    ∷ sc_bytes 5 3 1
    ∷ sc_bytes 5 3 2
    ∷ sc_bytes 5 3 3
    ∷ sc_bytes 5 3 4
    ∷ sc_bytes 6 4 1
    ∷ sc_bytes 6 4 2
    ∷ sc_bytes 6 4 3
    ∷ sc_bytes 6 4 4
    ∷ sc_bytes 7 5 1
    ∷ sc_bytes 7 5 2
    ∷ sc_bytes 7 5 3
    ∷ sc_bytes 7 5 4
    ∷ sc_bytes 8 6 1
    ∷ sc_bytes 8 6 2
    ∷ sc_bytes 8 6 3
    ∷ sc_bytes 8 6 4
    ∷ sc_bytes 9 7 1
    ∷ sc_bytes 9 7 2
    ∷ sc_bytes 9 7 3
    ∷ sc_bytes 9 7 4
    ∷ sc_bytes 10 8 1
    ∷ sc_bytes 10 8 2
    ∷ sc_bytes 10 8 3
    ∷ sc_bytes 10 8 4
    ∷ sc_bytes 11 9 1
    ∷ sc_bytes 11 9 2
    ∷ sc_bytes 11 9 3
    ∷ sc_bytes 11 9 4
    ∷ sc_bytes 12 10 1
    ∷ sc_bytes 12 10 2
    ∷ sc_bytes 12 10 3
    ∷ sc_bytes 12 10 4
    ∷ sc_bytes 13 11 1
    ∷ sc_bytes 13 11 2
    ∷ sc_bytes 13 11 3
    ∷ []

-- The sizes in bytes of PSIZE_CLASSES. The C array has MAX_PSZ_IDX = 63 entries, so its last one
-- is zero-filled.
abbrev pub psize_classes : List ℕ
psize_classes =
    sc_bytes 11 9 4
    ∷ sc_bytes 12 10 4
    ∷ sc_bytes 13 11 2
    ∷ sc_bytes 13 11 4
    ∷ sc_bytes 14 12 1
    ∷ sc_bytes 14 12 2
    ∷ sc_bytes 14 12 3
    ∷ sc_bytes 14 12 4
    ∷ sc_bytes 15 13 1
    ∷ sc_bytes 15 13 2
    ∷ sc_bytes 15 13 3
    ∷ sc_bytes 15 13 4
    ∷ sc_bytes 16 14 1
    ∷ sc_bytes 16 14 2
    ∷ sc_bytes 16 14 3
    ∷ sc_bytes 16 14 4
    ∷ sc_bytes 17 15 1
    ∷ sc_bytes 17 15 2
    ∷ sc_bytes 17 15 3
    ∷ sc_bytes 17 15 4
    ∷ sc_bytes 18 16 1
    ∷ sc_bytes 18 16 2
    ∷ sc_bytes 18 16 3
    ∷ sc_bytes 18 16 4
    ∷ sc_bytes 19 17 1
    ∷ sc_bytes 19 17 2
    ∷ sc_bytes 19 17 3
    ∷ sc_bytes 19 17 4
    ∷ sc_bytes 20 18 1
    ∷ sc_bytes 20 18 2
    ∷ sc_bytes 20 18 3
    ∷ sc_bytes 20 18 4
    ∷ sc_bytes 21 19 1
    ∷ sc_bytes 21 19 2
    ∷ sc_bytes 21 19 3
    ∷ sc_bytes 21 19 4
    ∷ sc_bytes 22 20 1
    ∷ sc_bytes 22 20 2
    ∷ sc_bytes 22 20 3
    ∷ sc_bytes 22 20 4
    ∷ sc_bytes 23 21 1
    ∷ sc_bytes 23 21 2
    ∷ sc_bytes 23 21 3
    ∷ sc_bytes 23 21 4
    ∷ sc_bytes 24 22 1
    ∷ sc_bytes 24 22 2
    ∷ sc_bytes 24 22 3
    ∷ sc_bytes 24 22 4
    ∷ sc_bytes 25 23 1
    ∷ sc_bytes 25 23 2
    ∷ sc_bytes 25 23 3
    ∷ sc_bytes 25 23 4
    ∷ sc_bytes 26 24 1
    ∷ sc_bytes 26 24 2
    ∷ sc_bytes 26 24 3
    ∷ sc_bytes 26 24 4
    ∷ sc_bytes 27 25 1
    ∷ sc_bytes 27 25 2
    ∷ sc_bytes 27 25 3
    ∷ sc_bytes 27 25 4
    ∷ sc_bytes 28 26 1
    ∷ sc_bytes 28 26 2
    ∷ 0
    ∷ []

abbrev pub page_size : ℕ
page_size = 4096

abbrev pub max_sz : ℕ
max_sz = 14336

abbrev pub max_psz : ℕ
max_psz = 196608

unfoldable pub pages_of : List ℕ → List ℕ
pages_of [] = []
pages_of (size ∷ sizes) = size / page_size ∷ pages_of sizes

-- `psizeclasses[i].npages`.
unfoldable pub class_npages : ℕ → ℕ
unfolding pages_of
class_npages i = get_or (pages_of psize_classes) i 0

-- `sizeclasses[i].bitsize`.
unfoldable pub class_bitsize : ℕ → ℕ
class_bitsize i = get_or (0 ∷ size_classes) i 0

abbrev pub Table : Type 0
Table = ℕ → ℕ

-- `while (lookupIdx <= limit) { table[lookupIdx] = sc_idx; ++lookupIdx; }`, with the index and the
-- table that it leaves.
unfoldable pub fill_while : ℕ → (limit sc_idx lookup_idx : ℕ) → Table → ℕ × Table
fill_while zero limit sc_idx lookup_idx table = (lookup_idx, table)
fill_while (suc fuel) limit sc_idx lookup_idx table =
    let rest =
      fill_while fuel limit sc_idx (lookup_idx + 1)
        (λ s. if s == lookup_idx then sc_idx else table s) in
    if leb lookup_idx limit then rest else (lookup_idx, table)

-- The two `for` loops of `sizeclass_boot` that fill a lookup table, from class `sc_idx` on.
unfoldable pub boot_lookup : ℕ → List ℕ → ℕ → Table → Table
boot_lookup sc_idx [] lookup_idx table = table
boot_lookup sc_idx (limit ∷ limits) lookup_idx table =
    let filled = fill_while (limit + 1) limit sc_idx lookup_idx table in
    boot_lookup (sc_idx + 1) limits filled.0 filled.1

pub sizeclass_lookup : Table
sizeclass_lookup = boot_lookup 1 size_classes 0 (λ _. 0)

pub psizeclass_lookup : Table
psizeclass_lookup = boot_lookup 0 (pages_of psize_classes) 0 (λ _. 0)

-- `get_sizeclass_id_by_size` (and `get_sizeclass`): a read of the table.
pub get_sizeclass_id_by_size : ℕ → ℕ
get_sizeclass_id_by_size size = sizeclass_lookup size

pub get_psizeclass : ℕ → ℕ
get_psizeclass npages = psizeclass_lookup npages

-- `roundUp` of pmalloc_internal_types.h.
unfoldable pub round_up : ℕ → ℕ → ℕ
round_up n multiple =
    if multiple == 0
    then n
    else (let remainder = n % multiple in if remainder == 0 then n else n + multiple - remainder)

abbrev pub slab_size : ℕ
slab_size = 65536

-- `sizeof(slab_t)`: two 20-byte `sizeclass_t`, a time stamp and a byte, with their padding.
abbrev pub sizeof_slab : ℕ
sizeof_slab = 56

-- `get_meta_size`: bytes of persistent bitmap, a multiple of CACHELINE_SIZE * NBANKS.
unfoldable pub get_meta_size : ℕ → ℕ
unfolding round_up
get_meta_size nbits = round_up ((nbits + 7) / 8) (64 * 6)

pub record SizeClass : Type 0 where
  pub moffset : ℕ
  pub roffset : ℕ
  pub nbits : ℕ
  pub n_bitmaps : ℕ
  pub bitsize : ℕ
  pub toffset : ℕ

-- `for (;; nbits--) { ... if (total_size <= SLAB_SIZE) break; }`. `none`: no count fits, and the
-- loop goes below 0.
fit_nbits : (total : ℕ → ℕ) → ℕ → Option ℕ
fit_nbits total zero = if leb (total 0) slab_size then some 0 else none
fit_nbits total (suc nbits) =
    let rest = fit_nbits total nbits in
    if leb (total (suc nbits)) slab_size then some (suc nbits) else rest

unfoldable pub head_size : ℕ
unfolding round_up
head_size = round_up sizeof_slab 64

unfoldable pub boot_total : ℕ → ℕ → ℕ
unfolding head_size
boot_total bitsize nbits = nbits * bitsize + head_size + get_meta_size nbits

-- What `sizeclass_boot` stores for a class of `bitsize` bytes, which has 16 bits; `n_bitmaps` has 8.
-- `none` is the division by 0.
unfoldable pub boot_layout : ℕ → Option SizeClass
unfolding head_size boot_total fit_nbits
boot_layout bitsize = elim (bitsize == 0) [
  | true ↦ none
  | false ↦ elim (fit_nbits (boot_total bitsize) (slab_size / bitsize + 1)) [
    | none ↦ none
    | some nbits ↦ some (record {
      moffset = head_size;
      roffset = head_size + get_meta_size nbits;
      nbits = nbits;
      n_bitmaps = (nbits + 63) / 64 % 2 ^ 8;
      bitsize = bitsize;
      toffset = 0;
    })
  ]
]

-- The largest `get_meta_size(nbits + 1)` over the classes, kept in the global `meta_size`.
meta_size_loop : List ℕ → ℕ → ℕ
meta_size_loop [] meta_size = meta_size
meta_size_loop (bitsize ∷ rest) meta_size = elim (boot_layout bitsize) [
  | none ↦ meta_size
  | some sc ↦ meta_size_loop rest (max meta_size (get_meta_size (sc.nbits + 1)))
]

unfoldable pub meta_size : ℕ
unfolding meta_size_loop boot_layout get_meta_size
meta_size = meta_size_loop size_classes 0

unfoldable pub reset_total : ℕ → ℕ → ℕ → ℕ → ℕ
unfolding head_size
reset_total bitsize meta table nbits = nbits * bitsize + head_size + meta + table

-- `sizeclass_reset`: the layout of a slab that keeps a table of `table_size` bytes of old blocks.
-- `meta` is the global `meta_size`.
unfoldable pub sizeclass_reset : ℕ → SizeClass → ℕ → Option SizeClass
unfolding head_size reset_total fit_nbits
sizeclass_reset meta sc table_size = elim (sc.bitsize == 0) [
  | true ↦ none
  | false ↦ elim (fit_nbits (reset_total sc.bitsize meta table_size) (slab_size / sc.bitsize + 1)) [
    | none ↦ none
    | some nbits ↦ some (record sc {
      nbits = nbits;
      toffset = sc.moffset + meta;
      roffset = sc.moffset + meta + table_size;
      n_bitmaps = (nbits + 63) / 64 % 2 ^ 8;
    })
  ]
]
