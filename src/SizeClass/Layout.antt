-- ===== src/SizeClass/Layout.antt =====
-- The layout of a slab: header, persistent bitmap and blocks fit SLAB_SIZE and do not overlap.
use mathlib.Core.Logic.{inl, inr}
use native.Mathlib.Nat.{mod-lt, div-add-mod', mul-mod_left}
use pmalloc.Prelude.{
  ℕ, zero, suc, ◌+◌, ◌-◌, ◌*◌, ◌/◌, ◌%◌, ◌^◌, ◌≤◌, ◌<◌, ◌≡◌, refl, false, leb, some, arith,
  Bool-cases, leb→le, ==_iff, ◌==◌,
}
use pmalloc.SizeClass.{
  slab_size, sizeof_slab, get_meta_size, round_up, SizeClass, fit_nbits, head_size, boot_total,
  boot_layout, reset_total, sizeclass_reset,
}
use pmalloc.Interleave.{bid_to_mid}

-- `roundUp` gives the least multiple that is not below its argument.
pub round_up_least :
    (n multiple : ℕ)
    → 0 < multiple
    → (round_up n multiple % multiple ≡ 0)
      × (n ≤ round_up n multiple)
      × (round_up n multiple < n + multiple)
unfolding round_up
round_up_least n multiple h = elim (Bool-cases (n % multiple == 0)) [
  | inl whole ↦
      let pos : (multiple == 0) ≡ false = ground arith in
      rw (pos, whole) ((==_iff _ _).0 whole, omega arith, omega arith)
  | inr rest ↦
      let pos : (multiple == 0) ≡ false = ground arith in
      let up : n + multiple - n % multiple ≡ (n / multiple + 1) * multiple =
        omega (arith, div-add-mod' n multiple, mod-lt n h) in
      rw (pos, rest, up)
        (
          mul-mod_left _ _,
          omega (arith, div-add-mod' n multiple, mod-lt n h),
          omega (arith, div-add-mod' n multiple, mod-lt n h, some_rest rest),
        )
]
  where
    some_rest : (n % multiple == 0) ≡ false → 0 < n % multiple
    some_rest e = ground arith

-- The persistent bitmap has room for the bits of `nbits` blocks after interleaving.
pub meta_room : (nbits bid : ℕ) → bid < nbits → bid_to_mid bid / 8 < get_meta_size nbits
unfolding get_meta_size bid_to_mid
meta_room nbits bid h = ground arith

-- What the counting loop finds: the largest count from `start` down whose total fits.
pub record IsLargest (total : ℕ → ℕ) (start n : ℕ) : Type 0 where
  pub from : n ≤ start
  pub fits : total n ≤ slab_size
  pub larger : (m : ℕ) → n < m → m ≤ start → slab_size < total m

fit_nbits-IsLargest :
    (total : ℕ → ℕ) (start n : ℕ) → fit_nbits total start ≡ some n → IsLargest total start n
unfolding fit_nbits
fit_nbits-IsLargest total zero n e = record {
  from = ground arith;
  fits = ground arith;
  larger = λ m p q. absurd (omega arith);
}
fit_nbits-IsLargest total (suc start) n e = elim (Bool-cases (leb (total (suc start)) slab_size)) [
  | inl fits ↦
      let s : n ≡ suc start = ground arith in
      record {
        from = omega arith;
        fits = rw s (leb→le _ _ fits);
        larger = λ m p q. absurd (omega arith);
      }
  | inr not_yet ↦
      let e' : fit_nbits total start ≡ some n = ground arith in
      let l : IsLargest total start n = fit_nbits-IsLargest total start n e' in
      record {
        from = omega (arith, l.from);
        fits = l.fits;
        larger = λ m p q. ground (arith, l.larger m);
      }
]

fit_nbits_total :
    (total : ℕ → ℕ) (start : ℕ) → total 0 ≤ slab_size → (n : ℕ) × (fit_nbits total start ≡ some n)
unfolding fit_nbits
fit_nbits_total total zero h = (0, ground arith)
fit_nbits_total total (suc start) h = elim (Bool-cases (leb (total (suc start)) slab_size)) [
  | inl fits ↦ (suc start, rw fits refl)
  | inr not_yet ↦ let (n, e) = fit_nbits_total total start h in (n, rw not_yet e)
]

block_end : (bid nbits bitsize : ℕ) → bid < nbits → bid * bitsize + bitsize ≤ nbits * bitsize
block_end bid nbits bitsize h = grind arith

-- A layout of a slab: header, then `meta` bytes of bitmap and `table` bytes of table, then blocks.
pub record IsLayout (bitsize : ℕ) (sc : SizeClass) : Type 0 where
  pub header : sizeof_slab ≤ sc.moffset
  pub bitmap : (bid : ℕ) → bid < sc.nbits → sc.moffset + bid_to_mid bid / 8 < sc.roffset
  pub block : (bid : ℕ) → bid < sc.nbits → sc.roffset + bid * bitsize + bitsize ≤ slab_size
  pub words : sc.nbits ≤ 64 * sc.n_bitmaps
  pub size : sc.bitsize ≡ bitsize

eight_times : (n bitsize : ℕ) → 8 ≤ bitsize → n * 8 ≤ n * bitsize
eight_times n bitsize h = grind arith

-- For every block size from 8 bytes to 2 ^ 16 - 1 sizeclass_boot finds a layout in which header,
-- persistent bitmap and blocks fit a slab without overlap, and its number of blocks is the largest
-- that fits.
pub boot_layout-IsLayout :
    (bitsize : ℕ)
    → 8 ≤ bitsize
    → bitsize < 2 ^ 16
    → (sc : SizeClass) × (boot_layout bitsize ≡ some sc)
      × IsLayout bitsize sc
      × IsLargest (boot_total bitsize) (slab_size / bitsize + 1) sc.nbits
unfolding boot_layout
boot_layout-IsLayout bitsize eight bits =
    let (n, e) =
      fit_nbits_total (boot_total bitsize) (slab_size / bitsize + 1)
        (unfold boot_total get_meta_size round_up in omega arith) in
    let l : IsLargest (boot_total bitsize) (slab_size / bitsize + 1) n =
      fit_nbits-IsLargest (boot_total bitsize) (slab_size / bitsize + 1) n e in
    let fits : n * bitsize + 64 + get_meta_size n ≤ slab_size =
      unfold head_size boot_total round_up in l.fits in
    let some_bytes : (bitsize == 0) ≡ false = ground (arith, eight) in
    (
      record {
        moffset = head_size;
        roffset = head_size + get_meta_size n;
        nbits = n;
        n_bitmaps = (n + 63) / 64 % 2 ^ 8;
        bitsize = bitsize;
        toffset = 0;
      },
      rw (some_bytes, e, boot_layout) refl,
      unfold head_size round_up in
          record {
            header = omega arith;
            bitmap = λ bid h. omega (arith, meta_room n bid h);
            block = λ bid h. omega (arith, block_end bid n bitsize h, fits);
            words = omega (arith, eight_times n bitsize eight, fits);
            size = refl;
          },
      l,
    )

-- With at most 65472 bytes of bitmap and table, sizeclass_reset of a class of more than 0 bytes
-- returns: the blocks lie behind the bitmap and the table, and their number is the largest that
-- fits.
pub sizeclass_reset-IsLargest :
    (meta table : ℕ) (sc : SizeClass)
    → 0 < sc.bitsize
    → meta + table ≤ 65472
    → (new : SizeClass) × (sizeclass_reset meta sc table ≡ some new)
      × (new.toffset ≡ sc.moffset + meta)
      × (new.roffset ≡ sc.moffset + meta + table)
      × IsLargest (reset_total sc.bitsize meta table) (slab_size / sc.bitsize + 1) new.nbits
unfolding sizeclass_reset
sizeclass_reset-IsLargest meta table sc pos h =
    let total = reset_total sc.bitsize meta table in
    let start = slab_size / sc.bitsize + 1 in
    let some_bytes : (sc.bitsize == 0) ≡ false = ground (arith, pos) in
    let (n, e) =
      fit_nbits_total total start (unfold reset_total head_size round_up in omega arith) in
    (
      record sc {
        nbits = n;
        toffset = sc.moffset + meta;
        roffset = sc.moffset + meta + table;
        n_bitmaps = (n + 63) / 64 % 2 ^ 8;
      },
      rw (some_bytes, e, sizeclass_reset) refl,
      refl,
      refl,
      fit_nbits-IsLargest total start n e,
    )
