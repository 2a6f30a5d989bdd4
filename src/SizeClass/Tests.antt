-- ===== src/SizeClass/Tests.antt =====
-- Runs of the size classes.
use pmalloc.Prelude.{ℕ, ◌+◌, ◌/◌, ◌≤◌, ◌<◌, ◌≡◌, some, arith}
use pmalloc.SizeClass.{
  SizeClass, slab_size, boot_total, boot_layout, class_bitsize, get_sizeclass_id_by_size,
}
use pmalloc.SizeClass.Layout.{IsLayout, IsLargest, boot_layout-IsLayout}
use pmalloc.SizeClass.Pages.{get_sizeclass_smallest}

boot_layout-IsLayout_example :
    (sc : SizeClass) × (boot_layout 64 ≡ some sc)
    × IsLayout 64 sc
    × IsLargest (boot_total 64) (slab_size / 64 + 1) sc.nbits
boot_layout-IsLayout_example = boot_layout-IsLayout 64 (omega arith) (omega arith)

abbrev class_64 : SizeClass
class_64 = record {
  moffset = 64;
  roffset = 448;
  nbits = 1017;
  n_bitmaps = 16;
  bitsize = 64;
  toffset = 0;
}

get_sizeclass_smallest_example :
    let i = get_sizeclass_id_by_size 100 in
    (1 ≤ i) × (i < 40) × (100 ≤ class_bitsize i) × ((j : ℕ) → 1 ≤ j → j < i → class_bitsize j < 100)
get_sizeclass_smallest_example = get_sizeclass_smallest 100 (omega arith)
