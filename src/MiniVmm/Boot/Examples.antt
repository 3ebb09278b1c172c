-- ===== src/MiniVmm/Boot/Examples.antt =====
-- The theorem about the load of a kernel at a concrete image.
use virtualization_learning.Base.{◌≡◌, refl, some, ◌∷◌, ◌++◌, arith, replicate}
use virtualization_learning.MiniVmm.Boot.{loaded, Image, setup_len, load_bzimage}
use virtualization_learning.MiniVmm.Boot.Placement.{IsSane, PlacedIf, load_bzimage-Placed}

-- One sector of setup, the magic number, version 2.10, and 76 bytes of protected-mode code.
abbrev small_image : Image
small_image = record {
  bytes =
      replicate 0x1f1 0
      ++ 1 ∷ replicate 16 0
      ++ 0x48 ∷ 0x64 ∷ 0x72 ∷ 0x53 ∷ 0x0a ∷ 0x02 ∷ replicate 580 0;
  pref_address = 0x1000000;
  init_size = 0x100000;
}

small_image-IsSane : IsSane 0x10000000 0x12345 small_image
unfolding setup_len
small_image-IsSane = record {
  mem_bound = omega arith;
  initrd_bound = omega arith;
  payload = omega arith;
  init_bound = omega arith;
  no_wrap = omega arith;
}

load_bzimage-Placed_example :
    PlacedIf 0x10000000 0x12345 small_image 10 (load_bzimage 0x10000000 small_image 10 0x12345)
load_bzimage-Placed_example =
    load_bzimage-Placed 0x10000000 0x12345 small_image 10 small_image-IsSane

-- It is loaded: the kernel at its preferred address, and the initrd on the last pages.
placed :
    load_bzimage 0x10000000 small_image 10 0x12345
    ≡ loaded record {
      kernel_gpa = 0x1000000;
      kernel_size = 76;
      initrd_gpa = 0xffed000;
      initrd_size = 0x12345;
      code32_start = 0x1000000;
      ramdisk_image = 0xffed000;
      ramdisk_size = 0x12345;
      cmdline_size = some 9;
      high_memory = 0xff00000;
    }
unfolding load_bzimage
placed = refl
