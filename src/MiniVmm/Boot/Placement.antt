-- ===== src/MiniVmm/Boot/Placement.antt =====
-- Where minivmm puts the kernel and the initrd.
use virtualization_learning.Base.{
  ℕ, ◌+◌, ◌-◌, ◌*◌, ◌/◌, ◌%◌, ◌^◌, ◌≤◌, ◌<◌, bit_and, ◌≡◌, refl, ap, ◌∙◌, ◌≢◌, ◌⊎◌, inl, inr, true,
  false, not, ◌||◌, arith, ltb, leb, ◌==◌, ltb→lt, leb→le, Bool-cases, if-intro, if-cases, length,
  u64, not64, bit_and_mask, bit_and_shifted,
}
use virtualization_learning.MiniVmm.Boot.{
  BootError, BootResult, loaded, died, too_small, setup_out_of_bounds, bad_magic, too_old, no_room,
  long_cmdline, initrd_overlap, Image, Boot, load16, load32_at, cmdline_max, setup_len,
  place_initrd, place_cmdline, place_kernel, load_bzimage,
}

-- An initrd that fits guest memory lies in it, on a page boundary, above the kernel; a larger one
-- is copied beyond the end of guest memory.
abbrev pub Placed : ℕ → Boot → Type 0
Placed mem_size b =
    ((b.initrd_size ≤ mem_size)
      × (b.kernel_gpa + b.kernel_size ≤ b.initrd_gpa)
      × (b.initrd_gpa + b.initrd_size ≤ mem_size)
      × (b.initrd_gpa % 4096 ≡ 0))
    ⊎ ((mem_size < b.initrd_size) × (mem_size < b.initrd_gpa + b.initrd_size))

-- The address that the code computes for the initrd.
abbrev pub initrd_address : ℕ → ℕ → ℕ
initrd_address mem_size isize = bit_and (u64 (mem_size + 2 ^ 64 - isize)) (not64 0xfff)

-- Why the load ends the program
abbrev pub Refused : ℕ → ℕ → Image → ℕ → BootError → Type 0
Refused mem_size isize image cl_len too_small = length image.bytes < 0x204
Refused mem_size isize image cl_len setup_out_of_bounds = length image.bytes ≤ setup_len image.bytes
Refused mem_size isize image cl_len bad_magic = load32_at image.bytes 0x202 ≢ 0x53726448
Refused mem_size isize image cl_len too_old = load16 image.bytes 0x206 < 0x0200
Refused mem_size isize image cl_len no_room =
    mem_size < 0x100000 + (length image.bytes - setup_len image.bytes)
Refused mem_size isize image cl_len long_cmdline = cmdline_max < cl_len
Refused mem_size isize image cl_len initrd_overlap =
    (initrd_address mem_size isize ≤ 0x100000 + image.init_size)
    ⊎ (initrd_address mem_size isize ≤ image.pref_address + image.init_size)

abbrev pub PlacedIf : ℕ → ℕ → Image → ℕ → BootResult Boot → Type 0
PlacedIf mem_size isize image cl_len (loaded b) = Placed mem_size b
PlacedIf mem_size isize image cl_len (died e) = Refused mem_size isize image cl_len e

page_floor : (x : ℕ) → x < 2 ^ 64 → bit_and x (not64 0xfff) ≡ x / 4096 * 4096
page_floor x h =
    bit_and_shifted 12 x (2 ^ 52 - 1)
    ∙ ap (λ y. y * 2 ^ 12) (bit_and_mask 52 (x / 2 ^ 12) ∙ omega (arith, h))

-- The sizes that a host can give, and what the boot protocol says of `init_size`: the
-- protected-mode code lies in it, and it does not wrap.
pub record IsSane (mem_size isize : ℕ) (image : Image) : Type 0 where
  pub mem_bound : mem_size < 2 ^ 63
  pub initrd_bound : isize < 2 ^ 63
  pub payload : length image.bytes - setup_len image.bytes ≤ image.init_size
  pub init_bound : image.init_size < 2 ^ 32
  pub no_wrap : image.pref_address + image.init_size < 2 ^ 64

lt_of_not_leb : (a b : ℕ) → leb a b ≡ false → b < a
lt_of_not_leb a b h = ground arith

-- The arithmetic of the initrd's address.
top_page :
    (mem_size isize : ℕ)
    → mem_size < 2 ^ 63
    → isize < 2 ^ 63
    → isize ≤ mem_size
    → bit_and (u64 (mem_size + 2 ^ 64 - isize)) (not64 0xfff) ≡ (mem_size - isize) / 4096 * 4096
top_page mem_size isize hm hi h =
    page_floor (u64 (mem_size + 2 ^ 64 - isize)) (omega arith)
    ∙ ap (λ x. x / 4096 * 4096) (omega (arith, hm, hi, h))

wrapped_page :
    (mem_size isize : ℕ)
    → mem_size < 2 ^ 63
    → isize < 2 ^ 63
    → mem_size < isize
    → mem_size < bit_and (u64 (mem_size + 2 ^ 64 - isize)) (not64 0xfff) + isize
wrapped_page mem_size isize hm hi h =
    omega (arith, page_floor (u64 (mem_size + 2 ^ 64 - isize)) (omega arith), hm, hi, h)

-- Where the kernel may lie
abbrev IsChosen : ℕ → Image → Type 0
IsChosen load_addr image = (load_addr ≡ 0x100000) ⊎ (load_addr ≡ image.pref_address)

no_wrap_at :
    (mem_size isize : ℕ) (image : Image) (load_addr : ℕ)
    → IsSane mem_size isize image
    → IsChosen load_addr image
    → load_addr + image.init_size < 2 ^ 64
no_wrap_at mem_size isize image load_addr s (inl e) = omega (arith, e, s.init_bound)
no_wrap_at mem_size isize image load_addr s (inr e) = omega (arith, e, s.no_wrap)

overlapping :
    (gpa load_addr : ℕ) (image : Image)
    → gpa ≤ load_addr + image.init_size
    → IsChosen load_addr image
    → (gpa ≤ 0x100000 + image.init_size) ⊎ (gpa ≤ image.pref_address + image.init_size)
overlapping gpa load_addr image h (inl e) = inl (omega (arith, e, h))
overlapping gpa load_addr image h (inr e) = inr (omega (arith, e, h))

place_initrd-Placed :
    (mem_size isize : ℕ) (image : Image) (version load_addr cl_len : ℕ)
    → IsSane mem_size isize image
    → IsChosen load_addr image
    → PlacedIf mem_size isize image cl_len
        (place_initrd mem_size image version load_addr cl_len isize)
unfolding place_initrd
place_initrd-Placed mem_size isize image version load_addr cl_len s h =
    let wraps = no_wrap_at mem_size isize image load_addr s h in
    if-cases (PlacedIf mem_size isize image cl_len) (leb gpa (u64 (load_addr + image.init_size)))
      (died BootError.initrd_overlap) _
      (λ below. overlapping gpa load_addr image (ground (arith, below, wraps)) h)
      (λ above. by_size (Bool-cases (leb isize mem_size)) (ground (arith, above, wraps)))
  where
    gpa : ℕ
    gpa = initrd_address mem_size isize

    kernel_size : ℕ
    kernel_size = length image.bytes - setup_len image.bytes

    by_size :
        (leb isize mem_size ≡ true) ⊎ (leb isize mem_size ≡ false)
        → load_addr + image.init_size < gpa
        → ((isize ≤ mem_size)
            × (load_addr + kernel_size ≤ gpa)
            × (gpa + isize ≤ mem_size)
            × (gpa % 4096 ≡ 0))
          ⊎ ((mem_size < isize) × (mem_size < gpa + isize))
    by_size (inl fits) above =
        let le = leb→le isize mem_size fits in
        let top = top_page mem_size isize s.mem_bound s.initrd_bound le in
        inl (le, omega (arith, above, s.payload), omega (arith, top, le), omega (arith, top))
    by_size (inr large) above =
        let lt = lt_of_not_leb isize mem_size large in
        inr (lt, wrapped_page mem_size isize s.mem_bound s.initrd_bound lt)

place_cmdline-Placed :
    (mem_size isize : ℕ) (image : Image) (version load_addr cl_len : ℕ)
    → IsSane mem_size isize image
    → IsChosen load_addr image
    → PlacedIf mem_size isize image cl_len
        (place_cmdline mem_size image version load_addr cl_len isize)
unfolding place_cmdline
place_cmdline-Placed mem_size isize image version load_addr cl_len s h =
    if-cases (PlacedIf mem_size isize image cl_len) (ltb cmdline_max cl_len)
      (died BootError.long_cmdline) _ (λ long. ltb→lt cmdline_max cl_len long)
      (λ fits. place_initrd-Placed mem_size isize image version load_addr cl_len s h)

place_kernel-Placed :
    (mem_size isize : ℕ) (image : Image) (version cl_len : ℕ)
    → IsSane mem_size isize image
    → PlacedIf mem_size isize image cl_len (place_kernel mem_size image version cl_len isize)
unfolding place_kernel
place_kernel-Placed mem_size isize image version cl_len s =
    if-intro P
      (ltb version 0x020a
        || (image.pref_address == 0 || ltb mem_size (u64 (image.pref_address + image.init_size))))
      (if-cases P (ltb mem_size (u64 (0x100000 + (length image.bytes - setup_len image.bytes))))
        (died BootError.no_room) _ (λ large. ground (arith, large, s.payload, s.init_bound))
        (λ fits. place_cmdline-Placed mem_size isize image version 0x100000 cl_len s (inl refl)))
      (place_cmdline-Placed mem_size isize image version image.pref_address cl_len s (inr refl))
  where
    P : BootResult Boot → Type 0
    P = PlacedIf mem_size isize image cl_len

-- For sizes below 2^63, and an image whose `init_size` holds its protected-mode code and does not
-- wrap above its preferred address: the load ends the program for the reason that it names, or
-- the initrd fits guest memory and lies in it, on a page boundary and above the kernel, or the
-- initrd is larger than guest memory and is copied beyond its end.
pub load_bzimage-Placed :
    (mem_size isize : ℕ) (image : Image) (cl_len : ℕ)
    → IsSane mem_size isize image
    → PlacedIf mem_size isize image cl_len (load_bzimage mem_size image cl_len isize)
unfolding load_bzimage
load_bzimage-Placed mem_size isize image cl_len s =
    let ksize = length image.bytes in
    let version = load16 image.bytes 0x206 in
    if-cases P (ltb ksize (0x202 + 2)) (died BootError.too_small) _ (λ h. ltb→lt ksize 0x204 h)
      (λ _.
        if-cases P (leb ksize (setup_len image.bytes)) (died BootError.setup_out_of_bounds) _
          (λ h. leb→le ksize (setup_len image.bytes) h)
          (λ _.
            if-cases P (not (load32_at image.bytes 0x202 == 0x53726448)) (died BootError.bad_magic)
              _ (λ h e. ground (arith, h, e))
              (λ _.
                if-cases P (ltb version 0x0200) (died BootError.too_old) _
                  (λ h. ltb→lt version 0x0200 h)
                  (λ _. place_kernel-Placed mem_size isize image version cl_len s))))
  where
    P : BootResult Boot → Type 0
    P = PlacedIf mem_size isize image cl_len
