-- ===== src/MiniVmm/Pci/Passthrough/Layout.antt =====
-- What no access of the guest to a BAR (handle_pt_mmio of minivmm.c) changes.
use virtualization_learning.Base.{
  ℕ, suc, ◌+◌, ◌-◌, ◌/◌, ◌%◌, bit_or, ◌≡◌, refl, sym, ◌∙◌, subst, Bool, not, ◌&&◌, ◌||◌, Option,
  none, some, List, [], ◌∷◌, ltb, leb, ◌==◌, if◌then◌else◌, if-intro, length, set, get_or, take,
  drop, u32, ◌<<<◌, length-set,
}
use virtualization_learning.MiniVmm.Virtio.Mmio.{MmioExit}
use virtualization_learning.MiniVmm.Pci.{Vfio}
use virtualization_learning.MiniVmm.Pci.Routes.{update_routes}
use virtualization_learning.MiniVmm.Pci.Passthrough.{
  Host, Passthrough, put_bytes, memcpy_to, memcpy_from, device_access, count_notify, vector_bytes,
  store_vectors, then_access, handle_bar0_legacy, forward_ctrl, give_routes, table_written,
  write_table, read_table, table_access, find_mmio, in_table, taken, found_access, handle_pt_mmio,
}
use virtualization_learning.MiniVmm.Pci.Passthrough.Synced.{state_after, left_by, forward_ctrl-vf}

-- Only the shadow of the MSI-X table differs, and it is as long as before.
pub record SameVf (vf vf' : Vfio) : Type 0 where
  pub rest : vf' ≡ record vf { msix_shadow = vf'.msix_shadow }
  pub table : length vf'.msix_shadow ≡ length vf.msix_shadow

SameVf-refl : (vf : Vfio) → SameVf vf vf
SameVf-refl vf = record { rest = refl; table = refl }

length-put_bytes : (bs xs : List ℕ) (at : ℕ) → length (put_bytes xs at bs) ≡ length xs
unfolding put_bytes
length-put_bytes [] xs at = refl
length-put_bytes (b ∷ bs) xs at = length-put_bytes bs (set xs at b) (suc at) ∙ length-set xs at b

table_written-vf :
    (host : Host) (pos len : ℕ) (d : Passthrough) → (table_written host pos len d).vf ≡ d.vf
unfolding table_written give_routes
table_written-vf host pos len d =
    if-intro (λ (x : Passthrough). x.vf ≡ d.vf) (d1.vf.msix_routing_done && ltb (pos % 16) 12)
      {x = give_routes host d1} {y = d1}
      (if-intro (λ (x : Passthrough). x.vf ≡ d.vf) host.routing_works
        {x = record d1 { routes = update_routes d1.vf }} same same)
      same
  where
    ctrl : Bool
    ctrl = leb 12 (pos % 16) || ltb 12 (pos % 16 + len)

    d1 : Passthrough
    d1 = if ctrl then forward_ctrl host (pos / 16) d else d

    same : d1.vf ≡ d.vf
    same = if-intro (λ (x : Passthrough). x.vf ≡ d.vf) ctrl (forward_ctrl-vf host (pos / 16) d) refl

module _ (host : Host) (run : MmioExit) (d : Passthrough) where
  Kept : Option (List ℕ × Passthrough) → Type 0
  Kept o = SameVf d.vf (state_after d o).vf

  table_access-SameVf : (pos : ℕ) → Kept (table_access host pos run d)
  unfolding Kept table_access memcpy_to memcpy_from write_table read_table
  table_access-SameVf pos =
      let shadow' = put_bytes d.vf.msix_shadow pos (take run.len run.bytes) in
      let d0 : Passthrough = record d { vf = record (d.vf) { msix_shadow = shadow' } } in
      let new : SameVf d.vf d0.vf = record {
        rest = refl;
        table = length-put_bytes (take run.len run.bytes) d.vf.msix_shadow pos;
      } in
      if-intro Kept run.is_write
        {x = write_table host pos run d (memcpy_to d.vf.msix_shadow pos run.len run.bytes)}
        {y = read_table run d (memcpy_from d.vf.msix_shadow pos run.len)}
        (if-intro (λ o. Kept (write_table host pos run d o))
          (leb (pos + run.len) (length d.vf.msix_shadow)) {x = some shadow'} {y = none}
          (subst (SameVf d.vf) (sym (table_written-vf host pos run.len d0)) new) (SameVf-refl d.vf))
        (if-intro (λ o. Kept (read_table run d o)) (leb (pos + run.len) (length d.vf.msix_shadow))
          {x = some (take run.len (drop pos d.vf.msix_shadow))} {y = none} (SameVf-refl d.vf)
          (SameVf-refl d.vf))

  -- An access that leaves the device's part of the state: the registers of BAR 0 and the device.
  accessed-SameVf :
      (b off : ℕ) (d1 : Passthrough)
      → d1.vf ≡ d.vf
      → SameVf d.vf (device_access host b off run d1).1.vf
  unfolding device_access
  accessed-SameVf b off d1 e =
      let same = subst (SameVf d.vf) (sym e) (SameVf-refl d.vf) in
      if-intro (λ (r : List ℕ × Passthrough). SameVf d.vf r.1.vf) run.is_write same same

  bar0-SameVf : (off : ℕ) → Kept (handle_bar0_legacy host off run d)
  unfolding Kept handle_bar0_legacy count_notify
  bar0-SameVf off =
      if-intro Q (off == 0x10 && run.is_write) (split (count_notify run d) refl) (split d refl)
    where
      Q : Passthrough → Type 0
      Q d1 = Kept (
          then_access host off run (
            if leb 0x14 off && (ltb off 0x18 && run.is_write)
            then store_vectors d1 (memcpy_to (vector_bytes d1) (off - 0x14) run.len run.bytes)
            else some d1))

      stored :
          (d1 : Passthrough) (o : Option (List ℕ))
          → d1.vf ≡ d.vf
          → Kept (then_access host off run (store_vectors d1 o))
      stored d1 none e = SameVf-refl d.vf
      stored d1 (some regs) e =
          accessed-SameVf 0 off
            (record d1 {
              msix_cfg_vec = bit_or (get_or regs 0 0) (get_or regs 1 0 <<< 8);
              msix_q_vec = bit_or (get_or regs 2 0) (get_or regs 3 0 <<< 8);
            })
            e

      split : (d1 : Passthrough) → d1.vf ≡ d.vf → Q d1
      split d1 e =
          if-intro (λ o. Kept (then_access host off run o))
            (leb 0x14 off && (ltb off 0x18 && run.is_write)) {y = some d1}
            (stored d1 (memcpy_to (vector_bytes d1) (off - 0x14) run.len run.bytes) e)
            (accessed-SameVf 0 off d1 e)

  pub handle_pt_mmio-SameVf : SameVf d.vf (left_by d (handle_pt_mmio host run d)).vf
  unfolding Kept handle_pt_mmio found_access
  handle_pt_mmio-SameVf =
      if-intro (λ o. SameVf d.vf (left_by d o).vf) (not d.vf.ready) (SameVf-refl d.vf)
        (found (find_mmio run.phys_addr d.vf.bar_val d.vf.bar_size 0))
    where
      passed : (o : Option (List ℕ × Passthrough)) → Kept o → SameVf d.vf (left_by d (taken o)).vf
      passed none k = k
      passed (some r) k = k

      found : (o : Option (ℕ × ℕ)) → SameVf d.vf (left_by d (found_access host run d o)).vf
      found none = SameVf-refl d.vf
      found (some (b, off)) =
          passed
            (if b == 0
              then handle_bar0_legacy host off run d
              else if in_table b off run d
              then table_access host (u32 (off - d.msix_table_off)) run d
              else some (device_access host b off run d))
            (if-intro Kept (b == 0) (bar0-SameVf off) (
              if-intro Kept (in_table b off run d) {y = some (device_access host b off run d)}
                (table_access-SameVf (u32 (off - d.msix_table_off)))
                (accessed-SameVf b off d refl)))
