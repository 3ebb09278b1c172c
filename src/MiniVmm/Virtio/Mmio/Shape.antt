-- ===== src/MiniVmm/Virtio/Mmio/Shape.antt =====
-- What no write to the registers of a virtio device (minivmm.c) changes.
use virtualization_learning.Base.{
  ℕ, zero, suc, ◌+◌, ◌-◌, ◌/◌, ◌%◌, bit_and, bit_or, ◌≡◌, refl, ap, ◌∙◌, Bool, true, false, not,
  ◌&&◌, List, [], ◌∷◌, ltb, leb, ◌==◌, nonzero, if-intro, length, set, get_or, u32, ◌<<<◌,
  length-set,
}
use virtualization_learning.MiniVmm.Virtio.{Vq}
use virtualization_learning.MiniVmm.Virtio.Mmio.{
  VirtioDev, vq_zero, selected, lower_irq, load_config, store_config, mmio_read, in_config,
  reset_queues, reset, set_vq, drive_features, write_register, mmio_write, Devices, MmioExit,
  access, handle_virtio_mmio,
}

-- The place of the device, its interrupt, its kind, its features and the sizes of what it has.
pub record SameShape (dev dev' : VirtioDev) : Type 0 where
  pub base : dev'.base ≡ dev.base
  pub gsi : dev'.gsi ≡ dev.gsi
  pub device_id : dev'.device_id ≡ dev.device_id
  pub features : dev'.dev_features ≡ dev.dev_features
  pub nqueues : dev'.nqueues ≡ dev.nqueues
  pub queues : length dev'.vq ≡ length dev.vq
  pub config : length dev'.config ≡ length dev.config
  pub config_len : dev'.config_len ≡ dev.config_len

pub SameShape-refl : (dev : VirtioDev) → SameShape dev dev
SameShape-refl dev = record {
  base = refl;
  gsi = refl;
  device_id = refl;
  features = refl;
  nqueues = refl;
  queues = refl;
  config = refl;
  config_len = refl;
}

pub SameShape-trans : (a b c : VirtioDev) → SameShape a b → SameShape b c → SameShape a c
SameShape-trans a b c p q = record {
  base = q.base ∙ p.base;
  gsi = q.gsi ∙ p.gsi;
  device_id = q.device_id ∙ p.device_id;
  features = q.features ∙ p.features;
  nqueues = q.nqueues ∙ p.nqueues;
  queues = q.queues ∙ p.queues;
  config = q.config ∙ p.config;
  config_len = q.config_len ∙ p.config_len;
}

length-reset_queues : (n : ℕ) (qs : List Vq) → length (reset_queues n qs) ≡ length qs
unfolding reset_queues
length-reset_queues zero qs = refl
length-reset_queues (suc n) [] = refl
length-reset_queues (suc n) (q ∷ qs) = ap suc (length-reset_queues n qs)

length-store_config :
    (config : List ℕ) (at n val : ℕ) → length (store_config config at n val) ≡ length config
unfolding store_config
length-store_config config at zero val = refl
length-store_config config at (suc n) val =
    length-store_config (set config at (val % 256)) (at + 1) n (val / 256)
    ∙ length-set config at (val % 256)

-- A device with other queues, as many as before, and another configuration, as long as before.
reshape :
    (dev : VirtioDev) (qs : List Vq) (config : List ℕ)
    (status int_status drv feat_sel drv_sel queue_sel : ℕ) (line : List Bool)
    → length qs ≡ length dev.vq
    → length config ≡ length dev.config
    → SameShape dev (record dev {
      vq = qs;
      config = config;
      status = status;
      int_status = int_status;
      drv_features = drv;
      dev_feat_sel = feat_sel;
      drv_feat_sel = drv_sel;
      queue_sel = queue_sel;
      irq_line = line;
    })
reshape dev qs config status int_status drv feat_sel drv_sel queue_sel line p q = record {
  base = refl;
  gsi = refl;
  device_id = refl;
  features = refl;
  nqueues = refl;
  queues = p;
  config = q;
  config_len = refl;
}

module _ (dev : VirtioDev) where
  -- Only the registers beside the queues and the configuration change.
  simple :
      (status int_status drv feat_sel drv_sel queue_sel : ℕ) (line : List Bool)
      → SameShape dev (record dev {
        status = status;
        int_status = int_status;
        drv_features = drv;
        dev_feat_sel = feat_sel;
        drv_feat_sel = drv_sel;
        queue_sel = queue_sel;
        irq_line = line;
      })
  simple status int_status drv feat_sel drv_sel queue_sel line =
      reshape dev dev.vq dev.config status int_status drv feat_sel drv_sel queue_sel line refl refl

  with_vq : (vq : Vq) → SameShape dev (set_vq dev vq)
  unfolding set_vq
  with_vq vq =
      reshape dev (set dev.vq (selected dev) vq) dev.config dev.status dev.int_status
        dev.drv_features dev.dev_feat_sel dev.drv_feat_sel dev.queue_sel dev.irq_line
        (length-set dev.vq (selected dev) vq) refl

  with_lower_irq : (n : ℕ) → SameShape dev (lower_irq (record dev { int_status = n }))
  unfolding lower_irq
  with_lower_irq n =
      if-intro (SameShape dev) (not (nonzero n))
        (simple dev.status n dev.drv_features dev.dev_feat_sel dev.drv_feat_sel dev.queue_sel
          (false ∷ dev.irq_line))
        (simple dev.status n dev.drv_features dev.dev_feat_sel dev.drv_feat_sel dev.queue_sel
          dev.irq_line)

  with_drive_features : (val : ℕ) → SameShape dev (drive_features dev val)
  unfolding drive_features
  with_drive_features val =
      if-intro (SameShape dev) (nonzero (bit_and dev.drv_feat_sel 1))
        (simple dev.status dev.int_status (bit_or dev.drv_features (bit_and val 0xffff_ffff <<< 32))
          dev.dev_feat_sel dev.drv_feat_sel dev.queue_sel dev.irq_line)
        (simple dev.status dev.int_status (bit_or dev.drv_features (bit_and val 0xffff_ffff))
          dev.dev_feat_sel dev.drv_feat_sel dev.queue_sel dev.irq_line)

  with_reset : SameShape dev (reset dev)
  unfolding reset
  with_reset =
      reshape dev (reset_queues dev.nqueues dev.vq) dev.config 0 0 dev.drv_features dev.dev_feat_sel
        dev.drv_feat_sel dev.queue_sel (false ∷ dev.irq_line)
        (length-reset_queues dev.nqueues dev.vq) refl

  write_register-SameShape : (off len val : ℕ) → SameShape dev (write_register dev off len val)
  unfolding write_register
  write_register-SameShape off len val =
      let vq = get_or dev.vq (selected dev) vq_zero in
      let st = dev.status in
      let is = dev.int_status in
      let drv = dev.drv_features in
      let fs = dev.dev_feat_sel in
      let ds = dev.drv_feat_sel in
      let qs = dev.queue_sel in
      let line = dev.irq_line in
      let P = SameShape dev in
      if-intro P (off == 0x014) (simple st is drv (u32 val) ds qs line) (
        if-intro P (off == 0x024) (simple st is drv fs (u32 val) qs line) (
          if-intro P (off == 0x020) (with_drive_features val) (
            if-intro P (off == 0x030) (simple st is drv fs ds (u32 val) line) (
              if-intro P (off == 0x038) (with_vq _) (
                if-intro P (off == 0x044) (with_vq _) (
                  if-intro P (off == 0x080) (with_vq _) (
                    if-intro P (off == 0x084) (with_vq _) (
                      if-intro P (off == 0x090) (with_vq _) (
                        if-intro P (off == 0x094) (with_vq _) (
                          if-intro P (off == 0x0a0) (with_vq _) (
                            if-intro P (off == 0x0a4) (with_vq _) (
                              if-intro P (off == 0x064) (with_lower_irq _) (
                                if-intro P (off == 0x070)
                                  (if-intro P (val == 0) with_reset
                                    (simple (u32 val) is drv fs ds qs line))
                                  (if-intro P (in_config dev off len)
                                    (reshape dev dev.vq
                                      (store_config dev.config (off - 0x100) len val) st is drv fs
                                      ds qs line refl
                                      (length-store_config dev.config (off - 0x100) len val))
                                    (SameShape-refl dev)))))))))))))))

module _ {S : Type 0} (service : VirtioDev → ℕ → S → VirtioDev × S)
    (keeps : (dev : VirtioDev) (qi : ℕ) (s : S) → SameShape dev (service dev qi s).0) where
  mmio_write-SameShape :
      (dev : VirtioDev) (off len val : ℕ) (s : S)
      → SameShape dev (mmio_write service dev off len val s).0
  unfolding mmio_write
  mmio_write-SameShape dev off len val s =
      if-intro (λ (r : VirtioDev × S). SameShape dev r.0) (off == 0x050)
        {y = (write_register dev off len val, s)} (keeps dev (bit_and val 0xffff) s)
        (write_register-SameShape dev off len val)

  access-SameShape :
      (dev : VirtioDev) (run : MmioExit) (s : S) → SameShape dev (access service dev run s).1
  unfolding access
  access-SameShape dev run s =
      let off = run.phys_addr - dev.base in
      let val = load_config run.bytes 0 run.len in
      let r = mmio_write service dev off run.len val s in
      if-intro (λ (t : List ℕ × VirtioDev × S). SameShape dev t.1) run.is_write
        {x = (run.bytes, r.0, r.1)}
        {y = (store_config run.bytes 0 run.len (mmio_read dev off run.len), dev, s)}
        (mmio_write-SameShape dev off run.len val s) (SameShape-refl dev)

  -- An access of the guest to the two windows.
  pub handle_virtio_mmio-SameShape :
      (devs : Devices) (run : MmioExit) (s : S)
      → let (taken, bytes, devs', s') = handle_virtio_mmio service devs run s in
        SameShape devs.console devs'.console × SameShape devs.blk devs'.blk
  unfolding handle_virtio_mmio
  handle_virtio_mmio-SameShape devs run s =
      let c = access service devs.console run s in
      let b = access service devs.blk run s in
      if-intro P (leb 0xd0000000 run.phys_addr && ltb run.phys_addr (0xd0000000 + 0x200))
        {x = (true, c.0, record devs { console = c.1 }, c.2)}
        (access-SameShape devs.console run s, SameShape-refl devs.blk)
        (if-intro P (leb 0xd0000200 run.phys_addr && ltb run.phys_addr (0xd0000200 + 0x200))
          {x = (true, b.0, record devs { blk = b.1 }, b.2)} {y = (false, run.bytes, devs, s)}
          (SameShape-refl devs.console, access-SameShape devs.blk run s)
          (SameShape-refl devs.console, SameShape-refl devs.blk))
    where
      P : Bool × List ℕ × Devices × S → Type 0
      P r = SameShape devs.console r.2.console × SameShape devs.blk r.2.blk
