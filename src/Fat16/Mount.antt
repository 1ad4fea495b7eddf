-- ===== src/Fat16/Mount.antt =====
-- kernel/fat16.c: what `fat16_mount` accepts, what it leaves behind, and that it fails cleanly.
use un_orion.Common.{
  ℕ, ◌+◌, ◌^◌, ◌≤◌, ◌<◌, ◌≡◌, ◌↔◌, ◌≢◌, refl, true, false, Option, none, some, pos, minus_one,
  Bytes, arith, [],
}
use un_orion.Block
use un_orion.Block.{Blockdev, validate}
use un_orion.Block.Range.{IsUsable, validate-IsUsable}
use un_orion.Fat16.{Fat16, has_signature, read_bpb, bpb_refused, mounted, mount_boot, mount}
use un_orion.Fat16.Geometry.{
  read_bpb-IsLoaded, IsFat16, bpb_refused_iff, IsLaidOut, mounted-IsLaidOut,
}

-- The boot sector describes a FAT16 volume that lies on the device.
abbrev pub IsBootSector : {S : Type 0} → Blockdev S → ℕ → Bytes → Type 0
IsBootSector dev start boot =
    (has_signature boot ≡ true) × IsFat16 dev.block_count start (read_bpb boot)

module _ {S : Type 0} (dev : Blockdev S) (start : ℕ) where
  mount_boot-refused :
      (out : Fat16 S) (boot : Bytes)
      → dev.block_size ≡ 512
      → (mount_boot dev start out boot).0 ≡ pos 0
      → (has_signature boot ≡ true)
        × (bpb_refused 512 dev.block_count start (read_bpb boot) ≡ false)
        × ((mount_boot dev start out boot).1 ≡ mounted dev start (read_bpb boot))
  unfolding mount_boot
  mount_boot-refused out boot sized h = ground arith

  mount_boot-accepted :
      (out : Fat16 S) (boot : Bytes)
      → dev.block_size ≡ 512
      → has_signature boot ≡ true
      → bpb_refused 512 dev.block_count start (read_bpb boot) ≡ false
      → (mount_boot dev start out boot).0 ≡ pos 0
  unfolding mount_boot
  mount_boot-accepted out boot sized h k = ground arith

module _ {S : Type 0} {dev : Blockdev S} (u : IsUsable dev) (sized : dev.block_size ≡ 512) where
  -- For a usable device with 512-byte blocks whose driver delivers the block `start`, `fat16_mount`
  -- returns 0 exactly when that block is the boot sector of a FAT16 volume that lies on the device.
  pub mount_succeeds_iff :
      (start : ℕ) (out : Fat16 S) (boot0 : Bytes) (s : S) {boot : Bytes} {s' : S}
      → Block.read (some dev) start 1 (some boot0) s ≡ (pos 0, some boot, s')
      → ((mount (some dev) start (some out) boot0 s).0 ≡ pos 0) ↔ IsBootSector dev start boot
  unfolding mount
  mount_succeeds_iff start out boot0 s {boot} e =
      let iff = bpb_refused_iff dev.block_count start (read_bpb boot) (read_bpb-IsLoaded boot) in
      (
        λ h.
            let m : (mount_boot dev start out boot).0 ≡ pos 0 =
              ground (arith, validate-IsUsable dev u) in
            let (signed, ok, _) = mount_boot-refused dev start out boot sized m in
            (signed, iff.0 ok),
        λ h. ground (
          arith,
          validate-IsUsable dev u,
          mount_boot-accepted dev start out boot sized h.0 (iff.1 h.1),
        ),
      )

module _ {S : Type 0} where
  -- A failed `fat16_mount` returns -1 and leaves `*out` as it was, whatever the pointers and the
  -- driver's answer.
  pub mount_fails_cleanly :
      (dev : Option (Blockdev S)) (start : ℕ) (out : Option (Fat16 S)) (boot0 : Bytes) (s : S)
      → (mount dev start out boot0 s).0 ≢ pos 0
      → ((mount dev start out boot0 s).0 ≡ minus_one) × ((mount dev start out boot0 s).1 ≡ out)
  unfolding mount mount_boot
  mount_fails_cleanly none start none boot0 s h = (refl, refl)
  mount_fails_cleanly none start (some out) boot0 s h = (refl, refl)
  mount_fails_cleanly (some dev) start none boot0 s h = (refl, refl)
  mount_fails_cleanly (some dev) start (some out) boot0 s h = ground arith

-- The bytes that a read left in a buffer.
abbrev left_in : Option Bytes → Bytes
left_in none = []
left_in (some boot) = boot

module _ {S : Type 0} (dev : Blockdev S) (start : ℕ) (out : Fat16 S) (boot0 : Bytes) (s : S) where
  mount-mounted :
      {fs : Fat16 S} {s' : S}
      → mount (some dev) start (some out) boot0 s ≡ (pos 0, some fs, s')
      → let boot = left_in (Block.read (some dev) start 1 (some boot0) s).1 in
        (dev.block_size ≡ 512)
        × (bpb_refused 512 dev.block_count start (read_bpb boot) ≡ false)
        × (fs ≡ mounted dev start (read_bpb boot))
  unfolding mount mount_boot
  mount-mounted e = ground arith

  -- On a device with a 64-bit block count, a volume that `fat16_mount` hands out is laid out inside
  -- the device: reserved sectors, FATs, root directory and clusters follow one another within the
  -- volume's sectors, with no sum wrapped, and the root directory just holds its entries.
  pub mount-IsLaidOut :
      {fs : Fat16 S} {s' : S}
      → dev.block_count < 2 ^ 64
      → mount (some dev) start (some out) boot0 s ≡ (pos 0, some fs, s')
      → IsLaidOut fs × (fs.volume_start_lba ≡ start) × (start + fs.total_sectors ≤ dev.block_count)
  mount-IsLaidOut small e =
      let boot = left_in (Block.read (some dev) start 1 (some boot0) s).1 in
      let (_, ok, same) = mount-mounted e in
      let l = read_bpb-IsLoaded boot in
      let h = (bpb_refused_iff dev.block_count start (read_bpb boot) l).0 ok in
      rw same (
        mounted-IsLaidOut dev start (read_bpb boot) small l h,
        unfold mounted in refl,
        unfold mounted in h.on_device,
      )
