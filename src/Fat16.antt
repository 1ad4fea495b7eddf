-- ===== src/Fat16.antt =====
-- kernel/fat16.c and include/fat16.h: mounting a FAT16 volume and looking a name up in its root
-- directory. The indeterminate first content of a local array is an argument.
pub mod Geometry
pub mod Mount
pub mod Root
use un_orion.Common.{
  ℕ, zero, suc, ◌+◌, ◌-◌, ◌*◌, ◌/◌, ◌^◌, bit_and, Bool, true, false, not, ◌&&◌, ◌||◌, Option, none,
  some, ℤ, pos, minus_one, Bytes, byte, take, drop, u8, u16, u32, u64, ltb, leb, ◌==◌,
  if◌then◌else◌, is_null, failed,
}
use un_orion.Block
use un_orion.Block.{Blockdev, validate}

-- Little-endian loads; the bits of the bytes do not overlap, so `|` is a sum.
unfoldable pub read_le16 : Bytes → ℕ → ℕ
read_le16 p o = u16 (byte p o + byte p (o + 1) * 2 ^ 8)

unfoldable pub read_le32 : Bytes → ℕ → ℕ
read_le32 p o =
    u32 (byte p o + byte p (o + 1) * 2 ^ 8 + byte p (o + 2) * 2 ^ 16 + byte p (o + 3) * 2 ^ 24)

unfoldable pub is_power_of_two_u8 : ℕ → Bool
is_power_of_two_u8 value = not (value == 0) && bit_and value (u8 (value + 2 ^ 8 - 1)) == 0

abbrev pub boot_size : ℕ
boot_size = 512

-- The fields that `fat16_mount` loads from the boot sector.
pub record Bpb : Type 0 where
  pub bytes_per_sector : ℕ
  pub sectors_per_cluster : ℕ
  pub reserved_sectors : ℕ
  pub fat_count : ℕ
  pub root_entry_count : ℕ
  pub sectors_per_fat : ℕ
  pub total_sectors : ℕ

pub record Fat16 (S : Type 0) : Type 0 where
  pub dev : Option (Blockdev S)
  pub volume_start_lba : ℕ
  pub total_sectors : ℕ
  pub bytes_per_sector : ℕ
  pub sectors_per_cluster : ℕ
  pub reserved_sectors : ℕ
  pub fat_count : ℕ
  pub root_entry_count : ℕ
  pub sectors_per_fat : ℕ
  pub root_dir_sectors : ℕ
  pub data_cluster_count : ℕ
  pub first_fat_lba : ℕ
  pub first_root_lba : ℕ
  pub first_data_lba : ℕ

unfoldable pub has_signature : Bytes → Bool
has_signature boot = byte boot 510 == 0x55 && byte boot 511 == 0xaa

unfoldable pub read_bpb : Bytes → Bpb
read_bpb boot = record {
  bytes_per_sector = read_le16 boot 11;
  sectors_per_cluster = u8 (byte boot 13);
  reserved_sectors = read_le16 boot 14;
  fat_count = u8 (byte boot 16);
  root_entry_count = read_le16 boot 17;
  sectors_per_fat = read_le16 boot 22;
  total_sectors =
      let total_sectors_16 = read_le16 boot 19 in
      if total_sectors_16 == 0 then read_le32 boot 32 else total_sectors_16;
}

-- `root_entry_count * 32u + bytes_per_sector - 1u` wraps at 2 ^ 32.
unfoldable pub root_dir_sectors : Bpb → ℕ
root_dir_sectors b =
    u32 (u32 (u32 (b.root_entry_count * 32) + b.bytes_per_sector) + 2 ^ 32 - 1) / b.bytes_per_sector

unfoldable pub overhead_sectors : Bpb → ℕ
overhead_sectors b =
    u64 (u64 (b.reserved_sectors + u64 (b.fat_count * b.sectors_per_fat)) + root_dir_sectors b)

unfoldable pub cluster_count : Bpb → ℕ
cluster_count b = u32 ((b.total_sectors - overhead_sectors b) / b.sectors_per_cluster)

-- The refusals after the loads, in order; `block_size` and `block_count` are the device's.
unfoldable pub bpb_refused : ℕ → ℕ → ℕ → Bpb → Bool
bpb_refused block_size block_count volume_start_lba b =
    not (b.bytes_per_sector == block_size)
    || (not (is_power_of_two_u8 b.sectors_per_cluster) || ltb 128 b.sectors_per_cluster)
    || (b.reserved_sectors == 0
        || b.fat_count == 0
        || b.root_entry_count == 0
        || b.sectors_per_fat == 0
        || b.total_sectors == 0)
    || leb b.total_sectors (overhead_sectors b)
    || (ltb (cluster_count b) 4085 || leb 65525 (cluster_count b))
    || leb block_count volume_start_lba
    || ltb (block_count - volume_start_lba) b.total_sectors

module _ {S : Type 0} where
  unfoldable pub mounted : Blockdev S → ℕ → Bpb → Fat16 S
  mounted dev volume_start_lba b =
      let first_fat_lba = u64 (volume_start_lba + b.reserved_sectors) in
      let first_root_lba = u64 (first_fat_lba + u64 (b.fat_count * b.sectors_per_fat)) in
      record {
        dev = some dev;
        volume_start_lba = volume_start_lba;
        total_sectors = b.total_sectors;
        bytes_per_sector = b.bytes_per_sector;
        sectors_per_cluster = b.sectors_per_cluster;
        reserved_sectors = b.reserved_sectors;
        fat_count = b.fat_count;
        root_entry_count = b.root_entry_count;
        sectors_per_fat = b.sectors_per_fat;
        root_dir_sectors = root_dir_sectors b;
        data_cluster_count = cluster_count b;
        first_fat_lba = first_fat_lba;
        first_root_lba = first_root_lba;
        first_data_lba = u64 (first_root_lba + root_dir_sectors b);
      }

  -- What follows the read of the boot sector.
  unfoldable pub mount_boot : Blockdev S → ℕ → Fat16 S → Bytes → ℤ × Fat16 S
  mount_boot dev volume_start_lba out boot =
      if not (has_signature boot)
        || bpb_refused dev.block_size dev.block_count volume_start_lba (read_bpb boot)
      then (minus_one, out)
      else (pos 0, mounted dev volume_start_lba (read_bpb boot))

  abbrev mount_read : Blockdev S → ℕ → Fat16 S → ℤ × Option Bytes × S → ℤ × Option (Fat16 S) × S
  mount_read dev volume_start_lba out (rc, none, s) = (minus_one, some out, s)
  mount_read dev volume_start_lba out (rc, some boot, s) =
      if failed rc
      then (minus_one, some out, s)
      else let (rc', out') = mount_boot dev volume_start_lba out boot in (rc', some out', s)

  unfoldable pub mount :
      Option (Blockdev S) → ℕ → Option (Fat16 S) → Bytes → S → ℤ × Option (Fat16 S) × S
  mount (some dev) volume_start_lba (some out) boot s =
      if failed (validate (some dev)) || not (dev.block_size == boot_size)
      then (minus_one, some out, s)
      else mount_read dev volume_start_lba out
          (Block.read (some dev) volume_start_lba 1 (some boot) s)
  mount _ volume_start_lba out boot s = (minus_one, out, s)
