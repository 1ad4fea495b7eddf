-- ===== src/Fat16/Geometry.antt =====
-- kernel/fat16.c: what a mounted volume promises about the layout on the device.
use un_orion.Common.{
  ℕ, ◌+◌, ◌-◌, ◌*◌, ◌/◌, ◌^◌, ◌≤◌, ◌<◌, ◌≡◌, ◌↔◌, refl, Bool, true, false, not, Bytes, arith,
  holds_below, holds_below-at, iff_bool, iff_bool_sound, ◌==◌, ◌||◌, ◌&&◌, ltb,
}
use un_orion.Block.{Blockdev}
use un_orion.Fat16.{
  Bpb, Fat16, read_le16, read_le32, is_power_of_two_u8, read_bpb, root_dir_sectors,
  overhead_sectors, cluster_count, bpb_refused, mounted,
}

-- The values a boot sector can hold: machine words.
pub record IsLoaded (b : Bpb) : Type 0 where
  pub bytes_per_sector : b.bytes_per_sector < 2 ^ 16
  pub sectors_per_cluster : b.sectors_per_cluster < 2 ^ 8
  pub reserved_sectors : b.reserved_sectors < 2 ^ 16
  pub fat_count : b.fat_count < 2 ^ 8
  pub root_entry_count : b.root_entry_count < 2 ^ 16
  pub sectors_per_fat : b.sectors_per_fat < 2 ^ 16
  pub total_sectors : b.total_sectors < 2 ^ 32

pub read_bpb-IsLoaded : (boot : Bytes) → IsLoaded (read_bpb boot)
unfolding read_bpb read_le16 read_le32
read_bpb-IsLoaded boot = ground arith

-- The root directory's sectors, without wrap-around: the least number that holds the entries.
root_dir_sectors-exact :
    (b : Bpb)
    → IsLoaded b
    → b.bytes_per_sector ≡ 512
    → root_dir_sectors b ≡ (b.root_entry_count * 32 + 511) / 512
unfolding root_dir_sectors
root_dir_sectors-exact b l e = rw e (omega arith)

fats-lt : (b : Bpb) → IsLoaded b → b.fat_count * b.sectors_per_fat < 2 ^ 24
fats-lt b l = grind arith

-- What a boot sector must say, in unbounded arithmetic: `fat16_mount` accepts nothing else.
abbrev pub root_sectors : Bpb → ℕ
root_sectors b = (b.root_entry_count * 32 + 511) / 512

abbrev pub overhead : Bpb → ℕ
overhead b = b.reserved_sectors + b.fat_count * b.sectors_per_fat + root_sectors b

abbrev pub clusters : Bpb → ℕ
clusters b = (b.total_sectors - overhead b) / b.sectors_per_cluster

abbrev pub is_small_power : ℕ → Bool
is_small_power v = v == 1 || v == 2 || v == 4 || v == 8 || v == 16 || v == 32 || v == 64 || v == 128

pub record IsFat16 (block_count volume_start_lba : ℕ) (b : Bpb) : Type 0 where
  pub sector : b.bytes_per_sector ≡ 512
  pub cluster : is_small_power b.sectors_per_cluster ≡ true
  pub reserved : 0 < b.reserved_sectors
  pub fats : 0 < b.fat_count
  pub entries : 0 < b.root_entry_count
  pub fat_size : 0 < b.sectors_per_fat
  pub room : overhead b < b.total_sectors
  pub least : 4085 ≤ clusters b
  pub most : clusters b < 65525
  pub on_device : volume_start_lba + b.total_sectors ≤ block_count

power_table :
    holds_below (λ v. iff_bool (is_power_of_two_u8 v && not (ltb 128 v)) (is_small_power v)) 256
    ≡ true
unfolding holds_below is_power_of_two_u8
power_table = refl

power-exact : (v : ℕ) → v < 2 ^ 8 → (is_power_of_two_u8 v && not (ltb 128 v)) ≡ is_small_power v
power-exact v h = iff_bool_sound _ _ (holds_below-at _ 256 {v = v} h power_table)

module _ (b : Bpb) (l : IsLoaded b) (sector : b.bytes_per_sector ≡ 512) where
  overhead-exact : overhead_sectors b ≡ overhead b
  unfolding overhead_sectors
  overhead-exact = omega (arith, root_dir_sectors-exact b l sector, fats-lt b l)

  cluster_count-exact : cluster_count b ≡ clusters b
  unfolding cluster_count
  cluster_count-exact = rw overhead-exact (grind arith)

  accepts :
      (block_count volume_start_lba : ℕ)
      → bpb_refused 512 block_count volume_start_lba b ≡ false
      → IsFat16 block_count volume_start_lba b
  unfolding bpb_refused
  accepts block_count volume_start_lba h =
      ground (arith, overhead-exact, cluster_count-exact, power-exact b.sectors_per_cluster)

  accepted :
      (block_count volume_start_lba : ℕ)
      → IsFat16 block_count volume_start_lba b
      → bpb_refused 512 block_count volume_start_lba b ≡ false
  unfolding bpb_refused
  accepted block_count volume_start_lba h =
      ground (arith, overhead-exact, cluster_count-exact, power-exact b.sectors_per_cluster)

refused-sector :
    (block_count volume_start_lba : ℕ) (b : Bpb)
    → bpb_refused 512 block_count volume_start_lba b ≡ false
    → b.bytes_per_sector ≡ 512
unfolding bpb_refused
refused-sector block_count volume_start_lba b h = ground arith

pub bpb_refused_iff :
    (block_count volume_start_lba : ℕ) (b : Bpb)
    → IsLoaded b
    → (bpb_refused 512 block_count volume_start_lba b ≡ false)
      ↔ IsFat16 block_count volume_start_lba b
bpb_refused_iff block_count volume_start_lba b l = (
  λ h. accepts b l (refused-sector _ _ b h) block_count volume_start_lba h,
  λ h. accepted b l h.sector block_count volume_start_lba h,
)

-- Where the parts of a mounted volume lie: one after the other, inside the volume, inside the
-- device, with no sum wrapped, and the root directory just large enough for its entries.
pub record IsLaidOut {S : Type 0} (fs : Fat16 S) : Type 0 where
  pub sector : fs.bytes_per_sector ≡ 512
  pub fat : fs.first_fat_lba ≡ fs.volume_start_lba + fs.reserved_sectors
  pub root : fs.first_root_lba ≡ fs.first_fat_lba + fs.fat_count * fs.sectors_per_fat
  pub contents : fs.first_data_lba ≡ fs.first_root_lba + fs.root_dir_sectors
  pub fits :
      fs.first_data_lba + fs.data_cluster_count * fs.sectors_per_cluster
      ≤ fs.volume_start_lba + fs.total_sectors
  pub holds : fs.root_entry_count * 32 ≤ fs.root_dir_sectors * 512
  pub tight : fs.root_dir_sectors * 512 < fs.root_entry_count * 32 + 512
  pub is_fat16 : (4085 ≤ fs.data_cluster_count) × (fs.data_cluster_count < 65525)

module _ {S : Type 0} (dev : Blockdev S) (start : ℕ) (b : Bpb) where
  clusters_fit :
      IsFat16 dev.block_count start b
      → overhead b + clusters b * b.sectors_per_cluster ≤ b.total_sectors
  clusters_fit h = grind arith

  pub mounted-IsLaidOut :
      dev.block_count < 2 ^ 64
      → IsLoaded b
      → IsFat16 dev.block_count start b
      → IsLaidOut (mounted dev start b)
  unfolding mounted
  mounted-IsLaidOut small l h = ground (
    arith,
    root_dir_sectors-exact b l h.sector,
    cluster_count-exact b l h.sector,
    fats-lt b l,
    clusters_fit h,
  )
