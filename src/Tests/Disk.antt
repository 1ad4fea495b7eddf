-- ===== src/Tests/Disk.antt =====
-- A small FAT16 disk, after tests/fat16_smoke.c, for kernel/blockdev.c and kernel/fat16.c.
use un_orion.Common.{
  ℕ, zero, suc, ◌+◌, ◌≤◌, ◌≡◌, ◌≢◌, ◌⊎◌, ◌↔◌, refl, Option, none, some, ℤ, pos, minus_one, ap,
  Bool-cases, inl, inr, [], ◌∷◌, ◌++◌, Bytes, length, replicate, ◌==◌, if◌then◌else◌, arith,
}
use un_orion.Block
use un_orion.Block.{Blockdev, BlockReadFn, BlockWriteFn}
use un_orion.Block.Range.{IsUsable, in_range, delivered, read_exact, write_exact}
use un_orion.Fat16.{
  Fat16, read_le16, read_le32, has_signature, read_bpb, mount, mount_boot, mounted,
  is_power_of_two_u8, bpb_refused, root_dir_sectors, overhead_sectors, cluster_count,
}
use un_orion.Fat16.Geometry.{IsLaidOut}
use un_orion.Fat16.Mount.{IsBootSector, mount_succeeds_iff, mount_fails_cleanly, mount-IsLaidOut}
use un_orion.Fat16.Root.{
  Dirent, find_root, scan_sectors, scan_entries, read_root_sector, equal_from, name83_equal,
  is_skipped, dirent_of,
}
use un_orion.Fat16.Root.Lookup.{lookup_from}
use un_orion.Fat16.Root.Search.{Serves, IsOn, reply}
use un_orion.Fat16.Root.Find.{
  IsFirst, IsEnd, Bears, find_root-lookup, find_root_sound, find_root_complete,
  find_root_fails_cleanly,
}

-- 512 bytes per sector, 1 sector per cluster, 1 reserved sector, 2 FATs of 20 sectors, 512 root
-- entries, 5000 sectors
abbrev boot : Bytes
boot =
    replicate 11 0
    ++ 0 ∷ 2 ∷ 1 ∷ 1 ∷ 0 ∷ 2 ∷ 0 ∷ 2 ∷ 0x88 ∷ 0x13 ∷ 0xf8 ∷ 20 ∷ 0 ∷ replicate 486 0
    ++ 0x55 ∷ 0xaa ∷ []

abbrev notes : Bytes
notes = 78 ∷ 79 ∷ 84 ∷ 69 ∷ 83 ∷ 32 ∷ 32 ∷ 32 ∷ 84 ∷ 88 ∷ 84 ∷ []

abbrev absent : Bytes
absent = 77 ∷ 73 ∷ 83 ∷ 83 ∷ 73 ∷ 78 ∷ 71 ∷ 32 ∷ 84 ∷ 88 ∷ 84 ∷ []

-- a deleted entry, NOTES.TXT at cluster 2 with 5 bytes, the end
abbrev root_sector : Bytes
root_sector =
    replicate 32 0xe5 ++ notes ++ 0x20 ∷ replicate 14 0 ++ 2 ∷ 0 ∷ 5 ∷ 0 ∷ 0 ∷ 0 ∷ replicate 448 0

abbrev disk : ℕ → Bytes
disk lba = if lba == 1 then boot else if lba == 42 then root_sector else replicate 512 0

abbrev reader : BlockReadFn Unit
reader lba count buffer s = (pos 0, disk lba, s)

abbrev writer : BlockWriteFn Unit
writer lba count buffer s = (pos 0, s)

abbrev dev : Blockdev Unit
dev = record {
  name = some (109 ∷ []);
  block_size = 512;
  block_count = 5001;
  read = some reader;
  write = some writer;
}

abbrev usable : IsUsable dev
usable = record {
  label = 109 ∷ [];
  named = refl;
  sized = omega arith;
  populated = omega arith;
  reader = reader;
  readable = refl;
}

abbrev volume : Fat16 Unit
volume = record {
  dev = some dev;
  volume_start_lba = 1;
  total_sectors = 5000;
  bytes_per_sector = 512;
  sectors_per_cluster = 1;
  reserved_sectors = 1;
  fat_count = 2;
  root_entry_count = 512;
  sectors_per_fat = 20;
  root_dir_sectors = 32;
  data_cluster_count = 4927;
  first_fat_lba = 2;
  first_root_lba = 42;
  first_data_lba = 74;
}

abbrev blank : Fat16 Unit
blank = record volume { dev = none; volume_start_lba = 0; total_sectors = 0 }

abbrev empty_dirent : Dirent
empty_dirent = record { name = []; attributes = 0; first_cluster = 0; size = 0 }

abbrev notes_dirent : Dirent
notes_dirent = record { name = notes; attributes = 0x20; first_cluster = 2; size = 5 }

length-boot : length boot ≡ 512
length-boot = refl

read_exact_example :
    Block.read (some dev) 5000 2 (some []) tt
    ≡ (if in_range dev 5000 2 then delivered (reader 5000 2 [] tt) else (minus_one, some [], tt))
read_exact_example = read_exact usable 5000 2 [] tt

write_exact_example :
    Block.write (some dev) 5000 1 (some []) tt
    ≡ (if in_range dev 5000 1 then writer 5000 1 [] tt else (minus_one, tt))
write_exact_example = write_exact usable 5000 1 writer [] tt refl

read_boot : Block.read (some dev) 1 1 (some []) tt ≡ (pos 0, some boot, tt)
unfolding Block.read Block.validate Block.range_valid
read_boot = refl

mount-volume : mount (some dev) 1 (some blank) [] tt ≡ (pos 0, some volume, tt)
unfolding mount mount_boot mounted has_signature read_bpb read_le16 read_le32 bpb_refused
    is_power_of_two_u8 root_dir_sectors overhead_sectors cluster_count Block.read Block.validate
    Block.range_valid
mount-volume = refl

mount_empty : mount (some dev) 7 (some blank) [] tt ≡ (minus_one, some blank, tt)
unfolding mount mount_boot has_signature Block.read Block.validate Block.range_valid
mount_empty = refl

mount_succeeds_iff_example :
    ((mount (some dev) 1 (some blank) [] tt).0 ≡ pos 0) ↔ IsBootSector dev 1 boot
mount_succeeds_iff_example = mount_succeeds_iff usable refl 1 blank [] tt read_boot

mount_empty_fails : (mount (some dev) 7 (some blank) [] tt).0 ≢ pos 0
mount_empty_fails e = cc (e, ap (λ (r : ℤ × Option (Fat16 Unit) × Unit). r.0) mount_empty)

mount_fails_cleanly_example :
    ((mount (some dev) 7 (some blank) [] tt).0 ≡ minus_one)
    × ((mount (some dev) 7 (some blank) [] tt).1 ≡ some blank)
mount_fails_cleanly_example = mount_fails_cleanly (some dev) 7 (some blank) [] tt mount_empty_fails

mount-IsLaidOut_example :
    IsLaidOut volume × (volume.volume_start_lba ≡ 1) × (1 + volume.total_sectors ≤ 5001)
mount-IsLaidOut_example = mount-IsLaidOut dev 1 blank [] tt (omega arith) mount-volume

length-disk : (lba : ℕ) → length (disk lba) ≡ 512
length-disk lba = elim (Bool-cases (lba == 1)) [
  | inl a ↦ rw a
  | inr a ↦ elim (Bool-cases (lba == 42)) [ inl b ↦ rw (a, b) | inr b ↦ rw (a, b) ]
]

serves : Serves dev usable disk
serves = record {
  succeeds = λ lba buffer s h. refl;
  delivers = λ lba buffer s h. refl;
  full = length-disk;
}

on : IsOn volume dev
on = record {
  device = refl;
  laid_out = mount-IsLaidOut_example.0;
  inside = omega arith;
  small = omega arith;
}

find_notes :
    find_root (some volume) (some notes) (some empty_dirent) [] tt ≡ (pos 0, some notes_dirent, tt)
unfolding find_root scan_sectors scan_entries read_root_sector equal_from name83_equal is_skipped
    dirent_of read_le16 read_le32 Block.read Block.validate Block.range_valid
find_notes = refl

find_absent :
    find_root (some volume) (some absent) (some empty_dirent) [] tt ≡ (pos 1, some empty_dirent, tt)
unfolding find_root scan_sectors scan_entries read_root_sector equal_from name83_equal is_skipped
    Block.read Block.validate Block.range_valid
find_absent = refl

find_root-lookup_example :
    let r = find_root (some volume) (some notes) (some empty_dirent) [] tt in
    let a = reply empty_dirent (lookup_from disk 42 notes 0 512) in (r.0 ≡ a.0) × (r.1 ≡ some a.1)
find_root-lookup_example = find_root-lookup serves on notes refl empty_dirent [] tt

find_root_sound_example : IsFirst disk 42 notes 0 512 notes_dirent
find_root_sound_example = find_root_sound serves on notes refl empty_dirent [] tt find_notes

-- The deleted slot 0 does not bear the name.
first_slot_used : (j : ℕ) → j ≤ 0 → ¬ IsEnd disk 42 absent j
first_slot_used zero h e = omega arith
first_slot_used (suc j) h e = omega arith

find_root_complete_example : ¬ Bears disk 42 absent 0
find_root_complete_example =
    find_root_complete serves on absent refl empty_dirent [] tt 0
      (ap (λ (r : ℤ × Option Dirent × Unit). r.0) find_absent) (omega arith) first_slot_used

find_absent_fails : (find_root (some volume) (some absent) (some empty_dirent) [] tt).0 ≢ pos 0
find_absent_fails e = cc (e, ap (λ (r : ℤ × Option Dirent × Unit). r.0) find_absent)

find_root_fails_cleanly_example :
    (((find_root (some volume) (some absent) (some empty_dirent) [] tt).0 ≡ pos 1)
      ⊎ ((find_root (some volume) (some absent) (some empty_dirent) [] tt).0 ≡ minus_one))
    × ((find_root (some volume) (some absent) (some empty_dirent) [] tt).1 ≡ some empty_dirent)
find_root_fails_cleanly_example =
    find_root_fails_cleanly (some volume) (some absent) (some empty_dirent) [] tt find_absent_fails
