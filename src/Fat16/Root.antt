-- ===== src/Fat16/Root.antt =====
-- kernel/fat16.c: reading the root directory, `fat16_read_root_sector` and `fat16_find_root`.
pub mod Lookup
pub mod Search
pub mod Find
use un_orion.Common.{
  ℕ, zero, suc, ◌+◌, ◌-◌, ◌*◌, ◌/◌, bit_and, Bool, true, false, not, ◌||◌, Option, none, some, ℤ,
  pos, minus_one, Bytes, byte, take, drop, u32, u64, leb, ◌==◌, if◌then◌else◌, is_null, failed,
}
use un_orion.Block
use un_orion.Fat16.{Fat16, read_le16, read_le32, boot_size}

pub record Dirent : Type 0 where
  pub name : Bytes
  pub attributes : ℕ
  pub first_cluster : ℕ
  pub size : ℕ

-- The loop of `name83_equal`, from index `i` on with `n` rounds left.
unfoldable pub equal_from : ℕ → ℕ → Bytes → Bytes → Bool
equal_from zero i a b = true
equal_from (suc n) i a b =
    let rest = equal_from n (i + 1) a b in if not (byte a i == byte b i) then false else rest

unfoldable pub name83_equal : Bytes → Bytes → Bool
unfolding equal_from
name83_equal = equal_from 11 0

-- What is copied to `*out` on a hit.
unfoldable pub dirent_of : Bytes → Dirent
dirent_of entry = record {
  name = take 11 entry;
  attributes = byte entry 11;
  first_cluster = read_le16 entry 26;
  size = read_le32 entry 28;
}

-- `continue` for a deleted slot, a long-name part and a volume label
unfoldable pub is_skipped : Bytes → Bool
is_skipped entry =
    byte entry 0 == 0xe5 || byte entry 11 == 0x0f || not (bit_and (byte entry 11) 0x08 == 0)

-- How the loop over one sector's entries ends: `return 1`, `return 0`, or its test fails with `seen`.
pub data EntryScan : Type 0 where
  ended : EntryScan
  found : Dirent → EntryScan
  exhausted : ℕ → EntryScan

-- The inner loop, with `n` = entries_per_sector - entry_index rounds left.
unfoldable pub scan_entries : ℕ → Bytes → Bytes → ℕ → ℕ → ℕ → EntryScan
scan_entries root_entry_count name83 sector zero entry_index seen = exhausted seen
scan_entries root_entry_count name83 sector (suc n) entry_index seen =
    let rest = scan_entries root_entry_count name83 sector n (entry_index + 1) (seen + 1) in
    let entry = drop (entry_index * 32) sector in
    if leb root_entry_count seen
    then exhausted seen
    else if byte entry 0 == 0x00
    then ended
    else if is_skipped entry
    then rest
    else if not (name83_equal entry name83)
    then rest
    else found (dirent_of entry)

-- The local array after the read.
abbrev pub sector_of : Bytes → Option Bytes → Bytes
sector_of sector none = sector
sector_of sector (some sector') = sector'

module _ {S : Type 0} where
  unfoldable pub read_root_sector : Option (Fat16 S) → ℕ → Option Bytes → S → ℤ × Option Bytes × S
  read_root_sector none sector_index buffer s = (minus_one, buffer, s)
  read_root_sector (some fs) sector_index buffer s =
      if is_null fs.dev || is_null buffer || leb fs.root_dir_sectors sector_index
      then (minus_one, buffer, s)
      else Block.read fs.dev (u64 (fs.first_root_lba + sector_index)) 1 buffer s

  -- How the loop over the sectors goes on after one sector's entries; `again` is its next round.
  abbrev pub after_entries : Dirent → S → (ℕ → ℤ × Dirent × S) → EntryScan → ℤ × Dirent × S
  after_entries out s again ended = (pos 1, out, s)
  after_entries out s again (found d) = (pos 0, d, s)
  after_entries out s again (exhausted seen) = again seen

  -- The body of that loop after the read of the sector.
  abbrev pub after_read :
      Fat16 S
      → Bytes
      → Dirent
      → ℕ
      → Bytes
      → (ℕ → Bytes → S → ℤ × Dirent × S)
      → ℤ × Option Bytes × S
      → ℤ × Dirent × S
  after_read fs name83 out seen sector again (rc, left, s) =
      if failed rc
      then (minus_one, out, s)
      else after_entries out s (λ seen'. again seen' (sector_of sector left) s)
          (scan_entries fs.root_entry_count name83 (sector_of sector left)
            (fs.bytes_per_sector / 32) 0 seen)

  -- The outer loop, with `n` = root_dir_sectors - sector_index rounds left.
  unfoldable pub scan_sectors : Fat16 S → Bytes → Dirent → ℕ → ℕ → ℕ → Bytes → S → ℤ × Dirent × S
  scan_sectors fs name83 out zero sector_index seen sector s = (pos 1, out, s)
  scan_sectors fs name83 out (suc n) sector_index seen sector s =
      if leb fs.root_entry_count seen
      then (pos 1, out, s)
      else after_read fs name83 out seen sector (scan_sectors fs name83 out n (sector_index + 1))
          (read_root_sector (some fs) sector_index (some sector) s)

  unfoldable pub find_root :
      Option (Fat16 S) → Option Bytes → Option Dirent → Bytes → S → ℤ × Option Dirent × S
  find_root (some fs) (some name83) (some out) sector s =
      if is_null fs.dev || not (fs.bytes_per_sector == boot_size)
      then (minus_one, some out, s)
      else let (rc, out', s') = scan_sectors fs name83 out fs.root_dir_sectors 0 0 sector s in
        (rc, some out', s')
  find_root _ name83 out sector s = (minus_one, out, s)
