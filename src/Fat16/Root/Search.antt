-- ===== src/Fat16/Root/Search.antt =====
-- kernel/fat16.c: `fat16_find_root` is the look-up in the sequence of slots.
use un_orion.Common.{
  same_bytes, ℕ, zero, suc, ◌+◌, ◌-◌, ◌*◌, ◌/◌, ◌%◌, ◌^◌, ◌≤◌, ◌<◌, ◌≡◌, inl, inr, refl, ap, sym,
  not, ◌&&◌, some, ℤ, pos, Bytes, byte, take, drop, length, length-drop, min, arith, leb, ◌==◌,
  if◌then◌else◌, Bool-cases,
}
use un_orion.Block.{Blockdev}
use un_orion.Block.Range.{IsUsable, read_exact}
use un_orion.Fat16.{Fat16}
use un_orion.Fat16.Geometry.{IsLaidOut}
use un_orion.Fat16.Root.{
  Dirent, dirent_of, is_skipped, EntryScan, ended, found, exhausted, scan_entries, read_root_sector,
  scan_sectors, after_entries,
}
use un_orion.Fat16.Root.Lookup.{slot, Answer, missing, hit, lookup_from, name83_equal-same_bytes}

abbrev pub reply : Dirent → Answer → ℤ × Dirent
reply out missing = (pos 1, out)
reply out (hit d) = (pos 0, d)

-- The result and `*out`, without the driver's state.
abbrev pub outcome : {S : Type 0} → ℤ × Dirent × S → ℤ × Dirent
outcome r = (r.0, r.1)

module _ (disk : ℕ → Bytes) (root count : ℕ) (name : Bytes) (named : length name ≡ 11) where
  abbrev pub lookup_rest : ℕ → Answer
  lookup_rest seen = lookup_from disk root name seen (count - seen)

  -- What the loop over a sector's entries has found out, started at slot `seen`.
  abbrev Explains : ℕ → ℕ → EntryScan → Type 0
  Explains next seen ended = lookup_rest seen ≡ missing
  Explains next seen (found d) = lookup_rest seen ≡ hit d
  Explains next seen (exhausted seen') =
      (seen' ≡ min count next) × (lookup_rest seen ≡ lookup_rest seen')

  lookup_end : (seen : ℕ) → count ≤ seen → lookup_rest seen ≡ missing
  unfolding lookup_from
  lookup_end seen h = let e : count - seen ≡ 0 = omega arith in rw e

  lookup_step :
      (seen : ℕ)
      → seen < count
      → lookup_rest seen ≡ (
          let e = slot disk root seen in
          if byte e 0 == 0
          then missing
          else if not (is_skipped e) && same_bytes (take 11 e) name
          then hit (dirent_of e)
          else lookup_rest (seen + 1))
  unfolding lookup_from
  lookup_step seen h = let e : count - seen ≡ suc (count - (seen + 1)) = omega arith in rw e

  module _ (sector : Bytes) (full : length sector ≡ 512) (index : ℕ)
      (here : disk (root + index) ≡ sector) where
    slot-sector :
        (n i seen : ℕ)
        → i + suc n ≡ 16
        → seen ≡ index * 16 + i
        → slot disk root seen ≡ drop (i * 32) sector
    slot-sector n i seen e f =
        let q : seen / 16 ≡ index = omega arith in
        let r : seen % 16 ≡ i = omega arith in rw (q, r, here)

    scan_entries-Explains :
        (n i seen : ℕ)
        → i + n ≡ 16
        → seen ≡ index * 16 + i
        → seen ≤ count
        → Explains (index * 16 + 16) seen (scan_entries count name sector n i seen)
    unfolding scan_entries
    scan_entries-Explains zero i seen e f h = ground arith
    scan_entries-Explains (suc n) i seen e f h = elim (Bool-cases (leb count seen)) [
      | inl stop ↦ rw stop (ground arith)
      | inr more ↦ rw more (
          ground (
            arith,
            lookup_step seen,
            slot-sector n i seen e f,
            name83_equal-same_bytes (drop (i * 32) sector) name,
            length-drop (i * 32) sector,
            scan_entries-Explains n (i + 1) (seen + 1) (omega arith) (omega arith),
          ))
    ]

  after_entries-lookup :
      {S : Type 0} (out : Dirent) (s : S) (again : ℕ → ℤ × Dirent × S) (next seen : ℕ)
      (r : EntryScan)
      → Explains next seen r
      → outcome (again (min count next)) ≡ reply out (lookup_rest (min count next))
      → outcome (after_entries out s again r) ≡ reply out (lookup_rest seen)
  after_entries-lookup out s again next seen ended h k = ap (reply out) (sym h)
  after_entries-lookup out s again next seen (found d) h k = ap (reply out) (sym h)
  after_entries-lookup out s again next seen (exhausted seen') (e, h) k = rw (h, e) k

-- The driver of a device whose blocks hold `disk`: a read of one block succeeds and gives its bytes.
pub record Serves {S : Type 0} (dev : Blockdev S) (u : IsUsable dev) (disk : ℕ → Bytes)
    : Type 0 where
  pub succeeds :
      (lba : ℕ) (buffer : Bytes) (s : S)
      → lba < dev.block_count
      → (u.reader lba 1 buffer s).0 ≡ pos 0
  pub delivers :
      (lba : ℕ) (buffer : Bytes) (s : S)
      → lba < dev.block_count
      → (u.reader lba 1 buffer s).1 ≡ disk lba
  pub full : (lba : ℕ) → length (disk lba) ≡ 512

-- A mounted volume on a device.
pub record IsOn {S : Type 0} (fs : Fat16 S) (dev : Blockdev S) : Type 0 where
  pub device : fs.dev ≡ some dev
  pub laid_out : IsLaidOut fs
  pub inside : fs.volume_start_lba + fs.total_sectors ≤ dev.block_count
  pub small : dev.block_count < 2 ^ 64

module _ {S : Type 0} {dev : Blockdev S} {u : IsUsable dev} {disk : ℕ → Bytes}
    (serves : Serves dev u disk) {fs : Fat16 S} (on : IsOn fs dev) (name : Bytes)
    (named : length name ≡ 11) (out : Dirent) where
  read_root_sector-disk :
      (index : ℕ) (sector : Bytes) (s : S)
      → index < fs.root_dir_sectors
      → read_root_sector (some fs) index (some sector) s ≡ (
        pos 0,
        some (disk (fs.first_root_lba + index)),
        (u.reader (fs.first_root_lba + index) 1 sector s).2,
      )
  unfolding read_root_sector
  read_root_sector-disk index sector s h =
      let l = on.laid_out in
      let lba = fs.first_root_lba + index in
      let e : lba % 2 ^ 64 ≡ lba = omega (arith, l.fits, l.contents, on.inside, on.small) in
      let b : lba < dev.block_count = omega (arith, l.fits, l.contents, on.inside) in
      ground (
        arith,
        e,
        on.device,
        read_exact u lba 1 sector s,
        serves.succeeds lba sector s b,
        serves.delivers lba sector s b,
      )

  open fs use {first_root_lba as root, root_entry_count as count}

  pub scan_sectors-lookup :
      (n index seen : ℕ) (sector : Bytes) (s : S)
      → index + n ≡ fs.root_dir_sectors
      → seen ≡ min fs.root_entry_count (index * 16)
      → outcome (scan_sectors fs name out n index seen sector s)
        ≡ reply out (lookup_rest disk root count name named seen)
  unfolding scan_sectors
  scan_sectors-lookup zero index seen sector s e f =
      let l = on.laid_out in
      ap (reply out) (sym (lookup_end disk root count name named seen (omega (arith, l.holds))))
  scan_sectors-lookup (suc n) index seen sector s e f = elim (Bool-cases (leb count seen)) [
    | inl stop ↦ rw stop (ground (arith, lookup_end disk root count name named seen))
    | inr more ↦
        rw (more, read_root_sector-disk index sector s (omega arith), per_sector)
          (after_entries-lookup disk root count name named out next
            (λ seen'. scan_sectors fs name out n (index + 1) seen' (disk (root + index)) next)
            (index * 16 + 16) seen (scan_entries count name (disk (root + index)) 16 0 seen)
            (scan_entries-Explains disk root count name named (disk (root + index))
              (serves.full (root + index)) index refl 16 0 seen (omega arith) (omega arith)
              (omega arith))
            (scan_sectors-lookup n (index + 1) (min count (index * 16 + 16)) (disk (root + index))
              next (omega arith) (omega arith)))
  ]
    where
      next : S
      next = (u.reader (root + index) 1 sector s).2

      per_sector : fs.bytes_per_sector / 32 ≡ 16
      per_sector = omega (arith, on.laid_out.sector)
