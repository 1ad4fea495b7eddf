-- ===== src/Fat16/Root/Find.antt =====
-- kernel/fat16.c: `fat16_find_root` as its callers see it.
use un_orion.Common.{
  same_bytes_iff, ℕ, zero, suc, ◌+◌, ◌≤◌, ◌<◌, ◌≡◌, ◌≢◌, ◌⊎◌, inl, inr, refl, false, Option, none,
  some, ℤ, pos, minus_one, Bytes, byte, take, length, arith, ◌/◌, leb, Bool-cases, failed,
}
use native.Mathlib.Decide.{ℕ_discrete}
use un_orion.Block.{Blockdev}
use un_orion.Block.Range.{IsUsable}
use un_orion.Fat16.{Fat16}
use un_orion.Fat16.Root.{
  Dirent, dirent_of, is_skipped, EntryScan, ended, found, exhausted, after_entries, after_read,
  sector_of, read_root_sector, scan_entries, scan_sectors, find_root,
}
use un_orion.Fat16.Root.Lookup.{slot, missing, hit, lookup_from}
use un_orion.Fat16.Root.Search.{Serves, IsOn, reply, scan_sectors-lookup}

module _ (disk : ℕ → Bytes) (root : ℕ) (name : Bytes) where
  -- Slot `i` is in use, is no long-name part or label, and bears the name.
  abbrev pub Bears : ℕ → Type 0
  Bears i = (is_skipped (slot disk root i) ≡ false) × (take 11 (slot disk root i) ≡ name)

  abbrev pub IsEnd : ℕ → Type 0
  IsEnd i = byte (slot disk root i) 0 ≡ 0

  -- Slot `j`, the first from `i` on that bears the name, stands before any end mark.
  pub record IsFirst (i n : ℕ) (d : Dirent) : Type 0 where
    pub at : ℕ
    pub from : i ≤ at
    pub below : at < i + n
    pub bears : Bears at
    pub used : ¬ IsEnd at
    pub copied : d ≡ dirent_of (slot disk root at)
    pub before : (k : ℕ) → i ≤ k → k < at → (¬ IsEnd k) × (¬ Bears k)

  hit_step :
      (i n : ℕ) (d : Dirent)
      → lookup_from disk root name i (suc n) ≡ hit d
      → (¬ IsEnd i)
        × ((Bears i × (d ≡ dirent_of (slot disk root i)))
            ⊎ ((¬ Bears i) × (lookup_from disk root name (i + 1) n ≡ hit d)))
  unfolding lookup_from
  hit_step i n d h = ground (arith, same_bytes_iff (take 11 (slot disk root i)) name)

  lookup_from-hit : (i n : ℕ) (d : Dirent) → lookup_from disk root name i n ≡ hit d → IsFirst i n d
  unfolding lookup_from
  lookup_from-hit i zero d h = cc
  lookup_from-hit i (suc n) d h =
      let (used, rest) = hit_step i n d h in
      elim rest [
        | inl (b, e) ↦ record {
          at = i;
          from = omega arith;
          below = omega arith;
          bears = b;
          used = used;
          copied = e;
          before = λ k p q. absurd (omega arith);
        }
        | inr (differs, later) ↦ later_first (lookup_from-hit (i + 1) n d later) used differs
      ]
    where
      later_first : IsFirst (i + 1) n d → (¬ IsEnd i) → (¬ Bears i) → IsFirst i (suc n) d
      later_first f used differs = record {
        at = f.at;
        from = omega (arith, f.from);
        below = omega (arith, f.below);
        bears = f.bears;
        used = f.used;
        copied = f.copied;
        before = λ k p q. elim (ℕ_discrete k i) [
          | yes e ↦ rw e (used, differs)
          | no ne ↦ f.before k (omega arith) q
        ];
      }

  missing_step :
      (i n : ℕ)
      → lookup_from disk root name i (suc n) ≡ missing
      → (¬ IsEnd i)
      → (¬ Bears i) × (lookup_from disk root name (i + 1) n ≡ missing)
  unfolding lookup_from
  missing_step i n h used = ground (arith, same_bytes_iff (take 11 (slot disk root i)) name)

  lookup_from-missing :
      (i n k : ℕ)
      → lookup_from disk root name i n ≡ missing
      → i ≤ k
      → k < i + n
      → ((j : ℕ) → i ≤ j → j ≤ k → ¬ IsEnd j)
      → ¬ Bears k
  unfolding lookup_from
  lookup_from-missing i zero k h a b live m = omega arith
  lookup_from-missing i (suc n) k h a b live m =
      let (differs, later) = missing_step i n h (live i (omega arith) a) in
      elim (ℕ_discrete k i) [
        | yes e ↦ differs (rw e at m)
        | no ne ↦
            lookup_from-missing (i + 1) n k later (omega arith) (omega arith)
              (λ j p q. live j (omega arith) q) m
      ]

module _ {S : Type 0} {dev : Blockdev S} {u : IsUsable dev} {disk : ℕ → Bytes}
    (serves : Serves dev u disk) {fs : Fat16 S} (on : IsOn fs dev) (name : Bytes)
    (named : length name ≡ 11) (out : Dirent) (sector : Bytes) (s : S) where
  open fs use {first_root_lba as root, root_entry_count as count}

  -- On a mounted volume whose device serves its blocks, `fat16_find_root` is the look-up of the name
  -- in the sequence of the root directory's slots: 0 with the copied entry on a hit, 1 with `*out`
  -- as it was otherwise.
  pub find_root-lookup :
      let r = find_root (some fs) (some name) (some out) sector s in
      let a = reply out (lookup_from disk root name 0 count) in (r.0 ≡ a.0) × (r.1 ≡ some a.1)
  unfolding find_root
  find_root-lookup =
      let e =
        scan_sectors-lookup serves on name named out fs.root_dir_sectors 0 0 sector s (omega arith)
          (omega arith) in
      ground (arith, on.device, on.laid_out.sector, e)

  -- If it returns 0, `*out` is copied from the first slot that bears the name, and no end mark stands
  -- before that slot.
  pub find_root_sound :
      {d : Dirent} {s' : S}
      → find_root (some fs) (some name) (some out) sector s ≡ (pos 0, some d, s')
      → IsFirst disk root name 0 count d
  find_root_sound {d} e =
      lookup_from-hit disk root name 0 count d (ground (arith, find_root-lookup))

  -- If it returns 1, no slot before the first end mark bears the name.
  pub find_root_complete :
      (k : ℕ)
      → (find_root (some fs) (some name) (some out) sector s).0 ≡ pos 1
      → k < count
      → ((j : ℕ) → j ≤ k → ¬ IsEnd disk root name j)
      → ¬ Bears disk root name k
  find_root_complete k e below live =
      lookup_from-missing disk root name 0 count k (ground (arith, find_root-lookup)) (omega arith)
        (omega arith) (λ j p q. live j q)

module _ {S : Type 0} where
  -- What a result of the search may be: 0, or 1 or -1 with `*out` as it was.
  abbrev IsClean : Dirent → ℤ × Dirent × S → Type 0
  IsClean out r = (r.0 ≡ pos 0) ⊎ (((r.0 ≡ pos 1) ⊎ (r.0 ≡ minus_one)) × (r.1 ≡ out))

  module _ (fs : Fat16 S) (name : Bytes) (out : Dirent) where
    after_entries-IsClean :
        (s : S) (again : ℕ → ℤ × Dirent × S) (r : EntryScan)
        → ((seen : ℕ) → IsClean out (again seen))
        → IsClean out (after_entries out s again r)
    after_entries-IsClean s again ended h = inr (inl refl, refl)
    after_entries-IsClean s again (found d) h = inl refl
    after_entries-IsClean s again (exhausted seen) h = h seen

    after_read-IsClean :
        (seen : ℕ) (sector : Bytes) (again : ℕ → Bytes → S → ℤ × Dirent × S)
        (r : ℤ × Option Bytes × S)
        → ((seen' : ℕ) (sector' : Bytes) (s' : S) → IsClean out (again seen' sector' s'))
        → IsClean out (after_read fs name out seen sector again r)
    after_read-IsClean seen sector again (rc, left, s) h = elim (Bool-cases (failed rc)) [
      | inl bad ↦ rw bad (inr (inr refl, refl))
      | inr good ↦ rw good (
          after_entries-IsClean s (λ seen'. again seen' (sector_of sector left) s)
            (scan_entries fs.root_entry_count name (sector_of sector left)
              (fs.bytes_per_sector / 32) 0 seen)
            (λ seen'. h seen' (sector_of sector left) s))
    ]

    scan_sectors-IsClean :
        (n index seen : ℕ) (sector : Bytes) (s : S)
        → IsClean out (scan_sectors fs name out n index seen sector s)
    unfolding scan_sectors
    scan_sectors-IsClean zero index seen sector s = inr (inl refl, refl)
    scan_sectors-IsClean (suc n) index seen sector s =
        elim (Bool-cases (leb fs.root_entry_count seen)) [
          | inl stop ↦ rw stop (inr (inl refl, refl))
          | inr more ↦ rw more (
              after_read-IsClean seen sector (scan_sectors fs name out n (index + 1))
                (read_root_sector (some fs) index (some sector) s)
                (scan_sectors-IsClean n (index + 1)))
        ]

  -- Whatever the pointers and the driver's answers, `fat16_find_root` returns 0, or it returns 1 or -1
  -- and leaves `*out` as it was.
  pub find_root_fails_cleanly :
      (fs : Option (Fat16 S)) (name : Option Bytes) (out : Option Dirent) (sector : Bytes) (s : S)
      → (find_root fs name out sector s).0 ≢ pos 0
      → (((find_root fs name out sector s).0 ≡ pos 1)
          ⊎ ((find_root fs name out sector s).0 ≡ minus_one))
        × ((find_root fs name out sector s).1 ≡ out)
  unfolding find_root
  find_root_fails_cleanly (some fs) (some name) (some out) sector s h =
      ground (arith, scan_sectors-IsClean fs name out fs.root_dir_sectors 0 0 sector s)
  find_root_fails_cleanly (some fs) (some name) none sector s h = (inr refl, refl)
  find_root_fails_cleanly (some fs) none out sector s h = (inr refl, refl)
  find_root_fails_cleanly none name out sector s h = (inr refl, refl)
