-- ===== src/Boot/Install/Target.antt =====
-- boot/main.c: `find_single_install_target` against the list of the disks that qualify.
use un_orion.Common.{
  true, false, ◌+◌, ◌↔◌, ◌%◌, ◌≤◌, ◌*◌, ℕ, ◌^◌, ◌<◌, ◌≡◌, inl, inr, refl, ap, Option, none, some,
  List, [], ◌∷◌, length, ◌++◌, length-append, u64, ◌==◌, if◌then◌else◌, Bool-cases, arith,
}
use un_orion.Boot.{efi_error, efi_success, efi_not_found, Media, BlockIo, Firmware}
use un_orion.Boot.Install.{
  media_bytes, is_target, test_media, consider, scan_handles, single, find_single_install_target,
}

module _ {W : Type 0} (firmware : Firmware W) (status : ℕ → ℕ) (bio : ℕ → Option (BlockIo W))
    (source_handle source_bytes : ℕ) where
  -- `HandleProtocol` looks an interface up and changes nothing.
  abbrev pub LooksUp : Type 0
  LooksUp = (h : ℕ) (w : W) → firmware.block_io h w ≡ (status h, bio h, w)

  abbrev disk_with : BlockIo W → Option Media → List (BlockIo W)
  disk_with b none = []
  disk_with b (some m) = if is_target source_bytes m then b ∷ [] else []

  abbrev disk_of : ℕ → Option (BlockIo W) → List (BlockIo W)
  disk_of st none = []
  disk_of st (some b) = if efi_error st then [] else disk_with b b.media

  -- The disks that qualify, in the order of the handles.
  abbrev pub targets : List ℕ → List (BlockIo W)
  targets [] = []
  targets (h ∷ handles) =
      let rest = targets handles in
      if h == source_handle then rest else disk_of (status h) (bio h) ++ rest

  -- The answer with its machine: the one disk, or none if there is any other number of them.
  abbrev pub only_one : W → List (BlockIo W) → ℕ × Option (BlockIo W) × W
  only_one w (b ∷ []) = (efi_success, some b, firmware.free_pool w)
  only_one w [] = (efi_not_found, none, firmware.free_pool w)
  only_one w (b ∷ c ∷ bs) = (efi_not_found, none, firmware.free_pool w)

  abbrev gather : Option (BlockIo W) × ℕ → List (BlockIo W) → Option (BlockIo W) × ℕ
  gather acc [] = acc
  gather acc (b ∷ bs) = gather (some b, u64 (acc.1 + 1)) bs

  gather-append :
      (bs cs : List (BlockIo W)) (acc : Option (BlockIo W) × ℕ)
      → gather acc (bs ++ cs) ≡ gather (gather acc bs) cs
  gather-append [] cs acc = refl
  gather-append (b ∷ bs) cs acc = gather-append bs cs (some b, u64 (acc.1 + 1))

  test_media-gather :
      (acc : Option (BlockIo W) × ℕ) (b : BlockIo W) (m : Option Media)
      → test_media source_bytes acc b m ≡ gather acc (disk_with b m)
  test_media-gather acc b none = refl
  test_media-gather acc b (some m) = elim (Bool-cases (is_target source_bytes m)) [
    | inl y ↦ rw y
    | inr n ↦ rw n
  ]

  consider-gather :
      (acc : Option (BlockIo W) × ℕ) (st : ℕ) (b : Option (BlockIo W)) (w : W)
      → consider source_bytes acc (st, b, w) ≡ (gather acc (disk_of st b), w)
  consider-gather acc st none w = refl
  consider-gather acc st (some b) w = elim (Bool-cases (efi_error st)) [
    | inl y ↦ rw y
    | inr n ↦ rw n (ap (λ r. (r, w)) (test_media-gather acc b b.media))
  ]

  scan_handles-gather :
      LooksUp
      → (handles : List ℕ) (acc : Option (BlockIo W) × ℕ) (w : W)
      → scan_handles firmware source_handle source_bytes handles acc w
        ≡ (gather acc (targets handles), w)
  unfolding scan_handles
  scan_handles-gather f [] acc w = refl
  scan_handles-gather f (h ∷ handles) acc w = elim (Bool-cases (h == source_handle)) [
    | inl y ↦ rw y (scan_handles-gather f handles acc w)
    | inr n ↦
        rw (n, f h w, consider-gather acc (status h) (bio h) w, gather-append)
          (scan_handles-gather f handles (gather acc (disk_of (status h) (bio h))) w)
  ]

  gather-count :
      (bs : List (BlockIo W)) (c : Option (BlockIo W)) (n : ℕ)
      → n + length bs < 2 ^ 64
      → (gather (c, n) bs).1 ≡ n + length bs
  gather-count [] c n h = omega arith
  gather-count (b ∷ bs) c n h =
      let e : u64 (n + 1) ≡ n + 1 = omega arith in
      let later = gather-count bs (some b) (u64 (n + 1)) (omega (arith, e)) in
      omega (arith, e, later)

  single-only_one :
      (bs : List (BlockIo W)) (w : W)
      → length bs < 2 ^ 64
      → single firmware (gather (none, 0) bs, w) ≡ only_one w bs
  single-only_one [] w h = refl
  single-only_one (b ∷ []) w h = refl
  single-only_one (b ∷ c ∷ bs) w h =
      let e = gather-count bs (some c) 2 (omega arith) in ground (arith, e)

  length-disk_with : (b : BlockIo W) (m : Option Media) → length (disk_with b m) ≤ 1
  length-disk_with b none = omega arith
  length-disk_with b (some m) = ground arith

  length-disk_of : (st : ℕ) (b : Option (BlockIo W)) → length (disk_of st b) ≤ 1
  length-disk_of st none = omega arith
  length-disk_of st (some b) = grind (arith, length-disk_with b b.media)

  length-targets : (handles : List ℕ) → length (targets handles) ≤ length handles
  length-targets [] = omega arith
  length-targets (h ∷ handles) = elim (Bool-cases (h == source_handle)) [
    | inl y ↦ rw y (omega (arith, length-targets handles))
    | inr n ↦
        rw (n, length-append)
          (omega (arith, length-targets handles, length-disk_of (status h) (bio h)))
  ]

  -- Where handles are found, fewer than 2 ^ 64, and looking an interface up changes nothing, the
  -- search for a target returns the one whole, writable and present disk,
  -- other than the source, with room for the source's bytes in whole blocks, and not-found if there
  -- are none or several; it frees the list of handles.
  pub find_single_install_target-exact :
      LooksUp
      → (handles : List ℕ) (w w' : W) (st : ℕ) → firmware.locate_block_handles w ≡ (st, handles, w')
      → efi_error st ≡ false
      → length handles < 2 ^ 64
      → find_single_install_target firmware source_handle source_bytes w
        ≡ only_one w' (targets handles)
  unfolding find_single_install_target
  find_single_install_target-exact f handles w w' st e ok h =
      rw (e, ok, scan_handles-gather f handles (none, 0) w')
        (single-only_one (targets handles) w' (omega (arith, length-targets handles)))

-- A disk is a target exactly if it is present, writable and whole, has blocks, and the source's bytes
-- fill whole blocks of it and fit, for a disk whose size in bytes is a 64-bit number.
pub is_target_iff :
    (source_bytes : ℕ) (m : Media)
    → m.last_block + 1 < 2 ^ 64
    → (m.last_block + 1) * m.block_size < 2 ^ 64
    → (is_target source_bytes m ≡ true) ↔ (
        (m.media_present ≡ true)
        × (m.read_only ≡ false)
        × (m.logical_partition ≡ false)
        × (1 ≤ m.block_size)
        × (source_bytes ≤ (m.last_block + 1) * m.block_size)
        × (source_bytes % m.block_size ≡ 0))
unfolding is_target
is_target_iff source_bytes m a b =
    let u : u64 (m.last_block + 1) ≡ m.last_block + 1 = omega arith in
    let e : media_bytes m ≡ (m.last_block + 1) * m.block_size = rw u (omega arith) in
    (
      λ h.
          (ground arith, ground arith, ground arith, ground arith, ground (arith, e), ground arith),
      λ (p, r, l, s, f, w). ground (arith, e),
    )
