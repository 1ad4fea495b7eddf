-- ===== src/Boot/Offer/Consent.antt =====
-- boot/main.c: without the key Y nothing is installed.
use un_orion.Common.{
  ℕ, ◌*◌, ◌≡◌, ◌⊎◌, inl, inr, refl, Bool, true, false, not, ◌&&◌, ◌||◌, Option, none, some, List,
  [], ◌∷◌, u64, ◌==◌, if◌then◌else◌, is_null, Bool-cases, Run, done, arith,
}
use un_orion.Boot.{efi_error, Media, BlockIo, Firmware}
use un_orion.Boot.Install.{media_bytes, consider, scan_handles, single, find_single_install_target}
use un_orion.Boot.Offer.{
  waited_key, read_key_with_timeout, confirm, ask, with_source, with_image, offer_optical_install,
}

-- The two keys that confirm the installation.
abbrev pub IsYes : ℕ → Type 0
IsYes key = (key ≡ 0x79) ⊎ (key ≡ 0x59)

zero_IsYes : ¬ IsYes 0
zero_IsYes (inl e) = omega arith
zero_IsYes (inr e) = omega arith

if_IsYes : (b : Bool) (key : ℕ) → ¬ IsYes key → ¬ IsYes (if b then 0 else key)
if_IsYes true key h = zero_IsYes
if_IsYes false key h = h

module _ {W : Type 0} (firmware : Firmware W) (P : W → Type 0) where
  -- The services other than those of a disk leave `P` as it is, and the key Y is never read.
  pub record Keeps : Type 0 where
    pub locates : (w : W) → P w → P (firmware.locate_block_handles w).2
    pub looks_up : (h : ℕ) (w : W) → P w → P (firmware.block_io h w).2
    pub loads : (w : W) → P w → P (firmware.loaded_image w).2
    pub frees : (w : W) → P w → P (firmware.free_pool w)
    pub creates : (w : W) → P w → P (firmware.create_timer w).1
    pub sets : (n : ℕ) (w : W) → P w → P (firmware.set_timer n w).1
    pub closes : (w : W) → P w → P (firmware.close_timer w)
    pub waits : (w : W) → P w → P (firmware.wait_for_event w).2
    pub types : (w : W) → P w → P (firmware.read_key_stroke w).2
    pub no_yes : (w : W) → ¬ IsYes (firmware.read_key_stroke w).1

  module _ (keeps : Keeps) where
    waited_key-keeps :
        (status index : ℕ) (w : W)
        → P w
        → P (waited_key firmware (status, index, w)).1
          × (¬ IsYes (waited_key firmware (status, index, w)).0)
    waited_key-keeps status index w h = elim (Bool-cases (not (efi_error status) && index == 0)) [
      | inl y ↦ rw y (keeps.closes _ (keeps.types w h), if_IsYes _ _ (keeps.no_yes w))
      | inr n ↦ rw n (keeps.closes w h, zero_IsYes)
    ]

    read_key_with_timeout-keeps :
        (seconds : ℕ) (w : W)
        → P w
        → P (read_key_with_timeout firmware seconds w).1
          × (¬ IsYes (read_key_with_timeout firmware seconds w).0)
    unfolding read_key_with_timeout
    read_key_with_timeout-keeps seconds w h =
        let h1 = keeps.creates w h in
        let h2 = keeps.sets (u64 (seconds * 10000000)) _ h1 in
        let ready =
          firmware.wait_for_event
            (firmware.set_timer (u64 (seconds * 10000000)) (firmware.create_timer w).1).1 in
        elim (Bool-cases (efi_error (firmware.create_timer w).0)) [
          | inl y ↦ rw y (h1, zero_IsYes)
          | inr n ↦
              elim (Bool-cases (
                efi_error
                  (firmware.set_timer (u64 (seconds * 10000000)) (firmware.create_timer w).1).0)) [
                    | inl y ↦ rw (n, y) (keeps.closes _ h2, zero_IsYes)
                    | inr ok ↦
                        rw (n, ok) (waited_key-keeps ready.0 ready.1 ready.2 (keeps.waits _ h2))
                  ]
        ]

    consider-keeps :
        (source_bytes : ℕ) (acc : Option (BlockIo W) × ℕ) (answer : ℕ × Option (BlockIo W) × W)
        → P answer.2
        → P (consider source_bytes acc answer).1
    consider-keeps source_bytes acc (status, none, w) h = h
    consider-keeps source_bytes acc (status, some b, w) h = h

    scan_handles-keeps :
        (device source_bytes : ℕ) (handles : List ℕ) (acc : Option (BlockIo W) × ℕ) (w : W)
        → P w
        → P (scan_handles firmware device source_bytes handles acc w).1
    unfolding scan_handles
    scan_handles-keeps device source_bytes [] acc w h = h
    scan_handles-keeps device source_bytes (x ∷ handles) acc w h = elim (Bool-cases (x == device)) [
      | inl y ↦ rw y (scan_handles-keeps device source_bytes handles acc w h)
      | inr n ↦ rw n (
          scan_handles-keeps device source_bytes handles _ _
            (consider-keeps source_bytes acc (firmware.block_io x w) (keeps.looks_up x w h)))
    ]

    single-keeps : (r : (Option (BlockIo W) × ℕ) × W) → P r.1 → P (single firmware r).2
    single-keeps ((chosen, candidates), w) h =
        elim (Bool-cases (not (candidates == 1) || is_null chosen)) [
          | inl y ↦ rw y (keeps.frees w h)
          | inr n ↦ rw n (keeps.frees w h)
        ]

    find_target-keeps :
        (device source_bytes : ℕ) (w : W)
        → P w
        → P (find_single_install_target firmware device source_bytes w).2
    unfolding find_single_install_target
    find_target-keeps device source_bytes w h =
        let found = firmware.locate_block_handles w in
        let h1 = keeps.locates w h in
        elim (Bool-cases (efi_error (firmware.locate_block_handles w).0)) [
          | inl y ↦ rw y h1
          | inr n ↦ rw n (
              single-keeps (scan_handles firmware device source_bytes found.1 (none, 0) found.2)
                (scan_handles-keeps device source_bytes found.1 (none, 0) found.2 h1))
        ]

    -- The end of the dialogue with the machine as `P` says.
    abbrev Leaves : Run W → Type 0
    Leaves r = (w' : W) × (r ≡ done w') × P w'

    other_key : (key : ℕ) → ¬ IsYes key → not (key == 0x79) && not (key == 0x59) ≡ true
    other_key key h = elim (Bool-cases (not (key == 0x79) && not (key == 0x59))) [
      | inl y ↦ y
      | inr n ↦ elim (h (ground arith)) [ ]
    ]

    confirm-Leaves :
        (source : BlockIo W) (answer : ℕ × Option (BlockIo W) × W)
        → P answer.2
        → Leaves (confirm firmware source answer)
    confirm-Leaves source (status, none, w) h = (w, refl, h)
    confirm-Leaves source (status, some target, w) h =
        let (h1, other) = read_key_with_timeout-keeps 10 w h in
        elim (Bool-cases (efi_error status)) [
          | inl y ↦ (w, rw y, h)
          | inr n ↦ (_, rw (n, other_key _ other), h1)
        ]

    ask-Leaves :
        (device : ℕ) (source : BlockIo W) (media : Option Media) (w : W)
        → P w
        → Leaves (ask firmware device source media w)
    ask-Leaves device source none w h = (w, refl, h)
    ask-Leaves device source (some m) w h =
        let key = read_key_with_timeout firmware 5 w in
        let (h1, other) = read_key_with_timeout-keeps 5 w h in
        let (w', e, h2) =
          confirm-Leaves source (find_single_install_target firmware device (media_bytes m) key.1)
            (find_target-keeps device (media_bytes m) key.1 h1) in
        elim (Bool-cases (not m.read_only || not m.media_present)) [
          | inl y ↦ (w, rw y, h)
          | inr n ↦ elim (Bool-cases (not (key.0 == 0x69) && not (key.0 == 0x49))) [
            | inl y ↦ (key.1, rw (n, y), h1)
            | inr i ↦ (w', rw (n, i) e, h2)
          ]
        ]

    with_source-Leaves :
        (device : ℕ) (answer : ℕ × Option (BlockIo W) × W)
        → P answer.2
        → Leaves (with_source firmware device answer)
    with_source-Leaves device (status, none, w) h = (w, refl, h)
    with_source-Leaves device (status, some source, w) h =
        let (w', e, h') = ask-Leaves device source source.media w h in
        elim (Bool-cases (efi_error status)) [ inl y ↦ (w, rw y, h) | inr n ↦ (w', rw n e, h') ]

    with_image-Leaves :
        (answer : ℕ × Option ℕ × W) → P answer.2 → Leaves (with_image firmware answer)
    with_image-Leaves (status, none, w) h = (w, refl, h)
    with_image-Leaves (status, some device, w) h =
        let (w', e, h') =
          with_source-Leaves device (firmware.block_io device w) (keeps.looks_up device w h) in
        elim (Bool-cases (efi_error status)) [ inl y ↦ (w, rw y, h) | inr n ↦ (w', rw n e, h') ]

    -- Unless the key Y is read, `offer_optical_install` returns without a call of a disk: what the
    -- other services leave as it is, such as the content of every disk, it leaves as it is.
    pub offer_optical_install-keeps :
        (w : W) → P w → (w' : W) × (offer_optical_install firmware w ≡ done w') × P w'
    unfolding offer_optical_install
    offer_optical_install-keeps w h = with_image-Leaves (firmware.loaded_image w) (keeps.loads w h)
