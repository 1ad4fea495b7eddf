-- ===== src/Boot/Offer.antt =====
-- boot/main.c: `read_key_with_timeout` and `offer_optical_install`. What `Print` shows is left out.
pub mod Consent
use un_orion.Common.{
  ℕ, ◌*◌, not, ◌&&◌, ◌||◌, Option, none, some, u64, ◌==◌, if◌then◌else◌, Run, done, ◌>>=◌,
}
use un_orion.Boot.{efi_error, Media, BlockIo, Firmware}
use un_orion.Boot.Install.{media_bytes, find_single_install_target, copy_install_media}

module _ {W : Type 0} (firmware : Firmware W) where
  -- The wait on the two events; event 0 is the keyboard.
  abbrev pub waited_key : ℕ × ℕ × W → ℕ × W
  waited_key (status, index, w) =
      let (key_status, key, w') = firmware.read_key_stroke w in
      if not (efi_error status) && index == 0
      then ((if efi_error key_status then 0 else key), firmware.close_timer w')
      else (0, firmware.close_timer w)

  unfoldable pub read_key_with_timeout : ℕ → W → ℕ × W
  read_key_with_timeout seconds w =
      let (status, w1) = firmware.create_timer w in
      let (set_status, w2) = firmware.set_timer (u64 (seconds * 10000000)) w1 in
      if efi_error status
      then (0, w1)
      else if efi_error set_status
      then (0, firmware.close_timer w2)
      else waited_key (firmware.wait_for_event w2)

  -- The second question and the copy.
  abbrev pub confirm : BlockIo W → ℕ × Option (BlockIo W) × W → Run W
  confirm source (status, none, w) = done w
  confirm source (status, some target, w) =
      if efi_error status
      then done w
      else let (key, w1) = read_key_with_timeout 10 w in
        if not (key == 0x79) && not (key == 0x59)
        then done w1
        else do r ← copy_install_media firmware (some source) (some target) w1; done r.1

  -- The first question, once the source is known.
  abbrev pub ask : ℕ → BlockIo W → Option Media → W → Run W
  ask device source none w = done w
  ask device source (some m) w =
      if not m.read_only || not m.media_present
      then done w
      else let (key, w1) = read_key_with_timeout 5 w in
        if not (key == 0x69) && not (key == 0x49)
        then done w1
        else confirm source (find_single_install_target firmware device (media_bytes m) w1)

  abbrev pub with_source : ℕ → ℕ × Option (BlockIo W) × W → Run W
  with_source device (status, none, w) = done w
  with_source device (status, some source, w) =
      if efi_error status then done w else ask device source source.media w

  abbrev pub with_image : ℕ × Option ℕ × W → Run W
  with_image (status, none, w) = done w
  with_image (status, some device, w) =
      if efi_error status then done w else with_source device (firmware.block_io device w)

  unfoldable pub offer_optical_install : W → Run W
  offer_optical_install w = with_image (firmware.loaded_image w)
