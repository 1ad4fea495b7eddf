-- ===== src/Boot/Install.antt =====
-- boot/main.c: installing from optical media.
pub mod Target
pub mod Chunk
pub mod Overlay
pub mod Loop
pub mod Copy
use un_orion.Common.{
  ℕ, zero, suc, ◌+◌, ◌-◌, ◌*◌, ◌/◌, ◌%◌, ◌^◌, Bool, true, false, not, ◌&&◌, ◌||◌, Option, none,
  some, List, [], ◌∷◌, Bytes, u64, ltb, leb, ◌==◌, if◌then◌else◌, is_null, Run, done, out_of_fuel,
  ◌>>=◌,
}
use un_orion.Boot.{
  efi_error, efi_success, efi_invalid_parameter, efi_unsupported, efi_not_found, Media, BlockIo,
  Firmware,
}

abbrev pub install_chunk : ℕ
install_chunk = 64 * 1024

-- `((UINT64)LastBlock + 1ULL) * (UINT64)BlockSize`
abbrev pub media_bytes : Media → ℕ
media_bytes m = u64 (u64 (m.last_block + 1) * m.block_size)

-- Not passed over by the tests on a handle's media.
unfoldable pub is_target : ℕ → Media → Bool
is_target source_bytes m =
    m.media_present
    && not m.read_only
    && not m.logical_partition
    && not (m.block_size == 0)
    && not (ltb (media_bytes m) source_bytes)
    && source_bytes % m.block_size == 0

-- The loop's two variables `chosen` and `candidates` after the tests on a handle's media.
abbrev pub test_media :
    {W : Type 0} → ℕ → Option (BlockIo W) × ℕ → BlockIo W → Option Media → Option (BlockIo W) × ℕ
test_media source_bytes acc bio none = acc
test_media source_bytes acc bio (some m) =
    if is_target source_bytes m then (some bio, u64 (acc.1 + 1)) else acc

-- The same two after one handle, with the machine.
abbrev pub consider :
    {W : Type 0}
    → ℕ
    → Option (BlockIo W) × ℕ
    → ℕ × Option (BlockIo W) × W
    → (Option (BlockIo W) × ℕ) × W
consider source_bytes acc (status, none, w) = (acc, w)
consider source_bytes acc (status, some bio, w) =
    ((if efi_error status then acc else test_media source_bytes acc bio bio.media), w)

module _ {W : Type 0} (firmware : Firmware W) where
  unfoldable pub scan_handles :
      ℕ → ℕ → List ℕ → Option (BlockIo W) × ℕ → W → (Option (BlockIo W) × ℕ) × W
  scan_handles source_handle source_bytes [] acc w = (acc, w)
  scan_handles source_handle source_bytes (h ∷ handles) acc w =
      let (acc', w') = consider source_bytes acc (firmware.block_io h w) in
      let passed_over = scan_handles source_handle source_bytes handles acc w in
      let considered = scan_handles source_handle source_bytes handles acc' w' in
      if h == source_handle then passed_over else considered

  -- The status, what `*target_out` is set to, and the machine.
  abbrev pub single : (Option (BlockIo W) × ℕ) × W → ℕ × Option (BlockIo W) × W
  single ((chosen, candidates), w) =
      let w' = firmware.free_pool w in
      if not (candidates == 1) || is_null chosen
      then (efi_not_found, none, w')
      else (efi_success, chosen, w')

  unfoldable pub find_single_install_target : ℕ → ℕ → W → ℕ × Option (BlockIo W) × W
  find_single_install_target source_handle source_bytes w =
      let (status, handles, w1) = firmware.locate_block_handles w in
      if efi_error status
      then (status, none, w1)
      else single (scan_handles source_handle source_bytes handles (none, 0) w1)

-- The loop that looks for a chunk; `none` where it returns.
unfoldable pub find_chunk : ℕ → ℕ → ℕ → ℕ → Run (Option ℕ)
find_chunk zero source_block target_block chunk = out_of_fuel
find_chunk (suc fuel) source_block target_block chunk =
    let rest = find_chunk fuel source_block target_block (u64 (chunk + source_block)) in
    if chunk % source_block == 0 && chunk % target_block == 0
    then done (some chunk)
    else if ltb (1024 * 1024) (u64 (chunk + source_block))
    then done none
    else rest

module _ {W : Type 0} where
  -- The copy loop: the last status and the machine.
  unfoldable pub copy_loop :
      ℕ → BlockIo W → BlockIo W → Media → Media → ℕ → ℕ → ℕ → ℕ → ℕ → Bytes → W → Run (ℕ × W)
  copy_loop zero source target sm tm chunk source_lba target_lba remaining status buffer w =
      out_of_fuel
  copy_loop (suc fuel) source target sm tm chunk source_lba target_lba remaining status buffer w =
      let bytes = if ltb chunk remaining then chunk else remaining in
      let (read_status, buffer', w1) = source.read_blocks sm.media_id source_lba bytes buffer w in
      let (write_status, w2) = target.write_blocks tm.media_id target_lba bytes buffer' w1 in
      let rest =
        copy_loop fuel source target sm tm chunk (u64 (source_lba + bytes / sm.block_size))
          (u64 (target_lba + bytes / tm.block_size)) (remaining - bytes) write_status buffer' w2 in
      if remaining == 0
      then done (status, w)
      else if efi_error read_status
      then done (read_status, w1)
      else if efi_error write_status
      then done (write_status, w2)
      else rest

  -- The call of `FlushBlocks` and what follows.
  abbrev pub flush_after : Firmware W → BlockIo W → ℕ × W → Run (ℕ × W)
  flush_after firmware target (status, w) =
      let (flush_status, w') = target.flush_blocks w in
      if efi_error status
      then done (status, firmware.free_pool w)
      else done (flush_status, firmware.free_pool w')

  abbrev pub copy_chunks :
      Firmware W → BlockIo W → BlockIo W → Media → Media → W → Option ℕ → Run (ℕ × W)
  copy_chunks firmware source target sm tm w none = done (efi_unsupported, w)
  copy_chunks firmware source target sm tm w (some chunk) =
      let (status, buffer, w1) = firmware.allocate_pool chunk w in
      if efi_error status then done (status, w1) else do
        r ←
            copy_loop (suc (media_bytes sm)) source target sm tm chunk 0 0 (media_bytes sm) status
              buffer w1
        flush_after firmware target r

  unfoldable pub copy_media :
      Firmware W → BlockIo W → BlockIo W → Option Media → Option Media → W → Run (ℕ × W)
  copy_media firmware source target (some sm) (some tm) w =
      if sm.block_size == 0 || tm.block_size == 0
      then done (efi_unsupported, w)
      else if not (media_bytes sm % tm.block_size == 0)
      then done (efi_unsupported, w)
      else do
        chunk ← find_chunk (2 ^ 20) sm.block_size tm.block_size install_chunk
        copy_chunks firmware source target sm tm w chunk
  copy_media firmware source target sm tm w = done (efi_invalid_parameter, w)

  unfoldable pub copy_install_media :
      Firmware W → Option (BlockIo W) → Option (BlockIo W) → W → Run (ℕ × W)
  copy_install_media firmware (some source) (some target) w =
      copy_media firmware source target source.media target.media w
  copy_install_media firmware source target w = done (efi_invalid_parameter, w)
