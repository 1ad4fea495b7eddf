-- ===== src/Boot.antt =====
-- boot/main.c: the UEFI boot loader. The firmware is a parameter: a record of the services that the
-- code calls, each a function of the state `W` of the machine.
pub mod Install
pub mod Offer
pub mod Load
pub mod Exit
use un_orion.Common.{ℕ, ◌^◌, ◌+◌, Bool, Option, Bytes, List, leb}

-- `EFI_STATUS`; an error has the top bit.
abbrev pub efi_error : ℕ → Bool
efi_error status = leb (2 ^ 63) status

abbrev pub efi_success : ℕ
efi_success = 0

abbrev pub efi_load_error : ℕ
efi_load_error = 2 ^ 63 + 1

abbrev pub efi_invalid_parameter : ℕ
efi_invalid_parameter = 2 ^ 63 + 2

abbrev pub efi_unsupported : ℕ
efi_unsupported = 2 ^ 63 + 3

abbrev pub efi_buffer_too_small : ℕ
efi_buffer_too_small = 2 ^ 63 + 5

abbrev pub efi_not_found : ℕ
efi_not_found = 2 ^ 63 + 14

-- The fields of `EFI_BLOCK_IO_MEDIA` that the code reads.
pub record Media : Type 0 where
  pub media_id : ℕ
  pub media_present : Bool
  pub logical_partition : Bool
  pub read_only : Bool
  pub block_size : ℕ
  pub last_block : ℕ

-- `EFI_BLOCK_IO_PROTOCOL`; a read gets the media's id, the block, the byte count and the buffer.
pub record BlockIo (W : Type 0) : Type 0 where
  pub media : Option Media
  pub read_blocks : ℕ → ℕ → ℕ → Bytes → W → ℕ × Bytes × W
  pub write_blocks : ℕ → ℕ → ℕ → Bytes → W → ℕ × W
  pub flush_blocks : W → ℕ × W

-- The boot services that an installation calls; a handle is a number.
pub record Firmware (W : Type 0) : Type 0 where
  pub locate_block_handles : W → ℕ × List ℕ × W
  pub block_io : ℕ → W → ℕ × Option (BlockIo W) × W
  pub loaded_image : W → ℕ × Option ℕ × W
  pub allocate_pool : ℕ → W → ℕ × Bytes × W
  pub free_pool : W → W
  pub create_timer : W → ℕ × W
  pub set_timer : ℕ → W → ℕ × W
  pub close_timer : W → W
  pub wait_for_event : W → ℕ × ℕ × W
  pub read_key_stroke : W → ℕ × ℕ × W
