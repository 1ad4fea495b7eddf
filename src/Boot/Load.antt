-- ===== src/Boot/Load.antt =====
-- boot/main.c: `valid_kernel_elf` and `load_kernel`. The file is the list of its bytes, which the
-- machine reads in little-endian order.
pub mod Fields
pub mod Inside
use un_orion.Common.{
  ℕ, zero, suc, ◌+◌, ◌-◌, ◌*◌, ◌/◌, ◌%◌, ◌^◌, Bool, true, false, not, ◌&&◌, ◌||◌, Option, none,
  some, List, [], ◌∷◌, Bytes, byte, take, drop, length, u64, ltb, leb, ◌==◌, if◌then◌else◌,
}
use un_orion.Boot.{efi_error, efi_success, efi_load_error, efi_buffer_too_small}

-- A field of `n` bytes at offset `i`.
unfoldable pub field : ℕ → Bytes → ℕ → ℕ
field zero p i = 0
field (suc n) p i = byte p i + 2 ^ 8 * field n p (i + 1)

-- `sizeof(Elf64_Ehdr)` and `sizeof(Elf64_Phdr)`
abbrev pub ehdr_bytes : ℕ
ehdr_bytes = 64

abbrev pub phdr_bytes : ℕ
phdr_bytes = 56

abbrev pub e_phoff : Bytes → ℕ
e_phoff file = field 8 file 32

abbrev pub e_phnum : Bytes → ℕ
e_phnum file = field 2 file 56

abbrev pub e_entry : Bytes → ℕ
e_entry file = field 8 file 24

-- The magic, 64-bit, little-endian, x86-64, and the size of a program header.
unfoldable pub is_elf_kind : Bytes → Bool
is_elf_kind file =
    byte file 0 == 0x7f
    && byte file 1 == 0x45
    && byte file 2 == 0x4c
    && byte file 3 == 0x46
    && byte file 4 == 2
    && byte file 5 == 1
    && field 2 file 18 == 62
    && field 2 file 54 == phdr_bytes

unfoldable pub valid_kernel_elf : Option Bytes → ℕ → Bool
valid_kernel_elf none file_size = false
valid_kernel_elf (some file) file_size =
    if ltb file_size ehdr_bytes
    then false
    else if not (is_elf_kind file)
    then false
    else if ltb file_size (e_phoff file)
    then false
    else if ltb (file_size - e_phoff file) (e_phnum file * phdr_bytes)
    then false
    else true

-- The fields of `Elf64_Phdr` that the code reads.
pub record Segment : Type 0 where
  pub kind : ℕ
  pub offset : ℕ
  pub paddr : ℕ
  pub filesz : ℕ
  pub memsz : ℕ

unfoldable pub segment_at : Bytes → ℕ → Segment
segment_at file i =
    let at = e_phoff file + i * phdr_bytes in
    record {
      kind = field 4 file at;
      offset = field 8 file (at + 8);
      paddr = field 8 file (at + 24);
      filesz = field 8 file (at + 32);
      memsz = field 8 file (at + 40);
    }

-- `EFI_SIZE_TO_PAGES`
abbrev pub size_to_pages : ℕ → ℕ
size_to_pages n = n / 4096 + (if n % 4096 == 0 then 0 else 1)

-- The services that loading calls. `copy_mem` gets an address and the bytes, `zero_mem` an address and
-- a count. `info_size` is the first call of `GetInfo` and `file_size` the second.
pub record Loader (W : Type 0) : Type 0 where
  pub loaded_image : W → ℕ × W
  pub file_system : W → ℕ × W
  pub open_volume : W → ℕ × W
  pub open_kernel : W → ℕ × W
  pub info_size : W → ℕ × ℕ × W
  pub allocate_pool : ℕ → W → ℕ × W
  pub file_size : ℕ → W → ℕ × ℕ × W
  pub read_file : ℕ → W → ℕ × Bytes × W
  pub allocate_pages : ℕ → ℕ → W → ℕ × W
  pub copy_mem : ℕ → Bytes → W → W
  pub zero_mem : ℕ → ℕ → W → W

-- The checks of a segment that is not passed over.
unfoldable pub refuses : ℕ → Segment → Bool
refuses file_size s =
    ltb s.memsz s.filesz || ltb file_size s.offset || ltb (file_size - s.offset) s.filesz

unfoldable pub is_passed_over : Segment → Bool
is_passed_over s = not (s.kind == 1) || s.memsz == 0

module _ {W : Type 0} (loader : Loader W) where
  -- `CopyMem` and `SetMem` of one segment
  abbrev pub place : Bytes → Segment → W → W
  place file s w =
      let w' = loader.copy_mem s.paddr (take s.filesz (drop s.offset file)) w in
      if ltb s.filesz s.memsz
      then loader.zero_mem (u64 (s.paddr + s.filesz)) (s.memsz - s.filesz) w'
      else w'

  -- The loop over the program headers from number `i`, with `n` left.
  unfoldable pub load_segments : ℕ → Bytes → ℕ → ℕ → W → ℕ × W
  load_segments file_size file i zero w = (efi_success, w)
  load_segments file_size file i (suc n) w =
      let s = segment_at file i in
      let skip = load_segments file_size file (i + 1) n w in
      let (status, w') = loader.allocate_pages (size_to_pages s.memsz) s.paddr w in
      let rest = load_segments file_size file (i + 1) n (place file s w') in
      if is_passed_over s
      then skip
      else if refuses file_size s
      then (efi_load_error, w)
      else if efi_error status
      then (status, w')
      else rest

  -- From the check of the header on: the status, the entry point and the machine.
  unfoldable pub load_file : ℕ → Bytes → W → ℕ × Option ℕ × W
  load_file file_size file w =
      if not (valid_kernel_elf (some file) file_size)
      then (efi_load_error, none, w)
      else let (status, w') = load_segments file_size file 0 (e_phnum file) w in
        if status == efi_success then (efi_success, some (e_entry file), w') else (status, none, w')

  -- The reading of the file, after its size is known.
  unfoldable pub read_kernel : ℕ → W → ℕ × Option ℕ × W
  read_kernel file_size w =
      let (status, w1) = loader.allocate_pool file_size w in
      let (read_status, file, w2) = loader.read_file file_size w1 in
      if efi_error status
      then (status, none, w1)
      else if efi_error read_status || not (length file == file_size)
      then (efi_load_error, none, w2)
      else load_file file_size file w2

  unfoldable pub find_kernel : W → ℕ × Option ℕ × W
  find_kernel w =
      let (info_status, size, w1) = loader.info_size w in
      let (pool_status, w2) = loader.allocate_pool size w1 in
      let (get_status, file_size, w3) = loader.file_size size w2 in
      if not (info_status == efi_buffer_too_small)
      then (info_status, none, w1)
      else if efi_error pool_status
      then (pool_status, none, w2)
      else if efi_error get_status
      then (get_status, none, w3)
      else read_kernel file_size w3

  unfoldable pub load_kernel : W → ℕ × Option ℕ × W
  load_kernel w =
      let (image_status, w1) = loader.loaded_image w in
      let (system_status, w2) = loader.file_system w1 in
      let (volume_status, w3) = loader.open_volume w2 in
      let (open_status, w4) = loader.open_kernel w3 in
      if efi_error image_status
      then (image_status, none, w1)
      else if efi_error system_status
      then (system_status, none, w2)
      else if efi_error volume_status
      then (volume_status, none, w3)
      else if efi_error open_status
      then (open_status, none, w4)
      else find_kernel w4
