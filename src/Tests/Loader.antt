-- ===== src/Tests/Loader.antt =====
-- A small kernel file and a firmware whose memory map changes once, for boot/main.c.
use un_orion.Common.{
  suc, zero, ◌≢◌, ltb, ℕ, ◌+◌, ◌≤◌, ◌≡◌, ◌↔◌, refl, true, some, [], ◌∷◌, ◌++◌, Bytes, replicate,
  arith, ◌==◌, if◌then◌else◌,
}
use un_orion.Boot.{efi_buffer_too_small, efi_invalid_parameter}
use un_orion.Boot.Load.{
  is_elf_kind, field, valid_kernel_elf, segment_at, Loader, load_segments, place,
}
use un_orion.Boot.Load.Inside.{IsSound, IsKernelElf, valid_kernel_elf_iff, load_segments-keeps}
use un_orion.Boot.Exit.{MapInfo, MapFields, Services}

-- The ELF header, one program header and eight bytes of code.
abbrev kernel_file : Bytes
kernel_file =
    0x7f ∷ 0x45 ∷ 0x4c ∷ 0x46 ∷ 2 ∷ 1 ∷ replicate 12 0
    ++ 62 ∷ 0 ∷ replicate 4 0
    ++ replicate 8 0
    ++ 64 ∷ replicate 7 0
    ++ replicate 14 0
    ++ 56 ∷ 0 ∷ 1 ∷ 0 ∷ replicate 6 0
    ++ 1 ∷ replicate 7 0
    ++ 120 ∷ replicate 7 0
    ++ replicate 8 0
    ++ 0 ∷ 0 ∷ 16 ∷ replicate 5 0
    ++ 8 ∷ replicate 7 0
    ++ 32 ∷ replicate 7 0
    ++ replicate 8 0
    ++ 1 ∷ 2 ∷ 3 ∷ 4 ∷ 5 ∷ 6 ∷ 7 ∷ 8 ∷ []

kernel_file-valid : valid_kernel_elf (some kernel_file) 128 ≡ true
unfolding valid_kernel_elf is_elf_kind field
kernel_file-valid = refl

valid_kernel_elf_iff_example :
    (valid_kernel_elf (some kernel_file) 128 ≡ true) ↔ IsKernelElf kernel_file
valid_kernel_elf_iff_example = valid_kernel_elf_iff kernel_file 128 refl

-- A machine that counts the bytes it was given.
abbrev loader : Loader ℕ
loader = record {
  loaded_image = λ w. (0, w);
  file_system = λ w. (0, w);
  open_volume = λ w. (0, w);
  open_kernel = λ w. (0, w);
  info_size = λ w. (efi_buffer_too_small, 80, w);
  allocate_pool = λ n w. (0, w);
  file_size = λ n w. (0, 128, w);
  read_file = λ n w. (0, kernel_file, w);
  allocate_pages = λ n a w. (0, w);
  copy_mem = λ a bytes w. 1;
  zero_mem = λ a n w. w;
}

kept :
    (i w : ℕ)
    → IsSound 128 (segment_at kernel_file i)
    → w ≤ 1
    → place loader kernel_file (segment_at kernel_file i) w ≤ 1
kept i w s h = ground arith

load_segments-keeps_example : (load_segments loader 128 kernel_file 0 1 0).1 ≤ 1
load_segments-keeps_example =
    load_segments-keeps loader 128 kernel_file (λ w. w ≤ 1) (λ n a w h. h) kept 0 1 0 (omega arith)

-- The machine has the key of its memory map, and how often the map will still change: it does once
-- after each reading.
abbrev map_info : ℕ → MapInfo
map_info key = record { size = 96; key = key; desc_size = 48; desc_version = 1 }

abbrev changed : ℕ × ℕ → ℕ × ℕ
changed (key, zero) = (key, zero)
changed (key, suc left) = (key + 1, left)

-- Every key but that of the map is refused.
abbrev services : Services (ℕ × ℕ)
services = record {
  get_memory_map = λ capacity map w.
      ((if ltb capacity 96 then efi_buffer_too_small else 0), map_info w.0, changed w);
  allocate_pool = λ n w. (0, 0x9000, w);
  free_pool = λ map w. w;
  exit_services = λ key w. ((if key == w.0 then 0 else efi_invalid_parameter), w);
}

wrong_key_refused :
    (key : ℕ) (w : ℕ × ℕ) → key ≢ w.0 → (services.exit_services key w).0 ≡ efi_invalid_parameter
wrong_key_refused key w h = ground arith

abbrev fields : MapFields
fields = record {
  memory_map = 0;
  memory_map_size = 0;
  memory_descriptor_size = 0;
  memory_descriptor_version = 0;
}

abbrev rounds : ℕ → ℕ × ℕ → ℕ
rounds capacity w = w.1 + (if ltb capacity 96 then 1 else 0)
