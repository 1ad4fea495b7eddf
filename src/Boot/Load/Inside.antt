-- ===== src/Boot/Load/Inside.antt =====
-- boot/main.c: what `load_kernel` copies lies in the file.
use un_orion.Common.{
  ℕ, zero, suc, ◌+◌, ◌*◌, ◌≤◌, ◌≡◌, ◌↔◌, ◌∙◌, refl, sym, ap, inl, inr, true, false, some, [], ◌∷◌,
  Bytes, byte, length, take-six, Bool-cases, arith,
}
use un_orion.Boot.Load.Fields.{bytes_at, little_endian, field-little_endian, two_bytes_iff}
use un_orion.Boot.{efi_error}
use un_orion.Boot.Load.{
  field, phdr_bytes, e_phoff, e_phnum, is_elf_kind, valid_kernel_elf, Segment, segment_at,
  size_to_pages, Loader, place, refuses, is_passed_over, load_segments,
}

-- A 64-bit little-endian file for x86-64, by the offsets of the ELF format: the magic with the class and
-- the data encoding, `e_machine`, `e_phentsize`, and `e_phoff` with `e_phnum` entries of 56 bytes, all of
-- which are in the file.
pub record IsKernelElf (file : Bytes) : Type 0 where
  pub whole : 64 ≤ length file
  pub ident : bytes_at 0 6 file ≡ 0x7f ∷ 0x45 ∷ 0x4c ∷ 0x46 ∷ 2 ∷ 1 ∷ []
  pub machine : bytes_at 18 2 file ≡ 62 ∷ 0 ∷ []
  pub entry_size : bytes_at 54 2 file ≡ 56 ∷ 0 ∷ []
  pub table :
      little_endian (bytes_at 32 8 file) + little_endian (bytes_at 56 2 file) * 56 ≤ length file

abbrev magic : Bytes
magic = 0x7f ∷ 0x45 ∷ 0x4c ∷ 0x46 ∷ 2 ∷ 1 ∷ []

is_elf_kind-bytes :
    (file : Bytes)
    → 64 ≤ length file
    → is_elf_kind file ≡ true
    → (bytes_at 0 6 file ≡ magic)
      × (bytes_at 18 2 file ≡ 62 ∷ 0 ∷ [])
      × (bytes_at 54 2 file ≡ 56 ∷ 0 ∷ [])
unfolding is_elf_kind
is_elf_kind-bytes file long h =
    let b0 : byte file 0 ≡ 0x7f = ground arith in
    let b1 : byte file 1 ≡ 0x45 = ground arith in
    let b2 : byte file 2 ≡ 0x4c = ground arith in
    let b3 : byte file 3 ≡ 0x46 = ground arith in
    let b4 : byte file 4 ≡ 2 = ground arith in
    let b5 : byte file 5 ≡ 1 = ground arith in
    let machine : field 2 file 18 ≡ 62 = ground arith in
    let entry : field 2 file 54 ≡ 56 = ground arith in
    (
      take-six file (omega arith) ∙ rw (b0, b1, b2, b3, b4, b5) refl,
      (two_bytes_iff 18 62 file (omega arith) (omega arith)).0 machine,
      (two_bytes_iff 54 56 file (omega arith) (omega arith)).0 entry,
    )

bytes-is_elf_kind : (file : Bytes) → IsKernelElf file → is_elf_kind file ≡ true
unfolding is_elf_kind
bytes-is_elf_kind file h =
    let long = h.whole in
    let same : byte file 0
          ∷ byte file 1
          ∷ byte file 2
          ∷ byte file 3
          ∷ byte file 4
          ∷ byte file 5
          ∷ []
        ≡ magic =
      sym (take-six file (omega arith)) ∙ h.ident in
    let b0 : byte file 0 ≡ 0x7f = ap (λ s. byte s 0) same in
    let b1 : byte file 1 ≡ 0x45 = ap (λ s. byte s 1) same in
    let b2 : byte file 2 ≡ 0x4c = ap (λ s. byte s 2) same in
    let b3 : byte file 3 ≡ 0x46 = ap (λ s. byte s 3) same in
    let b4 : byte file 4 ≡ 2 = ap (λ s. byte s 4) same in
    let b5 : byte file 5 ≡ 1 = ap (λ s. byte s 5) same in
    let machine = (two_bytes_iff 18 62 file (omega arith) (omega arith)).1 h.machine in
    let entry = (two_bytes_iff 54 56 file (omega arith) (omega arith)).1 h.entry_size in
    rw (b0, b1, b2, b3, b4, b5, machine, entry) refl

-- The end of the table, by the fields that the code reads.
table_end :
    (file : Bytes)
    → 64 ≤ length file
    → e_phoff file + e_phnum file * phdr_bytes
      ≡ little_endian (bytes_at 32 8 file) + little_endian (bytes_at 56 2 file) * 56
table_end file long =
    rw (field-little_endian 8 32 file (omega arith), field-little_endian 2 56 file (omega arith))
      refl

accepted-IsKernelElf :
    (file : Bytes) → valid_kernel_elf (some file) (length file) ≡ true → IsKernelElf file
unfolding valid_kernel_elf
accepted-IsKernelElf file h =
    let long : 64 ≤ length file = ground arith in
    let kind : is_elf_kind file ≡ true = ground arith in
    let inside : e_phoff file + e_phnum file * phdr_bytes ≤ length file = ground arith in
    let (ident, machine, entry_size) = is_elf_kind-bytes file long kind in
    record {
      whole = long;
      ident = ident;
      machine = machine;
      entry_size = entry_size;
      table = rw (table_end file long) at inside;
    }

IsKernelElf-accepted :
    (file : Bytes) → IsKernelElf file → valid_kernel_elf (some file) (length file) ≡ true
unfolding valid_kernel_elf
IsKernelElf-accepted file h =
    let long = h.whole in
    let kind = bytes-is_elf_kind file h in
    let inside : e_phoff file + e_phnum file * phdr_bytes ≤ length file =
      rw (table_end file long) (h.table) in
    ground arith

-- The header of a file of `file_size` bytes is accepted exactly if the file is, byte by byte, a 64-bit
-- little-endian ELF file for x86-64 with a whole header, and the whole table of program headers, of
-- 56 bytes each, lies in the file.
pub valid_kernel_elf_iff :
    (file : Bytes) (file_size : ℕ)
    → length file ≡ file_size
    → (valid_kernel_elf (some file) file_size ≡ true) ↔ IsKernelElf file
valid_kernel_elf_iff file file_size e = (
  λ h. accepted-IsKernelElf file (ap (valid_kernel_elf (some file)) e ∙ h),
  λ h. ap (valid_kernel_elf (some file)) (sym e) ∙ IsKernelElf-accepted file h,
)

-- A segment that is copied: it is loadable, it lies in the file, and its memory has room for it.
pub record IsSound (file_size : ℕ) (s : Segment) : Type 0 where
  pub kind : s.kind ≡ 1
  pub used : 1 ≤ s.memsz
  pub inside : s.offset + s.filesz ≤ file_size
  pub room : s.filesz ≤ s.memsz

placed-IsSound :
    (file_size : ℕ) (s : Segment)
    → is_passed_over s ≡ false
    → refuses file_size s ≡ false
    → IsSound file_size s
unfolding is_passed_over refuses
placed-IsSound file_size s a b = record {
  kind = ground arith;
  used = ground arith;
  inside = ground arith;
  room = ground arith;
}

module _ {W : Type 0} (loader : Loader W) (file_size : ℕ) (file : Bytes) (P : W → Type 0) where
  -- What holds of the machine before loading holds after it, if it outlasts every allocation of pages
  -- and every copy of a segment that is loadable, lies in the file and has room in its memory.
  pub load_segments-keeps :
      ((pages address : ℕ) (w : W) → P w → P (loader.allocate_pages pages address w).1)
      → ((i : ℕ) (w : W)
          → IsSound file_size (segment_at file i)
          → P w
          → P (place loader file (segment_at file i) w))
      → (i n : ℕ) (w : W) → P w
      → P (load_segments loader file_size file i n w).1
  unfolding load_segments
  load_segments-keeps a c i zero w h = h
  load_segments-keeps a c i (suc n) w h =
      let s = segment_at file i in
      elim (Bool-cases (is_passed_over s)) [
        | inl y ↦ rw y (load_segments-keeps a c (i + 1) n w h)
        | inr use_it ↦ elim (Bool-cases (refuses file_size s)) [
          | inl y ↦ rw (use_it, y) h
          | inr fine ↦
              let h' = a (size_to_pages s.memsz) s.paddr w h in
              elim (Bool-cases
                (efi_error (loader.allocate_pages (size_to_pages s.memsz) s.paddr w).0)) [
                  | inl y ↦ rw (use_it, fine, y) h'
                  | inr ok ↦
                      rw (use_it, fine, ok)
                        (load_segments-keeps a c (i + 1) n _
                          (c i _ (placed-IsSound file_size s use_it fine) h'))
                ]
        ]
      ]
