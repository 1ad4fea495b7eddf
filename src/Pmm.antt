-- ===== src/Pmm.antt =====
-- kernel/pmm.c, include/pmm.h, include/bootinfo.h: the allocator of physical pages. The static
-- variables are the record `Pmm`. Of the array `recycled` the first `recycled_count` entries are kept,
-- the last of them first. The memory behind `memory_map` is the field `descriptor`, a function of the
-- offset; the two linker symbols are the record `Kernel`.
pub mod Map
pub mod Turns
pub mod Scan
pub mod Owners
pub mod Free
pub mod Safety
use un_orion.Common.{
  ℕ, zero, suc, ◌+◌, ◌-◌, ◌*◌, ◌/◌, ◌%◌, ◌^◌, Bool, true, false, not, ◌&&◌, ◌||◌, Option, none,
  some, List, [], ◌∷◌, length, u64, ltb, leb, ◌==◌, if◌then◌else◌, Run, done, out_of_fuel, ◌>>=◌,
}

abbrev pub page_size : ℕ
page_size = 4096

abbrev pub pmm_min_addr : ℕ
pmm_min_addr = 0x01000000

abbrev pub pmm_recycle_cap : ℕ
pmm_recycle_cap = 1024

-- `sizeof(EfiMemDesc)` and `sizeof(OrionBootInfo)`
abbrev pub desc_bytes : ℕ
desc_bytes = 40

abbrev pub boot_info_bytes : ℕ
boot_info_bytes = 64

-- The fields that the code reads, here and in the boot information.
pub record EfiMemDesc : Type 0 where
  pub kind : ℕ
  pub physical_start : ℕ
  pub pages : ℕ

-- `address` is the pointer itself.
pub record OrionBootInfo : Type 0 where
  pub address : ℕ
  pub framebuffer_base : ℕ
  pub framebuffer_size : ℕ
  pub memory_map : ℕ
  pub memory_map_size : ℕ
  pub memory_descriptor_size : ℕ
  pub descriptor : ℕ → EfiMemDesc

pub record Kernel : Type 0 where
  pub start : ℕ
  pub stop : ℕ

pub record Pmm : Type 0 where
  pub bi : Option OrionBootInfo
  pub total_pages_count : ℕ
  pub used_pages_count : ℕ
  pub scan_off : ℕ
  pub scan_addr : ℕ
  pub scan_end : ℕ
  pub recycled : List ℕ

-- `& ~(a - 1)` for the powers of two that the code calls it with
unfoldable pub align_up : ℕ → ℕ → ℕ
align_up v a = u64 (v + a + 2 ^ 64 - 1) / a * a

abbrev pub overlap : ℕ → ℕ → ℕ → ℕ → Bool
overlap a0 a1 b0 b1 = ltb a0 b1 && ltb b0 a1

unfoldable pub reserved_boot : ℕ → ℕ → Option OrionBootInfo → Bool
reserved_boot p e none = false
reserved_boot p e (some bi) =
    overlap p e bi.address (u64 (bi.address + boot_info_bytes))
    || overlap p e bi.memory_map (u64 (bi.memory_map + bi.memory_map_size))
    || overlap p e bi.framebuffer_base (u64 (bi.framebuffer_base + bi.framebuffer_size))

unfoldable pub reserved : Kernel → Option OrionBootInfo → ℕ → Bool
reserved k bi p = let e = u64 (p + page_size) in overlap p e k.start k.stop || reserved_boot p e bi

abbrev pub range_end : EfiMemDesc → ℕ
range_end d = u64 (d.physical_start + u64 (d.pages * page_size))

unfoldable pub range_start : EfiMemDesc → ℕ
range_start d =
    if ltb d.physical_start pmm_min_addr then align_up pmm_min_addr page_size else d.physical_start

-- Not skipped by the first tests of a loop body.
unfoldable pub is_conventional : EfiMemDesc → Bool
is_conventional d = d.kind == 7 && not (d.pages == 0) && leb d.physical_start (range_end d)

-- The test `p>=start&&p+PAGE_SIZE>p&&p+PAGE_SIZE<=end` of `conventional_page`
unfoldable pub covers : EfiMemDesc → ℕ → Bool
covers d p =
    is_conventional d
    && leb (range_start d) p
    && ltb p (u64 (p + page_size))
    && leb (u64 (p + page_size)) (range_end d)

-- The loop of `conventional_page` from offset `off`.
unfoldable pub covers_from : ℕ → OrionBootInfo → ℕ → ℕ → Run Bool
covers_from zero bi p off = out_of_fuel
covers_from (suc fuel) bi p off =
    let rest = covers_from fuel bi p (u64 (off + bi.memory_descriptor_size)) in
    if ltb bi.memory_map_size (u64 (off + desc_bytes))
    then done false
    else if covers (bi.descriptor off) p
    then done true
    else rest

unfoldable pub conventional_page : Option OrionBootInfo → ℕ → Run Bool
conventional_page none p = done false
conventional_page (some bi) p =
    if bi.memory_descriptor_size == 0 || ltb p pmm_min_addr || not (p % page_size == 0)
    then done false
    else covers_from (suc bi.memory_map_size) bi p 0

-- What one descriptor adds to `total_pages_count`.
unfoldable pub pages_of : EfiMemDesc → ℕ
pages_of d =
    if is_conventional d && ltb pmm_min_addr (range_end d) && ltb (range_start d) (range_end d)
    then (range_end d - range_start d) / page_size
    else 0

-- The loop of `pmm_init` from offset `off`, with `total` counted so far.
unfoldable pub count_from : ℕ → OrionBootInfo → ℕ → ℕ → Run ℕ
count_from zero bi total off = out_of_fuel
count_from (suc fuel) bi total off =
    let rest =
      count_from fuel bi (u64 (total + pages_of (bi.descriptor off)))
        (u64 (off + bi.memory_descriptor_size)) in
    if ltb bi.memory_map_size (u64 (off + desc_bytes)) then done total else rest

abbrev pub empty : Option OrionBootInfo → ℕ → Pmm
empty bi total = record {
  bi = bi;
  total_pages_count = total;
  used_pages_count = 0;
  scan_off = 0;
  scan_addr = 0;
  scan_end = 0;
  recycled = [];
}

unfoldable pub init : Option OrionBootInfo → Run Pmm
init none = done (empty none 0)
init (some bi) =
    if bi.memory_descriptor_size == 0
    then done (empty (some bi) 0)
    else do total ← count_from (suc bi.memory_map_size) bi 0 0; done (empty (some bi) total)

-- How one turn of the scan ends: a page is returned, 0 is returned, or the scan goes on.
pub data Turn : Type 0 where
  page : ℕ → Pmm → Turn
  exhausted : Pmm → Turn
  on : Pmm → Turn

-- One turn: of the `while` where its test holds, else of the `for` around it.
unfoldable pub turn : Kernel → OrionBootInfo → Pmm → Turn
turn k bi s =
    let p = s.scan_addr in
    let next = record s { scan_addr = u64 (p + page_size) } in
    let off = s.scan_off in
    let d = bi.descriptor off in
    let moved = record s {
      scan_off = u64 (off + bi.memory_descriptor_size);
      scan_addr = 0;
      scan_end = 0;
    } in
    if not (p == 0) && leb (u64 (p + page_size)) s.scan_end
    then (if reserved k s.bi p
        then on next
        else page p (record next { used_pages_count = u64 (s.used_pages_count + 1) }))
    else if ltb bi.memory_map_size (u64 (off + desc_bytes))
    then exhausted (record s { scan_addr = 0; scan_end = 0 })
    else if is_conventional d && ltb pmm_min_addr (range_end d) && ltb (range_start d) (range_end d)
    then on (record moved { scan_addr = range_start d; scan_end = range_end d })
    else on moved

abbrev pub after_turn : (Pmm → Run (ℕ × Pmm)) → Turn → Run (ℕ × Pmm)
after_turn again (page p s) = done (p, s)
after_turn again (exhausted s) = done (0, s)
after_turn again (on s) = again s

unfoldable pub scan : ℕ → Kernel → OrionBootInfo → Pmm → Run (ℕ × Pmm)
scan zero k bi s = out_of_fuel
scan (suc fuel) k bi s = after_turn (scan fuel k bi) (turn k bi s)

unfoldable pub alloc_from : ℕ → Kernel → Option OrionBootInfo → List ℕ → Pmm → Run (ℕ × Pmm)
alloc_from fuel k bi (p ∷ rest) s =
    done (p, record s { recycled = rest; used_pages_count = u64 (s.used_pages_count + 1) })
alloc_from fuel k none [] s = done (0, s)
alloc_from fuel k (some bi) [] s =
    if bi.memory_descriptor_size == 0 then done (0, s) else scan fuel k bi s

unfoldable pub alloc_page : ℕ → Kernel → Pmm → Run (ℕ × Pmm)
alloc_page fuel k s = alloc_from fuel k s.bi s.recycled s

-- `recycled[i]==page` for some `i`
unfoldable pub listed : ℕ → List ℕ → Bool
listed p [] = false
listed p (q ∷ qs) = let rest = listed p qs in if q == p then true else rest

unfoldable pub free_page : Kernel → ℕ → Pmm → Run (Bool × Pmm)
free_page k p s = if p == 0 || s.used_pages_count == 0 then done (false, s) else do
  c ← conventional_page s.bi p
  if not c || reserved k s.bi p || leb pmm_recycle_cap (length s.recycled)
      then done (false, s)
      else if listed p s.recycled
      then done (false, s)
      else done
          (true, record s { recycled = p ∷ s.recycled; used_pages_count = s.used_pages_count - 1 })

unfoldable pub free_pages : Pmm → ℕ
free_pages s =
    if ltb s.used_pages_count s.total_pages_count
    then s.total_pages_count - s.used_pages_count
    else 0
