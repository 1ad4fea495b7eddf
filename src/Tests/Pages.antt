-- ===== src/Tests/Pages.antt =====
-- A small memory map for kernel/pmm.c: three pages at 16 MiB, then memory that is in use.
use un_orion.Common.{
  ℕ, ◌^◌, ◌≤◌, ◌≡◌, ◌⊎◌, refl, Bool, true, false, some, [], ◌∷◌, length, ◌==◌, if◌then◌else◌, done,
  arith,
}
use un_orion.Pmm.{
  pmm_recycle_cap, OrionBootInfo, Pmm, Kernel, init, count_from, pages_of, is_conventional,
  range_start, align_up, alloc_page, alloc_from, scan, turn, reserved, reserved_boot, listed,
  free_page, conventional_page, covers_from, covers,
}
use un_orion.Pmm.Map.{IsPageAt, IsMap, Passed}
use un_orion.Pmm.Owners.{Distinct}
use un_orion.Pmm.Safety.{
  Reached, start, then_, got_page, alloc_page-exclusive, Reached-recycled, free_page-alloc_page,
}

abbrev base : ℕ
base = 0x1000000

abbrev boot : OrionBootInfo
boot = record {
  address = 0x5000;
  framebuffer_base = 0xe0000000;
  framebuffer_size = 0x300000;
  memory_map = 0x6000;
  memory_map_size = 96;
  memory_descriptor_size = 48;
  descriptor = λ off.
      if off == 0
      then record { kind = 7; physical_start = 0x1000000; pages = 3 }
      else record { kind = 4; physical_start = 0x2000000; pages = 5 };
}

abbrev kernel : Kernel
kernel = record { start = 0x100000; stop = 0x180000 }

abbrev begin : Pmm
begin = record {
  bi = some boot;
  total_pages_count = 3;
  used_pages_count = 0;
  scan_off = 0;
  scan_addr = 0;
  scan_end = 0;
  recycled = [];
}

abbrev one_out : Pmm
one_out = record begin {
  used_pages_count = 1;
  scan_off = 48;
  scan_addr = 0x1001000;
  scan_end = 0x1003000;
}

abbrev enough : ℕ
enough = 2 ^ 72

abbrev back : Pmm
back = record one_out { used_pages_count = 0; recycled = 0x1000000 ∷ [] }

init-begin : init (some boot) ≡ done begin
unfolding init count_from pages_of is_conventional range_start align_up
init-begin = refl

alloc_page-begin : alloc_page enough kernel begin ≡ done (0x1000000, one_out)
unfolding alloc_page alloc_from scan turn reserved reserved_boot is_conventional range_start
    align_up
alloc_page-begin = refl

only_first : (off : ℕ) → is_conventional (boot.descriptor off) ≡ true → off ≡ 0
unfolding is_conventional
only_first off h = ground arith

boot-IsMap : IsMap boot
boot-IsMap = record {
  step = omega arith;
  fits = omega arith;
  low = λ off o i c. rw (only_first off c) (omega arith);
  apart = λ off off' p p' l a b. omega (arith, only_first off' b.conventional);
}

free_page-one_out : free_page kernel 0x1000000 one_out ≡ done (true, back)
unfolding free_page conventional_page covers_from covers reserved reserved_boot is_conventional
    range_start align_up listed
free_page-one_out = refl

-- A page that was never handed out is accepted too.
free_page-other :
    free_page kernel 0x1002000 one_out
    ≡ done (true, record one_out { used_pages_count = 0; recycled = 0x1002000 ∷ [] })
unfolding free_page conventional_page covers_from covers reserved reserved_boot is_conventional
    range_start align_up listed
free_page-other = refl

abbrev mine : ℕ → Bool
mine q = if q == 0x1000000 then true else false

reached : Reached kernel boot mine one_out
reached =
    then_ (start init-begin) (got_page {fuel = enough} (omega arith) alloc_page-begin (omega arith))

alloc_page-exclusive_example :
    (p : ℕ) × (s' : Pmm) × (alloc_page enough kernel one_out ≡ done (p, s'))
    × ((p ≡ 0)
        ⊎ ((mine p ≡ false)
            × (reserved kernel (some boot) p ≡ false)
            × (off : ℕ) × IsPageAt boot off p))
alloc_page-exclusive_example =
    alloc_page-exclusive kernel boot boot-IsMap enough reached (omega arith)

Reached-recycled_example :
    ((q : ℕ)
      → listed q one_out.recycled ≡ true
      → (mine q ≡ false) × (reserved kernel (some boot) q ≡ false) × Passed boot one_out q)
    × Distinct one_out.recycled
    × (length one_out.recycled ≤ pmm_recycle_cap)
Reached-recycled_example = Reached-recycled kernel boot boot-IsMap reached

free_page-alloc_page_example :
    (alloc_page enough kernel back ≡ done (0x1000000, one_out))
    × (free_page kernel 0x1000000 back ≡ done (false, back))
free_page-alloc_page_example =
    free_page-alloc_page kernel boot boot-IsMap enough 0x1000000 reached (omega arith)
      free_page-one_out
