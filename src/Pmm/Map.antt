-- ===== src/Pmm/Map.antt =====
-- kernel/pmm.c: the firmware's memory map as the scan goes through it.
use un_orion.Common.{ℕ, ◌+◌, ◌^◌, ◌≤◌, ◌<◌, ◌≡◌, ◌⊎◌, true, some, arith}
use un_orion.Pmm.{
  page_size, pmm_min_addr, desc_bytes, EfiMemDesc, OrionBootInfo, Pmm, range_end, range_start,
  is_conventional, align_up,
}

-- The offsets of the descriptors, and the one after the last.
pub data IsOffset (bi : OrionBootInfo) : ℕ → Type 0 where
  first : IsOffset bi 0
  next :
      (off : ℕ)
      → IsOffset bi off
      → off + desc_bytes ≤ bi.memory_map_size
      → IsOffset bi (off + bi.memory_descriptor_size)

-- A page that lies in the conventional memory of the descriptor at `off`.
pub record IsPageAt (bi : OrionBootInfo) (off p : ℕ) : Type 0 where
  pub offset : IsOffset bi off
  pub inside : off + desc_bytes ≤ bi.memory_map_size
  pub conventional : is_conventional (bi.descriptor off) ≡ true
  pub from : range_start (bi.descriptor off) ≤ p
  pub to : p + page_size ≤ range_end (bi.descriptor off)

-- What the firmware gives: descriptors of a size, a map and addresses that are no larger than memory
-- can be, and conventional ranges that do not overlap.
pub record IsMap (bi : OrionBootInfo) : Type 0 where
  pub step : 1 ≤ bi.memory_descriptor_size
  pub fits : bi.memory_map_size + bi.memory_descriptor_size + desc_bytes < 2 ^ 64
  pub low :
      (off : ℕ)
      → IsOffset bi off
      → off + desc_bytes ≤ bi.memory_map_size
      → is_conventional (bi.descriptor off) ≡ true
      → range_end (bi.descriptor off) + page_size < 2 ^ 64
  pub apart :
      (off off' p p' : ℕ)
      → off < off'
      → IsPageAt bi off p
      → IsPageAt bi off' p'
      → (p + page_size ≤ p') ⊎ (p' + page_size ≤ p)

-- The scan has gone past the page `p`.
pub record Passed (bi : OrionBootInfo) (s : Pmm) (p : ℕ) : Type 0 where
  pub off : ℕ
  pub here : IsPageAt bi off p
  pub before : off + bi.memory_descriptor_size ≤ s.scan_off
  pub behind :
      (off + bi.memory_descriptor_size < s.scan_off)
      ⊎ (s.scan_addr ≡ 0)
      ⊎ (p + page_size ≤ s.scan_addr)

-- The range under the scan is what is left of the descriptor before `scan_off`.
pub record IsCurrent (bi : OrionBootInfo) (s : Pmm) : Type 0 where
  pub off : ℕ
  pub offset : IsOffset bi off
  pub inside : off + desc_bytes ≤ bi.memory_map_size
  pub last : off + bi.memory_descriptor_size ≡ s.scan_off
  pub conventional : is_conventional (bi.descriptor off) ≡ true
  pub from : range_start (bi.descriptor off) ≤ s.scan_addr
  pub end_kept : s.scan_end ≡ range_end (bi.descriptor off)
  pub to : s.scan_addr ≤ s.scan_end

pub record IsScanning (bi : OrionBootInfo) (s : Pmm) : Type 0 where
  pub bi_kept : s.bi ≡ some bi
  pub offset : IsOffset bi s.scan_off
  pub current : (s.scan_addr ≡ 0) ⊎ IsCurrent bi s

pub range_start_min : (d : EfiMemDesc) → pmm_min_addr ≤ range_start d
unfolding range_start align_up
range_start_min d = ground arith

pub IsOffset-bound :
    (bi : OrionBootInfo) (off : ℕ) → IsMap bi → IsOffset bi off → off + desc_bytes < 2 ^ 64
IsOffset-bound bi _ m first = omega arith
IsOffset-bound bi _ m (next off o h) = omega (arith, m.fits)
