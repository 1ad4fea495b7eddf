-- ===== src/Pmm/Free.antt =====
-- kernel/pmm.c: `pmm_free_page` on every page.
use un_orion.Common.{
  ℕ, zero, suc, ◌+◌, ◌-◌, ◌%◌, ◌≤◌, ◌<◌, ◌≡◌, ◌≢◌, inl, inr, ap, ◌∙◌, Bool, true, false, not, ◌||◌,
  some, ◌∷◌, length, ltb, leb, ◌==◌, Bool-cases, u64, arith, done,
}
use un_orion.Pmm.{
  page_size, pmm_min_addr, pmm_recycle_cap, desc_bytes, OrionBootInfo, Pmm, Kernel, reserved,
  listed, free_page, covers, covers_from, conventional_page,
}
use un_orion.Pmm.Map.{IsOffset, first, next, IsMap, IsOffset-bound}
use un_orion.Pmm.Owners.{
  IsHeap, relisted, relisted-Passed, relisted-IsScanning, without_page, without_page-true,
  listed-cases,
}

abbrev pub freed_state : ℕ → Pmm → Pmm
freed_state p s = relisted (p ∷ s.recycled) (s.used_pages_count - 1) s

-- What a call of `pmm_free_page` returns, and with which state.
pub data Freed (k : Kernel) (s : Pmm) (p : ℕ) : Bool → Pmm → Type 0 where
  taken :
      p ≢ 0
      → s.used_pages_count ≢ 0
      → conventional_page s.bi p ≡ done true
      → reserved k s.bi p ≡ false
      → length s.recycled < pmm_recycle_cap
      → listed p s.recycled ≡ false
      → Freed k s p true (freed_state p s)
  kept : Freed k s p false s

pub no_fuel : 1 ≤ 0 → ⊥
no_fuel h = omega arith

module _ (k : Kernel) (bi : OrionBootInfo) (m : IsMap bi) where
  covers_from-done :
      (fuel p off : ℕ)
      → IsOffset bi off
      → 1 ≤ fuel
      → bi.memory_map_size < fuel + off
      → (b : Bool) × (covers_from fuel bi p off ≡ done b)
  unfolding covers_from
  covers_from-done zero p off o l h = elim (no_fuel l) [ ]
  covers_from-done (suc fuel) p off o l h =
      elim (Bool-cases (ltb bi.memory_map_size (u64 (off + desc_bytes)))) [
        | inl past ↦ (false, rw past)
        | inr more ↦
            let i : off + desc_bytes ≤ bi.memory_map_size =
              ground (arith, IsOffset-bound bi off m o) in
            let e : u64 (off + bi.memory_descriptor_size) ≡ off + bi.memory_descriptor_size =
              omega (arith, m.fits) in
            let (b, f) =
              covers_from-done fuel p (off + bi.memory_descriptor_size) (next off o i) (omega arith)
                (omega (arith, m.step)) in
            elim (Bool-cases (covers (bi.descriptor off) p)) [
              | inl y ↦ (true, rw (more, y))
              | inr n ↦ (b, rw (more, n) (ap (covers_from fuel bi p) e ∙ f))
            ]
      ]

  conventional_page-done : (p : ℕ) → (b : Bool) × (conventional_page (some bi) p ≡ done b)
  unfolding conventional_page
  conventional_page-done p =
      let (b, e) =
        covers_from-done (suc bi.memory_map_size) p 0 first (omega arith) (omega arith) in
      elim (Bool-cases
        (bi.memory_descriptor_size == 0 || ltb p pmm_min_addr || not (p % page_size == 0))) [
          | inl y ↦ (false, rw y)
          | inr n ↦ (b, rw n e)
        ]

  pub free_page-Freed :
      (s : Pmm) (p : ℕ)
      → s.bi ≡ some bi
      → (r : Bool × Pmm) × (free_page k p s ≡ done r) × Freed k s p r.0 r.1
  unfolding free_page
  free_page-Freed s p e =
      let (c, f) = conventional_page-done p in
      let g : conventional_page s.bi p ≡ done c = rw e f in
      elim (Bool-cases (p == 0 || s.used_pages_count == 0)) [
        | inl y ↦ ((false, s), rw y, kept)
        | inr n ↦
            elim (Bool-cases
              (not c || reserved k s.bi p || leb pmm_recycle_cap (length s.recycled))) [
                | inl y ↦ ((false, s), rw (n, g, y), kept)
                | inr o ↦ elim (Bool-cases (listed p s.recycled)) [
                  | inl y ↦ ((false, s), rw (n, g, o, y), kept)
                  | inr q ↦ (
                    (true, freed_state p s),
                    rw (n, g, o, q),
                    taken (ground arith) (ground arith) (g ∙ ap done (ground arith)) (ground arith)
                        (ground arith) q,
                  )
                ]
              ]
      ]

  pub freed-IsHeap :
      {held : ℕ → Bool} {s : Pmm} {p : ℕ}
      → IsHeap k bi held s
      → held p ≡ true
      → length s.recycled < pmm_recycle_cap
      → listed p s.recycled ≡ false
      → IsHeap k bi (without_page p held) (freed_state p s)
  freed-IsHeap {held = held} {s = s} {p = p} h mine l u = record {
    scanning = relisted-IsScanning _ _ h.scanning;
    out_passed = λ q x. relisted-Passed _ _ (h.out_passed q (without_page-true p q held x).1);
    out_free = λ q x. h.out_free q (without_page-true p q held x).1;
    back_passed = λ q x. elim (listed-cases q p s.recycled x) [
      | inl y ↦ relisted-Passed {s = s} _ _ (rw y (h.out_passed p mine))
      | inr y ↦ relisted-Passed _ _ (h.back_passed q y)
    ];
    back_free = λ q x. elim (listed-cases q p s.recycled x) [
      | inl y ↦ rw y (h.out_free p mine)
      | inr y ↦ h.back_free q y
    ];
    back_not_out = λ q x. elim (listed-cases q p s.recycled x) [
      | inl y ↦ ground arith
      | inr y ↦ grind (arith, h.back_not_out q y)
    ];
    distinct = (u, h.distinct);
    room = omega arith;
  }
