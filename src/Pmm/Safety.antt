-- ===== src/Pmm/Safety.antt =====
-- kernel/pmm.c: all calls of a client, in any order, from `pmm_init` on.
use un_orion.Common.{
  ℕ, zero, suc, ◌+◌, ◌-◌, ◌^◌, ◌≤◌, ◌<◌, ◌≡◌, ◌≢◌, ◌⊎◌, inl, inr, refl, sym, ap, ◌∙◌, subst, Bool,
  true, false, ◌||◌, some, length, ltb, ◌==◌, Bool-cases, u64, arith, done,
}
use un_orion.Pmm.{
  pmm_recycle_cap, desc_bytes, OrionBootInfo, Pmm, Kernel, reserved, listed, free_page, alloc_page,
  alloc_from, conventional_page, init, empty, count_from, pages_of,
}
use un_orion.Pmm.Map.{
  IsOffset, first, next, IsPageAt, IsMap, Passed, IsScanning, IsOffset-bound, range_start_min,
}
use un_orion.Pmm.Turns.{left}
use un_orion.Pmm.Scan.{none_left, new_page}
use un_orion.Pmm.Owners.{
  relisted, Distinct, IsHeap, Allocated, again, scanned, with_page, without_page,
  alloc_page-Allocated, got-IsHeap, still-IsHeap, listed-head,
}
use un_orion.Pmm.Free.{no_fuel, Freed, taken, kept, freed_state, free_page-Freed, freed-IsHeap}

run_value : {A : Type 0} (x y : A) → done x ≡ done y → x ≡ y
run_value x y e = cc

module _ (k : Kernel) (bi : OrionBootInfo) where
  -- What the client does, with `pmm_free_page` called only on pages that it holds.
  pub data Step (held : ℕ → Bool) (s : Pmm) : (ℕ → Bool) → Pmm → Type 0 where
    got_page :
        {fuel p : ℕ} {s' : Pmm}
        → left bi s < fuel
        → alloc_page fuel k s ≡ done (p, s')
        → p ≢ 0
        → Step held s (with_page p held) s'
    no_page :
        {fuel : ℕ} {s' : Pmm}
        → left bi s < fuel
        → alloc_page fuel k s ≡ done (0, s')
        → Step held s held s'
    freed :
        (p : ℕ) {s' : Pmm}
        → held p ≡ true
        → free_page k p s ≡ done (true, s')
        → Step held s (without_page p held) s'
    refused : (p : ℕ) {s' : Pmm} → free_page k p s ≡ done (false, s') → Step held s held s'

  pub data Reached : (ℕ → Bool) → Pmm → Type 0 where
    start : {s : Pmm} → init (some bi) ≡ done s → Reached (λ q. false) s
    then_ :
        {held held' : ℕ → Bool} {s s' : Pmm}
        → Reached held s
        → Step held s held' s'
        → Reached held' s'

  module _ (m : IsMap bi) where
    empty-IsHeap : (total : ℕ) → IsHeap k bi (λ q. false) (empty (some bi) total)
    unfolding listed
    empty-IsHeap total = record {
      scanning = record { bi_kept = refl; offset = first; current = inl refl };
      out_passed = λ q x. cc;
      out_free = λ q x. cc;
      back_passed = λ q x. cc;
      back_free = λ q x. cc;
      back_not_out = λ q x. refl;
      distinct = tt;
      room = omega arith;
    }

    count_from-done :
        (fuel total off : ℕ)
        → IsOffset bi off
        → 1 ≤ fuel
        → bi.memory_map_size < fuel + off
        → (t : ℕ) × (count_from fuel bi total off ≡ done t)
    unfolding count_from
    count_from-done zero total off o l h = elim (no_fuel l) [ ]
    count_from-done (suc fuel) total off o l h =
        elim (Bool-cases (ltb bi.memory_map_size (u64 (off + desc_bytes)))) [
          | inl past ↦ (total, rw past)
          | inr more ↦
              let i : off + desc_bytes ≤ bi.memory_map_size =
                ground (arith, IsOffset-bound bi off m o) in
              let e : u64 (off + bi.memory_descriptor_size) ≡ off + bi.memory_descriptor_size =
                omega (arith, m.fits) in
              let total' = u64 (total + pages_of (bi.descriptor off)) in
              let (t, f) =
                count_from-done fuel total' (off + bi.memory_descriptor_size) (next off o i)
                  (omega arith) (omega (arith, m.step)) in
              (t, rw more (ap (count_from fuel bi total') e ∙ f))
        ]

    init-empty : (t : ℕ) × (init (some bi) ≡ done (empty (some bi) t))
    unfolding init
    init-empty =
        let (t, e) =
          count_from-done (suc bi.memory_map_size) 0 0 first (omega arith) (omega arith) in
        (t, ground (arith, e, m.step))

    page_at-nonzero : {off p : ℕ} → IsPageAt bi off p → p ≢ 0
    page_at-nonzero {off = off} b z = omega (arith, b.from, range_start_min (bi.descriptor off))

    -- 0 stands for no page: then nothing has changed hands.
    no_page-IsHeap :
        {held : ℕ → Bool} {s s' : Pmm} {p : ℕ}
        → IsHeap k bi held s
        → Allocated k bi s p s'
        → p ≡ 0
        → IsHeap k bi held s'
    no_page-IsHeap {p = p} h (again {rest = rest} e) z =
        let b = h.back_passed p (rw e (listed-head p rest)) in elim (page_at-nonzero b.here z) [ ]
    no_page-IsHeap h (scanned (none_left a u)) z = still-IsHeap k bi m h a
    no_page-IsHeap h (scanned (new_page f)) z = elim (page_at-nonzero f.behind.here z) [ ]

    taken-IsHeap :
        {held : ℕ → Bool} {s s' : Pmm} {p : ℕ}
        → IsHeap k bi held s
        → held p ≡ true
        → Freed k s p true s'
        → IsHeap k bi (without_page p held) s'
    taken-IsHeap h mine (taken z u c f l n) = freed-IsHeap k bi m h mine l n

    kept-IsHeap :
        {held : ℕ → Bool} {s s' : Pmm} {p : ℕ}
        → IsHeap k bi held s
        → Freed k s p false s'
        → IsHeap k bi held s'
    kept-IsHeap h kept = h

    -- The result of a call that is known to return.
    alloc_page-result :
        {fuel p : ℕ} {s s' : Pmm}
        → IsScanning bi s
        → left bi s < fuel
        → alloc_page fuel k s ≡ done (p, s')
        → Allocated k bi s p s'
    alloc_page-result {fuel = fuel} {s = s} w l e =
        let (r, f, a) = alloc_page-Allocated k bi m fuel s w l in
        subst (λ x. Allocated k bi s x.0 x.1) (run_value _ _ (sym f ∙ e)) a

    free_page-result :
        {p : ℕ} {s s' : Pmm} {b : Bool}
        → s.bi ≡ some bi
        → free_page k p s ≡ done (b, s')
        → Freed k s p b s'
    free_page-result {p = p} {s = s} w e =
        let (r, f, a) = free_page-Freed k bi m s p w in
        subst (λ x. Freed k s p x.0 x.1) (run_value _ _ (sym f ∙ e)) a

    Step-IsHeap :
        {held held' : ℕ → Bool} {s s' : Pmm}
        → IsHeap k bi held s
        → Step held s held' s'
        → IsHeap k bi held' s'
    Step-IsHeap h (got_page l e z) =
        let (a, b, c, d) = got-IsHeap k bi m h (alloc_page-result h.scanning l e) z in d
    Step-IsHeap h (no_page l e) = no_page-IsHeap h (alloc_page-result h.scanning l e) refl
    Step-IsHeap h (freed p mine e) = taken-IsHeap h mine (free_page-result h.scanning.bi_kept e)
    Step-IsHeap h (refused p e) = kept-IsHeap h (free_page-result h.scanning.bi_kept e)

    Reached-IsHeap : {held : ℕ → Bool} {s : Pmm} → Reached held s → IsHeap k bi held s
    Reached-IsHeap (start e) =
        let (t, f) = init-empty in
        subst (IsHeap k bi (λ q. false)) (run_value _ _ (sym f ∙ e)) (empty-IsHeap t)
    Reached-IsHeap (then_ r st) = Step-IsHeap (Reached-IsHeap r) st

    -- In every state that a client reaches that frees only what it holds, and with fuel for what is left
    -- to scan, `pmm_alloc_page` returns, and what it returns is 0 or a page that the client does not
    -- hold, that lies in conventional memory from 16 MiB on and touches neither the kernel, nor the
    -- boot information, nor the map, nor the frame buffer.
    pub alloc_page-exclusive :
        (fuel : ℕ) {held : ℕ → Bool} {s : Pmm}
        → Reached held s
        → left bi s < fuel
        → (p : ℕ) × (s' : Pmm) × (alloc_page fuel k s ≡ done (p, s'))
          × ((p ≡ 0)
              ⊎ ((held p ≡ false)
                  × (reserved k (some bi) p ≡ false)
                  × (off : ℕ) × IsPageAt bi off p))
    alloc_page-exclusive fuel {s = s} r l =
        let h = Reached-IsHeap r in
        let ((p, s'), e, a) = alloc_page-Allocated k bi m fuel s h.scanning l in
        (
          p,
          s',
          e,
          elim (Bool-cases (p == 0)) [
            | inl z ↦ inl (ground arith)
            | inr n ↦
                let (x, y, b, g) = got-IsHeap k bi m h a (ground arith) in inr (x, y, b.off, b.here)
          ],
        )

    -- In such a state every page that is recycled is in conventional memory, free of what is reserved,
    -- not held, and recycled once, and there are at most 1024.
    pub Reached-recycled :
        {held : ℕ → Bool} {s : Pmm}
        → Reached held s
        → ((q : ℕ)
            → listed q s.recycled ≡ true
            → (held q ≡ false) × (reserved k (some bi) q ≡ false) × Passed bi s q)
          × Distinct s.recycled
          × (length s.recycled ≤ pmm_recycle_cap)
    Reached-recycled r =
        let h = Reached-IsHeap r in
        (λ q x. (h.back_not_out q x, h.back_free q x, h.back_passed q x), h.distinct, h.room)

    twice :
        (s : Pmm) (p : ℕ)
        → conventional_page s.bi p ≡ done true
        → free_page k p (freed_state p s) ≡ done (false, freed_state p s)
    unfolding free_page
    twice s p c = elim (Bool-cases (p == 0 || s.used_pages_count - 1 == 0)) [
      | inl y ↦ rw y
      | inr n ↦ rw (n, c, listed-head p s.recycled) (ground arith)
    ]

    back :
        (fuel : ℕ) (s : Pmm) (p : ℕ) {s' : Pmm}
        → s.used_pages_count < 2 ^ 64
        → Freed k s p true s'
        → s.bi ≡ some bi
        → (alloc_page fuel k s' ≡ done (p, s)) × (free_page k p s' ≡ done (false, s'))
    unfolding alloc_page alloc_from
    back fuel s p w (taken z u c f l n) e =
        (ap (λ u'. done (p, relisted s.recycled u' s)) (omega arith), twice s p c)

    -- In such a state a page that was freed comes back at the next allocation, and the state is then as
    -- it was; a second `pmm_free_page` before that is refused and changes nothing.
    pub free_page-alloc_page :
        (fuel : ℕ) {held : ℕ → Bool} {s s' : Pmm} (p : ℕ)
        → Reached held s
        → s.used_pages_count < 2 ^ 64
        → free_page k p s ≡ done (true, s')
        → (alloc_page fuel k s' ≡ done (p, s)) × (free_page k p s' ≡ done (false, s'))
    free_page-alloc_page fuel {s = s} p r w e =
        let h = Reached-IsHeap r in
        back fuel s p w (free_page-result h.scanning.bi_kept e) h.scanning.bi_kept
