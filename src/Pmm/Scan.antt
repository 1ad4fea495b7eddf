-- ===== src/Pmm/Scan.antt =====
-- kernel/pmm.c: the scan of `pmm_alloc_page` ends, with 0 or a page that was never seen before.
use un_orion.Common.{ℕ, zero, suc, ◌<◌, ◌≡◌, refl, arith, Run, done}
use un_orion.Pmm.{OrionBootInfo, Pmm, Kernel, Turn, turn, after_turn, scan}
use un_orion.Pmm.Map.{IsMap, IsScanning}
use un_orion.Pmm.Turns.{left, Advances, IsFresh, Turned, fresh, ended, goes_on, turn-Turned}

-- What a scan from `s` returns: 0 or a page that it had not gone past.
pub data Scanned (k : Kernel) (bi : OrionBootInfo) (s : Pmm) : ℕ → Pmm → Type 0 where
  none_left :
      {s' : Pmm} → Advances bi s s' → s'.used_pages_count ≡ s.used_pages_count → Scanned k bi s 0 s'
  new_page : {p : ℕ} {s' : Pmm} → IsFresh k bi s p s' → Scanned k bi s p s'

Advances-trans :
    {bi : OrionBootInfo} {s t u : Pmm} → Advances bi s t → Advances bi t u → Advances bi s u
Advances-trans a b = record {
  scanning = b.scanning;
  passed = λ q x. b.passed q (a.passed q x);
  recycled_kept = cc;
  total_kept = cc;
}

none_below : (n : ℕ) → n < 0 → ⊥
none_below n h = omega arith

module _ (k : Kernel) (bi : OrionBootInfo) (m : IsMap bi) where
  later-Scanned :
      {s t s' : Pmm} {p : ℕ}
      → Advances bi s t
      → t.used_pages_count ≡ s.used_pages_count
      → Scanned k bi t p s'
      → Scanned k bi s p s'
  later-Scanned a u (none_left b v) = none_left (Advances-trans a b) cc
  later-Scanned a u (new_page f) = new_page (record {
    advances = Advances-trans a f.advances;
    behind = f.behind;
    free = f.free;
    unseen = λ q x. f.unseen q (a.passed q x);
    counted = rw (f.counted, u);
  })

  Turned-Scanned :
      (again : Pmm → Run (ℕ × Pmm)) (s : Pmm) (t : Turn)
      → Turned k bi s t
      → ((s' : Pmm)
          → IsScanning bi s'
          → left bi s' < left bi s
          → (r : ℕ × Pmm) × (again s' ≡ done r) × Scanned k bi s' r.0 r.1)
      → (r : ℕ × Pmm) × (after_turn again t ≡ done r) × Scanned k bi s r.0 r.1
  Turned-Scanned again s _ (fresh p s' f) h = ((p, s'), refl, new_page f)
  Turned-Scanned again s _ (ended s' a u) h = ((0, s'), refl, none_left a u)
  Turned-Scanned again s _ (goes_on s' a u l) h =
      let (r, e, g) = h s' a.scanning l in (r, e, later-Scanned a u g)

  -- The scan ends, with fuel for what is left.
  pub scan-Scanned :
      (fuel : ℕ) (s : Pmm)
      → IsScanning bi s
      → left bi s < fuel
      → (r : ℕ × Pmm) × (scan fuel k bi s ≡ done r) × Scanned k bi s r.0 r.1
  unfolding scan
  scan-Scanned zero s w l = elim (none_below (left bi s) l) [ ]
  scan-Scanned (suc fuel) s w l =
      Turned-Scanned (scan fuel k bi) s (turn k bi s) (turn-Turned k bi m s w)
        (λ s' w' l'. scan-Scanned fuel s' w' (omega arith))
