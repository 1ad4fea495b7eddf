-- ===== src/Pmm/Turns.antt =====
-- kernel/pmm.c: what one turn of the scan in `pmm_alloc_page` does.
use un_orion.Common.{
  ℕ, ◌+◌, ◌-◌, ◌*◌, ◌^◌, ◌≤◌, ◌<◌, ◌≡◌, ◌≢◌, ◌⊎◌, inl, inr, refl, sym, false, not, ◌&&◌, some, ltb,
  leb, ◌==◌, if◌then◌else◌, Bool-cases, u64, arith,
}
use un_orion.Pmm.{
  page_size, pmm_min_addr, desc_bytes, OrionBootInfo, Pmm, Kernel, range_end, range_start,
  is_conventional, reserved, Turn, page, exhausted, on, turn,
}
use un_orion.Pmm.Map.{next, IsPageAt, IsMap, Passed, IsCurrent, IsScanning, IsOffset-bound}

-- How far the scan still has to go.
abbrev pub left : OrionBootInfo → Pmm → ℕ
left bi s = (bi.memory_map_size + desc_bytes - s.scan_off) * 2 ^ 64 + (s.scan_end - s.scan_addr)

-- The scan has moved on from `s` to `s'`.
pub record Advances (bi : OrionBootInfo) (s s' : Pmm) : Type 0 where
  pub scanning : IsScanning bi s'
  pub passed : (q : ℕ) → Passed bi s q → Passed bi s' q
  pub recycled_kept : s'.recycled ≡ s.recycled
  pub total_kept : s'.total_pages_count ≡ s.total_pages_count

pub record IsFresh (k : Kernel) (bi : OrionBootInfo) (s : Pmm) (p : ℕ) (s' : Pmm) : Type 0 where
  pub advances : Advances bi s s'
  pub behind : Passed bi s' p
  pub free : reserved k (some bi) p ≡ false
  pub unseen : (q : ℕ) → Passed bi s q → q ≢ p
  pub counted : s'.used_pages_count ≡ u64 (s.used_pages_count + 1)

pub data Turned (k : Kernel) (bi : OrionBootInfo) (s : Pmm) : Turn → Type 0 where
  fresh : (p : ℕ) (s' : Pmm) → IsFresh k bi s p s' → Turned k bi s (page p s')
  ended :
      (s' : Pmm)
      → Advances bi s s'
      → s'.used_pages_count ≡ s.used_pages_count
      → Turned k bi s (exhausted s')
  goes_on :
      (s' : Pmm)
      → Advances bi s s'
      → s'.used_pages_count ≡ s.used_pages_count
      → left bi s' < left bi s
      → Turned k bi s (on s')

module _ (k : Kernel) (bi : OrionBootInfo) (m : IsMap bi) (s : Pmm) (w : IsScanning bi s) where
  abbrev past_page : ℕ → Pmm
  past_page used = record s { scan_addr = u64 (s.scan_addr + page_size); used_pages_count = used }

  no_wrap : IsCurrent bi s → u64 (s.scan_addr + page_size) ≡ s.scan_addr + page_size
  no_wrap c = omega (arith, m.low c.off c.offset c.inside c.conventional, c.end_kept, c.to)

  past_page-Advances :
      (used : ℕ)
      → IsCurrent bi s
      → s.scan_addr + page_size ≤ s.scan_end
      → s.scan_addr ≢ 0
      → Advances bi s (past_page used)
  past_page-Advances used c h z = record {
    scanning = record {
      bi_kept = w.bi_kept;
      offset = w.offset;
      current = inr (record {
        off = c.off;
        offset = c.offset;
        inside = c.inside;
        last = c.last;
        conventional = c.conventional;
        from = omega (arith, no_wrap c, c.from);
        end_kept = c.end_kept;
        to = omega (arith, no_wrap c);
      });
    };
    passed = λ q b. record {
      off = b.off;
      here = b.here;
      before = b.before;
      behind = grind (arith, no_wrap c, b.behind, z);
    };
    recycled_kept = refl;
    total_kept = refl;
  }

  here : (c : IsCurrent bi s) → s.scan_addr + page_size ≤ s.scan_end → IsPageAt bi c.off s.scan_addr
  here c h = record {
    offset = c.offset;
    inside = c.inside;
    conventional = c.conventional;
    from = c.from;
    to = omega (arith, c.end_kept);
  }

  -- The page under the scan is none that it has gone past.
  current-unseen :
      (c : IsCurrent bi s)
      → s.scan_addr + page_size ≤ s.scan_end
      → s.scan_addr ≢ 0
      → (q : ℕ) → Passed bi s q
      → q ≢ s.scan_addr
  current-unseen c h z q b e = elim b.behind [
    | inl earlier ↦
        let d = m.apart b.off c.off q s.scan_addr (omega (arith, c.last)) b.here (here c h) in
        grind (arith, d, e)
    | inr (inl none_) ↦ elim (z none_) [ ]
    | inr (inr lower) ↦ omega (arith, e)
  ]

  page-IsFresh :
      (c : IsCurrent bi s)
      → s.scan_addr + page_size ≤ s.scan_end
      → s.scan_addr ≢ 0
      → reserved k s.bi s.scan_addr ≡ false
      → IsFresh k bi s s.scan_addr (past_page (u64 (s.used_pages_count + 1)))
  page-IsFresh c h z f = record {
    advances = past_page-Advances _ c h z;
    behind = record {
      off = c.off;
      here = here c h;
      before = omega (arith, c.last);
      behind = inr (inr (omega (arith, no_wrap c)));
    };
    free = rw (sym w.bi_kept) f;
    unseen = current-unseen c h z;
    counted = refl;
  }

  abbrev moved : Pmm
  moved = record s {
    scan_off = u64 (s.scan_off + bi.memory_descriptor_size);
    scan_addr = 0;
    scan_end = 0;
  }

  moved_off :
      s.scan_off + desc_bytes ≤ bi.memory_map_size
      → u64 (s.scan_off + bi.memory_descriptor_size) ≡ s.scan_off + bi.memory_descriptor_size
  moved_off h = omega (arith, m.fits)

  enter-Advances :
      (a e : ℕ)
      → s.scan_off + desc_bytes ≤ bi.memory_map_size
      → (a ≡ 0) ⊎ IsCurrent bi (record moved { scan_addr = a; scan_end = e })
      → Advances bi s (record moved { scan_addr = a; scan_end = e })
  enter-Advances a e h c = record {
    scanning = record {
      bi_kept = w.bi_kept;
      offset = rw (moved_off h) (next s.scan_off w.offset h);
      current = c;
    };
    passed = λ q b. record {
      off = b.off;
      here = b.here;
      before = omega (arith, moved_off h, b.before);
      behind = inl (omega (arith, moved_off h, b.before, m.step));
    };
    recycled_kept = refl;
    total_kept = refl;
  }

  end-Advances : Advances bi s (record s { scan_addr = 0; scan_end = 0 })
  end-Advances = record {
    scanning = record { bi_kept = w.bi_kept; offset = w.offset; current = inl refl };
    passed =
        λ q b. record { off = b.off; here = b.here; before = b.before; behind = inr (inl refl) };
    recycled_kept = refl;
    total_kept = refl;
  }

  range_under : s.scan_addr ≢ 0 → IsCurrent bi s
  range_under z = elim w.current [ inl e ↦ elim (z e) [ ] | inr c ↦ c ]

  -- The page under the scan, reserved or not.
  page-Turned :
      s.scan_addr ≢ 0
      → u64 (s.scan_addr + page_size) ≤ s.scan_end
      → Turned k bi s (
          if reserved k s.bi s.scan_addr
          then on (past_page s.used_pages_count)
          else page s.scan_addr (past_page (u64 (s.used_pages_count + 1))))
  page-Turned z h =
      let c = range_under z in
      let h' : s.scan_addr + page_size ≤ s.scan_end = omega (arith, no_wrap c) in
      elim (Bool-cases (reserved k s.bi s.scan_addr)) [
        | inl r ↦ rw r (
            goes_on (past_page s.used_pages_count) (past_page-Advances _ c h' z) refl
              (omega (arith, no_wrap c)))
        | inr f ↦ rw f (fresh s.scan_addr _ (page-IsFresh c h' z f))
      ]

  moved-left :
      (a e : ℕ)
      → e < 2 ^ 64
      → s.scan_off + desc_bytes ≤ bi.memory_map_size
      → left bi (record moved { scan_addr = a; scan_end = e }) < left bi s
  moved-left a e b h = omega (arith, moved_off h, m.step)

  -- The next descriptor.
  next-Turned :
      s.scan_off + desc_bytes ≤ bi.memory_map_size
      → (let d = bi.descriptor s.scan_off in
          Turned k bi s (
            if is_conventional d
              && ltb pmm_min_addr (range_end d)
              && ltb (range_start d) (range_end d)
            then on (record moved { scan_addr = range_start d; scan_end = range_end d })
            else on moved))
  next-Turned h =
      let d = bi.descriptor s.scan_off in
      elim (Bool-cases (
        is_conventional d && ltb pmm_min_addr (range_end d) && ltb (range_start d) (range_end d))) [
          | inl y ↦ rw y (
              goes_on _
                (enter-Advances (range_start d) (range_end d) h (
                  inr (record {
                    off = s.scan_off;
                    offset = w.offset;
                    inside = h;
                    last = sym (moved_off h);
                    conventional = ground arith;
                    from = omega arith;
                    end_kept = refl;
                    to = ground arith;
                  })))
                refl (moved-left _ _ (omega arith) h))
          | inr n ↦
              rw n
                (goes_on _ (enter-Advances 0 0 h (inl refl)) refl (moved-left 0 0 (omega arith) h))
        ]

  pub turn-Turned : Turned k bi s (turn k bi s)
  unfolding turn
  turn-Turned =
      elim (Bool-cases (not (s.scan_addr == 0) && leb (u64 (s.scan_addr + page_size)) s.scan_end)) [
        | inl y ↦ rw y (page-Turned (ground arith) (ground arith))
        | inr n ↦ elim (Bool-cases (ltb bi.memory_map_size (u64 (s.scan_off + desc_bytes)))) [
          | inl o ↦ rw (n, o) (ended _ end-Advances refl)
          | inr i ↦
              rw (n, i) (next-Turned (ground (arith, IsOffset-bound bi s.scan_off m w.offset)))
        ]
      ]
