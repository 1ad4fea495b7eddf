-- ===== src/Pmm/Owners.antt =====
-- kernel/pmm.c: who has a page. `held` is the client's side: it says which pages are out.
use un_orion.Common.{
  ℕ, suc, ◌+◌, ◌≤◌, ◌<◌, ◌≡◌, ◌≢◌, ◌⊎◌, inl, inr, refl, sym, ap, ◌∙◌, subst, Bool, true, false,
  some, List, [], ◌∷◌, length, ◌==◌, if◌then◌else◌, Bool-cases, u64, arith, done,
}
use un_orion.Pmm.{
  pmm_recycle_cap, OrionBootInfo, Pmm, Kernel, reserved, alloc_from, alloc_page, listed,
}
use un_orion.Pmm.Map.{IsMap, Passed, IsCurrent, IsScanning}
use un_orion.Pmm.Turns.{left, Advances, IsFresh}
use un_orion.Pmm.Scan.{Scanned, none_left, new_page, scan-Scanned}

abbrev pub Distinct : List ℕ → Type 0
Distinct [] = Unit
Distinct (p ∷ ps) = (listed p ps ≡ false) × Distinct ps

-- The client's pages after it got, or gave back, the page `p`.
abbrev pub with_page : ℕ → (ℕ → Bool) → ℕ → Bool
with_page p held q = if q == p then true else held q

abbrev pub without_page : ℕ → (ℕ → Bool) → ℕ → Bool
without_page p held q = if q == p then false else held q

with_page-true : (p q : ℕ) (held : ℕ → Bool) → with_page p held q ≡ true → (q ≡ p) ⊎ (held q ≡ true)
with_page-true p q held h = ground arith

with_page-false : (p q : ℕ) (held : ℕ → Bool) → q ≢ p → held q ≡ false → with_page p held q ≡ false
with_page-false p q held n h = ground arith

pub without_page-true :
    (p q : ℕ) (held : ℕ → Bool) → without_page p held q ≡ true → (q ≢ p) × (held q ≡ true)
without_page-true p q held h = (ground arith, ground arith)

listed-cons : (q p : ℕ) (ps : List ℕ) → listed q ps ≡ true → listed q (p ∷ ps) ≡ true
unfolding listed
listed-cons q p ps h = ground arith

pub listed-head : (p : ℕ) (ps : List ℕ) → listed p (p ∷ ps) ≡ true
unfolding listed
listed-head p ps = ground arith

pub listed-cases :
    (q p : ℕ) (ps : List ℕ) → listed q (p ∷ ps) ≡ true → (q ≡ p) ⊎ (listed q ps ≡ true)
unfolding listed
listed-cases q p ps h = ground arith

length_cons : {ps : List ℕ} {p : ℕ} {rest : List ℕ} → ps ≡ p ∷ rest → length ps ≡ suc (length rest)
length_cons e = rw e

not_both : {b : Bool} → b ≡ true → b ≢ false
not_both e f = cc

abbrev pub relisted : List ℕ → ℕ → Pmm → Pmm
relisted rest used s = record s { recycled = rest; used_pages_count = used }

module _ {bi : OrionBootInfo} {s : Pmm} (rest : List ℕ) (used : ℕ) where
  pub relisted-Passed : {q : ℕ} → Passed bi s q → Passed bi (relisted rest used s) q
  relisted-Passed b = record { off = b.off; here = b.here; before = b.before; behind = b.behind }

  relisted-IsCurrent : IsCurrent bi s → IsCurrent bi (relisted rest used s)
  relisted-IsCurrent c = record {
    off = c.off;
    offset = c.offset;
    inside = c.inside;
    last = c.last;
    conventional = c.conventional;
    from = c.from;
    end_kept = c.end_kept;
    to = c.to;
  }

  pub relisted-IsScanning : IsScanning bi s → IsScanning bi (relisted rest used s)
  relisted-IsScanning w = record {
    bi_kept = w.bi_kept;
    offset = w.offset;
    current = elim w.current [ inl z ↦ inl z | inr c ↦ inr (relisted-IsCurrent c) ];
  }

module _ (k : Kernel) (bi : OrionBootInfo) where
  -- Every page that is out or recycled was scanned, none is reserved, and none is both.
  pub record IsHeap (held : ℕ → Bool) (s : Pmm) : Type 0 where
    pub scanning : IsScanning bi s
    pub out_passed : (q : ℕ) → held q ≡ true → Passed bi s q
    pub out_free : (q : ℕ) → held q ≡ true → reserved k (some bi) q ≡ false
    pub back_passed : (q : ℕ) → listed q s.recycled ≡ true → Passed bi s q
    pub back_free : (q : ℕ) → listed q s.recycled ≡ true → reserved k (some bi) q ≡ false
    pub back_not_out : (q : ℕ) → listed q s.recycled ≡ true → held q ≡ false
    pub distinct : Distinct s.recycled
    pub room : length s.recycled ≤ pmm_recycle_cap

  -- The results of `pmm_alloc_page`.
  pub data Allocated (s : Pmm) : ℕ → Pmm → Type 0 where
    again :
        {p : ℕ} {rest : List ℕ}
        → s.recycled ≡ p ∷ rest
        → Allocated s p
            (record s { recycled = rest; used_pages_count = u64 (s.used_pages_count + 1) })
    scanned : {p : ℕ} {s' : Pmm} → Scanned k bi s p s' → Allocated s p s'

  module _ (m : IsMap bi) where
    alloc_from-Allocated :
        (fuel : ℕ) (s : Pmm) (recycled : List ℕ)
        → IsScanning bi s
        → left bi s < fuel
        → s.recycled ≡ recycled
        → (r : ℕ × Pmm) × (alloc_from fuel k (some bi) recycled s ≡ done r) × Allocated s r.0 r.1
    unfolding alloc_from
    alloc_from-Allocated fuel s (p ∷ rest) w l e = (_, refl, again e)
    alloc_from-Allocated fuel s [] w l e =
        let (r, f, g) = scan-Scanned k bi m fuel s w l in (r, ground (arith, m.step, f), scanned g)

    pub alloc_page-Allocated :
        (fuel : ℕ) (s : Pmm)
        → IsScanning bi s
        → left bi s < fuel
        → (r : ℕ × Pmm) × (alloc_page fuel k s ≡ done r) × Allocated s r.0 r.1
    unfolding alloc_page
    alloc_page-Allocated fuel s w l =
        let (r, e, a) = alloc_from-Allocated fuel s s.recycled w l refl in
        (r, ap (λ b. alloc_from fuel k b s.recycled s) w.bi_kept ∙ e, a)

    again-IsHeap :
        {held : ℕ → Bool} {s : Pmm} {p : ℕ} {rest : List ℕ}
        → IsHeap held s
        → s.recycled ≡ p ∷ rest
        → IsHeap
            (with_page p held)
            (record s { recycled = rest; used_pages_count = u64 (s.used_pages_count + 1) })
    again-IsHeap {held = held} {s = s} {p = p} {rest = rest} h e =
        let all_distinct : Distinct (p ∷ rest) = subst Distinct e h.distinct in
        let unlisted : listed p rest ≡ false = all_distinct.0 in
        let here : listed p s.recycled ≡ true = rw e (listed-head p rest) in
        let more : (q : ℕ) → listed q rest ≡ true → listed q s.recycled ≡ true =
          λ q x. rw e (listed-cons q p rest x) in
        record {
          scanning = relisted-IsScanning rest _ h.scanning;
          out_passed = λ q x. elim (with_page-true p q held x) [
            | inl y ↦ relisted-Passed {s = s} rest _ (rw y (h.back_passed p here))
            | inr y ↦ relisted-Passed rest _ (h.out_passed q y)
          ];
          out_free = λ q x. elim (with_page-true p q held x) [
            | inl y ↦ rw y (h.back_free p here)
            | inr y ↦ h.out_free q y
          ];
          back_passed = λ q x. relisted-Passed rest _ (h.back_passed q (more q x));
          back_free = λ q x. h.back_free q (more q x);
          back_not_out = λ q x.
              with_page-false p q held (λ y. not_both x (rw y unlisted))
                (h.back_not_out q (more q x));
          distinct = all_distinct.1;
          room = omega (arith, h.room, length_cons e);
        }

    fresh-IsHeap :
        {held : ℕ → Bool} {s s' : Pmm} {p : ℕ}
        → IsHeap held s
        → IsFresh k bi s p s'
        → IsHeap (with_page p held) s'
    fresh-IsHeap {held = held} {s = s} {s' = s'} {p = p} h f =
        let back : (q : ℕ) → listed q s'.recycled ≡ true → listed q s.recycled ≡ true =
          λ q x. rw (sym f.advances.recycled_kept) x in
        record {
          scanning = f.advances.scanning;
          out_passed = λ q x. elim (with_page-true p q held x) [
            | inl y ↦ rw y f.behind
            | inr y ↦ f.advances.passed q (h.out_passed q y)
          ];
          out_free = λ q x. elim (with_page-true p q held x) [
            | inl y ↦ rw y f.free
            | inr y ↦ h.out_free q y
          ];
          back_passed = λ q x. f.advances.passed q (h.back_passed q (back q x));
          back_free = λ q x. h.back_free q (back q x);
          back_not_out = λ q x.
              with_page-false p q held (f.unseen q (h.back_passed q (back q x)))
                (h.back_not_out q (back q x));
          distinct = rw f.advances.recycled_kept h.distinct;
          room = rw f.advances.recycled_kept h.room;
        }

    pub still-IsHeap :
        {held : ℕ → Bool} {s s' : Pmm} → IsHeap held s → Advances bi s s' → IsHeap held s'
    still-IsHeap {s = s} {s' = s'} h a =
        let back : (q : ℕ) → listed q s'.recycled ≡ true → listed q s.recycled ≡ true =
          λ q x. rw (sym a.recycled_kept) x in
        record {
          scanning = a.scanning;
          out_passed = λ q x. a.passed q (h.out_passed q x);
          out_free = h.out_free;
          back_passed = λ q x. a.passed q (h.back_passed q (back q x));
          back_free = λ q x. h.back_free q (back q x);
          back_not_out = λ q x. h.back_not_out q (back q x);
          distinct = rw a.recycled_kept h.distinct;
          room = rw a.recycled_kept h.room;
        }

    -- A page that the scan has not seen is not out.
    unseen-out :
        {held : ℕ → Bool} {s s' : Pmm} {p : ℕ}
        → IsHeap held s
        → IsFresh k bi s p s'
        → held p ≡ false
    unseen-out {held = held} {p = p} h f = elim (Bool-cases (held p)) [
      | inl y ↦ elim (f.unseen p (h.out_passed p y) refl) [ ]
      | inr n ↦ n
    ]

    pub got-IsHeap :
        {held : ℕ → Bool} {s s' : Pmm} {p : ℕ}
        → IsHeap held s
        → Allocated s p s'
        → p ≢ 0
        → (held p ≡ false)
          × (reserved k (some bi) p ≡ false)
          × Passed bi s' p
          × IsHeap (with_page p held) s'
    got-IsHeap {s = s} {p = p} h (again {rest = rest} e) z =
        let here : listed p s.recycled ≡ true = rw e (listed-head p rest) in
        (
          h.back_not_out p here,
          h.back_free p here,
          relisted-Passed rest _ (h.back_passed p here),
          again-IsHeap h e,
        )
    got-IsHeap h (scanned (none_left a u)) z = elim (z refl) [ ]
    got-IsHeap h (scanned (new_page f)) z = (unseen-out h f, f.free, f.behind, fresh-IsHeap h f)
