-- ===== src/Vela/Zipper/Refines.antt =====
-- kernel/vela.c: the array of the history does what the two lists do.
use un_orion.Common.{
  ℕ, suc, ◌+◌, ◌-◌, ◌≤◌, ◌<◌, ◌≡◌, refl, sym, ap, ◌∙◌, Bool, true, false, not, ◌&&◌, ◌||◌, none,
  some, pos, minus_one, List, [], ◌∷◌, Bytes, take, length, same_bytes, ltb, ◌==◌, if◌then◌else◌,
  Bool-cases, inl, inr, arith,
}
use un_orion.Vela.History.{
  History, after_index, append_entry, hist, vela_can_back, vela_can_forward, vela_back,
  vela_forward,
}
use un_orion.Vela.Zipper.{
  Event, visit, back, forward, run, Pages, visited, page_turn, turns, AreShort,
}
use un_orion.Vela.Zipper.Entries.{
  down_from, up_from, scopy-short, write_entry-short, shift_down-short, full_entries, next_entries,
  down_from-nil, down_from-cons, up_from-nil, up_from-cons,
}

-- The array shows the pages.
record Shows (h : History) (z : Pages) : Type 0 where
  short : (j : ℕ) → length (h.entries j) < 256
  room : h.count ≤ 12
  inside : after_index h.index ≤ h.count
  behind : down_from h.entries (after_index h.index) ≡ z.0
  ahead : up_from h.entries (h.count - after_index h.index) (after_index h.index) ≡ z.1

append_entry-Shows :
    (u : Bytes) (h : History) (z : Pages)
    → length u < 256
    → Shows h z
    → Shows (append_entry u h) (take 12 (u ∷ z.0), [])
unfolding append_entry
append_entry-Shows u h z l w =
    let here = after_index h.index in
    let cut : (if ltb here h.count then here else h.count) ≡ here = ground (arith, w.inside) in
    elim (Bool-cases (ltb here 12)) [
      | inl y ↦
          let next : here + 1 ≡ suc here = omega arith in
          let none_left : here + 1 - (here + 1) ≡ 0 = omega arith in
          rw (cut, y)
            (record {
              short = write_entry-short here u h.entries l w.short;
              room = ground arith;
              inside = omega arith;
              behind = rw next (
                  next_entries u h.entries here l (ground arith)
                  ∙ ap (λ r. take 12 (u ∷ r)) w.behind);
              ahead = rw none_left refl;
            })
      | inr n ↦
          let full : here ≡ 12 = ground (arith, w.inside, w.room) in
          rw (cut, n)
            (record {
              short = write_entry-short 11 u _ l (shift_down-short 11 1 h.entries w.short);
              room = omega arith;
              inside = omega arith;
              behind =
                  full_entries u h.entries w.short l
                  ∙ ap (λ r. take 12 (u ∷ r)) (ap (down_from h.entries) (sym full) ∙ w.behind);
              ahead = rw full refl;
            })
    ]

hist-Shows :
    (u : Bytes) (h : History) (z : Pages)
    → length u < 256
    → Shows h z
    → Shows (hist u h) (visited u z)
unfolding hist
hist-Shows u h ([], ahead) l w =
    let here : after_index h.index ≡ 0 = down_from-nil h.entries (after_index h.index) w.behind in
    elim (Bool-cases (length u == 0)) [
      | inl y ↦ rw y w
      | inr n ↦ rw (n, here) (append_entry-Shows u h ([], ahead) l w)
    ]
hist-Shows u h (c ∷ behind, ahead) l w =
    let (some_page, current, rest) =
      down_from-cons h.entries (after_index h.index) c behind w.behind in
    let begun : after_index h.index == 0 ≡ false = ground arith in
    elim (Bool-cases (length u == 0 || same_bytes c u)) [
      | inl y ↦ rw (begun, current, y) w
      | inr n ↦ rw (begun, current, n) (append_entry-Shows u h (c ∷ behind, ahead) l w)
    ]

Shows-if :
    (b : Bool) (h k : History) (y z : Pages)
    → Shows h y
    → Shows k z
    → Shows (if b then h else k) (if b then y else z)
Shows-if true h k y z p q = p
Shows-if false h k y z p q = q

went_back :
    (h : History) (c d : Bytes) (behind ahead : List Bytes)
    → Shows h (c ∷ d ∷ behind, ahead)
    → Shows (record h { index = pos (after_index h.index - 2) }) (d ∷ behind, c ∷ ahead)
went_back h c d behind ahead w =
    let here = after_index h.index in
    let (some_page, current, rest) = down_from-cons h.entries here c (d ∷ behind) w.behind in
    let (second, before, others) = down_from-cons h.entries (here - 1) d behind rest in
    let e : here - 2 + 1 ≡ here - 1 = omega arith in
    let f : h.count - (here - 1) ≡ suc (h.count - here) = omega (arith, w.inside) in
    let g : here - 1 + 1 ≡ here = omega arith in
    record {
      short = w.short;
      room = w.room;
      inside = omega (arith, w.inside);
      behind = rw e rest;
      ahead = rw (e, f, g, current) (ap (λ r. c ∷ r) w.ahead);
    }

went_forward :
    (h : History) (c d : Bytes) (behind ahead : List Bytes)
    → Shows h (c ∷ behind, d ∷ ahead)
    → Shows (record h { index = pos (after_index h.index) }) (d ∷ c ∷ behind, ahead)
went_forward h c d behind ahead w =
    let here = after_index h.index in
    let (left, after, others) = up_from-cons h.entries (h.count - here) here d ahead w.ahead in
    let e : here + 1 ≡ suc here = omega arith in
    let f : h.count - (here + 1) ≡ h.count - here - 1 = omega arith in
    record {
      short = w.short;
      room = w.room;
      inside = omega (arith, w.inside);
      behind = rw (e, after) (ap (λ r. d ∷ r) w.behind);
      ahead = rw f others;
    }

back-Shows :
    (loads : Bool) (h : History) (z : Pages)
    → Shows h z
    → ((vela_back loads h).0 ≡ (page_turn (back loads) z).0)
      × Shows (vela_back loads h).1 (page_turn (back loads) z).1
unfolding vela_back vela_can_back
back-Shows loads h ([], ahead) w =
    let here : after_index h.index ≡ 0 = down_from-nil h.entries (after_index h.index) w.behind in
    let shut : ltb 1 (after_index h.index) ≡ false = ground arith in rw shut (refl, w)
back-Shows loads h (c ∷ [], ahead) w =
    let (some_page, current, rest) = down_from-cons h.entries (after_index h.index) c [] w.behind in
    let last : after_index h.index - 1 ≡ 0 =
      down_from-nil h.entries (after_index h.index - 1) rest in
    let shut : ltb 1 (after_index h.index) ≡ false = ground arith in rw shut (refl, w)
back-Shows loads h (c ∷ d ∷ behind, ahead) w =
    let (some_page, current, rest) =
      down_from-cons h.entries (after_index h.index) c (d ∷ behind) w.behind in
    let (second, before, others) =
      down_from-cons h.entries (after_index h.index - 1) d behind rest in
    let open_way : ltb 1 (after_index h.index) ≡ true = ground arith in
    let place : after_index h.index - 2 ≡ after_index h.index - 1 - 1 = omega arith in
    rw open_way (
      ap some (
          scopy-short (h.entries (after_index h.index - 2)) (w.short (after_index h.index - 2))
          ∙ ap h.entries place
          ∙ before),
      Shows-if loads _ h _ (c ∷ d ∷ behind, ahead) (went_back h c d behind ahead w) w,
    )

forward-Shows :
    (loads : Bool) (h : History) (z : Pages)
    → Shows h z
    → ((vela_forward loads h).0 ≡ (page_turn (forward loads) z).0)
      × Shows (vela_forward loads h).1 (page_turn (forward loads) z).1
unfolding vela_forward vela_can_forward
forward-Shows loads h ([], ahead) w =
    let here : after_index h.index == 0 ≡ true =
      rw (down_from-nil h.entries (after_index h.index) w.behind) refl in
    rw here (refl, w)
forward-Shows loads h (c ∷ behind, []) w =
    let end = up_from-nil h.entries (h.count - after_index h.index) (after_index h.index) w.ahead in
    let shut : not (after_index h.index == 0) && ltb (after_index h.index) h.count ≡ false =
      ground arith in
    rw shut (refl, w)
forward-Shows loads h (c ∷ behind, d ∷ ahead) w =
    let here = after_index h.index in
    let (some_page, current, rest) = down_from-cons h.entries here c behind w.behind in
    let (left, after, others) = up_from-cons h.entries (h.count - here) here d ahead w.ahead in
    let open_way : not (here == 0) && ltb here h.count ≡ true = ground arith in
    rw open_way (
      ap some (scopy-short (h.entries here) (w.short here) ∙ after),
      Shows-if loads _ h _ (c ∷ behind, d ∷ ahead) (went_forward h c d behind ahead w) w,
    )

run-Shows :
    (es : List Event) (h : History) (z : Pages) → AreShort es → Shows h z → run es h ≡ turns es z
run-Shows [] h z s w = refl
run-Shows (visit u ∷ es) h z (l, s) w =
    ap (λ r. none ∷ r) (run-Shows es (hist u h) (visited u z) s (hist-Shows u h z l w))
run-Shows (back loads ∷ es) h z s w =
    let (e, w') = back-Shows loads h z w in
    ap (λ p. p ∷ run es (vela_back loads h).1) e
    ∙ ap (λ r. (page_turn (back loads) z).0 ∷ r)
        (run-Shows es (vela_back loads h).1 (page_turn (back loads) z).1 s w')
run-Shows (forward loads ∷ es) h z s w =
    let (e, w') = forward-Shows loads h z w in
    ap (λ p. p ∷ run es (vela_forward loads h).1) e
    ∙ ap (λ r. (page_turn (forward loads) z).0 ∷ r)
        (run-Shows es (vela_forward loads h).1 (page_turn (forward loads) z).1 s w')

-- From an empty history on, with addresses that fit in an entry: for every order of visits and of steps
-- back and forward, whether their pages load or not, the addresses that the steps load are those of a
-- list of pages behind and a list of pages ahead. A visit empties the list ahead and keeps the last
-- twelve pages; a step moves one page between the lists if it loads.
pub run-turns :
    (es : List Event) (h : History)
    → AreShort es
    → h.count ≡ 0
    → h.index ≡ minus_one
    → ((j : ℕ) → h.entries j ≡ [])
    → run es h ≡ turns es ([], [])
run-turns es h s e f g =
    run-Shows es h ([], []) s
      (record {
        short = λ j. rw (g j) (omega arith);
        room = omega arith;
        inside = rw f (omega arith);
        behind = rw f refl;
        ahead = rw (e, f) refl;
      })
