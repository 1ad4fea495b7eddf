-- ===== src/Vela/Zipper/Entries.antt =====
-- kernel/vela.c: the array of the history, read as lists.
use un_orion.Common.{
  ℕ, zero, suc, ◌+◌, ◌-◌, ◌≤◌, ◌<◌, ◌≡◌, refl, ap, true, false, List, [], ◌∷◌, Bytes, take, length,
  ◌==◌, Bool-cases, inl, inr, arith,
}
use un_orion.Net.Text.{scopy}
use un_orion.Net.Stack.Stream.{take-whole}
use un_orion.Vela.History.{write_entry, shift_down}

-- The first `n` entries, the last one first, and `n` entries from `i` on.
abbrev pub down_from : (ℕ → Bytes) → ℕ → List Bytes
down_from entries zero = []
down_from entries (suc n) = entries n ∷ down_from entries n

abbrev pub up_from : (ℕ → Bytes) → ℕ → ℕ → List Bytes
up_from entries zero i = []
up_from entries (suc n) i = entries i ∷ up_from entries n (i + 1)

pub scopy-short : (u : Bytes) → length u < 256 → scopy 256 u ≡ u
unfolding scopy
scopy-short u h = take-whole 255 u (omega arith)

pub write_entry-short :
    (i : ℕ) (u : Bytes) (entries : ℕ → Bytes)
    → length u < 256
    → ((j : ℕ) → length (entries j) < 256)
    → (j : ℕ) → length (write_entry i u entries j) < 256
unfolding write_entry
write_entry-short i u entries h s j = elim (Bool-cases (j == i)) [
  | inl y ↦ rw (y, scopy-short u h) h
  | inr n ↦ rw n (s j)
]

pub shift_down-short :
    (n i : ℕ) (entries : ℕ → Bytes)
    → ((j : ℕ) → length (entries j) < 256)
    → (j : ℕ) → length (shift_down n i entries j) < 256
unfolding shift_down
shift_down-short zero i entries s = s
shift_down-short (suc n) i entries s =
    shift_down-short n (i + 1) _ (write_entry-short (i - 1) (entries i) entries (s i) s)

down_from-write_entry :
    (n i : ℕ) (u : Bytes) (entries : ℕ → Bytes)
    → n ≤ i
    → down_from (write_entry i u entries) n ≡ down_from entries n
unfolding write_entry
down_from-write_entry zero i u entries h = refl
down_from-write_entry (suc n) i u entries h =
    let other : n == i ≡ false = ground arith in
    rw other (ap (λ r. entries n ∷ r) (down_from-write_entry n i u entries (omega arith)))

length-down_from : (n : ℕ) (entries : ℕ → Bytes) → length (down_from entries n) ≡ n
length-down_from zero entries = refl
length-down_from (suc n) entries = ap suc (length-down_from n entries)

-- The entries of a full array after a visit.
pub full_entries :
    (u : Bytes) (entries : ℕ → Bytes)
    → ((j : ℕ) → length (entries j) < 256)
    → length u < 256
    → down_from (write_entry 11 u (shift_down 11 1 entries)) 12 ≡ take 12 (u ∷ down_from entries 12)
unfolding write_entry shift_down
full_entries u entries s h = rw (
  scopy-short u h,
  scopy-short (entries 11) (s 11),
  scopy-short (entries 10) (s 10),
  scopy-short (entries 9) (s 9),
  scopy-short (entries 8) (s 8),
  scopy-short (entries 7) (s 7),
  scopy-short (entries 6) (s 6),
  scopy-short (entries 5) (s 5),
  scopy-short (entries 4) (s 4),
  scopy-short (entries 3) (s 3),
  scopy-short (entries 2) (s 2),
  scopy-short (entries 1) (s 1),
)

take-pages : (n : ℕ) (ps : List Bytes) → length ps ≤ n → take n ps ≡ ps
take-pages zero [] h = refl
take-pages (suc n) [] h = refl
take-pages zero (p ∷ ps) h = absurd (omega arith)
take-pages (suc n) (p ∷ ps) h = ap (λ r. p ∷ r) (take-pages n ps (omega arith))

-- The entries of an array with room after a visit.
pub next_entries :
    (u : Bytes) (entries : ℕ → Bytes) (n : ℕ)
    → length u < 256
    → n < 12
    → down_from (write_entry n u entries) (suc n) ≡ take 12 (u ∷ down_from entries n)
unfolding write_entry
next_entries u entries n h k =
    let e : n == n ≡ true = ground arith in
    rw
      (
        e,
        scopy-short u h,
        take-pages 12 (u ∷ down_from entries n) (omega (arith, length-down_from n entries)),
      )
      (ap (λ r. u ∷ r) (down_from-write_entry n n u entries (omega arith)))

pub down_from-nil : (entries : ℕ → Bytes) (n : ℕ) → down_from entries n ≡ [] → n ≡ 0
down_from-nil entries zero h = refl
down_from-nil entries (suc n) h = absurd cc

pub down_from-cons :
    (entries : ℕ → Bytes) (n : ℕ) (c : Bytes) (ps : List Bytes)
    → down_from entries n ≡ c ∷ ps
    → (1 ≤ n) × (entries (n - 1) ≡ c) × (down_from entries (n - 1) ≡ ps)
down_from-cons entries zero c ps h = absurd cc
down_from-cons entries (suc n) c ps h =
    let e : suc n - 1 ≡ n = omega arith in rw e (omega arith, cc, cc)

pub up_from-nil : (entries : ℕ → Bytes) (n i : ℕ) → up_from entries n i ≡ [] → n ≡ 0
up_from-nil entries zero i h = refl
up_from-nil entries (suc n) i h = absurd cc

pub up_from-cons :
    (entries : ℕ → Bytes) (n i : ℕ) (d : Bytes) (ps : List Bytes)
    → up_from entries n i ≡ d ∷ ps
    → (1 ≤ n) × (entries i ≡ d) × (up_from entries (n - 1) (i + 1) ≡ ps)
up_from-cons entries zero i d ps h = absurd cc
up_from-cons entries (suc n) i d ps h =
    let e : suc n - 1 ≡ n = omega arith in rw e (omega arith, cc, cc)
