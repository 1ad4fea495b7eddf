-- ===== src/Net/Chunked/RoundTrip.antt =====
-- kernel/net.c: `decode_chunked` on well-formed chunks.
use un_orion.Common.{
  ℕ, zero, suc, ◌+◌, ◌-◌, ◌*◌, ◌≤◌, ◌<◌, ◌≡◌, refl, ap, sym, ◌∙◌, false, some, List, [], ◌∷◌, ◌++◌,
  append_assoc, append-nil, Bytes, take, length, length-append, length-take, drop-append, min, ltb,
  ◌==◌, done, arith,
}
use un_orion.Net.Text.{hexval, lower_ascii}
use un_orion.Net.Chunked.{is_line_end, read_size, after_size, decode_loop, decode_chunked}

-- The hexadecimal digits `ds` take the value `v` to `n`.
abbrev pub IsSize : Bytes → ℕ → ℕ → Type 0
IsSize [] v n = v ≡ n
IsSize (d ∷ ds) v n = (h : ℕ) × (hexval d ≡ some h) × IsSize ds (v * 16 + h) n

pub record Piece : Type 0 where
  pub first : ℕ
  pub digits : Bytes
  pub body : Bytes

-- A chunk with its size in front, at most 1 MiB.
pub record IsPiece (p : Piece) : Type 0 where
  pub sized : IsSize (p.first ∷ p.digits) 0 (length p.body)
  pub filled : 1 ≤ length p.body
  pub small : length p.body ≤ 0x100000

abbrev pub ArePieces : List Piece → Type 0
ArePieces [] = Unit
ArePieces (p ∷ ps) = IsPiece p × ArePieces ps

-- The chunks as they are sent, the last chunk, and what follows.
abbrev pub encode : List Piece → Bytes → Bytes
encode [] tail = 48 ∷ 13 ∷ 10 ∷ tail
encode (p ∷ ps) tail = p.first ∷ (p.digits ++ (13 ∷ 10 ∷ (p.body ++ (13 ∷ 10 ∷ encode ps tail))))

abbrev pub payload : List Piece → Bytes
payload [] = []
payload (p ∷ ps) = p.body ++ payload ps

digit-plain : (d h : ℕ) → hexval d ≡ some h → (is_line_end d ≡ false) × (d == 59 ≡ false)
unfolding hexval lower_ascii
digit-plain d h e = (ground arith, ground arith)

IsSize-grows : (ds : Bytes) (v n : ℕ) → IsSize ds v n → v ≤ n
IsSize-grows [] v n e = omega arith
IsSize-grows (d ∷ ds) v n (h, e, g) = omega (arith, IsSize-grows ds (v * 16 + h) n g)

read_size-sized :
    (ds s : Bytes) (v n k : ℕ)
    → IsSize ds v n
    → n ≤ 0x100000
    → read_size (ds ++ 13 ∷ s) v k ≡ some (n, length ds + k, 13 ∷ s)
unfolding read_size
read_size-sized [] s v n k e l =
    ap (λ m. some (m, k, 13 ∷ s)) e ∙ ap (λ m. some (n, m, 13 ∷ s)) (omega arith)
read_size-sized (d ∷ ds) s v n k (h, e, g) l =
    let (a, b) = digit-plain d h e in
    let small : ltb 0x100000 (v * 16 + h) ≡ false =
      ground (arith, IsSize-grows ds (v * 16 + h) n g) in
    rw (a, b, e, small)
      (read_size-sized ds s (v * 16 + h) n (k + 1) g l
        ∙ ap (λ m. some (n, m, 13 ∷ s)) (omega arith))

take-min : (j : ℕ) (t s : Bytes) → take (min (length t) j) (t ++ s) ≡ take j t
take-min zero t s = let e : min (length t) 0 ≡ 0 = omega arith in rw e
take-min (suc j) [] s = let e : min 0 (suc j) ≡ 0 = omega arith in rw e
take-min (suc j) (x ∷ t) s =
    let e : min (suc (length t)) (suc j) ≡ suc (min (length t) j) = omega arith in
    rw e (ap (λ r. x ∷ r) (take-min j t s))

-- The part of `t` that fits behind the part of `sent` that fits.
take-more :
    (k : ℕ) (sent t s : Bytes)
    → take k sent ++ take (min (length t) (k - length (take k sent))) (t ++ s) ≡ take k (sent ++ t)
take-more zero sent t s = let e : min (length t) (0 - 0) ≡ 0 = omega arith in rw e
take-more (suc k) [] t s = let e : suc k - 0 ≡ suc k = omega arith in rw e (take-min (suc k) t s)
take-more (suc k) (x ∷ sent) t s =
    let e : suc k - suc (length (take k sent)) ≡ k - length (take k sent) = omega arith in
    rw e (ap (λ r. x ∷ r) (take-more k sent t s))

-- A turn of the outer loop on a chunk.
decode_loop-piece :
    (fuel cap : ℕ) (p : Piece) (s sent : Bytes)
    → IsPiece p
    → decode_loop
        (suc fuel)
        cap
        (p.first ∷ (p.digits ++ (13 ∷ 10 ∷ (p.body ++ (13 ∷ 10 ∷ s)))))
        (take (cap - 1) sent)
      ≡ decode_loop fuel cap s (take (cap - 1) (sent ++ p.body))
unfolding decode_loop
decode_loop-piece fuel cap p s sent w =
    let n = length p.body in
    let rest = p.body ++ (13 ∷ 10 ∷ s) in
    let line = read_size-sized (p.first ∷ p.digits) (10 ∷ rest) 0 n 0 w.sized w.small in
    let room : ltb (length rest) n ≡ false = ground (arith, length-append p.body (13 ∷ 10 ∷ s)) in
    let full : n == 0 ≡ false = ground (arith, w.filled) in
    let some_digits : length (p.first ∷ p.digits) + 0 == 0 ≡ false = ground arith in
    ap (after_size (decode_loop fuel cap) cap (take (cap - 1) sent)) line
    ∙ rw (some_digits, full, room, drop-append p.body (13 ∷ 10 ∷ s))
        (ap (decode_loop fuel cap s) (take-more (cap - 1) sent p.body (13 ∷ 10 ∷ s)))

take-empty : (n : ℕ) → take {A = ℕ} n [] ≡ []
take-empty zero = refl
take-empty (suc n) = refl

no_turn : (n : ℕ) → n < 0 → ⊥
no_turn n h = omega arith

decode_loop-last :
    (fuel cap : ℕ) (tail sent : Bytes)
    → decode_loop (suc fuel) cap (48 ∷ 13 ∷ 10 ∷ tail) (take (cap - 1) sent)
      ≡ done (length (take (cap - 1) sent), take (cap - 1) sent ++ 0 ∷ [])
unfolding decode_loop read_size hexval lower_ascii
decode_loop-last fuel cap tail sent = refl

length-encode : (ps : List Piece) (tail : Bytes) → length ps < length (encode ps tail)
length-encode [] tail = omega arith
length-encode (p ∷ ps) tail = omega (
  arith,
  length-encode ps tail,
  length-append p.digits (13 ∷ 10 ∷ (p.body ++ (13 ∷ 10 ∷ encode ps tail))),
  length-append p.body (13 ∷ 10 ∷ encode ps tail),
)

decode_loop-encode :
    (ps : List Piece) (fuel cap : ℕ) (tail sent : Bytes)
    → ArePieces ps
    → length ps < fuel
    → decode_loop fuel cap (encode ps tail) (take (cap - 1) sent)
      ≡ done (
        length (take (cap - 1) (sent ++ payload ps)),
        take (cap - 1) (sent ++ payload ps) ++ 0 ∷ [],
      )
decode_loop-encode ps zero cap tail sent w h = elim (no_turn (length ps) h) [ ]
decode_loop-encode [] (suc fuel) cap tail sent w h =
    rw (append-nil sent) (decode_loop-last fuel cap tail sent)
decode_loop-encode (p ∷ ps) (suc fuel) cap tail sent (w, ws) h =
    decode_loop-piece fuel cap p (encode ps tail) sent w
    ∙ rw⁻¹ (append_assoc sent p.body (payload ps))
        (decode_loop-encode ps fuel cap tail (sent ++ p.body) ws (omega arith))

-- Chunks with their sizes in front, each of 1 byte to 1 MiB, closed by a chunk of size 0, are decoded
-- to all their bytes, as far as they fit before a NUL, whatever follows.
pub decode_chunked-encode :
    (ps : List Piece) (cap : ℕ) (tail : Bytes)
    → ArePieces ps
    → 1 ≤ cap
    → decode_chunked (encode ps tail) cap
      ≡ done (min (length (payload ps)) (cap - 1), take (cap - 1) (payload ps) ++ 0 ∷ [])
unfolding decode_chunked
decode_chunked-encode ps cap tail w h =
    let some_room : cap == 0 ≡ false = ground arith in
    rw some_room (
      ap (decode_loop (suc (length (encode ps tail))) cap (encode ps tail))
        (sym (take-empty (cap - 1)))
      ∙ decode_loop-encode ps (suc (length (encode ps tail))) cap tail [] w
          (omega (arith, length-encode ps tail))
      ∙ ap (λ n. done (n, take (cap - 1) (payload ps) ++ 0 ∷ []))
          (omega (arith, length-take (cap - 1) (payload ps))))
