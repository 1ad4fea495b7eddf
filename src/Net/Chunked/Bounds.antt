-- ===== src/Net/Chunked/Bounds.antt =====
-- kernel/net.c: `decode_chunked` returns, and stays inside `out`.
use un_orion.Common.{
  ℕ, zero, suc, ◌+◌, ◌-◌, ◌*◌, ◌≤◌, ◌<◌, ◌≡◌, inl, inr, refl, Option, none, some, [], ◌∷◌, ◌++◌,
  Bytes, take, drop, length, length-append, length-take, length-drop, min, ltb, ◌==◌, Bool-cases,
  Run, done, arith,
}
use un_orion.Net.Text.{hexval}
use un_orion.Net.Chunked.{
  is_line_end, to_line_end, read_digit, read_size, skip, skip_line_end, after_size, decode_loop,
  decode_chunked,
}

pub length-to_line_end : (s : Bytes) → length (to_line_end s) ≤ length s
unfolding to_line_end
length-to_line_end [] = omega arith
length-to_line_end (c ∷ s) = ground (arith, length-to_line_end s)

length-skip : (c : ℕ) (s : Bytes) → length (skip c s) ≤ length s
length-skip c [] = omega arith
length-skip c (d ∷ s) = ground arith

length-skip_line_end : (s : Bytes) → length (skip_line_end s) ≤ length s
length-skip_line_end s = omega (arith, length-skip 13 s, length-skip 10 (skip 13 s))

-- The size line takes a byte for every digit.
abbrev Shorter : ℕ → ℕ → Option (ℕ × ℕ × Bytes) → Type 0
Shorter n digits none = Unit
Shorter n digits (some (chunk, digits', rest)) = length rest + digits' ≤ n + digits

weaker :
    (n digits : ℕ) (r : Option (ℕ × ℕ × Bytes))
    → Shorter n (digits + 1) r
    → Shorter (suc n) digits r
weaker n digits none h = tt
weaker n digits (some (chunk, digits', rest)) h = omega arith

no_turn : (n : ℕ) → n < 0 → ⊥
no_turn n h = omega arith

read_digit-Shorter :
    (again : ℕ → ℕ → Option (ℕ × ℕ × Bytes)) (n chunk digits : ℕ) (h : Option ℕ)
    → ((chunk' : ℕ) → Shorter n (digits + 1) (again chunk' (digits + 1)))
    → Shorter (suc n) digits (read_digit again chunk digits h)
read_digit-Shorter again n chunk digits none f = tt
read_digit-Shorter again n chunk digits (some h) f =
    elim (Bool-cases (ltb 0x100000 (chunk * 16 + h))) [
      | inl y ↦ rw y tt
      | inr no_more ↦
          rw no_more (weaker n digits (again (chunk * 16 + h) (digits + 1)) (f (chunk * 16 + h)))
    ]

read_size-Shorter :
    (s : Bytes) (chunk digits : ℕ) → Shorter (length s) digits (read_size s chunk digits)
unfolding read_size
read_size-Shorter [] chunk digits = omega arith
read_size-Shorter (c ∷ s) chunk digits = elim (Bool-cases (is_line_end c)) [
  | inl y ↦ rw y (omega arith)
  | inr n ↦ elim (Bool-cases (c == 59)) [
    | inl y ↦ rw (n, y) (omega (arith, length-to_line_end s))
    | inr m ↦
        rw (n, m)
          (read_digit-Shorter (read_size s) (length s) chunk digits (hexval c)
            (λ chunk'. read_size-Shorter s chunk' (digits + 1)))
  ]
]

-- What `decode_chunked` may end with for `out[cap]`: 0 with some bytes written, or the length of a text
-- that stands there with its NUL. What is written is within the `cap` bytes, the NUL too.
pub data IsDecoded (cap : ℕ) : ℕ × Bytes → Type 0 where
  refused : (written : Bytes) → length written ≤ cap → IsDecoded cap (0, written)
  whole : (text : Bytes) → length text < cap → IsDecoded cap (length text, text ++ 0 ∷ [])

after_size-IsDecoded :
    (again : Bytes → Bytes → Run (ℕ × Bytes)) (cap n : ℕ) (out : Bytes) (r : Option (ℕ × ℕ × Bytes))
    → length out < cap
    → Shorter n 0 r
    → ((s out' : Bytes)
        → length s < n
        → length out' < cap
        → (x : ℕ × Bytes) × (again s out' ≡ done x) × IsDecoded cap x)
    → (x : ℕ × Bytes) × (after_size again cap out r ≡ done x) × IsDecoded cap x
after_size-IsDecoded again cap n out none l h f = ((0, out), refl, refused out (omega arith))
after_size-IsDecoded again cap n out (some (chunk, digits, rest)) l h f =
    let s = skip_line_end rest in
    elim (Bool-cases (digits == 0)) [
      | inl y ↦ ((0, out), rw y, refused out (omega arith))
      | inr a ↦ elim (Bool-cases (chunk == 0)) [
        | inl y ↦ ((length out, out ++ 0 ∷ []), rw (a, y), whole out l)
        | inr b ↦ elim (Bool-cases (ltb (length s) chunk)) [
          | inl y ↦ ((0, out), rw (a, b, y), refused out (omega arith))
          | inr c ↦
              let (x, e, g) =
                f (skip_line_end (drop chunk s)) (out ++ take (min chunk (cap - 1 - length out)) s)
                  (ground (
                    arith,
                    length-skip_line_end (drop chunk s),
                    length-drop chunk s,
                    length-skip_line_end rest,
                  ))
                  (omega (
                    arith,
                    length-append out (take (min chunk (cap - 1 - length out)) s),
                    length-take (min chunk (cap - 1 - length out)) s,
                  )) in
              (x, rw (a, b, c) e, g)
        ]
      ]
    ]

decode_loop-IsDecoded :
    (fuel cap : ℕ) (s out : Bytes)
    → length s < fuel
    → length out < cap
    → (x : ℕ × Bytes) × (decode_loop fuel cap s out ≡ done x) × IsDecoded cap x
unfolding decode_loop
decode_loop-IsDecoded zero cap s out h l = elim (no_turn (length s) h) [ ]
decode_loop-IsDecoded (suc fuel) cap [] out h l = ((length out, out ++ 0 ∷ []), refl, whole out l)
decode_loop-IsDecoded (suc fuel) cap (c ∷ s) out h l =
    after_size-IsDecoded (decode_loop fuel cap) cap (suc (length s)) out (read_size (c ∷ s) 0 0) l
      (read_size-Shorter (c ∷ s) 0 0)
      (λ s' out' h' l'. decode_loop-IsDecoded fuel cap s' out' (omega arith) l')

-- For every response and every buffer, also an empty one, decoding returns; a result is the length of a text that stands
-- in the buffer with its NUL, or 0, and nothing is written behind the buffer's end.
pub decode_chunked-IsDecoded :
    (src : Bytes) (cap : ℕ) → (x : ℕ × Bytes) × (decode_chunked src cap ≡ done x) × IsDecoded cap x
unfolding decode_chunked
decode_chunked-IsDecoded src cap = elim (Bool-cases (cap == 0)) [
  | inl y ↦ ((0, []), rw y, refused [] (omega arith))
  | inr n ↦
      let (x, e, g) =
        decode_loop-IsDecoded (suc (length src)) cap src [] (omega arith) (ground arith) in
      (x, rw n e, g)
]
