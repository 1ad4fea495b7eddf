-- ===== src/Net/Chunked.antt =====
-- kernel/net.c: `decode_chunked`. The suffix of `src` from `p` on stands for `p`; the bytes written to
-- `out`, from its start, stand for `o`, and the NUL is one of them.
pub mod Bounds
pub mod RoundTrip
use un_orion.Common.{
  ℕ, zero, suc, ◌+◌, ◌-◌, ◌*◌, Bool, true, false, not, ◌&&◌, ◌||◌, Option, none, some, List, [],
  ◌∷◌, ◌++◌, Bytes, take, drop, length, ltb, ◌==◌, if◌then◌else◌, Run, done, out_of_fuel, ◌>>=◌,
  min,
}
use un_orion.Net.Text.{hexval}

-- `\r` and `\n`
abbrev pub is_line_end : ℕ → Bool
is_line_end c = c == 13 || c == 10

unfoldable pub to_line_end : Bytes → Bytes
to_line_end [] = []
to_line_end (c ∷ s) = let rest = to_line_end s in if is_line_end c then c ∷ s else rest

-- What a digit does to the size and the number of digits; `again` is the next turn of the loop.
abbrev pub read_digit : (ℕ → ℕ → Option (ℕ × ℕ × Bytes)) → ℕ → ℕ → Option ℕ → Option (ℕ × ℕ × Bytes)
read_digit again chunk digits none = none
read_digit again chunk digits (some h) =
    if ltb 0x100000 (chunk * 16 + h) then none else again (chunk * 16 + h) (digits + 1)

-- The loop over the size line: the size, the number of digits and what is left; `none` where the code
-- returns 0.
unfoldable pub read_size : Bytes → ℕ → ℕ → Option (ℕ × ℕ × Bytes)
read_size [] chunk digits = some (chunk, digits, [])
read_size (c ∷ s) chunk digits =
    let digit = read_digit (read_size s) chunk digits (hexval c) in
    if is_line_end c
    then some (chunk, digits, c ∷ s)
    else if c == 59
    then some (chunk, digits, to_line_end s)
    else digit

-- `if(p<len&&src[p]==c)p++`
abbrev pub skip : ℕ → Bytes → Bytes
skip c [] = []
skip c (d ∷ s) = if d == c then s else d ∷ s

abbrev pub skip_line_end : Bytes → Bytes
skip_line_end s = skip 10 (skip 13 s)

-- A turn of the outer loop after the size line; `again` is its next turn.
abbrev pub after_size :
    (Bytes → Bytes → Run (ℕ × Bytes)) → ℕ → Bytes → Option (ℕ × ℕ × Bytes) → Run (ℕ × Bytes)
after_size again cap out none = done (0, out)
after_size again cap out (some (chunk, digits, rest)) =
    let s = skip_line_end rest in
    if digits == 0
    then done (0, out)
    else if chunk == 0
    then done (length out, out ++ 0 ∷ [])
    else if ltb (length s) chunk
    then done (0, out)
    else again (skip_line_end (drop chunk s)) (out ++ take (min chunk (cap - 1 - length out)) s)

unfoldable pub decode_loop : ℕ → ℕ → Bytes → Bytes → Run (ℕ × Bytes)
decode_loop zero cap s out = out_of_fuel
decode_loop (suc fuel) cap [] out = done (length out, out ++ 0 ∷ [])
decode_loop (suc fuel) cap (c ∷ s) out =
    after_size (decode_loop fuel cap) cap out (read_size (c ∷ s) 0 0)

-- The result, and what is written to `out`.
unfoldable pub decode_chunked : Bytes → ℕ → Run (ℕ × Bytes)
decode_chunked src cap =
    if cap == 0 then done (0, []) else decode_loop (suc (length src)) cap src []
