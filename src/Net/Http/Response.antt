-- ===== src/Net/Http/Response.antt =====
-- kernel/net.c: the head of a response.
use un_orion.Common.{
  ℕ, zero, suc, ◌+◌, ◌-◌, ◌*◌, Bool, ◌&&◌, ◌||◌, Option, none, some, [], ◌∷◌, Bytes, take, length,
  ◌==◌, if◌then◌else◌,
}
use un_orion.Net.Text.{is_digit, range_eq_ci}
use un_orion.Net.Chunked.{is_line_end, to_line_end}
use un_orion.Net.Url.{after_prefix}

-- The first occurrence of `mark`: what stands before it and behind it.
unfoldable pub split_at : Bytes → Bytes → Option (Bytes × Bytes)
split_at mark [] = none
split_at mark (c ∷ s) =
    let here = after_prefix mark (c ∷ s) in
    let later = split_at mark s in
    elim here [
      | some rest ↦ some ([], rest)
      | none ↦ elim later [ none ↦ none | some (before, rest) ↦ some (c ∷ before, rest) ]
    ]

unfoldable pub split_response : Bytes → Option (Bytes × Bytes)
split_response raw =
    let crlf = split_at (13 ∷ 10 ∷ 13 ∷ 10 ∷ []) raw in
    let lf = split_at (10 ∷ 10 ∷ []) raw in elim crlf [ some parts ↦ some parts | none ↦ lf ]

-- The line at the front.
unfoldable pub take_line : Bytes → Bytes
take_line [] = []
take_line (c ∷ s) = let rest = take_line s in if is_line_end c then [] else c ∷ rest

unfoldable pub to_space : Bytes → Bytes
to_space [] = []
to_space (c ∷ s) = let rest = to_space s in if c == 32 then c ∷ s else rest

unfoldable pub skip_spaces : Bytes → Bytes
skip_spaces [] = []
skip_spaces (c ∷ s) = let rest = skip_spaces s in if c == 32 then rest else c ∷ s

-- `left` digits are still wanted.
unfoldable pub code_digits : ℕ → Bytes → ℕ → ℕ
code_digits zero s code = code
code_digits (suc left) [] code = 0
code_digits (suc left) (c ∷ s) code =
    let rest = code_digits left s (code * 10 + (c - 48)) in if is_digit c then rest else 0

unfoldable pub http_status_code : Bytes → ℕ
http_status_code raw = code_digits 3 (skip_spaces (to_space raw)) 0

abbrev pub is_blank : ℕ → Bool
is_blank c = c == 32 || c == 9

unfoldable pub skip_blanks : Bytes → Bytes
skip_blanks [] = []
skip_blanks (c ∷ s) = let rest = skip_blanks s in if is_blank c then rest else c ∷ s

-- The blanks at the end are cut off.
unfoldable pub trim_end : Bytes → Bytes
trim_end [] = []
trim_end (c ∷ s) = let rest = trim_end s in if is_blank c && length rest == 0 then [] else c ∷ rest

-- The name and the value around the first colon.
unfoldable pub at_colon : Bytes → Option (Bytes × Bytes)
at_colon [] = none
at_colon (c ∷ s) =
    let rest = at_colon s in
    if c == 58
    then some ([], s)
    else elim rest [ none ↦ none | some (name, value) ↦ some (c ∷ name, value) ]

-- The value of a line that is the header `name`.
abbrev pub value_of : Bytes → ℕ → Option (Bytes × Bytes) → Option Bytes
value_of name cap none = none
value_of name cap (some (field, value)) =
    if range_eq_ci field name then some (take (cap - 1) (trim_end (skip_blanks value))) else none

unfoldable pub skip_line_ends : Bytes → Bytes
skip_line_ends [] = []
skip_line_ends (c ∷ s) = let rest = skip_line_ends s in if is_line_end c then rest else c ∷ s

-- Behind the first line feed.
unfoldable pub after_line_feed : Bytes → Bytes
after_line_feed [] = []
after_line_feed (c ∷ s) = let rest = after_line_feed s in if c == 10 then s else rest

-- The loop over the lines; the suffix of `raw` from `p` on stands for `p`.
unfoldable pub find_header : ℕ → Bytes → Bytes → ℕ → Option Bytes
find_header zero s name cap = none
find_header (suc fuel) s name cap =
    let line = skip_line_ends s in
    let found = value_of name cap (at_colon (take_line line)) in
    let later = find_header fuel (to_line_end line) name cap in
    if length line == 0 then none else elim found [ some value ↦ some value | none ↦ later ]

-- The fuel is enough: each turn but the last takes a byte.
unfoldable pub header_value_ci : Bytes → Bytes → ℕ → Option Bytes
header_value_ci raw name cap =
    let rest = after_line_feed raw in
    if cap == 0 then none else find_header (suc (length rest)) rest name cap
