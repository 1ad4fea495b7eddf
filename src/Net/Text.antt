-- ===== src/Net/Text.antt =====
-- kernel/net.c: characters and strings.
use un_orion.Common.{
  ℕ, ◌+◌, ◌-◌, ◌*◌, Bool, true, false, not, ◌&&◌, ◌||◌, Option, none, some, [], ◌∷◌, ◌++◌, Bytes,
  take, length, u64, ltb, leb, ◌==◌, if◌then◌else◌,
}

abbrev pub is_digit : ℕ → Bool
is_digit c = leb 48 c && leb c 57

-- The bytes of an array as a string: what stands before the NUL.
unfoldable pub until_nul : Bytes → Bytes
until_nul [] = []
until_nul (c ∷ s) = let rest = until_nul s in if c == 0 then [] else c ∷ rest

unfoldable pub lower_ascii : ℕ → ℕ
lower_ascii c = if leb 65 c && leb c 90 then c + 32 else c

-- `none` is the -1 of the code.
unfoldable pub hexval : ℕ → Option ℕ
hexval c =
    let l = lower_ascii c in
    if is_digit c then some (c - 48) else if leb 97 l && leb l 102 then some (l - 97 + 10) else none

-- What `scopy` leaves in `d`; a null `s` is the empty string.
unfoldable pub scopy : ℕ → Bytes → Bytes
scopy cap s = take (cap - 1) s

unfoldable pub sappend : Bytes → ℕ → Bytes → Bytes
sappend d cap s = if ltb (length d) cap then d ++ take (cap - 1 - length d) s else d

-- Is `p` a prefix of `s`, in any case of letters?
unfoldable pub starts_ci : Bytes → Bytes → Bool
starts_ci s [] = true
starts_ci [] (q ∷ p) = false
starts_ci (c ∷ s) (q ∷ p) =
    let rest = starts_ci s p in if not (lower_ascii c == lower_ascii q) then false else rest

-- The inner loop of `contains_ci` against all of the needle is `starts_ci` at a position.
unfoldable pub contains_ci : Bytes → Bytes → Bool
contains_ci [] needle = false
contains_ci (c ∷ s) needle =
    let later = contains_ci s needle in
    if length needle == 0 || ltb (length (c ∷ s)) (length needle)
    then false
    else if starts_ci (c ∷ s) needle
    then true
    else later

unfoldable pub range_eq_ci : Bytes → Bytes → Bool
range_eq_ci a b = if not (length b == length a) then false else starts_ci a b

-- `parse_size_dec` from a digit on, with the value so far.
unfoldable pub size_digits : Bytes → ℕ → Option ℕ
size_digits [] v = some v
size_digits (c ∷ s) v =
    let nv = u64 (v * 10 + (c - 48)) in
    let rest = size_digits s nv in
    if not (is_digit c) then none else if ltb nv v || ltb 0x1000000 nv then none else rest

unfoldable pub parse_size_dec : Bytes → Option ℕ
parse_size_dec [] = none
parse_size_dec (c ∷ s) = size_digits (c ∷ s) 0
