-- ===== src/Net/Client/Query.antt =====
-- kernel/net.c: `parse_ipv4`, and the host's name in the query of `dns_lookup`.
use un_orion.Common.{
  ℕ, zero, suc, ◌+◌, ◌-◌, ◌*◌, ◌||◌, Option, none, some, [], ◌∷◌, ◌++◌, Bytes, replicate, length,
  ltb, leb, ◌==◌, if◌then◌else◌,
}
use un_orion.Net.Text.{is_digit}
use un_orion.Net.State.{bytes16}

-- The digits of a number: the number, how many digits it has and what is left; `none` past 255.
unfoldable pub octet : Bytes → ℕ → ℕ → Option (ℕ × ℕ × Bytes)
octet [] v n = some (v, n, [])
octet (c ∷ s) v n =
    let v' = v * 10 + (c - 48) in
    let rest = octet s v' (n + 1) in
    if is_digit c then (if ltb 255 v' then none else rest) else some (v, n, c ∷ s)

-- `if(*s++!='.')return 0` where another number follows, and `*s==0` at the end; `again` goes on.
abbrev pub after_octet : (Bytes → Option Bytes) → ℕ → Option (ℕ × ℕ × Bytes) → Option Bytes
after_octet again left none = none
after_octet again zero (some (v, zero, s)) = none
after_octet again zero (some (v, suc n, [])) = some (v ∷ [])
after_octet again zero (some (v, suc n, c ∷ s)) = none
after_octet again (suc left) (some (v, zero, s)) = none
after_octet again (suc left) (some (v, suc n, [])) = none
after_octet again (suc left) (some (v, suc n, c ∷ s)) =
    let rest = again s in
    if c == 46 then elim rest [ none ↦ none | some vs ↦ some (v ∷ vs) ] else none

unfoldable pub octets : ℕ → Bytes → Option Bytes
octets zero s = after_octet (λ r. none) zero (octet s 0 0)
octets (suc left) s = after_octet (octets left) (suc left) (octet s 0 0)

unfoldable pub parse_ipv4 : Bytes → Option Bytes
parse_ipv4 s = octets 3 s

-- A name in a query: `full` is the return that leaves `dns_id`.
pub data Name : Type 0 where
  name : Bytes → Name
  refused : Name
  full : Name

-- A label of `n` bytes so far, with the next one at offset `o`: the label and what is left.
unfoldable pub take_label : Bytes → ℕ → ℕ → Option (Bytes × Bytes)
take_label [] n o = some ([], [])
take_label (c ∷ s) n o =
    let rest = take_label s (n + 1) (o + 1) in
    if c == 46
    then some ([], c ∷ s)
    else if leb 63 n || leb 500 o
    then none
    else elim rest [ none ↦ none | some (label, s') ↦ some (c ∷ label, s') ]

abbrev pub skip_dot : Bytes → Bytes
skip_dot [] = []
skip_dot (c ∷ s) = if c == 46 then s else c ∷ s

abbrev pub before_name : Bytes → Name → Name
before_name label (name labels) = name (length label ∷ label ++ labels)
before_name label refused = refused
before_name label full = full

abbrev pub after_label : (Bytes → ℕ → Name) → ℕ → Option (Bytes × Bytes) → Name
after_label again o none = refused
after_label again o (some ([], s)) = refused
after_label again o (some (c ∷ label, s)) =
    before_name (c ∷ label) (again (skip_dot s) (o + 2 + length label))

-- The labels of `s` from offset `o` on.
unfoldable pub encode_name : ℕ → Bytes → ℕ → Name
encode_name fuel [] o = name []
encode_name zero (c ∷ s) o = refused
encode_name (suc fuel) (c ∷ s) o =
    let rest = after_label (encode_name fuel) o (take_label (c ∷ s) 0 (o + 1)) in
    if leb 500 (o + 1) then full else rest

unfoldable pub query : ℕ → Bytes → Bytes
query id labels =
    bytes16 id
    ++ bytes16 0x0100
    ++ bytes16 1
    ++ replicate 6 0
    ++ labels
    ++ 0 ∷ bytes16 1
    ++ bytes16 1
