-- ===== src/Net/Url.antt =====
-- kernel/net.c: `parse_url`, `append_port` and `resolve_redirect`. The pointers to results are those of
-- the callers' arrays and variables, so they are never null, and what is in them after a refusal is not
-- used.
pub mod Redirect
pub mod Parse
use un_orion.Common.{
  ℕ, zero, suc, ◌+◌, ◌-◌, ◌*◌, ◌/◌, ◌%◌, Bool, true, false, not, ◌&&◌, ◌||◌, Option, none, some, ℤ,
  pos, minus_one, List, [], ◌∷◌, ◌++◌, Bytes, byte, take, drop, length, ltb, leb, ◌==◌,
  if◌then◌else◌,
}
use un_orion.Net.Text.{is_digit, scopy, sappend, starts_ci}

-- "http://", "https://", "http:" and "https:"
abbrev pub http : Bytes
http = 104 ∷ 116 ∷ 116 ∷ 112 ∷ 58 ∷ 47 ∷ 47 ∷ []

abbrev pub https : Bytes
https = 104 ∷ 116 ∷ 116 ∷ 112 ∷ 115 ∷ 58 ∷ 47 ∷ 47 ∷ []

-- What follows the prefix `p`.
unfoldable pub after_prefix : Bytes → Bytes → Option Bytes
after_prefix [] s = some s
after_prefix (q ∷ p) [] = none
after_prefix (q ∷ p) (c ∷ s) = let rest = after_prefix p s in if not (c == q) then none else rest

-- `/`, `:`, `?` and `#`
abbrev pub ends_host : ℕ → Bool
ends_host c = c == 47 || c == 58 || c == 63 || c == 35

-- The loop that fills `host`, from index `hi` on: the host's characters and what is left.
unfoldable pub take_host : ℕ → Bytes → ℕ → Option (Bytes × Bytes)
take_host hcap [] hi = some ([], [])
take_host hcap (c ∷ s) hi =
    let rest = take_host hcap s (hi + 1) in
    if ends_host c
    then some ([], c ∷ s)
    else if leb hcap (hi + 1)
    then none
    else elim rest [ none ↦ none | some r ↦ some (c ∷ r.0, r.1) ]

-- The loop over the digits of the port: the value, their number and what is left.
unfoldable pub port_digits : Bytes → ℕ → ℕ → Option (ℕ × ℕ × Bytes)
port_digits [] v n = some (v, n, [])
port_digits (c ∷ s) v n =
    let nv = v * 10 + (c - 48) in
    let rest = port_digits s nv (n + 1) in
    if not (is_digit c) then some (v, n, c ∷ s) else if ltb 65535 nv then none else rest

abbrev pub given_port : Option (ℕ × ℕ × Bytes) → Option (ℕ × Bytes)
given_port none = none
given_port (some (v, n, s)) = if n == 0 || v == 0 then none else some (v, s)

-- The port, which is `port` where the URL names none, and what is left.
unfoldable pub take_port : ℕ → Bytes → Option (ℕ × Bytes)
take_port port [] = some (port, [])
take_port port (c ∷ s) = if c == 58 then given_port (port_digits s 0 0) else some (port, c ∷ s)

-- `path`, or `none` where the URL is longer than it.
unfoldable pub take_path : ℕ → Bytes → Option Bytes
take_path pcap [] = some (47 ∷ [])
take_path pcap (c ∷ s) =
    let whole = if c == 63 || c == 35 then 47 ∷ c ∷ s else c ∷ s in
    if ltb (length whole) pcap then some whole else none

abbrev pub with_path : Bytes → ℕ → Bool → Option Bytes → Option (Bytes × ℕ × Bytes × Bool)
with_path host port secure none = none
with_path host port secure (some path) = some (host, port, path, secure)

abbrev pub with_port : ℕ → Bytes → Bool → Option (ℕ × Bytes) → Option (Bytes × ℕ × Bytes × Bool)
with_port pcap host secure none = none
with_port pcap host secure (some (port, s)) = with_path host port secure (take_path pcap s)

abbrev pub with_host : ℕ → ℕ → Bool → Option (Bytes × Bytes) → Option (Bytes × ℕ × Bytes × Bool)
with_host pcap port secure none = none
with_host pcap port secure (some (host, s)) =
    if length host == 0 then none else with_port pcap host secure (take_port port s)

abbrev pub after_scheme : ℕ → ℕ → Option Bytes → Option Bytes → Option (Bytes × ℕ × Bytes × Bool)
after_scheme hcap pcap (some s) _ = with_host pcap 443 true (take_host hcap s 0)
after_scheme hcap pcap none (some s) = with_host pcap 80 false (take_host hcap s 0)
after_scheme hcap pcap none none = none

-- The host, the port, the path and whether the URL is secure.
unfoldable pub parse_url : Option Bytes → ℕ → ℕ → Option (Bytes × ℕ × Bytes × Bool)
parse_url none hcap pcap = none
parse_url (some url) hcap pcap =
    if ltb hcap 2 || ltb pcap 2
    then none
    else after_scheme hcap pcap (after_prefix https url) (after_prefix http url)

-- The digits of `v` in `q`, in front of `acc`; `t` has room for eight.
unfoldable pub decimal : ℕ → ℕ → Bytes → Bytes
decimal zero v acc = acc
decimal (suc room) v acc =
    let digit = (48 + v % 10) ∷ acc in
    let more = decimal room (v / 10) digit in if v / 10 == 0 then digit else more

unfoldable pub append_port : Bytes → ℕ → ℕ → Bytes
append_port d cap port = sappend d cap (decimal 8 port [])

-- A colon before the first `/`, `?` or `#`.
unfoldable pub names_scheme : Bytes → Bool
names_scheme [] = false
names_scheme (c ∷ s) =
    let rest = names_scheme s in
    if c == 47 || c == 63 || c == 35 then false else if c == 58 then true else rest

-- The last `/` before a `?` or `#`, from index `i` on.
unfoldable pub last_slash : Bytes → ℕ → ℕ → ℕ
last_slash [] i last = last
last_slash (c ∷ s) i last =
    let rest = last_slash s (i + 1) (if c == 47 then i else last) in
    if c == 63 || c == 35 then last else rest

unfoldable pub directory : Bytes → Bytes
directory path =
    let n = last_slash path 0 0 + 1 in
    let dir = take (if leb 160 n then 159 else n) path in if length dir == 0 then 47 ∷ [] else dir

-- The URL of a location without a scheme of its own.
unfoldable pub on_host : ℕ → Bytes → Bytes → ℕ → Bytes → Bool → Bytes
on_host cap loc host port path secure =
    let out = sappend (scopy cap (if secure then https else http)) cap host in
    let out =
      if port == (if secure then 443 else 80)
      then out
      else append_port (sappend out cap (58 ∷ [])) cap port in
    if byte loc 0 == 47
    then sappend out cap loc
    else sappend (sappend out cap (directory path)) cap loc

-- `resolve_redirect` once the base is parsed: the result and `out`.
abbrev pub redirect_from : ℕ → Bytes → Bytes → Option (Bytes × ℕ × Bytes × Bool) → ℤ × Bytes
redirect_from cap loc out none = (pos 0, out)
redirect_from cap loc out (some (host, port, path, secure)) =
    if starts_ci loc https
    then (pos 1, scopy cap loc)
    else if starts_ci loc http
    then (if secure then (minus_one, out) else (pos 1, scopy cap loc))
    else if byte loc 0 == 47 && byte loc 1 == 47
    then (
      pos 1,
      sappend (scopy cap (take (if secure then 6 else 5) (if secure then https else http))) cap loc,
    )
    else if names_scheme loc
    then (pos 0, out)
    else (pos 1, on_host cap loc host port path secure)

unfoldable pub resolve_redirect : Option Bytes → Option Bytes → ℕ → Bytes → ℤ × Bytes
resolve_redirect (some base) (some loc) cap out =
    if length loc == 0 || ltb cap 9
    then (pos 0, out)
    else redirect_from cap loc out (parse_url (some base) 96 160)
resolve_redirect base loc cap out = (pos 0, out)

unfoldable pub redirect_code : ℕ → Bool
redirect_code c = c == 301 || c == 302 || c == 303 || c == 307 || c == 308
