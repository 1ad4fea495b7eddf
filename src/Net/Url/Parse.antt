-- ===== src/Net/Url/Parse.antt =====
-- kernel/net.c: `parse_url` on a URL that is written out, with the port as `append_port` writes it.
use native.Mathlib.Nat.{pow-suc}
use un_orion.Common.{
  ℕ, zero, suc, ◌+◌, ◌-◌, ◌*◌, ◌/◌, ◌%◌, ◌^◌, ◌≤◌, ◌<◌, ◌≡◌, inl, inr, refl, ap, sym, ◌∙◌, Bool,
  true, false, ◌||◌, some, [], ◌∷◌, ◌++◌, Bytes, length, ltb, leb, ◌==◌, if◌then◌else◌, Bool-cases,
  arith,
}
use un_orion.Net.Text.{is_digit}
use un_orion.Net.Url.{
  http, https, after_prefix, ends_host, take_host, port_digits, given_port, take_port, take_path,
  with_host, parse_url, decimal,
}

abbrev pub IsHost : Bytes → Type 0
IsHost [] = Unit
IsHost (c ∷ s) = (ends_host c ≡ false) × IsHost s

abbrev pub default_port : Bool → ℕ
default_port secure = if secure then 443 else 80

abbrev pub port_part : ℕ → Bool → Bytes
port_part port secure = if port == default_port secure then [] else 58 ∷ decimal 8 port []

-- A URL with the path `/` followed by `rest`.
abbrev pub print_url : Bytes → ℕ → Bytes → Bool → Bytes
print_url host port rest secure =
    (if secure then https else http) ++ (host ++ (port_part port secure ++ 47 ∷ rest))

take_host-host :
    (hcap : ℕ) (host s : Bytes) (d hi : ℕ)
    → IsHost host
    → ends_host d ≡ true
    → hi + length host < hcap
    → take_host hcap (host ++ (d ∷ s)) hi ≡ some (host, d ∷ s)
unfolding take_host
take_host-host hcap [] s d hi w e h = rw e
take_host-host hcap (c ∷ host) s d hi (a, w) e h =
    let room : leb hcap (hi + 1) ≡ false = ground arith in
    rw (a, room, take_host-host hcap host s d (hi + 1) w e (omega arith))

digit-value : (v : ℕ) → (is_digit (48 + v % 10) ≡ true) × (v / 10 * 10 + (48 + v % 10 - 48) ≡ v)
digit-value v = (ground arith, omega arith)

port_digits-next :
    (s : Bytes) (v n : ℕ)
    → v ≤ 65535
    → port_digits ((48 + v % 10) ∷ s) (v / 10) n ≡ port_digits s v (n + 1)
unfolding port_digits
port_digits-next s v n h =
    let (a, b) = digit-value v in let c : ltb 65535 v ≡ false = ground arith in rw (a, b, c)

port_digits-decimal :
    (room v n : ℕ) (acc s : Bytes)
    → v < 10 ^ suc room
    → v ≤ 65535
    → (m : ℕ) × (port_digits (decimal (suc room) v acc ++ s) 0 n ≡ port_digits (acc ++ s) v m)
      × (1 ≤ m)
unfolding decimal
port_digits-decimal zero v n acc s h l =
    let z : v / 10 ≡ 0 = omega arith in
    let y : v / 10 == 0 ≡ true = ground arith in
    (
      n + 1,
      rw y (
          ap (λ x. port_digits ((48 + v % 10) ∷ (acc ++ s)) x n) (sym z)
          ∙ port_digits-next (acc ++ s) v n l),
      omega arith,
    )
port_digits-decimal (suc room) v n acc s h l = elim (Bool-cases (v / 10 == 0)) [
  | inl y ↦
      let z : v / 10 ≡ 0 = ground arith in
      (
        n + 1,
        rw y (
            ap (λ x. port_digits ((48 + v % 10) ∷ (acc ++ s)) x n) (sym z)
            ∙ port_digits-next (acc ++ s) v n l),
        omega arith,
      )
  | inr more ↦
      let (m, e, k) =
        port_digits-decimal room (v / 10) n ((48 + v % 10) ∷ acc) s
          (omega (arith, pow-suc 10 (suc room))) (omega arith) in
      (m + 1, rw more (e ∙ port_digits-next (acc ++ s) v m l), omega arith)
]

given_slash :
    (port m : ℕ) (rest : Bytes)
    → 1 ≤ port
    → 1 ≤ m
    → given_port (port_digits (47 ∷ rest) port m) ≡ some (port, 47 ∷ rest)
unfolding port_digits
given_slash port m rest a b = ground arith

-- The host is followed by a colon or a slash.
take_host-print :
    (hcap port : ℕ) (host rest : Bytes) (secure : Bool)
    → IsHost host
    → length host < hcap
    → take_host hcap (host ++ (port_part port secure ++ 47 ∷ rest)) 0
      ≡ some (host, port_part port secure ++ 47 ∷ rest)
take_host-print hcap port host rest secure w h = elim (Bool-cases (port == default_port secure)) [
  | inl y ↦ rw y (take_host-host hcap host rest 47 0 w refl (omega arith))
  | inr n ↦
      rw n (take_host-host hcap host (decimal 8 port [] ++ 47 ∷ rest) 58 0 w refl (omega arith))
]

take_path-slash :
    (pcap : ℕ) (rest : Bytes)
    → 1 + length rest < pcap
    → take_path pcap (47 ∷ rest) ≡ some (47 ∷ rest)
unfolding take_path
take_path-slash pcap rest h = ground arith

take_port-part :
    (port : ℕ) (secure : Bool) (rest : Bytes)
    → 1 ≤ port
    → port ≤ 65535
    → take_port (default_port secure) (port_part port secure ++ 47 ∷ rest) ≡ some (port, 47 ∷ rest)
unfolding take_port
take_port-part port secure rest a b = elim (Bool-cases (port == default_port secure)) [
  | inl y ↦ rw y (ap (λ p. some (p, 47 ∷ rest)) (ground arith))
  | inr n ↦
      let (m, e, k) = port_digits-decimal 7 port 0 [] (47 ∷ rest) (omega arith) b in
      rw n (ap given_port e ∙ given_slash port m rest a k)
]

after_host-print :
    (host rest : Bytes) (port hcap pcap : ℕ) (secure : Bool)
    → IsHost host
    → 1 ≤ length host
    → length host < hcap
    → 1 + length rest < pcap
    → 1 ≤ port
    → port ≤ 65535
    → with_host pcap
        (default_port secure)
        secure
        (take_host hcap (host ++ (port_part port secure ++ 47 ∷ rest)) 0)
      ≡ some (host, port, 47 ∷ rest, secure)
after_host-print host rest port hcap pcap secure w a b c d e =
    let full : length host == 0 ≡ false = ground arith in
    rw (
      take_host-print hcap port host rest secure w b,
      full,
      take_port-part port secure rest d e,
      take_path-slash pcap rest c,
    )

-- A URL that is written out, with a host without `/`, `:`, `?` and `#`, and with a path from `/` on,
-- that both fit, is parsed to its host, its port, its path and whether it is secure; the port may be
-- left out where it is the scheme's own.
pub parse_url-print_url :
    (host rest : Bytes) (port hcap pcap : ℕ) (secure : Bool)
    → IsHost host
    → 1 ≤ length host
    → length host < hcap
    → 1 + length rest < pcap
    → 1 ≤ port
    → port ≤ 65535
    → parse_url (some (print_url host port rest secure)) hcap pcap
      ≡ some (host, port, 47 ∷ rest, secure)
unfolding parse_url after_prefix
parse_url-print_url host rest port hcap pcap true w a b c d e =
    let room : ltb hcap 2 || ltb pcap 2 ≡ false = ground arith in
    rw room (after_host-print host rest port hcap pcap true w a b c d e)
parse_url-print_url host rest port hcap pcap false w a b c d e =
    let room : ltb hcap 2 || ltb pcap 2 ≡ false = ground arith in
    rw room (after_host-print host rest port hcap pcap false w a b c d e)
