-- ===== src/Net/Url/Redirect.antt =====
-- kernel/net.c: a redirect never takes a secure page to an insecure one.
use un_orion.Common.{
  ℕ, zero, suc, ◌+◌, ◌-◌, ◌≤◌, ◌≡◌, inl, inr, refl, subst, true, ◌&&◌, ◌||◌, some, ℤ, pos, [], ◌∷◌,
  ◌++◌, Bytes, byte, take, length, ltb, ◌==◌, if◌then◌else◌, Bool-cases, arith,
}
use un_orion.Net.Text.{lower_ascii, scopy, sappend, starts_ci}
use un_orion.Net.Url.{
  http, https, parse_url, append_port, decimal, names_scheme, directory, on_host, redirect_from,
  resolve_redirect,
}

starts_ci-append : (p d s : Bytes) → starts_ci d p ≡ true → starts_ci (d ++ s) p ≡ true
unfolding starts_ci
starts_ci-append [] d s h = refl
starts_ci-append (q ∷ p) [] s h = cc
starts_ci-append (q ∷ p) (c ∷ d) s h = ground (arith, starts_ci-append p d s)

no_room : (n : ℕ) → suc n ≤ 0 → ⊥
no_room n h = omega arith

pub starts_ci-take :
    (p s : Bytes) (n : ℕ) → length p ≤ n → starts_ci s p ≡ true → starts_ci (take n s) p ≡ true
unfolding starts_ci
starts_ci-take [] s n l h = refl
starts_ci-take (q ∷ p) [] n l h = cc
starts_ci-take (q ∷ p) (c ∷ s) zero l h = elim (no_room (length p) l) [ ]
starts_ci-take (q ∷ p) (c ∷ s) (suc n) l h = ground (arith, starts_ci-take p s n)

starts_ci-sappend :
    (p d s : Bytes) (cap : ℕ) → starts_ci d p ≡ true → starts_ci (sappend d cap s) p ≡ true
unfolding sappend
starts_ci-sappend p d s cap h = ground (arith, starts_ci-append p d (take (cap - 1 - length d) s))

-- An accepted location is secure.
abbrev pub IsSafe : ℤ × Bytes → Type 0
IsSafe r = (k : ℕ) → r.0 ≡ pos (suc k) → starts_ci r.1 https ≡ true

https-https : starts_ci https https ≡ true
unfolding starts_ci lower_ascii
https-https = refl

https-location :
    (cap : ℕ) (loc path out : Bytes)
    → starts_ci out https ≡ true
    → starts_ci
        (if byte loc 0 == 47
          then sappend out cap loc
          else sappend (sappend out cap (directory path)) cap loc)
        https
      ≡ true
https-location cap loc path out s = elim (Bool-cases (byte loc 0 == 47)) [
  | inl y ↦ rw y (starts_ci-sappend https out loc cap s)
  | inr n ↦
      rw n (starts_ci-sappend https _ loc cap (starts_ci-sappend https out (directory path) cap s))
]

on_host-https :
    (cap : ℕ) (loc host path : Bytes) (port : ℕ)
    → 9 ≤ cap
    → starts_ci (on_host cap loc host port path true) https ≡ true
unfolding on_host scopy append_port
on_host-https cap loc host path port h =
    let a = starts_ci-take https https (cap - 1) (omega arith) https-https in
    let b = starts_ci-sappend https (take (cap - 1) https) host cap a in
    let c =
      starts_ci-sappend https _ (decimal 8 port []) cap
        (starts_ci-sappend https _ (58 ∷ []) cap b) in
    elim (Bool-cases (port == 443)) [
      | inl y ↦ rw y (https-location cap loc path _ b)
      | inr n ↦ rw n (https-location cap loc path _ c)
    ]

-- `https:` and a location that starts with two slashes.
two_slashes-https :
    (k c d : ℕ) (s : Bytes)
    → c == 47 && d == 47 ≡ true
    → starts_ci (sappend (scopy (k + 9) (take 6 https)) (k + 9) (c ∷ d ∷ s)) https ≡ true
unfolding sappend scopy starts_ci lower_ascii
two_slashes-https k c d s h =
    let a : k + 9 - 1 ≡ suc (suc (suc (suc (suc (suc (suc (suc k))))))) = omega arith in
    let b : suc (suc (suc (suc (suc (suc (suc (suc k))))))) - 6 ≡ suc (suc k) = omega arith in
    let l : ltb 6 (k + 9) ≡ true = ground arith in
    let e : c ≡ 47 = ground arith in let f : d ≡ 47 = ground arith in rw (a, l, b, e, f)

slashes-https :
    (cap : ℕ) (loc : Bytes)
    → 9 ≤ cap
    → byte loc 0 == 47 && byte loc 1 == 47 ≡ true
    → starts_ci (sappend (scopy cap (take 6 https)) cap loc) https ≡ true
slashes-https cap [] h e = cc
slashes-https cap (c ∷ []) h e = ground arith
slashes-https cap (c ∷ d ∷ s) h e =
    let k : cap - 9 + 9 ≡ cap = omega arith in
    subst (λ n. starts_ci (sappend (scopy n (take 6 https)) n (c ∷ d ∷ s)) https ≡ true) k
      (two_slashes-https (cap - 9) c d s e)

scopy-https :
    (cap : ℕ) (loc : Bytes)
    → 9 ≤ cap
    → starts_ci loc https ≡ true
    → starts_ci (scopy cap loc) https ≡ true
unfolding scopy
scopy-https cap loc h y = starts_ci-take https loc (cap - 1) (omega arith) y

redirect_from-IsSafe :
    (cap : ℕ) (loc out host path : Bytes) (port : ℕ)
    → 9 ≤ cap
    → IsSafe (redirect_from cap loc out (some (host, port, path, true)))
redirect_from-IsSafe cap loc out host path port h = elim (Bool-cases (starts_ci loc https)) [
  | inl y ↦ rw y (λ k e. scopy-https cap loc h y)
  | inr a ↦ elim (Bool-cases (starts_ci loc http)) [
    | inl y ↦ rw (a, y) (λ k e. cc)
    | inr b ↦ elim (Bool-cases (byte loc 0 == 47 && byte loc 1 == 47)) [
      | inl y ↦ rw (a, b, y) (λ k e. slashes-https cap loc h y)
      | inr c ↦ elim (Bool-cases (names_scheme loc)) [
        | inl y ↦ rw (a, b, c, y) (λ k e. cc)
        | inr d ↦ rw (a, b, c, d) (λ k e. on_host-https cap loc host path port h)
      ]
    ]
  ]
]

-- From a secure page, an accepted redirect leads to a URL with the scheme `https`, whatever the
-- location says and however short the buffer is.
pub resolve_redirect-IsSafe :
    (base loc host path out : Bytes) (port cap : ℕ)
    → parse_url (some base) 96 160 ≡ some (host, port, path, true)
    → IsSafe (resolve_redirect (some base) (some loc) cap out)
unfolding resolve_redirect
resolve_redirect-IsSafe base loc host path out port cap e =
    elim (Bool-cases (length loc == 0 || ltb cap 9)) [
      | inl y ↦ rw y (λ k h. cc)
      | inr n ↦ rw (n, e) (redirect_from-IsSafe cap loc out host path port (ground arith))
    ]
