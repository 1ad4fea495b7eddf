-- ===== src/Dhcp/Client/Checksum.antt =====
-- kernel/dhcp.c: `dhcp_checksum16`, the ones' complement sum of RFC 1071.
use un_orion.Common.{
  ℕ, suc, ◌+◌, ◌-◌, ◌*◌, ◌/◌, ◌%◌, ◌^◌, ◌≤◌, ◌<◌, ◌≡◌, refl, ap, ◌∙◌, [], ◌∷◌, ◌++◌, Bytes, IsBytes,
  length, u16, u32, ◌==◌, if◌then◌else◌, arith,
}
use un_orion.Dhcp.Client.{sum16, fold_carry, checksum16}

-- Three folds are enough: the result is a 16-bit number that agrees with the sum modulo 2 ^ 16 - 1.
fold_carry-exact :
    (x : ℕ) → x < 2 ^ 32 → fold_carry 3 x ≡ (if x == 0 then 0 else (x - 1) % 65535 + 1)
unfolding fold_carry
fold_carry-exact x h = ground arith

one_odd : (n : ℕ) → suc (n * 2) % 2 ≡ 0 → ⊥
one_odd n h = omega arith

sum16-append :
    (p q : Bytes) (sum : ℕ) → length p % 2 ≡ 0 → sum16 sum (p ++ q) ≡ sum16 (sum16 sum p) q
unfolding sum16
sum16-append [] q sum h = refl
sum16-append (a ∷ []) q sum h = elim (one_odd 0 h) [ ]
sum16-append (a ∷ b ∷ p) q sum h = sum16-append p q (u32 (sum + (a * 2 ^ 8 + b))) (omega arith)

sum16-bound :
    (p : Bytes) (sum : ℕ)
    → IsBytes p
    → sum + 65536 * length p < 2 ^ 32
    → sum16 sum p ≤ sum + 65536 * length p
unfolding sum16
sum16-bound [] sum b h = omega arith
sum16-bound (a ∷ []) sum (b, c) h = omega arith
sum16-bound (a ∷ b ∷ p) sum (c, (d, e)) h =
    omega (arith, sum16-bound p (u32 (sum + (a * 2 ^ 8 + b))) e (omega arith))

complement-exact :
    (s f : ℕ)
    → s < 2 ^ 31
    → f ≡ (if s == 0 then 0 else (s - 1) % 65535 + 1)
    → (let c = u16 (2 ^ 32 - 1 - f) in
        fold_carry 3 (u32 (s + (c / 2 ^ 8 * 2 ^ 8 + c % 2 ^ 8))) ≡ 65535)
complement-exact s f h e =
    let c = u16 (2 ^ 32 - 1 - f) in
    let bound : f ≤ 65535 = ground arith in
    let back : u32 (s + (c / 2 ^ 8 * 2 ^ 8 + c % 2 ^ 8)) ≡ s + (65535 - f) = omega arith in
    rw back (fold_carry-exact (s + (65535 - f)) (omega arith) ∙ ground arith)

-- Data of an even length, up to 16 KiB, with its checksum behind it, high byte first, has the
-- checksum 0.
pub checksum16-verifies :
    (p : Bytes)
    → IsBytes p
    → length p % 2 ≡ 0
    → length p ≤ 2 ^ 14
    → checksum16 (p ++ checksum16 p / 2 ^ 8 ∷ checksum16 p % 2 ^ 8 ∷ []) ≡ 0
unfolding checksum16 sum16
checksum16-verifies p b even small =
    let s = sum16 0 p in
    let l : s < 2 ^ 31 = omega (arith, sum16-bound p 0 b (omega arith)) in
    let e = complement-exact s (fold_carry 3 s) l (fold_carry-exact s (omega arith)) in
    rw (sum16-append p (checksum16 p / 2 ^ 8 ∷ checksum16 p % 2 ^ 8 ∷ []) 0 even)
      (ap (λ f. u16 (2 ^ 32 - 1 - f)) e)
