-- ===== src/Boot/Install/Overlay.antt =====
-- boot/main.c: block numbers in `copy_install_media`, and a disk whose first bytes are overwritten.
use native.Mathlib.Nat.{
  add-mul, le-mul_of_pos_right, div-add-mod', dvd_of_mod-eq-zero, mod-eq-zero_of_dvd, dvd-sub,
}
use un_orion.Common.{
  ℕ, zero, suc, ◌+◌, ◌-◌, ◌*◌, ◌/◌, ◌%◌, ◌^◌, ◌≤◌, ◌<◌, ◌≡◌, refl, ap, [], ◌∷◌, ◌++◌, Bytes, length,
  take, drop, length-append, length-take, length-drop, u64, arith,
}

pub no_turn : (n : ℕ) → n < 0 → ⊥
no_turn n h = omega arith

-- A block number goes on by the blocks of `n` bytes.
pub advance :
    (b lba n d : ℕ)
    → 1 ≤ b
    → n % b ≡ 0
    → lba * b ≡ d
    → d + n < 2 ^ 64
    → u64 (lba + n / b) * b ≡ d + n
advance b lba n d p h e l =
    let q : n / b * b ≡ n = omega (arith, div-add-mod' n b) in
    let s : (lba + n / b) * b ≡ d + n = omega (arith, add-mul lba (n / b) b, q, e) in
    let u : u64 (lba + n / b) ≡ lba + n / b =
      omega (arith, le-mul_of_pos_right {m = b} (lba + n / b) p, s) in
    rw u s

pub whole_rest : (b r n : ℕ) → r % b ≡ 0 → n % b ≡ 0 → (r - n) % b ≡ 0
whole_rest b r n h k =
    mod-eq-zero_of_dvd b (dvd-sub b (dvd_of_mod-eq-zero b h) (dvd_of_mod-eq-zero b k))

-- The first `d` bytes of `s`, and from there on `t`.
abbrev pub overlaid : ℕ → Bytes → Bytes → Bytes
overlaid d s t = take d s ++ drop d t

pub overlaid-length :
    (d : ℕ) (s t : Bytes) → d ≤ length s → length s ≤ length t → length (overlaid d s t) ≡ length t
overlaid-length d s t h k = rw (length-append) (omega (arith, length-take d s, length-drop d t))

pub take_all : (s : Bytes) → take (length s) s ≡ s
take_all [] = refl
take_all (x ∷ s) = ap (λ r. x ∷ r) (take_all s)

no_room : (d n : ℕ) → suc d + n ≤ 0 → ⊥
no_room d n h = omega arith

-- A write of the next `n` bytes.
pub overlaid-write :
    (d n : ℕ) (s t : Bytes)
    → d + n ≤ length s
    → length s ≤ length t
    → take d (overlaid d s t) ++ take n (drop d s) ++ drop (d + n) (overlaid d s t)
      ≡ overlaid (d + n) s t
overlaid-write zero n s t h k = let e : 0 + n ≡ n = omega arith in rw e
overlaid-write (suc d) n [] t h k = elim (no_room d n h) [ ]
overlaid-write (suc d) n (x ∷ s) [] h k = elim (no_turn _ k) [ ]
overlaid-write (suc d) n (x ∷ s) (y ∷ t) h k =
    let e : suc d + n ≡ suc (d + n) = omega arith in
    rw e (ap (λ r. x ∷ r) (overlaid-write d n s t (omega arith) (omega arith)))

pub overlaid_all : (s t : Bytes) → overlaid (length s) s t ≡ s ++ drop (length s) t
overlaid_all s t = ap (λ i. i ++ drop (length s) t) (take_all s)
