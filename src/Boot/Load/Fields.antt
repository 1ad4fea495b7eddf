-- ===== src/Boot/Load/Fields.antt =====
-- boot/main.c: the bytes of a file that the fields of the ELF structures are read from.
use un_orion.Common.{
  ℕ, zero, suc, ◌+◌, ◌*◌, ◌≤◌, ◌<◌, ◌≡◌, ◌↔◌, ◌∙◌, refl, sym, ap, [], ◌∷◌, Bytes, byte, take, drop,
  length, take-drop-cons, arith,
}
use un_orion.Boot.Load.{field}

-- The `n` bytes from offset `i` on.
abbrev pub bytes_at : ℕ → ℕ → Bytes → Bytes
bytes_at i n file = take n (drop i file)

-- The number that bytes stand for, the lowest first.
abbrev pub little_endian : Bytes → ℕ
little_endian [] = 0
little_endian (b ∷ bs) = b + 256 * little_endian bs

pub field-little_endian :
    (n i : ℕ) (file : Bytes)
    → i + n ≤ length file
    → field n file i ≡ little_endian (bytes_at i n file)
unfolding field
field-little_endian zero i file h = refl
field-little_endian (suc n) i file h =
    rw (take-drop-cons file i n (omega arith), field-little_endian n (i + 1) file (omega arith))
      refl

two_bytes :
    (i : ℕ) (file : Bytes)
    → i + 2 ≤ length file
    → bytes_at i 2 file ≡ byte file i ∷ byte file (i + 1) ∷ []
two_bytes i file h =
    rw (take-drop-cons file i 1 (omega arith), take-drop-cons file (i + 1) 0 (omega arith)) refl

-- A field of two bytes has a value below 256 exactly if these are its two bytes.
pub two_bytes_iff :
    (i v : ℕ) (file : Bytes)
    → i + 2 ≤ length file
    → v < 256
    → (field 2 file i ≡ v) ↔ (bytes_at i 2 file ≡ v ∷ 0 ∷ [])
unfolding field
two_bytes_iff i v file h k =
    let e = two_bytes i file h in
    (
      λ eq.
          let low : byte file i ≡ v = omega arith in
          let high : byte file (i + 1) ≡ 0 = omega arith in e ∙ rw (low, high) refl,
      λ eq.
          let low : byte file i ≡ v = ap (λ s. byte s 0) (sym e ∙ eq) in
          let high : byte file (i + 1) ≡ 0 = ap (λ s. byte s 1) (sym e ∙ eq) in omega arith,
    )
