-- ===== src/Fat16/Root/Lookup.antt =====
-- The root directory as a sequence of 32-byte slots, and what it means to look a name up there.
use un_orion.Common.{
  ℕ, zero, suc, ◌+◌, ◌*◌, ◌/◌, ◌%◌, ◌≤◌, ◌≡◌, refl, not, ◌&&◌, [], ◌∷◌, Bytes, byte, take, drop,
  length, ◌==◌, if◌then◌else◌, arith, ap, ◌∙◌, same_bytes, drop-eq-cons,
}
use un_orion.Fat16.Root.{Dirent, dirent_of, equal_from, name83_equal, is_skipped}

-- Slot `i` of a directory whose sectors start at block `root` of a disk, 16 slots to a sector.
abbrev pub slot : (ℕ → Bytes) → ℕ → ℕ → Bytes
slot disk root i = drop (i % 16 * 32) (disk (root + i / 16))

pub data Answer : Type 0 where
  missing : Answer
  hit : Dirent → Answer

-- The first slot, before an end mark, that is in use and bears the name.
module _ (disk : ℕ → Bytes) (root : ℕ) (name : Bytes) where
  unfoldable pub lookup_from : ℕ → ℕ → Answer
  lookup_from i zero = missing
  lookup_from i (suc n) =
      let e = slot disk root i in
      if byte e 0 == 0
      then missing
      else if not (is_skipped e) && same_bytes (take 11 e) name
      then hit (dirent_of e)
      else lookup_from (i + 1) n

equal_from-same_bytes :
    (n i : ℕ) (a b : Bytes)
    → i + n ≤ length a
    → i + n ≤ length b
    → equal_from n i a b ≡ same_bytes (take n (drop i a)) (take n (drop i b))
unfolding equal_from
equal_from-same_bytes zero i a b p q = refl
equal_from-same_bytes (suc n) i a b p q =
    rw (drop-eq-cons a i (omega arith), drop-eq-cons b i (omega arith))
      (ground (arith, equal_from-same_bytes n (i + 1) a b (omega arith) (omega arith)))

take_all : (n : ℕ) (xs : Bytes) → length xs ≡ n → take n xs ≡ xs
take_all zero [] h = refl
take_all zero (x ∷ xs) h = absurd (omega arith)
take_all (suc n) [] h = refl
take_all (suc n) (x ∷ xs) h = ap (λ t. x ∷ t) (take_all n xs (omega arith))

pub name83_equal-same_bytes :
    (a b : Bytes) → 11 ≤ length a → length b ≡ 11 → name83_equal a b ≡ same_bytes (take 11 a) b
unfolding name83_equal
name83_equal-same_bytes a b p q =
    equal_from-same_bytes 11 0 a b (omega arith) (omega arith)
    ∙ ap (same_bytes (take 11 a)) (take_all 11 b q)
