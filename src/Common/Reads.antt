-- ===== src/Common/Reads.antt =====
-- A run of code that reads through pointers. `fault` is a read or a write outside of the object, `out_of_fuel` a
-- loop that went on longer than its fuel. A pointer with its length is the list of the bytes behind it.
use Prim.Native.Nat.{ℕ, zero, suc, ◌+◌, ◌≤◌, ◌<◌}
use mathlib.Core.Path.{◌≡◌, refl, ap, ◌∙◌}
use mathlib.Core.List.{[], ◌∷◌}
use mathlib.Core.Option.{none, some}
use native.Mathlib.Omega.{arith}
use mathlib.Core.Bool.{Bool, true, false}
use un_orion.Common.Lists.{length, length-take, length-drop, get_elem?, take, drop}
use un_orion.Common.Tests.{if◌then◌else◌}
use un_orion.Common.Words.{Bytes, byte}

pub data Run {ℓ} (A : Type ℓ) : Type ℓ where
  done : A → Run A
  fault : Run A
  out_of_fuel : Run A

infixl 5 ◌>>=◌
abbrev pub ◌>>=◌ {ℓ κ} : {A : Type ℓ} {B : Type κ} → Run A → (A → Run B) → Run B
done a >>= f = f a
fault >>= f = fault
out_of_fuel >>= f = out_of_fuel

-- `p[i]`
unfoldable pub read : Bytes → ℕ → Run ℕ
read p i = elim (get_elem? p i) [ none ↦ fault | some b ↦ done b ]

-- `memcpy(dst, p + i, n)`: the bytes that are copied
unfoldable pub read_block : Bytes → ℕ → ℕ → Run Bytes
read_block p i zero = done []
read_block p i (suc n) = do b ← read p i; bs ← read_block p (i + 1) n; done (b ∷ bs)

get_elem?-eq-byte : (p : Bytes) (i : ℕ) → i < length p → get_elem? p i ≡ some (byte p i)
get_elem?-eq-byte [] i h = absurd (omega arith)
get_elem?-eq-byte (x ∷ p) zero h = refl
get_elem?-eq-byte (x ∷ p) (suc i) h = get_elem?-eq-byte p i (omega arith)

pub read-eq-done : (p : Bytes) (i : ℕ) → i < length p → read p i ≡ done (byte p i)
unfolding read
read-eq-done p i h = rw (get_elem?-eq-byte p i h, read)

pub drop-eq-cons : (p : Bytes) (i : ℕ) → i < length p → drop i p ≡ byte p i ∷ drop (i + 1) p
drop-eq-cons [] i h = absurd (omega arith)
drop-eq-cons (x ∷ p) zero h = refl
drop-eq-cons (x ∷ p) (suc i) h =
    let e : suc i + 1 ≡ suc (i + 1) = omega arith in rw e (drop-eq-cons p i (omega arith))

pub take-drop-cons :
    (p : Bytes) (i n : ℕ)
    → i < length p
    → take (suc n) (drop i p) ≡ byte p i ∷ take n (drop (i + 1) p)
take-drop-cons p i n h = ap (take (suc n)) (drop-eq-cons p i h)

pub take-four :
    (p : Bytes) → 4 ≤ length p → take 4 p ≡ byte p 0 ∷ byte p 1 ∷ byte p 2 ∷ byte p 3 ∷ []
take-four p h =
    take-drop-cons p 0 3 (omega arith)
    ∙ rw
        (
          take-drop-cons p 1 2 (omega arith),
          take-drop-cons p 2 1 (omega arith),
          take-drop-cons p 3 0 (omega arith),
        )
        refl

pub take-six :
    (p : Bytes)
    → 6 ≤ length p
    → take 6 p ≡ byte p 0 ∷ byte p 1 ∷ byte p 2 ∷ byte p 3 ∷ byte p 4 ∷ byte p 5 ∷ []
take-six p h =
    take-drop-cons p 0 5 (omega arith)
    ∙ rw
        (
          take-drop-cons p 1 4 (omega arith),
          take-drop-cons p 2 3 (omega arith),
          take-drop-cons p 3 2 (omega arith),
          take-drop-cons p 4 1 (omega arith),
          take-drop-cons p 5 0 (omega arith),
        )
        refl

pub read_block-eq-done :
    (p : Bytes) (i n : ℕ) → i + n ≤ length p → read_block p i n ≡ done (take n (drop i p))
unfolding read_block
read_block-eq-done p i zero h = refl
read_block-eq-done p i (suc n) h = rw (
  read-eq-done p i (omega arith),
  read_block-eq-done p (i + 1) n (omega arith),
  drop-eq-cons p i (omega arith),
)

-- The code does not fault, and what it returns, if it does, satisfies `P`.
abbrev pub Always {ℓ} : {A : Type ℓ} → (A → Type 0) → Run A → Type 0
Always P (done a) = P a
Always P fault = ⊥
Always P out_of_fuel = Unit

pub Always-bind {ℓ κ} :
    {A : Type ℓ} {B : Type κ} (P : A → Type 0) (Q : B → Type 0) (r : Run A) (f : A → Run B)
    → Always P r
    → ((a : A) → P a → Always Q (f a))
    → Always Q (r >>= f)
Always-bind P Q (done a) f h g = g a h
Always-bind P Q fault f h g = h
Always-bind P Q out_of_fuel f h g = tt

pub Always-if {ℓ} :
    {A : Type ℓ} (P : A → Type 0) (b : Bool) (x y : Run A)
    → (b ≡ true → Always P x)
    → (b ≡ false → Always P y)
    → Always P (if b then x else y)
Always-if P true x y h k = h refl
Always-if P false x y h k = k refl

-- A read inside of the bytes comes before what is safe with every value.
pub Always-read {ℓ} :
    {B : Type ℓ} (Q : B → Type 0) (p : Bytes) (i : ℕ) (f : ℕ → Run B)
    → i < length p
    → ((b : ℕ) → Always Q (f b))
    → Always Q (read p i >>= f)
Always-read Q p i f h g = rw (read-eq-done p i h) (g (byte p i))

pub Always-read_block {ℓ} :
    {B : Type ℓ} (Q : B → Type 0) (p : Bytes) (i n : ℕ) (f : Bytes → Run B)
    → i + n ≤ length p
    → ((bs : Bytes) → length bs ≡ n → Always Q (f bs))
    → Always Q (read_block p i n >>= f)
Always-read_block Q p i n f h g =
    rw (read_block-eq-done p i n h)
      (g (take n (drop i p)) (omega (arith, length-take n (drop i p), length-drop i p)))
