-- ===== src/Common/Words.antt =====
-- Unsigned machine words with their wrap-around, C's `int`, and byte strings.
use Prim.Native.Char.{code}
use Prim.Native.String.{String}
use Prim.Native.Nat.{ℕ, zero, ◌%◌, ◌^◌, ◌<◌}
use mathlib.Core.Bool.{Bool, true, false}
use mathlib.Core.Option.{Option, none, some}
use mathlib.Core.List.{List, [], ◌∷◌}
use un_orion.Common.Lists.{get_or}

-- C's `int`, of which the code uses small values; `negsuc 0` is -1.
pub data ℤ : Type 0 where
  pos : ℕ → ℤ
  negsuc : ℕ → ℤ

abbrev pub minus_one : ℤ
minus_one = negsuc 0

abbrev pub Bytes : Type 0
Bytes = List ℕ

-- The characters of a literal, which is ASCII.
abbrev pub codes : String → Bytes
codes String.[] = []
codes (String.◌∷◌ c s) = code c ∷ codes s

-- `p[i]` for an array that is known to have the index.
abbrev pub byte : Bytes → ℕ → ℕ
byte p i = get_or p i 0

abbrev pub u8 : ℕ → ℕ
u8 a = a % 2 ^ 8

abbrev pub u16 : ℕ → ℕ
u16 a = a % 2 ^ 16

abbrev pub u32 : ℕ → ℕ
u32 a = a % 2 ^ 32

abbrev pub u64 : ℕ → ℕ
u64 a = a % 2 ^ 64

-- `rc != 0` on an `int`
abbrev pub failed : ℤ → Bool
failed (pos zero) = false
failed _ = true

-- `!p` on a pointer
abbrev pub is_null {ℓ} : {A : Type ℓ} → Option A → Bool
is_null none = true
is_null (some _) = false

-- Every element is a `uint8_t`.
abbrev pub IsBytes : Bytes → Type 0
IsBytes [] = Unit
IsBytes (b ∷ bs) = (b < 2 ^ 8) × IsBytes bs
