-- ===== src/Common/Table.antt =====
-- Facts about bytes by evaluation at every value.
use Prim.Native.Nat.{ℕ, zero, suc, ◌<◌}
use mathlib.Core.Path.{◌≡◌}
use mathlib.Core.Bool.{Bool, true, false}
use native.Mathlib.Omega.{arith}

-- The test holds at every number below the bound.
unfoldable pub holds_below : (ℕ → Bool) → ℕ → Bool
holds_below test zero = true
holds_below test (suc bound) = elim (test bound) [ true ↦ holds_below test bound | false ↦ false ]

pub holds_below-at :
    (test : ℕ → Bool) (bound : ℕ) {v : ℕ}
    → v < bound
    → holds_below test bound ≡ true
    → test v ≡ true
unfolding holds_below
holds_below-at test zero below h = absurd (omega arith)
holds_below-at test (suc bound) {v} below h = ground (arith, holds_below-at test bound {v = v})

-- Equality of truth values.
abbrev pub iff_bool : Bool → Bool → Bool
iff_bool true b = b
iff_bool false true = false
iff_bool false false = true

pub iff_bool_sound : (a b : Bool) → iff_bool a b ≡ true → a ≡ b
iff_bool_sound a b h = ground arith
