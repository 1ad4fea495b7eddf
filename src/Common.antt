-- ===== src/Common.antt =====
-- Shared by all components: library names passed on, Boolean tests and lists over the native
-- numbers, machine words, C's `int`, and runs that may fault.
mod Tests
mod Lists
mod Words
mod Reads
mod Table
mod Equal
pub use Tests.*
pub use Lists.*
pub use Words.*
pub use Equal.*
pub use Reads.{
  Run, done, fault, out_of_fuel, ◌>>=◌, read-eq-done, read_block-eq-done, drop-eq-cons,
  take-drop-cons, take-four, take-six, Always, Always-bind, Always-if, Always-read,
  Always-read_block,
}
unfoldable pub use Reads.{read, read_block}
pub use Table.{holds_below-at, iff_bool, iff_bool_sound}
unfoldable pub use Table.{holds_below}
pub use Prim.Native.Nat.{ℕ, zero, suc, ◌+◌, ◌-◌, ◌*◌, ◌/◌, ◌%◌, ◌^◌, ◌≤◌, ◌<◌, bit_and, min}
pub use mathlib.Core.Path.{◌≡◌, refl, sym, ap, ◌∙◌, subst}
pub use mathlib.Core.Logic.{◌≢◌, ◌↔◌, ◌⊎◌, inl, inr}
pub use mathlib.Core.Bool.{Bool, true, false, not, ◌&&◌, ◌||◌}
pub use mathlib.Core.Option.{Option, none, some}
pub use mathlib.Core.List.{List, [], ◌∷◌, ◌++◌, append-nil, append_assoc}
pub use native.Mathlib.Omega.{arith}
