-- ===== src/Block.antt =====
-- kernel/blockdev.c and include/blockdev.h: the block device interface and its checked calls.
-- A driver's callbacks are fields of the device; `S` is what they keep behind `context`. The device
-- record itself is not written by a driver. A null pointer is `none`.
pub mod Range
use un_orion.Common.{
  ℕ, ◌-◌, Bool, true, false, not, ◌||◌, Option, none, some, ℤ, pos, minus_one, Bytes, leb, ◌==◌,
  if◌then◌else◌, is_null, failed,
}

-- The callback's result, the buffer it leaves, and its state.
abbrev pub BlockReadFn : Type 0 → Type 0
BlockReadFn S = ℕ → ℕ → Bytes → S → ℤ × Bytes × S

abbrev pub BlockWriteFn : Type 0 → Type 0
BlockWriteFn S = ℕ → ℕ → Bytes → S → ℤ × S

pub record Blockdev (S : Type 0) : Type 0 where
  pub name : Option Bytes
  pub block_size : ℕ
  pub block_count : ℕ
  pub read : Option (BlockReadFn S)
  pub write : Option (BlockWriteFn S)

module _ {S : Type 0} where
  unfoldable pub range_valid : Option (Blockdev S) → ℕ → ℕ → Bool
  range_valid none lba count = false
  range_valid (some dev) lba count =
      if count == 0
      then false
      else if leb dev.block_count lba
      then false
      else leb count (dev.block_count - lba)

  unfoldable pub validate : Option (Blockdev S) → ℤ
  validate none = minus_one
  validate (some dev) =
      if is_null dev.name || dev.block_size == 0 || dev.block_count == 0 || is_null dev.read
      then minus_one
      else pos 0

  -- The call through `dev->read`; `validate` has refused a null one.
  abbrev call_read : Option (Blockdev S) → ℕ → ℕ → Option Bytes → S → ℤ × Option Bytes × S
  call_read (some dev) lba count (some buffer) s = elim dev.read [
    | none ↦ (minus_one, some buffer, s)
    | some f ↦ let (rc, buffer', s') = f lba count buffer s in (rc, some buffer', s')
  ]
  call_read _ lba count buffer s = (minus_one, buffer, s)

  unfoldable pub read : Option (Blockdev S) → ℕ → ℕ → Option Bytes → S → ℤ × Option Bytes × S
  read dev lba count buffer s =
      if failed (validate dev) || is_null buffer || not (range_valid dev lba count)
      then (minus_one, buffer, s)
      else call_read dev lba count buffer s

  abbrev call_write : Option (Blockdev S) → ℕ → ℕ → Option Bytes → S → ℤ × S
  call_write (some dev) lba count (some buffer) s = elim dev.write [
    | none ↦ (minus_one, s)
    | some f ↦ f lba count buffer s
  ]
  call_write _ lba count buffer s = (minus_one, s)

  abbrev no_write : Option (Blockdev S) → Bool
  no_write none = true
  no_write (some dev) = is_null dev.write

  unfoldable pub write : Option (Blockdev S) → ℕ → ℕ → Option Bytes → S → ℤ × S
  write dev lba count buffer s =
      if failed (validate dev) || no_write dev || is_null buffer || not (range_valid dev lba count)
      then (minus_one, s)
      else call_write dev lba count buffer s
