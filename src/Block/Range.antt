-- ===== src/Block/Range.antt =====
-- kernel/blockdev.c: which requests reach the driver.
use un_orion.Common.{
  ℕ, ◌+◌, ◌<◌, ◌≡◌, Bool, ◌&&◌, Option, some, ℤ, pos, minus_one, Bytes, arith, ltb, leb,
  if◌then◌else◌,
}
use un_orion.Block
use un_orion.Block.{Blockdev, BlockReadFn, BlockWriteFn, range_valid, validate}

-- The blocks lba .. lba + count - 1 exist, as a test on unbounded numbers.
abbrev pub in_range : {S : Type 0} → Blockdev S → ℕ → ℕ → Bool
in_range dev lba count = ltb 0 count && leb (lba + count) dev.block_count

-- What `blockdev_validate` asks for.
pub record IsUsable {S : Type 0} (dev : Blockdev S) : Type 0 where
  pub label : Bytes
  pub named : dev.name ≡ some label
  pub sized : 0 < dev.block_size
  pub populated : 0 < dev.block_count
  pub reader : BlockReadFn S
  pub readable : dev.read ≡ some reader

abbrev pub delivered : {S : Type 0} → ℤ × Bytes × S → ℤ × Option Bytes × S
delivered r = (r.0, some r.1, r.2)

module _ {S : Type 0} (dev : Blockdev S) where
  pub range_valid-eq-in_range :
      (lba count : ℕ) → range_valid (some dev) lba count ≡ in_range dev lba count
  unfolding range_valid
  range_valid-eq-in_range lba count = ground arith

  pub validate-IsUsable : IsUsable dev → validate (some dev) ≡ pos 0
  unfolding validate
  validate-IsUsable u = ground arith

module _ {S : Type 0} {dev : Blockdev S} (u : IsUsable dev) (lba count : ℕ) where
  -- A read of a usable device goes to the driver, with its result passed on, exactly when every
  -- block asked for exists; any other request gives -1 and leaves the buffer and the driver alone.
  pub read_exact :
      (buffer : Bytes) (s : S)
      → Block.read (some dev) lba count (some buffer) s ≡ (
          if in_range dev lba count
          then delivered (u.reader lba count buffer s)
          else (minus_one, some buffer, s))
  unfolding Block.read
  read_exact buffer s =
      ground (arith, validate-IsUsable dev u, range_valid-eq-in_range dev lba count, u.readable)

  -- The same for a write to a usable device that has a write callback.
  pub write_exact :
      (f : BlockWriteFn S) (buffer : Bytes) (s : S)
      → dev.write ≡ some f
      → Block.write (some dev) lba count (some buffer) s
        ≡ (if in_range dev lba count then f lba count buffer s else (minus_one, s))
  unfolding Block.write
  write_exact f buffer s e =
      ground (arith, validate-IsUsable dev u, range_valid-eq-in_range dev lba count)
