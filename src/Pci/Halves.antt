-- ===== src/Pci/Halves.antt =====
-- kernel/pci.c: writing 16 bits of the configuration space.
use un_orion.Common.{ℕ, ◌/◌, ◌^◌, ◌≡◌, u16, ◌==◌, if◌then◌else◌, inl}
use un_orion.Pci.{Ports, shift}

-- The 16 bits of a register.
abbrev pub half : ℕ → ℕ → ℕ
half s x = u16 (if s == 0 then x else x / 2 ^ 16)

-- What the host bridge and the devices document: 0xcf8 selects a register of `space`, and 0xcfc reads it
-- and writes it. What a write makes of the 16 bits of register `a` that start at bit `s` is
-- `effect a s held written`: bits may take what is written, be read-only, or be cleared where a 1 is
-- written.
pub record IsBridge {W : Type 0} (ports : Ports W) (space : W → ℕ → ℕ) (effect : ℕ → ℕ → ℕ → ℕ → ℕ)
    : Type 0 where
  pub reads : (a : ℕ) (w : W) → (ports.inl 0xcfc (ports.outl 0xcf8 a w)).0 ≡ space w a
  pub keeps : (a j : ℕ) (w : W) → space (ports.inl 0xcfc (ports.outl 0xcf8 a w)).1 j ≡ space w j
  pub writes :
      (a v j o : ℕ) (w : W)
      → half (shift o) (space (ports.outl 0xcfc v (ports.outl 0xcf8 a w)) j) ≡ (
          if j == a
          then effect a (shift o) (half (shift o) (space w a)) (half (shift o) v)
          else half (shift o) (space w j))
