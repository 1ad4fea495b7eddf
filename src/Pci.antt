-- ===== src/Pci.antt =====
-- kernel/pci.c, include/pci.h: the configuration space behind the ports 0xcf8 and 0xcfc. A bus, a device
-- and a function are below 256, 32 and 8, so that the fields of an address do not overlap, and `|` is a
-- sum there.
pub mod Halves
use Prim.Native.Nat.{bit_or}
use un_orion.Common.{
  ℕ, zero, suc, ◌+◌, ◌-◌, ◌*◌, ◌/◌, ◌%◌, ◌^◌, Bool, true, false, not, ◌&&◌, ◌||◌, Option, none,
  some, u8, u16, u32, ltb, leb, ◌==◌, if◌then◌else◌,
}

-- `outl` and `inl` of include/io.h over the state of the machine.
pub record Ports (W : Type 0) : Type 0 where
  pub outl : ℕ → ℕ → W → W
  pub inl : ℕ → W → ℕ × W

pub record PciDevice : Type 0 where
  pub bus : ℕ
  pub dev : ℕ
  pub fn : ℕ
  pub vendor : ℕ
  pub device : ℕ
  pub revision : ℕ
  pub prog_if : ℕ
  pub subclass : ℕ
  pub class_code : ℕ

-- `o&0xfc` and `(o&2)*8`
abbrev pub register : ℕ → ℕ
register o = o % 256 / 4 * 4

abbrev pub shift : ℕ → ℕ
shift o = if o / 2 % 2 == 0 then 0 else 16

unfoldable pub addr : ℕ → ℕ → ℕ → ℕ → ℕ
addr b d f o = 0x80000000 + b * 2 ^ 16 + d * 2 ^ 11 + f * 2 ^ 8 + register o

-- `(x&~(0xffffu<<s))|((uint32_t)v<<s)`
abbrev pub replaced : ℕ → ℕ → ℕ → ℕ
replaced s x v = if s == 0 then x / 2 ^ 16 * 2 ^ 16 + v else x % 2 ^ 16 + v * 2 ^ 16

module _ {W : Type 0} (ports : Ports W) where
  unfoldable pub pci_read32 : ℕ → ℕ → ℕ → ℕ → W → ℕ × W
  pci_read32 b d f o w = ports.inl 0xcfc (ports.outl 0xcf8 (addr b d f o) w)

  unfoldable pub pci_write32 : ℕ → ℕ → ℕ → ℕ → ℕ → W → W
  pci_write32 b d f o v w = ports.outl 0xcfc v (ports.outl 0xcf8 (addr b d f o) w)

  unfoldable pub pci_read16 : ℕ → ℕ → ℕ → ℕ → W → ℕ × W
  pci_read16 b d f o w =
      let (v, w') = pci_read32 b d f o w in (u16 (if shift o == 0 then v else v / 2 ^ 16), w')

  unfoldable pub pci_write16 : ℕ → ℕ → ℕ → ℕ → ℕ → W → W
  pci_write16 b d f o v w =
      let (x, w') = pci_read32 b d f (register o) w in
      pci_write32 b d f (register o) (replaced (shift o) x v) w'

  -- The loops of `pci_find`: `left` functions, devices or buses are left.
  unfoldable pub find_function : ℕ → ℕ → ℕ → ℕ → ℕ → ℕ → W → Option PciDevice × W
  find_function zero b d f vendor device w = (none, w)
  find_function (suc left) b d f vendor device w =
      let (id, w1) = pci_read32 b d f 0 w in
      let (cc, w2) = pci_read32 b d f 8 w1 in
      let (h, w3) = pci_read32 b d 0 0x0c w1 in
      let next = find_function left b d (f + 1) vendor device w1 in
      let next_after = find_function left b d (f + 1) vendor device w3 in
      if id % 2 ^ 16 == 0xffff
      then (if f == 0 then (none, w1) else next)
      else if id % 2 ^ 16 == vendor && id / 2 ^ 16 == device
      then (
        some (record {
          bus = b;
          dev = d;
          fn = f;
          vendor = vendor;
          device = device;
          revision = u8 cc;
          prog_if = u8 (cc / 2 ^ 8);
          subclass = u8 (cc / 2 ^ 16);
          class_code = u8 (cc / 2 ^ 24);
        }),
        w2,
      )
      else if f == 0
      then (if h / 2 ^ 23 % 2 == 0 then (none, w3) else next_after)
      else next

  abbrev pub or_else : Option PciDevice × W → (W → Option PciDevice × W) → Option PciDevice × W
  or_else (some p, w) again = (some p, w)
  or_else (none, w) again = again w

  unfoldable pub find_device : ℕ → ℕ → ℕ → ℕ → ℕ → W → Option PciDevice × W
  find_device zero b d vendor device w = (none, w)
  find_device (suc left) b d vendor device w =
      or_else (find_function 8 b d 0 vendor device w) (find_device left b (d + 1) vendor device)

  unfoldable pub find_bus : ℕ → ℕ → ℕ → ℕ → W → Option PciDevice × W
  find_bus zero b vendor device w = (none, w)
  find_bus (suc left) b vendor device w =
      or_else (find_device 32 b 0 vendor device w) (find_bus left (b + 1) vendor device)

  unfoldable pub pci_find : ℕ → ℕ → W → Option PciDevice × W
  pci_find vendor device w = find_bus 256 0 vendor device w

  unfoldable pub pci_bar32 : Option PciDevice → ℕ → W → ℕ × W
  pci_bar32 none bar w = (0, w)
  pci_bar32 (some p) bar w =
      let read = pci_read32 p.bus p.dev p.fn (0x10 + bar * 4) w in
      if ltb 5 bar then (0, w) else read

  -- The bits of the two halves do not overlap.
  unfoldable pub pci_bar64 : Option PciDevice → ℕ → W → ℕ × W
  pci_bar64 p bar w =
      let (lo, w1) = pci_bar32 p bar w in
      let (hi, w2) = pci_bar32 p (bar + 1) w1 in
      let base = lo / 16 * 16 in
      if lo / 2 % 4 == 2 && ltb bar 5 then (base + hi * 2 ^ 32, w2) else (base, w1)

  unfoldable pub pci_enable : Option PciDevice → ℕ → W → W
  pci_enable none bits w = w
  pci_enable (some p) bits w =
      let (c, w') = pci_read16 p.bus p.dev p.fn 4 w in
      pci_write16 p.bus p.dev p.fn 4 (u16 (bit_or c bits)) w'
