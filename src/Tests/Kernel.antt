-- ===== src/Tests/Kernel.antt =====
-- The frame buffer, the input rings, the clock and the configuration space, for kernel/graphics.c,
-- kernel/interrupts.c, kernel/tls.c and kernel/pci.c.
use un_orion.Common.{
  bit_and, u16, ◌-◌, inl, ◌^◌, ◌/◌, ℕ, zero, suc, ◌+◌, ◌*◌, ◌≤◌, ◌≡◌, refl, true, false, not, ◌&&◌,
  Option, none, some, [], ◌∷◌, ◌==◌, if◌then◌else◌, arith,
}
use un_orion.Graphics.{
  BootInfo, Gfx, pack_pixel, stored, store, offset, fill_row, fill_rows, gfx_rect, gfx_get_raw,
}
use un_orion.Graphics.Rect.{in_rect}
use un_orion.Graphics.Clip.{on_screen, gfx_rect-exact}
use un_orion.Input.{Bytequeue, Inputs, put_byte, pop_byte, keyboard_isr, keyboard_pop_scancode}
use un_orion.Input.Ring.{tick, key, move, pop_key, pop_move, run, queues, run-queues}
use un_orion.Pci.{
  Ports, PciDevice, addr, pci_read32, pci_write32, pci_read16, pci_write16, find_function,
  find_device, find_bus, pci_find,
}
use un_orion.Tls.Clock.{
  Rtc, rtc_snapshot, bcd, leap, month_days, days_in, add_years, add_months, days_and_seconds,
  time_of, tls_time,
}
use un_orion.Tls.Clock.Calendar.{day_number, registers, time_of-registers}

-- A screen of 4 by 3 pixels with scan lines of 6.
abbrev screen : BootInfo
screen = record {
  framebuffer_base = 4096;
  width = 4;
  height = 3;
  pixels_per_scanline = 6;
  pixel_format = 1;
}

abbrev black : Gfx
black = record { bi = some screen; pixels = λ j. 0 }

gfx_rect-exact_example : (gfx_rect 2 1 9 9 0x102030 black).pixels (offset screen 3 2) ≡ (
    if not (4096 == 0) && (in_rect 2 1 9 9 3 2 && on_screen screen 3 2)
    then stored screen (pack_pixel screen 0x102030)
    else 0)
gfx_rect-exact_example =
    gfx_rect-exact screen black 2 1 9 9 0x102030 3 2 refl (omega arith) (omega arith) (omega arith)
      (omega arith)

-- The rectangle is cut off at the right and at the bottom.
cut_off :
    (gfx_get_raw 3 2 (gfx_rect 2 1 9 9 0x102030 black) ≡ 0x102030)
    × ((gfx_rect 2 1 9 9 0x102030 black).pixels (offset screen 4 2) ≡ 0)
unfolding gfx_rect fill_rows fill_row store stored pack_pixel gfx_get_raw
cut_off = (refl, refl)

abbrev empty_ring : ℕ → Bytequeue
empty_ring size = record { size = size; bytes = λ i. 0; head = 0; tail = 0 }

abbrev inputs : Inputs
inputs = record { ticks = 0; pit_hz = 100; keys = empty_ring 64; mouse = empty_ring 128 }

run-queues_example :
    run (key 30 ∷ move 8 ∷ tick ∷ pop_key ∷ pop_key ∷ pop_move ∷ []) inputs
    ≡ queues (key 30 ∷ move 8 ∷ tick ∷ pop_key ∷ pop_key ∷ pop_move ∷ []) [] []
run-queues_example =
    run-queues (key 30 ∷ move 8 ∷ tick ∷ pop_key ∷ pop_key ∷ pop_move ∷ []) inputs refl refl refl
      refl (omega arith) (omega arith)

read_in_order :
    run (key 30 ∷ key 158 ∷ pop_key ∷ pop_key ∷ pop_key ∷ []) inputs
    ≡ some 30 ∷ some 158 ∷ none ∷ []
unfolding keyboard_isr keyboard_pop_scancode put_byte pop_byte
read_in_order = refl

leap_day : 29 ≤ days_in 2024 2
unfolding month_days leap
leap_day = omega arith

-- The last second of 29 February 2024, in BCD and with the hour in two halves.
time_of-registers_example :
    time_of (registers false true 2024 2 29 23 59 59)
    ≡ some (day_number 2024 2 29, 23 * 3600 + 59 * 60 + 59)
time_of-registers_example =
    time_of-registers false true 2024 2 29 23 59 59 (omega arith) (omega arith) (omega arith)
      (omega arith) (omega arith) leap_day (omega arith) (omega arith) (omega arith)

-- The second try has two readings that agree.
abbrev changing : ℕ → Rtc × Rtc
changing zero = (registers false true 2024 2 29 23 59 59, registers false true 2024 3 1 0 0 0)
changing (suc k) = (registers false true 2024 3 1 0 0 0, registers false true 2024 3 1 0 0 0)

second_try : tls_time changing ≡ some (739311, 0)
unfolding tls_time rtc_snapshot time_of bcd days_and_seconds add_years add_months leap month_days
second_try = refl

-- The command register of a device, whose upper half is the status: bits that are cleared where a 1 is
-- written.
abbrev command : ℕ
command = 0x80001804

abbrev cleared : ℕ → ℕ → ℕ
cleared held written = u16 (bit_and held (0xffff - written))

abbrev effect : ℕ → ℕ → ℕ → ℕ → ℕ
effect a s held written =
    if a == command then (if s == 0 then written else cleared held written) else written

abbrev written_to : ℕ → ℕ → ℕ → ℕ
written_to a held v =
    if a == command then u16 v + 2 ^ 16 * cleared (u16 (held / 2 ^ 16)) (u16 (v / 2 ^ 16)) else v

-- A host bridge: the register that is selected, and all registers.
abbrev bridge : Ports (ℕ × (ℕ → ℕ))
bridge = record {
  outl = λ port v w.
      if port == 0xcf8
      then (v, w.1)
      else (w.0, λ j. if j == w.0 then written_to w.0 (w.1 w.0) v else w.1 j);
  inl = λ port w. (w.1 w.0, w);
}

-- Enabling the device clears each bit of the status that is set and is cleared by a 1.
status_is_cleared :
    ((pci_read16 bridge 0 3 0 6 (0, λ j. 0x29000001)).0 ≡ 0x2900)
    × ((pci_read16 bridge 0 3 0 6 (pci_write16 bridge 0 3 0 4 0x107 (0, λ j. 0x29000001))).0 ≡ 0)
    × ((pci_read16 bridge 0 3 0 4 (pci_write16 bridge 0 3 0 4 0x107 (0, λ j. 0x29000001))).0
        ≡ 0x107)
unfolding pci_read16 pci_write16 pci_read32 pci_write32 addr
status_is_cleared = (refl, refl, refl)

-- A device in the second slot of bus 0; all else is empty.
abbrev slots : ℕ → ℕ
slots j =
    if j == addr 0 1 0 0 then 0x100e8086 else if j == addr 0 1 0 8 then 0x02000003 else 0xffffffff

abbrev place_of : {W : Type 0} → Option PciDevice × W → Option (ℕ × ℕ × ℕ × ℕ)
place_of (none, w) = none
place_of (some p, w) = some (p.bus, p.dev, p.class_code, p.revision)

found : place_of (pci_find bridge 0x8086 0x100e (0, slots)) ≡ some (0, 1, 2, 3)
unfolding pci_find find_bus find_device find_function pci_read32 addr
found = refl
