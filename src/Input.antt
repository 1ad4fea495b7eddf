-- ===== src/Input.antt =====
-- kernel/interrupts.c: the timer, and the rings between the interrupt handlers and the kernel. A handler
-- takes the byte that it reads from port 0x60. A mask of 2^k - 1 is a remainder by the ring's `size`.
pub mod Ring
use un_orion.Common.{
  ℕ, zero, suc, ◌+◌, ◌-◌, ◌*◌, ◌/◌, ◌%◌, ◌^◌, Bool, true, false, Option, none, some, u8, u64, ltb,
  ◌==◌, if◌then◌else◌, List, [], ◌∷◌,
}

-- `keyq` with `key_head` and `key_tail`, or `mouseq` with its own; `size` is 64 or 128.
pub record Bytequeue : Type 0 where
  pub size : ℕ
  pub bytes : ℕ → ℕ
  pub head : ℕ
  pub tail : ℕ

-- `g_ticks`, `g_pit_hz` and the rings.
pub record Inputs : Type 0 where
  pub ticks : ℕ
  pub pit_hz : ℕ
  pub keys : Bytequeue
  pub mouse : Bytequeue

-- `pit_program`, whose divisor goes to the timer.
unfoldable pub pit_program : ℕ → Inputs → ℕ × Inputs
pit_program hz s =
    let a = if ltb hz 19 then 19 else hz in
    let b = if ltb 1000 a then 1000 else a in
    let d = 1193182 / b in
    let e = if d == 0 then 1 else d in
    let divisor = if ltb 65535 e then 65535 else e in
    (divisor, record s { pit_hz = 1193182 / divisor })

unfoldable pub pit_isr : Inputs → Inputs
pit_isr s = record s { ticks = u64 (s.ticks + 1) }

unfoldable pub put_byte : ℕ → Bytequeue → Bytequeue
put_byte b q =
    let next = u8 (q.head + 1) % q.size in
    if next == q.tail
    then q
    else record q { bytes = λ i. if i == q.head then b else q.bytes i; head = next }

unfoldable pub pop_byte : Bytequeue → Option ℕ × Bytequeue
pop_byte q =
    if q.tail == q.head
    then (none, q)
    else (some (q.bytes q.tail), record q { tail = u8 (q.tail + 1) % q.size })

unfoldable pub keyboard_isr : ℕ → Inputs → Inputs
keyboard_isr b s = record s { keys = put_byte b s.keys }

unfoldable pub mouse_isr : ℕ → Inputs → Inputs
mouse_isr b s = record s { mouse = put_byte b s.mouse }

unfoldable pub keyboard_pop_scancode : Inputs → Option ℕ × Inputs
keyboard_pop_scancode s = let (b, q) = pop_byte s.keys in (b, record s { keys = q })

unfoldable pub mouse_pop_byte : Inputs → Option ℕ × Inputs
mouse_pop_byte s = let (b, q) = pop_byte s.mouse in (b, record s { mouse = q })
