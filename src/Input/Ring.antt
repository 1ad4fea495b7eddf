-- ===== src/Input/Ring.antt =====
-- kernel/interrupts.c: the rings are bounded queues, for every order of interrupts and reads.
use native.Mathlib.Nat.{mod-eq_of_lt, mod_self}
use un_orion.Common.{
  ℕ, zero, suc, ◌+◌, ◌-◌, ◌%◌, ◌<◌, ◌≡◌, refl, ap, subst, ◌∙◌, true, false, Option, none, some, u8,
  ltb, ◌==◌, if◌then◌else◌, Bool-cases, inl, inr, List, [], ◌∷◌, ◌++◌, length, length-append, arith,
}
use un_orion.Input.{
  Bytequeue, Inputs, put_byte, pop_byte, keyboard_isr, mouse_isr, pit_isr, keyboard_pop_scancode,
  mouse_pop_byte,
}

-- What can happen to the inputs.
pub data Event : Type 0 where
  tick : Event
  key : ℕ → Event
  move : ℕ → Event
  pop_key : Event
  pop_move : Event

-- What a reader gets.
abbrev pub step : Event → Inputs → List (Option ℕ) × Inputs
step tick s = ([], pit_isr s)
step (key b) s = ([], keyboard_isr b s)
step (move b) s = ([], mouse_isr b s)
step pop_key s = let (b, s') = keyboard_pop_scancode s in (b ∷ [], s')
step pop_move s = let (b, s') = mouse_pop_byte s in (b ∷ [], s')

abbrev pub run : List Event → Inputs → List (Option ℕ)
run [] s = []
run (e ∷ es) s = let (out, s') = step e s in out ++ run es s'

-- A queue of at most `limit` bytes that drops what finds it full.
abbrev pub enqueue : ℕ → ℕ → List ℕ → List ℕ
enqueue limit b q = if ltb (length q) limit then q ++ b ∷ [] else q

abbrev pub dequeue : List ℕ → Option ℕ × List ℕ
dequeue [] = (none, [])
dequeue (b ∷ q) = (some b, q)

-- The two queues, of 63 and 127 bytes.
abbrev pub queues : List Event → List ℕ → List ℕ → List (Option ℕ)
queues [] keys moves = []
queues (tick ∷ es) keys moves = queues es keys moves
queues (key b ∷ es) keys moves = queues es (enqueue 63 b keys) moves
queues (move b ∷ es) keys moves = queues es keys (enqueue 127 b moves)
queues (pop_key ∷ es) keys moves = let (b, keys') = dequeue keys in b ∷ queues es keys' moves
queues (pop_move ∷ es) keys moves = let (b, moves') = dequeue moves in b ∷ queues es keys moves'

-- The index `n` places after `i`.
abbrev place_at : ℕ → ℕ → ℕ → ℕ
place_at size i n = if ltb (i + n) size then i + n else i + n - size

abbrev next : ℕ → ℕ → ℕ
next size i = if i + 1 == size then 0 else i + 1

-- The index after `i`, as the code computes it.
masked-next : (size i : ℕ) → i < size → size < 256 → u8 (i + 1) % size ≡ next size i
masked-next size i h k = elim (Bool-cases (i + 1 == size)) [
  | inl y ↦ let e : u8 (i + 1) ≡ size = ground arith in rw (e, y) (mod_self size)
  | inr n ↦ let e : u8 (i + 1) ≡ i + 1 = omega arith in rw (e, n) (mod-eq_of_lt (ground arith))
]

-- The `n` bytes from `i` on.
abbrev from : ℕ → (ℕ → ℕ) → ℕ → ℕ → List ℕ
from size bytes zero i = []
from size bytes (suc n) i = bytes i ∷ from size bytes n (next size i)

length-from : (size : ℕ) (bytes : ℕ → ℕ) (n i : ℕ) → length (from size bytes n i) ≡ n
length-from size bytes zero i = refl
length-from size bytes (suc n) i = ap suc (length-from size bytes n (next size i))

from-put :
    (size : ℕ) (bytes : ℕ → ℕ) (b n i head : ℕ)
    → i < size
    → n < size
    → head ≡ place_at size i n
    → from size (λ j. if j == head then b else bytes j) (suc n) i ≡ from size bytes n i ++ b ∷ []
from-put size bytes b zero i head h k e = let same : i == head ≡ true = ground arith in rw same
from-put size bytes b (suc n) i head h k e =
    let other : i == head ≡ false = ground arith in
    rw other (
      ap (λ r. bytes i ∷ r)
        (from-put size bytes b n (next size i) head (ground arith) (omega arith) (ground arith)))

-- The ring holds the queue.
record Holds (q : Bytequeue) (bytes : List ℕ) : Type 0 where
  small : q.size < 256
  inside : q.tail < q.size
  room : length bytes < q.size
  ends : q.head ≡ place_at q.size q.tail (length bytes)
  held : from q.size q.bytes (length bytes) q.tail ≡ bytes

put_byte-Holds :
    (b : ℕ) (q : Bytequeue) (bytes : List ℕ)
    → Holds q bytes
    → Holds (put_byte b q) (enqueue (q.size - 1) b bytes)
unfolding put_byte
put_byte-Holds b q bytes h =
    let n = length bytes in
    let head_inside : q.head < q.size = ground (arith, h.ends, h.room, h.inside) in
    let e = masked-next q.size q.head head_inside h.small in
    elim (Bool-cases (ltb n (q.size - 1))) [
      | inl y ↦
          let free : next q.size q.head == q.tail ≡ false = ground (arith, h.ends, h.inside) in
          let longer : length (bytes ++ b ∷ []) ≡ suc n =
            omega (arith, length-append bytes (b ∷ [])) in
          rw (e, free, y)
            (record {
              small = h.small;
              inside = h.inside;
              room = ground (arith, length-append bytes (b ∷ []));
              ends = ground (arith, h.ends, h.inside, longer);
              held = rw longer (
                  from-put q.size q.bytes b n q.tail q.head h.inside h.room h.ends
                  ∙ ap (λ r. r ++ b ∷ []) h.held);
            })
      | inr m ↦
          let full : next q.size q.head == q.tail ≡ true =
            ground (arith, h.ends, h.inside, h.room) in
          rw (e, full, m) h
    ]

pop_byte-Holds :
    (q : Bytequeue) (bytes : List ℕ)
    → Holds q bytes
    → ((pop_byte q).0 ≡ (dequeue bytes).0) × Holds (pop_byte q).1 (dequeue bytes).1
unfolding pop_byte
pop_byte-Holds q [] h =
    let same : q.tail == q.head ≡ true = ground (arith, h.ends, h.inside) in rw same (refl, h)
pop_byte-Holds q (b ∷ bytes) h =
    let other : q.tail == q.head ≡ false = ground (arith, h.ends, h.inside, h.room) in
    let held : q.bytes q.tail ∷ from q.size q.bytes (length bytes) (next q.size q.tail)
        ≡ b ∷ bytes =
      h.held in
    rw (other, masked-next q.size q.tail h.inside h.small)
      (
        cc,
        record {
          small = h.small;
          inside = ground (arith, h.inside);
          room = omega (arith, h.room);
          ends = ground (arith, h.ends, h.inside, h.room);
          held = cc;
        },
      )

size-put_byte : (b : ℕ) (q : Bytequeue) → (put_byte b q).size ≡ q.size
unfolding put_byte
size-put_byte b q = elim (Bool-cases (u8 (q.head + 1) % q.size == q.tail)) [
  | inl y ↦ rw y refl
  | inr n ↦ rw n refl
]

size-pop_byte : (q : Bytequeue) → (pop_byte q).1.size ≡ q.size
unfolding pop_byte
size-pop_byte q = elim (Bool-cases (q.tail == q.head)) [ inl y ↦ rw y refl | inr n ↦ rw n refl ]

-- The ring of `size` bytes holds the queue.
abbrev Ring : ℕ → Bytequeue → List ℕ → Type 0
Ring size q bytes = (q.size ≡ size) × Holds q bytes

put_byte-Ring :
    (size b : ℕ) (q : Bytequeue) (bytes : List ℕ)
    → Ring size q bytes
    → Ring size (put_byte b q) (enqueue (size - 1) b bytes)
put_byte-Ring size b q bytes (e, h) = (
  size-put_byte b q ∙ e,
  subst (λ n. Holds (put_byte b q) (enqueue (n - 1) b bytes)) e (put_byte-Holds b q bytes h),
)

pop_byte-Ring :
    (size : ℕ) (q : Bytequeue) (bytes : List ℕ)
    → Ring size q bytes
    → Ring size (pop_byte q).1 (dequeue bytes).1
pop_byte-Ring size q bytes (e, h) = (size-pop_byte q ∙ e, (pop_byte-Holds q bytes h).1)

held_run-queues :
    (es : List Event) (s : Inputs) (keys moves : List ℕ)
    → Ring 64 s.keys keys
    → Ring 128 s.mouse moves
    → run es s ≡ queues es keys moves
unfolding pit_isr keyboard_isr mouse_isr keyboard_pop_scancode mouse_pop_byte
held_run-queues [] s keys moves h k = refl
held_run-queues (tick ∷ es) s keys moves h k = held_run-queues es (pit_isr s) keys moves h k
held_run-queues (key c ∷ es) s keys moves h k =
    held_run-queues es (keyboard_isr c s) (enqueue 63 c keys) moves
      (put_byte-Ring 64 c s.keys keys h) k
held_run-queues (move c ∷ es) s keys moves h k =
    held_run-queues es (mouse_isr c s) keys (enqueue 127 c moves) h
      (put_byte-Ring 128 c s.mouse moves k)
held_run-queues (pop_key ∷ es) s keys moves h k =
    let rest =
      held_run-queues es (keyboard_pop_scancode s).1 (dequeue keys).1 moves
        (pop_byte-Ring 64 s.keys keys h) k in
    ap (λ b. b ∷ run es (keyboard_pop_scancode s).1) (pop_byte-Holds s.keys keys h.1).0
    ∙ ap (λ r. (dequeue keys).0 ∷ r) rest
held_run-queues (pop_move ∷ es) s keys moves h k =
    let rest =
      held_run-queues es (mouse_pop_byte s).1 keys (dequeue moves).1 h
        (pop_byte-Ring 128 s.mouse moves k) in
    ap (λ b. b ∷ run es (mouse_pop_byte s).1) (pop_byte-Holds s.mouse moves k.1).0
    ∙ ap (λ r. (dequeue moves).0 ∷ r) rest

-- Whatever order interrupts and reads come in, from two empty rings on: the readers get what they would
-- get of two queues, of 63 keyboard bytes and of 127 mouse bytes, that drop a byte which finds them full.
pub run-queues :
    (es : List Event) (s : Inputs)
    → s.keys.size ≡ 64
    → s.mouse.size ≡ 128
    → s.keys.head ≡ s.keys.tail
    → s.mouse.head ≡ s.mouse.tail
    → s.keys.tail < 64
    → s.mouse.tail < 128
    → run es s ≡ queues es [] []
run-queues es s a b c d e f =
    held_run-queues es s [] []
      (
        a,
        record {
          small = omega arith;
          inside = omega arith;
          room = omega arith;
          ends = ground arith;
          held = refl;
        },
      )
      (
        b,
        record {
          small = omega arith;
          inside = omega arith;
          room = omega arith;
          ends = ground arith;
          held = refl;
        },
      )
