-- ===== src/Dhcp/Reply/Scan.antt =====
-- kernel/dhcp.c: the options as a reader of the remaining bytes would take them, and that the loop of
-- `dhcp_parse_reply` does just that.
use un_orion.Common.{
  ℕ, zero, suc, ◌+◌, ◌-◌, ◌≤◌, ◌<◌, ◌≡◌, refl, ◌∙◌, Bool, true, false, ◌&&◌, ◌||◌, Bytes, byte, [],
  ◌∷◌, take, drop, length, length-take, length-drop, take-take, get_or-take, get_or-drop, drop_add,
  drop_all, inl, inr, ltb, leb, ◌==◌, if◌then◌else◌, Bool-cases, done, read-eq-done,
  read_block-eq-done, drop-eq-cons, arith,
}
use un_orion.Dhcp.{Lease}
use un_orion.Dhcp.Reply.{be32, get32, apply_option, parse_options}

-- What an option with this code and value does to the lease.
unfoldable pub set_option : ℕ → Bytes → Lease → Lease
set_option code v lease =
    if code == 53 && length v == 1
    then record lease { message_type = byte v 0 }
    else if code == 1 && length v == 4
    then record lease { netmask = v; have_netmask = true }
    else if code == 3 && leb 4 (length v)
    then record lease { gateway = take 4 v; have_gateway = true }
    else if code == 6 && leb 4 (length v)
    then record lease { dns = take 4 v; have_dns = true }
    else if code == 51 && length v == 4
    then record lease { lease_seconds = be32 (byte v 0) (byte v 1) (byte v 2) (byte v 3) }
    else if code == 54 && length v == 4
    then record lease { server = v; have_server = true }
    else lease

-- The options in the bytes that are left.
unfoldable pub scan : ℕ → Bytes → Lease → Bool × Lease
scan zero xs lease = (true, lease)
scan (suc fuel) [] lease = (true, lease)
scan (suc fuel) (code ∷ []) lease = (code == 0 || code == 255, lease)
scan (suc fuel) (code ∷ n ∷ rest) lease =
    let pad = scan fuel (n ∷ rest) lease in
    let more = scan fuel (drop n rest) (set_option code (take n rest) lease) in
    if code == 0
    then pad
    else if code == 255
    then (true, lease)
    else if ltb (length rest) n
    then (false, lease)
    else more

pub get32-eq-done :
    (p : Bytes) (i : ℕ)
    → i + 4 ≤ length p
    → get32 p i ≡ done (be32 (byte p i) (byte p (i + 1)) (byte p (i + 2)) (byte p (i + 3)))
unfolding get32
get32-eq-done p i h = rw (
  read-eq-done p i (omega arith),
  read-eq-done p (i + 1) (omega arith),
  read-eq-done p (i + 2) (omega arith),
  read-eq-done p (i + 3) (omega arith),
)

take-drop_of_eq : (p : Bytes) (v n m : ℕ) → m ≤ n → take m (take n (drop v p)) ≡ take m (drop v p)
take-drop_of_eq p v n m h = take-take m n (drop v p) h

byte-value : (p : Bytes) (v n i : ℕ) → i < n → byte (take n (drop v p)) i ≡ byte p (v + i)
byte-value p v n i h = get_or-take n i (drop v p) 0 h ∙ get_or-drop v i p 0

apply_option-set_option :
    (p : Bytes) (v code n : ℕ) (lease : Lease)
    → v + n ≤ length p
    → apply_option p v code n lease ≡ done (set_option code (take n (drop v p)) lease)
unfolding apply_option set_option
apply_option-set_option p v code n lease h = ground (
  arith,
  length-take n (drop v p),
  length-drop v p,
  read-eq-done p v,
  read_block-eq-done p v 4,
  get32-eq-done p v,
  take-take 4 n (drop v p),
  byte-value p v n 0,
  byte-value p v n 1,
  byte-value p v n 2,
  byte-value p v n 3,
)

-- `scan` by what is left after the code and the length byte, where the loop finds them.
scan_step :
    (fuel : ℕ) (p : Bytes) (o : ℕ) (lease : Lease)
    → o + 1 < length p
    → scan (suc fuel) (drop o p) lease ≡ (
        if byte p o == 0
        then scan fuel (drop (o + 1) p) lease
        else if byte p o == 255
        then (true, lease)
        else if ltb (length p - (o + 2)) (byte p (o + 1))
        then (false, lease)
        else scan fuel
            (drop (o + 2 + byte p (o + 1)) p)
            (set_option (byte p o) (take (byte p (o + 1)) (drop (o + 2) p)) lease))
unfolding scan
scan_step fuel p o lease h =
    let e : o + 1 + 1 ≡ o + 2 = omega arith in
    rw (
      drop-eq-cons p o (omega arith),
      drop-eq-cons p (o + 1) (omega arith),
      e,
      drop_add (o + 2) (byte p (o + 1)) p,
      length-drop (o + 2) p,
    )

scan_last :
    (fuel : ℕ) (p : Bytes) (o : ℕ) (lease : Lease)
    → o + 1 ≡ length p
    → scan (suc fuel) (drop o p) lease ≡ (byte p o == 0 || byte p o == 255, lease)
unfolding scan
scan_last fuel p o lease h = rw (drop-eq-cons p o (omega arith), drop_all (o + 1) p (omega arith))

scan_nil : (fuel : ℕ) (lease : Lease) → scan fuel [] lease ≡ (true, lease)
unfolding scan
scan_nil zero lease = refl
scan_nil (suc fuel) lease = refl

-- One round of the loop, with at least two bytes left.
parse_step :
    (fuel : ℕ) (p : Bytes) (o : ℕ) (lease : Lease)
    → o + 1 < length p
    → parse_options (suc fuel) p o lease ≡ (
        if byte p o == 0
        then parse_options fuel p (o + 1) lease
        else if byte p o == 255
        then done (true, lease)
        else if ltb (length p - (o + 2)) (byte p (o + 1))
        then done (false, lease)
        else parse_options fuel p
            (o + 2 + byte p (o + 1))
            (set_option (byte p o) (take (byte p (o + 1)) (drop (o + 2) p)) lease))
unfolding parse_options
parse_step fuel p o lease h =
    let more : leb (length p) o ≡ false = ground arith in
    let two : leb (length p) (o + 1) ≡ false = ground arith in
    elim (Bool-cases (ltb (length p - (o + 2)) (byte p (o + 1)))) [
      | inl short ↦ rw (more, read-eq-done p o (omega arith), two, read-eq-done p (o + 1) h, short)
      | inr fits ↦ rw (
        more,
        read-eq-done p o (omega arith),
        two,
        read-eq-done p (o + 1) h,
        fits,
        apply_option-set_option p (o + 2) (byte p o) (byte p (o + 1)) lease (ground arith),
      )
    ]

-- With enough fuel the loop of `dhcp_parse_reply` is `scan` on the bytes from its offset on.
pub parse_options-scan :
    (fuel : ℕ) (p : Bytes) (o : ℕ) (lease : Lease)
    → length p < fuel + o
    → o ≤ length p
    → parse_options fuel p o lease ≡ done (scan fuel (drop o p) lease)
unfolding parse_options
parse_options-scan zero p o lease h k = absurd (omega arith)
parse_options-scan (suc fuel) p o lease h k = elim (Bool-cases (leb (length p) o)) [
  | inl over ↦ rw (over, drop_all o p (ground arith), scan_nil (suc fuel) lease)
  | inr more ↦ elim (Bool-cases (leb (length p) (o + 1))) [
    | inl last ↦
        rw (more, read-eq-done p o (ground arith), scan_last fuel p o lease (ground arith))
          (ground (
            arith,
            parse_options-scan fuel p (o + 1) lease (omega arith) (ground arith),
            drop_all (o + 1) p (ground arith),
            scan_nil fuel lease,
          ))
    | inr two ↦
        rw (parse_step fuel p o lease (ground arith), scan_step fuel p o lease (ground arith))
          (ground (
            arith,
            parse_options-scan fuel p (o + 1) lease (omega arith) (ground arith),
            parse_options-scan fuel p (o + 2 + byte p (o + 1))
                (set_option (byte p o) (take (byte p (o + 1)) (drop (o + 2) p)) lease)
                (omega arith),
          ))
  ]
]
