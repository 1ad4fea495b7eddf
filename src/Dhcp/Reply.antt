-- ===== src/Dhcp/Reply.antt =====
-- kernel/dhcp.c: `dhcp_parse_reply`. Every read goes through `read`, so that one outside of the packet
-- is a fault.
pub mod Scan
pub mod Safety
pub mod Options
use un_orion.Common.{
  ℕ, zero, suc, ◌+◌, ◌-◌, ◌*◌, ◌^◌, Bool, true, false, not, ◌&&◌, ◌||◌, Option, none, some, Bytes,
  byte, u32, length, ltb, leb, ◌==◌, if◌then◌else◌, Run, done, out_of_fuel, ◌>>=◌, read, read_block,
}
use un_orion.Dhcp.{Lease, zero_lease, cookie}

-- `dget32`: big-endian; the bits of the bytes do not overlap, so `|` is a sum.
unfoldable pub be32 : ℕ → ℕ → ℕ → ℕ → ℕ
be32 a b c d = u32 (a * 2 ^ 24 + b * 2 ^ 16 + c * 2 ^ 8 + d)

unfoldable pub get32 : Bytes → ℕ → Run ℕ
get32 p i = do
  a ← read p i
  b ← read p (i + 1)
  c ← read p (i + 2)
  d ← read p (i + 3)
  done (be32 a b c d)

-- `dequal(p + i, mac + j, n)`; `mac` is an array that has the indices.
unfoldable pub equal_block : Bytes → ℕ → Bytes → ℕ → ℕ → Run Bool
equal_block p i mac j zero = done true
equal_block p i mac j (suc n) = do
  b ← read p i
  let rest = equal_block p (i + 1) mac (j + 1) n
  if not (b == byte mac j) then done false else rest

-- The ladder on `code` and `n`; the value starts at `v`.
unfoldable pub apply_option : Bytes → ℕ → ℕ → ℕ → Lease → Run Lease
apply_option p v code n lease =
    if code == 53 && n == 1
    then (do t ← read p v; done (record lease { message_type = t }))
    else if code == 1 && n == 4
    then (do b ← read_block p v 4; done (record lease { netmask = b; have_netmask = true }))
    else if code == 3 && leb 4 n
    then (do b ← read_block p v 4; done (record lease { gateway = b; have_gateway = true }))
    else if code == 6 && leb 4 n
    then (do b ← read_block p v 4; done (record lease { dns = b; have_dns = true }))
    else if code == 51 && n == 4
    then (do t ← get32 p v; done (record lease { lease_seconds = t }))
    else if code == 54 && n == 4
    then (do b ← read_block p v 4; done (record lease { server = b; have_server = true }))
    else done lease

-- The loop over the options, from offset `o`. The result is `false` where it returns 0, and `true`
-- where it breaks or its test fails.
unfoldable pub parse_options : ℕ → Bytes → ℕ → Lease → Run (Bool × Lease)
parse_options zero p o lease = out_of_fuel
parse_options (suc fuel) p o lease = if leb (length p) o then done (true, lease) else do
  code ← read p o
  let pad = parse_options fuel p (o + 1) lease
  if code == 0
      then pad
      else if code == 255
      then done (true, lease)
      else if leb (length p) (o + 1)
      then done (false, lease)
      else do
        n ← read p (o + 1)
        if ltb (length p - (o + 2)) n then done (false, lease) else do
          lease' ← apply_option p (o + 2) code n lease
          parse_options fuel p (o + 2 + n) lease'

-- The checks before the first write to `*lease`.
unfoldable pub header_matches : Bytes → ℕ → Bytes → Run Bool
header_matches p xid mac = if ltb (length p) 240 then done false else do
  op ← read p 0
  htype ← read p 1
  hlen ← read p 2
  if not (op == 2) || not (htype == 1) || not (hlen == 6) then done false else do
    x ← get32 p 4
    if not (x == xid) then done false else do
      same ← equal_block p 28 mac 0 6
      if not same then done false else do c ← get32 p 236; done (c == cookie)

-- `return lease->message_type != 0`, or 0 from inside the loop
abbrev pub reply_result : Bool × Lease → Run (Bool × Lease)
reply_result (ended, lease) = done (ended && not (lease.message_type == 0), lease)

unfoldable pub parse_body : Bytes → Run (Bool × Lease)
parse_body p = do
  ip ← read_block p 16 4
  r ← parse_options (suc (length p)) p 240 (record zero_lease { ip = ip })
  reply_result r

-- The result of the call, and `*lease` after it.
unfoldable pub parse_reply :
    Option Bytes → ℕ → Option Bytes → Option Lease → Run (Bool × Option Lease)
parse_reply (some p) xid (some mac) (some lease) = do
  matches ← header_matches p xid mac
  if not matches then done (false, some lease) else do r ← parse_body p; done (r.0, some r.1)
parse_reply p xid mac lease = done (false, lease)
