-- ===== src/Dhcp/Client.antt =====
-- kernel/dhcp.c: the exchange. The file's static variables are the record `Client`; `sent` collects
-- what goes to `netdev_tx`. The clock readings and the frames that `netdev_poll` hands to `dhcp_rx` are
-- the environment's: a list of rounds, one for each turn of the loop in `dhcp_wait`.
pub mod Checksum
pub mod Receive
pub mod Wait
pub mod Acquire
use Prim.Native.Nat.{bit_xor}
use un_orion.Common.{
  ℕ, zero, suc, ◌+◌, ◌-◌, ◌*◌, ◌/◌, ◌%◌, ◌^◌, Bool, true, false, not, ◌&&◌, ◌||◌, Option, none,
  some, ℤ, pos, negsuc, minus_one, List, [], ◌∷◌, ◌++◌, Bytes, byte, take, drop, length, replicate,
  u16, u32, ltb, leb, ◌==◌, if◌then◌else◌, Run, done, ◌>>=◌, read,
}
use un_orion.Dhcp.{Lease, zero_lease, offer, ack, nak, packet_min}
use un_orion.Dhcp.Reply.{parse_reply}
use un_orion.Dhcp.Packet.{copy, clear, put16, build_discover, build_request}

pub record Client : Type 0 where
  pub phase : ℕ
  pub event : ℤ
  pub xid : ℕ
  pub mac : Bytes
  pub rx_lease : Lease
  pub ip_id : ℕ
  pub sent : List Bytes

-- `dget16`
unfoldable pub get16 : Bytes → ℕ → Run ℕ
get16 p i = do a ← read p i; b ← read p (i + 1); done (u16 (a * 2 ^ 8 + b))

unfoldable pub ip_nonzero : Bytes → Bool
ip_nonzero ip =
    not (byte ip 0 == 0) || not (byte ip 1 == 0) || not (byte ip 2 == 0) || not (byte ip 3 == 0)

-- The sum of `dhcp_checksum16`, in 32 bits.
unfoldable pub sum16 : ℕ → Bytes → ℕ
sum16 sum [] = sum
sum16 sum (a ∷ []) = u32 (sum + a * 2 ^ 8)
sum16 sum (a ∷ b ∷ rest) = sum16 (u32 (sum + (a * 2 ^ 8 + b))) rest

-- `while (sum >> 16) sum = (sum & 0xffff) + (sum >> 16)`
unfoldable pub fold_carry : ℕ → ℕ → ℕ
fold_carry zero sum = sum
fold_carry (suc fuel) sum =
    let next = fold_carry fuel (sum % 2 ^ 16 + sum / 2 ^ 16) in
    if sum / 2 ^ 16 == 0 then sum else next

unfoldable pub checksum16 : Bytes → ℕ
checksum16 p = u16 (2 ^ 32 - 1 - fold_carry 3 (sum16 0 p))

-- The frame of `dhcp_send_broadcast` up to the payload, written into the array `frame`.
unfoldable pub broadcast_header : Bytes → ℕ → Bytes → ℕ → Bytes
broadcast_header mac ip_id frame payload_len =
    let p = copy frame 0 (replicate 6 255) 0 6 in
    let p = copy p 6 mac 0 6 in
    let p = put16 p 12 0x0800 in
    let p = clear p 14 20 in
    let p = copy p 14 (0x45 ∷ []) 0 1 in
    let p = put16 p 16 (u16 (20 + 8 + payload_len)) in
    let p = put16 p 18 ip_id in
    let p = copy p 22 (64 ∷ 17 ∷ []) 0 2 in
    let p = copy p 26 (replicate 4 0) 0 4 in
    let p = copy p 30 (replicate 4 255) 0 4 in
    let p = put16 p 24 (checksum16 (take 20 (drop 14 p))) in
    let p = put16 p 34 68 in
    let p = put16 p 36 67 in let p = put16 p 38 (u16 (8 + payload_len)) in put16 p 40 0

-- The result of `netdev_tx` is not used by the caller.
unfoldable pub send_broadcast : Bytes → Bytes → Client → Client
send_broadcast frame payload c =
    if ltb 1472 (length payload)
    then c
    else let p = broadcast_header c.mac c.ip_id frame (length payload) in
      let p = copy p 42 payload 0 (length payload) in
      record c { ip_id = u16 (c.ip_id + 1); sent = c.sent ++ take (42 + length payload) p ∷ [] }

-- `dhcp_rx` after the parse of the reply.
abbrev pub rx_reply : Client → Bool × Option Lease → Client
rx_reply c (ok, none) = c
rx_reply c (ok, some reply) =
    if not ok
    then c
    else if reply.message_type == nak
    then record c { event = minus_one }
    else if c.phase == 1 && reply.message_type == offer
    then record c { rx_lease = reply; event = pos offer }
    else if c.phase == 2 && reply.message_type == ack
    then record c { rx_lease = reply; event = pos ack }
    else c

-- `dhcp_rx` on the UDP header, which starts at `14 + ihl`, with `avail` bytes of the datagram left.
unfoldable pub rx_udp : Client → Bytes → ℕ → ℕ → Run Client
rx_udp c frame udp avail = do
  udp_len ← get16 frame (udp + 4)
  sport ← get16 frame udp
  dport ← get16 frame (udp + 2)
  if not (sport == 67) || not (dport == 68)
      then done c
      else if ltb udp_len 8 || ltb avail udp_len
      then done c
      else do
        r ←
            parse_reply (some (take (udp_len - 8) (drop (udp + 8) frame))) c.xid (some c.mac)
              (some zero_lease)
        done (rx_reply c r)

unfoldable pub rx : Client → Bytes → Run Client
rx c frame = if ltb (length frame) (14 + 20 + 8) then done c else do
  ethertype ← get16 frame 12
  if not (ethertype == 0x0800) then done c else do
    version ← read frame 14
    protocol ← read frame (14 + 9)
    let ihl = version % 16 * 4
    let ip_len = length frame - 14
    if not (version / 16 == 4) || not (protocol == 17)
        then done c
        else if ltb ihl 20 || ltb ip_len ihl
        then done c
        else do
          total ← get16 frame (14 + 2)
          if ltb total (ihl + 8) || ltb ip_len total
              then done c
              else rx_udp c frame (14 + ihl) (total - ihl)

-- `netdev_poll(dhcp_rx)`
unfoldable pub poll : Client → List Bytes → Run Client
poll c [] = done c
poll c (frame ∷ frames) = do c' ← rx c frame; poll c' frames

-- The readings of `dhcp_now_ms` in one turn, at the loop's test and in its body, and the frames.
pub record Round : Type 0 where
  pub test_ms : ℕ
  pub now_ms : ℕ
  pub frames : List Bytes

-- `(uint32_t)(now - start) >= ms`
abbrev pub elapsed : ℕ → ℕ → ℕ → Bool
elapsed now start ms = leb ms (u32 (now + 2 ^ 32 - start))

abbrev pub never : ℕ
never = 0xffffffff

abbrev pub resend_due : ℕ → ℕ → Bool
resend_due now last_tx = last_tx == never || leb 400 (u32 (now + 2 ^ 32 - last_tx))

abbrev pub same_event : ℤ → ℕ → Bool
same_event (pos e) wanted = e == wanted
same_event (negsuc _) wanted = false

abbrev pub is_negative : ℤ → Bool
is_negative (pos _) = false
is_negative (negsuc _) = true

-- The loop of `dhcp_wait`; `none` if the rounds end before the loop does.
unfoldable pub wait_loop :
    Bytes → Bytes → ℕ → ℕ → ℕ → ℕ → List Round → Client → Run (Option (Bool × Client))
wait_loop frame packet wanted timeout_ms start last_tx [] c = done none
wait_loop frame packet wanted timeout_ms start last_tx (r ∷ rounds) c =
    if elapsed r.test_ms start timeout_ms then done (some (false, c)) else do
      let due = resend_due r.now_ms last_tx
      c' ← poll (if due then send_broadcast frame packet c else c) r.frames
      let again =
          wait_loop frame packet wanted timeout_ms start (if due then r.now_ms else last_tx) rounds
            c'
      if same_event c'.event wanted
          then done (some (true, c'))
          else if is_negative c'.event
          then done (some (false, c'))
          else again

unfoldable pub wait :
    Bytes → Bytes → ℕ → ℕ → ℕ → ℕ → List Round → Client → Run (Option (Bool × Client))
wait frame packet phase wanted timeout_ms start rounds c =
    wait_loop frame packet wanted timeout_ms start never rounds
      (record c { phase = phase; event = pos 0 })

unfoldable pub lease_overlay : Lease → Lease → Lease
lease_overlay dst src = record dst {
  ip = if ip_nonzero src.ip then src.ip else dst.ip;
  netmask = if src.have_netmask then src.netmask else dst.netmask;
  have_netmask = if src.have_netmask then true else dst.have_netmask;
  gateway = if src.have_gateway then src.gateway else dst.gateway;
  have_gateway = if src.have_gateway then true else dst.have_gateway;
  dns = if src.have_dns then src.dns else dst.dns;
  have_dns = if src.have_dns then true else dst.have_dns;
  server = if src.have_server then src.server else dst.server;
  have_server = if src.have_server then true else dst.have_server;
  lease_seconds = if src.lease_seconds == 0 then dst.lease_seconds else src.lease_seconds;
  message_type = src.message_type;
}

-- `dhcp_phase = dhcp_event = 0`
abbrev pub idle : Client → Client
idle c = record c { phase = 0; event = pos 0 }

-- The environment of one exchange: the tick count at the start, the reading of `dhcp_now_ms` and the
-- rounds of each of the two waits, and the first content of the local arrays.
pub record Setting : Type 0 where
  pub ticks : ℕ
  pub offer_start : ℕ
  pub offer_rounds : List Round
  pub ack_start : ℕ
  pub ack_rounds : List Round
  pub packet : Bytes
  pub frame : Bytes

abbrev pub failure : Option Lease → Client → Run (Option (Bool × Option Lease × Client))
failure lease c = done (some (false, lease, idle c))

-- `dhcp_acquire` after a wait for the ACK.
abbrev pub after_ack :
    Lease → Lease → Option (Bool × Client) → Run (Option (Bool × Option Lease × Client))
after_ack lease offered none = done none
after_ack lease offered (some (ok, c)) =
    let final = lease_overlay offered c.rx_lease in
    if not ok
    then failure (some lease) c
    else if not (ip_nonzero final.ip)
        || not final.have_netmask
        || not final.have_gateway
        || not final.have_dns
    then failure (some lease) c
    else done (some (true, some final, idle c))

-- The first `n` bytes of the array, which go out, and the whole array.
abbrev pub built_bytes : ℕ × Option Bytes → Bytes
built_bytes (n, none) = []
built_bytes (n, some p) = take n p

abbrev pub array_of : ℕ × Option Bytes → Bytes
array_of (n, none) = []
array_of (n, some p) = p

-- `dhcp_acquire` after a wait for the OFFER; the request is built over `packet`.
abbrev pub after_offer :
    Setting
    → ℕ
    → Lease
    → Bytes
    → Option (Bool × Client)
    → Run (Option (Bool × Option Lease × Client))
after_offer e phase_timeout lease packet none = done none
after_offer e phase_timeout lease packet (some (ok, c)) =
    if not ok
    then failure (some lease) c
    else (let offered = c.rx_lease in
        if not (ip_nonzero offered.ip) || not offered.have_server
        then failure (some lease) c
        else (let built =
              build_request (some packet) packet_min c.xid (some c.mac) (some offered.ip)
                (some offered.server) in
            if built.0 == 0 then failure (some lease) c else do
              r ← wait e.frame (built_bytes built) 2 ack phase_timeout e.ack_start e.ack_rounds c
              after_ack lease offered r))

unfoldable pub acquire :
    Setting → Option Bytes → ℕ → Option Lease → Client → Run (Option (Bool × Option Lease × Client))
acquire e (some mac) timeout_ms (some lease) c0 =
    let phase_timeout = (if ltb timeout_ms 1000 then 1000 else timeout_ms) / 2 in
    let mixed = bit_xor 0x4f520000 (u32 e.ticks) in
    let xid = if mixed == 0 then 0x4f52494f else mixed in
    let c = record c0 { mac = take 6 mac; xid = xid } in
    let built = build_discover (some e.packet) packet_min xid (some (take 6 mac)) in
    if built.0 == 0 then failure (some lease) c else do
      r ← wait e.frame (built_bytes built) 1 offer phase_timeout e.offer_start e.offer_rounds c
      after_offer e phase_timeout lease (array_of built) r
acquire e mac timeout_ms lease c0 = done (some (false, lease, c0))
