-- ===== src/Dhcp/Client/Acquire.antt =====
-- kernel/dhcp.c: `dhcp_acquire` hands out a complete lease or leaves the caller's as it was.
use Prim.Native.Nat.{bit_xor}
use un_orion.Common.{
  ℕ, ◌/◌, ◌≤◌, ◌≡◌, ◌≢◌, inl, inr, refl, Bool, true, false, not, ◌||◌, Option, none, some, Bytes,
  take, length, length-take, u32, ltb, ◌==◌, if◌then◌else◌, Bool-cases, Run, done, arith,
}
use un_orion.Dhcp.{Lease, offer, ack, packet_min}
use un_orion.Dhcp.Packet.{build_discover, build_request}
use un_orion.Dhcp.Client.{
  Client, Setting, ip_nonzero, lease_overlay, idle, failure, after_ack, after_offer, built_bytes,
  array_of, acquire,
}
use un_orion.Dhcp.Client.Wait.{Expires, Waited, unfinished, got, wait-Waited}

-- Address, mask, gateway and name server are all there, and the last word was an ACK.
pub record IsComplete (lease : Lease) : Type 0 where
  pub address : ip_nonzero lease.ip ≡ true
  pub mask : lease.have_netmask ≡ true
  pub route : lease.have_gateway ≡ true
  pub names : lease.have_dns ≡ true
  pub acknowledged : lease.message_type ≡ ack

-- How an exchange ends for the caller's `lease`: the client is idle again, and `*lease` is as it was
-- or complete.
pub data Ended (lease : Lease) : Option (Bool × Option Lease × Client) → Type 0 where
  undecided : Ended lease none
  failed : (c : Client) → Ended lease (some (false, some lease, idle c))
  granted :
      (final : Lease) (c : Client)
      → IsComplete final
      → Ended lease (some (true, some final, idle c))

-- An outcome `r` of a later step: it is reached without a fault, it is one of the three ends, and it is
-- decided if `live` holds.
abbrev Ends : Lease → Type 0 → Run (Option (Bool × Option Lease × Client)) → Type 0
Ends lease live r =
    (out : Option (Bool × Option Lease × Client)) × (r ≡ done out)
    × Ended lease out
    × (live → out ≢ none)

fails-Ends : (lease : Lease) (live : Type 0) (c : Client) → Ends lease live (failure (some lease) c)
fails-Ends lease live c = (some (false, some lease, idle c), refl, failed c, λ h e. cc)

grant-Ends :
    (lease final : Lease) (live : Type 0) (c : Client)
    → final.message_type ≡ ack
    → Ends lease live (
        if not (ip_nonzero final.ip)
          || not final.have_netmask
          || not final.have_gateway
          || not final.have_dns
        then failure (some lease) c
        else done (some (true, some final, idle c)))
grant-Ends lease final live c h =
    elim (Bool-cases (
      not (ip_nonzero final.ip)
      || not final.have_netmask
      || not final.have_gateway
      || not final.have_dns)) [
        | inl short ↦ rw short (fails-Ends lease live c)
        | inr full ↦ rw full (
            (
              some (true, some final, idle c),
              refl,
              granted final c (record {
                address = ground arith;
                mask = ground arith;
                route = ground arith;
                names = ground arith;
                acknowledged = h;
              }),
              λ x e. cc,
            ))
      ]

after_ack-Ended :
    (lease offered : Lease) (mac : Bytes) (xid phase : ℕ) (r : Option (Bool × Client))
    → Waited mac xid phase ack r
    → Ends lease (r ≢ none) (after_ack lease offered r)
unfolding lease_overlay
after_ack-Ended lease offered mac xid phase none unfinished = (none, refl, undecided, λ h e. h refl)
after_ack-Ended lease offered mac xid phase (some (false, c)) w = fails-Ends lease _ c
after_ack-Ended lease offered mac xid phase _ (got c e f h) =
    grant-Ends lease (lease_overlay offered c.rx_lease) _ c h

after_offer-Ended :
    (e : Setting) (t : ℕ) (lease : Lease) (mac : Bytes) (xid phase : ℕ) (packet : Bytes)
    (r : Option (Bool × Client))
    → length mac ≡ 6
    → Waited mac xid phase offer r
    → Ends lease ((r ≢ none) × Expires e.ack_start t e.ack_rounds) (after_offer e t lease packet r)
after_offer-Ended e t lease mac xid phase packet none six unfinished =
    (none, refl, undecided, λ (h, x) e. h refl)
after_offer-Ended e t lease mac xid phase packet (some (false, c)) six w = fails-Ends lease _ c
after_offer-Ended e t lease mac xid phase packet _ six (got c em ex h) =
    let offered = c.rx_lease in
    let built =
      build_request (some packet) packet_min c.xid (some c.mac) (some offered.ip)
        (some offered.server) in
    let (r, now, w, live) =
      wait-Waited mac xid 2 ack six (inr (refl, refl)) e.frame (built_bytes built) t e.ack_start
        e.ack_rounds c em ex in
    let (out, later, f, keep) = after_ack-Ended lease offered mac xid 2 r w in
    elim (Bool-cases (not (ip_nonzero offered.ip) || not offered.have_server)) [
      | inl bad ↦ rw bad (fails-Ends lease _ c)
      | inr good ↦ elim (Bool-cases (built.0 == 0)) [
        | inl empty ↦ rw (good, empty) (fails-Ends lease _ c)
        | inr full ↦ (out, rw (good, full, now) later, f, λ (x, y). keep (live y))
      ]
    ]

returned :
    {r : Run (Option (Bool × Option Lease × Client))} (out : Option (Bool × Option Lease × Client))
    → out ≢ none
    → r ≡ done out
    → (x : Bool × Option Lease × Client) × (r ≡ done (some x))
returned none h e = elim (h refl) [ ]
returned (some x) h e = (x, e)

abbrev phase_timeout : ℕ → ℕ
phase_timeout timeout_ms = (if ltb timeout_ms 1000 then 1000 else timeout_ms) / 2

acquire-Ends :
    (e : Setting) (mac : Bytes) (timeout_ms : ℕ) (lease : Lease) (c : Client)
    → 6 ≤ length mac
    → Ends lease
        (Expires e.offer_start (phase_timeout timeout_ms) e.offer_rounds
          × Expires e.ack_start (phase_timeout timeout_ms) e.ack_rounds)
        (acquire e (some mac) timeout_ms (some lease) c)
unfolding acquire
acquire-Ends e mac timeout_ms lease c0 long =
    let t = phase_timeout timeout_ms in
    let mixed = bit_xor 0x4f520000 (u32 e.ticks) in
    let xid = if mixed == 0 then 0x4f52494f else mixed in
    let c = record c0 { mac = take 6 mac; xid = xid } in
    let six : length (take 6 mac) ≡ 6 = omega (arith, length-take 6 mac) in
    let built = build_discover (some e.packet) packet_min xid (some (take 6 mac)) in
    let (r, now, w, live) =
      wait-Waited (take 6 mac) xid 1 offer six (inl (refl, refl)) e.frame (built_bytes built) t
        e.offer_start e.offer_rounds c refl refl in
    let (out, later, f, keep) =
      after_offer-Ended e t lease (take 6 mac) xid 1 (array_of built) r six w in
    elim (Bool-cases (built.0 == 0)) [
      | inl empty ↦ rw empty (let (o, a, b, l) = fails-Ends lease Unit c in (o, a, b, λ x. l tt))
      | inr full ↦ (out, rw (full, now) later, f, λ (x, y). keep (live x, y))
    ]

-- For an address of at least six bytes, `dhcp_acquire` never faults, and where it returns it leaves
-- `*lease` as it was, or puts there an acknowledged lease with address, mask, gateway and name server;
-- the client is idle either way.
pub acquire-Ended :
    (e : Setting) (mac : Bytes) (timeout_ms : ℕ) (lease : Lease) (c : Client)
    → 6 ≤ length mac
    → (out : Option (Bool × Option Lease × Client)) × (acquire e
          (some mac)
          timeout_ms
          (some lease)
          c
        ≡ done out)
      × Ended lease out
acquire-Ended e mac timeout_ms lease c long =
    let (out, now, h, live) = acquire-Ends e mac timeout_ms lease c long in (out, now, h)

-- For an address of at least six bytes, `dhcp_acquire` returns, whatever frames come, if the clock
-- reaches half of the timeout (of 1000 ms at the least) in the rounds of each wait.
pub acquire_returns :
    (e : Setting) (mac : Bytes) (timeout_ms : ℕ) (lease : Lease) (c : Client)
    → 6 ≤ length mac
    → Expires e.offer_start (phase_timeout timeout_ms) e.offer_rounds
    → Expires e.ack_start (phase_timeout timeout_ms) e.ack_rounds
    → (r : Bool × Option Lease × Client) × (acquire e (some mac) timeout_ms (some lease) c
        ≡ done (some r))
acquire_returns e mac timeout_ms lease c long x y =
    let (out, now, h, live) = acquire-Ends e mac timeout_ms lease c long in
    returned out (live (x, y)) now
