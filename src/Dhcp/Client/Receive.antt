-- ===== src/Dhcp/Client/Receive.antt =====
-- kernel/dhcp.c: `dhcp_rx` on frames as they come from the network.
use un_orion.Common.{
  ℕ, ◌+◌, ◌-◌, ◌*◌, ◌/◌, ◌%◌, ◌^◌, ◌≤◌, ◌≡◌, ◌⊎◌, inl, inr, refl, ap, Bool, true, false, not, ◌&&◌,
  ◌||◌, Option, none, some, pos, minus_one, Bytes, byte, take, drop, length, u16, ltb, leb, ◌==◌,
  if◌then◌else◌, Bool-cases, done, read-eq-done, arith,
}
use un_orion.Dhcp.{Lease, zero_lease, offer, ack}
use un_orion.Dhcp.Reply.Safety.{is_reply_to, body_result, parse_reply-exact}
use un_orion.Dhcp.Client.{Client, get16, rx_reply, rx_udp, rx}

-- The 16-bit number in the two bytes from `i` on.
abbrev pub half_at : Bytes → ℕ → ℕ
half_at p i = u16 (byte p i * 2 ^ 8 + byte p (i + 1))

get16-eq-done : (p : Bytes) (i : ℕ) → i + 2 ≤ length p → get16 p i ≡ done (half_at p i)
unfolding get16
get16-eq-done p i h = rw (read-eq-done p i (omega arith), read-eq-done p (i + 1) (omega arith))

done-if {ℓ} :
    {A : Type ℓ} (b : Bool) (x y : A) → (if b then done x else done y) ≡ done (if b then x else y)
done-if true x y = refl
done-if false x y = refl

-- The reply in the payload, as far as it is one to this client.
abbrev pub reply_in : Client → Bytes → Bool × Option Lease
reply_in c p =
    if is_reply_to p c.xid c.mac
    then ((body_result p).0, some (body_result p).1)
    else (false, some zero_lease)

module _ (c : Client) (m : length c.mac ≡ 6) (frame : Bytes) where
  -- What `dhcp_rx` does with a datagram that has room for a UDP header.
  rx_udp-done :
      (udp avail : ℕ)
      → 8 ≤ avail
      → udp + avail ≤ length frame
      → rx_udp c frame udp avail
        ≡ done (
            if not (half_at frame udp == 67) || not (half_at frame (udp + 2) == 68)
            then c
            else if ltb (half_at frame (udp + 4)) 8 || ltb avail (half_at frame (udp + 4))
            then c
            else rx_reply c
                (reply_in c (take (half_at frame (udp + 4) - 8) (drop (udp + 8) frame))))
  unfolding rx_udp
  rx_udp-done udp avail h k = rw (
    get16-eq-done frame (udp + 4) (omega arith),
    get16-eq-done frame udp (omega arith),
    get16-eq-done frame (udp + 2) (omega arith),
    parse_reply-exact (take (half_at frame (udp + 4) - 8) (drop (udp + 8) frame)) c.xid c.mac
        zero_lease m,
    done-if,
    done-if,
  )

-- The fields of an IPv4 datagram behind an Ethernet header.
abbrev pub header_length : Bytes → ℕ
header_length frame = byte frame 14 % 16 * 4

abbrev pub total_length : Bytes → ℕ
total_length frame = half_at frame 16

abbrev pub udp_at : Bytes → ℕ
udp_at frame = 14 + header_length frame

abbrev pub udp_length : Bytes → ℕ
udp_length frame = half_at frame (udp_at frame + 4)

abbrev pub payload : Bytes → Bytes
payload frame = take (udp_length frame - 8) (drop (udp_at frame + 8) frame)

-- An Ethernet frame with a whole UDP datagram over IPv4, from a DHCP server's port to a client's.
unfoldable pub is_datagram : Bytes → Bool
is_datagram frame =
    leb 42 (length frame)
    && half_at frame 12 == 0x0800
    && byte frame 14 / 16 == 4
    && byte frame 23 == 17
    && leb 20 (header_length frame)
    && leb (header_length frame + 8) (total_length frame)
    && leb (14 + total_length frame) (length frame)

unfoldable pub is_from_server : Bytes → Bool
is_from_server frame =
    half_at frame (udp_at frame) == 67
    && half_at frame (udp_at frame + 2) == 68
    && leb 8 (udp_length frame)
    && leb (header_length frame + udp_length frame) (total_length frame)

udp_tests :
    (sport dport len ihl total : ℕ) (c c' : Client)
    → ihl + 8 ≤ total
    → (if not (sport == 67) || not (dport == 68)
        then c
        else if ltb len 8 || ltb (total - ihl) len
        then c
        else c')
      ≡ (if sport == 67 && dport == 68 && leb 8 len && leb (ihl + len) total then c' else c)
udp_tests sport dport len ihl total c c' h = ground arith

datagram_bounds :
    (frame : Bytes)
    → is_datagram frame ≡ true
    → (header_length frame + 8 ≤ total_length frame) × (14 + total_length frame ≤ length frame)
unfolding is_datagram
datagram_bounds frame h = ground arith

module _ (c : Client) (m : length c.mac ≡ 6) (frame : Bytes) where
  rx-rx_udp : rx c frame ≡ (
      if is_datagram frame
      then rx_udp c frame (udp_at frame) (total_length frame - header_length frame)
      else done c)
  unfolding rx is_datagram
  rx-rx_udp = elim (Bool-cases (ltb (length frame) 42)) [
    | inl short ↦ ground arith
    | inr enough ↦
        rw
          (
            enough,
            get16-eq-done frame 12 (ground arith),
            read-eq-done frame 14 (ground arith),
            read-eq-done frame 23 (ground arith),
            get16-eq-done frame 16 (ground arith),
          )
          (ground arith)
  ]

  -- For every frame, `dhcp_rx` reads only inside it and changes the client only by the reply in the
  -- payload of a whole UDP datagram from a DHCP server's port to a client's.
  pub rx-exact :
      rx c frame
      ≡ done (
          if is_datagram frame && is_from_server frame
          then rx_reply c (reply_in c (payload frame))
          else c)
  unfolding is_from_server
  rx-exact = elim (Bool-cases (is_datagram frame)) [
    | inl whole ↦
        let (lo, hi) = datagram_bounds frame whole in
        rw
          (
            rx-rx_udp,
            whole,
            rx_udp-done c m frame (udp_at frame) (total_length frame - header_length frame)
                (omega arith) (omega arith),
          )
          (ap done (
            udp_tests (half_at frame (udp_at frame)) (half_at frame (udp_at frame + 2))
              (udp_length frame) (header_length frame) (total_length frame) c
              (rx_reply c (reply_in c (payload frame))) lo))
    | inr other ↦ rw (rx-rx_udp, other)
  ]

-- What a received reply can change: `rx_lease` and `event`, and these two together.
pub record Received (c c' : Client) : Type 0 where
  pub xid : c'.xid ≡ c.xid
  pub mac : c'.mac ≡ c.mac
  pub phase : c'.phase ≡ c.phase
  pub ip_id : c'.ip_id ≡ c.ip_id
  pub sent : c'.sent ≡ c.sent
  pub outcome :
      ((c'.event ≡ c.event) × (c'.rx_lease ≡ c.rx_lease))
      ⊎ ((c'.event ≡ minus_one) × (c'.rx_lease ≡ c.rx_lease))
      ⊎ ((c.phase ≡ 1) × (c'.event ≡ pos offer) × (c'.rx_lease.message_type ≡ offer))
      ⊎ ((c.phase ≡ 2) × (c'.event ≡ pos ack) × (c'.rx_lease.message_type ≡ ack))

rx_reply-Received : (c : Client) (r : Bool × Option Lease) → Received c (rx_reply c r)
rx_reply-Received c (ok, none) = ground arith
rx_reply-Received c (ok, some reply) = ground arith

pub rx-Received :
    (c : Client) (frame : Bytes)
    → length c.mac ≡ 6
    → (c' : Client) × (rx c frame ≡ done c') × Received c c'
rx-Received c frame m = elim (Bool-cases (is_datagram frame && is_from_server frame)) [
  | inl reply ↦ (
    rx_reply c (reply_in c (payload frame)),
    rw (rx-exact c m frame, reply),
    rx_reply-Received c (reply_in c (payload frame)),
  )
  | inr other ↦ (c, rw (rx-exact c m frame, other), ground arith)
]
