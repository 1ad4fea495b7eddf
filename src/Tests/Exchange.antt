-- ===== src/Tests/Exchange.antt =====
-- A whole exchange of kernel/dhcp.c with a server that answers in the first round of each wait.
use un_orion.Common.{
  ◌^◌, ℕ, ◌+◌, ◌/◌, ◌%◌, ◌&&◌, ◌≡◌, refl, inl, inr, Bool, true, false, Option, some, pos, [], ◌∷◌,
  ◌++◌, Bytes, replicate, length, Run, done, arith, read, read_block, if◌then◌else◌,
}
use un_orion.Dhcp.{Lease, zero_lease}
use un_orion.Dhcp.Reply.{
  parse_reply, be32, parse_options, header_matches, parse_body, apply_option, equal_block, get32,
}
use un_orion.Dhcp.Packet.{
  build_discover, build_request, base, base_fields, finish, copy, put_all, put16, put32, clear,
  request_fields,
}
use un_orion.Dhcp.Client.{
  checksum16, Client, Round, Setting, acquire, rx, rx_reply, wait, wait_loop, send_broadcast, poll,
  rx_udp, get16, lease_overlay, ip_nonzero,
}
use un_orion.Dhcp.Client.Checksum.{checksum16-verifies}
use un_orion.Dhcp.Client.Receive.{is_datagram, is_from_server, reply_in, payload, rx-exact}
use un_orion.Dhcp.Client.Acquire.{Ended, acquire-Ended, acquire_returns}

abbrev mac : Bytes
mac = 0x52 ∷ 0x54 ∷ 0 ∷ 0x12 ∷ 0x34 ∷ 0x56 ∷ []

abbrev xid : ℕ
xid = 0x4f520005

-- A server's frame around the DHCP message `bootp`.
abbrev frame_of : Bytes → Bytes
frame_of bootp =
    replicate 12 255
    ++ 8 ∷ 0 ∷ 0x45 ∷ 0 ∷ (28 + length bootp) / 256 ∷ (28 + length bootp) % 256 ∷ replicate 5 0
    ++ 17 ∷ replicate 10 0
    ++ 0 ∷ 67 ∷ 0 ∷ 68 ∷ (8 + length bootp) / 256 ∷ (8 + length bootp) % 256 ∷ 0 ∷ 0 ∷ bootp

abbrev message : ℕ → Bytes
message kind =
    2 ∷ 1 ∷ 6 ∷ 0 ∷ 0x4f ∷ 0x52 ∷ 0 ∷ 5 ∷ replicate 8 0
    ++ 10 ∷ 0 ∷ 2 ∷ 15 ∷ replicate 8 0
    ++ mac
    ++ replicate 202 0
    ++ 0x63 ∷ 0x82 ∷ 0x53 ∷ 0x63 ∷ 53 ∷ 1 ∷ kind ∷ 1 ∷ 4 ∷ 255 ∷ 255 ∷ 255 ∷ 0 ∷ 3 ∷ 4 ∷ 10 ∷ 0 ∷ 2
      ∷ 2 ∷ 6 ∷ 4 ∷ 10 ∷ 0 ∷ 2 ∷ 3 ∷ 54 ∷ 4 ∷ 10 ∷ 0 ∷ 2 ∷ 2 ∷ 255 ∷ []

abbrev client : Client
client = record {
  phase = 0;
  event = pos 0;
  xid = 0;
  mac = [];
  rx_lease = zero_lease;
  ip_id = 0x4000;
  sent = [];
}

abbrev waiting : Client
waiting = record client { phase = 1; xid = xid; mac = mac }

abbrev late : Round
late = record { test_ms = 600; now_ms = 600; frames = [] }

abbrev setting : Setting
setting = record {
  ticks = 5;
  offer_start = 0;
  offer_rounds = record { test_ms = 1; now_ms = 2; frames = frame_of (message 2) ∷ [] } ∷ late ∷ [];
  ack_start = 10;
  ack_rounds = record { test_ms = 11; now_ms = 12; frames = frame_of (message 5) ∷ [] } ∷ late ∷ [];
  packet = replicate 300 0;
  frame = replicate 700 0;
}

rx-exact_example :
    rx waiting (frame_of (message 2))
    ≡ done (
        if is_datagram (frame_of (message 2)) && is_from_server (frame_of (message 2))
        then rx_reply waiting (reply_in waiting (payload (frame_of (message 2))))
        else waiting)
rx-exact_example = rx-exact waiting refl (frame_of (message 2))

acquire-Ended_example :
    (out : Option (Bool × Option Lease × Client)) × (acquire setting
        (some mac)
        1000
        (some zero_lease)
        client
      ≡ done out)
    × Ended zero_lease out
acquire-Ended_example = acquire-Ended setting mac 1000 zero_lease client (omega arith)

acquire_returns_example :
    (r : Bool × Option Lease × Client) × (acquire setting (some mac) 1000 (some zero_lease) client
      ≡ done (some r))
acquire_returns_example =
    acquire_returns setting mac 1000 zero_lease client (omega arith) (inr (inl refl))
      (inr (inl refl))

abbrev outcome : Run (Option (Bool × Option Lease × Client)) → Bool × Bytes × Bytes × ℕ
outcome (done (some (ok, some lease, c))) = (ok, lease.ip, lease.dns, length c.sent)
outcome r = (false, [], [], 0)

-- The lease of the ACK, after one DISCOVER and one REQUEST.
acquired :
    outcome (acquire setting (some mac) 1000 (some zero_lease) client)
    ≡ (true, 10 ∷ 0 ∷ 2 ∷ 15 ∷ [], 10 ∷ 0 ∷ 2 ∷ 3 ∷ [], 2)
unfolding acquire wait wait_loop send_broadcast poll rx rx_udp get16 lease_overlay ip_nonzero read
    read_block parse_reply be32 parse_options header_matches parse_body apply_option equal_block
    get32 build_discover build_request base base_fields finish copy put_all put16 put32 clear
    request_fields
acquired = refl

-- Eight bytes as in an IPv4 header.
abbrev words : Bytes
words = 0x45 ∷ 0 ∷ 1 ∷ 0x48 ∷ 0xff ∷ 0xff ∷ 0xff ∷ 0xff ∷ []

checksum16-verifies_example :
    checksum16 (words ++ checksum16 words / 2 ^ 8 ∷ checksum16 words % 2 ^ 8 ∷ []) ≡ 0
checksum16-verifies_example =
    checksum16-verifies words
      (
        omega arith,
        (
          omega arith,
          (
            omega arith,
            (omega arith, (omega arith, (omega arith, (omega arith, (omega arith, tt))))),
          ),
        ),
      )
      refl (omega arith)
