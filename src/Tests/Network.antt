-- ===== src/Tests/Network.antt =====
-- Frames and segments, for kernel/net.c.
use un_orion.Common.{
  ℕ, zero, suc, ◌+◌, ◌-◌, ◌≤◌, ◌≡◌, refl, true, false, Option, none, some, pos, List, [], ◌∷◌, ◌++◌,
  Bytes, byte, codes, length, take, drop, replicate, arith, u32, Run, done, Always, read,
  read_block,
}
use un_orion.Dhcp.Reply.{be32, get32}
use un_orion.Dhcp.Reply.Safety.{word_at}
use un_orion.Dhcp.Client.{get16, sum16, fold_carry, checksum16}
use un_orion.Net.State.{
  Device, Net, same_net, same_subnet, make_ipv4, tcp_checksum, tcp_segment, eth_tx, send_arp_reply,
}
use un_orion.Net.Stack.{
  resolve_next_hop, send_ip_packet, send_tcp, handle_arp, take_segment, handle_tcp,
}
use un_orion.Net.Stack.Receive.{handle_frame, rx_dispatch, dispatch_all, net_poll}
use un_orion.Net.Stack.Send.{tcp_sent, is_linked}
use un_orion.Net.Stack.Stream.{IsPiece}
use un_orion.Net.Stack.Poll.{is_sized, net_poll-Fits}
use un_orion.Net.Session.{Session, begins, arrives, header_length}
use un_orion.Net.Session.Prefix.{Session-prefix}
use un_orion.Net.Delivery.{joined, logged, none_left, fits, send_all, deliver, deliver-segments}

-- A driver with the frames that come, a clock that runs on with each reading, and what is sent.
abbrev pub World : Type 0
World = List Bytes × ℕ × List Bytes

abbrev take_frame : World → Option Bytes × World
take_frame ([], t, sent) = (none, ([], t, sent))
take_frame (f ∷ fs, t, sent) = (some f, (fs, t, sent))

abbrev pub wire : Device World
wire = record {
  start = λ w. (none, w);
  transmit = λ f w. (true, (w.0, w.1, f ∷ w.2));
  next_frame = take_frame;
  now_ms = λ w. (w.1, (w.0, w.1 + 1, w.2));
  timer_ticks = λ w. w.1;
}

abbrev gateway_mac : Bytes
gateway_mac = 0x52 ∷ 0x55 ∷ 10 ∷ 0 ∷ 2 ∷ 2 ∷ []

-- The static variables, once the gateway's address is known, with a connection from port 49152 to port 80.
abbrev host_with : {W : Type 0} → ℕ → ℕ → W → Net W
host_with local_port peer_port w = record {
  mac = 0x52 ∷ 0x54 ∷ 0 ∷ 0x12 ∷ 0x34 ∷ 0x56 ∷ [];
  ip_addr = 10 ∷ 0 ∷ 2 ∷ 15 ∷ [];
  netmask = 255 ∷ 255 ∷ 255 ∷ 0 ∷ [];
  gateway = 10 ∷ 0 ∷ 2 ∷ 2 ∷ [];
  dns_ip = 10 ∷ 0 ∷ 2 ∷ 3 ∷ [];
  gateway_mac = gateway_mac;
  gateway_mac_valid = true;
  ready = true;
  rx_count = 0;
  tx_count = 0;
  ip_id = 1;
  next_src_port = 49153;
  icmp_reply = false;
  icmp_ident = 0x4f52;
  icmp_seq = 0;
  dns_done = pos 0;
  dns_id = 0;
  dns_port = 0;
  dns_answer = replicate 4 0;
  tcp_event = pos 2;
  tcp_peer_ip = 93 ∷ 184 ∷ 216 ∷ 34 ∷ [];
  tcp_local_port = local_port;
  tcp_peer_port = peer_port;
  tcp_iss = 1000;
  tcp_snd_nxt = 1001;
  tcp_snd_una = 1001;
  tcp_rcv_nxt = 1001;
  tcp_out = [];
  tcp_out_cap = 32768;
  world = w;
}

abbrev pub host : Net World
host = host_with 49152 80 ([], 0, [])

-- The other side, whose own address is the peer's.
abbrev server_with : {W : Type 0} → W → Net W
server_with w = record (host_with 80 49152 w) {
  ip_addr = 93 ∷ 184 ∷ 216 ∷ 34 ∷ [];
  gateway = 93 ∷ 184 ∷ 216 ∷ 1 ∷ [];
  tcp_peer_ip = 10 ∷ 0 ∷ 2 ∷ 15 ∷ [];
}

abbrev server : Net ℕ
server = server_with 0

abbrev sender : Net (List Bytes × World)
sender = server_with ([], ([], 0, []))

linked : is_linked host.tcp_peer_ip host ≡ true
unfolding same_subnet same_net
linked = refl

sender_linked : is_linked sender.tcp_peer_ip sender ≡ true
unfolding same_subnet same_net
sender_linked = refl

abbrev two_parts : List Bytes
two_parts = codes "ab" ∷ codes "c" ∷ []

deliver-segments_example :
    (peer' : Net (List Bytes × World)) × (frames : List Bytes) × (n' : Net World) × (send_all
        (logged wire)
        done
        0
        two_parts
        sender
      ≡ done peer')
    × (peer'.world.0 ≡ [] ++ frames)
    × (deliver wire done 0 frames host ≡ done n')
    × (n'.tcp_out ≡ [] ++ joined two_parts)
    × (n'.tcp_rcv_nxt ≡ u32 (1001 + length (joined two_parts)))
deliver-segments_example =
    deliver-segments wire done wire done 0 two_parts sender host (λ f v. refl)
      (fits (codes "ab") (codes "c" ∷ []) (omega arith)
        (fits (codes "c") [] (omega arith) none_left))
      (record {
        up = refl;
        linked = sender_linked;
        whole = record {
          mac = omega arith;
          gateway_mac = omega arith;
          ip_addr = omega arith;
          tcp_peer_ip = omega arith;
        };
      })
      (record {
        linked = linked;
        settled = refl;
        room = omega arith;
        from_port = refl;
        to_port = refl;
        from_ip = refl;
        to_ip = refl;
        from_small = omega arith;
        to_small = omega arith;
        next = refl;
        next_small = omega arith;
      })

-- The segment with the peer's first two bytes, and the state after it.
abbrev pub first_segment : Bytes
first_segment = tcp_segment server 0x18 (codes "ab")

abbrev after_first : Net World
after_first =
    record (tcp_sent wire 0x10 [] (record host { tcp_out = codes "ab"; tcp_rcv_nxt = 1003 })) {
      tcp_event = pos 3;
    }

first_arrives :
    handle_tcp wire done 0 first_segment (length first_segment) (take 4 host.tcp_peer_ip) host
    ≡ done after_first
unfolding handle_tcp take_segment send_tcp send_ip_packet resolve_next_hop same_subnet same_net
    make_ipv4 tcp_segment tcp_checksum eth_tx sum16 fold_carry checksum16 get16 get32 be32 read
    read_block
first_arrives = refl

first-IsPiece :
    IsPiece
      (codes "abc")
      1001
      (word_at first_segment 4)
      (byte first_segment 13)
      (length first_segment - header_length first_segment)
      (drop (header_length first_segment) first_segment)
unfolding tcp_segment be32
first-IsPiece = record {
  offset = 0;
  number = refl;
  inside = omega arith;
  bytes = refl;
  last = refl;
}

first_room : length first_segment - header_length first_segment ≤ 32768 - 0
unfolding tcp_segment
first_room = omega arith

session : Session wire done (codes "abc") 1001 host [] after_first
session =
    arrives 0 first_segment (take 4 host.tcp_peer_ip) [] host after_first begins
      (λ y. first-IsPiece) first_room first_arrives

Session-prefix_example :
    (k : ℕ) × ([] ++ after_first.tcp_out ≡ take k (codes "abc"))
    × (k ≤ suc 3)
    × (after_first.tcp_rcv_nxt ≡ u32 (1001 + k))
Session-prefix_example =
    Session-prefix wire done (codes "abc") 1001 host [] after_first (omega arith) refl refl linked
      refl session

-- An ARP request of the gateway for this host.
abbrev arp_frame : Bytes
arp_frame =
    replicate 6 255
    ++ gateway_mac
    ++ 8 ∷ 6 ∷ 0 ∷ 1 ∷ 8 ∷ 0 ∷ 6 ∷ 4 ∷ 0 ∷ 1 ∷ gateway_mac
    ++ 10 ∷ 0 ∷ 2 ∷ 2 ∷ replicate 6 0
    ++ 10 ∷ 0 ∷ 2 ∷ 15 ∷ []

-- A driver that has this frame as often as its state says.
abbrev take_arp : ℕ → Option Bytes × ℕ
take_arp zero = (none, zero)
take_arp (suc w) = (some arp_frame, w)

abbrev arp_wire : Device ℕ
arp_wire = record {
  start = λ w. (none, w);
  transmit = λ f w. (true, w);
  next_frame = take_arp;
  now_ms = λ w. (w, w);
  timer_ticks = λ w. w;
}

arp_is_sized : is_sized arp_frame ≡ true
unfolding is_sized
arp_is_sized = refl

arp_all_sized : (w : ℕ) (f : Bytes) → (take_arp w).0 ≡ some f → is_sized f ≡ true
arp_all_sized zero f e = absurd cc
arp_all_sized (suc w) f e = let same : arp_frame ≡ f = cc in rw same at arp_is_sized

net_poll-Fits_example :
    Always (λ n'. length n'.tcp_out ≤ n'.tcp_out_cap) (net_poll arp_wire 9 (host_with 49152 80 3))
net_poll-Fits_example = net_poll-Fits arp_wire 9 (host_with 49152 80 3) arp_all_sized (omega arith)

-- The counters of a poll that returns.
abbrev counts : {W : Type 0} → Run (Net W) → Option (ℕ × ℕ)
counts (done n) = some (n.rx_count, n.tx_count)
counts r = none

-- Three requests are answered.
answered : counts (net_poll arp_wire 9 (host_with 49152 80 3)) ≡ some (3, 3)
unfolding net_poll dispatch_all rx_dispatch handle_frame handle_arp send_arp_reply eth_tx get16 read
    read_block
answered = refl
