-- ===== src/Tests/Faults.antt =====
-- Frames that kernel/net.c reads outside of, loses or does not answer.
use un_orion.Common.{
  ℕ, ◌+◌, ◌≡◌, refl, Option, none, some, [], ◌∷◌, ◌++◌, Bytes, codes, length, take, replicate, Run,
  done, fault, read, read_block,
}
use un_orion.Dhcp.Reply.{be32, get32}
use un_orion.Dhcp.Client.{get16, sum16, fold_carry, checksum16}
use un_orion.Net.State.{
  Device, Net, same_net, same_subnet, make_ipv4, tcp_checksum, tcp_segment, eth_tx,
  send_arp_request, send_arp_reply,
}
use un_orion.Net.Stack.{
  resolve_loop, resolve_next_hop, send_ip_packet, send_tcp, handle_arp, handle_icmp, take_segment,
  handle_tcp,
}
use un_orion.Net.Stack.Receive.{handle_ip, handle_frame, rx_dispatch, dispatch_all, net_poll}
use un_orion.Tests.Network.{World, wire, host, first_segment}

-- More than 1480 bytes do not fit into the packet.
too_long_faults : send_tcp wire done 0 0x18 (replicate 1481 0) host ≡ fault
unfolding send_tcp
too_long_faults = refl

-- An IP packet for ICMP whose total length does not cover its header of 20 bytes.
abbrev short_frame : Bytes
short_frame =
    replicate 12 0
    ++ 8 ∷ 0 ∷ 0x45 ∷ 0 ∷ 0 ∷ 0 ∷ replicate 4 0
    ++ 64 ∷ 1 ∷ 0 ∷ 0 ∷ 10 ∷ 0 ∷ 2 ∷ 2 ∷ 10 ∷ 0 ∷ 2 ∷ 15 ∷ 8 ∷ 0 ∷ replicate 6 0

short_total_faults : handle_frame wire done 0 short_frame host ≡ fault
unfolding handle_frame handle_ip handle_icmp get16 read read_block
short_total_faults = refl

-- What is kept and what is acknowledged.
abbrev kept : {W : Type 0} → Run (Net W) → Option (Bytes × ℕ)
kept (done n) = some (n.tcp_out, n.tcp_rcv_nxt)
kept r = none

-- Two bytes for a buffer of one are acknowledged, and the second is lost.
acknowledged_and_lost :
    kept (
      handle_tcp wire done 0 first_segment
        (length first_segment)
        (take 4 host.tcp_peer_ip)
        (record host { tcp_out_cap = 1 }))
    ≡ some (codes "a", 1003)
unfolding handle_tcp take_segment send_tcp send_ip_packet resolve_next_hop same_subnet same_net
    make_ipv4 tcp_segment tcp_checksum eth_tx sum16 fold_carry checksum16 get16 get32 be32 read
    read_block
acknowledged_and_lost = refl

-- A driver whose clock goes on by a second with each reading.
abbrev slow_wire : Device World
slow_wire = record wire { now_ms = λ w. (w.1, (w.0, w.1 + 1000, w.2)) }

-- The ARP reply of the name server.
abbrev dns_reply : Bytes
dns_reply =
    host.mac
    ++ replicate 6 3
    ++ 8 ∷ 6 ∷ 0 ∷ 1 ∷ 8 ∷ 0 ∷ 6 ∷ 4 ∷ 0 ∷ 2 ∷ replicate 6 3
    ++ 10 ∷ 0 ∷ 2 ∷ 3 ∷ host.mac
    ++ host.ip_addr

abbrev hop : {W : Type 0} → Run (Option Bytes × Net W) → Option (Option Bytes × ℕ)
hop (done (h, n)) = some (h, n.rx_count)
hop r = none

-- The name server answers, and is not found.
dns_unreachable :
    hop (
      resolve_next_hop slow_wire
        (net_poll slow_wire 9)
        9
        host.dns_ip
        (record host { world = (dns_reply ∷ [], 0, []) }))
    ≡ some (none, 1)
unfolding resolve_next_hop resolve_loop same_subnet same_net send_arp_request net_poll dispatch_all
    rx_dispatch handle_frame handle_arp send_arp_reply eth_tx get16 read read_block
dns_unreachable = refl
