-- ===== src/Net/Stack/Send.antt =====
-- kernel/net.c: sending to a peer behind the gateway once its hardware address is known.
use un_orion.Common.{
  ℕ, ◌+◌, ◌-◌, ◌≤◌, ◌≡◌, Bool, true, false, ◌++◌, Bytes, length, ltb, Run, done, arith,
}
use un_orion.Net.State.{Device, Net, next_hop, eth_header, make_ipv4, tcp_segment, eth_tx}
use un_orion.Net.Stack.{known_hop, after_segment, resolve_next_hop, send_ip_packet, send_tcp}

module _ {W : Type 0} where
  -- `dest` is reached through the gateway, whose hardware address is known.
  abbrev pub is_linked : Bytes → Net W → Bool
  is_linked dest n = known_hop (next_hop n dest) n

  module _ (device : Device W) where
    -- The state once the frame is out.
    abbrev pub ip_sent : ℕ → Bytes → Bytes → Net W → Net W
    ip_sent proto dest payload n =
        let (header, n') = make_ipv4 n proto dest (length payload) in
        eth_tx device (eth_header n n.gateway_mac 0x0800 ++ header ++ payload) n'

    abbrev pub tcp_sent : ℕ → Bytes → Net W → Net W
    tcp_sent flags body n =
        let n' = ip_sent 6 n.tcp_peer_ip (tcp_segment n flags body) n in
        record n' { tcp_snd_nxt = after_segment flags body n'.tcp_snd_nxt }

pub length-tcp_segment :
    {W : Type 0} (n : Net W) (flags : ℕ) (body : Bytes)
    → length (tcp_segment n flags body) ≡ 20 + length body
unfolding tcp_segment
length-tcp_segment n flags body = omega arith

module _ {W : Type 0} (device : Device W) (poll : Net W → Run (Net W)) where
  pub send_ip_packet-linked :
      (fuel proto : ℕ) (dest payload : Bytes) (n : Net W)
      → is_linked dest n ≡ true
      → length payload ≤ 1480
      → send_ip_packet device poll fuel proto dest payload n
        ≡ done (ip_sent device proto dest payload n)
  unfolding send_ip_packet resolve_next_hop make_ipv4
  send_ip_packet-linked fuel proto dest payload n h l =
      let e : ltb (1500 - 20) (length payload) ≡ false = ground arith in rw (e, h)

  pub send_tcp-linked :
      (fuel flags : ℕ) (body : Bytes) (n : Net W)
      → is_linked n.tcp_peer_ip n ≡ true
      → length body ≤ 1460
      → send_tcp device poll fuel flags body n ≡ done (tcp_sent device flags body n)
  unfolding send_tcp
  send_tcp-linked fuel flags body n h l =
      let room : ltb (1500 - 20) (length body) ≡ false = ground arith in
      rw (
        room,
        send_ip_packet-linked fuel 6 n.tcp_peer_ip (tcp_segment n flags body) n h
            (omega (arith, length-tcp_segment n flags body)),
      )
