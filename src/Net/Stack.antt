-- ===== src/Net/Stack.antt =====
-- kernel/net.c: sending, and the handlers of ARP, ICMP and TCP. `poll` is `net_poll`, which a sender
-- calls while it waits for a hardware address; `fuel` bounds that wait. A handler's `len` is the length
-- that the code passes; the bytes of the packet are `p`, and a read outside of them is a fault, and so is a write outside of `p` in
-- `send_tcp`.
pub mod Receive
pub mod Safety
pub mod Poll
pub mod Send
pub mod Stream
pub mod Frame
use Prim.Native.Nat.{bit_or}
use un_orion.Common.{
  ℕ, zero, suc, ◌+◌, ◌-◌, ◌*◌, ◌/◌, ◌%◌, ◌^◌, bit_and, min, Bool, true, false, not, ◌&&◌, ◌||◌,
  Option, none, some, ℤ, pos, negsuc, minus_one, List, [], ◌∷◌, ◌++◌, Bytes, byte, take, drop,
  replicate, length, u8, u16, u32, u64, same_bytes, ltb, leb, ◌==◌, if◌then◌else◌, Run, done, fault,
  out_of_fuel, ◌>>=◌, read, read_block,
}
use un_orion.Dhcp.Reply.{get32}
use un_orion.Dhcp.Client.{get16, checksum16, never}
use un_orion.Net.State.{
  Device, Net, bytes16, next_hop, eth_header, make_ipv4, tcp_segment, eth_tx, send_arp_request,
  send_arp_reply,
}

abbrev pub is_event : ℤ → ℕ → Bool
is_event (pos e) k = e == k
is_event (negsuc _) k = false

-- The sequence number after a segment: SYN and FIN count one each.
abbrev pub after_segment : ℕ → Bytes → ℕ → ℕ
after_segment flags body snd_nxt =
    let a = if bit_and flags 0x02 == 0 then snd_nxt else u32 (snd_nxt + 1) in
    let b = if bit_and flags 0x01 == 0 then a else u32 (a + 1) in u32 (b + length body)

-- The echo reply from the copy `r` of the request.
abbrev pub echo_reply : Bytes → Bytes
echo_reply r =
    let check = checksum16 (0 ∷ byte r 1 ∷ 0 ∷ 0 ∷ drop 4 r) in
    0 ∷ byte r 1 ∷ bytes16 check ++ drop 4 r

module _ {W : Type 0} where
  abbrev pub known_hop : Bytes → Net W → Bool
  known_hop target n = same_bytes (take 4 target) (take 4 n.gateway) && n.gateway_mac_valid

  module _ (device : Device W) where
    unfoldable pub handle_arp : Bytes → Net W → Run (Net W)
    handle_arp p n = if ltb (length p) 28 then done n else do
      hardware ← get16 p 0
      protocol ← get16 p 2
      hlen ← read p 4
      plen ← read p 5
      op ← get16 p 6
      sm ← read_block p 8 6
      sip ← read_block p 14 4
      tip ← read_block p 24 4
      let n' =
          if same_bytes sip (take 4 n.gateway)
          then record n { gateway_mac = sm; gateway_mac_valid = true }
          else n
      if not (hardware == 1) || not (protocol == 0x0800) || not (hlen == 6) || not (plen == 4)
          then done n
          else if op == 1 && same_bytes tip (take 4 n.ip_addr)
          then done (send_arp_reply device sm sip n')
          else done n'

    -- `send_ip_packet` once the next hop is resolved.
    abbrev pub send_to : ℕ → Bytes → Bytes → Option Bytes × Net W → Run (Net W)
    send_to proto dest payload (none, n) = done n
    send_to proto dest payload (some hop, n) =
        let (header, n') = make_ipv4 n proto dest (length payload) in
        done (eth_tx device (eth_header n hop 0x0800 ++ header ++ payload) n')

module _ {W : Type 0} (device : Device W) (poll : Net W → Run (Net W)) where
  -- The loop of `resolve_next_hop`.
  unfoldable pub resolve_loop : ℕ → Bytes → ℕ → ℕ → Net W → Run (Option Bytes × Net W)
  resolve_loop zero target st last n = out_of_fuel
  resolve_loop (suc fuel) target st last n = do
    let (t, w1) = device.now_ms n.world
    let (now, w2) = device.now_ms w1
    let due = last == never || ltb 500 (u32 (now + 2 ^ 32 - last))
    let n1 = record n { world = w2 }
    if leb 2500 (u32 (t + 2 ^ 32 - st)) then done (none, record n { world = w1 }) else do
      n2 ← poll (if due then send_arp_request device target n1 else n1)
      if known_hop target n2
          then done (some n2.gateway_mac, n2)
          else resolve_loop fuel target st (if due then now else last) n2

  unfoldable pub resolve_next_hop : ℕ → Bytes → Net W → Run (Option Bytes × Net W)
  resolve_next_hop fuel dest n =
      let target = next_hop n dest in
      let (st, w) = device.now_ms n.world in
      if known_hop target n
      then done (some n.gateway_mac, n)
      else resolve_loop fuel target st never (record n { world = w })

  unfoldable pub send_ip_packet : ℕ → ℕ → Bytes → Bytes → Net W → Run (Net W)
  send_ip_packet fuel proto dest payload n =
      if ltb (1500 - 20) (length payload)
      then done n
      else do r ← resolve_next_hop fuel dest n; send_to device proto dest payload r

  -- `p[1500]` has room for a header of 20 bytes and 1480 bytes of data; more is written behind its end.
  unfoldable pub send_tcp : ℕ → ℕ → Bytes → Net W → Run (Net W)
  send_tcp fuel flags body n = if ltb (1500 - 20) (length body) then fault else do
    n' ← send_ip_packet fuel 6 n.tcp_peer_ip (tcp_segment n flags body) n
    done (record n' { tcp_snd_nxt = after_segment flags body n'.tcp_snd_nxt })

  unfoldable pub handle_icmp : ℕ → Bytes → ℕ → Bytes → Net W → Run (Net W)
  handle_icmp fuel p len srcip n = if ltb len 8 then done n else do
    kind ← read p 0
    if kind == 0
        then (do
          ident ← get16 p 4
          done (if ident == n.icmp_ident then record n { icmp_reply = true } else n))
        else if kind == 8
        then (do r ← read_block p 0 (min len 256); send_ip_packet fuel 1 srcip (echo_reply r) n)
        else done n

  -- `handle_tcp` on the data, of `size` bytes from offset `at` on.
  abbrev pub take_data : ℕ → Bytes → ℕ → ℕ → ℕ → Net W → Run (Net W)
  take_data fuel p at size seq n =
      let room = n.tcp_out_cap - length n.tcp_out in
      if not (size == 0) && seq == n.tcp_rcv_nxt
      then (do
        kept ← read_block p at (min size room)
        n' ←
            send_tcp fuel 0x10 []
              (record n { tcp_out = n.tcp_out ++ kept; tcp_rcv_nxt = u32 (n.tcp_rcv_nxt + size) })
        done (record n' { tcp_event = pos 3 }))
      else done n

  -- `seq+data_len` is a sum of 64 bits.
  abbrev pub take_fin : ℕ → ℕ → ℕ → ℕ → Net W → Run (Net W)
  take_fin fuel flags size seq n = if bit_and flags 0x01 == 0 then done n else do
    n' ← send_tcp fuel 0x10 [] (record n {
      tcp_rcv_nxt =
          if u64 (seq + size) == n.tcp_rcv_nxt then u32 (n.tcp_rcv_nxt + 1) else n.tcp_rcv_nxt;
    })
    done (record n' { tcp_event = pos 4 })

  -- `handle_tcp` on a segment of this connection; the header is `at` bytes.
  unfoldable pub take_segment : ℕ → Bytes → ℕ → ℕ → ℕ → ℕ → ℕ → Net W → Run (Net W)
  take_segment fuel p len at seq ack flags n0 =
      let acked =
        not (bit_and flags 0x10 == 0) && leb n0.tcp_snd_una ack && leb ack n0.tcp_snd_nxt in
      let n = record n0 { tcp_snd_una = if acked then ack else n0.tcp_snd_una } in
      if bit_and flags 0x12 == 0x12 && is_event n.tcp_event 1 && ack == n.tcp_snd_nxt
      then send_tcp fuel 0x10 [] (record n { tcp_rcv_nxt = u32 (seq + 1); tcp_event = pos 2 })
      else if not (bit_and flags 0x04 == 0)
      then done (record n { tcp_event = minus_one })
      else do n' ← take_data fuel p at (len - at) seq n; take_fin fuel flags (len - at) seq n'

  unfoldable pub handle_tcp : ℕ → Bytes → ℕ → Bytes → Net W → Run (Net W)
  handle_tcp fuel p len srcip n =
      if ltb len 20 || not (same_bytes srcip (take 4 n.tcp_peer_ip)) then done n else do
        sp ← get16 p 0
        dp ← get16 p 2
        if not (sp == n.tcp_peer_port) || not (dp == n.tcp_local_port) then done n else do
          seq ← get32 p 4
          ack ← get32 p 8
          offset ← read p 12
          flags ← read p 13
          let hlen = offset / 16 * 4
          if ltb hlen 20 || ltb len hlen
              then done n
              else take_segment fuel p len hlen seq ack flags n
