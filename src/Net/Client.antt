-- ===== src/Net/Client.antt =====
-- kernel/net.c: what the rest of the kernel calls, from `net_init` to the TCP connection. `poll` is
-- `net_poll`; `fuel` bounds each loop that waits for the clock.
pub mod Query
use Prim.Native.Nat.{min}
use un_orion.Common.{
  ℕ, zero, suc, ◌+◌, ◌-◌, ◌*◌, ◌/◌, ◌%◌, ◌^◌, bit_and, Bool, true, false, not, ◌&&◌, ◌||◌, Option,
  none, some, ℤ, pos, negsuc, minus_one, failed, List, [], ◌∷◌, ◌++◌, Bytes, byte, take, drop,
  replicate, length, u8, u16, u32, ltb, leb, ◌==◌, if◌then◌else◌, Run, done, out_of_fuel, ◌>>=◌,
}
use un_orion.Dhcp.Client.{checksum16, never}
use un_orion.Net.State.{Device, Net, bytes16, send_arp_request}
use un_orion.Net.Stack.{is_event, resolve_next_hop, send_ip_packet, send_tcp}
use un_orion.Net.Client.Query.{Name, name, refused, full, parse_ipv4, encode_name, query}

pub data Connection : Type 0 where
  connected : Connection
  unavailable : Connection
  dns_failed : Connection
  arp_failed : Connection
  connect_failed : Connection

-- `tcp_event>=2&&tcp_event!=4`
abbrev pub is_open : ℤ → Bool
is_open (pos e) = leb 2 e && not (e == 4)
is_open (negsuc _) = false

module _ {W : Type 0} where
  abbrev pub closed : Net W → Net W
  closed n = record n { tcp_event = pos 0; tcp_out = []; tcp_out_cap = 0 }

  abbrev pub dns_over : Net W → Net W
  dns_over n = record n { dns_id = 0; dns_port = 0 }

module _ {W : Type 0} (device : Device W) where
  -- `now_ms`
  abbrev pub clock : Net W → ℕ × Net W
  clock n = let (t, w) = device.now_ms n.world in (t, record n { world = w })

  abbrev pub is_elapsed : ℕ → ℕ → Net W → Bool × Net W
  is_elapsed st ms n = let (t, n') = clock n in (leb ms (u32 (t + 2 ^ 32 - st)), n')

  unfoldable pub net_init : Net W → Bool × Net W
  net_init n =
      let (mac, w) = device.start n.world in
      elim mac [
        | none ↦ (false, record n { world = w })
        | some m ↦
            let n' = record n { mac = m; ready = true; gateway_mac_valid = false; world = w } in
            (true, send_arp_request device n'.gateway n')
      ]

  unfoldable pub net_configure : Bytes → Bytes → Bytes → Bytes → Net W → Net W
  net_configure ip mask gw dns n = send_arp_request device (take 4 gw) (record n {
    ip_addr = take 4 ip;
    netmask = take 4 mask;
    gateway = take 4 gw;
    dns_ip = take 4 dns;
    gateway_mac_valid = false;
  })

module _ {W : Type 0} (device : Device W) (poll : Net W → Run (Net W)) where
  unfoldable pub send_icmp_echo : ℕ → Bytes → Net W → Run (Net W)
  send_icmp_echo fuel dest n =
      let seq = u16 (n.icmp_seq + 1) in
      let tail = bytes16 n.icmp_ident ++ bytes16 seq ++ 8 ∷ 9 ∷ 10 ∷ 11 ∷ 12 ∷ 13 ∷ 14 ∷ 15 ∷ [] in
      let check = checksum16 (8 ∷ 0 ∷ bytes16 0 ++ tail) in
      send_ip_packet device poll fuel 1 dest (8 ∷ 0 ∷ bytes16 check ++ tail)
        (record n { icmp_seq = seq })

  unfoldable pub send_udp : ℕ → Bytes → ℕ → ℕ → Bytes → Net W → Run (Net W)
  send_udp fuel dest sport dport body n =
      send_ip_packet device poll fuel 17 dest
        (bytes16 sport ++ bytes16 dport ++ bytes16 (u16 (8 + length body)) ++ bytes16 0 ++ body) n

  unfoldable pub ping_loop : ℕ → ℕ → ℕ → Net W → Run (Bool × Net W)
  ping_loop zero st ms n = out_of_fuel
  ping_loop (suc fuel) st ms n =
      let (late, n1) = is_elapsed device st ms n in
      if late
      then done (false, n1)
      else do n2 ← poll n1; if n2.icmp_reply then done (true, n2) else ping_loop fuel st ms n2

  unfoldable pub net_ping_gateway : ℕ → ℕ → Net W → Run (Bool × Net W)
  net_ping_gateway fuel ms n = if not n.ready then done (false, n) else do
    n1 ← send_icmp_echo fuel n.gateway (record n { icmp_reply = false })
    let (st, n2) = clock device n1
    ping_loop fuel st ms n2

  -- The loop of `dns_lookup` over the query `q`.
  unfoldable pub dns_loop : ℕ → Bytes → ℕ → ℕ → Net W → Run (Option Bytes × Net W)
  dns_loop zero q st last n = out_of_fuel
  dns_loop (suc fuel) q st last n =
      let (late, n1) = is_elapsed device st 4000 n in
      let (now, n2) = clock device n1 in
      let due = last == never || ltb 800 (u32 (now + 2 ^ 32 - last)) in
      if late then done (none, dns_over n1) else do
        n3 ← if due then send_udp fuel n2.dns_ip n2.dns_port 53 q n2 else done n2
        n4 ← poll n3
        if is_event n4.dns_done 1
            then done (some n4.dns_answer, dns_over n4)
            else if failed n4.dns_done
            then done (none, dns_over n4)
            else dns_loop fuel q st (if due then now else last) n4

  abbrev pub dns_ask : ℕ → Name → Net W → Run (Option Bytes × Net W)
  dns_ask fuel full n = done (none, n)
  dns_ask fuel refused n = done (none, record n { dns_id = 0 })
  dns_ask fuel (name labels) n =
      let n1 = record n {
        dns_done = pos 0;
        dns_port = u16 (50000 + device.timer_ticks n.world % 1000);
      } in
      let (st, n2) = clock device n1 in dns_loop fuel (query n.dns_id labels) st never n2

  unfoldable pub dns_lookup : ℕ → Bytes → Net W → Run (Option Bytes × Net W)
  dns_lookup fuel host n =
      let id = u16 (0x4000 + device.timer_ticks n.world % 0x4000) in
      elim (parse_ipv4 host) [
        | some ip ↦ done (some ip, n)
        | none ↦
            if length host == 0
            then done (none, n)
            else dns_ask fuel (encode_name (length host) host 12) (record n { dns_id = id })
      ]

  unfoldable pub net_dns_lookup : ℕ → Bytes → Net W → Run (Option Bytes × Net W)
  net_dns_lookup fuel host n = if not n.ready then done (none, n) else dns_lookup fuel host n

  -- `while(before&&!elapsed(st,ms)&&after)net_poll();`
  unfoldable pub wait_while : (Net W → Bool) → (Net W → Bool) → ℕ → ℕ → ℕ → Net W → Run (Net W)
  wait_while before after zero st ms n = out_of_fuel
  wait_while before after (suc fuel) st ms n =
      let (late, n1) = is_elapsed device st ms n in
      if not (before n)
      then done n
      else if late || not (after n1)
      then done n1
      else do n2 ← poll n1; wait_while before after fuel st ms n2

  -- `net_tcp_connect` with the address of the host.
  abbrev pub connect_to : ℕ → Bytes → ℕ → Net W → Run (Connection × Net W)
  connect_to fuel dest port n = do
    let next_port =
        if ltb (u16 (n.next_src_port + 1)) 49152 then 49152 else u16 (n.next_src_port + 1)
    let iss = u32 (0x13570000 + u32 (device.timer_ticks n.world))
    n1 ← send_tcp device poll fuel 0x02 [] (record n {
      tcp_peer_ip = take 4 dest;
      tcp_local_port = n.next_src_port;
      next_src_port = next_port;
      tcp_peer_port = port;
      tcp_iss = iss;
      tcp_snd_nxt = iss;
      tcp_snd_una = iss;
      tcp_rcv_nxt = 0;
      tcp_event = pos 1;
      tcp_out = [];
      tcp_out_cap = 32768;
    })
    let (st, n2) = clock device n1
    n3 ← wait_while (λ m. true) (λ m. is_event m.tcp_event 1) fuel st 4000 n2
    done (if is_event n3.tcp_event 2 then connected else connect_failed, n3)

  abbrev pub connect_resolved : ℕ → ℕ → Option Bytes × Net W → Run (Connection × Net W)
  connect_resolved fuel port (none, n) = done (dns_failed, n)
  connect_resolved fuel port (some dest, n) = do
    hop ← resolve_next_hop device poll fuel dest n
    elim hop.0 [ none ↦ done (arp_failed, hop.1) | some h ↦ connect_to fuel dest port hop.1 ]

  unfoldable pub net_tcp_connect : ℕ → Bytes → ℕ → Net W → Run (Connection × Net W)
  net_tcp_connect fuel host port n =
      if not n.ready || port == 0
      then done (unavailable, n)
      else do r ← dns_lookup fuel host n; connect_resolved fuel port r

  -- The loop of `net_tcp_read`; `none` is -1.
  unfoldable pub read_loop : ℕ → ℕ → ℕ → ℕ → Net W → Run (Option Bytes × Net W)
  read_loop zero cap st ms n = out_of_fuel
  read_loop (suc fuel) cap st ms n =
      let (late, n1) = is_elapsed device st ms n in
      if not (length n.tcp_out == 0)
      then done (
        some (take (min (length n.tcp_out) cap) n.tcp_out),
        record n { tcp_out = drop cap n.tcp_out },
      )
      else if failed n.tcp_event || is_event n.tcp_event 4
      then done (none, n)
      else if late
      then done (none, n1)
      else do n2 ← poll n1; read_loop fuel cap st ms n2

  unfoldable pub net_tcp_read : ℕ → ℕ → ℕ → Net W → Run (Option Bytes × Net W)
  net_tcp_read fuel cap ms n =
      let (st, n1) = clock device n in
      if cap == 0 then done (none, n) else read_loop fuel cap st ms n1

  -- The loop of `net_tcp_write` over what is left of the data; `turns` bounds its rounds.
  unfoldable pub write_loop : ℕ → ℕ → ℕ → Bytes → Net W → Run (Bool × Net W)
  write_loop zero fuel ms body n = out_of_fuel
  write_loop (suc turns) fuel ms [] n = done (true, n)
  write_loop (suc turns) fuel ms (b ∷ body) n = do
    n1 ← send_tcp device poll fuel 0x18 (take 1200 (b ∷ body)) n
    let want = n1.tcp_snd_nxt
    let (st, n2) = clock device n1
    n3 ← wait_while (λ m. ltb m.tcp_snd_una want) (λ m. not (failed m.tcp_event)) fuel st ms n2
    if ltb n3.tcp_snd_una want
        then done (false, n3)
        else write_loop turns fuel ms (drop 1200 (b ∷ body)) n3

  unfoldable pub net_tcp_write : ℕ → ℕ → Bytes → Net W → Run (Bool × Net W)
  net_tcp_write fuel ms body n = write_loop (suc (length body)) fuel ms body n

  unfoldable pub net_tcp_close : ℕ → Net W → Run (Net W)
  net_tcp_close fuel n = if not (is_open n.tcp_event) then done (closed n) else do
    n1 ← send_tcp device poll fuel 0x11 [] n
    let (st, n2) = clock device n1
    n3 ←
        wait_while (λ m. true) (λ m. not (failed m.tcp_event) && not (is_event m.tcp_event 4)) fuel
          st 300 n2
    done (closed n3)
