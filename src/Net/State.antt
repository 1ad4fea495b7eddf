-- ===== src/Net/State.antt =====
-- kernel/net.c: the static variables, and the frames that are sent without waiting. Each local array
-- that goes out is written from its front to its end, so it is the list of what is written.
use un_orion.Common.{
  ℕ, zero, suc, ◌+◌, ◌-◌, ◌/◌, ◌^◌, bit_and, Bool, true, false, not, ◌&&◌, Option, ℤ, [], ◌∷◌, ◌++◌,
  Bytes, byte, take, drop, replicate, length, u8, u16, u32, u64, ◌==◌, if◌then◌else◌,
}
use un_orion.Dhcp.Client.{checksum16, sum16, fold_carry}

-- What is called of kernel/netdev.c and the timer: `netdev_init` with the hardware address, `netdev_tx`,
-- the next frame that `netdev_poll` hands to its callback (`none` ends the poll), `now_ms` and
-- `timer_ticks`.
pub record Device (W : Type 0) : Type 0 where
  pub start : W → Option Bytes × W
  pub transmit : Bytes → W → Bool × W
  pub next_frame : W → Option Bytes × W
  pub now_ms : W → ℕ × W
  pub timer_ticks : W → ℕ

-- Of the buffer `tcp_out` the first `tcp_out_len` bytes are kept. `world` is the state of the device.
pub record Net (W : Type 0) : Type 0 where
  pub mac : Bytes
  pub ip_addr : Bytes
  pub netmask : Bytes
  pub gateway : Bytes
  pub dns_ip : Bytes
  pub gateway_mac : Bytes
  pub gateway_mac_valid : Bool
  pub ready : Bool
  pub rx_count : ℕ
  pub tx_count : ℕ
  pub ip_id : ℕ
  pub next_src_port : ℕ
  pub icmp_reply : Bool
  pub icmp_ident : ℕ
  pub icmp_seq : ℕ
  pub dns_done : ℤ
  pub dns_id : ℕ
  pub dns_port : ℕ
  pub dns_answer : Bytes
  pub tcp_event : ℤ
  pub tcp_peer_ip : Bytes
  pub tcp_local_port : ℕ
  pub tcp_peer_port : ℕ
  pub tcp_iss : ℕ
  pub tcp_snd_nxt : ℕ
  pub tcp_snd_una : ℕ
  pub tcp_rcv_nxt : ℕ
  pub tcp_out : Bytes
  pub tcp_out_cap : ℕ
  pub world : W

-- What `put16` and `put32` write.
abbrev pub bytes16 : ℕ → Bytes
bytes16 v = u8 (v / 2 ^ 8) ∷ u8 v ∷ []

abbrev pub bytes32 : ℕ → Bytes
bytes32 v = u8 (v / 2 ^ 24) ∷ u8 (v / 2 ^ 16) ∷ u8 (v / 2 ^ 8) ∷ u8 v ∷ []

unfoldable pub same_net : ℕ → Bytes → Bytes → Bytes → Bool
same_net zero mask a b = true
same_net (suc n) mask a b =
    let rest = same_net n (drop 1 mask) (drop 1 a) (drop 1 b) in
    if not (bit_and (byte a 0) (byte mask 0) == bit_and (byte b 0) (byte mask 0))
    then false
    else rest

unfoldable pub tcp_checksum : Bytes → Bytes → Bytes → ℕ
tcp_checksum src dst tcp =
    let sum = sum16 (u32 (sum16 0 (take 4 src ++ take 4 dst) + 6 + u16 (length tcp))) tcp in
    u16 (2 ^ 32 - 1 - fold_carry 3 sum)

module _ {W : Type 0} where
  unfoldable pub same_subnet : Net W → Bytes → Bytes → Bool
  unfolding same_net
  same_subnet n a b = same_net 4 n.netmask a b

  -- What `resolve_next_hop` looks for.
  abbrev pub next_hop : Net W → Bytes → Bytes
  next_hop n dest = if same_subnet n dest n.ip_addr then dest else n.gateway

  abbrev pub eth_header : Net W → Bytes → ℕ → Bytes
  eth_header n dst type = take 6 dst ++ take 6 n.mac ++ bytes16 type

  -- `make_ipv4`, which also counts `ip_id`; the payload's length is below 1500.
  unfoldable pub make_ipv4 : Net W → ℕ → Bytes → ℕ → Bytes × Net W
  make_ipv4 n proto dst payload_len =
      let head =
        0x45 ∷ 0 ∷ bytes16 (u16 (20 + payload_len))
        ++ bytes16 n.ip_id
        ++ bytes16 0x4000
        ++ 64 ∷ proto ∷ [] in
      let tail = take 4 n.ip_addr ++ take 4 dst in
      let check = checksum16 (head ++ bytes16 0 ++ tail) in
      (head ++ bytes16 check ++ tail, record n { ip_id = u16 (n.ip_id + 1) })

  -- The header of `send_tcp` with its data; `send_tcp` has the bound of the array that it stands in.
  unfoldable pub tcp_segment : Net W → ℕ → Bytes → Bytes
  tcp_segment n flags body =
      let head =
        bytes16 n.tcp_local_port
        ++ bytes16 n.tcp_peer_port
        ++ bytes32 n.tcp_snd_nxt
        ++ bytes32 n.tcp_rcv_nxt
        ++ 0x50 ∷ flags ∷ bytes16 4096 in
      let check = tcp_checksum n.ip_addr n.tcp_peer_ip (head ++ bytes16 0 ++ bytes16 0 ++ body) in
      head ++ bytes16 check ++ bytes16 0 ++ body

  module _ (device : Device W) where
    unfoldable pub eth_tx : Bytes → Net W → Net W
    eth_tx frame n =
        let (sent, world) = device.transmit frame n.world in
        record n {
          world = if n.ready then world else n.world;
          tx_count = if n.ready && sent then u64 (n.tx_count + 1) else n.tx_count;
        }

    abbrev pub arp_body : ℕ → Bytes → Bytes → Net W → Bytes
    arp_body op dstmac dstip n =
        bytes16 1
        ++ bytes16 0x0800
        ++ 6 ∷ 4 ∷ bytes16 op
        ++ take 6 n.mac
        ++ take 4 n.ip_addr
        ++ take 6 dstmac
        ++ take 4 dstip

    unfoldable pub send_arp_request : Bytes → Net W → Net W
    send_arp_request target n =
        eth_tx (eth_header n (replicate 6 255) 0x0806 ++ arp_body 1 (replicate 6 0) target n) n

    unfoldable pub send_arp_reply : Bytes → Bytes → Net W → Net W
    send_arp_reply dstmac dstip n =
        eth_tx (eth_header n dstmac 0x0806 ++ arp_body 2 dstmac dstip n) n
