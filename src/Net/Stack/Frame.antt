-- ===== src/Net/Stack/Frame.antt =====
-- kernel/net.c: a TCP frame that `send_ip_packet` makes, as `handle_frame` of the other side takes it.
use un_orion.Common.{
  ℕ, ◌+◌, ◌-◌, ◌*◌, ◌/◌, ◌^◌, ◌≤◌, ◌≡◌, refl, sym, ◌∙◌, true, false, ◌++◌, Bytes, byte, take, drop,
  length, u8, u16, u64, same_bytes, same_bytes_iff, ltb, take-four, take-six, Run, read-eq-done,
  read_block-eq-done, arith,
}
use un_orion.Net.State.{Device, Net, eth_header, make_ipv4}
use un_orion.Net.Stack.{handle_tcp}
use un_orion.Net.Stack.Poll.{half_at, get16-eq-done}
use un_orion.Net.Stack.Receive.{handle_ip, handle_frame}

-- The arrays that the headers are made of have their sizes.
pub record IsWhole {V : Type 0} (n : Net V) : Type 0 where
  pub mac : 6 ≤ length n.mac
  pub gateway_mac : 6 ≤ length n.gateway_mac
  pub ip_addr : 4 ≤ length n.ip_addr
  pub tcp_peer_ip : 4 ≤ length n.tcp_peer_ip

-- The frame of `send_ip_packet` with TCP, to the gateway's hardware address.
abbrev pub tcp_frame : {V : Type 0} → Net V → Bytes → Bytes
tcp_frame n payload =
    eth_header n n.gateway_mac 0x0800 ++ (make_ipv4 n 6 n.tcp_peer_ip (length payload)).0 ++ payload

total-back :
    (v : ℕ) → v ≤ 1480 → u16 (u8 (u16 (20 + v) / 2 ^ 8) * 2 ^ 8 + u8 (u16 (20 + v))) ≡ 20 + v
total-back v h = omega arith

module _ {W : Type 0} (device : Device W) (poll : Net W → Run (Net W)) where
  handle_ip-tcp :
      (fuel : ℕ) (p payload : Bytes) (n : Net W)
      → length p ≡ 20 + length payload
      → length payload ≤ 1480
      → byte p 0 ≡ 0x45
      → half_at p 2 ≡ 20 + length payload
      → byte p 9 ≡ 6
      → same_bytes (take 4 (drop 16 p)) (take 4 n.ip_addr) ≡ true
      → handle_ip device poll fuel p n
        ≡ handle_tcp device poll fuel (drop 20 p) (length payload) (take 4 (drop 12 p)) n
  unfolding handle_ip
  handle_ip-tcp fuel p payload n long fits first size proto same =
      let enough : ltb (length p) 20 ≡ false = ground arith in
      let whole : ltb (length p) (20 + length payload) ≡ false = ground arith in
      let rest : u64 (20 + length payload + 2 ^ 64 - 20) ≡ length payload = omega arith in
      rw
        (
          enough,
          read-eq-done p 0 (omega arith),
          get16-eq-done p 2 (omega arith),
          read-eq-done p 9 (omega arith),
          read_block-eq-done p 12 4 (omega arith),
          read_block-eq-done p 16 4 (omega arith),
          first,
          size,
          proto,
          whole,
          same,
          enough,
          rest,
        )
        refl

  handle_frame-tcp :
      (fuel : ℕ) (f payload : Bytes) (n : Net W)
      → length f ≡ 34 + length payload
      → half_at f 12 ≡ 0x0800
      → handle_frame device poll fuel f n ≡ handle_ip device poll fuel (drop 14 f) n
  unfolding handle_frame
  handle_frame-tcp fuel f payload n long kind =
      let enough : ltb (length f) 14 ≡ false = ground arith in
      rw (enough, get16-eq-done f 12 (omega arith), kind) refl

module _ {V W : Type 0} (device : Device W) (poll : Net W → Run (Net W)) where
  pub handle_frame-tcp_frame :
      (fuel : ℕ) (peer : Net V) (n : Net W) (payload : Bytes)
      → IsWhole peer
      → length payload ≤ 1480
      → take 4 peer.tcp_peer_ip ≡ take 4 n.ip_addr
      → handle_frame device poll fuel (tcp_frame peer payload) n
        ≡ handle_tcp device poll fuel payload (length payload) (take 4 peer.ip_addr) n
  unfolding make_ipv4
  handle_frame-tcp_frame fuel peer n payload w l to =
      let src = take-four peer.ip_addr w.ip_addr in
      let dst = take-four peer.tcp_peer_ip w.tcp_peer_ip in
      let same = (same_bytes_iff _ _).1 (sym dst ∙ to) in
      rw (take-six peer.gateway_mac w.gateway_mac, take-six peer.mac w.mac, src, dst)
        (handle_frame-tcp device poll fuel _ payload n (omega arith) refl
          ∙ handle_ip-tcp device poll fuel _ payload n (omega arith) l refl
              (total-back (length payload) l) refl same)
