-- ===== src/Net/Stack/Safety.antt =====
-- kernel/net.c: sending keeps `tcp_out` inside its buffer.
pub mod Dns
pub mod Handlers
use un_orion.Common.{
  ℕ, zero, suc, ◌+◌, ◌-◌, ◌*◌, ◌/◌, ◌^◌, ◌≤◌, ◌<◌, ◌≡◌, bit_and, min, Bool, true, false, not, ◌&&◌,
  ◌||◌, Option, none, some, [], Bytes, byte, take, drop, length, length-append, length-drop, u16,
  u32, same_bytes, ltb, leb, ◌==◌, if◌then◌else◌, Run, done, ◌>>=◌, read-eq-done, Always,
  Always-bind, Always-if, Always-read, Always-read_block, arith,
}
use un_orion.Dhcp.Reply.{get32}
use un_orion.Dhcp.Client.{get16, never}
use un_orion.Net.State.{
  Device, Net, eth_tx, send_arp_request, send_arp_reply, make_ipv4, next_hop, tcp_segment,
}
use un_orion.Net.Stack.{
  known_hop, resolve_loop, resolve_next_hop, send_to, send_ip_packet, send_tcp, echo_reply,
  handle_arp, handle_icmp, is_event, take_data, take_fin, take_segment, handle_tcp,
}
use un_orion.Net.Stack.Receive.{
  skip_labels, dns_skip_name, skip_questions, find_answer, dns_answer_of, set_answer, handle_dns,
  handle_udp,
}

pub Always-get16 :
    {B : Type 0} (Q : B → Type 0) (p : Bytes) (i : ℕ) (f : ℕ → Run B)
    → i + 1 < length p
    → ((b : ℕ) → Always Q (f b))
    → Always Q (get16 p i >>= f)
unfolding get16
Always-get16 Q p i f h g =
    rw (read-eq-done p i (omega arith), read-eq-done p (i + 1) h)
      (g (u16 (byte p i * 2 ^ 8 + byte p (i + 1))))

pub Always-get32 :
    {B : Type 0} (Q : B → Type 0) (p : Bytes) (i : ℕ) (f : ℕ → Run B)
    → i + 3 < length p
    → ((b : ℕ) → Always Q (f b))
    → Always Q (get32 p i >>= f)
unfolding get32
Always-get32 Q p i f h g =
    rw
      (
        read-eq-done p i (omega arith),
        read-eq-done p (i + 1) (omega arith),
        read-eq-done p (i + 2) (omega arith),
        read-eq-done p (i + 3) h,
      )
      (g _)

module _ {W : Type 0} where
  -- `tcp_out_len` is at most `tcp_out_cap`.
  unfoldable pub Fits : Net W → Type 0
  Fits n = length n.tcp_out ≤ n.tcp_out_cap

  pub Fits-if : (b : Bool) (x y : Net W) → Fits x → Fits y → Fits (if b then x else y)
  Fits-if true x y h k = h
  Fits-if false x y h k = k

  module _ (device : Device W) (poll : Net W → Run (Net W))
      (safe : (n : Net W) → Fits n → Always Fits (poll n)) where
    abbrev HopFits : Option Bytes × Net W → Type 0
    HopFits r = Fits r.1

    resolve_loop-Fits :
        (fuel : ℕ) (target : Bytes) (st last : ℕ) (n : Net W)
        → Fits n
        → Always HopFits (resolve_loop device poll fuel target st last n)
    unfolding resolve_loop Fits eth_tx send_arp_request
    resolve_loop-Fits zero target st last n k = tt
    resolve_loop-Fits (suc fuel) target st last n k =
        let (t, w1) = device.now_ms n.world in
        let (now, w2) = device.now_ms w1 in
        let due = last == never || ltb 500 (u32 (now + 2 ^ 32 - last)) in
        let n1 = record n { world = w2 } in
        let asked = if due then send_arp_request device target n1 else n1 in
        Always-if HopFits (leb 2500 (u32 (t + 2 ^ 32 - st))) _ _ (λ a. k)
          (λ a.
            Always-bind Fits HopFits (poll asked) _
              (safe asked (Fits-if due (send_arp_request device target n1) n1 k k))
              (λ n2 k2.
                Always-if HopFits (known_hop target n2) _ _ (λ b. k2)
                  (λ b. resolve_loop-Fits fuel target st (if due then now else last) n2 k2)))

    pub resolve_next_hop-Fits :
        (fuel : ℕ) (dest : Bytes) (n : Net W)
        → Fits n
        → Always HopFits (resolve_next_hop device poll fuel dest n)
    unfolding resolve_next_hop Fits
    resolve_next_hop-Fits fuel dest n k =
        Always-if HopFits (known_hop (next_hop n dest) n) _ _ (λ a. k)
          (λ a. resolve_loop-Fits fuel _ _ _ _ k)

    send_to-Fits :
        (proto : ℕ) (dest payload : Bytes) (r : Option Bytes × Net W)
        → HopFits r
        → Always Fits (send_to device proto dest payload r)
    unfolding Fits eth_tx make_ipv4
    send_to-Fits proto dest payload (none, n) k = k
    send_to-Fits proto dest payload (some hop, n) k = k

    pub send_ip_packet-Fits :
        (fuel proto : ℕ) (dest payload : Bytes) (n : Net W)
        → Fits n
        → Always Fits (send_ip_packet device poll fuel proto dest payload n)
    unfolding send_ip_packet
    send_ip_packet-Fits fuel proto dest payload n k =
        Always-if Fits (ltb (1500 - 20) (length payload)) _ _ (λ a. k)
          (λ a.
            Always-bind HopFits Fits (resolve_next_hop device poll fuel dest n) _
              (resolve_next_hop-Fits fuel dest n k) (λ r h. send_to-Fits proto dest payload r h))

    pub send_tcp-Fits :
        (fuel flags : ℕ) (body : Bytes) (n : Net W)
        → length body ≤ 1480
        → Fits n
        → Always Fits (send_tcp device poll fuel flags body n)
    unfolding send_tcp Fits
    send_tcp-Fits fuel flags body n l k =
        let room : ltb (1500 - 20) (length body) ≡ false = ground arith in
        rw room (
          Always-bind Fits Fits
            (send_ip_packet device poll fuel 6 n.tcp_peer_ip (tcp_segment n flags body) n) _
            (send_ip_packet-Fits fuel 6 _ _ n k) (λ n' k'. k'))
