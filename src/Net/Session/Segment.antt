-- ===== src/Net/Session/Segment.antt =====
-- kernel/net.c: a segment that `send_tcp` makes, as `handle_tcp` of the other side takes it.
use un_orion.Common.{
  ℕ, ◌+◌, ◌-◌, ◌*◌, ◌/◌, ◌^◌, ◌≤◌, ◌<◌, ◌≡◌, refl, sym, ap, ◌∙◌, min, true, false, not, ◌&&◌, pos,
  [], ◌∷◌, ◌++◌, append-nil, Bytes, take, drop, length, length-append, u8, u16, u32, same_bytes,
  same_bytes_iff, leb, ◌==◌, if◌then◌else◌, Bool-cases, inl, inr, Run, done, read_block-eq-done,
  arith,
}
use un_orion.Dhcp.Reply.{be32}
use un_orion.Dhcp.Reply.Safety.{word_at}
use un_orion.Net.State.{Device, Net, same_subnet, tcp_segment, eth_tx, make_ipv4}
use un_orion.Net.Stack.{is_event, after_segment, take_segment, handle_tcp}
use un_orion.Net.Stack.Send.{is_linked, tcp_sent, send_tcp-linked}
use un_orion.Net.Stack.Stream.{take-whole}
use un_orion.Net.Session.{is_ours, handle_tcp-ours}

-- A side that waits for bytes of its peer: `n` is linked, past the handshake, with room for `size`
-- bytes, and expects what `peer` sends next, between the addresses and ports of `peer`.
pub record Expects {V W : Type 0} (peer : Net V) (size : ℕ) (n : Net W) : Type 0 where
  pub linked : is_linked n.tcp_peer_ip n ≡ true
  pub settled : is_event n.tcp_event 1 ≡ false
  pub room : length n.tcp_out + size ≤ n.tcp_out_cap
  pub from_port : n.tcp_peer_port ≡ peer.tcp_local_port
  pub to_port : n.tcp_local_port ≡ peer.tcp_peer_port
  pub from_ip : take 4 peer.ip_addr ≡ take 4 n.tcp_peer_ip
  pub to_ip : take 4 peer.tcp_peer_ip ≡ take 4 n.ip_addr
  pub from_small : peer.tcp_local_port < 2 ^ 16
  pub to_small : peer.tcp_peer_port < 2 ^ 16
  pub next : n.tcp_rcv_nxt ≡ peer.tcp_snd_nxt
  pub next_small : peer.tcp_snd_nxt < 2 ^ 32

pub half-back : (v : ℕ) → v < 2 ^ 16 → u16 (u8 (v / 2 ^ 8) * 2 ^ 8 + u8 v) ≡ v
half-back v h = omega arith

word-back :
    (v : ℕ) → v < 2 ^ 32 → be32 (u8 (v / 2 ^ 24)) (u8 (v / 2 ^ 16)) (u8 (v / 2 ^ 8)) (u8 v) ≡ v
unfolding be32
word-back v h = omega arith

abbrev pub after_part : {V : Type 0} → Net V → Bytes → Net V
after_part peer part = record peer { tcp_snd_nxt = after_segment 0x18 part peer.tcp_snd_nxt }

no_bytes : (s : Bytes) → (length s == 0) ≡ true → s ≡ []
no_bytes [] h = refl
no_bytes (c ∷ s) h = absurd (ground arith)

module _ {V W : Type 0} (device : Device W) (poll : Net W → Run (Net W)) where
  tcp_segment-is_ours :
      (peer : Net V) (n : Net W) (part : Bytes) (rest : ℕ)
      → Expects peer (length part + rest) n
      → is_ours (tcp_segment peer 0x18 part) (take 4 n.tcp_peer_ip) n ≡ true
  unfolding tcp_segment
  tcp_segment-is_ours peer n part rest e =
      let src = take 4 n.tcp_peer_ip in
      let long : leb 20 (20 + length part) ≡ true = ground arith in
      let same : same_bytes src src ≡ true = (same_bytes_iff src src).1 refl in
      let from : u16 (u8 (peer.tcp_local_port / 2 ^ 8) * 2 ^ 8 + u8 peer.tcp_local_port)
            == n.tcp_peer_port
          ≡ true =
        ground (arith, half-back peer.tcp_local_port e.from_small, e.from_port) in
      let to : u16 (u8 (peer.tcp_peer_port / 2 ^ 8) * 2 ^ 8 + u8 peer.tcp_peer_port)
            == n.tcp_local_port
          ≡ true =
        ground (arith, half-back peer.tcp_peer_port e.to_small, e.to_port) in
      rw (same, from, to) (ground arith)

  -- `handle_tcp` on the data of a part that comes next.
  next_part :
      (fuel : ℕ) (p : Bytes) (ack : ℕ) (part : Bytes) (rest : ℕ) (peer : Net V) (n : Net W)
      → length p ≡ 20 + length part
      → drop 20 p ≡ part
      → Expects peer (length part + rest) n
      → (n' : Net W) × (take_segment device poll fuel p (length p) 20 peer.tcp_snd_nxt ack 0x18 n
          ≡ done n')
        × (n'.tcp_out ≡ n.tcp_out ++ part)
        × Expects (after_part peer part) rest n'
  unfolding take_segment same_subnet eth_tx make_ipv4
  next_part fuel p ack part rest peer n0 l d e =
      let acked = leb n0.tcp_snd_una ack && leb ack n0.tcp_snd_nxt in
      let n = record n0 { tcp_snd_una = if acked then ack else n0.tcp_snd_una } in
      let size : length p - 20 ≡ length part = omega arith in
      elim (Bool-cases (length part == 0)) [
        | inl y ↦
            let nothing : part ≡ [] = no_bytes part y in
            (
              n,
              rw (size, y),
              sym (append-nil n.tcp_out) ∙ ap (λ r. n.tcp_out ++ r) (sym nothing),
              record {
                linked = e.linked;
                settled = e.settled;
                room = omega (arith, e.room);
                from_port = e.from_port;
                to_port = e.to_port;
                from_ip = e.from_ip;
                to_ip = e.to_ip;
                from_small = e.from_small;
                to_small = e.to_small;
                next = e.next ∙ ground (arith, e.next_small);
                next_small = omega arith;
              },
            )
        | inr m ↦
            let room : min (length part) (n.tcp_out_cap - length n.tcp_out) ≡ length part =
              omega (arith, e.room) in
            let bytes : take (length part) (drop 20 p) ≡ part =
              rw d (take-whole (length part) part (omega arith)) in
            let comes : not (length part == 0) && peer.tcp_snd_nxt == n.tcp_rcv_nxt ≡ true =
              ground (arith, e.next) in
            let n1 = record n {
              tcp_out = n.tcp_out ++ part;
              tcp_rcv_nxt = u32 (n.tcp_rcv_nxt + length part);
            } in
            (
              record (tcp_sent device 0x10 [] n1) { tcp_event = pos 3 },
              rw (
                size,
                comes,
                room,
                read_block-eq-done p 20 (length part) (omega arith),
                bytes,
                send_tcp-linked device poll fuel 0x10 [] n1 e.linked (omega arith),
              ),
              refl,
              record {
                linked = e.linked;
                settled = refl;
                room = omega (arith, e.room, length-append n.tcp_out part);
                from_port = e.from_port;
                to_port = e.to_port;
                from_ip = e.from_ip;
                to_ip = e.to_ip;
                from_small = e.from_small;
                to_small = e.to_small;
                next = ap (λ v. u32 (v + length part)) e.next;
                next_small = omega arith;
              },
            )
      ]

  pub handle_tcp-segment :
      (fuel : ℕ) (part : Bytes) (rest : ℕ) (peer : Net V) (n : Net W)
      → Expects peer (length part + rest) n
      → (n' : Net W) × (handle_tcp device poll fuel
            (tcp_segment peer 0x18 part)
            (length (tcp_segment peer 0x18 part))
            (take 4 n.tcp_peer_ip)
            n
          ≡ done n')
        × (n'.tcp_out ≡ n.tcp_out ++ part)
        × Expects (after_part peer part) rest n'
  unfolding tcp_segment
  handle_tcp-segment fuel part rest peer n e =
      let p = tcp_segment peer 0x18 part in
      let (n', eq, out, e') =
        next_part fuel p (word_at p 8) part rest peer n (omega arith) refl e in
      (
        n',
        handle_tcp-ours device poll fuel p (take 4 n.tcp_peer_ip) n
              (tcp_segment-is_ours peer n part rest e)
            ∙ ap (λ seq. take_segment device poll fuel p (length p) 20 seq (word_at p 8) 0x18 n)
                (word-back peer.tcp_snd_nxt e.next_small)
            ∙ eq,
        out,
        e',
      )
