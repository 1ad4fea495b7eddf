-- ===== src/Net/Delivery.antt =====
-- kernel/net.c: a stream from the `send_tcp` of one side to the `handle_frame` of the other.
use un_orion.Common.{
  ℕ, ◌+◌, ◌≤◌, ◌≡◌, refl, sym, ap, ◌∙◌, true, List, [], ◌∷◌, ◌++◌, append_assoc, append-nil, Bytes,
  length, length-append, u32, if◌then◌else◌, Run, done, ◌>>=◌, arith,
}
use un_orion.Net.State.{Device, Net, tcp_segment, eth_tx, make_ipv4, same_subnet}
use un_orion.Net.Stack.{send_tcp, handle_tcp}
use un_orion.Net.Stack.Receive.{handle_frame}
use un_orion.Net.Stack.Send.{is_linked, tcp_sent, send_tcp-linked, length-tcp_segment}
use un_orion.Net.Stack.Frame.{IsWhole, tcp_frame, handle_frame-tcp_frame}
use un_orion.Net.Session.Segment.{Expects, after_part, handle_tcp-segment}

abbrev pub joined : List Bytes → Bytes
joined [] = []
joined (part ∷ parts) = part ++ joined parts

-- A driver with the frames that it took, in their order.
abbrev pub logged : {V : Type 0} → Device V → Device (List Bytes × V)
logged cable = record {
  start = λ w. ((cable.start w.1).0, (w.0, (cable.start w.1).1));
  transmit = λ f w.
      let (taken, v) = cable.transmit f w.1 in (taken, ((if taken then w.0 ++ f ∷ [] else w.0), v));
  next_frame = λ w. ((cable.next_frame w.1).0, (w.0, (cable.next_frame w.1).1));
  now_ms = λ w. ((cable.now_ms w.1).0, (w.0, (cable.now_ms w.1).1));
  timer_ticks = λ w. cable.timer_ticks w.1;
}

-- Each part fits in a frame.
pub data AllFit : List Bytes → Type 0 where
  none_left : AllFit []
  fits :
      (part : Bytes) (parts : List Bytes)
      → length part ≤ 1460
      → AllFit parts
      → AllFit (part ∷ parts)

-- A side that can send: it is up, linked to its gateway, and its addresses have their sizes.
pub record CanSend {V : Type 0} (peer : Net V) : Type 0 where
  pub up : peer.ready ≡ true
  pub linked : is_linked peer.tcp_peer_ip peer ≡ true
  pub whole : IsWhole peer

module _ {V : Type 0} (device : Device V) (poll : Net V → Run (Net V)) where
  -- `send_tcp` of one part after the other, with PSH and ACK.
  abbrev pub send_all : ℕ → List Bytes → Net V → Run (Net V)
  send_all fuel [] n = done n
  send_all fuel (part ∷ parts) n = do
    n' ← send_tcp device poll fuel 0x18 part n
    send_all fuel parts n'

module _ {W : Type 0} (device : Device W) (poll : Net W → Run (Net W)) where
  -- `handle_frame` on one frame after the other.
  abbrev pub deliver : ℕ → List Bytes → Net W → Run (Net W)
  deliver fuel [] n = done n
  deliver fuel (f ∷ fs) n = do n' ← handle_frame device poll fuel f n; deliver fuel fs n'

module _ {V W : Type 0} (cable : Device V)
    (wait : Net (List Bytes × V) → Run (Net (List Bytes × V))) (device : Device W)
    (poll : Net W → Run (Net W)) where
  abbrev part_sent : Bytes → Net (List Bytes × V) → Net (List Bytes × V)
  part_sent part peer = tcp_sent (logged cable) 0x18 part peer

  part_sent-CanSend :
      (part : Bytes) (peer : Net (List Bytes × V)) → CanSend peer → CanSend (part_sent part peer)
  unfolding eth_tx make_ipv4 same_subnet
  part_sent-CanSend part peer c = record {
    up = c.up;
    linked = c.linked;
    whole = record {
      mac = c.whole.mac;
      gateway_mac = c.whole.gateway_mac;
      ip_addr = c.whole.ip_addr;
      tcp_peer_ip = c.whole.tcp_peer_ip;
    };
  }

  -- The driver takes the frame of a part.
  part_sent-log :
      (part : Bytes) (peer : Net (List Bytes × V))
      → peer.ready ≡ true
      → ((f : Bytes) (v : V) → (cable.transmit f v).0 ≡ true)
      → (part_sent part peer).world.0
        ≡ peer.world.0 ++ tcp_frame peer (tcp_segment peer 0x18 part) ∷ []
  unfolding eth_tx make_ipv4
  part_sent-log part peer up takes = rw (up, takes) refl

  part_sent-Expects :
      (part : Bytes) (rest : ℕ) (peer : Net (List Bytes × V)) (n : Net W)
      → Expects (after_part peer part) rest n
      → Expects (part_sent part peer) rest n
  unfolding eth_tx make_ipv4
  part_sent-Expects part rest peer n e = record {
    linked = e.linked;
    settled = e.settled;
    room = e.room;
    from_port = e.from_port;
    to_port = e.to_port;
    from_ip = e.from_ip;
    to_ip = e.to_ip;
    from_small = e.from_small;
    to_small = e.to_small;
    next = e.next;
    next_small = e.next_small;
  }

  -- One part, from `send_tcp` to `tcp_out`.
  part_delivered :
      (fuel : ℕ) (part : Bytes) (rest : ℕ) (peer : Net (List Bytes × V)) (n : Net W)
      → length part ≤ 1460
      → CanSend peer
      → Expects peer (length part + rest) n
      → (n' : Net W) × (handle_frame device poll fuel
            (tcp_frame peer (tcp_segment peer 0x18 part))
            n
          ≡ done n')
        × (n'.tcp_out ≡ n.tcp_out ++ part)
        × (n'.tcp_rcv_nxt ≡ u32 (n.tcp_rcv_nxt + length part))
        × Expects (part_sent part peer) rest n'
  part_delivered fuel part rest peer n short c e =
      let p = tcp_segment peer 0x18 part in
      let (n', eq, out, e') = handle_tcp-segment device poll fuel part rest peer n e in
      (
        n',
        handle_frame-tcp_frame device poll fuel peer n p c.whole
              (omega (arith, length-tcp_segment peer 0x18 part)) e.to_ip
            ∙ ap (λ src. handle_tcp device poll fuel p (length p) src n) e.from_ip
            ∙ eq,
        out,
        e'.next ∙ ap (λ v. u32 (v + length part)) (sym e.next),
        part_sent-Expects part rest peer n' e',
      )

-- A stream cut into parts of at most 1460 bytes goes from one side's `send_tcp`, with PSH and ACK, to the
-- other side's `handle_frame`. The sender is up and linked to its gateway, and its driver takes each
-- frame; the receiver is linked to its gateway, is past the handshake, expects the sender's next number
-- between their addresses and ports, and has room for the stream. Then sending returns; if the frames
-- that the driver took are handed over in their order, each call returns, the stream is behind what
-- waited before, in its order, and is acknowledged up to its end.
pub deliver-segments :
    {V W : Type 0} (cable : Device V) (wait : Net (List Bytes × V) → Run (Net (List Bytes × V)))
    (device : Device W) (poll : Net W → Run (Net W)) (fuel : ℕ) (parts : List Bytes)
    (peer : Net (List Bytes × V)) (n : Net W)
    → ((f : Bytes) (v : V) → (cable.transmit f v).0 ≡ true)
    → AllFit parts
    → CanSend peer
    → Expects peer (length (joined parts)) n
    → (peer' : Net (List Bytes × V)) × (frames : List Bytes) × (n' : Net W) × (send_all
          (logged cable)
          wait
          fuel
          parts
          peer
        ≡ done peer')
      × (peer'.world.0 ≡ peer.world.0 ++ frames)
      × (deliver device poll fuel frames n ≡ done n')
      × (n'.tcp_out ≡ n.tcp_out ++ joined parts)
      × (n'.tcp_rcv_nxt ≡ u32 (n.tcp_rcv_nxt + length (joined parts)))
deliver-segments cable wait device poll fuel _ peer n takes none_left c e = (
  peer,
  [],
  n,
  refl,
  sym (append-nil peer.world.0),
  refl,
  sym (append-nil n.tcp_out),
  omega (arith, e.next, e.next_small),
)
deliver-segments cable wait device poll fuel _ peer n takes (fits part parts short all) c e =
    let room : length (part ++ joined parts) ≡ length part + length (joined parts) =
      length-append part (joined parts) in
    let f = tcp_frame peer (tcp_segment peer 0x18 part) in
    let peer1 = tcp_sent (logged cable) 0x18 part peer in
    let (n1, eq, out, number, e1) =
      part_delivered cable wait device poll fuel part (length (joined parts)) peer n short c
        (rw room at e) in
    let (peer', frames, n', sent, log, come, out', next) =
      deliver-segments cable wait device poll fuel parts peer1 n1 takes all
        (part_sent-CanSend cable wait device poll part peer c) e1 in
    let first = send_tcp-linked (logged cable) wait fuel 0x18 part peer c.linked short in
    let logged_first = part_sent-log cable wait device poll part peer c.up takes in
    (
      peer',
      f ∷ frames,
      n',
      rw first sent,
      log ∙ ap (λ l. l ++ frames) logged_first ∙ append_assoc peer.world.0 (f ∷ []) frames,
      rw eq come,
      out' ∙ ap (λ r. r ++ joined parts) out ∙ append_assoc n.tcp_out part (joined parts),
      next ∙ omega (arith, number, room),
    )
