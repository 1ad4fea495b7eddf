-- ===== src/Net/Session/Prefix.antt =====
-- kernel/net.c: what a TCP connection hands over is the start of the peer's stream.
use un_orion.Common.{
  ℕ, zero, suc, ◌+◌, ◌-◌, ◌^◌, ◌≤◌, ◌<◌, ◌≡◌, refl, ap, ◌∙◌, subst, min, true, false, Option, none,
  some, [], ◌∷◌, ◌++◌, append_assoc, Bytes, byte, take, drop, length, length-drop, u32, ◌==◌,
  Bool-cases, inl, inr, Run, done, arith,
}
use un_orion.Dhcp.Reply.Safety.{word_at}
use un_orion.Net.State.{Device, Net, same_subnet}
use un_orion.Net.Stack.{is_event, handle_tcp}
use un_orion.Net.Stack.Send.{is_linked}
use un_orion.Net.Stack.Stream.{Keeps, IsPiece, take-whole, take_segment-Keeps}
use un_orion.Net.Client.{read_loop, net_tcp_read}
use un_orion.Net.Session.{
  Session, begins, arrives, hands_over, header_length, is_ours, handle_tcp-ours, handle_tcp-others,
}

returned :
    {A : Type 0} (a b : Bytes) (n m : A)
    → ◌≡◌ {A = Run (Option Bytes × A)} (done (some a, n)) (done (some b, m))
    → (a ≡ b) × (n ≡ m)
returned a b n m e = (cc, cc)

module _ {W : Type 0} (device : Device W) (poll : Net W → Run (Net W)) where
  read_loop-waiting :
      (fuel cap st ms : ℕ) (bytes : Bytes) (n n' : Net W)
      → (length n.tcp_out == 0) ≡ false
      → read_loop device poll fuel cap st ms n ≡ done (some bytes, n')
      → (take (min (length n.tcp_out) cap) n.tcp_out ≡ bytes)
        × (record n { tcp_out = drop cap n.tcp_out } ≡ n')
  unfolding read_loop
  read_loop-waiting zero cap st ms bytes n n' h e = absurd cc
  read_loop-waiting (suc fuel) cap st ms bytes n n' h e =
      returned (take (min (length n.tcp_out) cap) n.tcp_out) bytes
        (record n { tcp_out = drop cap n.tcp_out }) n' (rw h at e)

  -- What is read first, and the state after it.
  net_tcp_read-waiting :
      (fuel cap ms : ℕ) (bytes : Bytes) (n n' : Net W)
      → (length n.tcp_out == 0) ≡ false
      → net_tcp_read device poll fuel cap ms n ≡ done (some bytes, n')
      → (w : W) × (take (min (length n.tcp_out) cap) n.tcp_out ≡ bytes)
        × (record n { tcp_out = drop cap n.tcp_out; world = w } ≡ n')
  unfolding net_tcp_read
  net_tcp_read-waiting fuel cap ms bytes n n' h e = elim (Bool-cases (cap == 0)) [
    | inl y ↦
        let none_read : ◌≡◌ {A = Run (Option Bytes × Net W)} (done (none, n))
            (done (some bytes, n')) =
          rw y at e in
        absurd cc
    | inr m ↦
        let n1 = record n { world = (device.now_ms n.world).1 } in
        let (a, b) =
          read_loop-waiting fuel cap (device.now_ms n.world).0 ms bytes n1 n' h (rw m at e) in
        (n1.world, a, b)
  ]

take-drop-min : (cap : ℕ) (s : Bytes) → take (min (length s) cap) s ++ drop cap s ≡ s
take-drop-min zero s = let e : min (length s) 0 ≡ 0 = omega arith in rw e refl
take-drop-min (suc cap) [] = let e : min 0 (suc cap) ≡ 0 = omega arith in rw e refl
take-drop-min (suc cap) (c ∷ s) =
    let e : min (suc (length s)) (suc cap) ≡ suc (min (length s) cap) = omega arith in
    rw e (ap (λ r. c ∷ r) (take-drop-min cap s))

one_result : {A : Type 0} (r : Run A) (a b : A) → r ≡ done a → r ≡ done b → a ≡ b
one_result r a b h k = cc

module _ {W : Type 0} (device : Device W) (poll : Net W → Run (Net W)) (stream : Bytes) (isn : ℕ)
    (short : suc (length stream) < 2 ^ 32) where
  handle_tcp-Keeps :
      (fuel : ℕ) (p src got : Bytes) (n n' : Net W)
      → (is_ours p src n ≡ true
          → IsPiece stream isn
              (word_at p 4)
              (byte p 13)
              (length p - header_length p)
              (drop (header_length p) p))
      → length p - header_length p ≤ n.tcp_out_cap - length n.tcp_out
      → handle_tcp device poll fuel p (length p) src n ≡ done n'
      → Keeps stream isn got n
      → Keeps stream isn got n'
  handle_tcp-Keeps fuel p src got n n' piece room e k = elim (Bool-cases (is_ours p src n)) [
    | inl y ↦
        let at = header_length p in
        let size = length p - at in
        let whole : take size (drop at p) ≡ drop at p =
          take-whole size (drop at p) (omega (arith, length-drop at p)) in
        let (n2, e2, k2) =
          take_segment-Keeps device poll stream isn short fuel p at (word_at p 4) (word_at p 8)
            (byte p 13) got n (ground arith) room (rw whole (piece y)) k in
        let same : n2 ≡ n' =
          one_result _ n2 n' (handle_tcp-ours device poll fuel p src n y ∙ e2) e in
        subst (Keeps stream isn got) same k2
    | inr m ↦
        let same : n ≡ n' = one_result _ n n' (handle_tcp-others device poll fuel p src n m) e in
        subst (Keeps stream isn got) same k
  ]

  net_tcp_read-Keeps :
      (fuel cap ms : ℕ) (got bytes : Bytes) (n n' : Net W)
      → (length n.tcp_out == 0) ≡ false
      → net_tcp_read device poll fuel cap ms n ≡ done (some bytes, n')
      → Keeps stream isn got n
      → Keeps stream isn (got ++ bytes) n'
  unfolding same_subnet
  net_tcp_read-Keeps fuel cap ms got bytes n n' h e k =
      let (w, a, b) = net_tcp_read-waiting device poll fuel cap ms bytes n n' h e in
      let first = take (min (length n.tcp_out) cap) n.tcp_out in
      let k' : Keeps stream isn (got ++ first)
          (record n { tcp_out = drop cap n.tcp_out; world = w }) =
        record {
          count = k.count;
          kept =
              append_assoc got first (drop cap n.tcp_out)
              ∙ ap (λ r. got ++ r) (take-drop-min cap n.tcp_out)
              ∙ k.kept;
          bound = k.bound;
          next = k.next;
          linked = k.linked;
          opened = k.opened;
        } in
      rw a at rw b at k'

  Session-Keeps :
      (start : Net W) (got : Bytes) (n : Net W)
      → Keeps stream isn [] start
      → Session device poll stream isn start got n
      → Keeps stream isn got n
  Session-Keeps start _ _ k begins = k
  Session-Keeps start _ _ k (arrives fuel p src got n n' s piece room e) =
      handle_tcp-Keeps fuel p src got n n' piece room e (Session-Keeps start got n k s)
  Session-Keeps start _ _ k (hands_over fuel cap ms got bytes n n' s h e) =
      net_tcp_read-Keeps fuel cap ms got bytes n n' h e (Session-Keeps start got n k s)

-- On a connection through the gateway, whose hardware address is known, past its handshake, from the
-- moment when nothing has come and the number of the peer's first byte is expected, for a stream of
-- less than 2^32 - 1 bytes: whatever order the peer's segments come in, however often, and whichever
-- are lost, so long as the data of each fits in the buffer and a read is made when bytes wait, what
-- `net_tcp_read` has handed over, followed by what waits, is the start of the peer's stream, and its
-- length is what is acknowledged; the FIN is acknowledged after the whole stream only.
pub Session-prefix :
    {W : Type 0} (device : Device W) (poll : Net W → Run (Net W)) (stream : Bytes) (isn : ℕ)
    (start : Net W) (got : Bytes) (n : Net W)
    → suc (length stream) < 2 ^ 32
    → start.tcp_out ≡ []
    → start.tcp_rcv_nxt ≡ u32 isn
    → is_linked start.tcp_peer_ip start ≡ true
    → is_event start.tcp_event 1 ≡ false
    → Session device poll stream isn start got n
    → (k : ℕ) × (got ++ n.tcp_out ≡ take k stream)
      × (k ≤ suc (length stream))
      × (n.tcp_rcv_nxt ≡ u32 (isn + k))
Session-prefix device poll stream isn start got n short empty first linked settled session =
    let k =
      Session-Keeps device poll stream isn short start got n
        (record {
          count = 0;
          kept = empty;
          bound = omega arith;
          next = omega arith;
          linked = linked;
          opened = settled;
        })
        session in
    (k.count, k.kept, k.bound, k.next)
