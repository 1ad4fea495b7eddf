-- ===== src/Net/Session.antt =====
-- kernel/net.c: a TCP connection from the segments that arrive to what `net_tcp_read` hands over.
pub mod Prefix
pub mod Segment
use un_orion.Common.{
  ℕ, zero, suc, ◌+◌, ◌-◌, ◌*◌, ◌/◌, ◌^◌, ◌≤◌, ◌<◌, ◌≡◌, refl, ap, ◌∙◌, subst, min, Bool, true,
  false, not, ◌&&◌, ◌||◌, Option, none, some, [], ◌∷◌, ◌++◌, append_assoc, Bytes, byte, take, drop,
  length, length-drop, u32, same_bytes, ltb, leb, ◌==◌, Bool-cases, inl, inr, Run, done,
  read-eq-done, arith,
}
use un_orion.Dhcp.Reply.Safety.{word_at}
use un_orion.Dhcp.Reply.Scan.{get32-eq-done}
use un_orion.Net.State.{Device, Net, same_subnet}
use un_orion.Net.Stack.{is_event, take_segment, handle_tcp}
use un_orion.Net.Stack.Poll.{half_at, get16-eq-done}
use un_orion.Net.Stack.Send.{is_linked}
use un_orion.Net.Stack.Stream.{Keeps, IsPiece, take-whole, take_segment-Keeps}
use un_orion.Net.Client.{read_loop, net_tcp_read}

abbrev pub header_length : Bytes → ℕ
header_length p = byte p 12 / 16 * 4

-- The tests of `handle_tcp` before it looks at the flags.
abbrev pub is_ours : {W : Type 0} → Bytes → Bytes → Net W → Bool
is_ours p src n =
    leb 20 (length p)
    && same_bytes src (take 4 n.tcp_peer_ip)
    && half_at p 0 == n.tcp_peer_port
    && half_at p 2 == n.tcp_local_port
    && leb 20 (header_length p)
    && leb (header_length p) (length p)

module _ {W : Type 0} (device : Device W) (poll : Net W → Run (Net W)) where
  -- What happens on a connection from `start` on: `got` is handed over so far. A segment that passes the
  -- tests is the peer's, and there is room for its data; it may be late, early or a copy.
  pub data Session (stream : Bytes) (isn : ℕ) (start : Net W) : Bytes → Net W → Type 0 where
    begins : Session stream isn start [] start
    arrives :
        (fuel : ℕ) (p src got : Bytes) (n n' : Net W)
        → Session stream isn start got n
        → (is_ours p src n ≡ true
            → IsPiece stream isn
                (word_at p 4)
                (byte p 13)
                (length p - header_length p)
                (drop (header_length p) p))
        → length p - header_length p ≤ n.tcp_out_cap - length n.tcp_out
        → handle_tcp device poll fuel p (length p) src n ≡ done n'
        → Session stream isn start got n'
    hands_over :
        (fuel cap ms : ℕ) (got bytes : Bytes) (n n' : Net W)
        → Session stream isn start got n
        → (length n.tcp_out == 0) ≡ false
        → net_tcp_read device poll fuel cap ms n ≡ done (some bytes, n')
        → Session stream isn start (got ++ bytes) n'

  -- `handle_tcp` where its tests are passed, and where they are not.
  pub handle_tcp-ours :
      (fuel : ℕ) (p src : Bytes) (n : Net W)
      → is_ours p src n ≡ true
      → handle_tcp device poll fuel p (length p) src n
        ≡ take_segment device poll fuel p
            (length p)
            (header_length p)
            (word_at p 4)
            (word_at p 8)
            (byte p 13)
            n
  unfolding handle_tcp
  handle_tcp-ours fuel p src n h =
      let long : 20 ≤ length p = ground arith in
      let a : ltb (length p) 20 || not (same_bytes src (take 4 n.tcp_peer_ip)) ≡ false =
        ground arith in
      let b : not (half_at p 0 == n.tcp_peer_port) || not (half_at p 2 == n.tcp_local_port)
          ≡ false =
        ground arith in
      let c : ltb (header_length p) 20 || ltb (length p) (header_length p) ≡ false = ground arith in
      rw (
        a,
        get16-eq-done p 0 (omega arith),
        get16-eq-done p 2 (omega arith),
        b,
        get32-eq-done p 4 (omega arith),
        get32-eq-done p 8 (omega arith),
        read-eq-done p 12 (omega arith),
        read-eq-done p 13 (omega arith),
        c,
      )

  pub handle_tcp-others :
      (fuel : ℕ) (p src : Bytes) (n : Net W)
      → is_ours p src n ≡ false
      → handle_tcp device poll fuel p (length p) src n ≡ done n
  unfolding handle_tcp
  handle_tcp-others fuel p src n h =
      elim (Bool-cases (ltb (length p) 20 || not (same_bytes src (take 4 n.tcp_peer_ip)))) [
        | inl y ↦ rw y
        | inr a ↦
            let long : 20 ≤ length p = ground arith in
            rw (a, get16-eq-done p 0 (omega arith), get16-eq-done p 2 (omega arith))
              (elim (Bool-cases
                (not (half_at p 0 == n.tcp_peer_port) || not (half_at p 2 == n.tcp_local_port))) [
                  | inl y ↦ rw y
                  | inr b ↦
                      let c : ltb (header_length p) 20 || ltb (length p) (header_length p) ≡ true =
                        ground arith in
                      rw (
                        b,
                        get32-eq-done p 4 (omega arith),
                        get32-eq-done p 8 (omega arith),
                        read-eq-done p 12 (omega arith),
                        read-eq-done p 13 (omega arith),
                        c,
                      )
                ])
      ]
