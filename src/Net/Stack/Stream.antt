-- ===== src/Net/Stack/Stream.antt =====
-- kernel/net.c: what the receiving side of a TCP connection keeps of the peer's stream.
use un_orion.Common.{
  ℕ, zero, suc, ◌+◌, ◌-◌, ◌^◌, ◌≤◌, ◌<◌, ◌≡◌, inl, inr, refl, sym, ap, ◌∙◌, bit_and, min, true,
  false, not, ◌&&◌, ◌||◌, pos, minus_one, [], ◌∷◌, ◌++◌, append_assoc, Bytes, take, drop, length,
  u64, u32, leb, ◌==◌, if◌then◌else◌, Bool-cases, Run, done, read_block-eq-done, arith,
}
use un_orion.Net.State.{Device, Net, same_subnet, eth_tx, make_ipv4}
use un_orion.Net.Stack.{is_event, take_data, take_fin, take_segment}
use un_orion.Net.Stack.Send.{is_linked, tcp_sent, send_tcp-linked}

-- Of the stream `stream`, whose first byte has the number `isn`, the bytes before `count` are handed
-- over or wait, and `count` is what is acknowledged; it is one more once the FIN is.
pub record Keeps {W : Type 0} (stream : Bytes) (isn : ℕ) (got : Bytes) (n : Net W) : Type 0 where
  pub count : ℕ
  pub kept : got ++ n.tcp_out ≡ take count stream
  pub bound : count ≤ suc (length stream)
  pub next : n.tcp_rcv_nxt ≡ u32 (isn + count)
  pub linked : is_linked n.tcp_peer_ip n ≡ true
  pub opened : is_event n.tcp_event 1 ≡ false

-- A segment of `size` bytes that the peer may send, now or again.
pub record IsPiece (stream : Bytes) (isn seq flags size : ℕ) (body : Bytes) : Type 0 where
  pub offset : ℕ
  pub number : seq ≡ u32 (isn + offset)
  pub inside : offset + size ≤ length stream
  pub bytes : body ≡ take size (drop offset stream)
  pub last : (bit_and flags 0x01 == 0) || (offset + size == length stream) ≡ true

take-more : (k m : ℕ) (s : Bytes) → take k s ++ take m (drop k s) ≡ take (k + m) s
take-more zero m s = let e : zero + m ≡ m = omega arith in rw e refl
take-more (suc k) zero [] = let e : suc k + 0 ≡ suc k = omega arith in rw e refl
take-more (suc k) (suc m) [] = let e : suc k + suc m ≡ suc (k + suc m) = omega arith in rw e refl
take-more (suc k) m (c ∷ s) =
    let e : suc k + m ≡ suc (k + m) = omega arith in rw e (ap (λ r. c ∷ r) (take-more k m s))

-- The sequence numbers of two offsets below 2^32.
same_offset : (isn a b : ℕ) → a < 2 ^ 32 → b < 2 ^ 32 → u32 (isn + a) ≡ u32 (isn + b) → a ≡ b
same_offset isn a b h k e = omega arith

pub take-whole : (n : ℕ) (s : Bytes) → length s ≤ n → take n s ≡ s
take-whole zero [] h = refl
take-whole (suc n) [] h = refl
take-whole zero (c ∷ s) h = absurd (omega arith)
take-whole (suc n) (c ∷ s) h = ap (λ r. c ∷ r) (take-whole n s (omega arith))

-- The acknowledged number after a FIN.
after_fin :
    (isn count length_stream offset size seq next : ℕ)
    → suc length_stream < 2 ^ 32
    → offset + size ≡ length_stream
    → count ≤ suc length_stream
    → seq ≡ u32 (isn + offset)
    → next ≡ u32 (isn + count)
    → u64 (seq + size) ≡ next
    → (count ≡ length_stream) × (u32 (next + 1) ≡ u32 (isn + suc length_stream))
after_fin isn count length_stream offset size seq next s e b p q h =
    let a : seq + size ≡ next = omega arith in
    let c : u32 (isn + length_stream) ≡ u32 (isn + count) = omega arith in
    let d : count ≡ length_stream =
      sym (same_offset isn length_stream count (omega arith) (omega arith) c) in
    (d, omega arith)

module _ {W : Type 0} (device : Device W) (poll : Net W → Run (Net W)) (stream : Bytes) (isn : ℕ)
    (short : suc (length stream) < 2 ^ 32) where
  take_fin-Keeps :
      (fuel flags size seq : ℕ) (got body : Bytes) (n : Net W)
      → IsPiece stream isn seq flags size body
      → Keeps stream isn got n
      → (n' : Net W) × (take_fin device poll fuel flags size seq n ≡ done n')
        × Keeps stream isn got n'
  unfolding eth_tx make_ipv4 same_subnet
  take_fin-Keeps fuel flags size seq got body n piece k =
      elim (Bool-cases (bit_and flags 0x01 == 0)) [
        | inl y ↦ (n, rw y, k)
        | inr fin ↦
            let at_end : piece.offset + size ≡ length stream = ground arith in
            elim (Bool-cases (u64 (seq + size) == n.tcp_rcv_nxt)) [
              | inl y ↦
                  let (c, e) =
                    after_fin isn k.count (length stream) piece.offset size seq n.tcp_rcv_nxt short
                      at_end k.bound piece.number k.next (ground arith) in
                  let n1 = record n { tcp_rcv_nxt = u32 (n.tcp_rcv_nxt + 1) } in
                  (
                    record (tcp_sent device 0x10 [] n1) { tcp_event = pos 4 },
                    rw (fin, y, send_tcp-linked device poll fuel 0x10 [] n1 k.linked (omega arith)),
                    record {
                      count = suc (length stream);
                      kept =
                          k.kept
                          ∙ take-whole k.count stream (omega arith)
                          ∙ sym (take-whole (suc (length stream)) stream (omega arith));
                      bound = omega arith;
                      next = e;
                      linked = k.linked;
                      opened = refl;
                    },
                  )
              | inr m ↦ (
                record (tcp_sent device 0x10 [] n) { tcp_event = pos 4 },
                rw (fin, m, send_tcp-linked device poll fuel 0x10 [] n k.linked (omega arith)),
                record {
                  count = k.count;
                  kept = k.kept;
                  bound = k.bound;
                  next = k.next;
                  linked = k.linked;
                  opened = refl;
                },
              )
            ]
      ]

  take_data-Keeps :
      (fuel flags : ℕ) (p : Bytes) (at size seq : ℕ) (got : Bytes) (n : Net W)
      → at + size ≤ length p
      → size ≤ n.tcp_out_cap - length n.tcp_out
      → IsPiece stream isn seq flags size (take size (drop at p))
      → Keeps stream isn got n
      → (n' : Net W) × (take_data device poll fuel p at size seq n ≡ done n')
        × Keeps stream isn got n'
  unfolding eth_tx make_ipv4 same_subnet
  take_data-Keeps fuel flags p at size seq got n inside room piece k =
      elim (Bool-cases (not (size == 0) && seq == n.tcp_rcv_nxt)) [
        | inr m ↦ (n, rw m, k)
        | inl y ↦
            let whole : min size (n.tcp_out_cap - length n.tcp_out) ≡ size = omega arith in
            let e : piece.offset ≡ k.count =
              same_offset isn piece.offset k.count (omega (arith, piece.inside))
                (omega (arith, k.bound)) (sym piece.number ∙ ground arith ∙ k.next) in
            let bytes = take size (drop at p) in
            let n1 = record n {
              tcp_out = n.tcp_out ++ bytes;
              tcp_rcv_nxt = u32 (n.tcp_rcv_nxt + size);
            } in
            (
              record (tcp_sent device 0x10 [] n1) { tcp_event = pos 3 },
              rw (
                y,
                whole,
                read_block-eq-done p at size inside,
                send_tcp-linked device poll fuel 0x10 [] n1 k.linked (omega arith),
              ),
              record {
                count = k.count + size;
                kept =
                    sym (append_assoc got n.tcp_out bytes)
                    ∙ ap (λ r. r ++ bytes) k.kept
                    ∙ ap (λ r. take k.count stream ++ r)
                        (piece.bytes ∙ ap (λ o. take size (drop o stream)) e)
                    ∙ take-more k.count size stream;
                bound = omega (arith, piece.inside);
                next = omega (arith, k.next);
                linked = k.linked;
                opened = refl;
              },
            )
      ]

  pub take_segment-Keeps :
      (fuel : ℕ) (p : Bytes) (at seq ack flags : ℕ) (got : Bytes) (n : Net W)
      → at ≤ length p
      → length p - at ≤ n.tcp_out_cap - length n.tcp_out
      → IsPiece stream isn seq flags (length p - at) (take (length p - at) (drop at p))
      → Keeps stream isn got n
      → (n' : Net W) × (take_segment device poll fuel p (length p) at seq ack flags n ≡ done n')
        × Keeps stream isn got n'
  unfolding take_segment same_subnet
  take_segment-Keeps fuel p at seq ack flags got n0 inside room piece k0 =
      let acked =
        not (bit_and flags 0x10 == 0) && leb n0.tcp_snd_una ack && leb ack n0.tcp_snd_nxt in
      let n = record n0 { tcp_snd_una = if acked then ack else n0.tcp_snd_una } in
      let k : Keeps stream isn got n = record {
        count = k0.count;
        kept = k0.kept;
        bound = k0.bound;
        next = k0.next;
        linked = k0.linked;
        opened = k0.opened;
      } in
      let started : bit_and flags 0x12 == 0x12 && is_event n.tcp_event 1 && ack == n.tcp_snd_nxt
          ≡ false =
        ground arith in
      elim (Bool-cases (not (bit_and flags 0x04 == 0))) [
        | inl y ↦ (
          record n { tcp_event = minus_one },
          rw (started, y),
          record {
            count = k.count;
            kept = k.kept;
            bound = k.bound;
            next = k.next;
            linked = k.linked;
            opened = refl;
          },
        )
        | inr m ↦
            let (n1, e1, k1) =
              take_data-Keeps fuel flags p at (length p - at) seq got n (omega arith) room piece
                k in
            let (n2, e2, k2) = take_fin-Keeps fuel flags (length p - at) seq got _ n1 piece k1 in
            (n2, rw (started, m, e1) e2, k2)
      ]
