-- ===== src/Net/Stack/Poll.antt =====
-- kernel/net.c: no received frame makes the stack read outside of it or write behind `tcp_out`, so long
-- as an IP packet's total length covers its header.
use un_orion.Common.{
  ℕ, zero, suc, ◌+◌, ◌-◌, ◌*◌, ◌/◌, ◌%◌, ◌^◌, ◌≤◌, ◌<◌, ◌≡◌, refl, Bool, true, not, ◌||◌, Option,
  none, some, Bytes, byte, take, drop, length, length-drop, u16, u64, same_bytes, ltb, leb, ◌==◌,
  if◌then◌else◌, Run, done, ◌>>=◌, read-eq-done, read_block-eq-done, Always, Always-bind, Always-if,
  arith,
}
use un_orion.Dhcp.Client.{get16}
use un_orion.Net.State.{Device, Net}
use un_orion.Net.Stack.Receive.{handle_ip, handle_frame, rx_dispatch, dispatch_all, net_poll}
use un_orion.Net.Stack.Safety.{Fits}
use un_orion.Net.Stack.Safety.Dns.{handle_udp-Fits}
use un_orion.Net.Stack.Safety.Handlers.{handle_icmp-Fits, handle_tcp-Fits, handle_arp-Fits}

-- The 16 bits at `i`.
abbrev pub half_at : Bytes → ℕ → ℕ
half_at p i = u16 (byte p i * 2 ^ 8 + byte p (i + 1))

pub get16-eq-done : (p : Bytes) (i : ℕ) → i + 1 < length p → get16 p i ≡ done (half_at p i)
unfolding get16
get16-eq-done p i h = rw (read-eq-done p i (omega arith), read-eq-done p (i + 1) h)

-- The total length of a packet covers its header.
abbrev pub has_header : Bytes → Bool
has_header p = leb (byte p 0 % 16 * 4) (half_at p 2)

-- So it is for the IP packet in `f`, if there is one.
unfoldable pub is_sized : Bytes → Bool
is_sized f = not (half_at f 12 == 0x0800) || has_header (drop 14 f)

module _ {W : Type 0} (device : Device W) (poll : Net W → Run (Net W))
    (safe : (n : Net W) → Fits n → Always Fits (poll n)) where
  handle_ip-Fits :
      (fuel : ℕ) (p : Bytes) (n : Net W)
      → has_header p ≡ true
      → Fits n
      → Always Fits (handle_ip device poll fuel p n)
  unfolding handle_ip
  handle_ip-Fits fuel p n sized k =
      Always-if Fits (ltb (length p) 20) _ _ (λ a. k)
        (λ a.
          let long : 20 ≤ length p = ground arith in
          let ihl = byte p 0 % 16 * 4 in
          let total = if ltb (length p) (half_at p 2) then u16 (length p) else half_at p 2 in
          let src = take 4 (drop 12 p) in
          let dst = take 4 (drop 16 p) in
          let proto = byte p 9 in
          rw
            (
              read-eq-done p 0 (omega arith),
              get16-eq-done p 2 (omega arith),
              read-eq-done p 9 (omega arith),
              read_block-eq-done p 12 4 (omega arith),
              read_block-eq-done p 16 4 (omega arith),
            )
            (Always-if Fits
              (not (byte p 0 / 16 == 4)
                || ltb ihl 20
                || ltb (length p) ihl
                || not (same_bytes dst (take 4 n.ip_addr)))
              _ _ (λ b. k)
              (λ b.
                let inside : u64 (total + 2 ^ 64 - ihl) ≤ length (drop ihl p) =
                  ground (arith, length-drop ihl p) in
                Always-if Fits (proto == 1) _ _
                  (λ c. handle_icmp-Fits device poll safe fuel (drop ihl p) _ src n inside k)
                  (λ c.
                    Always-if Fits (proto == 17) _ _
                      (λ d. handle_udp-Fits (drop ihl p) _ n inside k)
                      (λ d.
                        Always-if Fits (proto == 6) _ _
                          (λ e. handle_tcp-Fits device poll safe fuel (drop ihl p) _ src n inside k)
                          (λ e. k))))))

  handle_frame-Fits :
      (fuel : ℕ) (f : Bytes) (n : Net W)
      → is_sized f ≡ true
      → Fits n
      → Always Fits (handle_frame device poll fuel f n)
  unfolding handle_frame is_sized
  handle_frame-Fits fuel f n sized k =
      Always-if Fits (ltb (length f) 14) _ _ (λ a. k)
        (λ a. rw (get16-eq-done f 12 (ground arith)) (
          Always-if Fits (half_at f 12 == 0x0806) _ _
            (λ b. handle_arp-Fits device poll safe (drop 14 f) n k)
            (λ b.
              Always-if Fits (half_at f 12 == 0x0800) _ _
                (λ c. handle_ip-Fits fuel (drop 14 f) n (ground arith) k) (λ c. k))))

  rx_dispatch-Fits :
      (fuel : ℕ) (f : Bytes) (n : Net W)
      → is_sized f ≡ true
      → Fits n
      → Always Fits (rx_dispatch device poll fuel f n)
  unfolding rx_dispatch Fits
  rx_dispatch-Fits fuel f n sized k =
      Always-bind Fits Fits (handle_frame device poll fuel f n) _
        (handle_frame-Fits fuel f n sized k) (λ n' k'. k')

  received :
      (turns fuel : ℕ) (frame : Option Bytes) (n : Net W)
      → ((f : Bytes) → frame ≡ some f → is_sized f ≡ true)
      → ((n' : Net W) → Fits n' → Always Fits (dispatch_all device poll turns fuel n'))
      → Fits n
      → Always Fits (elim frame [
        | none ↦ done n
        | some f ↦ do n' ← rx_dispatch device poll fuel f n; dispatch_all device poll turns fuel n'
      ])
  received turns fuel none n sized next k = k
  received turns fuel (some f) n sized next k =
      Always-bind Fits Fits (rx_dispatch device poll fuel f n) _
        (rx_dispatch-Fits fuel f n (sized f refl) k) next

  dispatch_all-Fits :
      ((w : W) (f : Bytes) → (device.next_frame w).0 ≡ some f → is_sized f ≡ true)
      → (turns fuel : ℕ) (n : Net W) → Fits n
      → Always Fits (dispatch_all device poll turns fuel n)
  unfolding dispatch_all Fits
  dispatch_all-Fits sized zero fuel n k = tt
  dispatch_all-Fits sized (suc turns) fuel n k =
      let (frame, w) = device.next_frame n.world in
      received turns fuel frame (record n { world = w }) (sized n.world)
        (dispatch_all-Fits sized turns fuel) k

net_poll-safe :
    {W : Type 0} (device : Device W) (fuel : ℕ) (n : Net W)
    → ((w : W) (f : Bytes) → (device.next_frame w).0 ≡ some f → is_sized f ≡ true)
    → Fits n
    → Always Fits (net_poll device fuel n)
unfolding net_poll
net_poll-safe device zero n sized k = tt
net_poll-safe device (suc fuel) n sized k =
    Always-if Fits (not n.ready) _ _ (λ a. k)
      (λ a.
        dispatch_all-Fits device (net_poll device fuel)
          (λ n' k'. net_poll-safe device fuel n' sized k') sized fuel fuel n k)

-- For a driver whose frames, where they are IP packets, state a total length that covers the header:
-- whatever else the frames hold, polling reads only inside of them, in every handler and in the senders
-- that poll in turn, and the bytes that wait to be read still fit in their buffer.
pub net_poll-Fits :
    {W : Type 0} (device : Device W) (fuel : ℕ) (n : Net W)
    → ((w : W) (f : Bytes) → (device.next_frame w).0 ≡ some f → is_sized f ≡ true)
    → length n.tcp_out ≤ n.tcp_out_cap
    → Always (λ n'. length n'.tcp_out ≤ n'.tcp_out_cap) (net_poll device fuel n)
unfolding Fits
net_poll-Fits device fuel n sized h = net_poll-safe device fuel n sized h
