-- ===== src/Net/Stack/Receive.antt =====
-- kernel/net.c: `handle_udp` with the DNS response, the handlers of IP packets and of frames, and
-- `net_poll`, whose fuel bounds how deep a sender's wait polls within a poll.
use un_orion.Common.{
  ℕ, zero, suc, ◌+◌, ◌-◌, ◌*◌, ◌/◌, ◌%◌, ◌^◌, bit_and, not, ◌&&◌, ◌||◌, Option, none, some, pos,
  minus_one, Bytes, take, drop, length, u16, u64, same_bytes, ltb, ◌==◌, if◌then◌else◌, Run, done,
  out_of_fuel, ◌>>=◌, read, read_block,
}
use un_orion.Dhcp.Client.{get16}
use un_orion.Net.State.{Device, Net}
use un_orion.Net.Stack.{handle_arp, handle_icmp, handle_tcp}

-- `dns_skip_name` from offset `o`; `fuel` is what `labels++<128` leaves.
unfoldable pub skip_labels : ℕ → Bytes → ℕ → ℕ → Run ℕ
skip_labels zero d n o = done (n + 1)
skip_labels (suc fuel) d n o = if not (ltb o n) then done (n + 1) else do
  z ← read d o
  let rest = skip_labels fuel d n (o + 1 + z)
  if z == 0
      then done (o + 1)
      else if bit_and z 0xc0 == 0xc0
      then done (o + 2)
      else if not (bit_and z 0xc0 == 0) || ltb 63 z || ltb n (o + 1 + z)
      then done (n + 1)
      else rest

unfoldable pub dns_skip_name : Bytes → ℕ → ℕ → Run ℕ
dns_skip_name d n o = skip_labels 128 d n o

-- The loop over the questions: the offset behind them.
unfoldable pub skip_questions : ℕ → Bytes → ℕ → ℕ → Run (Option ℕ)
skip_questions zero d n o = done (some o)
skip_questions (suc qd) d n o = do
  e ← dns_skip_name d n o
  let rest = skip_questions qd d n (e + 4)
  if ltb n e || ltb n (e + 4) then done none else rest

-- The loop over the answers: the first address.
unfoldable pub find_answer : ℕ → Bytes → ℕ → ℕ → Run (Option Bytes)
find_answer zero d n o = done none
find_answer (suc an) d n o = do
  e ← dns_skip_name d n o
  if ltb n e || ltb n (e + 10) then done none else do
    typ ← get16 d e
    cls ← get16 d (e + 2)
    rdl ← get16 d (e + 8)
    let rest = find_answer an d n (e + 10 + rdl)
    if ltb n (e + 10 + rdl)
        then done none
        else if typ == 1 && cls == 1 && rdl == 4
        then (do a ← read_block d (e + 10) 4; done (some a))
        else rest

-- The answer of a response `d` of `n` bytes.
unfoldable pub dns_answer_of : Bytes → ℕ → Run (Option Bytes)
dns_answer_of d n = do
  qd ← get16 d 4
  an ← get16 d 6
  o ← skip_questions qd d n 12
  elim o [ none ↦ done none | some e ↦ find_answer an d n e ]

module _ {W : Type 0} where
  abbrev pub set_answer : Option Bytes → Net W → Net W
  set_answer none n = record n { dns_done = minus_one }
  set_answer (some a) n = record n { dns_answer = a; dns_done = pos 1 }

  -- `handle_udp` on the response.
  unfoldable pub handle_dns : Bytes → ℕ → Net W → Run (Net W)
  handle_dns d size n = if ltb size 12 then done n else do
    id ← get16 d 0
    flags ← get16 d 2
    if not (id == n.dns_id) || bit_and flags 0x8000 == 0
        then done n
        else if not (bit_and flags 0x000f == 0)
        then done (record n { dns_done = minus_one })
        else (do a ← dns_answer_of d size; done (set_answer a n))

  unfoldable pub handle_udp : Bytes → ℕ → Net W → Run (Net W)
  handle_udp p len n = if ltb len 8 then done n else do
    sp ← get16 p 0
    dp ← get16 p 2
    ulen ← get16 p 4
    if ltb ulen 8 || ltb len ulen || not (sp == 53) || n.dns_id == 0 || not (dp == n.dns_port)
        then done n
        else handle_dns (drop 8 p) (ulen - 8) n

  module _ (device : Device W) (poll : Net W → Run (Net W)) where
    -- `plen = total-ihl` wraps around in 64 bits.
    unfoldable pub handle_ip : ℕ → Bytes → Net W → Run (Net W)
    handle_ip fuel p n = if ltb (length p) 20 then done n else do
      first ← read p 0
      said ← get16 p 2
      proto ← read p 9
      src ← read_block p 12 4
      dst ← read_block p 16 4
      let ihl = first % 16 * 4
      let total = if ltb (length p) said then u16 (length p) else said
      let plen = u64 (total + 2 ^ 64 - ihl)
      if not (first / 16 == 4)
            || ltb ihl 20
            || ltb (length p) ihl
            || not (same_bytes dst (take 4 n.ip_addr))
          then done n
          else if proto == 1
          then handle_icmp device poll fuel (drop ihl p) plen src n
          else if proto == 17
          then handle_udp (drop ihl p) plen n
          else if proto == 6
          then handle_tcp device poll fuel (drop ihl p) plen src n
          else done n

    unfoldable pub handle_frame : ℕ → Bytes → Net W → Run (Net W)
    handle_frame fuel p n = if ltb (length p) 14 then done n else do
      t ← get16 p 12
      if t == 0x0806
          then handle_arp device (drop 14 p) n
          else if t == 0x0800
          then handle_ip fuel (drop 14 p) n
          else done n

    unfoldable pub rx_dispatch : ℕ → Bytes → Net W → Run (Net W)
    rx_dispatch fuel frame n = do
      n' ← handle_frame fuel frame n
      done (record n' { rx_count = u64 (n'.rx_count + 1) })

    -- `netdev_poll(rx_dispatch)`, of at most `turns` frames.
    unfoldable pub dispatch_all : ℕ → ℕ → Net W → Run (Net W)
    dispatch_all zero fuel n = out_of_fuel
    dispatch_all (suc turns) fuel n =
        let (frame, w) = device.next_frame n.world in
        elim frame [
          | none ↦ done (record n { world = w })
          | some f ↦ do n' ← rx_dispatch fuel f (record n { world = w }); dispatch_all turns fuel n'
        ]

  unfoldable pub net_poll : Device W → ℕ → Net W → Run (Net W)
  net_poll device zero n = out_of_fuel
  net_poll device (suc fuel) n =
      if not n.ready then done n else dispatch_all device (net_poll device fuel) fuel fuel n
