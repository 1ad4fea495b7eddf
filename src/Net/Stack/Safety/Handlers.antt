-- ===== src/Net/Stack/Safety/Handlers.antt =====
-- kernel/net.c: no packet makes the handlers of ICMP, TCP and ARP read outside of it.
use un_orion.Common.{
  ℕ, ◌+◌, ◌-◌, ◌*◌, ◌/◌, ◌≤◌, bit_and, min, true, not, ◌&&◌, ◌||◌, [], Bytes, take, length,
  length-append, same_bytes, ltb, leb, ◌==◌, if◌then◌else◌, Run, Always, Always-bind, Always-if,
  Always-read, Always-read_block, arith,
}
use un_orion.Net.State.{Device, Net, eth_tx, send_arp_reply}
use un_orion.Net.Stack.{
  send_tcp, echo_reply, handle_arp, handle_icmp, is_event, take_data, take_fin, take_segment,
  handle_tcp,
}
use un_orion.Net.Stack.Safety.{
  Always-get16, Always-get32, Fits, Fits-if, send_ip_packet-Fits, send_tcp-Fits,
}

module _ {W : Type 0} (device : Device W) (poll : Net W → Run (Net W))
    (safe : (n : Net W) → Fits n → Always Fits (poll n)) where
  pub handle_icmp-Fits :
      (fuel : ℕ) (p : Bytes) (len : ℕ) (src : Bytes) (n : Net W)
      → len ≤ length p
      → Fits n
      → Always Fits (handle_icmp device poll fuel p len src n)
  unfolding handle_icmp Fits
  handle_icmp-Fits fuel p len src n h k =
      Always-if Fits (ltb len 8) _ _ (λ a. k)
        (λ a. Always-read Fits p 0 _ (ground arith) (λ kind.
          Always-if Fits (kind == 0) _ _
            (λ b.
              Always-get16 Fits p 4 _ (ground arith)
                (λ ident. Fits-if (ident == n.icmp_ident) _ _ k k))
            (λ b.
              Always-if Fits (kind == 8) _ _
                (λ c.
                  Always-read_block Fits p 0 (min len 256) _ (omega arith)
                    (λ r l. send_ip_packet-Fits device poll safe fuel 1 src (echo_reply r) n k))
                (λ c. k))))

  take_data-Fits :
      (fuel : ℕ) (p : Bytes) (at size seq : ℕ) (n : Net W)
      → at + size ≤ length p
      → Fits n
      → Always Fits (take_data device poll fuel p at size seq n)
  unfolding Fits
  take_data-Fits fuel p at size seq n h k =
      Always-if Fits (not (size == 0) && seq == n.tcp_rcv_nxt) _ _
        (λ a.
          Always-read_block Fits p at (min size (n.tcp_out_cap - length n.tcp_out)) _ (omega arith)
            (λ kept l.
              Always-bind Fits Fits (send_tcp device poll fuel 0x10 [] _) _
                (send_tcp-Fits device poll safe fuel 0x10 [] _ (omega arith)
                  (omega (arith, length-append n.tcp_out kept)))
                (λ n' k'. k')))
        (λ a. k)

  take_fin-Fits :
      (fuel flags size seq : ℕ) (n : Net W)
      → Fits n
      → Always Fits (take_fin device poll fuel flags size seq n)
  unfolding Fits
  take_fin-Fits fuel flags size seq n k =
      Always-if Fits (bit_and flags 0x01 == 0) _ _ (λ a. k)
        (λ a.
          Always-bind Fits Fits (send_tcp device poll fuel 0x10 [] _) _
            (send_tcp-Fits device poll safe fuel 0x10 [] _ (omega arith) k) (λ n' k'. k'))

  take_segment-Fits :
      (fuel : ℕ) (p : Bytes) (len at seq ack flags : ℕ) (n : Net W)
      → at ≤ len
      → len ≤ length p
      → Fits n
      → Always Fits (take_segment device poll fuel p len at seq ack flags n)
  unfolding take_segment Fits
  take_segment-Fits fuel p len at seq ack flags n0 h l k =
      let acked =
        not (bit_and flags 0x10 == 0) && leb n0.tcp_snd_una ack && leb ack n0.tcp_snd_nxt in
      let n = record n0 { tcp_snd_una = if acked then ack else n0.tcp_snd_una } in
      Always-if Fits (bit_and flags 0x12 == 0x12 && is_event n.tcp_event 1 && ack == n.tcp_snd_nxt)
        _ _ (λ a. send_tcp-Fits device poll safe fuel 0x10 [] _ (omega arith) k)
        (λ a.
          Always-if Fits (not (bit_and flags 0x04 == 0)) _ _ (λ b. k)
            (λ b.
              Always-bind Fits Fits (take_data device poll fuel p at (len - at) seq n) _
                (take_data-Fits fuel p at (len - at) seq n (omega arith) k)
                (λ n' k'. take_fin-Fits fuel flags (len - at) seq n' k')))

  pub handle_tcp-Fits :
      (fuel : ℕ) (p : Bytes) (len : ℕ) (src : Bytes) (n : Net W)
      → len ≤ length p
      → Fits n
      → Always Fits (handle_tcp device poll fuel p len src n)
  unfolding handle_tcp
  handle_tcp-Fits fuel p len src n h k =
      Always-if Fits (ltb len 20 || not (same_bytes src (take 4 n.tcp_peer_ip))) _ _ (λ a. k)
        (λ a.
          let long : 20 ≤ length p = ground arith in
          Always-get16 Fits p 0 _ (omega arith) (λ sp. Always-get16 Fits p 2 _ (omega arith) (λ dp.
            Always-if Fits (not (sp == n.tcp_peer_port) || not (dp == n.tcp_local_port)) _ _
              (λ b. k)
              (λ b. Always-get32 Fits p 4 _ (omega arith) (λ seq.
                Always-get32 Fits p 8 _ (omega arith) (λ ack.
                  Always-read Fits p 12 _ (omega arith) (λ offset.
                    Always-read Fits p 13 _ (omega arith) (λ flags.
                      Always-if Fits (ltb (offset / 16 * 4) 20 || ltb len (offset / 16 * 4)) _ _
                        (λ c. k)
                        (λ c.
                          take_segment-Fits fuel p len (offset / 16 * 4) seq ack flags n
                            (ground arith) h k)))))))))

  pub handle_arp-Fits : (p : Bytes) (n : Net W) → Fits n → Always Fits (handle_arp device p n)
  unfolding handle_arp Fits eth_tx send_arp_reply
  handle_arp-Fits p n k =
      Always-if Fits (ltb (length p) 28) _ _ (λ a. k)
        (λ a.
          let long : 28 ≤ length p = ground arith in
          Always-get16 Fits p 0 _ (omega arith) (λ hardware.
            Always-get16 Fits p 2 _ (omega arith) (λ protocol.
              Always-read Fits p 4 _ (omega arith) (λ hlen.
                Always-read Fits p 5 _ (omega arith) (λ plen.
                  Always-get16 Fits p 6 _ (omega arith) (λ op.
                    Always-read_block Fits p 8 6 _ (omega arith) (λ sm l.
                      Always-read_block Fits p 14 4 _ (omega arith) (λ sip m.
                        Always-read_block Fits p 24 4 _ (omega arith) (λ tip o.
                          let known =
                            if same_bytes sip (take 4 n.gateway)
                            then record n { gateway_mac = sm; gateway_mac_valid = true }
                            else n in
                          let k' : Fits known =
                            Fits-if (same_bytes sip (take 4 n.gateway))
                              (record n { gateway_mac = sm; gateway_mac_valid = true }) n k k in
                          Always-if Fits
                            (not (hardware == 1)
                              || not (protocol == 0x0800)
                              || not (hlen == 6)
                              || not (plen == 4))
                            _ _ (λ b. k)
                            (λ b.
                              Always-if Fits (op == 1 && same_bytes tip (take 4 n.ip_addr)) _ _
                                (λ c. k') (λ c. k')))))))))))
