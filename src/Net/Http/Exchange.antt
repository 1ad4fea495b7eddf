-- ===== src/Net/Http/Exchange.antt =====
-- kernel/net.c: the exchange of `net_http_get` over a plain connection, and the whole of it. `tls` stands
-- for `tls_https_exchange` with a response array of 32768 bytes, which holds a NUL behind its response.
use un_orion.Common.{
  ℕ, zero, suc, ◌+◌, ◌-◌, Bool, true, false, not, ◌||◌, Option, none, some, [], ◌++◌, Bytes, length,
  ltb, ◌==◌, if◌then◌else◌, Run, done, out_of_fuel, ◌>>=◌,
}
use un_orion.Net.State.{Device, Net}
use un_orion.Net.Client.{
  Connection, connected, unavailable, dns_failed, arp_failed, connect_failed, net_tcp_connect,
  net_tcp_write, net_tcp_read, net_tcp_close,
}
use un_orion.Net.Stack.Receive.{net_poll}
use un_orion.Net.Http.{Outcome, failed, carrier, net_http_get}

abbrev is_connected : Connection → Bool
is_connected connected = true
is_connected unavailable = false
is_connected dns_failed = false
is_connected arp_failed = false
is_connected connect_failed = false

module _ {W : Type 0} (device : Device W) (poll : Net W → Run (Net W)) where
  abbrev pub after_bytes :
      (Bytes → Net W → Run (Bytes × Net W)) → Bytes → Option Bytes × Net W → Run (Bytes × Net W)
  after_bytes again raw (none, n) = done (raw, n)
  after_bytes again raw (some bytes, n) = again (raw ++ bytes) n

  -- The loop that reads the response; each turn but the last takes a byte, so `turns` of 32768 is enough.
  unfoldable pub read_all : ℕ → ℕ → Bytes → Net W → Run (Bytes × Net W)
  read_all zero fuel raw n = out_of_fuel
  read_all (suc turns) fuel raw n = if not (ltb (length raw + 1) 32768) then done (raw, n) else do
    r ← net_tcp_read device poll fuel (32768 - 1 - length raw) 1400 n
    after_bytes (read_all turns fuel) raw r

  abbrev pub after_write : ℕ → Bool × Net W → Run (Option Bytes × Net W)
  after_write fuel (ok, n) =
      if not ok then (do n1 ← net_tcp_close device poll fuel n; done (none, n1)) else do
        r ← read_all 32768 fuel [] n
        n1 ← net_tcp_close device poll fuel r.1
        done (if length r.0 == 0 then none else some r.0, n1)

  unfoldable pub plain_exchange : ℕ → Bytes → ℕ → Bytes → Net W → Run (Option Bytes × Net W)
  plain_exchange fuel host port req n = do
    c ← net_tcp_connect device poll fuel host port n
    if not (is_connected c.0)
        then done (none, c.1)
        else do w ← net_tcp_write device poll fuel 5000 req c.1; after_write fuel w

module _ {W : Type 0} (device : Device W)
    (tls : Bytes → ℕ → Bytes → Net W → Run (Option Bytes × Net W)) where
  unfoldable pub exchange : ℕ → Bool → Bytes → ℕ → Bytes → Net W → Run (Option Bytes × Net W)
  exchange fuel secure host port req n =
      let plain = plain_exchange device (net_poll device fuel) fuel host port req n in
      let carried = tls host port req n in if secure then carried else plain

  -- `net_http_get` with a body array of `cap` bytes.
  unfoldable pub http_get : ℕ → Bytes → ℕ → Net W → Run (Outcome × Net W)
  http_get fuel url cap n =
      let got = net_http_get (exchange fuel) url cap n in
      if not n.ready || ltb cap 2 then done (failed carrier, n) else got
