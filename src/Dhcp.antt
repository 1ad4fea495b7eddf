-- ===== src/Dhcp.antt =====
-- kernel/dhcp.c and include/dhcp.h: the DHCPv4 client.
pub mod Reply
pub mod Packet
pub mod Client
use un_orion.Common.{ℕ, Bool, false, Bytes, [], ◌∷◌, replicate}

abbrev pub discover : ℕ
discover = 1

abbrev pub offer : ℕ
offer = 2

abbrev pub request : ℕ
request = 3

abbrev pub ack : ℕ
ack = 5

abbrev pub nak : ℕ
nak = 6

abbrev pub packet_min : ℕ
packet_min = 300

abbrev pub cookie : ℕ
cookie = 0x63825363

-- `OrionDhcpLease`; the `have_` flags are 0 or 1 there.
pub record Lease : Type 0 where
  pub message_type : ℕ
  pub ip : Bytes
  pub netmask : Bytes
  pub gateway : Bytes
  pub dns : Bytes
  pub server : Bytes
  pub lease_seconds : ℕ
  pub have_netmask : Bool
  pub have_gateway : Bool
  pub have_dns : Bool
  pub have_server : Bool

-- `dzero(lease, sizeof(*lease))`
abbrev pub zero_lease : Lease
zero_lease = record {
  message_type = 0;
  ip = replicate 4 0;
  netmask = replicate 4 0;
  gateway = replicate 4 0;
  dns = replicate 4 0;
  server = replicate 4 0;
  lease_seconds = 0;
  have_netmask = false;
  have_gateway = false;
  have_dns = false;
  have_server = false;
}
