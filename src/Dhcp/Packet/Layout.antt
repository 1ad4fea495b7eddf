-- ===== src/Dhcp/Packet/Layout.antt =====
-- kernel/dhcp.c: the packets field by field, as RFC 2131 lays them out.
use un_orion.Common.{
  ℕ, zero, suc, ◌+◌, ◌/◌, ◌^◌, ◌≤◌, ◌≡◌, refl, ap, ◌∙◌, some, Bytes, List, [], ◌∷◌, ◌++◌, byte, set,
  drop, replicate, length, u8, ltb, arith, false,
}
use un_orion.Dhcp.{discover, request, packet_min}
use un_orion.Dhcp.Reply.Options.{DhcpOption, option, encode}
use un_orion.Dhcp.Packet.{
  copy, clear, put16, put32, put_all, base_fields, base, finish, build_discover, request_fields,
  build_request,
}

-- The array `mac[6]`, an address `ip[4]`, and a big-endian word.
abbrev pub six : Bytes → Bytes
six m = byte m 0 ∷ byte m 1 ∷ byte m 2 ∷ byte m 3 ∷ byte m 4 ∷ byte m 5 ∷ []

abbrev pub four : Bytes → Bytes
four a = byte a 0 ∷ byte a 1 ∷ byte a 2 ∷ byte a 3 ∷ []

abbrev pub word : ℕ → Bytes
word v = u8 (v / 2 ^ 24) ∷ u8 (v / 2 ^ 16) ∷ u8 (v / 2 ^ 8) ∷ u8 v ∷ []

-- op, htype, hlen, hops; xid; secs, flags; four addresses; chaddr; sname and file; the cookie
abbrev pub header : ℕ → Bytes → Bytes
header xid mac =
    (1 ∷ 1 ∷ 6 ∷ 0 ∷ [])
    ++ word xid
    ++ (0 ∷ 0 ∷ 0x80 ∷ 0 ∷ [])
    ++ replicate 16 0
    ++ six mac
    ++ replicate 202 0
    ++ (0x63 ∷ 0x82 ∷ 0x53 ∷ 0x63 ∷ [])

-- message type, client identifier, maximum message size 576
abbrev common_options : ℕ → Bytes → List DhcpOption
common_options message_type mac =
    option 53 (message_type ∷ []) ∷ option 61 (1 ∷ six mac) ∷ option 57 (2 ∷ 64 ∷ []) ∷ []

-- subnet mask, router, name servers, lease time
abbrev pub asked_for : DhcpOption
asked_for = option 55 (1 ∷ 3 ∷ 6 ∷ 51 ∷ [])

abbrev pub discover_bytes : ℕ → Bytes → Bytes
discover_bytes xid mac =
    header xid mac ++ encode (common_options discover mac ++ asked_for ∷ []) ++ 255 ∷ replicate 37 0

abbrev pub request_bytes : ℕ → Bytes → Bytes → Bytes → Bytes
request_bytes xid mac requested_ip server_id =
    header xid mac
    ++ encode (
        common_options request mac
        ++ option 50 (four requested_ip) ∷ option 54 (four server_id) ∷ asked_for ∷ [])
    ++ 255 ∷ replicate 25 0

length-discover : (xid : ℕ) (mac : Bytes) → length (discover_bytes xid mac) ≡ 300
length-discover xid mac = refl

length-request : (xid : ℕ) (mac a b : Bytes) → length (request_bytes xid mac a b) ≡ 300
length-request xid mac a b = refl

clear-cons : (n o x : ℕ) (p : Bytes) → clear (x ∷ p) (suc o) n ≡ x ∷ clear p o n
unfolding clear
clear-cons zero o x p = refl
clear-cons (suc n) o x p =
    let e : suc o + 1 ≡ suc (o + 1) = omega arith in rw e (clear-cons n (o + 1) x (set p o 0))

clear_front : (n : ℕ) (p : Bytes) → n ≤ length p → clear p 0 n ≡ replicate n 0 ++ drop n p
unfolding clear
clear_front zero p h = refl
clear_front (suc n) [] h = absurd (omega arith)
clear_front (suc n) (x ∷ p) h = clear-cons n 0 0 p ∙ ap (λ t. 0 ∷ t) (clear_front n p (omega arith))

module _ (packet : Bytes) (cap xid : ℕ) (mac : Bytes) (large : packet_min ≤ cap)
    (room : cap ≤ length packet) where
  cleared : clear packet 0 packet_min ≡ replicate 300 0 ++ drop 300 packet
  cleared = clear_front 300 packet (omega arith)

  enough : ltb cap packet_min ≡ false
  enough = ground arith

  -- `dhcp_build_discover` with room for 300 bytes returns 300 and writes the packet of RFC 2131 over
  -- the first 300 bytes, option by option; no other byte changes.
  pub build_discover-layout :
      build_discover (some packet) cap xid (some mac)
      ≡ (300, some (discover_bytes xid mac ++ drop 300 packet))
  unfolding build_discover base base_fields finish copy put16 put32 put_all
  build_discover-layout = rw (enough, cleared, enough)

  -- The same for `dhcp_build_request`, which also names the address and the server.
  pub build_request-layout :
      (requested_ip server_id : Bytes)
      → build_request (some packet) cap xid (some mac) (some requested_ip) (some server_id)
        ≡ (300, some (request_bytes xid mac requested_ip server_id ++ drop 300 packet))
  unfolding build_request request_fields base base_fields finish copy put16 put32 put_all
  build_request-layout requested_ip server_id = rw (enough, cleared, enough)
