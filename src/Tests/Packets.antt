-- ===== src/Tests/Packets.antt =====
-- DHCP packets, after tests/dhcp_packet_smoke.c, for kernel/dhcp.c.
use un_orion.Common.{
  ℕ, ◌≡◌, refl, true, false, not, some, List, [], ◌∷◌, ◌++◌, Bytes, replicate, ◌==◌, if◌then◌else◌,
  arith, done, read, read_block,
}
use un_orion.Dhcp.{zero_lease}
use un_orion.Dhcp.Reply.{
  parse_reply, be32, parse_options, header_matches, parse_body, apply_option, equal_block, get32,
}
use un_orion.Dhcp.Reply.Safety.{is_reply_to, body_result, start_lease, parse_reply-exact}
use un_orion.Dhcp.Reply.Options.{
  DhcpOption, pad, option, encode, apply_all, parse_reply-encode, parse_reply_cut,
}
use un_orion.Dhcp.Packet.{build_discover, build_request}
use un_orion.Dhcp.Packet.Layout.{
  discover_bytes, request_bytes, build_discover-layout, build_request-layout,
}

abbrev mac : Bytes
mac = 0x52 ∷ 0x54 ∷ 0 ∷ 0x12 ∷ 0x34 ∷ 0x56 ∷ []

abbrev xid : ℕ
xid = 0x12345678

abbrev reply_header : Bytes
reply_header =
    2 ∷ 1 ∷ 6 ∷ 0 ∷ 0x12 ∷ 0x34 ∷ 0x56 ∷ 0x78 ∷ replicate 8 0
    ++ 10 ∷ 0 ∷ 2 ∷ 15 ∷ replicate 8 0
    ++ mac
    ++ replicate 202 0
    ++ 0x63 ∷ 0x82 ∷ 0x53 ∷ 0x63 ∷ []

abbrev options : List DhcpOption
options =
    option 53 (2 ∷ [])
    ∷ pad
    ∷ option 1 (255 ∷ 255 ∷ 255 ∷ 0 ∷ [])
    ∷ option 54 (10 ∷ 0 ∷ 2 ∷ 2 ∷ [])
    ∷ []

abbrev reply : Bytes
reply = reply_header ++ encode options ++ 255 ∷ 7 ∷ []

abbrev cut : Bytes
cut = reply_header ++ encode options ++ 3 ∷ 4 ∷ 10 ∷ []

abbrev buffer : Bytes
buffer = replicate 302 9

parse_reply-reply :
    parse_reply (some reply) xid (some mac) (some zero_lease)
    ≡ done (
      true,
      some (record zero_lease {
        message_type = 2;
        ip = 10 ∷ 0 ∷ 2 ∷ 15 ∷ [];
        netmask = 255 ∷ 255 ∷ 255 ∷ 0 ∷ [];
        have_netmask = true;
        server = 10 ∷ 0 ∷ 2 ∷ 2 ∷ [];
        have_server = true;
      }),
    )
unfolding parse_reply be32 parse_options header_matches parse_body apply_option equal_block get32
    read read_block
parse_reply-reply = refl

is_reply_to-reply : is_reply_to reply xid mac ≡ true
unfolding is_reply_to be32
is_reply_to-reply = refl

is_reply_to-cut : is_reply_to cut xid mac ≡ true
unfolding is_reply_to be32
is_reply_to-cut = refl

parse_reply-exact_example :
    parse_reply (some reply) xid (some mac) (some zero_lease)
    ≡ done (
        if is_reply_to reply xid mac
        then ((body_result reply).0, some (body_result reply).1)
        else (false, some zero_lease))
parse_reply-exact_example = parse_reply-exact reply xid mac zero_lease refl

parse_reply-encode_example :
    parse_reply (some reply) xid (some mac) (some zero_lease)
    ≡ done (
      not ((apply_all options (start_lease reply)).message_type == 0),
      some (apply_all options (start_lease reply)),
    )
parse_reply-encode_example =
    parse_reply-encode reply xid mac zero_lease refl is_reply_to-reply options (7 ∷ [])
      (omega arith) refl

parse_reply_cut_example :
    parse_reply (some cut) xid (some mac) (some zero_lease)
    ≡ done (false, some (apply_all options (start_lease cut)))
parse_reply_cut_example =
    parse_reply_cut cut xid mac zero_lease refl is_reply_to-cut options 3 (4 ∷ 10 ∷ [])
      (omega arith) (omega arith) (omega arith) (omega arith) refl

build_discover-layout_example :
    build_discover (some buffer) 300 xid (some mac)
    ≡ (300, some (discover_bytes xid mac ++ 9 ∷ 9 ∷ []))
build_discover-layout_example = build_discover-layout buffer 300 xid mac (omega arith) (omega arith)

build_request-layout_example :
    build_request
      (some buffer)
      300
      xid
      (some mac)
      (some (10 ∷ 0 ∷ 2 ∷ 15 ∷ []))
      (some (10 ∷ 0 ∷ 2 ∷ 2 ∷ []))
    ≡ (300, some (request_bytes xid mac (10 ∷ 0 ∷ 2 ∷ 15 ∷ []) (10 ∷ 0 ∷ 2 ∷ 2 ∷ []) ++ 9 ∷ 9 ∷ []))
build_request-layout_example =
    build_request-layout buffer 300 xid mac (omega arith) (omega arith) (10 ∷ 0 ∷ 2 ∷ 15 ∷ [])
      (10 ∷ 0 ∷ 2 ∷ 2 ∷ [])
