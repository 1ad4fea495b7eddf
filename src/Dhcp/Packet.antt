-- ===== src/Dhcp/Packet.antt =====
-- kernel/dhcp.c: the byte helpers and the packets that the client sends. A write outside of the array
-- changes nothing here; `Layout` shows that none takes place.
pub mod Layout
use un_orion.Common.{
  ℕ, zero, suc, ◌+◌, ◌/◌, ◌^◌, Bool, true, false, ◌||◌, Option, none, some, Bytes, List, [], ◌∷◌,
  byte, set, u8, ltb, ◌==◌, if◌then◌else◌, is_null,
}
use un_orion.Dhcp.{discover, request, packet_min, cookie}

-- `dcopy(d + o, s + i, n)`
unfoldable pub copy : Bytes → ℕ → Bytes → ℕ → ℕ → Bytes
copy d o s i zero = d
copy d o s i (suc n) = copy (set d o (byte s i)) (o + 1) s (i + 1) n

-- `dzero(d + o, n)`
unfoldable pub clear : Bytes → ℕ → ℕ → Bytes
clear d o zero = d
clear d o (suc n) = clear (set d o 0) (o + 1) n

-- `dput16(p + o, v)` and `dput32(p + o, v)`
unfoldable pub put16 : Bytes → ℕ → ℕ → Bytes
put16 p o v = set (set p o (u8 (v / 2 ^ 8))) (o + 1) (u8 v)

unfoldable pub put32 : Bytes → ℕ → ℕ → Bytes
put32 p o v =
    set (set (set (set p o (u8 (v / 2 ^ 24))) (o + 1) (u8 (v / 2 ^ 16))) (o + 2) (u8 (v / 2 ^ 8)))
      (o + 3) (u8 v)

-- The bytes written one after the other by `packet[o++] = b`.
unfoldable pub put_all : Bytes → ℕ → Bytes → Bytes
put_all p o [] = p
put_all p o (b ∷ bs) = put_all (set p o b) (o + 1) bs

-- The fields before the options; the offset after the first three options comes back.
unfoldable pub base_fields : Bytes → ℕ → Bytes → ℕ → ℕ × Bytes
base_fields packet xid mac message_type =
    let p = clear packet 0 packet_min in
    let p = set (set (set p 0 1) 1 1) 2 6 in
    let p = put32 p 4 xid in
    let p = put16 p 10 0x8000 in
    let p = copy p 28 mac 0 6 in
    let p = put32 p 236 cookie in
    let o : ℕ = 240 in
    let p = put_all p o (53 ∷ 1 ∷ message_type ∷ 61 ∷ 7 ∷ 1 ∷ []) in
    let o = o + 6 in
    let p = copy p o mac 0 6 in
    let o = o + 6 in let p = put_all p o (57 ∷ 2 ∷ []) in let o = o + 2 in (o + 2, put16 p o 576)

unfoldable pub base : Option Bytes → ℕ → ℕ → Option Bytes → ℕ → ℕ × Option Bytes
base (some packet) cap xid (some mac) message_type =
    if ltb cap packet_min
    then (0, some packet)
    else let (o, p) = base_fields packet xid mac message_type in (o, some p)
base packet cap xid mac message_type = (0, packet)

abbrev pub requested : Bytes
requested = 1 ∷ 3 ∷ 6 ∷ 51 ∷ []

unfoldable pub finish : Option Bytes → ℕ → ℕ → ℕ × Option Bytes
finish none cap o = (0, none)
finish (some packet) cap o =
    if ltb cap packet_min || ltb packet_min (o + 7)
    then (0, some packet)
    else let p = put_all packet o (55 ∷ 4 ∷ []) in
      let p = copy p (o + 2) requested 0 4 in (packet_min, some (set p (o + 6) 255))

unfoldable pub build_discover : Option Bytes → ℕ → ℕ → Option Bytes → ℕ × Option Bytes
build_discover packet cap xid mac =
    let (o, p) = base packet cap xid mac discover in if o == 0 then (0, p) else finish p cap o

-- The two options that only a request has.
unfoldable pub request_fields : Bytes → ℕ → Bytes → Bytes → Bytes
request_fields packet o requested_ip server_id =
    let p = put_all packet o (50 ∷ 4 ∷ []) in
    let p = copy p (o + 2) requested_ip 0 4 in
    let p = put_all p (o + 6) (54 ∷ 4 ∷ []) in copy p (o + 8) server_id 0 4

abbrev request_rest : ℕ → Bytes → Bytes → ℕ × Option Bytes → ℕ × Option Bytes
request_rest cap requested_ip server_id (o, none) = (0, none)
request_rest cap requested_ip server_id (o, some p) =
    if o == 0 || ltb packet_min (o + 12)
    then (0, some p)
    else finish (some (request_fields p o requested_ip server_id)) cap (o + 12)

unfoldable pub build_request :
    Option Bytes → ℕ → ℕ → Option Bytes → Option Bytes → Option Bytes → ℕ × Option Bytes
build_request packet cap xid mac (some requested_ip) (some server_id) =
    request_rest cap requested_ip server_id (base packet cap xid mac request)
build_request packet cap xid mac requested_ip server_id = (0, packet)
