-- ===== src/Dhcp/Reply/Safety.antt =====
-- kernel/dhcp.c: `dhcp_parse_reply` reads only inside the packet, and what it returns.
use un_orion.Common.{
  ℕ, zero, suc, ◌+◌, ◌≤◌, ◌≡◌, refl, Bool, true, false, not, ◌&&◌, some, Bytes, byte, take, drop,
  length, same_bytes, leb, ltb, ◌==◌, if◌then◌else◌, Bool-cases, inl, inr, done, read-eq-done,
  read_block-eq-done, drop-eq-cons, arith,
}
use un_orion.Dhcp.{Lease, zero_lease, cookie}
use un_orion.Dhcp.Reply.{be32, equal_block, header_matches, parse_body, parse_reply}
use un_orion.Dhcp.Reply.Scan.{scan, get32-eq-done, parse_options-scan}

-- The number in the four bytes from `i` on.
abbrev pub word_at : Bytes → ℕ → ℕ
word_at p i = be32 (byte p i) (byte p (i + 1)) (byte p (i + 2)) (byte p (i + 3))

-- A BOOTREPLY over Ethernet for this transaction and this hardware address, with the DHCP cookie.
unfoldable pub is_reply_to : Bytes → ℕ → Bytes → Bool
is_reply_to p xid mac =
    leb 240 (length p)
    && (byte p 0 == 2
        && byte p 1 == 1
        && byte p 2 == 6
        && word_at p 4 == xid
        && same_bytes (take 6 (drop 28 p)) (take 6 mac)
        && word_at p 236 == cookie)

equal_block-same_bytes :
    (n : ℕ) (p : Bytes) (i : ℕ) (mac : Bytes) (j : ℕ)
    → i + n ≤ length p
    → j + n ≤ length mac
    → equal_block p i mac j n ≡ done (same_bytes (take n (drop i p)) (take n (drop j mac)))
unfolding equal_block
equal_block-same_bytes zero p i mac j h k = refl
equal_block-same_bytes (suc n) p i mac j h k =
    rw
      (
        read-eq-done p i (omega arith),
        drop-eq-cons p i (omega arith),
        drop-eq-cons mac j (omega arith),
      )
      (ground (arith, equal_block-same_bytes n p (i + 1) mac (j + 1) (omega arith) (omega arith)))

header_matches-is_reply_to :
    (p : Bytes) (xid : ℕ) (mac : Bytes)
    → length mac ≡ 6
    → header_matches p xid mac ≡ done (is_reply_to p xid mac)
unfolding header_matches is_reply_to
header_matches-is_reply_to p xid mac m = elim (Bool-cases (ltb (length p) 240)) [
  | inl short ↦ ground arith
  | inr enough ↦
      rw
        (
          enough,
          read-eq-done p 0 (ground arith),
          read-eq-done p 1 (ground arith),
          read-eq-done p 2 (ground arith),
          get32-eq-done p 4 (ground arith),
          equal_block-same_bytes 6 p 28 mac 0 (ground arith) (omega arith),
          get32-eq-done p 236 (ground arith),
        )
        (ground arith)
]

pub is_reply_to-long :
    (p : Bytes) (xid : ℕ) (mac : Bytes) → is_reply_to p xid mac ≡ true → 240 ≤ length p
unfolding is_reply_to
is_reply_to-long p xid mac h = ground arith

-- `*lease` as the loop over the options finds it.
abbrev pub start_lease : Bytes → Lease
start_lease p = record zero_lease { ip = take 4 (drop 16 p) }

-- What the call returns for a packet that is a reply, and `*lease` after it.
abbrev pub body_result : Bytes → Bool × Lease
body_result p =
    let r = scan (suc (length p)) (drop 240 p) (start_lease p) in
    (r.0 && not (r.1.message_type == 0), r.1)

pub parse_body-exact : (p : Bytes) → 240 ≤ length p → parse_body p ≡ done (body_result p)
unfolding parse_body
parse_body-exact p h = rw (
  read_block-eq-done p 16 4 (omega arith),
  parse_options-scan (suc (length p)) p 240 (start_lease p) (omega arith) h,
)

-- Every read of `dhcp_parse_reply` lies inside the packet and its loop ends; the result is 0 with
-- `*lease` untouched for a packet that is no reply to this client, and otherwise that of reading the
-- options from byte 240 on.
pub parse_reply-exact :
    (p : Bytes) (xid : ℕ) (mac : Bytes) (lease : Lease)
    → length mac ≡ 6
    → parse_reply (some p) xid (some mac) (some lease)
      ≡ done (
          if is_reply_to p xid mac
          then ((body_result p).0, some (body_result p).1)
          else (false, some lease))
unfolding parse_reply
parse_reply-exact p xid mac lease m = elim (Bool-cases (is_reply_to p xid mac)) [
  | inl reply ↦ rw (
    header_matches-is_reply_to p xid mac m,
    reply,
    parse_body-exact p (is_reply_to-long p xid mac reply),
  )
  | inr other ↦ rw (header_matches-is_reply_to p xid mac m, other)
]
