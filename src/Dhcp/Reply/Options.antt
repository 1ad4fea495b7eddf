-- ===== src/Dhcp/Reply/Options.antt =====
-- kernel/dhcp.c: options as they are laid out by a server, and what `dhcp_parse_reply` makes of them.
use un_orion.Common.{
  ℕ, zero, suc, ◌≤◌, ◌<◌, ◌≡◌, ◌≢◌, refl, ap, ◌∙◌, true, false, not, some, Bytes, List, [], ◌∷◌,
  ◌++◌, append_assoc, drop, length, length-append, length-drop, take-append, drop-append, ltb, ◌==◌,
  ne→==_false, done, arith,
}
use un_orion.Dhcp.{Lease}
use un_orion.Dhcp.Reply.{parse_reply}
use un_orion.Dhcp.Reply.Scan.{set_option, scan}
use un_orion.Dhcp.Reply.Safety.{is_reply_to, start_lease, parse_reply-exact}

-- A DHCP option: the pad option, or a code with its value.
pub data DhcpOption : Type 0 where
  pad : DhcpOption
  option : ℕ → Bytes → DhcpOption

-- Codes 0 and 255 are the pad and the end mark; a value has at most 255 bytes.
abbrev pub IsOption : DhcpOption → Type 0
IsOption pad = Unit
IsOption (option code v) = (code ≢ 0) × (code ≢ 255) × (length v ≤ 255)

abbrev pub AreOptions : List DhcpOption → Type 0
AreOptions [] = Unit
AreOptions (o ∷ os) = IsOption o × AreOptions os

abbrev pub encode_one : DhcpOption → Bytes
encode_one pad = 0 ∷ []
encode_one (option code v) = code ∷ length v ∷ v

abbrev pub encode : List DhcpOption → Bytes
encode [] = []
encode (o ∷ os) = encode_one o ++ encode os

-- The options take effect in order; a later one overrides an earlier one.
abbrev pub apply_all : List DhcpOption → Lease → Lease
apply_all [] lease = lease
apply_all (pad ∷ os) lease = apply_all os lease
apply_all (option code v ∷ os) lease = apply_all os (set_option code v lease)

scan_pad :
    (fuel : ℕ) (xs : Bytes) (lease : Lease)
    → scan (suc (suc fuel)) (0 ∷ xs) lease ≡ scan (suc fuel) xs lease
unfolding scan
scan_pad fuel [] lease = refl
scan_pad fuel (x ∷ xs) lease = refl

scan_option :
    (fuel : ℕ) (code : ℕ) (v rest : Bytes) (lease : Lease)
    → code ≢ 0
    → code ≢ 255
    → scan (suc fuel) (code ∷ length v ∷ v ++ rest) lease ≡ scan fuel rest (set_option code v lease)
unfolding scan
scan_option fuel code v rest lease a b =
    let fits : ltb (length (v ++ rest)) (length v) ≡ false = ground (arith, length-append v rest) in
    rw (ne→==_false code 0 a, ne→==_false code 255 b, fits, take-append v rest, drop-append v rest)

scan-encode :
    (os : List DhcpOption) (rest : Bytes) (fuel : ℕ) (lease : Lease)
    → AreOptions os
    → length (encode os ++ rest) < fuel
    → (k : ℕ) × (length rest < k)
      × (scan fuel (encode os ++ rest) lease ≡ scan k rest (apply_all os lease))
scan-encode [] rest fuel lease h f = (fuel, f, refl)
scan-encode (o ∷ os) rest zero lease h f = absurd (omega arith)
scan-encode (pad ∷ os) rest (suc zero) lease h f = absurd (omega arith)
scan-encode (pad ∷ os) rest (suc (suc fuel)) lease h f =
    let (k, l, e) = scan-encode os rest (suc fuel) lease h.1 (omega arith) in
    (k, l, scan_pad fuel (encode os ++ rest) lease ∙ e)
scan-encode (option code v ∷ os) rest (suc fuel) lease ((a, b, _), h) f =
    let (k, l, e) = scan-encode os rest fuel (set_option code v lease) h (
      omega (
        arith,
        length-append v (encode os ++ rest),
        ap length (append_assoc v (encode os) rest),
      )) in
    (k, l, rw append_assoc (scan_option fuel code v (encode os ++ rest) lease a b ∙ e))

-- Bytes that end inside an option, after its code.
abbrev pub IsCut : Bytes → Type 0
IsCut [] = Unit
IsCut (n ∷ v) = length v < n

scan_end :
    (k : ℕ) (rest : Bytes) (lease : Lease) → 0 < k → scan k (255 ∷ rest) lease ≡ (true, lease)
unfolding scan
scan_end zero rest lease h = refl
scan_end (suc k) [] lease h = refl
scan_end (suc k) (x ∷ rest) lease h = refl

scan_cut :
    (k code : ℕ) (t : Bytes) (lease : Lease)
    → 0 < k
    → code ≢ 0
    → code ≢ 255
    → IsCut t
    → scan k (code ∷ t) lease ≡ (false, lease)
unfolding scan
scan_cut zero code t lease h a b c = absurd (omega arith)
scan_cut (suc k) code [] lease h a b c = rw (ne→==_false code 0 a, ne→==_false code 255 b)
scan_cut (suc k) code (n ∷ v) lease h a b c =
    rw (ne→==_false code 0 a, ne→==_false code 255 b) (ground arith)

module _ (p : Bytes) (xid : ℕ) (mac : Bytes) (lease : Lease) (m : length mac ≡ 6)
    (reply : is_reply_to p xid mac ≡ true) where
  body-encode :
      (os : List DhcpOption) (rest : Bytes)
      → AreOptions os
      → drop 240 p ≡ encode os ++ rest
      → (k : ℕ) × (length rest < k)
        × (scan (suc (length p)) (drop 240 p) (start_lease p)
            ≡ scan k rest (apply_all os (start_lease p)))
  body-encode os rest h e =
      let fuel : length (encode os ++ rest) < suc (length p) =
        omega (arith, ap length e, length-drop 240 p) in
      let (k, l, f) = scan-encode os rest (suc (length p)) (start_lease p) h fuel in (k, l, rw e f)

  -- A reply whose options are well formed and end with the end mark is accepted exactly if a message
  -- type was among them, and `*lease` has the reply's address and all that its options say, whatever
  -- follows the end mark.
  pub parse_reply-encode :
      (os : List DhcpOption) (rest : Bytes)
      → AreOptions os
      → drop 240 p ≡ encode os ++ 255 ∷ rest
      → parse_reply (some p) xid (some mac) (some lease)
        ≡ done (
          not ((apply_all os (start_lease p)).message_type == 0),
          some (apply_all os (start_lease p)),
        )
  parse_reply-encode os rest h e =
      let (k, l, f) = body-encode os (255 ∷ rest) h e in
      rw (
        parse_reply-exact p xid mac lease m,
        reply,
        f,
        scan_end k rest (apply_all os (start_lease p)) (omega arith),
      )

  -- A reply that ends inside an option, after its code or in its value, is refused; `*lease` then
  -- holds what the options before it say.
  pub parse_reply_cut :
      (os : List DhcpOption) (code : ℕ) (t : Bytes)
      → AreOptions os
      → code ≢ 0
      → code ≢ 255
      → IsCut t
      → drop 240 p ≡ encode os ++ code ∷ t
      → parse_reply (some p) xid (some mac) (some lease)
        ≡ done (false, some (apply_all os (start_lease p)))
  parse_reply_cut os code t h a b c e =
      let (k, l, f) = body-encode os (code ∷ t) h e in
      rw (
        parse_reply-exact p xid mac lease m,
        reply,
        f,
        scan_cut k code t (apply_all os (start_lease p)) (omega arith) a b c,
      )
