-- ===== src/Net/Http/Secure.antt =====
-- kernel/net.c: `net_http_get` of a secure URL makes secure requests only.
use un_orion.Common.{
  ℕ, zero, suc, ◌≡◌, refl, Bool, true, not, ◌&&◌, Option, none, some, ℤ, pos, negsuc, [], ◌∷◌,
  Bytes, codes, length, ltb, ◌==◌, Bool-cases, inl, inr, Run, Always, Always-bind, Always-if, arith,
}
use un_orion.Net.Text.{until_nul, scopy, starts_ci, contains_ci, parse_size_dec, lower_ascii}
use un_orion.Net.Chunked.Bounds.{decode_chunked-IsDecoded}
use un_orion.Net.Url.{
  http, https, after_prefix, take_host, take_port, take_path, with_path, with_port, with_host,
  after_scheme, parse_url, resolve_redirect, redirect_code,
}
use un_orion.Net.Url.Redirect.{starts_ci-take, IsSafe, resolve_redirect-IsSafe}
use un_orion.Net.Http.{
  Outcome, failed, follow, page, http_request, chunked_page, sized_page, unchunked_page, skip_mark,
  handle_parts, read_body, redirected, next_page, handle_response, get_page, after_page, get_loop,
  net_http_get,
}
use un_orion.Net.Http.Response.{split_response, http_status_code, header_value_ci}

-- A URL that parses is secure.
abbrev OnlySecure : Option (Bytes × ℕ × Bytes × Bool) → Type 0
OnlySecure none = Unit
OnlySecure (some (host, port, path, secure)) = secure ≡ true

with_path-OnlySecure :
    (host : Bytes) (port : ℕ) (path : Option Bytes) → OnlySecure (with_path host port true path)
with_path-OnlySecure host port none = tt
with_path-OnlySecure host port (some path) = refl

with_port-OnlySecure :
    (pcap : ℕ) (host : Bytes) (r : Option (ℕ × Bytes)) → OnlySecure (with_port pcap host true r)
with_port-OnlySecure pcap host none = tt
with_port-OnlySecure pcap host (some (port, s)) = with_path-OnlySecure host port (take_path pcap s)

with_host-OnlySecure :
    (pcap port : ℕ) (r : Option (Bytes × Bytes)) → OnlySecure (with_host pcap port true r)
with_host-OnlySecure pcap port none = tt
with_host-OnlySecure pcap port (some (host, s)) = elim (Bool-cases (length host == 0)) [
  | inl y ↦ rw y tt
  | inr n ↦ rw n (with_port-OnlySecure pcap host (take_port port s))
]

http-https : (url : Bytes) → starts_ci url https ≡ true → after_prefix http url ≡ none
unfolding starts_ci lower_ascii after_prefix
http-https (a ∷ b ∷ c ∷ d ∷ e ∷ s) h = ground arith
http-https (a ∷ b ∷ c ∷ d ∷ []) h = ground arith
http-https (a ∷ b ∷ c ∷ []) h = ground arith
http-https (a ∷ b ∷ []) h = ground arith
http-https (a ∷ []) h = ground arith
http-https [] h = refl

after_scheme-OnlySecure :
    (hcap pcap : ℕ) (s t : Option Bytes) → t ≡ none → OnlySecure (after_scheme hcap pcap s t)
after_scheme-OnlySecure hcap pcap (some s) t e = with_host-OnlySecure pcap 443 (take_host hcap s 0)
after_scheme-OnlySecure hcap pcap none none e = tt
after_scheme-OnlySecure hcap pcap none (some t) e = absurd cc

parse_url-OnlySecure :
    (url : Bytes) → starts_ci url https ≡ true → OnlySecure (parse_url (some url) 96 160)
unfolding parse_url
parse_url-OnlySecure url h =
    after_scheme-OnlySecure 96 160 (after_prefix https url) (after_prefix http url)
      (http-https url h)

scopy-secure : (s : Bytes) → starts_ci s https ≡ true → starts_ci (scopy 256 s) https ≡ true
unfolding scopy
scopy-secure s h = starts_ci-take https s 255 (omega arith) h

-- A URL that is followed is secure.
abbrev FollowsSecure : Outcome → Type 0
FollowsSecure (failed f) = Unit
FollowsSecure (follow next) = starts_ci next https ≡ true
FollowsSecure (page body) = Unit

redirected-FollowsSecure : (r : ℤ × Bytes) → IsSafe r → FollowsSecure (redirected r)
redirected-FollowsSecure (pos zero, next) h = tt
redirected-FollowsSecure (pos (suc k), next) h = h k refl
redirected-FollowsSecure (negsuc k, next) h = tt

next_page-FollowsSecure :
    (left port : ℕ) (current host path : Bytes) (loc : Option Bytes)
    → parse_url (some current) 96 160 ≡ some (host, port, path, true)
    → FollowsSecure (next_page left current loc)
next_page-FollowsSecure left port current host path none e = tt
next_page-FollowsSecure zero port current host path (some loc) e = tt
next_page-FollowsSecure (suc left) port current host path (some loc) e =
    redirected-FollowsSecure (resolve_redirect (some current) (some (until_nul loc)) 256 [])
      (resolve_redirect-IsSafe current (until_nul loc) host path [] port 256 e)

chunked_page-FollowsSecure : (src : Bytes) (r : ℕ × Bytes) → FollowsSecure (chunked_page src r)
chunked_page-FollowsSecure src (written, out) =
    elim (Bool-cases (written == 0 && not (length src == 0))) [ inl y ↦ rw y tt | inr n ↦ rw n tt ]

sized_page-FollowsSecure :
    (cap : ℕ) (src : Bytes) (n : Option ℕ) → FollowsSecure (sized_page cap src n)
sized_page-FollowsSecure cap src none = tt
sized_page-FollowsSecure cap src (some n) = elim (Bool-cases (ltb (length src) n)) [
  | inl y ↦ rw y tt
  | inr m ↦ rw m tt
]

unchunked_page-FollowsSecure :
    (cap : ℕ) (src : Bytes) (value : Option Bytes) → FollowsSecure (unchunked_page cap src value)
unchunked_page-FollowsSecure cap src none = tt
unchunked_page-FollowsSecure cap src (some value) =
    sized_page-FollowsSecure cap src (parse_size_dec (until_nul value))

read_body-FollowsSecure :
    (cap : ℕ) (head src : Bytes) → Always FollowsSecure (read_body cap head src)
unfolding read_body
read_body-FollowsSecure cap head src =
    Always-if FollowsSecure (contains_ci head (codes "transfer-encoding: chunked")) _ _
      (λ a.
        let (r, e, d) = decode_chunked-IsDecoded src cap in rw e (chunked_page-FollowsSecure src r))
      (λ a. unchunked_page-FollowsSecure cap src (header_value_ci head (codes "Content-Length") 32))

handle_parts-FollowsSecure :
    (cap left port : ℕ) (current host path : Bytes) (parts : Option (Bytes × Bytes))
    → parse_url (some current) 96 160 ≡ some (host, port, path, true)
    → Always FollowsSecure (handle_parts cap left current parts)
handle_parts-FollowsSecure cap left port current host path none e = tt
handle_parts-FollowsSecure cap left port current host path (some (head, body)) e =
    Always-if FollowsSecure (redirect_code (http_status_code head)) _ _
      (λ a.
        next_page-FollowsSecure left port current host path
          (header_value_ci head (codes "Location") 256) e)
      (λ a. read_body-FollowsSecure cap head (skip_mark body))

handle_response-FollowsSecure :
    (cap left port : ℕ) (current host path : Bytes) (raw : Option Bytes)
    → parse_url (some current) 96 160 ≡ some (host, port, path, true)
    → Always FollowsSecure (handle_response cap left current raw)
unfolding handle_response
handle_response-FollowsSecure cap left port current host path none e = tt
handle_response-FollowsSecure cap left port current host path (some raw) e =
    handle_parts-FollowsSecure cap left port current host path (split_response raw) e

module _ {S : Type 0} (fetch : Bool → Bytes → ℕ → Bytes → S → Run (Option Bytes × S))
    (P : S → Type 0)
    (keeps : (host req : Bytes) (port : ℕ) (s : S)
      → P s
      → Always (λ r. P r.1) (fetch true host port req s)) where
  -- A URL that is followed is secure, and `P` holds of the state.
  abbrev GoesOn : Outcome × S → Type 0
  GoesOn r = FollowsSecure r.0 × P r.1

  get_page-GoesOn :
      (cap left : ℕ) (current : Bytes) (url : Option (Bytes × ℕ × Bytes × Bool)) (s : S)
      → parse_url (some current) 96 160 ≡ url
      → OnlySecure url
      → P s
      → Always GoesOn (get_page fetch cap left current url s)
  get_page-GoesOn cap left current none s e h p = (tt, p)
  get_page-GoesOn cap left current (some (host, port, path, secure)) s e h p = rw h (
      Always-bind (λ r. P r.1) GoesOn (fetch true host port (http_request host port path true) s) _
        (keeps host (http_request host port path true) port s p)
        (λ r q.
          Always-bind FollowsSecure GoesOn (handle_response cap left current r.0) _
            (handle_response-FollowsSecure cap left port current host path r.0 (rw h at e))
            (λ o f. (f, q))))

  after_page-secure :
      (again : Bytes → S → Run (Outcome × S)) (r : Outcome × S)
      → ((next : Bytes) (s : S)
          → starts_ci next https ≡ true
          → P s
          → Always (λ r. P r.1) (again next s))
      → GoesOn r
      → Always (λ r. P r.1) (after_page again r)
  after_page-secure again (failed f, s) go (a, p) = p
  after_page-secure again (follow next, s) go (a, p) = go (scopy 256 next) s (scopy-secure next a) p
  after_page-secure again (page body, s) go (a, p) = p

  get_loop-secure :
      (left cap : ℕ) (current : Bytes) (s : S)
      → starts_ci current https ≡ true
      → P s
      → Always (λ r. P r.1) (get_loop fetch left cap current s)
  unfolding get_loop
  get_loop-secure zero cap current s h p = p
  get_loop-secure (suc left) cap current s h p =
      Always-bind GoesOn (λ r. P r.1)
        (get_page fetch cap left current (parse_url (some current) 96 160) s) _
        (get_page-GoesOn cap left current (parse_url (some current) 96 160) s refl
          (parse_url-OnlySecure current h) p)
        (λ r g.
          after_page-secure (get_loop fetch left cap) r
            (λ next s' a q. get_loop-secure left cap next s' a q) g)

-- A page that is asked for over `https` is got by secure requests alone, through all of its redirects:
-- what every secure exchange preserves, the whole run preserves, whatever the responses say and
-- whatever an insecure exchange would do.
pub net_http_get_stays_secure :
    {S : Type 0} (fetch : Bool → Bytes → ℕ → Bytes → S → Run (Option Bytes × S)) (P : S → Type 0)
    (url : Bytes) (cap : ℕ) (s : S)
    → ((host req : Bytes) (port : ℕ) (s : S)
        → P s
        → Always (λ r. P r.1) (fetch true host port req s))
    → starts_ci url https ≡ true
    → P s
    → Always (λ r. P r.1) (net_http_get fetch url cap s)
unfolding net_http_get
net_http_get_stays_secure fetch P url cap s keeps h p =
    get_loop-secure fetch P keeps 4 cap (scopy 256 url) s (scopy-secure url h) p
