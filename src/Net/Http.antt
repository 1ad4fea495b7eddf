-- ===== src/Net/Http.antt =====
-- kernel/net.c: `net_http_get` and what it reads out of a response. `fetch` stands for the exchange of
-- one request, over TLS if it is asked for a secure one: what follows `if(secure)` down to the end of
-- the `else` there.
pub mod Response
pub mod Secure
pub mod Exchange
use un_orion.Common.{
  ℕ, zero, suc, ◌+◌, ◌-◌, ◌*◌, Bool, true, false, not, ◌&&◌, ◌||◌, Option, none, some, ℤ, pos,
  negsuc, minus_one, List, [], ◌∷◌, ◌++◌, Bytes, codes, take, drop, length, ltb, leb, ◌==◌,
  if◌then◌else◌, Run, done, out_of_fuel, ◌>>=◌, min,
}
use un_orion.Net.Text.{until_nul, scopy, contains_ci, parse_size_dec}
use un_orion.Net.Chunked.{decode_chunked}
use un_orion.Net.Url.{after_prefix, parse_url, decimal, resolve_redirect, redirect_code}
use un_orion.Net.Http.Response.{split_response, http_status_code, header_value_ci}

-- The texts that `status` is set to on a failure; `carrier` is one that the exchange sets.
pub data Failure : Type 0 where
  invalid_url : Failure
  carrier : Failure
  malformed : Failure
  no_location : Failure
  too_many_redirects : Failure
  downgrade : Failure
  unsupported_redirect : Failure
  invalid_chunks : Failure
  invalid_length : Failure
  truncated : Failure

-- What a response leads to: the next URL, or what is written to `body`.
pub data Outcome : Type 0 where
  failed : Failure → Outcome
  follow : Bytes → Outcome
  page : Bytes → Outcome

-- `while(*a&&o+1<sizeof(req))req[o++]=*a++`
abbrev pub push : Bytes → Bytes → Bytes
push req a = req ++ take (767 - length req) a

unfoldable pub http_request : Bytes → ℕ → Bytes → Bool → Bytes
http_request host port path secure =
    let req = push (push (push (push [] (codes "GET ")) path) (codes " HTTP/1.0\r\nHost: ")) host in
    let req =
      if not (port == (if secure then 443 else 80)) && ltb (length req + 7) 768
      then push (req ++ 58 ∷ []) (decimal 6 port [])
      else req in
    push req (
      codes
        "\r\nUser-Agent: UN_Orion/0.0.8 UN_Vela/0.3.2 Aster/0.3.2\r\nAccept: text/html,text/plain;q=0.9,*/*;q=0.1\r\nAccept-Encoding: identity\r\nConnection: close\r\n\r\n")

-- A byte order mark is skipped.
unfoldable pub skip_mark : Bytes → Bytes
skip_mark s = elim (after_prefix (0xef ∷ 0xbb ∷ 0xbf ∷ []) s) [ some rest ↦ rest | none ↦ s ]

-- The body as it is, of at most `cap - 1` bytes.
abbrev pub plain_page : ℕ → Bytes → Outcome
plain_page cap src = page (take (cap - 1) src)

abbrev pub sized_page : ℕ → Bytes → Option ℕ → Outcome
sized_page cap src none = failed invalid_length
sized_page cap src (some expected) =
    if ltb (length src) expected then failed truncated else plain_page cap (take expected src)

abbrev pub chunked_page : Bytes → ℕ × Bytes → Outcome
chunked_page src (written, out) =
    if written == 0 && not (length src == 0) then failed invalid_chunks else page (take written out)

abbrev pub unchunked_page : ℕ → Bytes → Option Bytes → Outcome
unchunked_page cap src none = plain_page cap src
unchunked_page cap src (some value) = sized_page cap src (parse_size_dec (until_nul value))

unfoldable pub read_body : ℕ → Bytes → Bytes → Run Outcome
read_body cap head src =
    if contains_ci head (codes "transfer-encoding: chunked")
    then (do r ← decode_chunked src cap; done (chunked_page src r))
    else done (unchunked_page cap src (header_value_ci head (codes "Content-Length") 32))

abbrev pub redirected : ℤ × Bytes → Outcome
redirected (pos zero, next) = failed unsupported_redirect
redirected (pos (suc _), next) = follow next
redirected (negsuc _, next) = failed downgrade

-- A redirect of the page `current`; `left` redirects may follow.
abbrev pub next_page : ℕ → Bytes → Option Bytes → Outcome
next_page left current none = failed no_location
next_page zero current (some loc) = failed too_many_redirects
next_page (suc left) current (some loc) =
    redirected (resolve_redirect (some current) (some (until_nul loc)) 256 [])

-- A response that splits into its head and its body.
abbrev pub handle_parts : ℕ → ℕ → Bytes → Option (Bytes × Bytes) → Run Outcome
handle_parts cap left current none = done (failed malformed)
handle_parts cap left current (some (head, body)) =
    if redirect_code (http_status_code head)
    then done (next_page left current (header_value_ci head (codes "Location") 256))
    else read_body cap head (skip_mark body)

unfoldable pub handle_response : ℕ → ℕ → Bytes → Option Bytes → Run Outcome
handle_response cap left current none = done (failed carrier)
handle_response cap left current (some raw) = handle_parts cap left current (split_response raw)

-- A result is a page or a failure; `again` is the next turn.
abbrev pub after_page :
    {S : Type 0} → (Bytes → S → Run (Outcome × S)) → Outcome × S → Run (Outcome × S)
after_page again (failed f, s) = done (failed f, s)
after_page again (follow next, s) = again (scopy 256 next) s
after_page again (page body, s) = done (page body, s)

module _ {S : Type 0} (fetch : Bool → Bytes → ℕ → Bytes → S → Run (Option Bytes × S)) where
  -- One turn of the loop over the redirects.
  abbrev pub get_page : ℕ → ℕ → Bytes → Option (Bytes × ℕ × Bytes × Bool) → S → Run (Outcome × S)
  get_page cap left current none s = done (failed invalid_url, s)
  get_page cap left current (some (host, port, path, secure)) s = do
    r ← fetch secure host port (http_request host port path secure) s
    o ← handle_response cap left current r.0
    done (o, r.1)

  unfoldable pub get_loop : ℕ → ℕ → Bytes → S → Run (Outcome × S)
  get_loop zero cap current s = done (failed too_many_redirects, s)
  get_loop (suc left) cap current s = do
    r ← get_page cap left current (parse_url (some current) 96 160) s
    after_page (get_loop left cap) r

  unfoldable pub net_http_get : Bytes → ℕ → S → Run (Outcome × S)
  net_http_get url cap s = get_loop 4 cap (scopy 256 url) s
