-- ===== src/Tests/Web.antt =====
-- URLs, chunked bodies and redirects, for kernel/net.c.
use un_orion.Common.{
  ℕ, ◌≡◌, refl, Bool, true, ◌&&◌, Option, some, List, [], ◌∷◌, ◌++◌, Bytes, codes, length, arith,
  ◌==◌, if◌then◌else◌, Run, done, Always,
}
use un_orion.Net.Text.{
  until_nul, lower_ascii, hexval, scopy, sappend, starts_ci, contains_ci, range_eq_ci,
  parse_size_dec, size_digits,
}
use un_orion.Net.Chunked.{to_line_end, decode_chunked}
use un_orion.Net.Chunked.Bounds.{IsDecoded, decode_chunked-IsDecoded}
use un_orion.Net.Chunked.RoundTrip.{Piece, encode, decode_chunked-encode}
use un_orion.Net.Url.{
  https, parse_url, after_prefix, take_host, take_port, take_path, decimal, resolve_redirect,
  redirect_code,
}
use un_orion.Net.Url.Parse.{print_url, parse_url-print_url}
use un_orion.Net.Http.{
  failed, page, downgrade, http_request, read_body, handle_response, get_loop, net_http_get,
  skip_mark,
}
use un_orion.Net.Http.Response.{
  split_at, split_response, take_line, to_space, skip_spaces, code_digits, http_status_code,
  skip_blanks, trim_end, at_colon, skip_line_ends, after_line_feed, find_header, header_value_ci,
}
use un_orion.Net.Http.Secure.{net_http_get_stays_secure}

abbrev pieces : List Piece
pieces =
    record { first = b'5'; digits = []; body = codes "hello" }
    ∷ record { first = b'0'; digits = codes "1"; body = codes "!" }
    ∷ []

five : hexval b'5' ≡ some 5
unfolding hexval lower_ascii
five = refl

zero_digit : hexval b'0' ≡ some 0
unfolding hexval lower_ascii
zero_digit = refl

one : hexval b'1' ≡ some 1
unfolding hexval lower_ascii
one = refl

decode_chunked-encode_example :
    decode_chunked (encode pieces (codes "\r\n")) 5 ≡ done (4, codes "hell" ++ 0 ∷ [])
decode_chunked-encode_example =
    decode_chunked-encode pieces 5 (codes "\r\n")
      (
        record { sized = (5, five, refl); filled = omega arith; small = omega arith },
        (
          record {
            sized = (0, zero_digit, (1, one, refl));
            filled = omega arith;
            small = omega arith;
          },
          tt,
        ),
      )
      (omega arith)

decode_chunked-IsDecoded_example :
    (x : ℕ × Bytes) × (decode_chunked (codes "5\r\nhel") 4 ≡ done x) × IsDecoded 4 x
decode_chunked-IsDecoded_example = decode_chunked-IsDecoded (codes "5\r\nhel") 4

parse_url-print_url_example :
    parse_url (some (print_url (codes "orion.test") 8443 (codes "a?b") true)) 96 160
    ≡ some (codes "orion.test", 8443, codes "/a?b", true)
parse_url-print_url_example =
    parse_url-print_url (codes "orion.test") (codes "a?b") 8443 96 160 true
      (refl, (refl, (refl, (refl, (refl, (refl, (refl, (refl, (refl, (refl, tt))))))))))
      (omega arith) (omega arith) (omega arith) (omega arith) (omega arith)

-- A server that sends the first page on, and answers every other one.
abbrev answer : Bytes → Bytes
answer path =
    if length path == length (http_request (codes "a") 443 (codes "/") true)
    then codes "HTTP/1.0 301 Moved\r\nLocation: //b/next\r\n\r\n"
    else codes "HTTP/1.0 200 OK\r\nContent-Length: 2\r\n\r\nok"

-- The exchanges so far, whether each is secure.
abbrev serve : Bool → Bytes → ℕ → Bytes → List Bool → Run (Option Bytes × List Bool)
serve secure host port req log = done (some (answer req), secure ∷ log)

abbrev all_secure : List Bool → Bool
all_secure [] = true
all_secure (secure ∷ log) = secure && all_secure log

asks_secure : starts_ci (codes "https://a/") https ≡ true
unfolding starts_ci lower_ascii
asks_secure = refl

-- The redirect is followed, over a second secure exchange.
followed :
    net_http_get serve (codes "https://a/") 16 [] ≡ done (page (codes "ok"), true ∷ true ∷ [])
unfolding net_http_get get_loop handle_response read_body skip_mark http_request scopy parse_url
    after_prefix take_host take_port take_path split_response split_at http_status_code to_space
    skip_spaces code_digits header_value_ci after_line_feed find_header skip_line_ends take_line
    to_line_end at_colon range_eq_ci starts_ci lower_ascii trim_end skip_blanks redirect_code
    until_nul resolve_redirect sappend contains_ci parse_size_dec size_digits decimal
followed = refl

-- A redirect to an insecure page is refused.
abbrev lure : Bool → Bytes → ℕ → Bytes → List Bool → Run (Option Bytes × List Bool)
lure secure host port req log =
    done (some (codes "HTTP/1.0 302 \nLocation: http://b/\n\n"), secure ∷ log)

refused_downgrade :
    net_http_get lure (codes "https://a/") 16 [] ≡ done (failed downgrade, true ∷ [])
unfolding net_http_get get_loop handle_response read_body skip_mark http_request scopy parse_url
    after_prefix take_host take_port take_path split_response split_at http_status_code to_space
    skip_spaces code_digits header_value_ci after_line_feed find_header skip_line_ends take_line
    to_line_end at_colon range_eq_ci starts_ci lower_ascii trim_end skip_blanks redirect_code
    until_nul resolve_redirect sappend contains_ci parse_size_dec size_digits decimal
refused_downgrade = refl

net_http_get_stays_secure_example :
    Always (λ r. all_secure r.1 ≡ true) (net_http_get serve (codes "https://a/") 16 [])
net_http_get_stays_secure_example =
    net_http_get_stays_secure serve (λ log. all_secure log ≡ true) (codes "https://a/") 16 []
      (λ host req port log h. h) asks_secure refl
