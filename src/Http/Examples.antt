-- ===== src/Http/Examples.antt =====
-- Runs of the HTTP reader and of the address text, and the theorems on concrete values.
use esp_wave_rider.Base.{
  ℕ, ◌≡◌, refl, sym, subst, true, false, none, some, List, [], ◌∷◌, ◌++◌, arith,
}
use esp_wave_rider.Text.{
  Text, codes, find?, strip_prefix, split_once, split, text_eq, is_whitespace, trim,
  eq_ignore_ascii_case,
}
use esp_wave_rider.Text.Number.{parse_unsigned}
use esp_wave_rider.Text.Lines.{lines, lines_of, strip_cr, split_whitespace}
use esp_wave_rider.Text.Utf8.{as_bytes, from_utf8}
use esp_wave_rider.Text.Results.{ok, err}
use esp_wave_rider.Fixed.Model.{list_string}
use esp_wave_rider.Http.{
  snapshot, command, http_response, find_http_header_end, parse_http_route, command_route, route_of,
  read_http_route, decide_request, parse_content_length, content_length_in,
}
use esp_wave_rider.Http.Ipv4.{Ipv4Address, ipv4_address_string, parse_ipv4_address}
use esp_wave_rider.Http.Response.{split_crlf}
use esp_wave_rider.Http.Reading.{
  IsRequest, waits, waits-none, read_http_route-parts, read_http_route_cut,
}
use esp_wave_rider.Http.Address.{parse_ipv4_address-ipv4_address_string}

abbrev post : Text
post = codes "POST /api/command HTTP/1.1\r\nContent-Length: 6\r\n\r\n"

-- The command is the body, trimmed.
posts : parse_http_route list_string (post ++ codes "ping\r\n") 6 ≡ ok (command (codes "ping"))
unfolding parse_http_route split_once find? lines split_whitespace route_of command_route from_utf8
    strip_prefix lines_of split text_eq strip_cr is_whitespace as_bytes trim
posts = refl

-- A read of the head and of a part of the body waits for the rest.
post_waits : decide_request list_string (as_bytes (post ++ codes "pi")) ≡ none
unfolding decide_request find_http_header_end find? from_utf8 parse_content_length content_length_in
    lines split_once strip_prefix as_bytes lines_of split strip_cr eq_ignore_ascii_case
    parse_unsigned trim
post_waits = refl

-- The parts between the line ends.
splits_lines : split_crlf (codes "a\r\n\r\nb") false ≡ codes "a" ∷ [] ∷ codes "b" ∷ []
unfolding split_crlf
splits_lines = refl

abbrev get_snapshot : List ℕ
get_snapshot = codes "GET /api/snapshot\r\n\r\n"

get_snapshot-IsRequest : IsRequest list_string get_snapshot (ok snapshot)
unfolding decide_request find_http_header_end find? parse_http_route parse_content_length
    content_length_in lines split_once split_whitespace route_of strip_prefix from_utf8 lines_of
    split text_eq strip_cr is_whitespace waits
get_snapshot-IsRequest = record {
  whole = refl;
  fits = omega arith;
  minimal = λ start rest whole more.
      waits-none list_string [] start rest
        (subst (λ request. waits list_string [] request ≡ true) (sym whole) refl) more;
}

read_http_route-parts_example :
    read_http_route list_string
      (some (codes "GET /api/sn") ∷ some (codes "apshot\r\n\r") ∷ some (codes "\n") ∷ [])
    ≡ some (ok snapshot)
read_http_route-parts_example =
    read_http_route-parts list_string get_snapshot (ok snapshot) (codes "GET /api/sn")
      (codes "apshot\r\n\r" ∷ codes "\n" ∷ []) get_snapshot-IsRequest (ground arith) refl

read_http_route_cut_example :
    read_http_route list_string (some (as_bytes post ++ 0xc3 ∷ []) ∷ some (0xa4 ∷ []) ∷ [])
    ≡ some (
        err (
          http_response
            (codes "400 Bad Request")
            (codes "application/json")
            (codes "{\"error\":\"http_invalid_utf8\"}")))
unfolding find_http_header_end find? as_bytes
read_http_route_cut_example =
    read_http_route_cut list_string post 0xc3 (some (0xa4 ∷ []) ∷ []) (ground arith) refl
      (omega arith) (omega arith) (omega arith)

abbrev gateway : Ipv4Address
gateway = record { a = 192; b = 168; c = 4; d = 1 }

parse_ipv4_address-ipv4_address_string_example :
    parse_ipv4_address (ipv4_address_string gateway) ≡ some gateway
parse_ipv4_address-ipv4_address_string_example =
    parse_ipv4_address-ipv4_address_string gateway (record {
      first = omega arith;
      second = omega arith;
      third = omega arith;
      fourth = omega arith;
    })
