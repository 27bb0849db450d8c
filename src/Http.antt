-- ===== src/Http.antt =====
-- The HTTP server's reader of rust/firmware/esp32s3/src/main.rs; the head of a download's response
-- is in Http/Response, the IPv4 text in Http/Ipv4. What a socket's reads give is a list: the bytes
-- of each read, or `none` for an error.
pub mod Ipv4
pub mod Response
pub mod Reading
pub mod Address
mod Examples
use esp_wave_rider.Base.{
  ℕ, ◌+◌, ◌-◌, ◌%◌, ◌^◌, ◌&&◌, ◌||◌, Option, none, some, List, [], ◌∷◌, ◌++◌, length, take,
  get_elem?, get_or, ltb, leb, if◌then◌else◌, min,
}
use esp_wave_rider.Text.{
  Text, codes, text_eq, is_empty, trim, find?, split_once, eq_ignore_ascii_case,
}
use esp_wave_rider.Text.Lines.{lines, split_whitespace}
use esp_wave_rider.Text.Number.{parse_unsigned}
use esp_wave_rider.Text.Utf8.{as_bytes, from_utf8}
use esp_wave_rider.Text.Results.{Result, ok, err}
use esp_wave_rider.Fixed.{FixedString}
use esp_wave_rider.Json.{append_u32}

pub data HttpRoute : Type 0 where
  root_page snapshot : HttpRoute
  command : Text → HttpRoute

abbrev pub max_usize : ℕ
max_usize = 2 ^ 32 - 1

unfoldable pub http_response : Text → Text → Text → Text
http_response status content_type body =
    append_u32
      (codes "HTTP/1.1 "
        ++ (status
            ++ (codes "\r\nContent-Type: " ++ (content_type ++ codes "\r\nContent-Length: "))))
      (min (length (as_bytes body)) max_usize)
    ++ (codes
          "\r\nConnection: close\r\nCache-Control: no-store\r\nAccess-Control-Allow-Origin: *\r\n\r\n"
        ++ body)

-- The error responses are JSON.
abbrev pub failed : {A : Type 0} → Text → Text → Result A
failed status body = err (http_response status (codes "application/json") body)

unfoldable pub find_http_header_end : List ℕ → Option ℕ
find_http_header_end buffer = find? buffer (13 ∷ 10 ∷ 13 ∷ 10 ∷ [])

-- The value of the first line with the name, in whatever case; `fallback` where there is none.
unfoldable pub content_length_in : List Text → Option ℕ
content_length_in [] = none
content_length_in (line ∷ rest) =
    let later = content_length_in rest in
    elim (split_once line (codes ":")) [
      | none ↦ later
      | some (name, value) ↦
          if eq_ignore_ascii_case name (codes "Content-Length")
          then parse_unsigned max_usize (trim value)
          else later
    ]

unfoldable pub parse_content_length : Text → Option ℕ
parse_content_length request = content_length_in (lines request)

abbrev pub text_at : List Text → ℕ → Text
text_at words index = get_or words index []

module _ (str : FixedString) where
  -- The text of a command, with at most 256 bytes.
  unfoldable pub command_route : Text → ℕ → Result HttpRoute
  command_route body content_length =
      elim (from_utf8 (take (min content_length (length (as_bytes body))) (as_bytes body))) [
        | none ↦
            failed (codes "400 Bad Request") (codes "{\"error\":\"http_invalid_command_utf8\"}")
        | some text ↦
            if is_empty (trim text)
            then failed (codes "400 Bad Request") (codes "{\"error\":\"http_empty_command\"}")
            else elim (str.push_str 256 [] (trim text)) [
              | none ↦
                  failed (codes "413 Payload Too Large")
                    (codes "{\"error\":\"http_command_too_large\"}")
              | some command_text ↦ ok (command command_text)
            ]
      ]

  unfoldable pub route_of : Text → Text → Text → ℕ → Result HttpRoute
  route_of method path body content_length =
      if text_eq method (codes "GET")
      then (if text_eq path (codes "/") || text_eq path (codes "/index.html")
          then ok root_page
          else if text_eq path (codes "/api/snapshot") || text_eq path (codes "/api/status")
          then ok snapshot
          else ok root_page)
      else if text_eq method (codes "POST") && text_eq path (codes "/api/command")
      then command_route body content_length
      else failed (codes "404 Not Found") (codes "{\"error\":\"http_not_found\"}")

  -- The request line, which is there unless the head is empty.
  abbrev pub route_line : Option Text → Text → ℕ → Result HttpRoute
  route_line none body content_length =
      failed (codes "400 Bad Request") (codes "{\"error\":\"http_missing_request_line\"}")
  route_line (some request_line) body content_length =
      let parts = split_whitespace request_line in
      route_of (text_at parts 0) (text_at parts 1) body content_length

  abbrev pub route_parts : Option (Text × Text) → ℕ → Result HttpRoute
  route_parts none content_length =
      failed (codes "400 Bad Request") (codes "{\"error\":\"http_malformed_request\"}")
  route_parts (some (head, body)) content_length =
      route_line (get_elem? (lines head) 0) body content_length

  unfoldable pub parse_http_route : Text → ℕ → Result HttpRoute
  parse_http_route request content_length =
      route_parts (split_once request (codes "\r\n\r\n")) content_length

  abbrev pub length_or_zero : Option ℕ → ℕ
  length_or_zero none = 0
  length_or_zero (some n) = n

  -- A buffer with a whole head: its route, or `none` where more of the body is to come. The sum of a
  -- header's length wraps at 32 bits.
  abbrev pub decide_text : List ℕ → ℕ → Option Text → Option (Result HttpRoute)
  decide_text buffer header_end none =
      some (failed (codes "400 Bad Request") (codes "{\"error\":\"http_invalid_utf8\"}"))
  decide_text buffer header_end (some request) =
      let content_length = length_or_zero (parse_content_length request) in
      if ltb (length buffer) ((header_end + 4 + content_length) % 2 ^ 32)
      then none
      else some (parse_http_route request content_length)

  abbrev pub decide_head : List ℕ → Option ℕ → Option (Result HttpRoute)
  decide_head buffer none = none
  decide_head buffer (some header_end) = decide_text buffer header_end (from_utf8 buffer)

  -- What the loop does with the bytes that it has.
  unfoldable pub decide_request : List ℕ → Option (Result HttpRoute)
  decide_request buffer = decide_head buffer (find_http_header_end buffer)

  abbrev pub or_continue :
      Option (Result HttpRoute) → Option (Result HttpRoute) → Option (Result HttpRoute)
  or_continue none rest = rest
  or_continue (some r) rest = some r

  -- A read fills at most what is free of the 1024 bytes. `none` while the socket has no more reads.
  unfoldable pub read_requests : List ℕ → List (Option (List ℕ)) → Option (Result HttpRoute)
  read_requests buffer [] =
      if leb 1024 (length buffer)
      then some
          (failed (codes "413 Payload Too Large") (codes "{\"error\":\"http_request_too_large\"}"))
      else none
  read_requests buffer (none ∷ reads) =
      if leb 1024 (length buffer)
      then some
          (failed (codes "413 Payload Too Large") (codes "{\"error\":\"http_request_too_large\"}"))
      else some (failed (codes "400 Bad Request") (codes "{\"error\":\"http_read_failed\"}"))
  read_requests buffer (some bytes ∷ reads) =
      let filled = buffer ++ take (1024 - length buffer) bytes in
      let rest = read_requests filled reads in
      if leb 1024 (length buffer)
      then some
          (failed (codes "413 Payload Too Large") (codes "{\"error\":\"http_request_too_large\"}"))
      else if is_empty bytes
      then some (failed (codes "400 Bad Request") (codes "{\"error\":\"http_empty_request\"}"))
      else or_continue (decide_request filled) rest

  unfoldable pub read_http_route : List (Option (List ℕ)) → Option (Result HttpRoute)
  read_http_route reads = read_requests [] reads
