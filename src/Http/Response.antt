-- ===== src/Http/Response.antt =====
-- `parse_http_response_header` of rust/firmware/esp32s3/src/main.rs: the
-- head of the response to a download.
use esp_wave_rider.Base.{
  ℕ, Bool, true, false, not, ◌&&◌, Option, none, some, List, [], ◌∷◌, ◌++◌, take, get_elem?, ◌==◌,
  if◌then◌else◌, ◌>>=◌ as option_bind,
}
use esp_wave_rider.Text.{Text, codes, is_empty, trim, split_once, eq_ignore_ascii_case}
use esp_wave_rider.Text.Lines.{split_whitespace}
use esp_wave_rider.Text.Number.{parse_unsigned, parse_u16}
use esp_wave_rider.Text.Utf8.{from_utf8}
use esp_wave_rider.Text.Results.{Result, ok, err, or_err, ◌>>=◌}
use esp_wave_rider.Http.{max_usize}

pub record HttpResponseHeader : Type 0 where
  pub status_code : ℕ
  pub content_length : Option ℕ
  pub location : Option Text
  pub header_len : ℕ
  pub bytes_filled : ℕ

-- The length and the location that the header lines give; the last of each name counts.
unfoldable pub scan_headers : List Text → Option ℕ → Option Text → Option ℕ × Option Text
scan_headers [] content_length location = (content_length, location)
scan_headers (line ∷ rest) content_length location =
    elim (if is_empty line then none else split_once line (codes ":")) [
      | none ↦ scan_headers rest content_length location
      | some (name, value) ↦
          scan_headers rest
            (if eq_ignore_ascii_case name (codes "content-length")
              then parse_unsigned max_usize (trim value)
              else content_length)
            (if not (eq_ignore_ascii_case name (codes "content-length"))
                && eq_ignore_ascii_case name (codes "location")
              then some (trim value)
              else location)
    ]

-- Puts characters in front of the first part.
abbrev pub prepend : Text → List Text → List Text
prepend s [] = s ∷ []
prepend s (part ∷ parts) = (s ++ part) ∷ parts

-- The lines behind the status line.
abbrev pub tail_lines : List Text → List Text
tail_lines [] = []
tail_lines (line ∷ rest) = rest

-- `text.split("\r\n")`. `cut` says that the character before was a carriage return which is not yet
-- put into a part.
unfoldable pub split_crlf : Text → Bool → List Text
split_crlf [] false = [] ∷ []
split_crlf [] true = (13 ∷ []) ∷ []
split_crlf (c ∷ s) cut =
    let pending = split_crlf s true in
    let plain = split_crlf s false in
    if cut && c == 10
    then [] ∷ plain
    else prepend (if cut then 13 ∷ [] else []) (if c == 13 then pending else prepend (c ∷ []) plain)

abbrev pub status_of : Option Text → Result ℕ
status_of none = err (codes "firmware_http_header_missing_status")
status_of (some status_line) =
    or_err (option_bind (get_elem? (split_whitespace status_line) 1) parse_u16)
      (codes "firmware_http_header_invalid_status")

unfoldable pub header_of : List Text → ℕ → ℕ → Result HttpResponseHeader
header_of header_lines header_len bytes_filled = do
  status_code ← status_of (get_elem? header_lines 0)
  let found = scan_headers (tail_lines header_lines) none none
  ok (record {
    status_code = status_code;
    content_length = found.0;
    location = found.1;
    header_len = header_len;
    bytes_filled = bytes_filled;
  })

abbrev pub parse_header_text : Option Text → ℕ → ℕ → Result HttpResponseHeader
parse_header_text none header_len bytes_filled = err (codes "firmware_http_header_invalid_utf8")
parse_header_text (some header_text) header_len bytes_filled =
    header_of (split_crlf header_text false) header_len bytes_filled

-- `none` for a head that does not end in the buffer.
unfoldable pub parse_http_response_header : List ℕ → ℕ → Option ℕ → Result HttpResponseHeader
parse_http_response_header buffer bytes_filled none = err (codes "firmware_http_header_too_large")
parse_http_response_header buffer bytes_filled (some header_len) =
    parse_header_text (from_utf8 (take header_len buffer)) header_len bytes_filled
