-- ===== src/Radar.antt =====
-- rust/crates/espwaverider-core/src/radar.rs: the frames of the LD2420 radar. A frame is a byte
-- slice; `data[6]` and the table lookups of the source are in range where they stand, so the
-- value that a lookup gives out of range is never seen.
pub mod Energy
pub mod Hex
pub mod RoundTrip
pub mod TextFrames
mod Examples
use esp_wave_rider.Base.{
  ℕ, zero, suc, ◌+◌, ◌-◌, ◌*◌, ◌/◌, ◌%◌, Bool, true, false, not, ◌&&◌, ◌||◌, Option, none, some,
  List, [], ◌∷◌, ◌++◌, length, get_elem?, get_or, drop, ltb, leb, ◌==◌, if◌then◌else◌, ◌>>=◌,
}
use esp_wave_rider.Text.{
  Text, codes, is_empty, starts_with, contains, find?, trim, text_eq, strip_prefix,
}
use esp_wave_rider.Text.Number.{parse_u16}

abbrev pub energy_header : List ℕ
energy_header = 0xf4 ∷ 0xf3 ∷ 0xf2 ∷ 0xf1 ∷ []

abbrev pub energy_footer : List ℕ
energy_footer = 0xf8 ∷ 0xf7 ∷ 0xf6 ∷ 0xf5 ∷ []

abbrev pub energy_gate_count : ℕ
energy_gate_count = 16

abbrev pub energy_frame_min_length : ℕ
energy_frame_min_length = 45

-- The array of gates is a list; `try_parse_energy_frame` fills all sixteen.
pub record EnergyFrame : Type 0 where
  pub length : ℕ
  pub payload_length : ℕ
  pub presence : Bool
  pub distance_cm : ℕ
  pub gates : List ℕ

pub record TextFrame : Type 0 where
  pub length : ℕ
  pub presence : Bool
  pub range_cm : Option ℕ
  pub hex : Text
  pub ascii : Text

pub record GenericFrame : Type 0 where
  pub length : ℕ
  pub hex : Text
  pub ascii : Text

pub data RadarFrame : Type 0 where
  energy : EnergyFrame → RadarFrame
  text : TextFrame → RadarFrame
  generic : GenericFrame → RadarFrame

-- `Result<RadarFrame, RadarParseError>`; the error carries nothing.
pub data ParseResult : Type 0 where
  ok : RadarFrame → ParseResult
  radar_parse_error : ParseResult

unfoldable pub starts_with_energy_header : List ℕ → Bool
unfolding starts_with
starts_with_energy_header bytes = starts_with bytes energy_header

-- `data.ends_with(&ENERGY_FOOTER)`: the last four bytes.
unfoldable pub ends_with_energy_footer : List ℕ → Bool
unfolding text_eq
ends_with_energy_footer bytes =
    leb 4 (length bytes) && text_eq (drop (length bytes - 4) bytes) energy_footer

-- Both are bytes, so `|` adds.
unfoldable pub read_le16 : List ℕ → ℕ → Option ℕ
read_le16 bytes offset = do
  first ← get_elem? bytes offset
  second ← get_elem? bytes (offset + 1)
  some (first + second * 256)

-- `gates.iter_mut().enumerate()` from gate `index` on, with `count` gates left.
unfoldable pub read_gates : List ℕ → ℕ → ℕ → Option (List ℕ)
unfolding read_le16
read_gates bytes zero index = some []
read_gates bytes (suc count) index = do
  gate ← read_le16 bytes (9 + index * 2)
  rest ← read_gates bytes count (index + 1)
  some (gate ∷ rest)

unfoldable pub read_energy_fields : List ℕ → Option EnergyFrame
read_energy_fields bytes = do
  payload_length ← read_le16 bytes 4
  distance_cm ← read_le16 bytes 7
  gates ← read_gates bytes energy_gate_count 0
  some (record {
    length = length bytes;
    payload_length = payload_length;
    presence = not (get_or bytes 6 0 == 0);
    distance_cm = distance_cm;
    gates = gates;
  })

unfoldable pub try_parse_energy_frame : List ℕ → Option EnergyFrame
try_parse_energy_frame bytes =
    if ltb (length bytes) energy_frame_min_length
    then none
    else if not (starts_with_energy_header bytes) || not (ends_with_energy_footer bytes)
    then none
    else read_energy_fields bytes

-- A byte that a text frame may hold: carriage return, line feed, tab, or printable ASCII.
unfoldable pub is_textish : ℕ → Bool
is_textish byte = byte == 13 || byte == 10 || byte == 9 || (leb 32 byte && leb byte 126)

unfoldable pub parse_textish_ascii : List ℕ → Option Text
unfolding is_textish
parse_textish_ascii [] = some []
parse_textish_ascii (byte ∷ bytes) =
    let rest = (parse_textish_ascii bytes >>= λ s. some (byte ∷ s)) in
    if is_textish byte then rest else none

-- `ascii.get(range_start + 5..)` cannot fail: "Range" stands at `range_start`.
unfoldable pub extract_range_cm : Text → Option ℕ
unfolding find? trim parse_u16
extract_range_cm ascii = do
  range_start ← find? ascii (codes "Range")
  parse_u16 (trim (drop (range_start + 5) ascii))

-- The digit of a number below 16.
unfoldable pub hex_digit : ℕ → ℕ
hex_digit n = get_or (codes "0123456789ABCDEF") n 0

unfoldable pub build_hex_string : List ℕ → Text
unfolding hex_digit
build_hex_string [] = []
build_hex_string (byte ∷ bytes) =
    hex_digit (byte / 16 % 16) ∷ hex_digit (byte % 16) ∷ build_hex_string bytes

unfoldable pub build_ascii_string : List ℕ → Text
build_ascii_string [] = []
build_ascii_string (byte ∷ bytes) =
    (if leb 32 byte && leb byte 126 then byte else b'.') ∷ build_ascii_string bytes

unfoldable pub text_frame : List ℕ → Text → Option TextFrame
text_frame bytes ascii =
    if not (contains ascii (codes "Range"))
      && not (contains ascii (codes "ON"))
      && not (contains ascii (codes "OFF"))
    then none
    else some (record {
      length = length bytes;
      presence = contains ascii (codes "ON");
      range_cm = extract_range_cm ascii;
      hex = build_hex_string bytes;
      ascii = ascii;
    })

unfoldable pub try_parse_text_frame : List ℕ → Option TextFrame
try_parse_text_frame bytes = parse_textish_ascii bytes >>= λ ascii. text_frame bytes ascii

unfoldable pub generic_frame : List ℕ → GenericFrame
unfolding build_hex_string build_ascii_string
generic_frame bytes = record {
  length = length bytes;
  hex = build_hex_string bytes;
  ascii = build_ascii_string bytes;
}

unfoldable pub parse_radar_frame : List ℕ → ParseResult
parse_radar_frame bytes =
    if is_empty bytes then radar_parse_error else elim (try_parse_energy_frame bytes) [
      | some frame ↦ ok (energy frame)
      | none ↦ elim (try_parse_text_frame bytes) [
        | some frame ↦ ok (text frame)
        | none ↦ ok (generic (generic_frame bytes))
      ]
    ]
