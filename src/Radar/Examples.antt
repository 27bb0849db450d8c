-- ===== src/Radar/Examples.antt =====
-- Runs of the frame parser, and its theorems at concrete frames.
use esp_wave_rider.Base.{ℕ, ◌≡◌, refl, true, some, List, [], ◌∷◌}
use esp_wave_rider.Text.{codes, contains}
use esp_wave_rider.Radar.{
  TextFrame, energy, generic, ok, parse_radar_frame, try_parse_energy_frame, try_parse_text_frame,
  read_energy_fields, read_gates, text_frame, parse_textish_ascii, generic_frame, extract_range_cm,
  starts_with_energy_header, ends_with_energy_footer, build_hex_string,
}
use esp_wave_rider.Radar.RoundTrip.{frame_bytes, sent_frame, parse-frame_bytes}

abbrev test_gates : List ℕ
test_gates = 12898 ∷ 3730 ∷ 362 ∷ 36 ∷ 80 ∷ 98 ∷ 20 ∷ 13 ∷ 13 ∷ 9 ∷ 10 ∷ 13 ∷ 20 ∷ 10 ∷ 13 ∷ 10 ∷ []

abbrev test_bytes : List ℕ
test_bytes = frame_bytes 35 0 300 test_gates

abbrev on_bytes : List ℕ
on_bytes = codes "ON\r\nRange 22\r\n"

abbrev on_frame : TextFrame
on_frame = record {
  length = 14;
  presence = true;
  range_cm = some 22;
  hex = codes "4F4E0D0A52616E67652032320D0A";
  ascii = on_bytes;
}

parses_text : try_parse_text_frame on_bytes ≡ some on_frame
unfolding try_parse_text_frame parse_textish_ascii text_frame contains extract_range_cm
    build_hex_string
parses_text = refl

parses_energy : try_parse_energy_frame test_bytes ≡ some (sent_frame 35 0 300 test_gates)
unfolding try_parse_energy_frame starts_with_energy_header ends_with_energy_footer
    read_energy_fields read_gates
parses_energy = refl

parses_generic :
    parse_radar_frame (1 ∷ 2 ∷ 65 ∷ [])
    ≡ ok (generic (record { length = 3; hex = codes "010241"; ascii = codes "..A" }))
unfolding parse_radar_frame try_parse_energy_frame try_parse_text_frame parse_textish_ascii
    generic_frame
parses_generic = refl

parse-frame_bytes_example :
    parse_radar_frame test_bytes ≡ ok (energy (sent_frame 35 0 300 test_gates))
parse-frame_bytes_example = parse-frame_bytes 35 0 300 test_gates refl
