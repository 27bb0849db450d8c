-- ===== src/Release/Examples.antt =====
-- Runs of the release names and URLs, and their theorems at concrete texts.
use esp_wave_rider.Base.{◌≡◌, ◌++◌, true, refl, some, ◌∷◌, []}
use esp_wave_rider.Text.{
  split, Text, starts_with, codes, text_eq, trim, is_ascii_digit, eq_ignore_ascii_case, split_once,
  rsplit_once,
}
use esp_wave_rider.Text.Number.{parse_u16, parse_u32}
use esp_wave_rider.Release.{
  ParsedDownloadUrl, http, semantic_version_core, read_version, read_digits, span_digits, skip_v,
  parse_download_url, read_scheme, read_target, read_authority, host_and_port, all_digits,
  firmware_release_asset_urls, firmware_release_asset_url, firmware_release_asset_name,
  legacy_release_target_alias, default_port,
}
use esp_wave_rider.Base.Int.{negsuc}
use esp_wave_rider.Release.Compare.{
  compare_semantic_versions, compare_cores, compare_parts, fill_semantic_parts,
}
use esp_wave_rider.Release.Url.{PortPart, parse_download_url-written}

reads_version : semantic_version_core (codes " v1.2.3-4-gabcd ") ≡ codes "1.2.3"
unfolding semantic_version_core read_version read_digits span_digits skip_v trim is_ascii_digit
reads_version = refl

abbrev firmware_url : ParsedDownloadUrl
firmware_url = record {
  scheme = http;
  host = codes "example.local";
  port = 8080;
  path = codes "/fw.bin";
}

parses_port : parse_download_url (codes "HTTP://example.local:8080/fw.bin") ≡ some firmware_url
unfolding parse_download_url read_scheme read_target read_authority host_and_port all_digits
    split_once rsplit_once trim eq_ignore_ascii_case is_ascii_digit parse_u16
parses_port = refl

lists_alias :
    firmware_release_asset_urls
      (codes "o")
      (codes "r")
      (codes "v1.2.3-4-gabcd")
      (codes "esp32-generic-uart1")
    ≡ codes
        "https://github.com/o/r/releases/download/v1.2.3/EspWaveRider-1.2.3-esp32-generic-uart1.bin"
      ∷ codes
          "https://github.com/o/r/releases/download/v1.2.3/EspWaveRider-1.2.3-esp32dev-uart1.bin"
      ∷ []
unfolding firmware_release_asset_urls firmware_release_asset_url firmware_release_asset_name
    legacy_release_target_alias semantic_version_core read_version read_digits span_digits skip_v
    text_eq trim is_ascii_digit
lists_alias = refl

parse_download_url-written_example :
    (scheme_text part : Text) × (trim (codes "HTTP://example.local:8080/fw.bin")
      ≡ scheme_text ++ (codes "://" ++ ((codes "example.local" ++ part) ++ codes "/fw.bin")))
    × (read_scheme scheme_text ≡ some http)
    × PortPart (default_port http) part 8080
    × (starts_with (codes "/fw.bin") (codes "/") ≡ true)
parse_download_url-written_example =
    parse_download_url-written (codes "HTTP://example.local:8080/fw.bin") firmware_url parses_port

not_after :
    (compare_semantic_versions (codes "v1.2.3-4") (codes "1.2.10") ≡ negsuc 0)
    × (compare_semantic_versions (codes "1.2.10") (codes "1.3.0") ≡ negsuc 0)
unfolding compare_semantic_versions compare_cores compare_parts fill_semantic_parts parse_u32 split
    semantic_version_core read_version read_digits span_digits skip_v trim is_ascii_digit
not_after = (refl, refl)

-- A number that does not fit 32 bits counts as 0.
too_large : compare_semantic_versions (codes "1.2.4294967296") (codes "1.2.1") ≡ negsuc 0
unfolding compare_semantic_versions compare_cores compare_parts fill_semantic_parts parse_u32 split
    semantic_version_core read_version read_digits span_digits skip_v trim is_ascii_digit
too_large = refl
