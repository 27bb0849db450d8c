-- ===== src/Hostname/Examples.antt =====
-- Runs of `sanitize_hostname`, and its theorem at a concrete text.
use esp_wave_rider.Base.{◌≡◌, refl}
use esp_wave_rider.Text.{
  codes, is_ascii_digit, is_ascii_lowercase, is_ascii_uppercase, to_ascii_lowercase,
}
use esp_wave_rider.Hostname.{
  ends_with_dash, push_character, push_characters, strip_leading, strip_trailing, sanitize_hostname,
}
use esp_wave_rider.Hostname.Laws.{IsHostname, sanitize_hostname-IsHostname}

sanitizes : sanitize_hostname (codes "_Kids' Room__2-") ≡ codes "kidsroom-2"
unfolding sanitize_hostname push_characters push_character ends_with_dash strip_leading
    strip_trailing is_ascii_digit is_ascii_lowercase is_ascii_uppercase to_ascii_lowercase
sanitizes = refl

-- The cut at 31 characters comes after the dashes at the end have gone, and can leave one there.
ends_in_dash :
    sanitize_hostname (codes "abcdefghijklmnopqrstuvwxyz1234-room")
    ≡ codes "abcdefghijklmnopqrstuvwxyz1234-"
unfolding sanitize_hostname push_characters push_character ends_with_dash strip_leading
    strip_trailing is_ascii_digit is_ascii_lowercase is_ascii_uppercase
ends_in_dash = refl

sanitize_hostname-IsHostname_example : IsHostname (sanitize_hostname (codes "__"))
sanitize_hostname-IsHostname_example = sanitize_hostname-IsHostname (codes "__")
