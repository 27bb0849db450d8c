-- ===== src/Hostname.antt =====
-- `sanitize_hostname` of rust/firmware/esp32s3/src/main.rs, which makes host names and topic parts.
pub mod Laws
mod Examples
use esp_wave_rider.Base.{
  ℕ, Bool, true, false, not, ◌&&◌, ◌||◌, List, [], ◌∷◌, ◌++◌, ◌==◌, if◌then◌else◌, take,
}
use esp_wave_rider.Text.{
  Text, codes, is_empty, is_ascii_digit, is_ascii_lowercase, is_ascii_uppercase, to_ascii_lowercase,
}

-- `hostname.ends_with('-')`
unfoldable pub ends_with_dash : Text → Bool
ends_with_dash [] = false
ends_with_dash (c ∷ []) = c == b'-'
ends_with_dash (c ∷ d ∷ s) = ends_with_dash (d ∷ s)

-- One turn of the loop over the characters.
unfoldable pub push_character : Text → ℕ → Text
push_character hostname c =
    if is_ascii_lowercase c || is_ascii_digit c
    then hostname ++ c ∷ []
    else if is_ascii_uppercase c
    then hostname ++ to_ascii_lowercase c ∷ []
    else if (c == b'-' || c == b'_') && not (is_empty hostname) && not (ends_with_dash hostname)
    then hostname ++ b'-' ∷ []
    else hostname

unfoldable pub push_characters : Text → Text → Text
push_characters hostname [] = hostname
push_characters hostname (c ∷ s) = push_characters (push_character hostname c) s

-- `while hostname.starts_with('-') { hostname.remove(0); }`
unfoldable pub strip_leading : Text → Text
strip_leading [] = []
strip_leading (c ∷ s) = let rest = strip_leading s in if c == b'-' then rest else c ∷ s

-- `while hostname.ends_with('-') { hostname.pop(); }`: a dash goes that only dashes follow.
unfoldable pub strip_trailing : Text → Text
strip_trailing [] = []
strip_trailing (c ∷ s) =
    let rest = strip_trailing s in if is_empty rest && c == b'-' then [] else c ∷ rest

-- The characters left are ASCII, so `truncate` cuts 31 of them off.
unfoldable pub sanitize_hostname : Text → Text
sanitize_hostname value =
    let hostname = strip_trailing (strip_leading (push_characters [] value)) in
    take 31 (if is_empty hostname then codes "lb-mmwave" else hostname)
