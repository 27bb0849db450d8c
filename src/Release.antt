-- ===== src/Release.antt =====
-- rust/crates/espwaverider-core/src/release.rs: versions, the names and URLs of release assets, and
-- download URLs.
pub mod Url
pub mod Version
pub mod Compare
mod Examples
use esp_wave_rider.Base.{
  ℕ, Bool, true, false, not, ◌&&◌, ◌||◌, Option, none, some, List, [], ◌∷◌, ◌++◌, take, drop, ◌==◌,
  if◌then◌else◌, ◌>>=◌,
}
use esp_wave_rider.Text.{
  Text, codes, text_eq, is_empty, is_some, find?, trim, is_ascii_digit, eq_ignore_ascii_case,
  split_once, rsplit_once,
}
use esp_wave_rider.Text.Number.{parse_u16}

unfoldable pub legacy_release_target_alias : Text → Option Text
legacy_release_target_alias build_target =
    let target = trim build_target in
    if text_eq target (codes "lonely-esp32-s3-devkitm-1")
    then some (codes "esp32-s3-devkitm-1")
    else if text_eq target (codes "esp32-generic-uart1")
    then some (codes "esp32dev-uart1")
    else if text_eq target (codes "heltec-wifi-lora-32-v4-compatible")
    then some (codes "heltec-wifi-lora-32-v4")
    else none

pub data DownloadUrlScheme : Type 0 where
  http https : DownloadUrlScheme

pub record ParsedDownloadUrl : Type 0 where
  pub scheme : DownloadUrlScheme
  pub host : Text
  pub port : ℕ
  pub path : Text

-- The digits that the loop over the cursor passes, and what is behind them.
unfoldable pub span_digits : Text → Text × Text
span_digits [] = ([], [])
span_digits (c ∷ s) =
    let rest = span_digits s in if is_ascii_digit c then (c ∷ rest.0, rest.1) else ([], c ∷ s)

-- What is behind a dot.
abbrev pub after_dot : Text → Option Text
after_dot [] = none
after_dot (c ∷ s) = if c == b'.' then some s else none

-- Digits, of which there is one at least.
unfoldable pub read_digits : Text → Option (Text × Text)
read_digits s = if is_empty (span_digits s).0 then none else some (span_digits s)

unfoldable pub skip_v : Text → Text
skip_v [] = []
skip_v (c ∷ s) = if c == b'v' || c == b'V' then s else c ∷ s

-- The text between the start of the major number and the cursor is the three numbers and two dots.
unfoldable pub read_version : Text → Option Text
read_version s = do
  (major, rest) ← read_digits s
  behind ← after_dot rest
  (minor, rest') ← read_digits behind
  behind' ← after_dot rest'
  (patch, rest'') ← read_digits behind'
  some (major ++ (b'.' ∷ (minor ++ (b'.' ∷ patch))))

abbrev pub text_or_empty : Option Text → Text
text_or_empty none = []
text_or_empty (some s) = s

unfoldable pub semantic_version_core : Text → Text
semantic_version_core version = text_or_empty (read_version (skip_v (trim version)))

unfoldable pub firmware_release_asset_name : Text → Text → Text → Text
firmware_release_asset_name version build_target extension =
    let version_core = semantic_version_core version in
    if is_empty version_core || is_empty (trim build_target)
    then []
    else codes "EspWaveRider-" ++ (version_core ++ (b'-' ∷ (trim build_target ++ extension)))

unfoldable pub firmware_release_asset_url : Text → Text → Text → Text → Text
firmware_release_asset_url owner repo version build_target =
    let version_core = semantic_version_core version in
    let asset_name = firmware_release_asset_name version_core build_target (codes ".bin") in
    if is_empty version_core || is_empty (trim owner) || is_empty (trim repo)
    then []
    else if is_empty asset_name
    then []
    else codes "https://github.com/"
      ++ (trim owner
          ++ (b'/'
              ∷ (trim repo
                  ++ (codes "/releases/download/v" ++ (version_core ++ (b'/' ∷ asset_name))))))

-- The URL of the alias, unless it is empty or stands there already.
abbrev pub with_alias : Text → Text → List Text
with_alias canonical_url alias_url =
    if not (is_empty alias_url) && not (text_eq canonical_url alias_url)
    then canonical_url ∷ alias_url ∷ []
    else canonical_url ∷ []

unfoldable pub firmware_release_asset_urls : Text → Text → Text → Text → List Text
firmware_release_asset_urls owner repo version build_target =
    let canonical_url = firmware_release_asset_url owner repo version build_target in
    if is_empty canonical_url then [] else elim (legacy_release_target_alias build_target) [
      | none ↦ canonical_url ∷ []
      | some alias_target ↦
          with_alias canonical_url (firmware_release_asset_url owner repo version alias_target)
    ]

unfoldable pub read_scheme : Text → Option DownloadUrlScheme
read_scheme text =
    if eq_ignore_ascii_case text (codes "http")
    then some http
    else if eq_ignore_ascii_case text (codes "https")
    then some https
    else none

abbrev pub default_port : DownloadUrlScheme → ℕ
default_port http = 80
default_port https = 443

-- `port_text.bytes().all(|byte| byte.is_ascii_digit())`
unfoldable pub all_digits : Text → Bool
all_digits [] = true
all_digits (c ∷ s) = is_ascii_digit c && all_digits s

-- The host and the port, of an authority that is cut at its last colon or has none.
unfoldable pub host_and_port : Text → ℕ → Option (Text × Text) → Option (Text × ℕ)
host_and_port authority port none = some (authority, port)
host_and_port authority port (some (host, port_text)) =
    if is_empty host || is_empty port_text || not (all_digits port_text)
    then none
    else (parse_u16 port_text >>= λ p. some (host, p))

unfoldable pub read_authority : Text → ℕ → Option (Text × ℕ)
read_authority authority port = host_and_port authority port (rsplit_once authority b':')

unfoldable pub read_target : DownloadUrlScheme → Text → Option ParsedDownloadUrl
read_target scheme remainder = do
  slash_index ← find? remainder (codes "/")
  let authority = take slash_index remainder
  let path = drop slash_index remainder
  let parsed = read_authority authority (default_port scheme)
  (host, port) ← (if is_empty authority || is_empty path then none else parsed)
  some (record { scheme = scheme; host = host; port = port; path = path })

unfoldable pub parse_download_url : Text → Option ParsedDownloadUrl
parse_download_url url = do
  (scheme_text, remainder) ← split_once (trim url) (codes "://")
  scheme ← read_scheme scheme_text
  read_target scheme remainder
