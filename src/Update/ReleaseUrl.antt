-- ===== src/Update/ReleaseUrl.antt =====
-- Where the URL of a release leads.
use esp_wave_rider.Base.{
  ℕ, ◌≤◌, ◌≡◌, ◌≢◌, refl, sym, ap, ◌∙◌, subst, inl, inr, Bool, true, false, not, ◌&&◌, none, some,
  List, [], ◌∷◌, ◌++◌, All, All-append, All-map, leb, arith, Bool-cases, Option-cases,
}
use esp_wave_rider.Text.{
  Text, codes, is_empty, text_eq, trim, trim_start, trim_end, is_whitespace, find?, starts_with,
  strip_prefix, split_once, rsplit_once, eq_ignore_ascii_case, to_ascii_lowercase,
  is_ascii_uppercase,
}
use esp_wave_rider.Text.Laws.{text_eq_refl, is_empty_of_ne}
use esp_wave_rider.Release.{
  https, ParsedDownloadUrl, semantic_version_core, firmware_release_asset_url,
  firmware_release_asset_name, firmware_release_asset_urls, parse_download_url, read_scheme,
  read_target, read_authority, host_and_port, legacy_release_target_alias, with_alias, read_version,
  skip_v, read_digits, span_digits,
}
use esp_wave_rider.Release.Version.{IsVersion, IsDigit, semantic_version_core_idempotent}
use esp_wave_rider.Update.{
  FirmwareSyncState, rust_build_target, firmware_release_repo_owner, firmware_release_repo_name,
}
use esp_wave_rider.Update.Attempts.{
  service_firmware_sync, Downloads, firmware_release_download_url_candidates, any_text,
  try_candidates, failed,
}
use esp_wave_rider.Update.States.{IsConsistent, release_url}

abbrev Visible : ℕ → Type 0
Visible c = (33 ≤ c) × (c ≤ 126)

abbrev all_visible : Text → Bool
all_visible [] = true
all_visible (c ∷ s) = (leb 33 c && leb c 126) && all_visible s

all_visible-All : (s : Text) → all_visible s ≡ true → All Visible s
all_visible-All [] h = tt
all_visible-All (c ∷ s) h = (ground arith, all_visible-All s (ground arith))

trim_start-Visible : (c : ℕ) (s : Text) → Visible c → trim_start (c ∷ s) ≡ c ∷ s
unfolding trim_start is_whitespace
trim_start-Visible c s h = ground arith

trim_end-Visible : (s : Text) → All Visible s → trim_end s ≡ s
unfolding trim_end is_whitespace
trim_end-Visible [] h = refl
trim_end-Visible (c ∷ s) (hc, hs) = ground (arith, trim_end-Visible s hs)

digit-Visible : (c : ℕ) → IsDigit c → Visible c
digit-Visible c h = omega arith

version-Visible : {v : Text} → IsVersion v → All Visible v
version-Visible (IsVersion.numbers major minor patch (ea, ha) (eb, hb) (ec, hc)) =
    All-append Visible major (b'.' ∷ (minor ++ (b'.' ∷ patch)))
      (All-map IsDigit Visible major digit-Visible ha)
      (
        omega arith,
        All-append Visible minor (b'.' ∷ patch) (All-map IsDigit Visible minor digit-Visible hb)
            (omega arith, All-map IsDigit Visible patch digit-Visible hc),
      )

-- The path of a release's image.
abbrev pub release_path : Text → Text
release_path v =
    codes "/JerrettDavis/EspWaveRider/releases/download/v"
    ++ (v
        ++ (b'/'
            ∷ (codes "EspWaveRider-" ++ (v ++ (b'-' ∷ codes "lonely-esp32-s3-devkitm-1.bin")))))

release_url-eq :
    (v : Text)
    → semantic_version_core v ≡ v
    → is_empty v ≡ false
    → release_url v ≡ codes "https://github.com" ++ release_path v
unfolding firmware_release_asset_url firmware_release_asset_name trim trim_start trim_end
    is_whitespace
release_url-eq v core given = rw (core, core, given) refl

release_path-Visible : (v : Text) → All Visible v → All Visible (release_path v)
release_path-Visible v h =
    All-append Visible (codes "/JerrettDavis/EspWaveRider/releases/download/v") _
      (all_visible-All (codes "/JerrettDavis/EspWaveRider/releases/download/v") refl)
      (All-append Visible v _ h (
        omega arith,
        All-append Visible (codes "EspWaveRider-") _ (all_visible-All (codes "EspWaveRider-") refl)
            (All-append Visible v _ h
              (omega arith, all_visible-All (codes "lonely-esp32-s3-devkitm-1.bin") refl)),
      ))

trim-github :
    (path : Text)
    → All Visible path
    → trim (codes "https://github.com/" ++ path) ≡ codes "https://github.com/" ++ path
unfolding trim
trim-github path h =
    let visible =
      All-append Visible (codes "https://github.com/") path
        (all_visible-All (codes "https://github.com/") refl) h in
    ap trim_end (trim_start-Visible b'h' (codes "ttps://github.com/" ++ path) (omega arith))
    ∙ trim_end-Visible (codes "https://github.com/" ++ path) visible

-- A URL of the host that needs no trimming.
parse-github :
    (path : Text)
    → All Visible path
    → parse_download_url (codes "https://github.com/" ++ path)
      ≡ some (record { scheme = https; host = codes "github.com"; port = 443; path = b'/' ∷ path })
unfolding parse_download_url split_once find? starts_with strip_prefix read_scheme
    eq_ignore_ascii_case to_ascii_lowercase is_ascii_uppercase read_target read_authority
    host_and_port rsplit_once
parse-github path h = rw (trim-github path h) refl

-- The URL of every release parses: it is the image's path on github.com, over HTTPS.
pub parse_download_url-release_url :
    (v : Text)
    → semantic_version_core v ≡ v
    → v ≢ []
    → parse_download_url (release_url v)
      ≡ some
          (record { scheme = https; host = codes "github.com"; port = 443; path = release_path v })
parse_download_url-release_url v core given = elim (semantic_version_core_idempotent v).0 [
  | inl none_there ↦ absurd (given (sym core ∙ none_there))
  | inr is_version ↦
      let visible = version-Visible (subst IsVersion core is_version) in
      ap parse_download_url (release_url-eq v core (is_empty_of_ne v given))
      ∙ parse-github _ (release_path-Visible v visible).1
]

no_release_url : (v : Text) → v ≡ [] → is_empty (release_url v) ≡ false → ⊥
unfolding firmware_release_asset_url semantic_version_core trim trim_start trim_end read_version
    skip_v read_digits span_digits
no_release_url v e given =
    let empty : is_empty (release_url v) ≡ true = rw e refl in absurd (ground arith)

first_disabled :
    (d : Downloads) (url : Text) (rest : List Text) (p : ParsedDownloadUrl)
    → d.https_ota ≡ false
    → parse_download_url url ≡ some (record p { scheme = https })
    → try_candidates d (url ∷ rest) none ≡ failed (some (codes "firmware_https_disabled"))
unfolding try_candidates
first_disabled d url rest p off parsed = rw (parsed, off) refl

with_alias_first :
    (canonical_url alias_url : Text)
    → (rest : List Text) × (with_alias canonical_url alias_url ≡ canonical_url ∷ rest)
with_alias_first canonical_url alias_url =
    elim (Bool-cases (not (is_empty alias_url) && not (text_eq canonical_url alias_url))) [
      | inl other ↦ (alias_url ∷ [], rw other refl)
      | inr same ↦ ([], rw same refl)
    ]

urls_first :
    (owner repo v target : Text)
    → is_empty (firmware_release_asset_url owner repo v target) ≡ false
    → (rest : List Text) × (firmware_release_asset_urls owner repo v target
        ≡ firmware_release_asset_url owner repo v target ∷ rest)
unfolding firmware_release_asset_urls
urls_first owner repo v target given = elim (Option-cases (legacy_release_target_alias target)) [
  | inl no_alias ↦ ([], rw (given, no_alias) refl)
  | inr (alias_target, found) ↦
      let (rest, first) =
        with_alias_first (firmware_release_asset_url owner repo v target)
          (firmware_release_asset_url owner repo v alias_target) in
      (rest, rw (given, found) first)
]

-- The queued URL stands first among the candidates, once.
candidates_first :
    (v : Text)
    → is_empty (release_url v) ≡ false
    → (rest : List Text) × (firmware_release_download_url_candidates v (release_url v)
        ≡ release_url v ∷ rest)
unfolding firmware_release_download_url_candidates any_text
candidates_first v given =
    let (rest, first) =
      urls_first firmware_release_repo_owner firmware_release_repo_name v rust_build_target given in
    (rest, rw (given, first, text_eq_refl (release_url v)) refl)

-- A build without HTTPS cannot update itself from the releases: whatever release is queued and
-- whatever the network answers, the service ends without success and reports that HTTPS is off.
pub service_without_https :
    (d : Downloads) (f : FirmwareSyncState) (uptime_ms : ℕ)
    → d.https_ota ≡ false
    → IsConsistent f
    → f.pending ≡ true
    → ((service_firmware_sync d f uptime_ms).last_success ≡ false)
      × ((service_firmware_sync d f uptime_ms).last_error ≡ codes "firmware_https_disabled")
unfolding service_firmware_sync
service_without_https d f uptime_ms off h queued =
    let url = h.url queued in
    let core = h.release queued in
    let given : is_empty (release_url f.target_version) ≡ false =
      ap is_empty (sym url) ∙ h.resolvable queued in
    let (rest, first) = candidates_first f.target_version given in
    let parsed =
      parse_download_url-release_url f.target_version core
        (λ e. absurd (no_release_url f.target_version e given)) in
    let disabled : try_candidates d
          (firmware_release_download_url_candidates f.target_version f.download_url) none
        ≡ failed (some (codes "firmware_https_disabled")) =
      ap (λ u. try_candidates d (firmware_release_download_url_candidates f.target_version u) none)
        url
      ∙ ap (λ l. try_candidates d l none) first
      ∙ first_disabled d (release_url f.target_version) rest
          (record {
            scheme = https;
            host = codes "github.com";
            port = 443;
            path = release_path f.target_version;
          })
          off parsed in
    rw (queued, h.idle, h.resolvable queued, disabled) (refl, refl)
