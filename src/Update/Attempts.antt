-- ===== src/Update/Attempts.antt =====
-- `service_firmware_sync` of rust/firmware/esp32s3/src/main.rs: a queued update, tried
-- with one download URL after the other.
use esp_wave_rider.Base.{
  ℕ, ◌-◌, ◌^◌, Bool, true, false, not, ◌&&◌, ◌||◌, Option, none, some, List, [], ◌∷◌, ◌++◌,
  if◌then◌else◌, min,
}
use esp_wave_rider.Text.{Text, codes, text_eq, is_empty}
use esp_wave_rider.Text.Results.{Result, ok, err}
use esp_wave_rider.Json.{append_u32}
use esp_wave_rider.Release.{
  DownloadUrlScheme, http, https, ParsedDownloadUrl, firmware_release_asset_urls,
  parse_download_url,
}
use esp_wave_rider.Update.{
  rust_build_target, firmware_release_repo_owner, firmware_release_repo_name, FirmwareSyncState,
}

-- `urls.iter().any(|existing| existing == primary_url)`
unfoldable pub any_text : List Text → Text → Bool
any_text [] t = false
any_text (s ∷ texts) t = text_eq s t || any_text texts t

unfoldable pub firmware_release_download_url_candidates : Text → Text → List Text
firmware_release_download_url_candidates target_version primary_url =
    let urls =
      firmware_release_asset_urls firmware_release_repo_owner firmware_release_repo_name
        target_version rust_build_target in
    if not (is_empty primary_url) && not (any_text urls primary_url)
    then primary_url ∷ urls
    else urls

-- What the loop over the candidates ends with: bytes that were staged, the last error, if any, or
-- TLS that could not be set up.
pub data Download : Type 0 where
  staged : ℕ → DownloadUrlScheme → Download
  failed : Option Text → Download
  tls_init_failed : Download

-- An image that is not found leaves the later candidates; any other error ends the loop.
abbrev pub after_attempt : DownloadUrlScheme → Result ℕ → (Text → Download) → Download
after_attempt scheme (ok bytes_written) later = staged bytes_written scheme
after_attempt scheme (err error) later =
    if text_eq error (codes "firmware_http_not_found") then later error else failed (some error)

-- What the build and the hardware decide: whether HTTPS is built in, whether TLS can be set up, and
-- what `perform_http_firmware_update` and its HTTPS twin return for a URL.
pub record Downloads : Type 0 where
  pub https_ota : Bool
  pub tls_ready : Bool
  pub perform : ParsedDownloadUrl → Result ℕ

abbrev pub attempt :
    Downloads → ParsedDownloadUrl → DownloadUrlScheme → (Text → Download) → Download
attempt d url http later = after_attempt http (d.perform url) later
attempt d url https later =
    if not d.https_ota
    then failed (some (codes "firmware_https_disabled"))
    else if not d.tls_ready
    then tls_init_failed
    else after_attempt https (d.perform url) later

abbrev pub attempt_parsed : Downloads → Option ParsedDownloadUrl → (Text → Download) → Download
attempt_parsed d none later = failed (some (codes "release_download_url_invalid"))
attempt_parsed d (some url) later = attempt d url url.scheme later

unfoldable pub try_candidates : Downloads → List Text → Option Text → Download
try_candidates d [] last_error = failed last_error
try_candidates d (candidate_url ∷ urls) last_error =
    let later = λ (error : Text). try_candidates d urls (some error) in
    attempt_parsed d (parse_download_url candidate_url) later

unfoldable pub staged_status : ℕ → DownloadUrlScheme → Text
staged_status bytes_written scheme =
    append_u32
      (elim scheme [
        | https ↦ codes "Firmware staged into the next OTA partition from HTTPS source ("
        | http ↦ codes "Firmware staged into the next OTA partition from HTTP source ("
      ])
      (min bytes_written (2 ^ 32 - 1))
    ++ codes " bytes). Reboot to boot the staged image."

unfoldable pub error_status : Text → Text
error_status error =
    if text_eq error (codes "firmware_https_disabled")
    then codes "Rust firmware sync HTTPS support is disabled in this build."
    else if text_eq error (codes "release_download_url_invalid")
    then codes
        "Rust firmware sync resolved a release asset URL, but it is not a valid HTTP or HTTPS download target."
    else codes "Rust firmware sync failed while downloading or staging the firmware image."

-- The end of the service, from the result of the loop.
abbrev pub finish_sync : FirmwareSyncState → ℕ → Download → FirmwareSyncState
finish_sync f uptime_ms (staged bytes_written scheme) = record f {
  last_success = true;
  last_error = [];
  status = staged_status bytes_written scheme;
  in_progress = false;
  last_completed_ms = uptime_ms;
}
finish_sync f uptime_ms (failed none) = record f {
  in_progress = false;
  last_completed_ms = uptime_ms;
}
finish_sync f uptime_ms (failed (some error)) = record f {
  last_error = error;
  status = error_status error;
  in_progress = false;
  last_completed_ms = uptime_ms;
}
finish_sync f uptime_ms tls_init_failed = record f {
  last_error = codes "firmware_https_tls_init_failed";
  status = codes "Rust firmware sync could not initialize TLS after Wi-Fi came up.";
  last_completed_ms = uptime_ms;
  in_progress = false;
}

unfoldable pub service_firmware_sync : Downloads → FirmwareSyncState → ℕ → FirmwareSyncState
service_firmware_sync d f uptime_ms =
    let started = record f {
      pending = false;
      in_progress = true;
      last_success = false;
      last_started_ms = uptime_ms;
    } in
    if not f.pending || f.in_progress
    then f
    else if is_empty f.download_url
    then record started {
      last_error = codes "release_download_url_missing";
      status =
          codes
            "Rust firmware sync could not resolve a GitHub release asset URL for this board target.";
      in_progress = false;
      last_completed_ms = uptime_ms;
    }
    else finish_sync started uptime_ms (
        try_candidates d (firmware_release_download_url_candidates f.target_version f.download_url)
          none)
