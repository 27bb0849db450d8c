-- ===== src/Update/Examples.antt =====
-- Runs of the firmware update, and its theorems on concrete values.
use esp_wave_rider.Base.{ℕ, ◌≡◌, refl, ◌↔◌, true, false, []}
use esp_wave_rider.Base.Int.{pos}
use esp_wave_rider.Text.{codes, trim, is_ascii_digit}
use esp_wave_rider.Text.Results.{ok, err}
use esp_wave_rider.Release.{
  DownloadUrlScheme, semantic_version_core, read_version, read_digits, span_digits, skip_v,
}
use esp_wave_rider.Peers.{UdpDiscoveryPeerState}
use esp_wave_rider.Update.{
  FirmwareSyncState, default_sync_state, request_firmware_update, rust_build_target,
}
use esp_wave_rider.Update.Attempts.{service_firmware_sync, Downloads}
use esp_wave_rider.Update.States.{Reach, here, next, update, IsConsistent, Reach-IsConsistent}
use esp_wave_rider.Update.Service.{Staged, candidates, service_firmware_sync_succeeds_iff}
use esp_wave_rider.Update.ReleaseUrl.{service_without_https}

abbrev peer : UdpDiscoveryPeerState
peer = record {
  node_id = codes "ab";
  friendly_name = [];
  room_id = [];
  sensor_role = [];
  firmware_version = codes "v0.4.2-rc1";
  build_target = rust_build_target;
  hostname = [];
  ip_address = [];
  wifi_rssi_dbm = pos 0;
  wifi_channel = 1;
  uptime_s = 9;
  free_heap_bytes = 0;
  last_seen_ms = 900;
  pose_x_cm = pos 0;
  pose_y_cm = pos 0;
  heading_deg = pos 0;
  room_width_cm = 0;
  room_height_cm = 0;
  last_room_summary_ms = 0;
}

-- The update that a request queues.
abbrev queued : FirmwareSyncState
queued =
    request_firmware_update default_sync_state (codes "v0.4.2") (codes "manual") (codes "manual")

queued-Reach : Reach default_sync_state queued
queued-Reach = next here (update (codes "v0.4.2") (codes "manual") (codes "manual"))

is_queued : queued.pending ≡ true
unfolding request_firmware_update semantic_version_core read_version read_digits span_digits skip_v
    trim is_ascii_digit
is_queued = refl

abbrev online : Downloads
online = record { https_ota = true; tls_ready = true; perform = λ url. ok 42 }

abbrev offline : Downloads
offline = record { https_ota = false; tls_ready = false; perform = λ url. err (codes "no network") }

Reach-IsConsistent_example : IsConsistent queued
Reach-IsConsistent_example = Reach-IsConsistent {f = queued} queued-Reach

service_firmware_sync_succeeds_iff_example :
    ((service_firmware_sync online queued 7000).last_success ≡ true)
    ↔ ((bytes : ℕ) × (scheme : DownloadUrlScheme) × Staged online (candidates queued) bytes scheme)
service_firmware_sync_succeeds_iff_example =
    service_firmware_sync_succeeds_iff online queued 7000 (Reach-IsConsistent queued-Reach)
      is_queued

service_without_https_example :
    ((service_firmware_sync offline queued 7000).last_success ≡ false)
    × ((service_firmware_sync offline queued 7000).last_error ≡ codes "firmware_https_disabled")
service_without_https_example =
    service_without_https offline queued 7000 refl (Reach-IsConsistent queued-Reach) is_queued
