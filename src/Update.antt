-- ===== src/Update.antt =====
-- The firmware update of rust/firmware/esp32s3/src/main.rs: `FirmwareSyncState`, the choice of the
-- peer to sync from, and the two requests. `service_firmware_sync`, which tries the download URLs, is in
-- Update/Attempts.
pub mod Attempts
pub mod Highest
pub mod States
pub mod Service
pub mod ReleaseUrl
mod Examples
use esp_wave_rider.Base.{
  ℕ, ◌+◌, ◌-◌, Bool, true, false, not, ◌&&◌, ◌||◌, List, [], ◌∷◌, ◌++◌, ltb, leb, if◌then◌else◌,
}
use esp_wave_rider.Base.Int.{pos, leb_ℤ, ltb_ℤ}
use esp_wave_rider.Text.{Text, codes, text_eq, is_empty}
use esp_wave_rider.Release.{semantic_version_core, firmware_release_asset_url}
use esp_wave_rider.Release.Compare.{compare_semantic_versions}
use esp_wave_rider.Peers.{UdpDiscoveryPeerState, is_fresh, room_summary_peer_freshness_ms}

abbrev pub rust_build_target : Text
rust_build_target = codes "lonely-esp32-s3-devkitm-1"

abbrev pub firmware_release_repo_owner : Text
firmware_release_repo_owner = codes "JerrettDavis"

abbrev pub firmware_release_repo_name : Text
firmware_release_repo_name = codes "EspWaveRider"

pub record FirmwareSyncState : Type 0 where
  pub in_progress : Bool
  pub pending : Bool
  pub target_version : Text
  pub target_node_id : Text
  pub target_source : Text
  pub download_url : Text
  pub status : Text
  pub last_error : Text
  pub last_started_ms : ℕ
  pub last_completed_ms : ℕ
  pub last_success : Bool

abbrev pub default_sync_state : FirmwareSyncState
default_sync_state = record {
  in_progress = false;
  pending = false;
  target_version = [];
  target_node_id = [];
  target_source = [];
  download_url = [];
  status = [];
  last_error = [];
  last_started_ms = 0;
  last_completed_ms = 0;
  last_success = false;
}

-- The best peer that the loop over the table has found so far.
pub record HighestPeer : Type 0 where
  pub node_id : Text
  pub version : Text
  pub source : Text

abbrev pub no_peer : HighestPeer
no_peer = record { node_id = []; version = []; source = [] }

unfoldable pub peer_source : UdpDiscoveryPeerState → ℕ → Text
peer_source peer uptime_ms =
    if ltb 0 peer.last_room_summary_ms
      && leb (uptime_ms - peer.last_room_summary_ms) room_summary_peer_freshness_ms
    then codes "room_summary"
    else codes "udp_discovery"

-- A fresh peer of the same board whose version is a release.
unfoldable pub is_candidate_peer : ℕ → UdpDiscoveryPeerState → Bool
is_candidate_peer uptime_ms peer =
    is_fresh uptime_ms peer
    && text_eq peer.build_target rust_build_target
    && not (is_empty (semantic_version_core peer.firmware_version))

unfoldable pub is_better : HighestPeer → Text → Bool
is_better best candidate_version =
    is_empty best.version
    || ltb_ℤ (pos 0) (compare_semantic_versions candidate_version best.version)

unfoldable pub consider_peer : ℕ → HighestPeer → UdpDiscoveryPeerState → HighestPeer
consider_peer uptime_ms best peer =
    let candidate_version = semantic_version_core peer.firmware_version in
    if is_candidate_peer uptime_ms peer && is_better best candidate_version
    then record {
      node_id = peer.node_id;
      version = candidate_version;
      source = peer_source peer uptime_ms;
    }
    else best

unfoldable pub highest_peer : ℕ → HighestPeer → List UdpDiscoveryPeerState → HighestPeer
highest_peer uptime_ms best [] = best
highest_peer uptime_ms best (peer ∷ peers) =
    highest_peer uptime_ms (consider_peer uptime_ms best peer) peers

pub record FirmwareSyncSnapshot : Type 0 where
  pub local_version_core : Text
  pub highest_peer_node_id : Text
  pub highest_peer_version : Text
  pub highest_peer_source : Text
  pub sync_available : Bool
  pub in_progress : Bool
  pub pending : Bool
  pub target_version : Text
  pub target_node_id : Text
  pub target_source : Text
  pub download_url : Text
  pub status : Text
  pub last_error : Text
  pub last_started_ms : ℕ
  pub last_completed_ms : ℕ
  pub last_success : Bool

-- `firmware_version` is the version that the build sets.
unfoldable pub firmware_sync_snapshot :
    Text → FirmwareSyncState → List UdpDiscoveryPeerState → ℕ → FirmwareSyncSnapshot
firmware_sync_snapshot firmware_version f peers uptime_ms =
    let local_core = semantic_version_core firmware_version in
    let highest = highest_peer uptime_ms no_peer peers in
    record {
      local_version_core = local_core;
      highest_peer_node_id = highest.node_id;
      highest_peer_version = highest.version;
      highest_peer_source = highest.source;
      sync_available =
          not (is_empty highest.version)
          && ltb_ℤ (pos 0) (compare_semantic_versions highest.version local_core);
      in_progress = f.in_progress;
      pending = f.pending;
      target_version = f.target_version;
      target_node_id = f.target_node_id;
      target_source = f.target_source;
      download_url = f.download_url;
      status = f.status;
      last_error = f.last_error;
      last_started_ms = f.last_started_ms;
      last_completed_ms = f.last_completed_ms;
      last_success = f.last_success;
    }

unfoldable pub queued_status : Text → Text → Text
queued_status target_core download_url =
    codes "Queued firmware sync to release "
    ++ (target_core ++ (if is_empty download_url then [] else codes " for " ++ rust_build_target))

unfoldable pub request_firmware_update : FirmwareSyncState → Text → Text → Text → FirmwareSyncState
request_firmware_update f target_version target_node_id target_source =
    let target_core = semantic_version_core target_version in
    let download_url =
      firmware_release_asset_url firmware_release_repo_owner firmware_release_repo_name target_core
        rust_build_target in
    if is_empty target_core
    then record f {
      last_success = false;
      last_error = codes "target_version_is_not_a_release";
      status = codes "Peer version is not a release build; GitHub sync is unavailable.";
      last_completed_ms = 0;
    }
    else if f.pending || f.in_progress
    then record f {
      last_success = false;
      last_error = codes "firmware_sync_busy";
      status = codes "Firmware sync already in progress.";
    }
    else record f {
      pending = true;
      last_success = false;
      target_version = target_core;
      target_node_id = target_node_id;
      target_source = target_source;
      download_url = download_url;
      last_error = [];
      status = queued_status target_core download_url;
    }

unfoldable pub request_firmware_sync :
    Text → FirmwareSyncState → List UdpDiscoveryPeerState → ℕ → FirmwareSyncState
request_firmware_sync firmware_version f peers uptime_ms =
    let snapshot = firmware_sync_snapshot firmware_version f peers uptime_ms in
    if is_empty snapshot.highest_peer_version
    then record f {
      last_success = false;
      last_error = codes "no_peer_release_candidate";
      status = codes "No peer release version is available to sync from.";
      last_completed_ms = uptime_ms;
      pending = false;
    }
    else if leb_ℤ
        (compare_semantic_versions snapshot.highest_peer_version snapshot.local_version_core)
        (pos 0)
    then record f {
      last_success = true;
      last_error = [];
      status = codes "Already on the highest visible peer release.";
      last_completed_ms = uptime_ms;
      pending = false;
    }
    else request_firmware_update f snapshot.highest_peer_version snapshot.highest_peer_node_id
        snapshot.highest_peer_source
