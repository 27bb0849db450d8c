-- ===== src/Peers.antt =====
-- The table of the other nodes in rust/firmware/esp32s3/src/main.rs: `UdpDiscoveryPeerState`, the
-- operations of `FirmwareState` that fill it from announcements; Peers/Summaries fills it from room
-- summaries, empties it and polls the socket. `PeersState` has the fields of `FirmwareState` that they
-- read or write.
pub mod Find
pub mod Summaries
pub mod Oldest
pub mod Table
pub mod Events
pub mod Sync
mod Examples
use esp_wave_rider.Base.{
  ℕ, zero, suc, ◌+◌, ◌-◌, ◌%◌, ◌^◌, Bool, false, ◌||◌, Option, none, some, List, [], ◌∷◌, ◌++◌,
  length, ltb, leb, if◌then◌else◌,
}
use esp_wave_rider.Base.Int.{ℤ, pos, pos_part}
use esp_wave_rider.Text.{Text, codes, text_eq, is_empty}
use esp_wave_rider.Json.{json_field_string, json_field_i32, json_field_u32}

abbrev pub max_udp_discovery_peers : ℕ
max_udp_discovery_peers = 12

abbrev pub udp_discovery_peer_freshness_ms : ℕ
udp_discovery_peer_freshness_ms = 20000

abbrev pub room_summary_peer_freshness_ms : ℕ
room_summary_peer_freshness_ms = 20000

abbrev pub udp_discovery_announce_ms : ℕ
udp_discovery_announce_ms = 5000

pub record UdpDiscoveryPeerState : Type 0 where
  pub node_id : Text
  pub friendly_name : Text
  pub room_id : Text
  pub sensor_role : Text
  pub firmware_version : Text
  pub build_target : Text
  pub hostname : Text
  pub ip_address : Text
  pub wifi_rssi_dbm : ℤ
  pub wifi_channel : ℕ
  pub uptime_s : ℕ
  pub free_heap_bytes : ℕ
  pub last_seen_ms : ℕ
  pub pose_x_cm : ℤ
  pub pose_y_cm : ℤ
  pub heading_deg : ℤ
  pub room_width_cm : ℕ
  pub room_height_cm : ℕ
  pub last_room_summary_ms : ℕ

pub record PeersState : Type 0 where
  pub node_id : Text
  pub room_id : Text
  pub last_udp_discovery_announce_ms : ℕ
  pub udp_discovery_peers : List UdpDiscoveryPeerState

-- `unwrap_or_default` and `unwrap_or`
abbrev pub text_or_default : Option Text → Text
text_or_default none = []
text_or_default (some s) = s

abbrev pub int_or : Option ℤ → ℤ → ℤ
int_or none d = d
int_or (some v) d = v

abbrev pub nat_or : Option ℕ → ℕ → ℕ
nat_or none d = d
nat_or (some v) d = v

abbrev pub text_field : Text → Text → Text
text_field payload field = text_or_default (json_field_string payload field)

-- `position(|existing| existing.node_id == node_id)`
unfoldable pub position : Text → List UdpDiscoveryPeerState → Option ℕ
position node_id [] = none
position node_id (peer ∷ peers) =
    let later = position node_id peers in
    if text_eq peer.node_id node_id
    then some 0
    else elim later [ none ↦ none | some index ↦ some (suc index) ]

-- A change of the entry at an index, as `iter_mut` and indexing give it.
unfoldable pub modify_at :
    ℕ
    → (UdpDiscoveryPeerState → UdpDiscoveryPeerState)
    → List UdpDiscoveryPeerState
    → List UdpDiscoveryPeerState
modify_at index f [] = []
modify_at zero f (peer ∷ peers) = f peer ∷ peers
modify_at (suc index) f (peer ∷ peers) = peer ∷ modify_at index f peers

-- `Vec::remove`
unfoldable pub remove_at : ℕ → List UdpDiscoveryPeerState → List UdpDiscoveryPeerState
remove_at index [] = []
remove_at zero (peer ∷ peers) = peers
remove_at (suc index) (peer ∷ peers) = peer ∷ remove_at index peers

-- `min_by_key` on the last sighting: the index of the first of the oldest.
unfoldable pub oldest_peer_from : List UdpDiscoveryPeerState → ℕ → ℕ → ℕ → ℕ
oldest_peer_from [] index best best_ms = best
oldest_peer_from (peer ∷ peers) index best best_ms =
    oldest_peer_from peers (index + 1) (if ltb peer.last_seen_ms best_ms then index else best)
      (if ltb peer.last_seen_ms best_ms then peer.last_seen_ms else best_ms)

unfoldable pub oldest_peer : List UdpDiscoveryPeerState → ℕ
oldest_peer [] = 0
oldest_peer (peer ∷ peers) = oldest_peer_from peers 1 0 peer.last_seen_ms

-- A full table loses its oldest entry.
unfoldable pub make_room : List UdpDiscoveryPeerState → List UdpDiscoveryPeerState
make_room peers =
    if leb max_udp_discovery_peers (length peers)
    then remove_at (oldest_peer peers) peers
    else peers

abbrev pub is_fresh : ℕ → UdpDiscoveryPeerState → Bool
is_fresh uptime_ms peer = leb (uptime_ms - peer.last_seen_ms) udp_discovery_peer_freshness_ms

-- `retain(|existing| uptime_ms.saturating_sub(existing.last_seen_ms) <= …)`
unfoldable pub retain_fresh : ℕ → List UdpDiscoveryPeerState → List UdpDiscoveryPeerState
retain_fresh uptime_ms [] = []
retain_fresh uptime_ms (peer ∷ peers) =
    let rest = retain_fresh uptime_ms peers in if is_fresh uptime_ms peer then peer ∷ rest else rest

-- The entry that an announcement describes.
unfoldable pub announced_peer : Text → Text → ℕ → UdpDiscoveryPeerState
announced_peer payload node_id uptime_ms = record {
  node_id = node_id;
  friendly_name = text_field payload (codes "friendly_name");
  room_id = text_field payload (codes "room_id");
  sensor_role = text_field payload (codes "sensor_role");
  firmware_version = text_field payload (codes "firmware_version");
  build_target = text_field payload (codes "build_target");
  hostname = text_field payload (codes "hostname");
  ip_address = text_field payload (codes "ip_address");
  wifi_rssi_dbm = int_or (json_field_i32 payload (codes "wifi_rssi_dbm")) (pos 0);
  wifi_channel = pos_part (int_or (json_field_i32 payload (codes "wifi_channel")) (pos 0)) % 2 ^ 8;
  uptime_s = nat_or (json_field_u32 payload (codes "uptime_s")) 0;
  free_heap_bytes = nat_or (json_field_u32 payload (codes "free_heap_bytes")) 0;
  last_seen_ms = uptime_ms;
  pose_x_cm = pos 0;
  pose_y_cm = pos 0;
  heading_deg = pos 0;
  room_width_cm = 0;
  room_height_cm = 0;
  last_room_summary_ms = 0;
}

-- What an announcement changes in the entry of a known node.
unfoldable pub refresh_peer : UdpDiscoveryPeerState → UdpDiscoveryPeerState → UdpDiscoveryPeerState
refresh_peer peer existing = record existing {
  friendly_name = peer.friendly_name;
  room_id = peer.room_id;
  sensor_role = peer.sensor_role;
  firmware_version = peer.firmware_version;
  build_target = peer.build_target;
  hostname = peer.hostname;
  ip_address = peer.ip_address;
  wifi_rssi_dbm = peer.wifi_rssi_dbm;
  wifi_channel = peer.wifi_channel;
  uptime_s = peer.uptime_s;
  free_heap_bytes = peer.free_heap_bytes;
  last_seen_ms = peer.last_seen_ms;
}

abbrev pub at_position :
    Option ℕ → UdpDiscoveryPeerState → List UdpDiscoveryPeerState → List UdpDiscoveryPeerState
at_position (some index) peer peers = modify_at index (refresh_peer peer) peers
at_position none peer peers = make_room peers ++ peer ∷ []

unfoldable pub upsert_peer :
    UdpDiscoveryPeerState → List UdpDiscoveryPeerState → List UdpDiscoveryPeerState
upsert_peer peer peers = at_position (position peer.node_id peers) peer peers

-- `json_field_string(…).as_deref() == Some(…)`
abbrev pub is_text : Option Text → Text → Bool
is_text none expected = false
is_text (some s) expected = text_eq s expected

-- The node that a payload speaks for, unless there is none or it is this one.
abbrev pub other_node : PeersState → Option Text → Option Text
other_node s none = none
other_node s (some node_id) =
    if is_empty node_id || text_eq node_id s.node_id then none else some node_id

abbrev pub after_announcement : PeersState → Text → ℕ → Option Text → PeersState
after_announcement s payload uptime_ms none = s
after_announcement s payload uptime_ms (some node_id) = record s {
  udp_discovery_peers =
      retain_fresh uptime_ms
        (upsert_peer (announced_peer payload node_id uptime_ms) s.udp_discovery_peers);
}

unfoldable pub sync_udp_discovery_peer : PeersState → Text → ℕ → PeersState
sync_udp_discovery_peer s payload uptime_ms =
    if is_text (json_field_string payload (codes "kind")) (codes "lb_udp_discovery")
    then after_announcement s payload uptime_ms
        (other_node s (json_field_string payload (codes "node_id")))
    else s
