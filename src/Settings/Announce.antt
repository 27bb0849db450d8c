-- ===== src/Settings/Announce.antt =====
-- A node's announcement, as rust/firmware/esp32s3/src/main.rs writes it, and the node that receives it.
use esp_wave_rider.Base.{ℕ, ◌-◌, ◌/◌, ◌^◌, ◌<◌, List, [], ◌∷◌, All}
use esp_wave_rider.Base.Int.{pos, neg, ◌≤ℤ◌}
use esp_wave_rider.Text.{Text, codes}
use esp_wave_rider.Json.{append_u32, append_i32}
use esp_wave_rider.Json.Fields.{IsPlain}
use esp_wave_rider.Json.Search.{Part, text, number}
use esp_wave_rider.Peers.{UdpDiscoveryPeerState}
use esp_wave_rider.Settings.{Connection}
use esp_wave_rider.Settings.Views.{device_hostname}

-- The fields behind the kind and the node's name, and all of them.
abbrev tail_parts : Text → ℕ → Connection → ℕ → List Part
tail_parts firmware_version free_heap_bytes c uptime_ms =
    text (codes "friendly_name") c.friendly_name
    ∷ text (codes "room_id") c.room_id
    ∷ text (codes "sensor_role") c.sensor_role
    ∷ text (codes "firmware_version") firmware_version
    ∷ text (codes "build_target") (codes "lonely-esp32-s3-devkitm-1")
    ∷ text (codes "hostname") (device_hostname c)
    ∷ text (codes "ip_address") c.ip_address
    ∷ number (codes "wifi_rssi_dbm") (append_i32 [] c.wifi_rssi_dbm)
    ∷ number (codes "wifi_channel") (append_u32 [] c.wifi_channel)
    ∷ number (codes "uptime_s") (append_u32 [] (uptime_ms / 1000))
    ∷ number (codes "free_heap_bytes") (append_u32 [] free_heap_bytes)
    ∷ []

abbrev announcement_parts : Text → ℕ → Connection → ℕ → List Part
announcement_parts firmware_version free_heap_bytes c uptime_ms =
    text (codes "kind") (codes "lb_udp_discovery")
    ∷ text (codes "node_id") c.node_id
    ∷ tail_parts firmware_version free_heap_bytes c uptime_ms

-- JSON escapes no character of the texts that the node announces, and the numbers fit their types.
pub record IsAnnounceable (firmware_version : Text) (free_heap_bytes : ℕ) (c : Connection)
    (uptime_ms : ℕ) : Type 0 where
  pub node_id : All IsPlain c.node_id
  pub friendly_name : All IsPlain c.friendly_name
  pub room_id : All IsPlain c.room_id
  pub sensor_role : All IsPlain c.sensor_role
  pub version : All IsPlain firmware_version
  pub ip_address : All IsPlain c.ip_address
  pub weakest : neg (2 ^ 31) ≤ℤ c.wifi_rssi_dbm
  pub strongest : c.wifi_rssi_dbm ≤ℤ pos (2 ^ 31 - 1)
  pub channel : c.wifi_channel < 2 ^ 8
  pub uptime : uptime_ms < 2 ^ 32
  pub heap : free_heap_bytes < 2 ^ 32

-- The entry that the sender's state describes.
abbrev pub sender_entry : Text → ℕ → Connection → ℕ → ℕ → UdpDiscoveryPeerState
sender_entry firmware_version free_heap_bytes c uptime_ms received_ms = record {
  node_id = c.node_id;
  friendly_name = c.friendly_name;
  room_id = c.room_id;
  sensor_role = c.sensor_role;
  firmware_version = firmware_version;
  build_target = codes "lonely-esp32-s3-devkitm-1";
  hostname = device_hostname c;
  ip_address = c.ip_address;
  wifi_rssi_dbm = c.wifi_rssi_dbm;
  wifi_channel = c.wifi_channel;
  uptime_s = uptime_ms / 1000;
  free_heap_bytes = free_heap_bytes;
  last_seen_ms = received_ms;
  pose_x_cm = pos 0;
  pose_y_cm = pos 0;
  heading_deg = pos 0;
  room_width_cm = 0;
  room_height_cm = 0;
  last_room_summary_ms = 0;
}
