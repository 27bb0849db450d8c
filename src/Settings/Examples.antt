-- ===== src/Settings/Examples.antt =====
-- Runs of the commands on a device, and the theorems on the settings on concrete values.
use esp_wave_rider.Base.{
  ◌-◌, ◌^◌, ◌≡◌, ◌≢◌, refl, true, false, not, ◌&&◌, none, [], ◌∷◌, ◌++◌, arith,
}
use esp_wave_rider.Base.Int.{pos, neg}
use esp_wave_rider.Text.{Text, codes, is_empty, starts_with, strip_prefix}
use esp_wave_rider.Text.Utf8.{from_utf8}
use esp_wave_rider.Fixed.Model.{list_string}
use esp_wave_rider.Ble.{BleIdentityTagState}
use esp_wave_rider.Command.Payloads.{HomeAssistantConfigPayload}
use esp_wave_rider.Detection.{DetectionState}
use esp_wave_rider.Update.{default_sync_state}
use esp_wave_rider.Update.States.{default-IsConsistent}
use esp_wave_rider.Settings.{
  Connection, home_assistant_configured, apply_home_assistant_config, next_generation,
  normalize_websocket_path,
}
use esp_wave_rider.Hostname.{push_characters as host_characters}
use esp_wave_rider.Json.{push_characters}
use esp_wave_rider.Peers.{PeersState}
use esp_wave_rider.Settings.Handle.{DeviceState, refused, process_command_buffer}
use esp_wave_rider.Settings.Refusals.{process_command_buffer-Quiet}
use esp_wave_rider.Settings.Limits.{IsConnection, IsTag}
use esp_wave_rider.Settings.Invariant.{IsSane, handle_commands, handle_commands-IsSane}
use esp_wave_rider.Settings.Restart.{apply_home_assistant_config_restarts}

abbrev new_connection : Connection
new_connection = record {
  enabled = false;
  wifi_ssid = [];
  wifi_password = [];
  mqtt_host = [];
  mqtt_port = 1883;
  mqtt_username = [];
  mqtt_password = [];
  mqtt_use_websockets = false;
  mqtt_websocket_path = codes "/mqtt";
  mqtt_host_header = [];
  mqtt_runtime_generation = 1;
  last_mqtt_room_summary_publish_ms = 0;
  node_id = codes "hall";
  friendly_name = [];
  mac_address = 0 ∷ 1 ∷ 2 ∷ 3 ∷ 4 ∷ 5 ∷ [];
  wifi_connected = false;
  wifi_disconnect_reason = 0;
  wifi_disconnect_reason_text = [];
  wifi_rssi_dbm = pos 0;
  wifi_channel = 0;
  wifi_bssid = [];
  wifi_reconfigure_pending = false;
  wifi_runtime_started = false;
  ip_address = [];
  room_id = [];
  sensor_role = [];
  pose_x_cm = pos 0;
  pose_y_cm = pos 0;
  heading_deg = pos 0;
  room_width_cm = 0;
  room_height_cm = 0;
}

abbrev new_detection : DetectionState
new_detection = record {
  max_detection_range_cm = 1120;
  min_gate_energy = 25;
  sensitivity_percent = 55;
  presence_hold_ms = 4000;
  min_active_gates = 1;
  min_activity_score = 10;
  led_enabled = true;
  led_brightness = 32;
  presence = false;
  gpio_presence = false;
  detection_candidate = false;
  presence_initialized = false;
  presence_changes_total = 0;
  last_presence_poll_ms = 0;
  last_detection_ms = 0;
  radar_bytes_total = 0;
  radar_frames_total = 0;
  ld2420_energy_frames_total = 0;
  last_radar_byte_ms = 0;
  radar_buffer = [];
  latest_energy_frame = none;
  latest_text_frame = none;
  latest_generic_frame = none;
  latest_radar_frame = none;
}

abbrev free_tag : BleIdentityTagState
free_tag = record {
  occupied = false;
  label = [];
  address = [];
  min_rssi = neg 90;
  last_rssi = neg 127;
  last_seen_ms = 0;
}

abbrev device : DeviceState
device = record {
  connection = new_connection;
  detection = new_detection;
  ble_identity_tags = free_tag ∷ free_tag ∷ [];
  firmware_sync_state = default_sync_state;
  udp_discovery_peers = [];
}

-- A path that has no slash in front gets one.
path_normalised : normalize_websocket_path (codes "ws") ≡ codes "/ws"
unfolding normalize_websocket_path starts_with strip_prefix
path_normalised = refl

-- The generation goes round to 1, not to 0.
generation_wraps : next_generation (2 ^ 32 - 1) ≡ 1
unfolding next_generation
generation_wraps = refl

process_command_buffer-Quiet_example :
    ((refused device (codes "invalid_utf8")).state ≡ device)
    × ((refused device (codes "invalid_utf8")).effects ≡ [])
unfolding process_command_buffer from_utf8
process_command_buffer-Quiet_example =
    process_command_buffer-Quiet list_string (codes "0.4.2") device 1000 (0xff ∷ [])
      (refused device (codes "invalid_utf8")) (codes "invalid_utf8") refl refl

new_connection-IsConnection : IsConnection new_connection
unfolding starts_with strip_prefix
new_connection-IsConnection = record {
  port = (omega arith, omega arith);
  path = refl;
  named = refl;
  generation = (omega arith, omega arith);
}

free_tag-IsTag : IsTag free_tag
free_tag-IsTag = record {
  labelled = λ e. absurd (ground arith);
  addressed = λ e. absurd (ground arith);
  weakest = omega arith;
  strongest = omega arith;
}

device-IsSane : IsSane device
device-IsSane = record {
  limits = record {
    max_detection_range_cm = (omega arith, omega arith);
    min_gate_energy = (omega arith, omega arith);
    sensitivity_percent = (omega arith, omega arith);
    presence_hold_ms = (omega arith, omega arith);
    min_active_gates = (omega arith, omega arith);
    min_activity_score = (omega arith, omega arith);
    led_brightness = (omega arith, omega arith);
  };
  connection = new_connection-IsConnection;
  tags = (free_tag-IsTag, (free_tag-IsTag, tt));
  update = default-IsConsistent;
}

handle_commands-IsSane_example : IsSane (
    handle_commands list_string
      (codes "0.4.2")
      device
      ((500, codes "ha_ws_config:1|ws|") ∷ (900, codes "firmware_update:0.4.3") ∷ []))
handle_commands-IsSane_example =
    handle_commands-IsSane list_string (codes "0.4.2") device
      ((500, codes "ha_ws_config:1|ws|") ∷ (900, codes "firmware_update:0.4.3") ∷ []) device-IsSane

abbrev home : HomeAssistantConfigPayload
home = record {
  wifi_ssid = codes "home";
  wifi_password = codes "secret";
  mqtt_host = codes "broker";
  mqtt_port = 1883;
  mqtt_username = [];
  mqtt_password = [];
  node_id = [];
  friendly_name = [];
}

apply_home_assistant_config_restarts_example :
    let c' = apply_home_assistant_config new_connection home in
    (home_assistant_configured c'
      ≡ (not (is_empty home.wifi_ssid) && not (is_empty home.mqtt_host)))
    × (c'.wifi_reconfigure_pending ≡ home_assistant_configured c')
    × (c'.wifi_runtime_started ≡ false)
    × (home_assistant_configured c' ≡ false → c'.wifi_connected ≡ false)
    × (home_assistant_configured c' ≡ true → c'.wifi_connected ≡ false)
    × (c'.mqtt_runtime_generation ≢ 1)
apply_home_assistant_config_restarts_example =
    apply_home_assistant_config_restarts new_connection home (omega arith)

abbrev announcement : Text
announcement =
    codes
      "{\"kind\":\"lb_udp_discovery\",\"node_id\":\"hall\",\"friendly_name\":\"\",\"room_id\":\"\","
    ++ codes "\"sensor_role\":\"\",\"firmware_version\":\"0.4.2\","
    ++ codes
        "\"build_target\":\"lonely-esp32-s3-devkitm-1\",\"hostname\":\"hall\",\"ip_address\":\"\","
    ++ codes "\"wifi_rssi_dbm\":0,\"wifi_channel\":0,\"uptime_s\":7,\"free_heap_bytes\":9000}"

abbrev listener : PeersState
listener = record {
  node_id = codes "attic";
  room_id = codes "attic";
  last_udp_discovery_announce_ms = 0;
  udp_discovery_peers = [];
}
