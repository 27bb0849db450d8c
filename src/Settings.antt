-- ===== src/Settings.antt =====
-- The settings in rust/firmware/esp32s3/src/main.rs: the fields of `FirmwareState` for the connection,
-- the room and the node's identity, and the `apply_*` methods that commands call. The views of those
-- fields are in Settings/Views, the tuning and the tags in Settings/Tags.
pub mod Tags
pub mod Views
pub mod Messages
pub mod Handle
pub mod Refusals
pub mod Limits
pub mod Invariant
pub mod Restart
pub mod Announce
mod Examples
use esp_wave_rider.Base.{
  ℕ, ◌+◌, ◌/◌, ◌%◌, ◌^◌, Bool, true, false, not, ◌&&◌, ◌||◌, Option, none, some, List, [], ◌∷◌,
  ◌++◌, get_or, if◌then◌else◌, max,
}
use esp_wave_rider.Base.Int.{ℤ, pos}
use esp_wave_rider.Text.{Text, codes, is_empty, starts_with}
use esp_wave_rider.Ble.{hex_digit_lower}
use esp_wave_rider.Command.Payloads.{
  RoomConfigPayload, HomeAssistantConfigPayload, HomeAssistantWebSocketConfigPayload,
  HomeAssistantMqttEndpointPayload,
}
use esp_wave_rider.Mqtt.{default_room_id}

abbrev pub default_node_id_prefix : Text
default_node_id_prefix = codes "lb_mmwave_presence"

abbrev pub default_friendly_name_prefix : Text
default_friendly_name_prefix = codes "LB mmWave Presence"

abbrev pub default_sensor_role : Text
default_sensor_role = codes "auto"

abbrev pub default_mqtt_websocket_path : Text
default_mqtt_websocket_path = codes "/mqtt"

abbrev pub wifi_not_configured : Text
wifi_not_configured = codes "not_configured"

pub record Connection : Type 0 where
  pub enabled : Bool
  pub wifi_ssid : Text
  pub wifi_password : Text
  pub mqtt_host : Text
  pub mqtt_port : ℕ
  pub mqtt_username : Text
  pub mqtt_password : Text
  pub mqtt_use_websockets : Bool
  pub mqtt_websocket_path : Text
  pub mqtt_host_header : Text
  pub mqtt_runtime_generation : ℕ
  pub last_mqtt_room_summary_publish_ms : ℕ
  pub node_id : Text
  pub friendly_name : Text
  pub mac_address : List ℕ
  pub wifi_connected : Bool
  pub wifi_disconnect_reason : ℕ
  pub wifi_disconnect_reason_text : Text
  pub wifi_rssi_dbm : ℤ
  pub wifi_channel : ℕ
  pub wifi_bssid : Text
  pub wifi_reconfigure_pending : Bool
  pub wifi_runtime_started : Bool
  pub ip_address : Text
  pub room_id : Text
  pub sensor_role : Text
  pub pose_x_cm : ℤ
  pub pose_y_cm : ℤ
  pub heading_deg : ℤ
  pub room_width_cm : ℕ
  pub room_height_cm : ℕ

unfoldable pub append_hex_byte_lower : ℕ → Text
append_hex_byte_lower value = hex_digit_lower (value / 16) ∷ hex_digit_lower (value % 16) ∷ []

-- `mac_address` has six bytes.
abbrev pub mac_byte : List ℕ → ℕ → Text
mac_byte mac_address index = append_hex_byte_lower (get_or mac_address index 0)

unfoldable pub mac_suffix_string : List ℕ → Text
mac_suffix_string mac_address =
    mac_byte mac_address 3 ++ (mac_byte mac_address 4 ++ mac_byte mac_address 5)

unfoldable pub default_node_id : List ℕ → Text
default_node_id mac_address = default_node_id_prefix ++ (b'_' ∷ mac_suffix_string mac_address)

unfoldable pub default_friendly_name : List ℕ → Text
default_friendly_name mac_address =
    default_friendly_name_prefix ++ (b' ' ∷ mac_suffix_string mac_address)

unfoldable pub mqtt_endpoint_uses_websockets : Text → Bool
mqtt_endpoint_uses_websockets mqtt_host =
    starts_with mqtt_host (codes "ws://")
    || starts_with mqtt_host (codes "wss://")
    || starts_with mqtt_host (codes "http://")
    || starts_with mqtt_host (codes "https://")

unfoldable pub normalize_websocket_path : Text → Text
normalize_websocket_path path =
    if is_empty path
    then default_mqtt_websocket_path
    else if starts_with path (codes "/")
    then path
    else b'/' ∷ path

-- `wrapping_add(1).max(1)` of a `u32`
unfoldable pub next_generation : ℕ → ℕ
next_generation generation = max ((generation + 1) % 2 ^ 32) 1

abbrev pub mark_mqtt_runtime_dirty : Connection → Connection
mark_mqtt_runtime_dirty c = record c {
  mqtt_runtime_generation = next_generation c.mqtt_runtime_generation;
}

unfoldable pub mark_wifi_disconnected : Connection → Text → Connection
mark_wifi_disconnected c reason_text = mark_mqtt_runtime_dirty (record c {
  wifi_connected = false;
  wifi_disconnect_reason = 0;
  wifi_disconnect_reason_text = reason_text;
  wifi_rssi_dbm = pos 0;
  wifi_bssid = [];
})

unfoldable pub home_assistant_configured : Connection → Bool
home_assistant_configured c =
    c.enabled
    && not (is_empty c.wifi_ssid)
    && not (is_empty c.mqtt_host)
    && not (is_empty c.node_id)

unfoldable pub apply_room_config : Connection → RoomConfigPayload → Connection
apply_room_config c payload =
    record (mark_mqtt_runtime_dirty (record c {
      room_id = payload.room_id;
      sensor_role = payload.sensor_role;
      pose_x_cm = payload.pose_x_cm;
      pose_y_cm = payload.pose_y_cm;
      heading_deg = payload.heading_deg;
      room_width_cm = payload.room_width_cm;
      room_height_cm = payload.room_height_cm;
    })) { last_mqtt_room_summary_publish_ms = 0 }

-- The fields that the payload gives, and the defaults of those that it leaves empty.
unfoldable pub with_connection : Connection → HomeAssistantConfigPayload → Connection
with_connection c payload = record c {
  enabled = true;
  wifi_ssid = payload.wifi_ssid;
  wifi_password = payload.wifi_password;
  mqtt_host = payload.mqtt_host;
  mqtt_port = payload.mqtt_port;
  mqtt_username = payload.mqtt_username;
  mqtt_password = payload.mqtt_password;
  mqtt_use_websockets = c.mqtt_use_websockets || mqtt_endpoint_uses_websockets payload.mqtt_host;
  mqtt_websocket_path = normalize_websocket_path c.mqtt_websocket_path;
  node_id = if is_empty payload.node_id then default_node_id c.mac_address else payload.node_id;
  friendly_name =
      if is_empty payload.friendly_name
      then default_friendly_name c.mac_address
      else payload.friendly_name;
  room_id = if is_empty c.room_id then default_room_id else c.room_id;
  sensor_role = if is_empty c.sensor_role then default_sensor_role else c.sensor_role;
}

-- Wi-Fi starts again with the new settings, or is off without them.
unfoldable pub restart_wifi : Connection → Connection
restart_wifi c =
    let pending = record c {
      wifi_reconfigure_pending = home_assistant_configured c;
      wifi_runtime_started = false;
    } in
    if not (home_assistant_configured c)
    then mark_wifi_disconnected pending wifi_not_configured
    else pending

unfoldable pub apply_home_assistant_config : Connection → HomeAssistantConfigPayload → Connection
apply_home_assistant_config c payload =
    record (mark_mqtt_runtime_dirty (restart_wifi (with_connection c payload))) {
      last_mqtt_room_summary_publish_ms = 0;
    }

unfoldable pub apply_home_assistant_websocket_config :
    Connection → HomeAssistantWebSocketConfigPayload → Connection
apply_home_assistant_websocket_config c payload = mark_mqtt_runtime_dirty (record c {
  mqtt_use_websockets = payload.enabled;
  mqtt_websocket_path =
      if is_empty payload.path
      then default_mqtt_websocket_path
      else normalize_websocket_path payload.path;
  mqtt_host_header = payload.host_header;
})

abbrev pub or_old {ℓ} : {A : Type ℓ} → Option A → A → A
or_old none old = old
or_old (some new) old = new

unfoldable pub apply_home_assistant_mqtt_endpoint :
    Connection → HomeAssistantMqttEndpointPayload → Connection
apply_home_assistant_mqtt_endpoint c payload = mark_mqtt_runtime_dirty (record c {
  mqtt_host = if is_empty payload.mqtt_host then c.mqtt_host else payload.mqtt_host;
  mqtt_port = or_old payload.mqtt_port c.mqtt_port;
  mqtt_use_websockets = or_old payload.use_websockets c.mqtt_use_websockets;
  mqtt_websocket_path =
      if is_empty payload.websocket_path
      then c.mqtt_websocket_path
      else normalize_websocket_path payload.websocket_path;
  mqtt_host_header = payload.host_header;
})
