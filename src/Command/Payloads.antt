-- ===== src/Command/Payloads.antt =====
-- The payloads of the commands, and their parsers (command.rs).
use esp_wave_rider.Base.{ℕ, Bool, Option}
use esp_wave_rider.Base.Int.{ℤ, neg, clamp_ℤ}
use esp_wave_rider.Text.{Text, codes}
use esp_wave_rider.Text.Number.{parse_u8, parse_u16, parse_i16}
use esp_wave_rider.Command.{
  DeviceCommand, home_assistant_config, home_assistant_room_config,
  home_assistant_room_pose_publish, home_assistant_web_socket_config, home_assistant_mqtt_endpoint,
  ble_tag_config, ble_tag_clear,
}
use esp_wave_rider.Command.Outcome.{Outcome, ok, payload_error, or_error, ◌>>=◌}
use esp_wave_rider.Command.Fields.{
  split_fields, field, parse_bool_token, parse_optional_port, parse_port_or_default,
  parse_optional_bool_token, parse_min_rssi,
}

pub record RoomConfigPayload : Type 0 where
  pub room_id : Text
  pub sensor_role : Text
  pub pose_x_cm : ℤ
  pub pose_y_cm : ℤ
  pub heading_deg : ℤ
  pub room_width_cm : ℕ
  pub room_height_cm : ℕ

pub record RoomPosePublishPayload : Type 0 where
  pub node_id : Text
  pub room_id : Text
  pub sensor_role : Text
  pub pose_x_cm : ℤ
  pub pose_y_cm : ℤ
  pub heading_deg : ℤ
  pub room_width_cm : ℕ
  pub room_height_cm : ℕ

pub record BleTagConfigPayload : Type 0 where
  pub slot : ℕ
  pub label : Text
  pub address : Text
  pub min_rssi : ℤ

pub record BleTagClearPayload : Type 0 where
  pub slot : ℕ

pub record HomeAssistantConfigPayload : Type 0 where
  pub wifi_ssid : Text
  pub wifi_password : Text
  pub mqtt_host : Text
  pub mqtt_port : ℕ
  pub mqtt_username : Text
  pub mqtt_password : Text
  pub node_id : Text
  pub friendly_name : Text

pub record HomeAssistantWebSocketConfigPayload : Type 0 where
  pub enabled : Bool
  pub path : Text
  pub host_header : Text

pub record HomeAssistantMqttEndpointPayload : Type 0 where
  pub mqtt_host : Text
  pub mqtt_port : Option ℕ
  pub use_websockets : Option Bool
  pub websocket_path : Text
  pub host_header : Text

unfoldable pub parse_home_assistant_config_payload : Text → Outcome HomeAssistantConfigPayload
parse_home_assistant_config_payload payload = do
  fields ← split_fields 8 payload
  port ← parse_port_or_default (field fields 3) 1883
  ok (record {
    wifi_ssid = field fields 0;
    wifi_password = field fields 1;
    mqtt_host = field fields 2;
    mqtt_port = port;
    mqtt_username = field fields 4;
    mqtt_password = field fields 5;
    node_id = field fields 6;
    friendly_name = field fields 7;
  })

unfoldable pub parse_room_config_payload : Text → Outcome RoomConfigPayload
parse_room_config_payload payload = do
  fields ← split_fields 7 payload
  x ← or_error (parse_i16 (field fields 2)) (codes "invalid room pose x")
  y ← or_error (parse_i16 (field fields 3)) (codes "invalid room pose y")
  heading ← or_error (parse_i16 (field fields 4)) (codes "invalid room heading")
  width ← or_error (parse_u16 (field fields 5)) (codes "invalid room width")
  height ← or_error (parse_u16 (field fields 6)) (codes "invalid room height")
  ok (record {
    room_id = field fields 0;
    sensor_role = field fields 1;
    pose_x_cm = x;
    pose_y_cm = y;
    heading_deg = heading;
    room_width_cm = width;
    room_height_cm = height;
  })

unfoldable pub parse_room_pose_publish_payload : Text → Outcome RoomPosePublishPayload
parse_room_pose_publish_payload payload = do
  fields ← split_fields 8 payload
  x ← or_error (parse_i16 (field fields 3)) (codes "invalid room pose x")
  y ← or_error (parse_i16 (field fields 4)) (codes "invalid room pose y")
  heading ← or_error (parse_i16 (field fields 5)) (codes "invalid room heading")
  width ← or_error (parse_u16 (field fields 6)) (codes "invalid room width")
  height ← or_error (parse_u16 (field fields 7)) (codes "invalid room height")
  ok (record {
    node_id = field fields 0;
    room_id = field fields 1;
    sensor_role = field fields 2;
    pose_x_cm = x;
    pose_y_cm = y;
    heading_deg = heading;
    room_width_cm = width;
    room_height_cm = height;
  })

unfoldable pub parse_home_assistant_websocket_config_payload :
    Text → Outcome HomeAssistantWebSocketConfigPayload
parse_home_assistant_websocket_config_payload payload = do
  fields ← split_fields 3 payload
  ok (record {
    enabled = parse_bool_token (field fields 0);
    path = field fields 1;
    host_header = field fields 2;
  })

unfoldable pub parse_home_assistant_mqtt_endpoint_payload :
    Text → Outcome HomeAssistantMqttEndpointPayload
parse_home_assistant_mqtt_endpoint_payload payload = do
  fields ← split_fields 5 payload
  port ← parse_optional_port (field fields 1)
  ok (record {
    mqtt_host = field fields 0;
    mqtt_port = port;
    use_websockets = parse_optional_bool_token (field fields 2);
    websocket_path = field fields 3;
    host_header = field fields 4;
  })

unfoldable pub parse_ble_tag_config_payload : Text → Outcome BleTagConfigPayload
parse_ble_tag_config_payload payload = do
  fields ← split_fields 4 payload
  slot ← or_error (parse_u8 (field fields 0)) (codes "invalid ble tag slot")
  min_rssi ← parse_min_rssi (field fields 3)
  ok (record {
    slot = slot;
    label = field fields 1;
    address = field fields 2;
    min_rssi = clamp_ℤ min_rssi (neg 120) (neg 20);
  })

unfoldable pub parse_ble_tag_clear_payload : Text → Outcome BleTagClearPayload
parse_ble_tag_clear_payload payload = do
  slot ← or_error (parse_u8 payload) (codes "invalid ble tag slot")
  ok (record { slot = slot })

unfoldable pub home_assistant_config_payload : DeviceCommand → Outcome HomeAssistantConfigPayload
home_assistant_config_payload (home_assistant_config payload) =
    parse_home_assistant_config_payload payload
home_assistant_config_payload _ = payload_error (codes "command is not ha_config")

unfoldable pub room_config_payload : DeviceCommand → Outcome RoomConfigPayload
room_config_payload (home_assistant_room_config payload) = parse_room_config_payload payload
room_config_payload _ = payload_error (codes "command is not ha_room_config")

unfoldable pub room_pose_publish_payload : DeviceCommand → Outcome RoomPosePublishPayload
room_pose_publish_payload (home_assistant_room_pose_publish payload) =
    parse_room_pose_publish_payload payload
room_pose_publish_payload _ = payload_error (codes "command is not ha_room_pose_publish")

unfoldable pub home_assistant_websocket_config_payload :
    DeviceCommand → Outcome HomeAssistantWebSocketConfigPayload
home_assistant_websocket_config_payload (home_assistant_web_socket_config payload) =
    parse_home_assistant_websocket_config_payload payload
home_assistant_websocket_config_payload _ = payload_error (codes "command is not ha_ws_config")

unfoldable pub home_assistant_mqtt_endpoint_payload :
    DeviceCommand → Outcome HomeAssistantMqttEndpointPayload
home_assistant_mqtt_endpoint_payload (home_assistant_mqtt_endpoint payload) =
    parse_home_assistant_mqtt_endpoint_payload payload
home_assistant_mqtt_endpoint_payload _ = payload_error (codes "command is not ha_mqtt_endpoint")

unfoldable pub ble_tag_config_payload : DeviceCommand → Outcome BleTagConfigPayload
ble_tag_config_payload (ble_tag_config payload) = parse_ble_tag_config_payload payload
ble_tag_config_payload _ = payload_error (codes "command is not ble_tag_config")

unfoldable pub ble_tag_clear_payload : DeviceCommand → Outcome BleTagClearPayload
ble_tag_clear_payload (ble_tag_clear payload) = parse_ble_tag_clear_payload payload
ble_tag_clear_payload _ = payload_error (codes "command is not ble_tag_clear")
