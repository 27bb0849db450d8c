-- ===== src/Settings/Views.antt =====
-- The names that rust/firmware/esp32s3/src/main.rs makes of a device's settings.
use esp_wave_rider.Base.{ℕ, Bool, not, ◌||◌, List, [], ◌∷◌, ◌++◌, take, if◌then◌else◌}
use esp_wave_rider.Text.{Text, codes, is_empty, text_eq}
use esp_wave_rider.Hostname.{sanitize_hostname}
use esp_wave_rider.Mqtt.{default_topic_prefix}
use esp_wave_rider.Settings.{
  default_node_id_prefix, default_friendly_name_prefix, Connection, mac_byte, default_node_id,
  default_friendly_name, mqtt_endpoint_uses_websockets, home_assistant_configured,
}

unfoldable pub initialize_device_identity : Connection → List ℕ → Connection
initialize_device_identity c mac_address = record c {
  mac_address = mac_address;
  node_id =
      if text_eq c.node_id default_node_id_prefix || is_empty c.node_id
      then default_node_id mac_address
      else c.node_id;
  friendly_name =
      if text_eq c.friendly_name default_friendly_name_prefix || is_empty c.friendly_name
      then default_friendly_name mac_address
      else c.friendly_name;
}

unfoldable pub wifi_runs_access_point : Connection → Bool
wifi_runs_access_point c = not (home_assistant_configured c)

unfoldable pub mqtt_transport : Connection → Text
mqtt_transport c =
    if c.mqtt_use_websockets || mqtt_endpoint_uses_websockets c.mqtt_host
    then codes "websocket"
    else codes "tcp"

unfoldable pub device_hostname : Connection → Text
device_hostname c =
    sanitize_hostname (if is_empty c.node_id then default_node_id_prefix else c.node_id)

unfoldable pub dashboard_url : Connection → Text
dashboard_url c = codes "http://" ++ (device_hostname c ++ codes ".local/")

-- A host name is ASCII, so `truncate` cuts 31 characters off.
unfoldable pub access_point_ssid : Connection → Text
access_point_ssid c = take 31 (codes "LB-MMWave-" ++ device_hostname c)

unfoldable pub access_point_password : Connection → Text
access_point_password c =
    codes "lbmmw"
    ++ (mac_byte c.mac_address 3 ++ (mac_byte c.mac_address 4 ++ mac_byte c.mac_address 5))

unfoldable pub topic_prefix : Connection → Text
topic_prefix c = default_topic_prefix ++ (if is_empty c.node_id then [] else b'/' ∷ c.node_id)
