-- ===== src/Command/Examples.antt =====
-- Runs of the command parsers, and their theorems at concrete texts.
use esp_wave_rider.Base.{◌≡◌, refl, ◌↔◌, true, none, some, [], ◌∷◌, length, All, arith}
use esp_wave_rider.Base.Int.{neg, clamp_ℤ}
use esp_wave_rider.Text.{codes, text_eq, strip_prefix, split}
use esp_wave_rider.Text.Number.{parse_u8, parse_u16, parse_i16, parse_i32}
use esp_wave_rider.Command.{firmware_update, parse_device_command, parse_prefixed_command}
use esp_wave_rider.Command.Outcome.{ok, payload_error}
use esp_wave_rider.Command.Fields.{
  split_fields, parse_bool_token, parse_i32_or_default, positive_or, parse_optional_port,
  optional_port, parse_port_or_default, parse_min_rssi,
}
use esp_wave_rider.Command.Payloads.{
  HomeAssistantConfigPayload, parse_home_assistant_config_payload, BleTagConfigPayload,
  parse_ble_tag_config_payload, parse_room_config_payload,
}
use esp_wave_rider.Command.Tuning.{
  TuningConfigPayload, tuning_settings, parse_tuning_config_payload,
}
use esp_wave_rider.Command.Routing.{command_text, parse_device_command_iff}
use esp_wave_rider.Command.Join.{join, HasNoBar, split_fields_iff}
use esp_wave_rider.Command.Limits.{IsWithinLimits, parse_tuning_config_payload-IsWithinLimits}

parses_update :
    parse_device_command (codes "firmware_update:v1.0.1") ≡ some (firmware_update (codes "v1.0.1"))
unfolding parse_device_command parse_prefixed_command text_eq strip_prefix
parses_update = refl

rejects_unknown : parse_device_command (codes "nope") ≡ none
unfolding parse_device_command parse_prefixed_command text_eq strip_prefix
rejects_unknown = refl

parse_device_command_iff_example :
    (parse_device_command (codes "radar:on") ≡ some (firmware_update (codes "on")))
    ↔ (codes "radar:on" ≡ command_text (firmware_update (codes "on")))
parse_device_command_iff_example =
    parse_device_command_iff (codes "radar:on") (firmware_update (codes "on"))

split_fields_iff_example :
    (split_fields 3 (codes "on||host") ≡ ok (codes "on" ∷ [] ∷ codes "host" ∷ [])) ↔ (
      (length (codes "on" ∷ [] ∷ codes "host" ∷ []) ≡ 3)
      × All HasNoBar (codes "on" ∷ [] ∷ codes "host" ∷ [])
      × (codes "on||host" ≡ join (codes "on" ∷ [] ∷ codes "host" ∷ [])))
split_fields_iff_example =
    split_fields_iff 3 (codes "on||host") (codes "on" ∷ [] ∷ codes "host" ∷ []) (omega arith)

abbrev default_settings : TuningConfigPayload
default_settings = record {
  max_detection_range_cm = 1120;
  min_gate_energy = 25;
  sensitivity_percent = 100;
  presence_hold_ms = 4000;
  min_active_gates = 1;
  min_activity_score = 10;
  led_enabled = true;
  led_brightness = 32;
}

parses_tuning : parse_tuning_config_payload (codes "0|0|500|-1|0|0|on|0") ≡ ok default_settings
unfolding parse_tuning_config_payload split_fields split parse_i32_or_default parse_i32
    parse_bool_token text_eq tuning_settings positive_or clamp_ℤ
parses_tuning = refl

parse_tuning_config_payload-IsWithinLimits_example : IsWithinLimits default_settings
parse_tuning_config_payload-IsWithinLimits_example =
    parse_tuning_config_payload-IsWithinLimits (codes "0|0|500|-1|0|0|on|0") default_settings
      parses_tuning

abbrev connection : HomeAssistantConfigPayload
connection = record {
  wifi_ssid = codes "ssid";
  wifi_password = codes "pass";
  mqtt_host = codes "broker";
  mqtt_port = 1883;
  mqtt_username = codes "user";
  mqtt_password = codes "secret";
  node_id = codes "node-1";
  friendly_name = codes "Node 1";
}

parses_connection :
    parse_home_assistant_config_payload (codes "ssid|pass|broker|0|user|secret|node-1|Node 1")
    ≡ ok connection
unfolding parse_home_assistant_config_payload split_fields split parse_port_or_default
    parse_optional_port parse_u16 optional_port
parses_connection = refl

abbrev badge : BleTagConfigPayload
badge = record {
  slot = 2;
  label = codes "Badge";
  address = codes "AA:BB:CC:DD:EE:FF";
  min_rssi = neg 120;
}

parses_badge : parse_ble_tag_config_payload (codes "2|Badge|AA:BB:CC:DD:EE:FF|-200") ≡ ok badge
unfolding parse_ble_tag_config_payload split_fields split parse_u8 parse_min_rssi parse_i32 clamp_ℤ
parses_badge = refl

rejects_bad_pose :
    parse_room_config_payload (codes "room-default|auto|50|oops|-90|800|400")
    ≡ payload_error (codes "invalid room pose y")
unfolding parse_room_config_payload split_fields split parse_i16
rejects_bad_pose = refl
