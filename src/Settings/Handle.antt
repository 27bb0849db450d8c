-- ===== src/Settings/Handle.antt =====
-- `handle_command` and `process_command_buffer` of rust/firmware/esp32s3/src/main.rs, on the parts of
-- `FirmwareState` that commands change. What a command does outside that state is a list of effects.
use esp_wave_rider.Base.{ℕ, ◌||◌, Option, none, some, List, [], ◌∷◌, if◌then◌else◌}
use esp_wave_rider.Text.{Text, codes, text_eq, is_empty, trim}
use esp_wave_rider.Text.Utf8.{from_utf8, as_bytes}
use esp_wave_rider.Fixed.{FixedString}
use esp_wave_rider.Ble.{BleIdentityTagState}
use esp_wave_rider.Command.{
  DeviceCommand, ping, status, home_assistant_status, wifi_scan, runtime_benchmark,
  home_assistant_config, home_assistant_room_config, home_assistant_room_pose_publish,
  tuning_config, ble_tag_config, ble_tag_clear, home_assistant_web_socket_config,
  home_assistant_mqtt_endpoint, firmware_sync, firmware_update, energy, radar, parse_device_command,
}
use esp_wave_rider.Command.Outcome.{Outcome, ok, payload_error}
use esp_wave_rider.Command.Payloads.{
  home_assistant_config_payload, room_config_payload, room_pose_publish_payload,
  home_assistant_websocket_config_payload, home_assistant_mqtt_endpoint_payload,
  ble_tag_config_payload, ble_tag_clear_payload,
}
use esp_wave_rider.Command.Tuning.{tuning_config_payload}
use esp_wave_rider.Detection.{DetectionState}
use esp_wave_rider.Peers.{UdpDiscoveryPeerState}
use esp_wave_rider.Update.{FirmwareSyncState, request_firmware_update, request_firmware_sync}
use esp_wave_rider.Settings.{
  Connection, apply_room_config, apply_home_assistant_config, apply_home_assistant_websocket_config,
  apply_home_assistant_mqtt_endpoint,
}
use esp_wave_rider.Settings.Tags.{apply_tuning_config, apply_ble_tag_config, apply_ble_tag_clear}
use esp_wave_rider.Settings.Messages.{MqttPublishMessage, build_room_pose_publish_message}

pub record DeviceState : Type 0 where
  pub connection : Connection
  pub detection : DetectionState
  pub ble_identity_tags : List BleIdentityTagState
  pub firmware_sync_state : FirmwareSyncState
  pub udp_discovery_peers : List UdpDiscoveryPeerState

-- What a command does besides: `persist_runtime_config`, a message for the MQTT task, a benchmark
-- run, the energy mode and bytes for the radar, and a Wi-Fi scan.
pub data Effect : Type 0 where
  persist benchmark energy_mode scan : Effect
  publish : MqttPublishMessage → Effect
  send : List ℕ → Effect

-- The JSON that answers: a view of the state, what the scan gave (its results, or that there
-- is no Wi-Fi controller), or an error with its name.
pub data Response : Type 0 where
  snapshot debug_view scan_results : Response
  failure : Text → Response

pub record Handled : Type 0 where
  pub state : DeviceState
  pub response : Response
  pub effects : List Effect

-- The state is as it was.
abbrev pub shown : DeviceState → List Effect → Handled
shown s effects = record { state = s; response = snapshot; effects = effects }

abbrev pub refused : DeviceState → Text → Handled
refused s error = record { state = s; response = failure error; effects = [] }

-- A payload that parses is applied and stored.
abbrev pub stored : DeviceState → Handled
stored s = shown s (persist ∷ [])

abbrev pub apply_or_refuse : {A : Type 0} → DeviceState → Outcome A → (A → Handled) → Text → Handled
apply_or_refuse s (ok payload) apply error = apply payload
apply_or_refuse s (payload_error message) apply error = refused s error

abbrev pub with_tags : DeviceState → Option (List BleIdentityTagState) → Handled
with_tags s none = refused s (codes "invalid_ble_tag_slot")
with_tags s (some tags) = stored (record s { ble_identity_tags = tags })

abbrev pub published : DeviceState → Option MqttPublishMessage → Handled
published s none = refused s (codes "invalid_room_pose_publish")
published s (some message) = shown s (publish message ∷ [])

module _ (str : FixedString) (firmware_version : Text) where
  unfoldable pub run_command : DeviceState → ℕ → DeviceCommand → Handled
  run_command s uptime_ms ping = shown s []
  run_command s uptime_ms status = shown s []
  run_command s uptime_ms home_assistant_status = shown s []
  run_command s uptime_ms wifi_scan = record {
    state = s;
    response = scan_results;
    effects = scan ∷ [];
  }
  run_command s uptime_ms runtime_benchmark = shown s (benchmark ∷ [])
  run_command s uptime_ms (home_assistant_config text) =
      apply_or_refuse s (home_assistant_config_payload (home_assistant_config text))
        (λ p. stored (record s { connection = apply_home_assistant_config s.connection p }))
        (codes "invalid_home_assistant_config")
  run_command s uptime_ms (home_assistant_room_config text) =
      apply_or_refuse s (room_config_payload (home_assistant_room_config text))
        (λ p. stored (record s { connection = apply_room_config s.connection p }))
        (codes "invalid_room_config")
  run_command s uptime_ms (home_assistant_room_pose_publish text) =
      apply_or_refuse s (room_pose_publish_payload (home_assistant_room_pose_publish text))
        (λ p. published s (build_room_pose_publish_message str s.connection p))
        (codes "invalid_room_pose_publish")
  run_command s uptime_ms (tuning_config text) =
      apply_or_refuse s (tuning_config_payload (tuning_config text))
        (λ p. stored (record s { detection = apply_tuning_config s.detection p }))
        (codes "invalid_tuning_config")
  run_command s uptime_ms (ble_tag_config text) =
      apply_or_refuse s (ble_tag_config_payload (ble_tag_config text))
        (λ p. with_tags s (apply_ble_tag_config s.ble_identity_tags p))
        (codes "invalid_ble_tag_config")
  run_command s uptime_ms (ble_tag_clear text) =
      apply_or_refuse s (ble_tag_clear_payload (ble_tag_clear text))
        (λ p. with_tags s (apply_ble_tag_clear s.ble_identity_tags p))
        (codes "invalid_ble_tag_slot")
  run_command s uptime_ms (home_assistant_web_socket_config text) =
      apply_or_refuse s
        (home_assistant_websocket_config_payload (home_assistant_web_socket_config text))
        (λ p.
          stored (record s { connection = apply_home_assistant_websocket_config s.connection p }))
        (codes "invalid_home_assistant_websocket_config")
  run_command s uptime_ms (home_assistant_mqtt_endpoint text) =
      apply_or_refuse s (home_assistant_mqtt_endpoint_payload (home_assistant_mqtt_endpoint text))
        (λ p. stored (record s { connection = apply_home_assistant_mqtt_endpoint s.connection p }))
        (codes "invalid_home_assistant_mqtt_endpoint")
  run_command s uptime_ms firmware_sync =
      shown
        (record s {
          firmware_sync_state =
              request_firmware_sync firmware_version s.firmware_sync_state s.udp_discovery_peers
                uptime_ms;
        })
        []
  run_command s uptime_ms (firmware_update target_version) =
      shown
        (record s {
          firmware_sync_state =
              request_firmware_update s.firmware_sync_state target_version (codes "manual")
                (codes "manual");
        })
        []
  run_command s uptime_ms energy = shown s (energy_mode ∷ [])
  run_command s uptime_ms (radar payload) = shown s (send (as_bytes payload) ∷ [])

  abbrev pub run_parsed : DeviceState → ℕ → Option DeviceCommand → Handled
  run_parsed s uptime_ms none = refused s (codes "unsupported_command")
  run_parsed s uptime_ms (some command) = run_command s uptime_ms command

  unfoldable pub handle_command : DeviceState → ℕ → Text → Handled
  handle_command s uptime_ms command =
      if is_empty command || text_eq command (codes "snapshot")
      then shown s []
      else if text_eq command (codes "debug_status")
      then record { state = s; response = debug_view; effects = [] }
      else run_parsed s uptime_ms (parse_device_command command)

  abbrev pub handle_decoded : DeviceState → ℕ → Option Text → Handled
  handle_decoded s uptime_ms none = refused s (codes "invalid_utf8")
  handle_decoded s uptime_ms (some command) = handle_command s uptime_ms (trim command)

  -- The buffer is empty afterwards. `none` where there was nothing to do.
  unfoldable pub process_command_buffer : DeviceState → ℕ → List ℕ → Option Handled
  process_command_buffer s uptime_ms buffer =
      if is_empty buffer then none else some (handle_decoded s uptime_ms (from_utf8 buffer))
