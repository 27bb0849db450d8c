-- ===== src/Command.antt =====
-- rust/crates/espwaverider-core/src/command.rs: the commands that arrive by serial line, BLE or HTTP.
pub mod Outcome
pub mod Fields
pub mod Payloads
pub mod Tuning
pub mod Routing
pub mod Join
pub mod Limits
mod Examples
use esp_wave_rider.Base.{Option, none, some, if◌then◌else◌}
use esp_wave_rider.Text.{Text, codes, text_eq, strip_prefix}

pub data DeviceCommand : Type 0 where
  ping status home_assistant_status wifi_scan runtime_benchmark : DeviceCommand
  home_assistant_config home_assistant_room_config home_assistant_room_pose_publish :
      Text → DeviceCommand
  tuning_config ble_tag_config ble_tag_clear : Text → DeviceCommand
  home_assistant_web_socket_config home_assistant_mqtt_endpoint : Text → DeviceCommand
  firmware_sync : DeviceCommand
  firmware_update : Text → DeviceCommand
  energy : DeviceCommand
  radar : Text → DeviceCommand

-- `if let Some(value) = input.strip_prefix(prefix) { return Ok(make(value)); }`, then the rest.
abbrev pub on_prefix :
    Option Text → (Text → DeviceCommand) → Option DeviceCommand → Option DeviceCommand
on_prefix none make rest = rest
on_prefix (some value) make rest = some (make value)

-- `CommandParseError` has no content: it is `none`.
unfoldable pub parse_prefixed_command : Text → Option DeviceCommand
parse_prefixed_command input =
    on_prefix (strip_prefix input (codes "ha_config:")) home_assistant_config (
      on_prefix (strip_prefix input (codes "ha_room_config:")) home_assistant_room_config (
        on_prefix (strip_prefix input (codes "ha_room_pose_publish:"))
          home_assistant_room_pose_publish
          (on_prefix (strip_prefix input (codes "tuning_config:")) tuning_config (
            on_prefix (strip_prefix input (codes "ble_tag_config:")) ble_tag_config (
              on_prefix (strip_prefix input (codes "ble_tag_clear:")) ble_tag_clear (
                on_prefix (strip_prefix input (codes "ha_ws_config:"))
                  home_assistant_web_socket_config
                  (on_prefix (strip_prefix input (codes "ha_mqtt_endpoint:"))
                    home_assistant_mqtt_endpoint
                    (on_prefix (strip_prefix input (codes "firmware_update:")) firmware_update
                      (on_prefix (strip_prefix input (codes "radar:")) radar none)))))))))

unfoldable pub parse_device_command : Text → Option DeviceCommand
parse_device_command input =
    if text_eq input (codes "ping")
    then some ping
    else if text_eq input (codes "status")
    then some status
    else if text_eq input (codes "ha_status")
    then some home_assistant_status
    else if text_eq input (codes "wifi_scan")
    then some wifi_scan
    else if text_eq input (codes "runtime_benchmark")
    then some runtime_benchmark
    else if text_eq input (codes "firmware_sync")
    then some firmware_sync
    else if text_eq input (codes "energy")
    then some energy
    else parse_prefixed_command input
