-- ===== src/Command/Routing.antt =====
-- `parse_device_command` against the text of each command.
use esp_wave_rider.Base.{
  ◌≡◌, refl, sym, ◌∙◌, ◌↔◌, Option, none, some, ◌++◌, if◌then◌else◌, Bool-cases, inl, inr,
  Option-cases, subst,
}
use esp_wave_rider.Text.{Text, codes, text_eq, strip_prefix}
use esp_wave_rider.Text.Laws.{text_eq→eq, strip_prefix-eq}
use esp_wave_rider.Command.{
  DeviceCommand, ping, status, home_assistant_status, wifi_scan, runtime_benchmark,
  home_assistant_config, home_assistant_room_config, home_assistant_room_pose_publish,
  tuning_config, ble_tag_config, ble_tag_clear, home_assistant_web_socket_config,
  home_assistant_mqtt_endpoint, firmware_sync, firmware_update, energy, radar, on_prefix,
  parse_prefixed_command, parse_device_command,
}

-- How a command is written.
unfoldable pub command_text : DeviceCommand → Text
command_text ping = codes "ping"
command_text status = codes "status"
command_text home_assistant_status = codes "ha_status"
command_text wifi_scan = codes "wifi_scan"
command_text runtime_benchmark = codes "runtime_benchmark"
command_text (home_assistant_config value) = codes "ha_config:" ++ value
command_text (home_assistant_room_config value) = codes "ha_room_config:" ++ value
command_text (home_assistant_room_pose_publish value) = codes "ha_room_pose_publish:" ++ value
command_text (tuning_config value) = codes "tuning_config:" ++ value
command_text (ble_tag_config value) = codes "ble_tag_config:" ++ value
command_text (ble_tag_clear value) = codes "ble_tag_clear:" ++ value
command_text (home_assistant_web_socket_config value) = codes "ha_ws_config:" ++ value
command_text (home_assistant_mqtt_endpoint value) = codes "ha_mqtt_endpoint:" ++ value
command_text firmware_sync = codes "firmware_sync"
command_text (firmware_update value) = codes "firmware_update:" ++ value
command_text energy = codes "energy"
command_text (radar value) = codes "radar:" ++ value

reads_back : (c : DeviceCommand) → parse_device_command (command_text c) ≡ some c
unfolding command_text parse_device_command parse_prefixed_command strip_prefix text_eq
reads_back ping = refl
reads_back status = refl
reads_back home_assistant_status = refl
reads_back wifi_scan = refl
reads_back runtime_benchmark = refl
reads_back (home_assistant_config value) = refl
reads_back (home_assistant_room_config value) = refl
reads_back (home_assistant_room_pose_publish value) = refl
reads_back (tuning_config value) = refl
reads_back (ble_tag_config value) = refl
reads_back (ble_tag_clear value) = refl
reads_back (home_assistant_web_socket_config value) = refl
reads_back (home_assistant_mqtt_endpoint value) = refl
reads_back firmware_sync = refl
reads_back (firmware_update value) = refl
reads_back energy = refl
reads_back (radar value) = refl

module _ (input : Text) where
  -- The input is the text of the command found.
  abbrev IsText : Option DeviceCommand → Type 0
  IsText none = Unit {0}
  IsText (some c) = input ≡ command_text c

  on_prefix-IsText :
      (prefix : Text) (make : Text → DeviceCommand) (rest : Option DeviceCommand)
      → ((value : Text) → command_text (make value) ≡ prefix ++ value)
      → IsText rest
      → IsText (on_prefix (strip_prefix input prefix) make rest)
  on_prefix-IsText prefix make rest written h = elim (Option-cases (strip_prefix input prefix)) [
    | inl absent ↦ rw absent h
    | inr (value, found) ↦ rw found (strip_prefix-eq input prefix found ∙ sym (written value))
  ]

  word-IsText :
      (c : DeviceCommand) (rest : Option DeviceCommand)
      → IsText rest
      → IsText (if text_eq input (command_text c) then some c else rest)
  word-IsText c rest h = elim (Bool-cases (text_eq input (command_text c))) [
    | inl same ↦ rw same (text_eq→eq input (command_text c) same)
    | inr differs ↦ rw differs h
  ]

  prefixed-IsText : IsText (parse_prefixed_command input)
  unfolding parse_prefixed_command command_text
  prefixed-IsText =
      on_prefix-IsText (codes "ha_config:") home_assistant_config _ (λ v. refl)
        (on_prefix-IsText (codes "ha_room_config:") home_assistant_room_config _ (λ v. refl)
          (on_prefix-IsText (codes "ha_room_pose_publish:") home_assistant_room_pose_publish _
            (λ v. refl)
            (on_prefix-IsText (codes "tuning_config:") tuning_config _ (λ v. refl)
              (on_prefix-IsText (codes "ble_tag_config:") ble_tag_config _ (λ v. refl)
                (on_prefix-IsText (codes "ble_tag_clear:") ble_tag_clear _ (λ v. refl)
                  (on_prefix-IsText (codes "ha_ws_config:") home_assistant_web_socket_config _
                    (λ v. refl)
                    (on_prefix-IsText (codes "ha_mqtt_endpoint:") home_assistant_mqtt_endpoint _
                      (λ v. refl)
                      (on_prefix-IsText (codes "firmware_update:") firmware_update _ (λ v. refl)
                        (on_prefix-IsText (codes "radar:") radar none (λ v. refl) tt)))))))))

  parsed-IsText : IsText (parse_device_command input)
  unfolding parse_device_command command_text
  parsed-IsText = word-IsText ping _ (
      word-IsText status _ (
        word-IsText home_assistant_status _ (
          word-IsText wifi_scan _ (
            word-IsText runtime_benchmark _
              (word-IsText firmware_sync _ (word-IsText energy _ prefixed-IsText))))))

-- A text is parsed as a command exactly if it is that command's text.
pub parse_device_command_iff :
    (input : Text) (c : DeviceCommand)
    → (parse_device_command input ≡ some c) ↔ (input ≡ command_text c)
parse_device_command_iff input c =
    (λ e. subst (IsText input) e (parsed-IsText input), λ e. rw e (reads_back c))
