-- ===== src/Settings/Refusals.antt =====
-- A command that is refused does nothing.
use esp_wave_rider.Base.{
  ℕ, ◌≡◌, refl, ◌||◌, Option, none, some, List, [], arith, Bool-cases, Option-cases, inl, inr,
  some-injective, subst,
}
use esp_wave_rider.Text.{Text, codes, text_eq, is_empty, trim}
use esp_wave_rider.Text.Utf8.{from_utf8}
use esp_wave_rider.Fixed.{FixedString}
use esp_wave_rider.Ble.{BleIdentityTagState}
use esp_wave_rider.Command.{
  DeviceCommand, ping, status, home_assistant_status, wifi_scan, runtime_benchmark,
  home_assistant_config, home_assistant_room_config, home_assistant_room_pose_publish,
  tuning_config, ble_tag_config, ble_tag_clear, home_assistant_web_socket_config,
  home_assistant_mqtt_endpoint, firmware_sync, firmware_update, energy, radar, parse_device_command,
}
use esp_wave_rider.Command.Outcome.{Outcome, ok, payload_error}
use esp_wave_rider.Command.Payloads.{
  room_pose_publish_payload, ble_tag_config_payload, ble_tag_clear_payload,
}
use esp_wave_rider.Settings.Tags.{apply_ble_tag_config, apply_ble_tag_clear}
use esp_wave_rider.Settings.Messages.{MqttPublishMessage, build_room_pose_publish_message}
use esp_wave_rider.Settings.Handle.{
  DeviceState, Effect, failure, Handled, shown, refused, apply_or_refuse, with_tags, published,
  run_command, handle_command, handle_decoded, process_command_buffer,
}

-- What was answered with an error has left the state alone and had no effect.
abbrev pub Quiet : DeviceState → Handled → Type 0
Quiet s h = (error : Text) → h.response ≡ failure error → (h.state ≡ s) × (h.effects ≡ [])

shown-Quiet : (s s' : DeviceState) (effects : List Effect) → Quiet s (shown s' effects)
shown-Quiet s s' effects error e = absurd (ground arith)

refused-Quiet : (s : DeviceState) (error : Text) → Quiet s (refused s error)
refused-Quiet s error other e = (refl, refl)

apply_or_refuse-Quiet :
    {A : Type 0} (s : DeviceState) (o : Outcome A) (apply : A → Handled) (error : Text)
    → ((p : A) → Quiet s (apply p))
    → Quiet s (apply_or_refuse s o apply error)
apply_or_refuse-Quiet s (ok p) apply error quiet = quiet p
apply_or_refuse-Quiet s (payload_error message) apply error quiet = refused-Quiet s error

with_tags-Quiet :
    (s : DeviceState) (o : Option (List BleIdentityTagState)) → Quiet s (with_tags s o)
with_tags-Quiet s none = refused-Quiet s (codes "invalid_ble_tag_slot")
with_tags-Quiet s (some tags) = shown-Quiet s _ _

published-Quiet : (s : DeviceState) (o : Option MqttPublishMessage) → Quiet s (published s o)
published-Quiet s none = refused-Quiet s (codes "invalid_room_pose_publish")
published-Quiet s (some message) = shown-Quiet s _ _

module _ (str : FixedString) (firmware_version : Text) where
  run_command-Quiet :
      (s : DeviceState) (uptime_ms : ℕ) (command : DeviceCommand)
      → Quiet s (run_command str firmware_version s uptime_ms command)
  unfolding run_command
  run_command-Quiet s uptime_ms ping = shown-Quiet s _ _
  run_command-Quiet s uptime_ms status = shown-Quiet s _ _
  run_command-Quiet s uptime_ms home_assistant_status = shown-Quiet s _ _
  run_command-Quiet s uptime_ms wifi_scan = λ error e. absurd (ground arith)
  run_command-Quiet s uptime_ms runtime_benchmark = shown-Quiet s _ _
  run_command-Quiet s uptime_ms (home_assistant_config text) =
      apply_or_refuse-Quiet s _ _ _ (λ p. shown-Quiet s _ _)
  run_command-Quiet s uptime_ms (home_assistant_room_config text) =
      apply_or_refuse-Quiet s _ _ _ (λ p. shown-Quiet s _ _)
  run_command-Quiet s uptime_ms (home_assistant_room_pose_publish text) =
      apply_or_refuse-Quiet s (room_pose_publish_payload (home_assistant_room_pose_publish text))
        (λ p. published s (build_room_pose_publish_message str s.connection p))
        (codes "invalid_room_pose_publish")
        (λ p. published-Quiet s (build_room_pose_publish_message str s.connection p))
  run_command-Quiet s uptime_ms (tuning_config text) =
      apply_or_refuse-Quiet s _ _ _ (λ p. shown-Quiet s _ _)
  run_command-Quiet s uptime_ms (ble_tag_config text) =
      apply_or_refuse-Quiet s (ble_tag_config_payload (ble_tag_config text))
        (λ p. with_tags s (apply_ble_tag_config s.ble_identity_tags p))
        (codes "invalid_ble_tag_config")
        (λ p. with_tags-Quiet s (apply_ble_tag_config s.ble_identity_tags p))
  run_command-Quiet s uptime_ms (ble_tag_clear text) =
      apply_or_refuse-Quiet s (ble_tag_clear_payload (ble_tag_clear text))
        (λ p. with_tags s (apply_ble_tag_clear s.ble_identity_tags p))
        (codes "invalid_ble_tag_slot")
        (λ p. with_tags-Quiet s (apply_ble_tag_clear s.ble_identity_tags p))
  run_command-Quiet s uptime_ms (home_assistant_web_socket_config text) =
      apply_or_refuse-Quiet s _ _ _ (λ p. shown-Quiet s _ _)
  run_command-Quiet s uptime_ms (home_assistant_mqtt_endpoint text) =
      apply_or_refuse-Quiet s _ _ _ (λ p. shown-Quiet s _ _)
  run_command-Quiet s uptime_ms firmware_sync = shown-Quiet s _ _
  run_command-Quiet s uptime_ms (firmware_update target_version) = shown-Quiet s _ _
  run_command-Quiet s uptime_ms energy = shown-Quiet s _ _
  run_command-Quiet s uptime_ms (radar payload) = shown-Quiet s _ _

  handle_command-Quiet :
      (s : DeviceState) (uptime_ms : ℕ) (command : Text)
      → Quiet s (handle_command str firmware_version s uptime_ms command)
  unfolding handle_command
  handle_command-Quiet s uptime_ms command =
      elim (Bool-cases (is_empty command || text_eq command (codes "snapshot"))) [
        | inl view ↦ rw view (shown-Quiet s s [])
        | inr other ↦ elim (Bool-cases (text_eq command (codes "debug_status"))) [
          | inl view ↦ rw (other, view) (λ error e. absurd (ground arith))
          | inr no_view ↦ elim (Option-cases (parse_device_command command)) [
            | inl unknown ↦
                rw (other, no_view, unknown) (refused-Quiet s (codes "unsupported_command"))
            | inr (parsed, known) ↦
                rw (other, no_view, known) (run_command-Quiet s uptime_ms parsed)
          ]
        ]
      ]

  -- Bytes that are answered with an error, whether they are no UTF-8, no command, a command with a
  -- payload that does not parse, a tag slot that does not exist, or a pose message that does not
  -- fit, leave the device's state as it was, and cause nothing else.
  pub process_command_buffer-Quiet :
      (s : DeviceState) (uptime_ms : ℕ) (buffer : List ℕ) (h : Handled) (error : Text)
      → process_command_buffer str firmware_version s uptime_ms buffer ≡ some h
      → h.response ≡ failure error
      → (h.state ≡ s) × (h.effects ≡ [])
  unfolding process_command_buffer
  process_command_buffer-Quiet s uptime_ms buffer h error handled failed =
      elim (Bool-cases (is_empty buffer)) [
        | inl nothing ↦ absurd (ground arith)
        | inr bytes ↦
            let run = handle_decoded str firmware_version s uptime_ms (from_utf8 buffer) in
            let same : run ≡ h = some-injective run h (rw bytes at handled) in
            subst (Quiet s) same (quiet (from_utf8 buffer)) error failed
      ]
    where
      quiet : (o : Option Text) → Quiet s (handle_decoded str firmware_version s uptime_ms o)
      quiet none = refused-Quiet s (codes "invalid_utf8")
      quiet (some command) = handle_command-Quiet s uptime_ms (trim command)
