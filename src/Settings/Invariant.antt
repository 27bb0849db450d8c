-- ===== src/Settings/Invariant.antt =====
-- What no command can break: the limits of the settings, the tags and the update state.
use esp_wave_rider.Base.{
  ℕ, ◌≡◌, refl, ap, ◌∙◌, ◌||◌, Option, none, some, List, [], ◌∷◌, All, Bool-cases, inl, inr,
}
use esp_wave_rider.Text.{Text, codes, is_empty, text_eq}
use esp_wave_rider.Fixed.{FixedString}
use esp_wave_rider.Ble.{BleIdentityTagState, clear_ble_identity_tag}
use esp_wave_rider.Command.{
  DeviceCommand, ping, status, home_assistant_status, wifi_scan, runtime_benchmark,
  home_assistant_config, home_assistant_room_config, home_assistant_room_pose_publish,
  tuning_config, ble_tag_config, ble_tag_clear, home_assistant_web_socket_config,
  home_assistant_mqtt_endpoint, firmware_sync, firmware_update, energy, radar, parse_device_command,
}
use esp_wave_rider.Command.Outcome.{Outcome, ok, payload_error, >>=-eq_ok, ok-injective}
use esp_wave_rider.Command.Fields.{field, split_fields, parse_optional_port}
use esp_wave_rider.Command.Payloads.{
  HomeAssistantMqttEndpointPayload, home_assistant_config_payload, room_config_payload,
  room_pose_publish_payload, home_assistant_websocket_config_payload,
  home_assistant_mqtt_endpoint_payload, ble_tag_config_payload, ble_tag_clear_payload,
  parse_home_assistant_mqtt_endpoint_payload,
}
use esp_wave_rider.Command.Tuning.{tuning_config_payload}
use esp_wave_rider.Command.Limits.{
  IsWithinLimits, IsPort, parse_optional_port-IsPort, parse_tuning_config_payload-IsWithinLimits,
  parse_home_assistant_config_payload-written,
}
use esp_wave_rider.Update.States.{
  IsConsistent, request_firmware_update-IsConsistent, request_firmware_sync-IsConsistent,
}
use esp_wave_rider.Settings.{
  Connection, apply_room_config, apply_home_assistant_config, apply_home_assistant_websocket_config,
  apply_home_assistant_mqtt_endpoint,
}
use esp_wave_rider.Settings.Tags.{
  apply_tuning_config, configured_tag, apply_ble_tag_config, apply_ble_tag_clear,
}
use esp_wave_rider.Settings.Messages.{MqttPublishMessage, build_room_pose_publish_message}
use esp_wave_rider.Settings.Handle.{
  DeviceState, Handled, stored, apply_or_refuse, with_tags, published, run_command, run_parsed,
  handle_command,
}
use esp_wave_rider.Settings.Limits.{
  tuning_of, IsConnection, IsTag, apply_room_config-IsConnection,
  apply_home_assistant_websocket_config-IsConnection,
  apply_home_assistant_mqtt_endpoint-IsConnection, apply_home_assistant_config-IsConnection,
  clear_ble_identity_tag-IsTag, configured_tag-IsTag, change_tag-IsTag,
}

pub record IsSane (s : DeviceState) : Type 0 where
  pub limits : IsWithinLimits (tuning_of s.detection)
  pub connection : IsConnection s.connection
  pub tags : All IsTag s.ble_identity_tags
  pub update : IsConsistent s.firmware_sync_state

-- A refusal leaves everything, so the applied payloads decide.
apply_or_refuse-IsSane :
    {A : Type 0} (s : DeviceState) (o : Outcome A) (apply : A → Handled) (error : Text)
    → IsSane s
    → ((p : A) → o ≡ ok p → IsSane (apply p).state)
    → IsSane (apply_or_refuse s o apply error).state
apply_or_refuse-IsSane s (ok p) apply error h applied = applied p refl
apply_or_refuse-IsSane s (payload_error message) apply error h applied = h

with_tags-IsSane :
    (s : DeviceState) (o : Option (List BleIdentityTagState))
    → IsSane s
    → ((tags : List BleIdentityTagState) → o ≡ some tags → All IsTag tags)
    → IsSane (with_tags s o).state
with_tags-IsSane s none h tagged = h
with_tags-IsSane s (some tags) h tagged = record {
  limits = h.limits;
  connection = h.connection;
  tags = tagged tags refl;
  update = h.update;
}

published-IsSane :
    (s : DeviceState) (o : Option MqttPublishMessage) → IsSane s → IsSane (published s o).state
published-IsSane s none h = h
published-IsSane s (some message) h = h

connection-IsSane :
    (s : DeviceState) (c : Connection)
    → IsSane s
    → IsConnection c
    → IsSane (record s { connection = c })
connection-IsSane s c h connected = record {
  limits = h.limits;
  connection = connected;
  tags = h.tags;
  update = h.update;
}

endpoint-IsPort :
    (text : Text) (p : HomeAssistantMqttEndpointPayload)
    → parse_home_assistant_mqtt_endpoint_payload text ≡ ok p
    → (q : ℕ) → p.mqtt_port ≡ some q
    → IsPort q
unfolding parse_home_assistant_mqtt_endpoint_payload
endpoint-IsPort text p e q given =
    let (fields, split_ok, r) = >>=-eq_ok (split_fields 5 text) _ e in
    let (port, port_ok, built) = >>=-eq_ok (parse_optional_port (field fields 1)) _ r in
    let same = ok-injective _ p built in
    let is_port : port ≡ some q = ap (λ t. t.mqtt_port) same ∙ given in
    parse_optional_port-IsPort (field fields 1) q (port_ok ∙ ap ok is_port)

module _ (str : FixedString) (firmware_version : Text) where
  pub run_command-IsSane :
      (s : DeviceState) (uptime_ms : ℕ) (command : DeviceCommand)
      → IsSane s
      → IsSane (run_command str firmware_version s uptime_ms command).state
  unfolding run_command
  run_command-IsSane s uptime_ms ping h = h
  run_command-IsSane s uptime_ms status h = h
  run_command-IsSane s uptime_ms home_assistant_status h = h
  run_command-IsSane s uptime_ms wifi_scan h = h
  run_command-IsSane s uptime_ms runtime_benchmark h = h
  run_command-IsSane s uptime_ms (home_assistant_config text) h =
      apply_or_refuse-IsSane s (home_assistant_config_payload (home_assistant_config text)) _ _ h
        (λ p e.
          let (port_text, written, reads, least, greatest) =
            parse_home_assistant_config_payload-written text p
              (unfold home_assistant_config_payload in e) in
          connection-IsSane s (apply_home_assistant_config s.connection p) h
            (apply_home_assistant_config-IsConnection s.connection p (least, greatest)))
  run_command-IsSane s uptime_ms (home_assistant_room_config text) h =
      apply_or_refuse-IsSane s (room_config_payload (home_assistant_room_config text)) _ _ h (λ p e.
        connection-IsSane s (apply_room_config s.connection p) h
          (apply_room_config-IsConnection s.connection p h.connection))
  run_command-IsSane s uptime_ms (home_assistant_room_pose_publish text) h =
      apply_or_refuse-IsSane s (room_pose_publish_payload (home_assistant_room_pose_publish text))
        (λ p. published s (build_room_pose_publish_message str s.connection p))
        (codes "invalid_room_pose_publish") h
        (λ p e. published-IsSane s (build_room_pose_publish_message str s.connection p) h)
  run_command-IsSane s uptime_ms (tuning_config text) h =
      apply_or_refuse-IsSane s (tuning_config_payload (tuning_config text))
        (λ p. stored (record s { detection = apply_tuning_config s.detection p }))
        (codes "invalid_tuning_config") h
        (λ p e. record {
          limits =
              unfold apply_tuning_config in
              parse_tuning_config_payload-IsWithinLimits text p (unfold tuning_config_payload in e);
          connection = h.connection;
          tags = h.tags;
          update = h.update;
        })
  run_command-IsSane s uptime_ms (ble_tag_config text) h =
      apply_or_refuse-IsSane s (ble_tag_config_payload (ble_tag_config text))
        (λ p. with_tags s (apply_ble_tag_config s.ble_identity_tags p))
        (codes "invalid_ble_tag_config") h
        (λ p e. with_tags-IsSane s (apply_ble_tag_config s.ble_identity_tags p) h (λ tags changed.
          change_tag-IsTag s.ble_identity_tags tags p.slot (λ tag. configured_tag tag p)
            (λ tag. configured_tag-IsTag tag p) h.tags (unfold apply_ble_tag_config in changed)))
  run_command-IsSane s uptime_ms (ble_tag_clear text) h =
      apply_or_refuse-IsSane s (ble_tag_clear_payload (ble_tag_clear text))
        (λ p. with_tags s (apply_ble_tag_clear s.ble_identity_tags p))
        (codes "invalid_ble_tag_slot") h
        (λ p e. with_tags-IsSane s (apply_ble_tag_clear s.ble_identity_tags p) h (λ tags changed.
          change_tag-IsTag s.ble_identity_tags tags p.slot clear_ble_identity_tag
            clear_ble_identity_tag-IsTag h.tags (unfold apply_ble_tag_clear in changed)))
  run_command-IsSane s uptime_ms (home_assistant_web_socket_config text) h =
      apply_or_refuse-IsSane s
        (home_assistant_websocket_config_payload (home_assistant_web_socket_config text)) _ _ h
        (λ p e.
          connection-IsSane s (apply_home_assistant_websocket_config s.connection p) h
            (apply_home_assistant_websocket_config-IsConnection s.connection p h.connection))
  run_command-IsSane s uptime_ms (home_assistant_mqtt_endpoint text) h =
      apply_or_refuse-IsSane s
        (home_assistant_mqtt_endpoint_payload (home_assistant_mqtt_endpoint text)) _ _ h
        (λ p e. connection-IsSane s (apply_home_assistant_mqtt_endpoint s.connection p) h (
          apply_home_assistant_mqtt_endpoint-IsConnection s.connection p
            (endpoint-IsPort text p (unfold home_assistant_mqtt_endpoint_payload in e))
            h.connection))
  run_command-IsSane s uptime_ms firmware_sync h = record {
    limits = h.limits;
    connection = h.connection;
    tags = h.tags;
    update =
        request_firmware_sync-IsConsistent firmware_version s.firmware_sync_state
          s.udp_discovery_peers uptime_ms h.update;
  }
  run_command-IsSane s uptime_ms (firmware_update target_version) h = record {
    limits = h.limits;
    connection = h.connection;
    tags = h.tags;
    update =
        request_firmware_update-IsConsistent s.firmware_sync_state target_version (codes "manual")
          (codes "manual") h.update;
  }
  run_command-IsSane s uptime_ms energy h = h
  run_command-IsSane s uptime_ms (radar payload) h = h

  run_parsed-IsSane :
      (s : DeviceState) (uptime_ms : ℕ) (o : Option DeviceCommand)
      → IsSane s
      → IsSane (run_parsed str firmware_version s uptime_ms o).state
  run_parsed-IsSane s uptime_ms none h = h
  run_parsed-IsSane s uptime_ms (some command) h = run_command-IsSane s uptime_ms command h

  handle_command-IsSane :
      (s : DeviceState) (uptime_ms : ℕ) (command : Text)
      → IsSane s
      → IsSane (handle_command str firmware_version s uptime_ms command).state
  unfolding handle_command
  handle_command-IsSane s uptime_ms command h =
      elim (Bool-cases (is_empty command || text_eq command (codes "snapshot"))) [
        | inl view ↦ rw view h
        | inr other ↦ elim (Bool-cases (text_eq command (codes "debug_status"))) [
          | inl view ↦ rw (other, view) h
          | inr no_view ↦
              rw (other, no_view) (run_parsed-IsSane s uptime_ms (parse_device_command command) h)
        ]
      ]

  -- The state after a list of commands, each with the time of its arrival.
  abbrev pub handle_commands : DeviceState → List (ℕ × Text) → DeviceState
  handle_commands s [] = s
  handle_commands s ((uptime_ms, command) ∷ commands) =
      handle_commands (handle_command str firmware_version s uptime_ms command).state commands

  -- Whatever texts arrive as commands, well formed or not, a device whose settings are sane keeps
  -- them so: the tuning stays within its limits, the port from 1 to 65535, the WebSocket path starts
  -- with a slash, the node has a name, the MQTT generation is a positive 32-bit number, every tag in
  -- use has a label, an address and a signal limit in range, and the update state is consistent.
  pub handle_commands-IsSane :
      (s : DeviceState) (commands : List (ℕ × Text))
      → IsSane s
      → IsSane (handle_commands s commands)
  handle_commands-IsSane s [] h = h
  handle_commands-IsSane s ((uptime_ms, command) ∷ commands) h =
      handle_commands-IsSane (handle_command str firmware_version s uptime_ms command).state
        commands (handle_command-IsSane s uptime_ms command h)
