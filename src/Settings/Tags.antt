-- ===== src/Settings/Tags.antt =====
-- `apply_tuning_config` and `apply_ble_tag_*` of
-- rust/firmware/esp32s3/src/main.rs.
use esp_wave_rider.Base.{ℕ, not, ◌&&◌, Option, none, some, List, get_elem?, set, if◌then◌else◌}
use esp_wave_rider.Base.Int.{neg, clamp_ℤ}
use esp_wave_rider.Text.{is_empty}
use esp_wave_rider.Ble.{BleIdentityTagState, clear_ble_identity_tag, normalize_ble_identity_value}
use esp_wave_rider.Command.Payloads.{BleTagConfigPayload, BleTagClearPayload}
use esp_wave_rider.Command.Tuning.{TuningConfigPayload}
use esp_wave_rider.Detection.{DetectionState}

unfoldable pub apply_tuning_config : DetectionState → TuningConfigPayload → DetectionState
apply_tuning_config s payload = record s {
  max_detection_range_cm = payload.max_detection_range_cm;
  min_gate_energy = payload.min_gate_energy;
  sensitivity_percent = payload.sensitivity_percent;
  presence_hold_ms = payload.presence_hold_ms;
  min_active_gates = payload.min_active_gates;
  min_activity_score = payload.min_activity_score;
  led_enabled = payload.led_enabled;
  led_brightness = payload.led_brightness;
}

-- The tag that a payload describes: cleared where its label or its address is empty.
unfoldable pub configured_tag : BleIdentityTagState → BleTagConfigPayload → BleIdentityTagState
configured_tag tag payload =
    let address = normalize_ble_identity_value payload.address in
    let occupied = not (is_empty payload.label) && not (is_empty address) in
    let named : BleIdentityTagState = record {
      occupied = occupied;
      label = payload.label;
      address = address;
      min_rssi = clamp_ℤ payload.min_rssi (neg 120) (neg 20);
      last_rssi = neg 127;
      last_seen_ms = 0;
    } in
    if not occupied then clear_ble_identity_tag named else named

-- The tags with the one found in the slot changed; `none` for a slot that is not there.
abbrev pub put_tag :
    List BleIdentityTagState
    → ℕ
    → (BleIdentityTagState → BleIdentityTagState)
    → Option BleIdentityTagState
    → Option (List BleIdentityTagState)
put_tag tags slot f none = none
put_tag tags slot f (some tag) = some (set tags slot (f tag))

abbrev pub change_tag :
    List BleIdentityTagState
    → ℕ
    → (BleIdentityTagState → BleIdentityTagState)
    → Option (List BleIdentityTagState)
change_tag tags slot f = put_tag tags slot f (get_elem? tags slot)

unfoldable pub apply_ble_tag_config :
    List BleIdentityTagState → BleTagConfigPayload → Option (List BleIdentityTagState)
apply_ble_tag_config tags payload = change_tag tags payload.slot (λ tag. configured_tag tag payload)

unfoldable pub apply_ble_tag_clear :
    List BleIdentityTagState → BleTagClearPayload → Option (List BleIdentityTagState)
apply_ble_tag_clear tags payload = change_tag tags payload.slot clear_ble_identity_tag
