-- ===== src/Command/Tuning.antt =====
-- The tuning payload (command.rs): defaults, limits and casts.
use esp_wave_rider.Base.{ℕ, Bool, if◌then◌else◌}
use esp_wave_rider.Base.Int.{ℤ, pos, neg, ltb_ℤ, leb_ℤ, clamp_ℤ}
use esp_wave_rider.Text.{Text, codes}
use esp_wave_rider.Command.{DeviceCommand, tuning_config}
use esp_wave_rider.Command.Outcome.{Outcome, ok, payload_error, ◌>>=◌}
use esp_wave_rider.Command.Fields.{
  split_fields, field, parse_bool_token, parse_i32_or_default, cast_unsigned, positive_or,
}

pub record TuningConfigPayload : Type 0 where
  pub max_detection_range_cm : ℕ
  pub min_gate_energy : ℕ
  pub sensitivity_percent : ℕ
  pub presence_hold_ms : ℕ
  pub min_active_gates : ℕ
  pub min_activity_score : ℕ
  pub led_enabled : Bool
  pub led_brightness : ℕ

-- The settings that the parsed numbers stand for, defaults and limits applied.
unfoldable pub tuning_settings : ℤ → ℤ → ℤ → ℤ → ℤ → ℤ → Bool → ℤ → TuningConfigPayload
tuning_settings max_range min_energy sensitivity hold_ms min_gates min_activity led_enabled
      brightness =
    record {
      max_detection_range_cm =
          if ltb_ℤ (pos 0) max_range
          then cast_unsigned 16 (clamp_ℤ max_range (pos 1) (pos 65535))
          else 1120;
      min_gate_energy =
          if ltb_ℤ (pos 0) min_energy
          then cast_unsigned 16 (clamp_ℤ min_energy (pos 1) (pos 65535))
          else 25;
      sensitivity_percent =
          cast_unsigned 8 (clamp_ℤ (positive_or sensitivity (pos 55)) (pos 10) (pos 100));
      presence_hold_ms =
          if leb_ℤ (pos 0) hold_ms
          then cast_unsigned 16 (clamp_ℤ hold_ms (pos 3000) (pos 60000))
          else 4000;
      min_active_gates = cast_unsigned 8 (clamp_ℤ (positive_or min_gates (pos 1)) (pos 1) (pos 16));
      min_activity_score =
          cast_unsigned 8 (clamp_ℤ (positive_or min_activity (pos 10)) (pos 1) (pos 100));
      led_enabled = led_enabled;
      led_brightness =
          cast_unsigned 8 (clamp_ℤ (positive_or brightness (pos 32)) (pos 1) (pos 255));
    }

unfoldable pub parse_tuning_config_payload : Text → Outcome TuningConfigPayload
parse_tuning_config_payload payload = do
  fields ← split_fields 8 payload
  max_range ← parse_i32_or_default (field fields 0) (pos 0)
  min_energy ← parse_i32_or_default (field fields 1) (pos 0)
  sensitivity ← parse_i32_or_default (field fields 2) (pos 0)
  hold_ms ← parse_i32_or_default (field fields 3) (neg 1)
  min_gates ← parse_i32_or_default (field fields 4) (pos 0)
  min_activity ← parse_i32_or_default (field fields 5) (pos 0)
  brightness ← parse_i32_or_default (field fields 7) (pos 0)
  ok (
      tuning_settings max_range min_energy sensitivity hold_ms min_gates min_activity
        (parse_bool_token (field fields 6)) brightness)

unfoldable pub tuning_config_payload : DeviceCommand → Outcome TuningConfigPayload
tuning_config_payload (tuning_config payload) = parse_tuning_config_payload payload
tuning_config_payload _ = payload_error (codes "command is not tuning_config")
