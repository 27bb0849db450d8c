-- ===== src/Detection/Debug.antt =====
-- The status LED and the debug view of the detection in
-- rust/firmware/esp32s3/src/main.rs.
use esp_wave_rider.Base.{
  ℕ, ◌-◌, ◌*◌, ◌/◌, ◌%◌, ◌^◌, Bool, true, false, not, ◌&&◌, ◌||◌, none, some, [], ◌∷◌, ◌++◌, ltb,
  ◌==◌, if◌then◌else◌,
}
use esp_wave_rider.Text.{Text, codes}
use esp_wave_rider.Radar.{hex_digit}
use esp_wave_rider.Metrics.Candidate.{
  RadarDetectionDecision, candidate, invalid_metrics, out_of_range, insufficient_active_gates,
  low_activity, missing_energy_frame, low_energy, near_field_clutter, radar_detection_decision,
  effective_min_gate_energy, effective_min_activity_score,
}
use esp_wave_rider.Detection.{
  DetectionState, radar_tuning, active_radar_metrics, is_candidate, gpio_fallback_active,
  effective_presence_hold_ms, presence_decay_remaining_ms,
}

pub record StatusLedColor : Type 0 where
  pub r : ℕ
  pub g : ℕ
  pub b : ℕ

unfoldable pub status_led_rgb : DetectionState → ℕ → StatusLedColor
status_led_rgb s uptime_ms =
    let brightness = s.led_brightness in
    let remaining = presence_decay_remaining_ms s uptime_ms in
    let hold = effective_presence_hold_ms s in
    let green = remaining * brightness % 2 ^ 32 / hold % 2 ^ 8 in
    if not s.led_enabled
    then record { r = 0; g = 0; b = 0 }
    else if s.detection_candidate
    then record { r = 0; g = brightness; b = 0 }
    else if remaining == 0 || hold == 0
    then record { r = brightness; g = 0; b = 0 }
    else record { r = brightness - green; g = green; b = 0 }

unfoldable pub append_hex_byte : ℕ → Text
append_hex_byte value = hex_digit (value / 16) ∷ hex_digit (value % 16) ∷ []

unfoldable pub status_led_hex : DetectionState → ℕ → Text
status_led_hex s uptime_ms =
    let color = status_led_rgb s uptime_ms in
    append_hex_byte color.r ++ (append_hex_byte color.g ++ append_hex_byte color.b)

pub data LedPhase : Type 0 where
  disabled active_detection presence_decay idle : LedPhase

unfoldable pub detection_decision_reason : RadarDetectionDecision → Text
detection_decision_reason candidate = codes "radar_candidate"
detection_decision_reason invalid_metrics = codes "invalid_metrics"
detection_decision_reason out_of_range = codes "out_of_range"
detection_decision_reason insufficient_active_gates = codes "insufficient_active_gates"
detection_decision_reason low_activity = codes "low_activity"
detection_decision_reason missing_energy_frame = codes "missing_energy_frame"
detection_decision_reason low_energy = codes "low_energy"
detection_decision_reason near_field_clutter = codes "near_field_clutter"

pub record DetectionDebug : Type 0 where
  pub led_phase : LedPhase
  pub detection_reason : Text
  pub radar_candidate : Bool
  pub gpio_fallback : Bool
  pub clutter_suppressed : Bool
  pub effective_min_gate_energy : ℕ
  pub effective_min_activity_score : ℕ

abbrev pub is_clutter : RadarDetectionDecision → Bool
is_clutter near_field_clutter = true
is_clutter _ = false

unfoldable pub led_phase_of : DetectionState → ℕ → LedPhase
led_phase_of s uptime_ms =
    if not s.led_enabled
    then disabled
    else if s.detection_candidate
    then active_detection
    else if ltb 0 (presence_decay_remaining_ms s uptime_ms)
    then presence_decay
    else idle

unfoldable pub current_decision : DetectionState → RadarDetectionDecision
current_decision s = elim (active_radar_metrics s) [
  | none ↦ invalid_metrics
  | some metrics ↦ radar_detection_decision metrics s.latest_radar_frame (radar_tuning s)
]

unfoldable pub detection_debug : DetectionState → ℕ → DetectionDebug
detection_debug s uptime_ms =
    let decision = current_decision s in
    record {
      led_phase = led_phase_of s uptime_ms;
      detection_reason =
          if gpio_fallback_active s && not (is_candidate decision)
          then codes "gpio_fallback"
          else detection_decision_reason decision;
      radar_candidate = is_candidate decision;
      gpio_fallback = gpio_fallback_active s;
      clutter_suppressed = is_clutter decision;
      effective_min_gate_energy = effective_min_gate_energy (radar_tuning s);
      effective_min_activity_score = effective_min_activity_score (radar_tuning s);
    }
