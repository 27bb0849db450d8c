-- ===== src/Detection/Examples.antt =====
-- Runs of the presence logic, and its theorems at concrete states.
use esp_wave_rider.Base.{
  ◌+◌, ◌≤◌, ◌≡◌, refl, true, false, none, some, [], ◌∷◌, length, arith, ◌^◌, ◌-◌,
}
use esp_wave_rider.Text.{codes}
use esp_wave_rider.Fixed.Model.{list_vec}
use esp_wave_rider.Detection.{
  DetectionState, candidate_now, poll_presence, presence_decay_remaining_ms,
  effective_presence_hold_ms, saturating_inc, active_radar_metrics, gpio_fallback_active,
}
use esp_wave_rider.Detection.Uart.{receive_byte}
use esp_wave_rider.Detection.Debug.{status_led_rgb, led_phase_of}
use esp_wave_rider.Detection.Hold.{
  poll_presence_decides, Decided, run_polls, run_polls_hold, run_polls_stuck,
}
use esp_wave_rider.Detection.Led.{phase_color, status_led_rgb_lem}
use esp_wave_rider.Detection.Receive.{receive_byte_keeps}
use esp_wave_rider.Detection.Frames.{IsConsistent, uart, pin, handle_all, handle_all-IsConsistent}

abbrev idle_state : DetectionState
idle_state = record {
  max_detection_range_cm = 280;
  min_gate_energy = 25;
  sensitivity_percent = 55;
  presence_hold_ms = 15000;
  min_active_gates = 1;
  min_activity_score = 10;
  led_enabled = true;
  led_brightness = 24;
  presence = false;
  gpio_presence = false;
  detection_candidate = false;
  presence_initialized = true;
  presence_changes_total = 0;
  last_presence_poll_ms = 1000;
  last_detection_ms = 0;
  radar_bytes_total = 0;
  radar_frames_total = 0;
  ld2420_energy_frames_total = 0;
  last_radar_byte_ms = 0;
  radar_buffer = [];
  latest_energy_frame = none;
  latest_text_frame = none;
  latest_generic_frame = none;
  latest_radar_frame = none;
}

-- With no frame yet the presence pin is what counts.
pin_detects :
    candidate_now (record idle_state { last_presence_poll_ms = 2000; gpio_presence = true }) ≡ true
unfolding candidate_now active_radar_metrics gpio_fallback_active
pin_detects = refl

poll_presence_decides_example : Decided idle_state true 2000 (poll_presence idle_state true 2000)
poll_presence_decides_example = poll_presence_decides idle_state true 2000 (omega arith)

hold_is_15_s : effective_presence_hold_ms idle_state ≡ 15000
unfolding effective_presence_hold_ms
hold_is_15_s = refl

run_polls_hold_example :
    (run_polls (poll_presence idle_state true 2000) ((false, 2025) ∷ (false, 16999) ∷ [])).presence
    ≡ true
run_polls_hold_example =
    run_polls_hold idle_state true 2000 ((false, 2025) ∷ (false, 16999) ∷ []) (omega arith)
      (omega arith) pin_detects (omega (arith, hold_is_15_s))

abbrev old_state : DetectionState
old_state = record idle_state { last_presence_poll_ms = 2 ^ 32 - 1 }

run_polls_stuck_example :
    run_polls old_state ((true, 2 ^ 32 - 1) ∷ (true, 2 ^ 32 - 1) ∷ []) ≡ old_state
run_polls_stuck_example =
    run_polls_stuck ((true, 2 ^ 32 - 1) ∷ (true, 2 ^ 32 - 1) ∷ []) old_state (2 ^ 32 - 1)
      (omega arith) (omega arith)

abbrev fading_state : DetectionState
fading_state = record idle_state { last_detection_ms = 1000 }

-- Half of the hold is left.
fades : status_led_rgb fading_state 8500 ≡ record { r = 12; g = 12; b = 0 }
unfolding status_led_rgb presence_decay_remaining_ms effective_presence_hold_ms
fades = refl

status_led_rgb_lem_example :
    (status_led_rgb fading_state 8500
      ≡ phase_color
          (led_phase_of fading_state 8500)
          24
          (presence_decay_remaining_ms fading_state 8500)
          (effective_presence_hold_ms fading_state))
    × ((status_led_rgb fading_state 8500).r + (status_led_rgb fading_state 8500).g ≡ 24)
status_led_rgb_lem_example = status_led_rgb_lem fading_state 8500 (omega arith)

receive_byte_keeps_example :
    ((receive_byte list_vec idle_state 500 79).radar_buffer ≡ 79 ∷ [])
    × ((receive_byte list_vec idle_state 500 79).radar_bytes_total ≡ saturating_inc 0)
    × (length (receive_byte list_vec idle_state 500 79).radar_buffer ≤ 256)
receive_byte_keeps_example = receive_byte_keeps list_vec idle_state 500 79

idle-IsConsistent : IsConsistent idle_state
idle-IsConsistent = record { seen = refl; generic_only = refl }

handle_all-IsConsistent_example : IsConsistent (
    handle_all list_vec idle_state
      (uart 500 (some (codes "ON") ∷ []) ∷ uart 530 [] ∷ pin true 540 ∷ []))
handle_all-IsConsistent_example =
    handle_all-IsConsistent list_vec
      (uart 500 (some (codes "ON") ∷ []) ∷ uart 530 [] ∷ pin true 540 ∷ []) idle_state
      idle-IsConsistent
